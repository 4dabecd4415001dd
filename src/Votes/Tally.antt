-- ===== src/Votes/Tally.antt =====
-- The weight of the stored votes at each position of the committee, counted vote by vote: the
-- description against which the running sums of voteset.go are held.
use testing_go_moi.Prelude.Int.{pos}
use testing_go_moi.Prelude.{
  ℕ, zero, suc, ◌+◌, ◌^◌, ◌≤◌, ◌<◌, ◌≡◌, refl, sym, ap, ◌∙◌, true, Option, none, some, List, [],
  ◌∷◌, arith, ◌==◌, if◌then◌else◌, ℕ_discrete, subst, length, length-set, get_or, set,
  get_or-set_self, get_or-set_ne, replicate,
}
use testing_go_moi.Committee.{Committee, get_krama_id, u32}
use testing_go_moi.Committee.Lookup.{AllBelow}
use testing_go_moi.Votes.{Vote, add_at, are_greater}

abbrev pub count : ℕ → List ℕ → ℕ
count j [] = 0
count j (x ∷ xs) = let rest = count j xs in if x == j then suc rest else rest

-- The slots of the member with an index.
unfoldable pub slots_at : Committee → ℕ → List ℕ
slots_at cs i = elim (get_krama_id cs (pos i)) [ none ↦ [] | some m ↦ m.slots ]

-- What the member `i` weighs at the position `j`.
unfoldable pub weight : Committee → ℕ → ℕ → ℕ
weight cs j i = count j (slots_at cs i)

-- The weight at `j` of the votes that are there; the first has the index `i`.
unfoldable pub tally : Committee → ℕ → ℕ → List (Option Vote) → ℕ
tally cs j i [] = 0
tally cs j i (none ∷ votes) = tally cs j (i + 1) votes
tally cs j i (some v ∷ votes) = weight cs j i + tally cs j (i + 1) votes

-- The weight at `j` of `n` members from `i` on.
unfoldable pub full_weight : Committee → ℕ → ℕ → ℕ → ℕ
full_weight cs j i zero = 0
full_weight cs j i (suc n) = weight cs j i + full_weight cs j (i + 1) n

pub tally-le :
    (cs : Committee) (j i : ℕ) (votes : List (Option Vote))
    → tally cs j i votes ≤ full_weight cs j i (length votes)
unfolding tally full_weight
tally-le cs j i [] = omega arith
tally-le cs j i (none ∷ votes) = omega (arith, tally-le cs j (i + 1) votes)
tally-le cs j i (some v ∷ votes) = omega (arith, tally-le cs j (i + 1) votes)

pub tally-replicate : (cs : Committee) (j i n : ℕ) → tally cs j i (replicate n none) ≡ 0
unfolding tally
tally-replicate cs j i zero = refl
tally-replicate cs j i (suc n) = tally-replicate cs j (i + 1) n

-- A vote in a free place adds the weight of its member.
pub tally-set :
    (cs : Committee) (j i : ℕ) (votes : List (Option Vote)) (k : ℕ) (v : Vote)
    → k < length votes
    → get_or votes k none ≡ none
    → tally cs j i (set votes k (some v)) ≡ tally cs j i votes + weight cs j (i + k)
unfolding tally
tally-set cs j i [] k v h free = elim h [ ]
tally-set cs j i (none ∷ votes) zero v h free = omega (arith, ap (weight cs j) (same i))
  where
    same : (i : ℕ) → i + 0 ≡ i
    same i = omega arith
tally-set cs j i (some w ∷ votes) zero v h free = cc
tally-set cs j i (none ∷ votes) (suc k) v h free =
    omega (arith, tally-set cs j (i + 1) votes k v (omega arith) free, ap (weight cs j) (step i k))
  where
    step : (i k : ℕ) → i + 1 + k ≡ i + suc k
    step i k = omega arith
tally-set cs j i (some w ∷ votes) (suc k) v h free =
    omega (arith, tally-set cs j (i + 1) votes k v (omega arith) free, ap (weight cs j) (step i k))
  where
    step : (i k : ℕ) → i + 1 + k ≡ i + suc k
    step i k = omega arith

pub length-add_at : (p : ℕ) (sum js : List ℕ) → length (add_at p sum js) ≡ length sum
unfolding add_at
length-add_at p sum [] = refl
length-add_at p sum (j ∷ js) =
    length-add_at p (set sum j (u32 (get_or sum j 0 + p))) js ∙ length-set sum j _

abbrev hit : ℕ → ℕ → ℕ
hit k j = if k == j then 1 else 0

count-cons : (j k : ℕ) (js : List ℕ) → count j (k ∷ js) ≡ hit k j + count j js
count-cons j k js = ground arith

bumped :
    (sum : List ℕ) (k j : ℕ)
    → k < length sum
    → get_or sum j 0 + hit k j < 2 ^ 32
    → get_or (set sum k (u32 (get_or sum k 0 + 1))) j 0 ≡ get_or sum j 0 + hit k j
bumped sum k j h fits = elim (ℕ_discrete k j) [
  | yes e ↦
      subst
        (λ i.
          get_or sum i 0 + hit k i < 2 ^ 32
          → get_or (set sum k (u32 (get_or sum k 0 + 1))) i 0 ≡ get_or sum i 0 + hit k i)
        e (λ f. rw (get_or-set_self sum k _ 0 h) (ground arith)) fits
  | no ne ↦ rw (get_or-set_ne sum k j _ 0 ne) (ground (arith, ne))
]

-- Where nothing wraps, `updateSum` adds one for each time that the position stands in the slots.
pub get_or-add_at :
    (sum js : List ℕ) (j : ℕ)
    → AllBelow (length sum) js
    → get_or sum j 0 + count j js < 2 ^ 32
    → get_or (add_at 1 sum js) j 0 ≡ get_or sum j 0 + count j js
unfolding add_at
get_or-add_at sum [] j h fits = omega arith
get_or-add_at sum (k ∷ js) j h fits = omega (
  arith,
  count-cons j k js,
  first,
  get_or-add_at (set sum k (u32 (get_or sum k 0 + 1))) js j
      (subst (λ n. AllBelow n js) (sym (length-set sum k _)) h.1)
      (omega (arith, count-cons j k js, first)),
)
  where
    first : get_or (set sum k (u32 (get_or sum k 0 + 1))) j 0 ≡ get_or sum j 0 + hit k j
    first = bumped sum k j h.0 (omega (arith, count-cons j k js))

pub are_greater_get :
    (sum quorum : List ℕ) (j : ℕ)
    → length sum ≡ length quorum
    → are_greater sum quorum ≡ true
    → get_or quorum j 0 ≤ get_or sum j 0
unfolding are_greater
are_greater_get [] [] j e h = omega arith
are_greater_get [] (q ∷ qs) j e h = absurd (omega arith)
are_greater_get (x ∷ xs) [] j e h = absurd (omega arith)
are_greater_get (x ∷ xs) (q ∷ qs) zero e h = ground arith
are_greater_get (x ∷ xs) (q ∷ qs) (suc j) e h = are_greater_get xs qs j (omega arith) (ground arith)

pub are_greater_of :
    (sum quorum : List ℕ)
    → ((j : ℕ) → get_or quorum j 0 ≤ get_or sum j 0)
    → are_greater sum quorum ≡ true
unfolding are_greater
are_greater_of [] qs h = refl
are_greater_of (x ∷ xs) [] h = refl
are_greater_of (x ∷ xs) (q ∷ qs) h = ground (arith, h 0, are_greater_of xs qs (λ j. h (suc j)))
