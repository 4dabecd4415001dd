-- ===== src/Votes/Invariant.antt =====
-- What holds of a vote set between two calls (voteset.go).
use testing_go_moi.Prelude.{
  ℕ, ◌+◌, ◌^◌, ◌<◌, ◌≡◌, sym, ap, ◌∙◌, inl, inr, Bool, true, false, Option, none, some, List, arith,
  ◌==◌, ==_iff, if◌then◌else◌, Option-cases, ℕ_discrete, dec_lt, subst, length, length-set,
  length-replicate, get_or, set, get_or-set_self, get_or-set_ne, get_or-replicate, replicate,
}
use testing_go_moi.Bits.{ArrayOfBits, get_index, set_index, new_array_of_bits}
use testing_go_moi.Bits.Invariant.{new_array_of_bits-IsValid, set_index-IsValid}
use testing_go_moi.Bits.Invariant
use testing_go_moi.Bits.Index.{get_index-set_index, size-set_index, get_index-new_array_of_bits}
use testing_go_moi.Committee.{Committee, set_bit}
use testing_go_moi.Committee.Lookup.{IsValid, AllBelow, get_krama_id_in_range, get_krama_id_past}
use testing_go_moi.Votes.{Vote, VoteSet, new_vote_set, add_at, store_vote}
use testing_go_moi.Votes.Tally.{
  count, slots_at, weight, tally, full_weight, tally-le, tally-replicate, tally-set, length-add_at,
  get_or-add_at,
}

-- The committee's counters are right, and no `uint32` sum of its weights wraps.
pub record IsFit (cs : Committee) : Type 0 where
  pub valid : IsValid cs
  pub fits : (j : ℕ) → full_weight cs j 0 cs.total_nodes < 2 ^ 32

abbrev pub is_some {ℓ} : {A : Type ℓ} → Option A → Bool
is_some none = false
is_some (some a) = true

-- The bit array has a bit for each member, set where there is a vote.
abbrev pub Agrees : ℕ → Option ArrayOfBits → List (Option Vote) → Type 0
Agrees n none votes = n ≡ 0
Agrees n (some b) votes =
    Invariant.IsValid b × (b.size ≡ n) × ((i : ℕ) → get_index b i ≡ is_some (get_or votes i none))

pub record Core (vs : VoteSet) : Type 0 where
  pub fit : IsFit vs.cs
  pub votes_sized : length vs.votes ≡ vs.cs.total_nodes
  pub sum_sized : length vs.sum ≡ vs.cs.size
  pub exact : (j : ℕ) → get_or vs.sum j 0 ≡ tally vs.cs j 0 vs.votes
  pub bits : Agrees vs.cs.total_nodes vs.votes_bit_array vs.votes

pub slots_at-AllBelow : (cs : Committee) (i : ℕ) → IsFit cs → AllBelow cs.size (slots_at cs i)
unfolding slots_at
slots_at-AllBelow cs i f = elim (dec_lt i cs.total_nodes) [
  | no p ↦ rw (get_krama_id_past cs i (omega arith), slots_at) tt
  | yes p ↦
      let (info, here, (m, found, described)) = get_krama_id_in_range cs i f.valid p in
      rw (found, slots_at) described.2
]

new_bits-Agrees : (n : ℕ) → Agrees n (new_array_of_bits n) (replicate n none)
new_bits-Agrees n = elim (Option-cases (new_array_of_bits n)) [
  | inl e ↦ rw e (unfold new_array_of_bits in ground (arith, e))
  | inr (b, e) ↦ rw e (
    new_array_of_bits-IsValid n e,
    (get_index-new_array_of_bits n 0 e).0,
    λ i. (get_index-new_array_of_bits n i e).1 ∙ rw (get_or-replicate {A = Option Vote} n i none),
  )
]

pub new_vote_set-Core :
    (view votetype : ℕ) (cs : Committee) → IsFit cs → Core (new_vote_set view votetype cs)
unfolding new_vote_set
new_vote_set-Core view votetype cs f = record {
  fit = f;
  votes_sized = length-replicate cs.total_nodes none;
  sum_sized = length-replicate cs.size 0;
  exact = λ j. get_or-replicate cs.size j 0 ∙ sym (tally-replicate cs j 0 cs.total_nodes);
  bits = new_bits-Agrees cs.total_nodes;
}

set_bit-Agrees :
    (n i : ℕ) (bits : Option ArrayOfBits) (votes : List (Option Vote)) (v : Vote)
    → i < n
    → length votes ≡ n
    → Agrees n bits votes
    → Agrees n (set_bit bits i true) (set votes i (some v))
set_bit-Agrees n i none votes v h e a = a
set_bit-Agrees n i (some b) votes v h e a =
    (set_index-IsValid b i true a.0, size-set_index b i true ∙ a.1, agree)
  where
    agree :
        (k : ℕ)
        → get_index (set_index b i true).0 k ≡ is_some (get_or (set votes i (some v)) k none)
    agree k = get_index-set_index b i k true a.0 (omega (arith, a.1)) ∙ at_key (ℕ_discrete i k)
      where
        at_key :
            Dec (i ≡ k)
            → (if i == k then true else get_index b k)
              ≡ is_some (get_or (set votes i (some v)) k none)
        at_key (yes q) = rw ((==_iff i k).1 q) (
            subst (λ j. true ≡ is_some (get_or (set votes i (some v)) j none)) q
              (rw (get_or-set_self votes i (some v) none (omega arith))))
        at_key (no ne) = rw (get_or-set_ne votes i k (some v) none ne) (ground (arith, ne, a.2 k))

-- A vote in a free place keeps the sums exact and the bits in step.
pub store_vote-Core :
    (vs : VoteSet) (v : Vote) (power i : ℕ)
    → Core vs
    → i < vs.cs.total_nodes
    → get_or vs.votes i none ≡ none
    → Core (store_vote vs v power i (slots_at vs.cs i))
unfolding store_vote
store_vote-Core vs v power i c h free = record {
  fit = c.fit;
  votes_sized = length-set vs.votes i (some v) ∙ c.votes_sized;
  sum_sized = length-add_at 1 vs.sum (slots_at vs.cs i) ∙ c.sum_sized;
  exact = exact;
  bits = set_bit-Agrees vs.cs.total_nodes i vs.votes_bit_array vs.votes v h c.votes_sized c.bits;
}
  where
    after :
        (j : ℕ)
        → tally vs.cs j 0 (set vs.votes i (some v))
          ≡ tally vs.cs j 0 vs.votes + count j (slots_at vs.cs i)
    after j =
        unfold weight in
        (tally-set vs.cs j 0 vs.votes i v (omega (arith, c.votes_sized)) free
          ∙ ap (λ (k : ℕ). tally vs.cs j 0 vs.votes + weight vs.cs j k) zeroth)
      where
        zeroth : 0 + i ≡ i
        zeroth = omega arith

    exact :
        (j : ℕ)
        → get_or (add_at 1 vs.sum (slots_at vs.cs i)) j 0
          ≡ tally vs.cs j 0 (set vs.votes i (some v))
    exact j =
        get_or-add_at vs.sum (slots_at vs.cs i) j
          (subst (λ n. AllBelow n (slots_at vs.cs i)) (sym c.sum_sized)
            (slots_at-AllBelow vs.cs i c.fit))
          (omega (
            arith,
            c.exact j,
            after j,
            tally-le vs.cs j 0 (set vs.votes i (some v)),
            ap (full_weight vs.cs j 0) (length-set vs.votes i (some v) ∙ c.votes_sized),
            c.fit.fits j,
          ))
        ∙ omega (arith, c.exact j, after j)
