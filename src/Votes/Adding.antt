-- ===== src/Votes/Adding.antt =====
-- `AddVote` keeps the invariant of a vote set (voteset.go).
use testing_go_moi.Prelude.Int.{pos}
use testing_go_moi.Prelude.{
  ℕ, suc, ◌≤◌, ◌<◌, ◌≡◌, refl, sym, ap, ◌∙◌, inl, inr, Bool, true, false, Option, none, some, List,
  [], ◌∷◌, arith, Bool-cases, Option-cases, ℕ_discrete, subst, length, get_or, set, get_or-set_self,
  get_or-set_ne,
}
use testing_go_moi.Committee.{Committee, NodeSet, get_quorum, quorum_of}
use testing_go_moi.Committee.Lookup.{get_krama_id_past}
use testing_go_moi.Votes.{
  Crypto, Vote, VoteSet, Checked, passed, refused, are_greater, store_vote, cross_quorum,
  add_verified_vote, check_vote, add_vote,
}
use testing_go_moi.Votes.Tally.{slots_at, tally-set, are_greater_get, are_greater_of}
use testing_go_moi.Votes.Invariant.{IsFit, Core, store_vote-Core}

-- With every vote for the hash `h`: a majority is recorded exactly when each quorum is reached.
pub record Inv (h : ℕ) (vs : VoteSet) : Type 0 where
  pub core : Core vs
  pub pending : vs.maj23_ts_hash ≡ none → are_greater vs.sum (get_quorum vs.cs) ≡ false
  pub reached :
      (x : ℕ) → vs.maj23_ts_hash ≡ some x → (x ≡ h) × (are_greater vs.sum (get_quorum vs.cs) ≡ true)
  pub ballots : (i : ℕ) (v : Vote) → get_or vs.votes i none ≡ some v → v.ts_hash ≡ h

pub length-quorum_of : (sets : List NodeSet) → length (quorum_of sets) ≡ length sets
unfolding quorum_of
length-quorum_of [] = refl
length-quorum_of (ns ∷ []) = refl
length-quorum_of (ns ∷ next ∷ rest) = ap suc (length-quorum_of (next ∷ rest))

pub length-get_quorum : (cs : Committee) → IsFit cs → length (get_quorum cs) ≡ cs.size
unfolding get_quorum
length-get_quorum cs f = omega (arith, length-quorum_of cs.sets, f.valid.sized)

-- The sums only grow.
store_vote_grows :
    (vs : VoteSet) (v : Vote) (power i j : ℕ)
    → Core vs
    → i < vs.cs.total_nodes
    → get_or vs.votes i none ≡ none
    → get_or vs.sum j 0 ≤ get_or (store_vote vs v power i (slots_at vs.cs i)).sum j 0
unfolding store_vote
store_vote_grows vs v power i j c h free = omega (
  arith,
  c.exact j,
  (store_vote-Core vs v power i c h free).exact j,
  tally-set vs.cs j 0 vs.votes i v (omega (arith, c.votes_sized)) free,
)

store_vote_reached :
    (vs : VoteSet) (v : Vote) (power i : ℕ)
    → Core vs
    → i < vs.cs.total_nodes
    → get_or vs.votes i none ≡ none
    → are_greater vs.sum (get_quorum vs.cs) ≡ true
    → are_greater (store_vote vs v power i (slots_at vs.cs i)).sum (get_quorum vs.cs) ≡ true
store_vote_reached vs v power i c h free r = are_greater_of _ (get_quorum vs.cs) λ j. omega (
  arith,
  store_vote_grows vs v power i j c h free,
  are_greater_get vs.sum (get_quorum vs.cs) j
      (omega (arith, length-get_quorum vs.cs c.fit, c.sum_sized)) r,
)

set_ballots :
    (h i : ℕ) (votes : List (Option Vote)) (v : Vote)
    → i < length votes
    → v.ts_hash ≡ h
    → ((k : ℕ) (w : Vote) → get_or votes k none ≡ some w → w.ts_hash ≡ h)
    → (k : ℕ) (w : Vote) → get_or (set votes i (some v)) k none ≡ some w
    → w.ts_hash ≡ h
set_ballots h i votes v lt e all k w at = elim (ℕ_discrete i k) [
  | yes q ↦
      let own : get_or (set votes i (some v)) k none ≡ some v =
        subst (λ j. get_or (set votes i (some v)) j none ≡ some v) q
          (get_or-set_self votes i (some v) none lt) in
      ground (arith, own, e, at)
  | no ne ↦ all k w (sym (get_or-set_ne votes i k (some v) none ne) ∙ at)
]

module _ (crypto : Crypto) where
  -- Recording the majority turns a set in which the new vote is stored into one with the invariant.
  cross_quorum-Inv :
      (h : ℕ) (vs : VoteSet) (vote : Vote) (is_qc : Bool)
      → Core vs
      → vote.ts_hash ≡ h
      → ((x : ℕ)
          → vs.maj23_ts_hash ≡ some x
          → (x ≡ h) × (are_greater vs.sum (get_quorum vs.cs) ≡ true))
      → ((i : ℕ) (v : Vote) → get_or vs.votes i none ≡ some v → v.ts_hash ≡ h)
      → Inv h (cross_quorum crypto vs vote is_qc)
  unfolding cross_quorum
  cross_quorum-Inv h vs vote is_qc c e r b = elim (Option-cases vs.maj23_ts_hash) [
    | inr (x, m) ↦
        rw (m, cross_quorum)
          (record { core = c; pending = λ n. ground arith; reached = r; ballots = b })
    | inl m ↦ elim (Bool-cases (are_greater vs.sum (get_quorum vs.cs))) [
      | inl g ↦
          rw (m, g, cross_quorum)
            (record {
              core = record {
                fit = c.fit;
                votes_sized = c.votes_sized;
                sum_sized = c.sum_sized;
                exact = c.exact;
                bits = c.bits;
              };
              pending = λ n. cc;
              reached = λ x q. ground arith;
              ballots = b;
            })
      | inr g ↦
          rw (m, g, cross_quorum)
            (record { core = c; pending = λ n. g; reached = λ x q. ground arith; ballots = b })
    ]
  ]

  pub add_verified_vote-Inv :
      (h : ℕ) (vs : VoteSet) (vote : Vote) (power i : ℕ) (is_qc : Bool)
      → Inv h vs
      → vote.ts_hash ≡ h
      → i < vs.cs.total_nodes
      → Inv h (add_verified_vote crypto vs vote power i (slots_at vs.cs i) is_qc).0
  unfolding add_verified_vote
  add_verified_vote-Inv h vs vote power i is_qc v e lt =
      elim (Option-cases (get_or vs.votes i none)) [
        | inr (old, q) ↦ rw (q, add_verified_vote) v
        | inl free ↦ rw (free, add_verified_vote) (stored free)
      ]
    where
      t : VoteSet
      t = store_vote vs vote power i (slots_at vs.cs i)

      stored : get_or vs.votes i none ≡ none → Inv h (cross_quorum crypto t vote is_qc)
      stored free =
          cross_quorum-Inv h t vote is_qc (store_vote-Core vs vote power i v.core lt free) e
            (unfold store_vote in
              λ x q. (
                (v.reached x q).0,
                store_vote_reached vs vote power i v.core lt free (v.reached x q).1,
              ))
            (unfold store_vote in
              set_ballots h i vs.votes vote (omega (arith, v.core.votes_sized)) e v.ballots)

  pub check_vote_ok :
      (vs : VoteSet) (vote : Option Vote) (expected i : ℕ) {v : Vote} {slots : List ℕ}
      → check_vote crypto vs vote expected ≡ passed (v, i, slots)
      → (vote ≡ some v)
        × (v.signer_index ≡ pos i)
        × (v.view ≡ vs.view)
        × (v.type ≡ vs.votetype)
        × (v.ts_hash ≡ expected)
        × (i < vs.cs.total_nodes)
        × (slots ≡ slots_at vs.cs i)
  unfolding check_vote slots_at
  check_vote_ok vs vote expected i h = ground (arith, get_krama_id_past vs.cs i)

  -- AddVote keeps the invariant of a vote set, whatever vote it is given: the running sums are the
  -- weights of the stored votes, the bits say where votes are, every vote is for the expected hash,
  -- and a majority is recorded exactly when each quorum is reached.
  pub add_vote-Inv :
      (h : ℕ) (vs : VoteSet) (vote : Option Vote) → Inv h vs → Inv h (add_vote crypto vs vote h).0
  unfolding add_vote
  add_vote-Inv h vs vote v = go (check_vote crypto vs vote h) refl
    where
      go :
          (r : Checked (Vote × ℕ × List ℕ))
          → check_vote crypto vs vote h ≡ r
          → Inv h (add_vote crypto vs vote h).0
      go (refused x) q = rw (q, add_vote) v
      go (passed (w, i, slots)) q =
          let (_, _, _, _, same, lt, at) = check_vote_ok vs vote h i q in
          rw (q, add_vote, at) (add_verified_vote-Inv h vs w 1 i false v same lt)
