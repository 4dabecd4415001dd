-- ===== src/Votes/Majority.antt =====
-- When a vote set has a majority, over every sequence of votes and certificates (voteset.go).
use testing_go_moi.Prelude.{
  ℕ, suc, ◌≤◌, ◌<◌, ◌≡◌, ◌↔◌, refl, ap, ◌∙◌, inl, inr, Bool, true, false, Option, none, some, List,
  [], ◌∷◌, arith, Option-cases, length, length-replicate, get_or, get_or-replicate, replicate,
}
use testing_go_moi.Committee.{Committee, NodeSet, get_quorum, quorum_of, random_quorum_size}
use testing_go_moi.Votes.{
  Crypto, Vote, VoteSet, new_vote_set, are_greater, super_majority, add_vote, add_qc,
}
use testing_go_moi.Votes.Tally.{tally, are_greater_get, are_greater_of}
use testing_go_moi.Votes.Invariant.{IsFit, new_vote_set-Core}
use testing_go_moi.Votes.Adding.{Inv, add_vote-Inv, length-quorum_of, length-get_quorum}
use testing_go_moi.Votes.Certificates.{add_qc-Inv}

-- The last quorum is never 0.
some_quorum : (sets : List NodeSet) → 0 < length sets → (j : ℕ) × (0 < get_or (quorum_of sets) j 0)
unfolding quorum_of random_quorum_size
some_quorum [] h = absurd (omega arith)
some_quorum (ns ∷ []) h = (0, omega arith)
some_quorum (ns ∷ next ∷ rest) h =
    let (j, p) = some_quorum (next ∷ rest) (omega arith) in (suc j, p)

-- So a vote set without votes has no majority.
pub new_vote_set-Inv :
    (h view votetype : ℕ) (cs : Committee)
    → IsFit cs
    → 0 < cs.size
    → Inv h (new_vote_set view votetype cs)
unfolding new_vote_set get_quorum
new_vote_set-Inv h view votetype cs f p = record {
  core = new_vote_set-Core view votetype cs f;
  pending = λ n. none_reached (are_greater (replicate cs.size 0) (get_quorum cs)) refl;
  reached = λ x q. absurd (no_hash x q);
  ballots = λ i v q. absurd (no_vote i v q);
}
  where
    no_hash : (x : ℕ) → none ≡ some x → ⊥
    no_hash x q = cc

    no_vote : (i : ℕ) (v : Vote) → get_or (replicate cs.total_nodes none) i none ≡ some v → ⊥
    no_vote i v q = cc (q, get_or-replicate {A = Option Vote} cs.total_nodes i none)

    none_reached :
        (b : Bool)
        → are_greater (replicate cs.size 0) (get_quorum cs) ≡ b
        → are_greater (replicate cs.size 0) (get_quorum cs) ≡ false
    none_reached false e = e
    none_reached true e =
        let (j, q) = some_quorum cs.sets (omega (arith, f.valid.sized)) in
        absurd (
          omega (
            arith,
            q,
            are_greater_get (replicate cs.size 0) (quorum_of cs.sets) j
                (omega (
                  arith,
                  length-quorum_of cs.sets,
                  f.valid.sized,
                  length-replicate {A = ℕ} cs.size 0,
                ))
                e,
            get_or-replicate {A = ℕ} cs.size j 0,
          ))

-- Quorums that are reached make a majority.
pub majority_of :
    (h : ℕ) (vs : VoteSet)
    → Inv h vs
    → ((j : ℕ) → get_or (get_quorum vs.cs) j 0 ≤ tally vs.cs j 0 vs.votes)
    → vs.maj23_ts_hash ≡ some h
majority_of h vs i all = elim (Option-cases vs.maj23_ts_hash) [
  | inl none_yet ↦
      let full : are_greater vs.sum (get_quorum vs.cs) ≡ true =
        are_greater_of vs.sum (get_quorum vs.cs) (λ j. omega (arith, i.core.exact j, all j)) in
      absurd (ground (arith, full, i.pending none_yet))
  | inr (x, m) ↦ m ∙ ap some (i.reached x m).0
]

module _ (crypto : Crypto) where
  -- A vote or a certificate arrives, from anyone.
  pub data Step (h : ℕ) (s : VoteSet) : VoteSet → Type 0 where
    vote : (v : Option Vote) → Step h s (add_vote crypto s v h).0
    certificate : (v : Option Vote) → Step h s (add_qc crypto s v h).0

  pub data Reach (h : ℕ) (s : VoteSet) : VoteSet → Type 0 where
    here : Reach h s s
    next : {t u : VoteSet} → Reach h s t → Step h t u → Reach h s u

  Step-Inv : (h : ℕ) {s t : VoteSet} → Step h s t → Inv h s → Inv h t
  Step-Inv h {s} (vote v) i = add_vote-Inv crypto h s v i
  Step-Inv h {s} (certificate v) i = add_qc-Inv crypto h s v i

  pub Reach-Inv : (h : ℕ) {s t : VoteSet} → Inv h s → Reach h s t → Inv h t
  Reach-Inv h i here = i
  Reach-Inv h i (next r st) = Step-Inv h st (Reach-Inv h i r)

  -- In a vote set built from an empty one by any votes and certificates for the expected hash h,
  -- over a committee with right counters and no wrapping sum, h has the majority exactly when at
  -- each position the members whose votes are stored weigh at least the quorum.
  pub super_majority_iff :
      (h view votetype : ℕ) (cs : Committee) {vs : VoteSet}
      → IsFit cs
      → 0 < cs.size
      → Reach h (new_vote_set view votetype cs) vs
      → (super_majority (some vs) ≡ some h)
        ↔ ((j : ℕ) → get_or (get_quorum vs.cs) j 0 ≤ tally vs.cs j 0 vs.votes)
  super_majority_iff h view votetype cs {vs} f p r = (weighs, has)
    where
      i : Inv h vs
      i = Reach-Inv h (new_vote_set-Inv h view votetype cs f p) r

      weighs :
          super_majority (some vs) ≡ some h
          → (j : ℕ) → get_or (get_quorum vs.cs) j 0 ≤ tally vs.cs j 0 vs.votes
      weighs m j = omega (
        arith,
        i.core.exact j,
        are_greater_get vs.sum (get_quorum vs.cs) j
            (omega (arith, length-get_quorum vs.cs i.core.fit, i.core.sum_sized))
            (i.reached h (unfold super_majority in m)).1,
      )

      has :
          ((j : ℕ) → get_or (get_quorum vs.cs) j 0 ≤ tally vs.cs j 0 vs.votes)
          → super_majority (some vs) ≡ some h
      has all = unfold super_majority in majority_of h vs i all
