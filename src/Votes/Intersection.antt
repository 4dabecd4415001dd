-- ===== src/Votes/Intersection.antt =====
-- Two majorities of one committee share members (voteset.go).
use testing_go_moi.Prelude.{
  ℕ, zero, suc, ◌+◌, ◌*◌, ◌^◌, ◌≤◌, ◌<◌, ◌≡◌, ◌≢◌, refl, ap, ◌∙◌, false, Option, none, some, List,
  [], ◌∷◌, arith, length, get_elem?, get_or, subst, true,
}
use testing_go_moi.Committee.{Committee, NodeSet, Member, get_quorum, two_thirds}
use testing_go_moi.Committee.Quorum.{two_thirds-lt, get_or-quorum_of}
use testing_go_moi.Votes.{
  Crypto, Vote, VoteSet, Checked, passed, refused, new_vote_set, super_majority, check_vote,
  add_vote, check_qc, add_signers, add_verified_vote, add_qc,
}
use testing_go_moi.Votes.Tally.{weight, tally, full_weight}
use testing_go_moi.Votes.Invariant.{IsFit}
use testing_go_moi.Votes.Certificates.{cs-add_verified_vote}
use testing_go_moi.Votes.Majority.{
  Step, vote, certificate, Reach, here, next, Reach-Inv, new_vote_set-Inv, super_majority_iff,
}

-- The weight at `j` of the members with a vote in both lists; the first has the index `i`.
unfoldable pub both : Committee → ℕ → ℕ → List (Option Vote) → List (Option Vote) → ℕ
both cs j i [] ws = 0
both cs j i (v ∷ vs) [] = 0
both cs j i (none ∷ vs) (w ∷ ws) = both cs j (i + 1) vs ws
both cs j i (some v ∷ vs) (none ∷ ws) = both cs j (i + 1) vs ws
both cs j i (some v ∷ vs) (some w ∷ ws) = weight cs j i + both cs j (i + 1) vs ws

-- Inclusion and exclusion: what two lists of votes weigh beyond the whole committee, both have.
pub tally-both :
    (cs : Committee) (j i n : ℕ) (vs ws : List (Option Vote))
    → length vs ≡ n
    → length ws ≡ n
    → tally cs j i vs + tally cs j i ws ≤ full_weight cs j i n + both cs j i vs ws
unfolding tally full_weight both
tally-both cs j i zero [] [] e f = omega arith
tally-both cs j i zero [] (w ∷ ws) e f = absurd (omega arith)
tally-both cs j i zero (v ∷ vs) ws e f = absurd (omega arith)
tally-both cs j i (suc n) [] ws e f = absurd (omega arith)
tally-both cs j i (suc n) (v ∷ vs) [] e f = absurd (omega arith)
tally-both cs j i (suc n) (none ∷ vs) (none ∷ ws) e f =
    omega (arith, tally-both cs j (i + 1) n vs ws (omega arith) (omega arith))
tally-both cs j i (suc n) (none ∷ vs) (some w ∷ ws) e f =
    omega (arith, tally-both cs j (i + 1) n vs ws (omega arith) (omega arith))
tally-both cs j i (suc n) (some v ∷ vs) (none ∷ ws) e f =
    omega (arith, tally-both cs j (i + 1) n vs ws (omega arith) (omega arith))
tally-both cs j i (suc n) (some v ∷ vs) (some w ∷ ws) e f =
    omega (arith, tally-both cs j (i + 1) n vs ws (omega arith) (omega arith))

module _ (crypto : Crypto) where
  cs-add_signers :
      (vs : VoteSet) (v : Vote) (members : List (ℕ × Member))
      → (add_signers crypto vs v members).cs ≡ vs.cs
  unfolding add_signers
  cs-add_signers vs v [] = refl
  cs-add_signers vs v ((i, m) ∷ rest) =
      cs-add_signers (add_verified_vote crypto vs v 1 i m.slots true).0 v rest
      ∙ cs-add_verified_vote crypto vs v 1 i m.slots true

  -- No step changes the committee.
  pub cs-Step : (h : ℕ) {s t : VoteSet} → Step crypto h s t → t.cs ≡ s.cs
  cs-Step h {s} (vote v) = added (check_vote crypto s v h) refl
    where
      added :
          (r : Checked (Vote × ℕ × List ℕ))
          → check_vote crypto s v h ≡ r
          → (add_vote crypto s v h).0.cs ≡ s.cs
      added (refused x) q = unfold add_vote in rw (q, add_vote) refl
      added (passed (w, i, slots)) q =
          unfold add_vote in rw (q, add_vote) (cs-add_verified_vote crypto s w 1 i slots false)
  cs-Step h {s} (certificate v) = added (check_qc crypto s v h) refl
    where
      added :
          (r : Checked (Vote × List (ℕ × Member)))
          → check_qc crypto s v h ≡ r
          → (add_qc crypto s v h).0.cs ≡ s.cs
      added (refused x) q = unfold add_qc in rw (q, add_qc) refl
      added (passed (w, members)) q = unfold add_qc in rw (q, add_qc) (cs-add_signers s w members)

  cs-Reach : (h : ℕ) {s t : VoteSet} → Reach crypto h s t → t.cs ≡ s.cs
  cs-Reach h here = refl
  cs-Reach h (next r st) = cs-Step h st ∙ cs-Reach h r

  -- Two vote sets over one committee, each built from an empty one by any votes and certificates,
  -- have majorities for hashes h and k. At the position of a set of n nodes that is not excluded,
  -- with n neither 0 nor 2^31 or more nor less than what the whole committee weighs there, the
  -- members with a vote in both weigh more than n / 3.
  pub super_majority_intersect :
      (h k view1 view2 type1 type2 : ℕ) (cs : Committee) (j : ℕ) {ns : NodeSet} {vs ws : VoteSet}
      → IsFit cs
      → 0 < cs.size
      → get_elem? cs.sets j ≡ some ns
      → ns.excluded_from_ics ≡ false
      → ns.set_size_without_delta ≢ 0
      → ns.set_size_without_delta < 2 ^ 31
      → full_weight cs j 0 cs.total_nodes ≤ ns.set_size_without_delta
      → Reach crypto h (new_vote_set view1 type1 cs) vs
      → Reach crypto k (new_vote_set view2 type2 cs) ws
      → super_majority (some vs) ≡ some h
      → super_majority (some ws) ≡ some k
      → ns.set_size_without_delta < 3 * both cs j 0 vs.votes ws.votes
  super_majority_intersect h k view1 view2 type1 type2 cs j {ns} {vs} {ws} f p at inside ne small
        whole r q maj1 maj2 =
      omega (
        arith,
        small,
        whole,
        two_thirds-lt ns.set_size_without_delta small,
        quorum,
        reaches h view1 type1 r maj1,
        reaches k view2 type2 q maj2,
        tally-both cs j 0 cs.total_nodes vs.votes ws.votes (sized h view1 type1 r)
            (sized k view2 type2 q),
      )
    where
      quorum : get_or (get_quorum cs) j 0 ≡ two_thirds ns.set_size_without_delta
      quorum = unfold get_quorum in get_or-quorum_of cs.sets j at inside ne

      same :
          (x view type : ℕ) {us : VoteSet}
          → Reach crypto x (new_vote_set view type cs) us
          → us.cs ≡ cs
      same x view type r = cs-Reach x r ∙ unfold new_vote_set in refl

      sized :
          (x view type : ℕ) {us : VoteSet}
          → Reach crypto x (new_vote_set view type cs) us
          → length us.votes ≡ cs.total_nodes
      sized x view type {us} r =
          (Reach-Inv crypto x (new_vote_set-Inv x view type cs f p) r).core.votes_sized
          ∙ ap (λ (c : Committee). c.total_nodes) (same x view type r)

      reaches :
          (x view type : ℕ) {us : VoteSet}
          → Reach crypto x (new_vote_set view type cs) us
          → super_majority (some us) ≡ some x
          → get_or (get_quorum cs) j 0 ≤ tally cs j 0 us.votes
      reaches x view type {us} r m =
          subst (λ c. get_or (get_quorum c) j 0 ≤ tally c j 0 us.votes) (same x view type r)
            ((super_majority_iff crypto x view type cs f p r).0 m j)
