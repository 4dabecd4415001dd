-- ===== src/Kbft/Agreement.antt =====
-- What a node commits in its first view (kbft.go).
use testing_go_moi.Prelude.{
  ℕ, ◌≤◌, ◌<◌, ◌≡◌, refl, sym, ap, ◌∙◌, ◌⊎◌, inl, inr, Bool, none, some, [], ◌∷◌, arith, subst, Map,
  get_or,
}
use testing_go_moi.Committee.{Committee, get_quorum}
use testing_go_moi.Votes.{VoteSet, super_majority, new_vote_set}
use testing_go_moi.Votes.Tally.{tally}
use testing_go_moi.Votes.Invariant.{IsFit}
use testing_go_moi.Votes.Adding.{Inv}
use testing_go_moi.Height.{new_height_vote_set}
use testing_go_moi.Kbft.{Proposal, proposed, voted, Kbft, Node, new_kbft}
use testing_go_moi.Kbft.Handlers.{enter_new_view, handle_timeout, handle_msg}
use testing_go_moi.Kbft.Steps.{Step, timeout, message, Reach, here, next}
use testing_go_moi.Kbft.Commit.{Sound}
use testing_go_moi.Kbft.Steps.{Step-Ahead}
use testing_go_moi.Votes.Tally.{are_greater_get}
use testing_go_moi.Votes.Adding.{length-get_quorum}
use testing_go_moi.Kbft.Decision.{set_proposal-Sound, enter_new_view-Sound, receive_vote-Sound}

-- The quorum at each position, from the invariant of the vote set.
quorum_reached :
    (h : ℕ) (vs : VoteSet) (j : ℕ)
    → Inv h vs
    → vs.maj23_ts_hash ≡ some h
    → get_or (get_quorum vs.cs) j 0 ≤ tally vs.cs j 0 vs.votes
quorum_reached h vs j i m = omega (
  arith,
  i.core.exact j,
  are_greater_get vs.sum (get_quorum vs.cs) j
      (omega (arith, length-get_quorum vs.cs i.core.fit, i.core.sum_sized)) (i.reached h m).1,
)

module _ (node : Node) (first : ℕ) (cs : Committee) (f : IsFit cs) (some_set : 0 < cs.size) where
  pub handle_timeout-cases :
      (s : Kbft) (view step : ℕ)
      → (handle_timeout node s view step ≡ s)
        ⊎ (handle_timeout node s view step ≡ enter_new_view node s view)
  unfolding handle_timeout
  handle_timeout-cases s view step = ground arith

  Step-Sound :
      {s t : Kbft}
      → Step node s t
      → s.view ≡ first
      → t.view ≡ first
      → Sound first cs s
      → Sound first cs t
  Step-Sound {s} (timeout view step) at_first back i = elim (handle_timeout-cases s view step) [
    | inl e ↦ rw e i
    | inr e ↦ rw e (
        enter_new_view-Sound node first cs f some_set s view at_first
          (ap (λ (u : Kbft). u.view) (sym e) ∙ back) i)
  ]
  Step-Sound {s} (message (proposed p) peer) at_first back i =
      unfold handle_msg in set_proposal-Sound node first cs f some_set s p i
  Step-Sound {s} (message (voted v) peer) at_first back i =
      unfold handle_msg in receive_vote-Sound node first cs f some_set s v peer i

  pub Reach-Sound :
      {s t : Kbft}
      → Reach node s t
      → s.view ≡ first
      → Sound first cs s
      → (first ≤ t.view) × (t.view ≡ first → Sound first cs t)
  Reach-Sound here at_first i = (omega (arith, at_first), λ e. i)
  Reach-Sound {s} {t = u} (next {t} r st) at_first i =
      let (low, sound) = Reach-Sound r at_first i in
      let (up, _) = Step-Ahead node st in
      (
        omega (arith, low, up),
        λ back.
            let same : t.view ≡ first = omega (arith, low, up, back) in
            Step-Sound st same back (sound same),
      )

  pub first_view-Sound :
      (heights : Map ℕ) (is_stored : Bool) {t : Kbft}
      → Reach node (new_kbft heights first (new_height_vote_set first cs) is_stored) t
      → t.view ≡ first
      → Sound first cs t
  first_view-Sound heights is_stored {t} r back =
      (Reach-Sound r (unfold new_kbft in refl) (
          unfold new_kbft new_height_vote_set new_vote_set in
          record {
            unproposed = λ n. (refl, refl);
            counting = λ p q. absurd (none_yet p q);
            over = refl;
            decided = inl refl;
          })).1
        back
    where
      none_yet : (p : Proposal) → none ≡ some p → ⊥
      none_yet p q = cc

  pub precommits_reach :
      (t : Kbft) (p : Proposal) (j : ℕ)
      → Sound first cs t
      → t.proposal ≡ some p
      → t.votes.precommits.maj23_ts_hash ≡ some p.tesseract
      → get_or (get_quorum cs) j 0 ≤ tally cs j 0 t.votes.precommits.votes
  precommits_reach t p j i q m =
      subst (λ c. get_or (get_quorum c) j 0 ≤ tally c j 0 t.votes.precommits.votes) i.over
        (quorum_reached p.tesseract t.votes.precommits j (i.counting p q).1.2 m)

  -- A node starts in a view with a committee that has right counters and no wrapping sum. Whatever
  -- timeouts and messages it then handles, while it is in that view it has committed nothing, or one
  -- tesseract: that of its proposal, which has the majority of the precommits, and at each position
  -- the members whose precommits it has stored weigh at least the quorum.
  pub committed_quorum :
      (heights : Map ℕ) (is_stored : Bool) {t : Kbft}
      → Reach node (new_kbft heights first (new_height_vote_set first cs) is_stored) t
      → t.view ≡ first
      → (t.committed ≡ [])
        ⊎ ((p : Proposal) × (t.proposal ≡ some p)
            × (t.committed ≡ p.tesseract ∷ [])
            × (super_majority (some t.votes.precommits) ≡ some p.tesseract)
            × ((j : ℕ) → get_or (get_quorum cs) j 0 ≤ tally cs j 0 t.votes.precommits.votes))
  unfolding super_majority
  committed_quorum heights is_stored {t} r back =
      let sound : Sound first cs t = first_view-Sound heights is_stored r back in
      elim sound.decided [
        | inl c ↦ inl c
        | inr (late, (p, q, c, m)) ↦ inr (p, q, c, m, λ j. precommits_reach t p j sound q m)
      ]
