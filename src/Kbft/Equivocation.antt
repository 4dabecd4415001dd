-- ===== src/Kbft/Equivocation.antt =====
-- A node sends at most one vote of each kind for a view (kbft.go).
use testing_go_moi.Prelude.{
  ℕ, ◌≤◌, ◌≡◌, refl, sym, ap, ◌∙◌, ◌⊎◌, inl, inr, Bool, true, false, ◌&&◌, Option, some, arith,
  Bool-cases, subst, Map,
}
use testing_go_moi.Votes.{Vote, VoteError, prevote, precommit}
use testing_go_moi.Height.{HeightVoteSet, set_ts_hash, add_height_vote, add_height_qc}
use testing_go_moi.Kbft.{
  step_propose, Proposal, proposed, voted, Kbft, Node, to_step, is_leader, enter_prevote,
  enter_precommit, enter_commit, new_kbft,
}
use testing_go_moi.Kbft.Handlers.{
  with_proposal, set_proposal, proposing, enter_propose, new_view, enter_new_view, handle_timeout,
  after_vote, counted, receive_vote, handle_msg,
}
use testing_go_moi.Kbft.Steps.{
  Ahead, with_proposal-step, proposing-step, enter_commit-Ahead, Step, timeout, message, Reach,
  here, next,
}
use testing_go_moi.Kbft.Ballots.{ballots, NoMore, KbftInv}
use testing_go_moi.Kbft.Sending.{
  quiet, proposed-NoMore, enter_prevote-Inv, enter_precommit-Inv, enter_commit-NoMore,
}

module _ (node : Node) where
  with_proposal-NoMore : (s : Kbft) (p : Proposal) → NoMore (with_proposal node s p).sent s.sent
  unfolding with_proposal
  with_proposal-NoMore s p = elim (Bool-cases (is_leader node node.id)) [
    | inr e ↦ rw (e, with_proposal) (λ v. (refl, refl))
    | inl e ↦
        rw (e, with_proposal)
          (proposed-NoMore node
            (record s { proposal = some p; votes = set_ts_hash s.votes p.tesseract }) false p)
  ]

  proposing-NoMore : (s : Kbft) (view : ℕ) → NoMore (proposing node s view).sent s.sent
  unfolding proposing to_step
  proposing-NoMore s view = elim (Bool-cases (node.has_vault && is_leader node node.id)) [
    | inr e ↦ rw (e, proposing) (λ v. (refl, refl))
    | inl e ↦ rw (e, proposing) (proposed-NoMore node s true node.own_proposal)
  ]

  set_proposal-cases :
      (s : Kbft) (p : Proposal)
      → let t = with_proposal node s p in
        (set_proposal node s p ≡ s)
        ⊎ ((set_proposal node s p ≡ t) ⊎ (set_proposal node s p ≡ enter_prevote node t t.view))
  unfolding set_proposal
  set_proposal-cases s p = ground arith

  set_proposal-Inv : (s : Kbft) (p : Proposal) → KbftInv s → KbftInv (set_proposal node s p)
  set_proposal-Inv s p i = elim (set_proposal-cases s p) [
    | inl e ↦ subst KbftInv (sym e) i
    | inr (inl e) ↦ subst KbftInv (sym e) ready
    | inr (inr e) ↦ subst KbftInv (sym e) (enter_prevote-Inv node (with_proposal node s p) ready)
  ]
    where
      ready : KbftInv (with_proposal node s p)
      ready = quiet node s (with_proposal node s p) i (with_proposal-NoMore s p) (
        omega (arith, with_proposal-step node s p),
        λ q. omega (arith, with_proposal-step node s p),
      )

  enter_propose-cases :
      (s : Kbft) (view : ℕ)
      → let t = proposing node s view in
        (enter_propose node s view ≡ s)
        ⊎ ((s.view ≤ view)
            × (s.view ≡ view → s.step ≤ step_propose)
            × ((enter_propose node s view ≡ t)
                ⊎ (enter_propose node s view ≡ enter_prevote node t t.view)))
  unfolding enter_propose
  enter_propose-cases s view = ground arith

  enter_propose-Inv : (s : Kbft) (view : ℕ) → KbftInv s → KbftInv (enter_propose node s view)
  enter_propose-Inv s view i = elim (enter_propose-cases s view) [
    | inl e ↦ subst KbftInv (sym e) i
    | inr (up, on, inl e) ↦ subst KbftInv (sym e) (ready up on)
    | inr (up, on, inr e) ↦
        subst KbftInv (sym e) (enter_prevote-Inv node (proposing node s view) (ready up on))
  ]
    where
      ready :
          s.view ≤ view → (s.view ≡ view → s.step ≤ step_propose) → KbftInv (proposing node s view)
      ready up on = quiet node s (proposing node s view) i (proposing-NoMore s view) (
        omega (arith, proposing-step node s view),
        λ q.
            omega
              (arith, proposing-step node s view, on (omega (arith, proposing-step node s view))),
      )

  enter_new_view-cases :
      (s : Kbft) (view : ℕ)
      → let t = new_view node s view in
        (enter_new_view node s view ≡ s)
        ⊎ ((enter_new_view node s view ≡ enter_propose node t view) × (t.sent ≡ s.sent) × Ahead t s)
  unfolding enter_new_view
  enter_new_view-cases s view = ground arith

  enter_new_view-Inv : (s : Kbft) (view : ℕ) → KbftInv s → KbftInv (enter_new_view node s view)
  enter_new_view-Inv s view i = elim (enter_new_view-cases s view) [
    | inl e ↦ subst KbftInv (sym e) i
    | inr (e, same, ahead) ↦
        let t : Kbft = new_view node s view in
        subst KbftInv (sym e)
          (enter_propose-Inv t view (quiet node s t i (λ v. rw same (refl, refl)) ahead))
  ]

  after_vote-cases :
      (s : Kbft) (v : Vote)
      → (after_vote node s v ≡ s)
        ⊎ ((after_vote node s v ≡ enter_precommit node s v.view)
            ⊎ (after_vote node s v ≡ enter_commit node s v.view))
  unfolding after_vote
  after_vote-cases s v = ground arith

  after_vote-Inv :
      (s : Kbft) (v : Vote) → s.view ≡ v.view → KbftInv s → KbftInv (after_vote node s v)
  after_vote-Inv s v same i = elim (after_vote-cases s v) [
    | inl e ↦ subst KbftInv (sym e) i
    | inr (inl e) ↦
        subst KbftInv (sym (e ∙ ap (enter_precommit node s) (sym same)))
          (enter_precommit-Inv node s i)
    | inr (inr e) ↦ subst KbftInv (sym e) (
        quiet node s (enter_commit node s v.view) i (enter_commit-NoMore node s v.view)
          (enter_commit-Ahead node s v.view))
  ]

  counted-cases :
      (s : Kbft) (v : Vote) (r : HeightVoteSet × Bool × Option VoteError)
      → let t = record s { votes = r.0 } in
        ((counted node s v r).sent ≡ s.sent)
          × ((counted node s v r).view ≡ s.view)
          × ((counted node s v r).step ≡ s.step)
        ⊎ (counted node s v r ≡ after_vote node t v)
  unfolding counted
  counted-cases s v (votes, added, e) = ground arith

  counted-Inv :
      (s : Kbft) (v : Vote) (r : HeightVoteSet × Bool × Option VoteError)
      → s.view ≡ v.view
      → KbftInv s
      → KbftInv (counted node s v r)
  counted-Inv s v r same i = elim (counted-cases s v r) [
    | inl (e, f, g) ↦
        quiet node s (counted node s v r) i (λ k. rw e (refl, refl))
          (omega (arith, f), λ q. omega (arith, g))
    | inr e ↦ subst KbftInv (sym e) (after_vote-Inv (record s { votes = r.0 }) v same i)
  ]

  receive_vote-cases :
      (s : Kbft) (v : Vote) (peer : ℕ)
      → (receive_vote node s v peer ≡ s)
        ⊎ ((s.view ≡ v.view)
            × ((receive_vote node s v peer ≡ counted node s v (add_height_qc node.crypto s.votes v))
                ⊎ (receive_vote node s v peer
                    ≡ counted node s v (add_height_vote node.crypto s.votes v))))
  unfolding receive_vote
  receive_vote-cases s v peer = ground arith

  receive_vote-Inv :
      (s : Kbft) (v : Vote) (peer : ℕ) → KbftInv s → KbftInv (receive_vote node s v peer)
  receive_vote-Inv s v peer i = elim (receive_vote-cases s v peer) [
    | inl e ↦ subst KbftInv (sym e) i
    | inr (same, inl e) ↦ subst KbftInv (sym e) (counted-Inv s v _ same i)
    | inr (same, inr e) ↦ subst KbftInv (sym e) (counted-Inv s v _ same i)
  ]

  handle_timeout-cases :
      (s : Kbft) (view step : ℕ)
      → (handle_timeout node s view step ≡ s)
        ⊎ (handle_timeout node s view step ≡ enter_new_view node s view)
  unfolding handle_timeout
  handle_timeout-cases s view step = ground arith

  Step-Inv : {s t : Kbft} → Step node s t → KbftInv s → KbftInv t
  Step-Inv {s} (timeout view step) i = elim (handle_timeout-cases s view step) [
    | inl e ↦ subst KbftInv (sym e) i
    | inr e ↦ subst KbftInv (sym e) (enter_new_view-Inv s view i)
  ]
  Step-Inv {s} (message (proposed p) peer) i = unfold handle_msg in set_proposal-Inv s p i
  Step-Inv {s} (message (voted v) peer) i = unfold handle_msg in receive_vote-Inv s v peer i

  Reach-Inv : {s t : Kbft} → KbftInv s → Reach node s t → KbftInv t
  Reach-Inv i here = i
  Reach-Inv i (next r st) = Step-Inv st (Reach-Inv i r)

  -- Whatever timeouts and messages a new engine handles, it has sent at most one prevote and at most
  -- one precommit for each view.
  pub one_vote :
      (heights : Map ℕ) (first : ℕ) (votes : HeightVoteSet) (is_stored : Bool) {t : Kbft} (view : ℕ)
      → Reach node (new_kbft heights first votes is_stored) t
      → (ballots prevote view t.sent ≤ 1) × (ballots precommit view t.sent ≤ 1)
  unfolding new_kbft
  one_vote heights first votes is_stored view r = (Reach-Inv start r).once view
    where
      start : KbftInv (new_kbft heights first votes is_stored)
      start = record {
        later = λ v lt. (refl, refl);
        no_prevote = λ lt. refl;
        no_precommit = λ lt. refl;
        once = λ v. (omega arith, omega arith);
      }
