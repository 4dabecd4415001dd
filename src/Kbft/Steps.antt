-- ===== src/Kbft/Steps.antt =====
-- The steps of a view only move on (kbft.go).
use testing_go_moi.Prelude.{ℕ, ◌≤◌, ◌≡◌, refl, inl, inr, Bool, Option, some, arith, Option-cases}
use testing_go_moi.Votes.{Vote, VoteError, prevote, precommit, super_majority}
use testing_go_moi.Height.{HeightVoteSet, add_height_vote, add_height_qc}
use testing_go_moi.Kbft.{
  step_propose, Proposal, Payload, proposed, voted, Kbft, Node, to_step, send, close, is_leader,
  send_vote, send_qc, enter_prevote, precommit_for, enter_precommit, finalize_commit, commit_for,
  committing, end_commit, enter_commit,
}
use testing_go_moi.Kbft.Handlers.{
  with_proposal, set_proposal, proposing, enter_propose, new_view, enter_new_view, handle_timeout,
  after_vote, counted, receive_vote, handle_msg,
}

-- The view, the step, the proposal, the votes and what was committed stay.
abbrev pub Same : Kbft → Kbft → Type 0
Same t s =
    (t.view ≡ s.view)
    × (t.step ≡ s.step)
    × (t.proposal ≡ s.proposal)
    × (t.votes ≡ s.votes)
    × (t.committed ≡ s.committed)

-- The view is no lower, and in the same view the step is no lower.
abbrev pub Ahead : Kbft → Kbft → Type 0
Ahead t s = (s.view ≤ t.view) × (t.view ≡ s.view → s.step ≤ t.step)

Ahead-trans : (s t u : Kbft) → Ahead u t → Ahead t s → Ahead u s
Ahead-trans s t u (v, w) (x, y) =
    (omega arith, λ e. omega (arith, w (omega arith), y (omega arith)))

module _ (node : Node) where
  pub send_vote-Same :
      (s : Kbft) (type hash : ℕ) (own : Bool) → Same (send_vote node s type hash own) s
  unfolding send_vote send
  send_vote-Same s type hash own = ground arith

  pub send_qc-Same : (s : Kbft) (type hash : ℕ) → Same (send_qc node s type hash) s
  unfolding send_qc send
  send_qc-Same s type hash = ground arith

  pub precommit_for-Same : (s : Kbft) (hash : ℕ) → Same (precommit_for node s hash) s
  unfolding precommit_for
  precommit_for-Same s hash = ground (
    arith,
    send_qc-Same s prevote hash,
    send_vote-Same s precommit hash (is_leader node node.id),
    send_vote-Same (send_qc node s prevote hash) precommit hash (is_leader node node.id),
  )

  pub commit_for-Same : (s : Kbft) (hash : ℕ) → Same (commit_for node s hash) s
  unfolding commit_for
  commit_for-Same s hash = ground (arith, send_qc-Same s precommit hash)

  finalize_commit-step :
      (s : Kbft)
      → ((finalize_commit node s).view ≡ s.view) × ((finalize_commit node s).step ≡ s.step)
  unfolding finalize_commit close
  finalize_commit-step s = ground arith

  pub enter_precommit-Ahead :
      (s : Kbft) (view : ℕ) → s.view ≤ view → Ahead (enter_precommit node s view) s
  unfolding enter_precommit to_step
  enter_precommit-Ahead s view h = ground arith

  pub enter_commit-Ahead : (s : Kbft) (view : ℕ) → Ahead (enter_commit node s view) s
  unfolding enter_commit end_commit to_step close
  enter_commit-Ahead s view = elim (Option-cases (super_majority (some s.votes.precommits))) [
    | inl e ↦ ground arith
    | inr (hash, e) ↦
        ground
          (arith, e, commit_for-Same s hash, finalize_commit-step (committing node s view hash))
  ]

  pub with_proposal-step :
      (s : Kbft) (p : Proposal)
      → ((with_proposal node s p).view ≡ s.view) × ((with_proposal node s p).step ≡ s.step)
  unfolding with_proposal send
  with_proposal-step s p = ground arith

  pub proposing-step :
      (s : Kbft) (view : ℕ)
      → ((proposing node s view).view ≡ view) × ((proposing node s view).step ≡ step_propose)
  unfolding proposing to_step
  proposing-step s view = (refl, refl)

  pub enter_prevote-Ahead : (s : Kbft) (view : ℕ) → Ahead (enter_prevote node s view) s
  unfolding enter_prevote to_step
  enter_prevote-Ahead s view = ground arith

  pub set_proposal-Ahead : (s : Kbft) (p : Proposal) → Ahead (set_proposal node s p) s
  unfolding set_proposal
  set_proposal-Ahead s p =
      let t : Kbft = with_proposal node s p in
      ground (arith, with_proposal-step s p, enter_prevote-Ahead t t.view)

  pub enter_propose-Ahead : (s : Kbft) (view : ℕ) → Ahead (enter_propose node s view) s
  unfolding enter_propose
  enter_propose-Ahead s view =
      let t : Kbft = proposing node s view in
      ground (arith, proposing-step s view, enter_prevote-Ahead t t.view)

  pub enter_new_view-Ahead : (s : Kbft) (view : ℕ) → Ahead (enter_new_view node s view) s
  unfolding enter_new_view
  enter_new_view-Ahead s view = ground (arith, enter_propose-Ahead (new_view node s view) view)

  pub after_vote-Ahead : (s : Kbft) (v : Vote) → s.view ≡ v.view → Ahead (after_vote node s v) s
  unfolding after_vote
  after_vote-Ahead s v e =
      ground (arith, enter_precommit-Ahead s v.view (omega arith), enter_commit-Ahead s v.view)

  pub counted-Ahead :
      (s : Kbft) (v : Vote) (r : HeightVoteSet × Bool × Option VoteError)
      → s.view ≡ v.view
      → Ahead (counted node s v r) s
  unfolding counted
  counted-Ahead s v (votes, added, e) same =
      let t : Kbft = record s { votes = votes } in ground (arith, after_vote-Ahead t v same)

  -- A timeout, or a message from anyone.
  pub data Step (s : Kbft) : Kbft → Type 0 where
    timeout : (view step : ℕ) → Step s (handle_timeout node s view step)
    message : (p : Payload) (peer : ℕ) → Step s (handle_msg node s p peer)

  pub data Reach (s : Kbft) : Kbft → Type 0 where
    here : Reach s s
    next : {t u : Kbft} → Reach s t → Step t u → Reach s u

  pub Step-Ahead : {s t : Kbft} → Step s t → Ahead t s
  Step-Ahead {s} (timeout view step) =
      unfold handle_timeout in ground (arith, enter_new_view-Ahead s view)
  Step-Ahead {s} (message (proposed p) peer) = unfold handle_msg in set_proposal-Ahead s p
  Step-Ahead {s} (message (voted v) peer) =
      unfold handle_msg receive_vote in
      ground (
        arith,
        counted-Ahead s v (add_height_qc node.crypto s.votes v),
        counted-Ahead s v (add_height_vote node.crypto s.votes v),
      )

  -- Whatever timeouts and messages a node handles, its view never falls, and within a view its step
  -- never falls.
  pub Reach-Ahead : {s t : Kbft} → Reach s t → Ahead t s
  Reach-Ahead here = (omega arith, λ e. omega arith)
  Reach-Ahead {s} {t = u} (next {t} r st) = Ahead-trans s t u (Step-Ahead st) (Reach-Ahead r)
