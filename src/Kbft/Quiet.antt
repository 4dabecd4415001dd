-- ===== src/Kbft/Quiet.antt =====
-- The operations of a view that commit nothing (kbft.go).
use testing_go_moi.Prelude.{ℕ, ◌<◌, ◌≡◌, Bool, some, inl, inr, arith, Option-cases}
use testing_go_moi.Votes.{prevote, precommit, super_majority}
use testing_go_moi.Height.{set_ts_hash}
use testing_go_moi.Kbft.{
  step_commit, Proposal, Kbft, Node, to_step, send, is_leader, send_vote, send_qc, enter_prevote,
  precommit_for, enter_precommit, proposal_hash,
}
use testing_go_moi.Kbft.Handlers.{
  with_proposal, set_proposal, proposing, enter_propose, new_view, enter_new_view, handle_timeout,
}
use testing_go_moi.Kbft.Steps.{send_vote-Same, precommit_for-Same}

-- The majority of the precommits and what was committed stay, and the step of commits is not entered.
abbrev pub Quiet : Kbft → Kbft → Type 0
Quiet t s =
    (t.is_ts_stored ≡ s.is_ts_stored)
    × (t.votes.precommits.maj23_ts_hash ≡ s.votes.precommits.maj23_ts_hash)
    × (t.committed ≡ s.committed)
    × (s.step < step_commit → t.step < step_commit)

module _ (node : Node) where
  send_vote-is_ts_stored :
      (s : Kbft) (type hash : ℕ) (own : Bool)
      → (send_vote node s type hash own).is_ts_stored ≡ s.is_ts_stored
  unfolding send_vote send
  send_vote-is_ts_stored s type hash own = ground arith

  precommit_for-is_ts_stored :
      (s : Kbft) (hash : ℕ) → (precommit_for node s hash).is_ts_stored ≡ s.is_ts_stored
  unfolding precommit_for send_qc send
  precommit_for-is_ts_stored s hash =
      let own : Bool = is_leader node node.id in
      let led : Kbft = send_qc node s prevote hash in
      ground (
        arith,
        send_vote-is_ts_stored s precommit hash own,
        send_vote-is_ts_stored led precommit hash own,
      )

  enter_prevote-Quiet : (s : Kbft) (view : ℕ) → Quiet (enter_prevote node s view) s
  unfolding enter_prevote to_step
  enter_prevote-Quiet s view =
      let own : Bool = is_leader node node.id in
      let hash : ℕ = proposal_hash s.proposal in
      ground
        (arith, send_vote-Same node s prevote hash own, send_vote-is_ts_stored s prevote hash own)

  pub enter_precommit-Quiet : (s : Kbft) (view : ℕ) → Quiet (enter_precommit node s view) s
  unfolding enter_precommit to_step
  enter_precommit-Quiet s view = elim (Option-cases (super_majority (some s.votes.prevotes))) [
    | inl e ↦ ground arith
    | inr (hash, e) ↦
        ground (arith, e, precommit_for-Same node s hash, precommit_for-is_ts_stored s hash)
  ]

  with_proposal-Quiet : (s : Kbft) (p : Proposal) → Quiet (with_proposal node s p) s
  unfolding with_proposal send set_ts_hash
  with_proposal-Quiet s p = ground arith

  pub set_proposal-Quiet : (s : Kbft) (p : Proposal) → Quiet (set_proposal node s p) s
  unfolding set_proposal
  set_proposal-Quiet s p =
      let t : Kbft = with_proposal node s p in
      ground (arith, with_proposal-Quiet s p, enter_prevote-Quiet t t.view)

  proposing-Quiet : (s : Kbft) (view : ℕ) → Quiet (proposing node s view) s
  unfolding proposing send to_step
  proposing-Quiet s view = ground arith

  enter_propose-Quiet : (s : Kbft) (view : ℕ) → Quiet (enter_propose node s view) s
  unfolding enter_propose
  enter_propose-Quiet s view =
      let t : Kbft = proposing node s view in
      ground (arith, proposing-Quiet s view, enter_prevote-Quiet t t.view)

  enter_new_view-Quiet : (s : Kbft) (view : ℕ) → Quiet (enter_new_view node s view) s
  unfolding enter_new_view
  enter_new_view-Quiet s view = ground (arith, enter_propose-Quiet (new_view node s view) view)

  pub handle_timeout-Quiet : (s : Kbft) (view step : ℕ) → Quiet (handle_timeout node s view step) s
  unfolding handle_timeout
  handle_timeout-Quiet s view step = ground (arith, enter_new_view-Quiet s view)
