-- ===== src/Kbft/Handlers.antt =====
-- What a node does with a message or a timeout (consensus/kbft/kbft.go).
use testing_go_moi.Prelude.{
  ℕ, Bool, true, false, not, ◌&&◌, ◌||◌, Option, none, some, [], ◌∷◌, ◌++◌, ltb, leb, ◌==◌,
  if◌then◌else◌,
}
use testing_go_moi.Votes.{
  Vote, VoteError, conflicting_vote, nil_dereference, prevote, precommit, super_majority,
}
use testing_go_moi.Height.{HeightVoteSet, set_ts_hash, add_height_vote, add_height_qc}
use testing_go_moi.Kbft.{
  step_new_height, step_new_view, step_propose, step_prevote, Proposal, Payload, proposed, voted,
  Kbft, Node, are_heights_equal, to_step, send, is_leader, enter_prevote, enter_precommit,
  enter_commit,
}

module _ (node : Node) where
  -- The leader passes the proposal on.
  unfoldable pub with_proposal : Kbft → Proposal → Kbft
  with_proposal s p =
      let t = record s { proposal = some p; votes = set_ts_hash s.votes p.tesseract } in
      if is_leader node node.id then send t false (proposed p) else t

  unfoldable pub set_proposal : Kbft → Proposal → Kbft
  set_proposal s p = elim s.proposal [
    | some old ↦ s
    | none ↦
        if not (s.is_ts_stored || are_heights_equal s.heights p.heights) || not (p.view == s.view)
        then s
        else let t = with_proposal s p in
          if leb t.step step_propose then enter_prevote node t t.view else t
  ]

  -- The leader sends its proposal to itself.
  unfoldable pub proposing : Kbft → ℕ → Kbft
  proposing s view =
      let t =
        if node.has_vault && is_leader node node.id
        then send s true (proposed node.own_proposal)
        else s in
      to_step t view step_propose

  unfoldable pub enter_propose : Kbft → ℕ → Kbft
  enter_propose s view =
      if ltb view s.view || ((s.view == view) && leb step_propose s.step)
      then s
      else let t = proposing s view in
        elim t.proposal [ none ↦ t | some p ↦ enter_prevote node t t.view ]

  -- In any view but the first, an old proposal is dropped.
  abbrev pub new_view : Kbft → ℕ → Kbft
  new_view s view =
      let t = record s { view = view; step = step_new_view } in
      if view == 0 then t else record t { proposal = none }

  unfoldable pub enter_new_view : Kbft → ℕ → Kbft
  enter_new_view s view =
      if ltb view s.view || ((s.view == view) && not (s.step == step_new_height))
      then s
      else enter_propose (new_view s view) view

  unfoldable pub handle_timeout : Kbft → ℕ → ℕ → Kbft
  handle_timeout s view step =
      if ltb view s.view || ((view == s.view) && ltb step s.step)
      then s
      else if step == step_new_height
      then enter_new_view s view
      else s

  -- What an added vote sets off.
  unfoldable pub after_vote : Kbft → Vote → Kbft
  after_vote s v =
      if v.type == prevote
      then (if (s.view == v.view) && leb step_prevote s.step
          then elim (super_majority (some s.votes.prevotes)) [
            | none ↦ s
            | some hash ↦ elim s.proposal [
              | none ↦ if hash == 0 then s else enter_precommit node s v.view
              | some p ↦ enter_precommit node s v.view
            ]
          ]
          else s)
      else if v.type == precommit
      then elim (super_majority (some s.votes.precommits)) [
        | none ↦ s
        | some hash ↦ elim s.proposal [
          | none ↦ s
          | some p ↦ if hash == 0 then s else enter_commit node s v.view
        ]
      ]
      else s

  -- The answer of the vote sets, put into the state.
  unfoldable pub counted : Kbft → Vote → HeightVoteSet × Bool × Option VoteError → Kbft
  counted s v (votes, added, some conflicting_vote) = record s {
    votes = votes;
    evidence = s.evidence ++ v ∷ [];
  }
  counted s v (votes, added, some nil_dereference) = record s { votes = votes; panicked = true }
  counted s v (votes, added, _) =
      let t = record s { votes = votes } in if added then after_vote t v else t

  unfoldable pub receive_vote : Kbft → Vote → ℕ → Kbft
  receive_vote s v peer = if not (s.view == v.view) then s else elim s.proposal [
    | none ↦ s
    | some p ↦
        if not (p.tesseract == v.ts_hash)
        then s
        else if v.is_qc
        then (if is_leader node peer then counted s v (add_height_qc node.crypto s.votes v) else s)
        else counted s v (add_height_vote node.crypto s.votes v)
  ]

  unfoldable pub handle_msg : Kbft → Payload → ℕ → Kbft
  handle_msg s (proposed p) peer = set_proposal s p
  handle_msg s (voted v) peer = receive_vote s v peer
