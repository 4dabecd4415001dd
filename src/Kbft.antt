-- ===== src/Kbft.antt =====
-- consensus/kbft/kbft.go: the agreement of one node on one tesseract, as a state machine.
--
-- A tesseract is its hash, a proposal its heights, view and hash. The two channels that the node writes
-- to are one list, in order, with a flag for the channel to itself; the node's own messages come back
-- as any other message does. The requests to close are a list, true for one without error. A panic is
-- a flag. Timers, events for subscribers, the write-ahead log, metrics and logging are left out. Every
-- handler holds the mutex from end to end.
pub mod Handlers
pub mod Steps
pub mod Ballots
pub mod Sending
pub mod Equivocation
pub mod Commit
pub mod Decision
pub mod Agreement
pub mod Consistency
pub mod Quiet
pub mod Progress
pub mod Liveness
pub mod Growing
pub mod Delivery
pub mod Authentic
use testing_go_moi.Prelude.Int.{ℤ, pos}
use testing_go_moi.Prelude.{
  ℕ, zero, suc, ◌+◌, Bool, true, false, not, ◌&&◌, ◌||◌, Option, none, some, List, [], ◌∷◌, ◌++◌,
  ltb, leb, ◌==◌, if◌then◌else◌, length, Map, lookup,
}
use testing_go_moi.Committee.{Committee, has_krama_id}
use testing_go_moi.Votes.{
  Crypto, Vote, VoteError, conflicting_vote, nil_dereference, VoteSet, prevote, precommit,
  super_majority, has_majority_any,
}
use testing_go_moi.Height.{HeightVoteSet, set_ts_hash, add_height_vote, add_height_qc, get_qc, Qc}

-- The steps of a view (rounds.go).
abbrev pub step_new_height : ℕ
step_new_height = 1

abbrev pub step_new_view : ℕ
step_new_view = 2

abbrev pub step_propose : ℕ
step_propose = 3

abbrev pub step_prevote : ℕ
step_prevote = 4

abbrev pub step_precommit : ℕ
step_precommit = 5

abbrev pub step_commit : ℕ
step_commit = 6

pub record Proposal : Type 0 where
  pub heights : Map ℕ
  pub view : ℕ
  pub tesseract : ℕ

pub data Payload : Type 0 where
  proposed : Proposal → Payload
  voted : Vote → Payload

pub record Sent : Type 0 where
  pub to_self : Bool
  pub payload : Payload

pub record Kbft : Type 0 where
  pub heights : Map ℕ
  pub view : ℕ
  pub step : ℕ
  pub votes : HeightVoteSet
  pub commit_view : ℕ
  pub proposal : Option Proposal
  pub is_ts_stored : Bool
  pub n_steps : ℕ
  pub evidence : List Vote
  pub sent : List Sent
  pub committed : List ℕ
  pub closed : List Bool
  pub panicked : Bool

-- The node, and what the code calls elsewhere: signing (`none` is an error), the store of the safety rules,
-- the seal of the tesseract and the handler that stores it (false is an error).
pub record Node : Type 0 where
  pub crypto : Crypto
  pub committee : Committee
  pub id : ℕ
  pub operator : ℕ
  pub has_vault : Bool
  pub own_proposal : Proposal
  pub sign : ℕ → Option ℕ
  pub update_safety_info : Proposal → Qc → Bool
  pub seal : ℕ → List Vote → Bool
  pub handle_tesseract : ℕ → Bool

unfoldable pub all_heights : Map ℕ → Map ℕ → Bool
all_heights [] others = true
all_heights ((id, height) ∷ heights) others =
    all_heights heights others
    && (elim (lookup id others) [ none ↦ false | some other ↦ height == other ])

unfoldable pub are_heights_equal : Map ℕ → Map ℕ → Bool
are_heights_equal heights others = (length heights == length others) && all_heights heights others

-- `updateViewStep` and then `stepChange`.
unfoldable pub to_step : Kbft → ℕ → ℕ → Kbft
to_step s view step = record s { view = view; step = step; n_steps = s.n_steps + 1 }

unfoldable pub send : Kbft → Bool → Payload → Kbft
send s to_self payload = record s {
  sent = s.sent ++ record { to_self = to_self; payload = payload } ∷ [];
}

unfoldable pub close : Kbft → Bool → Kbft
close s fine = record s { closed = s.closed ++ fine ∷ [] }

-- `NewKBFTService` and `updateToState`.
unfoldable pub new_kbft : Map ℕ → ℕ → HeightVoteSet → Bool → Kbft
new_kbft heights view votes is_ts_stored = record {
  heights = heights;
  view = view;
  step = step_new_height;
  votes = votes;
  commit_view = 0;
  proposal = none;
  is_ts_stored = is_ts_stored;
  n_steps = 1;
  evidence = [];
  sent = [];
  committed = [];
  closed = [];
  panicked = false;
}

-- The hash of the proposal, or 0, the nil hash.
abbrev pub proposal_hash : Option Proposal → ℕ
proposal_hash none = 0
proposal_hash (some p) = p.tesseract

module _ (node : Node) where
  unfoldable pub is_leader : ℕ → Bool
  is_leader krama = node.operator == krama

  unfoldable pub sign_vote : Kbft → ℕ → ℕ → Option Vote
  sign_vote s type hash = elim (has_krama_id node.committee node.id) [
    | none ↦ none
    | some i ↦ elim (node.crypto.sign_bytes type s.view hash) [
      | none ↦ none
      | some raw ↦ elim (node.sign raw) [
        | none ↦ none
        | some signature ↦ some (record {
          type = type;
          is_qc = false;
          view = s.view;
          signer_index = pos i;
          ts_hash = hash;
          signer_indices = none;
          signature = signature;
        })
      ]
    ]
  ]

  unfoldable pub send_vote : Kbft → ℕ → ℕ → Bool → Kbft
  send_vote s type hash to_self =
      if node.has_vault
      then elim (sign_vote s type hash) [ none ↦ s | some v ↦ send s to_self (voted v) ]
      else s

  abbrev pub certificate_of : Kbft → ℕ → ℕ → VoteSet → Vote
  certificate_of s type hash vs = record {
    type = type;
    is_qc = true;
    view = s.view;
    signer_index = pos 0;
    ts_hash = hash;
    signer_indices = vs.votes_bit_array;
    signature = elim vs.maj23_agg_signature [ none ↦ 0 | some sig ↦ sig ];
  }

  -- `sendQc`, of the two kinds of vote that it is called with.
  unfoldable pub send_qc : Kbft → ℕ → ℕ → Kbft
  send_qc s type hash =
      if node.has_vault
      then send s false (
          voted (
            certificate_of s type hash
              (if type == prevote then s.votes.prevotes else s.votes.precommits)))
      else s

  unfoldable pub enter_prevote : Kbft → ℕ → Kbft
  enter_prevote s view =
      if ltb view s.view || ((s.view == view) && leb step_prevote s.step)
      then s
      else to_step (send_vote s prevote (proposal_hash s.proposal) (is_leader node.id)) view
          step_prevote

  -- What `enterPreCommit` does before its deferred change of step, with the majority's hash.
  unfoldable pub precommit_for : Kbft → ℕ → Kbft
  precommit_for s hash =
      let led = if is_leader node.id then send_qc s prevote hash else s in
      elim s.proposal [
        | none ↦ record led { panicked = true }
        | some p ↦
            if not (p.tesseract == hash) then led else elim (get_qc s.votes hash s.view prevote) [
              | none ↦ led
              | some qc ↦
                  if s.is_ts_stored || node.update_safety_info p qc
                  then send_vote led precommit hash (is_leader node.id)
                  else led
            ]
      ]

  unfoldable pub enter_precommit : Kbft → ℕ → Kbft
  enter_precommit s view =
      if leb step_precommit s.step
      then s
      else to_step
          (elim (super_majority (some s.votes.prevotes)) [
            | none ↦ s
            | some hash ↦ precommit_for s hash
          ])
          view step_precommit

  unfoldable pub finalize_commit : Kbft → Kbft
  finalize_commit s = elim (super_majority (some s.votes.precommits)) [
    | none ↦ s
    | some hash ↦ elim s.proposal [
      | none ↦ s
      | some p ↦
          if (hash == 0) || (not (p.tesseract == hash) || not (s.step == step_commit))
          then s
          else if not (node.seal p.tesseract s.evidence)
          then close s false
          else if node.handle_tesseract p.tesseract
          then close (record s { committed = s.committed ++ p.tesseract ∷ [] }) true
          else close s false
    ]
  ]

  -- What `enterCommit` does before its deferred part, which follows a failure here too.
  unfoldable pub commit_for : Kbft → ℕ → Kbft
  commit_for s hash =
      let led = if is_leader node.id then send_qc s precommit hash else s in
      elim (get_qc s.votes hash s.view precommit) [
        | none ↦ s
        | some qc ↦ if s.is_ts_stored then led else elim s.proposal [
          | none ↦ record s { panicked = true }
          | some p ↦ if node.update_safety_info p qc then led else s
        ]
      ]

  abbrev pub committing : Kbft → ℕ → ℕ → Kbft
  committing s view hash = record (to_step (commit_for s hash) s.view step_commit) {
    commit_view = view;
  }

  -- A tesseract that is stored already is not stored again.
  unfoldable pub end_commit : Kbft → Kbft
  end_commit s = if s.is_ts_stored then close s true else finalize_commit s

  unfoldable pub enter_commit : Kbft → ℕ → Kbft
  enter_commit s view =
      if leb step_commit s.step then s else elim (super_majority (some s.votes.precommits)) [
        | none ↦ record s { panicked = true }
        | some hash ↦ end_commit (committing s view hash)
      ]
