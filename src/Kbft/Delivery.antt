-- ===== src/Kbft/Delivery.antt =====
-- Precommits that a node receives, in any order and with any messages in between (kbft.go).
use testing_go_moi.Prelude.{
  ℕ, ◌≤◌, ◌<◌, ◌≡◌, ◌≢◌, sym, ◌∙◌, true, false, Option, none, some, List, [], ◌∷◌, arith, Map,
  get_or,
}
use testing_go_moi.Committee.{Committee, get_quorum}
use testing_go_moi.Votes.{Vote, VoteSet, passed, precommit, new_vote_set, check_vote, add_vote}
use testing_go_moi.Votes.Tally.{tally}
use testing_go_moi.Votes.Invariant.{IsFit, is_some}
use testing_go_moi.Votes.Adding.{check_vote_ok}
use testing_go_moi.Votes.Growth.{Covers, Grows, tally-Covers, check_vote_same, add_vote_heard}
use testing_go_moi.Height.{HeightVoteSet, new_height_vote_set, add_height_vote}
use testing_go_moi.Kbft.{Proposal, voted, Kbft, Node, new_kbft}
use testing_go_moi.Kbft.Handlers.{receive_vote, handle_msg, counted}
use testing_go_moi.Kbft.Steps.{Reach, message, Step-Ahead, Reach-Ahead, here, next}
use testing_go_moi.Kbft.Commit.{Sound}
use testing_go_moi.Kbft.Agreement.{first_view-Sound, Reach-Sound}
use testing_go_moi.Kbft.Progress.{IsWorking}
use testing_go_moi.Kbft.Growing.{
  add_height_vote-precommits, counted-frame, Reach-Grows, Reach-proposal,
}
use testing_go_moi.Kbft.Liveness.{committed_iff}

module _ (node : Node) (first : ℕ) (cs : Committee) where
  -- A precommit that passes the checks, with the member that signed it.
  pub record IsPrecommit (hash i : ℕ) (v : Vote) : Type 0 where
    pub single : v.is_qc ≡ false
    pub slots : List ℕ
    pub checked :
        check_vote node.crypto (new_vote_set first precommit cs) (some v) hash
        ≡ passed (v, i, slots)

  -- In a run from the one state to the other, the member's precommit for the hash was received.
  pub record Received (s t : Kbft) (hash i : ℕ) : Type 0 where
    pub at : Kbft
    pub vote : Vote
    pub peer : ℕ
    pub before : Reach node s at
    pub after : Reach node (handle_msg node at (voted vote) peer) t
    pub precommits : IsPrecommit hash i vote

module _ (node : Node) (first : ℕ) (cs : Committee) (f : IsFit cs) (some_set : 0 < cs.size) where
  receive_vote_counted :
      (s : Kbft) (v : Vote) (peer : ℕ) (p : Proposal)
      → s.view ≡ v.view
      → s.proposal ≡ some p
      → p.tesseract ≡ v.ts_hash
      → v.is_qc ≡ false
      → receive_vote node s v peer ≡ counted node s v (add_height_vote node.crypto s.votes v)
  unfolding receive_vote
  receive_vote_counted s v peer p a b c d = ground (arith, a, b, c, d)

  -- A precommit that is received is stored, unless one of its signer is.
  receive_vote_heard :
      (s : Kbft) (v : Vote) (peer i : ℕ) (p : Proposal)
      → s.view ≡ first
      → Sound first cs s
      → Grows s.votes.precommits (new_vote_set first precommit cs)
      → s.proposal ≡ some p
      → IsPrecommit node first cs p.tesseract i v
      → is_some (get_or (receive_vote node s v peer).votes.precommits.votes i none) ≡ true
  receive_vote_heard s v peer i p at_first sound (a, b, c, _) e is =
      let start : VoteSet = new_vote_set first precommit cs in
      let hvs : HeightVoteSet = s.votes in
      let (_, _, view, kind, hash, _, _) =
        check_vote_ok node.crypto start (some v) p.tesseract i is.checked in
      let of_view : s.view ≡ v.view = unfold new_vote_set in (at_first ∙ sym view) in
      let commits : v.type ≡ precommit = unfold new_vote_set in kind in
      let (expected, _, inv) = (sound.counting p e).1 in
      let checked : check_vote node.crypto hvs.precommits (some v) hvs.ts_hash
          ≡ passed (v, i, is.slots) =
        rw expected (
          check_vote_same node.crypto hvs.precommits start (some v) p.tesseract a b c
          ∙ is.checked) in
      let stored : (add_height_vote node.crypto hvs v).0.precommits
          ≡ (add_vote node.crypto hvs.precommits (some v) hvs.ts_hash).0 =
        (add_height_vote-precommits node.crypto hvs v).1 commits in
      let kept =
        (counted-frame node first cs f some_set s v (add_height_vote node.crypto hvs v)).1 in
      let heard =
        add_vote_heard node.crypto hvs.ts_hash hvs.precommits v i is.slots (rw expected inv)
          checked in
      rw (receive_vote_counted s v peer p of_view e (sym hash) is.single, kept, stored) heard

  -- A node whose seal and tesseract handler answer without an error starts in a view, with a
  -- committee that has right counters and no wrapping sum, for a tesseract that it has not stored,
  -- and takes a proposal with a hash that is not nil. In any run from there that stays in the view,
  -- if it receives the valid precommits of members that at each position weigh at least the quorum,
  -- in any order and with any timeouts and messages in between, it has committed the proposal.
  pub precommits_commit :
      (heights : Map ℕ) {s t : Kbft} (p : Proposal) (members : List (Option Vote))
      → IsWorking node
      → Reach node (new_kbft heights first (new_height_vote_set first cs) false) s
      → s.view ≡ first
      → s.proposal ≡ some p
      → p.tesseract ≢ 0
      → Reach node s t
      → t.view ≡ first
      → ((i : ℕ)
          → is_some (get_or members i none) ≡ true
          → Received node first cs s t p.tesseract i)
      → ((j : ℕ) → get_or (get_quorum cs) j 0 ≤ tally cs j 0 members)
      → t.committed ≡ p.tesseract ∷ []
  precommits_commit heights {s} {t} p members w r at_first e some_hash run back received quorum =
      (committed_iff node first cs f some_set heights p (append r run) back w kept some_hash).1
        (λ j. omega (arith, quorum j, tally-Covers cs j 0 t.votes.precommits.votes members covers))
    where
      append : {x y z : Kbft} → Reach node x y → Reach node y z → Reach node x z
      append r here = r
      append r (next q st) = next (append r q) st

      sound : Sound first cs s
      sound = first_view-Sound node first cs f some_set heights false r at_first

      kept : t.proposal ≡ some p
      kept = Reach-proposal node first cs f some_set p run at_first back sound e

      covers : Covers t.votes.precommits.votes members
      covers i member =
          let got = received i member in
          let u : Kbft = got.at in
          let v : Vote = got.vote in
          let st = message (voted v) got.peer in
          let low = (Reach-Ahead node got.before).0 in
          let mid = (Step-Ahead node {s = u} st).0 in
          let high = (Reach-Ahead node got.after).0 in
          let there : u.view ≡ first = omega (arith, low, mid, high, at_first, back) in
          let held : u.proposal ≡ some p =
            Reach-proposal node first cs f some_set p got.before at_first there sound e in
          let grown = Reach-Grows node first cs f some_set (append r got.before) in
          let heard =
            receive_vote_heard u v got.peer i p there
              ((Reach-Sound node first cs f some_set got.before at_first sound).1 there)
              (unfold new_kbft new_height_vote_set in grown) held got.precommits in
          (Reach-Grows node first cs f some_set got.after).3 i (unfold handle_msg in heard)
