-- ===== src/Kbft/Authentic.antt =====
-- The votes that a node stores are signed (kbft.go, votesetheight.go).
use testing_go_moi.Prelude.{
  ℕ, ◌≡◌, sym, ◌⊎◌, inl, inr, subst, Bool, Option, none, some, arith, Option-cases, Map, get_or,
}
use testing_go_moi.Committee.{Committee}
use testing_go_moi.Votes.{Vote, VoteSet, VoteError, prevote, precommit, super_majority}
use testing_go_moi.Votes.Authentic.{IsSigned, IsAuthentic, new_vote_set-IsAuthentic}
use testing_go_moi.Height.{
  HeightVoteSet, new_height_vote_set, get_vote_set, set_ts_hash, add_height_vote, add_height_qc,
}
use testing_go_moi.Kbft.{
  Proposal, proposed, voted, Kbft, Node, send, close, to_step, finalize_commit, end_commit,
  enter_commit, new_kbft,
}
use testing_go_moi.Kbft.Handlers.{
  with_proposal, set_proposal, after_vote, counted, receive_vote, handle_msg,
}
use testing_go_moi.Kbft.Steps.{Step, timeout, message, Reach, here, next, commit_for-Same}
use testing_go_moi.Kbft.Commit.{enter_precommit-Stays}
use testing_go_moi.Kbft.Growing.{enter_prevote-votes, handle_timeout-votes}
use testing_go_moi.Height.Authentic.{
  AreAuthentic, add_height_vote-AreAuthentic, add_height_qc-AreAuthentic, get_vote_set-IsAuthentic,
}

module _ (node : Node) (cs : Committee) where
  enter_commit-votes : (s : Kbft) (view : ℕ) → (enter_commit node s view).votes ≡ s.votes
  unfolding enter_commit end_commit finalize_commit close to_step
  enter_commit-votes s view = elim (Option-cases (super_majority (some s.votes.precommits))) [
    | inl e ↦ ground (arith, e)
    | inr (h, e) ↦ ground (arith, e, commit_for-Same node s h)
  ]

  after_vote-votes : (s : Kbft) (v : Vote) → (after_vote node s v).votes ≡ s.votes
  unfolding after_vote
  after_vote-votes s v =
      ground (arith, enter_precommit-Stays node s v.view, enter_commit-votes s v.view)

  counted-votes :
      (s : Kbft) (v : Vote) (r : HeightVoteSet × Bool × Option VoteError)
      → (counted node s v r).votes ≡ r.0
  unfolding counted
  counted-votes s v (votes, added, e) =
      let t : Kbft = record s { votes = votes } in ground (arith, after_vote-votes t v)

  -- What a message does to the votes.
  receive_vote-votes :
      (s : Kbft) (v : Vote) (peer : ℕ)
      → let new = (receive_vote node s v peer).votes in
        (new ≡ s.votes)
        ⊎ ((new ≡ (add_height_qc node.crypto s.votes v).0)
            ⊎ (new ≡ (add_height_vote node.crypto s.votes v).0))
  unfolding receive_vote
  receive_vote-votes s v peer = ground (
    arith,
    counted-votes s v (add_height_qc node.crypto s.votes v),
    counted-votes s v (add_height_vote node.crypto s.votes v),
  )

  set_proposal-votes :
      (s : Kbft) (p : Proposal)
      → let new = (set_proposal node s p).votes in
        (new.prevotes ≡ s.votes.prevotes) × (new.precommits ≡ s.votes.precommits)
  unfolding set_proposal with_proposal send set_ts_hash
  set_proposal-votes s p =
      let t : Kbft = with_proposal node s p in ground (arith, enter_prevote-votes node t t.view)

  abbrev Holds : Kbft → Type 0
  Holds s = AreAuthentic node.crypto cs s.votes

  Step-Holds : {s t : Kbft} → Step node s t → Holds s → Holds t
  Step-Holds {s} (timeout view step) a =
      subst (AreAuthentic node.crypto cs) (sym (handle_timeout-votes node s view step)) a
  Step-Holds {s} (message (proposed p) peer) (a, b) =
      let (e, f) = set_proposal-votes s p in
      unfold handle_msg in
      (
        subst (IsAuthentic node.crypto cs prevote) (sym e) a,
        subst (IsAuthentic node.crypto cs precommit) (sym f) b,
      )
  Step-Holds {s} (message (voted v) peer) a =
      unfold handle_msg in
      elim (receive_vote-votes s v peer) [
        | inl e ↦ subst (AreAuthentic node.crypto cs) (sym e) a
        | inr (inl e) ↦
            subst (AreAuthentic node.crypto cs) (sym e)
              (add_height_qc-AreAuthentic node.crypto cs s.votes v a)
        | inr (inr e) ↦
            subst (AreAuthentic node.crypto cs) (sym e)
              (add_height_vote-AreAuthentic node.crypto cs s.votes v a)
      ]

  Reach-Holds : {s t : Kbft} → Reach node s t → Holds s → Holds t
  Reach-Holds here a = a
  Reach-Holds (next r st) a = Step-Holds st (Reach-Holds r a)

  -- Whatever timeouts and messages a new engine handles, every vote that stands in its prevotes or
  -- precommits at a member's place is of that kind, and it is signed by that member: either its own
  -- signature verifies with the member's key, or it is a certificate that names the member and whose
  -- aggregate signature verifies with the keys of all the members it names.
  pub stored_votes-IsSigned :
      (heights : Map ℕ) (first view : ℕ) (is_stored : Bool) {t : Kbft} (type i : ℕ) (vs : VoteSet)
      (v : Vote)
      → Reach node (new_kbft heights first (new_height_vote_set view cs) is_stored) t
      → get_vote_set t.votes type ≡ some vs
      → get_or vs.votes i none ≡ some v
      → (v.type ≡ type) × IsSigned node.crypto cs i v
  unfolding new_kbft new_height_vote_set
  stored_votes-IsSigned heights first view is_stored {t} type i vs v r of_type there =
      let all : Holds t = Reach-Holds r (
        new_vote_set-IsAuthentic node.crypto cs view prevote,
        new_vote_set-IsAuthentic node.crypto cs view precommit,
      ) in
      (get_vote_set-IsAuthentic node.crypto cs t.votes type vs all of_type).1 i v there
