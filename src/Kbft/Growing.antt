-- ===== src/Kbft/Growing.antt =====
-- The votes only grow, and within the first view the proposal stays (kbft.go).
use testing_go_moi.Prelude.{
  ℕ, ◌<◌, ◌≡◌, refl, sym, ap, ◌∙◌, ◌⊎◌, inl, inr, Bool, Option, some, arith, subst, Option-cases,
}
use testing_go_moi.Committee.{Committee}
use testing_go_moi.Votes.{
  Crypto, prevote, Vote, VoteError, VoteSet, precommit, add_vote, add_qc, super_majority,
}
use testing_go_moi.Votes.Invariant.{IsFit}
use testing_go_moi.Votes.Growth.{Grows, Grows-refl, Grows-trans, add_vote-Grows, add_qc-Grows}
use testing_go_moi.Height.{
  HeightVoteSet, get_vote_set, store_vote_set, set_ts_hash, add_height_vote, add_height_qc,
}
use testing_go_moi.Kbft.{
  Proposal, proposed, voted, Kbft, Node, to_step, close, send, is_leader, proposal_hash,
  enter_prevote, finalize_commit, end_commit, enter_commit,
}
use testing_go_moi.Kbft.Handlers.{
  with_proposal, set_proposal, proposing, enter_propose, new_view, enter_new_view, handle_timeout,
  after_vote, counted, receive_vote, handle_msg,
}
use testing_go_moi.Kbft.Steps.{
  Step, timeout, message, Reach, here, next, Step-Ahead, commit_for-Same, send_vote-Same,
  enter_propose-Ahead,
}
use testing_go_moi.Kbft.Commit.{Sound, enter_precommit-Stays}
use testing_go_moi.Kbft.Decision.{
  set_proposal-kept, enter_new_view-cases, counted-cases, after_vote-cases, receive_vote-cases,
  receive_vote_unproposed,
}
use testing_go_moi.Kbft.Agreement.{handle_timeout-cases, Reach-Sound}

module _ (crypto : Crypto) where
  pub add_height_vote-precommits :
      (hvs : HeightVoteSet) (v : Vote)
      → let new = (add_height_vote crypto hvs v).0.precommits in
        let grown = (add_vote crypto hvs.precommits (some v) hvs.ts_hash).0 in
        ((new ≡ hvs.precommits) ⊎ (new ≡ grown)) × (v.type ≡ precommit → new ≡ grown)
  unfolding add_height_vote get_vote_set store_vote_set
  add_height_vote-precommits hvs v = ground arith

  add_height_qc-precommits :
      (hvs : HeightVoteSet) (v : Vote)
      → let new = (add_height_qc crypto hvs v).0.precommits in
        (new ≡ hvs.precommits) ⊎ (new ≡ (add_qc crypto hvs.precommits (some v) hvs.ts_hash).0)
  unfolding add_height_qc get_vote_set store_vote_set
  add_height_qc-precommits hvs v = ground arith

  Grows-of_either :
      (new old grown : VoteSet) → (new ≡ old) ⊎ (new ≡ grown) → Grows grown old → Grows new old
  Grows-of_either new old grown (inl e) g = subst (λ x. Grows x old) (sym e) (Grows-refl old)
  Grows-of_either new old grown (inr e) g = subst (λ x. Grows x old) (sym e) g

  add_height_vote-Grows :
      (hvs : HeightVoteSet) (v : Vote)
      → Grows (add_height_vote crypto hvs v).0.precommits hvs.precommits
  add_height_vote-Grows hvs v =
      Grows-of_either _ hvs.precommits _ (add_height_vote-precommits hvs v).0
        (add_vote-Grows crypto hvs.precommits (some v) hvs.ts_hash)

  add_height_qc-Grows :
      (hvs : HeightVoteSet) (v : Vote)
      → Grows (add_height_qc crypto hvs v).0.precommits hvs.precommits
  add_height_qc-Grows hvs v =
      Grows-of_either _ hvs.precommits _ (add_height_qc-precommits hvs v)
        (add_qc-Grows crypto hvs.precommits (some v) hvs.ts_hash)

module _ (node : Node) where
  pub enter_prevote-votes : (s : Kbft) (view : ℕ) → (enter_prevote node s view).votes ≡ s.votes
  unfolding enter_prevote to_step
  enter_prevote-votes s view =
      ground
        (arith, send_vote-Same node s prevote (proposal_hash s.proposal) (is_leader node node.id))

  proposing-votes : (s : Kbft) (view : ℕ) → (proposing node s view).votes ≡ s.votes
  unfolding proposing send to_step
  proposing-votes s view = ground arith

  enter_propose-votes : (s : Kbft) (view : ℕ) → (enter_propose node s view).votes ≡ s.votes
  unfolding enter_propose
  enter_propose-votes s view =
      let t : Kbft = proposing node s view in
      ground (arith, proposing-votes s view, enter_prevote-votes t t.view)

  enter_new_view-votes : (s : Kbft) (view : ℕ) → (enter_new_view node s view).votes ≡ s.votes
  unfolding enter_new_view
  enter_new_view-votes s view = ground (arith, enter_propose-votes (new_view node s view) view)

  pub handle_timeout-votes :
      (s : Kbft) (view step : ℕ) → (handle_timeout node s view step).votes ≡ s.votes
  unfolding handle_timeout
  handle_timeout-votes s view step = ground (arith, enter_new_view-votes s view)

  with_proposal-precommits :
      (s : Kbft) (p : Proposal) → (with_proposal node s p).votes.precommits ≡ s.votes.precommits
  unfolding with_proposal send set_ts_hash
  with_proposal-precommits s p = ground arith

  set_proposal-precommits :
      (s : Kbft) (p : Proposal) → (set_proposal node s p).votes.precommits ≡ s.votes.precommits
  unfolding set_proposal
  set_proposal-precommits s p =
      let t : Kbft = with_proposal node s p in
      ground (arith, with_proposal-precommits s p, enter_prevote-votes t t.view)

module _ (node : Node) (first : ℕ) (cs : Committee) (f : IsFit cs) (some_set : 0 < cs.size) where
  enter_commit-frame :
      (s : Kbft) (view : ℕ)
      → ((enter_commit node s view).proposal ≡ s.proposal)
        × ((enter_commit node s view).votes ≡ s.votes)
  unfolding enter_commit end_commit finalize_commit close to_step
  enter_commit-frame s view = elim (Option-cases (super_majority (some s.votes.precommits))) [
    | inl e ↦ ground (arith, e)
    | inr (h, e) ↦ ground (arith, e, commit_for-Same node s h)
  ]

  after_vote-frame :
      (s : Kbft) (v : Vote)
      → ((after_vote node s v).proposal ≡ s.proposal) × ((after_vote node s v).votes ≡ s.votes)
  after_vote-frame s v = elim (after_vote-cases node first cs f some_set s v) [
    | inl e ↦ rw e (refl, refl)
    | inr (inl e) ↦ let (a, b, _, _) = enter_precommit-Stays node s v.view in rw e (a, b)
    | inr (inr e) ↦ rw e (enter_commit-frame s v.view)
  ]

  pub counted-frame :
      (s : Kbft) (v : Vote) (r : HeightVoteSet × Bool × Option VoteError)
      → ((counted node s v r).proposal ≡ s.proposal) × ((counted node s v r).votes ≡ r.0)
  counted-frame s v r = elim (counted-cases node first cs f some_set s v r) [
    | inl (a, b, _, _) ↦ (a, b)
    | inr e ↦ rw e (after_vote-frame (record s { votes = r.0 }) v)
  ]

  receive_vote-frame :
      (s : Kbft) (v : Vote) (peer : ℕ)
      → ((receive_vote node s v peer).proposal ≡ s.proposal)
        × Grows (receive_vote node s v peer).votes.precommits s.votes.precommits
  receive_vote-frame s v peer = elim (Option-cases s.proposal) [
    | inl e ↦
        rw (receive_vote_unproposed node first cs f some_set s v peer e)
          (refl, Grows-refl s.votes.precommits)
    | inr (p, e) ↦ elim (receive_vote-cases node first cs f some_set s v peer p e) [
      | inl same ↦ rw same (refl, Grows-refl s.votes.precommits)
      | inr (inl same) ↦
          let r = add_height_qc node.crypto s.votes v in
          let (a, b) = counted-frame s v r in
          rw same (a, rw b (add_height_qc-Grows node.crypto s.votes v))
      | inr (inr same) ↦
          let r = add_height_vote node.crypto s.votes v in
          let (a, b) = counted-frame s v r in
          rw same (a, rw b (add_height_vote-Grows node.crypto s.votes v))
    ]
  ]

  Grows-of_equal : (vs old : VoteSet) → vs ≡ old → Grows vs old
  Grows-of_equal vs old e = subst (λ x. Grows x old) (sym e) (Grows-refl old)

  Step-Grows : {s t : Kbft} → Step node s t → Grows t.votes.precommits s.votes.precommits
  Step-Grows {s} (timeout view step) =
      Grows-of_equal _ _
        (ap (λ (x : HeightVoteSet). x.precommits) (handle_timeout-votes node s view step))
  Step-Grows {s} (message (proposed p) peer) =
      unfold handle_msg in Grows-of_equal _ _ (set_proposal-precommits node s p)
  Step-Grows {s} (message (voted v) peer) = unfold handle_msg in (receive_vote-frame s v peer).1

  pub Reach-Grows : {s t : Kbft} → Reach node s t → Grows t.votes.precommits s.votes.precommits
  Reach-Grows {s} here = Grows-refl s.votes.precommits
  Reach-Grows {s} {t = u} (next {t} r st) =
      Grows-trans s.votes.precommits t.votes.precommits u.votes.precommits (Step-Grows st)
        (Reach-Grows r)

  -- Within the view the proposal stays.
  Step-proposal :
      {s t : Kbft} (p : Proposal)
      → Step node s t
      → s.view ≡ first
      → t.view ≡ first
      → Sound first cs s
      → s.proposal ≡ some p
      → t.proposal ≡ some p
  Step-proposal {s} p (timeout view step) at_first back i e =
      elim (handle_timeout-cases node first cs f some_set s view step) [
        | inl same ↦ rw same e
        | inr same ↦ elim (enter_new_view-cases node first cs f some_set s view) [
          | inl stays ↦ rw (same, stays) e
          | inr (goes, up, fresh, _, _, _, at, _) ↦
              let moved : (handle_timeout node s view step).view
                  ≡ (enter_propose node (new_view node s view) view).view =
                ap (λ (x : Kbft). x.view) (same ∙ goes) in
              let stayed : s.view ≡ view = omega (
                arith,
                up,
                at,
                moved,
                (enter_propose-Ahead node (new_view node s view) view).0,
                at_first,
                back,
              ) in
              absurd (omega (arith, fresh stayed, (i.counting p e).0))
        ]
      ]
  Step-proposal {s} p (message (proposed q) peer) at_first back i e =
      unfold handle_msg in rw (set_proposal-kept node first cs f some_set s q e) e
  Step-proposal {s} p (message (voted v) peer) at_first back i e =
      unfold handle_msg in ((receive_vote-frame s v peer).0 ∙ e)

  pub Reach-proposal :
      {s t : Kbft} (p : Proposal)
      → Reach node s t
      → s.view ≡ first
      → t.view ≡ first
      → Sound first cs s
      → s.proposal ≡ some p
      → t.proposal ≡ some p
  Reach-proposal p here at_first back i e = e
  Reach-proposal {s} {t = u} p (next {t} r st) at_first back i e =
      let (low, sound) = Reach-Sound node first cs f some_set r at_first i in
      let (up, _) = Step-Ahead node st in
      let same : t.view ≡ first = omega (arith, low, up, back) in
      Step-proposal p st same back (sound same) (Reach-proposal p r at_first same i e)
