-- ===== src/Kbft/Decision.antt =====
-- Proposals, new views and votes in the first view (kbft.go).
use testing_go_moi.Prelude.{
  ℕ, ◌≤◌, ◌<◌, ◌≡◌, ap, ◌∙◌, ◌⊎◌, inl, inr, Bool, Option, none, some, arith, Option-cases,
}
use testing_go_moi.Committee.{Committee}
use testing_go_moi.Votes.{Vote, VoteError}
use testing_go_moi.Votes.Invariant.{IsFit}
use testing_go_moi.Height.{HeightVoteSet, set_ts_hash, add_height_vote, add_height_qc}
use testing_go_moi.Height.Keeping.{Keeps, add_height_vote-Keeps, add_height_qc-Keeps}
use testing_go_moi.Kbft.{
  step_propose, step_prevote, Proposal, Kbft, Node, to_step, send, enter_prevote, enter_precommit,
  enter_commit,
}
use testing_go_moi.Kbft.Handlers.{
  with_proposal, set_proposal, enter_propose, new_view, enter_new_view, after_vote, counted,
  receive_vote,
}
use testing_go_moi.Kbft.Commit.{
  Sound, Stays, carry, with_first_proposal, none_unproposed, enter_prevote-Stays,
  enter_precommit-Stays, proposing-Stays, enter_commit-Sound,
}
use testing_go_moi.Kbft.Steps.{enter_propose-Ahead}

module _ (node : Node) (first : ℕ) (cs : Committee) (f : IsFit cs) (some_set : 0 < cs.size) where
  with_proposal-parts :
      (s : Kbft) (p : Proposal)
      → let t = with_proposal node s p in
        (t.proposal ≡ some p)
        × (t.votes ≡ set_ts_hash s.votes p.tesseract)
        × (t.committed ≡ s.committed)
  unfolding with_proposal send
  with_proposal-parts s p = ground arith

  set_proposal-cases :
      (s : Kbft) (p : Proposal)
      → s.proposal ≡ none
      → let t = with_proposal node s p in
        (set_proposal node s p ≡ s)
        ⊎ (((set_proposal node s p ≡ t) × (step_prevote ≤ t.step))
            ⊎ ((set_proposal node s p ≡ enter_prevote node t t.view) × (t.step ≤ step_propose)))
  unfolding set_proposal
  set_proposal-cases s p e = ground (arith, e)

  pub set_proposal-kept :
      (s : Kbft) (p : Proposal) {old : Proposal} → s.proposal ≡ some old → set_proposal node s p ≡ s
  unfolding set_proposal
  set_proposal-kept s p e = ground (arith, e)

  step-enter_prevote :
      (s : Kbft) → s.step ≤ step_propose → (enter_prevote node s s.view).step ≡ step_prevote
  unfolding enter_prevote to_step
  step-enter_prevote s h = ground arith

  pub set_proposal-Sound :
      (s : Kbft) (p : Proposal) → Sound first cs s → Sound first cs (set_proposal node s p)
  set_proposal-Sound s p i = elim (Option-cases s.proposal) [
    | inr (old, e) ↦ rw (set_proposal-kept s p e) i
    | inl e ↦ elim (set_proposal-cases s p e) [
      | inl same ↦ rw same i
      | inr (inl (same, late)) ↦
          let (x, y, z) = with_proposal-parts s p in
          rw same
            (with_first_proposal first cs s (with_proposal node s p) p f some_set i e x y z late)
      | inr (inr (same, early)) ↦
          let t : Kbft = with_proposal node s p in
          let (x, y, z) = with_proposal-parts s p in
          let (a, b, c, d) = enter_prevote-Stays node t in
          rw same (
            with_first_proposal first cs s (enter_prevote node t t.view) p f some_set i e (a ∙ x)
              (b ∙ y) (c ∙ z) (omega (arith, step-enter_prevote t early)))
    ]
  ]

  enter_propose-Stays :
      (s : Kbft) (view : ℕ)
      → s.step ≤ step_propose
      → s.proposal ≡ none
      → Stays (enter_propose node s view) s
  unfolding enter_propose
  enter_propose-Stays s view h e = ground (arith, e, h, proposing-Stays node s view h)

  pub enter_new_view-cases :
      (s : Kbft) (view : ℕ)
      → let t = new_view node s view in
        (enter_new_view node s view ≡ s)
        ⊎ ((enter_new_view node s view ≡ enter_propose node t view)
            × (s.view ≤ view)
            × (s.view ≡ view → s.step ≡ 1)
            × (t.votes ≡ s.votes)
            × (t.committed ≡ s.committed)
            × (t.step ≡ 2)
            × (t.view ≡ view)
            × (s.proposal ≡ none → t.proposal ≡ none))
  unfolding enter_new_view
  enter_new_view-cases s view = ground arith

  pub enter_new_view-Sound :
      (s : Kbft) (view : ℕ)
      → s.view ≡ first
      → (enter_new_view node s view).view ≡ first
      → Sound first cs s
      → Sound first cs (enter_new_view node s view)
  enter_new_view-Sound s view at_first back i = elim (enter_new_view-cases s view) [
    | inl e ↦ rw e i
    | inr (e, up, fresh, votes, committed, at, seen, none_left) ↦
        let t : Kbft = new_view node s view in
        let stayed : s.view ≡ view = omega (
          arith,
          up,
          (enter_propose-Ahead node t view).0,
          seen,
          at_first,
          back,
          ap (λ (u : Kbft). u.view) e,
        ) in
        let idle : s.proposal ≡ none = no_proposal (fresh stayed) in
        rw e (
          carry first cs t (enter_propose node t view)
            (enter_propose-Stays t view (omega (arith, at)) (none_left idle))
            (record {
              unproposed = λ n. rw votes (i.unproposed idle);
              counting = λ p q. absurd (cc (none_left idle, q));
              over = rw votes i.over;
              decided = inl (committed ∙ none_unproposed first cs s i idle);
            }))
  ]
    where
      no_proposal : s.step ≡ 1 → s.proposal ≡ none
      no_proposal one = elim (Option-cases s.proposal) [
        | inl e ↦ e
        | inr (p, e) ↦ absurd (omega (arith, one, (i.counting p e).0))
      ]

  pub after_vote-cases :
      (s : Kbft) (v : Vote)
      → (after_vote node s v ≡ s)
        ⊎ ((after_vote node s v ≡ enter_precommit node s v.view)
            ⊎ (after_vote node s v ≡ enter_commit node s v.view))
  unfolding after_vote
  after_vote-cases s v = ground arith

  after_vote-Sound : (s : Kbft) (v : Vote) → Sound first cs s → Sound first cs (after_vote node s v)
  after_vote-Sound s v i = elim (after_vote-cases s v) [
    | inl e ↦ rw e i
    | inr (inl e) ↦
        rw e
          (carry first cs s (enter_precommit node s v.view) (enter_precommit-Stays node s v.view) i)
    | inr (inr e) ↦ rw e (enter_commit-Sound node first cs s v.view i)
  ]

  pub counted-cases :
      (s : Kbft) (v : Vote) (r : HeightVoteSet × Bool × Option VoteError)
      → let t = record s { votes = r.0 } in
        Stays (counted node s v r) t ⊎ (counted node s v r ≡ after_vote node t v)
  unfolding counted
  counted-cases s v (votes, added, e) = ground arith

  pub with_votes-Sound :
      (s : Kbft) (votes : HeightVoteSet) (p : Proposal)
      → s.proposal ≡ some p
      → Keeps node.crypto votes s.votes
      → Sound first cs s
      → Sound first cs (record s { votes = votes })
  with_votes-Sound s votes p e (keeps, majority, same_cs) i = record {
    unproposed = λ n. absurd (cc (e, n));
    counting = λ q at. ((i.counting q at).0, keeps q.tesseract (i.counting q at).1);
    over = same_cs ∙ i.over;
    decided = elim i.decided [
      | inl c ↦ inl c
      | inr (late, (q, at, c, m)) ↦ inr (late, (q, at, c, majority q.tesseract m))
    ];
  }

  counted-Sound :
      (s : Kbft) (v : Vote) (r : HeightVoteSet × Bool × Option VoteError) (p : Proposal)
      → s.proposal ≡ some p
      → Keeps node.crypto r.0 s.votes
      → Sound first cs s
      → Sound first cs (counted node s v r)
  counted-Sound s v r p e k i =
      let t : Kbft = record s { votes = r.0 } in
      let ready : Sound first cs t = with_votes-Sound s r.0 p e k i in
      elim (counted-cases s v r) [
        | inl same ↦ carry first cs t (counted node s v r) same ready
        | inr same ↦ rw same (after_vote-Sound t v ready)
      ]

  pub receive_vote-cases :
      (s : Kbft) (v : Vote) (peer : ℕ) (p : Proposal)
      → s.proposal ≡ some p
      → (receive_vote node s v peer ≡ s)
        ⊎ ((receive_vote node s v peer ≡ counted node s v (add_height_qc node.crypto s.votes v))
            ⊎ (receive_vote node s v peer
                ≡ counted node s v (add_height_vote node.crypto s.votes v)))
  unfolding receive_vote
  receive_vote-cases s v peer p e = ground (arith, e)

  pub receive_vote_unproposed :
      (s : Kbft) (v : Vote) (peer : ℕ) → s.proposal ≡ none → receive_vote node s v peer ≡ s
  unfolding receive_vote
  receive_vote_unproposed s v peer e = ground (arith, e)

  pub receive_vote-Sound :
      (s : Kbft) (v : Vote) (peer : ℕ)
      → Sound first cs s
      → Sound first cs (receive_vote node s v peer)
  receive_vote-Sound s v peer i = elim (Option-cases s.proposal) [
    | inl e ↦ rw (receive_vote_unproposed s v peer e) i
    | inr (p, e) ↦ elim (receive_vote-cases s v peer p e) [
      | inl same ↦ rw same i
      | inr (inl same) ↦
          rw same (counted-Sound s v _ p e (add_height_qc-Keeps node.crypto s.votes v) i)
      | inr (inr same) ↦
          rw same (counted-Sound s v _ p e (add_height_vote-Keeps node.crypto s.votes v) i)
    ]
  ]
