-- ===== src/Kbft/Commit.antt =====
-- Entering the step of commits in the first view (kbft.go).
use testing_go_moi.Prelude.{
  ℕ, ◌≤◌, ◌<◌, ◌≡◌, refl, sym, ap, ◌∙◌, ◌⊎◌, inl, inr, true, none, some, [], ◌∷◌, ◌++◌, arith, leb,
  Bool-cases, Option-cases, subst,
}
use testing_go_moi.Committee.{Committee}
use testing_go_moi.Votes.{VoteSet, prevote, precommit, super_majority, new_vote_set}
use testing_go_moi.Votes.Invariant.{IsFit}
use testing_go_moi.Votes.Majority.{new_vote_set-Inv}
use testing_go_moi.Height.{set_ts_hash}
use testing_go_moi.Height.Keeping.{HeightInv}
use testing_go_moi.Kbft.{
  step_commit, step_propose, step_prevote, Proposal, Kbft, Node, to_step, send, close, is_leader,
  enter_prevote, enter_precommit, finalize_commit, committing, end_commit, enter_commit,
  proposal_hash,
}
use testing_go_moi.Kbft.Handlers.{proposing}
use testing_go_moi.Kbft.Steps.{send_vote-Same, precommit_for-Same, commit_for-Same}

-- One tesseract is committed: the proposal's, with a majority of precommits.
abbrev pub Decided : Kbft → Type 0
Decided s =
    (p : Proposal) × (s.proposal ≡ some p)
    × (s.committed ≡ p.tesseract ∷ [])
    × (s.votes.precommits.maj23_ts_hash ≡ some p.tesseract)

-- In the first view.
pub record Sound (first : ℕ) (cs : Committee) (s : Kbft) : Type 0 where
  pub unproposed :
      s.proposal ≡ none
      → (s.votes.prevotes ≡ new_vote_set first prevote cs)
        × (s.votes.precommits ≡ new_vote_set first precommit cs)
  pub counting :
      (p : Proposal) → s.proposal ≡ some p → (step_prevote ≤ s.step) × HeightInv p.tesseract s.votes
  pub over : s.votes.precommits.cs ≡ cs
  pub decided : (s.committed ≡ []) ⊎ ((step_commit ≤ s.step) × Decided s)

-- The parts of the state that it reads stay, and the step does not fall.
abbrev pub Stays : Kbft → Kbft → Type 0
Stays t s =
    (t.proposal ≡ s.proposal)
    × (t.votes ≡ s.votes)
    × (t.committed ≡ s.committed)
    × (s.step ≤ t.step)

pub carry :
    (first : ℕ) (cs : Committee) (s t : Kbft) → Stays t s → Sound first cs s → Sound first cs t
carry first cs s t (e, f, g, up) i = record {
  unproposed = λ n. rw f (i.unproposed (sym e ∙ n));
  counting =
      λ p q. rw f (omega (arith, up, (i.counting p (sym e ∙ q)).0), (i.counting p (sym e ∙ q)).1);
  over = rw f i.over;
  decided = elim i.decided [
    | inl none_yet ↦ inl (g ∙ none_yet)
    | inr (late, (p, q, c, m)) ↦ inr (omega (arith, up, late), (p, e ∙ q, g ∙ c, rw f m))
  ];
}

pub none_before :
    (first : ℕ) (cs : Committee) (s : Kbft)
    → Sound first cs s
    → s.step < step_commit
    → s.committed ≡ []
none_before first cs s i h = elim i.decided [
  | inl e ↦ e
  | inr (late, _) ↦ absurd (omega (arith, late))
]

pub none_unproposed :
    (first : ℕ) (cs : Committee) (s : Kbft)
    → Sound first cs s
    → s.proposal ≡ none
    → s.committed ≡ []
none_unproposed first cs s i h = elim i.decided [
  | inl e ↦ e
  | inr (late, (p, q, _, _)) ↦ absurd (cc (h, q))
]

-- A proposal for a node without one, with the votes still to come.
pub with_first_proposal :
    (first : ℕ) (cs : Committee) (s t : Kbft) (p : Proposal)
    → IsFit cs
    → 0 < cs.size
    → Sound first cs s
    → s.proposal ≡ none
    → t.proposal ≡ some p
    → t.votes ≡ set_ts_hash s.votes p.tesseract
    → t.committed ≡ s.committed
    → step_prevote ≤ t.step
    → Sound first cs t
with_first_proposal first cs s t p f some_set i n e g c up = record {
  unproposed = λ q. absurd (cc (e, q));
  counting = λ q at. (up, subst (λ x. HeightInv x t.votes) (same q at) (rw g start));
  over = rw g (unfold set_ts_hash new_vote_set in ap (λ (vs : VoteSet). vs.cs) (i.unproposed n).1);
  decided = inl (c ∙ none_unproposed first cs s i n);
}
  where
    same : (q : Proposal) → t.proposal ≡ some q → p.tesseract ≡ q.tesseract
    same q at = ground (arith, e, at)

    start : HeightInv p.tesseract (set_ts_hash s.votes p.tesseract)
    start =
        unfold set_ts_hash in
        rw ((i.unproposed n).0, (i.unproposed n).1)
          (
            refl,
            new_vote_set-Inv p.tesseract first prevote cs f some_set,
            new_vote_set-Inv p.tesseract first precommit cs f some_set,
          )

-- The proposal is committed.
decide :
    (first : ℕ) (cs : Committee) (s t : Kbft) (p : Proposal)
    → Sound first cs s
    → s.proposal ≡ some p
    → s.votes.precommits.maj23_ts_hash ≡ some p.tesseract
    → step_commit ≤ s.step
    → (t.proposal ≡ s.proposal) × (t.votes ≡ s.votes) × (t.step ≡ s.step)
    → t.committed ≡ p.tesseract ∷ []
    → Sound first cs t
decide first cs s t p i e m late (x, y, z) c = record {
  unproposed = λ n. absurd (cc (e, x, n));
  counting =
      λ q at. rw y (omega (arith, z, (i.counting q (sym x ∙ at)).0), (i.counting q (sym x ∙ at)).1);
  over = rw y i.over;
  decided = inr (omega (arith, z, late), (p, x ∙ e, c, rw y m));
}

module _ (node : Node) where
  pub enter_prevote-Stays : (s : Kbft) → Stays (enter_prevote node s s.view) s
  unfolding enter_prevote to_step
  enter_prevote-Stays s =
      ground
        (arith, send_vote-Same node s prevote (proposal_hash s.proposal) (is_leader node node.id))

  pub enter_precommit-Stays : (s : Kbft) (view : ℕ) → Stays (enter_precommit node s view) s
  unfolding enter_precommit to_step
  enter_precommit-Stays s view = elim (Option-cases (super_majority (some s.votes.prevotes))) [
    | inl e ↦ ground arith
    | inr (hash, e) ↦ ground (arith, e, precommit_for-Same node s hash)
  ]

  pub proposing-Stays :
      (s : Kbft) (view : ℕ) → s.step ≤ step_propose → Stays (proposing node s view) s
  unfolding proposing send to_step
  proposing-Stays s view h = ground arith

  end_commit-cases :
      (s : Kbft) (p : Proposal)
      → s.proposal ≡ some p
      → Stays (end_commit node s) s
        ⊎ ((s.votes.precommits.maj23_ts_hash ≡ some p.tesseract)
            × ((end_commit node s).proposal ≡ s.proposal)
            × ((end_commit node s).votes ≡ s.votes)
            × ((end_commit node s).step ≡ s.step)
            × ((end_commit node s).committed ≡ s.committed ++ p.tesseract ∷ []))
  unfolding end_commit finalize_commit close super_majority
  end_commit-cases s p e = ground (arith, e)

  end_commit_unproposed : (s : Kbft) → s.proposal ≡ none → Stays (end_commit node s) s
  unfolding end_commit finalize_commit close super_majority
  end_commit_unproposed s e = ground (arith, e)

  end_commit-Sound :
      (first : ℕ) (cs : Committee) (s : Kbft)
      → Sound first cs s
      → s.committed ≡ []
      → s.step ≡ step_commit
      → Sound first cs (end_commit node s)
  end_commit-Sound first cs s i c late = elim (Option-cases s.proposal) [
    | inl e ↦ carry first cs s (end_commit node s) (end_commit_unproposed s e) i
    | inr (p, e) ↦ elim (end_commit-cases s p e) [
      | inl same ↦ carry first cs s (end_commit node s) same i
      | inr (m, x, y, z, d) ↦
          decide first cs s (end_commit node s) p i e m (omega arith) (x, y, z) (d ∙ rw c refl)
    ]
  ]

  committing-Stays :
      (s : Kbft) (view hash : ℕ) → s.step < step_commit → Stays (committing node s view hash) s
  unfolding to_step
  committing-Stays s view hash h = ground (arith, commit_for-Same node s hash)

  pub enter_commit-Sound :
      (first : ℕ) (cs : Committee) (s : Kbft) (view : ℕ)
      → Sound first cs s
      → Sound first cs (enter_commit node s view)
  unfolding enter_commit
  enter_commit-Sound first cs s view i = elim (Bool-cases (leb step_commit s.step)) [
    | inl e ↦ rw (e, enter_commit) i
    | inr e ↦ elim (Option-cases (super_majority (some s.votes.precommits))) [
      | inl g ↦
          rw (e, g, enter_commit)
            (carry first cs s (record s { panicked = true }) (refl, refl, refl, omega arith) i)
      | inr (hash, g) ↦
          let t : Kbft = committing node s view hash in
          let stays : Stays t s = committing-Stays s view hash (ground arith) in
          rw (e, g, enter_commit)
            (end_commit-Sound first cs t (carry first cs s t stays i)
              (stays.2 ∙ none_before first cs s i (ground arith)) (unfold to_step in refl))
    ]
  ]
