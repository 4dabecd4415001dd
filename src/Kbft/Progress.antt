-- ===== src/Kbft/Progress.antt =====
-- A majority of precommits commits the proposal in the first view (kbft.go).
use testing_go_moi.Prelude.{
  ℕ, ◌<◌, ◌≡◌, ◌≢◌, refl, sym, ap, ◌∙◌, ◌⊎◌, inl, inr, true, false, none, List, some, [], ◌∷◌, ◌++◌,
  ◌==◌, leb, arith, Bool-cases, Option-cases,
}
use testing_go_moi.Committee.{Committee}
use testing_go_moi.Votes.{Vote, prevote, precommit, super_majority}
use testing_go_moi.Height.{HeightVoteSet}
use testing_go_moi.Kbft.{
  step_commit, Proposal, Kbft, Node, to_step, close, send, send_qc, finalize_commit, commit_for,
  committing, end_commit, enter_precommit, enter_commit,
}
use testing_go_moi.Kbft.Handlers.{after_vote}
use testing_go_moi.Kbft.Steps.{commit_for-Same}
use testing_go_moi.Kbft.Commit.{Sound, none_before}
use testing_go_moi.Kbft.Quiet.{Quiet, enter_precommit-Quiet}

-- The tesseract handler and the seal answer without an error.
pub record IsWorking (node : Node) : Type 0 where
  pub seals : (hash : ℕ) (evidence : List Vote) → node.seal hash evidence ≡ true
  pub stores : (hash : ℕ) → node.handle_tesseract hash ≡ true

-- The node commits as soon as the precommits have a majority, for a hash that is not nil.
pub record Lively (s : Kbft) : Type 0 where
  pub unstored : s.is_ts_stored ≡ false
  pub early : s.votes.precommits.maj23_ts_hash ≡ none → s.step < step_commit
  pub agreed : (h : ℕ) → s.votes.precommits.maj23_ts_hash ≡ some h → h ≢ 0 → s.committed ≡ h ∷ []

pub Quiet-Lively : (s t : Kbft) → Quiet t s → Lively s → Lively t
Quiet-Lively s t (x, y, z, w) l = record {
  unstored = x ∙ l.unstored;
  early = λ n. w (l.early (sym y ∙ n));
  agreed = λ h m some_hash. z ∙ l.agreed h (sym y ∙ m) some_hash;
}

module _ (node : Node) where
  commit_for-is_ts_stored :
      (s : Kbft) (hash : ℕ) → (commit_for node s hash).is_ts_stored ≡ s.is_ts_stored
  unfolding commit_for send_qc send
  commit_for-is_ts_stored s hash = ground arith

  finalize_commit_works :
      (s : Kbft) (p : Proposal)
      → IsWorking node
      → s.proposal ≡ some p
      → s.votes.precommits.maj23_ts_hash ≡ some p.tesseract
      → p.tesseract ≢ 0
      → s.step ≡ step_commit
      → ((finalize_commit node s).committed ≡ s.committed ++ p.tesseract ∷ [])
        × ((finalize_commit node s).votes ≡ s.votes)
        × ((finalize_commit node s).is_ts_stored ≡ s.is_ts_stored)
  unfolding finalize_commit close super_majority
  finalize_commit_works s p w e m some_hash at =
      ground (arith, w.seals p.tesseract s.evidence, w.stores p.tesseract)

  enter_commit_works :
      (s : Kbft) (view : ℕ) (p : Proposal)
      → IsWorking node
      → s.is_ts_stored ≡ false
      → s.proposal ≡ some p
      → s.votes.precommits.maj23_ts_hash ≡ some p.tesseract
      → p.tesseract ≢ 0
      → s.step < step_commit
      → ((enter_commit node s view).committed ≡ s.committed ++ p.tesseract ∷ [])
        × ((enter_commit node s view).votes ≡ s.votes)
        × ((enter_commit node s view).is_ts_stored ≡ false)
  unfolding enter_commit end_commit super_majority to_step
  enter_commit_works s view p w fresh e m some_hash below =
      let t : Kbft = committing node s view p.tesseract in
      let (a, b, c, d, f) = commit_for-Same node s p.tesseract in
      let u = commit_for-is_ts_stored s p.tesseract in
      let done = finalize_commit_works t p w (c ∙ e) (rw d m) some_hash refl in
      ground (arith, a, b, c, d, f, u, done)

-- As `Lively`, but the commit may be still to come.
pub record Pending (s : Kbft) : Type 0 where
  pub unstored : s.is_ts_stored ≡ false
  pub early : s.votes.precommits.maj23_ts_hash ≡ none → s.step < step_commit
  pub agreed :
      (h : ℕ)
      → s.votes.precommits.maj23_ts_hash ≡ some h
      → h ≢ 0
      → (s.committed ≡ h ∷ []) ⊎ (s.step < step_commit)

module _ (node : Node) (first : ℕ) (cs : Committee) where
  enter_commit-Lively :
      (s : Kbft) (view : ℕ) (p : Proposal) (h : ℕ)
      → IsWorking node
      → Sound first cs s
      → Pending s
      → s.proposal ≡ some p
      → s.votes.precommits.maj23_ts_hash ≡ some h
      → h ≢ 0
      → Lively (enter_commit node s view)
  unfolding enter_commit
  enter_commit-Lively s view p h w i l e m some_hash =
      let same : h ≡ p.tesseract = ((i.counting p e).1.2.reached h m).0 in
      let for_p : s.votes.precommits.maj23_ts_hash ≡ some p.tesseract = m ∙ ap some same in
      elim (Bool-cases (leb step_commit s.step)) [
        | inl late ↦
            rw (enter_commit, late)
              (record {
                unstored = l.unstored;
                early = l.early;
                agreed = λ k n some_k. elim (l.agreed k n some_k) [
                  | inl done ↦ done
                  | inr before ↦ absurd (ground arith)
                ];
              })
        | inr before ↦
            let below : s.step < step_commit = ground arith in
            let none_yet = none_before first cs s i below in
            let (done, votes, fresh) =
              enter_commit_works node s view p w l.unstored e for_p (λ z. some_hash (same ∙ z))
                below in
            record {
              unstored = fresh;
              early = λ n.
                  absurd (cc (ap (λ (x : HeightVoteSet). x.precommits.maj23_ts_hash) votes, n, m));
              agreed = λ k n some_k.
                  let equal : k ≡ p.tesseract =
                    cc (ap (λ (x : HeightVoteSet). x.precommits.maj23_ts_hash) votes, n, for_p) in
                  done ∙ rw (none_yet, equal) refl;
            }
      ]

  after_vote_splits :
      (s : Kbft) (v : Vote) (p : Proposal)
      → s.proposal ≡ some p
      → ((after_vote node s v ≡ s)
          × (v.type ≡ precommit
              → (s.votes.precommits.maj23_ts_hash ≡ none)
                ⊎ (s.votes.precommits.maj23_ts_hash ≡ some 0)))
        ⊎ (((after_vote node s v ≡ enter_precommit node s v.view) × (v.type ≡ prevote))
            ⊎ ((h : ℕ) × (s.votes.precommits.maj23_ts_hash ≡ some h)
                × (h ≢ 0)
                × (after_vote node s v ≡ enter_commit node s v.view)))
  unfolding after_vote super_majority
  after_vote_splits s v p e = elim (Option-cases s.votes.precommits.maj23_ts_hash) [
    | inl none_yet ↦ ground (arith, e, none_yet)
    | inr (h, m) ↦ elim (Bool-cases (h == 0)) [
      | inl nil ↦ ground (arith, e, m, nil)
      | inr some_hash ↦ elim (Bool-cases (v.type == precommit)) [
        | inl commits ↦ inr (
            inr (h, m, λ z. ground (arith, z, some_hash), ground (arith, e, m, commits, some_hash)))
        | inr other ↦ ground (arith, e, m, other)
      ]
    ]
  ]

  pub after_vote-Lively :
      (s : Kbft) (v : Vote) (p : Proposal)
      → IsWorking node
      → Sound first cs s
      → Pending s
      → s.proposal ≡ some p
      → Lively s ⊎ (v.type ≡ precommit)
      → Lively (after_vote node s v)
  after_vote-Lively s v p w i l e either = elim (after_vote_splits s v p e) [
    | inl (same, no_majority) ↦ rw same (elim either [
      | inl lively ↦ lively
      | inr commits ↦ record {
        unstored = l.unstored;
        early = l.early;
        agreed = λ h m some_hash. elim (no_majority commits) [
          | inl missing ↦ absurd (cc (missing, m))
          | inr nil ↦ absurd (some_hash (cc (nil, m)))
        ];
      }
    ])
    | inr (inl (same, prepares)) ↦ rw same (elim either [
      | inl lively ↦ Quiet-Lively s _ (enter_precommit-Quiet node s v.view) lively
      | inr commits ↦ absurd (omega (arith, prepares, commits))
    ])
    | inr (inr (h, m, some_hash, same)) ↦
        rw same (enter_commit-Lively s v.view p h w i l e m some_hash)
  ]
