-- ===== src/Kbft/Sending.antt =====
-- What each step sends (kbft.go).
use testing_go_moi.Prelude.{
  ℕ, ◌<◌, ◌≡◌, refl, sym, ◌⊎◌, inl, inr, Bool, false, some, List, [], ◌∷◌, ◌++◌, arith, ◌==◌, leb,
  Bool-cases, Option-cases, subst, if◌then◌else◌,
}
use testing_go_moi.Votes.{Vote, prevote, precommit, super_majority}
use testing_go_moi.Kbft.{
  step_commit, step_prevote, step_precommit, proposal_hash, Proposal, proposed, voted, Sent, Kbft,
  Node, to_step, send, close, is_leader, sign_vote, send_vote, send_qc, enter_prevote,
  precommit_for, enter_precommit, finalize_commit, commit_for, end_commit, enter_commit,
  certificate_of,
}
use testing_go_moi.Kbft.Steps.{Ahead, send_qc-Same}
use testing_go_moi.Kbft.Ballots.{
  ballots-snoc, Inv, NoMore, OneMore, move, prevoted, precommitted, KbftInv,
}

snoc-OneMore :
    (type view : ℕ) (sent : List Sent) (own : Bool) (v : Vote)
    → v.type ≡ type
    → v.view ≡ view
    → OneMore type view (sent ++ record { to_self = own; payload = voted v } ∷ []) sent
snoc-OneMore type view sent own v e f = (
  ground (arith, ballots-snoc type view sent own (voted v)),
  λ k w ne. ground (arith, e, f, ne, ballots-snoc k w sent own (voted v)),
)

module _ (node : Node) where
  sign_vote_ok :
      (s : Kbft) (type hash : ℕ) {v : Vote}
      → sign_vote node s type hash ≡ some v
      → (v.type ≡ type) × (v.view ≡ s.view)
  unfolding sign_vote
  sign_vote_ok s type hash e = ground arith

  send_vote-OneMore :
      (s : Kbft) (type hash : ℕ) (own : Bool)
      → OneMore type s.view (send_vote node s type hash own).sent s.sent
  unfolding send_vote send sign_vote
  send_vote-OneMore s type hash own = elim (Bool-cases node.has_vault) [
    | inr e ↦ rw (e, send_vote) (omega arith, λ k v ne. omega arith)
    | inl e ↦ elim (Option-cases (sign_vote node s type hash)) [
      | inl f ↦ rw (e, f, send_vote) (omega arith, λ k v ne. omega arith)
      | inr (v, f) ↦
          rw (e, f, send_vote)
            (snoc-OneMore type s.view s.sent own v (sign_vote_ok s type hash f).0
              (sign_vote_ok s type hash f).1)
    ]
  ]

  send_qc-NoMore : (s : Kbft) (type hash : ℕ) → NoMore (send_qc node s type hash).sent s.sent
  unfolding send_qc send
  send_qc-NoMore s type hash v = elim (Bool-cases node.has_vault) [
    | inr e ↦ rw (e, send_qc) (refl, refl)
    | inl e ↦
        let c : Vote =
          certificate_of node s type hash
            (if type == prevote then s.votes.prevotes else s.votes.precommits) in
        rw (e, send_qc)
          (
            omega (arith, ballots-snoc prevote v s.sent false (voted c)),
            omega (arith, ballots-snoc precommit v s.sent false (voted c)),
          )
  ]

  pub enter_prevote-Inv : (s : Kbft) → KbftInv s → KbftInv (enter_prevote node s s.view)
  unfolding to_step
  enter_prevote-Inv s i = elim (Bool-cases (leb step_prevote s.step)) [
    | inl e ↦
        let same : enter_prevote node s s.view ≡ s = unfold enter_prevote in ground arith in
        subst KbftInv (sym same) i
    | inr e ↦
        let own : Bool = is_leader node node.id in
        let t : Kbft = send_vote node s prevote (proposal_hash s.proposal) own in
        let same : enter_prevote node s s.view ≡ to_step t s.view step_prevote =
          unfold enter_prevote in ground arith in
        subst KbftInv (sym same) (
          prevoted s.view s.step s.sent t.sent i (ground arith)
            (send_vote-OneMore s prevote (proposal_hash s.proposal) own))
  ]

  led : Kbft → ℕ → Kbft
  led s hash = if is_leader node node.id then send_qc node s prevote hash else s

  led-NoMore :
      (s : Kbft) (hash : ℕ) → NoMore (led s hash).sent s.sent × ((led s hash).view ≡ s.view)
  unfolding led
  led-NoMore s hash = elim (Bool-cases (is_leader node node.id)) [
    | inl e ↦ rw e (send_qc-NoMore s prevote hash, (send_qc-Same node s prevote hash).0)
    | inr e ↦ rw e (λ v. (refl, refl), refl)
  ]

  precommit_for-sent :
      (s : Kbft) (hash : ℕ)
      → ((precommit_for node s hash).sent ≡ (led s hash).sent)
        ⊎ ((precommit_for node s hash).sent
            ≡ (send_vote node (led s hash) precommit hash (is_leader node node.id)).sent)
  unfolding precommit_for led
  precommit_for-sent s hash = ground arith

  precommit_for-Inv :
      (s : Kbft) (hash : ℕ)
      → KbftInv s
      → s.step < step_precommit
      → Inv s.view step_precommit (precommit_for node s hash).sent
  precommit_for-Inv s hash i h = elim (precommit_for-sent s hash) [
    | inl e ↦ rw e (
        move s.view s.step s.view step_precommit s.sent (led s hash).sent i (led-NoMore s hash).0
          (omega arith) (λ q. omega arith))
    | inr e ↦
        let l : Kbft = led s hash in
        let one : OneMore precommit l.view
            (send_vote node l precommit hash (is_leader node node.id)).sent l.sent =
          send_vote-OneMore l precommit hash (is_leader node node.id) in
        rw e (
          precommitted s.view s.step l.sent _
            (move s.view s.step s.view s.step s.sent l.sent i (led-NoMore s hash).0 (omega arith)
              (λ q. omega arith))
            h
            (subst
              (λ v.
                OneMore precommit v (send_vote node l precommit hash (is_leader node node.id)).sent
                  l.sent)
              (led-NoMore s hash).1 one))
  ]

  pub enter_precommit-Inv : (s : Kbft) → KbftInv s → KbftInv (enter_precommit node s s.view)
  unfolding enter_precommit to_step
  enter_precommit-Inv s i = elim (Bool-cases (leb step_precommit s.step)) [
    | inl e ↦ rw (e, enter_precommit) i
    | inr e ↦ elim (Option-cases (super_majority (some s.votes.prevotes))) [
      | inl f ↦
          rw (e, f, enter_precommit)
            (move s.view s.step s.view step_precommit s.sent s.sent i (λ v. (refl, refl))
              (omega arith) (λ q. ground arith))
      | inr (hash, f) ↦ rw (e, f, enter_precommit) (precommit_for-Inv s hash i (ground arith))
    ]
  ]

  commit_for-sent :
      (s : Kbft) (hash : ℕ)
      → ((commit_for node s hash).sent ≡ s.sent)
        ⊎ ((commit_for node s hash).sent ≡ (send_qc node s precommit hash).sent)
  unfolding commit_for
  commit_for-sent s hash = ground arith

  commit_for-NoMore : (s : Kbft) (hash : ℕ) → NoMore (commit_for node s hash).sent s.sent
  commit_for-NoMore s hash = elim (commit_for-sent s hash) [
    | inl e ↦ rw e (λ v. (refl, refl))
    | inr e ↦ rw e (send_qc-NoMore s precommit hash)
  ]

  sent-end_commit : (s : Kbft) → (end_commit node s).sent ≡ s.sent
  unfolding end_commit finalize_commit close
  sent-end_commit s = ground arith

  -- `enterCommit` sends no vote, only a certificate.
  pub enter_commit-NoMore : (s : Kbft) (view : ℕ) → NoMore (enter_commit node s view).sent s.sent
  unfolding enter_commit to_step
  enter_commit-NoMore s view v = elim (Bool-cases (leb step_commit s.step)) [
    | inl e ↦ rw (e, enter_commit) (refl, refl)
    | inr e ↦ elim (Option-cases (super_majority (some s.votes.precommits))) [
      | inl f ↦ rw (e, f, enter_commit) (refl, refl)
      | inr (hash, f) ↦ rw (e, f, enter_commit, sent-end_commit) (commit_for-NoMore s hash v)
    ]
  ]

  pub proposed-NoMore :
      (s : Kbft) (own : Bool) (p : Proposal) → NoMore (send s own (proposed p)).sent s.sent
  unfolding send
  proposed-NoMore s own p v = (
    omega (arith, ballots-snoc prevote v s.sent own (proposed p)),
    omega (arith, ballots-snoc precommit v s.sent own (proposed p)),
  )

  -- A state that sends no vote more and is ahead.
  pub quiet : (s t : Kbft) → KbftInv s → NoMore t.sent s.sent → Ahead t s → KbftInv t
  quiet s t i same (up, on) = move s.view s.step t.view t.step s.sent t.sent i same up on
