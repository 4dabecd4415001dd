-- ===== src/Kbft/Ballots.antt =====
-- The votes that a node has sent, step by step (kbft.go).
use testing_go_moi.Prelude.{
  ℕ, suc, ◌+◌, ◌≤◌, ◌<◌, ◌≡◌, Bool, false, not, ◌&&◌, List, [], ◌∷◌, ◌++◌, arith, ◌==◌, subst,
  ℕ_discrete, if◌then◌else◌,
}
use testing_go_moi.Votes.{prevote, precommit}
use testing_go_moi.Kbft.{step_prevote, step_precommit, Payload, proposed, voted, Sent, Kbft}

-- Whether a message is a vote of the type in the view, and no certificate.
abbrev pub is_ballot : ℕ → ℕ → Payload → Bool
is_ballot type view (proposed p) = false
is_ballot type view (voted v) = not v.is_qc && ((v.type == type) && (v.view == view))

-- How many such votes were sent.
abbrev pub ballots : ℕ → ℕ → List Sent → ℕ
ballots type view [] = 0
ballots type view (m ∷ sent) =
    let rest = ballots type view sent in if is_ballot type view m.payload then suc rest else rest

pub ballots-snoc :
    (type view : ℕ) (sent : List Sent) (own : Bool) (p : Payload)
    → ballots type view (sent ++ record { to_self = own; payload = p } ∷ [])
      ≡ ballots type view sent + (if is_ballot type view p then 1 else 0)
ballots-snoc type view [] own p = ground arith
ballots-snoc type view (m ∷ sent) own p = ground (arith, ballots-snoc type view sent own p)

-- What a node in a step of a view has sent.
pub record Inv (view step : ℕ) (sent : List Sent) : Type 0 where
  pub later : (v : ℕ) → view < v → (ballots prevote v sent ≡ 0) × (ballots precommit v sent ≡ 0)
  pub no_prevote : step < step_prevote → ballots prevote view sent ≡ 0
  pub no_precommit : step < step_precommit → ballots precommit view sent ≡ 0
  pub once : (v : ℕ) → (ballots prevote v sent ≤ 1) × (ballots precommit v sent ≤ 1)

abbrev pub NoMore : List Sent → List Sent → Type 0
NoMore more sent =
    (v : ℕ)
    → (ballots prevote v more ≡ ballots prevote v sent)
      × (ballots precommit v more ≡ ballots precommit v sent)

-- At most one vote more, of the type and in the view.
abbrev pub OneMore : ℕ → ℕ → List Sent → List Sent → Type 0
OneMore type view more sent =
    (ballots type view more ≤ ballots type view sent + 1)
    × ((k v : ℕ) → ¬ ((type ≡ k) × (view ≡ v)) → ballots k v more ≤ ballots k v sent)

-- Where no vote is sent, the step may move on.
pub move :
    (view step view' step' : ℕ) (sent more : List Sent)
    → Inv view step sent
    → NoMore more sent
    → view ≤ view'
    → (view' ≡ view → step ≤ step')
    → Inv view' step' more
move view step view' step' sent more i same up on = record {
  later = λ v h. (
    omega (arith, (same v).0, (i.later v (omega arith)).0),
    omega (arith, (same v).1, (i.later v (omega arith)).1),
  );
  no_prevote = λ h. elim (ℕ_discrete view' view) [
    | yes e ↦ rw e (omega (arith, (same view).0, i.no_prevote (omega (arith, on e))))
    | no ne ↦ omega (arith, (same view').0, (i.later view' (omega arith)).0)
  ];
  no_precommit = λ h. elim (ℕ_discrete view' view) [
    | yes e ↦ rw e (omega (arith, (same view).1, i.no_precommit (omega (arith, on e))))
    | no ne ↦ omega (arith, (same view').1, (i.later view' (omega arith)).1)
  ];
  once = λ v. (omega (arith, (same v).0, (i.once v).0), omega (arith, (same v).1, (i.once v).1));
}

-- A prevote moves on to the step of prevotes.
pub prevoted :
    (view step : ℕ) (sent more : List Sent)
    → Inv view step sent
    → step < step_prevote
    → OneMore prevote view more sent
    → Inv view step_prevote more
prevoted view step sent more i h (own, others) = record {
  later = λ v lt. (
    omega (arith, others prevote v (λ e. omega (arith, e.1)), (i.later v lt).0),
    omega (arith, others precommit v (λ e. omega (arith, e.0)), (i.later v lt).1),
  );
  no_prevote = λ lt. absurd (omega arith);
  no_precommit = λ lt.
      omega (arith, others precommit view (λ e. omega (arith, e.0)), i.no_precommit (omega arith));
  once = λ v. (
    elim (ℕ_discrete view v) [
      | yes e ↦ subst (λ k. ballots prevote k more ≤ 1) e (omega (arith, own, i.no_prevote h))
      | no ne ↦ omega (arith, others prevote v (λ e. ne e.1), (i.once v).0)
    ],
    omega (arith, others precommit v (λ e. omega (arith, e.0)), (i.once v).1),
  );
}

-- A precommit moves on to the step of precommits.
pub precommitted :
    (view step : ℕ) (sent more : List Sent)
    → Inv view step sent
    → step < step_precommit
    → OneMore precommit view more sent
    → Inv view step_precommit more
precommitted view step sent more i h (own, others) = record {
  later = λ v lt. (
    omega (arith, others prevote v (λ e. omega (arith, e.0)), (i.later v lt).0),
    omega (arith, others precommit v (λ e. omega (arith, e.1)), (i.later v lt).1),
  );
  no_prevote = λ lt. absurd (omega arith);
  no_precommit = λ lt. absurd (omega arith);
  once = λ v. (
    omega (arith, others prevote v (λ e. omega (arith, e.0)), (i.once v).0),
    elim (ℕ_discrete view v) [
      | yes e ↦ subst (λ k. ballots precommit k more ≤ 1) e (omega (arith, own, i.no_precommit h))
      | no ne ↦ omega (arith, others precommit v (λ e. ne e.1), (i.once v).1)
    ],
  );
}

abbrev pub KbftInv : Kbft → Type 0
KbftInv s = Inv s.view s.step s.sent
