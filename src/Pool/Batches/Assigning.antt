-- ===== src/Pool/Batches/Assigning.antt =====
-- ixpool/ix_batch_registry.go: an account that an interaction of a batch locks belongs to that batch.
use testing_go_moi.Prelude.{
  ℕ, ◌≡◌, ◌⊎◌, inl, inr, refl, sym, subst, ap, ◌∙◌, true, false, none, some, [], ◌∷◌, ◌==◌,
  Bool-cases, Option-cases, Each, Each-map, Map, lookup, insert, lookup-insert, ==_refl, arith,
}
use testing_go_moi.Pool.{ParticipantInfo}
use testing_go_moi.Pool.Batches.{is_locked, all_in_batch, first_batch, assign}

-- Each locked participant of the list has the batch.
abbrev pub Owned : Map ℕ → ℕ → Map ParticipantInfo → Type 0
Owned assigned k ps = Each (λ p. is_locked p.1 ≡ true → lookup p.0 assigned ≡ some k) ps

-- What an assignment to the batch keeps: no participant with another batch is assigned.
abbrev pub Compatible : Map ℕ → ℕ → Map ParticipantInfo → Type 0
Compatible assigned k ps =
    Each (λ p. (lookup p.0 assigned ≡ none) ⊎ (lookup p.0 assigned ≡ some k)) ps

-- The first map's batches stand in the second one.
abbrev pub Extends : Map ℕ → Map ℕ → Type 0
Extends old new = (id j : ℕ) → lookup id old ≡ some j → lookup id new ≡ some j

insert-Extends :
    (assigned : Map ℕ) (id k : ℕ)
    → (lookup id assigned ≡ none) ⊎ (lookup id assigned ≡ some k)
    → Extends assigned (insert id k assigned)
insert-Extends assigned id k free other j e = elim (Bool-cases (id == other)) [
  | inl same ↦
      let own : id ≡ other = ground arith in
      let before : lookup id assigned ≡ some j =
        subst (λ (x : ℕ). lookup x assigned ≡ some j) (sym own) e in
      rw (lookup-insert id other k assigned, same)
        (elim free [
          | inl nothing ↦ absurd (cc (nothing, before))
          | inr k_there ↦ sym k_there ∙ before
        ])
  | inr differs ↦ rw (lookup-insert id other k assigned, differs) e
]

-- A participant of the batch, or of none, stays so.
insert_one-Compatible :
    (assigned : Map ℕ) (id k other : ℕ)
    → (lookup other assigned ≡ none) ⊎ (lookup other assigned ≡ some k)
    → (lookup other (insert id k assigned) ≡ none) ⊎ (lookup other (insert id k assigned) ≡ some k)
insert_one-Compatible assigned id k other h = elim (Bool-cases (id == other)) [
  | inl same ↦ inr (rw (lookup-insert id other k assigned, same) refl)
  | inr differs ↦ rw (lookup-insert id other k assigned, differs) h
]

insert-Compatible :
    (assigned : Map ℕ) (id k : ℕ) (ps : Map ParticipantInfo)
    → Compatible assigned k ps
    → Compatible (insert id k assigned) k ps
insert-Compatible assigned id k ps c =
    Each-map (λ p. (lookup p.0 assigned ≡ none) ⊎ (lookup p.0 assigned ≡ some k))
      (λ p.
        (lookup p.0 (insert id k assigned) ≡ none) ⊎ (lookup p.0 (insert id k assigned) ≡ some k))
      ps (λ p h. insert_one-Compatible assigned id k p.0 h) c

pub assign-Extends :
    (assigned : Map ℕ) (k : ℕ) (ps : Map ParticipantInfo)
    → Compatible assigned k ps
    → Extends assigned (assign assigned k ps)
unfolding assign
assign-Extends assigned k [] c id j e = e
assign-Extends assigned k ((p, info) ∷ ps) c id j e = elim (Bool-cases (is_locked info)) [
  | inl locked ↦ rw locked (
      assign-Extends (insert p k assigned) k ps (insert-Compatible assigned p k ps c.1) id j
        (insert-Extends assigned p k c.0 id j e))
  | inr free ↦ rw free (assign-Extends assigned k ps c.1 id j e)
]

assign_locked :
    (assigned : Map ℕ) (k p : ℕ) (info : ParticipantInfo) (ps : Map ParticipantInfo)
    → is_locked info ≡ true
    → assign assigned k ((p, info) ∷ ps) ≡ assign (insert p k assigned) k ps
unfolding assign
assign_locked assigned k p info ps e = rw e refl

assign_free :
    (assigned : Map ℕ) (k p : ℕ) (info : ParticipantInfo) (ps : Map ParticipantInfo)
    → is_locked info ≡ false
    → assign assigned k ((p, info) ∷ ps) ≡ assign assigned k ps
unfolding assign
assign_free assigned k p info ps e = rw e refl

pub assign-Owned :
    (assigned : Map ℕ) (k : ℕ) (ps : Map ParticipantInfo)
    → Compatible assigned k ps
    → Owned (assign assigned k ps) k ps
assign-Owned assigned k [] c = tt
assign-Owned assigned k ((p, info) ∷ ps) c = elim (Bool-cases (is_locked info)) [
  | inl locked ↦
      let d = insert-Compatible assigned p k ps c.1 in
      let own : lookup p (insert p k assigned) ≡ some k =
        rw (lookup-insert p p k assigned, ==_refl) refl in
      subst (λ (m : Map ℕ). Owned m k ((p, info) ∷ ps))
        (sym (assign_locked assigned k p info ps locked))
        (
          λ l. assign-Extends (insert p k assigned) k ps d p k own,
          assign-Owned (insert p k assigned) k ps d,
        )
  | inr free ↦
      subst (λ (m : Map ℕ). Owned m k ((p, info) ∷ ps))
        (sym (assign_free assigned k p info ps free))
        (λ l. absurd (cc), assign-Owned assigned k ps c.1)
]

-- What the search for a batch finds.
pub none-Compatible :
    (assigned : Map ℕ) (k : ℕ) (ps : Map ParticipantInfo)
    → first_batch assigned ps ≡ none
    → Compatible assigned k ps
unfolding first_batch
none-Compatible assigned k [] e = tt
none-Compatible assigned k ((p, info) ∷ ps) e = elim (Option-cases (lookup p assigned)) [
  | inl free ↦ (inl free, none-Compatible assigned k ps (rw (free, first_batch) at e))
  | inr taken ↦ absurd (ground (arith, e, taken.1))
]

pub all_in_batch-Compatible :
    (assigned : Map ℕ) (k : ℕ) (ps : Map ParticipantInfo)
    → all_in_batch assigned k ps ≡ true
    → Compatible assigned k ps
unfolding all_in_batch
all_in_batch-Compatible assigned k [] e = tt
all_in_batch-Compatible assigned k ((p, info) ∷ ps) e = elim (Option-cases (lookup p assigned)) [
  | inl free ↦ (inl free, all_in_batch-Compatible assigned k ps (rw (free, all_in_batch) at e))
  | inr taken ↦ elim (Bool-cases (taken.0 == k)) [
    | inl own ↦
        let same : taken.0 ≡ k = ground arith in
        (
          inr (taken.1 ∙ ap some same),
          all_in_batch-Compatible assigned k ps (rw (taken.1, all_in_batch, own) at e),
        )
    | inr other ↦ absurd (ground (arith, e, taken.1, other))
  ]
]
