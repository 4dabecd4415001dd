-- ===== src/Pool/Selection/Apart.antt =====
-- ixpool/ix_batch_registry.go: batches that lock no account in common, after a sort and a merge.
use testing_go_moi.Prelude.{
  ℕ, ◌≡◌, inl, inr, refl, Bool, true, false, ◌||◌, ◌&&◌, List, [], ◌∷◌, ◌++◌, ◌==◌, Bool-cases,
  Each, Map, arith,
}
use testing_go_moi.Pool.{ParticipantInfo, Interaction}
use testing_go_moi.Pool.Batches.{is_locked, IxBatch}
use testing_go_moi.Pool.Selection.{precedes, insert_batch, sort}

-- Whether a participant of the list is this account, locked.
unfoldable pub locks : ℕ → Map ParticipantInfo → Bool
locks id [] = false
locks id ((other, info) ∷ ps) = (id == other && is_locked info) || locks id ps

unfoldable pub any_locks : ℕ → List Interaction → Bool
any_locks id [] = false
any_locks id (ix ∷ ixs) = locks id ix.participants || any_locks id ixs

-- No account is locked in both batches.
abbrev pub Apart : IxBatch → IxBatch → Type 0
Apart b c = (id : ℕ) → any_locks id b.ixs ≡ true → any_locks id c.ixs ≡ true → ⊥

abbrev pub AllApart : List IxBatch → Type 0
AllApart [] = Unit {0}
AllApart (b ∷ bs) = Each (Apart b) bs × AllApart bs

pub Apart-sym : (b c : IxBatch) → Apart b c → Apart c b
Apart-sym b c a id p q = a id q p

pub any_locks-append :
    (id : ℕ) (xs ys : List Interaction)
    → any_locks id (xs ++ ys) ≡ (any_locks id xs || any_locks id ys)
unfolding any_locks
any_locks-append id [] ys = refl
any_locks-append id (x ∷ xs) ys = rw (any_locks-append id xs ys) (ground arith)

insert_batch-Each :
    (P : IxBatch → Type 0) (b : IxBatch) (bs : List IxBatch)
    → P b
    → Each P bs
    → Each P (insert_batch b bs)
unfolding insert_batch
insert_batch-Each P b [] p ps = (p, tt)
insert_batch-Each P b (c ∷ cs) p ps = elim (Bool-cases (precedes c b)) [
  | inl later ↦ rw (insert_batch, later) (ps.0, insert_batch-Each P b cs p ps.1)
  | inr here ↦ rw (insert_batch, here) (p, ps)
]

insert_batch-AllApart :
    (b : IxBatch) (bs : List IxBatch)
    → Each (Apart b) bs
    → AllApart bs
    → AllApart (insert_batch b bs)
unfolding insert_batch
insert_batch-AllApart b [] e a = (tt, tt)
insert_batch-AllApart b (c ∷ cs) e a = elim (Bool-cases (precedes c b)) [
  | inl later ↦
      rw (insert_batch, later)
        (
          insert_batch-Each (Apart c) b cs (Apart-sym b c e.0) a.0,
          insert_batch-AllApart b cs e.1 a.1,
        )
  | inr here ↦ rw (insert_batch, here) (e, a)
]

pub sort-Each : (P : IxBatch → Type 0) (bs : List IxBatch) → Each P bs → Each P (sort bs)
unfolding sort
sort-Each P [] ps = tt
sort-Each P (b ∷ bs) ps = insert_batch-Each P b (sort bs) ps.0 (sort-Each P bs ps.1)

pub sort-AllApart : (bs : List IxBatch) → AllApart bs → AllApart (sort bs)
unfolding sort
sort-AllApart [] a = tt
sort-AllApart (b ∷ bs) a =
    insert_batch-AllApart b (sort bs) (sort-Each (Apart b) bs a.0) (sort-AllApart bs a.1)
