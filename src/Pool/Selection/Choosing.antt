-- ===== src/Pool/Selection/Choosing.antt =====
-- ixpool/ix_batch_registry.go: what `selectOptimalBatches` returns.
use testing_go_moi.Prelude.{
  ℕ, zero, suc, ◌+◌, ◌≤◌, ◌<◌, ◌≡◌, inl, inr, refl, sym, subst, true, ◌||◌, some, List, [], ◌∷◌,
  ltb, length, get_elem?, Bool-cases, Each, Each-of_get_elem?, Map, lookup, arith,
}
use testing_go_moi.Pool.{ParticipantInfo, Interaction}
use testing_go_moi.Pool.Batches.{is_locked, IxBatch, IxBatchRegistry}
use testing_go_moi.Pool.Batches.Assigning.{Owned}
use testing_go_moi.Pool.Batches.Exclusive.{BatchOwned, Assigned, BatchReach, BatchReach-Assigned}
use testing_go_moi.Pool.Selection.{
  merge_batches, merged_batches, sort, take_filled, max_batches, select_optimal_batches,
}
use testing_go_moi.Pool.Selection.Apart.{locks, any_locks, Apart, AllApart, sort-AllApart}
use testing_go_moi.Pool.Selection.Merging.{merge_batches-AllApart}

locks-lookup :
    (assigned : Map ℕ) (k id : ℕ) (ps : Map ParticipantInfo)
    → Owned assigned k ps
    → locks id ps ≡ true
    → lookup id assigned ≡ some k
unfolding locks
locks-lookup assigned k id [] o e = cc
locks-lookup assigned k id ((other, info) ∷ ps) o e = elim (Bool-cases (locks id ps)) [
  | inl later ↦ locks-lookup assigned k id ps o.1 later
  | inr not_later ↦
      let same : id ≡ other = ground (arith, e, not_later) in
      let held : is_locked info ≡ true = ground (arith, e, not_later) in
      subst (λ (i : ℕ). lookup i assigned ≡ some k) (sym same) (o.0 held)
]

any_locks-lookup :
    (assigned : Map ℕ) (k id : ℕ) (ixs : List Interaction)
    → Each (λ ix. Owned assigned k ix.participants) ixs
    → any_locks id ixs ≡ true
    → lookup id assigned ≡ some k
unfolding any_locks
any_locks-lookup assigned k id [] o e = cc
any_locks-lookup assigned k id (ix ∷ ixs) o e = elim (Bool-cases (locks id ix.participants)) [
  | inl first ↦ locks-lookup assigned k id ix.participants o.0 first
  | inr past ↦ any_locks-lookup assigned k id ixs o.1 (rw (any_locks, past) at e)
]

Owned-Apart :
    (assigned : Map ℕ) (j k : ℕ) (b c : IxBatch)
    → j < k
    → BatchOwned assigned j b
    → BatchOwned assigned k c
    → Apart b c
Owned-Apart assigned j k b c lt p q id here there =
    let one = any_locks-lookup assigned j id b.ixs p here in
    let two = any_locks-lookup assigned k id c.ixs q there in
    let same : j ≡ k = cc (one, two) in omega (arith, same, lt)

owned-AllApart :
    (assigned : Map ℕ) (from : ℕ) (bs : List IxBatch)
    → ((i : ℕ) (b : IxBatch) → get_elem? bs i ≡ some b → BatchOwned assigned (from + i) b)
    → AllApart bs
owned-AllApart assigned from [] h = tt
owned-AllApart assigned from (b ∷ bs) h = (
  Each-of_get_elem? (Apart b) bs (λ i c e.
      Owned-Apart assigned (from + 0) (from + suc i) b c (omega arith) (h 0 b refl)
        (h (suc i) c e)),
  owned-AllApart assigned (suc from) bs (λ i c e.
      let shift : from + suc i ≡ suc from + i = omega arith in
      subst (λ (k : ℕ). BatchOwned assigned k c) shift (h (suc i) c e)),
)

registry-AllApart : (r : IxBatchRegistry) → Assigned r → AllApart r.batches
registry-AllApart r a = owned-AllApart r.participant_batch_lookup 0 r.batches (λ i b e.
    let shift : i ≡ 0 + i = omega arith in
    subst (λ (k : ℕ). BatchOwned r.participant_batch_lookup k b) shift (a.owned i b e))

merged_batches-AllApart : (r : IxBatchRegistry) → AllApart r.batches → AllApart (merged_batches r)
unfolding merged_batches
merged_batches-AllApart r a =
    let hashes = r.consensus_nodes_hash in
    let one = merge_batches 1 hashes (sort r.batches) in
    let two = merge_batches 2 hashes one.0 in
    let kept : AllApart two.0 =
      merge_batches-AllApart 2 hashes one.0
        (merge_batches-AllApart 1 hashes (sort r.batches) (sort-AllApart r.batches a)) in
    elim (Bool-cases (one.1 || two.1)) [
      | inl again ↦ rw (merged_batches, again) (sort-AllApart two.0 kept)
      | inr done ↦ rw (merged_batches, done) kept
    ]

take_filled-Each :
    (P : IxBatch → Type 0) (places : ℕ) (bs : List IxBatch)
    → Each P bs
    → Each P (take_filled places bs)
unfolding take_filled
take_filled-Each P zero bs p = tt
take_filled-Each P (suc places) [] p = tt
take_filled-Each P (suc places) (b ∷ bs) p = elim (Bool-cases (ltb 0 (length b.ixs))) [
  | inl filled ↦ rw (take_filled, filled) (p.0, take_filled-Each P places bs p.1)
  | inr empty ↦ rw (take_filled, empty) (take_filled-Each P (suc places) bs p.1)
]

-- At most so many batches, none empty, that lock no account in common.
pub record IsChoice (places : ℕ) (bs : List IxBatch) : Type 0 where
  pub bounded : length bs ≤ places
  pub filled : Each (λ b. 0 < length b.ixs) bs
  pub apart : AllApart bs

take_filled-IsChoice :
    (places : ℕ) (bs : List IxBatch) → AllApart bs → IsChoice places (take_filled places bs)
unfolding take_filled
take_filled-IsChoice zero bs a = record { bounded = omega arith; filled = tt; apart = tt }
take_filled-IsChoice (suc places) [] a = record { bounded = omega arith; filled = tt; apart = tt }
take_filled-IsChoice (suc places) (b ∷ bs) a = elim (Bool-cases (ltb 0 (length b.ixs))) [
  | inr empty ↦ rw (take_filled, empty) (take_filled-IsChoice (suc places) bs a.1)
  | inl held ↦
      let rest = take_filled-IsChoice places bs a.1 in
      rw (take_filled, held)
        (record {
          bounded = ground (arith, rest.bounded);
          filled = (ground (arith, held), rest.filled);
          apart = (take_filled-Each (Apart b) places bs a.0, rest.apart);
        })
]

-- Of the interactions offered to a registry, at most 20 batches are chosen, none of them empty, and
-- no account is locked in two of them.
pub select_optimal_batches-IsChoice :
    (r : IxBatchRegistry) → BatchReach r → IsChoice max_batches (select_optimal_batches r)
unfolding select_optimal_batches
select_optimal_batches-IsChoice r h =
    take_filled-IsChoice max_batches (merged_batches r)
      (merged_batches-AllApart r (registry-AllApart r (BatchReach-Assigned r h)))
