-- ===== src/Pool/Selection/Merging.antt =====
-- ixpool/ix_batch_registry.go: `mergeBatches` keeps the batches apart.
use testing_go_moi.Prelude.{
  ℕ, zero, suc, ◌+◌, ◌≡◌, ◌⊎◌, inl, inr, refl, true, ◌||◌, some, List, [], ◌∷◌, ◌++◌, subst, ltb,
  ◌==◌, length, Bool-cases, Option-cases, Each, Map, arith,
}
use testing_go_moi.Pool.{Interaction}
use testing_go_moi.Pool.Batches.{IxBatch, add}
use testing_go_moi.Pool.Selection.{
  flush, has_count, add_all, merge_next, merge_from, max_batches, merge_batches,
}
use testing_go_moi.Pool.Selection.Apart.{any_locks, any_locks-append, Apart, AllApart, Apart-sym}

add-locks :
    (b c : IxBatch) (ix : Interaction) (hashes : Map ℕ) (id : ℕ)
    → add b ix hashes ≡ some c
    → any_locks id c.ixs ≡ (any_locks id b.ixs || any_locks id (ix ∷ []))
unfolding add
add-locks b c ix hashes id e = elim (Bool-cases (ltb 100 (length b.ixs))) [
  | inl full ↦ absurd (ground (arith, e, full))
  | inr room ↦
      let grown : c.ixs ≡ b.ixs ++ ix ∷ [] = ground (arith, e, room) in
      rw grown (any_locks-append id b.ixs (ix ∷ []))
]

any_locks-cons :
    (id : ℕ) (ix : Interaction) (ixs : List Interaction)
    → any_locks id (ix ∷ ixs) ≡ (any_locks id (ix ∷ []) || any_locks id ixs)
unfolding any_locks
any_locks-cons id ix ixs = ground arith

-- What the grown batch locks, one of the two locked.
add_all-locks :
    (hashes : Map ℕ) (b : IxBatch) (ixs : List Interaction) (id : ℕ)
    → any_locks id (add_all hashes b ixs).ixs ≡ true
    → (any_locks id b.ixs ≡ true) ⊎ (any_locks id ixs ≡ true)
unfolding add_all
add_all-locks hashes b [] id e = inl e
add_all-locks hashes b (ix ∷ ixs) id e = elim (Option-cases (add b ix hashes)) [
  | inl full ↦ elim (add_all-locks hashes b ixs id (rw (full, add_all) at e)) [
    | inl old ↦ inl old
    | inr new ↦ inr (rw (any_locks-cons id ix ixs, new) (ground arith))
  ]
  | inr c ↦
      let grown = add-locks b c.0 ix hashes id c.1 in
      elim (add_all-locks hashes c.0 ixs id (rw (c.1, add_all) at e)) [
        | inr new ↦ inr (rw (any_locks-cons id ix ixs, new) (ground arith))
        | inl old ↦ elim (Bool-cases (any_locks id b.ixs)) [
          | inl before ↦ inl before
          | inr fresh ↦
              let one : any_locks id (ix ∷ []) ≡ true = ground (arith, old, grown, fresh) in
              inr (rw (any_locks-cons id ix ixs, one) refl)
        ]
      ]
]

add_all-Apart :
    (hashes : Map ℕ) (z b c : IxBatch) → Apart z b → Apart z c → Apart z (add_all hashes b c.ixs)
add_all-Apart hashes z b c p q id here there = elim (add_all-locks hashes b c.ixs id there) [
  | inl old ↦ p id here old
  | inr new ↦ q id here new
]

flush-Apart : (z c : IxBatch) → Apart z (flush c)
unfolding flush any_locks
flush-Apart z c id p q = cc

-- A partner found at the head, or further on.
pub merge_next-cases :
    (n : ℕ) (hashes : Map ℕ) (b c : IxBatch) (cs : List IxBatch) (m : IxBatch × List IxBatch)
    → merge_next n hashes b (c ∷ cs) ≡ some m
    → ((add_all hashes b c.ixs, flush c ∷ cs) ≡ m)
      ⊎ ((r : IxBatch × List IxBatch) × (merge_next n hashes b cs ≡ some r) × ((r.0, c ∷ r.1) ≡ m))
unfolding merge_next
merge_next-cases n hashes b c cs m e = elim (Bool-cases (has_count n c)) [
  | inl here ↦
      let same : some (add_all hashes b c.ixs, flush c ∷ cs) ≡ some m =
        rw (merge_next, here) at e in
      inl (cc)
  | inr past ↦ elim (Option-cases (merge_next n hashes b cs)) [
    | inl missing ↦ absurd (ground (arith, e, past, missing))
    | inr r ↦
        let same : some (r.0.0, c ∷ r.0.1) ≡ some m = rw (merge_next, past, r.1) at e in
        inr (r.0, r.1, cc)
  ]
]

abbrev Pair-Each : (IxBatch → Type 0) → IxBatch × List IxBatch → Type 0
Pair-Each P m = P m.0 × Each P m.1

merge_next-Each :
    (n : ℕ) (hashes : Map ℕ) (z b : IxBatch) (bs : List IxBatch) (m : IxBatch × List IxBatch)
    → merge_next n hashes b bs ≡ some m
    → Apart z b
    → Each (Apart z) bs
    → Pair-Each (Apart z) m
unfolding merge_next
merge_next-Each n hashes z b [] m e p ps = cc
merge_next-Each n hashes z b (c ∷ cs) m e p ps = elim (merge_next-cases n hashes b c cs m e) [
  | inl here ↦
      subst (Pair-Each (Apart z)) here (add_all-Apart hashes z b c p ps.0, (flush-Apart z c, ps.1))
  | inr r ↦
      let later = merge_next-Each n hashes z b cs r.0 r.1 p ps.1 in
      subst (Pair-Each (Apart z)) r.2 (later.0, (ps.0, later.1))
]

abbrev Pair-AllApart : IxBatch × List IxBatch → Type 0
Pair-AllApart m = AllApart (m.0 ∷ m.1)

-- A batch that has nothing is apart from each.
flush-Each : (c : IxBatch) (bs : List IxBatch) → Each (Apart (flush c)) bs
flush-Each c [] = tt
flush-Each c (b ∷ bs) = (Apart-sym b (flush c) (flush-Apart b c), flush-Each c bs)

-- The batch grown by another's interactions is apart from what both are apart from.
grown-Each :
    (hashes : Map ℕ) (b c : IxBatch) (bs : List IxBatch)
    → Each (Apart b) bs
    → Each (Apart c) bs
    → Each (Apart (add_all hashes b c.ixs)) bs
grown-Each hashes b c [] p q = tt
grown-Each hashes b c (z ∷ bs) p q = (
  Apart-sym z (add_all hashes b c.ixs)
      (add_all-Apart hashes z b c (Apart-sym b z p.0) (Apart-sym c z q.0)),
  grown-Each hashes b c bs p.1 q.1,
)

merge_next-AllApart :
    (n : ℕ) (hashes : Map ℕ) (b : IxBatch) (bs : List IxBatch) (m : IxBatch × List IxBatch)
    → merge_next n hashes b bs ≡ some m
    → AllApart (b ∷ bs)
    → Pair-AllApart m
unfolding merge_next
merge_next-AllApart n hashes b [] m e a = cc
merge_next-AllApart n hashes b (c ∷ cs) m e a = elim (merge_next-cases n hashes b c cs m e) [
  | inl here ↦ subst Pair-AllApart here (
    (flush-Apart (add_all hashes b c.ixs) c, grown-Each hashes b c cs a.0.1 a.1.0),
    (flush-Each c cs, a.1.1),
  )
  | inr r ↦
      let later = merge_next-AllApart n hashes b cs r.0 r.1 (a.0.1, a.1.1) in
      let kept = merge_next-Each n hashes c b cs r.0 r.1 (Apart-sym b c a.0.0) a.1.0 in
      subst Pair-AllApart r.2 ((Apart-sym c r.0.0 kept.0, later.0), (kept.1, later.1))
]

merge_from-Each :
    (fuel n : ℕ) (hashes : Map ℕ) (count : ℕ) (z : IxBatch) (bs : List IxBatch)
    → Each (Apart z) bs
    → Each (Apart z) (merge_from fuel n hashes count bs).0
unfolding merge_from
merge_from-Each zero n hashes count z bs p = p
merge_from-Each (suc fuel) n hashes count z [] p = tt
merge_from-Each (suc fuel) n hashes count z (b ∷ bs) p = elim (Bool-cases (has_count n b)) [
  | inr past ↦ rw (merge_from, past) (p.0, merge_from-Each fuel n hashes count z bs p.1)
  | inl found ↦ elim (Option-cases (merge_next n hashes b bs)) [
    | inl alone ↦ rw (merge_from, found, alone) p
    | inr m ↦
        let kept = merge_next-Each n hashes z b bs m.0 m.1 p.0 p.1 in
        elim (Bool-cases (count + 1 == max_batches)) [
          | inl last ↦ rw (merge_from, found, m.1, last) kept
          | inr more ↦
              rw (merge_from, found, m.1, more)
                (kept.0, merge_from-Each fuel n hashes (count + 1) z m.0.1 kept.1)
        ]
  ]
]

merge_from-AllApart :
    (fuel n : ℕ) (hashes : Map ℕ) (count : ℕ) (bs : List IxBatch)
    → AllApart bs
    → AllApart (merge_from fuel n hashes count bs).0
unfolding merge_from
merge_from-AllApart zero n hashes count bs a = a
merge_from-AllApart (suc fuel) n hashes count [] a = tt
merge_from-AllApart (suc fuel) n hashes count (b ∷ bs) a = elim (Bool-cases (has_count n b)) [
  | inr past ↦
      rw (merge_from, past)
        (
          merge_from-Each fuel n hashes count b bs a.0,
          merge_from-AllApart fuel n hashes count bs a.1,
        )
  | inl found ↦ elim (Option-cases (merge_next n hashes b bs)) [
    | inl alone ↦ rw (merge_from, found, alone) a
    | inr m ↦
        let kept = merge_next-AllApart n hashes b bs m.0 m.1 a in
        elim (Bool-cases (count + 1 == max_batches)) [
          | inl last ↦ rw (merge_from, found, m.1, last) kept
          | inr more ↦
              rw (merge_from, found, m.1, more)
                (
                  merge_from-Each fuel n hashes (count + 1) m.0.0 m.0.1 kept.0,
                  merge_from-AllApart fuel n hashes (count + 1) m.0.1 kept.1,
                )
        ]
  ]
]

pub merge_batches-AllApart :
    (n : ℕ) (hashes : Map ℕ) (bs : List IxBatch)
    → AllApart bs
    → AllApart (merge_batches n hashes bs).0
unfolding merge_batches
merge_batches-AllApart n hashes bs a = merge_from-AllApart (length bs) n hashes 0 bs a
