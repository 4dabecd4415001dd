-- ===== src/Pool/Selection/Rounds.antt =====
-- ixpool/ix_batch_registry.go: the rounds of `mergeBatches`.
use testing_go_moi.Prelude.{
  ℕ, zero, suc, ◌+◌, ◌≤◌, ◌≡◌, inl, inr, refl, sym, ◌∙◌, ap, some, List, [], ◌∷◌, ◌==◌, length,
  Bool-cases, Option-cases, Map, arith,
}
use testing_go_moi.Pool.Batches.{IxBatch}
use testing_go_moi.Pool.Selection.{has_count, merge_next, merge_from, max_batches}
use testing_go_moi.Pool.Selection.Merging.{merge_next-cases}

length-merge_next :
    (n : ℕ) (hashes : Map ℕ) (b : IxBatch) (bs : List IxBatch) (m : IxBatch × List IxBatch)
    → merge_next n hashes b bs ≡ some m
    → length m.1 ≡ length bs
unfolding merge_next
length-merge_next n hashes b [] m e = cc
length-merge_next n hashes b (c ∷ cs) m e = elim (merge_next-cases n hashes b c cs m e) [
  | inl here ↦ ap (λ (p : IxBatch × List IxBatch). length p.1) (sym here)
  | inr r ↦
      ap (λ (p : IxBatch × List IxBatch). length p.1) (sym r.2)
      ∙ ap suc (length-merge_next n hashes b cs r.0 r.1)
]

-- With as much fuel as there are batches, or more, the loop of `mergeBatches` runs to its end.
pub merge_from-enough :
    (fuel n : ℕ) (hashes : Map ℕ) (count : ℕ) (bs : List IxBatch)
    → length bs ≤ fuel
    → merge_from fuel n hashes count bs ≡ merge_from (length bs) n hashes count bs
unfolding merge_from
merge_from-enough zero n hashes count [] h = refl
merge_from-enough zero n hashes count (b ∷ bs) h = absurd (omega (arith, h))
merge_from-enough (suc fuel) n hashes count [] h = refl
merge_from-enough (suc fuel) n hashes count (b ∷ bs) h = elim (Bool-cases (has_count n b)) [
  | inr past ↦
      rw (merge_from, past) (rw (merge_from-enough fuel n hashes count bs (omega (arith, h))) refl)
  | inl found ↦ elim (Option-cases (merge_next n hashes b bs)) [
    | inl alone ↦ rw (merge_from, found, alone) refl
    | inr m ↦ elim (Bool-cases (count + 1 == max_batches)) [
      | inl last ↦ rw (merge_from, found, m.1, last) refl
      | inr more ↦
          let size = length-merge_next n hashes b bs m.0 m.1 in
          let one = merge_from-enough fuel n hashes (count + 1) m.0.1 (omega (arith, size, h)) in
          let same : merge_from (length m.0.1) n hashes (count + 1) m.0.1
              ≡ merge_from (length bs) n hashes (count + 1) m.0.1 =
            ap (λ (k : ℕ). merge_from k n hashes (count + 1) m.0.1) size in
          rw (merge_from, found, m.1, more) (rw (one ∙ same) refl)
    ]
  ]
]
