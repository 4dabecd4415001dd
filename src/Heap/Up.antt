-- ===== src/Heap/Up.antt =====
-- container/heap: `up` repairs a heap whose entry at the index may be too low in the tree.
use mathlib.Core.List.Perm
use mathlib.Core.List.{Perm}
use testing_go_moi.Prelude.{
  ℕ, zero, suc, ◌≤◌, ◌<◌, ◌≢◌, Bool, List, ltb, ◌==◌, length, Bool-cases, inl, inr, arith,
}
use testing_go_moi.Heap.{swap, up}
use testing_go_moi.Heap.Array.{length-swap, swap-Perm}
use testing_go_moi.Heap.Order.{
  parent, ComparesBy, rank_at, rank_at-swap, less_at-ranks, IsHeap, IsBridged,
}

module _ {ℓ} {A : Type ℓ} (rank : A → ℕ) where
  -- Only the edge above `j` may be out of order.
  record UpInv (xs : List A) (j : ℕ) : Type 0 where
    inside : j < length xs
    edges : (c : ℕ) → 0 < c → c < length xs → c ≢ j → rank_at rank xs (parent c) ≤ rank_at rank xs c
    bridged : IsBridged rank (length xs) xs j

  swap-UpInv :
      (xs : List A) (j : ℕ)
      → UpInv xs j
      → 0 < j
      → rank_at rank xs j < rank_at rank xs (parent j)
      → UpInv (swap xs (parent j) j) (parent j)
  swap-UpInv xs j v pos below =
      grind (arith, length-swap xs (parent j) j, rank_at-swap rank xs (parent j) j)

module _ {ℓ} {A : Type ℓ} (rank : A → ℕ) (less : A → A → Bool) (by : ComparesBy less rank) where
  pub up_restores :
      (fuel : ℕ) (xs : List A) (j : ℕ)
      → j ≤ fuel
      → j < length xs
      → ((c : ℕ) → 0 < c → c < length xs → c ≢ j → rank_at rank xs (parent c) ≤ rank_at rank xs c)
      → IsBridged rank (length xs) xs j
      → IsHeap rank (up less fuel xs j) × Perm (up less fuel xs j) xs
  unfolding up
  up_restores zero xs j f h edges bridged = (λ c p q. edges c p q (omega arith), Perm.rfl)
  up_restores (suc fuel) xs j f h edges bridged =
      let above : parent j < length xs = omega arith in
      let test = less_at-ranks rank less xs j (parent j) by h above in
      elim (Bool-cases (parent j == j)) [
        | inl root ↦ rw root (λ c p q. edges c p q (ground arith), Perm.rfl)
        | inr inner ↦ elim (Bool-cases (ltb (rank_at rank xs j) (rank_at rank xs (parent j)))) [
          | inl below ↦
              let v =
                swap-UpInv rank xs j (record { inside = h; edges = edges; bridged = bridged })
                  (ground arith) (ground arith) in
              let r =
                up_restores fuel (swap xs (parent j) j) (parent j) (ground arith) v.inside v.edges
                  v.bridged in
              rw (inner, test, below) (r.0, Perm.trans r.1 (swap-Perm xs (parent j) j above h))
          | inr settled ↦ rw (inner, test, settled) (λ c p q. ground (arith, edges c), Perm.rfl)
        ]
      ]
