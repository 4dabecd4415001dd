-- ===== src/Heap/Down.antt =====
-- container/heap: `down` repairs the heap of the first `n` entries, whose entry at the index may be
-- too high in the tree, and leaves the entries from `n` on.
use mathlib.Core.List.Perm
use mathlib.Core.List.{Perm}
use testing_go_moi.Prelude.{
  ℕ, zero, suc, ◌+◌, ◌*◌, ◌≤◌, ◌<◌, ◌≡◌, ◌≢◌, ◌⊎◌, refl, ◌∙◌, Bool, List, ltb, leb, length,
  get_elem?, Bool-cases, inl, inr, arith,
}
use testing_go_moi.Heap.{swap, lesser_child, down}
use testing_go_moi.Heap.Array.{length-swap, swap-Perm, get_elem?-swap}
use testing_go_moi.Heap.Order.{
  parent, ComparesBy, rank_at, rank_at-swap, less_at-ranks, IsHeapTo, IsBridged,
}

module _ {ℓ} {A : Type ℓ} (rank : A → ℕ) where
  -- Only the edges below `i` may be out of order.
  record DownInv (n : ℕ) (xs : List A) (i : ℕ) : Type 0 where
    edges : (c : ℕ) → 0 < c → c < n → parent c ≢ i → rank_at rank xs (parent c) ≤ rank_at rank xs c
    bridged : IsBridged rank n xs i

  record IsLesserChild (n : ℕ) (xs : List A) (i m : ℕ) : Type 0 where
    inside : m < n
    child : (m ≡ 2 * i + 1) ⊎ (m ≡ 2 * i + 2)
    least : (c : ℕ) → 0 < c → c < n → parent c ≡ i → rank_at rank xs m ≤ rank_at rank xs c

  swap-DownInv :
      (n : ℕ) (xs : List A) (i m : ℕ)
      → n ≤ length xs
      → DownInv n xs i
      → IsLesserChild n xs i m
      → rank_at rank xs m < rank_at rank xs i
      → DownInv n (swap xs i m) m
  swap-DownInv n xs i m h v s below =
      let at = λ (c : ℕ).
        rank_at-swap rank xs i m c (omega (arith, s.child, s.inside)) (omega (arith, s.inside)) in
      record {
        edges = λ c p q r.
            ground
              (arith, at c, at (parent c), v.edges c, v.bridged m, s.least c, s.child, s.inside);
        bridged = λ c p q r t. ground (arith, at c, at (parent m), v.edges c, s.child);
      }

right_or_left : (i c : ℕ) → parent c ≡ i → 0 < c → (c ≡ 2 * i + 1) ⊎ (c ≡ 2 * i + 1 + 1)
right_or_left i c e p = ground arith

module _ {ℓ} {A : Type ℓ} (rank : A → ℕ) (less : A → A → Bool) (by : ComparesBy less rank) where
  lesser_child-IsLesserChild :
      (n : ℕ) (xs : List A) (i : ℕ)
      → n ≤ length xs
      → 2 * i + 1 < n
      → IsLesserChild rank n xs i (lesser_child less xs i n)
  unfolding lesser_child
  lesser_child-IsLesserChild n xs i h inside = elim (Bool-cases (ltb (2 * i + 1 + 1) n)) [
    | inl both ↦
        let test =
          less_at-ranks rank less xs (2 * i + 1 + 1) (2 * i + 1) by (ground arith) (omega arith) in
        rw (both, test)
          (record {
            inside = ground arith;
            child = ground arith;
            least = λ c p q r. elim (right_or_left i c r p) [
              | inl e ↦ rw e (ground arith)
              | inr e ↦ rw e (ground arith)
            ];
          })
    | inr single ↦ rw single (record {
      inside = inside;
      child = inl refl;
      least = λ c p q r. elim (right_or_left i c r p) [
        | inl e ↦ rw e (omega arith)
        | inr e ↦ absurd (ground arith)
      ];
    })
  ]

  pub down_restores :
      (fuel : ℕ) (xs : List A) (i n : ℕ)
      → n ≤ i + fuel
      → n ≤ length xs
      → ((c : ℕ) → 0 < c → c < n → parent c ≢ i → rank_at rank xs (parent c) ≤ rank_at rank xs c)
      → IsBridged rank n xs i
      → IsHeapTo rank n (down less fuel xs i n)
        × Perm (down less fuel xs i n) xs
        × ((c : ℕ) → n ≤ c → get_elem? (down less fuel xs i n) c ≡ get_elem? xs c)
  unfolding down
  down_restores zero xs i n f h edges bridged =
      (λ c p q. edges c p q (omega arith), Perm.rfl, λ c p. refl)
  down_restores (suc fuel) xs i n f h edges bridged = elim (Bool-cases (leb n (2 * i + 1))) [
    | inl leaf ↦ rw leaf (λ c p q. edges c p q (ground arith), Perm.rfl, λ c p. refl)
    | inr inner ↦
        let m = lesser_child less xs i n in
        let s = lesser_child-IsLesserChild n xs i h (ground arith) in
        let hm : m < length xs = omega (arith, s.inside) in
        let hi : i < length xs = ground arith in
        let test = less_at-ranks rank less xs m i by hm hi in
        elim (Bool-cases (ltb (rank_at rank xs m) (rank_at rank xs i))) [
          | inl below ↦
              let v =
                swap-DownInv rank n xs i m h (record { edges = edges; bridged = bridged }) s
                  (ground arith) in
              let r =
                down_restores fuel (swap xs i m) m n (omega (arith, s.child)) (rw length-swap h)
                  v.edges v.bridged in
              rw (inner, test, below)
                (
                  r.0,
                  Perm.trans r.1 (swap-Perm xs i m hi hm),
                  λ c p. r.2 c p ∙ (rw (get_elem?-swap xs i m hi hm c) (ground (arith, s.inside))),
                )
          | inr settled ↦
              rw (inner, test, settled)
                (λ c p q. ground (arith, edges c, s.least c), Perm.rfl, λ c p. refl)
        ]
  ]
