-- ===== src/Heap/Array.antt =====
-- container/heap: what an exchange of two entries does to a slice, and to the ranks of its entries.
use mathlib.Core.List.Perm
use mathlib.Core.List.{Perm, perm_middle, append-nil}
use testing_go_moi.Prelude.{
  ℕ, zero, suc, ◌<◌, ◌≡◌, refl, subst, some, List, [], ◌∷◌, ◌++◌, ◌==◌, if◌then◌else◌, length,
  get_elem?, set, length-set, get_elem?-set, get_elem?_in_range, Option-cases, inl, inr, arith,
}
use testing_go_moi.Heap.{swap}

module _ {ℓ} {A : Type ℓ} where
  -- The entry trades places with the one it replaces.
  set-Perm :
      (xs : List A) (i : ℕ) (a v : A) → get_elem? xs i ≡ some a → Perm (a ∷ set xs i v) (v ∷ xs)
  set-Perm [] i a v e = cc
  set-Perm (x ∷ xs) zero a v e =
      subst (λ (y : A). Perm (y ∷ v ∷ xs) (v ∷ x ∷ xs)) (cc) (Perm.swap v x xs)
  set-Perm (x ∷ xs) (suc i) a v e =
      Perm.trans (Perm.swap x a (set xs i v))
        (Perm.trans (Perm.cons x (set-Perm xs i a v e)) (Perm.swap v x xs))

  swap_writes :
      (xs : List A) (i j : ℕ) (a b : A)
      → get_elem? xs i ≡ some a
      → get_elem? xs j ≡ some b
      → swap xs i j ≡ set (set xs i b) j a
  unfolding swap
  swap_writes xs i j a b p q = rw (p, swap, q) refl

  pub length-swap : (xs : List A) (i j : ℕ) → length (swap xs i j) ≡ length xs
  unfolding swap
  length-swap xs i j = elim (Option-cases (get_elem? xs i)) [
    | inl p ↦ rw (p, swap) refl
    | inr p ↦ elim (Option-cases (get_elem? xs j)) [
      | inl q ↦ rw (p.1, swap, q) refl
      | inr q ↦ rw (swap_writes xs i j p.0 q.0 p.1 q.1) (simp length-set)
    ]
  ]

  module _ (xs : List A) (i j : ℕ) (hi : i < length xs) (hj : j < length xs) where
    pub get_elem?-swap :
        (c : ℕ)
        → get_elem? (swap xs i j) c
          ≡ (if j == c then get_elem? xs i else if i == c then get_elem? xs j else get_elem? xs c)
    get_elem?-swap c =
        let x = get_elem?_in_range xs i hi in
        let y = get_elem?_in_range xs j hj in
        rw
          (
            swap_writes xs i j x.0 y.0 x.1 y.1,
            get_elem?-set (set xs i y.0) j c x.0 (rw length-set hj),
            get_elem?-set xs i c y.0 hi,
            x.1,
            y.1,
          )
          refl

    pub swap-Perm : Perm (swap xs i j) xs
    swap-Perm =
        let x = get_elem?_in_range xs i hi in
        let y = get_elem?_in_range xs j hj in
        let b = set xs i y.0 in
        let kept : get_elem? b j ≡ some y.0 =
          rw (get_elem?-set xs i j y.0 hi) (ground (arith, y.1)) in
        let second = set-Perm b j y.0 x.0 kept in
        rw (swap_writes xs i j x.0 y.0 x.1 y.1)
          (Perm.cons_inv (Perm.trans second (set-Perm xs i x.0 y.0 x.1)))

  pub append_one-Perm : (xs : List A) (x : A) → Perm (xs ++ x ∷ []) (x ∷ xs)
  append_one-Perm xs x = rw (append-nil xs) at (perm_middle {a = x} xs [])
