-- ===== src/Heap/Order.antt =====
-- container/heap: the order of the entries, by the rank that the comparison looks at.
use testing_go_moi.Prelude.{
  ℕ, zero, suc, ◌-◌, ◌/◌, ◌≤◌, ◌<◌, ◌≡◌, ap, Bool, Option, none, some, List, ◌++◌, ltb, ◌==◌,
  if◌then◌else◌, length, get_elem?, get_elem?_in_range, get_elem?-append_left, arith,
}
use testing_go_moi.Heap.{swap, less_at}
use testing_go_moi.Heap.Array.{get_elem?-swap}

abbrev pub parent : ℕ → ℕ
parent j = (j - 1) / 2

-- The rank of an entry that may be missing.
abbrev pub rank? {ℓ} : {A : Type ℓ} → (A → ℕ) → Option A → ℕ
rank? rank none = 0
rank? rank (some a) = rank a

-- The comparison puts the lower rank first.
abbrev pub ComparesBy {ℓ} : {A : Type ℓ} → (A → A → Bool) → (A → ℕ) → Type ℓ
ComparesBy {A = A} less rank = (a b : A) → less a b ≡ ltb (rank a) (rank b)

module _ {ℓ} {A : Type ℓ} (rank : A → ℕ) where
  unfoldable pub rank_at : List A → ℕ → ℕ
  rank_at xs i = rank? rank (get_elem? xs i)

  -- Every entry before the bound has a rank no lower than its parent's.
  abbrev pub IsHeapTo : ℕ → List A → Type 0
  IsHeapTo n xs = (c : ℕ) → 0 < c → c < n → rank_at xs (parent c) ≤ rank_at xs c

  abbrev pub IsHeap : List A → Type 0
  IsHeap xs = IsHeapTo (length xs) xs

  -- The children of an entry are in order with its parent.
  abbrev pub IsBridged : ℕ → List A → ℕ → Type 0
  IsBridged n xs i =
      (c : ℕ) → 0 < c → c < n → parent c ≡ i → 0 < i → rank_at xs (parent i) ≤ rank_at xs c

  pub rank_at-swap :
      (xs : List A) (i j c : ℕ)
      → i < length xs
      → j < length xs
      → rank_at (swap xs i j) c
        ≡ (if j == c then rank_at xs i else if i == c then rank_at xs j else rank_at xs c)
  unfolding rank_at
  rank_at-swap xs i j c hi hj = rw (get_elem?-swap xs i j hi hj c) (ground arith)

  pub rank_at-append :
      (xs ys : List A) (i : ℕ) → i < length xs → rank_at (xs ++ ys) i ≡ rank_at xs i
  unfolding rank_at
  rank_at-append xs ys i h = ap (rank? rank) (get_elem?-append_left xs ys i h)

  pub less_at-ranks :
      (less : A → A → Bool) (xs : List A) (i j : ℕ)
      → ComparesBy less rank
      → i < length xs
      → j < length xs
      → less_at less xs i j ≡ ltb (rank_at xs i) (rank_at xs j)
  unfolding rank_at less_at
  less_at-ranks less xs i j by hi hj =
      let a = get_elem?_in_range xs i hi in
      let b = get_elem?_in_range xs j hj in rw (a.1, less_at, b.1) (by a.0 b.0)

  root_least_below :
      (k n : ℕ) (xs : List A) (i : ℕ) → IsHeapTo n xs → i < k → i < n → rank_at xs 0 ≤ rank_at xs i
  root_least_below zero n xs i h f p = absurd (omega arith)
  root_least_below (suc k) n xs i h f p = ground (arith, h i, root_least_below k n xs (parent i) h)

  pub root_least :
      (n : ℕ) (xs : List A) (i : ℕ) → IsHeapTo n xs → i < n → rank_at xs 0 ≤ rank_at xs i
  root_least n xs i h p = root_least_below (suc i) n xs i h (omega arith) p
