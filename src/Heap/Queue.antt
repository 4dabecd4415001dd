-- ===== src/Heap/Queue.antt =====
-- container/heap: `heap.Push` and `heap.Pop` as operations of a priority queue.
use mathlib.Core.List.Perm
use mathlib.Core.List.{Perm}
use native.Mathlib.Bridge.{le_prop}
use testing_go_moi.Prelude.{
  ℕ, zero, suc, ◌+◌, ◌-◌, ◌*◌, ◌≤◌, ◌<◌, ◌≡◌, refl, sym, ap, subst, ◌∙◌, Bool, not, ◌||◌, some,
  List, [], ◌∷◌, ◌++◌, leb, length, length-append, get_elem?, get_elem?_lt, get_elem?-append_right,
  Bool-cases, inl, inr, Each, Each-of_get_elem?, Each-Perm, arith,
}
use testing_go_moi.Heap.{swap, less_at, lesser_child, down, push, pop_last, pop}
use testing_go_moi.Heap.Array.{length-swap, swap-Perm, get_elem?-swap, append_one-Perm}
use testing_go_moi.Heap.Order.{
  parent, ComparesBy, rank_at, rank_at-swap, rank_at-append, IsHeap, IsHeapTo, root_least,
}
use testing_go_moi.Heap.Up.{up_restores}
use testing_go_moi.Heap.Down.{down_restores}

module _ {ℓ} {A : Type ℓ} where
  length-down :
      (less : A → A → Bool) (fuel : ℕ) (xs : List A) (i n : ℕ)
      → length (down less fuel xs i n) ≡ length xs
  unfolding down
  length-down less zero xs i n = refl
  length-down less (suc fuel) xs i n =
      let j = lesser_child less xs i n in
      elim (Bool-cases (leb n (2 * i + 1) || not (less_at less xs j i))) [
        | inl stop ↦ rw stop refl
        | inr go ↦ rw go (length-down less fuel (swap xs i j) j n ∙ length-swap xs i j)
      ]

  -- The slice without its last entry, and that entry.
  pub pop_last_splits :
      (xs : List A) (n : ℕ)
      → length xs ≡ suc n
      → (x : A) × (rest : List A) × (pop_last xs ≡ some (x, rest))
        × (xs ≡ rest ++ x ∷ [])
        × (length rest ≡ n)
  unfolding pop_last
  pop_last_splits [] n e = absurd (omega arith)
  pop_last_splits (x ∷ []) n e = (x, [], refl, refl, omega arith)
  pop_last_splits (x ∷ y ∷ ys) zero e = absurd (omega arith)
  pop_last_splits (x ∷ y ∷ ys) (suc n) e =
      let r = pop_last_splits (y ∷ ys) n (omega arith) in
      (r.0, x ∷ r.1, rw (r.2, pop_last) refl, ap (◌∷◌ x) r.3, omega (arith, r.4))

module _ {ℓ} {A : Type ℓ} (rank : A → ℕ) (less : A → A → Bool) (by : ComparesBy less rank) where
  -- A push keeps the heap, with the new entry among the others.
  pub push_lem :
      (xs : List A) (x : A)
      → IsHeap rank xs
      → IsHeap rank (push less xs x) × Perm (push less xs x) (x ∷ xs)
  unfolding push
  push_lem xs x h =
      let ys = xs ++ x ∷ [] in
      let size = length-append xs (x ∷ []) in
      let same = λ (c : ℕ) (p : c < length xs). rank_at-append rank xs (x ∷ []) c p in
      let r =
        up_restores rank less by (length xs) ys (length xs) (omega arith) (omega (arith, size))
          (λ c p q ne.
            rw (same c (omega (arith, size)), same (parent c) (omega (arith, size)))
              (h c p (omega (arith, size))))
          (λ c p q e pos. absurd (omega (arith, size))) in
      (r.0, Perm.trans r.1 (append_one-Perm xs x))

  -- What a pop of a heap returns.
  pub record Popped (xs : List A) : Type ℓ where
    pub entry : A
    pub rest : List A
    pub popped : pop less xs ≡ some (entry, rest)
    pub root : get_elem? xs 0 ≡ some entry
    pub same : Perm xs (entry ∷ rest)
    pub least : Each (λ y. rank entry ≤ rank y) rest
    pub ordered : IsHeap rank rest
    pub shorter : length xs ≡ suc (length rest)

  -- The slice of `pop` before its last entry is cut off.
  abbrev sunk : List A → ℕ → List A
  sunk xs m = down less (length xs) (swap xs 0 m) 0 m

  sunk_restores :
      (xs : List A) (m : ℕ)
      → length xs ≡ suc m
      → IsHeap rank xs
      → IsHeapTo rank m (sunk xs m)
        × Perm (sunk xs m) xs
        × (get_elem? (sunk xs m) m ≡ get_elem? xs 0)
  sunk_restores xs m e h =
      let at = λ (c : ℕ). rank_at-swap rank xs 0 m c (omega (arith, e)) (omega (arith, e)) in
      let r =
        down_restores rank less by (length xs) (swap xs 0 m) 0 m (omega (arith, e))
          (omega (arith, e, length-swap xs 0 m))
          (λ c p q ne. ground (arith, at c, at (parent c), h c, e))
          (λ c p q t pos. absurd (omega arith)) in
      (
        r.0,
        Perm.trans r.1 (swap-Perm xs 0 m (omega (arith, e)) (omega (arith, e))),
        r.2 m (omega arith)
            ∙ (rw (get_elem?-swap xs 0 m (omega (arith, e)) (omega (arith, e)) m) (ground arith)),
      )

  root-Each :
      (xs : List A) (x : A)
      → IsHeap rank xs
      → get_elem? xs 0 ≡ some x
      → Each (λ y. rank x ≤ rank y) xs
  unfolding rank_at
  root-Each xs x h root =
      Each-of_get_elem? (λ y. rank x ≤ rank y) xs
        (λ i y at. rw (root, at) at (root_least rank (length xs) xs i h (get_elem?_lt xs i at)))

  rest-IsHeap :
      (rest : List A) (y : A) → IsHeapTo rank (length rest) (rest ++ y ∷ []) → IsHeap rank rest
  rest-IsHeap rest y h = λ c p q.
      let same = λ (c : ℕ) (p : c < length rest). rank_at-append rank rest (y ∷ []) c p in
      rw (same c q, same (parent c) (omega arith)) at (h c p q)

  pop-sunk : (xs : List A) (m : ℕ) → length xs ≡ suc m → pop less xs ≡ pop_last (sunk xs m)
  unfolding pop
  pop-sunk xs m e =
      let same : length xs - 1 ≡ m = omega (arith, e) in
      ap (λ (k : ℕ). pop_last (down less (length xs) (swap xs 0 k) 0 k)) same

  Popped-of_split :
      (xs : List A) (m : ℕ)
      → length xs ≡ suc m
      → IsHeap rank xs
      → (y : A) (rest : List A) → pop_last (sunk xs m) ≡ some (y, rest)
      → sunk xs m ≡ rest ++ y ∷ []
      → length rest ≡ m
      → Popped xs
  Popped-of_split xs m e h y rest cut split size =
      let r = sunk_restores xs m e h in
      let last : get_elem? (sunk xs m) m ≡ some y =
        ap (λ (ys : List A). get_elem? ys m) split
        ∙ get_elem?-append_right rest (y ∷ []) m 0 (omega (arith, size)) in
      let root : get_elem? xs 0 ≡ some y = sym r.2 ∙ last in
      let same : Perm xs (y ∷ rest) =
        Perm.trans (Perm.symm r.1)
          (subst (λ (ys : List A). Perm ys (y ∷ rest)) (sym split) (append_one-Perm rest y)) in
      record {
        entry = y;
        rest = rest;
        popped = pop-sunk xs m e ∙ cut;
        root = root;
        same = same;
        least =
            (Each-Perm (λ z. rank y ≤ rank z) xs (y ∷ rest) (λ z. le_prop) same
              (root-Each xs y h root)).1;
        ordered = rest-IsHeap rest y (
            subst (λ (k : ℕ). IsHeapTo rank k (rest ++ y ∷ [])) (sym size)
              (subst (IsHeapTo rank m) split r.0));
        shorter = omega (arith, e, size);
      }

  -- A pop of a heap with entries takes a least one out, and leaves a heap of the others.
  pub pop_lem : (xs : List A) (m : ℕ) → length xs ≡ suc m → IsHeap rank xs → Popped xs
  pop_lem xs m e h =
      let size = length-down less (length xs) (swap xs 0 m) 0 m ∙ length-swap xs 0 m ∙ e in
      let s = pop_last_splits (sunk xs m) m size in Popped-of_split xs m e h s.0 s.1 s.2 s.3 s.4
