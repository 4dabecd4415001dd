-- ===== src/Heap.antt =====
-- The binary heap of Go's `container/heap`, which ixpool/queue.go and common/priority_queue.go call,
-- on a slice whose `Less` compares two entries and whose `Swap` exchanges them.
--
-- The loops of the package run on fuel: the index of the entry that moves up, or the number of entries
-- below the one that moves down. An access out of range, where Go panics, changes nothing here; the
-- two loops make none. The element type and the comparison are arguments.
pub mod Array
pub mod Order
pub mod Up
pub mod Down
pub mod Queue
use testing_go_moi.Prelude.{
  ℕ, zero, suc, ◌+◌, ◌-◌, ◌*◌, ◌/◌, Bool, true, false, not, ◌&&◌, ◌||◌, Option, none, some, List,
  [], ◌∷◌, ◌++◌, ltb, leb, ◌==◌, if◌then◌else◌, length, get_elem?, set, take,
}

module _ {ℓ} {A : Type ℓ} where
  -- `q[i], q[j] = q[j], q[i]`.
  unfoldable pub swap : List A → ℕ → ℕ → List A
  swap xs i j = elim (get_elem? xs i) [
    | none ↦ xs
    | some a ↦ elim (get_elem? xs j) [ none ↦ xs | some b ↦ set (set xs i b) j a ]
  ]

  unfoldable pub less_at : (A → A → Bool) → List A → ℕ → ℕ → Bool
  less_at less xs i j = elim (get_elem? xs i) [
    | none ↦ false
    | some a ↦ elim (get_elem? xs j) [ none ↦ false | some b ↦ less a b ]
  ]

  -- `up`: exchanges an entry with its parent while it is less.
  unfoldable pub up : (A → A → Bool) → ℕ → List A → ℕ → List A
  up less zero xs j = xs
  up less (suc fuel) xs j =
      let parent : ℕ = (j - 1) / 2 in
      let rest = up less fuel (swap xs parent j) parent in
      if (parent == j) || not (less_at less xs j parent) then xs else rest

  -- The child that `down` compares: the right one if it is within the bound and less.
  unfoldable pub lesser_child : (A → A → Bool) → List A → ℕ → ℕ → ℕ
  lesser_child less xs i n =
      let left : ℕ = 2 * i + 1 in
      if ltb (left + 1) n && less_at less xs (left + 1) left then left + 1 else left

  -- `down`: exchanges an entry with its lesser child while that is less.
  unfoldable pub down : (A → A → Bool) → ℕ → List A → ℕ → ℕ → List A
  down less zero xs i n = xs
  down less (suc fuel) xs i n =
      let j = lesser_child less xs i n in
      let rest = down less fuel (swap xs i j) j n in
      if leb n (2 * i + 1) || not (less_at less xs j i) then xs else rest

  -- `heap.Push`.
  unfoldable pub push : (A → A → Bool) → List A → A → List A
  push less xs x = up less (length xs) (xs ++ x ∷ []) (length xs)

  -- The last entry and the others; `none` for an empty slice.
  unfoldable pub pop_last : List A → Option (A × List A)
  pop_last [] = none
  pop_last (x ∷ xs) = elim (pop_last xs) [ none ↦ some (x, []) | some (y, ys) ↦ some (y, x ∷ ys) ]

  -- `heap.Pop`: the root goes last, the new root down, and the last entry off the slice.
  unfoldable pub pop : (A → A → Bool) → List A → Option (A × List A)
  pop less xs = let n : ℕ = length xs - 1 in pop_last (down less (length xs) (swap xs 0 n) 0 n)
