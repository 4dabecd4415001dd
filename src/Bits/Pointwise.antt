-- ===== src/Bits/Pointwise.antt =====
-- `Or`, `And` and `Subtract`, index by index (arrayofbits.go).
use testing_go_moi.Prelude.{
  ℕ, zero, suc, ◌-◌, ◌/◌, ◌%◌, ◌≤◌, ◌<◌, min, max, bit_and, bit_or, false, not, ◌&&◌, ◌||◌, List,
  [], ◌∷◌, ◌≡◌, refl, sym, ap, ◌∙◌, arith, ◌==◌, dec_lt, digit, digit-lt, digit-zero, digit-bit_and,
  digit-bit_or, digit-complement, length, get_or, get_or_past,
}
use testing_go_moi.Bits.{
  ArrayOfBits, num_elements, get_index, copy_words, copy_bits, combine, or_bits, and_bits,
  subtract_bits, complement, and_not,
}
use testing_go_moi.Bits.Invariant.{IsWord, AllWords, IsValid, get_or-IsWord, length-copy_words}
use testing_go_moi.Bits.Index.{bit_at, get_index-bit_at, get_index_past, place-lt}

-- No digit of the last word is set past the size. `Not` alone breaks it.
abbrev pub IsTrimmed : ArrayOfBits → Type 0
IsTrimmed b = (i : ℕ) → b.size ≤ i → bit_at b.elements i ≡ 0

get_or-copy_words :
    (n : ℕ) (ws : List ℕ) (i : ℕ) → i < n → get_or (copy_words n ws) i 0 ≡ get_or ws i 0
unfolding copy_words
get_or-copy_words zero ws i h = elim h [ ]
get_or-copy_words (suc n) [] zero h = refl
get_or-copy_words (suc n) [] (suc i) h = get_or-copy_words n [] i (omega arith)
get_or-copy_words (suc n) (w ∷ ws) zero h = refl
get_or-copy_words (suc n) (w ∷ ws) (suc i) h = get_or-copy_words n ws i (omega arith)

-- At a word that only the first list has, the loop has stopped.
get_or-combine :
    (f : ℕ → ℕ → ℕ) (ws vs : List ℕ) (i : ℕ)
    → i < length ws
    → i < length vs
    → get_or (combine f ws vs) i 0 ≡ f (get_or ws i 0) (get_or vs i 0)
unfolding combine
get_or-combine f [] vs i h k = elim h [ ]
get_or-combine f (w ∷ ws) [] i h k = elim k [ ]
get_or-combine f (w ∷ ws) (v ∷ vs) zero h k = refl
get_or-combine f (w ∷ ws) (v ∷ vs) (suc i) h k =
    get_or-combine f ws vs i (omega arith) (omega arith)

get_or-combine_rest :
    (f : ℕ → ℕ → ℕ) (ws vs : List ℕ) (i : ℕ)
    → length vs ≤ i
    → get_or (combine f ws vs) i 0 ≡ get_or ws i 0
unfolding combine
get_or-combine_rest f [] vs i k = refl
get_or-combine_rest f (w ∷ ws) [] i k = refl
get_or-combine_rest f (w ∷ ws) (v ∷ vs) zero k = absurd (omega arith)
get_or-combine_rest f (w ∷ ws) (v ∷ vs) (suc i) k = get_or-combine_rest f ws vs i (omega arith)

-- An operation on words that acts on each digit by `g`, and by nothing where the second is 0.
module _ (f g : ℕ → ℕ → ℕ)
    (digitwise : (a b j : ℕ)
      → IsWord a
      → IsWord b
      → j < 64
      → digit (f a b) j ≡ g (digit a j) (digit b j))
    (neutral : (x : ℕ) → x < 2 → g x 0 ≡ x) where
  pub bit_at-combine :
      (ws vs : List ℕ) (n i : ℕ)
      → AllWords ws
      → AllWords vs
      → i / 64 < n
      → bit_at (combine f (copy_words n ws) vs) i ≡ g (bit_at ws i) (bit_at vs i)
  bit_at-combine ws vs n i hw hv h = elim (dec_lt (i / 64) (length vs)) [
    | yes p ↦
        ap (λ (w : ℕ). digit w (i % 64))
          (get_or-combine f (copy_words n ws) vs (i / 64) (omega (arith, length-copy_words n ws)) p
            ∙ rw (get_or-copy_words n ws (i / 64) h))
        ∙ digitwise (get_or ws (i / 64) 0) (get_or vs (i / 64) 0) (i % 64)
            (get_or-IsWord ws (i / 64) hw) (get_or-IsWord vs (i / 64) hv) (omega arith)
    | no p ↦
        ap (λ (w : ℕ). digit w (i % 64))
          (get_or-combine_rest f (copy_words n ws) vs (i / 64) (omega arith)
            ∙ get_or-copy_words n ws (i / 64) h)
        ∙ sym (
            ap (λ (w : ℕ). g (bit_at ws i) (digit w (i % 64)))
              (get_or_past vs (i / 64) 0 (omega arith))
            ∙ rw digit-zero (neutral (bit_at ws i) (digit-lt _ _)))
  ]

pub in_words : (size i : ℕ) → i < size → i / 64 < num_elements size
in_words size i h = omega arith

bit_at-or :
    (b input : ArrayOfBits) (i : ℕ)
    → IsValid b
    → IsValid input
    → i < max b.size input.size
    → bit_at (or_bits b input).elements i ≡ max (bit_at b.elements i) (bit_at input.elements i)
unfolding or_bits copy_bits
bit_at-or b input i v w h =
    bit_at-combine bit_or max (λ a b j _ _ _. digit-bit_or a b j) (λ x _. omega arith) b.elements
      input.elements (num_elements (max b.size input.size)) i v.words w.words (in_words _ i h)

-- Of a trimmed array `GetIndex` reads the words at every index.
pub get_index_trimmed :
    (b : ArrayOfBits) (i : ℕ) → IsTrimmed b → get_index b i ≡ (bit_at b.elements i == 1)
get_index_trimmed b i t = elim (dec_lt i b.size) [
  | yes p ↦ get_index-bit_at b i p
  | no p ↦ get_index_past b i (omega arith) ∙ rw (t i (omega arith))
]

size-or_bits : (b input : ArrayOfBits) → (or_bits b input).size ≡ max b.size input.size
unfolding or_bits copy_bits
size-or_bits b input = refl

-- For valid arrays without digits past their sizes, an index of the union is set exactly when it is
-- set in one of the two.
pub get_index-or_bits :
    (b input : ArrayOfBits) (i : ℕ)
    → IsValid b
    → IsValid input
    → IsTrimmed b
    → IsTrimmed input
    → get_index (or_bits b input) i ≡ (get_index b i || get_index input i)
get_index-or_bits b input i v w t u =
    rw (get_index_trimmed b i t, get_index_trimmed input i u)
      (elim (dec_lt i (max b.size input.size)) [
        | yes p ↦
            get_index-bit_at (or_bits b input) i (omega (arith, size-or_bits b input))
            ∙ rw (bit_at-or b input i v w p) (
                either (bit_at b.elements i) (bit_at input.elements i) (digit-lt _ _)
                  (digit-lt _ _))
        | no p ↦
            get_index_past (or_bits b input) i (omega (arith, size-or_bits b input))
            ∙ rw (t i (omega arith), u i (omega arith))
      ])
  where
    either : (x y : ℕ) → x < 2 → y < 2 → (max x y == 1) ≡ ((x == 1) || (y == 1))
    either x y p q = ground arith

bit_at-and :
    (b input : ArrayOfBits) (i : ℕ)
    → IsValid b
    → IsValid input
    → i < min b.size input.size
    → bit_at (and_bits b input).elements i ≡ min (bit_at b.elements i) (bit_at input.elements i)
unfolding and_bits copy_bits
bit_at-and b input i v w h =
    ap (λ (x : ℕ). digit x (i % 64))
      (get_or-combine bit_and (copy_words n b.elements) input.elements (i / 64)
          (omega (arith, length-copy_words n b.elements)) (place-lt input i w (omega arith))
        ∙ rw (get_or-copy_words n b.elements (i / 64) (in_words _ i h)))
    ∙ digit-bit_and (get_or b.elements (i / 64) 0) (get_or input.elements (i / 64) 0) (i % 64)
  where
    n : ℕ
    n = num_elements (min b.size input.size)

size-and_bits : (b input : ArrayOfBits) → (and_bits b input).size ≡ min b.size input.size
unfolding and_bits copy_bits
size-and_bits b input = refl

-- For valid arrays, an index of the intersection is set exactly when it is set in both.
pub get_index-and_bits :
    (b input : ArrayOfBits) (i : ℕ)
    → IsValid b
    → IsValid input
    → get_index (and_bits b input) i ≡ (get_index b i && get_index input i)
get_index-and_bits b input i v w = elim (dec_lt i (min b.size input.size)) [
  | yes p ↦
      get_index-bit_at (and_bits b input) i (omega (arith, size-and_bits b input))
      ∙ rw
          (
            bit_at-and b input i v w p,
            get_index-bit_at b i (omega arith),
            get_index-bit_at input i (omega arith),
          )
          (both (bit_at b.elements i) (bit_at input.elements i) (digit-lt _ _) (digit-lt _ _))
  | no p ↦
      get_index_past (and_bits b input) i (omega (arith, size-and_bits b input))
      ∙ sym (past p (dec_lt i b.size))
]
  where
    both : (x y : ℕ) → x < 2 → y < 2 → (min x y == 1) ≡ ((x == 1) && (y == 1))
    both x y p q = ground arith

    past :
        ¬ (i < min b.size input.size)
        → Dec (i < b.size)
        → (get_index b i && get_index input i) ≡ false
    past out (yes p) = ground (arith, get_index_past input i (omega arith))
    past out (no p) = rw (get_index_past b i (omega arith))

size-subtract_bits : (b input : ArrayOfBits) → (subtract_bits b input).size ≡ b.size
unfolding subtract_bits copy_bits
size-subtract_bits b input = refl

bit_at-subtract :
    (b input : ArrayOfBits) (i : ℕ)
    → IsValid b
    → IsValid input
    → i < b.size
    → bit_at (subtract_bits b input).elements i
      ≡ min (bit_at b.elements i) (1 - bit_at input.elements i)
unfolding subtract_bits copy_bits
bit_at-subtract b input i v w h =
    bit_at-combine and_not (λ x y. min x (1 - y))
      (λ a b j _ hb hj. digit-bit_and a (complement b) j ∙ rw (digit-complement 64 b j hb hj))
      (λ x p. omega arith) b.elements input.elements (num_elements b.size) i v.words w.words
      (in_words _ i h)

-- For valid arrays of which the second has no digits past its size, an index of the difference is
-- set exactly when it is set in the first and not in the second.
pub get_index-subtract_bits :
    (b input : ArrayOfBits) (i : ℕ)
    → IsValid b
    → IsValid input
    → IsTrimmed input
    → get_index (subtract_bits b input) i ≡ (get_index b i && not (get_index input i))
get_index-subtract_bits b input i v w u = elim (dec_lt i b.size) [
  | yes p ↦
      get_index-bit_at (subtract_bits b input) i (omega (arith, size-subtract_bits b input))
      ∙ rw (bit_at-subtract b input i v w p, get_index-bit_at b i p, get_index_trimmed input i u)
          (minus (bit_at b.elements i) (bit_at input.elements i) (digit-lt _ _) (digit-lt _ _))
  | no p ↦
      get_index_past (subtract_bits b input) i (omega (arith, size-subtract_bits b input))
      ∙ rw (get_index_past b i (omega arith))
]
  where
    minus : (x y : ℕ) → x < 2 → y < 2 → (min x (1 - y) == 1) ≡ ((x == 1) && not (y == 1))
    minus x y p q = ground arith
