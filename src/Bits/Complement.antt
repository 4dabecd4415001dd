-- ===== src/Bits/Complement.antt =====
-- `Not` and `IsEmpty`, index by index (arrayofbits.go).
use testing_go_moi.Prelude.{
  ℕ, zero, suc, ◌-◌, ◌/◌, ◌%◌, ◌<◌, true, false, not, some, List, [], ◌∷◌, ◌≡◌, ◌≢◌, refl, ap, ◌∙◌,
  arith, inl, inr, ◌==◌, Bool-cases, dec_lt, digit, digit-lt, digit-zero, digit-complement, length,
  get_or,
}
use testing_go_moi.Bits.{
  ArrayOfBits, get_index, not_bits, complement_words, complement, all_zero, is_empty,
}
use testing_go_moi.Bits.Invariant.{IsValid, get_or-IsWord}
use testing_go_moi.Bits.Index.{bit_at, get_index-bit_at, get_index_past, place-lt}
use testing_go_moi.Bits.Pointwise.{IsTrimmed}

get_or-complement_words :
    (ws : List ℕ) (i : ℕ)
    → i < length ws
    → get_or (complement_words ws) i 0 ≡ complement (get_or ws i 0)
unfolding complement_words
get_or-complement_words [] i h = elim h [ ]
get_or-complement_words (w ∷ ws) zero h = refl
get_or-complement_words (w ∷ ws) (suc i) h = get_or-complement_words ws i (omega arith)

bit_at-not :
    (b : ArrayOfBits) (i : ℕ)
    → IsValid b
    → i / 64 < length b.elements
    → bit_at (not_bits b).elements i ≡ 1 - bit_at b.elements i
unfolding not_bits
bit_at-not b i v h =
    ap (λ (x : ℕ). digit x (i % 64)) (get_or-complement_words b.elements (i / 64) h)
    ∙ digit-complement 64 (get_or b.elements (i / 64) 0) (i % 64)
        (get_or-IsWord b.elements (i / 64) v.words) (omega arith)

size-not_bits : (b : ArrayOfBits) → (not_bits b).size ≡ b.size
unfolding not_bits
size-not_bits b = refl

-- In range of a valid array, Not flips every index.
pub get_index-not_bits :
    (b : ArrayOfBits) (i : ℕ)
    → IsValid b
    → i < b.size
    → get_index (not_bits b) i ≡ not (get_index b i)
get_index-not_bits b i v h =
    get_index-bit_at (not_bits b) i (omega (arith, size-not_bits b))
    ∙ rw (bit_at-not b i v (place-lt b i v h), get_index-bit_at b i h)
        (flip (bit_at b.elements i) (digit-lt _ _))
  where
    flip : (x : ℕ) → x < 2 → (1 - x == 1) ≡ not (x == 1)
    flip x p = ground arith

all_zero_of : (ws : List ℕ) (i : ℕ) → all_zero ws ≡ true → get_or ws i 0 ≡ 0
unfolding all_zero
all_zero_of [] i h = refl
all_zero_of (w ∷ ws) zero h = ground arith
all_zero_of (w ∷ ws) (suc i) h = all_zero_of ws i (ground arith)

-- `IsEmpty` says that no index is set.
pub is_empty_sound : (b : ArrayOfBits) (i : ℕ) → is_empty (some b) ≡ true → get_index b i ≡ false
unfolding is_empty
is_empty_sound b i h = elim (dec_lt i b.size) [
  | yes p ↦ get_index-bit_at b i p ∙ rw (all_zero_of b.elements (i / 64) h, digit-zero)
  | no p ↦ get_index_past b i (omega arith)
]

-- The complement of a valid array without digits past its size is not empty to IsEmpty, unless the
-- size is a multiple of 64: the digits past the size are set.
pub is_empty-not_bits-false :
    (b : ArrayOfBits)
    → IsValid b
    → IsTrimmed b
    → b.size % 64 ≢ 0
    → is_empty (some (not_bits b)) ≡ false
unfolding is_empty
is_empty-not_bits-false b v t h = elim (Bool-cases (all_zero (not_bits b).elements)) [
  | inr e ↦ e
  | inl e ↦ absurd (
      omega (
        arith,
        bit_at-not b b.size v (omega (arith, v.fits)),
        t b.size (omega arith),
        ap (λ (x : ℕ). digit x (b.size % 64)) (all_zero_of (not_bits b).elements (b.size / 64) e),
        digit-zero (b.size % 64),
      ))
]
