-- ===== src/Bits/Index.antt =====
-- Reading and writing one bit, through words and places.
use testing_go_moi.Prelude.{
  ℕ, ◌/◌, ◌%◌, ◌≤◌, ◌<◌, Bool, true, false, List, ◌≡◌, ◌≢◌, refl, ◌∙◌, arith, ltb, ◌==◌, ==_iff,
  if◌then◌else◌, ℕ_discrete, dec_lt, subst, digit, digit-lt, digit-bit_and, digit-bit_or,
  digit-pow_self, digit-pow_ne, digit-complement, bit_and-pow_of_zero, bit_and-pow_of_one, length,
  set, get_or, get_or-set_self, get_or-set_ne,
}
use testing_go_moi.Prelude.{some, digit-zero, replicate, get_or-replicate}
use testing_go_moi.Bits.{new_array_of_bits, num_elements}
use testing_go_moi.Bits.{
  ArrayOfBits, set_index, get_index, write_word, word_test, complement, one_shl,
}
use testing_go_moi.Bits.Invariant.{IsValid, one_shl-IsWord}

pub word_test-digit : (w j : ℕ) → word_test w j ≡ (digit w j == 1)
unfolding word_test
word_test-digit w j = elim (ℕ_discrete (digit w j) 0) [
  | yes e ↦ ground (arith, bit_and-pow_of_zero w j e)
  | no ne ↦ ground (arith, bit_and-pow_of_one w j (omega (arith, digit-lt w j)), digit-lt w j)
]

-- A write changes the digit at its place and no other.
pub digit-write_word_self :
    (w j : ℕ) (v : Bool) → j < 64 → digit (write_word w j v) j ≡ (if v then 1 else 0)
unfolding write_word
digit-write_word_self w j true h =
    omega (arith, digit-bit_or w (one_shl j) j, digit-pow_self j, digit-lt w j)
digit-write_word_self w j false h = omega (
  arith,
  digit-bit_and w (complement (one_shl j)) j,
  digit-complement 64 (one_shl j) j (one_shl-IsWord j h) h,
  digit-pow_self j,
)

pub digit-write_word_ne :
    (w j i : ℕ) (v : Bool) → j < 64 → i < 64 → j ≢ i → digit (write_word w j v) i ≡ digit w i
unfolding write_word
digit-write_word_ne w j i true h hi ne =
    omega (arith, digit-bit_or w (one_shl j) i, digit-pow_ne j i ne)
digit-write_word_ne w j i false h hi ne = omega (
  arith,
  digit-bit_and w (complement (one_shl j)) i,
  digit-complement 64 (one_shl j) i (one_shl-IsWord j h) hi,
  digit-pow_ne j i ne,
  digit-lt w i,
)

-- The digit that the index `i` stands for.
abbrev pub bit_at : List ℕ → ℕ → ℕ
bit_at ws i = digit (get_or ws (i / 64) 0) (i % 64)

pub get_index-bit_at :
    (b : ArrayOfBits) (i : ℕ) → i < b.size → get_index b i ≡ (bit_at b.elements i == 1)
unfolding get_index
get_index-bit_at b i h = ground (arith, word_test-digit (get_or b.elements (i / 64) 0) (i % 64))

pub get_index_past : (b : ArrayOfBits) (i : ℕ) → b.size ≤ i → get_index b i ≡ false
unfolding get_index
get_index_past b i h = ground arith

same_place : (i j : ℕ) → i ≢ j → i / 64 ≡ j / 64 → i % 64 ≢ j % 64
same_place i j ne e = omega arith

bit_at-set :
    (ws : List ℕ) (i j : ℕ) (v : Bool)
    → i / 64 < length ws
    → bit_at (set ws (i / 64) (write_word (get_or ws (i / 64) 0) (i % 64) v)) j
      ≡ (if i == j then if v then 1 else 0 else bit_at ws j)
bit_at-set ws i j v h = elim (ℕ_discrete i j) [
  | yes e ↦
      subst
        (λ k. bit_at (set ws (i / 64) w) k ≡ (if i == k then if v then 1 else 0 else bit_at ws k)) e
        (rw (get_or-set_self ws (i / 64) w 0 h, (==_iff i i).1 refl)
          (digit-write_word_self (get_or ws (i / 64) 0) (i % 64) v (omega arith)))
  | no ne ↦ other ne
]
  where
    w : ℕ
    w = write_word (get_or ws (i / 64) 0) (i % 64) v

    other :
        i ≢ j → bit_at (set ws (i / 64) w) j ≡ (if i == j then if v then 1 else 0 else bit_at ws j)
    other ne = elim (ℕ_discrete (i / 64) (j / 64)) [
      | yes e ↦ ground (
        arith,
        get_or-set_self ws (i / 64) w 0 h,
        digit-write_word_ne (get_or ws (i / 64) 0) (i % 64) (j % 64) v (omega arith) (omega arith)
            (same_place i j ne e),
        e,
        ne,
      )
      | no ne' ↦ ground (arith, get_or-set_ne ws (i / 64) (j / 64) w 0 ne', ne)
    ]

pub size-set_index : (b : ArrayOfBits) (i : ℕ) (v : Bool) → (set_index b i v).0.size ≡ b.size
unfolding set_index
size-set_index b i v = ground arith

-- `SetIndex` reports whether the index is in range.
pub set_index_in_range : (b : ArrayOfBits) (i : ℕ) (v : Bool) → (set_index b i v).1 ≡ ltb i b.size
unfolding set_index
set_index_in_range b i v = ground arith

pub place-lt : (b : ArrayOfBits) (i : ℕ) → IsValid b → i < b.size → i / 64 < length b.elements
place-lt b i h hi = omega (arith, h.fits)

-- After SetIndex at an index in range of a valid array, GetIndex gives the value written at that
-- index, and what it gave before at any other.
pub get_index-set_index :
    (b : ArrayOfBits) (i j : ℕ) (v : Bool)
    → IsValid b
    → i < b.size
    → get_index (set_index b i v).0 j ≡ (if i == j then v else get_index b j)
get_index-set_index b i j v h hi = elim (dec_lt j b.size) [
  | yes hj ↦ inside hj
  | no nj ↦ ground (
    arith,
    get_index_past b j (omega arith),
    get_index_past (set_index b i v).0 j (omega (arith, size-set_index b i v)),
  )
]
  where
    elements :
        (set_index b i v).0.elements
        ≡ set b.elements (i / 64) (write_word (get_or b.elements (i / 64) 0) (i % 64) v)
    elements = unfold set_index in ground arith

    inside : j < b.size → get_index (set_index b i v).0 j ≡ (if i == j then v else get_index b j)
    inside hj =
        get_index-bit_at (set_index b i v).0 j (omega (arith, size-set_index b i v))
        ∙ rw (elements, bit_at-set b.elements i j v (place-lt b i h hi), get_index-bit_at b j hj)
            (ground arith)

-- Out of range nothing changes.
pub set_index_past :
    (b : ArrayOfBits) (i : ℕ) (v : Bool) → b.size ≤ i → set_index b i v ≡ (b, false)
unfolding set_index
set_index_past b i v h = ground arith

-- A new array has the size that was asked for, and no bit set.
pub get_index-new_array_of_bits :
    (size : ℕ) {b : ArrayOfBits} (i : ℕ)
    → new_array_of_bits size ≡ some b
    → (b.size ≡ size) × (get_index b i ≡ false)
get_index-new_array_of_bits size {b} i h = (same.0, clear (dec_lt i b.size))
  where
    same : (b.size ≡ size) × (b.elements ≡ replicate (num_elements size) 0)
    same = unfold new_array_of_bits in ground arith

    clear : Dec (i < b.size) → get_index b i ≡ false
    clear (yes p) =
        get_index-bit_at b i p
        ∙ rw (same.1, get_or-replicate {A = ℕ} (num_elements size) (i / 64) 0, digit-zero (i % 64))
    clear (no p) = get_index_past b i (omega arith)
