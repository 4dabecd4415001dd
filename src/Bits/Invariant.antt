-- ===== src/Bits/Invariant.antt =====
-- What every method of the bit array keeps: as many words as the size needs, each of 64 bits.
use testing_go_moi.Prelude.{
  ℕ, zero, suc, ◌/◌, ◌%◌, ◌^◌, ◌≤◌, ◌<◌, min, max, bit_and, bit_or, bit_xor, Bool, true, false,
  some, List, [], ◌∷◌, ◌≡◌, refl, ap, ◌∙◌, arith, digit, digit-bit_and, digit-bit_or, digit-bit_xor,
  digit_bound, digit_high, length, set, get_or, replicate, Bool-cases, inl, inr, leb, subst, dec_lt,
  length-set, length-replicate,
}
use testing_go_moi.Bits.{
  ArrayOfBits, num_elements, new_array_of_bits, set_index, write_word, copy_words, copy_bits,
  combine, or_bits, and_bits, xor_bits, subtract_bits, not_bits, complement_words, complement,
  one_shl, and_not,
}
use native.Mathlib.Nat.{pow-le-pow_right}

abbrev pub IsWord : ℕ → Type 0
IsWord w = w < 2 ^ 64

abbrev pub AllWords : List ℕ → Type 0
AllWords [] = Unit {0}
AllWords (w ∷ ws) = IsWord w × AllWords ws

pub record IsValid (b : ArrayOfBits) : Type 0 where
  pub inhabited : 0 < b.size
  pub fits : length b.elements ≡ num_elements b.size
  pub words : AllWords b.elements

-- A word is what its 64 digits say.
IsWord-of_digits : (w : ℕ) → ((j : ℕ) → 64 ≤ j → digit w j ≡ 0) → IsWord w
IsWord-of_digits w h = digit_bound 64 w h (suc w) (omega arith)

pub bit_and-IsWord : (a b : ℕ) → IsWord a → IsWord (bit_and a b)
bit_and-IsWord a b h =
    IsWord-of_digits (bit_and a b)
      λ j hj. omega (arith, digit-bit_and a b j, digit_high 64 a j h hj)

pub bit_or-IsWord : (a b : ℕ) → IsWord a → IsWord b → IsWord (bit_or a b)
bit_or-IsWord a b h k =
    IsWord-of_digits (bit_or a b)
      λ j hj. omega (arith, digit-bit_or a b j, digit_high 64 a j h hj, digit_high 64 b j k hj)

pub bit_xor-IsWord : (a b : ℕ) → IsWord a → IsWord b → IsWord (bit_xor a b)
bit_xor-IsWord a b h k =
    IsWord-of_digits (bit_xor a b)
      λ j hj. rw (digit-bit_xor a b j, digit_high 64 a j h hj, digit_high 64 b j k hj)

pub complement-IsWord : (w : ℕ) → IsWord (complement w)
complement-IsWord w = omega arith

pub one_shl-IsWord : (j : ℕ) → j < 64 → IsWord (one_shl j)
one_shl-IsWord j h =
    omega (arith, pow-le-pow_right {n = 2} (omega arith) {i = j} {j = 63} (omega arith))

pub write_word-IsWord : (w j : ℕ) (v : Bool) → IsWord w → j < 64 → IsWord (write_word w j v)
unfolding write_word
write_word-IsWord w j true h hj = bit_or-IsWord w (one_shl j) h (one_shl-IsWord j hj)
write_word-IsWord w j false h hj = bit_and-IsWord w (complement (one_shl j)) h

pub get_or-IsWord : (ws : List ℕ) (i : ℕ) → AllWords ws → IsWord (get_or ws i 0)
get_or-IsWord [] i h = omega arith
get_or-IsWord (w ∷ ws) zero h = h.0
get_or-IsWord (w ∷ ws) (suc i) h = get_or-IsWord ws i h.1

set-AllWords : (ws : List ℕ) (i v : ℕ) → AllWords ws → IsWord v → AllWords (set ws i v)
set-AllWords [] i v h k = tt
set-AllWords (w ∷ ws) zero v h k = (k, h.1)
set-AllWords (w ∷ ws) (suc i) v h k = (h.0, set-AllWords ws i v h.1 k)

replicate-AllWords : (n : ℕ) → AllWords (replicate n 0)
replicate-AllWords zero = tt
replicate-AllWords (suc n) = (omega arith, replicate-AllWords n)

copy_words-AllWords : (n : ℕ) (ws : List ℕ) → AllWords ws → AllWords (copy_words n ws)
unfolding copy_words
copy_words-AllWords zero ws h = tt
copy_words-AllWords (suc n) [] h = (omega arith, copy_words-AllWords n [] h)
copy_words-AllWords (suc n) (w ∷ ws) h = (h.0, copy_words-AllWords n ws h.1)

pub length-copy_words : (n : ℕ) (ws : List ℕ) → length (copy_words n ws) ≡ n
unfolding copy_words
length-copy_words zero ws = refl
length-copy_words (suc n) [] = ap suc (length-copy_words n [])
length-copy_words (suc n) (w ∷ ws) = ap suc (length-copy_words n ws)

pub length-combine : (f : ℕ → ℕ → ℕ) (ws vs : List ℕ) → length (combine f ws vs) ≡ length ws
unfolding combine
length-combine f [] vs = refl
length-combine f (w ∷ ws) [] = refl
length-combine f (w ∷ ws) (v ∷ vs) = ap suc (length-combine f ws vs)

combine-AllWords :
    (f : ℕ → ℕ → ℕ) (keep : (a b : ℕ) → IsWord a → IsWord b → IsWord (f a b)) (ws vs : List ℕ)
    → AllWords ws
    → AllWords vs
    → AllWords (combine f ws vs)
unfolding combine
combine-AllWords f keep [] vs h k = tt
combine-AllWords f keep (w ∷ ws) [] h k = h
combine-AllWords f keep (w ∷ ws) (v ∷ vs) h k =
    (keep w v h.0 k.0, combine-AllWords f keep ws vs h.1 k.1)

complement_words-AllWords : (ws : List ℕ) → AllWords (complement_words ws)
unfolding complement_words
complement_words-AllWords [] = tt
complement_words-AllWords (w ∷ ws) = (complement-IsWord w, complement_words-AllWords ws)

length-complement_words : (ws : List ℕ) → length (complement_words ws) ≡ length ws
unfolding complement_words
length-complement_words [] = refl
length-complement_words (w ∷ ws) = ap suc (length-complement_words ws)

-- A new array is valid, whatever its size.
pub new_array_of_bits-IsValid :
    (size : ℕ) {b : ArrayOfBits} → new_array_of_bits size ≡ some b → IsValid b
unfolding new_array_of_bits
new_array_of_bits-IsValid size {b} h = elim (dec_lt 0 size) [
  | yes p ↦ subst IsValid (ground arith) (valid p)
  | no p ↦ ground arith
]
  where
    valid : 0 < size → IsValid (record { size = size; elements = replicate (num_elements size) 0 })
    valid p = record {
      inhabited = p;
      fits = length-replicate (num_elements size) 0;
      words = replicate-AllWords (num_elements size);
    }

pub set_index-IsValid :
    (b : ArrayOfBits) (i : ℕ) (v : Bool) → IsValid b → IsValid (set_index b i v).0
unfolding set_index
set_index-IsValid b i v h = elim (Bool-cases (leb b.size i)) [
  | inl e ↦ rw (e, set_index) h
  | inr e ↦
      rw (e, set_index)
        record {
          inhabited = h.inhabited;
          fits = length-set b.elements (i / 64) _ ∙ h.fits;
          words = set-AllWords b.elements (i / 64) _ h.words (
              write_word-IsWord _ (i % 64) v (get_or-IsWord b.elements (i / 64) h.words)
                (omega arith));
        }
]

combine-IsValid :
    (f : ℕ → ℕ → ℕ) (keep : (a b : ℕ) → IsWord a → IsWord b → IsWord (f a b))
    (b input : ArrayOfBits) (size : ℕ)
    → 0 < size
    → IsValid b
    → IsValid input
    → IsValid (record {
      size = size;
      elements = combine f (copy_words (num_elements size) b.elements) input.elements;
    })
combine-IsValid f keep b input size h v w = record {
  inhabited = h;
  fits =
      length-combine f (copy_words (num_elements size) b.elements) input.elements
      ∙ length-copy_words (num_elements size) b.elements;
  words =
      combine-AllWords f keep _ input.elements
        (copy_words-AllWords (num_elements size) b.elements v.words) w.words;
}

-- `Or`, `Xor`, `And`, `Subtract` and `Not` of valid arrays are valid.
pub or_bits-IsValid :
    (b input : ArrayOfBits) → IsValid b → IsValid input → IsValid (or_bits b input)
unfolding or_bits copy_bits
or_bits-IsValid b input v w =
    combine-IsValid bit_or bit_or-IsWord b input (max b.size input.size) (omega arith) v w

pub xor_bits-IsValid :
    (b input : ArrayOfBits) → IsValid b → IsValid input → IsValid (xor_bits b input)
unfolding xor_bits copy_bits
xor_bits-IsValid b input v w =
    combine-IsValid bit_xor bit_xor-IsWord b input (max b.size input.size) (omega arith) v w

pub and_bits-IsValid :
    (b input : ArrayOfBits) → IsValid b → IsValid input → IsValid (and_bits b input)
unfolding and_bits copy_bits
and_bits-IsValid b input v w =
    combine-IsValid bit_and (λ x y h k. bit_and-IsWord x y h) b input (min b.size input.size)
      (omega arith) v w

pub subtract_bits-IsValid :
    (b input : ArrayOfBits) → IsValid b → IsValid input → IsValid (subtract_bits b input)
unfolding subtract_bits copy_bits
subtract_bits-IsValid b input v w =
    combine-IsValid and_not (λ x y h k. bit_and-IsWord x (complement y) h) b input b.size
      v.inhabited v w

pub not_bits-IsValid : (b : ArrayOfBits) → IsValid b → IsValid (not_bits b)
unfolding not_bits
not_bits-IsValid b v = record {
  inhabited = v.inhabited;
  fits = length-complement_words b.elements ∙ v.fits;
  words = complement_words-AllWords b.elements;
}
