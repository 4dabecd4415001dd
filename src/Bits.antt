-- ===== src/Bits.antt =====
-- common/arrayofbits.go: the bit array that records who answered and who signed.
--
-- An index is a natural number: the code is called with indices from 0 on. A `uint64` word is a
-- natural number below 2^64, with the operators of the source on it. A nil array is `none`.
-- The mutex is left out: each method holds it from end to end. Reading a word past the end panics
-- in Go; here it reads 0, and `IsValid` (Bits/Invariant), which every method keeps, excludes it.
pub mod Complement
pub mod Differing
pub mod Operations
pub mod Index
pub mod Invariant
pub mod Pointwise
pub mod Scan
use testing_go_moi.Prelude.{
  ℕ, zero, suc, ◌+◌, ◌-◌, ◌*◌, ◌/◌, ◌%◌, ◌^◌, min, max, bit_and, bit_or, bit_xor, Bool, true, false,
  Option, none, some, List, [], ◌∷◌, ◌++◌, ltb, leb, ◌==◌, if◌then◌else◌, length, set, get_or,
  replicate,
}

pub record ArrayOfBits : Type 0 where
  pub size : ℕ
  pub elements : List ℕ

-- `uint64(1) << j`, for j below 64.
abbrev pub one_shl : ℕ → ℕ
one_shl j = 2 ^ j

-- `^w` on a `uint64`.
abbrev pub complement : ℕ → ℕ
complement w = 2 ^ 64 - 1 - w

-- `w & (1 << j) > 0`
unfoldable pub word_test : ℕ → ℕ → Bool
word_test w j = ltb 0 (bit_and w (one_shl j))

abbrev pub num_elements : ℕ → ℕ
num_elements bits = (bits + 63) / 64

unfoldable pub new_array_of_bits : ℕ → Option ArrayOfBits
new_array_of_bits size =
    if size == 0
    then none
    else some (record { size = size; elements = replicate (num_elements size) 0 })

unfoldable pub size_of : Option ArrayOfBits → ℕ
size_of none = 0
size_of (some b) = b.size

unfoldable pub get_index : ArrayOfBits → ℕ → Bool
get_index b i = if leb b.size i then false else word_test (get_or b.elements (i / 64) 0) (i % 64)

unfoldable pub get_index_nil : Option ArrayOfBits → ℕ → Bool
get_index_nil none i = false
get_index_nil (some b) i = get_index b i

-- `|= 1 << j` or `&= ^(1 << j)`
unfoldable pub write_word : ℕ → ℕ → Bool → ℕ
write_word w j true = bit_or w (one_shl j)
write_word w j false = bit_and w (complement (one_shl j))

-- The new array, and whether the index was in range.
unfoldable pub set_index : ArrayOfBits → ℕ → Bool → ArrayOfBits × Bool
set_index b i v = if leb b.size i then (b, false) else (
  record b {
    elements = set b.elements (i / 64) (write_word (get_or b.elements (i / 64) 0) (i % 64) v);
  },
  true,
)

-- `make([]uint64, n)` and `copy`: cut, or filled up with 0.
unfoldable pub copy_words : ℕ → List ℕ → List ℕ
copy_words zero ws = []
copy_words (suc n) [] = 0 ∷ copy_words n []
copy_words (suc n) (w ∷ ws) = w ∷ copy_words n ws

unfoldable pub copy_bits : ArrayOfBits → ℕ → ArrayOfBits
copy_bits b size = record { size = size; elements = copy_words (num_elements size) b.elements }

-- The loops `for i := 0; i < smaller; i++ { c[i] op= input[i] }`: words past the shorter list stay.
unfoldable pub combine : (ℕ → ℕ → ℕ) → List ℕ → List ℕ → List ℕ
combine f [] vs = []
combine f (w ∷ ws) [] = w ∷ ws
combine f (w ∷ ws) (v ∷ vs) = f w v ∷ combine f ws vs

abbrev pub and_not : ℕ → ℕ → ℕ
and_not w v = bit_and w (complement v)

unfoldable pub or_bits : ArrayOfBits → ArrayOfBits → ArrayOfBits
or_bits b input =
    let c = copy_bits b (max b.size input.size) in
    record c { elements = combine bit_or c.elements input.elements }

unfoldable pub xor_bits : ArrayOfBits → ArrayOfBits → ArrayOfBits
xor_bits b input =
    let c = copy_bits b (max b.size input.size) in
    record c { elements = combine bit_xor c.elements input.elements }

unfoldable pub and_bits : ArrayOfBits → ArrayOfBits → ArrayOfBits
and_bits b input =
    let c = copy_bits b (min b.size input.size) in
    record c { elements = combine bit_and c.elements input.elements }

unfoldable pub subtract_bits : ArrayOfBits → ArrayOfBits → ArrayOfBits
subtract_bits b input =
    let c = copy_bits b b.size in record c { elements = combine and_not c.elements input.elements }

-- `Or` and `Xor` give a copy of the array that is there when the other is nil.
unfoldable pub or_nil : Option ArrayOfBits → Option ArrayOfBits → Option ArrayOfBits
or_nil none input = input
or_nil b none = b
or_nil (some b) (some input) = some (or_bits b input)

unfoldable pub xor_nil : Option ArrayOfBits → Option ArrayOfBits → Option ArrayOfBits
xor_nil none input = input
xor_nil b none = b
xor_nil (some b) (some input) = some (xor_bits b input)

unfoldable pub and_nil : Option ArrayOfBits → Option ArrayOfBits → Option ArrayOfBits
and_nil (some b) (some input) = some (and_bits b input)
and_nil b input = none

unfoldable pub subtract_nil : Option ArrayOfBits → Option ArrayOfBits → Option ArrayOfBits
subtract_nil (some b) (some input) = some (subtract_bits b input)
subtract_nil b input = none

unfoldable pub complement_words : List ℕ → List ℕ
complement_words [] = []
complement_words (w ∷ ws) = complement w ∷ complement_words ws

unfoldable pub not_bits : ArrayOfBits → ArrayOfBits
not_bits b = record b { elements = complement_words b.elements }

unfoldable pub all_zero : List ℕ → Bool
all_zero [] = true
all_zero (w ∷ ws) = let rest = all_zero ws in if ltb 0 w then false else rest

unfoldable pub is_empty : Option ArrayOfBits → Bool
is_empty none = true
is_empty (some b) = all_zero b.elements

-- `IsFull`: every word but the last is all ones, and so are the bits in use of the last.
abbrev pub full_mask : ℕ → ℕ
full_mask k = (2 ^ k % 2 ^ 64 + 2 ^ 64 - 1) % 2 ^ 64

unfoldable pub full_words : ℕ → List ℕ → Bool
full_words last_bits [] = true
full_words last_bits (w ∷ []) = bit_and ((w + 1) % 2 ^ 64) (full_mask last_bits) == 0
full_words last_bits (w ∷ v ∷ ws) =
    let rest = full_words last_bits (v ∷ ws) in if complement w == 0 then rest else false

unfoldable pub is_full : Option ArrayOfBits → Bool
is_full none = true
is_full (some b) = full_words ((b.size + 63) % 64 + 1) b.elements

-- The loop over `n` bits of a word from bit `j` on; `at` is the index in the array.
unfoldable pub scan_word : ℕ → ℕ → ℕ → ℕ → List ℕ
scan_word w zero j at = []
scan_word w (suc n) j at =
    let rest = scan_word w n (j + 1) (at + 1) in if word_test w j then at ∷ rest else rest

unfoldable pub scan_words : ℕ → ℕ → List ℕ → List ℕ
scan_words size at [] = []
scan_words size at (w ∷ []) = scan_word w (size - at) 0 at
scan_words size at (w ∷ v ∷ ws) =
    let rest = scan_words size (at + 64) (v ∷ ws) in
    if w == 0 then rest else scan_word w 64 0 at ++ rest

unfoldable pub get_true_indices : ArrayOfBits → List ℕ
get_true_indices b = scan_words b.size 0 b.elements

unfoldable pub true_indices_size : ArrayOfBits → ℕ
true_indices_size b = length (get_true_indices b)

-- `Update` copies as many words as both arrays have, and leaves the size.
unfoldable pub update : Option ArrayOfBits → Option ArrayOfBits → Option ArrayOfBits
update (some b) (some input) =
    some (record b { elements = combine (λ w v. v) b.elements input.elements })
update b input = b
