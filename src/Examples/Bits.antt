-- ===== src/Examples/Bits.antt =====
-- Arrays of 70 bits (arrayofbits.go).
use testing_go_moi.Prelude.{
  ℕ, ◌%◌, ◌/◌, ◌≤◌, ◌<◌, ◌≡◌, refl, true, false, not, ◌&&◌, ◌||◌, some, [], ◌∷◌, arith, ◌==◌,
  if◌then◌else◌, get_or, zero, suc, digit, digit_high, digit-zero,
}
use testing_go_moi.Bits.{
  xor_bits, ArrayOfBits, get_index, set_index, or_bits, and_bits, subtract_bits, not_bits, is_empty,
  get_true_indices,
}
use testing_go_moi.Bits.Invariant.{IsValid}
use testing_go_moi.Bits.Index.{get_index-set_index}
use testing_go_moi.Bits.Pointwise.{IsTrimmed}
use testing_go_moi.Bits.Operations.{operations_pointwise}
use testing_go_moi.Bits.Complement.{get_index-not_bits, is_empty-not_bits-false}
use testing_go_moi.Bits.Scan.{set_indices, get_true_indices-set_indices}

-- In 70 bits, the second word has 6.
abbrev two_words : ℕ → ℕ → ArrayOfBits
two_words a w = record { size = 70; elements = a ∷ w ∷ [] }

high_digit :
    (a w k j : ℕ) → w < 64 → 1 ≤ k → (k ≡ 1 → 6 ≤ j) → digit (get_or (a ∷ w ∷ []) k 0) j ≡ 0
high_digit a w zero j small h g = absurd (omega arith)
high_digit a w (suc zero) j small h g = digit_high 6 w j (omega arith) (g refl)
high_digit a w (suc (suc k)) j small h g = digit-zero j

two_words-IsTrimmed : (a w : ℕ) → w < 64 → IsTrimmed (two_words a w)
two_words-IsTrimmed a w small i h =
    high_digit a w (i / 64) (i % 64) small (omega arith) (λ e. omega arith)

abbrev few : ArrayOfBits
few = two_words 5 32

abbrev some_more : ArrayOfBits
some_more = two_words 3 48

few-IsValid : IsValid few
few-IsValid = record {
  inhabited = omega arith;
  fits = refl;
  words = (omega arith, (omega arith, tt));
}

some_more-IsValid : IsValid some_more
some_more-IsValid = record {
  inhabited = omega arith;
  fits = refl;
  words = (omega arith, (omega arith, tt));
}

few-IsTrimmed : IsTrimmed few
few-IsTrimmed = two_words-IsTrimmed 5 32 (omega arith)

some_more-IsTrimmed : IsTrimmed some_more
some_more-IsTrimmed = two_words-IsTrimmed 3 48 (omega arith)

get_true_indices-set_indices_example : get_true_indices few ≡ set_indices few
get_true_indices-set_indices_example = get_true_indices-set_indices few few-IsValid

get_index-set_index_example :
    get_index (set_index few 66 true).0 69 ≡ (if 66 == 69 then true else get_index few 69)
get_index-set_index_example = get_index-set_index few 66 69 true few-IsValid (omega arith)

operations_pointwise_example :
    let x = get_index few 68 in
    let y = get_index some_more 68 in
    (get_index (or_bits few some_more) 68 ≡ (x || y))
    × (get_index (and_bits few some_more) 68 ≡ (x && y))
    × (get_index (subtract_bits few some_more) 68 ≡ (x && not y))
    × (get_index (xor_bits few some_more) 68 ≡ (if x then not y else y))
operations_pointwise_example =
    operations_pointwise few some_more 68 few-IsValid some_more-IsValid few-IsTrimmed
      some_more-IsTrimmed

get_index-not_bits_example : get_index (not_bits few) 69 ≡ not (get_index few 69)
get_index-not_bits_example = get_index-not_bits few 69 few-IsValid (omega arith)

is_empty-not_bits-false_example : is_empty (some (not_bits few)) ≡ false
is_empty-not_bits-false_example =
    is_empty-not_bits-false few few-IsValid few-IsTrimmed (λ e. omega arith)
