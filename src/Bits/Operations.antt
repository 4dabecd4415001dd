-- ===== src/Bits/Operations.antt =====
-- `Or`, `And`, `Subtract` and `Xor` as operations on sets of indices (arrayofbits.go).
use testing_go_moi.Prelude.{ℕ, not, ◌&&◌, ◌||◌, ◌≡◌, if◌then◌else◌}
use testing_go_moi.Bits.{ArrayOfBits, get_index, or_bits, and_bits, subtract_bits, xor_bits}
use testing_go_moi.Bits.Invariant.{IsValid}
use testing_go_moi.Bits.Pointwise.{
  IsTrimmed, get_index-or_bits, get_index-and_bits, get_index-subtract_bits,
}
use testing_go_moi.Bits.Differing.{get_index-xor_bits}

-- For valid arrays without digits past their sizes, an index of the union is set exactly when it is
-- set in one of the two, of the intersection when it is set in both, of the difference when it is
-- set in the first and not in the second, and of the exclusive union when it is set in just one.
pub operations_pointwise :
    (b input : ArrayOfBits) (i : ℕ)
    → IsValid b
    → IsValid input
    → IsTrimmed b
    → IsTrimmed input
    → let x = get_index b i in
      let y = get_index input i in
      (get_index (or_bits b input) i ≡ (x || y))
      × (get_index (and_bits b input) i ≡ (x && y))
      × (get_index (subtract_bits b input) i ≡ (x && not y))
      × (get_index (xor_bits b input) i ≡ (if x then not y else y))
operations_pointwise b input i v w t u = (
  get_index-or_bits b input i v w t u,
  get_index-and_bits b input i v w,
  get_index-subtract_bits b input i v w u,
  get_index-xor_bits b input i v w t u,
)
