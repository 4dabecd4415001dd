-- ===== src/Bits/Differing.antt =====
-- `Xor`, index by index (arrayofbits.go).
use Prim.Native.Nat.{differ}
use testing_go_moi.Prelude.{
  ℕ, zero, suc, ◌<◌, max, bit_xor, not, ◌≡◌, refl, ◌∙◌, arith, ◌==◌, if◌then◌else◌, dec_lt,
  digit-lt, digit-bit_xor,
}
use testing_go_moi.Bits.{ArrayOfBits, num_elements, get_index, copy_bits, xor_bits}
use testing_go_moi.Bits.Invariant.{IsValid}
use testing_go_moi.Bits.Index.{bit_at, get_index-bit_at, get_index_past}
use testing_go_moi.Bits.Pointwise.{IsTrimmed, bit_at-combine, in_words, get_index_trimmed}

differ-zero : (x : ℕ) → x < 2 → differ x 0 ≡ x
differ-zero zero h = refl
differ-zero (suc zero) h = refl
differ-zero (suc (suc x)) h = absurd (omega arith)

one_of : (x y : ℕ) → x < 2 → y < 2 → (differ x y == 1) ≡ (if x == 1 then not (y == 1) else (y == 1))
one_of zero y p q = refl
one_of (suc zero) zero p q = refl
one_of (suc zero) (suc zero) p q = refl
one_of (suc zero) (suc (suc y)) p q = absurd (omega arith)
one_of (suc (suc x)) y p q = absurd (omega arith)

bit_at-xor :
    (b input : ArrayOfBits) (i : ℕ)
    → IsValid b
    → IsValid input
    → i < max b.size input.size
    → bit_at (xor_bits b input).elements i ≡ differ (bit_at b.elements i) (bit_at input.elements i)
unfolding xor_bits copy_bits
bit_at-xor b input i v w h =
    bit_at-combine bit_xor differ (λ a b j _ _ _. digit-bit_xor a b j) differ-zero b.elements
      input.elements (num_elements (max b.size input.size)) i v.words w.words (in_words _ i h)

size-xor_bits : (b input : ArrayOfBits) → (xor_bits b input).size ≡ max b.size input.size
unfolding xor_bits copy_bits
size-xor_bits b input = refl

-- For valid arrays without digits past their sizes, an index of the exclusive union is set exactly
-- when it is set in one of the two and not in the other.
pub get_index-xor_bits :
    (b input : ArrayOfBits) (i : ℕ)
    → IsValid b
    → IsValid input
    → IsTrimmed b
    → IsTrimmed input
    → get_index (xor_bits b input) i
      ≡ (if get_index b i then not (get_index input i) else get_index input i)
get_index-xor_bits b input i v w t u =
    rw (get_index_trimmed b i t, get_index_trimmed input i u)
      (elim (dec_lt i (max b.size input.size)) [
        | yes p ↦
            get_index-bit_at (xor_bits b input) i (omega (arith, size-xor_bits b input))
            ∙ rw (bit_at-xor b input i v w p) (
                one_of (bit_at b.elements i) (bit_at input.elements i) (digit-lt _ _)
                  (digit-lt _ _))
        | no p ↦
            get_index_past (xor_bits b input) i (omega (arith, size-xor_bits b input))
            ∙ rw (t i (omega arith), u i (omega arith))
      ])
