-- ===== src/Prelude/Words.antt =====
-- Binary digits of machine words: what `&`, `|`, `^` and the complement do to the digit at a place.
use Prim.Native.Nat.{
  ℕ, zero, suc, ◌+◌, ◌-◌, ◌*◌, ◌/◌, ◌%◌, ◌^◌, ◌≤◌, ◌<◌, min, max, bit_and, bit_or, bit_xor, digits,
  differ, bit_and-bitwise, bit_or-bitwise, bit_xor-bitwise,
}
use mathlib.Core.Path.{◌≡◌, refl, ap, subst, ◌∙◌}
use mathlib.Core.Logic.{◌≢◌}
use native.Mathlib.Omega.{arith}
use native.Mathlib.Nat.{pow-suc, one-le-pow}
use native.Mathlib.Decide.{dec_lt, ℕ_discrete}

-- The digit at place `j`, lowest first.
unfoldable pub digit : ℕ → ℕ → ℕ
digit w zero = w % 2
digit w (suc j) = digit (w / 2) j

pub digit-lt : (w j : ℕ) → digit w j < 2
unfolding digit
digit-lt w zero = omega arith
digit-lt w (suc j) = digit-lt (w / 2) j

pub digit-zero : (j : ℕ) → digit 0 j ≡ 0
unfolding digit
digit-zero zero = refl
digit-zero (suc j) = digit-zero j

digit_front : (r d j : ℕ) → d < 2 → digit (r * 2 + d) (suc j) ≡ digit r j
unfolding digit
digit_front r d j h = ap (λ (w : ℕ). digit w j) (omega arith)

-- One law for the three operations, which share the recursion over digits.
module _ (z : ℕ → ℕ) (f : ℕ → ℕ → ℕ) (rest : (b j : ℕ) → digit (z b) j ≡ f 0 (digit b j))
    (bit : (x y : ℕ) → x < 2 → y < 2 → f x y < 2) where
  digit-digits : (n a b j : ℕ) → a ≤ n → digit (digits z f n a b) j ≡ f (digit a j) (digit b j)
  unfolding digit
  digit-digits zero zero b j h = rw digit-zero (rest b j)
  digit-digits zero (suc a) b j h = absurd (omega arith)
  digit-digits (suc n) zero b j h = rw digit-zero (rest b j)
  digit-digits (suc n) (suc a) b zero h =
      omega (arith, bit (suc a % 2) (b % 2) (omega arith) (omega arith))
  digit-digits (suc n) (suc a) b (suc j) h =
      digit_front (digits z f n (suc a / 2) (b / 2)) (f (suc a % 2) (b % 2)) j
        (bit (suc a % 2) (b % 2) (omega arith) (omega arith))
      ∙ digit-digits n (suc a / 2) (b / 2) j (omega arith)

differ_bit : (x y : ℕ) → x < 2 → y < 2 → differ x y < 2
differ_bit zero y p q = q
differ_bit (suc zero) zero p q = omega arith
differ_bit (suc zero) (suc y) p q = omega arith
differ_bit (suc (suc x)) y p q = absurd (omega arith)

pub digit-bit_and : (a b j : ℕ) → digit (bit_and a b) j ≡ min (digit a j) (digit b j)
digit-bit_and a b j =
    ap (λ (w : ℕ). digit w j) (bit_and-bitwise a b)
    ∙ digit-digits (λ b. 0) min (λ b j. rw digit-zero (omega arith)) (λ x y p q. omega arith) a a b
        j (omega arith)

pub digit-bit_or : (a b j : ℕ) → digit (bit_or a b) j ≡ max (digit a j) (digit b j)
digit-bit_or a b j =
    ap (λ (w : ℕ). digit w j) (bit_or-bitwise a b)
    ∙ digit-digits (λ b. b) max (λ b j. omega arith) (λ x y p q. omega arith) a a b j (omega arith)

pub digit-bit_xor : (a b j : ℕ) → digit (bit_xor a b) j ≡ differ (digit a j) (digit b j)
digit-bit_xor a b j =
    ap (λ (w : ℕ). digit w j) (bit_xor-bitwise a b)
    ∙ digit-digits (λ b. b) differ (λ b j. refl) differ_bit a a b j (omega arith)

-- A word is 0 exactly when all its digits are.
pub digits_zero : (w k : ℕ) → w < 2 ^ k → ((j : ℕ) → j < k → digit w j ≡ 0) → w ≡ 0
unfolding digit
digits_zero w zero h all = omega arith
digits_zero w (suc k) h all = omega (
  arith,
  all 0 (omega arith),
  digits_zero (w / 2) k (omega (arith, pow-suc 2 k)) (λ j hj. all (suc j) (omega arith)),
)

pub digit-pow_self : (j : ℕ) → digit (2 ^ j) j ≡ 1
unfolding digit
digit-pow_self zero = refl
digit-pow_self (suc j) =
    ap (λ (w : ℕ). digit w (suc j)) (omega (arith, pow-suc 2 j))
    ∙ (digit_front (2 ^ j) 0 j (omega arith) ∙ digit-pow_self j)

pub digit-pow_ne : (i j : ℕ) → i ≢ j → digit (2 ^ i) j ≡ 0
unfolding digit
digit-pow_ne zero zero h = absurd (h refl)
digit-pow_ne zero (suc j) h = digit-zero j
digit-pow_ne (suc i) zero h = omega (arith, pow-suc 2 i)
digit-pow_ne (suc i) (suc j) h =
    ap (λ (w : ℕ). digit w (suc j)) (omega (arith, pow-suc 2 i))
    ∙ (digit_front (2 ^ i) 0 j (omega arith) ∙ digit-pow_ne i j (λ e. h (ap suc e)))

-- The complement of a `k`-bit word.
pub digit-complement : (k w j : ℕ) → w < 2 ^ k → j < k → digit (2 ^ k - 1 - w) j ≡ 1 - digit w j
unfolding digit
digit-complement zero w j h hj = elim hj [ ]
digit-complement (suc k) w zero h hj = omega (arith, pow-suc 2 k, one-le-pow k 2 (omega arith))
digit-complement (suc k) w (suc j) h hj =
    ap (λ (v : ℕ). digit v (suc j)) halves
    ∙ (digit_front (2 ^ k - 1 - w / 2) (1 - w % 2) j (omega arith)
        ∙ digit-complement k (w / 2) j (omega (arith, pow-suc 2 k)) (omega arith))
  where
    halves : 2 ^ suc k - 1 - w ≡ (2 ^ k - 1 - w / 2) * 2 + (1 - w % 2)
    halves = omega (arith, pow-suc 2 k, one-le-pow k 2 (omega arith))

-- A number of digits below `k` only is below `2 ^ k`.
pub digit_bound : (k w : ℕ) → ((j : ℕ) → k ≤ j → digit w j ≡ 0) → (n : ℕ) → w < n → w < 2 ^ k
unfolding digit
digit_bound k w high zero h = elim h [ ]
digit_bound zero zero high (suc n) h = omega arith
digit_bound zero (suc w) high (suc n) h =
    let half : suc w / 2 < 1 =
      digit_bound zero (suc w / 2) (λ j hj. high (suc j) (omega arith)) n (omega arith) in
    omega (arith, high 0 (omega arith))
digit_bound (suc k) zero high (suc n) h = one-le-pow (suc k) 2 (omega arith)
digit_bound (suc k) (suc w) high (suc n) h = omega (
  arith,
  pow-suc 2 k,
  digit_bound k (suc w / 2) (λ j hj. high (suc j) (omega arith)) n (omega arith),
)

pub digit_high : (k w j : ℕ) → w < 2 ^ k → k ≤ j → digit w j ≡ 0
unfolding digit
digit_high zero zero j h hj = digit-zero j
digit_high zero (suc w) j h hj = absurd (omega arith)
digit_high (suc k) w zero h hj = absurd (omega arith)
digit_high (suc k) w (suc j) h hj =
    digit_high k (w / 2) j (omega (arith, pow-suc 2 k)) (omega arith)

-- Words with the same digits are the same.
pub digit_ext :
    (k a b : ℕ) → a < 2 ^ k → b < 2 ^ k → ((j : ℕ) → j < k → digit a j ≡ digit b j) → a ≡ b
unfolding digit
digit_ext zero a b p q h = omega arith
digit_ext (suc k) a b p q h = omega (
  arith,
  h 0 (omega arith),
  digit_ext k (a / 2) (b / 2) (omega (arith, pow-suc 2 k)) (omega (arith, pow-suc 2 k))
      (λ j hj. h (suc j) (omega arith)),
)

pub lt-two_pow : (n : ℕ) → n < 2 ^ n
lt-two_pow zero = omega arith
lt-two_pow (suc n) = omega (arith, pow-suc 2 n, lt-two_pow n)

-- `w & (1 << j)` is 0 exactly when the digit at `j` is.
pub bit_and-pow_of_zero : (w j : ℕ) → digit w j ≡ 0 → bit_and w (2 ^ j) ≡ 0
bit_and-pow_of_zero w j h = digits_zero v v (lt-two_pow v) all
  where
    v : ℕ
    v = bit_and w (2 ^ j)

    all : (i : ℕ) → i < v → digit v i ≡ 0
    all i hi = elim (ℕ_discrete j i) [
      | yes e ↦ omega (arith, digit-bit_and w (2 ^ j) i, subst (λ (k : ℕ). digit w k ≡ 0) e h)
      | no ne ↦ omega (arith, digit-bit_and w (2 ^ j) i, digit-pow_ne j i ne)
    ]

pub bit_and-pow_of_one : (w j : ℕ) → digit w j ≡ 1 → 0 < bit_and w (2 ^ j)
bit_and-pow_of_one w j h = elim (dec_lt 0 (bit_and w (2 ^ j))) [
  | yes p ↦ p
  | no p ↦ absurd (
      omega (
        arith,
        digit-bit_and w (2 ^ j) j,
        digit-pow_self j,
        digit-zero j,
        ap (λ (v : ℕ). digit v j) (zero_of p),
      ))
]
  where
    zero_of : ¬ (0 < bit_and w (2 ^ j)) → bit_and w (2 ^ j) ≡ 0
    zero_of p = omega arith
