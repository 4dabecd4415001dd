-- ===== src/Bits/Scan.antt =====
-- `GetTrueIndices`, `IsEmpty` and `IsFull`, which walk the words, against a test of each index.
use testing_go_moi.Prelude.{
  ℕ, zero, suc, ◌+◌, ◌-◌, ◌*◌, ◌/◌, ◌%◌, ◌≤◌, ◌<◌, Bool, false, List, [], ◌∷◌, ◌++◌, ◌≡◌, refl, sym,
  ap, ◌∙◌, arith, ◌==◌, ==_iff, if◌then◌else◌, ℕ_discrete, digit-zero, length, get_or,
}
use mathlib.Core.Path.{ap₂}
use native.Mathlib.Nat.{zero-add, add-zero, suc-add, sub-zero}
use testing_go_moi.Bits.{ArrayOfBits, get_index, word_test, scan_word, scan_words, get_true_indices}
use testing_go_moi.Bits.Invariant.{IsValid}
use testing_go_moi.Bits.Index.{word_test-digit, get_index-bit_at}

-- The `n` numbers from `at` on that pass the test, in order.
unfoldable pub select : (ℕ → Bool) → ℕ → ℕ → List ℕ
select p zero at = []
select p (suc n) at = let rest = select p n (at + 1) in if p at then at ∷ rest else rest

pub select-append :
    (p : ℕ → Bool) (n m at : ℕ) → select p (n + m) at ≡ select p n at ++ select p m (at + n)
unfolding select
select-append p zero m at = rw (zero-add, add-zero)
select-append p (suc n) m at =
    rw suc-add
      (ground (arith, select-append p n m (at + 1), ap (λ (k : ℕ). select p m k) (step at n)))
  where
    step : (a b : ℕ) → a + 1 + b ≡ a + suc b
    step a b = omega arith

pub select_none :
    (p : ℕ → Bool) (n at : ℕ) → ((i : ℕ) → at ≤ i → i < at + n → p i ≡ false) → select p n at ≡ []
unfolding select
select_none p zero at h = refl
select_none p (suc n) at h =
    rw (h at (omega arith) (omega arith))
      (select_none p n (at + 1) (λ i lo hi. h i (omega arith) (omega arith)))

-- `j` is the place that the loop has come to, and `at` the index.
pub scan_word-select :
    (p : ℕ → Bool) (w n j at : ℕ)
    → ((i k : ℕ) → j ≤ i → i < j + n → k + j ≡ i + at → word_test w i ≡ p k)
    → scan_word w n j at ≡ select p n at
unfolding select scan_word
scan_word-select p w zero j at h = refl
scan_word-select p w (suc n) j at h = ground (
  arith,
  h j at (omega arith) (omega arith) (omega arith),
  scan_word-select p w n (j + 1) (at + 1)
      (λ i k lo hi e. h i k (omega arith) (omega arith) (omega arith)),
)

-- The bits of the words from index `at` on, as a test of the index.
abbrev Reads : (ℕ → Bool) → ℕ → ℕ → List ℕ → Type 0
Reads p size at ws =
    (i k : ℕ)
    → i < 64 * length ws
    → k ≡ at + i
    → k < size
    → p k ≡ word_test (get_or ws (i / 64) 0) (i % 64)

Reads-tail :
    (p : ℕ → Bool) (size at w : ℕ) (ws : List ℕ)
    → Reads p size at (w ∷ ws)
    → Reads p size (at + 64) ws
Reads-tail p size at w ws h i k hi e below =
    h (64 + i) k (omega arith) (omega arith) below ∙ ap₂ word_test word place
  where
    shift : (64 + i) / 64 ≡ suc (i / 64)
    shift = omega arith

    word : get_or (w ∷ ws) ((64 + i) / 64) 0 ≡ get_or ws (i / 64) 0
    word = ap (λ (q : ℕ). get_or (w ∷ ws) q 0) shift

    place : (64 + i) % 64 ≡ i % 64
    place = omega arith

Reads-head :
    (p : ℕ → Bool) (size at w : ℕ) (ws : List ℕ) (i k : ℕ)
    → Reads p size at (w ∷ ws)
    → i < 64
    → k ≡ at + i
    → k < size
    → word_test w i ≡ p k
Reads-head p size at w ws i k h hi e below = sym (
    h i k (omega arith) e below
    ∙ ap₂ word_test (ap (λ (q : ℕ). get_or (w ∷ ws) q 0) zeroth) (omega arith))
  where
    zeroth : i / 64 ≡ 0
    zeroth = omega arith

word_test-zero : (j : ℕ) → word_test 0 j ≡ false
word_test-zero j = word_test-digit 0 j ∙ rw digit-zero

-- A word before the last: skipped if it is 0, else read to its end.
first_word :
    (p : ℕ → Bool) (size at w : ℕ) (ws rest : List ℕ)
    → Reads p size at (w ∷ ws)
    → at + 64 ≤ size
    → rest ≡ select p (size - (at + 64)) (at + 64)
    → (if w == 0 then rest else scan_word w 64 0 at ++ rest) ≡ select p (size - at) at
first_word p size at w ws rest h lo ih = elim (ℕ_discrete w 0) [
  | yes e ↦ rw ((==_iff w 0).1 e) (ih ∙ sym (split ∙ rw (skipped e)))
  | no ne ↦ ground (arith, ne, ih, split, full)
]
  where
    split : select p (size - at) at ≡ select p 64 at ++ select p (size - (at + 64)) (at + 64)
    split = ap (λ (n : ℕ). select p n at) (omega arith) ∙ select-append p 64 (size - (at + 64)) at

    full : scan_word w 64 0 at ≡ select p 64 at
    full =
        scan_word-select p w 64 0 at (λ i k _ below e.
          Reads-head p size at w ws i k h (omega arith) (omega arith) (omega arith))

    skipped : w ≡ 0 → select p 64 at ≡ []
    skipped e = select_none p 64 at (λ k lower upper.
        sym (Reads-head p size at w ws (k - at) k h (omega arith) (omega arith) (omega arith))
        ∙ rw (e, word_test-zero))

-- From the invariant of the loop: `at` bits are behind, and the words left hold the others.
scan_words-select :
    (p : ℕ → Bool) (size at : ℕ) (ws : List ℕ)
    → Reads p size at ws
    → at < size
    → size ≤ at + 64 * length ws
    → at + 64 * length ws < size + 64
    → scan_words size at ws ≡ select p (size - at) at
unfolding scan_words
scan_words-select p size at [] h lo hi last = absurd (omega arith)
scan_words-select p size at (w ∷ []) h lo hi last =
    scan_word-select p w (size - at) 0 at
      (λ i k _ below e. Reads-head p size at w [] i k h (omega arith) (omega arith) (omega arith))
scan_words-select p size at (w ∷ v ∷ ws) h lo hi last =
    first_word p size at w (v ∷ ws) (scan_words size (at + 64) (v ∷ ws)) h (omega arith) (
      scan_words-select p size (at + 64) (v ∷ ws) (Reads-tail p size at w (v ∷ ws) h) (omega arith)
        (omega arith) (omega arith))

abbrev pub set_indices : ArrayOfBits → List ℕ
set_indices b = select (get_index b) b.size 0

-- For a valid array, GetTrueIndices gives exactly the indices at which GetIndex is true, in
-- ascending order.
pub get_true_indices-set_indices :
    (b : ArrayOfBits) → IsValid b → get_true_indices b ≡ set_indices b
unfolding get_true_indices
get_true_indices-set_indices b v =
    scan_words-select (get_index b) b.size 0 b.elements reads v.inhabited (omega (arith, v.fits))
      (omega (arith, v.fits))
    ∙ rw sub-zero
  where
    reads : Reads (get_index b) b.size 0 b.elements
    reads i k hi e below =
        get_index-bit_at b k below
        ∙ rw (e, zero-add) (sym (word_test-digit (get_or b.elements (i / 64) 0) (i % 64)))
