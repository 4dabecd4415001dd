-- ===== src/Pool/Gauge/Total.antt =====
-- ixpool/slot.go: the sums that the gauge stands for.
use mathlib.Core.Logic.{∥∥₁_elim}
use mathlib.Core.List.{Perm, Permᴰ}
use native.Mathlib.Nat.{ℕ_set}
use testing_go_moi.Prelude.{
  ℕ, ◌+◌, ◌-◌, ◌%◌, ◌^◌, ◌≤◌, ◌<◌, ◌≡◌, refl, ap, ◌∙◌, true, false, List, [], ◌∷◌, ◌++◌, ltb,
  if◌then◌else◌, arith,
}
use testing_go_moi.Pool.{Interaction}
use testing_go_moi.Pool.Gauge.{
  SlotGauge, complement, decrease, increase_within_limit, slots_of, slots_from, slots_required,
}

-- The slots of a list, without a bound.
unfoldable pub slot_sum : List Interaction → ℕ
slot_sum [] = 0
slot_sum (ix ∷ ixns) = slots_of ix + slot_sum ixns

pub slot_sum-append : (xs ys : List Interaction) → slot_sum (xs ++ ys) ≡ slot_sum xs + slot_sum ys
unfolding slot_sum
slot_sum-append [] ys = omega arith
slot_sum-append (x ∷ xs) ys = omega (arith, slot_sum-append xs ys)

slot_sum-Permᴰ : {xs ys : List Interaction} → Permᴰ xs ys → slot_sum xs ≡ slot_sum ys
unfolding slot_sum
slot_sum-Permᴰ Permᴰ.nil = refl
slot_sum-Permᴰ (Permᴰ.cons e p) = omega (arith, ap slots_of e, slot_sum-Permᴰ p)
slot_sum-Permᴰ (Permᴰ.swap e f) = omega (arith, ap slots_of e, ap slots_of f)
slot_sum-Permᴰ (Permᴰ.trans p q) = slot_sum-Permᴰ p ∙ slot_sum-Permᴰ q

pub slot_sum-Perm : (xs ys : List Interaction) → Perm xs ys → slot_sum xs ≡ slot_sum ys
slot_sum-Perm xs ys p = ∥∥₁_elim p (ℕ_set _ _) slot_sum-Permᴰ

slots_from-sum :
    (n : ℕ) (ixns : List Interaction)
    → n + slot_sum ixns < 2 ^ 64
    → slots_from n ixns ≡ n + slot_sum ixns
unfolding slots_from slot_sum
slots_from-sum n [] h = omega arith
slots_from-sum n (ix ∷ ixns) h =
    let same : (n + slots_of ix) % 2 ^ 64 ≡ n + slots_of ix = omega arith in
    rw same (slots_from-sum (n + slots_of ix) ixns (omega arith) ∙ omega arith)

-- The sum that the code computes is the sum of the slots, if that fits 64 bits.
pub slots_required_lem :
    (ixns : List Interaction) → slot_sum ixns < 2 ^ 64 → slots_required ixns ≡ slot_sum ixns
unfolding slots_required
slots_required_lem ixns h = slots_from-sum 0 ixns (omega arith) ∙ omega arith

-- A decrease by what the gauge holds subtracts.
pub decrease_lem :
    (g : SlotGauge) (slots : ℕ)
    → slots ≤ g.total
    → g.total < 2 ^ 64
    → (decrease g slots).total ≡ g.total - slots
unfolding decrease complement
decrease_lem g slots h k = omega arith

-- An increase within the limit adds, if the sum fits 64 bits, and is refused exactly above the limit.
pub increase_within_limit_lem :
    (g : SlotGauge) (slots : ℕ)
    → g.total + slots < 2 ^ 64
    → increase_within_limit g slots ≡ (
        if ltb g.max_slots (g.total + slots)
        then (g, false)
        else (record g { total = g.total + slots }, true))
unfolding increase_within_limit
increase_within_limit_lem g slots h =
    let same : (g.total + slots) % 2 ^ 64 ≡ g.total + slots = omega arith in rw same refl
