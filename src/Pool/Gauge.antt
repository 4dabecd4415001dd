-- ===== src/Pool/Gauge.antt =====
-- ixpool/slot.go: the gauge of the slots in use, and the slots of an interaction.
--
-- The counters are uint64 and wrap around. The loop of `increaseWithinLimit` repeats only if another
-- goroutine changes the gauge in between, which the mutex of the pool rules out.
pub mod Total
use testing_go_moi.Prelude.{
  ℕ, zero, suc, ◌+◌, ◌-◌, ◌*◌, ◌/◌, ◌%◌, ◌^◌, Bool, true, false, List, [], ◌∷◌, ltb, if◌then◌else◌,
}
use testing_go_moi.Pool.{Interaction}

abbrev pub ix_slot_size : ℕ
ix_slot_size = 1024

abbrev pub high_pressure_mark : ℕ
high_pressure_mark = 80

pub record SlotGauge : Type 0 where
  pub total : ℕ
  pub max_slots : ℕ

unfoldable pub increase : SlotGauge → ℕ → SlotGauge
increase g slots = record g { total = (g.total + slots) % 2 ^ 64 }

-- `^x` on uint64.
unfoldable pub complement : ℕ → ℕ
complement x = 2 ^ 64 - 1 - x

-- Adds `^(slots - 1)`.
unfoldable pub decrease : SlotGauge → ℕ → SlotGauge
decrease g slots = record g {
  total = (g.total + complement ((slots + 2 ^ 64 - 1) % 2 ^ 64)) % 2 ^ 64;
}

unfoldable pub high_pressure : SlotGauge → Bool
high_pressure g = ltb (high_pressure_mark * g.max_slots % 2 ^ 64 / 100) g.total

unfoldable pub increase_within_limit : SlotGauge → ℕ → SlotGauge × Bool
increase_within_limit g slots =
    let new_height : ℕ = (g.total + slots) % 2 ^ 64 in
    if ltb g.max_slots new_height then (g, false) else (record g { total = new_height }, true)

-- The slots that one interaction adds to the sum.
unfoldable pub slots_of : Interaction → ℕ
slots_of ix = (ix.size + ix_slot_size - 1) % 2 ^ 64 / ix_slot_size

-- The loop of `slotsRequired`, from the sum so far.
unfoldable pub slots_from : ℕ → List Interaction → ℕ
slots_from slots [] = slots
slots_from slots (ix ∷ ixns) = slots_from ((slots + slots_of ix) % 2 ^ 64) ixns

unfoldable pub slots_required : List Interaction → ℕ
slots_required ixns = slots_from 0 ixns
