-- ===== src/Pool/Entry/Balance.antt =====
-- ixpool/ixpool.go: the gauge before and after an interaction comes in.
use testing_go_moi.Prelude.{ℕ, ◌+◌, ◌^◌, ◌≤◌, ◌<◌, ◌≡◌, true, arith}
use testing_go_moi.Pool.Gauge.{SlotGauge, complement, decrease, increase_within_limit}
use testing_go_moi.Pool.Entry.{raised_gauge, lowered_gauge, settled_gauge}

-- What the gauge comes to, where the interaction is let in and where it is not.
pub record Balanced (g : SlotGauge) (allocated freed : ℕ) : Type 0 where
  pub undone :
      (raised_gauge g allocated freed).1 ≡ true
      → (lowered_gauge (raised_gauge g allocated freed).0 allocated freed).total ≡ g.total
  pub changed :
      (raised_gauge g allocated freed).1 ≡ true
      → (settled_gauge (raised_gauge g allocated freed).0 allocated freed).total + freed
        ≡ g.total + allocated
  pub bounded :
      (raised_gauge g allocated freed).1 ≡ true
      → (settled_gauge (raised_gauge g allocated freed).0 allocated freed).total ≤ g.max_slots
  pub max_lowered :
      (lowered_gauge (raised_gauge g allocated freed).0 allocated freed).max_slots ≡ g.max_slots
  pub max_settled :
      (settled_gauge (raised_gauge g allocated freed).0 allocated freed).max_slots ≡ g.max_slots
  pub max_raised : (raised_gauge g allocated freed).0.max_slots ≡ g.max_slots

pub gauge-Balanced :
    (g : SlotGauge) (allocated freed : ℕ)
    → g.total ≤ g.max_slots
    → g.max_slots < 2 ^ 63
    → freed ≤ g.total
    → allocated < 2 ^ 63
    → Balanced g allocated freed
unfolding raised_gauge lowered_gauge settled_gauge increase_within_limit decrease complement
gauge-Balanced g allocated freed h m f a = record {
  undone = λ e. ground (arith, e);
  changed = λ e. ground (arith, e);
  bounded = λ e. ground (arith, e);
  max_lowered = ground arith;
  max_settled = ground arith;
  max_raised = ground arith;
}
