-- ===== src/Pool/Entry/Views.antt =====
-- ixpool/ixpool.go: the view that `getNextView` picks.
use testing_go_moi.Prelude.{
  ℕ, ◌+◌, ◌-◌, ◌*◌, ◌%◌, ◌^◌, ◌≤◌, ◌<◌, ◌≡◌, leb, Bool-cases, inl, inr, arith,
}
use testing_go_moi.Pool.Entry.{consensus_nodes_size, get_next_view}

-- The first view from the given one on whose leader stands at the position.
pub record IsNextView (view position next : ℕ) : Type 0 where
  pub from : view ≤ next
  pub leads : next % consensus_nodes_size ≡ position
  pub first : (v : ℕ) → view ≤ v → v % consensus_nodes_size ≡ position → next ≤ v

-- For a position below the number of consensus nodes, getNextView gives the least view, from the
-- given one on, that is the position modulo that number, as long as no sum wraps.
pub get_next_view-IsNextView :
    (view position : ℕ)
    → position < consensus_nodes_size
    → view + 2 * consensus_nodes_size < 2 ^ 64
    → IsNextView view position (get_next_view view position)
unfolding get_next_view
get_next_view-IsNextView view position h fits = elim (Bool-cases (leb (view % 5) position)) [
  | inl later ↦
      let same : (view - view % 5 + position) % 2 ^ 64 ≡ view - view % 5 + position = omega arith in
      rw (later, same)
        (record { from = ground arith; leads = ground arith; first = λ v p e. ground arith })
  | inr wraps ↦
      let same : (view - view % 5 + 5 + position) % 2 ^ 64 ≡ view - view % 5 + 5 + position =
        omega arith in
      rw (wraps, same)
        (record { from = ground arith; leads = ground arith; first = λ v p e. ground arith })
]
