-- ===== src/Committee/Context.antt =====
-- When the participants of a cluster have answered (nodeset.go, `IsContextQuorum`).
use testing_go_moi.Prelude.{
  ℕ, zero, suc, ◌*◌, ◌<◌, ◌≡◌, ◌≢◌, ◌↔◌, refl, subst, true, false, some, List, [], ◌∷◌, arith,
  length, get_elem?,
}
use testing_go_moi.Committee.{
  NodeSet, Committee, CounterType, get_resp_count, set_quorum, context_quorum, is_context_quorum,
}

-- More than two thirds of the set have answered, if it is not excluded and not empty.
abbrev pub Enough : CounterType → NodeSet → Type 0
Enough ct ns =
    ns.excluded_from_ics ≡ false
    → ns.set_size_without_delta ≢ 0
    → 2 * ns.set_size_without_delta < 3 * get_resp_count ns ct

set_quorum-Enough : (ct : CounterType) (ns : NodeSet) → set_quorum ct ns ≡ true → Enough ct ns
unfolding set_quorum
set_quorum-Enough ct ns h inside ne = ground (arith, h, inside, ne)

set_quorum_of : (ct : CounterType) (ns : NodeSet) → Enough ct ns → set_quorum ct ns ≡ true
unfolding set_quorum
set_quorum_of ct ns h = ground (arith, h)

context_quorum-Enough :
    (ct : CounterType) (sets : List NodeSet) (j : ℕ) {ns : NodeSet}
    → context_quorum ct sets ≡ true
    → suc j < length sets
    → get_elem? sets j ≡ some ns
    → Enough ct ns
unfolding context_quorum
context_quorum-Enough ct [] j h lt at = absurd (omega arith)
context_quorum-Enough ct (s ∷ []) j h lt at = absurd (omega arith)
context_quorum-Enough ct (s ∷ next ∷ rest) zero {ns} h lt at =
    let same : s ≡ ns = ground (arith, at) in
    subst (Enough ct) same (set_quorum-Enough ct s (ground (arith, h)))
context_quorum-Enough ct (s ∷ next ∷ rest) (suc j) h lt at =
    context_quorum-Enough ct (next ∷ rest) j (ground (arith, h)) (omega arith) at

context_quorum_of :
    (ct : CounterType) (sets : List NodeSet)
    → ((j : ℕ) (ns : NodeSet) → suc j < length sets → get_elem? sets j ≡ some ns → Enough ct ns)
    → context_quorum ct sets ≡ true
unfolding context_quorum
context_quorum_of ct [] h = refl
context_quorum_of ct (s ∷ []) h = refl
context_quorum_of ct (s ∷ next ∷ rest) h = ground (
  arith,
  set_quorum_of ct s (h 0 s (omega arith) refl),
  context_quorum_of ct (next ∷ rest) (λ j ns lt at. h (suc j) ns (omega arith) at),
)

-- IsContextQuorum is true exactly when of every set but the last that is not excluded and not empty
-- more than two thirds have answered.
pub is_context_quorum_iff :
    (ct : CounterType) (c : Committee)
    → (is_context_quorum ct c ≡ true) ↔ (
        (j : ℕ) (ns : NodeSet)
        → suc j < length c.sets
        → get_elem? c.sets j ≡ some ns
        → ns.excluded_from_ics ≡ false
        → ns.set_size_without_delta ≢ 0
        → 2 * ns.set_size_without_delta < 3 * get_resp_count ns ct)
unfolding is_context_quorum
is_context_quorum_iff ct c =
    (λ h j ns lt at. context_quorum-Enough ct c.sets j h lt at, context_quorum_of ct c.sets)
