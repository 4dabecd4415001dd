-- ===== src/Committee/Quorum.antt =====
-- The size of a quorum (nodeset.go, `getQuorumSize` and `GetQuorum`).
use testing_go_moi.Prelude.{
  ℕ, zero, suc, ◌*◌, ◌≤◌, ◌<◌, ◌≡◌, ◌≢◌, ◌^◌, false, List, [], ◌∷◌, some, arith, get_elem?, get_or,
}
use testing_go_moi.Committee.{
  NodeSet, two_thirds, participant_quorum, random_quorum_size, quorum_of,
}

-- For a set of at least one and fewer than 2^31 nodes, the quorum of its participants is the least
-- number that is more than two thirds of the nodes, and no more than all of them.
pub participant_quorum_least :
    (ns : NodeSet) (k : ℕ)
    → ns.set_size_without_delta ≢ 0
    → ns.set_size_without_delta < 2 ^ 31
    → (2 * ns.set_size_without_delta < 3 * participant_quorum ns)
      × (participant_quorum ns ≤ ns.set_size_without_delta)
      × (2 * ns.set_size_without_delta < 3 * k → participant_quorum ns ≤ k)
unfolding participant_quorum
participant_quorum_least ns k ne small = (ground arith, ground arith, λ more. ground arith)

pub two_thirds-lt : (n : ℕ) → n < 2 ^ 31 → 2 * n < 3 * two_thirds n
two_thirds-lt n small = omega arith

-- Where a set that is not excluded stands in the committee, its quorum is two thirds and one.
pub get_or-quorum_of :
    (sets : List NodeSet) (j : ℕ) {ns : NodeSet}
    → get_elem? sets j ≡ some ns
    → ns.excluded_from_ics ≡ false
    → ns.set_size_without_delta ≢ 0
    → get_or (quorum_of sets) j 0 ≡ two_thirds ns.set_size_without_delta
unfolding quorum_of random_quorum_size participant_quorum
get_or-quorum_of [] j at inside ne = ground arith
get_or-quorum_of (s ∷ []) zero at inside ne = ground arith
get_or-quorum_of (s ∷ []) (suc j) at inside ne = ground arith
get_or-quorum_of (s ∷ next ∷ rest) zero at inside ne = ground arith
get_or-quorum_of (s ∷ next ∷ rest) (suc j) at inside ne =
    get_or-quorum_of (next ∷ rest) j at inside ne
