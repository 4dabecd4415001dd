-- ===== src/Examples/Committee.antt =====
-- A committee with two sets (nodeset.go).
use testing_go_moi.Prelude.Int.{pos}
use testing_go_moi.Prelude.{
  suc, ◌↔◌, ◌⊎◌, length, ℕ, ◌*◌, ◌^◌, ◌≤◌, ◌<◌, ◌≡◌, ◌≢◌, true, false, none, some, [], ◌∷◌, arith,
  get_elem?,
}
use testing_go_moi.Committee.{
  is_context_quorum, get_resp_count, Committee, Member, ValidatorInfo, NodeSet, vote_counter,
  new_node_set, new_committee, append_node_set, participant_quorum, get_krama_id, has_krama_id,
}
use testing_go_moi.Committee.Lookup.{
  IsValid, Describes, all_infos, new_committee-IsValid, append_node_set-IsValid,
  get_krama_id_in_range,
}
use testing_go_moi.Committee.Search.{NoneIs, has_krama_id_lem}
use testing_go_moi.Committee.Context.{is_context_quorum_iff}
use testing_go_moi.Committee.Quorum.{participant_quorum_least}

abbrev node : ℕ → ValidatorInfo
node n = record { id = n; krama_id = n; public_key = n; voting_power = 1 }

abbrev participants : NodeSet
participants = new_node_set (node 1 ∷ node 2 ∷ []) 2

abbrev random : NodeSet
random = new_node_set (node 3 ∷ node 1 ∷ []) 2

abbrev first : Committee
first = append_node_set new_committee 7 (some participants)

abbrev cs : Committee
cs = append_node_set first 0 (some random)

append_node_set-IsValid_example : IsValid first
append_node_set-IsValid_example =
    append_node_set-IsValid new_committee 7 (some participants) new_committee-IsValid

cs-IsValid : IsValid cs
cs-IsValid =
    append_node_set-IsValid first 0 (some random)
      (append_node_set-IsValid new_committee 7 (some participants) new_committee-IsValid)

three_in_range : 3 < cs.total_nodes
unfolding append_node_set new_committee new_node_set
three_in_range = omega arith

get_krama_id_in_range_example :
    (info : ValidatorInfo) × (get_elem? (all_infos cs.sets) 3 ≡ some info)
    × ((m : Member) × (get_krama_id cs (pos 3) ≡ some m) × Describes cs.size info m)
get_krama_id_in_range_example = get_krama_id_in_range cs 3 cs-IsValid three_in_range

has_krama_id_lem_example :
    ((i : ℕ) × (has_krama_id cs 3 ≡ some i)
      × ((m : Member) × (get_krama_id cs (pos i) ≡ some m) × (m.krama_id ≡ 3)))
    ⊎ ((has_krama_id cs 3 ≡ none) × NoneIs 3 (all_infos cs.sets))
has_krama_id_lem_example = has_krama_id_lem cs 3 cs-IsValid

participants_some : participants.set_size_without_delta ≢ 0
unfolding new_node_set
participants_some e = omega arith

participants_few : participants.set_size_without_delta < 2 ^ 31
unfolding new_node_set
participants_few = omega arith

participant_quorum_least_example :
    (2 * participants.set_size_without_delta < 3 * participant_quorum participants)
    × (participant_quorum participants ≤ participants.set_size_without_delta)
    × (2 * participants.set_size_without_delta < 3 * 2 → participant_quorum participants ≤ 2)
participant_quorum_least_example =
    participant_quorum_least participants 2 participants_some participants_few

is_context_quorum_iff_example : (is_context_quorum vote_counter cs ≡ true) ↔ (
    (j : ℕ) (ns : NodeSet)
    → suc j < length cs.sets
    → get_elem? cs.sets j ≡ some ns
    → ns.excluded_from_ics ≡ false
    → ns.set_size_without_delta ≢ 0
    → 2 * ns.set_size_without_delta < 3 * get_resp_count ns vote_counter)
is_context_quorum_iff_example = is_context_quorum_iff vote_counter cs
