-- ===== src/Examples/Votes.antt =====
-- Vote sets of a committee with two participants and one random node (voteset.go).
use testing_go_moi.Prelude.Int.{pos}
use testing_go_moi.Prelude.{
  ℕ, ◌+◌, ◌*◌, ◌^◌, ◌≤◌, ◌<◌, ◌≡◌, ◌≢◌, ◌↔◌, ◌==◌, refl, true, false, none, some, [], ◌∷◌, arith,
  get_elem?, get_or,
}
use testing_go_moi.Committee.{
  Committee, ValidatorInfo, NodeSet, new_node_set, new_committee, append_node_set, get_quorum,
  quorum_of, participant_quorum, random_quorum_size, get_krama_id, find_member, get_by_index,
  other_slots, slots_in,
}
use testing_go_moi.Committee.Lookup.{append_node_set-IsValid, new_committee-IsValid}
use testing_go_moi.Votes.{
  Crypto, Vote, VoteSet, new_vote_set, super_majority, add_vote, add_qc, check_vote,
  add_verified_vote, cross_quorum, store_vote, are_greater, add_at, conflicting_vote,
}
use testing_go_moi.Votes.Tally.{slots_at, weight, tally, full_weight}
use testing_go_moi.Votes.Invariant.{IsFit}
use testing_go_moi.Votes.Adding.{Inv, add_vote-Inv}
use testing_go_moi.Votes.Counting.{add_vote_once}
use testing_go_moi.Votes.Certificates.{add_qc-Inv}
use testing_go_moi.Votes.Majority.{vote, Reach, here, next, new_vote_set-Inv, super_majority_iff}
use testing_go_moi.Votes.Intersection.{both, super_majority_intersect}

-- A signature is the sum of the bytes and the key.
abbrev crypto : Crypto
crypto = record {
  sign_bytes = λ type view hash. some (100 * hash + 10 * view + type);
  verify = λ raw signature key. some (signature == raw + key);
  aggregate_signatures = λ signatures. some 0;
  verify_aggregate_signature = λ raw signature keys. some (signature == raw);
}

abbrev node : ℕ → ValidatorInfo
node n = record { id = n; krama_id = n; public_key = n; voting_power = 1 }

abbrev participants : NodeSet
participants = new_node_set (node 1 ∷ node 2 ∷ []) 2

abbrev random : NodeSet
random = new_node_set (node 3 ∷ []) 1

abbrev cs : Committee
cs = append_node_set (append_node_set new_committee 7 (some participants)) 0 (some random)

cs-IsFit : IsFit cs
unfolding full_weight weight slots_at get_krama_id find_member other_slots slots_in append_node_set
    new_committee new_node_set
cs-IsFit = record {
  valid =
      append_node_set-IsValid (append_node_set new_committee 7 (some participants)) 0 (some random)
        (append_node_set-IsValid new_committee 7 (some participants) new_committee-IsValid);
  fits = λ j. ground arith;
}

abbrev ballot : ℕ → ℕ → ℕ → Vote
ballot view hash i = record {
  type = 2;
  is_qc = false;
  view = view;
  signer_index = pos i;
  ts_hash = hash;
  signer_indices = none;
  signature = 100 * hash + 10 * view + 2 + (i + 1);
}

abbrev start : VoteSet
start = new_vote_set 5 2 cs

abbrev one : VoteSet
one = (add_vote crypto start (some (ballot 5 9 0)) 9).0

abbrev two : VoteSet
two = (add_vote crypto one (some (ballot 5 9 1)) 9).0

abbrev three : VoteSet
three = (add_vote crypto two (some (ballot 5 9 2)) 9).0

three-Reach : Reach crypto 9 start three
three-Reach =
    next (next (next here (vote (some (ballot 5 9 0)))) (vote (some (ballot 5 9 1))))
      (vote (some (ballot 5 9 2)))

sized : 0 < cs.size
unfolding append_node_set new_committee
sized = omega arith

start-Inv : Inv 9 start
start-Inv = new_vote_set-Inv 9 5 2 cs cs-IsFit sized

three_wins : super_majority (some three) ≡ some 9
unfolding super_majority add_vote check_vote add_verified_vote cross_quorum store_vote are_greater
    add_at get_quorum quorum_of participant_quorum random_quorum_size get_krama_id find_member
    get_by_index other_slots slots_in append_node_set new_committee new_node_set new_vote_set
three_wins = refl

super_majority_iff_example :
    (super_majority (some three) ≡ some 9)
    ↔ ((j : ℕ) → get_or (get_quorum three.cs) j 0 ≤ tally three.cs j 0 three.votes)
super_majority_iff_example = super_majority_iff crypto 9 5 2 cs cs-IsFit sized three-Reach

participants_first : get_elem? cs.sets 0 ≡ some participants
unfolding append_node_set new_committee
participants_first = refl

participants_inside : participants.excluded_from_ics ≡ false
unfolding new_node_set
participants_inside = refl

participants_some : participants.set_size_without_delta ≢ 0
unfolding new_node_set
participants_some e = omega arith

participants_few : participants.set_size_without_delta < 2 ^ 31
unfolding new_node_set
participants_few = omega arith

participants_whole : full_weight cs 0 0 cs.total_nodes ≤ participants.set_size_without_delta
unfolding full_weight weight slots_at get_krama_id find_member other_slots slots_in append_node_set
    new_committee new_node_set
participants_whole = omega arith

super_majority_intersect_example :
    participants.set_size_without_delta < 3 * both cs 0 0 three.votes three.votes
super_majority_intersect_example =
    super_majority_intersect crypto 9 9 5 5 2 2 cs 0 cs-IsFit sized participants_first
      participants_inside participants_some participants_few participants_whole three-Reach
      three-Reach three_wins three_wins

add_vote-Inv_example : Inv 9 one
add_vote-Inv_example = add_vote-Inv crypto 9 start (some (ballot 5 9 0)) start-Inv

-- The certificate of the nodes 0 and 2.
abbrev qc : Vote
qc = record {
  type = 2;
  is_qc = true;
  view = 5;
  signer_index = pos 0;
  ts_hash = 9;
  signer_indices = some (record { size = 3; elements = 5 ∷ [] });
  signature = 952;
}

add_qc-Inv_example : Inv 9 (add_qc crypto start (some qc) 9).0
add_qc-Inv_example = add_qc-Inv crypto 9 start (some qc) start-Inv

other_hash : (add_vote crypto start (some (ballot 5 8 0)) 9).2 ≡ some conflicting_vote
unfolding add_vote check_vote get_krama_id find_member get_by_index other_slots slots_in
    append_node_set new_committee new_node_set new_vote_set
other_hash = refl

first_added : (add_vote crypto start (some (ballot 5 9 0)) 9).1 ≡ true
unfolding add_vote check_vote add_verified_vote get_krama_id find_member get_by_index other_slots
    slots_in append_node_set new_committee new_node_set new_vote_set
first_added = refl

add_vote_once_example :
    ((add_vote crypto one (some (ballot 5 9 0)) 9).0 ≡ one)
    × ((add_vote crypto one (some (ballot 5 9 0)) 9).1 ≡ false)
add_vote_once_example =
    add_vote_once crypto 9 start (ballot 5 9 0) (ballot 5 9 0) start-Inv first_added refl
