-- ===== src/Examples/Kbft.antt =====
-- A node that is not the leader commits a tesseract (kbft.go).
use testing_go_moi.Prelude.Int.{pos}
use testing_go_moi.Prelude.{
  ℕ, ◌+◌, ◌*◌, ◌^◌, ◌≤◌, ◌<◌, ◌≡◌, ◌≢◌, ◌⊎◌, ◌==◌, refl, true, false, some, [], ◌∷◌, arith,
  get_elem?, get_or,
}
use testing_go_moi.Bits.{get_true_indices, scan_words, scan_word, word_test}
use testing_go_moi.Committee.{
  Committee, ValidatorInfo, NodeSet, new_node_set, new_committee, append_node_set, get_quorum,
  quorum_of, participant_quorum, random_quorum_size, get_krama_id, find_member, get_by_index,
  other_slots, slots_in, has_krama_id, has_krama_id_from, index_of,
}
use testing_go_moi.Committee.Lookup.{append_node_set-IsValid, new_committee-IsValid}
use testing_go_moi.Votes.{
  Crypto, Vote, prevote, precommit, new_vote_set, super_majority, add_qc, check_qc,
  add_verified_vote, cross_quorum, store_vote, are_greater, add_at, signers, keys, add_signers,
}
use testing_go_moi.Votes.Tally.{slots_at, weight, tally, full_weight}
use testing_go_moi.Votes.Invariant.{IsFit}
use testing_go_moi.Votes.Intersection.{both}
use testing_go_moi.Height.{
  new_height_vote_set, set_ts_hash, get_vote_set, store_vote_set, add_height_qc, get_qc,
}
use testing_go_moi.Kbft.{
  Proposal, proposed, voted, Kbft, Node, new_kbft, all_heights, are_heights_equal, is_leader,
  sign_vote, send_vote, send_qc, send, close, to_step, enter_prevote, precommit_for,
  enter_precommit, finalize_commit, commit_for, end_commit, enter_commit,
}
use testing_go_moi.Kbft.Handlers.{
  handle_msg, set_proposal, with_proposal, after_vote, counted, receive_vote,
}
use testing_go_moi.Kbft.Steps.{Ahead, Reach, here, next, message, Reach-Ahead}
use testing_go_moi.Kbft.Ballots.{ballots}
use testing_go_moi.Kbft.Equivocation.{one_vote}
use testing_go_moi.Kbft.Agreement.{committed_quorum}
use testing_go_moi.Kbft.Consistency.{commits_intersect}

-- A signature is the sum of the bytes and the key.
abbrev pub crypto : Crypto
crypto = record {
  sign_bytes = λ type view hash. some (100 * hash + 10 * view + type);
  verify = λ raw signature key. some (signature == raw + key);
  aggregate_signatures = λ signatures. some 0;
  verify_aggregate_signature = λ raw signature keys. some (signature == raw);
}

abbrev info : ℕ → ValidatorInfo
info n = record { id = n; krama_id = n; public_key = n; voting_power = 1 }

abbrev participants : NodeSet
participants = new_node_set (info 1 ∷ info 2 ∷ []) 2

abbrev random : NodeSet
random = new_node_set (info 3 ∷ []) 1

abbrev pub cs : Committee
cs = append_node_set (append_node_set new_committee 7 (some participants)) 0 (some random)

pub cs-IsFit : IsFit cs
unfolding full_weight weight slots_at get_krama_id find_member other_slots slots_in append_node_set
    new_committee new_node_set
cs-IsFit = record {
  valid =
      append_node_set-IsValid (append_node_set new_committee 7 (some participants)) 0 (some random)
        (append_node_set-IsValid new_committee 7 (some participants) new_committee-IsValid);
  fits = λ j. ground arith;
}

abbrev pub node : Node
node = record {
  crypto = crypto;
  committee = cs;
  id = 2;
  operator = 1;
  has_vault = true;
  own_proposal = record { heights = []; view = 5; tesseract = 9 };
  sign = λ raw. some (raw + 2);
  update_safety_info = λ p qc. true;
  seal = λ hash evidence. true;
  handle_tesseract = λ hash. true;
}

-- The certificate of all three members.
abbrev qc : ℕ → Vote
qc type = record {
  type = type;
  is_qc = true;
  view = 5;
  signer_index = pos 0;
  ts_hash = 9;
  signer_indices = some (record { size = 3; elements = 7 ∷ [] });
  signature = 950 + type;
}

abbrev pub start : Kbft
start = new_kbft [] 5 (new_height_vote_set 5 cs) false

abbrev pub one : Kbft
one = handle_msg node start (proposed (record { heights = []; view = 5; tesseract = 9 })) 1

abbrev two : Kbft
two = handle_msg node one (voted (qc 2)) 1

abbrev pub three : Kbft
three = handle_msg node two (voted (qc 3)) 1

pub three-Reach : Reach node start three
three-Reach =
    next
      (next (next here (message (proposed (record { heights = []; view = 5; tesseract = 9 })) 1))
        (message (voted (qc 2)) 1))
      (message (voted (qc 3)) 1)

pub sized : 0 < cs.size
unfolding append_node_set new_committee
sized = omega arith

participants_first : get_elem? cs.sets 0 ≡ some participants
unfolding append_node_set new_committee
participants_first = refl

participants_inside : participants.excluded_from_ics ≡ false
unfolding new_node_set
participants_inside = refl

participants_some : participants.set_size_without_delta ≢ 0
unfolding new_node_set
participants_some e = omega arith

participants_few : participants.set_size_without_delta < 2 ^ 31
unfolding new_node_set
participants_few = omega arith

participants_whole : full_weight cs 0 0 cs.total_nodes ≤ participants.set_size_without_delta
unfolding full_weight weight slots_at get_krama_id find_member other_slots slots_in append_node_set
    new_committee new_node_set
participants_whole = omega arith

three_commits : (three.committed ≡ 9 ∷ []) × (three.view ≡ 5)
unfolding get_true_indices scan_words scan_word word_test new_node_set new_committee append_node_set
    get_quorum quorum_of participant_quorum random_quorum_size get_krama_id find_member get_by_index
    other_slots slots_in has_krama_id has_krama_id_from index_of new_vote_set super_majority add_qc
    check_qc add_verified_vote cross_quorum store_vote are_greater add_at signers keys add_signers
    new_height_vote_set set_ts_hash get_vote_set store_vote_set add_height_qc get_qc new_kbft
    handle_msg set_proposal with_proposal all_heights are_heights_equal is_leader sign_vote
    send_vote send_qc send close to_step enter_prevote precommit_for enter_precommit finalize_commit
    commit_for end_commit enter_commit after_vote counted receive_vote
three_commits = (refl, refl)

Reach-Ahead_example : Ahead three start
Reach-Ahead_example = Reach-Ahead node three-Reach

one_vote_example : (ballots prevote 5 three.sent ≤ 1) × (ballots precommit 5 three.sent ≤ 1)
one_vote_example = one_vote node [] 5 (new_height_vote_set 5 cs) false 5 three-Reach

committed_quorum_example :
    (three.committed ≡ [])
    ⊎ ((p : Proposal) × (three.proposal ≡ some p)
        × (three.committed ≡ p.tesseract ∷ [])
        × (super_majority (some three.votes.precommits) ≡ some p.tesseract)
        × ((j : ℕ) → get_or (get_quorum cs) j 0 ≤ tally cs j 0 three.votes.precommits.votes))
committed_quorum_example =
    committed_quorum node 5 cs cs-IsFit sized [] false three-Reach three_commits.1

commits_intersect_example :
    participants.set_size_without_delta
    < 3 * both cs 0 0 three.votes.precommits.votes three.votes.precommits.votes
commits_intersect_example =
    commits_intersect node node 5 5 cs [] [] false false 9 9 0 cs-IsFit sized participants_first
      participants_inside participants_some participants_few participants_whole three-Reach
      three-Reach three_commits.1 three_commits.1 three_commits.0 three_commits.0
