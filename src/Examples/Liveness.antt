-- ===== src/Examples/Liveness.antt =====
-- A node commits once it has the precommits of all three members (kbft.go).
use testing_go_moi.Prelude.Int.{pos}
use testing_go_moi.Prelude.{
  ℕ, zero, suc, ◌+◌, ◌≤◌, ◌<◌, ◌≡◌, ◌≢◌, ◌↔◌, refl, true, false, Option, none, some, List, [], ◌∷◌,
  arith, get_or,
}
use testing_go_moi.Bits.{get_true_indices, scan_words, scan_word, word_test}
use testing_go_moi.Committee.{
  new_node_set, new_committee, append_node_set, get_quorum, quorum_of, participant_quorum,
  random_quorum_size, get_krama_id, find_member, get_by_index, other_slots, slots_in, has_krama_id,
  has_krama_id_from, index_of,
}
use testing_go_moi.Votes.{
  Vote, precommit, new_vote_set, super_majority, add_vote, check_vote, add_verified_vote,
  cross_quorum, store_vote, are_greater, add_at, aggregate, signatures,
}
use testing_go_moi.Votes.Tally.{slots_at, weight, tally}
use testing_go_moi.Votes.Invariant.{is_some}
use testing_go_moi.Height.{
  new_height_vote_set, set_ts_hash, get_vote_set, store_vote_set, add_height_vote, get_qc,
}
use testing_go_moi.Kbft.{
  Proposal, proposed, voted, Kbft, new_kbft, all_heights, are_heights_equal, is_leader, sign_vote,
  send_vote, send_qc, send, close, to_step, enter_prevote, precommit_for, enter_precommit,
  finalize_commit, commit_for, end_commit, enter_commit,
}
use testing_go_moi.Kbft.Handlers.{
  handle_msg, set_proposal, with_proposal, after_vote, counted, receive_vote,
}
use testing_go_moi.Kbft.Steps.{Reach, here, next, message}
use testing_go_moi.Kbft.Progress.{IsWorking}
use testing_go_moi.Kbft.Liveness.{committed_iff}
use testing_go_moi.Kbft.Delivery.{IsPrecommit, Received, precommits_commit}
use testing_go_moi.Examples.Kbft.{node, cs, cs-IsFit, sized, start, one}
use testing_go_moi.Votes.Authentic.{IsSigned}
use testing_go_moi.Kbft.Authentic.{stored_votes-IsSigned}

abbrev proposal : Proposal
proposal = record { heights = []; view = 5; tesseract = 9 }

node-IsWorking : IsWorking node
node-IsWorking = record { seals = λ h e. refl; stores = λ h. refl }

abbrev precommit_by : ℕ → Vote
precommit_by i = record {
  type = precommit;
  is_qc = false;
  view = 5;
  signer_index = pos i;
  ts_hash = 9;
  signer_indices = none;
  signature = 954 + i;
}

abbrev members : List (Option Vote)
members = some (precommit_by 0) ∷ some (precommit_by 1) ∷ some (precommit_by 2) ∷ []

abbrev hears : Kbft → ℕ → Kbft
hears s i = handle_msg node s (voted (precommit_by i)) 1

abbrev heard_one : Kbft
heard_one = hears one 0

abbrev heard_two : Kbft
heard_two = hears heard_one 1

abbrev heard_three : Kbft
heard_three = hears heard_two 2

one-Reach : Reach node start one
one-Reach = next here (message (proposed proposal) 1)

heard_three-Reach : Reach node one heard_three
heard_three-Reach =
    next
      (next (next here (message (voted (precommit_by 0)) 1)) (message (voted (precommit_by 1)) 1))
      (message (voted (precommit_by 2)) 1)

proposal_taken : (one.view ≡ 5) × (one.proposal ≡ some proposal)
unfolding handle_msg set_proposal with_proposal all_heights are_heights_equal new_kbft is_leader
    send_vote sign_vote send enter_prevote to_step has_krama_id has_krama_id_from index_of
    append_node_set new_committee new_node_set new_height_vote_set set_ts_hash
proposal_taken = (refl, refl)

view_kept :
    (heard_three.view ≡ 5)
    × (heard_three.proposal ≡ some proposal)
    × (get_or heard_three.votes.precommits.votes 2 none ≡ some (precommit_by 2))
unfolding get_true_indices scan_words scan_word word_test new_node_set new_committee append_node_set
    get_quorum quorum_of participant_quorum random_quorum_size get_krama_id find_member get_by_index
    other_slots slots_in has_krama_id has_krama_id_from index_of new_vote_set super_majority
    add_vote check_vote add_verified_vote cross_quorum store_vote are_greater add_at aggregate
    signatures new_height_vote_set set_ts_hash get_vote_set store_vote_set add_height_vote get_qc
    new_kbft handle_msg set_proposal with_proposal all_heights are_heights_equal is_leader sign_vote
    send_vote send_qc send close to_step enter_prevote precommit_for enter_precommit finalize_commit
    commit_for end_commit enter_commit after_vote counted receive_vote
view_kept = (refl, refl, refl)

precommit_by-IsPrecommit : (i : ℕ) → i < 3 → IsPrecommit node 5 cs 9 i (precommit_by i)
unfolding check_vote new_vote_set get_by_index get_krama_id find_member other_slots slots_in
    append_node_set new_committee new_node_set
precommit_by-IsPrecommit zero h = record { single = refl; slots = 0 ∷ []; checked = refl }
precommit_by-IsPrecommit (suc zero) h = record { single = refl; slots = 0 ∷ []; checked = refl }
precommit_by-IsPrecommit (suc (suc zero)) h = record {
  single = refl;
  slots = 1 ∷ [];
  checked = refl;
}
precommit_by-IsPrecommit (suc (suc (suc i))) h = absurd (omega arith)

members-Received :
    (i : ℕ) → is_some (get_or members i none) ≡ true → Received node 5 cs one heard_three 9 i
members-Received zero e = record {
  at = one;
  vote = precommit_by 0;
  peer = 1;
  before = here;
  after =
      next (next here (message (voted (precommit_by 1)) 1)) (message (voted (precommit_by 2)) 1);
  precommits = precommit_by-IsPrecommit 0 (omega arith);
}
members-Received (suc zero) e = record {
  at = heard_one;
  vote = precommit_by 1;
  peer = 1;
  before = next here (message (voted (precommit_by 0)) 1);
  after = next here (message (voted (precommit_by 2)) 1);
  precommits = precommit_by-IsPrecommit 1 (omega arith);
}
members-Received (suc (suc zero)) e = record {
  at = heard_two;
  vote = precommit_by 2;
  peer = 1;
  before =
      next (next here (message (voted (precommit_by 0)) 1)) (message (voted (precommit_by 1)) 1);
  after = here;
  precommits = precommit_by-IsPrecommit 2 (omega arith);
}
members-Received (suc (suc (suc i))) e = absurd (cc)

members_weigh : (j : ℕ) → get_or (get_quorum cs) j 0 ≤ tally cs j 0 members
unfolding get_quorum quorum_of participant_quorum random_quorum_size tally weight slots_at
    get_krama_id find_member other_slots slots_in append_node_set new_committee new_node_set
members_weigh zero = omega arith
members_weigh (suc zero) = omega arith
members_weigh (suc (suc j)) = omega arith

nine_positive : proposal.tesseract ≢ 0
nine_positive e = omega (arith, e)

precommits_commit_example : heard_three.committed ≡ 9 ∷ []
precommits_commit_example =
    precommits_commit node 5 cs cs-IsFit sized [] proposal members node-IsWorking one-Reach
      proposal_taken.0 proposal_taken.1 nine_positive heard_three-Reach view_kept.0 members-Received
      members_weigh

heard_three-Reach_all : Reach node start heard_three
heard_three-Reach_all =
    next
      (next (next one-Reach (message (voted (precommit_by 0)) 1))
        (message (voted (precommit_by 1)) 1))
      (message (voted (precommit_by 2)) 1)

committed_iff_example :
    (heard_three.committed ≡ 9 ∷ [])
    ↔ ((j : ℕ) → get_or (get_quorum cs) j 0 ≤ tally cs j 0 heard_three.votes.precommits.votes)
committed_iff_example =
    committed_iff node 5 cs cs-IsFit sized [] proposal heard_three-Reach_all view_kept.0
      node-IsWorking view_kept.1 nine_positive

precommits_of : get_vote_set heard_three.votes precommit ≡ some heard_three.votes.precommits
unfolding get_vote_set
precommits_of = refl

stored_votes-IsSigned_example :
    ((precommit_by 2).type ≡ precommit) × IsSigned node.crypto cs 2 (precommit_by 2)
stored_votes-IsSigned_example =
    stored_votes-IsSigned node cs [] 5 5 false precommit 2 heard_three.votes.precommits
      (precommit_by 2) heard_three-Reach_all precommits_of view_kept.2
