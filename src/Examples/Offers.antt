-- ===== src/Examples/Offers.antt =====
-- Three pools that offer batches (ixpool/ixpool.go, ixpool/ix_batch_registry.go).
use testing_go_moi.Prelude.{
  ℕ, ◌≡◌, refl, true, false, Option, none, some, List, [], ◌∷◌, map, length, Map, lookup, insert,
}
use testing_go_moi.Slots.{LockType, mutate_lock, no_lock}
use testing_go_moi.Pool.{ParticipantInfo, Interaction, AccountMetaInfo, Services}
use testing_go_moi.Pool.Account.{AccountQueue}
use testing_go_moi.Pool.Entry.{
  IxPool, is_some, leader_meta_info, allocate_one, allocate_view, get_next_view,
}
use testing_go_moi.Pool.Runs.{new_ix_pool}
use testing_go_moi.Pool.Batches.{
  IxBatch, is_locked, hash_of, new_ixn_batch, add_hashes, add, new_batch_registry,
  add_consensus_nodes_hash, all_in_batch, first_batch, find_batch_id, append_empty_batch, assign,
  add_ix_to_batch, add_ix,
}
use testing_go_moi.Pool.Selection.{max_batches}
use testing_go_moi.Pool.Selection.Choosing.{IsChoice}
use testing_go_moi.Pool.Offering.{
  get_primary_hash, get_consensus_nodes_hash, Offers, new_offers, existing_hashes, count_new,
  hash_or_nil, acquire, acquired, is_eligible_for_proposal, reallocated, offer_ixns,
  processable_batches,
}
use testing_go_moi.Pool.Offering.Chosen.{processable_batches-IsChoice}

abbrev participant : LockType → ℕ → ℕ × ParticipantInfo
participant lock id = (id, record { is_genesis = false; lock_type = lock })

abbrev sent : ℕ → Map ParticipantInfo → Interaction
sent id ps = record {
  sender_id = id;
  sender_key_id = 0;
  sequence_id = 0;
  fuel_price = 5;
  fuel_limit = 10;
  size = 600;
  hash = id;
  leader_candidate = id;
  participants = ps;
  ix_participants = [];
  signatures = [];
  payload = none;
  ops = [];
}

-- Each account has its own number for a hash.
abbrev info_at : Option ℕ → ℕ → AccountMetaInfo
info_at position id = record {
  inherited_account = 0;
  position_in_context_set = position;
  consensus_nodes_hash = id;
}

abbrev services_at : Option ℕ → Services
services_at position = record {
  get_sequence_id = λ id key. some 0;
  get_balance = λ id. 1000;
  get_account_keys = λ id. none;
  get_public_key = λ id key. none;
  is_account_registered = λ id. some true;
  get_account_meta_info = λ id. some (info_at position id);
  verifier = λ payload signature pk. some true;
  is_participant_variant = λ id. false;
  validate_operation = λ ix index op. none;
}

abbrev queue_of : Interaction → AccountQueue
queue_of ix = record {
  key_id = 0;
  enqueued = [];
  promoted = ix ∷ [];
  sequence_id_to_ix = (0, ix) ∷ [];
  next_sequence_id = 1;
}

-- The pool with the two promoted interactions, in view 7; views 7 and 2 are allotted to them.
abbrev pool_with : Interaction → Interaction → IxPool
pool_with one two = record (new_ix_pool 10 5) {
  accounts =
      (one.sender_id, record { account_queues = queue_of one ∷ []; delay_counter = 0 })
      ∷ (two.sender_id, record { account_queues = queue_of two ∷ []; delay_counter = 0 })
      ∷ [];
  sorted_participants = (two.sender_id, tt) ∷ (one.sender_id, tt) ∷ [];
  allotted = (one.hash, 7) ∷ (two.hash, 2) ∷ [];
  view = 7;
}

abbrev lock_both : Map ParticipantInfo → IxPool
lock_both others =
    pool_with (sent 1 (map (participant mutate_lock) (1 ∷ 11 ∷ [])))
      (sent 2 (participant mutate_lock 2 ∷ others))

processable_batches-IsChoice_example :
    IsChoice max_batches (processable_batches (services_at (some 2)) (lock_both [])).1
processable_batches-IsChoice_example =
    processable_batches-IsChoice (services_at (some 2)) (lock_both [])

-- Two accounts of four locked each, and the second interaction reads without a lock what the first one
-- locks: both are in one batch, with eight hashes.
abbrev reader : Map ParticipantInfo
reader = participant no_lock 1 ∷ map (participant mutate_lock) (2 ∷ 21 ∷ 22 ∷ 23 ∷ [])

abbrev four_locked : Interaction
four_locked = sent 1 (map (participant mutate_lock) (1 ∷ 11 ∷ 12 ∷ 13 ∷ []))

abbrev views : Map ℕ
views = (1, 7) ∷ (2, 2) ∷ []

abbrev offers_two : Offers
offers_two =
    (offer_ixns (services_at (some 2)) 7 views new_offers (four_locked ∷ sent 2 reader ∷ [])).1

abbrev hash_counts : List IxBatch → List ℕ
hash_counts bs = map (λ b. length b.consensus_nodes_hash) bs

eight_hashes : hash_counts offers_two.registry.batches ≡ 8 ∷ []
unfolding offer_ixns reallocated leader_meta_info allocate_view allocate_one get_next_view
    new_offers is_eligible_for_proposal count_new is_locked existing_hashes lookup is_some
    get_consensus_nodes_hash get_primary_hash acquired acquire hash_or_nil insert
    add_consensus_nodes_hash new_batch_registry add_ix find_batch_id first_batch all_in_batch
    append_empty_batch add_ix_to_batch assign add add_hashes hash_of new_ixn_batch
eight_hashes = refl
