-- ===== src/Examples/Pool.antt =====
-- A pool of four slots with interactions of one account (ixpool).
use testing_go_moi.Prelude.{
  ℕ, ◌+◌, ◌*◌, ◌≡◌, refl, true, false, none, some, [], ◌∷◌, replicate, arith, lookup, length, ◌≤◌,
  ◌⊎◌, inr,
}
use testing_go_moi.Slots.{mutate_lock}
use testing_go_moi.Pool.{Interaction, Services, Signature, AccountKey}
use testing_go_moi.Pool.Queue.{IxQueue, push}
use testing_go_moi.Pool.Queue.Pruning.{IsOrdered, push_keeps, Pops, pop_cases, Pruned, prune_splits}
use testing_go_moi.Pool.Queue as Queue
use testing_go_moi.Pool.Account.{AccountQueue, promote}
use testing_go_moi.Pool.Account.Promotion.{Waits, Promoted, promote_lem}
use testing_go_moi.Pool.Validation.{
  weigh_one, verify_participant_signatures, validate_ix, cost, is_underpriced,
  has_sender_key_id_signature, weigh, verify_notaries, verify_signatures, check_for_participants,
  validate_operations, state_sequence_id,
}
use testing_go_moi.Pool.Validation.Weights.{copies_pass}
use testing_go_moi.Pool.Validation.Authority.{IsAuthorized, validate_ix-IsAuthorized}
use testing_go_moi.Pool.Entry.{IxPool, validate_and_enqueue_ix, get_next_view}
use testing_go_moi.Pool.Entry.Views.{IsNextView, get_next_view-IsNextView}
use testing_go_moi.Pool.Entry.Accounting.{Counted}
use testing_go_moi.Pool.Leaving.{drop}
use testing_go_moi.Pool.Runs.{new_ix_pool, Step, Reach, Reach-Counted}
use testing_go_moi.Pool.Cache.{
  DigestCache, new_digest_cache, member, has, check_and_insert, SaltedCache, inner_swap,
  inner_check, check_and_put,
}
use testing_go_moi.Pool.Cache.Rotation.{check_all, remembers}
use testing_go_moi.Pool.Cache.Salted.{check_and_put-known}

-- A signature of key 0, whose weight is half of what is needed, and one of key 1.
abbrev signed_by : ℕ → Signature
signed_by key = record { id = 7; key_id = key; signature = 11 }

abbrev ix_at : ℕ → Interaction
ix_at n = record {
  sender_id = 7;
  sender_key_id = 0;
  sequence_id = n;
  fuel_price = 5;
  fuel_limit = 10;
  size = 600;
  hash = 100 + n;
  leader_candidate = 7;
  participants = (7, record { is_genesis = false; lock_type = mutate_lock }) ∷ [];
  ix_participants = [];
  signatures = signed_by 0 ∷ signed_by 1 ∷ [];
  payload = some 1;
  ops = [];
}

abbrev half : AccountKey
half = record { weight = 500; revoked = false }

abbrev services : Services
services = record {
  get_sequence_id = λ id key. some 0;
  get_balance = λ id. 1000;
  get_account_keys = λ id. some (half ∷ half ∷ []);
  get_public_key = λ id key. some 3;
  is_account_registered = λ id. some true;
  get_account_meta_info = λ id. some (record {
    inherited_account = 0;
    position_in_context_set = some 2;
    consensus_nodes_hash = 4;
  });
  verifier = λ payload signature pk. some true;
  is_participant_variant = λ id. false;
  validate_operation = λ ix index op. none;
}

abbrev pool_start : IxPool
pool_start = new_ix_pool 4 5

abbrev pool_one : IxPool
pool_one = (validate_and_enqueue_ix services false pool_start (ix_at 0)).0

abbrev pool_two : IxPool
pool_two = (validate_and_enqueue_ix services false pool_one (ix_at 2)).0

abbrev pool_three : IxPool
pool_three = drop services pool_two (ix_at 0)

pool_three-Reach : Reach 4 5 pool_three
pool_three-Reach =
    Reach.step
      (Reach.step (Reach.step Reach.start (Step.entering services false pool_start (ix_at 0)))
        (Step.entering services false pool_one (ix_at 2)))
      (Step.dropping services pool_two (ix_at 0))

Reach-Counted_example : Counted pool_three
Reach-Counted_example = Reach-Counted 4 5 pool_three (omega arith) pool_three-Reach

no_ixs-IsOrdered : IsOrdered []
no_ixs-IsOrdered = λ c p q. absurd (omega arith)

abbrev waiting : IxQueue
waiting = push (push [] (ix_at 1)) (ix_at 0)

waiting-IsOrdered : IsOrdered waiting
waiting-IsOrdered =
    (push_keeps (push [] (ix_at 1)) (ix_at 0) (push_keeps [] (ix_at 1) no_ixs-IsOrdered).0).0

abbrev new_account : AccountQueue
new_account = record {
  key_id = 0;
  enqueued = waiting;
  promoted = [];
  sequence_id_to_ix = (1, ix_at 1) ∷ (0, ix_at 0) ∷ [];
  next_sequence_id = 0;
}

promote_lem_example :
    (Waits new_account × (promote new_account ≡ (new_account, 0, [])))
    ⊎ Promoted new_account (promote new_account)
promote_lem_example = promote_lem new_account waiting-IsOrdered no_ixs-IsOrdered

pop_cases_example : (waiting ≡ []) ⊎ Pops waiting
pop_cases_example = pop_cases waiting waiting-IsOrdered

prune_splits_example : Pruned waiting 1 (Queue.prune waiting 1)
prune_splits_example = prune_splits waiting 1 waiting-IsOrdered

-- The account 8 is a notary, and signs with both its keys too.
abbrev notarized : Interaction
notarized = record (ix_at 0) {
  ix_participants = record { id = 7; notary = false } ∷ record { id = 8; notary = true } ∷ [];
  signatures =
      signed_by 1
      ∷ record { id = 8; key_id = 0; signature = 12 }
      ∷ signed_by 0
      ∷ record { id = 8; key_id = 1; signature = 13 }
      ∷ [];
}

validate_ix_passes : validate_ix services 5 notarized ≡ none
unfolding validate_ix cost is_underpriced has_sender_key_id_signature weigh_one weigh
    verify_participant_signatures verify_notaries verify_signatures check_for_participants
    validate_operations state_sequence_id
validate_ix_passes = refl

validate_ix-IsAuthorized_example : IsAuthorized services notarized
validate_ix-IsAuthorized_example = validate_ix-IsAuthorized services 5 notarized validate_ix_passes

one_signature : weigh_one services 7 1 (half ∷ half ∷ []) (signed_by 0) ≡ inr 500
unfolding weigh_one
one_signature = refl

copies_pass_example : verify_participant_signatures services 7 1 (replicate 2 (signed_by 0)) ≡ none
copies_pass_example =
    copies_pass services 7 1 (half ∷ half ∷ []) (signed_by 0) 2 500 refl refl one_signature
      (omega arith) (omega arith)

get_next_view-IsNextView_example : IsNextView 13 1 (get_next_view 13 1)
get_next_view-IsNextView_example = get_next_view-IsNextView 13 1 (omega arith) (omega arith)

abbrev digests : DigestCache
digests = new_digest_cache 2

not_yet : has digests 5 ≡ false
unfolding new_digest_cache has member lookup
not_yet = refl

two_digests : length {A = ℕ} (6 ∷ 7 ∷ []) ≤ digests.max_size
unfolding new_digest_cache
two_digests = omega arith

remembers_example : has (check_all (check_and_insert digests 5).0 (6 ∷ 7 ∷ [])) 5 ≡ true
remembers_example = remembers digests 5 (6 ∷ 7 ∷ []) not_yet two_digests

-- The cache is swapped between the two halves of `CheckAndPut`.
abbrev salted : SaltedCache
salted = record { digests = digests; cur_salt = 1; prev_salt = 0 }

abbrev digest_of : ℕ → ℕ → ℕ
digest_of msg salt = msg * 10 + salt

unknown : inner_check digest_of salted 8 ≡ some 81
unfolding inner_check new_digest_cache member lookup
unknown = refl

check_and_put-known_example :
    inner_check digest_of (check_and_put digest_of salted (inner_swap salted 2) 8 3).0 8 ≡ none
check_and_put-known_example =
    check_and_put-known digest_of salted (inner_swap salted 2) 8 3 81 unknown
