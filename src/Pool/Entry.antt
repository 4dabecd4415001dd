-- ===== src/Pool/Entry.antt =====
-- ixpool/ixpool.go: how an interaction comes into the pool, and how it gets a view.
--
-- The view that an interaction is allotted is kept in the interaction, which the pool's queues share
-- by pointer; here it stands in a map from hashes. An interaction proposes if it stands there. The
-- clock is the argument `waited`: that the sender's wait time is over. The signal to the pruning
-- goroutine is a flag. The set of accounts that can propose is kept in no order, and the cache of
-- consensus nodes hashes is left out.
pub mod Views
pub mod Balance
pub mod Putting
pub mod Accounting
pub mod Admission
use testing_go_moi.Prelude.{
  ℕ, zero, suc, ◌+◌, ◌-◌, ◌%◌, ◌^◌, Bool, true, false, not, ◌&&◌, Option, none, some, List, [], ◌∷◌,
  ltb, leb, ◌==◌, if◌then◌else◌, Map, lookup, insert, delete,
}
use testing_go_moi.Pool.{
  Interaction, PoolError, sequence_id_too_low, reject_future_ix, already_known,
  replacement_underpriced, ix_pool_overflow, AccountMetaInfo, Services,
}
use testing_go_moi.Pool.Account.{AccountQueue, Account, enqueue, promote}
use testing_go_moi.Pool.Accounts.{put_queue, get_or_create_account_queue}
use testing_go_moi.Pool.Gauge.{
  SlotGauge, decrease, high_pressure, increase_within_limit, slots_required,
}
use testing_go_moi.Pool.Validation.{refuse, validate_ix}

abbrev pub max_wait_counter : ℕ
max_wait_counter = 10

abbrev pub consensus_nodes_size : ℕ
consensus_nodes_size = 5

pub record IxPool : Type 0 where
  pub all_ixs : Map Interaction
  pub accounts : Map Account
  pub sorted_participants : Map (Unit {0})
  pub gauge : SlotGauge
  pub allotted : Map ℕ
  pub view : ℕ
  pub price_limit : ℕ
  pub prune_signalled : Bool

-- `lookupMap.add`; `none` if the hash is there.
unfoldable pub lookup_add : Map Interaction → Interaction → Option (Map Interaction)
lookup_add all ix = elim (lookup ix.hash all) [
  | some other ↦ none
  | none ↦ some (insert ix.hash ix all)
]

-- `lookupMap.remove`.
unfoldable pub lookup_remove : Map Interaction → List Interaction → Map Interaction
lookup_remove all [] = all
lookup_remove all (ix ∷ ixs) = lookup_remove (delete ix.hash all) ixs

-- The first view from the given one on in which the node at the position leads.
unfoldable pub get_next_view : ℕ → ℕ → ℕ
get_next_view view node_pos =
    let diff_from_start : ℕ = view % consensus_nodes_size in
    let start : ℕ = view - diff_from_start in
    if leb diff_from_start node_pos
    then (start + node_pos) % 2 ^ 64
    else (start + consensus_nodes_size + node_pos) % 2 ^ 64

-- The account whose position counts for a leader candidate.
unfoldable pub leader_meta_info : Services → ℕ → Option AccountMetaInfo
leader_meta_info env id = elim (env.get_account_meta_info id) [
  | none ↦ none
  | some info ↦
      if env.is_participant_variant id
      then env.get_account_meta_info info.inherited_account
      else some info
]

unfoldable pub allocate_one : Services → ℕ → Map ℕ → Interaction → Map ℕ
allocate_one env view allotted ix = elim (leader_meta_info env ix.leader_candidate) [
  | none ↦ allotted
  | some info ↦ elim info.position_in_context_set [
    | none ↦ allotted
    | some position ↦ insert ix.hash (get_next_view view position) allotted
  ]
]

unfoldable pub allocate_view : Services → ℕ → Map ℕ → List Interaction → Map ℕ
allocate_view env view allotted [] = allotted
allocate_view env view allotted (ix ∷ ixns) =
    allocate_view env view (allocate_one env view allotted ix) ixns

unfoldable pub add_senders : Map (Unit {0}) → List Interaction → Map (Unit {0})
add_senders sorted [] = sorted
add_senders sorted (ix ∷ ixns) = add_senders (insert ix.sender_id tt sorted) ixns

unfoldable pub handle_promote_request : Services → IxPool → ℕ → AccountQueue → IxPool
handle_promote_request env pool sender a =
    let r = promote a in
    record pool {
      accounts = put_queue pool.accounts sender r.0;
      sorted_participants = add_senders pool.sorted_participants r.2;
      allotted = allocate_view env ((pool.view + 1) % 2 ^ 64) pool.allotted r.2;
    }

unfoldable pub reset_counter : Map Account → ℕ → Bool → Map Account
reset_counter accounts sender waited = elim (lookup sender accounts) [
  | none ↦ accounts
  | some acc ↦
      if leb max_wait_counter acc.delay_counter && waited
      then insert sender (record acc { delay_counter = 0 }) accounts
      else accounts
]

-- The slots of the interaction that is replaced.
unfoldable pub slots_freed : Option Interaction → ℕ
slots_freed none = 0
slots_freed (some old) = slots_required (old ∷ [])

-- The pool with the changed queue; an interaction that was replaced after its promotion needs a view.
unfoldable pub entered : Services → IxPool → Interaction → AccountQueue × Bool → IxPool
entered env pool ix r =
    let next_view : ℕ = (pool.view + 1) % 2 ^ 64 in
    record pool {
      accounts = put_queue pool.accounts ix.sender_id r.0;
      allotted = if r.1 then allocate_view env next_view pool.allotted (ix ∷ []) else pool.allotted;
    }

-- The interaction goes into the queue of its sender, and is promoted if it is the next one.
unfoldable pub enqueue_ix : Services → IxPool → AccountQueue → Interaction → Bool → IxPool
enqueue_ix env pool a ix replace =
    let r = enqueue a ix replace in
    if ix.sequence_id == r.0.next_sequence_id
    then handle_promote_request env (entered env pool ix r) ix.sender_id r.0
    else entered env pool ix r

unfoldable pub is_some {ℓ} : {A : Type ℓ} → Option A → Bool
is_some none = false
is_some (some a) = true

unfoldable pub remove_old : Map Interaction → Option Interaction → Map Interaction
remove_old all none = all
remove_old all (some old) = lookup_remove all (old ∷ [])

-- The gauge with room for the slots that come in excess of those that go, if the limit allows it.
unfoldable pub raised_gauge : SlotGauge → ℕ → ℕ → SlotGauge × Bool
raised_gauge g allocated freed =
    if ltb freed allocated then increase_within_limit g (allocated - freed) else (g, true)

-- The gauge after the increase is taken back.
unfoldable pub lowered_gauge : SlotGauge → ℕ → ℕ → SlotGauge
lowered_gauge g allocated freed = if ltb freed allocated then decrease g (allocated - freed) else g

-- The gauge after the slots that go in excess of those that come are freed.
unfoldable pub settled_gauge : SlotGauge → ℕ → ℕ → SlotGauge
settled_gauge g allocated freed = if ltb allocated freed then decrease g (freed - allocated) else g

-- The part of `validateAndEnqueueIx` after its checks: the gauge and the maps.
unfoldable pub admit :
    Services
    → Bool
    → IxPool
    → AccountQueue
    → Interaction
    → Option Interaction
    → IxPool × Option PoolError
admit env waited pool a ix old =
    let allocated : ℕ = slots_required (ix ∷ []) in
    let freed : ℕ = slots_freed old in
    let raised = raised_gauge pool.gauge allocated freed in
    if not raised.1 then (pool, some ix_pool_overflow) else elim (lookup_add pool.all_ixs ix) [
      | none ↦ (record pool { gauge = lowered_gauge raised.0 allocated freed }, some already_known)
      | some all ↦ (
        enqueue_ix env
            (record pool {
              gauge = settled_gauge raised.0 allocated freed;
              all_ixs = remove_old all old;
              accounts = reset_counter pool.accounts ix.sender_id waited;
            })
            a ix (is_some old),
        none,
      )
    ]

-- `signalPruning`, if the gauge is above its mark.
unfoldable pub assess_pressure : IxPool → IxPool
assess_pressure pool =
    if high_pressure pool.gauge then record pool { prune_signalled = true } else pool

-- The checks against the sender's queue.
unfoldable pub check_entry : SlotGauge → AccountQueue → Interaction → Option PoolError
check_entry g a ix =
    if high_pressure g && ltb a.next_sequence_id ix.sequence_id
    then some reject_future_ix
    else elim (lookup ix.sequence_id a.sequence_id_to_ix) [
      | none ↦ refuse sequence_id_too_low (ltb ix.sequence_id a.next_sequence_id)
      | some old ↦
          if old.hash == ix.hash
          then some already_known
          else refuse replacement_underpriced (ltb ix.fuel_price old.fuel_price)
    ]

unfoldable pub enter :
    Services → Bool → IxPool → AccountQueue → Interaction → IxPool × Option PoolError
enter env waited pool a ix = elim (check_entry pool.gauge a ix) [
  | some e ↦ (assess_pressure pool, some e)
  | none ↦ admit env waited (assess_pressure pool) a ix (lookup ix.sequence_id a.sequence_id_to_ix)
]

unfoldable pub validate_and_enqueue_ix :
    Services → Bool → IxPool → Interaction → IxPool × Option PoolError
validate_and_enqueue_ix env waited pool ix =
    let r =
      get_or_create_account_queue env pool.accounts ix.sender_id ix.sender_key_id ix.sequence_id in
    elim (validate_ix env pool.price_limit ix) [
      | some e ↦ (pool, some e)
      | none ↦ enter env waited (record pool { accounts = r.0 }) r.1 ix
    ]
