-- ===== src/Pool/Leaving.antt =====
-- ixpool/ixpool.go: how interactions leave the pool, when they are executed, dropped or pruned.
--
-- A nil dereference, where the code panics, is `none`. `removeSequenceIDHoleAccounts` walks the
-- accounts in the order of the association list. `Pop` and `Drop` fetch the queue, and `Drop` the state's
-- sequence id too, before they take the mutex; each is one step here.
pub mod Cleanup
pub mod Resetting
pub mod Holes
use testing_go_moi.Prelude.{
  ℕ, zero, suc, ◌+◌, ◌-◌, ◌%◌, ◌^◌, Bool, true, false, not, ◌&&◌, Option, none, some, List, [], ◌∷◌,
  ltb, leb, ◌==◌, if◌then◌else◌, Map, lookup, insert, delete,
}
use testing_go_moi.Pool.{Interaction, Services}
use testing_go_moi.Pool.Queue.{peek, clear}
use testing_go_moi.Pool.Queue as Queue
use testing_go_moi.Pool.Account.{AccountQueue, Account, remove, prune_promoted, prune_enqueued}
use testing_go_moi.Pool.Accounts.{get_account_queue, put_queue}
use testing_go_moi.Pool.Gauge.{SlotGauge, decrease, slots_required}
use testing_go_moi.Pool.Validation.{state_sequence_id}
use testing_go_moi.Pool.Entry.{IxPool, lookup_remove, handle_promote_request}

-- The closure `cleanup`: the interactions leave the lookup map, and their slots are free.
unfoldable pub cleanup : IxPool → List Interaction → IxPool
cleanup pool ixns = record pool {
  all_ixs = lookup_remove pool.all_ixs ixns;
  gauge = decrease pool.gauge (slots_required ixns);
}

-- `Pop` takes the first promoted interaction of the account, whichever it is asked for.
unfoldable pub pop : IxPool → Interaction → Option IxPool
pop pool ix = elim (get_account_queue pool.accounts ix.sender_id ix.sender_key_id) [
  | none ↦ none
  | some a ↦ elim (Queue.pop a.promoted) [
    | none ↦ none
    | some (head, rest) ↦ some (record pool {
      gauge = decrease pool.gauge (slots_required (head ∷ []));
      accounts = put_queue pool.accounts ix.sender_id (record a {
        promoted = rest;
        sequence_id_to_ix = remove a.sequence_id_to_ix (head ∷ []);
      });
    })
  ]
]

-- The queue of the account after a drop.
unfoldable pub dropped_queue : AccountQueue → ℕ → AccountQueue
dropped_queue a sequence_id = record a {
  next_sequence_id = sequence_id;
  sequence_id_to_ix = [];
  promoted = (clear a.promoted).1;
  enqueued = (clear a.enqueued).1;
}

unfoldable pub drop : Services → IxPool → Interaction → IxPool
drop env pool ix = elim (get_account_queue pool.accounts ix.sender_id ix.sender_key_id) [
  | none ↦ pool
  | some a ↦
      if ltb ix.sequence_id (state_sequence_id env ix.sender_id ix.sender_key_id)
      then pool
      else cleanup
          (cleanup
            (record pool {
              accounts = put_queue pool.accounts ix.sender_id (dropped_queue a ix.sequence_id);
            })
            (clear a.promoted).0)
          (clear a.enqueued).0
]

-- The counter of the account starts again, since some of its interactions were executed.
unfoldable pub zero_counter : Map Account → ℕ → Map Account
zero_counter accounts id = elim (lookup id accounts) [
  | none ↦ accounts
  | some acc ↦ insert id (record acc { delay_counter = 0 }) accounts
]

-- The promoted interactions below the state's sequence id go.
unfoldable pub reset_promoted : IxPool → ℕ → AccountQueue → ℕ → IxPool
reset_promoted pool sender a latest =
    let r = prune_promoted a latest in
    let pruned : IxPool = record pool { accounts = put_queue pool.accounts sender r.1 } in
    let cleaned = cleanup pruned r.0 in
    elim r.0 [
      | [] ↦ pruned
      | ix ∷ ixns ↦ record cleaned {
        accounts = zero_counter cleaned.accounts sender;
        sorted_participants = elim (peek r.1.promoted) [
          | none ↦ delete sender cleaned.sorted_participants
          | some first ↦ cleaned.sorted_participants
        ];
      }
    ]

-- The enqueued interactions below the state's sequence id go, and the account catches up with it.
unfoldable pub catch_up : IxPool → ℕ → AccountQueue → ℕ → IxPool
catch_up pool sender a latest =
    let r = prune_enqueued a latest in
    let pruned : IxPool = record pool {
      accounts = put_queue pool.accounts sender (record r.1 { next_sequence_id = latest });
    } in
    let cleaned = cleanup pruned r.0 in elim r.0 [ [] ↦ pruned | ix ∷ ixns ↦ cleaned ]

-- If the first of those that are left is due, it is promoted.
unfoldable pub reset_enqueued : Services → IxPool → ℕ → AccountQueue → ℕ → IxPool
reset_enqueued env pool sender a latest =
    let b : AccountQueue = record (prune_enqueued a latest).1 { next_sequence_id = latest } in
    let result = catch_up pool sender a latest in
    elim (peek b.enqueued) [
      | none ↦ result
      | some first ↦
          if first.sequence_id == latest then handle_promote_request env result sender b else result
    ]

unfoldable pub reset_queue : Services → IxPool → ℕ → AccountQueue → ℕ → IxPool
reset_queue env pool sender a latest =
    let first = reset_promoted pool sender a latest in
    if leb latest a.next_sequence_id
    then first
    else reset_enqueued env first sender (prune_promoted a latest).1 latest

-- The sequence id that the state has after the tesseract.
unfoldable pub latest_sequence_id : Services → Interaction → ℕ
latest_sequence_id env ix = elim (env.get_sequence_id ix.sender_id ix.sender_key_id) [
  | none ↦ (ix.sequence_id + 1) % 2 ^ 64
  | some n ↦ n
]

-- The loop over the interactions of the tesseract. A sender counts as processed whatever its key.
unfoldable pub reset_loop : Services → IxPool → Map ℕ → List Interaction → Option IxPool
reset_loop env pool processed [] = some pool
reset_loop env pool processed (ix ∷ ixs) =
    let latest = latest_sequence_id env ix in
    let marked = insert ix.sender_id latest processed in
    elim (lookup ix.sender_id processed) [
      | some other ↦ reset_loop env pool processed ixs
      | none ↦ elim (lookup ix.sender_id pool.accounts) [
        | none ↦ reset_loop env pool marked ixs
        | some acc ↦ elim (get_account_queue pool.accounts ix.sender_id ix.sender_key_id) [
          | none ↦ none
          | some a ↦ reset_loop env (reset_queue env pool ix.sender_id a latest) marked ixs
        ]
      ]
    ]

-- On the interactions of the tesseract.
unfoldable pub reset_with_headers : Services → IxPool → List Interaction → Option IxPool
reset_with_headers env pool [] = some pool
reset_with_headers env pool (ix ∷ ixs) =
    reset_loop env (record pool { all_ixs = lookup_remove pool.all_ixs (ix ∷ ixs) }) [] (ix ∷ ixs)

-- A queue whose first enqueued interaction is not the next one is emptied.
unfoldable pub has_hole : AccountQueue → Bool
has_hole a = elim (peek a.enqueued) [
  | none ↦ false
  | some first ↦ not (first.sequence_id == a.next_sequence_id)
]

unfoldable pub drop_hole : AccountQueue → AccountQueue × List Interaction
drop_hole a =
    if has_hole a
    then (
      record a {
        enqueued = (clear a.enqueued).1;
        sequence_id_to_ix = remove a.sequence_id_to_ix (clear a.enqueued).0;
      },
      (clear a.enqueued).0,
    )
    else (a, [])

-- The state that the loops over the queues change: the lookup map and the gauge.
abbrev pub Freed : Type 0
Freed = Map Interaction × SlotGauge

unfoldable pub free : Freed → List Interaction → Freed
free s ixns = (lookup_remove s.0 ixns, decrease s.1 (slots_required ixns))

unfoldable pub drop_queue_holes : Freed → List AccountQueue → List AccountQueue × Freed
drop_queue_holes s [] = ([], s)
drop_queue_holes s (a ∷ queues) =
    let later = drop_queue_holes (if has_hole a then free s (drop_hole a).1 else s) queues in
    ((drop_hole a).0 ∷ later.0, later.1)

unfoldable pub drop_account_holes : Freed → Map Account → Map Account × Freed
drop_account_holes s [] = ([], s)
drop_account_holes s ((id, acc) ∷ accounts) =
    let r = drop_queue_holes s acc.account_queues in
    let later = drop_account_holes r.1 accounts in
    ((id, record acc { account_queues = r.0 }) ∷ later.0, later.1)

unfoldable pub remove_sequence_id_hole_accounts : IxPool → IxPool
remove_sequence_id_hole_accounts pool =
    let r = drop_account_holes (pool.all_ixs, pool.gauge) pool.accounts in
    record pool { accounts = r.0; all_ixs = r.1.0; gauge = r.1.1 }
