-- ===== src/Pool/Accounts.antt =====
-- ixpool/account.go: the accounts of the pool, each with a queue for each of its keys.
--
-- The code keeps a pointer to a queue and changes what it points to; here the changed queue is put
-- back under its key.
pub mod Slots
pub mod Queues
pub mod Creation
use testing_go_moi.Prelude.{
  ℕ, Bool, Option, none, some, List, [], ◌∷◌, ◌++◌, ltb, ◌==◌, if◌then◌else◌, Map, lookup, insert,
}
use testing_go_moi.Pool.{Services}
use testing_go_moi.Pool.Account.{AccountQueue, Account, get_queue, insert_queue}

-- `sort.Slice` by the key ids.
unfoldable pub sort_account_queues : List AccountQueue → List AccountQueue
sort_account_queues [] = []
sort_account_queues (q ∷ queues) = insert_queue q (sort_account_queues queues)

-- The queue of the key is the given one from now on.
unfoldable pub set_queue : List AccountQueue → AccountQueue → List AccountQueue
set_queue [] q = []
set_queue (p ∷ queues) q =
    let later = set_queue queues q in if p.key_id == q.key_id then q ∷ queues else p ∷ later

unfoldable pub get_account_queue : Map Account → ℕ → ℕ → Option AccountQueue
get_account_queue accounts id key_id = elim (lookup id accounts) [
  | none ↦ none
  | some acc ↦ get_queue acc.account_queues key_id
]

unfoldable pub put_queue : Map Account → ℕ → AccountQueue → Map Account
put_queue accounts id q = elim (lookup id accounts) [
  | none ↦ accounts
  | some acc ↦ insert id (record acc { account_queues = set_queue acc.account_queues q }) accounts
]

unfoldable pub new_account_queue : ℕ → ℕ → AccountQueue
new_account_queue key_id next = record {
  key_id = key_id;
  enqueued = [];
  promoted = [];
  sequence_id_to_ix = [];
  next_sequence_id = next;
}

-- The accounts with the new queue.
unfoldable pub add_queue : Map Account → ℕ → AccountQueue → Map Account
add_queue accounts id q = elim (lookup id accounts) [
  | none ↦ insert id (record { account_queues = q ∷ []; delay_counter = 0 }) accounts
  | some acc ↦
      insert id (record acc { account_queues = sort_account_queues (acc.account_queues ++ q ∷ []) })
        accounts
]

unfoldable pub get_or_create_account_queue :
    Services → Map Account → ℕ → ℕ → ℕ → Map Account × AccountQueue
get_or_create_account_queue env accounts sender key_id sequence_id =
    elim (get_account_queue accounts sender key_id) [
      | some q ↦ (accounts, q)
      | none ↦
          let next : ℕ = elim (env.get_sequence_id sender key_id) [
            | none ↦ sequence_id
            | some n ↦ n
          ] in
          (add_queue accounts sender (new_account_queue key_id next), new_account_queue key_id next)
    ]
