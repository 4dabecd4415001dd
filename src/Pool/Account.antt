-- ===== src/Pool/Account.antt =====
-- ixpool/account.go: the queues of one key of an account, and the accounts of the pool.
--
-- The sequence ids are uint64, so the next one wraps around. The loop of `promote` runs on fuel; each
-- round takes an interaction off the enqueued queue. The wait times of an account are left out: they
-- are read from the clock. Its counter is kept.
pub mod Promotion
pub mod Contents
pub mod Replacement
pub mod Removal
pub mod Entering
pub mod Keeping
use testing_go_moi.Prelude.{
  ℕ, zero, suc, ◌+◌, ◌%◌, ◌^◌, Bool, true, false, not, ◌||◌, Option, none, some, List, [], ◌∷◌,
  ◌++◌, ltb, ◌==◌, if◌then◌else◌, length, Map, lookup, insert, delete,
}
use testing_go_moi.Pool.{Interaction}
use testing_go_moi.Pool.Queue.{IxQueue, push, peek, pop, prune}

pub record AccountQueue : Type 0 where
  pub key_id : ℕ
  pub enqueued : IxQueue
  pub promoted : IxQueue
  pub sequence_id_to_ix : Map Interaction
  pub next_sequence_id : ℕ

-- `sequenceIDToIXMap.remove`.
unfoldable pub remove : Map Interaction → List Interaction → Map Interaction
remove mapping [] = mapping
remove mapping (ix ∷ ixns) = remove (delete ix.sequence_id mapping) ixns

-- `sequenceIDToIXMap.set`.
unfoldable pub set_ix : Map Interaction → Interaction → Map Interaction
set_ix mapping ix = insert ix.sequence_id ix mapping

-- `replaceInQueue`: the queue with the first interaction of that id replaced, and whether there is one.
unfoldable pub replace_in_queue : IxQueue → Interaction → IxQueue × Bool
replace_in_queue [] ix = ([], false)
replace_in_queue (x ∷ q) ix =
    let rest = replace_in_queue q ix in
    if x.sequence_id == ix.sequence_id then (ix ∷ q, true) else (x ∷ rest.0, rest.1)

-- The result says whether an interaction of the promoted queue was replaced.
unfoldable pub enqueue : AccountQueue → Interaction → Bool → AccountQueue × Bool
enqueue a ix replace =
    let mapping = set_ix a.sequence_id_to_ix ix in
    let waiting = replace_in_queue a.enqueued ix in
    let ready = replace_in_queue a.promoted ix in
    if not replace
    then (record a { sequence_id_to_ix = mapping; enqueued = push a.enqueued ix }, false)
    else if waiting.1
    then (record a { sequence_id_to_ix = mapping; enqueued = waiting.0 }, false)
    else (record a { sequence_id_to_ix = mapping; promoted = ready.0 }, ready.1)

-- The variables of the loop of `promote`.
pub record Promoting : Type 0 where
  pub enqueued : IxQueue
  pub promoted : IxQueue
  pub promoted_ixns : List Interaction
  pub count : ℕ
  pub next : ℕ

-- One round: the interaction goes from one queue to the other.
unfoldable pub promote_head : Promoting → Interaction → IxQueue → Promoting
promote_head p ix rest = record {
  enqueued = rest;
  promoted = push p.promoted ix;
  promoted_ixns = p.promoted_ixns ++ ix ∷ [];
  count = (p.count + 1) % 2 ^ 64;
  next = (p.next + 1) % 2 ^ 64;
}

unfoldable pub promote_loop : ℕ → Promoting → Promoting
promote_loop zero p = p
promote_loop (suc fuel) p = elim (peek p.enqueued) [
  | none ↦ p
  | some ix ↦ elim (ix.sequence_id == p.next) [
    | false ↦ p
    | true ↦ elim (pop p.enqueued) [
      | none ↦ p
      | some (head, rest) ↦ promote_loop fuel (promote_head p head rest)
    ]
  ]
]

-- The account, the number of promoted interactions, and these.
unfoldable pub promote : AccountQueue → AccountQueue × ℕ × List Interaction
promote a = elim (peek a.enqueued) [
  | none ↦ (a, 0, [])
  | some first ↦
      let r = promote_loop (length a.enqueued) (record {
        enqueued = a.enqueued;
        promoted = a.promoted;
        promoted_ixns = [];
        count = 0;
        next = first.sequence_id;
      }) in
      if ltb a.next_sequence_id first.sequence_id then (a, 0, []) else (
        record a {
          enqueued = r.enqueued;
          promoted = r.promoted;
          next_sequence_id = if ltb a.next_sequence_id r.next then r.next else a.next_sequence_id;
        },
        r.count,
        r.promoted_ixns,
      )
]

-- `ResetWithHeaders` on the promoted queue: the interactions below the id go, also from the mapping.
unfoldable pub prune_promoted : AccountQueue → ℕ → List Interaction × AccountQueue
prune_promoted a sequence_id =
    let r = prune a.promoted sequence_id in
    (r.0, record a { promoted = r.1; sequence_id_to_ix = remove a.sequence_id_to_ix r.0 })

-- The same on the enqueued queue.
unfoldable pub prune_enqueued : AccountQueue → ℕ → List Interaction × AccountQueue
prune_enqueued a sequence_id =
    let r = prune a.enqueued sequence_id in
    (r.0, record a { enqueued = r.1; sequence_id_to_ix = remove a.sequence_id_to_ix r.0 })

pub record Account : Type 0 where
  pub account_queues : List AccountQueue
  pub delay_counter : ℕ

unfoldable pub get_queue : List AccountQueue → ℕ → Option AccountQueue
get_queue [] key_id = none
get_queue (q ∷ queues) key_id =
    let later = get_queue queues key_id in if q.key_id == key_id then some q else later

-- One step of the sort by key ids.
unfoldable pub insert_queue : AccountQueue → List AccountQueue → List AccountQueue
insert_queue q [] = q ∷ []
insert_queue q (p ∷ queues) =
    let later = insert_queue q queues in if ltb q.key_id p.key_id then q ∷ p ∷ queues else p ∷ later
