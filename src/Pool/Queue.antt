-- ===== src/Pool/Queue.antt =====
-- ixpool/queue.go: the queue of an account's interactions by sequence id, and those by price.
pub mod Pruning
use testing_go_moi.Prelude.{
  ℕ, zero, suc, ◌^◌, ◌%◌, Bool, true, false, Option, none, some, List, [], ◌∷◌, ltb, leb, ◌==◌,
  if◌then◌else◌, length, get_elem?,
}
use testing_go_moi.Pool.{Interaction}
use testing_go_moi.Heap

-- `Less` of `minSequenceIDQueue`.
unfoldable pub less : Interaction → Interaction → Bool
less a b = ltb a.sequence_id b.sequence_id

-- `Less` of `maxPriceQueue`: `Uint64` keeps the low 64 bits of a price.
unfoldable pub pricier : Interaction → Interaction → Bool
pricier a b = ltb (b.fuel_price % 2 ^ 64) (a.fuel_price % 2 ^ 64)

-- The slice under the heap.
abbrev pub IxQueue : Type 0
IxQueue = List Interaction

unfoldable pub push : IxQueue → Interaction → IxQueue
push q ix = Heap.push less q ix

unfoldable pub peek : IxQueue → Option Interaction
peek q = if length q == 0 then none else get_elem? q 0

unfoldable pub pop : IxQueue → Option (Interaction × IxQueue)
pop q = if length q == 0 then none else Heap.pop less q

-- The loop of `prune`, on fuel: the interactions that it pops, and the queue that is left.
unfoldable pub prune_loop : ℕ → IxQueue → ℕ → List Interaction × IxQueue
prune_loop zero q sequence_id = ([], q)
prune_loop (suc fuel) q sequence_id = elim (peek q) [
  | none ↦ ([], q)
  | some ix ↦ elim (leb sequence_id ix.sequence_id) [
    | true ↦ ([], q)
    | false ↦ elim (pop q) [
      | none ↦ ([], q)
      | some (head, rest) ↦
          let later = prune_loop fuel rest sequence_id in (head ∷ later.0, later.1)
    ]
  ]
]

unfoldable pub prune : IxQueue → ℕ → List Interaction × IxQueue
prune q sequence_id = prune_loop (length q) q sequence_id

-- The interactions that were in the queue, and the empty queue.
unfoldable pub clear : IxQueue → List Interaction × IxQueue
clear q = (q, [])

unfoldable pub priced_push : IxQueue → Interaction → IxQueue
priced_push q ix = Heap.push pricier q ix

unfoldable pub priced_pop : IxQueue → Option (Interaction × IxQueue)
priced_pop q = if length q == 0 then none else Heap.pop pricier q
