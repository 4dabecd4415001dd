-- ===== src/Pool/Batches.antt =====
-- ixpool/ix_batch_registry.go, common/ix_batch.go: the batches of interactions for one view, with no
-- account in two of them.
--
-- The batch id of a search is a type of its own in place of the numbers -1 and -2. A loop over the
-- participants of an interaction follows the association list; the theorems hold for every order.
pub mod Assigning
pub mod Exclusive
use testing_go_moi.Prelude.{
  ℕ, zero, suc, ◌-◌, Bool, true, false, not, ◌&&◌, ◌||◌, Option, none, some, List, [], ◌∷◌, ◌++◌,
  ltb, ◌==◌, if◌then◌else◌, length, get_elem?, set, Map, lookup, insert,
}
use testing_go_moi.Slots.{LockType, no_lock}
use testing_go_moi.Pool.{ParticipantInfo, Interaction}

-- A participant that the interaction locks.
unfoldable pub is_locked : ParticipantInfo → Bool
is_locked info = elim info.lock_type [ no_lock ↦ false | locked ↦ not info.is_genesis ]

pub record IxBatch : Type 0 where
  pub ixs : List Interaction
  pub consensus_nodes_hash : Map (Unit {0})

unfoldable pub new_ixn_batch : IxBatch
new_ixn_batch = record { ixs = []; consensus_nodes_hash = [] }

unfoldable pub hash_of : Map ℕ → ℕ → ℕ
hash_of hashes id = elim (lookup id hashes) [ none ↦ 0 | some hash ↦ hash ]

unfoldable pub add_hashes : Map ℕ → Map (Unit {0}) → Map ParticipantInfo → Map (Unit {0})
add_hashes hashes held [] = held
add_hashes hashes held ((id, info) ∷ ps) =
    add_hashes hashes (if is_locked info then insert (hash_of hashes id) tt held else held) ps

-- `Add`; `none` if the batch has more than a hundred interactions.
unfoldable pub add : IxBatch → Interaction → Map ℕ → Option IxBatch
add b ix hashes =
    if ltb 100 (length b.ixs)
    then none
    else some (record {
      ixs = b.ixs ++ ix ∷ [];
      consensus_nodes_hash = add_hashes hashes b.consensus_nodes_hash ix.participants;
    })

pub record IxBatchRegistry : Type 0 where
  pub participant_batch_lookup : Map ℕ
  pub batches : List IxBatch
  pub consensus_nodes_hash : Map ℕ

unfoldable pub new_batch_registry : IxBatchRegistry
new_batch_registry = record {
  participant_batch_lookup = [];
  batches = [];
  consensus_nodes_hash = [];
}

unfoldable pub add_consensus_nodes_hash : IxBatchRegistry → ℕ → ℕ → IxBatchRegistry
add_consensus_nodes_hash r id hash = record r {
  consensus_nodes_hash = insert id hash r.consensus_nodes_hash;
}

pub data BatchId : Type 0 where
  conflict not_found : BatchId
  batch : ℕ → BatchId

-- Whether each participant with a batch has this one.
unfoldable pub all_in_batch : Map ℕ → ℕ → Map ParticipantInfo → Bool
all_in_batch assigned k [] = true
all_in_batch assigned k ((id, info) ∷ ps) =
    let later = all_in_batch assigned k ps in
    elim (lookup id assigned) [ none ↦ later | some j ↦ if j == k then later else false ]

-- The batch of the first participant that has one.
unfoldable pub first_batch : Map ℕ → Map ParticipantInfo → Option ℕ
first_batch assigned [] = none
first_batch assigned ((id, info) ∷ ps) = elim (lookup id assigned) [
  | none ↦ first_batch assigned ps
  | some k ↦ some k
]

unfoldable pub find_batch_id : IxBatchRegistry → Map ParticipantInfo → BatchId
find_batch_id r ps = elim (first_batch r.participant_batch_lookup ps) [
  | none ↦ not_found
  | some k ↦ if all_in_batch r.participant_batch_lookup k ps then batch k else conflict
]

unfoldable pub append_empty_batch : IxBatchRegistry → IxBatchRegistry
append_empty_batch r = record r { batches = r.batches ++ new_ixn_batch ∷ [] }

-- The locked participants belong to the batch from now on.
unfoldable pub assign : Map ℕ → ℕ → Map ParticipantInfo → Map ℕ
assign assigned k [] = assigned
assign assigned k ((id, info) ∷ ps) =
    assign (if is_locked info then insert id k assigned else assigned) k ps

-- An index out of range, where the code panics, changes nothing.
unfoldable pub add_ix_to_batch : IxBatchRegistry → ℕ → Interaction → IxBatchRegistry × Bool
add_ix_to_batch r k ix = elim (get_elem? r.batches k) [
  | none ↦ (r, false)
  | some b ↦ elim (add b ix r.consensus_nodes_hash) [
    | none ↦ (r, false)
    | some bigger ↦ (
      record r {
        batches = set r.batches k bigger;
        participant_batch_lookup = assign r.participant_batch_lookup k ix.participants;
      },
      true,
    )
  ]
]

unfoldable pub add_ix : IxBatchRegistry → Interaction → IxBatchRegistry × Bool
add_ix r ix = elim (find_batch_id r ix.participants) [
  | conflict ↦ (r, false)
  | not_found ↦ add_ix_to_batch (append_empty_batch r) (length r.batches) ix
  | batch k ↦ add_ix_to_batch r k ix
]
