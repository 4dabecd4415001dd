-- ===== src/Pool.antt =====
-- ixpool: the pool of interactions that wait for a view in which this node may propose them.
--
-- An interaction is what the pool reads of it: the fields of its sender, its fuel price and limit, its
-- size in bytes, its hash, its participants, signatures and operations. Hashes, account identifiers,
-- keys, signed payloads and prices are natural numbers: they are only compared, or handed to a
-- parameter. `NewInteraction` has set `size`, so `Size` returns no error. The mutex of the pool is held
-- from end to end of each operation, but for what `Pop` and `Drop` fetch first (Pool/Leaving). Metrics,
-- events and logging are left out, and so is the clock.
pub mod Queue
pub mod Account
pub mod Gauge
pub mod Validation
pub mod Accounts
pub mod Entry
pub mod Leaving
pub mod Runs
pub mod Cache
pub mod Batches
pub mod Selection
pub mod Offering
use testing_go_moi.Prelude.{ℕ, Bool, Option, List, Map}
use testing_go_moi.Prelude.Int.{ℤ}
use testing_go_moi.Slots.{LockType}

pub record ParticipantInfo : Type 0 where
  pub is_genesis : Bool
  pub lock_type : LockType

pub record Signature : Type 0 where
  pub id : ℕ
  pub key_id : ℕ
  pub signature : ℕ

pub record IxParticipant : Type 0 where
  pub id : ℕ
  pub notary : Bool

pub record Interaction : Type 0 where
  pub sender_id : ℕ
  pub sender_key_id : ℕ
  pub sequence_id : ℕ
  pub fuel_price : ℕ
  pub fuel_limit : ℕ
  pub size : ℕ
  pub hash : ℕ
  pub leader_candidate : ℕ
  pub participants : Map ParticipantInfo
  pub ix_participants : List IxParticipant
  pub signatures : List Signature
  pub payload : Option ℕ
  pub ops : List ℕ

pub data PoolError : Type 0 where
  oversized_data invalid_identifier underpriced insufficient_funds account_not_found : PoolError
  invalid_sender_signature invalid_ix_signature invalid_weight invalid_key_id : PoolError
  payload_failed keys_not_found public_key_not_found invalid_operation : PoolError
  sequence_id_too_low reject_future_ix already_known replacement_underpriced : PoolError
  ix_pool_overflow : PoolError

pub record AccountKey : Type 0 where
  pub weight : ℕ
  pub revoked : Bool

-- `none` for a position is `NodeNotFound`.
pub record AccountMetaInfo : Type 0 where
  pub inherited_account : ℕ
  pub position_in_context_set : Option ℕ
  pub consensus_nodes_hash : ℕ

-- What the pool calls: the interface `stateManager`, the signature verifier, the identifier's bits and
-- the checks of an operation's payload. `none` is an error; the sequence id and the balance that come
-- with an error are 0.
pub record Services : Type 0 where
  pub get_sequence_id : ℕ → ℕ → Option ℕ
  pub get_balance : ℕ → ℕ
  pub get_account_keys : ℕ → Option (List AccountKey)
  pub get_public_key : ℕ → ℕ → Option ℕ
  pub is_account_registered : ℕ → Option Bool
  pub get_account_meta_info : ℕ → Option AccountMetaInfo
  pub verifier : ℕ → ℕ → ℕ → Option Bool
  pub is_participant_variant : ℕ → Bool
  pub validate_operation : Interaction → ℕ → ℕ → Option PoolError
