-- ===== src/Safety.antt =====
-- consensus/safety/safety.go, consensus/types/consensus.go: what a node keeps of a view for the next.
--
-- The database is four maps: the accounts' latest tesseracts, the certificates of committed
-- tesseracts, the safety data of accounts and the proposals. A missing key is `ErrKeyNotFound`; the
-- other errors of the database and the wire format are left out, and so are a proposal's receipts.
pub mod Storing
pub mod Locks
pub mod Heights
pub mod Collecting
pub mod Locked
pub mod Keeping
pub mod Commits
pub mod Order
use testing_go_moi.Prelude.{
  ℕ, Bool, true, false, not, ◌&&◌, Option, none, some, List, [], ◌∷◌, ◌++◌, ltb, leb, ◌==◌,
  if◌then◌else◌, Map, lookup, insert, delete,
}
use testing_go_moi.Slots.{LockType, no_lock}
use testing_go_moi.Votes.{prevote}
use testing_go_moi.Height.{Qc}

-- The heights of the participants, and the locks of the consensus info.
pub record Tesseract : Type 0 where
  pub hash : ℕ
  pub interactions_hash : ℕ
  pub participants : Map ℕ
  pub account_locks : Map LockType

pub record SafetyData : Type 0 where
  pub qc : List Qc
  pub ts_hashes : List ℕ
  pub proposal_ts_hash : ℕ

pub record AccountMetaInfo : Type 0 where
  pub height : ℕ
  pub tesseract_hash : ℕ

pub record Store : Type 0 where
  pub accounts : Map AccountMetaInfo
  pub commits : Map Qc
  pub safety_data : Map SafetyData
  pub proposals : Map Tesseract

unfoldable pub last_qc : List Qc → Option Qc
last_qc [] = none
last_qc (qc ∷ qcs) = elim (last_qc qcs) [ none ↦ some qc | some last ↦ some last ]

-- The last entry replaced.
unfoldable pub set_last : List Qc → Qc → List Qc
set_last [] qc = []
set_last (old ∷ qcs) qc =
    let later = set_last qcs qc in elim qcs [ [] ↦ qc ∷ [] | x ∷ xs ↦ old ∷ later ]

unfoldable pub append_qc : SafetyData → Qc → SafetyData
append_qc info qc = record info {
  qc = info.qc ++ qc ∷ [];
  ts_hashes = info.ts_hashes ++ qc.ts_hash ∷ [];
}

unfoldable pub update_qc : SafetyData → Qc → SafetyData
update_qc info qc = elim (last_qc info.qc) [
  | none ↦ append_qc info qc
  | some last ↦
      if ltb last.view qc.view
      then record info { qc = qc ∷ []; ts_hashes = qc.ts_hash ∷ [] }
      else if (last.view == qc.view) && (last.type == prevote)
      then record info { qc = set_last info.qc qc }
      else append_qc info qc
]

-- `none` where the index is out of range.
unfoldable pub last_view : SafetyData → Option ℕ
last_view info = elim (last_qc info.qc) [ none ↦ none | some qc ↦ some qc.view ]

-- The data of an account without any: the certificate of its latest tesseract.
unfoldable pub get_latest_safety_info : Store → ℕ → Option SafetyData
get_latest_safety_info store id = elim (lookup id store.accounts) [
  | none ↦ none
  | some meta ↦ elim (lookup id store.safety_data) [
    | some info ↦ some info
    | none ↦ elim (lookup meta.tesseract_hash store.commits) [
      | none ↦ none
      | some qc ↦
          some (record { qc = qc ∷ []; ts_hashes = meta.tesseract_hash ∷ []; proposal_ts_hash = 0 })
    ]
  ]
]

unfoldable pub updated_data : Option SafetyData → ℕ → Qc → SafetyData
updated_data none ts_hash qc = record {
  qc = qc ∷ [];
  ts_hashes = qc.ts_hash ∷ [];
  proposal_ts_hash = ts_hash;
}
updated_data (some info) ts_hash qc = update_qc info qc

unfoldable pub update_account : Map SafetyData → ℕ → Qc → ℕ → LockType → Map SafetyData
update_account stored ts_hash qc id lock = elim lock [
  | no_lock ↦ stored
  | held ↦ insert id (updated_data (lookup id stored) ts_hash qc) stored
]

-- The loop over the accounts that the tesseract locks.
unfoldable pub update_accounts : Map SafetyData → ℕ → Qc → Map LockType → Map SafetyData
update_accounts stored ts_hash qc [] = stored
update_accounts stored ts_hash qc ((id, lock) ∷ locks) =
    update_accounts (update_account stored ts_hash qc id lock) ts_hash qc locks

unfoldable pub update_safety_info : Store → Tesseract → Qc → Store
update_safety_info store ts qc = record store {
  safety_data = update_accounts store.safety_data ts.hash qc ts.account_locks;
  proposals = if qc.type == prevote then insert ts.hash ts store.proposals else store.proposals;
}

unfoldable pub delete_safety_data : Map SafetyData → Map ℕ → Map SafetyData
delete_safety_data stored [] = stored
delete_safety_data stored ((id, height) ∷ ps) = delete_safety_data (delete id stored) ps

-- Whether the tesseract of an account is stored at the height or above.
unfoldable pub is_passed : Map AccountMetaInfo → Map ℕ → Bool
is_passed accounts [] = false
is_passed accounts ((id, height) ∷ ps) =
    let later = is_passed accounts ps in
    elim (lookup id accounts) [
      | none ↦ later
      | some meta ↦ if leb height meta.height then true else later
    ]

unfoldable pub delete_locked_tesseract_info : Store → Tesseract → Store × Bool
delete_locked_tesseract_info store ts =
    if is_passed store.accounts ts.participants
    then (
      record store {
        proposals = delete ts.hash store.proposals;
        safety_data = delete_safety_data store.safety_data ts.participants;
      },
      true,
    )
    else (store, false)
