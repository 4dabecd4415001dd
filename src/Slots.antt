-- ===== src/Slots.antt =====
-- consensus/types/slots.go: the consensus slots of a node and the account locks that they hold.
--
-- Account identifiers and cluster ids are only compared, so natural numbers stand for them. A Go map
-- is an association list without repeated keys; a loop over one follows that list, so each theorem
-- covers every order. The two counters of free slots are integers: the code lets the one of
-- validator slots fall below 0. The mutex is held from end to end of every method. The channels of a
-- slot, its start time and its cluster state are left out: the methods here only create or close
-- them. Logging is left out.
pub mod Locks
pub mod Grants
pub mod Exclusion
pub mod Release
pub mod Lifecycle
pub mod Capacity
use testing_go_moi.Prelude.Int.{ℤ, pos, is_pos, ◌+ℤ◌, ◌-ℤ◌}
use testing_go_moi.Prelude.{
  ℕ, zero, suc, Bool, true, false, not, ◌||◌, Option, none, some, List, [], ◌∷◌, ◌++◌, map, ◌==◌,
  if◌then◌else◌, length, Map, lookup, insert, delete,
}

pub data LockType : Type 0 where
  mutate_lock read_lock no_lock : LockType

pub data SlotType : Type 0 where
  operator_slot validator_slot : SlotType

-- A Go map from accounts to the lock that is wanted on each.
abbrev pub AccountLocks : Type 0
AccountLocks = Map LockType

pub record Slot : Type 0 where
  pub slot_type : SlotType
  pub ps : AccountLocks
  pub stage : ℕ

pub record LockInfo : Type 0 where
  pub lock_type : LockType
  pub cluster_id : ℕ

pub record Slots : Type 0 where
  pub slots : Map Slot
  pub available_operator_slots : ℤ
  pub available_validator_slots : ℤ
  pub active_accounts : Map (List LockInfo)

unfoldable pub new_slot : SlotType → AccountLocks → Slot
new_slot t ps = record { slot_type = t; ps = ps; stage = 0 }

-- `CompareAndSwap` on the stage: the new slot, and whether it was swapped.
unfoldable pub update_stage : Slot → ℕ → ℕ → Slot × Bool
update_stage s old new = if s.stage == old then (record s { stage = new }, true) else (s, false)

unfoldable pub new_slots : ℕ → ℕ → Slots
new_slots operators validators = record {
  slots = [];
  available_operator_slots = pos operators;
  available_validator_slots = pos validators;
  active_accounts = [];
}

unfoldable pub len : Slots → ℕ
len s = length s.slots

-- Whether the locks held on an account refuse the one wanted: only the first lock is looked at.
-- (An empty list of locks would panic; the invariant of Slots/Locks excludes it.)
unfoldable pub refuses : List LockInfo → LockType → Bool
refuses [] wanted = false
refuses (info ∷ infos) wanted = elim info.lock_type [
  | mutate_lock ↦ true
  | read_lock ↦ elim wanted [ mutate_lock ↦ true | _ ↦ false ]
  | no_lock ↦ false
]

unfoldable pub refuses_held : Option (List LockInfo) → LockType → Bool
refuses_held none wanted = false
refuses_held (some infos) wanted = refuses infos wanted

unfoldable pub are_accounts_active : Slots → AccountLocks → Bool
are_accounts_active s [] = false
are_accounts_active s ((id, wanted) ∷ locks) =
    let rest = are_accounts_active s locks in
    if refuses_held (lookup id s.active_accounts) wanted then true else rest

abbrev pub held_locks : Option (List LockInfo) → List LockInfo
held_locks none = []
held_locks (some infos) = infos

abbrev pub is_no_lock : LockType → Bool
is_no_lock no_lock = true
is_no_lock _ = false

unfoldable pub add_active_account : Slots → ℕ → LockInfo → Slots
add_active_account s id info = if is_no_lock info.lock_type then s else record s {
  active_accounts =
      insert id (held_locks (lookup id s.active_accounts) ++ info ∷ []) s.active_accounts;
}

-- The loop that `AddActiveAccounts` and `CreateSlotAndLockAccounts` share.
unfoldable pub lock_all : Slots → AccountLocks → ℕ → Slots
lock_all s [] cluster = s
lock_all s ((id, lock) ∷ locks) cluster =
    lock_all (add_active_account s id (record { lock_type = lock; cluster_id = cluster })) locks
      cluster

unfoldable pub add_active_accounts : Slots → AccountLocks → ℕ → Slots × Bool
add_active_accounts s locks cluster =
    if are_accounts_active s locks then (s, false) else (lock_all s locks cluster, true)

-- `infos[i] = infos[len-1]; infos = infos[:len-1]` for what follows the removed entry.
unfoldable pub last_to_front : List LockInfo → List LockInfo → List LockInfo
last_to_front done [] = []
last_to_front done (x ∷ []) = x ∷ done
last_to_front done (x ∷ y ∷ rest) = last_to_front (done ++ x ∷ []) (y ∷ rest)

unfoldable pub swap_remove : ℕ → List LockInfo → List LockInfo
swap_remove cluster [] = []
swap_remove cluster (x ∷ rest) =
    let kept = swap_remove cluster rest in
    if x.cluster_id == cluster then last_to_front [] rest else x ∷ kept

-- What `removeAccount` makes of the locks of an account: none, if the key is deleted.
unfoldable pub release : ℕ → List LockInfo → Option (List LockInfo)
release cluster [] = some []
release cluster (x ∷ []) = if x.cluster_id == cluster then none else some (x ∷ [])
release cluster (x ∷ y ∷ rest) = some (swap_remove cluster (x ∷ y ∷ rest))

unfoldable pub store_locks : ℕ → Option (List LockInfo) → Map (List LockInfo) → Map (List LockInfo)
store_locks id none m = delete id m
store_locks id (some infos) m = insert id infos m

unfoldable pub remove_account : Slots → ℕ → ℕ → Slots
remove_account s cluster id = elim (lookup id s.active_accounts) [
  | none ↦ s
  | some infos ↦ record s {
    active_accounts = store_locks id (release cluster infos) s.active_accounts;
  }
]

unfoldable pub clear_active_accounts : Slots → ℕ → List ℕ → Slots
clear_active_accounts s cluster [] = s
clear_active_accounts s cluster (id ∷ ids) =
    clear_active_accounts (remove_account s cluster id) cluster ids

unfoldable pub increment_slots : Slots → SlotType → Slots
increment_slots s operator_slot = record s {
  available_operator_slots = s.available_operator_slots +ℤ pos 1;
}
increment_slots s validator_slot = record s {
  available_validator_slots = s.available_validator_slots +ℤ pos 1;
}

unfoldable pub decrement_slots : Slots → SlotType → Slots
decrement_slots s operator_slot = record s {
  available_operator_slots = s.available_operator_slots -ℤ pos 1;
}
decrement_slots s validator_slot = record s {
  available_validator_slots = s.available_validator_slots -ℤ pos 1;
}

abbrev pub accounts : AccountLocks → List ℕ
accounts [] = []
accounts ((id, lock) ∷ locks) = id ∷ accounts locks

-- `CleanupSlot`: the locks of the slot's accounts, the slot itself and its place are given back.
unfoldable pub cleanup_slot : Slots → ℕ → Slots
cleanup_slot s cluster = elim (lookup cluster s.slots) [
  | none ↦ s
  | some slot ↦
      let t = clear_active_accounts s cluster (accounts slot.ps) in
      increment_slots (record t { slots = delete cluster t.slots }) slot.slot_type
]

unfoldable pub are_accounts_available : Slots → AccountLocks → Bool
are_accounts_available s locks = not (are_accounts_active s locks)

unfoldable pub are_slots_available : Slots → SlotType → Bool
are_slots_available s operator_slot = is_pos s.available_operator_slots
are_slots_available s validator_slot = true

unfoldable pub get_slot : Slots → ℕ → Option Slot
get_slot s cluster = lookup cluster s.slots

-- The new state, and the slot; the second result of the source, a cluster id, is always empty.
unfoldable pub create_slot_and_lock_accounts :
    Slots → ℕ → SlotType → AccountLocks → Slots × Option Slot
create_slot_and_lock_accounts s cluster t locks =
    if are_accounts_active s locks
    then (s, none)
    else if not (are_slots_available s t)
    then (s, none)
    else let added = record s { slots = insert cluster (new_slot t locks) s.slots } in
      let locked = lock_all (decrement_slots added t) locks cluster in
      (locked, lookup cluster locked.slots)
