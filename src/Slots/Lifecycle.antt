-- ===== src/Slots/Lifecycle.antt =====
-- A slot's life: `CreateSlotAndLockAccounts`, then `CleanupSlot` (slots.go).
use testing_go_moi.Prelude.Int.{ℤ, pos, ◌+ℤ◌, ◌-ℤ◌, +ℤ_parts, -ℤ_parts, eq_of_parts}
use testing_go_moi.Prelude.{
  ℕ, ◌≡◌, refl, ◌∙◌, Option, none, some, List, [], ◌∷◌, arith, ==_refl, lookup, insert, delete,
  UniqueKeys, Absent-of_lookup, lookup-insert, delete-insert-Absent,
}
use testing_go_moi.Slots.{
  LockType, Slots, Slot, AccountLocks, SlotType, operator_slot, validator_slot, new_slot,
  add_active_account, lock_all, remove_account, clear_active_accounts, cleanup_slot,
  increment_slots, decrement_slots, accounts, create_slot_and_lock_accounts,
}
use testing_go_moi.Slots.Locks.{IsValid}
use testing_go_moi.Slots.Grants.{active-decrement_slots}
use testing_go_moi.Slots.Exclusion.{with_lock, lookup-lock_all}
use testing_go_moi.Slots.Release.{
  HoldsNothing, released_if, release-with_lock, lookup-clear_active_accounts,
}

-- Taking and giving back locks leaves the slots and the counters alone.
abbrev pub SameSlots : Slots → Slots → Type 0
SameSlots t s =
    (t.slots ≡ s.slots)
    × (t.available_operator_slots ≡ s.available_operator_slots)
    × (t.available_validator_slots ≡ s.available_validator_slots)

SameSlots-trans : (s t u : Slots) → SameSlots u t → SameSlots t s → SameSlots u s
SameSlots-trans s t u h k = (h.0 ∙ k.0, h.1 ∙ k.1, h.2 ∙ k.2)

pub lock_all-SameSlots :
    (s : Slots) (locks : AccountLocks) (c : ℕ) → SameSlots (lock_all s locks c) s
unfolding lock_all
lock_all-SameSlots s [] c = (refl, refl, refl)
lock_all-SameSlots s ((id, lock) ∷ locks) c =
    SameSlots-trans s t (lock_all t locks c) (lock_all-SameSlots t locks c) first
  where
    t : Slots
    t = add_active_account s id (record { lock_type = lock; cluster_id = c })

    first : SameSlots t s
    first = unfold add_active_account in ground arith

pub clear_active_accounts-SameSlots :
    (s : Slots) (c : ℕ) (ids : List ℕ) → SameSlots (clear_active_accounts s c ids) s
unfolding clear_active_accounts
clear_active_accounts-SameSlots s c [] = (refl, refl, refl)
clear_active_accounts-SameSlots s c (id ∷ ids) =
    SameSlots-trans s t (clear_active_accounts t c ids) (clear_active_accounts-SameSlots t c ids)
      first
  where
    t : Slots
    t = remove_account s c id

    first : SameSlots t s
    first = unfold remove_account in ground arith

add_sub : (a : ℤ) → a -ℤ pos 1 +ℤ pos 1 ≡ a
add_sub a =
    eq_of_parts (a -ℤ pos 1 +ℤ pos 1) a
      (omega (arith, +ℤ_parts (a -ℤ pos 1) (pos 1), -ℤ_parts a (pos 1)))

-- Both states lock the same accounts in the same way, with the same slots and counters.
abbrev pub SameState : Slots → Slots → Type 0
SameState t s =
    ((id : ℕ) → lookup id t.active_accounts ≡ lookup id s.active_accounts) × SameSlots t s

pub slots-decrement_slots : (s : Slots) (t : SlotType) → (decrement_slots s t).slots ≡ s.slots
unfolding decrement_slots
slots-decrement_slots s operator_slot = refl
slots-decrement_slots s validator_slot = refl

pub slots-increment_slots : (s : Slots) (t : SlotType) → (increment_slots s t).slots ≡ s.slots
unfolding increment_slots
slots-increment_slots s operator_slot = refl
slots-increment_slots s validator_slot = refl

active-increment_slots :
    (s : Slots) (t : SlotType) → (increment_slots s t).active_accounts ≡ s.active_accounts
unfolding increment_slots
active-increment_slots s operator_slot = refl
active-increment_slots s validator_slot = refl

-- A place that was taken and is given back.
place_back :
    (x s : Slots) (t : SlotType)
    → x.available_operator_slots ≡ (decrement_slots s t).available_operator_slots
    → x.available_validator_slots ≡ (decrement_slots s t).available_validator_slots
    → ((increment_slots x t).available_operator_slots ≡ s.available_operator_slots)
      × ((increment_slots x t).available_validator_slots ≡ s.available_validator_slots)
unfolding increment_slots decrement_slots
place_back x s operator_slot p q = (rw p (add_sub s.available_operator_slots), q)
place_back x s validator_slot p q = (p, rw q (add_sub s.available_validator_slots))

module _ (s : Slots) (c : ℕ) (t : SlotType) (locks : AccountLocks) (u : UniqueKeys locks)
    (v : IsValid s) (fresh : lookup c s.slots ≡ none) (idle : HoldsNothing c s) where
  abbrev added : Slots
  added = record s { slots = insert c (new_slot t locks) s.slots }

  abbrev locked : Slots
  locked = lock_all (decrement_slots added t) locks c

  abbrev cleared : Slots
  cleared = clear_active_accounts locked c (accounts locks)

  slots-locked : locked.slots ≡ insert c (new_slot t locks) s.slots
  slots-locked =
      (lock_all-SameSlots (decrement_slots added t) locks c).0 ∙ slots-decrement_slots added t

  created_slot : lookup c locked.slots ≡ some (new_slot t locks)
  created_slot = rw (slots-locked, lookup-insert c c (new_slot t locks) s.slots, ==_refl)

  active-cleared : (id : ℕ) → lookup id cleared.active_accounts ≡ lookup id s.active_accounts
  active-cleared id =
      lookup-clear_active_accounts locked locks c id u
      ∙ (rw (lookup-lock_all (decrement_slots added t) locks c id u, active-decrement_slots added t)
          (back (lookup id locks)))
    where
      back :
          (o : Option LockType)
          → released_if o c (with_lock (lookup id s.active_accounts) o c)
            ≡ lookup id s.active_accounts
      back none = refl
      back (some lock) = release-with_lock c (lookup id s.active_accounts) lock (v id) (idle id)

  cleanup-locked :
      cleanup_slot locked c ≡ increment_slots (record cleared { slots = delete c cleared.slots }) t
  unfolding cleanup_slot new_slot
  cleanup-locked = rw (created_slot, cleanup_slot)

  -- The slots and the counters after the locks are given back.
  cleared-SameSlots : SameSlots cleared (decrement_slots added t)
  cleared-SameSlots =
      SameSlots-trans (decrement_slots added t) locked cleared
        (clear_active_accounts-SameSlots locked c (accounts locks))
        (lock_all-SameSlots (decrement_slots added t) locks c)

  slots-cleared : delete c cleared.slots ≡ s.slots
  slots-cleared =
      rw (cleared-SameSlots.0, slots-decrement_slots added t)
        (delete-insert-Absent c (new_slot t locks) s.slots (Absent-of_lookup c s.slots fresh))

  pub cleanup-locked_restores : SameState (cleanup_slot locked c) s
  cleanup-locked_restores = rw cleanup-locked (
    λ id. rw (active-increment_slots x t) (active-cleared id),
    (slots-increment_slots x t ∙ slots-cleared, back.0, back.1),
  )
    where
      x : Slots
      x = record cleared { slots = delete c cleared.slots }

      back :
          ((increment_slots x t).available_operator_slots ≡ s.available_operator_slots)
          × ((increment_slots x t).available_validator_slots ≡ s.available_validator_slots)
      back = place_back x added t cleared-SameSlots.1 cleared-SameSlots.2

-- A slot that was created is the one that the locking loop leaves.
create-eq-locked :
    (s r : Slots) (c : ℕ) (t : SlotType) (locks : AccountLocks) {slot : Slot}
    → create_slot_and_lock_accounts s c t locks ≡ (r, some slot)
    → r
      ≡ lock_all
          (decrement_slots (record s { slots = insert c (new_slot t locks) s.slots }) t)
          locks
          c
unfolding create_slot_and_lock_accounts
create-eq-locked s r c t locks h = ground arith

-- When a cluster that holds no lock and has no slot creates one and the slot is then cleaned up,
-- every account is locked as before, and the slots and both counters are as before.
pub cleanup-create :
    (s r : Slots) (c : ℕ) (t : SlotType) (locks : AccountLocks) {slot : Slot}
    → UniqueKeys locks
    → IsValid s
    → lookup c s.slots ≡ none
    → HoldsNothing c s
    → create_slot_and_lock_accounts s c t locks ≡ (r, some slot)
    → SameState (cleanup_slot r c) s
cleanup-create s r c t locks u v fresh idle h =
    rw (create-eq-locked s r c t locks h) (cleanup-locked_restores s c t locks u v fresh idle)
