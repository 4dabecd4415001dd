-- ===== src/Slots/Capacity.antt =====
-- How many slots of each kind are taken (slots.go).
use testing_go_moi.Prelude.Int.{pos, is_pos, ◌+ℤ◌, ◌-ℤ◌, +ℤ_parts, -ℤ_parts, eq_of_parts}
use testing_go_moi.Prelude.{
  ℕ, zero, suc, ◌+◌, ◌≡◌, refl, ap, ◌∙◌, inl, inr, true, none, some, [], ◌∷◌, arith, Bool-cases,
  Option-cases, ℕ_discrete, subst, Map, lookup, insert, delete, Absent, UniqueKeys,
  Absent-of_lookup, insert-UniqueKeys, delete-UniqueKeys, delete-Absent,
}
use mathlib.Core.Bool.{false≢true}
use testing_go_moi.Slots.{
  Slots, Slot, AccountLocks, SlotType, operator_slot, validator_slot, new_slot, lock_all,
  are_accounts_active, are_slots_available, cleanup_slot, clear_active_accounts, increment_slots,
  decrement_slots, accounts, create_slot_and_lock_accounts, new_slots,
}
use testing_go_moi.Slots.Lifecycle.{lock_all-SameSlots, clear_active_accounts-SameSlots, SameSlots}

abbrev pub is_operator : SlotType → ℕ
is_operator operator_slot = 1
is_operator validator_slot = 0

-- The number of operator slots that are taken.
unfoldable pub operators : Map Slot → ℕ
operators [] = 0
operators ((c, slot) ∷ m) = is_operator slot.slot_type + operators m

operators-insert :
    (c : ℕ) (slot : Slot) (m : Map Slot)
    → Absent c m
    → operators (insert c slot m) ≡ is_operator slot.slot_type + operators m
unfolding operators insert
operators-insert c slot [] h = refl
operators-insert c slot ((j, w) ∷ m) h = ground (arith, operators-insert c slot m h.1, h.0)

operators-delete :
    (c : ℕ) (slot : Slot) (m : Map Slot)
    → UniqueKeys m
    → lookup c m ≡ some slot
    → is_operator slot.slot_type + operators (delete c m) ≡ operators m
unfolding operators lookup delete
operators-delete c slot [] u h = cc
operators-delete c slot ((j, w) ∷ m) u h = elim (ℕ_discrete j c) [
  | yes e ↦ ground (arith, e, delete-Absent c m (subst (λ k. Absent k m) e u.0))
  | no ne ↦ ground (arith, operators-delete c slot m u.1, ne)
]

-- With `n` operator slots configured: the free ones are not overdrawn, they and the taken ones add up
-- to `n`, and each cluster has one slot.
pub record IsBalanced (n : ℕ) (s : Slots) : Type 0 where
  pub balance :
      (free : ℕ) × (s.available_operator_slots ≡ pos free) × (free + operators s.slots ≡ n)
  pub unique : UniqueKeys s.slots

pub new_slots-IsBalanced : (n validators : ℕ) → IsBalanced n (new_slots n validators)
unfolding new_slots operators
new_slots-IsBalanced n validators = record { balance = (n, refl, omega arith); unique = tt }

-- The counter and the slots after a call, as the two that `IsBalanced` reads.
IsBalanced-of :
    (n free : ℕ) (s : Slots) (m : Map Slot)
    → s.slots ≡ m
    → s.available_operator_slots ≡ pos free
    → free + operators m ≡ n
    → UniqueKeys m
    → IsBalanced n s
IsBalanced-of n free s m e a b u = record { balance = (free, a, rw e b); unique = rw e u }

IsBalanced-same : (n : ℕ) (s t : Slots) → SameSlots t s → IsBalanced n s → IsBalanced n t
IsBalanced-same n s t h b =
    IsBalanced-of n b.balance.0 t s.slots h.0 (h.1 ∙ b.balance.1) b.balance.2 b.unique

take_place : (k : ℕ) → pos (suc k) -ℤ pos 1 ≡ pos k
take_place k = eq_of_parts _ (pos k) (omega (arith, -ℤ_parts (pos (suc k)) (pos 1)))

give_place : (k : ℕ) → pos k +ℤ pos 1 ≡ pos (suc k)
give_place k = eq_of_parts _ (pos (suc k)) (omega (arith, +ℤ_parts (pos k) (pos 1)))

decrement-IsBalanced :
    (n free : ℕ) (s : Slots) (t : SlotType) (m : Map Slot)
    → s.slots ≡ m
    → s.available_operator_slots ≡ pos free
    → free + operators m ≡ n + is_operator t
    → are_slots_available s t ≡ true
    → UniqueKeys m
    → IsBalanced n (decrement_slots s t)
unfolding decrement_slots are_slots_available
decrement-IsBalanced n zero s operator_slot m e a b av u = absurd (false≢true (rw a at av))
decrement-IsBalanced n (suc free) s operator_slot m e a b av u =
    IsBalanced-of n free _ m e (rw a (take_place free)) (omega arith) u
decrement-IsBalanced n free s validator_slot m e a b av u =
    IsBalanced-of n free _ m e a (omega arith) u

increment-IsBalanced :
    (n free : ℕ) (s : Slots) (t : SlotType) (m : Map Slot)
    → s.slots ≡ m
    → s.available_operator_slots ≡ pos free
    → free + operators m + is_operator t ≡ n
    → UniqueKeys m
    → IsBalanced n (increment_slots s t)
unfolding increment_slots
increment-IsBalanced n free s operator_slot m e a b u =
    IsBalanced-of n (suc free) _ m e (rw a (give_place free)) (omega arith) u
increment-IsBalanced n free s validator_slot m e a b u =
    IsBalanced-of n free _ m e a (omega arith) u

available_same :
    (x s : Slots) (t : SlotType)
    → x.available_operator_slots ≡ s.available_operator_slots
    → are_slots_available x t ≡ are_slots_available s t
unfolding are_slots_available
available_same x s operator_slot e = ap is_pos e
available_same x s validator_slot e = refl

-- Creating a slot for a cluster that has none keeps the free and the taken operator slots adding up
-- to the number configured, with none overdrawn and one slot for each cluster, whether the slot is
-- granted or refused.
pub create-IsBalanced :
    (n : ℕ) (s : Slots) (c : ℕ) (t : SlotType) (locks : AccountLocks)
    → lookup c s.slots ≡ none
    → IsBalanced n s
    → IsBalanced n (create_slot_and_lock_accounts s c t locks).0
unfolding create_slot_and_lock_accounts new_slot
create-IsBalanced n s c t locks fresh b = elim (Bool-cases (are_accounts_active s locks)) [
  | inl e ↦ rw (e, create_slot_and_lock_accounts) b
  | inr e ↦ elim (Bool-cases (are_slots_available s t)) [
    | inr f ↦ rw (e, f, create_slot_and_lock_accounts) b
    | inl f ↦
        rw (e, f, create_slot_and_lock_accounts)
          (IsBalanced-same n (decrement_slots added t) (lock_all (decrement_slots added t) locks c)
            (lock_all-SameSlots (decrement_slots added t) locks c)
            (decrement-IsBalanced n b.balance.0 added t added.slots refl b.balance.1
              (omega (arith, b.balance.2, operators-insert c (new_slot t locks) s.slots absent))
              (available_same added s t refl ∙ f)
              (insert-UniqueKeys c (new_slot t locks) s.slots b.unique)))
  ]
]
  where
    added : Slots
    added = record s { slots = insert c (new_slot t locks) s.slots }

    absent : Absent c s.slots
    absent = Absent-of_lookup c s.slots fresh

-- CleanupSlot keeps the same balance, for any cluster.
pub cleanup_slot-IsBalanced :
    (n : ℕ) (s : Slots) (c : ℕ) → IsBalanced n s → IsBalanced n (cleanup_slot s c)
unfolding cleanup_slot
cleanup_slot-IsBalanced n s c b = elim (Option-cases (lookup c s.slots)) [
  | inl e ↦ rw (e, cleanup_slot) b
  | inr (slot, e) ↦
      rw (e, cleanup_slot)
        (increment-IsBalanced n b.balance.0 _ slot.slot_type (delete c s.slots)
          (ap (delete c) (same slot).0) ((same slot).1 ∙ b.balance.1)
          (omega (arith, b.balance.2, operators-delete c slot s.slots b.unique e))
          (delete-UniqueKeys c s.slots b.unique))
]
  where
    same : (slot : Slot) → SameSlots (clear_active_accounts s c (accounts slot.ps)) s
    same slot = clear_active_accounts-SameSlots s c (accounts slot.ps)

-- The slots that calls of `CreateSlotAndLockAccounts`, for clusters without a slot, and of
-- `CleanupSlot` lead to.
pub data Served (n validators : ℕ) : Slots → Type 0 where
  unused : Served n validators (new_slots n validators)
  created :
      (s : Slots) (c : ℕ) (t : SlotType) (locks : AccountLocks)
      → lookup c s.slots ≡ none
      → Served n validators s
      → Served n validators (create_slot_and_lock_accounts s c t locks).0
  cleaned : (s : Slots) (c : ℕ) → Served n validators s → Served n validators (cleanup_slot s c)

-- Whatever slots are created, granted or refused, for clusters without one, and cleaned up, the free
-- and the taken operator slots add up to the number configured, with none overdrawn and one slot for
-- each cluster.
pub Served-IsBalanced : (n validators : ℕ) (s : Slots) → Served n validators s → IsBalanced n s
Served-IsBalanced n validators _ Served.unused = new_slots-IsBalanced n validators
Served-IsBalanced n validators _ (Served.created s c t locks fresh r) =
    create-IsBalanced n s c t locks fresh (Served-IsBalanced n validators s r)
Served-IsBalanced n validators _ (Served.cleaned s c r) =
    cleanup_slot-IsBalanced n s c (Served-IsBalanced n validators s r)
