-- ===== src/Examples/Slots.antt =====
-- A node with two operator slots and one validator slot (slots.go).
use testing_go_moi.Prelude.{ℕ, ◌≡◌, refl, none, some, [], ◌∷◌, arith, lookup, insert, UniqueKeys}
use testing_go_moi.Slots.{
  mutate_lock, read_lock, operator_slot, validator_slot, LockInfo, Slots, AccountLocks, new_slot,
  new_slots, are_accounts_active, add_active_account, lock_all, decrement_slots, refuses,
  refuses_held, cleanup_slot, are_slots_available, create_slot_and_lock_accounts,
}
use testing_go_moi.Slots.Exclusion.{
  Reach, here, next, create, Reach-IsValid, new_slots-IsValid, two_locks_read, with_lock,
  lookup-lock_all,
}
use testing_go_moi.Slots.Release.{HoldsNothing}
use testing_go_moi.Slots.Lifecycle.{SameState, cleanup-create}
use testing_go_moi.Slots.Capacity.{IsBalanced, Served, Served-IsBalanced}

-- Accounts 10 and 11 are to be read, and 12 is to be changed.
abbrev reading : AccountLocks
reading = (10, read_lock) ∷ (11, read_lock) ∷ []

abbrev mixed : AccountLocks
mixed = (11, read_lock) ∷ (12, mutate_lock) ∷ []

reading-UniqueKeys : UniqueKeys reading
reading-UniqueKeys = ((λ e. omega arith, tt), (tt, tt))

mixed-UniqueKeys : UniqueKeys mixed
mixed-UniqueKeys = ((λ e. omega arith, tt), (tt, tt))

abbrev start : Slots
start = new_slots 2 1

abbrev one : Slots
one = (create_slot_and_lock_accounts start 1 operator_slot reading).0

abbrev two : Slots
two = (create_slot_and_lock_accounts one 2 validator_slot mixed).0

one-Reach : Reach start one
one-Reach = next here (create 1 operator_slot reading reading-UniqueKeys)

two-Reach : Reach start two
two-Reach = next one-Reach (create 2 validator_slot mixed mixed-UniqueKeys)

abbrev reader : ℕ → LockInfo
reader c = record { lock_type = read_lock; cluster_id = c }

-- Account 11 is read by both clusters.
shared : lookup 11 two.active_accounts ≡ some (reader 1 ∷ reader 2 ∷ [])
unfolding lookup insert create_slot_and_lock_accounts are_accounts_active refuses_held refuses
    are_slots_available decrement_slots lock_all add_active_account new_slots new_slot
shared = refl

two_locks_read_example : ((reader 1).lock_type ≡ read_lock) × ((reader 2).lock_type ≡ read_lock)
two_locks_read_example =
    two_locks_read 2 1 11 0 1 {x = reader 1} {y = reader 2} two-Reach shared (λ e. omega arith) refl
      refl

lookup-lock_all_example :
    lookup 12 (lock_all one mixed 2).active_accounts
    ≡ with_lock (lookup 12 one.active_accounts) (lookup 12 mixed) 2
lookup-lock_all_example = lookup-lock_all one mixed 2 12 mixed-UniqueKeys

no_slot : lookup 2 one.slots ≡ none
unfolding lookup insert create_slot_and_lock_accounts are_accounts_active refuses_held refuses
    are_slots_available decrement_slots lock_all add_active_account new_slots new_slot
no_slot = refl

idle : HoldsNothing 2 one
unfolding lookup insert create_slot_and_lock_accounts are_accounts_active refuses_held refuses
    are_slots_available decrement_slots lock_all add_active_account new_slots new_slot
idle k = ground arith

created :
    create_slot_and_lock_accounts one 2 validator_slot mixed
    ≡ (two, some (new_slot validator_slot mixed))
unfolding lookup insert create_slot_and_lock_accounts are_accounts_active refuses_held refuses
    are_slots_available decrement_slots lock_all add_active_account new_slots new_slot
created = refl

cleanup-create_example : SameState (cleanup_slot two 2) one
cleanup-create_example =
    cleanup-create one two 2 validator_slot mixed mixed-UniqueKeys
      (Reach-IsValid (new_slots-IsValid 2 1) one-Reach) no_slot idle created

first_slot : lookup 1 start.slots ≡ none
unfolding lookup new_slots
first_slot = refl

one-Served : Served 2 1 one
one-Served = Served.created start 1 operator_slot reading first_slot Served.unused

Served-IsBalanced_example : IsBalanced 2 (cleanup_slot one 1)
Served-IsBalanced_example =
    Served-IsBalanced 2 1 (cleanup_slot one 1) (Served.cleaned one 1 one-Served)
