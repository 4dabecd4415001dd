-- ===== src/Slots/Grants.antt =====
-- Taking locks and giving them back keeps the account locks compatible (slots.go).
use testing_go_moi.Prelude.{
  ℕ, ◌≡◌, ◌≢◌, refl, sym, inl, inr, false, Option, none, some, List, [], ◌∷◌, ◌++◌, arith,
  Bool-cases, Option-cases, ℕ_discrete, subst, lookup, insert, lookup-insert, Absent, UniqueKeys,
}
use testing_go_moi.Slots.{
  LockType, mutate_lock, read_lock, no_lock, LockInfo, Slots, AccountLocks, SlotType, refuses_held,
  are_accounts_active, held_locks, add_active_account, lock_all, add_active_accounts, operator_slot,
  validator_slot, increment_slots, decrement_slots, cleanup_slot, accounts,
  create_slot_and_lock_accounts, are_slots_available, new_slot,
}
use testing_go_moi.Slots.Locks.{
  IsHeld, HeldOption, IsValid, join-IsHeld, clear_active_accounts-IsValid,
}

-- None of the wanted locks is refused.
abbrev pub IsGranted : Slots → AccountLocks → Type 0
IsGranted s [] = Unit {0}
IsGranted s ((id, lock) ∷ locks) =
    (refuses_held (lookup id s.active_accounts) lock ≡ false) × IsGranted s locks

pub IsGranted-of_inactive :
    (s : Slots) (locks : AccountLocks) → are_accounts_active s locks ≡ false → IsGranted s locks
unfolding are_accounts_active
IsGranted-of_inactive s [] h = tt
IsGranted-of_inactive s ((id, lock) ∷ locks) h = ground (arith, IsGranted-of_inactive s locks)

-- `addActiveAccount` touches no account but its own.
pub lookup-add_active_account_ne :
    (s : Slots) (id k : ℕ) (info : LockInfo)
    → id ≢ k
    → lookup k (add_active_account s id info).active_accounts ≡ lookup k s.active_accounts
unfolding add_active_account
lookup-add_active_account_ne s id k info ne = ground (
  arith,
  lookup-insert id k (held_locks (lookup id s.active_accounts) ++ info ∷ []) s.active_accounts,
)

pub lookup-add_active_account :
    (s : Slots) (id : ℕ) (info : LockInfo)
    → info.lock_type ≢ no_lock
    → lookup id (add_active_account s id info).active_accounts
      ≡ some (held_locks (lookup id s.active_accounts) ++ info ∷ [])
unfolding add_active_account
lookup-add_active_account s id info h = ground (
  arith,
  lookup-insert id id (held_locks (lookup id s.active_accounts) ++ info ∷ []) s.active_accounts,
)

add_none :
    (s : Slots) (id c : ℕ)
    → add_active_account s id (record { lock_type = no_lock; cluster_id = c }) ≡ s
unfolding add_active_account
add_none s id c = refl

added-HeldOption :
    (o : Option (List LockInfo)) (info : LockInfo)
    → HeldOption o
    → info.lock_type ≢ no_lock
    → refuses_held o info.lock_type ≡ false
    → IsHeld (held_locks o ++ info ∷ [])
unfolding refuses_held
added-HeldOption none info h k r = k
added-HeldOption (some infos) info h k r = join-IsHeld infos info h k r

real_lock-IsValid :
    (s : Slots) (id : ℕ) (info : LockInfo)
    → IsValid s
    → info.lock_type ≢ no_lock
    → refuses_held (lookup id s.active_accounts) info.lock_type ≡ false
    → IsValid (add_active_account s id info)
real_lock-IsValid s id info v h r k = elim (ℕ_discrete id k) [
  | yes e ↦
      subst (λ j. HeldOption (lookup j (add_active_account s id info).active_accounts)) e
        (rw (lookup-add_active_account s id info h)
          (added-HeldOption (lookup id s.active_accounts) info (v id) h r))
  | no ne ↦ rw (lookup-add_active_account_ne s id k info ne) (v k)
]

add_active_account-IsValid :
    (s : Slots) (id c : ℕ) (lock : LockType)
    → IsValid s
    → refuses_held (lookup id s.active_accounts) lock ≡ false
    → IsValid (add_active_account s id (record { lock_type = lock; cluster_id = c }))
add_active_account-IsValid s id c no_lock v r = rw (add_none s id c) v
add_active_account-IsValid s id c mutate_lock v r = real_lock-IsValid s id _ v (λ e. cc) r
add_active_account-IsValid s id c read_lock v r = real_lock-IsValid s id _ v (λ e. cc) r

-- The locks of the accounts to come are judged as before.
add_active_account-IsGranted :
    (s : Slots) (id : ℕ) (info : LockInfo) (locks : AccountLocks)
    → Absent id locks
    → IsGranted s locks
    → IsGranted (add_active_account s id info) locks
add_active_account-IsGranted s id info [] a g = tt
add_active_account-IsGranted s id info ((k, lock) ∷ locks) a g = (
  rw (lookup-add_active_account_ne s id k info (λ e. a.0 (sym e))) g.0,
  add_active_account-IsGranted s id info locks a.1 g.1,
)

pub lock_all-IsValid :
    (s : Slots) (locks : AccountLocks) (c : ℕ)
    → UniqueKeys locks
    → IsGranted s locks
    → IsValid s
    → IsValid (lock_all s locks c)
unfolding lock_all
lock_all-IsValid s [] c u g v = v
lock_all-IsValid s ((id, lock) ∷ locks) c u g v =
    lock_all-IsValid (add_active_account s id (record { lock_type = lock; cluster_id = c })) locks c
      u.1 (add_active_account-IsGranted s id _ locks u.0 g.1)
      (add_active_account-IsValid s id c lock v g.0)

pub add_active_accounts-IsValid :
    (s : Slots) (locks : AccountLocks) (c : ℕ)
    → UniqueKeys locks
    → IsValid s
    → IsValid (add_active_accounts s locks c).0
unfolding add_active_accounts
add_active_accounts-IsValid s locks c u v = elim (Bool-cases (are_accounts_active s locks)) [
  | inl e ↦ rw (e, add_active_accounts) v
  | inr e ↦
      rw (e, add_active_accounts) (lock_all-IsValid s locks c u (IsGranted-of_inactive s locks e) v)
]

active-increment_slots :
    (s : Slots) (t : SlotType) → (increment_slots s t).active_accounts ≡ s.active_accounts
unfolding increment_slots
active-increment_slots s operator_slot = refl
active-increment_slots s validator_slot = refl

pub active-decrement_slots :
    (s : Slots) (t : SlotType) → (decrement_slots s t).active_accounts ≡ s.active_accounts
unfolding decrement_slots
active-decrement_slots s operator_slot = refl
active-decrement_slots s validator_slot = refl

IsGranted-same :
    (s t : Slots) (locks : AccountLocks)
    → t.active_accounts ≡ s.active_accounts
    → IsGranted s locks
    → IsGranted t locks
IsGranted-same s t [] e g = tt
IsGranted-same s t ((id, lock) ∷ locks) e g = (rw e g.0, IsGranted-same s t locks e g.1)

pub create-IsValid :
    (s : Slots) (c : ℕ) (t : SlotType) (locks : AccountLocks)
    → UniqueKeys locks
    → IsValid s
    → IsValid (create_slot_and_lock_accounts s c t locks).0
unfolding create_slot_and_lock_accounts
create-IsValid s c t locks u v = elim (Bool-cases (are_accounts_active s locks)) [
  | inl e ↦ rw (e, create_slot_and_lock_accounts) v
  | inr e ↦ elim (Bool-cases (are_slots_available s t)) [
    | inl f ↦ rw (e, f, create_slot_and_lock_accounts) (granted e)
    | inr f ↦ rw (e, f, create_slot_and_lock_accounts) v
  ]
]
  where
    opened : Slots
    opened = decrement_slots (record s { slots = insert c (new_slot t locks) s.slots }) t

    same : opened.active_accounts ≡ s.active_accounts
    same = active-decrement_slots (record s { slots = insert c (new_slot t locks) s.slots }) t

    granted : are_accounts_active s locks ≡ false → IsValid (lock_all opened locks c)
    granted e =
        lock_all-IsValid opened locks c u
          (IsGranted-same s opened locks same (IsGranted-of_inactive s locks e))
          (λ id. rw same (v id))

pub cleanup_slot-IsValid : (s : Slots) (c : ℕ) → IsValid s → IsValid (cleanup_slot s c)
unfolding cleanup_slot
cleanup_slot-IsValid s c v = elim (Option-cases (lookup c s.slots)) [
  | inl e ↦ rw (e, cleanup_slot) v
  | inr (slot, e) ↦
      rw (e, cleanup_slot)
        (λ id.
          rw (active-increment_slots _ slot.slot_type)
            (clear_active_accounts-IsValid s c (accounts slot.ps) v id))
]
