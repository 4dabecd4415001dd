-- ===== src/Slots/Exclusion.antt =====
-- The account locks as a readers-writer lock, over every sequence of calls (slots.go).
use testing_go_moi.Prelude.{
  ℕ, zero, suc, ◌≡◌, ◌≢◌, refl, ◌∙◌, Option, none, some, List, [], ◌∷◌, ◌++◌, arith, ◌==◌, ==_refl,
  if◌then◌else◌, ℕ_discrete, subst, get_elem?, Map, lookup, UniqueKeys, Absent-lookup,
}
use testing_go_moi.Slots.{
  LockType, mutate_lock, read_lock, no_lock, LockInfo, Slots, AccountLocks, SlotType, new_slots,
  held_locks, add_active_account, lock_all, add_active_accounts, clear_active_accounts,
  cleanup_slot, create_slot_and_lock_accounts,
}
use testing_go_moi.Slots.Locks.{AllRead, IsHeld, IsValid, clear_active_accounts-IsValid}
use testing_go_moi.Slots.Grants.{
  lookup-add_active_account, lookup-add_active_account_ne, add_active_accounts-IsValid,
  create-IsValid, cleanup_slot-IsValid,
}

-- The calls that change the slots, in any order and from any goroutine.
pub data Step (s : Slots) : Slots → Type 0 where
  add : (locks : AccountLocks) (c : ℕ) → UniqueKeys locks → Step s (add_active_accounts s locks c).0
  clear : (c : ℕ) (ids : List ℕ) → Step s (clear_active_accounts s c ids)
  create :
      (c : ℕ) (t : SlotType) (locks : AccountLocks)
      → UniqueKeys locks
      → Step s (create_slot_and_lock_accounts s c t locks).0
  cleanup : (c : ℕ) → Step s (cleanup_slot s c)

pub data Reach (s : Slots) : Slots → Type 0 where
  here : Reach s s
  next : {t u : Slots} → Reach s t → Step t u → Reach s u

Step-IsValid : {s t : Slots} → Step s t → IsValid s → IsValid t
Step-IsValid {s} (add locks c u) v = add_active_accounts-IsValid s locks c u v
Step-IsValid {s} (clear c ids) v = clear_active_accounts-IsValid s c ids v
Step-IsValid {s} (create c t locks u) v = create-IsValid s c t locks u v
Step-IsValid {s} (cleanup c) v = cleanup_slot-IsValid s c v

pub new_slots-IsValid : (operators validators : ℕ) → IsValid (new_slots operators validators)
unfolding new_slots lookup
new_slots-IsValid operators validators id = tt

pub Reach-IsValid : {s t : Slots} → IsValid s → Reach s t → IsValid t
Reach-IsValid v here = v
Reach-IsValid v (next r st) = Step-IsValid st (Reach-IsValid v r)

AllRead-get_elem? :
    (infos : List LockInfo) (i : ℕ) {x : LockInfo}
    → AllRead infos
    → get_elem? infos i ≡ some x
    → x.lock_type ≡ read_lock
AllRead-get_elem? [] i h e = cc
AllRead-get_elem? (y ∷ ys) zero h e = ground arith
AllRead-get_elem? (y ∷ ys) (suc i) h e = AllRead-get_elem? ys i h.1 e

IsHeld-shared :
    (infos : List LockInfo) (i j : ℕ) {x y : LockInfo}
    → IsHeld infos
    → i ≢ j
    → get_elem? infos i ≡ some x
    → get_elem? infos j ≡ some y
    → (x.lock_type ≡ read_lock) × (y.lock_type ≡ read_lock)
IsHeld-shared [] i j h ne p q = elim h [ ]
IsHeld-shared (z ∷ []) zero zero h ne p q = absurd (ne refl)
IsHeld-shared (z ∷ []) zero (suc j) h ne p q = cc
IsHeld-shared (z ∷ []) (suc i) j h ne p q = cc
IsHeld-shared (z ∷ w ∷ ws) i j h ne p q =
    (AllRead-get_elem? (z ∷ w ∷ ws) i h p, AllRead-get_elem? (z ∷ w ∷ ws) j h q)

-- After any calls from a fresh start, two locks held on one account at the same time are both locks
-- for reading.
pub two_locks_read :
    (operators validators : ℕ) {s : Slots} (id i j : ℕ) {infos : List LockInfo} {x y : LockInfo}
    → Reach (new_slots operators validators) s
    → lookup id s.active_accounts ≡ some infos
    → i ≢ j
    → get_elem? infos i ≡ some x
    → get_elem? infos j ≡ some y
    → (x.lock_type ≡ read_lock) × (y.lock_type ≡ read_lock)
two_locks_read operators validators {s} id i j {infos} r e ne p q =
    IsHeld-shared infos i j held ne p q
  where
    held : IsHeld infos
    held = rw e at (Reach-IsValid (new_slots-IsValid operators validators) r id)

-- The locks that an account has once a wanted lock is granted to a cluster.
abbrev pub with_lock : Option (List LockInfo) → Option LockType → ℕ → Option (List LockInfo)
with_lock o none c = o
with_lock o (some no_lock) c = o
with_lock o (some mutate_lock) c =
    some (held_locks o ++ record { lock_type = mutate_lock; cluster_id = c } ∷ [])
with_lock o (some read_lock) c =
    some (held_locks o ++ record { lock_type = read_lock; cluster_id = c } ∷ [])

lookup-add_active_account-with_lock :
    (s : Slots) (id c : ℕ) (lock : LockType)
    → lookup id
        (add_active_account s id (record { lock_type = lock; cluster_id = c })).active_accounts
      ≡ with_lock (lookup id s.active_accounts) (some lock) c
lookup-add_active_account-with_lock s id c no_lock = unfold add_active_account in refl
lookup-add_active_account-with_lock s id c mutate_lock = lookup-add_active_account s id _ (λ e. cc)
lookup-add_active_account-with_lock s id c read_lock = lookup-add_active_account s id _ (λ e. cc)

pub lookup_head {ℓ} :
    {V : Type ℓ} (k j : ℕ) (v : V) (m : Map V)
    → lookup k ((j, v) ∷ m) ≡ (if j == k then some v else lookup k m)
unfolding lookup
lookup_head k j v m = refl

-- For wanted locks without repeated accounts, the locking loop appends to the locks of each account
-- the one that is wanted on it, if it is one for reading or changing, and changes no other account.
pub lookup-lock_all :
    (s : Slots) (locks : AccountLocks) (c k : ℕ)
    → UniqueKeys locks
    → lookup k (lock_all s locks c).active_accounts
      ≡ with_lock (lookup k s.active_accounts) (lookup k locks) c
unfolding lock_all
lookup-lock_all s [] c k u = unfold lookup in refl
lookup-lock_all s ((id, lock) ∷ locks) c k u =
    (lookup-lock_all (add_active_account s id (record { lock_type = lock; cluster_id = c })) locks c
        k u.1
      ∙ at_key (ℕ_discrete id k))
  where
    t : Slots
    t = add_active_account s id (record { lock_type = lock; cluster_id = c })

    at_key :
        Dec (id ≡ k)
        → with_lock (lookup k t.active_accounts) (lookup k locks) c
          ≡ with_lock (lookup k s.active_accounts) (lookup k ((id, lock) ∷ locks)) c
    at_key (yes e) =
        subst
          (λ j.
            with_lock (lookup j t.active_accounts) (lookup j locks) c
            ≡ with_lock (lookup j s.active_accounts) (lookup j ((id, lock) ∷ locks)) c)
          e
          (rw (
            lookup-add_active_account-with_lock s id c lock,
            Absent-lookup id locks u.0,
            lookup_head id id lock locks,
            ==_refl id,
          ))
    at_key (no ne) =
        rw
          (
            lookup-add_active_account_ne s id k (record { lock_type = lock; cluster_id = c }) ne,
            lookup_head k id lock locks,
          )
          (ground (arith, ne))
