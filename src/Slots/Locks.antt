-- ===== src/Slots/Locks.antt =====
-- The invariant of the account locks: an account that is locked for writing has that one lock, all
-- other locked accounts are locked for reading only.
use testing_go_moi.Prelude.{
  ℕ, ◌≡◌, ◌≢◌, refl, inl, inr, false, Option, none, some, List, [], ◌∷◌, ◌++◌, arith, ◌==◌,
  if◌then◌else◌, Option-cases, Map, lookup, lookup-insert, lookup-delete,
}
use testing_go_moi.Slots.{
  read_lock, no_lock, LockInfo, Slots, refuses, last_to_front, swap_remove, release, store_locks,
  remove_account, clear_active_accounts,
}

abbrev pub AllRead : List LockInfo → Type 0
AllRead [] = Unit {0}
AllRead (x ∷ xs) = (x.lock_type ≡ read_lock) × AllRead xs

-- The locks of one account: there are some, and a lock for writing is alone.
abbrev pub IsHeld : List LockInfo → Type 0
IsHeld [] = ⊥
IsHeld (x ∷ []) = x.lock_type ≢ no_lock
IsHeld (x ∷ y ∷ xs) = AllRead (x ∷ y ∷ xs)

abbrev pub HeldOption : Option (List LockInfo) → Type 0
HeldOption none = Unit {0}
HeldOption (some infos) = IsHeld infos

-- Every account's locks are compatible with one another.
abbrev pub IsValid : Slots → Type 0
IsValid s = (id : ℕ) → HeldOption (lookup id s.active_accounts)

AllRead-append : (xs ys : List LockInfo) → AllRead xs → AllRead ys → AllRead (xs ++ ys)
AllRead-append [] ys h k = k
AllRead-append (x ∷ xs) ys h k = (h.0, AllRead-append xs ys h.1 k)

IsHeld-of_read : (x : LockInfo) (xs : List LockInfo) → AllRead (x ∷ xs) → IsHeld (x ∷ xs)
IsHeld-of_read x [] h = λ e. ground arith
IsHeld-of_read x (y ∷ xs) h = h

-- A lock that is not refused joins the locks held.
pub join-IsHeld :
    (infos : List LockInfo) (new : LockInfo)
    → IsHeld infos
    → new.lock_type ≢ no_lock
    → refuses infos new.lock_type ≡ false
    → IsHeld (infos ++ new ∷ [])
unfolding refuses
join-IsHeld [] new h k r = elim h [ ]
join-IsHeld (x ∷ []) new h k r = ground arith
join-IsHeld (x ∷ y ∷ xs) new h k r =
    (h.0, (h.1.0, AllRead-append xs (new ∷ []) h.1.1 (ground arith)))

-- Removing one of the locks leaves the others compatible.
last_to_front-AllRead :
    (done rest : List LockInfo) → AllRead done → AllRead rest → AllRead (last_to_front done rest)
unfolding last_to_front
last_to_front-AllRead done [] h k = tt
last_to_front-AllRead done (x ∷ []) h k = (k.0, h)
last_to_front-AllRead done (x ∷ y ∷ rest) h k =
    last_to_front-AllRead (done ++ x ∷ []) (y ∷ rest) (AllRead-append done (x ∷ []) h (k.0, tt)) k.1

swap_remove-AllRead : (c : ℕ) (xs : List LockInfo) → AllRead xs → AllRead (swap_remove c xs)
unfolding swap_remove
swap_remove-AllRead c [] h = tt
swap_remove-AllRead c (x ∷ rest) h =
    ground (arith, last_to_front-AllRead [] rest tt h.1, swap_remove-AllRead c rest h.1)

last_to_front-ne :
    (done : List LockInfo) (x : LockInfo) (rest : List LockInfo)
    → last_to_front done (x ∷ rest) ≢ []
unfolding last_to_front
last_to_front-ne done x [] e = cc
last_to_front-ne done x (y ∷ rest) e = last_to_front-ne (done ++ x ∷ []) y rest e

swap_remove-ne : (c : ℕ) (x y : LockInfo) (rest : List LockInfo) → swap_remove c (x ∷ y ∷ rest) ≢ []
unfolding swap_remove
swap_remove-ne c x y rest = ground (arith, last_to_front-ne [] y rest)

IsHeld-of : (xs : List LockInfo) → xs ≢ [] → AllRead xs → IsHeld xs
IsHeld-of [] ne h = absurd (ne refl)
IsHeld-of (x ∷ xs) ne h = IsHeld-of_read x xs h

release-HeldOption : (c : ℕ) (infos : List LockInfo) → IsHeld infos → HeldOption (release c infos)
unfolding release
release-HeldOption c [] h = elim h [ ]
release-HeldOption c (x ∷ []) h = ground arith
release-HeldOption c (x ∷ y ∷ rest) h =
    IsHeld-of (swap_remove c (x ∷ y ∷ rest)) (swap_remove-ne c x y rest)
      (swap_remove-AllRead c (x ∷ y ∷ rest) h)

pub lookup-store_locks :
    (id k : ℕ) (o : Option (List LockInfo)) (m : Map (List LockInfo))
    → lookup k (store_locks id o m) ≡ (if id == k then o else lookup k m)
unfolding store_locks
lookup-store_locks id k none m = lookup-delete id k m
lookup-store_locks id k (some infos) m = lookup-insert id k infos m

-- What `removeAccount` leaves to an account.
pub lookup-remove_account :
    (s : Slots) (c id k : ℕ) (infos : List LockInfo)
    → lookup id s.active_accounts ≡ some infos
    → lookup k (remove_account s c id).active_accounts
      ≡ (if id == k then release c infos else lookup k s.active_accounts)
unfolding remove_account
lookup-remove_account s c id k infos e =
    rw (e, remove_account) (lookup-store_locks id k (release c infos) s.active_accounts)

pub remove_account-IsValid : (s : Slots) (c id : ℕ) → IsValid s → IsValid (remove_account s c id)
remove_account-IsValid s c id v k = elim (Option-cases (lookup id s.active_accounts)) [
  | inl e ↦ unfold remove_account in rw (e, remove_account) (v k)
  | inr (infos, e) ↦
      rw (lookup-remove_account s c id k infos e)
        (ground (arith, v k, v id, release-HeldOption c infos))
]

pub clear_active_accounts-IsValid :
    (s : Slots) (c : ℕ) (ids : List ℕ) → IsValid s → IsValid (clear_active_accounts s c ids)
unfolding clear_active_accounts
clear_active_accounts-IsValid s c [] v = v
clear_active_accounts-IsValid s c (id ∷ ids) v =
    clear_active_accounts-IsValid (remove_account s c id) c ids (remove_account-IsValid s c id v)
