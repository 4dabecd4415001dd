-- ===== src/Slots/Release.antt =====
-- Giving back the locks that a cluster holds (slots.go).
use testing_go_moi.Prelude.{
  ℕ, ◌≡◌, ◌≢◌, refl, ap, ◌∙◌, inl, inr, Option, none, some, List, [], ◌∷◌, ◌++◌, arith, ◌==◌,
  if◌then◌else◌, Option-cases, ℕ_discrete, subst, lookup, UniqueKeys, Absent-lookup, ==_iff,
}
use testing_go_moi.Slots.{
  LockType, mutate_lock, read_lock, no_lock, LockInfo, Slots, AccountLocks, held_locks,
  remove_account, clear_active_accounts, accounts, release, swap_remove, last_to_front,
}
use testing_go_moi.Slots.Locks.{HeldOption, lookup-remove_account}
use testing_go_moi.Slots.Exclusion.{with_lock, lookup_head}

-- No lock of the cluster.
abbrev pub WithoutCluster : ℕ → List LockInfo → Type 0
WithoutCluster c [] = Unit {0}
WithoutCluster c (x ∷ xs) = (x.cluster_id ≢ c) × WithoutCluster c xs

abbrev pub NotHolding : ℕ → Option (List LockInfo) → Type 0
NotHolding c none = Unit {0}
NotHolding c (some infos) = WithoutCluster c infos

-- The cluster holds no lock on any account.
abbrev pub HoldsNothing : ℕ → Slots → Type 0
HoldsNothing c s = (id : ℕ) → NotHolding c (lookup id s.active_accounts)

abbrev pub release_option : ℕ → Option (List LockInfo) → Option (List LockInfo)
release_option c none = none
release_option c (some infos) = release c infos

lookup-remove_account_option :
    (s : Slots) (c id k : ℕ)
    → lookup k (remove_account s c id).active_accounts ≡ (
        if id == k
        then release_option c (lookup k s.active_accounts)
        else lookup k s.active_accounts)
lookup-remove_account_option s c id k = elim (Option-cases (lookup id s.active_accounts)) [
  | inl e ↦
      unfold remove_account in
      rw (e, remove_account) (ground (arith, e, ap (λ (j : ℕ). lookup j s.active_accounts)))
  | inr (infos, e) ↦ lookup-remove_account s c id k infos e ∙ at_key infos e
]
  where
    at_key :
        (infos : List LockInfo)
        → lookup id s.active_accounts ≡ some infos
        → (if id == k then release c infos else lookup k s.active_accounts) ≡ (
            if id == k
            then release_option c (lookup k s.active_accounts)
            else lookup k s.active_accounts)
    at_key infos e = elim (ℕ_discrete id k) [
      | yes q ↦ rw (subst (λ j. lookup j s.active_accounts ≡ some infos) q e)
      | no ne ↦ ground (arith, ne)
    ]

swap_remove_without : (c : ℕ) (xs : List LockInfo) → WithoutCluster c xs → swap_remove c xs ≡ xs
unfolding swap_remove
swap_remove_without c [] w = refl
swap_remove_without c (x ∷ xs) w = ground (arith, swap_remove_without c xs w.1, w.0)

release_without : (c : ℕ) (xs : List LockInfo) → WithoutCluster c xs → release c xs ≡ some xs
unfolding release
release_without c [] w = refl
release_without c (x ∷ []) w = ground (arith, w.0)
release_without c (x ∷ y ∷ xs) w = ap some (swap_remove_without c (x ∷ y ∷ xs) w)

swap_remove_appended :
    (c : ℕ) (xs : List LockInfo) (new : LockInfo)
    → WithoutCluster c xs
    → new.cluster_id ≡ c
    → swap_remove c (xs ++ new ∷ []) ≡ xs
unfolding swap_remove last_to_front
swap_remove_appended c [] new w e = ground arith
swap_remove_appended c (x ∷ xs) new w e = ground (arith, swap_remove_appended c xs new w.1 e, w.0)

-- Giving back the lock that was taken last restores the locks of the account.
release_appended :
    (c : ℕ) (o : Option (List LockInfo)) (new : LockInfo)
    → HeldOption o
    → NotHolding c o
    → new.cluster_id ≡ c
    → release c (held_locks o ++ new ∷ []) ≡ o
unfolding release
release_appended c none new h w e = ground arith
release_appended c (some []) new h w e = elim h [ ]
release_appended c (some (x ∷ [])) new h w e = ap some (swap_remove_appended c (x ∷ []) new w e)
release_appended c (some (x ∷ y ∷ xs)) new h w e =
    ap some (swap_remove_appended c (x ∷ y ∷ xs) new w e)

pub release-with_lock :
    (c : ℕ) (o : Option (List LockInfo)) (lock : LockType)
    → HeldOption o
    → NotHolding c o
    → release_option c (with_lock o (some lock) c) ≡ o
release-with_lock c none no_lock h w = refl
release-with_lock c (some infos) no_lock h w = release_without c infos w
release-with_lock c o mutate_lock h w = release_appended c o _ h w refl
release-with_lock c o read_lock h w = release_appended c o _ h w refl

abbrev pub released_if : Option LockType → ℕ → Option (List LockInfo) → Option (List LockInfo)
released_if none c o = o
released_if (some lock) c o = release_option c o

-- The loop of `CleanupSlot` gives back one lock on each account of the slot.
pub lookup-clear_active_accounts :
    (s : Slots) (locks : AccountLocks) (c k : ℕ)
    → UniqueKeys locks
    → lookup k (clear_active_accounts s c (accounts locks)).active_accounts
      ≡ released_if (lookup k locks) c (lookup k s.active_accounts)
unfolding clear_active_accounts
lookup-clear_active_accounts s [] c k u = unfold lookup in refl
lookup-clear_active_accounts s ((id, lock) ∷ locks) c k u =
    lookup-clear_active_accounts (remove_account s c id) locks c k u.1 ∙ at_key (ℕ_discrete id k)
  where
    at_key :
        Dec (id ≡ k)
        → released_if (lookup k locks) c (lookup k (remove_account s c id).active_accounts)
          ≡ released_if (lookup k ((id, lock) ∷ locks)) c (lookup k s.active_accounts)
    at_key (yes e) =
        rw (lookup-remove_account_option s c id k, lookup_head k id lock locks, (==_iff id k).1 e)
          (rw (subst (λ j. lookup j locks ≡ none) e (Absent-lookup id locks u.0)))
    at_key (no ne) =
        rw (lookup-remove_account_option s c id k, lookup_head k id lock locks) (ground (arith, ne))
