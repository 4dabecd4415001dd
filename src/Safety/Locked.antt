-- ===== src/Safety/Locked.antt =====
-- consensus/ics_handler.go: a valid lock is behind no other tesseract of the views.
use testing_go_moi.Prelude.{
  ℕ, ◌≤◌, ◌≡◌, inl, inr, sym, ◌∙◌, subst, false, ◌||◌, Option, some, List, [], ◌∷◌, ◌==◌,
  Bool-cases, Option-cases, Each, Each-map, Map, lookup, arith,
}
use testing_go_moi.Safety.{Tesseract, Store, delete_locked_tesseract_info}
use testing_go_moi.Safety.Locks.{
  ViewInfo, has_lock, LockedInfo, IdentifierInfo, LockStatus, collect, is_outdated_at, is_outdated,
  remove_outdated, find_for, lock_of, evaluate_locked_tesseracts, get_lock_status,
}
use testing_go_moi.Safety.Heights.{IsCertificate, AtMost, IsCertified}
use testing_go_moi.Safety.Collecting.{Head, Seen, collect-Seen}

not_outdated :
    (max : IdentifierInfo) (view height k : ℕ)
    → IsCertificate max.lock
    → is_outdated_at max view height ≡ false
    → k ≤ max.height
    → k ≤ height
unfolding is_outdated_at
not_outdated max view height k (inl prepares) e b = ground (arith, prepares, e, b)
not_outdated max view height k (inr commits) e b = ground (arith, commits, e, b)

-- At each participant that is not outdated no height of the views is greater.
abbrev Highest : Map IdentifierInfo → Map ℕ → Type 0
Highest heights ps = Each (λ p. (k : ℕ) → AtMost heights p.0 k → k ≤ p.1) ps

is_outdated-Highest :
    (heights : Map IdentifierInfo) (view : ℕ) (ps : Map ℕ)
    → is_outdated heights view ps ≡ false
    → Highest heights ps
unfolding is_outdated
is_outdated-Highest heights view [] e = tt
is_outdated-Highest heights view ((id, height) ∷ ps) e = elim (Option-cases (lookup id heights)) [
  | inl missing ↦ (
    λ k b. absurd (cc (missing, b.found)),
    is_outdated-Highest heights view ps (rw (is_outdated, missing) at e),
  )
  | inr max ↦
      let split : (is_outdated_at max.0 view height || is_outdated heights view ps) ≡ false =
        rw (is_outdated, max.1) at e in
      let first : is_outdated_at max.0 view height ≡ false = ground (arith, split) in
      let rest : is_outdated heights view ps ≡ false = ground (arith, split, first) in
      (
        λ k b.
            let same : max.0 ≡ b.max = cc (max.1, b.found) in
            let mine : is_outdated_at b.max view height ≡ false =
              subst (λ (x : IdentifierInfo). is_outdated_at x view height ≡ false) same first in
            not_outdated b.max view height k b.certified mine b.bounded,
        is_outdated-Highest heights view ps rest,
      )
]

remove_outdated-Highest :
    (store : Store) (heights : Map IdentifierInfo) (locked : Map LockedInfo)
    → Each (λ l. Highest heights l.1.ts.participants) (remove_outdated store heights locked).1
unfolding remove_outdated
remove_outdated-Highest store heights [] = tt
remove_outdated-Highest store heights ((hash, info) ∷ locked) =
    elim (Bool-cases (is_outdated heights info.view info.ts.participants)) [
      | inl gone ↦
          rw (remove_outdated, gone)
            (remove_outdated-Highest (delete_locked_tesseract_info store info.ts).0 heights locked)
      | inr kept ↦
          rw (remove_outdated, kept)
            (
              is_outdated-Highest heights info.view info.ts.participants kept,
              remove_outdated-Highest store heights locked,
            )
    ]

find_for-Each :
    (P : Tesseract → Type 0) (ixns_hash : ℕ) (locked : Map LockedInfo) (ts : Tesseract)
    → Each (λ l. P l.1.ts) locked
    → find_for ixns_hash locked ≡ some ts
    → P ts × (ts.interactions_hash ≡ ixns_hash)
unfolding find_for
find_for-Each P ixns_hash [] ts p e = cc
find_for-Each P ixns_hash ((hash, info) ∷ locked) ts p e =
    elim (Bool-cases (info.ts.interactions_hash == ixns_hash)) [
      | inl here ↦
          let found : some info.ts ≡ some ts = rw (find_for, here) at e in
          let same : info.ts ≡ ts = cc in
          let hash_is : info.ts.interactions_hash ≡ ixns_hash = ground arith in
          subst (λ (x : Tesseract). P x × (x.interactions_hash ≡ ixns_hash)) same (p.0, hash_is)
      | inr past ↦ find_for-Each P ixns_hash locked ts p.1 (rw (find_for, past) at e)
    ]

lock_of-find_for :
    (ixns_hash : ℕ) (locked : Map LockedInfo) (ts : Tesseract)
    → (lock_of ixns_hash locked).0 ≡ some ts
    → find_for ixns_hash locked ≡ some ts
unfolding lock_of
lock_of-find_for ixns_hash [] ts e = cc
lock_of-find_for ixns_hash (l ∷ locked) ts e =
    elim (Option-cases (find_for ixns_hash (l ∷ locked))) [
      | inl missing ↦ absurd (ground (arith, e, missing))
      | inr found ↦ found.1 ∙ (rw (lock_of, found.1) at e)
    ]

-- No participant of the other tesseract that is one of the first has a greater height there.
abbrev pub NotBehind : Tesseract → Tesseract → Type 0
NotBehind ts other =
    Each (λ q. Each (λ p. p.0 ≡ q.0 → q.1 ≤ p.1) ts.participants) other.participants

Highest-NotBehind :
    (heights : Map IdentifierInfo) (ts other : Tesseract)
    → Highest heights ts.participants
    → Each (λ q. AtMost heights q.0 q.1) other.participants
    → NotBehind ts other
Highest-NotBehind heights ts other highest seen =
    Each-map (λ q. AtMost heights q.0 q.1) (λ q. Each (λ p. p.0 ≡ q.0 → q.1 ≤ p.1) ts.participants)
      other.participants
      (λ q b.
        Each-map (λ p. (k : ℕ) → AtMost heights p.0 k → k ≤ p.1) (λ p. p.0 ≡ q.0 → q.1 ≤ p.1)
          ts.participants (λ p h same. h q.1 (subst (λ (x : ℕ). AtMost heights x q.1) (sym same) b))
          highest)
      seen

-- If every view info has a prevote or a precommit certificate or none, and getLockStatus gives a
-- locked tesseract, then it is for the interactions of the cluster, and none of its participants has
-- a greater height in the tesseract of any view info's certificate.
pub get_lock_status_highest :
    (find : ℕ → Option Tesseract) (store after : Store) (views : List ViewInfo) (ixns_hash : ℕ)
    (ts : Tesseract) (status : LockStatus)
    → Each (Head (λ qc. IsCertificate qc.type)) views
    → get_lock_status find store views ixns_hash ≡ some (after, some ts, status)
    → (ts.interactions_hash ≡ ixns_hash)
      × Each
          (Head (λ qc. (other : Tesseract) → find qc.ts_hash ≡ some other → NotBehind ts other))
          views
unfolding get_lock_status evaluate_locked_tesseracts
get_lock_status_highest find store after views ixns_hash ts status certificates e =
    elim (Bool-cases (has_lock views)) [
      | inr free ↦ absurd (ground (arith, e, free))
      | inl locked ↦ elim (Option-cases (collect find [] [] views)) [
        | inl missing ↦ absurd (ground (arith, e, locked, missing))
        | inr (c, collected) ↦
            let r : Store × Map LockedInfo = remove_outdated store c.1 c.0 in
            let l : Option Tesseract × LockStatus = lock_of ixns_hash r.1 in
            let answer : ◌≡◌ {A = Option (Store × Option Tesseract × LockStatus)}
                (some (r.0, l.0, l.1)) (some (after, some ts, status)) =
              rw (get_lock_status, locked, evaluate_locked_tesseracts, collected) at e in
            let chosen : l.0 ≡ some ts = cc in
            let (highest, hash_is) =
              find_for-Each (λ x. Highest c.1 x.participants) ixns_hash r.1 ts
                (remove_outdated-Highest store c.1 c.0)
                (lock_of-find_for ixns_hash r.1 ts chosen) in
            let none_yet : IsCertified [] = λ id info at. absurd (unfold lookup in cc (at)) in
            let (_, seen) = collect-Seen find [] [] views c certificates none_yet collected in
            (
              hash_is,
              Each-map (Head (Seen find c.1))
                  (Head
                    (λ qc. (other : Tesseract) → find qc.ts_hash ≡ some other → NotBehind ts other))
                  views
                  (λ v s qc rest at other found.
                    Highest-NotBehind c.1 ts other highest (s qc rest at other found))
                  seen,
            )
      ]
    ]
