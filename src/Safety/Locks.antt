-- ===== src/Safety/Locks.antt =====
-- consensus/ics_handler.go: the highest view info and the tesseract that it locks.
--
-- A tesseract is looked up in the cache, the lattice and the proposals: the argument `find`. A nil list
-- of certificates is an empty one. The locked tesseracts are walked in the order of their insertion;
-- the order of a Go map is left open.
use testing_go_moi.Prelude.{
  ℕ, Bool, true, false, ◌&&◌, ◌||◌, Option, none, some, List, [], ◌∷◌, ltb, leb, ◌==◌,
  if◌then◌else◌, Map, lookup, insert,
}
use testing_go_moi.Votes.{prevote, precommit}
use testing_go_moi.Height.{Qc}
use testing_go_moi.Safety.{Tesseract, Store, delete_locked_tesseract_info}

pub record ViewInfo : Type 0 where
  pub id : ℕ
  pub last_view : ℕ
  pub qc : List Qc

unfoldable pub should_replace : Option ViewInfo → ViewInfo → Bool
should_replace none peer = true
should_replace (some highest) peer = elim peer.qc [
  | [] ↦ false
  | qc ∷ _ ↦ if ltb highest.last_view qc.view then true else elim highest.qc [
    | [] ↦ false
    | old ∷ _ ↦ (highest.last_view == qc.view) && ltb old.type qc.type
  ]
]

-- The lengths have been compared before.
unfoldable pub update_highest_view_info :
    List (Option ViewInfo) → List ViewInfo → List (Option ViewInfo)
update_highest_view_info [] peers = []
update_highest_view_info (highest ∷ rest) [] = highest ∷ rest
update_highest_view_info (highest ∷ rest) (peer ∷ peers) =
    (if should_replace highest peer then some peer else highest)
    ∷ update_highest_view_info rest peers

unfoldable pub has_lock : List ViewInfo → Bool
has_lock [] = false
has_lock (view ∷ views) =
    let later = has_lock views in
    elim view.qc [ [] ↦ later | qc ∷ _ ↦ if qc.type == prevote then true else later ]

pub record LockedInfo : Type 0 where
  pub view : ℕ
  pub ts : Tesseract

pub record IdentifierInfo : Type 0 where
  pub height : ℕ
  pub lock : ℕ
  pub view : ℕ

pub data LockStatus : Type 0 where
  no_lock valid_lock invalid_lock : LockStatus

-- The greatest height of a participant, with the first certificate that has it.
unfoldable pub add_height : Qc → Map IdentifierInfo → ℕ → ℕ → Map IdentifierInfo
add_height qc heights id height =
    let added = insert id (record { height = height; lock = qc.type; view = qc.view }) heights in
    elim (lookup id heights) [
      | none ↦ added
      | some info ↦ if leb height info.height then heights else added
    ]

unfoldable pub add_heights : Qc → Map IdentifierInfo → Map ℕ → Map IdentifierInfo
add_heights qc heights [] = heights
add_heights qc heights ((id, height) ∷ ps) = add_heights qc (add_height qc heights id height) ps

unfoldable pub collect :
    (ℕ → Option Tesseract)
    → Map LockedInfo
    → Map IdentifierInfo
    → List ViewInfo
    → Option (Map LockedInfo × Map IdentifierInfo)
collect find locked heights [] = some (locked, heights)
collect find locked heights (view ∷ views) = elim view.qc [
  | [] ↦ collect find locked heights views
  | qc ∷ _ ↦ elim (find qc.ts_hash) [
    | none ↦ none
    | some ts ↦
        collect find
          (if qc.type == prevote
            then insert qc.ts_hash (record { view = qc.view; ts = ts }) locked
            else locked)
          (add_heights qc heights ts.participants) views
  ]
]

unfoldable pub is_outdated_at : IdentifierInfo → ℕ → ℕ → Bool
is_outdated_at max view height =
    if (max.lock == precommit) && leb height max.height
    then true
    else (max.lock == prevote)
      && (ltb height max.height || ((height == max.height) && ltb view max.view))

-- Each participant has a greatest height; where it had none the code would panic.
unfoldable pub is_outdated : Map IdentifierInfo → ℕ → Map ℕ → Bool
is_outdated heights view [] = false
is_outdated heights view ((id, height) ∷ ps) =
    let later = is_outdated heights view ps in
    elim (lookup id heights) [ none ↦ later | some max ↦ is_outdated_at max view height || later ]

unfoldable pub remove_outdated :
    Store → Map IdentifierInfo → Map LockedInfo → Store × Map LockedInfo
remove_outdated store heights [] = (store, [])
remove_outdated store heights ((hash, info) ∷ locked) =
    elim (is_outdated heights info.view info.ts.participants) [
      | true ↦ remove_outdated (delete_locked_tesseract_info store info.ts).0 heights locked
      | false ↦ let r = remove_outdated store heights locked in (r.0, (hash, info) ∷ r.1)
    ]

unfoldable pub find_for : ℕ → Map LockedInfo → Option Tesseract
find_for ixns_hash [] = none
find_for ixns_hash ((hash, info) ∷ locked) =
    let later = find_for ixns_hash locked in
    if info.ts.interactions_hash == ixns_hash then some info.ts else later

unfoldable pub lock_of : ℕ → Map LockedInfo → Option Tesseract × LockStatus
lock_of ixns_hash [] = (none, LockStatus.no_lock)
lock_of ixns_hash (l ∷ locked) = elim (find_for ixns_hash (l ∷ locked)) [
  | none ↦ (none, LockStatus.invalid_lock)
  | some ts ↦ (some ts, LockStatus.valid_lock)
]

unfoldable pub evaluate_locked_tesseracts :
    (ℕ → Option Tesseract)
    → Store
    → List ViewInfo
    → ℕ
    → Option (Store × Option Tesseract × LockStatus)
evaluate_locked_tesseracts find store views ixns_hash = elim (collect find [] [] views) [
  | none ↦ none
  | some c ↦
      let r = remove_outdated store c.1 c.0 in let l = lock_of ixns_hash r.1 in some (r.0, l.0, l.1)
]

unfoldable pub get_lock_status :
    (ℕ → Option Tesseract)
    → Store
    → List ViewInfo
    → ℕ
    → Option (Store × Option Tesseract × LockStatus)
get_lock_status find store views ixns_hash =
    if has_lock views
    then evaluate_locked_tesseracts find store views ixns_hash
    else some (store, none, LockStatus.no_lock)
