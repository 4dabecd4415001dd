-- ===== src/Examples/Safety.antt =====
-- A locked account beside a committed one (safety.go, ics_handler.go).
use testing_go_moi.Prelude.{
  ℕ, ◌≡◌, ◌≢◌, inl, refl, Option, none, some, [], ◌∷◌, ◌++◌, ◌==◌, if◌then◌else◌, Each, lookup,
  insert, List, Absent, arith,
}
use testing_go_moi.Slots.{LockType, no_lock, mutate_lock}
use testing_go_moi.Votes.{prevote, precommit}
use testing_go_moi.Height.{Qc}
use testing_go_moi.Safety.{
  Tesseract, SafetyData, AccountMetaInfo, Store, last_view, get_latest_safety_info,
  update_safety_info, delete_locked_tesseract_info,
}
use testing_go_moi.Safety.Storing.{update_safety_info_lem}
use testing_go_moi.Safety.Locks.{
  ViewInfo, LockStatus, get_lock_status, has_lock, evaluate_locked_tesseracts, collect, add_height,
  add_heights, is_outdated, is_outdated_at, remove_outdated, find_for, lock_of,
}
use testing_go_moi.Safety.Collecting.{Head}
use testing_go_moi.Safety.Locked.{NotBehind, get_lock_status_highest}
use testing_go_moi.Safety.Commits.{Certifies, Meet}
use testing_go_moi.Safety.Order.{get_lock_status_by_order}

abbrev certificate : ℕ → ℕ → ℕ → Qc
certificate type view hash = record {
  type = type;
  view = view;
  ts_hash = hash;
  signer_indices = none;
  signature = none;
}

abbrev view_of : ℕ → Qc → ViewInfo
view_of id qc = record { id = id; last_view = qc.view; qc = qc ∷ [] }

abbrev store : Store
store = record {
  accounts = (7, record { height = 3; tesseract_hash = 30 }) ∷ [];
  commits = [];
  safety_data = [];
  proposals = [];
}

abbrev locking : Tesseract
locking = record {
  hash = 40;
  interactions_hash = 5;
  participants = (7, 4) ∷ [];
  account_locks = (7, mutate_lock) ∷ [];
}

update_safety_info_lem_example :
    let qc = certificate prevote 6 40 in
    let t = update_safety_info store locking qc in
    ((id : ℕ) (meta : AccountMetaInfo) (lock : LockType)
      → lookup id store.accounts ≡ some meta
      → lookup id locking.account_locks ≡ some lock
      → lock ≢ no_lock
      → (info : SafetyData) × (get_latest_safety_info t id ≡ some info)
        × (last_view info ≡ some qc.view))
    × ((id : ℕ)
        → Absent id locking.account_locks
        → get_latest_safety_info t id ≡ get_latest_safety_info store id)
    × (qc.type ≡ prevote → lookup locking.hash t.proposals ≡ some locking)
update_safety_info_lem_example =
    update_safety_info_lem store locking (certificate prevote 6 40) (tt, tt)

-- A tesseract of two participants; the second commit is ahead of it at neither.
abbrev locked_ts : Tesseract
locked_ts = record {
  hash = 40;
  interactions_hash = 5;
  participants = (7, 4) ∷ (8, 2) ∷ [];
  account_locks = (7, mutate_lock) ∷ [];
}

abbrev early_ts : Tesseract
early_ts = record {
  hash = 41;
  interactions_hash = 6;
  participants = (8, 1) ∷ (9, 9) ∷ [];
  account_locks = [];
}

abbrev level_ts : Tesseract
level_ts = record {
  hash = 42;
  interactions_hash = 7;
  participants = (9, 5) ∷ (8, 2) ∷ [];
  account_locks = (8, mutate_lock) ∷ [];
}

abbrev find : ℕ → Option Tesseract
find hash =
    if hash == 40
    then some locked_ts
    else if hash == 41
    then some early_ts
    else if hash == 42
    then some level_ts
    else none

abbrev early : ViewInfo
early = view_of 9 (certificate precommit 9 41)

abbrev level : ViewInfo
level = view_of 8 (certificate precommit 7 42)

abbrev level_certifies : Certifies find level precommit
level_certifies = record {
  qc = certificate precommit 7 42;
  rest = [];
  ts = level_ts;
  first = refl;
  of_type = refl;
  found = refl;
}

abbrev early_certifies : Certifies find early precommit
early_certifies = record {
  qc = certificate precommit 9 41;
  rest = [];
  ts = early_ts;
  first = refl;
  of_type = refl;
  found = refl;
}

abbrev level_meets : Meet locked_ts level_ts
level_meets = record { id = 8; height = 2; place = 1; other_place = 1; here = refl; there = refl }

abbrev lock_view : ViewInfo
lock_view = view_of 7 (certificate prevote 6 40)

lock_found :
    get_lock_status find store (lock_view ∷ []) 5
    ≡ some (store, some locked_ts, LockStatus.valid_lock)
unfolding get_lock_status has_lock evaluate_locked_tesseracts collect add_height add_heights
    is_outdated is_outdated_at remove_outdated find_for lock_of lookup insert
lock_found = refl

get_lock_status_highest_example :
    let ts = locked_ts in
    (ts.interactions_hash ≡ 5)
    × Each
        (Head (λ qc. (other : Tesseract) → find qc.ts_hash ≡ some other → NotBehind ts other))
        (lock_view ∷ [])
get_lock_status_highest_example =
    get_lock_status_highest find store store (lock_view ∷ []) 5 locked_ts LockStatus.valid_lock
      (λ qc rest e. inl (prevote_only qc rest e), tt) lock_found
  where
    prevote_only : (qc : Qc) (rest : List Qc) → lock_view.qc ≡ qc ∷ rest → qc.type ≡ prevote
    prevote_only qc rest e = cc

get_lock_status_by_order_example :
    (get_lock_status find store (lock_view ∷ early ∷ level ∷ []) 5
      ≡ some (store, some locked_ts, LockStatus.valid_lock))
    × (get_lock_status find store ((early ∷ level ∷ []) ++ lock_view ∷ []) 5
        ≡ some ((delete_locked_tesseract_info store locked_ts).0, none, LockStatus.no_lock))
get_lock_status_by_order_example =
    get_lock_status_by_order find locked_ts store 5 lock_view
      (record {
        qc = certificate prevote 6 40;
        rest = [];
        ts = locked_ts;
        first = refl;
        of_type = refl;
        found = refl;
      })
      refl ((omega arith, tt), (tt, tt)) (early ∷ level ∷ [])
      ((early_certifies, omega arith), ((level_certifies, omega arith), tt)) 1 level level_certifies
      refl level_meets refl
