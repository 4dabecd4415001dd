-- ===== src/Safety/Storing.antt =====
-- consensus/safety/safety.go: what `GetLatestSafetyInfo` finds after `UpdateSafetyInfo`.
use testing_go_moi.Prelude.{
  ℕ, ◌≡◌, ◌≢◌, refl, sym, ap, ◌∙◌, subst, false, ◌&&◌, none, some, List, [], ◌∷◌, ◌++◌, inl, inr,
  ltb, ◌==◌, Bool-cases, Option-cases, Map, lookup, lookup-insert, Absent, UniqueKeys, arith,
  Option,
}
use testing_go_moi.Slots.{LockType, no_lock}
use testing_go_moi.Votes.{prevote}
use testing_go_moi.Height.{Qc}
use testing_go_moi.Safety.{
  Tesseract, SafetyData, AccountMetaInfo, Store, last_qc, set_last, append_qc, update_qc, last_view,
  get_latest_safety_info, updated_data, update_account, update_accounts, update_safety_info,
}

last_qc-append : (qcs : List Qc) (qc : Qc) → last_qc (qcs ++ qc ∷ []) ≡ some qc
unfolding last_qc
last_qc-append [] qc = refl
last_qc-append (x ∷ qcs) qc = rw (last_qc-append qcs qc) refl

last_qc-set_last :
    (qcs : List Qc) (last qc : Qc) → last_qc qcs ≡ some last → last_qc (set_last qcs qc) ≡ some qc
unfolding last_qc set_last
last_qc-set_last [] last qc e = cc
last_qc-set_last (x ∷ []) last qc e = refl
last_qc-set_last (x ∷ y ∷ qcs) last qc e = elim (Option-cases (last_qc (y ∷ qcs))) [
  | inl missing ↦ absurd (ground (arith, missing))
  | inr found ↦ rw (last_qc-set_last (y ∷ qcs) found.0 qc found.1) refl
]

last_view_of :
    (info : SafetyData) (qc : Qc) → last_qc info.qc ≡ some qc → last_view info ≡ some qc.view
unfolding last_view
last_view_of info qc e = rw (last_view, e) refl

last_view-update_qc : (info : SafetyData) (qc : Qc) → last_view (update_qc info qc) ≡ some qc.view
unfolding update_qc append_qc last_qc
last_view-update_qc info qc = elim (Option-cases (last_qc info.qc)) [
  | inl missing ↦
      rw (update_qc, missing) (last_view_of (append_qc info qc) qc (last_qc-append info.qc qc))
  | inr last ↦ elim (Bool-cases (ltb last.0.view qc.view)) [
    | inl newer ↦
        let fresh : SafetyData = record info { qc = qc ∷ []; ts_hashes = qc.ts_hash ∷ [] } in
        rw (update_qc, last.1, newer) (last_view_of fresh qc refl)
    | inr other ↦ elim (Bool-cases ((last.0.view == qc.view) && (last.0.type == prevote))) [
      | inl same ↦
          let replaced : SafetyData = record info { qc = set_last info.qc qc } in
          rw (update_qc, last.1, other, same)
            (last_view_of replaced qc (last_qc-set_last info.qc last.0 qc last.1))
      | inr older ↦
          rw (update_qc, last.1, other, older)
            (last_view_of (append_qc info qc) qc (last_qc-append info.qc qc))
    ]
  ]
]

last_view-updated_data :
    (found : Option SafetyData) (ts_hash : ℕ) (qc : Qc)
    → last_view (updated_data found ts_hash qc) ≡ some qc.view
unfolding updated_data last_qc
last_view-updated_data none ts_hash qc = last_view_of (updated_data none ts_hash qc) qc refl
last_view-updated_data (some info) ts_hash qc = last_view-update_qc info qc

module _ (ts_hash : ℕ) (qc : Qc) where
  lookup-update_account_ne :
      (stored : Map SafetyData) (k id : ℕ) (lock : LockType)
      → k ≢ id
      → lookup id (update_account stored ts_hash qc k lock) ≡ lookup id stored
  unfolding update_account
  lookup-update_account_ne stored k id lock ne =
      let differs : (k == id) ≡ false = ground (arith, ne) in
      ground (arith, differs, lookup-insert k id (updated_data (lookup k stored) ts_hash qc) stored)

  lookup-update_account_self :
      (stored : Map SafetyData) (id : ℕ) (lock : LockType)
      → lock ≢ no_lock
      → lookup id (update_account stored ts_hash qc id lock)
        ≡ some (updated_data (lookup id stored) ts_hash qc)
  unfolding update_account
  lookup-update_account_self stored id lock held =
      ground (arith, held, lookup-insert id id (updated_data (lookup id stored) ts_hash qc) stored)

  update_accounts-Absent :
      (stored : Map SafetyData) (id : ℕ) (locks : Map LockType)
      → Absent id locks
      → lookup id (update_accounts stored ts_hash qc locks) ≡ lookup id stored
  unfolding update_accounts
  update_accounts-Absent stored id [] h = refl
  update_accounts-Absent stored id ((k, lock) ∷ locks) h =
      update_accounts-Absent (update_account stored ts_hash qc k lock) id locks h.1
      ∙ lookup-update_account_ne stored k id lock h.0

  lookup-update_accounts :
      (stored : Map SafetyData) (id : ℕ) (lock : LockType) (locks : Map LockType)
      → UniqueKeys locks
      → lookup id locks ≡ some lock
      → lock ≢ no_lock
      → lookup id (update_accounts stored ts_hash qc locks)
        ≡ some (updated_data (lookup id stored) ts_hash qc)
  unfolding update_accounts lookup
  lookup-update_accounts stored id lock [] u e held = cc
  lookup-update_accounts stored id lock ((k, other) ∷ locks) u e held =
      elim (Bool-cases (k == id)) [
        | inl own ↦
            let same : k ≡ id = ground arith in
            let here : some other ≡ some lock = rw (lookup, own) at e in
            let lock_same : other ≡ lock = cc in
            update_accounts-Absent (update_account stored ts_hash qc k other) id locks
              (subst (λ (x : ℕ). Absent x locks) same u.0)
            ∙ subst
                (λ (x : ℕ).
                  lookup id (update_account stored ts_hash qc x other)
                  ≡ some (updated_data (lookup id stored) ts_hash qc))
                (sym same)
                (lookup-update_account_self stored id other (λ z. held (sym lock_same ∙ z)))
        | inr past ↦
            let ne : k ≢ id = λ z. ground (arith, z, past) in
            let later = rw (lookup, past) at e in
            lookup-update_accounts (update_account stored ts_hash qc k other) id lock locks u.1
              later held
            ∙ ap (λ (x : Option SafetyData). some (updated_data x ts_hash qc))
                (lookup-update_account_ne stored k id other ne)
      ]

get_latest_found :
    (store : Store) (id : ℕ) (meta : AccountMetaInfo) (info : SafetyData)
    → lookup id store.accounts ≡ some meta
    → lookup id store.safety_data ≡ some info
    → get_latest_safety_info store id ≡ some info
unfolding get_latest_safety_info
get_latest_found store id meta info e f = rw (get_latest_safety_info, e, f) refl

get_latest_same :
    (store : Store) (stored : Map SafetyData) (kept : Map Tesseract) (id : ℕ)
    → lookup id stored ≡ lookup id store.safety_data
    → get_latest_safety_info (record store { safety_data = stored; proposals = kept }) id
      ≡ get_latest_safety_info store id
unfolding get_latest_safety_info
get_latest_same store stored kept id e = ground (arith, e)

-- UpdateSafetyInfo of a tesseract and a certificate, with each account once in the locks, leaves the
-- view of the certificate as the last view of every registered account that the tesseract locks,
-- whether the view before was lower or higher; the safety info of an account that is not among them
-- stays; and after a prevote certificate the tesseract is found under its hash.
pub update_safety_info_lem :
    (store : Store) (ts : Tesseract) (qc : Qc)
    → UniqueKeys ts.account_locks
    → let t = update_safety_info store ts qc in
      ((id : ℕ) (meta : AccountMetaInfo) (lock : LockType)
        → lookup id store.accounts ≡ some meta
        → lookup id ts.account_locks ≡ some lock
        → lock ≢ no_lock
        → (info : SafetyData) × (get_latest_safety_info t id ≡ some info)
          × (last_view info ≡ some qc.view))
      × ((id : ℕ)
          → Absent id ts.account_locks
          → get_latest_safety_info t id ≡ get_latest_safety_info store id)
      × (qc.type ≡ prevote → lookup ts.hash t.proposals ≡ some ts)
unfolding update_safety_info
update_safety_info_lem store ts qc u = (
  λ id meta lock known locked held.
      let info = updated_data (lookup id store.safety_data) ts.hash qc in
      (
        info,
        get_latest_found (update_safety_info store ts qc) id meta info known (
            lookup-update_accounts ts.hash qc store.safety_data id lock ts.account_locks u locked
              held),
        last_view-updated_data (lookup id store.safety_data) ts.hash qc,
      ),
  λ id none_here.
      get_latest_same store (update_accounts store.safety_data ts.hash qc ts.account_locks)
        (update_safety_info store ts qc).proposals id
        (update_accounts-Absent ts.hash qc store.safety_data id ts.account_locks none_here),
  λ prepares. ground (arith, prepares, lookup-insert ts.hash ts.hash ts store.proposals),
)
