-- ===== src/Safety/Keeping.antt =====
-- consensus/ics_handler.go: at an equal height the first certificate of a participant stays.
use testing_go_moi.Prelude.{
  ℕ, zero, suc, ◌≤◌, ◌≡◌, ◌≢◌, refl, sym, ap, ◌∙◌, inl, inr, subst, none, some, [], ◌∷◌, leb, ◌==◌,
  Bool-cases, Option-cases, Each, Each-map, Map, lookup, insert, lookup-insert, Absent, UniqueKeys,
  get_elem?, ==_refl, arith,
}
use testing_go_moi.Height.{Qc}
use testing_go_moi.Safety.Locks.{IdentifierInfo, add_height, add_heights}
use testing_go_moi.Safety.Heights.{info_of}

-- None of the heights of the participant is greater.
abbrev pub Below : ℕ → ℕ → Map ℕ → Type 0
Below id height ps = Each (λ p. p.0 ≡ id → p.1 ≤ height) ps

-- The heights have the certificate's type, view and height for each participant.
abbrev pub Kept : Qc → Map IdentifierInfo → Map ℕ → Type 0
Kept qc heights ps = Each (λ p. lookup p.0 heights ≡ some (info_of qc p.1)) ps

-- Every greatest height is one of a certificate of the type.
abbrev pub AllOf : ℕ → Map IdentifierInfo → Type 0
AllOf type heights =
    (id : ℕ) (info : IdentifierInfo) → lookup id heights ≡ some info → info.lock ≡ type

Below-Absent : (id height : ℕ) (ps : Map ℕ) → Absent id ps → Below id height ps
Below-Absent id height [] a = tt
Below-Absent id height ((k, n) ∷ ps) a = (λ e. absurd (a.0 e), Below-Absent id height ps a.1)

module _ (qc : Qc) where
  add_height-keeps :
      (heights : Map IdentifierInfo) (id height k : ℕ) (info : IdentifierInfo)
      → lookup k heights ≡ some info
      → (id ≡ k → height ≤ info.height)
      → lookup k (add_height qc heights id height) ≡ some info
  unfolding add_height
  add_height-keeps heights id height k info at below = elim (Bool-cases (id == k)) [
    | inl own ↦
        let same : id ≡ k = ground arith in
        let here : lookup id heights ≡ some info = rw same at in
        rw (here, add_height) (ground (arith, below same, at))
    | inr other ↦ ground (arith, at, other, lookup-insert id k (info_of qc height) heights)
  ]

  -- What has a height that no participant exceeds stays.
  pub add_heights-keeps :
      (heights : Map IdentifierInfo) (ps : Map ℕ) (k : ℕ) (info : IdentifierInfo)
      → lookup k heights ≡ some info
      → Below k info.height ps
      → lookup k (add_heights qc heights ps) ≡ some info
  unfolding add_heights
  add_heights-keeps heights [] k info at below = at
  add_heights-keeps heights ((id, height) ∷ ps) k info at below =
      add_heights-keeps (add_height qc heights id height) ps k info
        (add_height-keeps heights id height k info at below.0) below.1

  add_height_fresh :
      (heights : Map IdentifierInfo) (id height : ℕ)
      → lookup id heights ≡ none
      → add_height qc heights id height ≡ insert id (info_of qc height) heights
  unfolding add_height
  add_height_fresh heights id height e = rw (add_height, e) refl

  Fresh-insert :
      (heights : Map IdentifierInfo) (id : ℕ) (info : IdentifierInfo) (ps : Map ℕ)
      → Absent id ps
      → Each (λ p. lookup p.0 heights ≡ none) ps
      → Each (λ p. lookup p.0 (insert id info heights) ≡ none) ps
  Fresh-insert heights id info [] a f = tt
  Fresh-insert heights id info ((k, n) ∷ ps) a f = (
    ground (arith, a.0, f.0, lookup-insert id k info heights),
    Fresh-insert heights id info ps a.1 f.1,
  )

  -- A tesseract whose participants have no heights yet gives its own.
  pub add_heights-Kept :
      (heights : Map IdentifierInfo) (ps : Map ℕ)
      → UniqueKeys ps
      → Each (λ p. lookup p.0 heights ≡ none) ps
      → Kept qc (add_heights qc heights ps) ps
  unfolding add_heights
  add_heights-Kept heights [] u f = tt
  add_heights-Kept heights ((id, height) ∷ ps) u f =
      let info = info_of qc height in
      let next = insert id info heights in
      subst
        (λ (m : Map IdentifierInfo).
          (lookup id (add_heights qc m ps) ≡ some info) × Kept qc (add_heights qc m ps) ps)
        (sym (add_height_fresh heights id height f.0))
        (
          add_heights-keeps next ps id info (rw (lookup-insert id id info heights, ==_refl) refl)
              (Below-Absent id height ps u.0),
          add_heights-Kept next ps u.1 (Fresh-insert heights id info ps u.0 f.1),
        )

  add_height-AllOf :
      (heights : Map IdentifierInfo) (id height : ℕ)
      → AllOf qc.type heights
      → AllOf qc.type (add_height qc heights id height)
  unfolding add_height
  add_height-AllOf heights id height all k info = elim (Option-cases (lookup id heights)) [
    | inl missing ↦ rw (missing, add_height) (inserted k info)
    | inr old ↦ elim (Bool-cases (leb height old.0.height)) [
      | inl below ↦ rw (old.1, add_height, below) (all k info)
      | inr above ↦ rw (old.1, add_height, above) (inserted k info)
    ]
  ]
    where
      inserted : AllOf qc.type (insert id (info_of qc height) heights)
      inserted j other e = elim (Bool-cases (id == j)) [
        | inl own ↦
            let same : some (info_of qc height) ≡ some other =
              rw (lookup-insert id j (info_of qc height) heights, own) at e in
            let this : info_of qc height ≡ other = cc in
            ap (λ (x : IdentifierInfo). x.lock) (sym this)
        | inr past ↦ all j other (rw (lookup-insert id j (info_of qc height) heights, past) at e)
      ]

  pub add_heights-AllOf :
      (heights : Map IdentifierInfo) (ps : Map ℕ)
      → AllOf qc.type heights
      → AllOf qc.type (add_heights qc heights ps)
  unfolding add_heights
  add_heights-AllOf heights [] all = all
  add_heights-AllOf heights ((id, height) ∷ ps) all =
      add_heights-AllOf (add_height qc heights id height) ps
        (add_height-AllOf heights id height all)

-- The heights of a first certificate stay when the participants of another have no greater ones.
pub add_heights-stay :
    (qc other : Qc) (heights : Map IdentifierInfo) (ps others : Map ℕ)
    → Each (λ q. Each (λ p. p.0 ≡ q.0 → q.1 ≤ p.1) ps) others
    → Kept qc heights ps
    → Kept qc (add_heights other heights others) ps
add_heights-stay qc other heights [] others behind kept = tt
add_heights-stay qc other heights ((id, height) ∷ ps) others behind kept = (
  add_heights-keeps other heights others id (info_of qc height) kept.0 (
      Each-map (λ q. Each (λ p. p.0 ≡ q.0 → q.1 ≤ p.1) ((id, height) ∷ ps))
        (λ q. q.0 ≡ id → q.1 ≤ height) others (λ q b e. b.0 (sym e)) behind),
  add_heights-stay qc other heights ps others
      (Each-map (λ q. Each (λ p. p.0 ≡ q.0 → q.1 ≤ p.1) ((id, height) ∷ ps))
        (λ q. Each (λ p. p.0 ≡ q.0 → q.1 ≤ p.1) ps) others (λ q b. b.1) behind)
      kept.1,
)

Absent-get_elem? :
    (ps : Map ℕ) (i k id height : ℕ) → Absent k ps → get_elem? ps i ≡ some (id, height) → id ≢ k
Absent-get_elem? [] i k id height a e = absurd (cc (e))
Absent-get_elem? ((j, n) ∷ ps) zero k id height a e =
    let own : j ≡ id = cc (e) in λ same. a.0 (own ∙ same)
Absent-get_elem? ((j, n) ∷ ps) (suc i) k id height a e = Absent-get_elem? ps i k id height a.1 e

-- With unique keys the participant has no height but its own.
pub UniqueKeys-Below :
    (ps : Map ℕ) (i id height : ℕ)
    → UniqueKeys ps
    → get_elem? ps i ≡ some (id, height)
    → Below id height ps
UniqueKeys-Below [] i id height u e = tt
UniqueKeys-Below ((k, n) ∷ ps) zero id height u e =
    let own : k ≡ id = cc (e) in
    let its : n ≡ height = cc (e) in
    (λ same. ground (arith, its), Below-Absent id height ps (subst (λ x. Absent x ps) own u.0))
UniqueKeys-Below ((k, n) ∷ ps) (suc i) id height u e = (
  λ same. absurd (Absent-get_elem? ps i k id height u.0 e (sym same)),
  UniqueKeys-Below ps i id height u.1 e,
)
