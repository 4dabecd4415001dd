-- ===== src/Safety/Heights.antt =====
-- consensus/ics_handler.go: the greatest heights of the participants of the views' tesseracts.
use testing_go_moi.Prelude.{
  ℕ, ◌≤◌, ◌≡◌, ◌⊎◌, inl, inr, refl, ap, subst, some, [], ◌∷◌, leb, ◌==◌, Bool-cases, Option-cases,
  Each, Map, lookup, insert, lookup-insert, ==_refl, arith,
}
use testing_go_moi.Votes.{prevote, precommit}
use testing_go_moi.Height.{Qc}
use testing_go_moi.Safety.Locks.{IdentifierInfo, add_height, add_heights}

abbrev pub IsCertificate : ℕ → Type 0
IsCertificate type = (type ≡ prevote) ⊎ (type ≡ precommit)

-- The height is no more than the participant's greatest, which a certificate of either kind has.
pub record AtMost (heights : Map IdentifierInfo) (id height : ℕ) : Type 0 where
  pub max : IdentifierInfo
  pub found : lookup id heights ≡ some max
  pub bounded : height ≤ max.height
  pub certified : IsCertificate max.lock

-- What is bounded by the first heights is bounded by the second.
abbrev pub Raised : Map IdentifierInfo → Map IdentifierInfo → Type 0
Raised old new = (id height : ℕ) → AtMost old id height → AtMost new id height

insert-Raised :
    (heights : Map IdentifierInfo) (id : ℕ) (info : IdentifierInfo)
    → IsCertificate info.lock
    → ((old : IdentifierInfo) → lookup id heights ≡ some old → old.height ≤ info.height)
    → Raised heights (insert id info heights)
insert-Raised heights id info c higher k height b = elim (Bool-cases (id == k)) [
  | inl own ↦
      let same : k ≡ id = ground arith in
      let old : lookup id heights ≡ some b.max =
        subst (λ (x : ℕ). lookup x heights ≡ some b.max) same b.found in
      record {
        max = info;
        found = rw (lookup-insert id k info heights, own) refl;
        bounded = omega (arith, b.bounded, higher b.max old);
        certified = c;
      }
  | inr other ↦ record {
    max = b.max;
    found = rw (lookup-insert id k info heights, other) b.found;
    bounded = b.bounded;
    certified = b.certified;
  }
]

abbrev pub info_of : Qc → ℕ → IdentifierInfo
info_of qc height = record { height = height; lock = qc.type; view = qc.view }

abbrev pub IsCertified : Map IdentifierInfo → Type 0
IsCertified heights =
    (id : ℕ) (info : IdentifierInfo) → lookup id heights ≡ some info → IsCertificate info.lock

module _ (qc : Qc) (c : IsCertificate qc.type) where
  add_height-cases :
      (heights : Map IdentifierInfo) (id height : ℕ)
      → ((add_height qc heights id height ≡ heights)
          × ((info : IdentifierInfo) × (lookup id heights ≡ some info) × (height ≤ info.height)))
        ⊎ ((add_height qc heights id height ≡ insert id (info_of qc height) heights)
            × ((old : IdentifierInfo) → lookup id heights ≡ some old → old.height ≤ height))
  unfolding add_height
  add_height-cases heights id height = elim (Option-cases (lookup id heights)) [
    | inl missing ↦ inr (rw (add_height, missing) refl, λ old e. absurd (cc (missing, e)))
    | inr info ↦ elim (Bool-cases (leb height info.0.height)) [
      | inl below ↦ inl (rw (add_height, info.1, below) refl, (info.0, info.1, ground arith))
      | inr above ↦ inr (
        rw (add_height, info.1, above) refl,
        λ old e.
            let same : info.0 ≡ old = cc (info.1, e) in
            let height_same = ap (λ (x : IdentifierInfo). x.height) same in
            ground (arith, above, height_same),
      )
    ]
  ]

  -- What adding the heights of a tesseract does to the greatest heights.
  abbrev pub Adds : Map IdentifierInfo → Map IdentifierInfo → Map ℕ → Type 0
  Adds old new ps =
      Raised old new × (IsCertified old → IsCertified new × Each (λ p. AtMost new p.0 p.1) ps)

  add_height-Adds :
      (heights : Map IdentifierInfo) (id height : ℕ)
      → Adds heights (add_height qc heights id height) ((id, height) ∷ [])
  add_height-Adds heights id height = elim (add_height-cases heights id height) [
    | inl (same, (info, found, below)) ↦ rw same (
      λ k h b. b,
      λ certified. (
        certified,
        (
          record {
            max = info;
            found = found;
            bounded = below;
            certified = certified id info found;
          },
          tt,
        ),
      ),
    )
    | inr (same, higher) ↦
        let info = info_of qc height in
        rw same (
          insert-Raised heights id info c higher,
          λ certified. (
            λ k other e. elim (Bool-cases (id == k)) [
              | inl own ↦
                  let own_info : some info ≡ some other =
                    rw (lookup-insert id k info heights, own) at e in
                  let same_info : info ≡ other = cc in
                  subst (λ (x : IdentifierInfo). IsCertificate x.lock) same_info c
              | inr past ↦ certified k other (rw (lookup-insert id k info heights, past) at e)
            ],
            (
              record {
                max = info;
                found = rw (lookup-insert id id info heights, ==_refl) refl;
                bounded = omega arith;
                certified = c;
              },
              tt,
            ),
          ),
        )
  ]

  pub add_heights-Adds :
      (heights : Map IdentifierInfo) (ps : Map ℕ) → Adds heights (add_heights qc heights ps) ps
  unfolding add_heights
  add_heights-Adds heights [] = (λ k h b. b, λ certified. (certified, tt))
  add_heights-Adds heights ((id, height) ∷ ps) =
      let next = add_height qc heights id height in
      let (raised, first) = add_height-Adds heights id height in
      let (later, rest) = add_heights-Adds next ps in
      (
        λ k h b. later k h (raised k h b),
        λ certified.
            let (now, here) = first certified in
            let (kept, there) = rest now in (kept, (later id height here.0, there)),
      )
