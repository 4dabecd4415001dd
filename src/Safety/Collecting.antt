-- ===== src/Safety/Collecting.antt =====
-- consensus/ics_handler.go: the heights of each tesseract of the views are collected.
use testing_go_moi.Prelude.{
  ℕ, ◌≡◌, ◌⊎◌, inl, inr, refl, sym, ap, ◌∙◌, subst, Option, none, some, List, [], ◌∷◌, ◌==◌,
  if◌then◌else◌, Option-cases, Each, Each-map, Map, insert,
}
use testing_go_moi.Votes.{prevote}
use testing_go_moi.Height.{Qc}
use testing_go_moi.Safety.{Tesseract}
use testing_go_moi.Safety.Locks.{ViewInfo, LockedInfo, IdentifierInfo, add_heights, collect}
use testing_go_moi.Safety.Heights.{IsCertificate, AtMost, Raised, IsCertified, add_heights-Adds}

pub Qcs-cases : (qcs : List Qc) → (qcs ≡ []) ⊎ ((qc : Qc) × (rest : List Qc) × (qcs ≡ qc ∷ rest))
Qcs-cases [] = inl refl
Qcs-cases (qc ∷ rest) = inr (qc, rest, refl)

-- A property of the certificate that a view info stands for.
abbrev pub Head : (Qc → Type 0) → ViewInfo → Type 0
Head P v = (qc : Qc) (rest : List Qc) → v.qc ≡ qc ∷ rest → P qc

module _ (find : ℕ → Option Tesseract) where
  -- The heights of the tesseract that is found are among the heights.
  abbrev pub Seen : Map IdentifierInfo → Qc → Type 0
  Seen heights qc =
      (ts : Tesseract)
      → find qc.ts_hash ≡ some ts
      → Each (λ p. AtMost heights p.0 p.1) ts.participants

  Raised-Seen :
      (old new : Map IdentifierInfo)
      → Raised old new
      → (v : ViewInfo) → Head (Seen old) v
      → Head (Seen new) v
  Raised-Seen old new raised v seen qc rest e ts f =
      Each-map (λ p. AtMost old p.0 p.1) (λ p. AtMost new p.0 p.1) ts.participants
        (λ p b. raised p.0 p.1 b) (seen qc rest e ts f)

  collect_empty :
      (locked : Map LockedInfo) (heights : Map IdentifierInfo) (v : ViewInfo)
      (views : List ViewInfo)
      → v.qc ≡ []
      → collect find locked heights (v ∷ views) ≡ collect find locked heights views
  unfolding collect
  collect_empty locked heights v views e = rw (collect, e) refl

  collect_missing :
      (locked : Map LockedInfo) (heights : Map IdentifierInfo) (v : ViewInfo)
      (views : List ViewInfo) (qc : Qc) (rest : List Qc)
      → v.qc ≡ qc ∷ rest
      → find qc.ts_hash ≡ none
      → collect find locked heights (v ∷ views) ≡ none
  unfolding collect
  collect_missing locked heights v views qc rest e f = rw (collect, e, f) refl

  collect_found :
      (locked : Map LockedInfo) (heights : Map IdentifierInfo) (v : ViewInfo)
      (views : List ViewInfo) (qc : Qc) (rest : List Qc) (ts : Tesseract)
      → v.qc ≡ qc ∷ rest
      → find qc.ts_hash ≡ some ts
      → (next : Map LockedInfo) × (collect find locked heights (v ∷ views)
          ≡ collect find next (add_heights qc heights ts.participants) views)
  unfolding collect
  collect_found locked heights v views qc rest ts e f = (
    if qc.type == prevote
        then insert qc.ts_hash (record { view = qc.view; ts = ts }) locked
        else locked,
    rw (collect, e, f) refl,
  )

  pub collect-Seen :
      (locked : Map LockedInfo) (heights : Map IdentifierInfo) (views : List ViewInfo)
      (c : Map LockedInfo × Map IdentifierInfo)
      → Each (Head (λ qc. IsCertificate qc.type)) views
      → IsCertified heights
      → collect find locked heights views ≡ some c
      → Raised heights c.1 × Each (Head (Seen c.1)) views
  unfolding collect
  collect-Seen locked heights [] c certificates certified e =
      let same : (locked, heights) ≡ c = cc in
      subst (λ (x : Map LockedInfo × Map IdentifierInfo). Raised heights x.1 × Unit {0}) same
        (λ k h b. b, tt)
  collect-Seen locked heights (v ∷ views) c certificates certified e = elim (Qcs-cases v.qc) [
    | inl empty ↦
        let (raised, seen) =
          collect-Seen locked heights views c certificates.1 certified
            (sym (collect_empty locked heights v views empty) ∙ e) in
        (raised, (λ qc rest at. absurd (cc (at, empty)), seen))
    | inr (qc, rest, at) ↦ elim (Option-cases (find qc.ts_hash)) [
      | inl missing ↦ absurd (cc (collect_missing locked heights v views qc rest at missing, e))
      | inr (ts, found) ↦
          let (next, step) = collect_found locked heights v views qc rest ts at found in
          let added = add_heights qc heights ts.participants in
          let (first, adds) =
            add_heights-Adds qc (certificates.0 qc rest at) heights ts.participants in
          let (now, here) = adds certified in
          let (raised, seen) = collect-Seen next added views c certificates.1 now (sym step ∙ e) in
          (
            λ k h b. raised k h (first k h b),
            (
              λ other others also ts2 found2.
                  let same_qc : qc ≡ other = cc (at, also) in
                  let hash_same = ap (λ (x : Qc). x.ts_hash) same_qc in
                  let same : ts ≡ ts2 = cc (found, found2, hash_same) in
                  subst (λ (x : Tesseract). Each (λ p. AtMost c.1 p.0 p.1) x.participants) same
                    (Each-map (λ p. AtMost added p.0 p.1) (λ p. AtMost c.1 p.0 p.1) ts.participants
                      (λ p b. raised p.0 p.1 b) here),
              seen,
            ),
          )
    ]
  ]
