-- ===== src/Safety/Order.antt =====
-- consensus/ics_handler.go: a lock among commits at the same height.
use testing_go_moi.Prelude.{
  ℕ, zero, suc, ◌≤◌, ◌≡◌, refl, ◌∙◌, inl, inr, subst, true, false, Option, none, some, List, [],
  ◌∷◌, ◌++◌, ==_refl, ltb_irrefl, Each, Each-map, Each-get_elem?, Map, lookup, insert, UniqueKeys,
  get_elem?, arith, Option-cases,
}
use mathlib.Core.List.{append-nil}
use testing_go_moi.Votes.{prevote, precommit}
use testing_go_moi.Height.{Qc}
use testing_go_moi.Safety.{Tesseract, Store, delete_locked_tesseract_info}
use testing_go_moi.Safety.Locks.{
  ViewInfo, has_lock, LockedInfo, IdentifierInfo, LockStatus, add_heights, collect, is_outdated_at,
  is_outdated, remove_outdated, find_for, lock_of, evaluate_locked_tesseracts, get_lock_status,
}
use testing_go_moi.Safety.Heights.{IsCertificate, IsCertified, AtMost}
use testing_go_moi.Safety.Collecting.{Head, Seen, collect-Seen}
use testing_go_moi.Safety.Keeping.{
  Below, Kept, add_heights-keeps, add_heights-Kept, UniqueKeys-Below,
}
use testing_go_moi.Safety.Commits.{Certifies, Commits, Meet, has_lock_last, collect-Commits}

module _ (find : ℕ → Option Tesseract) (ts : Tesseract) where
  module _ (store : Store) (x : ℕ) (lock : ViewInfo) (l : Certifies find lock prevote)
      (its : l.ts ≡ ts) (unique : UniqueKeys ts.participants) where
    abbrev own : LockedInfo
    own = record { view = l.qc.view; ts = ts }

    collect-lock :
        (heights : Map IdentifierInfo) (more : List ViewInfo)
        → collect find [] heights (lock ∷ more)
          ≡ collect find ((l.qc.ts_hash, own) ∷ []) (add_heights l.qc heights ts.participants) more
    unfolding collect insert
    collect-lock heights more = rw (l.first, collect, l.found, l.of_type, its) refl

    has_lock_first : (views : List ViewInfo) → has_lock (lock ∷ views) ≡ true
    unfolding has_lock
    has_lock_first views = rw (l.first, has_lock) (ground (arith, l.of_type))

    Kept-current :
        (heights : Map IdentifierInfo) (ps : Map ℕ)
        → Kept l.qc heights ps
        → is_outdated heights l.qc.view ps ≡ false
    unfolding is_outdated is_outdated_at
    Kept-current heights [] k = refl
    Kept-current heights ((id, height) ∷ ps) k =
        rw (k.0, is_outdated, l.of_type, ltb_irrefl height, ltb_irrefl l.qc.view, ==_refl height)
          (Kept-current heights ps k.1)

    -- A precommit certificate at the height, or above it, outdates.
    outdated :
        (heights : Map IdentifierInfo) (ps : Map ℕ) (i id height : ℕ) (max : IdentifierInfo)
        → get_elem? ps i ≡ some (id, height)
        → lookup id heights ≡ some max
        → max.lock ≡ precommit
        → height ≤ max.height
        → is_outdated heights l.qc.view ps ≡ true
    unfolding is_outdated is_outdated_at
    outdated heights [] i id height max e f c b = absurd (cc e)
    outdated heights ((k, n) ∷ ps) zero id height max e f c b =
        let same_id : k ≡ id = cc (e) in
        let same : n ≡ height = cc (e) in
        let here : lookup k heights ≡ some max = rw same_id f in
        rw (here, is_outdated, c) (ground (arith, b, same))
    outdated heights ((k, n) ∷ ps) (suc i) id height max e f c b =
        let later = outdated heights ps i id height max e f c b in
        elim (Option-cases (lookup k heights)) [
          | inl missing ↦ rw (missing, is_outdated) later
          | inr other ↦ rw (other.1, is_outdated, later) (ground arith)
        ]

    none_yet : (ps : Map ℕ) → Each (λ p. lookup {V = IdentifierInfo} p.0 [] ≡ none) ps
    unfolding lookup
    none_yet [] = tt
    none_yet (p ∷ ps) = (refl, none_yet ps)

    module _ (commits : List ViewInfo) (each : Each (Commits find ts) commits) where
      current_lock :
          (after : Map IdentifierInfo) × (collect find [] [] (lock ∷ commits)
            ≡ some ((l.qc.ts_hash, own) ∷ [], after))
          × (is_outdated after l.qc.view ts.participants ≡ false)
      unfolding collect
      current_lock =
          let heights = add_heights l.qc [] ts.participants in
          let kept : Kept l.qc heights ts.participants =
            add_heights-Kept l.qc [] ts.participants unique (none_yet ts.participants) in
          let (after, same, keeps, _) = collect-Commits find ts heights commits each in
          (
            after,
            collect-lock [] commits
                ∙ subst
                    (λ vs.
                      collect find ((l.qc.ts_hash, own) ∷ []) heights vs
                      ≡ some ((l.qc.ts_hash, own) ∷ [], after))
                    (append-nil commits) (same ((l.qc.ts_hash, own) ∷ []) []),
            Kept-current after ts.participants (keeps l.qc kept),
          )

      is_commit : (v : ViewInfo) → Commits find ts v → Head (λ qc. IsCertificate qc.type) v
      is_commit v (c, _) qc rest e =
          let same : c.qc ≡ qc = cc (c.first, e) in
          subst (λ (q : Qc). IsCertificate q.type) same (inr c.of_type)

      outdated_lock :
          (k : ℕ) (v : ViewInfo) (c : Certifies find v precommit)
          → get_elem? commits k ≡ some v
          → Meet ts c.ts
          → (after : Map IdentifierInfo) × (collect find [] [] (commits ++ lock ∷ [])
              ≡ some ((l.qc.ts_hash, own) ∷ [], after))
            × (is_outdated after l.qc.view ts.participants ≡ true)
      unfolding collect
      outdated_lock k v c at m =
          let (heights, same, _, all) = collect-Commits find ts [] commits each in
          let collected : collect find [] [] commits ≡ some ([], heights) =
            subst (λ vs. collect find [] [] vs ≡ some ([], heights)) (append-nil commits)
              (same [] []) in
          let nothing : IsCertified [] = λ id info e. absurd (unfold lookup in cc (e)) in
          let (_, seen) =
            collect-Seen find [] [] commits ([], heights)
              (Each-map (Commits find ts) (Head (λ qc. IsCertificate qc.type)) commits is_commit
                each)
              nothing collected in
          let met : AtMost heights m.id m.height =
            Each-get_elem? (λ q. AtMost heights q.0 q.1) c.ts.participants m.other_place
              (Each-get_elem? (Head (Seen find heights)) commits k seen at c.qc c.rest c.first c.ts
                c.found)
              m.there in
          let committed : met.max.lock ≡ precommit =
            all (λ id info e. absurd (unfold lookup in cc (e))) m.id met.max met.found in
          let below : Below m.id met.max.height ts.participants =
            Each-map (λ p. p.0 ≡ m.id → p.1 ≤ m.height) (λ p. p.0 ≡ m.id → p.1 ≤ met.max.height)
              ts.participants (λ p b e. omega (arith, b e, met.bounded))
              (UniqueKeys-Below ts.participants m.place m.id m.height unique m.here) in
          let after = add_heights l.qc heights ts.participants in
          (
            after,
            same [] (lock ∷ []) ∙ collect-lock heights [],
            outdated after ts.participants m.place m.id m.height met.max m.here
                (add_heights-keeps l.qc heights ts.participants m.id met.max met.found below)
                committed met.bounded,
          )

      -- A view info has a prevote certificate for a tesseract for the interactions of the cluster,
      -- with each participant once; every other view info has a precommit certificate for a
      -- tesseract in which no participant of the first has a greater height, and one of these has a
      -- participant of the first at the same height. If the lock comes before all the commits,
      -- getLockStatus gives it as a valid lock; if it comes after them, the lock is removed as
      -- outdated.
      pub get_lock_status_by_order :
          (k : ℕ) (v : ViewInfo) (c : Certifies find v precommit)
          → get_elem? commits k ≡ some v
          → Meet ts c.ts
          → ts.interactions_hash ≡ x
          → (get_lock_status find store (lock ∷ commits) x
              ≡ some (store, some ts, LockStatus.valid_lock))
            × (get_lock_status find store (commits ++ lock ∷ []) x
                ≡ some ((delete_locked_tesseract_info store ts).0, none, LockStatus.no_lock))
      unfolding get_lock_status evaluate_locked_tesseracts remove_outdated lock_of find_for
      get_lock_status_by_order k v c at m for =
          let (first, collected, current) = current_lock in
          let (last, gathered, gone) = outdated_lock k v c at m in
          (
            rw
                (
                  has_lock_first commits,
                  get_lock_status,
                  evaluate_locked_tesseracts,
                  collected,
                  remove_outdated,
                  current,
                  lock_of,
                  find_for,
                  for,
                  ==_refl x,
                )
                refl,
            rw
                (
                  has_lock_last commits lock l.qc l.rest l.first l.of_type,
                  get_lock_status,
                  evaluate_locked_tesseracts,
                  gathered,
                  remove_outdated,
                  gone,
                )
                refl,
          )
