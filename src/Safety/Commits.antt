-- ===== src/Safety/Commits.antt =====
-- consensus/ics_handler.go: the views' precommit certificates beside one lock.
use testing_go_moi.Prelude.{
  ℕ, ◌≡◌, refl, sym, inl, inr, subst, true, false, Option, some, List, [], ◌∷◌, ◌++◌, ◌==◌, Each,
  Map, get_elem?, arith,
}
use testing_go_moi.Votes.{prevote, precommit}
use testing_go_moi.Height.{Qc}
use testing_go_moi.Safety.{Tesseract}
use testing_go_moi.Safety.Locks.{
  ViewInfo, has_lock, LockedInfo, IdentifierInfo, add_heights, collect,
}
use testing_go_moi.Safety.Collecting.{Qcs-cases}
use testing_go_moi.Safety.Locked.{NotBehind}
use testing_go_moi.Safety.Keeping.{Kept, AllOf, add_heights-AllOf, add_heights-stay}

-- The certificate that the view info stands for, and the tesseract that is found for it.
pub record Certifies (find : ℕ → Option Tesseract) (v : ViewInfo) (type : ℕ) : Type 0 where
  pub qc : Qc
  pub rest : List Qc
  pub ts : Tesseract
  pub first : v.qc ≡ qc ∷ rest
  pub of_type : qc.type ≡ type
  pub found : find qc.ts_hash ≡ some ts

-- A precommit certificate of a tesseract that is ahead of the given one at no participant.
abbrev pub Commits : (ℕ → Option Tesseract) → Tesseract → ViewInfo → Type 0
Commits find ts v = (c : Certifies find v precommit) × NotBehind ts c.ts

-- A participant that both tesseracts have, at the same height.
pub record Meet (ts other : Tesseract) : Type 0 where
  pub id : ℕ
  pub height : ℕ
  pub place : ℕ
  pub other_place : ℕ
  pub here : get_elem? ts.participants place ≡ some (id, height)
  pub there : get_elem? other.participants other_place ≡ some (id, height)

pub has_lock_last :
    (views : List ViewInfo) (v : ViewInfo) (qc : Qc) (rest : List Qc)
    → v.qc ≡ qc ∷ rest
    → qc.type ≡ prevote
    → has_lock (views ++ v ∷ []) ≡ true
unfolding has_lock
has_lock_last [] v qc rest e t = rw (e, has_lock) (ground (arith, t))
has_lock_last (w ∷ views) v qc rest e t = elim (Qcs-cases w.qc) [
  | inl f ↦ rw (f, has_lock) (has_lock_last views v qc rest e t)
  | inr (other, others, f) ↦ rw (f, has_lock, has_lock_last views v qc rest e t) (ground arith)
]

module _ (find : ℕ → Option Tesseract) (ts : Tesseract) where
  -- Commits lock nothing, and keep what they are not ahead of.
  pub collect-Commits :
      (heights : Map IdentifierInfo) (commits : List ViewInfo)
      → Each (Commits find ts) commits
      → (after : Map IdentifierInfo) × ((locked : Map LockedInfo) (more : List ViewInfo)
          → collect find locked heights (commits ++ more) ≡ collect find locked after more)
        × ((qc : Qc) → Kept qc heights ts.participants → Kept qc after ts.participants)
        × (AllOf precommit heights → AllOf precommit after)
  unfolding collect
  collect-Commits heights [] each = (heights, λ locked more. refl, λ qc k. k, λ a. a)
  collect-Commits heights (v ∷ commits) ((c, behind), each) =
      let next = add_heights c.qc heights c.ts.participants in
      let (after, same, keeps, all) = collect-Commits next commits each in
      let no_prevote : (c.qc.type == prevote) ≡ false = ground (arith, c.of_type) in
      (
        after,
        λ locked more. rw (c.first, collect, c.found, no_prevote) (same locked more),
        λ qc k.
            keeps qc (add_heights-stay qc c.qc heights ts.participants c.ts.participants behind k),
        λ a. all (
            subst (λ y. AllOf y next) c.of_type
              (add_heights-AllOf c.qc heights c.ts.participants
                (subst (λ y. AllOf y heights) (sym c.of_type) a))),
      )
