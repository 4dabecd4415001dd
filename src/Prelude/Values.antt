-- ===== src/Prelude/Values.antt =====
-- The values of a map, up to their order, after an insertion and after a deletion.
use mathlib.Core.Path.{◌≡◌, refl, subst, ap}
use mathlib.Core.Logic.{inl, inr}
use mathlib.Core.List.Perm
use mathlib.Core.List.{List, [], ◌∷◌, ◌++◌, Perm, append-nil, perm_middle}
use mathlib.Core.Option.{some}
use Prim.Native.Nat.{ℕ}
use native.Mathlib.Omega.{arith}
use testing_go_moi.Prelude.Tests.{◌==◌, Bool-cases}
use testing_go_moi.Prelude.Every.{Each}
use testing_go_moi.Prelude.Maps.{
  Map, lookup, insert, delete, Absent, UniqueKeys, delete-Absent, insert-Absent,
}

module _ {ℓ} {V : Type ℓ} where
  abbrev pub values : Map V → List V
  values [] = []
  values ((k, v) ∷ m) = v ∷ values m

  values-append : (m n : Map V) → values (m ++ n) ≡ values m ++ values n
  values-append [] n = refl
  values-append ((k, v) ∷ m) n = ap (◌∷◌ v) (values-append m n)

  -- A new key adds its value.
  pub values-insert :
      (k : ℕ) (v : V) (m : Map V) → Absent k m → Perm (values (insert k v m)) (v ∷ values m)
  values-insert k v m h =
      rw (insert-Absent k v m h, values-append m ((k, v) ∷ []))
        (rw (append-nil (values m)) at (perm_middle {a = v} (values m) []))

  -- A key that is there trades its value for the new one.
  pub values-replace :
      (k : ℕ) (v old : V) (m : Map V)
      → lookup k m ≡ some old
      → Perm (old ∷ values (insert k v m)) (v ∷ values m)
  unfolding lookup insert
  values-replace k v old [] e = cc
  values-replace k v old ((j, w) ∷ m) e = elim (Bool-cases (j == k)) [
    | inl same ↦
        let found : w ≡ old = ground (arith, e, same) in
        rw same (
          subst (λ (x : V). Perm (x ∷ v ∷ values m) (v ∷ w ∷ values m)) found
            (Perm.swap v w (values m)))
    | inr other ↦
        let later : lookup k m ≡ some old = ground (arith, e, other) in
        rw other (
          Perm.trans (Perm.swap w old (values (insert k v m)))
            (Perm.trans (Perm.cons w (values-replace k v old m later)) (Perm.swap v w (values m))))
  ]

  pub values-delete :
      (k : ℕ) (v : V) (m : Map V)
      → UniqueKeys m
      → lookup k m ≡ some v
      → Perm (values m) (v ∷ values (delete k m))
  unfolding lookup delete
  values-delete k v [] u e = cc
  values-delete k v ((j, w) ∷ m) u e = elim (Bool-cases (j == k)) [
    | inl same ↦
        let found : w ≡ v = ground (arith, e, same) in
        let key : j ≡ k = ground arith in
        rw (same, delete-Absent k m (subst (λ (i : ℕ). Absent i m) key u.0))
          (subst (λ (x : V). Perm (w ∷ values m) (x ∷ values m)) found Perm.rfl)
    | inr other ↦
        let later : lookup k m ≡ some v = ground (arith, e, other) in
        rw other (
          Perm.trans (Perm.cons w (values-delete k v m u.1 later))
            (Perm.swap v w (values (delete k m))))
  ]

  module _ (P : ℕ × V → Type 0) where
    pub Each-insert : (k : ℕ) (v : V) (m : Map V) → P (k, v) → Each P m → Each P (insert k v m)
    unfolding insert
    Each-insert k v [] new h = (new, tt)
    Each-insert k v ((j, w) ∷ m) new h = ground (arith, Each-insert k v m new h.1)

    pub Each-delete : (k : ℕ) (m : Map V) → Each P m → Each P (delete k m)
    unfolding delete
    Each-delete k [] h = tt
    Each-delete k ((j, w) ∷ m) h = ground (arith, Each-delete k m h.1)
