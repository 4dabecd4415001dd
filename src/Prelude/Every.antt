-- ===== src/Prelude/Every.antt =====
-- A property of every entry of a list.
use Prim.Native.Nat.{ℕ, zero, suc}
use mathlib.Core.Path.{◌≡◌, subst}
use mathlib.Core.Logic.{∥∥₁_elim}
use mathlib.Core.List.{List, [], ◌∷◌, ◌++◌, Permᴰ, Perm}
use mathlib.Core.Option.{some}
use testing_go_moi.Prelude.Lists.{get_elem?}

module _ {ℓ} {A : Type ℓ} where
  abbrev pub Each : (A → Type 0) → List A → Type 0
  Each P [] = Unit {0}
  Each P (x ∷ xs) = P x × Each P xs

  pub Each-map : (P Q : A → Type 0) (xs : List A) → ((a : A) → P a → Q a) → Each P xs → Each Q xs
  Each-map P Q [] f p = tt
  Each-map P Q (x ∷ xs) f p = (f x p.0, Each-map P Q xs f p.1)

module _ {ℓ} {A : Type ℓ} (P : A → Type 0) where
  pub Each-append : (xs ys : List A) → Each P xs → Each P ys → Each P (xs ++ ys)
  Each-append [] ys p q = q
  Each-append (x ∷ xs) ys p q = (p.0, Each-append xs ys p.1 q)

  pub Each-of_append : (xs ys : List A) → Each P (xs ++ ys) → Each P xs × Each P ys
  Each-of_append [] ys p = (tt, p)
  Each-of_append (x ∷ xs) ys p = let r = Each-of_append xs ys p.1 in ((p.0, r.0), r.1)

  pub Each-get_elem? : (xs : List A) (i : ℕ) {a : A} → Each P xs → get_elem? xs i ≡ some a → P a
  Each-get_elem? [] i p e = cc
  Each-get_elem? (x ∷ xs) zero p e = subst P (cc) p.0
  Each-get_elem? (x ∷ xs) (suc i) p e = Each-get_elem? xs i p.1 e

  pub Each-of_get_elem? :
      (xs : List A) → ((i : ℕ) (a : A) → get_elem? xs i ≡ some a → P a) → Each P xs
  Each-of_get_elem? [] h = tt
  Each-of_get_elem? (x ∷ xs) h =
      (h 0 x (λ i. some x), Each-of_get_elem? xs (λ i a e. h (suc i) a e))

  module _ (proposition : (a : A) → IsProp (P a)) where
    Each-prop : (xs : List A) → IsProp (Each P xs)
    Each-prop [] p q = λ i. tt
    Each-prop (x ∷ xs) p q = λ i. (proposition x p.0 q.0 i, Each-prop xs p.1 q.1 i)

  Each-Permᴰ : {xs ys : List A} → Permᴰ xs ys → Each P xs → Each P ys
  Each-Permᴰ Permᴰ.nil p = p
  Each-Permᴰ (Permᴰ.cons e s) p = (subst P e p.0, Each-Permᴰ s p.1)
  Each-Permᴰ (Permᴰ.swap e f) p = (subst P f p.1.0, (subst P e p.0, p.1.1))
  Each-Permᴰ (Permᴰ.trans s t) p = Each-Permᴰ t (Each-Permᴰ s p)

  pub Each-Perm : (xs ys : List A) → ((a : A) → IsProp (P a)) → Perm xs ys → Each P xs → Each P ys
  Each-Perm xs ys h s p = ∥∥₁_elim s (Each-prop h ys) (λ d. Each-Permᴰ d p)
