-- ===== src/Prelude/Maps.antt =====
-- A Go map whose keys are numbers, as an association list: insertion replaces or appends.
use Prim.Native.Nat.{ℕ}
use mathlib.Core.Path.{◌≡◌, refl, sym}
use mathlib.Core.Logic.{◌≢◌}
use mathlib.Core.List.{List, [], ◌∷◌, ◌++◌}
use mathlib.Core.Option.{Option, none, some}
use native.Mathlib.Omega.{arith}
use native.Mathlib.Decide.{ℕ_discrete}
use testing_go_moi.Prelude.Tests.{◌==◌, if◌then◌else◌, ==_iff, ==_refl}

abbrev pub Map {ℓ} : Type ℓ → Type ℓ
Map V = List (ℕ × V)

module _ {ℓ} {V : Type ℓ} where
  -- Every entry with the key goes.
  unfoldable pub delete : ℕ → Map V → Map V
  delete key [] = []
  delete key ((k, x) ∷ rest) =
      let others = delete key rest in if k == key then others else (k, x) ∷ others

  -- The first entry with the key counts.
  unfoldable pub lookup : ℕ → Map V → Option V
  lookup key [] = none
  lookup key ((k, x) ∷ rest) = let later = lookup key rest in if k == key then some x else later

  pub lookup-delete :
      (gone key : ℕ) (entries : Map V)
      → lookup key (delete gone entries) ≡ (if gone == key then none else lookup key entries)
  unfolding lookup delete
  lookup-delete gone key [] = ground arith
  lookup-delete gone key ((k, x) ∷ rest) = ground (arith, lookup-delete gone key rest)

  -- No key but those of the map.
  abbrev pub Absent : ℕ → Map V → Type 0
  Absent k [] = Unit {0}
  Absent k ((j, w) ∷ m) = (j ≢ k) × Absent k m

  abbrev pub UniqueKeys : Map V → Type 0
  UniqueKeys [] = Unit {0}
  UniqueKeys ((j, w) ∷ m) = Absent j m × UniqueKeys m

  unfoldable pub insert : ℕ → V → Map V → Map V
  insert key value [] = (key, value) ∷ []
  insert key value ((k, x) ∷ rest) =
      let others = insert key value rest in
      if k == key then (key, value) ∷ rest else (k, x) ∷ others

  pub lookup-insert :
      (new key : ℕ) (value : V) (entries : Map V)
      → lookup key (insert new value entries)
        ≡ (if new == key then some value else lookup key entries)
  unfolding lookup insert
  lookup-insert new key value [] = refl
  lookup-insert new key value ((k, x) ∷ rest) = ground (arith, lookup-insert new key value rest)

  pub Absent-lookup : (k : ℕ) (m : Map V) → Absent k m → lookup k m ≡ none
  unfolding lookup
  Absent-lookup k [] h = refl
  Absent-lookup k ((j, w) ∷ m) h = ground (arith, Absent-lookup k m h.1, h.0)

  pub Absent-of_lookup : (k : ℕ) (m : Map V) → lookup k m ≡ none → Absent k m
  unfolding lookup
  Absent-of_lookup k [] h = tt
  Absent-of_lookup k ((j, w) ∷ m) h = elim (ℕ_discrete j k) [
    | yes e ↦ ground arith
    | no ne ↦ (ne, Absent-of_lookup k m (ground arith))
  ]

  Absent-insert : (k j : ℕ) (v : V) (m : Map V) → j ≢ k → Absent k m → Absent k (insert j v m)
  unfolding insert
  Absent-insert k j v [] ne h = (ne, tt)
  Absent-insert k j v ((i, w) ∷ m) ne h = ground (arith, Absent-insert k j v m ne h.1)

  pub insert-UniqueKeys : (k : ℕ) (v : V) (m : Map V) → UniqueKeys m → UniqueKeys (insert k v m)
  unfolding insert
  insert-UniqueKeys k v [] u = (tt, tt)
  insert-UniqueKeys k v ((j, w) ∷ m) u = elim (ℕ_discrete j k) [
    | yes e ↦ rw ((==_iff j k).1 e, insert, ← e) u
    | no ne ↦
        ground (arith, insert-UniqueKeys k v m u.1, Absent-insert j k v m (λ e. ne (sym e)) u.0)
  ]

  Absent-delete : (k j : ℕ) (m : Map V) → Absent k m → Absent k (delete j m)
  unfolding delete
  Absent-delete k j [] h = tt
  Absent-delete k j ((i, w) ∷ m) h = ground (arith, Absent-delete k j m h.1)

  pub delete-UniqueKeys : (k : ℕ) (m : Map V) → UniqueKeys m → UniqueKeys (delete k m)
  unfolding delete
  delete-UniqueKeys k [] u = tt
  delete-UniqueKeys k ((j, w) ∷ m) u =
      ground (arith, delete-UniqueKeys k m u.1, Absent-delete j k m u.0)

  pub delete-Absent : (k : ℕ) (m : Map V) → Absent k m → delete k m ≡ m
  unfolding delete
  delete-Absent k [] h = refl
  delete-Absent k ((j, w) ∷ m) h = ground (arith, delete-Absent k m h.1, h.0)

  pub insert-Absent : (k : ℕ) (v : V) (m : Map V) → Absent k m → insert k v m ≡ m ++ (k, v) ∷ []
  unfolding insert
  insert-Absent k v [] h = refl
  insert-Absent k v ((j, w) ∷ m) h = ground (arith, insert-Absent k v m h.1, h.0)

  -- Deleting a key that was inserted anew gives the map before.
  pub delete-insert-Absent : (k : ℕ) (v : V) (m : Map V) → Absent k m → delete k (insert k v m) ≡ m
  unfolding delete insert
  delete-insert-Absent k v [] h = rw ==_refl
  delete-insert-Absent k v ((j, w) ∷ m) h = ground (arith, delete-insert-Absent k v m h.1, h.0)
