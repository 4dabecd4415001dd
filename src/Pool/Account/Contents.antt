-- ===== src/Pool/Account/Contents.antt =====
-- ixpool/account.go: the interactions of an account queue, each in one of its two queues and under its
-- sequence id in `sequenceIDToIX`.
use mathlib.Core.List.Perm
use mathlib.Core.List.{Perm}
use mathlib.Core.Option as Option
use native.Mathlib.Nat.{ℕ_set}
use testing_go_moi.Prelude.{
  ℕ, ◌≡◌, subst, some, List, [], ◌∷◌, ◌++◌, ◌==◌, Each, Each-map, Each-Perm, Bool-cases, inl, inr,
  values, Absent-lookup, Map, lookup, Absent, UniqueKeys, ℕ_discrete, arith,
}
use testing_go_moi.Pool.{Interaction}
use testing_go_moi.Pool.Queue.Pruning.{IsOrdered}
use testing_go_moi.Pool.Account.{AccountQueue}

Interaction_set : IsSet Interaction
Interaction_set = hlevel ℕ_set

-- Each entry stands under the sequence id of its interaction.
abbrev pub Keyed : Map Interaction → Type 0
Keyed m = Each (λ e. e.0 ≡ e.1.sequence_id) m

-- A mapping whose values are the list.
pub record Holds (m : Map Interaction) (ixns : List Interaction) : Type 0 where
  pub keyed : Keyed m
  pub unique : UniqueKeys m
  pub same : Perm (values m) ixns

pub record WellFormed (a : AccountQueue) : Type 0 where
  pub enqueued_ordered : IsOrdered a.enqueued
  pub promoted_ordered : IsOrdered a.promoted
  pub contents : Holds a.sequence_id_to_ix (a.enqueued ++ a.promoted)

-- `sequenceIDToIX` finds an interaction by its own id.
abbrev pub Finds : Map Interaction → Interaction → Type 0
Finds m ix = lookup ix.sequence_id m ≡ some ix

Finds-prop : (m : Map Interaction) (ix : Interaction) → IsProp (Finds m ix)
Finds-prop m ix = hlevel (Option.is_set Interaction_set)

lookup-later :
    (j k : ℕ) (ix v : Interaction) (m : Map Interaction)
    → Absent j m
    → lookup k m ≡ some v
    → lookup k ((j, ix) ∷ m) ≡ some v
unfolding lookup
lookup-later j k ix v m u e = elim (ℕ_discrete j k) [
  | yes same ↦ absurd (cc (Absent-lookup k m (subst (λ (i : ℕ). Absent i m) same u), e))
  | no other ↦ ground (arith, e)
]

lookup-values_self : (m : Map Interaction) → Keyed m → UniqueKeys m → Each (Finds m) (values m)
unfolding lookup
lookup-values_self [] k u = tt
lookup-values_self ((j, ix) ∷ m) k u = (
  ground (arith, k.0),
  Each-map (Finds m) (Finds ((j, ix) ∷ m)) (values m)
      (λ y found. lookup-later j y.sequence_id ix y m u.0 found) (lookup-values_self m k.1 u.1),
)

-- What holds of every value holds of one that is found.
pub Each-lookup :
    (P : Interaction → Type 0) (k : ℕ) (v : Interaction) (m : Map Interaction)
    → Each P (values m)
    → lookup k m ≡ some v
    → P v
unfolding lookup
Each-lookup P k v [] h e = cc
Each-lookup P k v ((j, w) ∷ m) h e = elim (Bool-cases (j == k)) [
  | inl same ↦ let found : w ≡ v = ground (arith, e, same) in subst P found h.0
  | inr other ↦ Each-lookup P k v m h.1 (ground (arith, e, other))
]

-- The interactions that the mapping finds are those of the list.
pub Finds-Each :
    (m : Map Interaction) (ixns : List Interaction) → Holds m ixns → Each (Finds m) ixns
Finds-Each m ixns h =
    Each-Perm (Finds m) (values m) ixns (Finds-prop m) h.same
      (lookup-values_self m h.keyed h.unique)

pub Holds-Perm :
    (m : Map Interaction) (xs ys : List Interaction) → Perm xs ys → Holds m xs → Holds m ys
Holds-Perm m xs ys p h = record { keyed = h.keyed; unique = h.unique; same = Perm.trans h.same p }

pub found_key :
    (k : ℕ) (v : Interaction) (m : Map Interaction)
    → Keyed m
    → lookup k m ≡ some v
    → v.sequence_id ≡ k
unfolding lookup
found_key k v [] h e = cc
found_key k v ((j, w) ∷ m) h e = elim (Bool-cases (j == k)) [
  | inl same ↦
      let found : w ≡ v = ground (arith, e, same) in
      subst (λ (x : Interaction). x.sequence_id ≡ k) found (ground (arith, h.0))
  | inr other ↦ found_key k v m h.1 (ground (arith, e, other))
]
