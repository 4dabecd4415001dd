-- ===== src/Pool/Account/Replacement.antt =====
-- ixpool/account.go: what `enqueue` and `promote` do to the interactions of an account queue.
use mathlib.Core.List.Perm
use mathlib.Core.List.{Perm}
use testing_go_moi.Prelude.{
  ℕ, zero, suc, ◌≡◌, ◌≢◌, ◌⊎◌, inl, inr, refl, true, false, none, some, List, [], ◌∷◌, ◌==◌, length,
  Each, Bool-cases, Map, lookup, values-insert, values-replace, Each-insert, insert-UniqueKeys,
  Absent-of_lookup, arith,
}
use testing_go_moi.Pool.{Interaction}
use testing_go_moi.Pool.Queue.{IxQueue}
use testing_go_moi.Pool.Queue.Pruning.{IsOrdered, sequence_of}
use testing_go_moi.Heap.Order.{parent, rank_at}
use testing_go_moi.Pool.Account.{set_ix, replace_in_queue}
use testing_go_moi.Pool.Account.Contents.{Holds, Holds-Perm, Finds-Each}

length-replace : (q : IxQueue) (ix : Interaction) → length (replace_in_queue q ix).0 ≡ length q
unfolding replace_in_queue
length-replace [] ix = refl
length-replace (x ∷ q) ix = ground (arith, length-replace q ix)

rank_at-replace :
    (q : IxQueue) (ix : Interaction) (c : ℕ)
    → rank_at sequence_of (replace_in_queue q ix).0 c ≡ rank_at sequence_of q c
unfolding replace_in_queue rank_at
rank_at-replace [] ix c = refl
rank_at-replace (x ∷ q) ix zero = ground arith
rank_at-replace (x ∷ q) ix (suc c) = ground (arith, rank_at-replace q ix c)

pub replace-IsOrdered :
    (q : IxQueue) (ix : Interaction) → IsOrdered q → IsOrdered (replace_in_queue q ix).0
replace-IsOrdered q ix h = λ c p s.
    ground
      (arith, length-replace q ix, rank_at-replace q ix c, rank_at-replace q ix (parent c), h c)

-- A replacement trades the interaction of that id for the new one, and keeps the others.
pub record Replaced (q : IxQueue) (ix : Interaction) : Type 0 where
  pub old : Interaction
  pub others : List Interaction
  pub done : (replace_in_queue q ix).1 ≡ true
  pub same_id : old.sequence_id ≡ ix.sequence_id
  pub before : Perm q (old ∷ others)
  pub after : Perm (replace_in_queue q ix).0 (ix ∷ others)

pub replace_cases :
    (q : IxQueue) (ix : Interaction)
    → Replaced q ix
      ⊎ ((replace_in_queue q ix ≡ (q, false)) × Each (λ y. y.sequence_id ≢ ix.sequence_id) q)
unfolding replace_in_queue
replace_cases [] ix = inr (refl, tt)
replace_cases (x ∷ q) ix = elim (Bool-cases (x.sequence_id == ix.sequence_id)) [
  | inl e ↦ inl (record {
    old = x;
    others = q;
    done = rw e refl;
    same_id = ground arith;
    before = Perm.rfl;
    after = rw e Perm.rfl;
  })
  | inr e ↦ elim (replace_cases q ix) [
    | inl r ↦ inl (record {
      old = r.old;
      others = x ∷ r.others;
      done = rw e r.done;
      same_id = r.same_id;
      before = Perm.trans (Perm.cons x r.before) (Perm.swap r.old x r.others);
      after = rw e (Perm.trans (Perm.cons x r.after) (Perm.swap ix x r.others));
    })
    | inr r ↦ inr ((rw (e, r.0) refl), (ground arith, r.1))
  ]
]

pub Holds-new :
    (m : Map Interaction) (ix : Interaction) (ixns : List Interaction)
    → lookup ix.sequence_id m ≡ none
    → Holds m ixns
    → Holds (set_ix m ix) (ix ∷ ixns)
unfolding set_ix
Holds-new m ix ixns e h = record {
  keyed = Each-insert (λ e. e.0 ≡ e.1.sequence_id) ix.sequence_id ix m refl h.keyed;
  unique = insert-UniqueKeys ix.sequence_id ix m h.unique;
  same =
      Perm.trans (values-insert ix.sequence_id ix m (Absent-of_lookup ix.sequence_id m e))
        (Perm.cons ix h.same);
}

-- The interaction that the mapping held under the id is the one that leaves the list.
pub Holds-replaced :
    (m : Map Interaction) (ix old : Interaction) (others xs ys : List Interaction)
    → lookup ix.sequence_id m ≡ some old
    → Perm xs (old ∷ others)
    → Perm ys (ix ∷ others)
    → Holds m xs
    → Holds (set_ix m ix) ys
unfolding set_ix
Holds-replaced m ix old others xs ys e p q h = record {
  keyed = Each-insert (λ e. e.0 ≡ e.1.sequence_id) ix.sequence_id ix m refl h.keyed;
  unique = insert-UniqueKeys ix.sequence_id ix m h.unique;
  same = Perm.cons_inv (
      Perm.trans (values-replace ix.sequence_id ix old m e) (
        Perm.trans (Perm.cons ix (Perm.trans h.same p))
          (Perm.trans (Perm.swap old ix others) (Perm.cons old (Perm.symm q)))));
}

-- The interaction that is replaced in a list that the mapping holds is the one under its id.
pub replaced_found :
    (m : Map Interaction) (ix old other : Interaction) (others xs : List Interaction)
    → Holds m xs
    → lookup ix.sequence_id m ≡ some old
    → other.sequence_id ≡ ix.sequence_id
    → Perm xs (other ∷ others)
    → other ≡ old
replaced_found m ix old other others xs h e same p =
    let found : lookup other.sequence_id m ≡ some other =
      (Finds-Each m (other ∷ others) (Holds-Perm m xs (other ∷ others) p h)).0 in
    cc (found, e, same)
