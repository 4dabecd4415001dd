-- ===== src/Pool/Queue/Pruning.antt =====
-- ixpool/queue.go: what `push`, `pop` and `prune` do to the interactions of a queue.
use mathlib.Core.List.Perm
use mathlib.Core.List.{Perm}
use native.Mathlib.Bridge.{le_prop}
use testing_go_moi.Prelude.{
  ℕ, zero, suc, ◌≤◌, ◌<◌, ◌≡◌, ◌⊎◌, refl, sym, subst, true, false, some, List, [], ◌∷◌, ◌++◌, leb,
  length, Bool-cases, inl, inr, Each, Each-map, Each-Perm, Each-of_append, arith,
}
use testing_go_moi.Heap.Order.{ComparesBy, IsHeap}
use testing_go_moi.Heap.Queue.{push_lem, pop_lem}
use testing_go_moi.Pool.{Interaction}
use testing_go_moi.Pool.Queue.{IxQueue, less, push, peek, pop, prune_loop, prune}

abbrev pub sequence_of : Interaction → ℕ
sequence_of ix = ix.sequence_id

-- The slice is a heap by the sequence ids.
abbrev pub IsOrdered : IxQueue → Type 0
IsOrdered q = IsHeap sequence_of q

less-ComparesBy : ComparesBy less sequence_of
unfolding less
less-ComparesBy a b = refl

-- The sequence ids never fall.
abbrev pub Ascending : List Interaction → Type 0
Ascending [] = Unit {0}
Ascending (x ∷ xs) = Each (λ y. x.sequence_id ≤ y.sequence_id) xs × Ascending xs

pub push_keeps :
    (q : IxQueue) (ix : Interaction)
    → IsOrdered q
    → IsOrdered (push q ix) × Perm (push q ix) (ix ∷ q)
unfolding push
push_keeps q ix h = push_lem sequence_of less less-ComparesBy q ix h

-- A queue that is not empty shows the interaction that it would pop.
pub record Pops (q : IxQueue) : Type 0 where
  pub entry : Interaction
  pub rest : IxQueue
  pub shown : peek q ≡ some entry
  pub popped : pop q ≡ some (entry, rest)
  pub same : Perm q (entry ∷ rest)
  pub least : Each (λ y. entry.sequence_id ≤ y.sequence_id) rest
  pub ordered : IsOrdered rest
  pub shorter : length q ≡ suc (length rest)

-- A queue that is a heap is a priority queue: it is empty, or peek and pop give one interaction
-- whose sequence id is none above those of the others, and pop leaves the others, as a heap.
pub pop_cases : (q : IxQueue) → IsOrdered q → (q ≡ []) ⊎ Pops q
unfolding peek pop
pop_cases [] h = inl refl
pop_cases (x ∷ xs) h =
    let p = pop_lem sequence_of less less-ComparesBy (x ∷ xs) (length xs) refl h in
    inr (record {
      entry = p.entry;
      rest = p.rest;
      shown = ground (arith, p.root);
      popped = ground (arith, p.popped);
      same = p.same;
      least = p.least;
      ordered = p.ordered;
      shorter = p.shorter;
    })

-- What pruning below an id comes to: the interactions below it, in order, and a queue of the others.
pub record Pruned (q : IxQueue) (n : ℕ) (r : List Interaction × IxQueue) : Type 0 where
  pub same : Perm q (r.0 ++ r.1)
  pub below : Each (λ ix. ix.sequence_id < n) r.0
  pub ascending : Ascending r.0
  pub kept : Each (λ ix. n ≤ ix.sequence_id) r.1
  pub ordered : IsOrdered r.1

root_kept :
    (q : IxQueue) (n : ℕ) (ix : Interaction)
    → IsOrdered q
    → peek q ≡ some ix
    → n ≤ ix.sequence_id
    → Each (λ y. n ≤ y.sequence_id) q
root_kept q n ix h at low = elim (pop_cases q h) [
  | inl e ↦ rw e tt
  | inr p ↦
      let same_ix : p.entry ≡ ix = cc (p.shown, at) in
      let low_entry : n ≤ p.entry.sequence_id = rw same_ix low in
      Each-Perm (λ y. n ≤ y.sequence_id) (p.entry ∷ p.rest) q (λ y. le_prop) (Perm.symm p.same)
        (
          low_entry,
          Each-map (λ y. p.entry.sequence_id ≤ y.sequence_id) (λ y. n ≤ y.sequence_id) p.rest
              (λ y le. omega arith) p.least,
        )
]

prune_stops :
    (fuel : ℕ) (q : IxQueue) (n : ℕ) (ix : Interaction)
    → peek q ≡ some ix
    → leb n ix.sequence_id ≡ true
    → prune_loop (suc fuel) q n ≡ ([], q)
unfolding prune_loop
prune_stops fuel q n ix at stop = rw (at, prune_loop, stop) refl

prune_pops :
    (fuel : ℕ) (q : IxQueue) (n : ℕ) (ix : Interaction) (rest : IxQueue)
    → peek q ≡ some ix
    → leb n ix.sequence_id ≡ false
    → pop q ≡ some (ix, rest)
    → prune_loop (suc fuel) q n ≡ (ix ∷ (prune_loop fuel rest n).0, (prune_loop fuel rest n).1)
unfolding prune_loop
prune_pops fuel q n ix rest at go popped = rw (at, prune_loop, go, popped) refl

Pruned-stop :
    (q : IxQueue) (n : ℕ) → IsOrdered q → Each (λ y. n ≤ y.sequence_id) q → Pruned q n ([], q)
Pruned-stop q n h kept = record {
  same = Perm.rfl;
  below = tt;
  ascending = tt;
  kept = kept;
  ordered = h;
}

-- One interaction goes, and the pruning of the rest follows.
Pruned-pop :
    (q : IxQueue) (n : ℕ) (p : Pops q) (r : List Interaction × IxQueue)
    → p.entry.sequence_id < n
    → Pruned p.rest n r
    → Pruned q n (p.entry ∷ r.0, r.1)
Pruned-pop q n p r low later =
    let above =
      Each-Perm (λ y. p.entry.sequence_id ≤ y.sequence_id) p.rest (r.0 ++ r.1) (λ y. le_prop)
        later.same p.least in
    record {
      same = Perm.trans p.same (Perm.cons p.entry later.same);
      below = (low, later.below);
      ascending = (
        (Each-of_append (λ y. p.entry.sequence_id ≤ y.sequence_id) r.0 r.1 above).0,
        later.ascending,
      );
      kept = later.kept;
      ordered = later.ordered;
    }

prune_loop_empty : (fuel n : ℕ) → prune_loop fuel [] n ≡ ([], [])
unfolding prune_loop peek
prune_loop_empty zero n = refl
prune_loop_empty (suc fuel) n = refl

prune_loop_lem :
    (fuel : ℕ) (q : IxQueue) (n : ℕ)
    → length q ≤ fuel
    → IsOrdered q
    → Pruned q n (prune_loop fuel q n)
unfolding prune_loop
prune_loop_lem zero [] n f h = Pruned-stop [] n h tt
prune_loop_lem zero (x ∷ xs) n f h = absurd (omega arith)
prune_loop_lem (suc fuel) q n f h = elim (pop_cases q h) [
  | inl e ↦
      subst (λ (q : IxQueue). Pruned q n (prune_loop (suc fuel) q n)) (sym e)
        (rw (prune_loop_empty (suc fuel) n) (Pruned-stop [] n (λ c p q. absurd (omega arith)) tt))
  | inr p ↦ elim (Bool-cases (leb n p.entry.sequence_id)) [
    | inl stop ↦
        rw (prune_stops fuel q n p.entry p.shown stop)
          (Pruned-stop q n h (root_kept q n p.entry h p.shown (ground arith)))
    | inr go ↦ rw (prune_pops fuel q n p.entry p.rest p.shown go p.popped) (
        Pruned-pop q n p (prune_loop fuel p.rest n) (ground arith)
          (prune_loop_lem fuel p.rest n (omega (arith, p.shorter)) p.ordered))
  ]
]

-- Pruning a heap ends within as many rounds as it has interactions: what it returns are all those
-- below the sequence id, in ascending order, and the others stay, as a heap.
pub prune_splits : (q : IxQueue) (n : ℕ) → IsOrdered q → Pruned q n (prune q n)
unfolding prune
prune_splits q n h = prune_loop_lem (length q) q n (omega arith) h
