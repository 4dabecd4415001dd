-- ===== src/Pool/Account/Promotion.antt =====
-- ixpool/account.go: what `promote` moves.
use mathlib.Core.List.Perm
use mathlib.Core.List.{Perm, append_assoc, append-nil, perm_middle}
use testing_go_moi.Prelude.{
  ℕ, zero, suc, ◌+◌, ◌%◌, ◌^◌, ◌≤◌, ◌<◌, ◌≡◌, ◌≢◌, ◌⊎◌, refl, sym, subst, ◌∙◌, true, false, none,
  some, List, [], ◌∷◌, ◌++◌, ltb, ◌==◌, if◌then◌else◌, length, Bool-cases, Option-cases, inl, inr,
  max, arith,
}
use testing_go_moi.Pool.{Interaction}
use testing_go_moi.Pool.Queue.{IxQueue, peek, pop}
use testing_go_moi.Pool.Queue.Pruning.{IsOrdered, push_keeps, Pops, pop_cases}
use testing_go_moi.Pool.Account.{AccountQueue, Promoting, promote_head, promote_loop, promote}

-- The sequence ids count up from the number.
abbrev pub Consecutive : ℕ → List Interaction → Type 0
Consecutive n [] = Unit {0}
Consecutive n (x ∷ xs) = (x.sequence_id ≡ n) × Consecutive ((n + 1) % 2 ^ 64) xs

-- The number after such a run.
abbrev pub after : ℕ → List Interaction → ℕ
after n [] = n
after n (x ∷ xs) = after ((n + 1) % 2 ^ 64) xs

-- The loop moves one consecutive run from its next id on, and all of it.
pub record Moves (p r : Promoting) (run : List Interaction) : Type 0 where
  pub moved : r.promoted_ixns ≡ p.promoted_ixns ++ run
  pub consecutive : Consecutive p.next run
  pub next : r.next ≡ after p.next run
  pub counted : r.count ≡ after p.count run
  pub left : Perm p.enqueued (run ++ r.enqueued)
  pub arrived : Perm r.promoted (run ++ p.promoted)
  pub maximal : (ix : Interaction) → peek r.enqueued ≡ some ix → ix.sequence_id ≢ r.next
  pub enqueued_ordered : IsOrdered r.enqueued
  pub promoted_ordered : IsOrdered r.promoted

Moves-none :
    (p : Promoting)
    → IsOrdered p.enqueued
    → IsOrdered p.promoted
    → ((ix : Interaction) → peek p.enqueued ≡ some ix → ix.sequence_id ≢ p.next)
    → Moves p p []
Moves-none p h g stop = record {
  moved = sym (append-nil p.promoted_ixns);
  consecutive = tt;
  next = refl;
  counted = refl;
  left = Perm.rfl;
  arrived = Perm.rfl;
  maximal = stop;
  enqueued_ordered = h;
  promoted_ordered = g;
}

Moves-head :
    (p r : Promoting) (e : Pops p.enqueued) (run : List Interaction)
    → IsOrdered p.promoted
    → e.entry.sequence_id ≡ p.next
    → Moves (promote_head p e.entry e.rest) r run
    → Moves p r (e.entry ∷ run)
unfolding promote_head
Moves-head p r e run g at m = record {
  moved = m.moved ∙ append_assoc p.promoted_ixns (e.entry ∷ []) run;
  consecutive = (at, m.consecutive);
  next = m.next;
  counted = m.counted;
  left = Perm.trans e.same (Perm.cons e.entry m.left);
  arrived = Perm.trans m.arrived (
      Perm.trans (Perm.append_left run (push_keeps p.promoted e.entry g).1)
        (perm_middle run p.promoted));
  maximal = m.maximal;
  enqueued_ordered = m.enqueued_ordered;
  promoted_ordered = m.promoted_ordered;
}

promote_stops :
    (fuel : ℕ) (p : Promoting) (ix : Interaction)
    → peek p.enqueued ≡ some ix
    → (ix.sequence_id == p.next) ≡ false
    → promote_loop (suc fuel) p ≡ p
unfolding promote_loop
promote_stops fuel p ix at stop = rw (at, promote_loop, stop) refl

promote_moves :
    (fuel : ℕ) (p : Promoting) (ix : Interaction) (rest : IxQueue)
    → peek p.enqueued ≡ some ix
    → (ix.sequence_id == p.next) ≡ true
    → pop p.enqueued ≡ some (ix, rest)
    → promote_loop (suc fuel) p ≡ promote_loop fuel (promote_head p ix rest)
unfolding promote_loop
promote_moves fuel p ix rest at go popped = rw (at, promote_loop, go, popped) refl

promote_loop_empty : (fuel : ℕ) (p : Promoting) → peek p.enqueued ≡ none → promote_loop fuel p ≡ p
unfolding promote_loop
promote_loop_empty zero p e = refl
promote_loop_empty (suc fuel) p e = rw (e, promote_loop) refl

peek_empty : (q : IxQueue) → q ≡ [] → peek q ≡ none
unfolding peek
peek_empty q e = rw e refl

promote_loop_lem :
    (fuel : ℕ) (p : Promoting)
    → length p.enqueued ≤ fuel
    → IsOrdered p.enqueued
    → IsOrdered p.promoted
    → (run : List Interaction) × Moves p (promote_loop fuel p) run
unfolding promote_head
promote_loop_lem zero p f h g = elim (pop_cases p.enqueued h) [
  | inl e ↦ (
    [],
    rw (promote_loop_empty zero p (peek_empty p.enqueued e))
        (Moves-none p h g (λ ix at. absurd (cc (at, peek_empty p.enqueued e)))),
  )
  | inr e ↦ absurd (omega (arith, e.shorter))
]
promote_loop_lem (suc fuel) p f h g = elim (pop_cases p.enqueued h) [
  | inl e ↦ (
    [],
    rw (promote_loop_empty (suc fuel) p (peek_empty p.enqueued e))
        (Moves-none p h g (λ ix at. absurd (cc (at, peek_empty p.enqueued e)))),
  )
  | inr e ↦ elim (Bool-cases (e.entry.sequence_id == p.next)) [
    | inl go ↦
        let r =
          promote_loop_lem fuel (promote_head p e.entry e.rest) (omega (arith, e.shorter)) e.ordered
            (push_keeps p.promoted e.entry g).0 in
        (
          e.entry ∷ r.0,
          rw (promote_moves fuel p e.entry e.rest e.shown go e.popped) (
              Moves-head p (promote_loop fuel (promote_head p e.entry e.rest)) e r.0 g
                (ground arith) r.1),
        )
    | inr stop ↦ (
      [],
      rw (promote_stops fuel p e.entry e.shown stop) (
          Moves-none p h g (λ ix at.
            let same : e.entry ≡ ix = cc (at, e.shown) in
            subst (λ (x : Interaction). x.sequence_id ≢ p.next) same (ground arith))),
    )
  ]
]

-- What a promotion does to an account whose first enqueued interaction is due.
pub record Promoted (a : AccountQueue) (r : AccountQueue × ℕ × List Interaction) : Type 0 where
  pub first : Interaction
  pub shown : peek a.enqueued ≡ some first
  pub due : first.sequence_id ≤ a.next_sequence_id
  pub consecutive : Consecutive first.sequence_id r.2
  pub counted : r.1 ≡ after 0 r.2
  pub left : Perm a.enqueued (r.2 ++ r.0.enqueued)
  pub arrived : Perm r.0.promoted (r.2 ++ a.promoted)
  pub next : r.0.next_sequence_id ≡ max a.next_sequence_id (after first.sequence_id r.2)
  pub maximal :
      (ix : Interaction)
      → peek r.0.enqueued ≡ some ix
      → ix.sequence_id ≢ after first.sequence_id r.2
  pub enqueued_ordered : IsOrdered r.0.enqueued
  pub promoted_ordered : IsOrdered r.0.promoted
  pub mapping : r.0.sequence_id_to_ix ≡ a.sequence_id_to_ix
  pub key : r.0.key_id ≡ a.key_id

-- Nothing is due.
abbrev pub Waits : AccountQueue → Type 0
Waits a = (ix : Interaction) → peek a.enqueued ≡ some ix → a.next_sequence_id < ix.sequence_id

abbrev loop_start : AccountQueue → Interaction → Promoting
loop_start a first = record {
  enqueued = a.enqueued;
  promoted = a.promoted;
  promoted_ixns = [];
  count = 0;
  next = first.sequence_id;
}

abbrev loop_end : AccountQueue → Interaction → Promoting
loop_end a first = promote_loop (length a.enqueued) (loop_start a first)

promote_nothing : (a : AccountQueue) → peek a.enqueued ≡ none → promote a ≡ (a, 0, [])
unfolding promote
promote_nothing a e = rw (e, promote) refl

promote_early :
    (a : AccountQueue) (first : Interaction)
    → peek a.enqueued ≡ some first
    → ltb a.next_sequence_id first.sequence_id ≡ true
    → promote a ≡ (a, 0, [])
unfolding promote
promote_early a first e early = rw (e, promote, early) refl

abbrev promoted_account : AccountQueue → Promoting → AccountQueue
promoted_account a r = record a {
  enqueued = r.enqueued;
  promoted = r.promoted;
  next_sequence_id = if ltb a.next_sequence_id r.next then r.next else a.next_sequence_id;
}

promote_due :
    (a : AccountQueue) (first : Interaction)
    → peek a.enqueued ≡ some first
    → ltb a.next_sequence_id first.sequence_id ≡ false
    → promote a ≡ (
      promoted_account a (loop_end a first),
      (loop_end a first).count,
      (loop_end a first).promoted_ixns,
    )
unfolding promote
promote_due a first e due = rw (e, promote, due) refl

higher : (a b : ℕ) → (if ltb a b then b else a) ≡ max a b
higher a b = ground arith

Promoted-of_Moves :
    (a : AccountQueue) (first : Interaction) (r : Promoting) (run : List Interaction)
    → peek a.enqueued ≡ some first
    → first.sequence_id ≤ a.next_sequence_id
    → Moves (loop_start a first) r run
    → Promoted a (promoted_account a r, r.count, r.promoted_ixns)
Promoted-of_Moves a first r run shown due m =
    let same : run ≡ r.promoted_ixns = sym m.moved in
    let to = λ (P : List Interaction → Type 0) (x : P run). subst P same x in
    record {
      first = first;
      shown = shown;
      due = due;
      consecutive = to (Consecutive first.sequence_id) m.consecutive;
      counted = to (λ l. r.count ≡ after 0 l) m.counted;
      left = to (λ l. Perm a.enqueued (l ++ r.enqueued)) m.left;
      arrived = to (λ l. Perm r.promoted (l ++ a.promoted)) m.arrived;
      next =
          to
            (λ l.
              (promoted_account a r).next_sequence_id
              ≡ max a.next_sequence_id (after first.sequence_id l))
            (rw (← m.next) (higher a.next_sequence_id r.next));
      maximal = λ ix e.
          to (λ l. ix.sequence_id ≢ after first.sequence_id l)
            (subst (λ (n : ℕ). ix.sequence_id ≢ n) m.next (m.maximal ix e));
      enqueued_ordered = m.enqueued_ordered;
      promoted_ordered = m.promoted_ordered;
      mapping = refl;
      key = refl;
    }

-- In an account queue whose queues are heaps, either nothing enqueued is due and a promotion changes
-- nothing, or the first enqueued interaction is due: then the promotion moves the whole run of
-- consecutive sequence ids that starts there, and no more, to the promoted queue, returns it with
-- its number, and the next sequence id is the greater of what it was and the one after the run.
pub promote_lem :
    (a : AccountQueue)
    → IsOrdered a.enqueued
    → IsOrdered a.promoted
    → (Waits a × (promote a ≡ (a, 0, []))) ⊎ Promoted a (promote a)
promote_lem a h g = elim (Option-cases (peek a.enqueued)) [
  | inl e ↦ inl (λ ix at. absurd (cc), promote_nothing a e)
  | inr e ↦ elim (Bool-cases (ltb a.next_sequence_id e.0.sequence_id)) [
    | inl early ↦ inl (
      λ ix at.
          let same : e.0 ≡ ix = cc (at, e.1) in
          subst (λ (x : Interaction). a.next_sequence_id < x.sequence_id) same (ground arith),
      promote_early a e.0 e.1 early,
    )
    | inr due ↦
        let m = promote_loop_lem (length a.enqueued) (loop_start a e.0) (omega arith) h g in
        inr (
          rw (promote_due a e.0 e.1 due)
            (Promoted-of_Moves a e.0 (loop_end a e.0) m.0 e.1 (ground arith) m.1))
  ]
]
