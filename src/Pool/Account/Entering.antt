-- ===== src/Pool/Account/Entering.antt =====
-- ixpool/account.go: what `enqueue` does to the interactions of an account queue.
use mathlib.Core.List.Perm
use mathlib.Core.List.{Perm, perm_middle}
use testing_go_moi.Prelude.{
  ℕ, ◌≡◌, ◌≢◌, inl, inr, refl, subst, true, false, none, some, List, [], ◌∷◌, ◌++◌, Each,
  Each-append, Each-Perm, lookup, values,
}
use testing_go_moi.Pool.{Interaction}
use testing_go_moi.Pool.Queue.{push}
use testing_go_moi.Pool.Queue.Pruning.{push_keeps}
use testing_go_moi.Pool.Account.{AccountQueue, set_ix, replace_in_queue, enqueue}
use testing_go_moi.Pool.Account.Contents.{WellFormed, Holds-Perm, Each-lookup, found_key}
use testing_go_moi.Pool.Account.Replacement.{
  Replaced, replace_cases, replace-IsOrdered, Holds-new, Holds-replaced, replaced_found,
}

abbrev pub all : AccountQueue → List Interaction
all a = a.enqueued ++ a.promoted

-- What `enqueue` does: one interaction comes, and the one that it replaces goes.
pub record Entered (a : AccountQueue) (ix : Interaction) (gone : List Interaction)
    (b : AccountQueue) : Type 0 where
  pub well_formed : WellFormed b
  pub others : List Interaction
  pub before : Perm (all a) (gone ++ others)
  pub after : Perm (all b) (ix ∷ others)
  pub next : b.next_sequence_id ≡ a.next_sequence_id
  pub key : b.key_id ≡ a.key_id

pub enqueue_new :
    (a : AccountQueue) (ix : Interaction)
    → WellFormed a
    → lookup ix.sequence_id a.sequence_id_to_ix ≡ none
    → Entered a ix [] (enqueue a ix false).0
unfolding enqueue
enqueue_new a ix w e =
    let p = push_keeps a.enqueued ix w.enqueued_ordered in
    let came : Perm (push a.enqueued ix ++ a.promoted) (ix ∷ all a) =
      Perm.append_right a.promoted p.1 in
    record {
      well_formed = record {
        enqueued_ordered = p.0;
        promoted_ordered = w.promoted_ordered;
        contents =
            Holds-Perm (set_ix a.sequence_id_to_ix ix) (ix ∷ all a)
              (push a.enqueued ix ++ a.promoted) (Perm.symm came)
              (Holds-new a.sequence_id_to_ix ix (all a) e w.contents);
      };
      others = all a;
      before = Perm.rfl;
      after = came;
      next = refl;
      key = refl;
    }

no_id-prop : (n : ℕ) (y : Interaction) → IsProp (y.sequence_id ≢ n)
no_id-prop n y = hlevel

-- A well-formed account has the interaction that its mapping finds in one of its queues.
missing :
    (a : AccountQueue) (ix old : Interaction)
    → WellFormed a
    → lookup ix.sequence_id a.sequence_id_to_ix ≡ some old
    → Each (λ y. y.sequence_id ≢ ix.sequence_id) (all a)
    → ⊥
missing a ix old w e none_there =
    let m = a.sequence_id_to_ix in
    let values_too =
      Each-Perm (λ y. y.sequence_id ≢ ix.sequence_id) (all a) (values m) (no_id-prop ix.sequence_id)
        (Perm.symm w.contents.same) none_there in
    Each-lookup (λ y. y.sequence_id ≢ ix.sequence_id) ix.sequence_id old m values_too e
      (found_key ix.sequence_id old m w.contents.keyed e)

-- The account after a replacement in its enqueued queue.
abbrev replaced_enqueued : AccountQueue → Interaction → AccountQueue
replaced_enqueued a ix = record a {
  sequence_id_to_ix = set_ix a.sequence_id_to_ix ix;
  enqueued = (replace_in_queue a.enqueued ix).0;
}

abbrev replaced_promoted : AccountQueue → Interaction → AccountQueue
replaced_promoted a ix = record a {
  sequence_id_to_ix = set_ix a.sequence_id_to_ix ix;
  promoted = (replace_in_queue a.promoted ix).0;
}

Entered-enqueued :
    (a : AccountQueue) (ix old : Interaction)
    → WellFormed a
    → lookup ix.sequence_id a.sequence_id_to_ix ≡ some old
    → Replaced a.enqueued ix
    → Entered a ix (old ∷ []) (replaced_enqueued a ix)
Entered-enqueued a ix old w e r =
    let before = Perm.append_right a.promoted r.before in
    let after = Perm.append_right a.promoted r.after in
    let same =
      replaced_found a.sequence_id_to_ix ix old r.old (r.others ++ a.promoted) (all a) w.contents e
        r.same_id before in
    let before_old : Perm (all a) (old ∷ (r.others ++ a.promoted)) =
      subst (λ (x : Interaction). Perm (all a) (x ∷ (r.others ++ a.promoted))) same before in
    record {
      well_formed = record {
        enqueued_ordered = replace-IsOrdered a.enqueued ix w.enqueued_ordered;
        promoted_ordered = w.promoted_ordered;
        contents =
            Holds-replaced a.sequence_id_to_ix ix old (r.others ++ a.promoted) (all a)
              ((replace_in_queue a.enqueued ix).0 ++ a.promoted) e before_old after w.contents;
      };
      others = r.others ++ a.promoted;
      before = before_old;
      after = after;
      next = refl;
      key = refl;
    }

Entered-promoted :
    (a : AccountQueue) (ix old : Interaction)
    → WellFormed a
    → lookup ix.sequence_id a.sequence_id_to_ix ≡ some old
    → Replaced a.promoted ix
    → Entered a ix (old ∷ []) (replaced_promoted a ix)
Entered-promoted a ix old w e r =
    let rest = a.enqueued ++ r.others in
    let before =
      Perm.trans (Perm.append_left a.enqueued r.before) (perm_middle a.enqueued r.others) in
    let after =
      Perm.trans (Perm.append_left a.enqueued r.after) (perm_middle a.enqueued r.others) in
    let same =
      replaced_found a.sequence_id_to_ix ix old r.old rest (all a) w.contents e r.same_id before in
    let before_old : Perm (all a) (old ∷ rest) =
      subst (λ (x : Interaction). Perm (all a) (x ∷ rest)) same before in
    record {
      well_formed = record {
        enqueued_ordered = w.enqueued_ordered;
        promoted_ordered = replace-IsOrdered a.promoted ix w.promoted_ordered;
        contents =
            Holds-replaced a.sequence_id_to_ix ix old rest (all a)
              (a.enqueued ++ (replace_in_queue a.promoted ix).0) e before_old after w.contents;
      };
      others = rest;
      before = before_old;
      after = after;
      next = refl;
      key = refl;
    }

enqueue_in_enqueued :
    (a : AccountQueue) (ix : Interaction)
    → (replace_in_queue a.enqueued ix).1 ≡ true
    → enqueue a ix true ≡ (replaced_enqueued a ix, false)
unfolding enqueue
enqueue_in_enqueued a ix e = rw e refl

enqueue_in_promoted :
    (a : AccountQueue) (ix : Interaction)
    → (replace_in_queue a.enqueued ix).1 ≡ false
    → enqueue a ix true ≡ (replaced_promoted a ix, (replace_in_queue a.promoted ix).1)
unfolding enqueue
enqueue_in_promoted a ix e = rw e refl

pub enqueue_replaces :
    (a : AccountQueue) (ix old : Interaction)
    → WellFormed a
    → lookup ix.sequence_id a.sequence_id_to_ix ≡ some old
    → Entered a ix (old ∷ []) (enqueue a ix true).0
enqueue_replaces a ix old w e = elim (replace_cases a.enqueued ix) [
  | inl r ↦ rw (enqueue_in_enqueued a ix r.done) (Entered-enqueued a ix old w e r)
  | inr none_waits ↦
      let not_waiting : (replace_in_queue a.enqueued ix).1 ≡ false = rw none_waits.0 refl in
      elim (replace_cases a.promoted ix) [
        | inl r ↦ rw (enqueue_in_promoted a ix not_waiting) (Entered-promoted a ix old w e r)
        | inr none_ready ↦ absurd (
            missing a ix old w e (
              Each-append (λ y. y.sequence_id ≢ ix.sequence_id) a.enqueued a.promoted none_waits.1
                none_ready.1))
      ]
]
