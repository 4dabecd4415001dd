-- ===== src/Pool/Account/Removal.antt =====
-- ixpool/account.go: what goes out of the queues goes out of `sequenceIDToIX`.
use mathlib.Core.List.Perm
use mathlib.Core.List.{Perm, append_assoc, perm_middle}
use testing_go_moi.Prelude.{
  ℕ, ◌≡◌, List, [], ◌∷◌, ◌++◌, Map, values-delete, Each-delete, delete, delete-UniqueKeys,
}
use testing_go_moi.Pool.{Interaction}
use testing_go_moi.Pool.Queue.{prune}
use testing_go_moi.Pool.Queue.Pruning.{Pruned, prune_splits}
use testing_go_moi.Pool.Account.{AccountQueue, remove, prune_promoted, prune_enqueued}
use testing_go_moi.Pool.Account.Contents.{WellFormed, Holds, Holds-Perm, Finds-Each}

remove_head :
    (m : Map Interaction) (ix : Interaction) (ixns : List Interaction)
    → Holds m (ix ∷ ixns)
    → Holds (delete ix.sequence_id m) ixns
remove_head m ix ixns h =
    let found = (Finds-Each m (ix ∷ ixns) h).0 in
    record {
      keyed = Each-delete (λ e. e.0 ≡ e.1.sequence_id) ix.sequence_id m h.keyed;
      unique = delete-UniqueKeys ix.sequence_id m h.unique;
      same =
          Perm.cons_inv
            (Perm.trans (Perm.symm (values-delete ix.sequence_id ix m h.unique found)) h.same);
    }

-- The removed interactions go, and the others stay.
pub remove_lem :
    (m : Map Interaction) (gone ixns : List Interaction)
    → Holds m (gone ++ ixns)
    → Holds (remove m gone) ixns
unfolding remove
remove_lem m [] ixns h = h
remove_lem m (ix ∷ gone) ixns h =
    remove_lem (delete ix.sequence_id m) gone ixns (remove_head m ix (gone ++ ixns) h)

pub front : (e g r : List Interaction) → Perm (e ++ (g ++ r)) (g ++ (e ++ r))
front [] g r = Perm.rfl
front (x ∷ e) g r = Perm.trans (Perm.cons x (front e g r)) (Perm.symm (perm_middle g (e ++ r)))

-- Pruning the promoted queue keeps the account well formed.
pub prune_promoted-WellFormed :
    (a : AccountQueue) (n : ℕ)
    → WellFormed a
    → WellFormed (prune_promoted a n).1
      × Pruned a.promoted n ((prune_promoted a n).0, (prune_promoted a n).1.promoted)
      × Perm (a.enqueued ++ a.promoted) (
          (prune_promoted a n).0
          ++ ((prune_promoted a n).1.enqueued ++ (prune_promoted a n).1.promoted))
unfolding prune_promoted
prune_promoted-WellFormed a n w =
    let r = prune a.promoted n in
    let p = prune_splits a.promoted n w.promoted_ordered in
    let order : Perm (a.enqueued ++ a.promoted) (r.0 ++ (a.enqueued ++ r.1)) =
      Perm.trans (Perm.append_left a.enqueued p.same) (front a.enqueued r.0 r.1) in
    (
      record {
        enqueued_ordered = w.enqueued_ordered;
        promoted_ordered = p.ordered;
        contents = remove_lem a.sequence_id_to_ix r.0 (a.enqueued ++ r.1) (
            Holds-Perm a.sequence_id_to_ix (a.enqueued ++ a.promoted) (r.0 ++ (a.enqueued ++ r.1))
              order w.contents);
      },
      p,
      order,
    )

-- So does pruning the enqueued queue.
pub prune_enqueued-WellFormed :
    (a : AccountQueue) (n : ℕ)
    → WellFormed a
    → WellFormed (prune_enqueued a n).1
      × Pruned a.enqueued n ((prune_enqueued a n).0, (prune_enqueued a n).1.enqueued)
      × Perm (a.enqueued ++ a.promoted) (
          (prune_enqueued a n).0
          ++ ((prune_enqueued a n).1.enqueued ++ (prune_enqueued a n).1.promoted))
unfolding prune_enqueued
prune_enqueued-WellFormed a n w =
    let r = prune a.enqueued n in
    let p = prune_splits a.enqueued n w.enqueued_ordered in
    let order : Perm (a.enqueued ++ a.promoted) (r.0 ++ (r.1 ++ a.promoted)) =
      rw (← append_assoc r.0 r.1 a.promoted) (Perm.append_right a.promoted p.same) in
    (
      record {
        enqueued_ordered = p.ordered;
        promoted_ordered = w.promoted_ordered;
        contents = remove_lem a.sequence_id_to_ix r.0 (r.1 ++ a.promoted) (
            Holds-Perm a.sequence_id_to_ix (a.enqueued ++ a.promoted) (r.0 ++ (r.1 ++ a.promoted))
              order w.contents);
      },
      p,
      order,
    )
