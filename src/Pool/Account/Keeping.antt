-- ===== src/Pool/Account/Keeping.antt =====
-- ixpool/account.go: a promotion keeps the interactions of an account queue.
use mathlib.Core.List.Perm
use mathlib.Core.List.{Perm, append_assoc}
use testing_go_moi.Prelude.{ℕ, ◌≡◌, refl, sym, subst, List, ◌++◌, inl, inr}
use testing_go_moi.Pool.{Interaction}
use testing_go_moi.Pool.Account.{AccountQueue, promote}
use testing_go_moi.Pool.Account.Contents.{WellFormed, Holds, Holds-Perm}
use testing_go_moi.Pool.Account.Removal.{front}
use testing_go_moi.Pool.Account.Entering.{all}
use testing_go_moi.Pool.Account.Promotion.{Promoted, promote_lem}

pub record Kept (a b : AccountQueue) : Type 0 where
  pub well_formed : WellFormed b
  pub same : Perm (all a) (all b)
  pub key : b.key_id ≡ a.key_id

Kept-Promoted :
    (a : AccountQueue) (r : AccountQueue × ℕ × List Interaction)
    → WellFormed a
    → Promoted a r
    → Kept a r.0
Kept-Promoted a r w p =
    let split : Perm (all a) ((r.2 ++ r.0.enqueued) ++ a.promoted) =
      Perm.append_right a.promoted p.left in
    let order : Perm ((r.2 ++ r.0.enqueued) ++ a.promoted) (r.0.enqueued ++ (r.2 ++ a.promoted)) =
      rw (append_assoc r.2 r.0.enqueued a.promoted)
        (Perm.symm (front r.0.enqueued r.2 a.promoted)) in
    let same =
      Perm.trans split (Perm.trans order (Perm.append_left r.0.enqueued (Perm.symm p.arrived))) in
    record {
      well_formed = record {
        enqueued_ordered = p.enqueued_ordered;
        promoted_ordered = p.promoted_ordered;
        contents =
            Holds-Perm r.0.sequence_id_to_ix (all a) (all r.0) same
              (subst (λ m. Holds m (all a)) (sym p.mapping) w.contents);
      };
      same = same;
      key = p.key;
    }

pub promote-Kept : (a : AccountQueue) → WellFormed a → Kept a (promote a).0
promote-Kept a w = elim (promote_lem a w.enqueued_ordered w.promoted_ordered) [
  | inl none_due ↦ rw none_due.1 (record { well_formed = w; same = Perm.rfl; key = refl })
  | inr p ↦ Kept-Promoted a (promote a) w p
]
