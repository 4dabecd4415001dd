-- ===== src/Pool/Leaving/Holes.antt =====
-- ixpool/ixpool.go: `removeSequenceIDHoleAccounts` leaves the gauge in step with the queues.
use mathlib.Core.List.Perm
use testing_go_moi.Prelude.{
  ℕ, ◌+◌, ◌^◌, ◌≤◌, ◌<◌, ◌≡◌, refl, subst, ◌∙◌, false, List, [], ◌∷◌, if◌then◌else◌, Bool-cases,
  inl, inr, Map, arith,
}
use testing_go_moi.Pool.Queue.{clear}
use testing_go_moi.Pool.Gauge.{SlotGauge}
use testing_go_moi.Pool.Gauge.Total.{slot_sum}
use testing_go_moi.Pool.Account.{AccountQueue, Account}
use testing_go_moi.Pool.Account.Contents.{WellFormed}
use testing_go_moi.Pool.Account.Removal.{remove_lem}
use testing_go_moi.Pool.Accounts.Slots.{queue_slots, queues_slots, accounts_slots}
use testing_go_moi.Pool.Accounts.Queues.{QueuesWellFormed, AccountsWellFormed}
use testing_go_moi.Pool.Entry.{IxPool}
use testing_go_moi.Pool.Entry.Accounting.{Counted}
use testing_go_moi.Pool.Leaving.{
  has_hole, drop_hole, Freed, free, drop_queue_holes, drop_account_holes,
  remove_sequence_id_hole_accounts,
}
use testing_go_moi.Pool.Leaving.Cleanup.{freed_total, Left, Left-slots}

drop_hole-Left : (a : AccountQueue) → WellFormed a → Left a (drop_hole a).0 (drop_hole a).1
unfolding drop_hole clear
drop_hole-Left a w = elim (Bool-cases (has_hole a)) [
  | inl hole ↦ rw hole (record {
    well_formed = record {
      enqueued_ordered = λ c p q. absurd (omega arith);
      promoted_ordered = w.promoted_ordered;
      contents = remove_lem a.sequence_id_to_ix a.enqueued a.promoted w.contents;
    };
    key = refl;
    split = Perm.rfl;
  })
  | inr none_there ↦ rw none_there (record { well_formed = w; key = refl; split = Perm.rfl })
]

-- The gauge counts the slots of the queues beside others.
record Counts (g : SlotGauge) (max_slots slots : ℕ) : Type 0 where
  total : g.total ≡ slots
  limit : slots ≤ max_slots
  max_same : g.max_slots ≡ max_slots

-- The state after one queue.
abbrev freed_state : Freed → AccountQueue → Freed
freed_state s a = if has_hole a then free s (drop_hole a).1 else s

drop_hole_none : (a : AccountQueue) → has_hole a ≡ false → drop_hole a ≡ (a, [])
unfolding drop_hole
drop_hole_none a e = rw e refl

drop_hole-Counts :
    (s : Freed) (max_slots others : ℕ) (a : AccountQueue)
    → WellFormed a
    → max_slots < 2 ^ 63
    → Counts s.1 max_slots (queue_slots a + others)
    → Counts (freed_state s a).1 max_slots (queue_slots (drop_hole a).0 + others)
unfolding free
drop_hole-Counts s max_slots others a w fits c = elim (Bool-cases (has_hole a)) [
  | inl hole ↦
      let gone = (drop_hole a).1 in
      let slots = Left-slots a (drop_hole a).0 gone (drop_hole-Left a w) in
      let le : slot_sum gone ≤ s.1.total = omega (arith, slots, c.total) in
      let freed = freed_total s.1 gone le (omega (arith, c.total, c.limit, fits)) in
      rw hole (record {
        total = omega (arith, freed.0, c.total, slots);
        limit = omega (arith, c.limit, slots);
        max_same = freed.1 ∙ c.max_same;
      })
  | inr none_there ↦ rw (none_there, drop_hole_none a none_there) c
]

drop_queue_holes-Counts :
    (s : Freed) (max_slots others : ℕ) (queues : List AccountQueue)
    → QueuesWellFormed queues
    → max_slots < 2 ^ 63
    → Counts s.1 max_slots (queues_slots queues + others)
    → QueuesWellFormed (drop_queue_holes s queues).0
      × Counts
          (drop_queue_holes s queues).1.1
          max_slots
          (queues_slots (drop_queue_holes s queues).0 + others)
unfolding drop_queue_holes queues_slots
drop_queue_holes-Counts s max_slots others [] w fits c = (tt, c)
drop_queue_holes-Counts s max_slots others (a ∷ queues) w fits c =
    let before : Counts s.1 max_slots (queue_slots a + (queues_slots queues + others)) =
      subst (Counts s.1 max_slots) (omega arith) c in
    let one = drop_hole-Counts s max_slots (queues_slots queues + others) a w.0 fits before in
    let moved : queue_slots (drop_hole a).0 + (queues_slots queues + others)
        ≡ queues_slots queues + (queue_slots (drop_hole a).0 + others) =
      omega arith in
    let r =
      drop_queue_holes-Counts (freed_state s a) max_slots (queue_slots (drop_hole a).0 + others)
        queues w.1 fits (subst (Counts (freed_state s a).1 max_slots) moved one) in
    (
      ((drop_hole-Left a w.0).well_formed, r.0),
      subst (Counts (drop_queue_holes (freed_state s a) queues).1.1 max_slots) (omega arith) r.1,
    )

drop_account_holes-Counts :
    (s : Freed) (max_slots others : ℕ) (accounts : Map Account)
    → AccountsWellFormed accounts
    → max_slots < 2 ^ 63
    → Counts s.1 max_slots (accounts_slots accounts + others)
    → AccountsWellFormed (drop_account_holes s accounts).0
      × Counts
          (drop_account_holes s accounts).1.1
          max_slots
          (accounts_slots (drop_account_holes s accounts).0 + others)
unfolding drop_account_holes accounts_slots
drop_account_holes-Counts s max_slots others [] w fits c = (tt, c)
drop_account_holes-Counts s max_slots others ((id, acc) ∷ accounts) w fits c =
    let queues = acc.account_queues in
    let r = drop_queue_holes s queues in
    let before : Counts s.1 max_slots (queues_slots queues + (accounts_slots accounts + others)) =
      subst (Counts s.1 max_slots) (omega arith) c in
    let one =
      drop_queue_holes-Counts s max_slots (accounts_slots accounts + others) queues w.0 fits
        before in
    let moved : queues_slots r.0 + (accounts_slots accounts + others)
        ≡ accounts_slots accounts + (queues_slots r.0 + others) =
      omega arith in
    let rest =
      drop_account_holes-Counts r.1 max_slots (queues_slots r.0 + others) accounts w.1 fits
        (subst (Counts r.1.1 max_slots) moved one.1) in
    (
      (one.0, rest.0),
      subst (Counts (drop_account_holes r.1 accounts).1.1 max_slots) (omega arith) rest.1,
    )

-- The queues with holes are emptied, and their slots are free.
pub remove_sequence_id_hole_accounts-Counted :
    (pool : IxPool) → Counted pool → Counted (remove_sequence_id_hole_accounts pool)
unfolding remove_sequence_id_hole_accounts
remove_sequence_id_hole_accounts-Counted pool c =
    let slots = accounts_slots pool.accounts in
    let start : Counts pool.gauge pool.gauge.max_slots (slots + 0) = record {
      total = omega (arith, c.total);
      limit = omega (arith, c.total, c.limit);
      max_same = refl;
    } in
    let r =
      drop_account_holes-Counts (pool.all_ixs, pool.gauge) pool.gauge.max_slots 0 pool.accounts
        c.queues c.fits start in
    record {
      queues = r.0;
      total = omega (arith, r.1.total);
      limit = omega (arith, r.1.total, r.1.limit, r.1.max_same);
      fits = omega (arith, r.1.max_same, c.fits);
    }
