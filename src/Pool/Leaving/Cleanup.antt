-- ===== src/Pool/Leaving/Cleanup.antt =====
-- ixpool/ixpool.go: interactions that are executed or dropped leave the gauge in step with the queues.
use mathlib.Core.List.Perm
use mathlib.Core.List.{Perm, perm_middle}
use testing_go_moi.Prelude.{
  ℕ, ◌+◌, ◌-◌, ◌^◌, ◌≤◌, ◌<◌, ◌≡◌, refl, sym, subst, ◌∙◌, none, some, List, [], ◌∷◌, ◌++◌, ltb,
  Bool-cases, Option-cases, inl, inr, Map, arith,
}
use testing_go_moi.Pool.{Interaction, Services}
use testing_go_moi.Pool.Queue.{IxQueue, clear}
use testing_go_moi.Pool.Queue as Queue
use testing_go_moi.Pool.Queue.Pruning.{Pops, pop_cases}
use testing_go_moi.Pool.Gauge.{SlotGauge, decrease, slots_required}
use testing_go_moi.Pool.Gauge.Total.{
  slot_sum, slot_sum-append, slot_sum-Perm, slots_required_lem, decrease_lem,
}
use testing_go_moi.Pool.Account.{AccountQueue, Account, remove}
use testing_go_moi.Pool.Account.Contents.{WellFormed, Holds-Perm}
use testing_go_moi.Pool.Account.Removal.{remove_lem}
use testing_go_moi.Pool.Account.Entering.{all}
use testing_go_moi.Pool.Accounts.{get_account_queue, put_queue}
use testing_go_moi.Pool.Accounts.Slots.{queue_slots}
use testing_go_moi.Pool.Accounts.Creation.{get_account_queue-WellFormed}
use testing_go_moi.Pool.Validation.{state_sequence_id}
use testing_go_moi.Pool.Entry.{IxPool}
use testing_go_moi.Pool.Entry.Putting.{queue_slots_le}
use testing_go_moi.Pool.Entry.Accounting.{CountedIn, Counted, put_queue-Put}
use testing_go_moi.Pool.Leaving.{cleanup, pop, dropped_queue, drop}

-- Slots that are counted are taken off.
pub freed_total :
    (g : SlotGauge) (gone : List Interaction)
    → slot_sum gone ≤ g.total
    → g.total < 2 ^ 63
    → ((decrease g (slots_required gone)).total ≡ g.total - slot_sum gone)
      × ((decrease g (slots_required gone)).max_slots ≡ g.max_slots)
unfolding decrease
freed_total g gone h fits =
    let sum = slots_required_lem gone (omega arith) in
    (
      decrease_lem g (slots_required gone) (omega (arith, sum)) (omega arith) ∙ omega (arith, sum),
      refl,
    )

pub record Left (a b : AccountQueue) (gone : List Interaction) : Type 0 where
  pub well_formed : WellFormed b
  pub key : b.key_id ≡ a.key_id
  pub split : Perm (all a) (gone ++ all b)

pub Left-slots :
    (a b : AccountQueue) (gone : List Interaction)
    → Left a b gone
    → queue_slots a ≡ slot_sum gone + queue_slots b
unfolding queue_slots
Left-slots a b gone h = slot_sum-Perm (all a) (gone ++ all b) h.split ∙ slot_sum-append gone (all b)

-- A queue gives interactions up, and their slots are freed.
pub leave-CountedIn :
    (accounts : Map Account) (g : SlotGauge) (id : ℕ) (a b : AccountQueue) (gone : List Interaction)
    → CountedIn accounts g
    → get_account_queue accounts id a.key_id ≡ some a
    → Left a b gone
    → CountedIn (put_queue accounts id b) (decrease g (slots_required gone))
leave-CountedIn accounts g id a b gone c e h =
    let p = put_queue-Put accounts id a b c.queues e h.well_formed h.key in
    let slots = Left-slots a b gone h in
    let le : slot_sum gone ≤ g.total =
      omega (arith, queue_slots_le accounts id a.key_id a e, c.total, slots) in
    let freed = freed_total g gone le (omega (arith, c.limit, c.fits)) in
    record {
      queues = p.well_formed;
      total = omega (arith, freed.0, p.slots, slots, c.total, le);
      limit = omega (arith, freed.0, freed.1, c.limit);
      fits = omega (arith, freed.1, c.fits);
    }

-- The first promoted interaction leaves.
abbrev popped_queue : AccountQueue → Interaction → IxQueue → AccountQueue
popped_queue a head rest = record a {
  promoted = rest;
  sequence_id_to_ix = remove a.sequence_id_to_ix (head ∷ []);
}

popped-Left :
    (a : AccountQueue) (p : Pops a.promoted)
    → WellFormed a
    → Left a (popped_queue a p.entry p.rest) (p.entry ∷ [])
popped-Left a p w =
    let split : Perm (all a) (p.entry ∷ (a.enqueued ++ p.rest)) =
      Perm.trans (Perm.append_left a.enqueued p.same) (perm_middle a.enqueued p.rest) in
    record {
      well_formed = record {
        enqueued_ordered = w.enqueued_ordered;
        promoted_ordered = p.ordered;
        contents = remove_lem a.sequence_id_to_ix (p.entry ∷ []) (a.enqueued ++ p.rest) (
            Holds-Perm a.sequence_id_to_ix (all a) (p.entry ∷ (a.enqueued ++ p.rest)) split
              w.contents);
      };
      key = refl;
      split = split;
    }

queue_pop_empty : (q : IxQueue) → q ≡ [] → Queue.pop q ≡ none
unfolding Queue.pop
queue_pop_empty q e = rw e refl

abbrev popped_pool : IxPool → ℕ → AccountQueue → Interaction → IxQueue → IxPool
popped_pool pool sender a head rest = record pool {
  gauge = decrease pool.gauge (slots_required (head ∷ []));
  accounts = put_queue pool.accounts sender (popped_queue a head rest);
}

pop_takes :
    (pool : IxPool) (ix head : Interaction) (a : AccountQueue) (rest : IxQueue)
    → get_account_queue pool.accounts ix.sender_id ix.sender_key_id ≡ some a
    → Queue.pop a.promoted ≡ some (head, rest)
    → pop pool ix ≡ some (popped_pool pool ix.sender_id a head rest)
unfolding pop
pop_takes pool ix head a rest e f = rw (e, pop, f) refl

pub found_by_key :
    (accounts : Map Account) (id key_id : ℕ) (a : AccountQueue)
    → get_account_queue accounts id key_id ≡ some a
    → a.key_id ≡ key_id
    → get_account_queue accounts id a.key_id ≡ some a
found_by_key accounts id key_id a e key =
    subst (λ (k : ℕ). get_account_queue accounts id k ≡ some a) (sym key) e

-- `Pop` keeps the gauge in step, where it does not panic.
pub pop-Counted :
    (pool after : IxPool) (ix : Interaction)
    → Counted pool
    → pop pool ix ≡ some after
    → Counted after
unfolding pop
pop-Counted pool after ix c e =
    elim (Option-cases (get_account_queue pool.accounts ix.sender_id ix.sender_key_id)) [
      | inl missing ↦ absurd (ground (arith, e, missing))
      | inr a ↦
          let w =
            get_account_queue-WellFormed pool.accounts ix.sender_id ix.sender_key_id a.0 c.queues
              a.1 in
          elim (pop_cases a.0.promoted w.0.promoted_ordered) [
            | inl empty ↦ absurd (ground (arith, e, a.1, queue_pop_empty a.0.promoted empty))
            | inr p ↦
                let same : popped_pool pool ix.sender_id a.0 p.entry p.rest ≡ after =
                  cc (pop_takes pool ix p.entry a.0 p.rest a.1 p.popped, e) in
                subst Counted same (
                  leave-CountedIn pool.accounts pool.gauge ix.sender_id a.0
                    (popped_queue a.0 p.entry p.rest) (p.entry ∷ []) c
                    (found_by_key pool.accounts ix.sender_id ix.sender_key_id a.0 a.1 w.1)
                    (popped-Left a.0 p w.0))
          ]
    ]

dropped-WellFormed : (a : AccountQueue) (n : ℕ) → WellFormed (dropped_queue a n)
unfolding dropped_queue clear
dropped-WellFormed a n = record {
  enqueued_ordered = λ c p q. absurd (omega arith);
  promoted_ordered = λ c p q. absurd (omega arith);
  contents = record { keyed = tt; unique = tt; same = Perm.rfl };
}

-- `Drop` empties both queues, and frees their slots one queue after the other.
dropped-CountedIn :
    (accounts : Map Account) (g : SlotGauge) (id n : ℕ) (a : AccountQueue)
    → CountedIn accounts g
    → get_account_queue accounts id a.key_id ≡ some a
    → CountedIn
        (put_queue accounts id (dropped_queue a n))
        (decrease (decrease g (slots_required a.promoted)) (slots_required a.enqueued))
unfolding dropped_queue clear queue_slots slot_sum
dropped-CountedIn accounts g id n a c e =
    let p =
      put_queue-Put accounts id a (dropped_queue a n) c.queues e (dropped-WellFormed a n) refl in
    let sum = slot_sum-append a.enqueued a.promoted in
    let le : slot_sum a.enqueued + slot_sum a.promoted ≤ g.total =
      omega (arith, queue_slots_le accounts id a.key_id a e, c.total, sum) in
    let first = freed_total g a.promoted (omega (arith, le)) (omega (arith, c.limit, c.fits)) in
    let second =
      freed_total (decrease g (slots_required a.promoted)) a.enqueued (omega (arith, first.0, le))
        (omega (arith, first.0, c.limit, c.fits)) in
    record {
      queues = p.well_formed;
      total = omega (arith, first.0, second.0, p.slots, sum, c.total, le);
      limit = omega (arith, first.0, first.1, second.0, second.1, c.limit);
      fits = omega (arith, first.1, second.1, c.fits);
    }

pub drop-Counted :
    (env : Services) (pool : IxPool) (ix : Interaction) → Counted pool → Counted (drop env pool ix)
unfolding drop cleanup clear
drop-Counted env pool ix c =
    elim (Option-cases (get_account_queue pool.accounts ix.sender_id ix.sender_key_id)) [
      | inl missing ↦ rw (missing, drop) c
      | inr a ↦
          let key =
            (get_account_queue-WellFormed pool.accounts ix.sender_id ix.sender_key_id a.0 c.queues
              a.1).1 in
          elim (Bool-cases
            (ltb ix.sequence_id (state_sequence_id env ix.sender_id ix.sender_key_id))) [
              | inl executed ↦ rw (a.1, drop, executed) c
              | inr open_still ↦
                  rw (a.1, drop, open_still)
                    (dropped-CountedIn pool.accounts pool.gauge ix.sender_id ix.sequence_id a.0 c
                      (found_by_key pool.accounts ix.sender_id ix.sender_key_id a.0 a.1 key))
            ]
    ]
