-- ===== src/Pool/Entry/Admission.antt =====
-- ixpool/ixpool.go: an interaction that comes in, or is refused, keeps the gauge in step with the queues.
use testing_go_moi.Prelude.{
  ℕ, ◌+◌, ◌^◌, ◌≤◌, ◌<◌, ◌≡◌, refl, sym, ap, ◌∙◌, Bool, true, Option, none, some, List, [], ◌∷◌,
  Bool-cases, Option-cases, inl, inr, lookup, arith,
}
use testing_go_moi.Pool.{Interaction, Services}
use testing_go_moi.Pool.Gauge.{SlotGauge, slots_of, slots_required, high_pressure}
use testing_go_moi.Pool.Gauge.Total.{slot_sum, slot_sum-Perm, slots_required_lem}
use testing_go_moi.Pool.Account.{AccountQueue, enqueue}
use testing_go_moi.Pool.Account.Entering.{all, Entered, enqueue_new, enqueue_replaces}
use testing_go_moi.Pool.Accounts.{get_account_queue, get_or_create_account_queue}
use testing_go_moi.Pool.Accounts.Slots.{queue_slots}
use testing_go_moi.Pool.Accounts.Creation.{
  get_account_queue-WellFormed, get_or_create_account_queue-Ready,
}
use testing_go_moi.Pool.Validation.{validate_ix, ix_max_size}
use testing_go_moi.Pool.Entry.{
  IxPool, lookup_add, raised_gauge, lowered_gauge, settled_gauge, reset_counter, slots_freed,
  is_some, remove_old, enqueue_ix, admit, assess_pressure, check_entry, enter,
  validate_and_enqueue_ix,
}
use testing_go_moi.Pool.Entry.Putting.{queue_slots_le, CounterOnly, reset_counter-CounterOnly}
use testing_go_moi.Pool.Entry.Balance.{gauge-Balanced}
use testing_go_moi.Pool.Entry.Accounting.{Counted, enqueue_ix-Enqueued}

slots_of_bound : (ix : Interaction) → ix.size ≤ ix_max_size → slots_of ix ≤ 128
unfolding slots_of
slots_of_bound ix h = omega arith

one_slots : (ix : Interaction) → slots_of ix < 2 ^ 64 → slots_required (ix ∷ []) ≡ slots_of ix
unfolding slot_sum
one_slots ix h = slots_required_lem (ix ∷ []) (omega arith) ∙ omega arith

Counted-same_accounts :
    (pool : IxPool) (g : SlotGauge)
    → Counted pool
    → g.total ≡ pool.gauge.total
    → g.max_slots ≡ pool.gauge.max_slots
    → Counted (record pool { gauge = g })
Counted-same_accounts pool g c same_total same_max = record {
  queues = c.queues;
  total = same_total ∙ c.total;
  limit = omega (arith, c.limit);
  fits = omega (arith, c.fits);
}

-- The interaction that is replaced, as a list.
abbrev gone_list : Option Interaction → List Interaction
gone_list none = []
gone_list (some old) = old ∷ []

-- The gauge was settled before the queues changed.
Counted-enqueued :
    (env : Services) (pool settled : IxPool) (a : AccountQueue) (ix : Interaction) (replace : Bool)
    (gone : List Interaction)
    → Counted pool
    → CounterOnly pool.accounts settled.accounts
    → get_account_queue pool.accounts ix.sender_id a.key_id ≡ some a
    → Entered a ix gone (enqueue a ix replace).0
    → settled.gauge.total + slot_sum gone ≡ pool.gauge.total + slots_of ix
    → settled.gauge.total ≤ pool.gauge.max_slots
    → settled.gauge.max_slots ≡ pool.gauge.max_slots
    → Counted (enqueue_ix env settled a ix replace)
Counted-enqueued env pool settled a ix replace gone c counter e h balance limit same_max =
    let found = counter.same_queues ix.sender_id a.key_id ∙ e in
    let r = enqueue_ix-Enqueued env settled a ix replace gone counter.well_formed found h in
    let same_total = ap (λ (g : SlotGauge). g.total) r.same_gauge in
    let same_limit = ap (λ (g : SlotGauge). g.max_slots) r.same_gauge in
    record {
      queues = r.well_formed;
      total = omega (arith, same_total, balance, r.slots, counter.same_slots, c.total);
      limit = omega (arith, same_total, same_limit, limit, same_max);
      fits = omega (arith, same_limit, same_max, c.fits);
    }

-- Whatever becomes of an interaction that passed the checks, the gauge still counts the queues.
admit-Counted :
    (env : Services) (waited : Bool) (pool : IxPool) (a : AccountQueue) (ix : Interaction)
    (old : Option Interaction)
    → Counted pool
    → ix.size ≤ ix_max_size
    → get_account_queue pool.accounts ix.sender_id a.key_id ≡ some a
    → Entered a ix (gone_list old) (enqueue a ix (is_some old)).0
    → slots_freed old ≡ slot_sum (gone_list old)
    → slot_sum (gone_list old) ≤ pool.gauge.total
    → Counted (admit env waited pool a ix old).0
unfolding admit
admit-Counted env waited pool a ix old c small e h freed_lem freed_le =
    let allocated : ℕ = slots_required (ix ∷ []) in
    let freed : ℕ = slots_freed old in
    let allocated_lem = one_slots ix (omega (arith, slots_of_bound ix small)) in
    let g =
      gauge-Balanced pool.gauge allocated freed c.limit c.fits (omega (arith, freed_lem))
        (omega (arith, allocated_lem, slots_of_bound ix small)) in
    elim (Bool-cases (raised_gauge pool.gauge allocated freed).1) [
      | inr over ↦ rw over c
      | inl room ↦ elim (Option-cases (lookup_add pool.all_ixs ix)) [
        | inl known ↦
            rw (room, known)
              (Counted-same_accounts pool
                (lowered_gauge (raised_gauge pool.gauge allocated freed).0 allocated freed) c
                (g.undone room) g.max_lowered)
        | inr all_ixs ↦
            rw (room, all_ixs.1)
              (Counted-enqueued env pool
                (record pool {
                  gauge = settled_gauge (raised_gauge pool.gauge allocated freed).0 allocated freed;
                  all_ixs = remove_old all_ixs.0 old;
                  accounts = reset_counter pool.accounts ix.sender_id waited;
                })
                a ix (is_some old) (gone_list old) c
                (reset_counter-CounterOnly pool.accounts ix.sender_id waited c.queues) e h
                (omega (arith, g.changed room, freed_lem, allocated_lem))
                (omega (arith, g.bounded room)) g.max_settled)
      ]
    ]

slots_le : (old : Interaction) (others : List Interaction) → slots_of old ≤ slot_sum (old ∷ others)
unfolding slot_sum
slots_le old others = omega arith

-- A replaced interaction is in the queue, so its slots are counted.
old_slots :
    (pool : IxPool) (a b : AccountQueue) (ix old : Interaction)
    → Counted pool
    → get_account_queue pool.accounts ix.sender_id a.key_id ≡ some a
    → Entered a ix (old ∷ []) b
    → slot_sum (old ∷ []) ≤ pool.gauge.total
unfolding queue_slots slot_sum
old_slots pool a b ix old c e h = omega (
  arith,
  c.total,
  queue_slots_le pool.accounts ix.sender_id a.key_id a e,
  slot_sum-Perm (all a) (old ∷ h.others) h.before,
)

freed_slots :
    (old : Interaction) (n : ℕ)
    → slot_sum (old ∷ []) ≤ n
    → n < 2 ^ 63
    → slots_freed (some old) ≡ slot_sum (old ∷ [])
unfolding slots_freed
freed_slots old n h k = slots_required_lem (old ∷ []) (omega arith)

assess_pressure-Counted : (pool : IxPool) → Counted pool → Counted (assess_pressure pool)
unfolding assess_pressure
assess_pressure-Counted pool c = elim (Bool-cases (high_pressure pool.gauge)) [
  | inl high ↦
      rw high (record { queues = c.queues; total = c.total; limit = c.limit; fits = c.fits })
  | inr low ↦ rw low c
]

assess_pressure-accounts : (pool : IxPool) → (assess_pressure pool).accounts ≡ pool.accounts
unfolding assess_pressure
assess_pressure-accounts pool = ground arith

admit_old-Counted :
    (env : Services) (waited : Bool) (pool : IxPool) (a : AccountQueue) (ix : Interaction)
    → Counted pool
    → ix.size ≤ ix_max_size
    → get_account_queue pool.accounts ix.sender_id a.key_id ≡ some a
    → Counted (admit env waited pool a ix (lookup ix.sequence_id a.sequence_id_to_ix)).0
unfolding slot_sum slots_freed is_some
admit_old-Counted env waited pool a ix c small e =
    let v = (get_account_queue-WellFormed pool.accounts ix.sender_id a.key_id a c.queues e).0 in
    elim (Option-cases (lookup ix.sequence_id a.sequence_id_to_ix)) [
      | inl none_there ↦ rw none_there (
          admit-Counted env waited pool a ix none c small e (enqueue_new a ix v none_there) refl
            (omega arith))
      | inr old ↦
          let h = enqueue_replaces a ix old.0 v old.1 in
          let le = old_slots pool a (enqueue a ix true).0 ix old.0 c e h in
          let fits : pool.gauge.total < 2 ^ 63 = omega (arith, c.limit, c.fits) in
          rw old.1 (
            admit-Counted env waited pool a ix (some old.0) c small e h
              (freed_slots old.0 pool.gauge.total le fits) le)
    ]

enter-Counted :
    (env : Services) (waited : Bool) (pool : IxPool) (a : AccountQueue) (ix : Interaction)
    → Counted pool
    → ix.size ≤ ix_max_size
    → get_account_queue pool.accounts ix.sender_id a.key_id ≡ some a
    → Counted (enter env waited pool a ix).0
unfolding enter
enter-Counted env waited pool a ix c small e =
    let d = assess_pressure-Counted pool c in
    let at : get_account_queue (assess_pressure pool).accounts ix.sender_id a.key_id ≡ some a =
      rw (assess_pressure-accounts pool) e in
    elim (Option-cases (check_entry pool.gauge a ix)) [
      | inl passes ↦
          rw (passes, enter) (admit_old-Counted env waited (assess_pressure pool) a ix d small at)
      | inr error ↦ rw (error.1, enter) d
    ]

validate_ix_small :
    (env : Services) (price_limit : ℕ) (ix : Interaction)
    → validate_ix env price_limit ix ≡ none
    → ix.size ≤ ix_max_size
unfolding validate_ix
validate_ix_small env price_limit ix e = ground (arith, e)

-- An interaction comes into the pool or not: the gauge counts the slots of the queues before and after.
pub validate_and_enqueue_ix-Counted :
    (env : Services) (waited : Bool) (pool : IxPool) (ix : Interaction)
    → Counted pool
    → Counted (validate_and_enqueue_ix env waited pool ix).0
unfolding validate_and_enqueue_ix
validate_and_enqueue_ix-Counted env waited pool ix c =
    let r =
      get_or_create_account_queue env pool.accounts ix.sender_id ix.sender_key_id ix.sequence_id in
    let ready =
      get_or_create_account_queue-Ready env pool.accounts ix.sender_id ix.sender_key_id
        ix.sequence_id c.queues in
    elim (Option-cases (validate_ix env pool.price_limit ix)) [
      | inr error ↦ rw (error.1, validate_and_enqueue_ix) c
      | inl passes ↦
          let small = validate_ix_small env pool.price_limit ix passes in
          let key =
            (get_account_queue-WellFormed r.0 ix.sender_id ix.sender_key_id r.1 ready.well_formed
              ready.found).1 in
          let d : Counted (record pool { accounts = r.0 }) = record {
            queues = ready.well_formed;
            total = c.total ∙ sym ready.slots;
            limit = c.limit;
            fits = c.fits;
          } in
          rw (passes, validate_and_enqueue_ix)
            (enter-Counted env waited (record pool { accounts = r.0 }) r.1 ix d small
              (rw key ready.found))
    ]
