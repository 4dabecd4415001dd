-- ===== src/Pool/Leaving/Resetting.antt =====
-- ixpool/ixpool.go: `ResetWithHeaders` leaves the gauge in step with the queues.
use testing_go_moi.Prelude.{
  ℕ, ◌≡◌, ◌⊎◌, refl, sym, subst, ap, ◌∙◌, Option, none, some, List, [], ◌∷◌, leb, ◌==◌, Bool-cases,
  Option-cases, inl, inr, Map, lookup, insert, arith,
}
use testing_go_moi.Pool.{Interaction, Services}
use testing_go_moi.Pool.Queue.{peek}
use testing_go_moi.Pool.Gauge.{SlotGauge, decrease, slots_required}
use testing_go_moi.Pool.Account.{AccountQueue, Account, prune_promoted, prune_enqueued}
use testing_go_moi.Pool.Account.Contents.{WellFormed}
use testing_go_moi.Pool.Account.Removal.{prune_promoted-WellFormed, prune_enqueued-WellFormed}
use testing_go_moi.Pool.Accounts.{get_account_queue, put_queue}
use testing_go_moi.Pool.Accounts.Creation.{get_account_queue-WellFormed}
use testing_go_moi.Pool.Entry.{IxPool, handle_promote_request, lookup_remove}
use testing_go_moi.Pool.Entry.Putting.{CounterOnly, zeroed-CounterOnly}
use testing_go_moi.Pool.Entry.Accounting.{
  CountedIn, Counted, queue_slots-Perm, put_queue-Put, handle_promote_request-Put,
}
use testing_go_moi.Pool.Leaving.{
  cleanup, zero_counter, reset_promoted, catch_up, reset_enqueued, reset_queue, latest_sequence_id,
  reset_loop, reset_with_headers,
}
use testing_go_moi.Pool.Leaving.Cleanup.{Left, leave-CountedIn, found_by_key}

-- A queue that keeps its interactions is put back.
put-CountedIn :
    (accounts : Map Account) (g : SlotGauge) (id : ℕ) (a b : AccountQueue)
    → CountedIn accounts g
    → get_account_queue accounts id a.key_id ≡ some a
    → Left a b []
    → CountedIn (put_queue accounts id b) g
put-CountedIn accounts g id a b c e h =
    let p = put_queue-Put accounts id a b c.queues e h.well_formed h.key in
    record {
      queues = p.well_formed;
      total = omega (arith, p.slots, queue_slots-Perm a b h.split, c.total);
      limit = c.limit;
      fits = c.fits;
    }

counter-CountedIn :
    (accounts after : Map Account) (g : SlotGauge)
    → CountedIn accounts g
    → CounterOnly accounts after
    → CountedIn after g
counter-CountedIn accounts after g c h = record {
  queues = h.well_formed;
  total = c.total ∙ sym h.same_slots;
  limit = c.limit;
  fits = c.fits;
}

zero_counter-CounterOnly :
    (accounts : Map Account) (id : ℕ) (g : SlotGauge)
    → CountedIn accounts g
    → CounterOnly accounts (zero_counter accounts id)
unfolding zero_counter
zero_counter-CounterOnly accounts id g c = elim (Option-cases (lookup id accounts)) [
  | inl missing ↦
      rw (missing, zero_counter)
        (record { same_queues = λ i k. refl; same_slots = refl; well_formed = c.queues })
  | inr acc ↦ rw (acc.1, zero_counter) (zeroed-CounterOnly accounts id acc.0 c.queues acc.1)
]

List-cases {ℓ} :
    {A : Type ℓ} (xs : List A) → (xs ≡ []) ⊎ ((x : A) × (rest : List A) × (xs ≡ x ∷ rest))
List-cases [] = inl refl
List-cases (x ∷ xs) = inr (x, xs, refl)

prune_promoted-key : (a : AccountQueue) (n : ℕ) → (prune_promoted a n).1.key_id ≡ a.key_id
unfolding prune_promoted
prune_promoted-key a n = refl

prune_enqueued-key : (a : AccountQueue) (n : ℕ) → (prune_enqueued a n).1.key_id ≡ a.key_id
unfolding prune_enqueued
prune_enqueued-key a n = refl

pruned_promoted-Left :
    (a : AccountQueue) (n : ℕ) → WellFormed a → Left a (prune_promoted a n).1 (prune_promoted a n).0
pruned_promoted-Left a n w =
    let p = prune_promoted-WellFormed a n w in
    record { well_formed = p.0; key = prune_promoted-key a n; split = p.2 }

-- The account catches up with the state after its enqueued interactions are pruned.
abbrev caught_up : AccountQueue → ℕ → AccountQueue
caught_up a n = record (prune_enqueued a n).1 { next_sequence_id = n }

pruned_enqueued-Left :
    (a : AccountQueue) (n : ℕ) → WellFormed a → Left a (caught_up a n) (prune_enqueued a n).0
pruned_enqueued-Left a n w =
    let p = prune_enqueued-WellFormed a n w in
    record {
      well_formed = record {
        enqueued_ordered = p.0.enqueued_ordered;
        promoted_ordered = p.0.promoted_ordered;
        contents = p.0.contents;
      };
      key = prune_enqueued-key a n;
      split = p.2;
    }

-- A pool in step, with the queue of the account at hand.
record AtQueue (pool : IxPool) (sender : ℕ) (b : AccountQueue) : Type 0 where
  counted : Counted pool
  found : get_account_queue pool.accounts sender b.key_id ≡ some b
  well_formed : WellFormed b

reset_promoted-AtQueue :
    (pool : IxPool) (sender : ℕ) (a : AccountQueue) (n : ℕ)
    → AtQueue pool sender a
    → AtQueue (reset_promoted pool sender a n) sender (prune_promoted a n).1
unfolding reset_promoted cleanup
reset_promoted-AtQueue pool sender a n h =
    let left = pruned_promoted-Left a n h.well_formed in
    let b = (prune_promoted a n).1 in
    let put =
      put_queue-Put pool.accounts sender a b h.counted.queues h.found left.well_formed left.key in
    elim (List-cases (prune_promoted a n).0) [
      | inl nothing ↦
          rw (nothing, reset_promoted)
            (record {
              counted =
                  put-CountedIn pool.accounts pool.gauge sender a b h.counted h.found
                    (subst (Left a b) nothing left);
              found = put.found;
              well_formed = left.well_formed;
            })
      | inr some_ixns ↦
          let gone = (prune_promoted a n).0 in
          let freed =
            leave-CountedIn pool.accounts pool.gauge sender a b gone h.counted h.found left in
          let counter =
            zero_counter-CounterOnly (put_queue pool.accounts sender b) sender
              (decrease pool.gauge (slots_required gone)) freed in
          rw (some_ixns.2, reset_promoted)
            (record {
              counted =
                  counter-CountedIn (put_queue pool.accounts sender b)
                    (zero_counter (put_queue pool.accounts sender b) sender)
                    (decrease pool.gauge (slots_required gone)) freed counter;
              found = counter.same_queues sender b.key_id ∙ put.found;
              well_formed = left.well_formed;
            })
    ]

promoted-Counted :
    (env : Services) (pool : IxPool) (sender : ℕ) (b : AccountQueue)
    → AtQueue pool sender b
    → Counted (handle_promote_request env pool sender b)
promoted-Counted env pool sender b h =
    let p = handle_promote_request-Put env pool sender b h.counted.queues h.found h.well_formed in
    let same_total = ap (λ (g : SlotGauge). g.total) p.2 in
    let same_max = ap (λ (g : SlotGauge). g.max_slots) p.2 in
    record {
      queues = p.0;
      total = same_total ∙ h.counted.total ∙ sym p.1;
      limit = omega (arith, same_total, same_max, h.counted.limit);
      fits = omega (arith, same_max, h.counted.fits);
    }

catch_up-AtQueue :
    (pool : IxPool) (sender : ℕ) (a : AccountQueue) (n : ℕ)
    → AtQueue pool sender a
    → AtQueue (catch_up pool sender a n) sender (caught_up a n)
unfolding catch_up cleanup
catch_up-AtQueue pool sender a n h =
    let left = pruned_enqueued-Left a n h.well_formed in
    let b = caught_up a n in
    let put =
      put_queue-Put pool.accounts sender a b h.counted.queues h.found left.well_formed left.key in
    elim (List-cases (prune_enqueued a n).0) [
      | inl nothing ↦
          rw (nothing, catch_up)
            (record {
              counted =
                  put-CountedIn pool.accounts pool.gauge sender a b h.counted h.found
                    (subst (Left a b) nothing left);
              found = put.found;
              well_formed = left.well_formed;
            })
      | inr some_ixns ↦
          rw (some_ixns.2, catch_up)
            (record {
              counted =
                  leave-CountedIn pool.accounts pool.gauge sender a b (prune_enqueued a n).0
                    h.counted h.found left;
              found = put.found;
              well_formed = left.well_formed;
            })
    ]

reset_enqueued-Counted :
    (env : Services) (pool : IxPool) (sender : ℕ) (a : AccountQueue) (n : ℕ)
    → AtQueue pool sender a
    → Counted (reset_enqueued env pool sender a n)
unfolding reset_enqueued
reset_enqueued-Counted env pool sender a n h =
    let r = catch_up-AtQueue pool sender a n h in
    elim (Option-cases (peek (prune_enqueued a n).1.enqueued)) [
      | inl empty ↦ rw (empty, reset_enqueued) r.counted
      | inr first ↦ elim (Bool-cases (first.0.sequence_id == n)) [
        | inl due ↦
            rw (first.1, reset_enqueued, due)
              (promoted-Counted env (catch_up pool sender a n) sender (caught_up a n) r)
        | inr waits ↦ rw (first.1, reset_enqueued, waits) r.counted
      ]
    ]

reset_queue-Counted :
    (env : Services) (pool : IxPool) (sender : ℕ) (a : AccountQueue) (n : ℕ)
    → AtQueue pool sender a
    → Counted (reset_queue env pool sender a n)
unfolding reset_queue
reset_queue-Counted env pool sender a n h =
    let r = reset_promoted-AtQueue pool sender a n h in
    elim (Bool-cases (leb n a.next_sequence_id)) [
      | inl early ↦ rw early r.counted
      | inr behind ↦ rw behind (
          reset_enqueued-Counted env (reset_promoted pool sender a n) sender (prune_promoted a n).1
            n r)
    ]

reset_loop-Counted :
    (env : Services) (pool after : IxPool) (processed : Map ℕ) (ixs : List Interaction)
    → Counted pool
    → reset_loop env pool processed ixs ≡ some after
    → Counted after
unfolding reset_loop
reset_loop-Counted env pool after processed [] c e =
    let same : pool ≡ after = cc in subst Counted same c
reset_loop-Counted env pool after processed (ix ∷ ixs) c e =
    elim (Option-cases (lookup ix.sender_id processed)) [
      | inr seen ↦ reset_loop-Counted env pool after processed ixs c (rw (seen.1, reset_loop) at e)
      | inl fresh ↦
          let latest = latest_sequence_id env ix in
          let marked = insert ix.sender_id latest processed in
          elim (Option-cases (lookup ix.sender_id pool.accounts)) [
            | inl stranger ↦
                reset_loop-Counted env pool after marked ixs c
                  (rw (fresh, reset_loop, stranger) at e)
            | inr acc ↦
                elim (Option-cases
                  (get_account_queue pool.accounts ix.sender_id ix.sender_key_id)) [
                    | inl panics ↦
                        let bad : ◌≡◌ {A = Option IxPool} none (some after) =
                          rw (fresh, reset_loop, acc.1, panics) at e in
                        absurd (cc)
                    | inr a ↦
                        let w =
                          get_account_queue-WellFormed pool.accounts ix.sender_id ix.sender_key_id
                            a.0 c.queues a.1 in
                        let at : AtQueue pool ix.sender_id a.0 = record {
                          counted = c;
                          found =
                              found_by_key pool.accounts ix.sender_id ix.sender_key_id a.0 a.1 w.1;
                          well_formed = w.0;
                        } in
                        reset_loop-Counted env (reset_queue env pool ix.sender_id a.0 latest) after
                          marked ixs (reset_queue-Counted env pool ix.sender_id a.0 latest at)
                          (rw (fresh, reset_loop, acc.1, a.1) at e)
                  ]
          ]
    ]

-- After a tesseract, the gauge is in step with the queues, where the code does not panic.
pub reset_with_headers-Counted :
    (env : Services) (pool after : IxPool) (ixs : List Interaction)
    → Counted pool
    → reset_with_headers env pool ixs ≡ some after
    → Counted after
unfolding reset_with_headers
reset_with_headers-Counted env pool after [] c e =
    let same : pool ≡ after = cc in subst Counted same c
reset_with_headers-Counted env pool after (ix ∷ ixs) c e =
    reset_loop-Counted env (record pool { all_ixs = lookup_remove pool.all_ixs (ix ∷ ixs) }) after
      [] (ix ∷ ixs) c e
