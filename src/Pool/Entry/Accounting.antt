-- ===== src/Pool/Entry/Accounting.antt =====
-- ixpool/ixpool.go: the gauge counts the slots of the interactions in the queues, and keeps its limit.
use mathlib.Core.List.{Perm}
use testing_go_moi.Prelude.{
  ℕ, ◌+◌, ◌^◌, ◌≤◌, ◌<◌, ◌≡◌, refl, Bool, some, List, ◌∷◌, ◌++◌, ◌==◌, Bool-cases, inl, inr, Map,
  arith,
}
use testing_go_moi.Pool.{Interaction, Services}
use testing_go_moi.Pool.Gauge.{SlotGauge, slots_of}
use testing_go_moi.Pool.Gauge.Total.{slot_sum, slot_sum-append, slot_sum-Perm}
use testing_go_moi.Pool.Account.{AccountQueue, Account, enqueue, promote}
use testing_go_moi.Pool.Account.Contents.{WellFormed}
use testing_go_moi.Pool.Account.Entering.{all, Entered}
use testing_go_moi.Pool.Account.Keeping.{promote-Kept}
use testing_go_moi.Pool.Accounts.{get_account_queue, put_queue}
use testing_go_moi.Pool.Accounts.Slots.{queue_slots, accounts_slots, put_queue-slots}
use testing_go_moi.Pool.Accounts.Queues.{AccountsWellFormed}
use testing_go_moi.Pool.Accounts.Creation.{put_queue-WellFormed}
use testing_go_moi.Pool.Entry.{IxPool, handle_promote_request, entered, enqueue_ix}
use testing_go_moi.Pool.Entry.Putting.{get-put_queue}

-- The gauge and the queues agree, and the limit is kept.
pub record CountedIn (accounts : Map Account) (gauge : SlotGauge) : Type 0 where
  pub queues : AccountsWellFormed accounts
  pub total : gauge.total ≡ accounts_slots accounts
  pub limit : gauge.total ≤ gauge.max_slots
  pub fits : gauge.max_slots < 2 ^ 63

abbrev pub Counted : IxPool → Type 0
Counted pool = CountedIn pool.accounts pool.gauge

pub queue_slots-Perm : (a b : AccountQueue) → Perm (all a) (all b) → queue_slots a ≡ queue_slots b
unfolding queue_slots
queue_slots-Perm a b p = slot_sum-Perm (all a) (all b) p

-- The accounts after a change of the queue under a key.
pub record Put (before after : Map Account) (id : ℕ) (a b : AccountQueue) : Type 0 where
  pub well_formed : AccountsWellFormed after
  pub found : get_account_queue after id b.key_id ≡ some b
  pub slots : accounts_slots after + queue_slots a ≡ accounts_slots before + queue_slots b

pub put_queue-Put :
    (accounts : Map Account) (id : ℕ) (a b : AccountQueue)
    → AccountsWellFormed accounts
    → get_account_queue accounts id a.key_id ≡ some a
    → WellFormed b
    → b.key_id ≡ a.key_id
    → Put accounts (put_queue accounts id b) id a b
put_queue-Put accounts id a b w e v key =
    let at : get_account_queue accounts id b.key_id ≡ some a = rw key e in
    record {
      well_formed = put_queue-WellFormed accounts id b w v;
      found = get-put_queue accounts id b a at;
      slots = put_queue-slots accounts id b a at;
    }

-- A promotion moves interactions from one queue of the account to the other.
pub handle_promote_request-Put :
    (env : Services) (pool : IxPool) (sender : ℕ) (a : AccountQueue)
    → AccountsWellFormed pool.accounts
    → get_account_queue pool.accounts sender a.key_id ≡ some a
    → WellFormed a
    → AccountsWellFormed (handle_promote_request env pool sender a).accounts
      × (accounts_slots (handle_promote_request env pool sender a).accounts
          ≡ accounts_slots pool.accounts)
      × ((handle_promote_request env pool sender a).gauge ≡ pool.gauge)
unfolding handle_promote_request
handle_promote_request-Put env pool sender a w e v =
    let k = promote-Kept a v in
    let p = put_queue-Put pool.accounts sender a (promote a).0 w e k.well_formed k.key in
    (p.well_formed, omega (arith, p.slots, queue_slots-Perm a (promote a).0 k.same), refl)

-- Slots come with the interaction and go with the one that it replaces.
pub record Enqueued (before after : IxPool) (come gone : ℕ) : Type 0 where
  pub well_formed : AccountsWellFormed after.accounts
  pub slots : accounts_slots after.accounts + gone ≡ accounts_slots before.accounts + come
  pub same_gauge : after.gauge ≡ before.gauge

pub Entered-slots :
    (a b : AccountQueue) (ix : Interaction) (gone : List Interaction)
    → Entered a ix gone b
    → queue_slots b + slot_sum gone ≡ queue_slots a + slots_of ix
unfolding queue_slots slot_sum
Entered-slots a b ix gone h = omega (
  arith,
  slot_sum-Perm (all a) (gone ++ h.others) h.before,
  slot_sum-append gone h.others,
  slot_sum-Perm (all b) (ix ∷ h.others) h.after,
)

pub enqueue_ix-Enqueued :
    (env : Services) (pool : IxPool) (a : AccountQueue) (ix : Interaction) (replace : Bool)
    (gone : List Interaction)
    → AccountsWellFormed pool.accounts
    → get_account_queue pool.accounts ix.sender_id a.key_id ≡ some a
    → Entered a ix gone (enqueue a ix replace).0
    → Enqueued pool (enqueue_ix env pool a ix replace) (slots_of ix) (slot_sum gone)
unfolding enqueue_ix entered
enqueue_ix-Enqueued env pool a ix replace gone w e h =
    let b = (enqueue a ix replace).0 in
    let p = put_queue-Put pool.accounts ix.sender_id a b w e h.well_formed h.key in
    let change = Entered-slots a b ix gone h in
    elim (Bool-cases (ix.sequence_id == b.next_sequence_id)) [
      | inl due ↦
          let s =
            handle_promote_request-Put env (entered env pool ix (enqueue a ix replace)) ix.sender_id
              b p.well_formed p.found h.well_formed in
          rw due (record {
            well_formed = s.0;
            slots = omega (arith, s.1, p.slots, change);
            same_gauge = s.2;
          })
      | inr waits ↦ rw waits (record {
        well_formed = p.well_formed;
        slots = omega (arith, p.slots, change);
        same_gauge = refl;
      })
    ]
