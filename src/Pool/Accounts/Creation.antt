-- ===== src/Pool/Accounts/Creation.antt =====
-- ixpool/ixpool.go: `getOrCreateAccountQueue` finds or makes the queue, and a queue is put back.
use testing_go_moi.Prelude.{
  ℕ, ◌≡◌, refl, subst, ◌∙◌, none, some, [], ◌∷◌, ◌++◌, ◌==◌, Bool-cases, Option-cases, inl, inr,
  Each, Each-append, Each-insert, Map, lookup, insert, lookup-insert, ==_refl, arith,
}
use mathlib.Core.List.Perm
use testing_go_moi.Pool.{Services}
use testing_go_moi.Pool.Gauge.Total.{slot_sum}
use testing_go_moi.Pool.Account.{AccountQueue, Account, get_queue}
use testing_go_moi.Pool.Account.Contents.{WellFormed}
use testing_go_moi.Pool.Accounts.{
  sort_account_queues, set_queue, get_account_queue, put_queue, new_account_queue, add_queue,
  get_or_create_account_queue,
}
use testing_go_moi.Pool.Accounts.Slots.{
  queue_slots, queues_slots, accounts_slots, insert-slots, insert_new-slots,
}
use testing_go_moi.Pool.Accounts.Queues.{
  AccountWellFormed, AccountsWellFormed, get_queue-WellFormed, set_queue-WellFormed,
  sort-WellFormed, sort_append-slots, get-sort_append,
}

pub account_at :
    (accounts : Map Account) (id : ℕ) (acc : Account)
    → AccountsWellFormed accounts
    → lookup id accounts ≡ some acc
    → Each WellFormed acc.account_queues
unfolding lookup
account_at [] id acc w e = cc
account_at ((j, other) ∷ accounts) id acc w e = elim (Bool-cases (j == id)) [
  | inl same ↦
      let found : other ≡ acc = ground (arith, e, same) in
      subst (λ (a : Account). Each WellFormed a.account_queues) found w.0
  | inr differs ↦ account_at accounts id acc w.1 (ground (arith, e, differs))
]

pub get_account_queue-WellFormed :
    (accounts : Map Account) (id key_id : ℕ) (q : AccountQueue)
    → AccountsWellFormed accounts
    → get_account_queue accounts id key_id ≡ some q
    → WellFormed q × (q.key_id ≡ key_id)
unfolding get_account_queue
get_account_queue-WellFormed accounts id key_id q w e = elim (Option-cases (lookup id accounts)) [
  | inl missing ↦ absurd (ground (arith, e, missing))
  | inr acc ↦
      get_queue-WellFormed acc.0.account_queues key_id q (account_at accounts id acc.0 w acc.1)
        (ground (arith, e, acc.1))
]

pub put_queue-WellFormed :
    (accounts : Map Account) (id : ℕ) (q : AccountQueue)
    → AccountsWellFormed accounts
    → WellFormed q
    → AccountsWellFormed (put_queue accounts id q)
unfolding put_queue
put_queue-WellFormed accounts id q w v = elim (Option-cases (lookup id accounts)) [
  | inl missing ↦ rw (missing, put_queue) w
  | inr acc ↦
      rw (acc.1, put_queue)
        (Each-insert AccountWellFormed id
          (record acc.0 { account_queues = set_queue acc.0.account_queues q }) accounts
          (set_queue-WellFormed acc.0.account_queues q (account_at accounts id acc.0 w acc.1) v) w)
]

new_account_queue-WellFormed : (key_id next : ℕ) → WellFormed (new_account_queue key_id next)
unfolding new_account_queue
new_account_queue-WellFormed key_id next = record {
  enqueued_ordered = λ c p q. absurd (omega arith);
  promoted_ordered = λ c p q. absurd (omega arith);
  contents = record { keyed = tt; unique = tt; same = Perm.rfl };
}

-- The queue is at hand, and the accounts hold what they held.
pub record Ready (accounts : Map Account) (id key_id : ℕ) (r : Map Account × AccountQueue)
    : Type 0 where
  pub found : get_account_queue r.0 id key_id ≡ some r.1
  pub well_formed : AccountsWellFormed r.0
  pub slots : accounts_slots r.0 ≡ accounts_slots accounts

pub get-insert_account :
    (accounts : Map Account) (id key_id : ℕ) (acc : Account)
    → get_account_queue (insert id acc accounts) id key_id ≡ get_queue acc.account_queues key_id
unfolding get_account_queue
get-insert_account accounts id key_id acc =
    let there : lookup id (insert id acc accounts) ≡ some acc =
      rw (lookup-insert id id acc accounts, ==_refl) refl in
    rw (there, get_account_queue) refl

get_queue_self : (q : AccountQueue) → get_queue (q ∷ []) q.key_id ≡ some q
unfolding get_queue
get_queue_self q = rw ==_refl refl

queues_slots_one : (q : AccountQueue) → queues_slots (q ∷ []) ≡ queue_slots q
unfolding queues_slots
queues_slots_one q = omega arith

add_queue-Ready :
    (accounts : Map Account) (id : ℕ) (q : AccountQueue)
    → AccountsWellFormed accounts
    → WellFormed q
    → queue_slots q ≡ 0
    → get_account_queue accounts id q.key_id ≡ none
    → Ready accounts id q.key_id (add_queue accounts id q, q)
unfolding add_queue get_account_queue
add_queue-Ready accounts id q w v zero_slots e = elim (Option-cases (lookup id accounts)) [
  | inl missing ↦
      let acc : Account = record { account_queues = q ∷ []; delay_counter = 0 } in
      rw (missing, add_queue)
        (record {
          found = get-insert_account accounts id q.key_id acc ∙ get_queue_self q;
          well_formed = Each-insert AccountWellFormed id acc accounts (v, tt) w;
          slots =
              omega
                (arith, insert_new-slots id acc accounts missing, queues_slots_one q, zero_slots);
        })
  | inr old ↦
      let before = old.0.account_queues in
      let acc : Account = record old.0 {
        account_queues = sort_account_queues (before ++ q ∷ []);
      } in
      let absent : get_queue before q.key_id ≡ none = ground (arith, e, old.1) in
      rw (old.1, add_queue)
        (record {
          found = get-insert_account accounts id q.key_id acc ∙ get-sort_append before q absent;
          well_formed =
              Each-insert AccountWellFormed id acc accounts
                (sort-WellFormed (before ++ q ∷ []) (
                  Each-append WellFormed before (q ∷ []) (account_at accounts id old.0 w old.1)
                    (v, tt)))
                w;
          slots = omega (
            arith,
            insert-slots id acc old.0 accounts old.1,
            sort_append-slots before q,
            zero_slots,
          );
        })
]

pub new_account_queue-slots : (key_id next : ℕ) → queue_slots (new_account_queue key_id next) ≡ 0
unfolding new_account_queue queue_slots slot_sum
new_account_queue-slots key_id next = refl

pub new_account_queue-key : (key_id next : ℕ) → (new_account_queue key_id next).key_id ≡ key_id
unfolding new_account_queue
new_account_queue-key key_id next = refl

-- The sender's queue of the key is there afterwards, and no interaction came or went.
pub get_or_create_account_queue-Ready :
    (env : Services) (accounts : Map Account) (sender key_id sequence_id : ℕ)
    → AccountsWellFormed accounts
    → Ready accounts sender key_id
        (get_or_create_account_queue env accounts sender key_id sequence_id)
unfolding get_or_create_account_queue
get_or_create_account_queue-Ready env accounts sender key_id sequence_id w =
    elim (Option-cases (get_account_queue accounts sender key_id)) [
      | inr q ↦
          rw (q.1, get_or_create_account_queue)
            (record { found = q.1; well_formed = w; slots = refl })
      | inl missing ↦ rw (missing, get_or_create_account_queue) (created missing)
    ]
  where
    next : ℕ
    next = elim (env.get_sequence_id sender key_id) [ none ↦ sequence_id | some n ↦ n ]

    created :
        get_account_queue accounts sender key_id ≡ none
        → Ready accounts sender key_id (
          add_queue accounts sender (new_account_queue key_id next),
          new_account_queue key_id next,
        )
    created missing =
        let q = new_account_queue key_id next in
        let key = new_account_queue-key key_id next in
        subst (λ (k : ℕ). Ready accounts sender k (add_queue accounts sender q, q)) key
          (add_queue-Ready accounts sender q w (new_account_queue-WellFormed key_id next)
            (new_account_queue-slots key_id next) (rw key missing))
