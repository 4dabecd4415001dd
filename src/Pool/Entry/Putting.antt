-- ===== src/Pool/Entry/Putting.antt =====
-- ixpool/account.go: a queue is found after it is put back; a counter does not touch the queues.
use testing_go_moi.Prelude.{
  ℕ, ◌≤◌, ◌≡◌, refl, sym, subst, ap, ◌∙◌, Bool, ◌&&◌, some, List, [], ◌∷◌, leb, ◌==◌, Bool-cases,
  Option-cases, inl, inr, Each-insert, Map, lookup, insert, lookup-insert, ==_refl, arith,
}
use testing_go_moi.Pool.Account.{AccountQueue, Account, get_queue}
use testing_go_moi.Pool.Accounts.{set_queue, get_account_queue, put_queue, new_account_queue}
use testing_go_moi.Pool.Accounts.Slots.{queue_slots, accounts_slots, put_queue-slots, insert-slots}
use testing_go_moi.Pool.Accounts.Queues.{AccountWellFormed, AccountsWellFormed}
use testing_go_moi.Pool.Accounts.Creation.{
  account_at, get-insert_account, new_account_queue-slots, new_account_queue-key,
}
use testing_go_moi.Pool.Entry.{max_wait_counter, reset_counter}

get-set_queue :
    (queues : List AccountQueue) (q old : AccountQueue)
    → get_queue queues q.key_id ≡ some old
    → get_queue (set_queue queues q) q.key_id ≡ some q
unfolding get_queue set_queue
get-set_queue [] q old e = cc
get-set_queue (p ∷ queues) q old e = elim (Bool-cases (p.key_id == q.key_id)) [
  | inl same ↦ rw (same, get_queue, ==_refl) refl
  | inr other ↦ rw (other, get_queue, other) (get-set_queue queues q old (ground (arith, e, other)))
]

pub get-put_queue :
    (accounts : Map Account) (id : ℕ) (q old : AccountQueue)
    → get_account_queue accounts id q.key_id ≡ some old
    → get_account_queue (put_queue accounts id q) id q.key_id ≡ some q
unfolding get_account_queue put_queue
get-put_queue accounts id q old e = elim (Option-cases (lookup id accounts)) [
  | inl missing ↦ absurd (ground (arith, e, missing))
  | inr acc ↦
      let next : Account = record acc.0 { account_queues = set_queue acc.0.account_queues q } in
      let put : put_queue accounts id q ≡ insert id next accounts = rw (acc.1, put_queue) refl in
      ap (λ m. get_account_queue m id q.key_id) put
      ∙ get-insert_account accounts id q.key_id next
      ∙ get-set_queue acc.0.account_queues q old (ground (arith, e, acc.1))
]

-- A queue uses no more slots than the accounts.
pub queue_slots_le :
    (accounts : Map Account) (id key_id : ℕ) (q : AccountQueue)
    → get_account_queue accounts id key_id ≡ some q
    → queue_slots q ≤ accounts_slots accounts
queue_slots_le accounts id key_id q e =
    let empty = new_account_queue key_id 0 in
    let at = rw (← new_account_queue-key key_id 0) at e in
    omega (arith, put_queue-slots accounts id empty q at, new_account_queue-slots key_id 0)

pub record CounterOnly (accounts after : Map Account) : Type 0 where
  pub same_queues :
      (id key_id : ℕ) → get_account_queue after id key_id ≡ get_account_queue accounts id key_id
  pub same_slots : accounts_slots after ≡ accounts_slots accounts
  pub well_formed : AccountsWellFormed after

pub zeroed-CounterOnly :
    (accounts : Map Account) (sender : ℕ) (acc : Account)
    → AccountsWellFormed accounts
    → lookup sender accounts ≡ some acc
    → CounterOnly accounts (insert sender (record acc { delay_counter = 0 }) accounts)
unfolding get_account_queue
zeroed-CounterOnly accounts sender acc w e =
    let next : Account = record acc { delay_counter = 0 } in
    record {
      same_queues = λ id key_id. elim (Bool-cases (sender == id)) [
        | inl same ↦
            let before : get_account_queue accounts sender key_id
                ≡ get_queue acc.account_queues key_id =
              rw (e, get_account_queue) refl in
            let own : sender ≡ id = ground arith in
            subst
              (λ (i : ℕ).
                get_account_queue (insert sender next accounts) i key_id
                ≡ get_account_queue accounts i key_id)
              own (get-insert_account accounts sender key_id next ∙ sym before)
        | inr other ↦
            let there : lookup id (insert sender next accounts) ≡ lookup id accounts =
              rw (lookup-insert sender id next accounts, other) refl in
            rw (there, get_account_queue) refl
      ];
      same_slots = omega (arith, insert-slots sender next acc accounts e);
      well_formed =
          Each-insert AccountWellFormed sender next accounts (account_at accounts sender acc w e) w;
    }

pub reset_counter-CounterOnly :
    (accounts : Map Account) (sender : ℕ) (waited : Bool)
    → AccountsWellFormed accounts
    → CounterOnly accounts (reset_counter accounts sender waited)
unfolding reset_counter
reset_counter-CounterOnly accounts sender waited w = elim (Option-cases (lookup sender accounts)) [
  | inl missing ↦
      rw (missing, reset_counter)
        (record { same_queues = λ i k. refl; same_slots = refl; well_formed = w })
  | inr acc ↦ elim (Bool-cases (leb max_wait_counter acc.0.delay_counter && waited)) [
    | inl late ↦ rw (acc.1, reset_counter, late) (zeroed-CounterOnly accounts sender acc.0 w acc.1)
    | inr early ↦
        rw (acc.1, reset_counter, early)
          (record { same_queues = λ i k. refl; same_slots = refl; well_formed = w })
  ]
]
