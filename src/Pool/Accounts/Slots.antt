-- ===== src/Pool/Accounts/Slots.antt =====
-- ixpool/account.go: the slots that the accounts of the pool use, and what a change of one queue does
-- to them.
use testing_go_moi.Prelude.{
  ℕ, ◌+◌, ◌≡◌, ap, none, some, List, [], ◌∷◌, ◌==◌, Bool-cases, Option-cases, inl, inr, Map, lookup,
  insert, arith,
}
use testing_go_moi.Pool.Account.{AccountQueue, Account, get_queue}
use testing_go_moi.Pool.Account.Entering.{all}
use testing_go_moi.Pool.Gauge.Total.{slot_sum}
use testing_go_moi.Pool.Accounts.{set_queue, get_account_queue, put_queue}

unfoldable pub queue_slots : AccountQueue → ℕ
queue_slots q = slot_sum (all q)

unfoldable pub queues_slots : List AccountQueue → ℕ
queues_slots [] = 0
queues_slots (q ∷ queues) = queue_slots q + queues_slots queues

unfoldable pub accounts_slots : Map Account → ℕ
accounts_slots [] = 0
accounts_slots ((id, acc) ∷ accounts) = queues_slots acc.account_queues + accounts_slots accounts

set_queue-slots :
    (queues : List AccountQueue) (q old : AccountQueue)
    → get_queue queues q.key_id ≡ some old
    → queues_slots (set_queue queues q) + queue_slots old ≡ queues_slots queues + queue_slots q
unfolding set_queue get_queue queues_slots
set_queue-slots [] q old e = cc
set_queue-slots (p ∷ queues) q old e = elim (Bool-cases (p.key_id == q.key_id)) [
  | inl same ↦
      let found : p ≡ old = ground (arith, e, same) in rw same (omega (arith, ap queue_slots found))
  | inr other ↦
      let later : get_queue queues q.key_id ≡ some old = ground (arith, e, other) in
      rw other (omega (arith, set_queue-slots queues q old later))
]

pub insert-slots :
    (id : ℕ) (acc old : Account) (accounts : Map Account)
    → lookup id accounts ≡ some old
    → accounts_slots (insert id acc accounts) + queues_slots old.account_queues
      ≡ accounts_slots accounts + queues_slots acc.account_queues
unfolding lookup insert accounts_slots
insert-slots id acc old [] e = cc
insert-slots id acc old ((j, other) ∷ accounts) e = elim (Bool-cases (j == id)) [
  | inl same ↦
      let found : other ≡ old = ground (arith, e, same) in
      rw same (omega (arith, ap (λ (a : Account). queues_slots a.account_queues) found))
  | inr differs ↦
      let later : lookup id accounts ≡ some old = ground (arith, e, differs) in
      rw differs (omega (arith, insert-slots id acc old accounts later))
]

pub insert_new-slots :
    (id : ℕ) (acc : Account) (accounts : Map Account)
    → lookup id accounts ≡ none
    → accounts_slots (insert id acc accounts)
      ≡ accounts_slots accounts + queues_slots acc.account_queues
unfolding lookup insert accounts_slots
insert_new-slots id acc [] e = omega arith
insert_new-slots id acc ((j, other) ∷ accounts) e = elim (Bool-cases (j == id)) [
  | inl same ↦ absurd (ground (arith, e, same))
  | inr differs ↦
      let later : lookup id accounts ≡ none = ground (arith, e, differs) in
      rw differs (omega (arith, insert_new-slots id acc accounts later))
]

-- A queue that is put back changes the slots by the difference.
pub put_queue-slots :
    (accounts : Map Account) (id : ℕ) (q old : AccountQueue)
    → get_account_queue accounts id q.key_id ≡ some old
    → accounts_slots (put_queue accounts id q) + queue_slots old
      ≡ accounts_slots accounts + queue_slots q
unfolding get_account_queue put_queue
put_queue-slots accounts id q old e = elim (Option-cases (lookup id accounts)) [
  | inl missing ↦ absurd (ground (arith, e, missing))
  | inr acc ↦
      let at : get_queue acc.0.account_queues q.key_id ≡ some old = ground (arith, e, acc.1) in
      rw (acc.1, put_queue)
        (omega (
          arith,
          set_queue-slots acc.0.account_queues q old at,
          insert-slots id (record acc.0 { account_queues = set_queue acc.0.account_queues q }) acc.0
              accounts acc.1,
        ))
]
