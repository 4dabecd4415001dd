-- ===== src/Pool/Accounts/Queues.antt =====
-- ixpool/account.go: every queue of every account stays well formed, and a queue is found under its key.
use testing_go_moi.Prelude.{
  ℕ, ◌+◌, ◌≡◌, refl, subst, ◌∙◌, false, none, some, List, [], ◌∷◌, ◌++◌, ltb, ◌==◌, Bool-cases, inl,
  inr, Each, Map, arith,
}
use testing_go_moi.Pool.Account.{AccountQueue, Account, get_queue, insert_queue}
use testing_go_moi.Pool.Account.Contents.{WellFormed}
use testing_go_moi.Pool.Accounts.{sort_account_queues, set_queue}
use testing_go_moi.Pool.Accounts.Slots.{queue_slots, queues_slots}

abbrev pub QueuesWellFormed : List AccountQueue → Type 0
QueuesWellFormed queues = Each WellFormed queues

abbrev pub AccountWellFormed : ℕ × Account → Type 0
AccountWellFormed e = QueuesWellFormed e.1.account_queues

abbrev pub AccountsWellFormed : Map Account → Type 0
AccountsWellFormed accounts = Each AccountWellFormed accounts

pub get_queue-WellFormed :
    (queues : List AccountQueue) (key_id : ℕ) (q : AccountQueue)
    → QueuesWellFormed queues
    → get_queue queues key_id ≡ some q
    → WellFormed q × (q.key_id ≡ key_id)
unfolding get_queue
get_queue-WellFormed [] key_id q w e = cc
get_queue-WellFormed (p ∷ queues) key_id q w e = elim (Bool-cases (p.key_id == key_id)) [
  | inl same ↦
      let found : p ≡ q = ground (arith, e, same) in
      (
        subst WellFormed found w.0,
        subst (λ (x : AccountQueue). x.key_id ≡ key_id) found (ground (arith, same)),
      )
  | inr other ↦ get_queue-WellFormed queues key_id q w.1 (ground (arith, e, other))
]

pub set_queue-WellFormed :
    (queues : List AccountQueue) (q : AccountQueue)
    → QueuesWellFormed queues
    → WellFormed q
    → QueuesWellFormed (set_queue queues q)
unfolding set_queue
set_queue-WellFormed [] q w v = tt
set_queue-WellFormed (p ∷ queues) q w v = elim (Bool-cases (p.key_id == q.key_id)) [
  | inl same ↦ rw same (v, w.1)
  | inr other ↦ rw other (w.0, set_queue-WellFormed queues q w.1 v)
]

insert_queue-WellFormed :
    (q : AccountQueue) (queues : List AccountQueue)
    → WellFormed q
    → QueuesWellFormed queues
    → QueuesWellFormed (insert_queue q queues)
unfolding insert_queue
insert_queue-WellFormed q [] v w = (v, tt)
insert_queue-WellFormed q (p ∷ queues) v w = elim (Bool-cases (ltb q.key_id p.key_id)) [
  | inl first ↦ rw first (v, w)
  | inr later ↦ rw later (w.0, insert_queue-WellFormed q queues v w.1)
]

pub sort-WellFormed :
    (queues : List AccountQueue)
    → QueuesWellFormed queues
    → QueuesWellFormed (sort_account_queues queues)
unfolding sort_account_queues
sort-WellFormed [] w = tt
sort-WellFormed (q ∷ queues) w =
    insert_queue-WellFormed q (sort_account_queues queues) w.0 (sort-WellFormed queues w.1)

insert_queue-slots :
    (q : AccountQueue) (queues : List AccountQueue)
    → queues_slots (insert_queue q queues) ≡ queue_slots q + queues_slots queues
unfolding insert_queue queues_slots
insert_queue-slots q [] = refl
insert_queue-slots q (p ∷ queues) = elim (Bool-cases (ltb q.key_id p.key_id)) [
  | inl first ↦ rw first refl
  | inr later ↦ rw later (omega (arith, insert_queue-slots q queues))
]

pub sort_append-slots :
    (queues : List AccountQueue) (q : AccountQueue)
    → queues_slots (sort_account_queues (queues ++ q ∷ [])) ≡ queues_slots queues + queue_slots q
unfolding sort_account_queues queues_slots
sort_append-slots [] q = omega (arith, insert_queue-slots q [])
sort_append-slots (p ∷ queues) q = omega (
  arith,
  insert_queue-slots p (sort_account_queues (queues ++ q ∷ [])),
  sort_append-slots queues q,
)

get-insert_other :
    (p : AccountQueue) (queues : List AccountQueue) (key_id : ℕ)
    → (p.key_id == key_id) ≡ false
    → get_queue (insert_queue p queues) key_id ≡ get_queue queues key_id
unfolding get_queue insert_queue
get-insert_other p [] key_id ne = rw ne refl
get-insert_other p (q ∷ queues) key_id ne = elim (Bool-cases (ltb p.key_id q.key_id)) [
  | inl first ↦ rw (first, ne) refl
  | inr later ↦ rw (later, get-insert_other p queues key_id ne) refl
]

-- The new queue is found in the sorted list if its key was not there.
pub get-sort_append :
    (queues : List AccountQueue) (q : AccountQueue)
    → get_queue queues q.key_id ≡ none
    → get_queue (sort_account_queues (queues ++ q ∷ [])) q.key_id ≡ some q
unfolding get_queue sort_account_queues insert_queue
get-sort_append [] q e = ground arith
get-sort_append (p ∷ queues) q e =
    let differs : (p.key_id == q.key_id) ≡ false = ground (arith, e) in
    let later : get_queue queues q.key_id ≡ none = ground (arith, e) in
    get-insert_other p (sort_account_queues (queues ++ q ∷ [])) q.key_id differs
    ∙ get-sort_append queues q later
