-- ===== src/Pool/Offering/Chosen.antt =====
-- ixpool/ixpool.go: what `ProcessableBatches` returns.
use testing_go_moi.Prelude.{
  ℕ, ◌+◌, inl, inr, List, [], ◌∷◌, ltb, ◌==◌, if◌then◌else◌, length, Bool-cases, Option-cases, Map,
  lookup,
}
use testing_go_moi.Pool.{ParticipantInfo, Interaction, Services}
use testing_go_moi.Pool.Account.{AccountQueue}
use testing_go_moi.Pool.Entry.{IxPool, is_some}
use testing_go_moi.Pool.Batches.{
  is_locked, hash_of, IxBatchRegistry, add_consensus_nodes_hash, add_ix,
}
use testing_go_moi.Pool.Batches.Exclusive.{BatchReach}
use testing_go_moi.Pool.Selection.{max_batches}
use testing_go_moi.Pool.Selection.Choosing.{IsChoice, select_optimal_batches-IsChoice}
use testing_go_moi.Pool.Offering.{
  get_consensus_nodes_hash, Offers, new_offers, existing_hashes, count_new, acquired,
  is_eligible_for_proposal, reallocated, offer_ixns, by_sequence_id, offer_queues, offer_account,
  offer_accounts, ascending, processable_batches,
}

count_new-BatchReach :
    (env : Services) (leader : ℕ) (acquirers : Map ℕ) (existing : Map (Unit {0}))
    (r : IxBatchRegistry) (count : ℕ) (ps : Map ParticipantInfo)
    → BatchReach r
    → BatchReach (count_new env leader acquirers existing r count ps).0
unfolding count_new
count_new-BatchReach env leader acquirers existing r count [] h = h
count_new-BatchReach env leader acquirers existing r count ((id, info) ∷ ps) h =
    elim (Bool-cases (is_locked info)) [
      | inr free ↦
          rw (count_new, free) (count_new-BatchReach env leader acquirers existing r count ps h)
      | inl held ↦ elim (Option-cases (lookup id acquirers)) [
        | inr a ↦ elim (Bool-cases (leader == a.0)) [
          | inr other ↦ rw (count_new, held, a.1, other) h
          | inl own ↦
              rw (count_new, held, a.1, own)
                (count_new-BatchReach env leader acquirers existing r count ps h)
        ]
        | inl new ↦ elim (Option-cases (get_consensus_nodes_hash env id)) [
          | inl failed ↦ rw (count_new, held, new, failed) h
          | inr hash ↦
              rw (count_new, held, new, hash.1)
                (count_new-BatchReach env leader acquirers existing
                  (add_consensus_nodes_hash r id hash.0)
                  (if is_some (lookup hash.0 existing) then count else count + 1) ps
                  (BatchReach.hashed r id hash.0 h))
        ]
      ]
    ]

eligible-BatchReach :
    (env : Services) (o : Offers) (ix : Interaction)
    → BatchReach o.registry
    → BatchReach (is_eligible_for_proposal env o ix).0.registry
unfolding is_eligible_for_proposal acquired
eligible-BatchReach env o ix h =
    let existing = existing_hashes o ix.leader_candidate in
    let counted =
      count_new env ix.leader_candidate o.participant_to_acquirer existing o.registry 0
        ix.participants in
    let kept =
      count_new-BatchReach env ix.leader_candidate o.participant_to_acquirer existing o.registry 0
        ix.participants h in
    elim (Option-cases counted.1) [
      | inl refused ↦ rw (is_eligible_for_proposal, refused) kept
      | inr n ↦ elim (Bool-cases (ltb 4 (length existing + n.0))) [
        | inl many ↦ rw (is_eligible_for_proposal, n.1, many) kept
        | inr few ↦ rw (is_eligible_for_proposal, n.1, few) kept
      ]
    ]

offer_ixns-BatchReach :
    (env : Services) (view : ℕ) (allotted : Map ℕ) (o : Offers) (ixns : List Interaction)
    → BatchReach o.registry
    → BatchReach (offer_ixns env view allotted o ixns).1.registry
unfolding offer_ixns
offer_ixns-BatchReach env view allotted o [] h = h
offer_ixns-BatchReach env view allotted o (ix ∷ ixns) h =
    let e = is_eligible_for_proposal env o ix in
    let kept = eligible-BatchReach env o ix h in
    elim (Bool-cases e.1) [
      | inr refused ↦ rw (offer_ixns, refused) kept
      | inl eligible ↦ elim (Option-cases (lookup ix.hash allotted)) [
        | inl never ↦ rw (offer_ixns, eligible, never) kept
        | inr v ↦
            let later = reallocated env view allotted ix v.0 in
            elim (Bool-cases (ltb view (hash_of later ix.hash))) [
              | inl future ↦ rw (offer_ixns, eligible, v.1, future) kept
              | inr due ↦
                  let a = add_ix e.0.registry ix in
                  let grown = BatchReach.added e.0.registry ix kept in
                  elim (Bool-cases a.1) [
                    | inr full ↦ rw (offer_ixns, eligible, v.1, due, full) grown
                    | inl added ↦
                        rw (offer_ixns, eligible, v.1, due, added)
                          (offer_ixns-BatchReach env view later (record e.0 { registry = a.0 }) ixns
                            grown)
                  ]
            ]
      ]
    ]

offer_queues-BatchReach :
    (env : Services) (view : ℕ) (allotted : Map ℕ) (o : Offers) (queues : List AccountQueue)
    → BatchReach o.registry
    → BatchReach (offer_queues env view allotted o queues).1.registry
unfolding offer_queues
offer_queues-BatchReach env view allotted o [] h = h
offer_queues-BatchReach env view allotted o (q ∷ queues) h =
    let r = offer_ixns env view allotted o (by_sequence_id q.promoted) in
    offer_queues-BatchReach env view r.0 r.1 queues
      (offer_ixns-BatchReach env view allotted o (by_sequence_id q.promoted) h)

offer_account-BatchReach :
    (env : Services) (pool : IxPool) (o : Offers) (id : ℕ)
    → BatchReach o.registry
    → BatchReach (offer_account env pool o id).1.registry
unfolding offer_account
offer_account-BatchReach env pool o id h = elim (Option-cases (lookup id pool.accounts)) [
  | inl missing ↦ rw (offer_account, missing) h
  | inr acc ↦
      rw (offer_account, acc.1)
        (offer_queues-BatchReach env pool.view pool.allotted o acc.0.account_queues h)
]

offer_accounts-BatchReach :
    (env : Services) (pool : IxPool) (o : Offers) (ids : List ℕ)
    → BatchReach o.registry
    → BatchReach (offer_accounts env pool o ids).1.registry
unfolding offer_accounts
offer_accounts-BatchReach env pool o [] h = h
offer_accounts-BatchReach env pool o (id ∷ ids) h =
    let r = offer_account env pool o id in
    offer_accounts-BatchReach env r.0 r.1 ids (offer_account-BatchReach env pool o id h)

-- Of any pool, ProcessableBatches returns at most 20 batches, none of them empty, and no account is
-- locked by the interactions of two of them.
pub processable_batches-IsChoice :
    (env : Services) (pool : IxPool) → IsChoice max_batches (processable_batches env pool).1
unfolding processable_batches new_offers
processable_batches-IsChoice env pool =
    let ids = ascending pool.sorted_participants in
    select_optimal_batches-IsChoice (offer_accounts env pool new_offers ids).1.registry
      (offer_accounts-BatchReach env pool new_offers ids BatchReach.none_yet)
