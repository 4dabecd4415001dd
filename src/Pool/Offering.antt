-- ===== src/Pool/Offering.antt =====
-- ixpool/ixpool.go: the interactions that the pool offers for a view, and the batches made of them.
--
-- The ids are walked in the order of the tree, which is theirs as numbers. `list` hands out the
-- slice under the promoted queue, so the sort by sequence id reorders that queue, here as well. An id
-- without an account, where the code panics, is passed over. A loop over participants follows the
-- association list.
pub mod Chosen
use testing_go_moi.Prelude.{
  ℕ, zero, suc, ◌+◌, Bool, true, false, Option, none, some, List, [], ◌∷◌, ltb, ◌==◌, if◌then◌else◌,
  length, map, Map, lookup, insert,
}
use testing_go_moi.Pool.{ParticipantInfo, Interaction, AccountMetaInfo, Services}
use testing_go_moi.Pool.Account.{AccountQueue, Account}
use testing_go_moi.Pool.Entry.{IxPool, allocate_view, is_some}
use testing_go_moi.Pool.Batches.{
  is_locked, hash_of, IxBatch, IxBatchRegistry, new_batch_registry, add_consensus_nodes_hash,
  add_ix,
}
use testing_go_moi.Pool.Selection.{select_optimal_batches}

unfoldable pub get_primary_hash : Services → ℕ → Option ℕ
get_primary_hash env id = elim (env.get_account_meta_info id) [
  | none ↦ none
  | some info ↦ some info.consensus_nodes_hash
]

unfoldable pub get_consensus_nodes_hash : Services → ℕ → Option ℕ
get_consensus_nodes_hash env id =
    if env.is_participant_variant id
    then elim (env.get_account_meta_info id) [
      | none ↦ none
      | some info ↦ get_primary_hash env info.inherited_account
    ]
    else get_primary_hash env id

-- What one call of `ProcessableBatches` has put together so far.
pub record Offers : Type 0 where
  pub participant_to_acquirer : Map ℕ
  pub acquirer_to_hashes : Map (Map (Unit {0}))
  pub registry : IxBatchRegistry

unfoldable pub new_offers : Offers
new_offers = record {
  participant_to_acquirer = [];
  acquirer_to_hashes = [];
  registry = new_batch_registry;
}

unfoldable pub existing_hashes : Offers → ℕ → Map (Unit {0})
existing_hashes o leader = elim (lookup leader o.acquirer_to_hashes) [
  | none ↦ []
  | some hashes ↦ hashes
]

-- The first loop of `isEligibleForProposal`: the number of new hashes, `none` where it returns false.
unfoldable pub count_new :
    Services
    → ℕ
    → Map ℕ
    → Map (Unit {0})
    → IxBatchRegistry
    → ℕ
    → Map ParticipantInfo
    → IxBatchRegistry × Option ℕ
count_new env leader acquirers existing r count [] = (r, some count)
count_new env leader acquirers existing r count ((id, info) ∷ ps) = elim (is_locked info) [
  | false ↦ count_new env leader acquirers existing r count ps
  | true ↦ elim (lookup id acquirers) [
    | some acquirer ↦ elim (leader == acquirer) [
      | false ↦ (r, none)
      | true ↦ count_new env leader acquirers existing r count ps
    ]
    | none ↦ elim (get_consensus_nodes_hash env id) [
      | none ↦ (r, none)
      | some hash ↦
          count_new env leader acquirers existing (add_consensus_nodes_hash r id hash)
            (if is_some (lookup hash existing) then count else count + 1) ps
    ]
  ]
]

-- The hash, or `NilHash` if there is none.
unfoldable pub hash_or_nil : Services → ℕ → ℕ
hash_or_nil env id = elim (get_consensus_nodes_hash env id) [ none ↦ 0 | some hash ↦ hash ]

-- The second loop: the leader acquires the locked participants, and has their hashes.
unfoldable pub acquire :
    Services → ℕ → Map ℕ → Map (Unit {0}) → Map ParticipantInfo → Map ℕ × Map (Unit {0})
acquire env leader acquirers hashes [] = (acquirers, hashes)
acquire env leader acquirers hashes ((id, info) ∷ ps) = elim (is_locked info) [
  | false ↦ acquire env leader acquirers hashes ps
  | true ↦
      acquire env leader (insert id leader acquirers) (insert (hash_or_nil env id) tt hashes) ps
]

unfoldable pub acquired : Services → Offers → IxBatchRegistry → Interaction → Offers
acquired env o r ix =
    let leader : ℕ = ix.leader_candidate in
    let a =
      acquire env leader o.participant_to_acquirer (existing_hashes o leader) ix.participants in
    record {
      participant_to_acquirer = a.0;
      acquirer_to_hashes = insert leader a.1 o.acquirer_to_hashes;
      registry = r;
    }

unfoldable pub is_eligible_for_proposal : Services → Offers → Interaction → Offers × Bool
is_eligible_for_proposal env o ix =
    let existing = existing_hashes o ix.leader_candidate in
    let counted =
      count_new env ix.leader_candidate o.participant_to_acquirer existing o.registry 0
        ix.participants in
    elim counted.1 [
      | none ↦ (record o { registry = counted.0 }, false)
      | some count ↦ elim (ltb 4 (length existing + count)) [
        | true ↦ (record o { registry = counted.0 }, false)
        | false ↦ (acquired env o counted.0 ix, true)
      ]
    ]

-- An interaction whose view is past gets another one.
unfoldable pub reallocated : Services → ℕ → Map ℕ → Interaction → ℕ → Map ℕ
reallocated env view allotted ix allotted_view =
    if ltb allotted_view view then allocate_view env view allotted (ix ∷ []) else allotted

-- The loop over the interactions of a queue, up to the first that is not offered.
unfoldable pub offer_ixns : Services → ℕ → Map ℕ → Offers → List Interaction → Map ℕ × Offers
offer_ixns env view allotted o [] = (allotted, o)
offer_ixns env view allotted o (ix ∷ ixns) =
    let e = is_eligible_for_proposal env o ix in
    elim e.1 [
      | false ↦ (allotted, e.0)
      | true ↦ elim (lookup ix.hash allotted) [
        | none ↦ (allotted, e.0)
        | some allotted_view ↦
            let later = reallocated env view allotted ix allotted_view in
            elim (ltb view (hash_of later ix.hash)) [
              | true ↦ (later, e.0)
              | false ↦
                  let a = add_ix e.0.registry ix in
                  elim a.1 [
                    | false ↦ (later, record e.0 { registry = a.0 })
                    | true ↦ offer_ixns env view later (record e.0 { registry = a.0 }) ixns
                  ]
            ]
      ]
    ]

unfoldable pub insert_ix : Interaction → List Interaction → List Interaction
insert_ix ix [] = ix ∷ []
insert_ix ix (x ∷ xs) =
    let later = insert_ix ix xs in
    if ltb x.sequence_id ix.sequence_id then x ∷ later else ix ∷ x ∷ xs

unfoldable pub by_sequence_id : List Interaction → List Interaction
by_sequence_id [] = []
by_sequence_id (x ∷ xs) = insert_ix x (by_sequence_id xs)

unfoldable pub sort_promoted : AccountQueue → AccountQueue
sort_promoted q = record q { promoted = by_sequence_id q.promoted }

unfoldable pub offer_queues : Services → ℕ → Map ℕ → Offers → List AccountQueue → Map ℕ × Offers
offer_queues env view allotted o [] = (allotted, o)
offer_queues env view allotted o (q ∷ queues) =
    let r = offer_ixns env view allotted o (by_sequence_id q.promoted) in
    offer_queues env view r.0 r.1 queues

unfoldable pub offer_account : Services → IxPool → Offers → ℕ → IxPool × Offers
offer_account env pool o id = elim (lookup id pool.accounts) [
  | none ↦ (pool, o)
  | some acc ↦
      let r = offer_queues env pool.view pool.allotted o acc.account_queues in
      let sorted = record acc { account_queues = map sort_promoted acc.account_queues } in
      (record pool { accounts = insert id sorted pool.accounts; allotted = r.0 }, r.1)
]

unfoldable pub offer_accounts : Services → IxPool → Offers → List ℕ → IxPool × Offers
offer_accounts env pool o [] = (pool, o)
offer_accounts env pool o (id ∷ ids) =
    let r = offer_account env pool o id in offer_accounts env r.0 r.1 ids

unfoldable pub insert_id : ℕ → List ℕ → List ℕ
insert_id id [] = id ∷ []
insert_id id (x ∷ xs) = let later = insert_id id xs in if ltb x id then x ∷ later else id ∷ x ∷ xs

-- The ids of the tree, in order.
unfoldable pub ascending : Map (Unit {0}) → List ℕ
ascending [] = []
ascending ((id, _) ∷ ids) = insert_id id (ascending ids)

-- The pool afterwards, and the batches.
unfoldable pub processable_batches : Services → IxPool → IxPool × List IxBatch
processable_batches env pool =
    let r = offer_accounts env pool new_offers (ascending pool.sorted_participants) in
    (r.0, select_optimal_batches r.1.registry)
