-- ===== src/Pool/Batches/Exclusive.antt =====
-- ixpool/ix_batch_registry.go: no two batches have interactions that lock the same account.
use testing_go_moi.Prelude.{
  ℕ, ◌<◌, ◌≡◌, ◌⊎◌, inl, inr, refl, sym, subst, ◌∙◌, true, none, some, List, [], ◌∷◌, ◌++◌, ltb,
  ◌==◌, length, length-append, get_elem?, get_elem?_lt, get_elem?-set, get_elem?-append_left,
  get_elem?-append_right, set, Bool-cases, Option-cases, Each, Each-map, Each-append, Map, lookup,
  dec_lt, arith,
}
use testing_go_moi.Pool.{Interaction}
use testing_go_moi.Pool.Batches.{
  is_locked, IxBatch, new_ixn_batch, add_hashes, add, IxBatchRegistry, new_batch_registry,
  add_consensus_nodes_hash, all_in_batch, first_batch, find_batch_id, append_empty_batch, assign,
  add_ix_to_batch, add_ix,
}
use testing_go_moi.Pool.Batches.Assigning.{
  Owned, Compatible, Extends, assign-Extends, assign-Owned, none-Compatible,
  all_in_batch-Compatible,
}

abbrev pub BatchOwned : Map ℕ → ℕ → IxBatch → Type 0
BatchOwned assigned k b = Each (λ ix. Owned assigned k ix.participants) b.ixs

-- Each locked participant of a batch's interactions is looked up in that batch.
pub record Assigned (r : IxBatchRegistry) : Type 0 where
  pub owned :
      (k : ℕ) (b : IxBatch)
      → get_elem? r.batches k ≡ some b
      → BatchOwned r.participant_batch_lookup k b

extend-Owned :
    (old new : Map ℕ) (k : ℕ) (b : IxBatch)
    → Extends old new
    → BatchOwned old k b
    → BatchOwned new k b
extend-Owned old new k b e h =
    Each-map (λ ix. Owned old k ix.participants) (λ ix. Owned new k ix.participants) b.ixs
      (λ ix o.
        Each-map (λ p. is_locked p.1 ≡ true → lookup p.0 old ≡ some k)
          (λ p. is_locked p.1 ≡ true → lookup p.0 new ≡ some k) ix.participants
          (λ p f l. e p.0 k (f l)) o)
      h

add-cases :
    (b : IxBatch) (ix : Interaction) (hashes : Map ℕ)
    → (add b ix hashes ≡ none)
      ⊎ ((c : IxBatch) × (add b ix hashes ≡ some c) × (c.ixs ≡ b.ixs ++ ix ∷ []))
unfolding add
add-cases b ix hashes =
    let bigger : IxBatch = record {
      ixs = b.ixs ++ ix ∷ [];
      consensus_nodes_hash = add_hashes hashes b.consensus_nodes_hash ix.participants;
    } in
    elim (Bool-cases (ltb 100 (length b.ixs))) [
      | inl full ↦ inl (rw full refl)
      | inr room ↦ inr (bigger, rw room refl, refl)
    ]

-- A batch with one more interaction, whose participants now belong to it.
grown-Assigned :
    (r : IxBatchRegistry) (k : ℕ) (ix : Interaction) (b c : IxBatch)
    → Assigned r
    → Compatible r.participant_batch_lookup k ix.participants
    → get_elem? r.batches k ≡ some b
    → c.ixs ≡ b.ixs ++ ix ∷ []
    → Assigned (record r {
      batches = set r.batches k c;
      participant_batch_lookup = assign r.participant_batch_lookup k ix.participants;
    })
grown-Assigned r k ix b c a free e grown =
    let old = r.participant_batch_lookup in
    let new = assign old k ix.participants in
    let extends = assign-Extends old k ix.participants free in
    let here : Each (λ iy. Owned new k iy.participants) (b.ixs ++ ix ∷ []) =
      Each-append (λ iy. Owned new k iy.participants) b.ixs (ix ∷ [])
        (extend-Owned old new k b extends (a.owned k b e))
        (assign-Owned old k ix.participants free, tt) in
    let own : BatchOwned new k c =
      subst (λ (l : List Interaction). Each (λ iy. Owned new k iy.participants) l) (sym grown)
        here in
    let size = get_elem?_lt r.batches k e in
    record {
      owned = λ j d at. elim (Bool-cases (k == j)) [
        | inl same ↦
            let index : k ≡ j = ground arith in
            let written : get_elem? (set r.batches k c) j ≡ some c =
              rw (get_elem?-set r.batches k j c size, same) refl in
            let batch_same : c ≡ d = cc (written, at) in
            subst (λ (i : ℕ). BatchOwned new i d) index (subst (BatchOwned new k) batch_same own)
        | inr other ↦
            let kept : get_elem? (set r.batches k c) j ≡ get_elem? r.batches j =
              rw (get_elem?-set r.batches k j c size, other) refl in
            extend-Owned old new j d extends (a.owned j d (sym kept ∙ at))
      ];
    }

add_ix_to_batch-Assigned :
    (r : IxBatchRegistry) (k : ℕ) (ix : Interaction)
    → Assigned r
    → Compatible r.participant_batch_lookup k ix.participants
    → Assigned (add_ix_to_batch r k ix).0
unfolding add_ix_to_batch
add_ix_to_batch-Assigned r k ix a c = elim (Option-cases (get_elem? r.batches k)) [
  | inl missing ↦ rw (missing, add_ix_to_batch) a
  | inr b ↦ elim (add-cases b.0 ix r.consensus_nodes_hash) [
    | inl full ↦ rw (b.1, add_ix_to_batch, full) a
    | inr d ↦ rw (b.1, add_ix_to_batch, d.1) (grown-Assigned r k ix b.0 d.0 a c b.1 d.2)
  ]
]

last_entry :
    {A : Type 0} (xs : List A) (x b : A) (k : ℕ)
    → get_elem? (xs ++ x ∷ []) k ≡ some b
    → ¬ k < length xs
    → x ≡ b
last_entry xs x b k e late =
    let size = length-append xs (x ∷ []) in
    let inside = get_elem?_lt (xs ++ x ∷ []) k e in
    let at = get_elem?-append_right xs (x ∷ []) k 0 (omega (arith, size, late, inside)) in
    cc (at, e)

append_empty_batch-lookup :
    (r : IxBatchRegistry)
    → (append_empty_batch r).participant_batch_lookup ≡ r.participant_batch_lookup
unfolding append_empty_batch
append_empty_batch-lookup r = refl

append_empty_batch-Assigned : (r : IxBatchRegistry) → Assigned r → Assigned (append_empty_batch r)
unfolding append_empty_batch new_ixn_batch
append_empty_batch-Assigned r a = record {
  owned = λ k b e. elim (dec_lt k (length r.batches)) [
    | yes old ↦ a.owned k b (sym (get_elem?-append_left r.batches (new_ixn_batch ∷ []) k old) ∙ e)
    | no late ↦
        subst (BatchOwned r.participant_batch_lookup k)
          (last_entry r.batches new_ixn_batch b k e late) tt
  ];
}

add_ix-Assigned : (r : IxBatchRegistry) (ix : Interaction) → Assigned r → Assigned (add_ix r ix).0
unfolding add_ix find_batch_id
add_ix-Assigned r ix a =
    let assigned = r.participant_batch_lookup in
    elim (Option-cases (first_batch assigned ix.participants)) [
      | inl nothing ↦
          rw (nothing, add_ix)
            (add_ix_to_batch-Assigned (append_empty_batch r) (length r.batches) ix
              (append_empty_batch-Assigned r a)
              (rw append_empty_batch-lookup
                (none-Compatible assigned (length r.batches) ix.participants nothing)))
      | inr k ↦ elim (Bool-cases (all_in_batch assigned k.0 ix.participants)) [
        | inl one ↦
            rw (k.1, add_ix, one)
              (add_ix_to_batch-Assigned r k.0 ix a
                (all_in_batch-Compatible assigned k.0 ix.participants one))
        | inr several ↦ rw (k.1, add_ix, several) a
      ]
    ]

-- The registries that `ProcessableBatches` goes through.
pub data BatchReach : IxBatchRegistry → Type 0 where
  none_yet : BatchReach new_batch_registry
  hashed :
      (r : IxBatchRegistry) (id hash : ℕ)
      → BatchReach r
      → BatchReach (add_consensus_nodes_hash r id hash)
  added : (r : IxBatchRegistry) (ix : Interaction) → BatchReach r → BatchReach (add_ix r ix).0

pub BatchReach-Assigned : (r : IxBatchRegistry) → BatchReach r → Assigned r
unfolding new_batch_registry add_consensus_nodes_hash
BatchReach-Assigned r BatchReach.none_yet = record { owned = λ k b e. absurd (cc) }
BatchReach-Assigned r (BatchReach.hashed s id hash h) = record {
  owned = (BatchReach-Assigned s h).owned;
}
BatchReach-Assigned r (BatchReach.added s ix h) = add_ix-Assigned s ix (BatchReach-Assigned s h)
