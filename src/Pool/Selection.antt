-- ===== src/Pool/Selection.antt =====
-- ixpool/ix_batch_registry.go: merging the batches and choosing those to propose.
--
-- `sort.Slice` leaves the order of equal batches open; here it is the order they stood in. A loop that
-- merges has as many rounds as there are batches, which is its fuel. The search for the partner of a
-- batch, its merge and its flush are one function, since the loop ends at the first partner.
pub mod Apart
pub mod Merging
pub mod Rounds
pub mod Choosing
use testing_go_moi.Prelude.{
  ℕ, zero, suc, ◌+◌, Bool, true, false, not, ◌&&◌, ◌||◌, Option, none, some, List, [], ◌∷◌, ltb,
  ◌==◌, if◌then◌else◌, length, Map,
}
use testing_go_moi.Pool.{Interaction}
use testing_go_moi.Pool.Batches.{IxBatch, add, IxBatchRegistry}

abbrev pub max_batches : ℕ
max_batches = 20

unfoldable pub flush : IxBatch → IxBatch
flush b = record { ixs = []; consensus_nodes_hash = [] }

unfoldable pub has_count : ℕ → IxBatch → Bool
has_count n b = length b.consensus_nodes_hash == n

unfoldable pub precedes : IxBatch → IxBatch → Bool
precedes b c =
    if length b.ixs == length c.ixs
    then ltb (length b.consensus_nodes_hash) (length c.consensus_nodes_hash)
    else ltb (length c.ixs) (length b.ixs)

unfoldable pub insert_batch : IxBatch → List IxBatch → List IxBatch
insert_batch b [] = b ∷ []
insert_batch b (c ∷ cs) =
    let later = insert_batch b cs in if precedes c b then c ∷ later else b ∷ c ∷ cs

unfoldable pub sort : List IxBatch → List IxBatch
sort [] = []
sort (b ∷ bs) = insert_batch b (sort bs)

-- Each interaction is added to the batch unless it is full.
unfoldable pub add_all : Map ℕ → IxBatch → List Interaction → IxBatch
add_all hashes b [] = b
add_all hashes b (ix ∷ ixs) = elim (add b ix hashes) [
  | none ↦ add_all hashes b ixs
  | some bigger ↦ add_all hashes bigger ixs
]

-- The batch with the interactions of the first later one that has as many hashes, which is flushed.
unfoldable pub merge_next : ℕ → Map ℕ → IxBatch → List IxBatch → Option (IxBatch × List IxBatch)
merge_next n hashes b [] = none
merge_next n hashes b (c ∷ cs) = elim (has_count n c) [
  | true ↦ some (add_all hashes b c.ixs, flush c ∷ cs)
  | false ↦ elim (merge_next n hashes b cs) [ none ↦ none | some r ↦ some (r.0, c ∷ r.1) ]
]

-- `mergeBatches` from the batch that the loop stands at, with the number of merges so far.
unfoldable pub merge_from : ℕ → ℕ → Map ℕ → ℕ → List IxBatch → List IxBatch × ℕ
merge_from zero n hashes count bs = (bs, count)
merge_from (suc fuel) n hashes count [] = ([], count)
merge_from (suc fuel) n hashes count (b ∷ bs) = elim (has_count n b) [
  | false ↦ let r = merge_from fuel n hashes count bs in (b ∷ r.0, r.1)
  | true ↦ elim (merge_next n hashes b bs) [
    | none ↦ (b ∷ bs, count)
    | some m ↦ elim (count + 1 == max_batches) [
      | true ↦ (m.0 ∷ m.1, count + 1)
      | false ↦ let r = merge_from fuel n hashes (count + 1) m.1 in (m.0 ∷ r.0, r.1)
    ]
  ]
]

unfoldable pub merge_batches : ℕ → Map ℕ → List IxBatch → List IxBatch × Bool
merge_batches n hashes bs = let r = merge_from (length bs) n hashes 0 bs in (r.0, not (r.1 == 0))

-- The first non-empty batches, up to the number of free places.
unfoldable pub take_filled : ℕ → List IxBatch → List IxBatch
take_filled zero bs = []
take_filled (suc places) [] = []
take_filled (suc places) (b ∷ bs) = elim (ltb 0 (length b.ixs)) [
  | true ↦ b ∷ take_filled places bs
  | false ↦ take_filled (suc places) bs
]

unfoldable pub merged_batches : IxBatchRegistry → List IxBatch
merged_batches r =
    let one = merge_batches 1 r.consensus_nodes_hash (sort r.batches) in
    let two = merge_batches 2 r.consensus_nodes_hash one.0 in
    if one.1 || two.1 then sort two.0 else two.0

unfoldable pub select_optimal_batches : IxBatchRegistry → List IxBatch
select_optimal_batches r = take_filled max_batches (merged_batches r)
