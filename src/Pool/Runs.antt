-- ===== src/Pool/Runs.antt =====
-- ixpool/ixpool.go: the pools that the operations of `IxPool` lead to.
use testing_go_moi.Prelude.{ℕ, ◌^◌, ◌<◌, ◌≡◌, refl, Bool, false, some, List, [], arith}
use testing_go_moi.Pool.{Interaction, Services}
use testing_go_moi.Pool.Accounts.Slots.{accounts_slots}
use testing_go_moi.Pool.Entry.{IxPool, validate_and_enqueue_ix}
use testing_go_moi.Pool.Entry.Accounting.{Counted}
use testing_go_moi.Pool.Entry.Admission.{validate_and_enqueue_ix-Counted}
use testing_go_moi.Pool.Leaving.{pop, drop, reset_with_headers, remove_sequence_id_hole_accounts}
use testing_go_moi.Pool.Leaving.Cleanup.{pop-Counted, drop-Counted}
use testing_go_moi.Pool.Leaving.Resetting.{reset_with_headers-Counted}
use testing_go_moi.Pool.Leaving.Holes.{remove_sequence_id_hole_accounts-Counted}

-- `NewIxPool` with the limits of its configuration.
unfoldable pub new_ix_pool : ℕ → ℕ → IxPool
new_ix_pool max_slots price_limit = record {
  all_ixs = [];
  accounts = [];
  sorted_participants = [];
  gauge = record { total = 0; max_slots = max_slots };
  allotted = [];
  view = 0;
  price_limit = price_limit;
  prune_signalled = false;
}

unfoldable pub update_current_view : IxPool → ℕ → IxPool
update_current_view pool view = record pool { view = view }

-- One call of an exported method, or one round of the pruning goroutine. What the pool asks of the
-- state and the clock may be answered otherwise each time.
pub data Step : IxPool → IxPool → Type 0 where
  entering :
      (env : Services) (waited : Bool) (pool : IxPool) (ix : Interaction)
      → Step pool (validate_and_enqueue_ix env waited pool ix).0
  popping : (pool after : IxPool) (ix : Interaction) → pop pool ix ≡ some after → Step pool after
  dropping : (env : Services) (pool : IxPool) (ix : Interaction) → Step pool (drop env pool ix)
  resetting :
      (env : Services) (pool after : IxPool) (ixs : List Interaction)
      → reset_with_headers env pool ixs ≡ some after
      → Step pool after
  pruning :
      (pool : IxPool)
      → Step pool (record (remove_sequence_id_hole_accounts pool) { prune_signalled = false })
  viewing : (pool : IxPool) (view : ℕ) → Step pool (update_current_view pool view)

pub data Reach (max_slots price_limit : ℕ) : IxPool → Type 0 where
  start : Reach max_slots price_limit (new_ix_pool max_slots price_limit)
  step :
      {pool after : IxPool}
      → Reach max_slots price_limit pool
      → Step pool after
      → Reach max_slots price_limit after

Step-Counted : {pool after : IxPool} → Step pool after → Counted pool → Counted after
unfolding update_current_view
Step-Counted (Step.entering env waited pool ix) c =
    validate_and_enqueue_ix-Counted env waited pool ix c
Step-Counted (Step.popping pool after ix e) c = pop-Counted pool after ix c e
Step-Counted (Step.dropping env pool ix) c = drop-Counted env pool ix c
Step-Counted (Step.resetting env pool after ixs e) c =
    reset_with_headers-Counted env pool after ixs c e
Step-Counted (Step.pruning pool) c =
    let d = remove_sequence_id_hole_accounts-Counted pool c in
    record { queues = d.queues; total = d.total; limit = d.limit; fits = d.fits }
Step-Counted (Step.viewing pool view) c = record {
  queues = c.queues;
  total = c.total;
  limit = c.limit;
  fits = c.fits;
}

new_ix_pool-Counted :
    (max_slots price_limit : ℕ) → max_slots < 2 ^ 63 → Counted (new_ix_pool max_slots price_limit)
unfolding new_ix_pool accounts_slots
new_ix_pool-Counted max_slots price_limit fits = record {
  queues = tt;
  total = refl;
  limit = omega arith;
  fits = fits;
}

-- Whatever interactions come into a new pool, in whatever order they are executed, dropped,
-- replaced, promoted or pruned, and whatever the state answers, the gauge is the sum of the slots of
-- the interactions in the queues and no more than the limit; in each account queue both queues are
-- heaps by sequence id and the mapping by sequence id holds exactly the queued interactions. The
-- limit is below 2^63.
pub Reach-Counted :
    (max_slots price_limit : ℕ) (pool : IxPool)
    → max_slots < 2 ^ 63
    → Reach max_slots price_limit pool
    → Counted pool
Reach-Counted max_slots price_limit pool fits Reach.start =
    new_ix_pool-Counted max_slots price_limit fits
Reach-Counted max_slots price_limit pool fits (Reach.step r s) =
    Step-Counted s (Reach-Counted max_slots price_limit _ fits r)
