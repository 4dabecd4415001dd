-- ===== src/Lib.antt =====
-- go-moi, the node of the MOI protocol: the core of its consensus, and the pool of
-- interactions.
--
-- A cluster of nodes agrees on a tesseract, the next entry of several accounts at once. The node first
-- locks the accounts (consensus/types/slots.go). The cluster's committee is one set of validators for
-- each group of accounts and one set drawn at random (consensus/types/nodeset.go); a member that
-- stands in several sets votes for each. The votes of a view are counted for each set by itself, and a
-- hash has the majority when every set has its quorum (consensus/types/voteset.go). In a view
-- a node takes the leader's proposal, prevotes, precommits when the prevotes have a majority, and
-- commits when the precommits have one (consensus/kbft/kbft.go). Who voted and who answered is kept
-- in bit arrays (common/arrayofbits.go). Before that, the pool
-- (ixpool) keeps the interactions of each account in the order of their sequence ids, allots them a view
-- in which this node leads, and puts them into batches that share no account.
--
-- Where each part stands:
--   Bits        common/arrayofbits.go: NewArrayOfBits is new_array_of_bits, GetIndex is get_index,
--               SetIndex is set_index, Or, Xor, And, Not and Subtract are or_bits and so on, IsEmpty,
--               IsFull and GetTrueIndices are is_empty, is_full and get_true_indices
--   Slots       consensus/types/slots.go: AddActiveAccounts, ClearActiveAccounts, CleanupSlot and
--               CreateSlotAndLockAccounts have the same names in lower case
--   Committee   consensus/types/nodeset.go and the quorum of consensus/types/ics.go: ICSCommittee is
--               Committee, AppendNodeSet, GetKramaID, HasKramaID and UpdateResponse are
--               append_node_set, get_krama_id, has_krama_id and update_response
--   Votes       consensus/types/voteset.go: VoteSet, AddVote, AddQc, addVerifiedVote and SuperMajority;
--               the crypto package is the parameter Crypto
--   Height      consensus/types/votesetheight.go: the prevotes and the precommits of a view
--   Kbft        consensus/kbft/kbft.go: the state, what is sent and the functions that enter the steps of
--               votes and commits, and in Kbft/Handlers handleMsg, handleTimeout, setProposal, addVote
--               (receive_vote and after_vote) and enterNewView, with the same names in lower case; the
--               vault, the store of consensus/safety, the seal and the tesseract handler are
--               fields of the parameter Node
--   Safety      consensus/safety/safety.go and the parts of consensus/ics_handler.go and
--               consensus/handler.go on views: what a node keeps of a view for the next, and which
--               tesseract a later view must propose; the database is maps, and the search for a
--               tesseract is an argument
--   Heap        Go's container/heap, which the queues of ixpool and common/priority_queue.go call
--   Pool        ixpool and common/ix_batch.go: Pool/Queue is queue.go, Pool/Account and Pool/Accounts are
--               account.go, Pool/Gauge is slot.go, Pool/Validation is validateIx, Pool/Entry is
--               validateAndEnqueueIx, allocateView and lookup_map.go, Pool/Leaving is Pop, Drop,
--               ResetWithHeaders and removeSequenceIDHoleAccounts, Pool/Runs puts these together, Pool/Cache is
--               ix_dup_cache.go, Pool/Batches and Pool/Selection are ix_batch_registry.go, Pool/Offering is
--               ProcessableBatches; the state that the pool asks, the verifier and the checks of
--               payloads are fields of the parameter Services
--   Prelude     the shared names, lists, maps and binary digits
--   Examples    the theorems at concrete inputs
--
-- State is a record, and an operation gives the new state beside its result. A failure is an option or
-- a result with the error; a panic is one of the errors. A loop follows a list or a number; those of
-- the heap, of prune, of promote and of mergeBatches run on fuel: an index, the length of the queue or
-- the number of batches, which the theorems on them show to be enough. A `uint64` word is a number
-- below 2 ^ 64 and a `uint32` sum wraps at 2 ^ 32.
-- Each method modelled holds a mutex from end to end, is one atomic operation, or is called by one
-- that holds one, so calls follow one another. Pop and Drop of the pool fetch the account's queue, and Drop
-- the state's sequence id too, before they take the mutex; each is one operation here all the same.
--
-- Not modelled: the channels between nodes, tickers and the write-ahead log of consensus/kbft, the
-- validation of a peer's certificates and failed views, the pool's queues by
-- waiting time and its queries, the accounts and their trees (state), storage, network, the virtual
-- machine, the RPC interface and the clients. Logging and metrics are left out everywhere.
pub mod Prelude
pub mod Bits
pub mod Safety
pub mod Slots
pub mod Committee
pub mod Votes
pub mod Heap
pub mod Pool
pub mod Height
pub mod Kbft
pub mod Examples
