-- ===== src/Votes.antt =====
-- consensus/types/voteset.go: the votes of one kind in one view, and when they are a majority.
--
-- Hashes, signatures, keys and signed bytes are natural numbers: they are only compared and handed to
-- the crypto package, which is the parameter `Crypto` (crypto/vault.go calls a BLS library in C). The
-- committee does not change while votes are counted: the code appends the last set before it makes the
-- vote set. `GetQuorum` keeps its first answer, which is then always the same. The mutex is held from
-- end to end of every method. Logging is left out.
pub mod Tally
pub mod Invariant
pub mod Adding
pub mod Counting
pub mod Certificates
pub mod Majority
pub mod Intersection
pub mod Growth
pub mod Authentic
use testing_go_moi.Prelude.Int.{ℤ, pos, negsuc}
use testing_go_moi.Prelude.{
  ℕ, zero, suc, ◌+◌, ◌≡◌, Bool, true, false, not, ◌||◌, Option, none, some, List, [], ◌∷◌, ◌++◌,
  ltb, ◌==◌, if◌then◌else◌, length, get_elem?, get_or, set, replicate,
}
use testing_go_moi.Bits.{ArrayOfBits, new_array_of_bits, get_true_indices}
use testing_go_moi.Committee.{
  Committee, Member, get_krama_id, get_by_index, get_quorum, set_bit, u32,
}

-- What the code calls of the crypto package and of the wire format; `none` is an error.
pub record Crypto : Type 0 where
  pub sign_bytes : ℕ → ℕ → ℕ → Option ℕ
  pub verify : ℕ → ℕ → ℕ → Option Bool
  pub aggregate_signatures : List ℕ → Option ℕ
  pub verify_aggregate_signature : ℕ → ℕ → List ℕ → Option Bool

-- `ConsensusMsgType`: 2 is a prevote and 3 a precommit, and a peer can send any number.
abbrev pub prevote : ℕ
prevote = 2

abbrev pub precommit : ℕ
precommit = 3

pub record Vote : Type 0 where
  pub type : ℕ
  pub is_qc : Bool
  pub view : ℕ
  pub signer_index : ℤ
  pub ts_hash : ℕ
  pub signer_indices : Option ArrayOfBits
  pub signature : ℕ

-- The errors of the two methods; `nil_dereference` is a panic.
pub data VoteError : Type 0 where
  invalid_vote invalid_validator_details invalid_view invalid_validator : VoteError
  sign_bytes_failed verify_failed signature_verification_failed conflicting_vote : VoteError
  invalid_validator_index public_key_not_found nil_dereference : VoteError

pub record VoteSet : Type 0 where
  pub view : ℕ
  pub votetype : ℕ
  pub cs : Committee
  pub sum : List ℕ
  pub voting_power_sum : List ℕ
  pub votes : List (Option Vote)
  pub votes_bit_array : Option ArrayOfBits
  pub maj23_ts_hash : Option ℕ
  pub maj23_agg_signature : Option ℕ

-- What the checks of a vote come to. `AddQc` can refuse with no error.
pub data Checked {ℓ} (Found : Type ℓ) : Type ℓ where
  refused : Option VoteError → Checked Found
  passed : Found → Checked Found

infixl 5 ◌>>=◌ ◌>>◌
abbrev pub ◌>>=◌ {ℓ κ} :
    {Found : Type ℓ} {Next : Type κ} → Checked Found → (Found → Checked Next) → Checked Next
refused why >>= check = refused why
passed found >>= check = check found

-- A test with the error for its failure, before the checks that are left.
abbrev pub demand : VoteError → Bool → Checked (Unit {0})
demand why holds = if holds then passed tt else refused (some why)

abbrev pub ◌>>◌ {ℓ} : {Next : Type ℓ} → Checked (Unit {0}) → Checked Next → Checked Next
refused why >> left = refused why
passed found >> left = left

abbrev pub or_fail {ℓ} : {Found : Type ℓ} → Option Found → VoteError → Checked Found
or_fail found why = elim found [ none ↦ refused (some why) | some x ↦ passed x ]

unfoldable pub new_vote_set : ℕ → ℕ → Committee → VoteSet
new_vote_set view votetype cs = record {
  view = view;
  votetype = votetype;
  cs = cs;
  sum = replicate cs.size 0;
  voting_power_sum = replicate cs.size 0;
  votes = replicate cs.total_nodes none;
  votes_bit_array = new_array_of_bits cs.total_nodes;
  maj23_ts_hash = none;
  maj23_agg_signature = none;
}

-- `areGreater`: no value is below the one in the same place. (The two slices are of one length.)
unfoldable pub are_greater : List ℕ → List ℕ → Bool
are_greater [] qs = true
are_greater (x ∷ xs) [] = true
are_greater (x ∷ xs) (q ∷ qs) = let rest = are_greater xs qs in if ltb x q then false else rest

-- `HasMajority` and `HasMajorityAny`; a nil vote set has neither.
unfoldable pub has_majority : Option VoteSet → Bool
has_majority none = false
has_majority (some vs) = elim vs.maj23_ts_hash [ none ↦ false | some h ↦ true ]

unfoldable pub has_majority_any : Option VoteSet → Bool
has_majority_any none = false
has_majority_any (some vs) = are_greater vs.sum (get_quorum vs.cs)

-- `SuperMajority`: the hash, if there is a majority.
unfoldable pub super_majority : Option VoteSet → Option ℕ
super_majority none = none
super_majority (some vs) = vs.maj23_ts_hash

-- `updateSum`: one more at every position of the signer's slots.
unfoldable pub add_at : ℕ → List ℕ → List ℕ → List ℕ
add_at power sum [] = sum
add_at power sum (j ∷ js) = add_at power (set sum j (u32 (get_or sum j 0 + power))) js

abbrev pub vote_signature : Option Vote → List ℕ
vote_signature none = []
vote_signature (some v) = v.signature ∷ []

-- The signatures of the votes that the bit array names, in order.
unfoldable pub signatures : List (Option Vote) → List ℕ → List ℕ
signatures votes [] = []
signatures votes (i ∷ is) = vote_signature (get_or votes i none) ++ signatures votes is

abbrev pub indices : Option ArrayOfBits → List ℕ
indices none = []
indices (some b) = get_true_indices b

unfoldable pub store_vote : VoteSet → Vote → ℕ → ℕ → List ℕ → VoteSet
store_vote vs vote power i slots = record vs {
  votes = set vs.votes i (some vote);
  votes_bit_array = set_bit vs.votes_bit_array i true;
  sum = add_at 1 vs.sum slots;
  voting_power_sum = add_at power vs.voting_power_sum slots;
}

abbrev pub index_value : ℤ → Option ℕ
index_value (pos i) = some i
index_value (negsuc n) = none

-- The members that a quorum certificate names, each with its key and its slots.
unfoldable pub signers : Committee → List ℕ → Checked (List (ℕ × Member))
signers cs [] = passed []
signers cs (i ∷ is) = elim (get_krama_id cs (pos i)) [
  | none ↦ refused (some public_key_not_found)
  | some m ↦
      if m.krama_id == 0
      then refused (some public_key_not_found)
      else elim (signers cs is) [ refused e ↦ refused e | passed rest ↦ passed ((i, m) ∷ rest) ]
]

unfoldable pub keys : List (ℕ × Member) → List ℕ
keys [] = []
keys ((i, m) ∷ rest) = m.public_key ∷ keys rest

module _ (crypto : Crypto) where
  open crypto use {sign_bytes, verify, aggregate_signatures, verify_aggregate_signature}

  unfoldable pub aggregate : VoteSet → Option ℕ
  aggregate vs = aggregate_signatures (signatures vs.votes (indices vs.votes_bit_array))

  -- The first time that every quorum is reached, the hash of this vote becomes the majority's. An
  -- error in aggregating is only logged.
  unfoldable pub cross_quorum : VoteSet → Vote → Bool → VoteSet
  cross_quorum vs vote is_qc = elim vs.maj23_ts_hash [
    | some h ↦ vs
    | none ↦
        if are_greater vs.sum (get_quorum vs.cs)
        then record vs {
          maj23_ts_hash = some vote.ts_hash;
          maj23_agg_signature = if is_qc then some vote.signature else aggregate vs;
        }
        else vs
  ]

  unfoldable pub add_verified_vote : VoteSet → Vote → ℕ → ℕ → List ℕ → Bool → VoteSet × Bool
  add_verified_vote vs vote power i slots is_qc = elim (get_or vs.votes i none) [
    | some old ↦ (vs, false)
    | none ↦ (cross_quorum (store_vote vs vote power i slots) vote is_qc, true)
  ]

  -- The checks of `AddVote`, in its order: the index of the signer and its slots.
  unfoldable pub check_vote : VoteSet → Option Vote → ℕ → Checked (Vote × ℕ × List ℕ)
  check_vote vs vote expected = do
    v ← or_fail vote invalid_vote
    i ← or_fail (index_value v.signer_index) invalid_validator_details
    demand invalid_view (v.view == vs.view)
    demand invalid_view (v.type == vs.votetype)
    let (krama, key) = get_by_index vs.cs v.signer_index
    demand invalid_validator (not (krama == 0))
    raw ← or_fail (sign_bytes v.type v.view v.ts_hash) sign_bytes_failed
    verified ← or_fail (verify raw v.signature key) verify_failed
    demand signature_verification_failed verified
    demand conflicting_vote (v.ts_hash == expected)
    m ← or_fail (get_krama_id vs.cs v.signer_index) invalid_validator_index
    passed (v, i, m.slots)

  -- The new state, whether the vote was added, and the error.
  unfoldable pub add_vote : VoteSet → Option Vote → ℕ → VoteSet × Bool × Option VoteError
  add_vote vs vote expected = elim (check_vote vs vote expected) [
    | refused e ↦ (vs, false, e)
    | passed (v, i, slots) ↦
        let (vs', added) = add_verified_vote vs v 1 i slots false in (vs', added, none)
  ]

  -- The checks of `AddQc`. A certificate whose signature is wrong is refused with no error. Neither
  -- the view nor the kind of the vote is compared here.
  unfoldable pub check_qc : VoteSet → Option Vote → ℕ → Checked (Vote × List (ℕ × Member))
  check_qc vs vote expected = do
    v ← or_fail vote invalid_vote
    i ← or_fail (index_value v.signer_index) invalid_validator_details
    bits ← or_fail v.signer_indices nil_dereference
    members ← signers vs.cs (get_true_indices bits)
    raw ← or_fail (sign_bytes v.type v.view v.ts_hash) sign_bytes_failed
    verified ← or_fail (verify_aggregate_signature raw v.signature (keys members)) verify_failed
    if verified then passed tt else refused none
    demand conflicting_vote (v.ts_hash == expected)
    passed (v, members)

  -- The loop of `AddQc`: a member whose vote is there already is passed over.
  unfoldable pub add_signers : VoteSet → Vote → List (ℕ × Member) → VoteSet
  add_signers vs v [] = vs
  add_signers vs v ((i, m) ∷ rest) = add_signers (add_verified_vote vs v 1 i m.slots true).0 v rest

  unfoldable pub add_qc : VoteSet → Option Vote → ℕ → VoteSet × Bool × Option VoteError
  add_qc vs vote expected = elim (check_qc vs vote expected) [
    | refused e ↦ (vs, false, e)
    | passed (v, members) ↦ (add_signers vs v members, true, none)
  ]
