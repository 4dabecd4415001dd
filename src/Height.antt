-- ===== src/Height.antt =====
-- consensus/types/votesetheight.go: the two vote sets of a view, and the expected hash.
--
-- `Reset` is called once, by the constructor, so both vote sets are there from the start. The heights
-- and chain ids, which nothing in the file reads, and the logger are left out.
pub mod Keeping
pub mod Authentic
use testing_go_moi.Prelude.{ℕ, Bool, true, false, Option, none, some, ◌==◌, if◌then◌else◌}
use testing_go_moi.Bits.{ArrayOfBits}
use testing_go_moi.Committee.{Committee}
use testing_go_moi.Votes.{
  Crypto, Vote, VoteError, nil_dereference, VoteSet, prevote, precommit, new_vote_set, add_vote,
  add_qc,
}

pub record HeightVoteSet : Type 0 where
  pub ts_hash : ℕ
  pub view : ℕ
  pub prevotes : VoteSet
  pub precommits : VoteSet

unfoldable pub new_height_vote_set : ℕ → Committee → HeightVoteSet
new_height_vote_set view cs = record {
  ts_hash = 0;
  view = view;
  prevotes = new_vote_set view prevote cs;
  precommits = new_vote_set view precommit cs;
}

unfoldable pub set_ts_hash : HeightVoteSet → ℕ → HeightVoteSet
set_ts_hash hvs hash = record hvs { ts_hash = hash }

-- `getVoteSet` gives nil for any other type.
unfoldable pub get_vote_set : HeightVoteSet → ℕ → Option VoteSet
get_vote_set hvs type =
    if type == prevote
    then some hvs.prevotes
    else if type == precommit
    then some hvs.precommits
    else none

-- The vote sets are shared by pointer: what a call changes, the next call sees.
unfoldable pub store_vote_set : HeightVoteSet → ℕ → VoteSet → HeightVoteSet
store_vote_set hvs type vs =
    if type == prevote then record hvs { prevotes = vs } else record hvs { precommits = vs }

abbrev stored :
    HeightVoteSet → ℕ → VoteSet × Bool × Option VoteError → HeightVoteSet × Bool × Option VoteError
stored hvs type r = (store_vote_set hvs type r.0, r.1, r.2)

-- A method of a nil vote set panics.
unfoldable pub add_height_vote :
    Crypto → HeightVoteSet → Vote → HeightVoteSet × Bool × Option VoteError
add_height_vote crypto hvs v = elim (get_vote_set hvs v.type) [
  | none ↦ (hvs, false, some nil_dereference)
  | some vs ↦ stored hvs v.type (add_vote crypto vs (some v) hvs.ts_hash)
]

unfoldable pub add_height_qc :
    Crypto → HeightVoteSet → Vote → HeightVoteSet × Bool × Option VoteError
add_height_qc crypto hvs v = elim (get_vote_set hvs v.type) [
  | none ↦ (hvs, false, some nil_dereference)
  | some vs ↦ stored hvs v.type (add_qc crypto vs (some v) hvs.ts_hash)
]

-- `common.Qc`
pub record Qc : Type 0 where
  pub type : ℕ
  pub view : ℕ
  pub ts_hash : ℕ
  pub signer_indices : Option ArrayOfBits
  pub signature : Option ℕ

-- `GetQC`; the code calls it only with a majority, and without one it panics.
unfoldable pub get_qc : HeightVoteSet → ℕ → ℕ → ℕ → Option Qc
get_qc hvs hash view type = elim (get_vote_set hvs type) [
  | none ↦ none
  | some vs ↦ elim vs.maj23_ts_hash [
    | none ↦ none
    | some h ↦
        if h == hash
        then some (record {
          type = type;
          view = view;
          ts_hash = h;
          signer_indices = vs.votes_bit_array;
          signature = vs.maj23_agg_signature;
        })
        else none
  ]
]
