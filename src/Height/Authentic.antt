-- ===== src/Height/Authentic.antt =====
-- Whose signatures stand behind the votes of a view (votesetheight.go).
use testing_go_moi.Prelude.{ℕ, ◌≡◌, sym, ◌⊎◌, inl, inr, subst, some, arith, Bool-cases, ◌==◌}
use testing_go_moi.Committee.{Committee}
use testing_go_moi.Votes.{Crypto, Vote, VoteSet, prevote, precommit, add_vote, add_qc}
use testing_go_moi.Votes.Authentic.{IsAuthentic, add_vote-IsAuthentic, add_qc-IsAuthentic}
use testing_go_moi.Height.{
  HeightVoteSet, get_vote_set, store_vote_set, add_height_vote, add_height_qc,
}

module _ (crypto : Crypto) (cs : Committee) where
  abbrev pub AreAuthentic : HeightVoteSet → Type 0
  AreAuthentic hvs =
      IsAuthentic crypto cs prevote hvs.prevotes × IsAuthentic crypto cs precommit hvs.precommits

  -- A vote set stays, or it is that of the vote's kind and is replaced.
  abbrev Changes : VoteSet → VoteSet → ℕ → ℕ → VoteSet → Type 0
  Changes old changed kind type new = (new ≡ old) ⊎ ((kind ≡ type) × (new ≡ changed))

  Changes-IsAuthentic :
      (old changed : VoteSet) (kind type : ℕ) (new : VoteSet)
      → Changes old changed kind type new
      → (kind ≡ type → IsAuthentic crypto cs type old → IsAuthentic crypto cs type changed)
      → IsAuthentic crypto cs type old
      → IsAuthentic crypto cs type new
  Changes-IsAuthentic old changed kind type new (inl e) f a =
      subst (IsAuthentic crypto cs type) (sym e) a
  Changes-IsAuthentic old changed kind type new (inr (same, e)) f a =
      subst (IsAuthentic crypto cs type) (sym e) (f same a)

  add_height_vote-Changes :
      (hvs : HeightVoteSet) (v : Vote)
      → let new = (add_height_vote crypto hvs v).0 in
        Changes hvs.prevotes
          (add_vote crypto hvs.prevotes (some v) hvs.ts_hash).0
          v.type
          prevote
          new.prevotes
        × Changes hvs.precommits
            (add_vote crypto hvs.precommits (some v) hvs.ts_hash).0
            v.type
            precommit
            new.precommits
  unfolding add_height_vote get_vote_set store_vote_set
  add_height_vote-Changes hvs v = ground arith

  add_height_qc-Changes :
      (hvs : HeightVoteSet) (v : Vote)
      → let new = (add_height_qc crypto hvs v).0 in
        Changes hvs.prevotes
          (add_qc crypto hvs.prevotes (some v) hvs.ts_hash).0
          v.type
          prevote
          new.prevotes
        × Changes hvs.precommits
            (add_qc crypto hvs.precommits (some v) hvs.ts_hash).0
            v.type
            precommit
            new.precommits
  unfolding add_height_qc get_vote_set store_vote_set
  add_height_qc-Changes hvs v = ground arith

  pub add_height_vote-AreAuthentic :
      (hvs : HeightVoteSet) (v : Vote)
      → AreAuthentic hvs
      → AreAuthentic (add_height_vote crypto hvs v).0
  add_height_vote-AreAuthentic hvs v (a, b) =
      let (c, d) = add_height_vote-Changes hvs v in
      (
        Changes-IsAuthentic hvs.prevotes _ v.type prevote _ c
            (λ kind. add_vote-IsAuthentic crypto cs prevote hvs.prevotes v hvs.ts_hash kind) a,
        Changes-IsAuthentic hvs.precommits _ v.type precommit _ d
            (λ kind. add_vote-IsAuthentic crypto cs precommit hvs.precommits v hvs.ts_hash kind) b,
      )

  pub add_height_qc-AreAuthentic :
      (hvs : HeightVoteSet) (v : Vote)
      → AreAuthentic hvs
      → AreAuthentic (add_height_qc crypto hvs v).0
  add_height_qc-AreAuthentic hvs v (a, b) =
      let (c, d) = add_height_qc-Changes hvs v in
      (
        Changes-IsAuthentic hvs.prevotes _ v.type prevote _ c
            (λ kind. add_qc-IsAuthentic crypto cs prevote hvs.prevotes v hvs.ts_hash kind) a,
        Changes-IsAuthentic hvs.precommits _ v.type precommit _ d
            (λ kind. add_qc-IsAuthentic crypto cs precommit hvs.precommits v hvs.ts_hash kind) b,
      )

  pub get_vote_set-IsAuthentic :
      (hvs : HeightVoteSet) (type : ℕ) (vs : VoteSet)
      → AreAuthentic hvs
      → get_vote_set hvs type ≡ some vs
      → IsAuthentic crypto cs type vs
  unfolding get_vote_set
  get_vote_set-IsAuthentic hvs type vs (a, b) e = elim (Bool-cases (type == prevote)) [
    | inl first ↦
        let kind : prevote ≡ type = ground (arith, first) in
        let same : hvs.prevotes ≡ vs = ground (arith, e, first) in
        subst (λ k. IsAuthentic crypto cs k vs) kind (subst (IsAuthentic crypto cs prevote) same a)
    | inr past ↦ elim (Bool-cases (type == precommit)) [
      | inr other ↦ absurd (ground (arith, e, past, other))
      | inl second ↦
          let kind : precommit ≡ type = ground (arith, second) in
          let same : hvs.precommits ≡ vs = ground (arith, e, past, second) in
          subst (λ k. IsAuthentic crypto cs k vs) kind
            (subst (IsAuthentic crypto cs precommit) same b)
    ]
  ]
