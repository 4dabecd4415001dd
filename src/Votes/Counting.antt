-- ===== src/Votes/Counting.antt =====
-- What `AddVote` answers, and that no member is counted twice (voteset.go).
use testing_go_moi.Prelude.Int.{pos}
use testing_go_moi.Prelude.{
  ℕ, ◌<◌, ◌≡◌, refl, sym, ap, inl, inr, Bool, true, false, Option, none, some, List, arith,
  Option-cases, length, get_or, get_or-set_self, subst,
}
use testing_go_moi.Votes.{
  Crypto, Vote, VoteSet, Checked, passed, refused, store_vote, cross_quorum, add_verified_vote,
  check_vote, add_vote,
}
use testing_go_moi.Votes.Invariant.{is_some}
use testing_go_moi.Votes.Adding.{Inv, check_vote_ok}

module _ (crypto : Crypto) where
  votes-cross_quorum :
      (vs : VoteSet) (v : Vote) (is_qc : Bool) → (cross_quorum crypto vs v is_qc).votes ≡ vs.votes
  unfolding cross_quorum
  votes-cross_quorum vs v is_qc = ground arith

  -- After a verified vote its place is taken: by the vote if it was added, else by an older one.
  pub place_taken :
      (vs : VoteSet) (v : Vote) (power i : ℕ) (slots : List ℕ) (is_qc : Bool)
      → i < length vs.votes
      → is_some (get_or (add_verified_vote crypto vs v power i slots is_qc).0.votes i none) ≡ true
  unfolding add_verified_vote
  place_taken vs v power i slots is_qc lt = elim (Option-cases (get_or vs.votes i none)) [
    | inr (old, e) ↦ rw (e, add_verified_vote) (ap is_some e)
    | inl e ↦
        rw (e, add_verified_vote, votes-cross_quorum)
          (unfold store_vote in ap is_some (get_or-set_self vs.votes i (some v) none lt))
  ]

  -- A vote for a place that is taken is not added.
  taken_stays :
      (vs : VoteSet) (v : Vote) (power i : ℕ) (slots : List ℕ) (is_qc : Bool)
      → is_some (get_or vs.votes i none) ≡ true
      → add_verified_vote crypto vs v power i slots is_qc ≡ (vs, false)
  unfolding add_verified_vote
  taken_stays vs v power i slots is_qc t = ground arith

  pub added_vote :
      (vs : VoteSet) (vote : Option Vote) (h : ℕ) (u : Vote) (j : ℕ) (slots : List ℕ)
      → check_vote crypto vs vote h ≡ passed (u, j, slots)
      → (add_vote crypto vs vote h).0 ≡ (add_verified_vote crypto vs u 1 j slots false).0
  unfolding add_vote
  added_vote vs vote h u j slots q = rw (q, add_vote) refl

  add_vote_taken :
      (h : ℕ) (vs : VoteSet) (w : Vote) (i : ℕ)
      → w.signer_index ≡ pos i
      → is_some (get_or vs.votes i none) ≡ true
      → ((add_vote crypto vs (some w) h).0 ≡ vs) × ((add_vote crypto vs (some w) h).1 ≡ false)
  unfolding add_vote
  add_vote_taken h vs w i at t = go (check_vote crypto vs (some w) h) refl
    where
      go :
          (r : Checked (Vote × ℕ × List ℕ))
          → check_vote crypto vs (some w) h ≡ r
          → ((add_vote crypto vs (some w) h).0 ≡ vs) × ((add_vote crypto vs (some w) h).1 ≡ false)
      go (refused x) q = rw (q, add_vote) (refl, refl)
      go (passed (u, j, slots)) q =
          let (same, index, _, _, _, _, _) = check_vote_ok crypto vs (some w) h j q in
          let here : i ≡ j = ground (arith, same, index, at) in
          let kept : add_verified_vote crypto vs u 1 j slots false ≡ (vs, false) =
            taken_stays vs u 1 j slots false
              (subst (λ k. is_some (get_or vs.votes k none) ≡ true) here t) in
          rw (q, add_vote, kept) (refl, refl)

  -- A vote set with its invariant accepts a vote; then AddVote adds no other vote of the same
  -- signer, and the vote set stays as it was.
  pub add_vote_once :
      (h : ℕ) (vs : VoteSet) (v w : Vote)
      → Inv h vs
      → (add_vote crypto vs (some v) h).1 ≡ true
      → w.signer_index ≡ v.signer_index
      → let t = (add_vote crypto vs (some v) h).0 in
        ((add_vote crypto t (some w) h).0 ≡ t) × ((add_vote crypto t (some w) h).1 ≡ false)
  add_vote_once h vs v w inv added same = go (check_vote crypto vs (some v) h) refl
    where
      t : VoteSet
      t = (add_vote crypto vs (some v) h).0

      go :
          (r : Checked (Vote × ℕ × List ℕ))
          → check_vote crypto vs (some v) h ≡ r
          → ((add_vote crypto t (some w) h).0 ≡ t) × ((add_vote crypto t (some w) h).1 ≡ false)
      go (refused x) q = absurd (unfold add_vote in ground (arith, q, added))
      go (passed (u, j, slots)) q =
          let (it, index, _, _, _, lt, _) = check_vote_ok crypto vs (some v) h j q in
          let taken : is_some
                (get_or (add_verified_vote crypto vs u 1 j slots false).0.votes j none)
              ≡ true =
            place_taken vs u 1 j slots false (omega (arith, lt, inv.core.votes_sized)) in
          let after : t ≡ (add_verified_vote crypto vs u 1 j slots false).0 =
            added_vote vs (some v) h u j slots q in
          add_vote_taken h t w j (ground (arith, same, it, index))
            (subst (λ (x : VoteSet). is_some (get_or x.votes j none) ≡ true) (sym after) taken)
