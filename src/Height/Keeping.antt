-- ===== src/Height/Keeping.antt =====
-- What adding a vote or a certificate keeps of both vote sets (votesetheight.go, voteset.go).
use testing_go_moi.Prelude.{
  ℕ, ◌≡◌, refl, sym, ◌⊎◌, inl, inr, Bool, true, false, Option, some, List, [], ◌∷◌, arith, subst,
}
use testing_go_moi.Committee.{Member}
use testing_go_moi.Votes.{
  Crypto, Vote, VoteSet, Checked, passed, refused, store_vote, cross_quorum, add_verified_vote,
  check_vote, add_vote, check_qc, add_signers, add_qc,
}
use testing_go_moi.Votes.Adding.{Inv, add_vote-Inv}
use testing_go_moi.Votes.Certificates.{add_qc-Inv}
use testing_go_moi.Votes.Majority.{vote, certificate}
use testing_go_moi.Votes.Intersection.{cs-Step}
use testing_go_moi.Height.{
  HeightVoteSet, get_vote_set, store_vote_set, add_height_vote, add_height_qc,
}

-- Both vote sets have their invariant for the expected hash.
abbrev pub HeightInv : ℕ → HeightVoteSet → Type 0
HeightInv h hvs = (hvs.ts_hash ≡ h) × Inv h hvs.prevotes × Inv h hvs.precommits

module _ (crypto : Crypto) where
  add_verified_vote_keeps :
      (vs : VoteSet) (v : Vote) (power i : ℕ) (slots : List ℕ) (is_qc : Bool) {h : ℕ}
      → vs.maj23_ts_hash ≡ some h
      → (add_verified_vote crypto vs v power i slots is_qc).0.maj23_ts_hash ≡ some h
  unfolding add_verified_vote cross_quorum store_vote
  add_verified_vote_keeps vs v power i slots is_qc e = ground arith

  add_signers_keeps :
      (vs : VoteSet) (v : Vote) (members : List (ℕ × Member)) {h : ℕ}
      → vs.maj23_ts_hash ≡ some h
      → (add_signers crypto vs v members).maj23_ts_hash ≡ some h
  unfolding add_signers
  add_signers_keeps vs v [] e = e
  add_signers_keeps vs v ((i, m) ∷ rest) e =
      add_signers_keeps (add_verified_vote crypto vs v 1 i m.slots true).0 v rest
        (add_verified_vote_keeps vs v 1 i m.slots true e)

  add_vote_keeps :
      (vs : VoteSet) (v : Option Vote) (expected : ℕ) {h : ℕ}
      → vs.maj23_ts_hash ≡ some h
      → (add_vote crypto vs v expected).0.maj23_ts_hash ≡ some h
  unfolding add_vote
  add_vote_keeps vs v expected {h} e = go (check_vote crypto vs v expected) refl
    where
      go :
          (r : Checked (Vote × ℕ × List ℕ))
          → check_vote crypto vs v expected ≡ r
          → (add_vote crypto vs v expected).0.maj23_ts_hash ≡ some h
      go (refused x) q = rw (q, add_vote) e
      go (passed (w, i, slots)) q =
          rw (q, add_vote) (add_verified_vote_keeps vs w 1 i slots false e)

  add_qc_keeps :
      (vs : VoteSet) (v : Option Vote) (expected : ℕ) {h : ℕ}
      → vs.maj23_ts_hash ≡ some h
      → (add_qc crypto vs v expected).0.maj23_ts_hash ≡ some h
  unfolding add_qc
  add_qc_keeps vs v expected {h} e = go (check_qc crypto vs v expected) refl
    where
      go :
          (r : Checked (Vote × List (ℕ × Member)))
          → check_qc crypto vs v expected ≡ r
          → (add_qc crypto vs v expected).0.maj23_ts_hash ≡ some h
      go (refused x) q = rw (q, add_qc) e
      go (passed (w, members)) q = rw (q, add_qc) (add_signers_keeps vs w members e)

  -- What every answer of the two methods keeps.
  abbrev pub Keeps : HeightVoteSet → HeightVoteSet → Type 0
  Keeps new old =
      ((h : ℕ) → HeightInv h old → HeightInv h new)
      × ((h : ℕ) → old.precommits.maj23_ts_hash ≡ some h → new.precommits.maj23_ts_hash ≡ some h)
      × (new.precommits.cs ≡ old.precommits.cs)

  -- A call changes one of the two vote sets, or neither.
  abbrev OneChanges : HeightVoteSet → VoteSet → VoteSet → HeightVoteSet → Type 0
  OneChanges hvs votes1 votes2 new =
      (new ≡ record hvs { prevotes = votes1 })
      ⊎ ((new ≡ record hvs { precommits = votes2 }) ⊎ (new ≡ hvs))

  Keeps-of_one :
      (hvs new : HeightVoteSet) (votes1 votes2 : VoteSet)
      → OneChanges hvs votes1 votes2 new
      → ((h : ℕ) → hvs.ts_hash ≡ h → Inv h hvs.prevotes → Inv h votes1)
      → ((h : ℕ) → hvs.ts_hash ≡ h → Inv h hvs.precommits → Inv h votes2)
      → ((h : ℕ) → hvs.precommits.maj23_ts_hash ≡ some h → votes2.maj23_ts_hash ≡ some h)
      → votes2.cs ≡ hvs.precommits.cs
      → Keeps new hvs
  Keeps-of_one hvs new votes1 votes2 (inl e) f g m c =
      subst (λ n. Keeps n hvs) (sym e) (λ h (t, i, j). (t, f h t i, j), λ h k. k, refl)
  Keeps-of_one hvs new votes1 votes2 (inr (inl e)) f g m c =
      subst (λ n. Keeps n hvs) (sym e) (λ h (t, i, j). (t, i, g h t j), m, c)
  Keeps-of_one hvs new votes1 votes2 (inr (inr e)) f g m c =
      subst (λ n. Keeps n hvs) (sym e) (λ h i. i, λ h k. k, refl)

  add_height_vote-cases :
      (hvs : HeightVoteSet) (v : Vote)
      → OneChanges hvs
          (add_vote crypto hvs.prevotes (some v) hvs.ts_hash).0
          (add_vote crypto hvs.precommits (some v) hvs.ts_hash).0
          (add_height_vote crypto hvs v).0
  unfolding add_height_vote get_vote_set store_vote_set
  add_height_vote-cases hvs v = ground arith

  add_height_qc-cases :
      (hvs : HeightVoteSet) (v : Vote)
      → OneChanges hvs
          (add_qc crypto hvs.prevotes (some v) hvs.ts_hash).0
          (add_qc crypto hvs.precommits (some v) hvs.ts_hash).0
          (add_height_qc crypto hvs v).0
  unfolding add_height_qc get_vote_set store_vote_set
  add_height_qc-cases hvs v = ground arith

  pub add_height_vote-Keeps :
      (hvs : HeightVoteSet) (v : Vote) → Keeps (add_height_vote crypto hvs v).0 hvs
  add_height_vote-Keeps hvs v =
      Keeps-of_one hvs _ _ _ (add_height_vote-cases hvs v)
        (λ h t i.
          subst (λ k. Inv h (add_vote crypto hvs.prevotes (some v) k).0) (sym t)
            (add_vote-Inv crypto h hvs.prevotes (some v) i))
        (λ h t j.
          subst (λ k. Inv h (add_vote crypto hvs.precommits (some v) k).0) (sym t)
            (add_vote-Inv crypto h hvs.precommits (some v) j))
        (λ h m. add_vote_keeps hvs.precommits (some v) hvs.ts_hash m)
        (cs-Step crypto hvs.ts_hash (vote (some v)))

  pub add_height_qc-Keeps :
      (hvs : HeightVoteSet) (v : Vote) → Keeps (add_height_qc crypto hvs v).0 hvs
  add_height_qc-Keeps hvs v =
      Keeps-of_one hvs _ _ _ (add_height_qc-cases hvs v)
        (λ h t i.
          subst (λ k. Inv h (add_qc crypto hvs.prevotes (some v) k).0) (sym t)
            (add_qc-Inv crypto h hvs.prevotes (some v) i))
        (λ h t j.
          subst (λ k. Inv h (add_qc crypto hvs.precommits (some v) k).0) (sym t)
            (add_qc-Inv crypto h hvs.precommits (some v) j))
        (λ h m. add_qc_keeps hvs.precommits (some v) hvs.ts_hash m)
        (cs-Step crypto hvs.ts_hash (certificate (some v)))
