-- ===== src/Votes/Growth.antt =====
-- A vote set only grows (voteset.go).
use testing_go_moi.Prelude.{
  ℕ, suc, ◌+◌, ◌≤◌, ◌≡◌, refl, sym, ap, ◌∙◌, subst, Bool, true, false, Option, none, some, List, [],
  ◌∷◌, inl, inr, arith, ℕ_discrete, Option-cases, get_or, set, get_or-set_ne,
}
use testing_go_moi.Committee.{Committee, Member}
use testing_go_moi.Votes.{
  Crypto, Vote, VoteSet, Checked, passed, refused, store_vote, cross_quorum, add_verified_vote,
  check_vote, add_vote, check_qc, add_signers, add_qc,
}
use testing_go_moi.Votes.Tally.{tally}
use testing_go_moi.Votes.Invariant.{is_some}
use testing_go_moi.Votes.Adding.{Inv, check_vote_ok}
use testing_go_moi.Votes.Counting.{place_taken, added_vote}

-- Where there is a vote in the one list, there is one in the other.
abbrev pub Covers : List (Option Vote) → List (Option Vote) → Type 0
Covers votes old =
    (i : ℕ) → is_some (get_or old i none) ≡ true → is_some (get_or votes i none) ≡ true

-- Votes are added, and what the vote set is for stays.
abbrev pub Grows : VoteSet → VoteSet → Type 0
Grows vs old =
    (vs.view ≡ old.view)
    × (vs.votetype ≡ old.votetype)
    × (vs.cs ≡ old.cs)
    × Covers vs.votes old.votes

pub Grows-refl : (vs : VoteSet) → Grows vs vs
Grows-refl vs = (refl, refl, refl, λ i e. e)

pub Grows-trans : (s t u : VoteSet) → Grows u t → Grows t s → Grows u s
Grows-trans s t u (a, b, c, d) (e, f, g, h) = (a ∙ e, b ∙ f, c ∙ g, λ i p. d i (h i p))

-- A list of votes that covers another weighs no less.
pub tally-Covers :
    (cs : Committee) (j i : ℕ) (votes old : List (Option Vote))
    → Covers votes old
    → tally cs j i old ≤ tally cs j i votes
unfolding tally
tally-Covers cs j i votes [] h = omega arith
tally-Covers cs j i [] (none ∷ old) h =
    omega (arith, tally-Covers cs j (i + 1) [] old (λ k e. h (suc k) e))
tally-Covers cs j i [] (some v ∷ old) h = absurd (cc (h 0 refl))
tally-Covers cs j i (none ∷ votes) (none ∷ old) h =
    omega (arith, tally-Covers cs j (i + 1) votes old (λ k e. h (suc k) e))
tally-Covers cs j i (some w ∷ votes) (none ∷ old) h =
    omega (arith, tally-Covers cs j (i + 1) votes old (λ k e. h (suc k) e))
tally-Covers cs j i (none ∷ votes) (some v ∷ old) h = absurd (cc (h 0 refl))
tally-Covers cs j i (some w ∷ votes) (some v ∷ old) h =
    omega (arith, tally-Covers cs j (i + 1) votes old (λ k e. h (suc k) e))

set-Covers :
    (votes : List (Option Vote)) (i : ℕ) (v : Vote)
    → get_or votes i none ≡ none
    → Covers (set votes i (some v)) votes
set-Covers votes i v free k e = elim (ℕ_discrete i k) [
  | no ne ↦ rw (get_or-set_ne votes i k (some v) none ne) e
  | yes same ↦
      let taken : is_some (get_or votes i none) ≡ true =
        subst (λ n. is_some (get_or votes n none) ≡ true) (sym same) e in
      absurd (cc (ap is_some free, taken))
]

module _ (crypto : Crypto) where
  pub cross_quorum-frame :
      (vs : VoteSet) (v : Vote) (is_qc : Bool)
      → let t = cross_quorum crypto vs v is_qc in
        (t.view ≡ vs.view) × (t.votetype ≡ vs.votetype) × (t.cs ≡ vs.cs) × (t.votes ≡ vs.votes)
  unfolding cross_quorum
  cross_quorum-frame vs v is_qc = ground arith

  add_verified_vote-Grows :
      (vs : VoteSet) (v : Vote) (power i : ℕ) (slots : List ℕ) (is_qc : Bool)
      → Grows (add_verified_vote crypto vs v power i slots is_qc).0 vs
  unfolding add_verified_vote store_vote
  add_verified_vote-Grows vs v power i slots is_qc = elim (Option-cases (get_or vs.votes i none)) [
    | inr (old, e) ↦ rw (e, add_verified_vote) (Grows-refl vs)
    | inl free ↦
        let t : VoteSet = store_vote vs v power i slots in
        let (a, b, c, d) = cross_quorum-frame t v is_qc in
        rw (free, add_verified_vote) (a, b, c, λ k e. rw d (set-Covers vs.votes i v free k e))
  ]

  add_signers-Grows :
      (vs : VoteSet) (v : Vote) (members : List (ℕ × Member))
      → Grows (add_signers crypto vs v members) vs
  unfolding add_signers
  add_signers-Grows vs v [] = Grows-refl vs
  add_signers-Grows vs v ((i, m) ∷ rest) =
      let t : VoteSet = (add_verified_vote crypto vs v 1 i m.slots true).0 in
      Grows-trans vs t (add_signers crypto t v rest) (add_signers-Grows t v rest)
        (add_verified_vote-Grows vs v 1 i m.slots true)

  pub add_vote-Grows :
      (vs : VoteSet) (v : Option Vote) (h : ℕ) → Grows (add_vote crypto vs v h).0 vs
  unfolding add_vote
  add_vote-Grows vs v h = go (check_vote crypto vs v h) refl
    where
      go :
          (r : Checked (Vote × ℕ × List ℕ))
          → check_vote crypto vs v h ≡ r
          → Grows (add_vote crypto vs v h).0 vs
      go (refused x) q = rw (q, add_vote) (Grows-refl vs)
      go (passed (w, i, slots)) q = rw (q, add_vote) (add_verified_vote-Grows vs w 1 i slots false)

  pub add_qc-Grows : (vs : VoteSet) (v : Option Vote) (h : ℕ) → Grows (add_qc crypto vs v h).0 vs
  unfolding add_qc
  add_qc-Grows vs v h = go (check_qc crypto vs v h) refl
    where
      go :
          (r : Checked (Vote × List (ℕ × Member)))
          → check_qc crypto vs v h ≡ r
          → Grows (add_qc crypto vs v h).0 vs
      go (refused x) q = rw (q, add_qc) (Grows-refl vs)
      go (passed (w, members)) q = rw (q, add_qc) (add_signers-Grows vs w members)

  -- The checks read nothing but the view, the kind and the committee of the vote set.
  pub check_vote_same :
      (vs ws : VoteSet) (v : Option Vote) (h : ℕ)
      → vs.view ≡ ws.view
      → vs.votetype ≡ ws.votetype
      → vs.cs ≡ ws.cs
      → check_vote crypto vs v h ≡ check_vote crypto ws v h
  unfolding check_vote
  check_vote_same vs ws v h e f g = rw (e, f, g) refl

  -- After a vote that passes the checks there is a vote in the place of its signer.
  pub add_vote_heard :
      (h : ℕ) (vs : VoteSet) (v : Vote) (i : ℕ) (slots : List ℕ)
      → Inv h vs
      → check_vote crypto vs (some v) h ≡ passed (v, i, slots)
      → is_some (get_or (add_vote crypto vs (some v) h).0.votes i none) ≡ true
  add_vote_heard h vs v i slots inv q =
      let (_, _, _, _, _, lt, _) = check_vote_ok crypto vs (some v) h i q in
      subst (λ (x : VoteSet). is_some (get_or x.votes i none) ≡ true)
        (sym (added_vote crypto vs (some v) h v i slots q))
        (place_taken crypto vs v 1 i slots false (omega (arith, lt, inv.core.votes_sized)))
