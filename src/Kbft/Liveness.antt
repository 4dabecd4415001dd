-- ===== src/Kbft/Liveness.antt =====
-- A node commits its proposal exactly when the precommits that it has stored weigh the quorums
-- (kbft.go).
use testing_go_moi.Prelude.{
  ℕ, ◌≤◌, ◌<◌, ◌≡◌, ◌≢◌, refl, ap, ◌∙◌, ◌⊎◌, inl, inr, ◌↔◌, Bool, true, false, Option, none, some,
  [], ◌∷◌, arith, Option-cases, Map, get_or,
}
use testing_go_moi.Committee.{Committee, get_quorum}
use testing_go_moi.Votes.{
  Crypto, Vote, VoteError, VoteSet, precommit, add_verified_vote, add_vote, add_qc, super_majority,
  new_vote_set,
}
use testing_go_moi.Votes.Tally.{tally}
use testing_go_moi.Votes.Adding.{Inv}
use testing_go_moi.Votes.Majority.{majority_of}
use testing_go_moi.Votes.Invariant.{IsFit}
use testing_go_moi.Height.{
  HeightVoteSet, new_height_vote_set, get_vote_set, store_vote_set, add_height_vote, add_height_qc,
}
use testing_go_moi.Height.Keeping.{Keeps, add_height_vote-Keeps, add_height_qc-Keeps}
use testing_go_moi.Kbft.{Proposal, proposed, voted, Kbft, Node, new_kbft}
use testing_go_moi.Kbft.Handlers.{after_vote, counted, receive_vote, handle_msg}
use testing_go_moi.Kbft.Steps.{Step, timeout, message, Reach, here, next, Step-Ahead, Reach-Ahead}
use testing_go_moi.Kbft.Agreement.{first_view-Sound, committed_quorum}
use testing_go_moi.Kbft.Commit.{Sound}
use testing_go_moi.Kbft.Decision.{with_votes-Sound, receive_vote-cases, receive_vote_unproposed}
use testing_go_moi.Kbft.Quiet.{Quiet, set_proposal-Quiet, handle_timeout-Quiet}
use testing_go_moi.Kbft.Progress.{IsWorking, Lively, Pending, Quiet-Lively, after_vote-Lively}

-- An answer leaves the precommits alone, or it is that a precommit was added, without an error.
abbrev Answer : Vote → HeightVoteSet → HeightVoteSet × Bool × Option VoteError → Type 0
Answer v old r =
    (r.0.precommits ≡ old.precommits) ⊎ ((r.1 ≡ true) × (r.2 ≡ none) × (v.type ≡ precommit))

module _ (crypto : Crypto) where
  add_vote-answer :
      (vs : VoteSet) (v : Option Vote) (h : ℕ)
      → ((add_vote crypto vs v h).0 ≡ vs)
        ⊎ (((add_vote crypto vs v h).1 ≡ true) × ((add_vote crypto vs v h).2 ≡ none))
  unfolding add_vote add_verified_vote
  add_vote-answer vs v h = ground arith

  add_qc-answer :
      (vs : VoteSet) (v : Option Vote) (h : ℕ)
      → ((add_qc crypto vs v h).0 ≡ vs)
        ⊎ (((add_qc crypto vs v h).1 ≡ true) × ((add_qc crypto vs v h).2 ≡ none))
  unfolding add_qc
  add_qc-answer vs v h = ground arith

  add_height_vote-Answer :
      (hvs : HeightVoteSet) (v : Vote) → Answer v hvs (add_height_vote crypto hvs v)
  unfolding add_height_vote get_vote_set store_vote_set
  add_height_vote-Answer hvs v = ground (arith, add_vote-answer hvs.precommits (some v) hvs.ts_hash)

  add_height_qc-Answer :
      (hvs : HeightVoteSet) (v : Vote) → Answer v hvs (add_height_qc crypto hvs v)
  unfolding add_height_qc get_vote_set store_vote_set
  add_height_qc-Answer hvs v = ground (arith, add_qc-answer hvs.precommits (some v) hvs.ts_hash)

module _ (node : Node) (first : ℕ) (cs : Committee) (f : IsFit cs) (some_set : 0 < cs.size) where
  voted-Pending :
      (s : Kbft) (votes : HeightVoteSet)
      → Keeps node.crypto votes s.votes
      → Lively s
      → Pending (record s { votes = votes })
  voted-Pending s votes (_, majority, _) l = record {
    unstored = l.unstored;
    early = λ n. elim (Option-cases s.votes.precommits.maj23_ts_hash) [
      | inl none_yet ↦ l.early none_yet
      | inr (h, m) ↦ absurd (cc (majority h m, n))
    ];
    agreed = λ h m some_hash. elim (Option-cases s.votes.precommits.maj23_ts_hash) [
      | inl none_yet ↦ inr (l.early none_yet)
      | inr (k, n) ↦
          let same : k ≡ h = cc (majority k n, m) in inl (l.agreed h (n ∙ ap some same) some_hash)
    ];
  }

  counted_quietly :
      (s : Kbft) (v : Vote) (r : HeightVoteSet × Bool × Option VoteError)
      → let t = record s { votes = r.0 } in
        Quiet (counted node s v r) t ⊎ (counted node s v r ≡ after_vote node t v)
  unfolding counted
  counted_quietly s v (votes, added, e) = ground arith

  counted_added :
      (s : Kbft) (v : Vote) (r : HeightVoteSet × Bool × Option VoteError)
      → r.1 ≡ true
      → r.2 ≡ none
      → counted node s v r ≡ after_vote node (record s { votes = r.0 }) v
  unfolding counted
  counted_added s v (votes, added, e) yes_added no_error = rw (counted, no_error, yes_added) refl

  counted-Lively :
      (s : Kbft) (v : Vote) (r : HeightVoteSet × Bool × Option VoteError) (p : Proposal)
      → IsWorking node
      → s.proposal ≡ some p
      → Answer v s.votes r
      → Keeps node.crypto r.0 s.votes
      → Sound first cs s
      → Lively s
      → Lively (counted node s v r)
  counted-Lively s v r p w e answer k i l =
      let t : Kbft = record s { votes = r.0 } in
      let ready : Sound first cs t = with_votes-Sound node first cs f some_set s r.0 p e k i in
      let pending : Pending t = voted-Pending s r.0 k l in
      elim answer [
        | inr (added, no_error, commits) ↦
            rw (counted_added s v r added no_error)
              (after_vote-Lively node first cs t v p w ready pending e (inr commits))
        | inl same ↦
            let lively : Lively t =
              Quiet-Lively s t
                (refl, ap (λ (x : VoteSet). x.maj23_ts_hash) same, refl, λ below. below) l in
            elim (counted_quietly s v r) [
              | inl quiet ↦ Quiet-Lively t (counted node s v r) quiet lively
              | inr goes ↦
                  rw goes (after_vote-Lively node first cs t v p w ready pending e (inl lively))
            ]
      ]

  receive_vote-Lively :
      (s : Kbft) (v : Vote) (peer : ℕ)
      → IsWorking node
      → Sound first cs s
      → Lively s
      → Lively (receive_vote node s v peer)
  receive_vote-Lively s v peer w i l = elim (Option-cases s.proposal) [
    | inl e ↦ rw (receive_vote_unproposed node first cs f some_set s v peer e) l
    | inr (p, e) ↦ elim (receive_vote-cases node first cs f some_set s v peer p e) [
      | inl same ↦ rw same l
      | inr (inl same) ↦ rw same (
          counted-Lively s v _ p w e (add_height_qc-Answer node.crypto s.votes v)
            (add_height_qc-Keeps node.crypto s.votes v) i l)
      | inr (inr same) ↦ rw same (
          counted-Lively s v _ p w e (add_height_vote-Answer node.crypto s.votes v)
            (add_height_vote-Keeps node.crypto s.votes v) i l)
    ]
  ]

  Step-Lively :
      {s t : Kbft} → Step node s t → IsWorking node → Sound first cs s → Lively s → Lively t
  Step-Lively {s} (timeout view step) w i l =
      Quiet-Lively s _ (handle_timeout-Quiet node s view step) l
  Step-Lively {s} (message (proposed p) peer) w i l =
      unfold handle_msg in Quiet-Lively s _ (set_proposal-Quiet node s p) l
  Step-Lively {s} (message (voted v) peer) w i l =
      unfold handle_msg in receive_vote-Lively s v peer w i l

  -- In the first view the invariants hold together.
  pub first_view-Lively :
      (heights : Map ℕ) {t : Kbft}
      → Reach node (new_kbft heights first (new_height_vote_set first cs) false) t
      → t.view ≡ first
      → IsWorking node
      → Lively t
  first_view-Lively heights here back w =
      unfold new_kbft new_height_vote_set new_vote_set in
      record { unstored = refl; early = λ n. omega arith; agreed = λ h m some_hash. absurd (cc) }
  first_view-Lively heights {t = u} (next {t} r st) back w =
      let low : first ≤ t.view = unfold new_kbft in (Reach-Ahead node r).0 in
      let at_first : t.view ≡ first = omega (arith, low, (Step-Ahead node st).0, back) in
      Step-Lively st w (first_view-Sound node first cs f some_set heights false r at_first)
        (first_view-Lively heights r at_first w)

  -- A node whose seal and tesseract handler answer without an error starts in a view, with a
  -- committee that has right counters and no wrapping sum, for a tesseract that it has not stored.
  -- Whatever timeouts and messages it handles, as long as it is in that view it has committed its
  -- proposal, with a hash that is not nil, exactly if at each position the members whose precommits
  -- it has stored weigh at least the quorum.
  pub committed_iff :
      (heights : Map ℕ) {t : Kbft} (p : Proposal)
      → Reach node (new_kbft heights first (new_height_vote_set first cs) false) t
      → t.view ≡ first
      → IsWorking node
      → t.proposal ≡ some p
      → p.tesseract ≢ 0
      → (t.committed ≡ p.tesseract ∷ [])
        ↔ ((j : ℕ) → get_or (get_quorum cs) j 0 ≤ tally cs j 0 t.votes.precommits.votes)
  unfolding super_majority
  committed_iff heights {t} p r back w e some_hash = (weighs, commits)
    where
      sound : Sound first cs t
      sound = first_view-Sound node first cs f some_set heights false r back

      lively : Lively t
      lively = first_view-Lively heights r back w

      weighs :
          t.committed ≡ p.tesseract ∷ []
          → (j : ℕ) → get_or (get_quorum cs) j 0 ≤ tally cs j 0 t.votes.precommits.votes
      weighs done = elim (committed_quorum node first cs f some_set heights false r back) [
        | inl nothing ↦ absurd (cc (done, nothing))
        | inr (_, _, _, _, all) ↦ all
      ]

      commits :
          ((j : ℕ) → get_or (get_quorum cs) j 0 ≤ tally cs j 0 t.votes.precommits.votes)
          → t.committed ≡ p.tesseract ∷ []
      commits all =
          let inv : Inv p.tesseract t.votes.precommits = (sound.counting p e).1.2 in
          lively.agreed p.tesseract
            (majority_of p.tesseract t.votes.precommits inv (λ j. rw sound.over (all j))) some_hash
