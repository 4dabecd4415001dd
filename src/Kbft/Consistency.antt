-- ===== src/Kbft/Consistency.antt =====
-- Two nodes that commit (kbft.go).
use testing_go_moi.Prelude.{
  ℕ, ◌≤◌, ◌<◌, ◌≡◌, ◌≢◌, ap, ◌∙◌, inl, inr, Bool, false, some, List, ◌∷◌, arith, Map, get_or,
  length, ◌*◌, ◌^◌, get_elem?,
}
use testing_go_moi.Committee.{Committee, get_quorum}
use testing_go_moi.Votes.Tally.{tally}
use testing_go_moi.Votes.Invariant.{IsFit}
use testing_go_moi.Height.{new_height_vote_set}
use testing_go_moi.Kbft.{Kbft, Node, new_kbft}
use testing_go_moi.Kbft.Steps.{Reach}
use testing_go_moi.Kbft.Commit.{Sound}
use testing_go_moi.Kbft.Agreement.{first_view-Sound, precommits_reach}
use testing_go_moi.Committee.{NodeSet, two_thirds}
use testing_go_moi.Committee.Quorum.{two_thirds-lt, get_or-quorum_of}
use testing_go_moi.Votes.Tally.{full_weight}
use testing_go_moi.Votes.Intersection.{both, tally-both}

-- What a node that committed has among its precommits.
committed_tally :
    (node : Node) (first : ℕ) (cs : Committee) (heights : Map ℕ) (is_stored : Bool) {t : Kbft}
    (h : ℕ) {hs : List ℕ} (j : ℕ)
    → IsFit cs
    → 0 < cs.size
    → Reach node (new_kbft heights first (new_height_vote_set first cs) is_stored) t
    → t.view ≡ first
    → t.committed ≡ h ∷ hs
    → (get_or (get_quorum cs) j 0 ≤ tally cs j 0 t.votes.precommits.votes)
      × (length t.votes.precommits.votes ≡ cs.total_nodes)
committed_tally node first cs heights is_stored {t} h j f some_set r back done =
    let sound : Sound first cs t =
      first_view-Sound node first cs f some_set heights is_stored r back in
    elim sound.decided [
      | inl none_yet ↦ absurd (cc (none_yet, done))
      | inr (late, (p, q, c, m)) ↦ (
        precommits_reach node first cs f some_set t p j sound q m,
        (sound.counting p q).1.2.core.votes_sized
            ∙ ap (λ (x : Committee). x.total_nodes) sound.over,
      )
    ]

-- Two nodes of one committee, with right counters and no wrapping sum, each still in its first view,
-- have committed, whatever timeouts and messages they handled. At the position of a set of n nodes
-- that is not excluded, with n neither 0 nor 2^31 or more nor less than what the whole committee
-- weighs there, the members whose precommits both nodes have stored weigh more than n / 3.
pub commits_intersect :
    (node other : Node) (first first' : ℕ) (cs : Committee) (heights heights' : Map ℕ)
    (is_stored is_stored' : Bool) (h k : ℕ) (j : ℕ) {hs ks : List ℕ} {ns : NodeSet} {s t : Kbft}
    → IsFit cs
    → 0 < cs.size
    → get_elem? cs.sets j ≡ some ns
    → ns.excluded_from_ics ≡ false
    → ns.set_size_without_delta ≢ 0
    → ns.set_size_without_delta < 2 ^ 31
    → full_weight cs j 0 cs.total_nodes ≤ ns.set_size_without_delta
    → Reach node (new_kbft heights first (new_height_vote_set first cs) is_stored) s
    → Reach other (new_kbft heights' first' (new_height_vote_set first' cs) is_stored') t
    → s.view ≡ first
    → t.view ≡ first'
    → s.committed ≡ h ∷ hs
    → t.committed ≡ k ∷ ks
    → ns.set_size_without_delta < 3 * both cs j 0 s.votes.precommits.votes t.votes.precommits.votes
commits_intersect node other first first' cs heights heights' is_stored is_stored' h k j {ns = ns}
      {s = s} {t = t} f some_set at inside ne small whole r q back back' done done' =
    omega (
      arith,
      small,
      whole,
      two_thirds-lt ns.set_size_without_delta small,
      quorum,
      committed_tally node first cs heights is_stored h j f some_set r back done,
      committed_tally other first' cs heights' is_stored' k j f some_set q back' done',
      tally-both cs j 0 cs.total_nodes s.votes.precommits.votes t.votes.precommits.votes
          (committed_tally node first cs heights is_stored h j f some_set r back done).1
          (committed_tally other first' cs heights' is_stored' k j f some_set q back' done').1,
    )
  where
    quorum : get_or (get_quorum cs) j 0 ≡ two_thirds ns.set_size_without_delta
    quorum = unfold get_quorum in get_or-quorum_of cs.sets j at inside ne
