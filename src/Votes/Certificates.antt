-- ===== src/Votes/Certificates.antt =====
-- Quorum certificates: `AddQc` keeps the invariant of a vote set (voteset.go).
use testing_go_moi.Prelude.Int.{pos}
use testing_go_moi.Prelude.{
  ℕ, ◌<◌, ◌≡◌, refl, Bool, true, Option, none, some, List, [], ◌∷◌, arith, ◌==◌, if◌then◌else◌,
  subst,
}
use testing_go_moi.Committee.{Committee, Member, get_krama_id}
use testing_go_moi.Committee.Lookup.{get_krama_id_past}
use testing_go_moi.Votes.{
  Crypto, Vote, VoteSet, Checked, passed, refused, store_vote, cross_quorum, add_verified_vote,
  signers, check_qc, add_signers, add_qc,
}
use testing_go_moi.Votes.Tally.{slots_at}
use testing_go_moi.Votes.Adding.{Inv, add_verified_vote-Inv}
use testing_go_moi.Votes.{public_key_not_found}
use testing_go_moi.Bits.{ArrayOfBits, get_true_indices}

-- The members that a certificate names are in the committee, each with its own slots.
abbrev pub AreMembers : Committee → List (ℕ × Member) → Type 0
AreMembers cs [] = Unit {0}
AreMembers cs ((i, m) ∷ rest) =
    (i < cs.total_nodes) × (m.slots ≡ slots_at cs i) × AreMembers cs rest

in_committee :
    (cs : Committee) (i : ℕ) {m : Member}
    → get_krama_id cs (pos i) ≡ some m
    → (i < cs.total_nodes) × (m.slots ≡ slots_at cs i)
unfolding slots_at
in_committee cs i e = ground (arith, get_krama_id_past cs i)

abbrev MembersOf : Committee → Checked (List (ℕ × Member)) → Type 0
MembersOf cs (passed members) = AreMembers cs members
MembersOf cs (refused e) = Unit {0}

signers-MembersOf : (cs : Committee) (is : List ℕ) → MembersOf cs (signers cs is)
unfolding signers
signers-MembersOf cs [] = tt
signers-MembersOf cs (i ∷ is) =
    first (get_krama_id cs (pos i)) refl (signers cs is) (signers-MembersOf cs is)
  where
    first :
        (o : Option Member)
        → get_krama_id cs (pos i) ≡ o
        → (r : Checked (List (ℕ × Member))) → MembersOf cs r
        → MembersOf cs (elim o [
          | none ↦ refused (some public_key_not_found)
          | some m ↦
              if m.krama_id == 0
              then refused (some public_key_not_found)
              else elim r [ refused e ↦ refused e | passed rest ↦ passed ((i, m) ∷ rest) ]
        ])
    first none e r ih = tt
    first (some m) e (refused x) ih = ground arith
    first (some m) e (passed rest) ih = ground (arith, in_committee cs i e)

pub signers_ok :
    (cs : Committee) (is : List ℕ) (members : List (ℕ × Member))
    → signers cs is ≡ passed members
    → AreMembers cs members
signers_ok cs is members h = subst (MembersOf cs) h (signers-MembersOf cs is)

-- The members are those that the bits of the certificate name.
abbrev pub NamedBy : Committee → Option ArrayOfBits → List (ℕ × Member) → Type 0
NamedBy cs none members = ⊥
NamedBy cs (some b) members = signers cs (get_true_indices b) ≡ passed members

NamedBy-AreMembers :
    (cs : Committee) (o : Option ArrayOfBits) (members : List (ℕ × Member))
    → NamedBy cs o members
    → AreMembers cs members
NamedBy-AreMembers cs none members n = absurd n
NamedBy-AreMembers cs (some b) members n = signers_ok cs (get_true_indices b) members n

module _ (crypto : Crypto) where
  pub check_qc_ok :
      (vs : VoteSet) (vote : Option Vote) (expected : ℕ) {v : Vote} {members : List (ℕ × Member)}
      → check_qc crypto vs vote expected ≡ passed (v, members)
      → (vote ≡ some v) × (v.ts_hash ≡ expected) × NamedBy vs.cs v.signer_indices members
  unfolding check_qc
  check_qc_ok vs vote expected h = ground arith

  pub cs-add_verified_vote :
      (vs : VoteSet) (vote : Vote) (power i : ℕ) (slots : List ℕ) (is_qc : Bool)
      → (add_verified_vote crypto vs vote power i slots is_qc).0.cs ≡ vs.cs
  unfolding add_verified_vote cross_quorum store_vote
  cs-add_verified_vote vs vote power i slots is_qc = ground arith

  add_signers-Inv :
      (h : ℕ) (vs : VoteSet) (v : Vote) (members : List (ℕ × Member))
      → Inv h vs
      → v.ts_hash ≡ h
      → AreMembers vs.cs members
      → Inv h (add_signers crypto vs v members)
  unfolding add_signers
  add_signers-Inv h vs v [] inv e a = inv
  add_signers-Inv h vs v ((i, m) ∷ rest) inv e (lt, at, others) = rw at (
      add_signers-Inv h (add_verified_vote crypto vs v 1 i (slots_at vs.cs i) true).0 v rest
        (add_verified_vote-Inv crypto h vs v 1 i true inv e lt) e
        (rw (cs-add_verified_vote vs v 1 i (slots_at vs.cs i) true) others))

  -- AddQc keeps the invariant that AddVote keeps, whatever certificate it is given.
  pub add_qc-Inv :
      (h : ℕ) (vs : VoteSet) (vote : Option Vote) → Inv h vs → Inv h (add_qc crypto vs vote h).0
  unfolding add_qc
  add_qc-Inv h vs vote v = go (check_qc crypto vs vote h) refl
    where
      go :
          (r : Checked (Vote × List (ℕ × Member)))
          → check_qc crypto vs vote h ≡ r
          → Inv h (add_qc crypto vs vote h).0
      go (refused x) q = rw (q, add_qc) v
      go (passed (w, members)) q =
          let (_, same, named) = check_qc_ok vs vote h q in
          rw (q, add_qc)
            (add_signers-Inv h vs w members v same
              (NamedBy-AreMembers vs.cs w.signer_indices members named))
