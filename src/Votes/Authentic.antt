-- ===== src/Votes/Authentic.antt =====
-- Whose signature stands behind a stored vote (voteset.go).
use testing_go_moi.Prelude.Int.{pos}
use testing_go_moi.Prelude.{
  ℕ, zero, suc, ◌≡◌, refl, sym, ap, ◌∙◌, ◌⊎◌, inl, inr, subst, Bool, true, false, Option, none,
  some, List, [], ◌∷◌, arith, Option-cases, Each, Each-of_get_elem?, get_elem?, get_or, set,
  replicate,
}
use testing_go_moi.Bits.{ArrayOfBits, get_true_indices}
use testing_go_moi.Committee.{Committee, Member, get_by_index}
use testing_go_moi.Votes.{
  Crypto, Vote, VoteSet, new_vote_set, Checked, passed, refused, signers, keys, store_vote,
  add_verified_vote, check_vote, add_vote, check_qc, add_signers, add_qc,
}
use testing_go_moi.Votes.Adding.{check_vote_ok}
use testing_go_moi.Votes.Growth.{cross_quorum-frame}

set-cases :
    (votes : List (Option Vote)) (i k : ℕ) (v w : Vote)
    → get_or (set votes i (some v)) k none ≡ some w
    → ((i ≡ k) × (v ≡ w)) ⊎ (get_or votes k none ≡ some w)
set-cases [] i k v w e = inr e
set-cases (x ∷ xs) zero zero v w e = inl (refl, cc (e))
set-cases (x ∷ xs) zero (suc k) v w e = inr e
set-cases (x ∷ xs) (suc i) zero v w e = inr e
set-cases (x ∷ xs) (suc i) (suc k) v w e = elim (set-cases xs i k v w e) [
  | inl (same, it) ↦ inl (ap suc same, it)
  | inr old ↦ inr old
]

no_vote : (n i : ℕ) (v : Vote) → ¬ (get_or (replicate n none) i none ≡ some v)
no_vote zero i v e = cc (e)
no_vote (suc n) zero v e = cc (e)
no_vote (suc n) (suc i) v e = no_vote n i v e

module _ (crypto : Crypto) (cs : Committee) where
  -- The vote's own signature verifies with the key of the member at its index.
  pub record IsOwn (i raw : ℕ) (v : Vote) : Type 0 where
    pub index : v.signer_index ≡ pos i
    pub verified : crypto.verify raw v.signature (get_by_index cs v.signer_index).1 ≡ some true

  -- The certificate names the member, and its signature verifies with the keys of all it names.
  pub record IsNamed (i raw : ℕ) (v : Vote) : Type 0 where
    pub bits : ArrayOfBits
    pub members : List (ℕ × Member)
    pub place : ℕ
    pub member : Member
    pub indices : v.signer_indices ≡ some bits
    pub named : signers cs (get_true_indices bits) ≡ passed members
    pub among : get_elem? members place ≡ some (i, member)
    pub verified : crypto.verify_aggregate_signature raw v.signature (keys members) ≡ some true

  -- A signature of the vote's kind, view and hash, in which the member at the place takes part.
  pub record IsSigned (i : ℕ) (v : Vote) : Type 0 where
    pub raw : ℕ
    pub bytes : crypto.sign_bytes v.type v.view v.ts_hash ≡ some raw
    pub by : IsOwn i raw v ⊎ IsNamed i raw v

  -- Every vote of the set is of the kind, and signed by the member at its place.
  abbrev pub IsAuthentic : ℕ → VoteSet → Type 0
  IsAuthentic type vs =
      (vs.cs ≡ cs)
      × ((i : ℕ) (v : Vote) → get_or vs.votes i none ≡ some v → (v.type ≡ type) × IsSigned i v)

  pub new_vote_set-IsAuthentic : (view type : ℕ) → IsAuthentic type (new_vote_set view type cs)
  unfolding new_vote_set
  new_vote_set-IsAuthentic view type = (refl, λ i v e. absurd (no_vote cs.total_nodes i v e))

  add_verified_vote-IsAuthentic :
      (type : ℕ) (vs : VoteSet) (v : Vote) (power i : ℕ) (slots : List ℕ) (is_qc : Bool)
      → v.type ≡ type
      → IsSigned i v
      → IsAuthentic type vs
      → IsAuthentic type (add_verified_vote crypto vs v power i slots is_qc).0
  unfolding add_verified_vote store_vote
  add_verified_vote-IsAuthentic type vs v power i slots is_qc kind signed (same, all) =
      elim (Option-cases (get_or vs.votes i none)) [
        | inr (old, e) ↦ rw (e, add_verified_vote) (same, all)
        | inl free ↦
            let t : VoteSet = store_vote vs v power i slots in
            let (_, _, c, d) = cross_quorum-frame crypto t v is_qc in
            let stored : (k : ℕ) (w : Vote)
                → get_or t.votes k none ≡ some w
                → (w.type ≡ type) × IsSigned k w =
              λ k w e. elim (set-cases vs.votes i k v w e) [
                | inl (at, it) ↦
                    subst (λ k. (w.type ≡ type) × IsSigned k w) at
                      (subst (λ (u : Vote). (u.type ≡ type) × IsSigned i u) it (kind, signed))
                | inr old ↦ all k w old
              ] in
            rw (free, add_verified_vote) (c ∙ same, λ k w e. stored k w (rw d at e))
      ]

  check_vote_verified :
      (vs : VoteSet) (w : Vote) (expected i : ℕ) {v : Vote} {slots : List ℕ}
      → check_vote crypto vs (some w) expected ≡ passed (v, i, slots)
      → (raw : ℕ) × (crypto.sign_bytes w.type w.view w.ts_hash ≡ some raw)
        × (crypto.verify raw w.signature (get_by_index vs.cs w.signer_index).1 ≡ some true)
  unfolding check_vote
  check_vote_verified vs w expected i q =
      elim (Option-cases (crypto.sign_bytes w.type w.view w.ts_hash)) [
        | inl failed ↦ absurd (ground (arith, q, failed))
        | inr (raw, e) ↦ (raw, e, ground (arith, q, e))
      ]

  check_qc_verified :
      (vs : VoteSet) (w : Vote) (expected : ℕ) {v : Vote} {members : List (ℕ × Member)}
      → check_qc crypto vs (some w) expected ≡ passed (v, members)
      → (w ≡ v)
        × ((raw : ℕ) × (crypto.sign_bytes w.type w.view w.ts_hash ≡ some raw)
            × (crypto.verify_aggregate_signature raw w.signature (keys members) ≡ some true))
        × ((bits : ArrayOfBits) × (w.signer_indices ≡ some bits)
            × (signers vs.cs (get_true_indices bits) ≡ passed members))
  unfolding check_qc
  check_qc_verified vs w expected q =
      elim (Option-cases (crypto.sign_bytes w.type w.view w.ts_hash)) [
        | inl failed ↦ absurd (ground (arith, q, failed))
        | inr (raw, e) ↦ elim (Option-cases w.signer_indices) [
          | inl missing ↦ absurd (ground (arith, q, missing))
          | inr (bits, f) ↦ (
            ground (arith, q, e, f),
            (raw, e, ground (arith, q, e, f)),
            (bits, f, ground (arith, q, e, f)),
          )
        ]
      ]

  pub add_vote-IsAuthentic :
      (type : ℕ) (vs : VoteSet) (v : Vote) (h : ℕ)
      → v.type ≡ type
      → IsAuthentic type vs
      → IsAuthentic type (add_vote crypto vs (some v) h).0
  unfolding add_vote
  add_vote-IsAuthentic type vs v h kind a = go (check_vote crypto vs (some v) h) refl
    where
      go :
          (r : Checked (Vote × ℕ × List ℕ))
          → check_vote crypto vs (some v) h ≡ r
          → IsAuthentic type (add_vote crypto vs (some v) h).0
      go (refused x) q = rw (q, add_vote) a
      go (passed (w, i, slots)) q =
          let (found, index, _, _, _, _, _) = check_vote_ok crypto vs (some v) h i q in
          let (raw, bytes, fine) = check_vote_verified vs v h i q in
          let same : v ≡ w = cc (found) in
          let signed : IsSigned i v = record {
            raw = raw;
            bytes = bytes;
            by = inl (record {
              index = ap (λ (x : Vote). x.signer_index) same ∙ index;
              verified =
                  subst
                    (λ c.
                      crypto.verify raw v.signature (get_by_index c v.signer_index).1 ≡ some true)
                    a.0 fine;
            });
          } in
          rw (q, add_vote)
            (add_verified_vote-IsAuthentic type vs w 1 i slots false
              (sym (ap (λ (x : Vote). x.type) same) ∙ kind) (subst (IsSigned i) same signed) a)

  add_signers-IsAuthentic :
      (type : ℕ) (vs : VoteSet) (v : Vote) (members : List (ℕ × Member))
      → v.type ≡ type
      → Each (λ m. IsSigned m.0 v) members
      → IsAuthentic type vs
      → IsAuthentic type (add_signers crypto vs v members)
  unfolding add_signers
  add_signers-IsAuthentic type vs v [] kind signed a = a
  add_signers-IsAuthentic type vs v ((i, m) ∷ rest) kind signed a =
      add_signers-IsAuthentic type (add_verified_vote crypto vs v 1 i m.slots true).0 v rest kind
        signed.1 (add_verified_vote-IsAuthentic type vs v 1 i m.slots true kind signed.0 a)

  pub add_qc-IsAuthentic :
      (type : ℕ) (vs : VoteSet) (v : Vote) (h : ℕ)
      → v.type ≡ type
      → IsAuthentic type vs
      → IsAuthentic type (add_qc crypto vs (some v) h).0
  unfolding add_qc
  add_qc-IsAuthentic type vs v h kind a = go (check_qc crypto vs (some v) h) refl
    where
      go :
          (r : Checked (Vote × List (ℕ × Member)))
          → check_qc crypto vs (some v) h ≡ r
          → IsAuthentic type (add_qc crypto vs (some v) h).0
      go (refused x) q = rw (q, add_qc) a
      go (passed (w, members)) q =
          let (same, (raw, bytes, fine), (bits, at, named)) = check_qc_verified vs v h q in
          let signed : Each (λ m. IsSigned m.0 v) members =
            Each-of_get_elem? (λ m. IsSigned m.0 v) members
              (λ k m among. record {
                raw = raw;
                bytes = bytes;
                by = inr (record {
                  bits = bits;
                  members = members;
                  place = k;
                  member = m.1;
                  indices = at;
                  named = subst (λ c. signers c (get_true_indices bits) ≡ passed members) a.0 named;
                  among = among;
                  verified = fine;
                });
              }) in
          rw (q, add_qc)
            (add_signers-IsAuthentic type vs w members (sym (ap (λ (x : Vote). x.type) same) ∙ kind)
              (subst (λ (u : Vote). Each (λ m. IsSigned m.0 u) members) same signed) a)
