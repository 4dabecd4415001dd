-- ===== src/Pool/Validation/Authority.antt =====
-- ixpool/ixpool.go: who has signed an interaction that passes `validateIx`.
use testing_go_moi.Prelude.{
  ℕ, suc, ◌+◌, ◌%◌, ◌^◌, ◌≤◌, ◌≡◌, ◌≢◌, refl, true, false, ◌⊎◌, inl, inr, none, some, List, [], ◌∷◌,
  ◌==◌, ◌&&◌, if◌then◌else◌, get_elem?, Bool-cases, Option-cases, Each, Each-get_elem?, Map, arith,
}
use testing_go_moi.Pool.{
  ParticipantInfo, Signature, IxParticipant, Interaction, AccountKey, Services,
}
use testing_go_moi.Pool.Validation.{
  min_weight, weigh_one, weigh, verify_participant_signatures, verify_notaries,
  has_sender_key_id_signature, verify_signatures, check_for_participants, validate_ix,
}

⊎-cases {ℓ} : {A B : Type ℓ} (s : A ⊎ B) → ((a : A) × (s ≡ inl a)) ⊎ ((b : B) × (s ≡ inr b))
⊎-cases (inl a) = inl (a, refl)
⊎-cases (inr b) = inr (b, refl)

-- The weight of a key that is there and not revoked.
pub key_weight : List AccountKey → ℕ → ℕ
key_weight keys key_id = elim (get_elem? keys key_id) [
  | none ↦ 0
  | some key ↦ if key.revoked then 0 else key.weight
]

-- The weights of the keys of the account's signatures, with no bound on the sum.
pub signed_weight : ℕ → List AccountKey → List Signature → ℕ
signed_weight id keys [] = 0
signed_weight id keys (s ∷ signatures) =
    (if s.id == id then key_weight keys s.key_id else 0) + signed_weight id keys signatures

module _ (env : Services) (payload : ℕ) where
  -- The signature verifies with the public key that it names.
  pub record Verifies (id : ℕ) (s : Signature) : Type 0 where
    pub public_key : ℕ
    pub found : env.get_public_key id s.key_id ≡ some public_key
    pub verified : env.verifier payload s.signature public_key ≡ some true

  -- Every signature that is given for the account verifies, and their keys have the least weight.
  pub record Authorizes (signatures : List Signature) (id : ℕ) : Type 0 where
    pub keys : List AccountKey
    pub of_account : env.get_account_keys id ≡ some keys
    pub verified : Each (λ s. s.id ≡ id → Verifies id s) signatures
    pub enough : min_weight ≤ signed_weight id keys signatures

  Authorizes-Verifies :
      (signatures : List Signature) (id place : ℕ) (s : Signature)
      → Authorizes signatures id
      → get_elem? signatures place ≡ some s
      → s.id ≡ id
      → Verifies id s
  Authorizes-Verifies signatures id place s a at own =
      Each-get_elem? (λ t. t.id ≡ id → Verifies id t) signatures place a.verified at own

  weigh_one-Verifies :
      (id w : ℕ) (keys : List AccountKey) (s : Signature)
      → weigh_one env id payload keys s ≡ inr w
      → Verifies id s × (w ≡ key_weight keys s.key_id)
  unfolding weigh_one key_weight
  weigh_one-Verifies id w keys s e = elim (Option-cases (get_elem? keys s.key_id)) [
    | inl no_key ↦ absurd (ground (arith, e, no_key))
    | inr (key, of_key) ↦ elim (Option-cases (env.get_public_key id s.key_id)) [
      | inl missing ↦ absurd (ground (arith, e, of_key, missing))
      | inr (pk, found) ↦ (
        record { public_key = pk; found = found; verified = ground (arith, e, of_key, found) },
        ground (arith, e, of_key, found),
      )
    ]
  ]

  weigh-verified :
      (id n w : ℕ) (keys : List AccountKey) (signatures : List Signature)
      → weigh env id payload keys n signatures ≡ inr w
      → Each (λ s. s.id ≡ id → Verifies id s) signatures
        × (w ≤ n + signed_weight id keys signatures)
  unfolding weigh signed_weight
  weigh-verified id n w keys [] e = (tt, ground (arith, e))
  weigh-verified id n w keys (s ∷ signatures) e = elim (Bool-cases (s.id == id)) [
    | inr other ↦
        let (each, bound) = weigh-verified id n w keys signatures (ground (arith, e, other)) in
        ((λ own. absurd (ground (arith, own, other)), each), ground (arith, bound, other))
    | inl own ↦ elim (⊎-cases (weigh_one env id payload keys s)) [
      | inl bad ↦ absurd (ground (arith, e, own, bad.1))
      | inr (v, good) ↦
          let (verifies, weighs) = weigh_one-Verifies id v keys s good in
          let (each, bound) =
            weigh-verified id ((n + v) % 2 ^ 64) w keys signatures (ground (arith, e, own, good)) in
          ((λ _. verifies, each), ground (arith, bound, own, weighs))
    ]
  ]

  verify_participant_signatures-Authorizes :
      (id : ℕ) (signatures : List Signature)
      → verify_participant_signatures env id payload signatures ≡ none
      → Authorizes signatures id
  unfolding verify_participant_signatures
  verify_participant_signatures-Authorizes id signatures e =
      elim (Option-cases (env.get_account_keys id)) [
        | inl no_keys ↦ absurd (ground (arith, e, no_keys))
        | inr (keys, of_account) ↦ elim (⊎-cases (weigh env id payload keys 0 signatures)) [
          | inl bad ↦ absurd (ground (arith, e, of_account, bad.1))
          | inr (w, weighed) ↦
              let (each, bound) = weigh-verified id 0 w keys signatures weighed in
              record {
                keys = keys;
                of_account = of_account;
                verified = each;
                enough = ground (arith, e, of_account, weighed, bound);
              }
        ]
      ]

  verify_notaries-Authorizes :
      (signatures : List Signature) (participants : List IxParticipant)
      → verify_notaries env payload signatures participants ≡ none
      → Each (λ ps. ps.notary ≡ true → Authorizes signatures ps.id) participants
  unfolding verify_notaries
  verify_notaries-Authorizes signatures [] e = tt
  verify_notaries-Authorizes signatures (ps ∷ participants) e = (
    λ notary. verify_participant_signatures-Authorizes ps.id signatures (ground (arith, e, notary)),
    verify_notaries-Authorizes signatures participants (ground (arith, e)),
  )

-- A signature with the sender's key.
pub record IsSender (ix : Interaction) (s : Signature) : Type 0 where
  pub place : ℕ
  pub at : get_elem? ix.signatures place ≡ some s
  pub sender : s.id ≡ ix.sender_id
  pub key : s.key_id ≡ ix.sender_key_id

has_sender_key_id_signature-IsSender :
    (ix : Interaction) (signatures : List Signature)
    → has_sender_key_id_signature ix signatures ≡ true
    → (place : ℕ) × (s : Signature) × (get_elem? signatures place ≡ some s)
      × (s.id ≡ ix.sender_id)
      × (s.key_id ≡ ix.sender_key_id)
unfolding has_sender_key_id_signature
has_sender_key_id_signature-IsSender ix [] e = absurd (cc (e))
has_sender_key_id_signature-IsSender ix (s ∷ signatures) e =
    elim (Bool-cases ((s.id == ix.sender_id) && (s.key_id == ix.sender_key_id))) [
      | inl here ↦ (0, s, refl, ground (arith, here), ground (arith, here))
      | inr past ↦
          let (place, other, at, id, key) =
            has_sender_key_id_signature-IsSender ix signatures (ground (arith, e, past)) in
          (suc place, other, at, id, key)
    ]

-- The account is named and registered, unless it is the genesis account.
abbrev pub IsRegistered : Services → ℕ × ParticipantInfo → Type 0
IsRegistered env p =
    p.1.is_genesis ≡ false → (p.0 ≢ 0) × (env.is_account_registered p.0 ≡ some true)

check_for_participants-IsRegistered :
    (env : Services) (participants : Map ParticipantInfo)
    → check_for_participants env participants ≡ none
    → Each (IsRegistered env) participants
unfolding check_for_participants
check_for_participants-IsRegistered env [] e = tt
check_for_participants-IsRegistered env ((id, ps) ∷ participants) e = (
  λ genesis. (
    ground (arith, e, genesis),
    elim (Option-cases (env.is_account_registered id)) [
      | inl missing ↦ absurd (ground (arith, e, genesis, missing))
      | inr (ok, found) ↦ ground (arith, e, genesis, found)
    ],
  ),
  check_for_participants-IsRegistered env participants (ground (arith, e)),
)

-- What an interaction that is let through has been signed by, and who takes part.
pub record IsAuthorized (env : Services) (ix : Interaction) : Type 0 where
  pub payload : ℕ
  pub signature : Signature
  pub of_payload : ix.payload ≡ some payload
  pub by_sender : IsSender ix signature
  pub sender_key : Verifies env payload ix.sender_id signature
  pub sender : Authorizes env payload ix.signatures ix.sender_id
  pub notaries :
      Each (λ ps. ps.notary ≡ true → Authorizes env payload ix.signatures ps.id) ix.ix_participants
  pub registered : Each (IsRegistered env) ix.participants

-- An interaction that validateIx lets through has a signature of the sender's key that verifies; for
-- the sender and for each notary, every signature that is given in its name verifies and the keys of
-- these signatures, revoked ones apart and each counted as often as it signs, weigh at least the
-- least weight; and every participant but the genesis account has an identifier and is registered.
pub validate_ix-IsAuthorized :
    (env : Services) (price_limit : ℕ) (ix : Interaction)
    → validate_ix env price_limit ix ≡ none
    → IsAuthorized env ix
unfolding validate_ix verify_signatures
validate_ix-IsAuthorized env price_limit ix e = elim (Option-cases ix.payload) [
  | inl missing ↦ absurd (ground (arith, e, missing))
  | inr (payload, of_payload) ↦
      let signed : has_sender_key_id_signature ix ix.signatures ≡ true =
        ground (arith, e, of_payload) in
      let (place, s, at, id, key) = has_sender_key_id_signature-IsSender ix ix.signatures signed in
      let sender : Authorizes env payload ix.signatures ix.sender_id =
        verify_participant_signatures-Authorizes env payload ix.sender_id ix.signatures
          (ground (arith, e, of_payload)) in
      record {
        payload = payload;
        signature = s;
        of_payload = of_payload;
        by_sender = record { place = place; at = at; sender = id; key = key };
        sender_key =
            Authorizes-Verifies env payload ix.signatures ix.sender_id place s sender at id;
        sender = sender;
        notaries =
            verify_notaries-Authorizes env payload ix.signatures ix.ix_participants
              (ground (arith, e, of_payload));
        registered =
            check_for_participants-IsRegistered env ix.participants (ground (arith, e, of_payload));
      }
]
