-- ===== src/Pool/Validation.antt =====
-- ixpool/ixpool.go: `validateIx`, the checks on an interaction that comes in.
--
-- The nil identifier is 0. The sum of the weights is a uint64 and wraps around. A loop over the
-- participants follows the association list; the theorems hold for every order.
pub mod Weights
pub mod Authority
use testing_go_moi.Prelude.{
  ℕ, zero, suc, ◌+◌, ◌*◌, ◌%◌, ◌^◌, Bool, true, false, not, ◌&&◌, ◌⊎◌, inl, inr, Option, none, some,
  List, [], ◌∷◌, Map, ltb, leb, ◌==◌, if◌then◌else◌, length, get_elem?,
}
use testing_go_moi.Pool.{
  ParticipantInfo, Signature, IxParticipant, Interaction, PoolError, oversized_data,
  invalid_identifier, underpriced, insufficient_funds, account_not_found, invalid_sender_signature,
  invalid_ix_signature, invalid_weight, invalid_key_id, payload_failed, keys_not_found,
  public_key_not_found, sequence_id_too_low, AccountKey, Services,
}

abbrev pub ix_max_size : ℕ
ix_max_size = 128 * 1024

abbrev pub min_weight : ℕ
min_weight = 1000

-- The next check, if this one found no error.
infixl 5 ◌and_then◌
abbrev pub ◌and_then◌ : Option PoolError → Option PoolError → Option PoolError
none and_then next = next
some e and_then next = some e

abbrev pub refuse : PoolError → Bool → Option PoolError
refuse e holds = if holds then some e else none

unfoldable pub cost : Interaction → ℕ
cost ix = ix.fuel_price * ix.fuel_limit + 0

unfoldable pub is_underpriced : Interaction → ℕ → Bool
is_underpriced ix price_limit = not (ix.fuel_price == price_limit)

unfoldable pub has_sender_key_id_signature : Interaction → List Signature → Bool
has_sender_key_id_signature ix [] = false
has_sender_key_id_signature ix (s ∷ signatures) =
    let later = has_sender_key_id_signature ix signatures in
    if (s.id == ix.sender_id) && (s.key_id == ix.sender_key_id) then true else later

module _ (env : Services) where
  -- The check of one signature of the account: its error, or the weight that it adds.
  unfoldable pub weigh_one : ℕ → ℕ → List AccountKey → Signature → PoolError ⊎ ℕ
  weigh_one id payload keys s = elim (get_elem? keys s.key_id) [
    | none ↦ inl invalid_key_id
    | some key ↦ elim (env.get_public_key id s.key_id) [
      | none ↦ inl public_key_not_found
      | some pk ↦ elim (env.verifier payload s.signature pk) [
        | none ↦ inl invalid_ix_signature
        | some verified ↦
            if not verified
            then inl invalid_ix_signature
            else inr (if key.revoked then 0 else key.weight)
      ]
    ]
  ]

  -- The loop over the signatures, from the weight so far.
  unfoldable pub weigh : ℕ → ℕ → List AccountKey → ℕ → List Signature → PoolError ⊎ ℕ
  weigh id payload keys weight [] = inr weight
  weigh id payload keys weight (s ∷ signatures) = elim (s.id == id) [
    | false ↦ weigh id payload keys weight signatures
    | true ↦ elim (weigh_one id payload keys s) [
      | inl e ↦ inl e
      | inr w ↦ weigh id payload keys ((weight + w) % 2 ^ 64) signatures
    ]
  ]

  unfoldable pub verify_participant_signatures : ℕ → ℕ → List Signature → Option PoolError
  verify_participant_signatures id payload signatures = elim (env.get_account_keys id) [
    | none ↦ some keys_not_found
    | some keys ↦ elim (weigh id payload keys 0 signatures) [
      | inl e ↦ some e
      | inr weight ↦ refuse invalid_weight (ltb weight min_weight)
    ]
  ]

  unfoldable pub verify_notaries : ℕ → List Signature → List IxParticipant → Option PoolError
  verify_notaries payload signatures [] = none
  verify_notaries payload signatures (ps ∷ participants) =
      let later = verify_notaries payload signatures participants in
      if ps.notary
      then (verify_participant_signatures ps.id payload signatures and_then later)
      else later

  unfoldable pub verify_signatures : Interaction → Option PoolError
  verify_signatures ix = elim ix.payload [
    | none ↦ some payload_failed
    | some payload ↦
        refuse invalid_sender_signature (not (has_sender_key_id_signature ix ix.signatures))
        and_then verify_participant_signatures ix.sender_id payload ix.signatures
        and_then verify_notaries payload ix.signatures ix.ix_participants
  ]

  unfoldable pub check_for_participants : Map ParticipantInfo → Option PoolError
  check_for_participants [] = none
  check_for_participants ((id, ps) ∷ participants) =
      let later = check_for_participants participants in
      let registered : Option PoolError = elim (env.is_account_registered id) [
        | none ↦ some account_not_found
        | some ok ↦ refuse account_not_found (not ok)
      ] in
      if ps.is_genesis
      then later
      else (refuse invalid_identifier (id == 0) and_then registered and_then later)

  -- The loop returns at its first operation.
  unfoldable pub validate_operations : Interaction → Option PoolError
  validate_operations ix = elim ix.ops [ [] ↦ none | op ∷ ops ↦ env.validate_operation ix 0 op ]

  unfoldable pub state_sequence_id : ℕ → ℕ → ℕ
  state_sequence_id id key_id = elim (env.get_sequence_id id key_id) [ none ↦ 0 | some n ↦ n ]

  unfoldable pub validate_ix : ℕ → Interaction → Option PoolError
  validate_ix price_limit ix =
      refuse oversized_data (ltb ix_max_size ix.size)
      and_then refuse invalid_identifier (ix.sender_id == 0)
      and_then refuse underpriced (is_underpriced ix price_limit)
      and_then refuse sequence_id_too_low
          (ltb ix.sequence_id (state_sequence_id ix.sender_id ix.sender_key_id))
      and_then refuse insufficient_funds (ltb (env.get_balance ix.sender_id) (cost ix))
      and_then verify_signatures ix
      and_then check_for_participants ix.participants
      and_then validate_operations ix
