-- ===== src/Committee/Responses.antt =====
-- Responses of validators are counted once (nodeset.go, `UpdateResponse`).
use testing_go_moi.Prelude.{
  ℕ, ◌+◌, ◌<◌, ◌≡◌, ◌∙◌, ap, refl, true, false, some, arith, Bool-cases, inl, inr, ◌⊎◌,
}
use testing_go_moi.Bits.{ArrayOfBits, get_index, get_index_nil}
use testing_go_moi.Bits.Invariant.{IsValid}
use testing_go_moi.Bits.Index.{get_index-set_index}
use testing_go_moi.Committee.{
  NodeSet, CounterType, vote_counter, majority_counter, Response, response, store_response, set_bit,
  update_response,
}

response-store_response :
    (ns : NodeSet) (ct : CounterType) (r : Response) → response (store_response ns ct r) ct ≡ r
unfolding response store_response
response-store_response ns vote_counter r = refl
response-store_response ns majority_counter r = refl

-- A validator in range that responds again, for the same counter, changes nothing.
pub update_response_twice :
    (ns : NodeSet) (ct : CounterType) (i : ℕ) {b : ArrayOfBits}
    → (response ns ct).bits ≡ some b
    → IsValid b
    → i < b.size
    → let once = update_response ns ct i true in update_response once ct i true ≡ once
update_response_twice ns ct i {b} e v lt = seen_again (Bool-cases (get_index b i))
  where
    seen :
        (ms : NodeSet)
        → get_index_nil (response ms ct).bits i ≡ true
        → update_response ms ct i true ≡ ms
    seen ms h = unfold update_response in rw (h, update_response) refl

    stored : NodeSet
    stored =
        store_response ns ct (record {
          bits = set_bit (response ns ct).bits i true;
          count = (response ns ct).count + 1;
        })

    stored_bit : get_index_nil (response stored ct).bits i ≡ true
    stored_bit =
        rw (response-store_response ns ct, e)
          (unfold get_index_nil in get_index-set_index b i i true v lt ∙ ground arith)

    seen_again :
        (get_index b i ≡ true) ⊎ (get_index b i ≡ false)
        → update_response (update_response ns ct i true) ct i true ≡ update_response ns ct i true
    seen_again (inl set) = ap (λ m. update_response m ct i true) same
      where
        same : update_response ns ct i true ≡ ns
        same = seen ns (rw e (unfold get_index_nil in set))
    seen_again (inr clear) = rw same (seen stored stored_bit)
      where
        same : update_response ns ct i true ≡ stored
        same = unfold update_response get_index_nil in rw (e, clear) refl
