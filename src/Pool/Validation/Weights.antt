-- ===== src/Pool/Validation/Weights.antt =====
-- ixpool/ixpool.go: copies of one signature.
use testing_go_moi.Prelude.{
  ℕ, zero, suc, ◌+◌, ◌*◌, ◌%◌, ◌^◌, ◌≤◌, ◌<◌, ◌≡◌, ap, ◌∙◌, true, inr, none, some, List, ◌==◌,
  replicate, arith,
}
use testing_go_moi.Pool.{Signature, AccountKey, Services}
use testing_go_moi.Pool.Validation.{min_weight, weigh_one, weigh, verify_participant_signatures}

module _ (env : Services) (id payload : ℕ) (keys : List AccountKey) where
  -- Each copy of a verified signature adds its weight again.
  weigh_copies :
      (k n w : ℕ) (s : Signature)
      → (s.id == id) ≡ true
      → weigh_one env id payload keys s ≡ inr w
      → n + k * w < 2 ^ 64
      → weigh env id payload keys n (replicate k s) ≡ inr (n + k * w)
  unfolding weigh
  weigh_copies zero n w s own good fits = ap inr (omega arith)
  weigh_copies (suc k) n w s own good fits =
      let more : suc k * w ≡ w + k * w = omega arith in
      let small : (n + w) % 2 ^ 64 ≡ n + w = omega arith in
      rw (own, weigh, good, small)
        (weigh_copies k (n + w) w s own good (omega arith) ∙ ap inr (omega arith))

module _ (env : Services) (id payload : ℕ) where
  -- If one signature of an account verifies, adds weight w, and k times w is at least the least
  -- weight and fits 64 bits, then k copies of it pass: each copy is counted.
  pub copies_pass :
      (keys : List AccountKey) (s : Signature) (k w : ℕ)
      → env.get_account_keys id ≡ some keys
      → s.id ≡ id
      → weigh_one env id payload keys s ≡ inr w
      → min_weight ≤ k * w
      → k * w < 2 ^ 64
      → verify_participant_signatures env id payload (replicate k s) ≡ none
  unfolding verify_participant_signatures
  copies_pass keys s k w e own good enough fits =
      let sum = weigh_copies env id payload keys k 0 w s (ground (arith, own)) good (omega arith) in
      rw (e, verify_participant_signatures, sum) (ground arith)
