-- ===== src/Pool/Cache/Salted.antt =====
-- ixpool/ix_dup_cache.go: a message that was put in is found, whichever changes came in between.
use testing_go_moi.Prelude.{
  ℕ, ◌≡◌, refl, true, none, some, leb, ◌==◌, length, Bool-cases, Option-cases, inl, inr, ==_refl,
  arith,
}
use testing_go_moi.Pool.Cache.{
  member, SaltedCache, inner_swap, inner_check, put, put_if_new, check_and_put,
}
use testing_go_moi.Pool.Cache.Rotation.{member-insert}

module _ {Message : Type 0} (digest : Message → ℕ → ℕ) where
  -- The message is found in the current page.
  found_in_cur :
      (c : SaltedCache) (msg : Message)
      → member (digest msg c.cur_salt) c.digests.cur ≡ true
      → inner_check digest c msg ≡ none
  unfolding inner_check
  found_in_cur c msg e = rw e refl

  put-known :
      (c : SaltedCache) (msg : Message) (salt : ℕ)
      → inner_check digest (put digest c msg (digest msg c.cur_salt) salt) msg ≡ none
  unfolding put inner_swap
  put-known c msg salt = elim (Bool-cases (leb c.digests.max_size (length c.digests.cur))) [
    | inl full ↦
        found_in_cur (put digest c msg (digest msg c.cur_salt) salt) msg
          (rw (full, member-insert, ==_refl) refl)
    | inr room ↦
        found_in_cur (put digest c msg (digest msg c.cur_salt) salt) msg
          (rw (room, member-insert, ==_refl) refl)
  ]

  -- What `innerCheck` returns is the digest under the current salt.
  inner_check_digest :
      (c : SaltedCache) (msg : Message) (d : ℕ)
      → inner_check digest c msg ≡ some d
      → d ≡ digest msg c.cur_salt
  unfolding inner_check
  inner_check_digest c msg d e = ground (arith, e)

  put_if_new-known :
      (c : SaltedCache) (msg : Message) (salt fresh : ℕ)
      → inner_check digest (put_if_new digest c msg (digest msg salt) salt fresh).0 msg ≡ none
  unfolding put_if_new
  put_if_new-known c msg salt fresh = elim (Bool-cases (salt == c.cur_salt)) [
    | inl same ↦
        let e : salt ≡ c.cur_salt = ground arith in
        elim (Bool-cases (member (digest msg salt) c.digests.cur)) [
          | inl known ↦ rw (same, known) (found_in_cur c msg (rw e at known))
          | inr new ↦ rw (same, new) (rw e (put-known c msg fresh))
        ]
    | inr other ↦ elim (Option-cases (inner_check digest c msg)) [
      | inl known ↦ rw (other, known) known
      | inr new ↦
          rw (other, new.1) (rw (inner_check_digest c msg new.0 new.1) (put-known c msg fresh))
    ]
  ]

  -- A message that the first half of CheckAndPut did not find is found in the cache after the second
  -- half, whatever became of the cache and its salt in between.
  pub check_and_put-known :
      (before c : SaltedCache) (msg : Message) (fresh d : ℕ)
      → inner_check digest before msg ≡ some d
      → inner_check digest (check_and_put digest before c msg fresh).0 msg ≡ none
  unfolding check_and_put
  check_and_put-known before c msg fresh d e =
      rw (e, check_and_put, inner_check_digest before msg d e)
        (put_if_new-known c msg before.cur_salt fresh)
