-- ===== src/Pool/Cache.antt =====
-- ixpool/ix_dup_cache.go: the caches of digests that filter repeated messages.
--
-- A set of digests is a map to units. The hash function, of a message followed by a salt, is the
-- argument `digest`, and a new random salt is an argument of each operation that may draw one. A cache
-- is locked from end to end of each method but `CheckAndPut`, which lets go of it in between: its two
-- halves take one cache each. The timer that calls `Remix` is left out.
pub mod Rotation
pub mod Salted
use testing_go_moi.Prelude.{
  ℕ, zero, suc, ◌≡◌, Bool, true, false, ◌||◌, Option, none, some, List, [], ◌∷◌, leb, ◌==◌,
  if◌then◌else◌, length, Map, lookup, insert, delete, ◌+◌,
}

abbrev pub Digests : Type 0
Digests = Map (Unit {0})

unfoldable pub member : ℕ → Digests → Bool
member d ds = elim (lookup d ds) [ none ↦ false | some u ↦ true ]

pub record DigestCache : Type 0 where
  pub cur : Digests
  pub prev : Digests
  pub max_size : ℕ

unfoldable pub new_digest_cache : ℕ → DigestCache
new_digest_cache size = record { cur = []; prev = []; max_size = size }

unfoldable pub has : DigestCache → ℕ → Bool
has c d = if member d c.cur then true else member d c.prev

unfoldable pub swap : DigestCache → DigestCache
swap c = record c { prev = c.cur; cur = [] }

unfoldable pub insert_digest : DigestCache → ℕ → DigestCache
insert_digest c d =
    let room = if leb c.max_size (length c.cur) then swap c else c in
    record room { cur = insert d tt room.cur }

-- The cache, and whether the digest was found.
unfoldable pub check_and_insert : DigestCache → ℕ → DigestCache × Bool
check_and_insert c d = if has c d then (c, true) else (insert_digest c d, false)

unfoldable pub len : DigestCache → ℕ
len c = length c.cur + length c.prev

unfoldable pub delete_digest : DigestCache → ℕ → DigestCache
delete_digest c d = record c { cur = delete d c.cur; prev = delete d c.prev }

pub record SaltedCache : Type 0 where
  pub digests : DigestCache
  pub cur_salt : ℕ
  pub prev_salt : ℕ

-- `innerSwap`, and `Remix`, with the salt that `moreSalt` draws.
unfoldable pub inner_swap : SaltedCache → ℕ → SaltedCache
inner_swap c salt = record {
  digests = record c.digests { prev = c.digests.cur; cur = [] };
  prev_salt = c.cur_salt;
  cur_salt = salt;
}

module _ {Message : Type 0} (digest : Message → ℕ → ℕ) where
  -- `none` if the message is found, and else its digest under the current salt.
  unfoldable pub inner_check : SaltedCache → Message → Option ℕ
  inner_check c msg =
      if member (digest msg c.cur_salt) c.digests.cur
      then none
      else if member (digest msg c.prev_salt) c.digests.prev
      then none
      else some (digest msg c.cur_salt)

  -- The digest goes in; a full cache is swapped first, and the digest made again.
  unfoldable pub put : SaltedCache → Message → ℕ → ℕ → SaltedCache
  put c msg d salt =
      let swapped = inner_swap c salt in
      if leb c.digests.max_size (length c.digests.cur)
      then record swapped {
        digests = record swapped.digests { cur = insert (digest msg salt) tt swapped.digests.cur };
      }
      else record c { digests = record c.digests { cur = insert d tt c.digests.cur } }

  -- The second half of `CheckAndPut`, under the write lock, with the digest and the salt of the first.
  unfoldable pub put_if_new : SaltedCache → Message → ℕ → ℕ → ℕ → SaltedCache × Bool
  put_if_new c msg d salt fresh =
      if salt == c.cur_salt
      then if member d c.digests.cur then (c, true) else (put c msg d fresh, false)
      else elim (inner_check c msg) [ none ↦ (c, true) | some e ↦ (put c msg e fresh, false) ]

  -- `CheckAndPut`, where the cache may have changed between its two halves.
  unfoldable pub check_and_put : SaltedCache → SaltedCache → Message → ℕ → SaltedCache × Bool
  check_and_put before c msg fresh = elim (inner_check before msg) [
    | none ↦ (c, true)
    | some d ↦ put_if_new c msg d before.cur_salt fresh
  ]
