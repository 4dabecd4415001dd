-- ===== src/Pool/Cache/Rotation.antt =====
-- ixpool/ix_dup_cache.go: how many digests a cache holds, and how long it remembers one.
use testing_go_moi.Prelude.{
  ℕ, suc, ◌+◌, ◌*◌, ◌≤◌, ◌<◌, ◌≡◌, ◌⊎◌, inl, inr, refl, ◌∙◌, true, false, some, List, [], ◌∷◌, leb,
  ◌==◌, if◌then◌else◌, length, Bool-cases, lookup, insert, delete, lookup-insert, ==_refl, arith,
}
use testing_go_moi.Pool.Cache.{
  Digests, member, DigestCache, new_digest_cache, has, swap, insert_digest, check_and_insert, len,
  delete_digest,
}

length-insert : (d : ℕ) (ds : Digests) → length (insert d tt ds) ≤ suc (length ds)
unfolding insert
length-insert d [] = omega arith
length-insert d ((k, u) ∷ ds) = ground (arith, length-insert d ds)

length-delete : (d : ℕ) (ds : Digests) → length (delete d ds) ≤ length ds
unfolding delete
length-delete d [] = omega arith
length-delete d ((k, u) ∷ ds) = ground (arith, length-delete d ds)

pub member-insert :
    (d e : ℕ) (ds : Digests) → member e (insert d tt ds) ≡ (if d == e then true else member e ds)
unfolding member
member-insert d e ds = elim (Bool-cases (d == e)) [
  | inl same ↦
      let there : lookup e (insert d tt ds) ≡ some tt = rw (lookup-insert d e tt ds, same) refl in
      rw (there, member, same) refl
  | inr other ↦
      let there : lookup e (insert d tt ds) ≡ lookup e ds =
        rw (lookup-insert d e tt ds, other) refl in
      rw (there, member, other) refl
]

-- Neither page holds more than the size.
pub record Bounded (c : DigestCache) : Type 0 where
  pub cur_size : length c.cur ≤ c.max_size
  pub prev_size : length c.prev ≤ c.max_size
  pub positive : 0 < c.max_size

pub new_digest_cache-Bounded : (size : ℕ) → 0 < size → Bounded (new_digest_cache size)
unfolding new_digest_cache
new_digest_cache-Bounded size h = record {
  cur_size = omega arith;
  prev_size = omega arith;
  positive = h;
}

insert_digest-Bounded : (c : DigestCache) (d : ℕ) → Bounded c → Bounded (insert_digest c d)
unfolding insert_digest swap
insert_digest-Bounded c d b = elim (Bool-cases (leb c.max_size (length c.cur))) [
  | inl full ↦ rw full (record {
    cur_size = omega (arith, length-insert d [], b.positive);
    prev_size = b.cur_size;
    positive = b.positive;
  })
  | inr room ↦ rw room (record {
    cur_size = ground (arith, length-insert d c.cur);
    prev_size = b.prev_size;
    positive = b.positive;
  })
]

pub check_and_insert-Bounded :
    (c : DigestCache) (d : ℕ) → Bounded c → Bounded (check_and_insert c d).0
unfolding check_and_insert
check_and_insert-Bounded c d b = elim (Bool-cases (has c d)) [
  | inl found ↦ rw found b
  | inr new ↦ rw new (insert_digest-Bounded c d b)
]

pub delete_digest-Bounded : (c : DigestCache) (d : ℕ) → Bounded c → Bounded (delete_digest c d)
unfolding delete_digest
delete_digest-Bounded c d b = record {
  cur_size = omega (arith, length-delete d c.cur, b.cur_size);
  prev_size = omega (arith, length-delete d c.prev, b.prev_size);
  positive = b.positive;
}

-- The digests that come in one after the other.
unfoldable pub check_all : DigestCache → List ℕ → DigestCache
check_all c [] = c
check_all c (d ∷ ds) = check_all (check_and_insert c d).0 ds

-- The digest stays for at least so many more.
record Stays (c : DigestCache) (d n : ℕ) : Type 0 where
  long_enough : n ≤ c.max_size
  page : (member d c.cur ≡ true) ⊎ ((member d c.prev ≡ true) × (length c.cur + n ≤ c.max_size))

insert_digest-Stays :
    (c : DigestCache) (d e n : ℕ) → Stays c d (suc n) → Stays (insert_digest c e) d n
unfolding insert_digest swap
insert_digest-Stays c d e n h = elim (Bool-cases (leb c.max_size (length c.cur))) [
  | inl full ↦ rw full (record {
    long_enough = omega (arith, h.long_enough);
    page = elim h.page [
      | inl cur ↦ inr (cur, omega (arith, length-insert e [], h.long_enough))
      | inr prev ↦ absurd (ground (arith, full, prev.1))
    ];
  })
  | inr room ↦ rw room (record {
    long_enough = omega (arith, h.long_enough);
    page = elim h.page [
      | inl cur ↦ inl (rw member-insert (ground (arith, cur)))
      | inr prev ↦ inr (prev.0, omega (arith, length-insert e c.cur, prev.1))
    ];
  })
]

check_and_insert-Stays :
    (c : DigestCache) (d e n : ℕ) → Stays c d (suc n) → Stays (check_and_insert c e).0 d n
unfolding check_and_insert
check_and_insert-Stays c d e n h = elim (Bool-cases (has c e)) [
  | inl found ↦ rw found (record {
    long_enough = omega (arith, h.long_enough);
    page = elim h.page [ inl cur ↦ inl cur | inr prev ↦ inr (prev.0, omega (arith, prev.1)) ];
  })
  | inr new ↦ rw new (insert_digest-Stays c d e n h)
]

Stays-has : (c : DigestCache) (d n : ℕ) → Stays c d n → has c d ≡ true
unfolding has
Stays-has c d n h = elim h.page [ inl cur ↦ rw cur refl | inr prev ↦ ground (arith, prev.0) ]

check_all-Stays :
    (c : DigestCache) (d : ℕ) (ds : List ℕ) → Stays c d (length ds) → has (check_all c ds) d ≡ true
unfolding check_all
check_all-Stays c d [] h = Stays-has c d 0 h
check_all-Stays c d (e ∷ ds) h =
    check_all-Stays (check_and_insert c e).0 d ds (check_and_insert-Stays c d e (length ds) h)

insert_digest-member : (c : DigestCache) (d : ℕ) → member d (insert_digest c d).cur ≡ true
unfolding insert_digest swap
insert_digest-member c d = elim (Bool-cases (leb c.max_size (length c.cur))) [
  | inl full ↦ rw (full, member-insert, ==_refl) refl
  | inr room ↦ rw (room, member-insert, ==_refl) refl
]

insert_digest-max : (c : DigestCache) (d : ℕ) → (insert_digest c d).max_size ≡ c.max_size
unfolding insert_digest swap
insert_digest-max c d = ground arith

-- A digest that was new to the cache is still found after as many further digests as the size of the
-- cache.
pub remembers :
    (c : DigestCache) (d : ℕ) (ds : List ℕ)
    → has c d ≡ false
    → length ds ≤ c.max_size
    → has (check_all (check_and_insert c d).0 ds) d ≡ true
unfolding check_and_insert
remembers c d ds new short = rw new (
    check_all-Stays (insert_digest c d) d ds (record {
      long_enough = rw (insert_digest-max c d) short;
      page = inl (insert_digest-member c d);
    }))

-- The caches that insertions and deletions lead to.
pub data CacheReach (size : ℕ) : DigestCache → Type 0 where
  fresh : CacheReach size (new_digest_cache size)
  inserted :
      (c : DigestCache) (d : ℕ) → CacheReach size c → CacheReach size (check_and_insert c d).0
  deleted : (c : DigestCache) (d : ℕ) → CacheReach size c → CacheReach size (delete_digest c d)

check_and_insert-max : (c : DigestCache) (d : ℕ) → (check_and_insert c d).0.max_size ≡ c.max_size
unfolding check_and_insert
check_and_insert-max c d = ground (arith, insert_digest-max c d)

CacheReach-Bounded :
    (size : ℕ) (c : DigestCache) → 0 < size → CacheReach size c → Bounded c × (c.max_size ≡ size)
unfolding new_digest_cache delete_digest
CacheReach-Bounded size c h CacheReach.fresh = (new_digest_cache-Bounded size h, refl)
CacheReach-Bounded size c h (CacheReach.inserted e d r) =
    let b = CacheReach-Bounded size e h r in
    (check_and_insert-Bounded e d b.0, check_and_insert-max e d ∙ b.1)
CacheReach-Bounded size c h (CacheReach.deleted e d r) =
    let b = CacheReach-Bounded size e h r in (delete_digest-Bounded e d b.0, b.1)

-- A cache never holds more than twice its size.
pub CacheReach-len : (size : ℕ) (c : DigestCache) → 0 < size → CacheReach size c → len c ≤ 2 * size
unfolding len
CacheReach-len size c h r =
    let b = CacheReach-Bounded size c h r in omega (arith, b.0.cur_size, b.0.prev_size, b.1)
