-- ===== src/TransferPool/Steps.antt =====
-- rohmu/transfer_pool.py: what taking a transfer and giving it back does to the caches.
use rohmu.TransferPool.Weights.{
  counts, pooled, PoolIsKept, CacheIsKept, CacheIsKept-get, in_cache, CacheIsKept-new, in_cache-new,
  in_cache-get, in_cache-put, CacheIsKept-put,
}
use rohmu.Base.{
  ℕ, Outcome, Bool, if◌then◌else◌, ltb, insert, ◌+◌, ◌≡◌, ok, suc, Option, Option-cases, err,
  lookup, inl, diverge, inr, refl, ◌≤◌, Entries-insert, Entries-lookup, Entries-keep, some, arith,
  weight_of, none, sum_values-insert, sum_values-keep, not, ap,
}
use rohmu.TransferPool.{
  TransferPool, ℕ, Factory, put, Outcome, TransferCacheItem, create_with, found_or_create,
  TransferCache, get, prune_expired_caches, new_item, create, get_from, put_in, cache_get,
  new_cache, cache_is_expired, cache_put,
}

-- 1 for the transfers that the factory has made
abbrev pub made : ℕ → TransferPool → ℕ
made x pool = if ltb x pool.created then 1 else 0

unfoldable pub got : ℕ → Outcome TransferCacheItem → ℕ
got x (ok item) = counts x item
got x (err e) = 0
got x diverge = 0

module _ {ℓ} {Config : Type ℓ} (F : Factory Config) where
  -- The item that `_get` makes.
  abbrev fresh : ℕ → Config → Bool → TransferPool → TransferCacheItem
  fresh now config safe pool =
      new_item now (F.cache_key config) (record { id = pool.created; is_thread_safe = safe })
        pool.max_transfer_age

  counts-fresh :
      (x now : ℕ) (config : Config) (safe : Bool) (pool : TransferPool)
      → counts x (fresh now config safe pool) + made x pool
        ≤ (if ltb x (suc pool.created) then 1 else 0)
  unfolding counts
  counts-fresh x now config safe pool = ground arith

  pooled-create_with :
      (x now : ℕ) (config : Config) (result : Outcome Bool) (pool : TransferPool)
      → pooled x (create_with F now config result pool).1
          + got x (create_with F now config result pool).0
          + made x pool
        ≤ pooled x pool + made x (create_with F now config result pool).1
  unfolding create_with got
  pooled-create_with x now config (ok safe) pool = omega (
    arith,
    sum_values-insert (in_cache x) (F.cache_key config)
        (new_cache now pool.max_pool_age (fresh now config safe pool)) pool.caches,
    in_cache-new x now pool.max_pool_age (fresh now config safe pool),
    counts-fresh x now config safe pool,
  )
  pooled-create_with x now config (err e) pool = omega arith
  pooled-create_with x now config diverge pool = omega arith

  PoolIsKept-create_with :
      (now : ℕ) (config : Config) (result : Outcome Bool) (pool : TransferPool)
      → PoolIsKept pool
      → PoolIsKept (create_with F now config result pool).1
  unfolding create_with
  PoolIsKept-create_with now config (ok safe) pool kept =
      Entries-insert CacheIsKept (F.cache_key config)
        (new_cache now pool.max_pool_age (fresh now config safe pool)) pool.caches
        (CacheIsKept-new now pool.max_pool_age (fresh now config safe pool)) kept
  PoolIsKept-create_with now config (err e) pool kept = kept
  PoolIsKept-create_with now config diverge pool kept = kept

  pooled-found_or_create :
      (x now : ℕ) (config : Config) (found : Option TransferCacheItem) (pool : TransferPool)
      → pooled x (found_or_create F now config found pool).1
          + got x (found_or_create F now config found pool).0
          + made x pool
        ≤ pooled x pool
          + weight_of (counts x) found
          + made x (found_or_create F now config found pool).1
  unfolding found_or_create create got
  pooled-found_or_create x now config none pool =
      omega (arith, pooled-create_with x now config (F.get_transfer config) pool)
  pooled-found_or_create x now config (some item) pool = omega arith

  PoolIsKept-found_or_create :
      (now : ℕ) (config : Config) (found : Option TransferCacheItem) (pool : TransferPool)
      → PoolIsKept pool
      → PoolIsKept (found_or_create F now config found pool).1
  unfolding found_or_create create
  PoolIsKept-found_or_create now config none pool kept =
      PoolIsKept-create_with now config (F.get_transfer config) pool kept
  PoolIsKept-found_or_create now config (some item) pool kept = kept

  -- The pool once the cache has been asked.
  abbrev asked : ℕ → Config → TransferCache → TransferPool → TransferPool
  asked now config cache pool = record pool {
    caches = insert (F.cache_key config) (cache_get now cache).1 pool.caches;
  }

  pub pooled-get :
      (x now : ℕ) (config : Config) (pool : TransferPool)
      → PoolIsKept pool
      → pooled x (get F now config pool).1 + got x (get F now config pool).0 + made x pool
        ≤ pooled x pool + made x (get F now config pool).1
  unfolding get get_from create
  pooled-get x now config pool kept =
      elim (Option-cases (lookup (F.cache_key config) pool.caches)) [
        | inl e ↦ rw e (pooled-create_with x now config (F.get_transfer config) pool)
        | inr (cache, e) ↦
            let keyed = Entries-lookup CacheIsKept (F.cache_key config) cache pool.caches kept e in
            rw e (
              omega (
                arith,
                pooled-found_or_create x now config (cache_get now cache).0
                    (asked now config cache pool),
                sum_values-insert (in_cache x) (F.cache_key config) (cache_get now cache).1
                    pool.caches,
                in_cache-get x now (F.cache_key config) cache keyed,
                ap (weight_of (in_cache x)) e,
              ))
      ]

  pub PoolIsKept-get :
      (now : ℕ) (config : Config) (pool : TransferPool)
      → PoolIsKept pool
      → PoolIsKept (get F now config pool).1
  unfolding get get_from create
  PoolIsKept-get now config pool kept =
      elim (Option-cases (lookup (F.cache_key config) pool.caches)) [
        | inl e ↦ rw e (PoolIsKept-create_with now config (F.get_transfer config) pool kept)
        | inr (cache, e) ↦
            let keyed = Entries-lookup CacheIsKept (F.cache_key config) cache pool.caches kept e in
            rw e (
              PoolIsKept-found_or_create now config (cache_get now cache).0
                (asked now config cache pool)
                (Entries-insert CacheIsKept (F.cache_key config) (cache_get now cache).1 pool.caches
                  (CacheIsKept-get now (F.cache_key config) cache keyed) kept))
      ]

-- Giving an item back.
pub pooled-put :
    (x now : ℕ) (item : TransferCacheItem) (pool : TransferPool)
    → pooled x (put now item pool) ≤ pooled x pool + counts x item
unfolding put prune_expired_caches put_in
pooled-put x now item pool = elim (Option-cases (lookup item.cache_key pool.caches)) [
  | inl e ↦ rw e (
      omega (
        arith,
        sum_values-keep (in_cache x) (λ cache. not (cache_is_expired now cache)) pool.caches,
      ))
  | inr (cache, e) ↦ rw e (
      omega (
        arith,
        sum_values-keep (in_cache x) (λ cache. not (cache_is_expired now cache))
            (insert item.cache_key (cache_put now item cache) pool.caches),
        sum_values-insert (in_cache x) item.cache_key (cache_put now item cache) pool.caches,
        in_cache-put x now item cache,
        ap (weight_of (in_cache x)) e,
      ))
]

pub created-put :
    (now : ℕ) (item : TransferCacheItem) (pool : TransferPool)
    → (put now item pool).created ≡ pool.created
unfolding put prune_expired_caches put_in
created-put now item pool = elim (Option-cases (lookup item.cache_key pool.caches)) [
  | inl e ↦ rw e refl
  | inr (cache, e) ↦ rw e refl
]

pub PoolIsKept-put :
    (now : ℕ) (item : TransferCacheItem) (pool : TransferPool)
    → PoolIsKept pool
    → PoolIsKept (put now item pool)
unfolding put prune_expired_caches put_in
PoolIsKept-put now item pool kept = elim (Option-cases (lookup item.cache_key pool.caches)) [
  | inl e ↦
      rw e (Entries-keep CacheIsKept (λ cache. not (cache_is_expired now cache)) pool.caches kept)
  | inr (cache, e) ↦
      let keyed = Entries-lookup CacheIsKept item.cache_key cache pool.caches kept e in
      rw e (
        Entries-keep CacheIsKept (λ cache. not (cache_is_expired now cache))
          (insert item.cache_key (cache_put now item cache) pool.caches)
          (Entries-insert CacheIsKept item.cache_key (cache_put now item cache) pool.caches
            (CacheIsKept-put now item cache keyed) kept))
]
