-- ===== src/TransferPool/Ages.antt =====
-- rohmu/transfer_pool.py: whose the transfers are that the pool gives out, and how old; and what a
-- returned handle does.
use rohmu.TransferPool.Weights.{Kept, CacheIsKept, PoolIsKept, Every-prune}
use rohmu.TransferPool.Exclusive.{run-PoolIsKept}
use rohmu.TransferPool.Users.{Event, run, start}
use rohmu.TransferPool.{
  TransferCacheItem, pop, cache_get, Factory, return_to_pool, prune_expired, plain_get, create_with,
  found_or_create, get, use_transfer, is_expired, shared_get, create, get_from, SafeTransfer,
  TransferCache, age, TransferPool, mark_done, reclaim,
}
use rohmu.Base.{
  ℕ, String, Option, Outcome, List, ◌≡◌, Every, some, ok, false, err, none, ◌∷◌, true, Bool,
  invalid_transfer, diverge, Bool-cases, arith, Option-cases, subst, [], lookup, inl, refl, inr,
  Entries-lookup, insert,
}

-- What a caller gets is a transfer of its own configuration, and one that is not shared is young
-- enough.
abbrev pub Serves : ℕ → String → TransferCacheItem → Type 0
Serves now key item =
    (item.cache_key ≡ key) × (item.transfer.is_thread_safe ≡ false → is_expired now item ≡ false)

abbrev Given : (TransferCacheItem → Type 0) → Option TransferCacheItem → Type 0
Given P none = Unit
Given P (some item) = P item

abbrev Returned : (TransferCacheItem → Type 0) → Outcome TransferCacheItem → Type 0
Returned P (ok item) = P item
Returned P (err e) = Unit
Returned P diverge = Unit

pop_young :
    (now : ℕ) (heap : List TransferCacheItem)
    → Given (λ item. is_expired now item ≡ false) (pop (prune_expired now heap)).0
unfolding pop prune_expired
pop_young now [] = tt
pop_young now (item ∷ heap) = elim (Bool-cases (is_expired now item)) [
  | inl e ↦ rw e (pop_young now heap)
  | inr e ↦ rw e e
]

pop_shared :
    (now : ℕ) (key : String) (heap : List TransferCacheItem)
    → Every (Kept key true) heap
    → Given (Serves now key) (pop heap).0
unfolding pop
pop_shared now key [] h = tt
pop_shared now key (item ∷ heap) h = (h.0.0, λ unsafe. absurd (cc (unsafe, h.0.1 refl)))

pop_plain :
    (now : ℕ) (key : String) (heap : List TransferCacheItem)
    → Every (Kept key false) heap
    → Given (λ item. is_expired now item ≡ false) (pop heap).0
    → Given (Serves now key) (pop heap).0
unfolding pop
pop_plain now key [] h young = tt
pop_plain now key (item ∷ heap) h young = (h.0.0, λ unsafe. young)

cache_get-Serves :
    (now : ℕ) (key : String) (cache : TransferCache)
    → CacheIsKept key cache
    → Given (Serves now key) (cache_get now cache).0
unfolding cache_get plain_get shared_get
cache_get-Serves now key cache kept = elim (Bool-cases cache.shared) [
  | inl e ↦ rw e (
      pop_shared now key cache.transfers_heap
        (subst (λ b. Every (Kept key b) cache.transfers_heap) e kept))
  | inr e ↦ rw e (
      pop_plain now key (prune_expired now cache.transfers_heap)
        (Every-prune (Kept key false) now cache.transfers_heap
          (subst (λ b. Every (Kept key b) cache.transfers_heap) e kept))
        (pop_young now cache.transfers_heap))
]

module _ {ℓ} {Config : Type ℓ} (F : Factory Config) where
  create_with-Serves :
      (now : ℕ) (config : Config) (result : Outcome Bool) (pool : TransferPool)
      → Returned (Serves now (F.cache_key config)) (create_with F now config result pool).0
  unfolding create_with is_expired age
  create_with-Serves now config (ok safe) pool = (refl, λ unsafe. ground arith)
  create_with-Serves now config (err e) pool = tt
  create_with-Serves now config diverge pool = tt

  found-Serves :
      (now : ℕ) (config : Config) (found : Option TransferCacheItem) (pool : TransferPool)
      → Given (Serves now (F.cache_key config)) found
      → Returned (Serves now (F.cache_key config)) (found_or_create F now config found pool).0
  unfolding found_or_create create
  found-Serves now config none pool h = create_with-Serves now config (F.get_transfer config) pool
  found-Serves now config (some item) pool h = h

  get-Returned :
      (now : ℕ) (config : Config) (pool : TransferPool)
      → PoolIsKept pool
      → Returned (Serves now (F.cache_key config)) (get F now config pool).0
  unfolding get get_from create
  get-Returned now config pool kept =
      elim (Option-cases (lookup (F.cache_key config) pool.caches)) [
        | inl e ↦ rw e (create_with-Serves now config (F.get_transfer config) pool)
        | inr (cache, e) ↦
            let keyed = Entries-lookup CacheIsKept (F.cache_key config) cache pool.caches kept e in
            rw e (
              found-Serves now config (cache_get now cache).0
                (record pool {
                  caches = insert (F.cache_key config) (cache_get now cache).1 pool.caches;
                })
                (cache_get-Serves now (F.cache_key config) cache keyed))
      ]

  -- From a pool that has come about in whatever way, a caller gets a transfer made for its own
  -- configuration, which has not expired if it is one that is not shared.
  pub get-Serves :
      (events : List (Event Config)) (pool_age transfer_age now : ℕ) (config : Config)
      (item : TransferCacheItem)
      → (get F now config (run F events (start F pool_age transfer_age)).pool).0 ≡ ok item
      → Serves now (F.cache_key config) item
  get-Serves events pool_age transfer_age now config item served =
      subst (Returned (Serves now (F.cache_key config))) served (
        get-Returned now config (run F events (start F pool_age transfer_age)).pool
          (run-PoolIsKept F events pool_age transfer_age))

-- A handle that has been returned refuses every use, and returning it again changes nothing,
-- neither the handle nor the pool, whatever has become of the pool in between.
pub return_to_pool_again :
    (now later : ℕ) (handle : SafeTransfer) (pool between : TransferPool)
    → (use_transfer (return_to_pool now handle pool).0 ≡ err invalid_transfer)
      × (return_to_pool later (return_to_pool now handle pool).0 between
          ≡ ((return_to_pool now handle pool).0, between))
unfolding return_to_pool use_transfer mark_done reclaim
return_to_pool_again now later handle pool between = elim (Bool-cases handle.done) [
  | inl e ↦ rw e (refl, refl)
  | inr e ↦ rw e (refl, refl)
]
