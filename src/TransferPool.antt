-- ===== src/TransferPool.antt =====
-- rohmu/transfer_pool.py: the caches of transfers, the pool over them, and the handles that it
-- gives out. `_get` and `_put` read the clock once, and make their changes under the pool's mutex; what
-- a handle does outside of it is a step of its own.
pub mod Weights
pub mod Steps
pub mod Users
pub mod Moves
pub mod Exclusive
pub mod Ages
use rohmu.Base.{
  ℕ, List, String, Bool, ◌*◌, ◌-◌, ◌∷◌, Option, if◌then◌else◌, [], keep_values, Outcome, Method,
  lookup, Dict, ltb, none, not, ok, some, insert, suc, err, ◌>>=◌, invalid_transfer, true, diverge,
  pure, false,
}

-- What the pool sees of a `BaseTransfer`: which object it is, and `is_thread_safe`.
pub record Transfer : Type 0 where
  pub id : ℕ
  pub is_thread_safe : Bool

pub record TransferCacheItem : Type 0 where
  pub create_time : ℕ
  pub cache_key : String
  pub transfer : Transfer
  pub max_age : ℕ

abbrev pub transfer_max_age : ℕ
transfer_max_age = 60 * 60 * 3

abbrev pub transfer_cache_max_age : ℕ
transfer_cache_max_age = transfer_max_age * 2

abbrev pub new_item : ℕ → String → Transfer → ℕ → TransferCacheItem
new_item now pool_key transfer max_age = record {
  create_time = now;
  cache_key = pool_key;
  transfer = transfer;
  max_age = max_age;
}

-- The clock never runs back, so the difference is not cut at 0.
unfoldable pub age : ℕ → TransferCacheItem → ℕ
age now item = now - item.create_time

unfoldable pub is_expired : ℕ → TransferCacheItem → Bool
is_expired now item = ltb item.max_age (age now item)

-- `_TransferCache`, and with `shared` its subclass for thread-safe transfers. The heap is kept as
-- the list of its items in the order in which `heappop` gives them.
pub record TransferCache : Type 0 where
  pub transfers_heap : List TransferCacheItem
  pub last_used : ℕ
  pub max_age : ℕ
  pub shared : Bool

unfoldable pub heappush : TransferCacheItem → List TransferCacheItem → List TransferCacheItem
heappush item [] = item ∷ []
heappush item (first ∷ heap) =
    if ltb first.create_time item.create_time
    then first ∷ heappush item heap
    else item ∷ first ∷ heap

unfoldable pub prune_expired : ℕ → List TransferCacheItem → List TransferCacheItem
prune_expired now [] = []
prune_expired now (item ∷ heap) =
    let rest = prune_expired now heap in if is_expired now item then rest else item ∷ heap

-- `heappop`, when there is an item
unfoldable pub pop : List TransferCacheItem → Option TransferCacheItem × List TransferCacheItem
pop [] = (none, [])
pop (item ∷ heap) = (some item, heap)

-- `_TransferCache.get`
unfoldable pub plain_get : ℕ → TransferCache → Option TransferCacheItem × TransferCache
plain_get now cache =
    let (item, heap) = pop (prune_expired now cache.transfers_heap) in
    (item, record cache { transfers_heap = heap; last_used = now })

-- `_TransferCacheForThreadSafeTransfer.get`; with no item the source raises an IndexError, which
-- cannot happen, since its constructor puts one in and none is taken out.
unfoldable pub shared_get : ℕ → TransferCache → Option TransferCacheItem × TransferCache
shared_get now cache = ((pop cache.transfers_heap).0, record cache { last_used = now })

unfoldable pub cache_get : ℕ → TransferCache → Option TransferCacheItem × TransferCache
cache_get now cache = if cache.shared then shared_get now cache else plain_get now cache

unfoldable pub plain_put : ℕ → TransferCacheItem → TransferCache → TransferCache
plain_put now item cache =
    if is_expired now item
    then record cache { last_used = now }
    else record cache { last_used = now; transfers_heap = heappush item cache.transfers_heap }

unfoldable pub cache_put : ℕ → TransferCacheItem → TransferCache → TransferCache
cache_put now item cache =
    if cache.shared then record cache { last_used = now } else plain_put now item cache

unfoldable pub cache_is_expired : ℕ → TransferCache → Bool
cache_is_expired now cache = ltb cache.max_age (now - cache.last_used)

-- `TransferPool`, with the number of the transfers made so far: the factory's next one is new.
pub record TransferPool : Type 0 where
  pub max_pool_age : ℕ
  pub max_transfer_age : ℕ
  pub caches : Dict TransferCache
  pub created : ℕ

abbrev pub new_pool : ℕ → ℕ → TransferPool
new_pool pool_age transfer_age = record {
  max_pool_age = pool_age;
  max_transfer_age = transfer_age;
  caches = [];
  created = 0;
}

unfoldable pub prune_expired_caches : ℕ → TransferPool → TransferPool
prune_expired_caches now pool = record pool {
  caches = keep_values (λ cache. not (cache_is_expired now cache)) pool.caches;
}

-- `json.dumps(storage_config, sort_keys=True)` and the factory: which transfers it makes for a
-- configuration are thread safe, and which configurations it refuses.
pub record Factory {ℓ} (Config : Type ℓ) : Type ℓ where
  pub cache_key : Config → String
  pub get_transfer : Config → Outcome Bool

-- The cache that `_get` makes for an item it has just created.
unfoldable pub new_cache : ℕ → ℕ → TransferCacheItem → TransferCache
new_cache now max_age item = record {
  transfers_heap = if item.transfer.is_thread_safe then item ∷ [] else [];
  last_used = now;
  max_age = max_age;
  shared = item.transfer.is_thread_safe;
}

module _ {ℓ} {Config : Type ℓ} (F : Factory Config) where
  -- `_get` when no cached transfer is there, by what the factory gives
  unfoldable pub create_with : ℕ → Config → Outcome Bool → Method TransferPool TransferCacheItem
  create_with now config (ok safe) pool =
      let transfer : Transfer = record { id = pool.created; is_thread_safe = safe } in
      let item = new_item now (F.cache_key config) transfer pool.max_transfer_age in
      (
        ok item,
        record pool {
          caches = insert (F.cache_key config) (new_cache now pool.max_pool_age item) pool.caches;
          created = suc pool.created;
        },
      )
  create_with now config (err e) pool = (err e, pool)
  create_with now config diverge pool = (diverge, pool)

  unfoldable pub create : ℕ → Config → Method TransferPool TransferCacheItem
  create now config = create_with now config (F.get_transfer config)

  unfoldable pub found_or_create :
      ℕ → Config → Option TransferCacheItem → Method TransferPool TransferCacheItem
  found_or_create now config (some item) pool = (ok item, pool)
  found_or_create now config none pool = create now config pool

  unfoldable pub get_from :
      ℕ → Config → Option TransferCache → Method TransferPool TransferCacheItem
  get_from now config none pool = create now config pool
  get_from now config (some cache) pool =
      let (found, after) = cache_get now cache in
      let used : TransferPool = record pool {
        caches = insert (F.cache_key config) after pool.caches;
      } in
      found_or_create now config found used

  -- `_get`
  unfoldable pub get : ℕ → Config → Method TransferPool TransferCacheItem
  get now config pool = get_from now config (lookup (F.cache_key config) pool.caches) pool

unfoldable pub put_in : ℕ → TransferCacheItem → Option TransferCache → TransferPool → TransferPool
put_in now item none pool = pool
put_in now item (some cache) pool = record pool {
  caches = insert item.cache_key (cache_put now item cache) pool.caches;
}

-- `_put`
unfoldable pub put : ℕ → TransferCacheItem → TransferPool → TransferPool
put now item pool =
    prune_expired_caches now (put_in now item (lookup item.cache_key pool.caches) pool)

-- `SafeTransfer`; `del self._item` leaves the item unreachable, since every use tests `_done`.
pub record SafeTransfer : Type 0 where
  pub item : TransferCacheItem
  pub done : Bool

-- `get_transfer`
unfoldable pub get_transfer {ℓ} :
    {Config : Type ℓ} → Factory Config → ℕ → Config → Method TransferPool SafeTransfer
get_transfer F now config = get F now config >>= λ item. pure (record { item = item; done = false })

-- `__getattribute__` for the attributes of a transfer
unfoldable pub use_transfer : SafeTransfer → Outcome Transfer
use_transfer handle = if handle.done then err invalid_transfer else ok handle.item.transfer

-- `self._pool_reclaim(self._item)` and `self._done = True`. The mutex is held for the first alone: other
-- threads may come in front of it, behind the test of `_done`, and between the two.
unfoldable pub reclaim : ℕ → SafeTransfer → TransferPool → TransferPool
reclaim now handle pool = put now handle.item pool

unfoldable pub mark_done : SafeTransfer → SafeTransfer
mark_done handle = record handle { done = true }

-- The whole of `return_to_pool`, where no other thread comes between
unfoldable pub return_to_pool : ℕ → SafeTransfer → TransferPool → SafeTransfer × TransferPool
return_to_pool now handle pool =
    if handle.done then (handle, pool) else (mark_done handle, reclaim now handle pool)

-- `with_transfer`, up to its `yield`, and from there on, which is run whatever the body does
unfoldable pub enter_transfer {ℓ} :
    {Config : Type ℓ} → Factory Config → ℕ → Config → Method TransferPool TransferCacheItem
enter_transfer F now config = get F now config

unfoldable pub leave_transfer : ℕ → TransferCacheItem → TransferPool → TransferPool
leave_transfer now item pool = put now item pool
