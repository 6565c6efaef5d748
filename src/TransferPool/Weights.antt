-- ===== src/TransferPool/Weights.antt =====
-- rohmu/transfer_pool.py: how often a transfer stands in a cache, and whose the items of a cache are.
use rohmu.Base.{
  ℕ, String, Entries, List, ◌∷◌, sum_values, Bool, Every, ◌≡◌, ◌≤◌, weight_of, if◌then◌else◌, ◌==◌,
  ◌+◌, true, arith, [], refl, if_both, Bool-cases, inl, inr, ltb, subst, false,
}
use rohmu.TransferPool.{
  TransferPool, TransferCache, TransferCacheItem, heappush, prune_expired, pop, cache_get,
  cache_put, plain_get, plain_put, shared_get, new_cache, ℕ, String, List, is_expired,
}

-- 1 when the item is the transfer `x` and may not be shared
unfoldable pub counts : ℕ → TransferCacheItem → ℕ
counts x item = if item.transfer.is_thread_safe then 0 else if item.transfer.id == x then 1 else 0

unfoldable pub in_heap : ℕ → List TransferCacheItem → ℕ
in_heap x [] = 0
in_heap x (item ∷ heap) = counts x item + in_heap x heap

unfoldable pub in_cache : ℕ → TransferCache → ℕ
in_cache x cache = in_heap x cache.transfers_heap

-- How often the unshared transfer `x` stands in the pool.
abbrev pub pooled : ℕ → TransferPool → ℕ
pooled x pool = sum_values (in_cache x) pool.caches

-- The items of a cache carry its key, and those of a shared one are thread safe.
abbrev pub Kept : String → Bool → TransferCacheItem → Type 0
Kept key shared item =
    (item.cache_key ≡ key) × (shared ≡ true → item.transfer.is_thread_safe ≡ true)

abbrev pub CacheIsKept : String → TransferCache → Type 0
CacheIsKept key cache = Every (Kept key cache.shared) cache.transfers_heap

abbrev pub PoolIsKept : TransferPool → Type 0
PoolIsKept pool = Entries CacheIsKept pool.caches

pub in_heap-heappush :
    (x : ℕ) (item : TransferCacheItem) (heap : List TransferCacheItem)
    → in_heap x (heappush item heap) ≡ counts x item + in_heap x heap
unfolding in_heap heappush
in_heap-heappush x item [] = refl
in_heap-heappush x item (first ∷ heap) = ground (arith, in_heap-heappush x item heap)

pub in_heap-prune :
    (x now : ℕ) (heap : List TransferCacheItem)
    → in_heap x (prune_expired now heap) ≤ in_heap x heap
unfolding in_heap prune_expired
in_heap-prune x now [] = omega arith
in_heap-prune x now (item ∷ heap) = ground (arith, in_heap-prune x now heap)

pub in_heap-pop :
    (x : ℕ) (heap : List TransferCacheItem)
    → weight_of (counts x) (pop heap).0 + in_heap x (pop heap).1 ≡ in_heap x heap
unfolding in_heap pop
in_heap-pop x [] = refl
in_heap-pop x (item ∷ heap) = refl

pub Every-heappush :
    (P : TransferCacheItem → Type 0) (item : TransferCacheItem) (heap : List TransferCacheItem)
    → P item
    → Every P heap
    → Every P (heappush item heap)
unfolding heappush
Every-heappush P item [] p h = (p, tt)
Every-heappush P item (first ∷ heap) p h =
    if_both (Every P) (ltb first.create_time item.create_time) (first ∷ heappush item heap)
      (item ∷ first ∷ heap) (h.0, Every-heappush P item heap p h.1) (p, h)

pub Every-prune :
    (P : TransferCacheItem → Type 0) (now : ℕ) (heap : List TransferCacheItem)
    → Every P heap
    → Every P (prune_expired now heap)
unfolding prune_expired
Every-prune P now [] h = h
Every-prune P now (item ∷ heap) h =
    if_both (Every P) (is_expired now item) (prune_expired now heap) (item ∷ heap)
      (Every-prune P now heap h.1) h

pub Every-pop :
    (P : TransferCacheItem → Type 0) (heap : List TransferCacheItem)
    → Every P heap
    → Every P (pop heap).1
unfolding pop
Every-pop P [] h = h
Every-pop P (item ∷ heap) h = h.1

-- In a shared cache nothing counts.
pub in_heap_shared :
    (x : ℕ) (key : String) (heap : List TransferCacheItem)
    → Every (Kept key true) heap
    → in_heap x heap ≡ 0
unfolding in_heap counts
in_heap_shared x key [] h = refl
in_heap_shared x key (item ∷ heap) h =
    let safe = h.0.1 refl in rw safe (omega (arith, in_heap_shared x key heap h.1))

pub in_cache-get :
    (x now : ℕ) (key : String) (cache : TransferCache)
    → CacheIsKept key cache
    → weight_of (counts x) (cache_get now cache).0 + in_cache x (cache_get now cache).1
      ≤ in_cache x cache
unfolding cache_get in_cache plain_get shared_get
in_cache-get x now key cache kept = elim (Bool-cases cache.shared) [
  | inl e ↦ rw e (
      let none_counts =
        in_heap_shared x key cache.transfers_heap
          (subst (λ b. Every (Kept key b) cache.transfers_heap) e kept) in
      omega (arith, in_heap-pop x cache.transfers_heap))
  | inr e ↦ rw e (
      omega (
        arith,
        in_heap-pop x (prune_expired now cache.transfers_heap),
        in_heap-prune x now cache.transfers_heap,
      ))
]

pub CacheIsKept-get :
    (now : ℕ) (key : String) (cache : TransferCache)
    → CacheIsKept key cache
    → CacheIsKept key (cache_get now cache).1
unfolding cache_get plain_get shared_get
CacheIsKept-get now key cache kept = elim (Bool-cases cache.shared) [
  | inl e ↦ rw e (subst (λ b. Every (Kept key b) cache.transfers_heap) e kept)
  | inr e ↦ rw e (
      Every-pop (Kept key false) (prune_expired now cache.transfers_heap) (
        Every-prune (Kept key false) now cache.transfers_heap
          (subst (λ b. Every (Kept key b) cache.transfers_heap) e kept)))
]

pub in_cache-put :
    (x now : ℕ) (item : TransferCacheItem) (cache : TransferCache)
    → in_cache x (cache_put now item cache) ≤ in_cache x cache + counts x item
unfolding cache_put in_cache plain_put
in_cache-put x now item cache = ground (arith, in_heap-heappush x item cache.transfers_heap)

pub Kept-unshared : (item : TransferCacheItem) → Kept item.cache_key false item
Kept-unshared item = (refl, λ t. absurd cc)

pub CacheIsKept-put :
    (now : ℕ) (item : TransferCacheItem) (cache : TransferCache)
    → CacheIsKept item.cache_key cache
    → CacheIsKept item.cache_key (cache_put now item cache)
unfolding cache_put plain_put
CacheIsKept-put now item cache kept = elim (Bool-cases cache.shared) [
  | inl e ↦ rw e (subst (λ b. Every (Kept item.cache_key b) cache.transfers_heap) e kept)
  | inr e ↦
      let before = subst (λ b. Every (Kept item.cache_key b) cache.transfers_heap) e kept in
      rw e (
        if_both (CacheIsKept item.cache_key) (is_expired now item)
          (record cache { last_used = now; shared = false })
          (record cache {
            last_used = now;
            shared = false;
            transfers_heap = heappush item cache.transfers_heap;
          })
          before
          (Every-heappush (Kept item.cache_key false) item cache.transfers_heap (Kept-unshared item)
            before))
]

pub in_cache-new :
    (x now max_age : ℕ) (item : TransferCacheItem) → in_cache x (new_cache now max_age item) ≡ 0
unfolding in_cache in_heap counts new_cache
in_cache-new x now max_age item = ground arith

pub CacheIsKept-new :
    (now max_age : ℕ) (item : TransferCacheItem)
    → CacheIsKept item.cache_key (new_cache now max_age item)
unfolding new_cache
CacheIsKept-new now max_age item = elim (Bool-cases item.transfer.is_thread_safe) [
  | inl e ↦ rw e ((refl, λ t. refl), tt)
  | inr e ↦ rw e tt
]
