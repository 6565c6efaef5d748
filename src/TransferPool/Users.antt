-- ===== src/TransferPool/Users.antt =====
-- rohmu/transfer_pool.py: the threads that use a pool, one step after the other.
use rohmu.Base.{
  ℕ, List, ◌∷◌, Outcome, Bool, suc, true, ◌==◌, ◌≡◌, ok, [], ◌&&◌, err, zero, diverge, false,
}
use rohmu.TransferPool.{
  TransferPool, SafeTransfer, TransferCacheItem, Factory, reclaim, mark_done, leave_transfer,
  get_transfer, new_pool, enter_transfer,
}

-- A handle, how many threads have found it not returned and have not reclaimed its item yet, and how many
-- have reclaimed it and have not set `_done` yet.
pub record Holder : Type 0 where
  pub handle : SafeTransfer
  pub tested : ℕ
  pub reclaimed : ℕ

-- A pool, the handles that have been got from it, the last one first, and the items of the `with_transfer`
-- blocks that are running.
pub record World : Type 0 where
  pub pool : TransferPool
  pub holders : List Holder
  pub bodies : List TransferCacheItem

-- What the threads do, some of it at a reading of the clock: they get a handle; they begin to return the
-- handle at a position, reclaim its item and mark it; they enter a `with_transfer` block, and leave the one
-- at a position.
pub data Event {ℓ} (Config : Type ℓ) : Type ℓ where
  acquire enter : ℕ → Config → Event Config
  begin_return finish_return : ℕ → Event Config
  reclaim_item leave : ℕ → ℕ → Event Config

abbrev pub HolderStep : Type 0
HolderStep = Holder → TransferPool → Holder × TransferPool

-- `if self._done: return`
unfoldable pub begin_with : Bool → HolderStep
begin_with true h pool = (h, pool)
begin_with false h pool = (record h { tested = suc h.tested }, pool)

unfoldable pub begin_step : HolderStep
begin_step h pool = begin_with h.handle.done h pool

-- A thread that is not there does nothing. One that comes behind the mark finds the item deleted, and ends with
-- an AttributeError.
unfoldable pub reclaim_with : ℕ → Bool → ℕ → HolderStep
reclaim_with now done zero h pool = (h, pool)
reclaim_with now true (suc n) h pool = (record h { tested = n }, pool)
reclaim_with now false (suc n) h pool =
    (record h { tested = n; reclaimed = suc h.reclaimed }, reclaim now h.handle pool)

unfoldable pub reclaim_step : ℕ → HolderStep
reclaim_step now h pool = reclaim_with now h.handle.done h.tested h pool

unfoldable pub finish_with : ℕ → HolderStep
finish_with zero h pool = (h, pool)
finish_with (suc n) h pool = (record h { handle = mark_done h.handle; reclaimed = n }, pool)

unfoldable pub finish_step : HolderStep
finish_step h pool = finish_with h.reclaimed h pool

unfoldable pub at_holder : HolderStep → ℕ → List Holder → TransferPool → List Holder × TransferPool
at_holder f n [] pool = ([], pool)
at_holder f zero (h ∷ hs) pool = let (after, used) = f h pool in (after ∷ hs, used)
at_holder f (suc n) (h ∷ hs) pool = let (rest, used) = at_holder f n hs pool in (h ∷ rest, used)

unfoldable pub leave_at :
    ℕ → ℕ → List TransferCacheItem → TransferPool → List TransferCacheItem × TransferPool
leave_at now n [] pool = ([], pool)
leave_at now zero (item ∷ items) pool = (items, leave_transfer now item pool)
leave_at now (suc n) (item ∷ items) pool =
    let (rest, used) = leave_at now n items pool in (item ∷ rest, used)

unfoldable pub with_handle : Outcome SafeTransfer → List Holder → List Holder
with_handle (ok handle) holders = record { handle = handle; tested = 0; reclaimed = 0 } ∷ holders
with_handle (err e) holders = holders
with_handle diverge holders = holders

unfoldable pub with_body :
    Outcome TransferCacheItem → List TransferCacheItem → List TransferCacheItem
with_body (ok item) items = item ∷ items
with_body (err e) items = items
with_body diverge items = items

unfoldable pub holders_step : HolderStep → ℕ → World → World
holders_step f n world =
    let (holders, after) = at_holder f n world.holders world.pool in
    record world { pool = after; holders = holders }

module _ {ℓ} {Config : Type ℓ} (F : Factory Config) where
  unfoldable pub step : Event Config → World → World
  step (acquire now config) world =
      let (result, after) = get_transfer F now config world.pool in
      record world { pool = after; holders = with_handle result world.holders }
  step (enter now config) world =
      let (result, after) = enter_transfer F now config world.pool in
      record world { pool = after; bodies = with_body result world.bodies }
  step (begin_return n) world = holders_step begin_step n world
  step (reclaim_item now n) world = holders_step (reclaim_step now) n world
  step (finish_return n) world = holders_step finish_step n world
  step (leave now n) world =
      let (bodies, after) = leave_at now n world.bodies world.pool in
      record world { pool = after; bodies = bodies }

  unfoldable pub run : List (Event Config) → World → World
  run [] world = world
  run (event ∷ events) world = run events (step event world)

  abbrev pub start : ℕ → ℕ → World
  start pool_age transfer_age = record {
    pool = new_pool pool_age transfer_age;
    holders = [];
    bodies = [];
  }

unfoldable pub test_at : (Holder → Bool) → ℕ → List Holder → Bool
test_at q n [] = true
test_at q zero (h ∷ hs) = q h
test_at q (suc n) (h ∷ hs) = test_at q n hs

-- No thread is returning the handle.
unfoldable pub is_idle : Holder → Bool
is_idle h = h.tested == 0 && h.reclaimed == 0

unfoldable pub alone {ℓ} : {Config : Type ℓ} → Event Config → World → Bool
alone (begin_return n) world = test_at is_idle n world.holders
alone other world = true

-- No thread begins to return a handle while another one is returning it.
abbrev pub ReturnsAlone {ℓ} :
    {Config : Type ℓ} → Factory Config → List (Event Config) → World → Type 0
ReturnsAlone F [] world = Unit
ReturnsAlone F (event ∷ events) world =
    (alone event world ≡ true) × ReturnsAlone F events (step F event world)
