-- ===== src/TransferPool/Exclusive.antt =====
-- rohmu/transfer_pool.py: no transfer that is not thread safe is in two hands.
use rohmu.Base.{
  ◌≡◌, sum_values, Every, ◌≤◌, resume, ◌+◌, true, ◌∷◌, ok, arith, pure, err, suc, [], false, refl,
  diverge, zero,
}
use rohmu.TransferPool.Steps.{made, got, PoolIsKept-get, pooled-get}
use rohmu.TransferPool.Weights.{PoolIsKept, pooled}
use rohmu.TransferPool.Moves.{
  held, lent, in_hand, Single, Moves, KeepsPool, at_holder-Moves, PoolIsKept-at_holder,
  begin_step-KeepsPool, begin_with-Moves, reclaim_step-KeepsPool, reclaim_with-Moves,
  finish_step-KeepsPool, finish_with-Moves, PoolIsKept-leave_at, leave_at-lent,
}
use rohmu.TransferPool.Users.{
  World, with_handle, holders_step, Holder, test_at, step, run, with_body, Event, HolderStep, start,
  ReturnsAlone, alone, acquire, begin_step, reclaim_step, finish_step, enter, begin_return, is_idle,
  reclaim_item, finish_return, leave,
}
use rohmu.TransferPool.{
  TransferPool, Factory, ℕ, Outcome, List, TransferCacheItem, SafeTransfer, Bool, get_transfer,
  enter_transfer, get,
}

abbrev Inv : World → Type 0
Inv world =
    PoolIsKept world.pool
    × Every Single world.holders
    × ((x : ℕ)
        → pooled x world.pool + held x world.holders + lent x world.bodies ≤ made x world.pool)

made_one : (x : ℕ) (pool : TransferPool) → made x pool ≤ 1
made_one x pool = ground arith

-- What `get_transfer` adds to the handles, from what `_get` gives.
handles_of : Outcome TransferCacheItem × TransferPool → Outcome SafeTransfer × TransferPool
handles_of r = resume r.0 (λ item. pure (record { item = item; done = false })) r.1

held-handles_of :
    (x : ℕ) (r : Outcome TransferCacheItem × TransferPool) (hs : List Holder)
    → held x (with_handle (handles_of r).0 hs) ≡ got x r.0 + held x hs
unfolding held with_handle handles_of got in_hand
held-handles_of x (ok item, pool) hs = refl
held-handles_of x (err e, pool) hs = omega arith
held-handles_of x (diverge, pool) hs = omega arith

Single-handles_of :
    (result : Outcome SafeTransfer) (hs : List Holder)
    → Every Single hs
    → Every Single (with_handle result hs)
unfolding with_handle
Single-handles_of (ok handle) hs single = ((omega arith, λ d. refl), single)
Single-handles_of (err e) hs single = single
Single-handles_of diverge hs single = single

pool-handles_of : (r : Outcome TransferCacheItem × TransferPool) → (handles_of r).1 ≡ r.1
unfolding handles_of
pool-handles_of (ok item, pool) = refl
pool-handles_of (err e, pool) = refl
pool-handles_of (diverge, pool) = refl

lent-with_body :
    (x : ℕ) (result : Outcome TransferCacheItem) (items : List TransferCacheItem)
    → lent x (with_body result items) ≡ got x result + lent x items
unfolding lent with_body got
lent-with_body x (ok item) items = refl
lent-with_body x (err e) items = omega arith
lent-with_body x diverge items = omega arith

Inv-holders_step :
    (q : Holder → Bool) (f : HolderStep) (n : ℕ) (world : World)
    → Moves q f
    → KeepsPool f
    → test_at q n world.holders ≡ true
    → Inv world
    → Inv (holders_step f n world)
unfolding holders_step
Inv-holders_step q f n world moves keeps test (kept, single, le) =
    let (after, less, eq) = at_holder-Moves q f n world.holders world.pool moves test single in
    (
      PoolIsKept-at_holder f n world.holders world.pool keeps kept,
      after,
      λ x. omega (arith, less x, eq x, le x),
    )

always : Holder → Bool
always h = true

test_at-always : (n : ℕ) (hs : List Holder) → test_at always n hs ≡ true
unfolding test_at always
test_at-always n [] = refl
test_at-always zero (h ∷ hs) = refl
test_at-always (suc n) (h ∷ hs) = test_at-always n hs

module _ {ℓ} {Config : Type ℓ} (F : Factory Config) where
  PoolIsKept-step :
      (event : Event Config) (world : World)
      → PoolIsKept world.pool
      → PoolIsKept (step F event world).pool
  unfolding step get_transfer enter_transfer handles_of holders_step
  PoolIsKept-step (acquire now config) world kept =
      rw (pool-handles_of (get F now config world.pool))
        (PoolIsKept-get F now config world.pool kept)
  PoolIsKept-step (enter now config) world kept = PoolIsKept-get F now config world.pool kept
  PoolIsKept-step (begin_return n) world kept =
      PoolIsKept-at_holder begin_step n world.holders world.pool begin_step-KeepsPool kept
  PoolIsKept-step (reclaim_item now n) world kept =
      PoolIsKept-at_holder (reclaim_step now) n world.holders world.pool
        (reclaim_step-KeepsPool now) kept
  PoolIsKept-step (finish_return n) world kept =
      PoolIsKept-at_holder finish_step n world.holders world.pool finish_step-KeepsPool kept
  PoolIsKept-step (leave now n) world kept = PoolIsKept-leave_at now n world.bodies world.pool kept

  PoolIsKept-run :
      (events : List (Event Config)) (world : World)
      → PoolIsKept world.pool
      → PoolIsKept (run F events world).pool
  unfolding run
  PoolIsKept-run [] world kept = kept
  PoolIsKept-run (event ∷ events) world kept =
      PoolIsKept-run events (step F event world) (PoolIsKept-step event world kept)

  pub run-PoolIsKept :
      (events : List (Event Config)) (pool_age transfer_age : ℕ)
      → PoolIsKept (run F events (start F pool_age transfer_age)).pool
  run-PoolIsKept events pool_age transfer_age =
      PoolIsKept-run events (start F pool_age transfer_age) tt

  Inv-step :
      (event : Event Config) (world : World)
      → alone event world ≡ true
      → Inv world
      → Inv (step F event world)
  unfolding step get_transfer enter_transfer handles_of alone begin_step reclaim_step finish_step
      always
  Inv-step (acquire now config) world test (kept, single, le) =
      rw (pool-handles_of (get F now config world.pool)) (
        PoolIsKept-get F now config world.pool kept,
        Single-handles_of (handles_of (get F now config world.pool)).0 world.holders single,
        λ x. omega (
          arith,
          le x,
          pooled-get F x now config world.pool kept,
          held-handles_of x (get F now config world.pool) world.holders,
        ),
      )
  Inv-step (enter now config) world test (kept, single, le) = (
    PoolIsKept-get F now config world.pool kept,
    single,
    λ x. omega (
      arith,
      le x,
      pooled-get F x now config world.pool kept,
      lent-with_body x (get F now config world.pool).0 world.bodies,
    ),
  )
  Inv-step (begin_return n) world test inv =
      Inv-holders_step is_idle begin_step n world
        (λ h pool idle single. begin_with-Moves h.handle.done h pool refl idle single)
        begin_step-KeepsPool test inv
  Inv-step (reclaim_item now n) world test inv =
      Inv-holders_step always (reclaim_step now) n world
        (λ h pool any single. reclaim_with-Moves now h.handle.done h.tested h pool refl refl single)
        (reclaim_step-KeepsPool now) (test_at-always n world.holders) inv
  Inv-step (finish_return n) world test inv =
      Inv-holders_step always finish_step n world
        (λ h pool any single. finish_with-Moves h.reclaimed h pool refl single)
        finish_step-KeepsPool (test_at-always n world.holders) inv
  Inv-step (leave now n) world test (kept, single, le) = (
    PoolIsKept-leave_at now n world.bodies world.pool kept,
    single,
    λ x.
        let (less, eq) = leave_at-lent now n x world.bodies world.pool in
        omega (arith, less, eq, le x),
  )

  Inv-run :
      (events : List (Event Config)) (world : World)
      → ReturnsAlone F events world
      → Inv world
      → Inv (run F events world)
  unfolding run
  Inv-run [] world alone_each inv = inv
  Inv-run (event ∷ events) world (test, others) inv =
      Inv-run events (step F event world) others (Inv-step event world test inv)

  Inv-start : (pool_age transfer_age : ℕ) → Inv (start F pool_age transfer_age)
  unfolding held lent sum_values
  Inv-start pool_age transfer_age = (tt, tt, λ x. omega arith)

  -- Whatever the threads do that use a pool from the start, in whatever order, as long as none begins to
  -- return a handle while another one is returning it: a transfer that is not thread safe stands at most
  -- once in the caches of the pool, the handles that have not been reclaimed and the `with_transfer` blocks
  -- that are running, together.
  pub exclusive :
      (events : List (Event Config)) (pool_age transfer_age x : ℕ)
      → ReturnsAlone F events (start F pool_age transfer_age)
      → let world = run F events (start F pool_age transfer_age) in
        pooled x world.pool + held x world.holders + lent x world.bodies ≤ 1
  exclusive events pool_age transfer_age x alone_each =
      let world = run F events (start F pool_age transfer_age) in
      let (kept, single, le) =
        Inv-run events (start F pool_age transfer_age) alone_each
          (Inv-start pool_age transfer_age) in
      omega (arith, le x, made_one x world.pool)
