-- ===== src/TransferPool/Moves.antt =====
-- rohmu/transfer_pool.py: what one step of a thread does to the handles, the running blocks and the pool.
use rohmu.Base.{◌+◌, Every, ltb, ◌∷◌, ◌≤◌, ◌≡◌, true, arith, [], suc, false, refl, zero}
use rohmu.TransferPool.Users.{
  Holder, begin_step, reclaim_with, finish_with, at_holder, leave_at, is_idle, test_at, HolderStep,
  begin_with, reclaim_step, finish_step,
}
use rohmu.TransferPool.Steps.{made, pooled-put, created-put, PoolIsKept-put}
use rohmu.TransferPool.Weights.{PoolIsKept, pooled, counts}
use rohmu.TransferPool.{
  TransferPool, ℕ, if◌then◌else◌, List, Bool, reclaim, mark_done, leave_transfer, TransferCacheItem,
}

-- A handle is out of hand once its item has been reclaimed.
unfoldable pub in_hand : ℕ → Holder → ℕ
in_hand x h = if h.handle.done then 0 else if ltb 0 h.reclaimed then 0 else counts x h.handle.item

-- In how many handles, and in how many `with_transfer` blocks, the transfer `x` is.
unfoldable pub held : ℕ → List Holder → ℕ
held x [] = 0
held x (h ∷ hs) = in_hand x h + held x hs

unfoldable pub lent : ℕ → List TransferCacheItem → ℕ
lent x [] = 0
lent x (item ∷ items) = counts x item + lent x items

-- At most one thread returns the handle, and none once it is marked.
abbrev pub Single : Holder → Type 0
Single h = (h.tested + h.reclaimed ≤ 1) × (h.handle.done ≡ true → h.tested + h.reclaimed ≡ 0)

-- What a step on one handle and the pool keeps
abbrev pub Moves : (Holder → Bool) → HolderStep → Type 0
Moves q f =
    (h : Holder) (pool : TransferPool)
    → q h ≡ true
    → Single h
    → Single (f h pool).0
      × ((x : ℕ) → pooled x (f h pool).1 + in_hand x (f h pool).0 ≤ pooled x pool + in_hand x h)
      × ((x : ℕ) → made x (f h pool).1 ≡ made x pool)

pub begin_with-Moves :
    (done : Bool) (h : Holder) (pool : TransferPool)
    → h.handle.done ≡ done
    → is_idle h ≡ true
    → Single h
    → Single (begin_with done h pool).0
      × ((x : ℕ)
          → pooled x (begin_with done h pool).1 + in_hand x (begin_with done h pool).0
            ≤ pooled x pool + in_hand x h)
      × ((x : ℕ) → made x (begin_with done h pool).1 ≡ made x pool)
unfolding begin_with is_idle in_hand
begin_with-Moves true h pool at idle single = (single, λ x. omega arith, λ x. refl)
begin_with-Moves false h pool at idle single =
    ((ground (arith, idle), λ d. absurd (cc (d, at))), λ x. omega arith, λ x. refl)

pub reclaim_with-Moves :
    (now : ℕ) (done : Bool) (n : ℕ) (h : Holder) (pool : TransferPool)
    → h.handle.done ≡ done
    → h.tested ≡ n
    → Single h
    → Single (reclaim_with now done n h pool).0
      × ((x : ℕ)
          → pooled x (reclaim_with now done n h pool).1
              + in_hand x (reclaim_with now done n h pool).0
            ≤ pooled x pool + in_hand x h)
      × ((x : ℕ) → made x (reclaim_with now done n h pool).1 ≡ made x pool)
unfolding reclaim_with reclaim in_hand
reclaim_with-Moves now done zero h pool marked at single = (single, λ x. omega arith, λ x. refl)
reclaim_with-Moves now true (suc n) h pool marked at (one, none_left) =
    absurd (omega (arith, none_left marked, at))
reclaim_with-Moves now false (suc n) h pool marked at (one, none_left) =
    let not_yet : ltb 0 h.reclaimed ≡ false = ground (arith, one, at) in
    (
      (omega (arith, one, at), λ d. absurd (cc (d, marked))),
      λ x. ground (arith, marked, not_yet, pooled-put x now h.handle.item pool),
      λ x. rw (created-put now h.handle.item pool) refl,
    )

pub finish_with-Moves :
    (n : ℕ) (h : Holder) (pool : TransferPool)
    → h.reclaimed ≡ n
    → Single h
    → Single (finish_with n h pool).0
      × ((x : ℕ)
          → pooled x (finish_with n h pool).1 + in_hand x (finish_with n h pool).0
            ≤ pooled x pool + in_hand x h)
      × ((x : ℕ) → made x (finish_with n h pool).1 ≡ made x pool)
unfolding finish_with mark_done in_hand
finish_with-Moves zero h pool at single = (single, λ x. omega arith, λ x. refl)
finish_with-Moves (suc n) h pool at (one, none_left) =
    ((omega (arith, one, at), λ d. omega (arith, one, at)), λ x. omega arith, λ x. refl)

pub at_holder-Moves :
    (q : Holder → Bool) (f : HolderStep) (n : ℕ) (hs : List Holder) (pool : TransferPool)
    → Moves q f
    → test_at q n hs ≡ true
    → Every Single hs
    → Every Single (at_holder f n hs pool).0
      × ((x : ℕ)
          → pooled x (at_holder f n hs pool).1 + held x (at_holder f n hs pool).0
            ≤ pooled x pool + held x hs)
      × ((x : ℕ) → made x (at_holder f n hs pool).1 ≡ made x pool)
unfolding at_holder test_at held
at_holder-Moves q f n [] pool moves test single = (tt, λ x. omega arith, λ x. refl)
at_holder-Moves q f zero (h ∷ hs) pool moves test (one, others) =
    let (after, le, eq) = moves h pool test one in ((after, others), λ x. omega (arith, le x), eq)
at_holder-Moves q f (suc n) (h ∷ hs) pool moves test (one, others) =
    let (after, le, eq) = at_holder-Moves q f n hs pool moves test others in
    ((one, after), λ x. omega (arith, le x), eq)

pub leave_at-lent :
    (now n x : ℕ) (items : List TransferCacheItem) (pool : TransferPool)
    → (pooled x (leave_at now n items pool).1 + lent x (leave_at now n items pool).0
        ≤ pooled x pool + lent x items)
      × (made x (leave_at now n items pool).1 ≡ made x pool)
unfolding leave_at leave_transfer lent
leave_at-lent now n x [] pool = (omega arith, refl)
leave_at-lent now zero x (item ∷ items) pool =
    (omega (arith, pooled-put x now item pool), rw (created-put now item pool) refl)
leave_at-lent now (suc n) x (item ∷ items) pool =
    let (le, eq) = leave_at-lent now n x items pool in (omega (arith, le), eq)

-- The caches hold what belongs in them, whatever the threads do.
abbrev pub KeepsPool : HolderStep → Type 0
KeepsPool f = (h : Holder) (pool : TransferPool) → PoolIsKept pool → PoolIsKept (f h pool).1

pub begin_step-KeepsPool : KeepsPool begin_step
unfolding begin_step begin_with
begin_step-KeepsPool h pool kept = begun h.handle.done h pool kept
  where
    begun :
        (done : Bool) (h : Holder) (pool : TransferPool)
        → PoolIsKept pool
        → PoolIsKept (begin_with done h pool).1
    begun true h pool kept = kept
    begun false h pool kept = kept

pub reclaim_step-KeepsPool : (now : ℕ) → KeepsPool (reclaim_step now)
unfolding reclaim_step reclaim_with reclaim
reclaim_step-KeepsPool now h pool kept = reclaimed now h.handle.done h.tested h pool kept
  where
    reclaimed :
        (now : ℕ) (done : Bool) (n : ℕ) (h : Holder) (pool : TransferPool)
        → PoolIsKept pool
        → PoolIsKept (reclaim_with now done n h pool).1
    reclaimed now done zero h pool kept = kept
    reclaimed now true (suc n) h pool kept = kept
    reclaimed now false (suc n) h pool kept = PoolIsKept-put now h.handle.item pool kept

pub finish_step-KeepsPool : KeepsPool finish_step
unfolding finish_step finish_with
finish_step-KeepsPool h pool kept = finished h.reclaimed h pool kept
  where
    finished :
        (n : ℕ) (h : Holder) (pool : TransferPool)
        → PoolIsKept pool
        → PoolIsKept (finish_with n h pool).1
    finished zero h pool kept = kept
    finished (suc n) h pool kept = kept

pub PoolIsKept-at_holder :
    (f : HolderStep) (n : ℕ) (hs : List Holder) (pool : TransferPool)
    → KeepsPool f
    → PoolIsKept pool
    → PoolIsKept (at_holder f n hs pool).1
unfolding at_holder
PoolIsKept-at_holder f n [] pool keeps kept = kept
PoolIsKept-at_holder f zero (h ∷ hs) pool keeps kept = keeps h pool kept
PoolIsKept-at_holder f (suc n) (h ∷ hs) pool keeps kept =
    PoolIsKept-at_holder f n hs pool keeps kept

pub PoolIsKept-leave_at :
    (now n : ℕ) (items : List TransferCacheItem) (pool : TransferPool)
    → PoolIsKept pool
    → PoolIsKept (leave_at now n items pool).1
unfolding leave_at leave_transfer
PoolIsKept-leave_at now n [] pool kept = kept
PoolIsKept-leave_at now zero (item ∷ items) pool kept = PoolIsKept-put now item pool kept
PoolIsKept-leave_at now (suc n) (item ∷ items) pool kept = PoolIsKept-leave_at now n items pool kept
