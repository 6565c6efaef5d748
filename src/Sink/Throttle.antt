-- ===== src/Sink/Throttle.antt =====
-- When `ThrottleSink` sleeps, and what a next sink that takes nothing does to the loop.
use rohmu.Base.{
  ◌<◌, ◌≡◌, length, ok, ◌∷◌, diverge, lt→ltb, suc, [], ◌+◌, arith, zero, ◌≤◌, ◌-◌, ge→ltb,
}
use rohmu.Sink.{
  Output, push, after_write, write_to_next_sink, sink_write, throttle_sink, throttle_data_written,
  Bytes, ℕ,
}

module _ (N : Output) where
  push_done :
      (fuel : ℕ) (buf : Bytes) (offset sleeps : ℕ) (s : N.State)
      → length buf ≤ offset
      → push N throttle_data_written fuel buf offset sleeps s ≡ (ok tt, (sleeps, s))
  unfolding push
  push_done zero buf offset sleeps s h = rw (ge→ltb offset (length buf) h)
  push_done (suc fuel) buf offset sleeps s h = rw (ge→ltb offset (length buf) h)

  awake : (n sleeps : ℕ) → throttle_data_written n (n - (0 + n)) sleeps ≡ sleeps
  unfolding throttle_data_written
  awake n sleeps = ground arith

  -- In front of a sink that takes whatever it is given in one call, a throttling sink makes one
  -- call with the whole buffer and never sleeps.
  pub throttle_sink_whole :
      (buf : Bytes) (sleeps : ℕ) (s t : N.State)
      → 0 < length buf
      → N.write buf s ≡ (ok (length buf), t)
      → (throttle_sink N).write buf (sleeps, s) ≡ (ok (length buf), (sleeps, t))
  unfolding sink_write write_to_next_sink push after_write
  throttle_sink_whole [] sleeps s t nonempty taken = elim nonempty [ ]
  throttle_sink_whole (x ∷ xs) sleeps s t nonempty taken = rw (
    lt→ltb 0 (suc (length xs)) (omega arith),
    taken,
    awake (suc (length xs)) sleeps,
    push_done (length xs) (x ∷ xs) (0 + suc (length xs)) sleeps t (omega arith),
  )

  -- A next sink that always takes 0 bytes keeps the loop from ever returning: however many rounds
  -- are made, from any offset before the end of the buffer, it is still running.
  pub push_stuck :
      ((d : Bytes) (s : N.State) → N.write d s ≡ (ok 0, s))
      → (fuel : ℕ) (buf : Bytes) (offset sleeps : ℕ) (s : N.State) → offset < length buf
      → (push N throttle_data_written fuel buf offset sleeps s).0 ≡ diverge
  unfolding push after_write
  push_stuck refuses zero buf offset sleeps s h = rw (lt→ltb offset (length buf) h)
  push_stuck refuses (suc fuel) buf offset sleeps s h =
      rw (lt→ltb offset (length buf) h, refuses)
        (push_stuck refuses fuel buf (offset + 0) _ s (omega arith))
