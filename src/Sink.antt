-- ===== src/Sink.antt =====
-- rohmu/filewrap.py: `Sink` and `ThrottleSink`, which push bytes on to a next sink.
pub mod Delivery
pub mod Throttle
use rohmu.Base.{
  ℕ, zero, suc, ◌+◌, ◌-◌, ◌*◌, Bytes, length, drop, ltb, ◌&&◌, if◌then◌else◌, Outcome, ok, err,
  diverge, Method, None,
}

-- `HasWrite`: an object with a `write` that says how many bytes it has taken.
pub record Output : Type 1 where
  pub State : Type 0
  pub write : Bytes → State → Outcome ℕ × State

module _ (N : Output) {H : Type 0} (data_written : ℕ → ℕ → H → H) where
  -- The rest of one round of the loop: what `next_sink.write` returned, and the state that it left.
  -- A count of bytes pending below 0 is told to `_data_written` as 0.
  after_write :
      (ℕ → H → N.State → Outcome None × (H × N.State))
      → Bytes
      → ℕ
      → H
      → Outcome ℕ × N.State
      → Outcome None × (H × N.State)
  after_write next buf offset h (ok n, s) =
      next (offset + n) (data_written n (length buf - (offset + n)) h) s
  after_write next buf offset h (err e, s) = (err e, (h, s))
  after_write next buf offset h (diverge, s) = (diverge, (h, s))

  -- `while offset < len(data)`, for at most `fuel` rounds.
  pub push : ℕ → Bytes → ℕ → H → N.State → Outcome None × (H × N.State)
  unfolding after_write
  push zero buf offset h s = if ltb offset (length buf) then (diverge, (h, s)) else (ok tt, (h, s))
  push (suc fuel) buf offset h s =
      let round = after_write (push fuel buf) buf offset h (N.write (drop offset buf) s) in
      if ltb offset (length buf) then round else (ok tt, (h, s))

  -- A round that takes no byte is the only one that makes no progress, so that `len(data)` rounds
  -- are enough for every sink that takes a byte in each.
  unfoldable pub write_to_next_sink : Bytes → Method (H × N.State) None
  unfolding push
  write_to_next_sink buf (h, s) = push (length buf) buf 0 h s

  -- `Sink.write`
  returning_length : Bytes → Outcome None × (H × N.State) → Outcome ℕ × (H × N.State)
  returning_length buf (ok _, s) = (ok (length buf), s)
  returning_length buf (err e, s) = (err e, s)
  returning_length buf (diverge, s) = (diverge, s)

  unfoldable pub sink_write : Bytes → Method (H × N.State) ℕ
  unfolding returning_length
  sink_write buf s = returning_length buf (write_to_next_sink buf s)

-- `Sink._data_written`, which does nothing.
abbrev pub no_hook : ℕ → ℕ → None → None
no_hook written pending h = h

-- `ThrottleSink._data_written`. The state counts the calls of `sleep_fn`.
unfoldable pub throttle_data_written : ℕ → ℕ → ℕ → ℕ
throttle_data_written written pending sleeps =
    if ltb 0 pending && ltb written (10 * 1024) then sleeps + 1 else sleeps

-- A sink in front of another is an output again.
abbrev pub plain_sink : Output → Output
plain_sink N = record { State = None × N.State; write = sink_write N no_hook }

abbrev pub throttle_sink : Output → Output
throttle_sink N = record { State = ℕ × N.State; write = sink_write N throttle_data_written }
