-- ===== src/Sink/Delivery.antt =====
-- A sink hands on every byte, in order, whatever short counts the next sink returns.
use rohmu.Base.{
  ℕ, zero, suc, ◌+◌, ◌-◌, ◌≤◌, ◌<◌, ◌≡◌, ap, ◌∙◌, inl, inr, Bytes, length, take, drop, ◌++◌, ltb,
  Bool-cases, ltb→lt, ltb→ge, Outcome, ok, None, arith, drop_all, length-drop, ge→ltb, take_all,
  sym, append-nil, append_assoc, take-drop-append,
}
use rohmu.Sink.{
  Output, push, after_write, write_to_next_sink, sink_write, throttle_sink, throttle_data_written,
}

-- What one call of `write` does with bytes `d`: it takes `count` of them, at least one.
pub record Accepts (N : Output) (received : N.State → Bytes) (d : Bytes) (s : N.State)
    : Type 0 where
  pub count : ℕ
  pub after : N.State
  pub returns : N.write d s ≡ (ok count, after)
  pub progress : 0 < count
  pub within : count ≤ length d
  pub appended : received after ≡ received s ++ take count d

-- The promise of a raw output: it never fails and takes a nonempty part of what it is given.
pub record Delivers (N : Output) : Type 0 where
  pub received : N.State → Bytes
  pub accepts : (d : Bytes) (s : N.State) → 0 < length d → Accepts N received d s

module _ (N : Output) {H : Type 0} (hook : ℕ → ℕ → H → H) (D : Delivers N) where
  -- What a whole transfer of `d` from `s` comes to.
  pub record Sent (d : Bytes) (s : N.State) (r : Outcome None × (H × N.State)) : Type 0 where
    pub sent_hook : H
    pub sent_state : N.State
    pub completes : r ≡ (ok tt, (sent_hook, sent_state))
    pub delivered : D.received sent_state ≡ D.received s ++ d

  -- From `offset` on, enough rounds send all that is left of the buffer.
  push-Sent :
      (fuel : ℕ) (buf : Bytes) (offset : ℕ) (h : H) (s : N.State)
      → length buf ≤ offset + fuel
      → Sent (drop offset buf) s (push N hook fuel buf offset h s)
  unfolding push after_write
  push-Sent zero buf offset h s enough = record {
    sent_hook = h;
    sent_state = s;
    completes = rw (ge→ltb offset (length buf) (omega arith));
    delivered = rw (drop_all offset buf (omega arith)) (sym (append-nil (D.received s)));
  }
  push-Sent (suc fuel) buf offset h s enough = elim (Bool-cases (ltb offset (length buf))) [
    | inr done ↦ record {
      sent_hook = h;
      sent_state = s;
      completes = rw done;
      delivered =
          rw (drop_all offset buf (ltb→ge offset (length buf) done))
            (sym (append-nil (D.received s)));
    }
    | inl more ↦
        let a : Accepts N D.received (drop offset buf) s =
          D.accepts (drop offset buf) s
            (omega (arith, length-drop offset buf, ltb→lt offset (length buf) more)) in
        let ih : Sent (drop (offset + a.count) buf) a.after _ =
          push-Sent fuel buf (offset + a.count) (hook a.count (length buf - (offset + a.count)) h)
            a.after (omega (arith, a.progress)) in
        record {
          sent_hook = ih.sent_hook;
          sent_state = ih.sent_state;
          completes = rw (more, a.returns) ih.completes;
          delivered =
              ih.delivered
              ∙ rw a.appended (
                  append_assoc (D.received s) (take a.count (drop offset buf))
                    (drop (offset + a.count) buf)
                  ∙ ap (λ t. D.received s ++ t) (take-drop-append a.count offset buf));
        }
  ]

  -- Over a next sink that never raises and takes a byte at least of what it is given, `_write_to_next_sink`
  -- returns, and the next sink has the whole buffer behind what it had.
  pub write_to_next_sink-Sent :
      (buf : Bytes) (h : H) (s : N.State) → Sent buf s (write_to_next_sink N hook buf (h, s))
  unfolding write_to_next_sink
  write_to_next_sink-Sent buf h s = push-Sent (length buf) buf 0 h s (omega arith)

  -- `Sink.write` takes all that it is given, so that it is an output that delivers.
  sink_write-Accepts :
      (buf : Bytes) (s : H × N.State)
      → 0 < length buf
      → Accepts
          (record { State = H × N.State; write = sink_write N hook })
          (λ t. D.received t.1)
          buf
          s
  unfolding sink_write
  sink_write-Accepts buf (h, s) nonempty =
      let w : Sent buf s _ = write_to_next_sink-Sent buf h s in
      record {
        count = length buf;
        after = (w.sent_hook, w.sent_state);
        returns = rw w.completes;
        progress = nonempty;
        within = omega arith;
        appended = rw (take_all (length buf) buf (omega arith)) w.delivered;
      }

  pub sink-Delivers : Delivers (record { State = H × N.State; write = sink_write N hook })
  sink-Delivers = record { received = λ t. D.received t.1; accepts = sink_write-Accepts }

-- A whole pipeline of plain and throttling sinks delivers what its last output delivers.
pub throttle_sink-Delivers : (N : Output) → Delivers N → Delivers (throttle_sink N)
throttle_sink-Delivers N D = sink-Delivers N throttle_data_written D
