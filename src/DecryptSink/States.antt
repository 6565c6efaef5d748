-- ===== src/DecryptSink/States.antt =====
-- Where a decrypting sink stands after it has been given the first bytes of a sealed file.
use rohmu.Base.{
  Bytes, ℕ, pos, length, Outcome, if◌then◌else◌, [], ◌<◌, ◌≡◌, None, is_empty, ok, pure, ◌++◌, sym,
  append-nil, ◌∷◌, refl,
}
use rohmu.Crypto.{Crypto, Random}
use rohmu.Encryptor.Seal.{ciphertext, tag, header, seal}
use rohmu.Decryptor.{Decryptor, new_decryptor}
use rohmu.Sink.{Output, no_hook}
use rohmu.Sink.Delivery.{Delivers, Sent, write_to_next_sink-Sent}
use rohmu.DecryptSink.{DecryptSink, forward, Bytes}
use rohmu.DecryptSink.Keys.{key_len, preamble, keyed, ready, spent, decrypted}

module _ (C : Crypto) (N : Output) (r : Random) (plain : Bytes) where
  abbrev pub crypted : Bytes
  crypted = ciphertext C r plain

  abbrev pub footer_bytes : Bytes
  footer_bytes = tag C r crypted

  abbrev pub sealed_size : ℕ
  sealed_size = length (seal C r plain)

  -- Before the preamble is complete: the bytes of it wait in `header`.
  abbrev pub starting_state : N.State → Bytes → DecryptSink C N
  starting_state next p = record {
    next_sink = next;
    data_bytes_received = 0;
    data_size = pos sealed_size;
    decryptor = new_decryptor C;
    file_size = sealed_size;
    footer = [];
    header = p;
  }

  -- Before the encrypted keys are complete.
  abbrev pub keyed_state : N.State → Bytes → DecryptSink C N
  keyed_state next p = record (starting_state next p) { decryptor = keyed C r }

  -- Behind the header: `e` is the ciphertext so far, and `f` the footer so far.
  abbrev pub flowing_state : N.State → Bytes → Bytes → Decryptor C → DecryptSink C N
  flowing_state next e f d = record {
    next_sink = next;
    data_bytes_received = length e;
    data_size = pos (length crypted);
    decryptor = d;
    file_size = sealed_size;
    footer = f;
    header = [];
  }

  -- The bytes `p` of the file have been given to the sink, and `out` is what the next sink has.
  pub data At (D : Delivers N) (base : Bytes) (p : Bytes) (s : DecryptSink C N) : Type 0 where
    starting :
        (next : N.State)
        → length p < 8
        → D.received next ≡ base
        → s ≡ starting_state next p
        → At D base p s
    keys :
        (next : N.State) (y : Bytes)
        → length y < key_len C r
        → D.received next ≡ base
        → p ≡ preamble C r ++ y
        → s ≡ keyed_state next y
        → At D base p s
    flowing :
        (next : N.State) (e f to_come left : Bytes)
        → e ++ to_come ≡ crypted
        → f ++ left ≡ footer_bytes
        → (0 < length f → to_come ≡ [])
        → 0 < length left
        → D.received next ≡ base ++ decrypted C r e
        → p ≡ (header C r ++ e) ++ f
        → s ≡ flowing_state next e f (ready C r e)
        → At D base p s
    done :
        (next : N.State)
        → D.received next ≡ base ++ decrypted C r crypted
        → p ≡ seal C r plain
        → s ≡ flowing_state next crypted footer_bytes (spent C r)
        → At D base p s

  -- What a call of the sink comes to that is given the bytes behind which `p` has been given.
  pub record Arrives (D : Delivers N) (base : Bytes) (p : Bytes) {A : Type 0} (value : A)
      (o : Outcome A × DecryptSink C N) : Type 0 where
    pub after : DecryptSink C N
    pub returns : o ≡ (ok value, after)
    pub at : At D base p after

-- The plain bytes are handed on, if there are any.
pub record Forwards {C : Crypto} {N : Output} (D : Delivers N) (bytes : Bytes) (s : DecryptSink C N)
    (o : Outcome None × DecryptSink C N) : Type 0 where
  pub next : N.State
  pub returns : o ≡ (ok tt, record s { next_sink = next })
  pub delivered : D.received next ≡ D.received s.next_sink ++ bytes

pub forward-Forwards :
    (C : Crypto) (N : Output) (D : Delivers N) (bytes : Bytes) (s : DecryptSink C N)
    → Forwards D bytes s ((if is_empty bytes then pure tt else forward C N bytes) s)
unfolding forward
forward-Forwards C N D [] s = record {
  next = s.next_sink;
  returns = refl;
  delivered = sym (append-nil _);
}
forward-Forwards C N D (b ∷ bs) s =
    let w : Sent N no_hook D (b ∷ bs) s.next_sink _ =
      write_to_next_sink-Sent N no_hook D (b ∷ bs) tt s.next_sink in
    record { next = w.sent_state; returns = rw w.completes; delivered = w.delivered }
