-- ===== src/DecryptSink.antt =====
-- rohmu/encryptor.py: `DecryptSink`, which decrypts the file that is pushed through it.
pub mod Keys
pub mod States
pub mod Body
pub mod Header
pub mod Feed
use rohmu.Base.{
  ℕ, ℤ, Method, Bytes, Outcome, ◌-ℕ◌, Option, ok, None, if◌then◌else◌, negsuc, ◌>>=◌, err, below,
  ltb, pos, [], ◌∷◌, ◌+◌, length, pure, ◌>>◌, value_error, slice_to, diverge, ◌==◌, is_empty, some,
  ◌++◌, drop, suc, slice_from, slice, none, zero,
}
use rohmu.Crypto.{Crypto}
use rohmu.Decryptor.{
  Decryptor, new_decryptor, expected_header_bytes, get_header_size, process_header, process_data,
  finalize, footer_size,
}
use rohmu.Sink.{Output, write_to_next_sink, no_hook}

module _ (C : Crypto) (N : Output) where
  pub record DecryptSink : Type 0 where
    pub next_sink : N.State
    pub data_bytes_received : ℕ
    pub data_size : ℤ
    pub decryptor : Decryptor C
    pub file_size : ℕ
    pub footer : Bytes
    pub header : Bytes

  -- `DecryptSink.__init__`
  unfoldable pub new_decrypt_sink : ℤ → N.State → Outcome DecryptSink
  new_decrypt_sink (negsuc n) next = err value_error
  new_decrypt_sink (pos n) next = ok (record {
    next_sink = next;
    data_bytes_received = 0;
    data_size = pos n;
    decryptor = new_decryptor C;
    file_size = n;
    footer = [];
    header = [];
  })

  -- A method of the decryptor, called by the sink.
  pub with_decryptor : {A : Type 0} → Method (Decryptor C) A → Method DecryptSink A
  with_decryptor m s = let r = m s.decryptor in (r.0, record s { decryptor = r.1 })

  -- `data_size - data_bytes_received` may fall below 0 when the file size was wrong, and the slices
  -- then count from the end.
  pub extract_footer : Bytes → Method DecryptSink Bytes
  extract_footer bytes s =
      let expected = s.data_size -ℕ s.data_bytes_received in
      if below expected (length bytes)
      then (
        ok (slice_to expected bytes),
        record s { footer = s.footer ++ slice_from expected bytes },
      )
      else (ok bytes, s)

  -- The loop of `_process_encryption_header`: the offset behind the header, or nothing if there are
  -- bytes of it to come. Two rounds are all that a header takes.
  pub header_loop : ℕ → Bytes → ℕ → Method DecryptSink (Option ℕ)
  header_loop zero bytes offset s =
      if ltb 0 (expected_header_bytes C s.decryptor) then (diverge, s) else (ok (some offset), s)
  header_loop (suc fuel) bytes offset s =
      let header_bytes = expected_header_bytes C s.decryptor in
      let rest =
        (do
          with_decryptor (process_header C (slice offset (offset + header_bytes) bytes))
          header_loop fuel bytes (offset + header_bytes))
          s in
      if ltb 0 header_bytes
      then (if ltb (length bytes) (header_bytes + offset)
          then (ok none, record s { header = drop offset bytes })
          else rest)
      else (ok (some offset), s)

  -- What follows the loop: `data[offset:]`, and the size of the encrypted data.
  set_data_size : Outcome ℕ → Bytes → Method DecryptSink Bytes
  set_data_size (ok n) bytes s =
      (ok bytes, record s { data_size = pos s.file_size -ℕ n -ℕ footer_size })
  set_data_size (err e) bytes s = (err e, s)
  set_data_size diverge bytes s = (diverge, s)

  pub after_header : Bytes → Option ℕ → Method DecryptSink Bytes
  unfolding set_data_size
  after_header bytes none s = (ok [], s)
  after_header bytes (some offset) s =
      set_data_size (get_header_size C s.decryptor) (drop offset bytes) s

  pub process_encryption_header : Bytes → Method DecryptSink Bytes
  process_encryption_header [] s = (ok [], s)
  process_encryption_header (b ∷ bs) s =
      if expected_header_bytes C s.decryptor == 0
      then (ok (b ∷ bs), s)
      else (do
        let bytes = s.header ++ b ∷ bs
        offset ← header_loop 2 bytes 0
        after_header bytes offset)
          (record s { header = [] })

  count_received : Bytes → Method DecryptSink None
  count_received bytes s =
      (ok tt, record s { data_bytes_received = s.data_bytes_received + length bytes })

  -- The last bytes of the plain text, once the footer is complete.
  pub finish_footer : Bytes → Method DecryptSink Bytes
  finish_footer bytes s =
      if length s.footer == footer_size
      then (do final ← with_decryptor (finalize C s.footer); pure (bytes ++ final)) s
      else (ok bytes, s)

  pub forward : Bytes → Method DecryptSink None
  forward bytes s =
      let r = write_to_next_sink N no_hook bytes (tt, s.next_sink) in
      (r.0, record s { next_sink = r.1.1 })

  pub decrypt_some : Bytes → Method DecryptSink None
  decrypt_some bytes = do
    crypted ← extract_footer bytes
    count_received crypted
    plain ← with_decryptor (process_data C crypted)
    final ← finish_footer plain
    if is_empty final then pure tt else forward final

  -- What follows `_process_encryption_header` in `write`.
  pub decrypt_data : Bytes → Method DecryptSink None
  decrypt_data [] = pure tt
  decrypt_data (b ∷ bs) = decrypt_some (b ∷ bs)

  -- `DecryptSink.write`
  unfoldable pub decrypt_write : Bytes → Method DecryptSink ℕ
  decrypt_write bytes = do
    body ← process_encryption_header bytes
    decrypt_data body
    pure (length bytes)

-- A decrypting sink in front of another is an output again.
abbrev pub decrypt_sink : Crypto → Output → Output
decrypt_sink C N = record { State = DecryptSink C N; write = decrypt_write C N }
