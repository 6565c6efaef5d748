-- ===== src/Decryptor.antt =====
-- rohmu/encryptor.py: `Decryptor`.
use rohmu.Base.{
  ℕ, Option, none, Outcome, Bytes, Method, some, if◌then◌else◌, err, None, pure, ◌==◌,
  uninitialized, encryptor_error, bytes_eq, ◌∷◌, ok, length, slice, ◌>>◌, diverge, ◌+◌, [],
  assertion_error,
}
use rohmu.Crypto.{Crypto, unpack_h, file_magic}

-- `footer_size()`
abbrev pub footer_size : ℕ
footer_size = 32

module _ (C : Crypto) where
  pub record Decryptor : Type 0 where
    pub cipher : Option C.Cipher
    pub authenticator : Option C.Mac
    pub cipher_key_len : Option ℕ
    pub header_size : Option ℕ

  -- `Decryptor.__init__`
  abbrev pub new_decryptor : Decryptor
  new_decryptor = record {
    cipher = none;
    authenticator = none;
    cipher_key_len = none;
    header_size = none;
  }

  -- 0 once the header has been processed; `self._cipher_key_len or 8` before that
  unfoldable pub expected_header_bytes : Decryptor → ℕ
  expected_header_bytes d = elim d.header_size [
    | some _ ↦ 0
    | none ↦ elim d.cipher_key_len [ none ↦ 8 | some k ↦ if k == 0 then 8 else k ]
  ]

  unfoldable pub get_header_size : Decryptor → Outcome ℕ
  get_header_size d = elim d.header_size [ none ↦ err uninitialized | some n ↦ ok n ]

  set_key_len : Outcome ℕ → Decryptor → Outcome None × Decryptor
  set_key_len (ok n) d = (ok tt, record d { cipher_key_len = some n })
  set_key_len (err e) d = (err e, d)
  set_key_len diverge d = (diverge, d)

  -- `except AssertionError: raise EncryptorError(..)`, and the keys taken from the plain text
  set_keys : ℕ → Outcome Bytes → Decryptor → Outcome None × Decryptor
  set_keys size (err assertion_error) d = (err encryptor_error, d)
  set_keys size (err e) d = (err e, d)
  set_keys size diverge d = (diverge, d)
  set_keys size (ok plainkey) d =
      if length plainkey == 64
      then (
        ok tt,
        record d {
          header_size = some (8 + size);
          cipher = some (C.decryptor (slice 0 16 plainkey) (slice 16 32 plainkey));
          authenticator = some (C.hmac (slice 32 64 plainkey));
        },
      )
      else (err encryptor_error, d)

  unfoldable pub process_header : Bytes → Method Decryptor None
  unfolding set_key_len set_keys
  process_header bytes d = elim d.cipher_key_len [
    | none ↦
        if bytes_eq (slice 0 6 bytes) file_magic
        then set_key_len (unpack_h (slice 6 8 bytes)) d
        else (err encryptor_error, d)
    | some _ ↦ set_keys (length bytes) (C.rsa_decrypt bytes) d
  ]

  -- `self.authenticator.update(data)` and `self.cipher.update(data)`
  authenticate : Bytes → Method Decryptor None
  authenticate bytes d = elim d.authenticator [
    | none ↦ (err uninitialized, d)
    | some m ↦ (ok tt, record d { authenticator = some (C.hmac_update bytes m) })
  ]

  cipher_update : Bytes → Method Decryptor Bytes
  cipher_update bytes d = elim d.cipher [
    | none ↦ (err uninitialized, d)
    | some c ↦ let (out, c') = C.cipher_update bytes c in (ok out, record d { cipher = some c' })
  ]

  unfoldable pub process_data : Bytes → Method Decryptor Bytes
  unfolding authenticate cipher_update
  process_data [] = pure []
  process_data (b ∷ bs) = do authenticate (b ∷ bs); cipher_update (b ∷ bs)

  -- `self.cipher.finalize()`, after which both contexts are dropped
  cipher_finalize : Method Decryptor Bytes
  cipher_finalize d = elim d.cipher [
    | none ↦ (err uninitialized, d)
    | some c ↦ (ok (C.cipher_finalize c), record d { cipher = none; authenticator = none })
  ]

  unfoldable pub finalize : Bytes → Method Decryptor Bytes
  unfolding cipher_finalize
  finalize footer d = elim d.authenticator [
    | none ↦ (err uninitialized, d)
    | some m ↦
        if bytes_eq footer (C.hmac_finalize m) then cipher_finalize d else (err encryptor_error, d)
  ]
