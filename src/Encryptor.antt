-- ===== src/Encryptor.antt =====
-- rohmu/encryptor.py: `Encryptor`.
pub mod Seal
use rohmu.Base.{
  ℕ, Option, none, Bytes, Method, err, None, ◌++◌, ok, some, uninitialized, [], length, diverge,
  ◌>>=◌, ◌>>◌, pure, Outcome,
}
use rohmu.Crypto.{Crypto, Random, pack_h, file_magic}

module _ (C : Crypto) where
  pub record Encryptor : Type 0 where
    pub cipher : Option C.Cipher
    pub authenticator : Option C.Mac

  -- `Encryptor.__init__`
  abbrev pub new_encryptor : Encryptor
  new_encryptor = record { cipher = none; authenticator = none }

  -- `self.cipher.update(data)`, through the property that raises if there is no cipher
  cipher_update : Bytes → Method Encryptor Bytes
  cipher_update bytes s = elim s.cipher [
    | none ↦ (err uninitialized, s)
    | some c ↦ let (out, c') = C.cipher_update bytes c in (ok out, record s { cipher = some c' })
  ]

  -- `self.authenticator.update(data)`
  authenticate : Bytes → Method Encryptor None
  authenticate bytes s = elim s.authenticator [
    | none ↦ (err uninitialized, s)
    | some m ↦ (ok tt, record s { authenticator = some (C.hmac_update bytes m) })
  ]

  abbrev pub cipher_key : Random → Bytes
  cipher_key r = C.rsa_encrypt r.seed (r.key ++ r.nonce ++ r.auth_key)

  -- `FILEMAGIC + struct.pack(">H", len(cipherkey)) + cipherkey`
  header_of : Outcome Bytes → Bytes → Outcome Bytes
  header_of (ok size) key = ok (file_magic ++ size ++ key)
  header_of (err e) key = err e
  header_of diverge key = diverge

  -- The first call makes the keys, and returns the header.
  begin : Random → Method Encryptor Bytes
  unfolding header_of
  begin r s = elim s.cipher [
    | some _ ↦ (ok [], s)
    | none ↦ (
      header_of (pack_h (length (cipher_key r))) (cipher_key r),
      record {
        cipher = some (C.encryptor r.key r.nonce);
        authenticator = some (C.hmac r.auth_key);
      },
    )
  ]

  unfoldable pub update : Random → Bytes → Method Encryptor Bytes
  unfolding begin cipher_update authenticate
  update r bytes = do ret ← begin r; cur ← cipher_update bytes; authenticate cur; pure (ret ++ cur)

  -- `self.cipher.finalize()` and `self.authenticator.finalize()`
  cipher_finalize : Method Encryptor Bytes
  cipher_finalize s = elim s.cipher [
    | none ↦ (err uninitialized, s)
    | some c ↦ (ok (C.cipher_finalize c), s)
  ]

  authenticator_finalize : Method Encryptor Bytes
  authenticator_finalize s = elim s.authenticator [
    | none ↦ (err uninitialized, s)
    | some m ↦ (ok (C.hmac_finalize m), s)
  ]

  reset : Method Encryptor None
  reset s = (ok tt, record { cipher = none; authenticator = none })

  unfoldable pub finalize : Method Encryptor Bytes
  unfolding cipher_finalize authenticate authenticator_finalize reset
  finalize s = elim s.cipher [
    | none ↦ (ok [], s)
    | some _ ↦
        (do
          ret ← cipher_finalize
          authenticate ret
          tag ← authenticator_finalize
          reset
          pure (ret ++ tag))
          s
  ]
