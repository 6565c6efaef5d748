-- ===== src/Crypto.antt =====
-- What rohmu/encryptor.py takes from the `cryptography` package, for one RSA key pair: AES in CTR
-- mode, HMAC-SHA256 and RSA-OAEP, with the behaviour that their documentation promises.
use rohmu.Base.{
  ℕ, Bytes, length, Outcome, ◌<◌, ◌++◌, ◌≡◌, if◌then◌else◌, ◌∷◌, [], ltb, ok, ◌/◌, ◌*◌, ◌%◌, ◌+◌,
  err, lt→ltb, struct_error, ap, arith,
}

pub record Crypto : Type 1 where
  -- The contexts that `Cipher(..).encryptor()`, `Cipher(..).decryptor()` and `HMAC(..)` return.
  pub Cipher : Type 0
  pub Mac : Type 0
  pub encryptor : (key nonce : Bytes) → Cipher
  pub decryptor : (key nonce : Bytes) → Cipher
  pub cipher_update : Bytes → Cipher → Bytes × Cipher
  pub cipher_finalize : Cipher → Bytes
  pub hmac : (key : Bytes) → Mac
  pub hmac_update : Bytes → Mac → Mac
  pub hmac_finalize : Mac → Bytes
  -- The randomness of the padding is the first argument.
  pub rsa_encrypt : (seed message : Bytes) → Bytes
  pub rsa_decrypt : Bytes → Outcome Bytes

-- The documented behaviour.
pub record IsLawful (C : Crypto) : Type 0 where
  -- A stream cipher may be fed in pieces, keeps lengths and has nothing left at the end.
  pub update-append :
      (xs ys : Bytes) (c : C.Cipher)
      → C.cipher_update (xs ++ ys) c ≡ (
        (C.cipher_update xs c).0 ++ (C.cipher_update ys (C.cipher_update xs c).1).0,
        (C.cipher_update ys (C.cipher_update xs c).1).1,
      )
  pub update-nil : (c : C.Cipher) → C.cipher_update [] c ≡ ([], c)
  pub length-update : (xs : Bytes) (c : C.Cipher) → length (C.cipher_update xs c).0 ≡ length xs
  pub finalize_empty : (c : C.Cipher) → C.cipher_finalize c ≡ []
  pub decrypts :
      (key nonce xs : Bytes)
      → (C.cipher_update (C.cipher_update xs (C.encryptor key nonce)).0 (C.decryptor key nonce)).0
        ≡ xs
  pub hmac-append :
      (xs ys : Bytes) (m : C.Mac)
      → C.hmac_update (xs ++ ys) m ≡ C.hmac_update ys (C.hmac_update xs m)
  pub hmac-nil : (m : C.Mac) → C.hmac_update [] m ≡ m
  -- A SHA-256 tag has 32 bytes.
  pub length-hmac : (m : C.Mac) → length (C.hmac_finalize m) ≡ 32
  -- A message of 64 bytes fits the key. Its RSA ciphertext has the bytes of the modulus: some, and
  -- fewer than 64 KiB.
  pub rsa_decrypts :
      (seed message : Bytes)
      → length message ≡ 64
      → C.rsa_decrypt (C.rsa_encrypt seed message) ≡ ok message
  pub rsa_some :
      (seed message : Bytes) → length message ≡ 64 → 0 < length (C.rsa_encrypt seed message)
  pub rsa_short :
      (seed message : Bytes) → length message ≡ 64 → length (C.rsa_encrypt seed message) < 65536

-- What `os.urandom` gives for one encrypted file, with the seed of the padding.
pub record Random : Type 0 where
  pub key : Bytes
  pub nonce : Bytes
  pub auth_key : Bytes
  pub seed : Bytes

-- `os.urandom(16)`, `os.urandom(16)` and `os.urandom(32)`
pub record HasSizes (r : Random) : Type 0 where
  pub key_size : length r.key ≡ 16
  pub nonce_size : length r.nonce ≡ 16
  pub auth_key_size : length r.auth_key ≡ 32

-- `struct.pack(">H", n)` and `struct.unpack(">H", b)[0]`
unfoldable pub pack_h : ℕ → Outcome Bytes
pack_h n = if ltb n 65536 then ok (n / 256 ∷ n % 256 ∷ []) else err struct_error

unfoldable pub unpack_h : Bytes → Outcome ℕ
unpack_h (a ∷ b ∷ []) = ok (a * 256 + b)
unpack_h _ = err struct_error

-- "pghoa1"
abbrev pub file_magic : Bytes
file_magic = 112 ∷ 103 ∷ 104 ∷ 111 ∷ 97 ∷ 49 ∷ []

pub unpack_h-pack_h : (n : ℕ) → n < 65536 → (b : Bytes) × (pack_h n ≡ ok b) × (unpack_h b ≡ ok n)
unfolding pack_h unpack_h
unpack_h-pack_h n h = (n / 256 ∷ n % 256 ∷ [], rw (lt→ltb n 65536 h), ap ok (omega arith))
