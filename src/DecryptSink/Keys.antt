-- ===== src/DecryptSink/Keys.antt =====
-- The decryptor on the parts of a sealed file: its header, its ciphertext and its footer.
use rohmu.Base.{
  ℕ, Bytes, none, ◌≡◌, slice, length, ◌++◌, some, ok, ◌+◌, ◌/◌, append_assoc, drop-append, [], ◌∷◌,
  ◌*◌, take-append, arith, bytes_eq_refl, ◌%◌, length-append, ap, take_all, ◌==◌, append-nil, true,
  sym, ◌<◌, sub_ℕ, false, ◌-ℕ◌, refl, pos,
}
use rohmu.Crypto.{Crypto, IsLawful, Random, HasSizes, file_magic, unpack_h}
use rohmu.Encryptor.{cipher_key}
use rohmu.Encryptor.Seal.{length-keys, ciphertext, tag, size_bytes, header, seal}
use rohmu.Decryptor.{
  Decryptor, new_decryptor, process_header, process_data, finalize, expected_header_bytes,
}

module _ (C : Crypto) (r : Random) where
  abbrev pub key_len : ℕ
  key_len = length (cipher_key C r)

  -- The first 8 bytes of a sealed file.
  abbrev pub preamble : Bytes
  preamble = file_magic ++ size_bytes C key_len

  abbrev pub after_decrypting : Bytes → C.Cipher
  after_decrypting e = (C.cipher_update e (C.decryptor r.key r.nonce)).1

  abbrev pub decrypted : Bytes → Bytes
  decrypted e = (C.cipher_update e (C.decryptor r.key r.nonce)).0

  -- The decryptor behind the preamble, behind the header and some ciphertext, and behind the footer.
  abbrev pub keyed : Decryptor C
  keyed = record {
    cipher = none;
    authenticator = none;
    cipher_key_len = some key_len;
    header_size = none;
  }

  abbrev pub ready : Bytes → Decryptor C
  ready e = record {
    cipher = some (after_decrypting e);
    authenticator = some (C.hmac_update e (C.hmac r.auth_key));
    cipher_key_len = some key_len;
    header_size = some (8 + key_len);
  }

  abbrev pub spent : Decryptor C
  spent = record {
    cipher = none;
    authenticator = none;
    cipher_key_len = some key_len;
    header_size = some (8 + key_len);
  }

module _ (C : Crypto) (L : IsLawful C) (r : Random) (sized : HasSizes r) where
  pub process_header-preamble :
      process_header C (preamble C r) (new_decryptor C) ≡ (ok tt, keyed C r)
  unfolding process_header unpack_h
  process_header-preamble =
      let e : key_len C r / 256 * 256 + key_len C r % 256 ≡ key_len C r = omega arith in
      ap (λ k. (ok tt, record (new_decryptor C) { cipher_key_len = some k })) e

  key_slice : slice 0 16 (r.key ++ r.nonce ++ r.auth_key) ≡ r.key
  key_slice =
      rw (append_assoc r.key r.nonce r.auth_key)
        (take-append 16 r.key _ (omega (arith, sized.key_size)))

  nonce_slice : slice 16 32 (r.key ++ r.nonce ++ r.auth_key) ≡ r.nonce
  nonce_slice =
      rw
        (
          append_assoc r.key r.nonce r.auth_key,
          drop-append 16 r.key (r.nonce ++ r.auth_key) (omega (arith, sized.key_size)),
        )
        (take-append 16 r.nonce _ (omega (arith, sized.nonce_size)))

  auth_key_slice : slice 32 64 (r.key ++ r.nonce ++ r.auth_key) ≡ r.auth_key
  auth_key_slice =
      rw
        (drop-append 32 (r.key ++ r.nonce) r.auth_key
          (omega (arith, length-append r.key r.nonce, sized.key_size, sized.nonce_size)))
        (take_all 32 r.auth_key (omega (arith, sized.auth_key_size)))

  pub process_header-key : process_header C (cipher_key C r) (keyed C r) ≡ (ok tt, ready C r [])
  unfolding process_header
  process_header-key =
      let test : (length (r.key ++ r.nonce ++ r.auth_key) == 64) ≡ true =
        rw (length-keys C L r sized) in
      rw
        (
          L.rsa_decrypts r.seed _ (length-keys C L r sized),
          test,
          key_slice,
          nonce_slice,
          auth_key_slice,
        )
        λ i. (
          ok tt,
          record {
            cipher = some (sym (L.update-nil (C.decryptor r.key r.nonce)) i).1;
            authenticator = some (sym (L.hmac-nil (C.hmac r.auth_key)) i);
            cipher_key_len = some (key_len C r);
            header_size = some (8 + key_len C r);
          },
        )

  pub process_data-ready :
      (e z : Bytes)
      → process_data C z (ready C r e)
        ≡ (ok (C.cipher_update z (after_decrypting C r e)).0, ready C r (e ++ z))
  unfolding process_data
  process_data-ready e [] = rw (append-nil, L.update-nil)
  process_data-ready e (b ∷ bs) =
      let u : _ = sym (L.update-append e (b ∷ bs) (C.decryptor r.key r.nonce)) in
      let h : _ = sym (L.hmac-append e (b ∷ bs) (C.hmac r.auth_key)) in
      λ i. (
        ok (C.cipher_update (b ∷ bs) (after_decrypting C r e)).0,
        record {
          cipher = some (u i).1;
          authenticator = some (h i);
          cipher_key_len = some (key_len C r);
          header_size = some (8 + key_len C r);
        },
      )

  pub finalize-ready :
      (plain : Bytes)
      → finalize C (tag C r (ciphertext C r plain)) (ready C r (ciphertext C r plain))
        ≡ (ok [], spent C r)
  unfolding finalize
  finalize-ready plain = rw (bytes_eq_refl (tag C r (ciphertext C r plain))) (rw L.finalize_empty)

  pub key_len_pos : 0 < key_len C r
  key_len_pos = L.rsa_some r.seed _ (length-keys C L r sized)

  pub expected-keyed : expected_header_bytes C (keyed C r) ≡ key_len C r
  unfolding expected_header_bytes
  expected-keyed = let e : (key_len C r == 0) ≡ false = ground (arith, key_len_pos) in rw e

  pub expected-ready : (e : Bytes) → expected_header_bytes C (ready C r e) ≡ 0
  unfolding expected_header_bytes
  expected-ready e = refl

  pub length-header : length (header C r) ≡ 8 + key_len C r
  length-header = omega arith

  pub length-seal :
      (plain : Bytes)
      → length (seal C r plain) ≡ 8 + key_len C r + length (ciphertext C r plain) + 32
  unfolding seal
  length-seal plain = omega (
    arith,
    length-append (header C r ++ ciphertext C r plain) (tag C r (ciphertext C r plain)),
    length-append (header C r) (ciphertext C r plain),
    length-header,
    L.length-hmac,
  )

pub size_math : (f k e : ℕ) → f ≡ 8 + k + e + 32 → (sub_ℕ f (8 + k) -ℕ 32) ≡ pos e
size_math f k e h = ground arith
