-- ===== src/Encryptor/Seal.antt =====
-- What an `Encryptor` makes of a plaintext that is fed to it in pieces.
use rohmu.Base.{
  Bytes, ℕ, List, ◌/◌, Method, ◌++◌, ◌∷◌, length, ◌%◌, [], ◌>>=◌, pure, ◌≡◌, some, ok, lt→ltb,
  arith, join, length-append, append-nil, append_assoc, ap, ◌∙◌, sym, ap₂,
}
use rohmu.Crypto.{Crypto, IsLawful, Random, file_magic, pack_h, HasSizes}
use rohmu.Encryptor.{Encryptor, new_encryptor, cipher_key, update, finalize, Bytes, ℕ}

module _ (C : Crypto) where
  -- `seal`: the format of an encrypted file. It is the magic, the size of the encrypted keys in two bytes, the
  -- encrypted keys, the ciphertext, and the HMAC of the ciphertext.
  abbrev pub ciphertext : Random → Bytes → Bytes
  ciphertext r plain = (C.cipher_update plain (C.encryptor r.key r.nonce)).0

  abbrev pub tag : Random → Bytes → Bytes
  tag r crypted = C.hmac_finalize (C.hmac_update crypted (C.hmac r.auth_key))

  abbrev pub size_bytes : ℕ → Bytes
  size_bytes n = n / 256 ∷ n % 256 ∷ []

  abbrev pub header : Random → Bytes
  header r = file_magic ++ size_bytes (length (cipher_key C r)) ++ cipher_key C r

  unfoldable pub seal : Random → Bytes → Bytes
  seal r plain = header r ++ ciphertext r plain ++ tag r (ciphertext r plain)

  -- The calls `update(p)` for each piece in turn, then `finalize()`, with the outputs joined.
  unfoldable pub encrypt_pieces : Random → List Bytes → Method (Encryptor C) Bytes
  encrypt_pieces r [] = finalize C
  encrypt_pieces r (p ∷ ps) = do out ← update C r p; rest ← encrypt_pieces r ps; pure (out ++ rest)

module _ (C : Crypto) (L : IsLawful C) (r : Random) (sized : HasSizes r) where
  pub length-keys : length (r.key ++ r.nonce ++ r.auth_key) ≡ 64
  length-keys = omega (
    arith,
    length-append (r.key ++ r.nonce) r.auth_key,
    length-append r.key r.nonce,
    sized.key_size,
    sized.nonce_size,
    sized.auth_key_size,
  )

  pub pack_key : pack_h (length (cipher_key C r)) ≡ ok (size_bytes C (length (cipher_key C r)))
  unfolding pack_h
  pack_key = rw (lt→ltb _ _ (L.rsa_short r.seed _ length-keys))

  abbrev pub after : Bytes → C.Cipher
  after plain = (C.cipher_update plain (C.encryptor r.key r.nonce)).1

  -- The state after some of the plaintext.
  abbrev pub running : Bytes → Encryptor C
  running plain = record {
    cipher = some (after plain);
    authenticator = some (C.hmac_update (ciphertext C r plain) (C.hmac r.auth_key));
  }

  pub ciphertext-append :
      (p q : Bytes) → ciphertext C r (p ++ q) ≡ ciphertext C r p ++ (C.cipher_update q (after p)).0
  ciphertext-append p q =
      ap (λ (t : Bytes × C.Cipher). t.0) (L.update-append p q (C.encryptor r.key r.nonce))

  running-append :
      (p q : Bytes)
      → running (p ++ q) ≡ record {
        cipher = some (C.cipher_update q (after p)).1;
        authenticator = some (
            C.hmac_update
              (C.cipher_update q (after p)).0
              (C.hmac_update (ciphertext C r p) (C.hmac r.auth_key)));
      }
  running-append p q =
      let e : _ = L.update-append p q (C.encryptor r.key r.nonce) in
      let h : _ =
        ap (λ t. C.hmac_update t (C.hmac r.auth_key)) (ciphertext-append p q)
        ∙ L.hmac-append _ _ _ in
      λ i. record { cipher = some (e i).1; authenticator = some (h i) }

  pub update-new :
      (p : Bytes)
      → update C r p (new_encryptor C) ≡ (ok (header C r ++ ciphertext C r p), running p)
  unfolding update
  update-new p = rw (pack_key, update)

  pub update-running :
      (p q : Bytes)
      → update C r q (running p) ≡ (ok (C.cipher_update q (after p)).0, running (p ++ q))
  unfolding update
  update-running p q =
      ap (λ (e : Encryptor C). (ok (C.cipher_update q (after p)).0, e)) (sym (running-append p q))

  pub finalize-running :
      (p : Bytes) → finalize C (running p) ≡ (ok (tag C r (ciphertext C r p)), new_encryptor C)
  unfolding finalize
  finalize-running p = simp (L.finalize_empty, L.hmac-nil)

  piece-append :
      (p q qs : Bytes)
      → (C.cipher_update (q ++ qs) (after p)).0
        ≡ (C.cipher_update q (after p)).0 ++ (C.cipher_update qs (after (p ++ q))).0
  piece-append p q qs =
      ap (λ (t : Bytes × C.Cipher). t.0) (L.update-append q qs (after p))
      ∙ ap (λ t. (C.cipher_update q (after p)).0 ++ (C.cipher_update qs t).0)
          (ap (λ (t : Bytes × C.Cipher). t.1)
            (sym (L.update-append p q (C.encryptor r.key r.nonce))))

  encrypt_pieces-running :
      (p : Bytes) (qs : List Bytes)
      → encrypt_pieces C r qs (running p) ≡ (
        ok ((C.cipher_update (join qs) (after p)).0 ++ tag C r (ciphertext C r (p ++ join qs))),
        new_encryptor C,
      )
  unfolding encrypt_pieces
  encrypt_pieces-running p [] = rw (finalize-running, append-nil, L.update-nil)
  encrypt_pieces-running p (q ∷ qs) =
      rw (update-running p q, encrypt_pieces-running (p ++ q) qs)
        (ap (λ t. (ok t, new_encryptor C))
          (sym (append_assoc (C.cipher_update q (after p)).0 _ _)
            ∙ ap₂ (λ x y. x ++ tag C r (ciphertext C r y)) (sym (piece-append p q (join qs)))
                (append_assoc p q (join qs))))

  -- However the plaintext is cut into pieces, as long as there is one, the outputs of `update` and
  -- `finalize` make up the file format of the whole, and the encryptor is as new.
  pub encrypt_pieces-seal :
      (p : Bytes) (ps : List Bytes)
      → encrypt_pieces C r (p ∷ ps) (new_encryptor C)
        ≡ (ok (seal C r (join (p ∷ ps))), new_encryptor C)
  unfolding encrypt_pieces seal
  encrypt_pieces-seal p ps =
      rw (update-new p, encrypt_pieces-running p ps)
        (ap (λ t. (ok t, new_encryptor C))
          (sym (
              append_assoc (header C r ++ ciphertext C r p) (C.cipher_update (join ps) (after p)).0
                _)
            ∙ ap (λ x. x ++ tag C r (ciphertext C r (p ++ join ps)))
                (append_assoc (header C r) (ciphertext C r p) _
                  ∙ ap (λ x. header C r ++ x) (sym (ciphertext-append p (join ps))))))
