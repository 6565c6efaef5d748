-- ===== src/DecryptSink/Feed.antt =====
-- A sealed file, pushed through a `DecryptSink` in pieces of any sizes.
use rohmu.Base.{
  Bytes, Method, ◌≡◌, ◌++◌, ℕ, length, ok, [], List, arith, refl, None, ◌∙◌, pure, ◌∷◌, subst, ◌>>◌,
  sym, append_assoc, ◌<◌, join, ap, append-nil, Bool-cases, append_cancel, ltb, ap₂, length-append,
  inl, ltb→lt, inr, split_prefix, ltb→ge, pos,
}
use rohmu.Crypto.{Crypto, IsLawful, Random, HasSizes}
use rohmu.Encryptor.{cipher_key}
use rohmu.Encryptor.Seal.{header, seal}
use rohmu.Sink.{Output}
use rohmu.Sink.Delivery.{Delivers}
use rohmu.DecryptSink.{
  DecryptSink, new_decrypt_sink, decrypt_write, decrypt_data, process_encryption_header, Bytes,
}
use rohmu.DecryptSink.Keys.{key_len, preamble, ready, decrypted}
use rohmu.DecryptSink.States.{
  At, starting, keys, flowing, done, Arrives, crypted, footer_bytes, flowing_state, starting_state,
  keyed_state,
}
use rohmu.DecryptSink.Body.{regroup, decrypt_data-Arrives}
use rohmu.DecryptSink.Header

-- `sink.write(piece)` for each piece in turn.
unfoldable pub feed : {S : Type 0} → (Bytes → Method S ℕ) → List Bytes → Method S None
feed write [] = pure tt
feed write (p ∷ ps) = do write p; feed write ps

module _ (C : Crypto) (L : IsLawful C) (r : Random) (sized : HasSizes r) (N : Output)
    (D : Delivers N) (plain base : Bytes) where
  abbrev Goes : Bytes → Bytes → DecryptSink C N → Type 0
  Goes p y s = Arrives C N r plain D base (p ++ y) (length y) (decrypt_write C N y s)

  -- The two parts of `write`, put together.
  write_parts :
      (p y body : Bytes) (s t : DecryptSink C N)
      → process_encryption_header C N y s ≡ (ok body, t)
      → Arrives C N r plain D base (p ++ y) tt (decrypt_data C N body t)
      → Goes p y s
  unfolding decrypt_write
  write_parts p y body s t header_done a = record {
    after = a.after;
    returns = rw header_done (rw a.returns);
    at = a.at;
  }

  -- No byte of the body yet.
  waiting :
      (p y : Bytes) (s t : DecryptSink C N)
      → process_encryption_header C N y s ≡ (ok [], t)
      → At C N r plain D base (p ++ y) t
      → Goes p y s
  unfolding decrypt_data
  waiting p y s t header_done at =
      write_parts p y [] s t header_done (record { after = t; returns = refl; at = at })

  base_decrypted :
      (next : N.State) → D.received next ≡ base → D.received next ≡ base ++ decrypted C r []
  base_decrypted next h =
      h
      ∙ sym (append-nil base)
      ∙ ap (λ (t : Bytes × C.Cipher). base ++ t.0) (sym (L.update-nil (C.decryptor r.key r.nonce)))

  -- The header is complete, and `w` is what came behind it.
  opened :
      (p y w rest : Bytes) (next : N.State) (s : DecryptSink C N)
      → process_encryption_header C N y s
        ≡ (ok w, flowing_state C N r plain next [] [] (ready C r []))
      → D.received next ≡ base
      → p ++ y ≡ header C r ++ w
      → w ++ rest ≡ crypted C N r plain ++ footer_bytes C N r plain
      → Goes p y s
  opened p y [] rest next s header_done had split body = waiting p y s _ header_done (
      flowing next [] [] (crypted C N r plain) (footer_bytes C N r plain) refl refl
        (λ h. absurd (omega arith)) (omega (arith, L.length-hmac)) (base_decrypted next had)
        (split ∙ sym (append-nil (header C r ++ []))) refl)
  opened p y (b ∷ w) rest next s header_done had split body =
      write_parts p y (b ∷ w) s _ header_done (
        subst
          (λ q.
            Arrives C N r plain D base q tt
              (decrypt_data C N (b ∷ w) (flowing_state C N r plain next [] [] (ready C r []))))
          (ap (λ t. t ++ (b ∷ w)) (append-nil (header C r ++ []) ∙ append-nil (header C r))
            ∙ sym split)
          (decrypt_data-Arrives C L r sized N D plain base next [] [] (crypted C N r plain)
            (footer_bytes C N r plain) refl refl (λ h. absurd (omega arith))
            (omega (arith, L.length-hmac)) (base_decrypted next had) (b ∷ w) rest (omega arith)
            body))

  seal_parts :
      seal C r plain
      ≡ preamble C r ++ (cipher_key C r ++ (crypted C N r plain ++ footer_bytes C N r plain))
  unfolding seal
  seal_parts =
      append_assoc (header C r) (crypted C N r plain) (footer_bytes C N r plain)
      ∙ append_assoc (preamble C r) (cipher_key C r)
          (crypted C N r plain ++ footer_bytes C N r plain)

  from_starting :
      (p y rest : Bytes) (next : N.State)
      → length p < 8
      → D.received next ≡ base
      → 0 < length y
      → (p ++ y) ++ rest ≡ seal C r plain
      → Goes p y (starting_state C N r plain next p)
  from_starting p y rest next short had some_y file = elim (Bool-cases (ltb (length (p ++ y)) 8)) [
    | inl still ↦
        let l : length (p ++ y) < 8 = ltb→lt _ _ still in
        waiting p y _ _ (Header.process-starting_short C L r sized N plain p y next some_y l)
          (starting next l had refl)
    | inr enough ↦
        let (w, e1, e2) =
          split_prefix (preamble C r) (p ++ y) rest _ (file ∙ seal_parts) (ltb→ge _ _ enough) in
        elim (Bool-cases (ltb (length w) (key_len C r))) [
          | inl still ↦
              let l : length w < key_len C r = ltb→lt _ _ still in
              waiting p y _ _
                (Header.process-starting_keys C L r sized N plain p y w next some_y e1 l)
                (keys next w l had e1 refl)
          | inr all ↦
              let (v, e3, e4) = split_prefix (cipher_key C r) w rest _ e2 (ltb→ge _ _ all) in
              opened p y v rest next _
                (Header.process-starting_all C L r sized N plain p y v next some_y
                  (e1 ∙ ap (λ t. preamble C r ++ t) e3))
                had (e1 ∙ ap (λ t. preamble C r ++ t) e3) e4
        ]
  ]

  from_keys :
      (p y w rest : Bytes) (next : N.State)
      → D.received next ≡ base
      → p ≡ preamble C r ++ w
      → 0 < length y
      → (p ++ y) ++ rest ≡ seal C r plain
      → Goes p y (keyed_state C N r plain next w)
  from_keys p y w rest next had split some_y file =
      let e : p ++ y ≡ preamble C r ++ (w ++ y) = ap (λ t. t ++ y) split in
      let file' : (w ++ y) ++ rest
          ≡ cipher_key C r ++ (crypted C N r plain ++ footer_bytes C N r plain) =
        append_cancel (preamble C r) (ap (λ t. t ++ rest) (sym e) ∙ file ∙ seal_parts) in
      elim (Bool-cases (ltb (length (w ++ y)) (key_len C r))) [
        | inl still ↦
            let l : length (w ++ y) < key_len C r = ltb→lt _ _ still in
            waiting p y _ _ (Header.process-keyed_short C L r sized N plain w y next some_y l)
              (keys next (w ++ y) l had e refl)
        | inr all ↦
            let (v, e3, e4) =
              split_prefix (cipher_key C r) (w ++ y) rest _ file' (ltb→ge _ _ all) in
            opened p y v rest next _
              (Header.process-keyed_all C L r sized N plain w y v next some_y e3) had
              (e ∙ ap (λ t. preamble C r ++ t) e3) e4
      ]

  from_nonempty :
      (p y rest : Bytes) (s : DecryptSink C N)
      → At C N r plain D base p s
      → 0 < length y
      → (p ++ y) ++ rest ≡ seal C r plain
      → Goes p y s
  unfolding seal
  from_nonempty p y rest s (starting next short had e) some_y file =
      subst (λ t. Goes p y t) (sym e) (from_starting p y rest next short had some_y file)
  from_nonempty p y rest s (keys next w short had split e) some_y file =
      subst (λ t. Goes p y t) (sym e) (from_keys p y w rest next had split some_y file)
  from_nonempty p y rest s (flowing next e f z left whole foot in_order some_left had split es)
        some_y file =
      let body : y ++ rest ≡ z ++ left = append_cancel ((header C r ++ e) ++ f) (
        ap (λ t. t ++ (y ++ rest)) (sym split)
        ∙ sym (append_assoc p y rest)
        ∙ file
        ∙ sym (
            regroup (header C r) e f z left in_order
            ∙ ap₂ (λ a b. (header C r ++ a) ++ b) whole foot)) in
      subst (λ t. Goes p y t) (sym es)
        (write_parts p y y _ _ (Header.process-flowing C L r sized N plain y next e f) (
          subst
            (λ q.
              Arrives C N r plain D base (q ++ y) tt
                (decrypt_data C N y (flowing_state C N r plain next e f (ready C r e))))
            (sym split)
            (decrypt_data-Arrives C L r sized N D plain base next e f z left whole foot in_order
              some_left had y rest some_y body)))
  from_nonempty p y rest s (done next had split e) some_y file = absurd (
      omega
        (arith, ap length file, length-append (p ++ y) rest, length-append p y, ap length split))

  -- One call of `write` with the next bytes of the file.
  write-Arrives :
      (p y rest : Bytes) (s : DecryptSink C N)
      → At C N r plain D base p s
      → (p ++ y) ++ rest ≡ seal C r plain
      → Goes p y s
  unfolding process_encryption_header
  write-Arrives p [] rest s at file =
      waiting p [] s s refl (subst (λ q. At C N r plain D base q s) (sym (append-nil p)) at)
  write-Arrives p (b ∷ y) rest s at file = from_nonempty p (b ∷ y) rest s at (omega arith) file

  feed-Arrives :
      (p : Bytes) (ps : List Bytes) (s : DecryptSink C N)
      → At C N r plain D base p s
      → p ++ join ps ≡ seal C r plain
      → Arrives C N r plain D base (seal C r plain) tt (feed (decrypt_write C N) ps s)
  unfolding feed
  feed-Arrives p [] s at file = record {
    after = s;
    returns = refl;
    at = subst (λ q. At C N r plain D base q s) (sym (append-nil p) ∙ file) at;
  }
  feed-Arrives p (y ∷ ys) s at file =
      let w : Goes p y s = write-Arrives p y (join ys) s at (append_assoc p y (join ys) ∙ file) in
      rw w.returns (feed-Arrives (p ++ y) ys w.after w.at (append_assoc p y (join ys) ∙ file))

  -- Behind the whole file all of the plaintext has been handed on.
  At-whole :
      (s : DecryptSink C N)
      → At C N r plain D base (seal C r plain) s
      → D.received s.next_sink ≡ base ++ plain
  At-whole s (starting next short had e) =
      absurd (omega (arith, Header.sealed_size_lem C L r sized N plain))
  At-whole s (keys next w short had split e) =
      absurd (omega (arith, Header.sealed_size_lem C L r sized N plain, ap length split))
  At-whole s (flowing next e f z left whole foot in_order some_left had split es) =
      let all : ((header C r ++ e) ++ f) ++ (z ++ left) ≡ seal C r plain =
        regroup (header C r) e f z left in_order
        ∙ ap₂ (λ a b. (header C r ++ a) ++ b) whole foot
        ∙ unfold seal in refl in
      absurd (
        omega (
          arith,
          ap length all,
          ap length split,
          length-append ((header C r ++ e) ++ f) (z ++ left),
          length-append z left,
        ))
  At-whole s (done next had split e) =
      ap (λ (t : DecryptSink C N). D.received t.next_sink) e
      ∙ had
      ∙ ap (λ t. base ++ t) (L.decrypts r.key r.nonce plain)

-- A file that an `Encryptor` made, pushed through a `DecryptSink` for its size in pieces of any
-- sizes, in front of any output that delivers: no call raises, and the output has received exactly
-- the plaintext.
pub decrypt_sink_roundtrip :
    (C : Crypto) (L : IsLawful C) (r : Random) (sized : HasSizes r) (N : Output) (D : Delivers N)
    (plain : Bytes) (next : N.State) (pieces : List Bytes)
    → join pieces ≡ seal C r plain
    → (s t : DecryptSink C N) × (new_decrypt_sink C N (pos (length (seal C r plain))) next ≡ ok s)
      × (feed (decrypt_write C N) pieces s ≡ (ok tt, t))
      × (D.received t.next_sink ≡ D.received next ++ plain)
unfolding new_decrypt_sink
decrypt_sink_roundtrip C L r sized N D plain next pieces file =
    let a : Arrives C N r plain D (D.received next) (seal C r plain) tt _ =
      feed-Arrives C L r sized N D plain (D.received next) [] pieces
        (starting_state C N r plain next []) (starting next (omega arith) refl refl) file in
    (
      starting_state C N r plain next [],
      a.after,
      refl,
      a.returns,
      At-whole C L r sized N D plain (D.received next) a.after a.at,
    )
