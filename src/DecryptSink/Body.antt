-- ===== src/DecryptSink/Body.antt =====
-- The part of `DecryptSink.write` behind the header.
use rohmu.Base.{
  Bytes, length, Outcome, ◌≡◌, ◌++◌, pos, ◌≤◌, ◌<◌, ok, None, ◌+◌, ge→ltb, lt→ltb, [], ◌∙◌, ◌-ℕ◌,
  ◌==◌, ap, arith, false, true, sym, length-append, take-append, drop-append, refl, append-nil, ◌∷◌,
  append_assoc, Bool-cases, ap₂, ltb, suc, inl, split_prefix, ltb→lt, inr, ltb→ge,
}
use rohmu.Crypto.{Crypto, IsLawful, Random, HasSizes}
use rohmu.Encryptor.Seal.{header, seal}
use rohmu.Decryptor.{Decryptor}
use rohmu.Sink.{Output}
use rohmu.Sink.Delivery.{Delivers}
use rohmu.DecryptSink.{
  DecryptSink, with_decryptor, extract_footer, finish_footer, decrypt_some, count_received, Bytes,
  decrypt_data,
}
use rohmu.DecryptSink.Keys.{
  ready, spent, after_decrypting, process_data-ready, finalize-ready, decrypted,
}
use rohmu.DecryptSink.States.{
  Arrives, flowing, done, flowing_state, crypted, footer_bytes, Forwards, forward-Forwards,
}

-- Where the bytes `z ++ y` stand, behind a header, some ciphertext and some of the footer.
pub regroup :
    (h e f z y : Bytes)
    → (0 < length f → z ≡ [])
    → ((h ++ e) ++ f) ++ (z ++ y) ≡ (h ++ (e ++ z)) ++ (f ++ y)
regroup h e [] z y imp = simp (append-nil, append_assoc)
regroup h e (b ∷ f) z y imp = rw (imp (omega arith)) (simp (append-nil, append_assoc))

module _ (C : Crypto) (L : IsLawful C) (r : Random) (sized : HasSizes r) (N : Output)
    (D : Delivers N) (plain : Bytes) where
  expected_bytes :
      (e z : Bytes)
      → e ++ z ≡ crypted C N r plain
      → (pos (length (crypted C N r plain)) -ℕ length e) ≡ pos (length z)
  expected_bytes e z h =
      let l : length (crypted C N r plain) ≡ length e + length z =
        ap length (sym h) ∙ length-append e z in
      rw l (ground arith)

  extract-whole :
      (next : N.State) (e z f y : Bytes)
      → e ++ z ≡ crypted C N r plain
      → length y ≤ length z
      → extract_footer C N y (flowing_state C N r plain next e f (ready C r e))
        ≡ (ok y, flowing_state C N r plain next e f (ready C r e))
  unfolding extract_footer
  extract-whole next e z f y h le = rw (expected_bytes e z h, ge→ltb (length z) (length y) le)

  extract-split :
      (next : N.State) (e z f y : Bytes)
      → e ++ z ≡ crypted C N r plain
      → 0 < length y
      → extract_footer C N (z ++ y) (flowing_state C N r plain next e f (ready C r e))
        ≡ (ok z, flowing_state C N r plain next e (f ++ y) (ready C r e))
  unfolding extract_footer
  extract-split next e z f y h some_y = rw (
    expected_bytes e z h,
    lt→ltb (length z) (length (z ++ y)) (omega (arith, length-append z y)),
    take-append (length z) z y refl,
    drop-append (length z) z y refl,
  )

  -- The state when `crypted` has been counted and decrypted.
  abbrev counted_state : N.State → Bytes → Bytes → Bytes → Decryptor C → DecryptSink C N
  counted_state next e c f d = record (flowing_state C N r plain next e f d) {
    data_bytes_received = length e + length c;
  }

  abbrev piece : Bytes → Bytes → Bytes
  piece e c = (C.cipher_update c (after_decrypting C r e)).0

  finish_partial :
      (s : DecryptSink C N) (bytes : Bytes)
      → length s.footer < 32
      → finish_footer C N bytes s ≡ (ok bytes, s)
  unfolding finish_footer
  finish_partial s bytes short = let e : (length s.footer == 32) ≡ false = ground arith in rw e

  finish_complete :
      (next : N.State) (e c : Bytes) (bytes : Bytes)
      → e ++ c ≡ crypted C N r plain
      → finish_footer C N bytes
          (counted_state next e c (footer_bytes C N r plain) (ready C r (e ++ c)))
        ≡ (ok (bytes ++ []), counted_state next e c (footer_bytes C N r plain) (spent C r))
  unfolding finish_footer with_decryptor
  finish_complete next e c bytes h =
      let t : (length (footer_bytes C N r plain) == 32) ≡ true = rw L.length-hmac in
      rw t (rw h (rw (finalize-ready C L r sized plain)))

  pub record Decrypts (next : N.State) (e c f : Bytes) (d : Decryptor C)
      (o : Outcome None × DecryptSink C N) : Type 0 where
    pub after : N.State
    pub returns : o ≡ (ok tt, flowing_state C N r plain after (e ++ c) f d)
    pub delivered : D.received after ≡ D.received next ++ piece e c

  decrypt_steps :
      (y c : Bytes) (next : N.State) (e f f' : Bytes) (d : Decryptor C) (bytes : Bytes)
      → extract_footer C N y (flowing_state C N r plain next e f (ready C r e))
        ≡ (ok c, flowing_state C N r plain next e f' (ready C r e))
      → finish_footer C N (piece e c) (counted_state next e c f' (ready C r (e ++ c)))
        ≡ (ok bytes, counted_state next e c f' d)
      → bytes ≡ piece e c
      → Decrypts next e c f' d
          (decrypt_some C N y (flowing_state C N r plain next e f (ready C r e)))
  unfolding decrypt_some count_received with_decryptor
  decrypt_steps y c next e f f' d bytes extracts finishes same =
      let w : Forwards D bytes (counted_state next e c f' d) _ =
        forward-Forwards C N D bytes (counted_state next e c f' d) in
      record {
        after = w.next;
        returns =
            rw (extracts, decrypt_some)
              (rw (process_data-ready C L r sized e c, finishes)
                (w.returns
                  ∙ ap
                      (λ n. (
                        ok tt,
                        record (flowing_state C N r plain w.next (e ++ c) f' d) {
                          data_bytes_received = n;
                        },
                      ))
                      (sym (length-append e c))));
        delivered = w.delivered ∙ ap (λ t. D.received next ++ t) same;
      }

  decrypt_data-some :
      (y : Bytes) (s : DecryptSink C N) → 0 < length y → decrypt_data C N y s ≡ decrypt_some C N y s
  unfolding decrypt_data
  decrypt_data-some [] s h = elim h [ ]
  decrypt_data-some (b ∷ bs) s h = refl

  decrypted-append :
      (base e c : Bytes) (next after : N.State)
      → D.received next ≡ base ++ decrypted C r e
      → D.received after ≡ D.received next ++ piece e c
      → D.received after ≡ base ++ decrypted C r (e ++ c)
  decrypted-append base e c next after before delivered =
      delivered
      ∙ ap (λ t. t ++ piece e c) before
      ∙ append_assoc base (decrypted C r e) (piece e c)
      ∙ ap (λ (t : Bytes × C.Cipher). base ++ t.0)
          (sym (L.update-append e c (C.decryptor r.key r.nonce)))

  regroup_inside : (h e f y : Bytes) → f ≡ [] → ((h ++ e) ++ f) ++ y ≡ (h ++ (e ++ y)) ++ f
  regroup_inside h e f y none_yet = rw none_yet (simp (append-nil, append_assoc))

  footer_free : (f z : Bytes) → (0 < length f → z ≡ []) → 0 < length z → f ≡ []
  footer_free [] z imp some_z = refl
  footer_free (b ∷ f) z imp some_z = absurd (omega (arith, ap length (imp (omega arith))))

  module _ (base : Bytes) (next : N.State) (e f z left : Bytes)
      (whole : e ++ z ≡ crypted C N r plain) (foot : f ++ left ≡ footer_bytes C N r plain)
      (in_order : 0 < length f → z ≡ []) (some_left : 0 < length left)
      (had : D.received next ≡ base ++ decrypted C r e) where
    abbrev here : DecryptSink C N
    here = flowing_state C N r plain next e f (ready C r e)

    footer_sizes : length f + length left ≡ 32
    footer_sizes = sym (length-append f left) ∙ ap length foot ∙ L.length-hmac _

    -- The bytes stay within the ciphertext.
    inside :
        (y z2 : Bytes)
        → 0 < length y
        → z ≡ y ++ z2
        → Arrives C N r plain D base (((header C r ++ e) ++ f) ++ y) tt (decrypt_data C N y here)
    inside y z2 some_y split =
        let lz : length z ≡ length y + length z2 = ap length split ∙ length-append y z2 in
        let no_footer : f ≡ [] = footer_free f z in_order (omega arith) in
        let steps : Decrypts next e y f (ready C r (e ++ y)) _ =
          decrypt_steps y y next e f f (ready C r (e ++ y)) (piece e y)
            (extract-whole next e z f y whole (omega arith))
            (finish_partial _ (piece e y) (omega (arith, ap length no_footer))) refl in
        record {
          after = flowing_state C N r plain steps.after (e ++ y) f (ready C r (e ++ y));
          returns = decrypt_data-some y here some_y ∙ steps.returns;
          at =
              flowing steps.after (e ++ y) f z2 left
                (append_assoc e y z2 ∙ ap (λ t. e ++ t) (sym split) ∙ whole) foot
                (λ h. absurd (omega (arith, ap length no_footer))) some_left
                (decrypted-append base e y next steps.after had steps.delivered)
                (regroup_inside (header C r) e f y no_footer) refl;
        }

    -- The bytes go on into the footer, or are all of it.
    across :
        (y y2 rest : Bytes)
        → 0 < length y2
        → y ≡ z ++ y2
        → y2 ++ rest ≡ left
        → Arrives C N r plain D base (((header C r ++ e) ++ f) ++ y) tt (decrypt_data C N y here)
    unfolding seal
    across y y2 [] some_y split last =
        let full : f ++ y2 ≡ footer_bytes C N r plain =
          ap (λ t. f ++ t) (sym (append-nil y2) ∙ last) ∙ foot in
        let steps : Decrypts next e z (footer_bytes C N r plain) (spent C r) _ =
          decrypt_steps (z ++ y2) z next e f (footer_bytes C N r plain) (spent C r)
            (piece e z ++ [])
            (extract-split next e z f y2 whole some_y
              ∙ ap (λ t. (ok z, flowing_state C N r plain next e t (ready C r e))) full)
            (finish_complete next e z (piece e z) whole) (append-nil _) in
        record {
          after =
              flowing_state C N r plain steps.after (crypted C N r plain) (footer_bytes C N r plain)
                (spent C r);
          returns =
              ap (λ t. decrypt_data C N t here) split
              ∙ decrypt_data-some (z ++ y2) here (omega (arith, length-append z y2))
              ∙ steps.returns
              ∙ ap
                  (λ t. (
                    ok tt,
                    flowing_state C N r plain steps.after t (footer_bytes C N r plain) (spent C r),
                  ))
                  whole;
          at =
              done steps.after
                (decrypted-append base e z next steps.after had steps.delivered
                  ∙ ap (λ t. base ++ decrypted C r t) whole)
                (ap (λ t. ((header C r ++ e) ++ f) ++ t) split
                  ∙ regroup (header C r) e f z y2 in_order
                  ∙ ap₂ (λ a b. (header C r ++ a) ++ b) whole full)
                refl;
        }
    across y y2 (b ∷ rest) some_y split last =
        let sizes : length y2 + suc (length rest) ≡ length left =
          sym (length-append y2 (b ∷ rest)) ∙ ap length last in
        let steps : Decrypts next e z (f ++ y2) (ready C r (e ++ z)) _ =
          decrypt_steps (z ++ y2) z next e f (f ++ y2) (ready C r (e ++ z)) (piece e z)
            (extract-split next e z f y2 whole some_y)
            (finish_partial _ (piece e z) (omega (arith, length-append f y2, footer_sizes))) refl in
        record {
          after = flowing_state C N r plain steps.after (e ++ z) (f ++ y2) (ready C r (e ++ z));
          returns =
              ap (λ t. decrypt_data C N t here) split
              ∙ decrypt_data-some (z ++ y2) here (omega (arith, length-append z y2))
              ∙ steps.returns;
          at =
              flowing steps.after (e ++ z) (f ++ y2) [] (b ∷ rest) (append-nil (e ++ z) ∙ whole)
                (append_assoc f y2 (b ∷ rest) ∙ ap (λ t. f ++ t) last ∙ foot) (λ _. refl)
                (omega arith) (decrypted-append base e z next steps.after had steps.delivered)
                (ap (λ t. ((header C r ++ e) ++ f) ++ t) split
                  ∙ regroup (header C r) e f z y2 in_order)
                refl;
        }

    -- Whatever the next bytes of the file are, the sink goes on from them.
    pub decrypt_data-Arrives :
        (y rest : Bytes)
        → 0 < length y
        → y ++ rest ≡ z ++ left
        → Arrives C N r plain D base (((header C r ++ e) ++ f) ++ y) tt (decrypt_data C N y here)
    decrypt_data-Arrives y rest some_y h = elim (Bool-cases (ltb (length z) (length y))) [
      | inl longer ↦
          let (y2, e2, e3) = split_prefix z y rest left h (omega (arith, ltb→lt _ _ longer)) in
          across y y2 rest (omega (arith, ltb→lt _ _ longer, ap length e2, length-append z y2)) e2
            e3
      | inr shorter ↦
          let (z2, e2, _) = split_prefix y z left rest (sym h) (ltb→ge _ _ shorter) in
          inside y z2 some_y e2
    ]
