-- ===== src/DecryptSink/Header.antt =====
-- `_process_encryption_header` on the first bytes of a sealed file.
use rohmu.Base.{
  Bytes, ◌<◌, ◌≡◌, ℕ, [], ok, drop, ◌==◌, false, some, length, ◌++◌, arith, suc, ◌+◌, none, ◌-◌,
  zero, lt→ltb, ge→ltb, take-append, refl, length-append, ap, Outcome, ◌∷◌, ◌∙◌, bind_ok, ◌>>=◌,
  sym, zero-add, drop-drop, drop-append,
}
use rohmu.Crypto.{Crypto, IsLawful, Random, HasSizes}
use rohmu.Encryptor.{cipher_key}
use rohmu.Decryptor.{expected_header_bytes, get_header_size}
use rohmu.Sink.{Output}
use rohmu.DecryptSink.{
  DecryptSink, with_decryptor, header_loop, after_header, set_data_size, process_encryption_header,
  Bytes,
}
use rohmu.DecryptSink.Keys.{
  key_len, preamble, keyed, ready, process_header-preamble, process_header-key, key_len_pos,
  expected-keyed, expected-ready, size_math, length-seal,
}
use rohmu.DecryptSink.States.{flowing_state, starting_state, keyed_state, crypted, sealed_size}

module _ (C : Crypto) (L : IsLawful C) (r : Random) (sized : HasSizes r) (N : Output)
    (plain : Bytes) where
  pub sealed_size_lem :
      sealed_size C N r plain ≡ 8 + key_len C r + length (crypted C N r plain) + 32
  sealed_size_lem = length-seal C L r sized plain

  loop-ready :
      (fuel : ℕ) (d : Bytes) (offset : ℕ) (s : DecryptSink C N)
      → expected_header_bytes C s.decryptor ≡ 0
      → header_loop C N fuel d offset s ≡ (ok (some offset), s)
  unfolding header_loop
  loop-ready zero d offset s h = rw h
  loop-ready (suc fuel) d offset s h = rw h

  loop-keyed_short :
      (fuel : ℕ) (d w : Bytes) (offset : ℕ) (next : N.State)
      → drop offset d ≡ w
      → length d ≡ offset + length w
      → length w < key_len C r
      → header_loop C N (suc fuel) d offset (keyed_state C N r plain next [])
        ≡ (ok none, keyed_state C N r plain next w)
  unfolding header_loop
  loop-keyed_short fuel d w offset next cut size short = rw (
    expected-keyed C L r sized,
    lt→ltb 0 (key_len C r) (key_len_pos C L r sized),
    lt→ltb (length d) (key_len C r + offset) (omega arith),
    cut,
  )

  abbrev pub opened_state : N.State → DecryptSink C N
  opened_state next = record (keyed_state C N r plain next []) { decryptor = ready C r [] }

  loop-keyed :
      (fuel : ℕ) (d y : Bytes) (offset : ℕ) (next : N.State)
      → drop offset d ≡ cipher_key C r ++ y
      → length d ≡ offset + (key_len C r + length y)
      → header_loop C N (suc fuel) d offset (keyed_state C N r plain next [])
        ≡ (ok (some (offset + key_len C r)), opened_state next)
  unfolding header_loop with_decryptor
  loop-keyed fuel d y offset next cut size =
      let n : offset + key_len C r - offset ≡ key_len C r = omega arith in
      rw
        (
          expected-keyed C L r sized,
          lt→ltb 0 (key_len C r) (key_len_pos C L r sized),
          ge→ltb (length d) (key_len C r + offset) (omega arith),
          n,
          cut,
          take-append (key_len C r) (cipher_key C r) y refl,
          process_header-key C L r sized,
        )
        (loop-ready fuel d (offset + key_len C r) (opened_state next)
          (expected-ready C L r sized []))

  -- The size of the encrypted data, once the header is known.
  after_header-opened :
      (d y : Bytes) (offset : ℕ) (next : N.State)
      → drop offset d ≡ y
      → after_header C N d (some offset) (opened_state next)
        ≡ (ok y, flowing_state C N r plain next [] [] (ready C r []))
  unfolding after_header set_data_size get_header_size
  after_header-opened d y offset next cut = rw cut (
      ap
        (λ n.
          (ok y, record (flowing_state C N r plain next [] [] (ready C r [])) { data_size = n }))
        (size_math (sealed_size C N r plain) (key_len C r) (length (crypted C N r plain))
          sealed_size_lem))

  open_header : Bytes → DecryptSink C N → Outcome Bytes × DecryptSink C N
  open_header d = header_loop C N 2 d 0 >>= after_header C N d

  process-nonempty :
      (y : Bytes) (s : DecryptSink C N)
      → 0 < length y
      → (expected_header_bytes C s.decryptor == 0) ≡ false
      → process_encryption_header C N y s ≡ open_header (s.header ++ y) (record s { header = [] })
  unfolding process_encryption_header open_header
  process-nonempty [] s some_y waits = elim some_y [ ]
  process-nonempty (b ∷ bs) s some_y waits = rw waits

  pub process-flowing :
      (y : Bytes) (next : N.State) (e f : Bytes)
      → process_encryption_header C N y (flowing_state C N r plain next e f (ready C r e))
        ≡ (ok y, flowing_state C N r plain next e f (ready C r e))
  unfolding process_encryption_header expected_header_bytes
  process-flowing [] next e f = refl
  process-flowing (b ∷ bs) next e f = refl

  -- Not yet the whole preamble.
  pub process-starting_short :
      (p y : Bytes) (next : N.State)
      → 0 < length y
      → length (p ++ y) < 8
      → process_encryption_header C N y (starting_state C N r plain next p)
        ≡ (ok [], starting_state C N r plain next (p ++ y))
  unfolding open_header header_loop expected_header_bytes after_header
  process-starting_short p y next some_y short =
      process-nonempty y (starting_state C N r plain next p) some_y refl
      ∙ rw (lt→ltb (length (p ++ y)) 8 short)

  -- The preamble, read in the first round.
  preamble_round :
      (w : Bytes) (next : N.State)
      → header_loop C N 2 (preamble C r ++ w) 0 (starting_state C N r plain next [])
        ≡ header_loop C N 1 (preamble C r ++ w) 8 (keyed_state C N r plain next [])
  unfolding header_loop expected_header_bytes with_decryptor
  preamble_round w next =
      rw (ge→ltb (length (preamble C r ++ w)) 8 (omega arith), process_header-preamble C L r sized)

  pub process-starting_keys :
      (p y w : Bytes) (next : N.State)
      → 0 < length y
      → p ++ y ≡ preamble C r ++ w
      → length w < key_len C r
      → process_encryption_header C N y (starting_state C N r plain next p)
        ≡ (ok [], keyed_state C N r plain next w)
  unfolding open_header after_header
  process-starting_keys p y w next some_y split short =
      process-nonempty y (starting_state C N r plain next p) some_y
        (unfold expected_header_bytes in refl)
      ∙ ap (λ d. open_header d (starting_state C N r plain next [])) split
      ∙ bind_ok (header_loop C N 2 (preamble C r ++ w) 0) (after_header C N (preamble C r ++ w)) _ (
          preamble_round w next
          ∙ loop-keyed_short 0 (preamble C r ++ w) w 8 next refl (omega arith) short)

  pub process-starting_all :
      (p y w : Bytes) (next : N.State)
      → 0 < length y
      → p ++ y ≡ preamble C r ++ (cipher_key C r ++ w)
      → process_encryption_header C N y (starting_state C N r plain next p)
        ≡ (ok w, flowing_state C N r plain next [] [] (ready C r []))
  unfolding open_header
  process-starting_all p y w next some_y split =
      let d : Bytes = preamble C r ++ (cipher_key C r ++ w) in
      process-nonempty y (starting_state C N r plain next p) some_y
        (unfold expected_header_bytes in refl)
      ∙ ap (λ t. open_header t (starting_state C N r plain next [])) split
      ∙ bind_ok (header_loop C N 2 d 0) (after_header C N d) _ (
          preamble_round (cipher_key C r ++ w) next
          ∙ loop-keyed 0 d w 8 next refl (omega (arith, length-append (cipher_key C r) w)))
      ∙ after_header-opened d w (8 + key_len C r) next
          (sym (drop-drop (key_len C r) 8 d) ∙ drop-append (key_len C r) (cipher_key C r) w refl)

  keyed_waits : (expected_header_bytes C (keyed C r) == 0) ≡ false
  keyed_waits = rw (expected-keyed C L r sized) (ground (arith, key_len_pos C L r sized))

  pub process-keyed_short :
      (p y : Bytes) (next : N.State)
      → 0 < length y
      → length (p ++ y) < key_len C r
      → process_encryption_header C N y (keyed_state C N r plain next p)
        ≡ (ok [], keyed_state C N r plain next (p ++ y))
  unfolding open_header after_header
  process-keyed_short p y next some_y short =
      process-nonempty y (keyed_state C N r plain next p) some_y keyed_waits
      ∙ bind_ok (header_loop C N 2 (p ++ y) 0) (after_header C N (p ++ y)) _
          (loop-keyed_short 1 (p ++ y) (p ++ y) 0 next refl (omega arith) short)

  pub process-keyed_all :
      (p y w : Bytes) (next : N.State)
      → 0 < length y
      → p ++ y ≡ cipher_key C r ++ w
      → process_encryption_header C N y (keyed_state C N r plain next p)
        ≡ (ok w, flowing_state C N r plain next [] [] (ready C r []))
  unfolding open_header
  process-keyed_all p y w next some_y split =
      process-nonempty y (keyed_state C N r plain next p) some_y keyed_waits
      ∙ bind_ok (header_loop C N 2 (p ++ y) 0) (after_header C N (p ++ y)) _ (
          loop-keyed 1 (p ++ y) w 0 next split
            (omega (arith, ap length split, length-append (cipher_key C r) w)))
      ∙ after_header-opened (p ++ y) w (0 + key_len C r) next
          (rw (zero-add (key_len C r), split) (drop-append (key_len C r) (cipher_key C r) w refl))
