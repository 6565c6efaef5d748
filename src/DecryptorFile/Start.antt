-- ===== src/DecryptorFile/Start.antt =====
-- rohmu/encryptor.py: the header of a sealed file, which a `DecryptorFile` reads before its first block.
use rohmu.DecryptorFile.Blocks.{AtBlock}
use rohmu.Encryptor.{cipher_key}
use rohmu.DecryptorFile.Pieces.{read_raw_exactly_lem, decrypting_lem, length-crypted}
use rohmu.Encryptor.Seal.{seal, ciphertext, tag}
use rohmu.DecryptSink.Keys.{
  keyed, key_len, ready, preamble, process_header-preamble, key_len_pos, expected-keyed,
  process_header-key, expected-ready, size_math, length-seal,
}
use rohmu.DecryptorFile.{
  header_rounds, DecryptorFile, header_step, read_results, expected, new_decryptor_file, reset,
  decrypting, read_raw_exactly, initialize_decryptor, initialize_if, get_crypted_size,
  header_size_of, set_plaintext_size, on_decryptor,
}
use rohmu.Decryptor.{
  Decryptor, expected_header_bytes, process_header, new_decryptor, get_header_size,
}
use rohmu.Crypto.{Crypto, IsLawful, Random, HasSizes}
use rohmu.Base.{
  ℕ, Bytes, List, some, ◌≡◌, pos, [], length, ok, suc, bind_ok, ◌++◌, arith, ap, ◌∙◌, length-append,
  sym, take, refl, take-append, ◌>>=◌, drop, drop-append, Method, ◌<◌, append_assoc, None, inl,
  zero, sub_ℕ, ◌+◌, ◌-ℕ◌,
}

module _ (C : Crypto) where
  -- The state behind n more bytes, with the decryptor that has taken them
  abbrev fed : ℕ → Decryptor C → DecryptorFile C → DecryptorFile C
  fed n d s = record s { next_fp = (read_results n n s.next_fp).1; maybe_decryptor = some d }

  header_step_lem :
      (next : Method (DecryptorFile C) None) (n : ℕ)
      → 0 < n
      → header_step C next n
        ≡ (read_raw_exactly C n >>= λ bytes. decrypting C (process_header C bytes) >>= λ _. next)
  unfolding header_step
  header_step_lem next zero h = absurd (omega arith)
  header_step_lem next (suc n) h = refl

  round_lem :
      (rounds n : ℕ) (s : DecryptorFile C) (d after : Decryptor C) (x y : Bytes)
      → 0 < n
      → s.maybe_decryptor ≡ some d
      → expected_header_bytes C d ≡ n
      → length x ≡ n
      → s.next_fp.rest ≡ x ++ y
      → process_header C x d ≡ (ok tt, after)
      → (header_rounds C (suc rounds) s ≡ header_rounds C rounds (fed n after s))
        × ((fed n after s).next_fp.rest ≡ y)
  unfolding header_rounds expected
  round_lem rounds n s d after x y some_asked there asks size rest takes =
      let (reads, leaves) =
        read_raw_exactly_lem C n s some_asked
          (omega (arith, ap length rest ∙ length-append x y, size)) in
      let front : take n s.next_fp.rest ≡ x = ap (take n) rest ∙ take-append n x y (sym size) in
      let t : DecryptorFile C = record s { next_fp = (read_results n n s.next_fp).1 } in
      let asked : decrypting C (expected C) s ≡ (ok n, s) =
        decrypting_lem C (expected C) s d d n there (ap (λ m. (ok m, d)) asks)
        ∙ ap (λ m. (ok n, record s { maybe_decryptor = m })) (sym there) in
      let processed : decrypting C (process_header C x) t ≡ (ok tt, fed n after s) =
        decrypting_lem C (process_header C x) t d after tt there takes in
      (
        bind_ok (decrypting C (expected C)) (header_step C (header_rounds C rounds)) s asked
            ∙ ap (λ (m : Method (DecryptorFile C) None). m s)
                (header_step_lem (header_rounds C rounds) n some_asked)
            ∙ bind_ok (read_raw_exactly C n)
                (λ bytes. decrypting C (process_header C bytes) >>= λ _. header_rounds C rounds) s
                reads
            ∙ ap (λ b. (decrypting C (process_header C b) >>= λ _. header_rounds C rounds) t) front
            ∙ bind_ok (decrypting C (process_header C x)) (λ _. header_rounds C rounds) t processed,
        leaves ∙ ap (drop n) rest ∙ drop-append n x y (sym size),
      )

  -- The look that finds the header complete
  last_round :
      (rounds : ℕ) (s : DecryptorFile C) (d : Decryptor C)
      → s.maybe_decryptor ≡ some d
      → expected_header_bytes C d ≡ 0
      → header_rounds C (suc rounds) s ≡ (ok tt, s)
  unfolding header_rounds header_step expected
  last_round rounds s d there asks =
      bind_ok (decrypting C (expected C)) (header_step C (header_rounds C rounds)) s (
        decrypting_lem C (expected C) s d d 0 there (ap (λ m. (ok m, d)) asks)
        ∙ ap (λ m. (ok 0, record s { maybe_decryptor = m })) (sym there))

module _ (C : Crypto) (L : IsLawful C) (r : Random) (sized : HasSizes r) (plain : Bytes)
    (pieces : List ℕ) where
  abbrev pub unread : DecryptorFile C
  unread = new_decryptor_file C (seal C r plain) pieces

  abbrev behind_preamble : DecryptorFile C
  behind_preamble = fed C 8 (keyed C r) unread

  abbrev behind_header : DecryptorFile C
  behind_header = fed C (key_len C r) (ready C r []) behind_preamble

  abbrev pub started : DecryptorFile C
  started = record behind_header { maybe_plaintext_size = some (pos (length plain)) }

  header_rounds_lem :
      (header_rounds C 3 unread ≡ (ok tt, behind_header))
      × (behind_header.next_fp.rest ≡ ciphertext C r plain ++ tag C r (ciphertext C r plain))
  unfolding seal new_decryptor_file reset expected_header_bytes
  header_rounds_lem =
      let body = ciphertext C r plain in
      let more = body ++ tag C r body in
      let (one, left) =
        round_lem C 2 8 unread (new_decryptor C) (keyed C r) (preamble C r) (cipher_key C r ++ more)
          (omega arith) refl refl refl
          (ap (λ t. preamble C r ++ t) (append_assoc (cipher_key C r) body (tag C r body)))
          (process_header-preamble C L r sized) in
      let (two, then_left) =
        round_lem C 1 (key_len C r) behind_preamble (keyed C r) (ready C r []) (cipher_key C r) more
          (key_len_pos C L r sized) refl (expected-keyed C L r sized) refl left
          (process_header-key C L r sized) in
      (
        one
            ∙ two
            ∙ last_round C 0 behind_header (ready C r []) refl (expected-ready C L r sized []),
        then_left,
      )

  pub initialize_lem : initialize_decryptor C unread ≡ (ok tt, started)
  unfolding initialize_decryptor initialize_if new_decryptor_file reset get_crypted_size
      header_size_of get_header_size set_plaintext_size decrypting on_decryptor seal
  initialize_lem =
      let (goes, rest) = header_rounds_lem in
      let sized_right : (sub_ℕ (length (seal C r plain)) (8 + key_len C r) -ℕ 32)
          ≡ pos (length plain) =
        size_math (length (seal C r plain)) (key_len C r) (length (ciphertext C r plain))
          (length-seal C L r sized plain)
        ∙ ap (λ n. pos n) (length-crypted C L r sized plain) in
      bind_ok (header_rounds C 3)
        (λ _. get_crypted_size C unread.maybe_crypted_size >>= λ crypted_size.
          decrypting C (header_size_of C) >>= λ header_size.
          set_plaintext_size C crypted_size header_size)
        unread goes
      ∙ ap (λ p. (ok tt, record behind_header { maybe_plaintext_size = some p })) sized_right

  pub started-AtBlock : AtBlock C L r sized plain 0 started
  unfolding new_decryptor_file reset seal
  started-AtBlock = (
    (refl, refl, refl, omega arith, λ more. (refl, header_rounds_lem.1)),
    refl,
    refl,
    refl,
    inl refl,
  )
