-- ===== src/DecryptorFile/Pieces.antt =====
-- rohmu/encryptor.py: what a `DecryptorFile` decrypts next, in front of the rest of a sealed file.
use rohmu.S3.Chunks.{read_results-Collected}
use rohmu.DecryptSink.Keys.{after_decrypting, ready, process_data-ready, spent, finalize-ready}
use rohmu.Encryptor.Seal.{ciphertext, tag, seal}
use rohmu.Crypto.{Crypto, IsLawful, Random, HasSizes}
use rohmu.Base.{
  ℕ, Bytes, Method, ◌<◌, ◌≤◌, ◌≡◌, length, ◌++◌, some, is_empty, ok, take, pos, refl, false, drop,
  arith, ap, ◌+◌, sym, suc, ◌==◌, ◌∷◌, true, ◌∙◌, length-take, drop-append, zero, take-append, [],
  take-nil, ◌>>=◌, length-append, length-drop, take_within, take-append-drop, ap₂, drop_within,
  drop-drop, drop_all, Bool-cases, take_all, inl, ==→eq, bind_ok, append-nil, inr,
}
use rohmu.DecryptorFile.{
  decrypting, read_raw_exactly, on_decryptor, exactly, DecryptorFile, Decryptor, read_results,
  finish_if, process_data, footer_size, finalize,
}

pub decrypting_lem :
    {A : Type 0} (C : Crypto) (call : Method (Decryptor C) A) (s : DecryptorFile C)
    (d after : Decryptor C) (a : A)
    → s.maybe_decryptor ≡ some d
    → call d ≡ (ok a, after)
    → decrypting C call s ≡ (ok a, record s { maybe_decryptor = some after })
unfolding decrypting on_decryptor
decrypting_lem C call s d after a there e = rw (there, e) refl

nonempty_take : (n : ℕ) (xs : Bytes) → 0 < n → n ≤ length xs → is_empty (take n xs) ≡ false
nonempty_take zero xs h le = absurd (omega arith)
nonempty_take (suc n) [] h le = absurd (omega arith)
nonempty_take (suc n) (x ∷ xs) h le = refl

pub read_raw_exactly_lem :
    (C : Crypto) (n : ℕ) (s : DecryptorFile C)
    → 0 < n
    → n ≤ length s.next_fp.rest
    → (read_raw_exactly C n s
        ≡ (ok (take n s.next_fp.rest), record s { next_fp = (read_results n n s.next_fp).1 }))
      × ((read_results n n s.next_fp).1.rest ≡ drop n s.next_fp.rest)
unfolding read_raw_exactly exactly
read_raw_exactly_lem C n s some_asked enough =
    let (joins, leaves, each) = read_results-Collected n n s.next_fp (omega arith) in
    let size : (length (take n s.next_fp.rest) == n) ≡ true =
      ground (arith, length-take n s.next_fp.rest) in
    (rw (joins, nonempty_take n s.next_fp.rest some_asked enough, size) refl, leaves)

take_two : (k n : ℕ) (xs : Bytes) → take k xs ++ take n (drop k xs) ≡ take (k + n) xs
take_two zero n xs = let e : 0 + n ≡ n = omega arith in rw e refl
take_two (suc k) n [] = take-nil n ∙ sym (take-nil (suc k + n))
take_two (suc k) n (x ∷ xs) =
    let e : suc k + n ≡ suc (k + n) = omega arith in rw e (ap (λ t. x ∷ t) (take_two k n xs))

module _ (C : Crypto) (L : IsLawful C) (r : Random) (sized : HasSizes r) (plain : Bytes) where
  abbrev pub crypted : Bytes
  crypted = ciphertext C r plain

  abbrev pub footer : Bytes
  footer = tag C r crypted

  pub length-crypted : length crypted ≡ length plain
  length-crypted = L.length-update plain (C.encryptor r.key r.nonce)

  -- A piece of the ciphertext, behind what has been decrypted, is decrypted to the piece of the plaintext at
  -- the same place.
  piece_lem :
      (e z w : Bytes)
      → e ++ (z ++ w) ≡ crypted
      → (C.cipher_update z (after_decrypting C r e)).0 ≡ take (length z) (drop (length e) plain)
  piece_lem e z w parts =
      let c = C.decryptor r.key r.nonce in
      let first = (C.cipher_update e c).0 in
      let piece = (C.cipher_update z (after_decrypting C r e)).0 in
      let others = (C.cipher_update w (C.cipher_update z (after_decrypting C r e)).1).0 in
      let all : first ++ (piece ++ others) ≡ plain =
        ap (λ (t : Bytes × C.Cipher). first ++ t.0)
          (sym (L.update-append z w (after_decrypting C r e)))
        ∙ ap (λ (t : Bytes × C.Cipher). t.0) (sym (L.update-append e (z ++ w) c))
        ∙ ap (λ b. (C.cipher_update b c).0) parts
        ∙ L.decrypts r.key r.nonce plain in
      let at : drop (length e) plain ≡ piece ++ others =
        ap (drop (length e)) (sym all)
        ∙ drop-append (length e) first (piece ++ others) (sym (L.length-update e c)) in
      sym (
        ap (take (length z)) at
        ∙ take-append (length z) piece others (sym (L.length-update z (after_decrypting C r e))))

  -- So many bytes of the ciphertext have gone through the decryptor.
  abbrev pub Behind : ℕ → DecryptorFile C → Type 0
  Behind k s =
      (s.raw ≡ seal C r plain)
      × (s.maybe_crypted_size ≡ some (length (seal C r plain)))
      × (s.maybe_plaintext_size ≡ some (pos (length plain)))
      × (k ≤ length plain)
      × (k < length plain
          → (s.maybe_decryptor ≡ some (ready C r (take k crypted)))
            × (s.next_fp.rest ≡ drop k crypted ++ footer))

  -- The reading and decrypting of n bytes, and of the footer behind the last, in front of what follows
  abbrev pub next_bytes :
      ℕ → ℕ → (Bytes → Method (DecryptorFile C) Bytes) → Method (DecryptorFile C) Bytes
  next_bytes k n next = read_raw_exactly C n >>= λ encrypted.
      decrypting C (process_data C encrypted) >>= λ decrypted.
      finish_if C (k + n == length plain) >>= λ last_part. next (decrypted ++ last_part)

  -- The state behind the next n bytes of the plaintext
  pub record Steps (k n : ℕ) (s : DecryptorFile C) : Type 0 where
    pub after : DecryptorFile C
    pub goes :
        (next : Bytes → Method (DecryptorFile C) Bytes)
        → next_bytes k n next s ≡ next (take n (drop k plain)) after
    pub behind : Behind (k + n) after
    pub same_block : after.maybe_boundary_block ≡ s.maybe_boundary_block
    pub same_place : after.decrypt_offset ≡ s.decrypt_offset

  -- The state once n bytes have been read and decrypted
  abbrev middle : ℕ → ℕ → DecryptorFile C → DecryptorFile C
  middle k n s = record s {
    next_fp = (read_results n n s.next_fp).1;
    maybe_decryptor = some (ready C r (take (k + n) crypted));
  }

  decrypted_lem :
      (k n : ℕ) (s : DecryptorFile C)
      → k < length plain
      → 0 < n
      → k + n ≤ length plain
      → Behind k s
      → ((next : Bytes → Method (DecryptorFile C) Bytes)
          → next_bytes k n next s
            ≡ (finish_if C (k + n == length plain) >>= λ last_part.
                  next (take n (drop k plain) ++ last_part))
                (middle k n s))
        × ((middle k n s).next_fp.rest ≡ drop (k + n) crypted ++ footer)
  decrypted_lem k n s more some_asked within (raw, sizes, total, le, running) =
      let (there, rest) = running more in
      let long = length-crypted in
      let e = take k crypted in
      let z = take n (drop k crypted) in
      let len_rest : length s.next_fp.rest ≡ length (drop k crypted) + length footer =
        ap length rest ∙ length-append (drop k crypted) footer in
      let left = length-drop k crypted in
      let fits : n ≤ length (drop k crypted) = omega (arith, left, long) in
      let (reads, leaves) = read_raw_exactly_lem C n s some_asked (omega (arith, len_rest, fits)) in
      let front : take n s.next_fp.rest ≡ z =
        ap (take n) rest ∙ take_within n (drop k crypted) footer fits in
      let k_long : length e ≡ k = omega (arith, length-take k crypted, long) in
      let z_long : length z ≡ n = omega (arith, length-take n (drop k crypted), fits) in
      let joined : e ++ z ≡ take (k + n) crypted = take_two k n crypted in
      let piece : (C.cipher_update z (after_decrypting C r e)).0 ≡ take n (drop k plain) =
        piece_lem e z (drop n (drop k crypted))
          (ap (λ t. e ++ t) (take-append-drop n (drop k crypted)) ∙ take-append-drop k crypted)
        ∙ ap₂ (λ a b. take a (drop b plain)) z_long k_long in
      let t : DecryptorFile C = record s { next_fp = (read_results n n s.next_fp).1 } in
      let decrypts : decrypting C (process_data C z) t
          ≡ (ok (take n (drop k plain)), middle k n s) =
        decrypting_lem C (process_data C z) t (ready C r e) (ready C r (e ++ z))
          (C.cipher_update z (after_decrypting C r e)).0 there (process_data-ready C L r sized e z)
        ∙ ap₂ (λ a b. (ok a, record t { maybe_decryptor = some (ready C r b) })) piece joined in
      (
        λ next. rw (reads, front, decrypts) refl,
        leaves
            ∙ ap (drop n) rest
            ∙ drop_within n (drop k crypted) footer fits
            ∙ ap (λ b. b ++ footer) (drop-drop n k crypted),
      )

  -- The state once the footer has been read and has been found right
  abbrev finished : ℕ → ℕ → DecryptorFile C → DecryptorFile C
  finished k n s = record (middle k n s) {
    next_fp = (read_results footer_size footer_size (middle k n s).next_fp).1;
    maybe_decryptor = some (spent C r);
  }

  finish_lem :
      (k n : ℕ) (s : DecryptorFile C)
      → k + n ≡ length plain
      → (middle k n s).next_fp.rest ≡ drop (k + n) crypted ++ footer
      → finish_if C true (middle k n s) ≡ (ok [], finished k n s)
  unfolding finish_if
  finish_lem k n s end rest =
      let t = middle k n s in
      let long = length-crypted in
      let only : t.next_fp.rest ≡ footer =
        rest ∙ ap (λ b. b ++ footer) (drop_all (k + n) crypted (omega (arith, end, long))) in
      let size = L.length-hmac (C.hmac_update crypted (C.hmac r.auth_key)) in
      let (reads, _) =
        read_raw_exactly_lem C footer_size t (omega arith) (omega (arith, ap length only, size)) in
      let all : take footer_size t.next_fp.rest ≡ footer =
        ap (take footer_size) only ∙ take_all footer_size footer (omega (arith, size)) in
      let u : DecryptorFile C = record t {
        next_fp = (read_results footer_size footer_size t.next_fp).1;
      } in
      let checks : decrypting C (finalize C footer) u ≡ (ok [], finished k n s) =
        decrypting_lem C (finalize C footer) u (ready C r crypted) (spent C r) []
          (ap (λ b. some (ready C r b)) (take_all (k + n) crypted (omega (arith, end, long))))
          (finalize-ready C L r sized plain) in
      rw (reads, all, checks) refl

  pub next_bytes-Steps :
      (k n : ℕ) (s : DecryptorFile C)
      → k < length plain
      → 0 < n
      → k + n ≤ length plain
      → Behind k s
      → Steps k n s
  unfolding finish_if
  next_bytes-Steps k n s more some_asked within behind =
      let (raw, sizes, total, le, running) = behind in
      let (goes, rest) = decrypted_lem k n s more some_asked within behind in
      let piece = take n (drop k plain) in
      elim (Bool-cases (k + n == length plain)) [
        | inl e ↦
            let end = ==→eq (k + n) (length plain) e in
            record {
              after = finished k n s;
              goes = λ next.
                  goes next
                  ∙ ap
                      (λ b.
                        (finish_if C b >>= λ last_part. next (piece ++ last_part)) (middle k n s))
                      e
                  ∙ bind_ok (finish_if C true) (λ last_part. next (piece ++ last_part))
                      (middle k n s) (finish_lem k n s end rest)
                  ∙ ap (λ b. next b (finished k n s)) (append-nil piece);
              behind = (raw, sizes, total, within, λ less. absurd (omega (arith, end, less)));
              same_block = refl;
              same_place = refl;
            }
        | inr e ↦ record {
          after = middle k n s;
          goes = λ next.
              goes next
              ∙ ap (λ b. (finish_if C b >>= λ last_part. next (piece ++ last_part)) (middle k n s))
                  e
              ∙ ap (λ b. next b (middle k n s)) (append-nil piece);
          behind = (raw, sizes, total, within, λ less. (refl, rest));
          same_block = refl;
          same_place = refl;
        }
      ]
