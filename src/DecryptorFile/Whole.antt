-- ===== src/DecryptorFile/Whole.antt =====
-- rohmu/encryptor.py: `read` of a `DecryptorFile` up to the end of a sealed file.
use rohmu.DecryptorFile.Pieces.{length-crypted}
use rohmu.DecryptSink.Keys.{length-seal}
use rohmu.DecryptorFile.Start.{unread, started, started-AtBlock, initialize_lem}
use rohmu.Encryptor.Seal.{seal}
use rohmu.DecryptorFile.Blocks.{AtBlock, seal_pos, large_read}
use rohmu.DecryptorFile.{
  read_levels, get_crypted_size, read_nonempty, DecryptorFile, initialize_decryptor, initialize_if,
  get_plaintext_size, plaintext_size_of, read_within, same_offset, read_block, amount,
  io_block_size, new_decryptor_file, reset,
}
use rohmu.DecryptorFile.Calls.{
  with_block, all_rounds, read, checked, check_not_closed, read_in, read_size, read_all,
}
use rohmu.Crypto.{Crypto, IsLawful, Random, HasSizes}
use rohmu.Base.{
  ℕ, Bytes, Method, ◌<◌, ◌≡◌, length, ok, some, ◌++◌, arith, suc, ◌∷◌, ◌>>=◌, ap, pos, [], ◌∙◌,
  refl, ◌==◌, bind_ok, true, sym, ◌-◌, ◌+◌, drop, Bool-cases, inl, inr, take, zero, ==→eq, drop_all,
  append-nil, subst, length-take, length-drop, append_assoc, drop-drop, take-append-drop, List,
  none, Outcome, resume,
}

with_block_lem :
    (C : Crypto) (next : Bytes → Method (DecryptorFile C) Bytes) (full_data block : Bytes)
    → 0 < length block
    → with_block C next full_data block ≡ next (full_data ++ block)
unfolding with_block
with_block_lem C next full_data [] h = absurd (omega arith)
with_block_lem C next full_data (b ∷ block) h = refl

-- A first read is that of the file whose header has been read.
first_read :
    (C : Crypto) (levels size n m : ℕ) (s t : DecryptorFile C)
    → initialize_decryptor C s ≡ (ok tt, t)
    → initialize_decryptor C t ≡ (ok tt, t)
    → s.maybe_crypted_size ≡ some (suc n)
    → t.maybe_crypted_size ≡ some (suc m)
    → read_levels C (suc levels) size s ≡ read_levels C (suc levels) size t
unfolding read_levels get_crypted_size read_nonempty
first_read C levels size n m s t begins begun sized_s sized_t =
    let go : Method (DecryptorFile C) Bytes = get_plaintext_size C >>= λ plaintext_size.
    read_within C (read_levels C levels) size plaintext_size in
    ap (λ o. (get_crypted_size C o >>= λ k. read_nonempty C (read_levels C levels) size k) s)
      sized_s
    ∙ bind_ok (initialize_decryptor C) (λ _. go) s begins
    ∙ sym (bind_ok (initialize_decryptor C) (λ _. go) t begun)
    ∙ sym (
        ap (λ o. (get_crypted_size C o >>= λ k. read_nonempty C (read_levels C levels) size k) t)
          sized_t)

-- At the end there is nothing to read.
read_at_end :
    (C : Crypto) (levels size k crypted_size : ℕ) (s : DecryptorFile C)
    → s.maybe_crypted_size ≡ some (suc crypted_size)
    → s.maybe_plaintext_size ≡ some (pos k)
    → s.offset ≡ pos k
    → read_levels C (suc levels) size s ≡ (ok [], s)
unfolding read_levels read_nonempty get_crypted_size initialize_decryptor initialize_if
    get_plaintext_size plaintext_size_of read_within same_offset
read_at_end C levels size k crypted_size s sized long at =
    let here : (k == k) ≡ true = ground arith in rw (sized, long, at, here) refl

module _ (C : Crypto) (L : IsLawful C) (r : Random) (sized : HasSizes r) (plain : Bytes) where
  crypted_size_lem :
      (k : ℕ) (s : DecryptorFile C)
      → AtBlock C L r sized plain k s
      → s.maybe_crypted_size ≡ some (suc (length (seal C r plain) - 1))
  crypted_size_lem k s held = held.0.1 ∙ ap some (omega (arith, seal_pos C L r sized plain))

  -- The rounds of `_read_all` from the start of a block
  all_rounds_lem :
      (rounds k : ℕ) (full_data : Bytes) (s : DecryptorFile C)
      → length plain < k + rounds
      → AtBlock C L r sized plain k s
      → (t : DecryptorFile C) × (all_rounds C rounds full_data s
          ≡ (ok (full_data ++ drop k plain), t))
        × AtBlock C L r sized plain (length plain) t
  unfolding all_rounds read_block with_block
  all_rounds_lem zero k full_data s enough held = absurd (omega (arith, enough, held.0.3))
  all_rounds_lem (suc rounds) k full_data s enough held = elim (Bool-cases (k == length plain)) [
    | inl e ↦
        let (behind, none_held, at, same, place) = held in
        let (raw, sizes, plain_size, within, running) = behind in
        let end = ==→eq k (length plain) e in
        let reads =
          read_at_end C 2 io_block_size k (length (seal C r plain) - 1) s
            (crypted_size_lem k s held) (plain_size ∙ ap (λ m. some (pos m)) (sym end)) at in
        (
          s,
          bind_ok (read_block C io_block_size)
                (λ block. with_block C (all_rounds C rounds) full_data block) s reads
              ∙ ap (λ b. (ok b, s))
                  (sym (
                    ap (λ b. full_data ++ b) (drop_all k plain (omega (arith, end)))
                    ∙ append-nil full_data)),
          subst (λ m. AtBlock C L r sized plain m s) end held,
        )
    | inr e ↦
        let n = amount io_block_size k (length plain) in
        let piece = take n (drop k plain) in
        let (t, reads, next, some_read) =
          large_read C L r sized plain 2 io_block_size k s (omega arith)
            (ground (arith, e, held.0.3)) held in
        let (u, all, at_end) =
          all_rounds_lem rounds (k + n) (full_data ++ piece) t (omega (arith, enough, some_read))
            next in
        (
          u,
          bind_ok (read_block C io_block_size)
                (λ block. with_block C (all_rounds C rounds) full_data block) s reads
              ∙ ap (λ (m : Method (DecryptorFile C) Bytes). m t)
                  (with_block_lem C (all_rounds C rounds) full_data piece (
                    omega (
                      arith,
                      length-take n (drop k plain),
                      length-drop k plain,
                      some_read,
                      next.0.3,
                    )))
              ∙ all
              ∙ ap (λ b. (ok b, u))
                  (append_assoc full_data piece (drop (k + n) plain)
                    ∙ ap (λ b. full_data ++ b)
                        (ap (λ b. piece ++ b) (sym (drop-drop n k plain))
                          ∙ take-append-drop n (drop k plain))),
          at_end,
        )
  ]

  -- For a lawful cryptography package, keys of the right sizes and any plaintext, and however few bytes at a
  -- time the file underneath gives: a `read()` of a new `DecryptorFile` over the sealed plaintext returns
  -- exactly the plaintext, in blocks up to the end, and leaves the offset behind its last byte.
  pub read-seal :
      (pieces : List ℕ)
      → (t : DecryptorFile C) × (read C none (new_decryptor_file C (seal C r plain) pieces)
          ≡ (ok plain, t))
        × (t.offset ≡ pos (length plain))
  unfolding read checked check_not_closed read_in read_size read_all all_rounds read_block
      new_decryptor_file reset initialize_decryptor initialize_if
  read-seal pieces =
      let s = unread C L r sized plain pieces in
      let t = started C L r sized plain pieces in
      let held = started-AtBlock C L r sized plain pieces in
      let first : read_block C io_block_size s ≡ read_block C io_block_size t =
        first_read C 2 io_block_size (length (seal C r plain) - 1) (length (seal C r plain) - 1) s t
          (initialize_lem C L r sized plain pieces) refl
          (ap some (omega (arith, seal_pos C L r sized plain))) (crypted_size_lem 0 t held) in
      let (u, all, at_end) =
        all_rounds_lem (suc (length (seal C r plain))) 0 [] t
          (omega (arith, length-seal C L r sized plain, length-crypted C L r sized plain)) held in
      (
        u,
        ap
              (λ (q : Outcome Bytes × DecryptorFile C).
                resume q.0 (with_block C (all_rounds C (length (seal C r plain))) []) q.1)
              first
            ∙ all,
        at_end.2,
      )
