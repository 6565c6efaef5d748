-- ===== src/DecryptorFile/Blocks.antt =====
-- rohmu/encryptor.py: a read of a `DecryptorFile` whose place is that of its decryptor.
use rohmu.Encryptor.Seal.{seal}
use rohmu.DecryptorFile.Pieces.{Behind, next_bytes-Steps}
use rohmu.Crypto.{IsLawful, Random, HasSizes}
use rohmu.Base.{
  ◌<◌, ◌%◌, ◌≡◌, ◌+◌, ◌≤◌, ◌⊎◌, Bool-cases, leb, max, inl, arith, inr, ltb, ◌&&◌, not, ◌==◌, Bytes,
  none, pos, length, suc, some, ok, false, take, true, drop, length-take, length-drop, ◌-◌, ◌∙◌, ap,
  refl,
}
use rohmu.DecryptorFile.{
  amount, ℕ, read_levels, Crypto, read_nonempty, get_crypted_size, initialize_decryptor,
  initialize_if, get_plaintext_size, DecryptorFile, block_or_more, plaintext_size_of, decrypt_more,
  read_within, serve_decrypted, same_offset, pass_on, move_to, read_placed,
}

-- How much is read at the start of a block, in front of the end
amount_lem :
    (size o total : ℕ)
    → o < total
    → 0 < size
    → o % 16 ≡ 0
    → (0 < amount size o total)
      × (o + amount size o total ≤ total)
      × (((o + amount size o total) % 16 ≡ 0) ⊎ (o + amount size o total ≡ total))
      × (16 ≤ size → amount size o total ≤ size)
      × (size < 16 → amount size o total ≤ 16)
unfolding amount
amount_lem size o total more some_asked aligned = elim (Bool-cases (leb total (o + max 16 size))) [
  | inl e ↦ rw e (
    omega (arith, more),
    omega (arith, more),
    inr (omega (arith, more)),
    λ large. ground arith,
    λ small. ground arith,
  )
  | inr e ↦ elim (Bool-cases (ltb 16 size && not (size % 16 == 0) && ltb (o + size) total)) [
    | inl d ↦
        rw (e, d)
          (
            ground arith,
            ground arith,
            inl (omega (arith, aligned)),
            λ large. omega arith,
            λ small. ground arith,
          )
    | inr d ↦ elim (Bool-cases (ltb size 16)) [
      | inl c ↦
          rw (e, d, c)
            (
              omega arith,
              ground arith,
              inl (omega (arith, aligned)),
              λ large. ground arith,
              λ small. omega arith,
            )
      | inr c ↦
          rw (e, d, c)
            (
              some_asked,
              ground arith,
              inl (ground arith),
              λ large. omega arith,
              λ small. ground arith,
            )
    ]
  ]
]

-- A read at the place of the decryptor goes straight to the block held or to the bytes that follow.
pub placed_lem :
    (C : Crypto) (levels size k total crypted_size : ℕ) (s : DecryptorFile C)
    → s.maybe_crypted_size ≡ some (suc crypted_size)
    → s.maybe_plaintext_size ≡ some (pos total)
    → s.offset ≡ pos k
    → s.decrypt_offset ≡ k
    → k < total
    → read_levels C (suc levels) size s
      ≡ block_or_more C (read_levels C levels) size k (pos total) s.maybe_boundary_block s
unfolding read_levels read_nonempty get_crypted_size initialize_decryptor initialize_if
    get_plaintext_size plaintext_size_of read_within same_offset move_to read_placed
placed_lem C levels size k total crypted_size s sized long at same more =
    let inside : (k == total) ≡ false = ground (arith, more) in
    let here : (k == k) ≡ true = ground arith in rw (sized, long, at, same, inside, here) refl

module _ (C : Crypto) (L : IsLawful C) (r : Random) (sized : HasSizes r) (plain : Bytes) where
  -- Between two reads, at the start of a block that has not been decrypted ahead
  abbrev pub AtBlock : ℕ → DecryptorFile C → Type 0
  AtBlock k s =
      Behind C L r sized plain k s
      × (s.maybe_boundary_block ≡ none)
      × (s.offset ≡ pos k)
      × (s.decrypt_offset ≡ k)
      × ((k % 16 ≡ 0) ⊎ (k ≡ length plain))

  pub seal_pos : 0 < length (seal C r plain)
  unfolding seal
  seal_pos = omega arith

  -- A read of a block at least, at the start of a block: so many bytes of the plaintext, behind which the
  -- file is at the start of a block again, or at the end.
  pub large_read :
      (levels size k : ℕ) (s : DecryptorFile C)
      → 16 ≤ size
      → k < length plain
      → AtBlock k s
      → (t : DecryptorFile C) × (read_levels C (suc levels) size s
          ≡ (ok (take (amount size k (length plain)) (drop k plain)), t))
        × AtBlock (k + amount size k (length plain)) t
        × (0 < amount size k (length plain))
  unfolding block_or_more decrypt_more serve_decrypted pass_on
  large_read levels size k s large more (behind, none_held, at, same, place) =
      let total = length plain in
      let n = amount size k total in
      let aligned : k % 16 ≡ 0 = elim place [
        | inl e ↦ e
        | inr e ↦ absurd (omega (arith, e, more))
      ] in
      let (some_read, within, next_place, most, least) =
        amount_lem size k total more (omega arith) aligned in
      let steps = next_bytes-Steps C L r sized plain k n s more some_read within behind in
      let piece = take n (drop k plain) in
      let whole_piece : length piece ≡ n =
        omega (arith, length-take n (drop k plain), length-drop k plain, within) in
      let t : DecryptorFile C = record steps.after {
        offset = pos (k + n);
        decrypt_offset = k + n;
      } in
      let (raw, sizes, plain_size, le, running) = behind in
      let (raw_after, sizes_after, plain_size_after, le_after, running_after) = steps.behind in
      let not_small : ltb size 16 ≡ false = ground arith in
      let passes : serve_decrypted C (read_levels C levels) size k piece steps.after
          ≡ (ok piece, t) =
        rw (not_small, whole_piece, steps.same_place, same) refl in
      (
        t,
        placed_lem C levels size k total (length (seal C r plain) - 1) s
              (sizes ∙ ap some (omega (arith, seal_pos))) plain_size at same more
            ∙ ap (λ b. block_or_more C (read_levels C levels) size k (pos total) b s) none_held
            ∙ steps.goes (serve_decrypted C (read_levels C levels) size k)
            ∙ passes,
        (
          (raw_after, sizes_after, plain_size_after, le_after, running_after),
          steps.same_block ∙ none_held,
          refl,
          refl,
          next_place,
        ),
        some_read,
      )
