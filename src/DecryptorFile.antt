-- ===== src/DecryptorFile.antt =====
-- rohmu/encryptor.py: `DecryptorFile`, which reads a sealed file at any place, over `FileWrap`, of
-- rohmu/filewrap.py. The file underneath is given by its contents and by what it has left.
pub mod Calls
pub mod Pieces
pub mod Blocks
pub mod Start
pub mod Whole
use rohmu.S3.Multipart.{read_results}
use rohmu.Decryptor.{
  new_decryptor, Decryptor, get_header_size, expected_header_bytes, process_header, footer_size,
  process_data, finalize,
}
use rohmu.Storage.Readers.{Reader, whole}
use rohmu.Crypto.{Crypto}
use rohmu.Base.{
  negsuc, ℕ, ℤ, Bool, Bytes, some, Method, Option, List, if◌then◌else◌, None, raise, length, none,
  err, is_empty, join, ok, pure, uninitialized, pos, ◌||◌, sub_ℕ, ◌>>=◌, suc, ◌==◌, not, ◌-ℕ◌,
  encryptor_error, false, loop_forever, ◌%◌, leb, ◌+◌, ltb, [], ◌∷◌, diverge, ◌-◌, zero, min, max,
  ◌++◌, take, ◌&&◌, true, drop,
}

pub data FileState : Type 0 where
  opened ended closed : FileState

-- `AES_BLOCK_SIZE` and `IO_BLOCK_SIZE`
abbrev pub aes_block_size : ℕ
aes_block_size = 16

abbrev pub io_block_size : ℕ
io_block_size = 1048576

-- `a == b` of two integers, of which the first is an offset
unfoldable pub same_offset : ℤ → ℤ → Bool
same_offset (pos a) (pos b) = a == b
same_offset (negsuc a) (negsuc b) = a == b
same_offset a b = false

-- `read_size`
unfoldable pub amount : ℕ → ℕ → ℕ → ℕ
amount size o plaintext_size =
    if leb plaintext_size (o + max aes_block_size size)
    then plaintext_size - o
    else if ltb aes_block_size size
        && not (size % aes_block_size == 0)
        && ltb (o + size) plaintext_size
    then size - size % aes_block_size
    else if ltb size aes_block_size
    then aes_block_size
    else size

module _ (C : Crypto) where
  pub record DecryptorFile : Type 0 where
    pub raw : Bytes
    pub next_fp : Reader
    pub maybe_decryptor : Option (Decryptor C)
    pub maybe_crypted_size : Option ℕ
    pub maybe_boundary_block : Option Bytes
    pub maybe_plaintext_size : Option ℤ
    pub decrypt_offset : ℕ
    pub offset : ℤ
    pub state : FileState

  -- `_reset`; the seeks of `_file_size` leave the file underneath at its start.
  unfoldable pub reset : DecryptorFile → DecryptorFile
  reset s = record s {
    next_fp = record { rest = s.raw; pieces = s.next_fp.pieces };
    maybe_decryptor = some (new_decryptor C);
    maybe_crypted_size = some (length s.raw);
    maybe_boundary_block = none;
    maybe_plaintext_size = none;
    decrypt_offset = 0;
    offset = pos 0;
    state = opened;
  }

  unfoldable pub new_decryptor_file : Bytes → List ℕ → DecryptorFile
  new_decryptor_file raw pieces = reset (record {
    raw = raw;
    next_fp = record { rest = raw; pieces = pieces };
    maybe_decryptor = none;
    maybe_crypted_size = none;
    maybe_boundary_block = none;
    maybe_plaintext_size = none;
    decrypt_offset = 0;
    offset = pos 0;
    state = opened;
  })

  -- A call of the decryptor that is there
  unfoldable pub on_decryptor :
      {A : Type 0} → Method (Decryptor C) A → Option (Decryptor C) → Method DecryptorFile A
  on_decryptor call none s = (err uninitialized, s)
  on_decryptor call (some d) s = let r = call d in (r.0, record s { maybe_decryptor = some r.1 })

  unfoldable pub decrypting : {A : Type 0} → Method (Decryptor C) A → Method DecryptorFile A
  decrypting call s = on_decryptor call s.maybe_decryptor s

  unfoldable pub exactly : ℕ → Bytes → Method DecryptorFile Bytes
  exactly n bytes =
      if is_empty bytes || not (length bytes == n) then raise encryptor_error else pure bytes

  -- The reads go on until there is enough, or nothing comes.
  unfoldable pub read_raw_exactly : ℕ → Method DecryptorFile Bytes
  read_raw_exactly n s =
      let r = read_results n n s.next_fp in exactly n (join r.0) (record s { next_fp = r.1 })

  unfoldable pub expected : Method (Decryptor C) ℕ
  expected d = (ok (expected_header_bytes C d), d)

  -- The loop over the header: its preamble, its key, and the look that finds it complete.
  unfoldable pub header_step : Method DecryptorFile None → ℕ → Method DecryptorFile None
  header_step next zero = pure tt
  header_step next (suc n) =
      read_raw_exactly (suc n) >>= λ bytes. decrypting (process_header C bytes) >>= λ _. next

  unfoldable pub header_rounds : ℕ → Method DecryptorFile None
  header_rounds zero = loop_forever
  header_rounds (suc rounds) = decrypting expected >>= λ n. header_step (header_rounds rounds) n

  unfoldable pub header_size_of : Method (Decryptor C) ℕ
  header_size_of d = (get_header_size C d, d)

  unfoldable pub get_crypted_size : Option ℕ → Method DecryptorFile ℕ
  get_crypted_size none = raise uninitialized
  get_crypted_size (some n) = pure n

  unfoldable pub set_plaintext_size : ℕ → ℕ → Method DecryptorFile None
  set_plaintext_size crypted_size header_size s = (
    ok tt,
    record s { maybe_plaintext_size = some (sub_ℕ crypted_size header_size -ℕ footer_size) },
  )

  unfoldable pub initialize_if : Option ℤ → Method DecryptorFile None
  initialize_if (some n) s = (ok tt, s)
  initialize_if none s =
      (header_rounds 3 >>= λ _. get_crypted_size s.maybe_crypted_size >>= λ crypted_size.
      decrypting header_size_of >>= λ header_size. set_plaintext_size crypted_size header_size)
        s

  unfoldable pub initialize_decryptor : Method DecryptorFile None
  initialize_decryptor s = initialize_if s.maybe_plaintext_size s

  -- What is left of a block that has been decrypted ahead
  unfoldable pub serve_boundary : ℕ → ℕ → Bytes → Method DecryptorFile Bytes
  serve_boundary size o block s =
      let from = o % aes_block_size in
      let n = min size (length block - from) in
      let got = take n (drop from block) in
      (
        ok got,
        record s {
          maybe_boundary_block = if from + n == length block then none else some block;
          offset = pos (o + length got);
          decrypt_offset = s.decrypt_offset + length got;
        },
      )

  unfoldable pub keep_boundary : Bytes → Method DecryptorFile None
  keep_boundary block s = (ok tt, record s { maybe_boundary_block = some block })

  unfoldable pub pass_on : ℕ → Bytes → Method DecryptorFile Bytes
  pass_on o decrypted s = (
    ok decrypted,
    record s {
      offset = pos (o + length decrypted);
      decrypt_offset = s.decrypt_offset + length decrypted;
    },
  )

  -- A read of less than a block is served from the block.
  unfoldable pub serve_decrypted :
      (ℕ → Method DecryptorFile Bytes) → ℕ → ℕ → Bytes → Method DecryptorFile Bytes
  serve_decrypted read_block size o decrypted =
      if ltb size aes_block_size
      then (keep_boundary decrypted >>= λ _. read_block size)
      else pass_on o decrypted

  -- The footer, where the last byte has been read
  unfoldable pub finish_if : Bool → Method DecryptorFile Bytes
  finish_if false = pure []
  finish_if true = read_raw_exactly footer_size >>= λ footer. decrypting (finalize C footer)

  unfoldable pub decrypt_more :
      (ℕ → Method DecryptorFile Bytes) → ℕ → ℕ → ℕ → Method DecryptorFile Bytes
  decrypt_more read_block size o plaintext_size =
      let n = amount size o plaintext_size in
      read_raw_exactly n >>= λ encrypted. decrypting (process_data C encrypted) >>= λ decrypted.
      finish_if (o + n == plaintext_size) >>= λ last_part.
      serve_decrypted read_block size o (decrypted ++ last_part)

  -- A file too short for its header and footer has no more bytes to give.
  unfoldable pub read_too_short : Method DecryptorFile Bytes
  read_too_short s = (err encryptor_error, record s { next_fp = whole [] })

  unfoldable pub block_or_more :
      (ℕ → Method DecryptorFile Bytes) → ℕ → ℕ → ℤ → Option Bytes → Method DecryptorFile Bytes
  block_or_more read_block size o plaintext_size (some (b ∷ block)) =
      serve_boundary size o (b ∷ block)
  block_or_more read_block size o (negsuc n) none = read_too_short
  block_or_more read_block size o (negsuc n) (some []) = read_too_short
  block_or_more read_block size o (pos p) none = decrypt_more read_block size o p
  block_or_more read_block size o (pos p) (some []) = decrypt_more read_block size o p

  -- An offset below 0 is only ever that of the end, at which nothing is read.
  unfoldable pub read_placed :
      (ℕ → Method DecryptorFile Bytes) → ℕ → ℤ → ℤ → Method DecryptorFile Bytes
  read_placed read_block size plaintext_size (negsuc o) s = (err encryptor_error, s)
  read_placed read_block size plaintext_size (pos o) s =
      block_or_more read_block size o plaintext_size s.maybe_boundary_block s

  -- `while discard_bytes > 0`; each read gives a byte at least.
  unfoldable pub discard_rounds :
      ℕ → (ℕ → Method DecryptorFile Bytes) → ℕ → Method DecryptorFile None
  discard_rounds rounds read_block zero s = (ok tt, s)
  discard_rounds zero read_block (suc n) s = (diverge, s)
  discard_rounds (suc rounds) read_block (suc n) s =
      (read_block (suc n) >>= λ got. discard_rounds rounds read_block (suc n - length got)) s

  unfoldable pub discard : (ℕ → Method DecryptorFile Bytes) → ℕ → Method DecryptorFile None
  discard read_block seek_to s =
      let n = seek_to - s.decrypt_offset in
      discard_rounds n read_block n (record s { offset = pos s.decrypt_offset })

  unfoldable pub move_to : (ℕ → Method DecryptorFile Bytes) → ℤ → Method DecryptorFile None
  move_to read_block (negsuc o) s = (err encryptor_error, s)
  move_to read_block (pos o) s =
      if s.decrypt_offset == o
      then (ok tt, s)
      else if ltb o s.decrypt_offset
      then (initialize_decryptor >>= λ _. discard read_block o) (reset s)
      else discard read_block o s

  unfoldable pub plaintext_size_of : Option ℤ → Method DecryptorFile ℤ
  plaintext_size_of none = raise uninitialized
  plaintext_size_of (some n) = pure n

  unfoldable pub get_plaintext_size : Method DecryptorFile ℤ
  get_plaintext_size s = plaintext_size_of s.maybe_plaintext_size s

  unfoldable pub read_within : (ℕ → Method DecryptorFile Bytes) → ℕ → ℤ → Method DecryptorFile Bytes
  read_within read_block size plaintext_size s =
      if same_offset s.offset plaintext_size
      then (ok [], s)
      else (move_to read_block s.offset >>= λ _.
            (λ t. read_placed read_block size plaintext_size t.offset t))
          s

  unfoldable pub read_nonempty :
      (ℕ → Method DecryptorFile Bytes) → ℕ → ℕ → Method DecryptorFile Bytes
  read_nonempty read_block size zero = pure []
  read_nonempty read_block size (suc n) = initialize_decryptor >>= λ _.
      get_plaintext_size >>= λ plaintext_size. read_within read_block size plaintext_size

  -- `_read_block`, which calls itself through the moving and then for a part of a block: three levels
  -- are enough.
  unfoldable pub read_levels : ℕ → ℕ → Method DecryptorFile Bytes
  read_levels zero size s = (diverge, s)
  read_levels (suc levels) size s =
      (get_crypted_size s.maybe_crypted_size >>= λ n. read_nonempty (read_levels levels) size n) s

  unfoldable pub read_block : ℕ → Method DecryptorFile Bytes
  read_block size = read_levels 3 size
