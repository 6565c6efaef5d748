-- ===== src/DecryptorFile/Calls.antt =====
-- rohmu/encryptor.py and rohmu/filewrap.py: the calls of a `DecryptorFile` that a caller makes.
use rohmu.Base.{
  Method, Bytes, ℕ, Option, ℤ, Bool, None, pure, loop_forever, suc, ok, some, ◌>>=◌, if◌then◌else◌,
  raise, ◌∷◌, length, [], true, negsuc, value_error, err, pos, none, ◌++◌, ltb,
  unsupported_operation, zero, false, is_negative,
}
use rohmu.DecryptorFile.{
  FileState, DecryptorFile, initialize_decryptor, read_block, same_offset, get_plaintext_size,
  closed, io_block_size, ended, opened,
}
use rohmu.Crypto.{Crypto}

module _ (C : Crypto) where
  unfoldable pub check_not_closed : FileState → Method (DecryptorFile C) None
  check_not_closed closed = raise value_error
  check_not_closed opened = pure tt
  check_not_closed ended = pure tt

  unfoldable pub checked : {A : Type 0} → Method (DecryptorFile C) A → Method (DecryptorFile C) A
  checked call s = (check_not_closed s.state >>= λ _. call) s

  -- What is done with a block of `_read_all`
  unfoldable pub with_block :
      (Bytes → Method (DecryptorFile C) Bytes) → Bytes → Bytes → Method (DecryptorFile C) Bytes
  with_block next full_data [] = pure full_data
  with_block next full_data (b ∷ block) = next (full_data ++ b ∷ block)

  -- `_read_all`, with a bound on its rounds
  unfoldable pub all_rounds : ℕ → Bytes → Method (DecryptorFile C) Bytes
  all_rounds zero full_data = loop_forever
  all_rounds (suc rounds) full_data =
      read_block C io_block_size >>= λ block. with_block (all_rounds rounds) full_data block

  -- Each round but the last gives a byte at least.
  unfoldable pub read_all : Method (DecryptorFile C) Bytes
  read_all s = all_rounds (suc (length s.raw)) [] s

  -- `read`; a size of None, or below 0, stands for all.
  unfoldable pub read_size : Option ℤ → Method (DecryptorFile C) Bytes
  read_size none = read_all
  read_size (some (negsuc n)) = read_all
  read_size (some (pos zero)) = pure []
  read_size (some (pos (suc n))) = read_block C (suc n)

  unfoldable pub read_in : FileState → Option ℤ → Method (DecryptorFile C) Bytes
  read_in ended size = pure []
  read_in opened size = read_size size
  read_in closed size = read_size size

  unfoldable pub read : Option ℤ → Method (DecryptorFile C) Bytes
  read size = checked (λ s. read_in s.state size s)

  -- `seek`: from the start, from the current place and from the end
  unfoldable pub set_offset : ℤ → Method (DecryptorFile C) ℤ
  set_offset offset s = (ok offset, record s { offset = offset })

  -- `offset > plaintext_size`
  unfoldable pub exceeds : ℤ → ℤ → Bool
  exceeds (pos a) (pos b) = ltb b a
  exceeds (pos a) (negsuc b) = true
  exceeds (negsuc a) (pos b) = false
  exceeds (negsuc a) (negsuc b) = ltb a b

  unfoldable pub seek_set : ℤ → ℤ → Method (DecryptorFile C) ℤ
  seek_set offset plaintext_size s =
      if same_offset offset s.offset
      then (ok s.offset, s)
      else if exceeds offset plaintext_size
      then (err unsupported_operation, s)
      else if is_negative offset
      then (err value_error, s)
      else set_offset offset s

  unfoldable pub seek_from : ℕ → ℤ → ℤ → Method (DecryptorFile C) ℤ
  seek_from zero offset plaintext_size s = seek_set offset plaintext_size s
  seek_from (suc zero) offset plaintext_size s =
      if same_offset offset (pos 0) then (ok s.offset, s) else (err unsupported_operation, s)
  seek_from (suc (suc zero)) offset plaintext_size s =
      if same_offset offset (pos 0)
      then set_offset plaintext_size s
      else (err unsupported_operation, s)
  seek_from (suc (suc (suc whence))) offset plaintext_size s = (err value_error, s)

  unfoldable pub seek : ℤ → ℕ → Method (DecryptorFile C) ℤ
  seek offset whence = checked (
      initialize_decryptor C >>= λ _.
      get_plaintext_size C >>= λ plaintext_size. seek_from whence offset plaintext_size)

  unfoldable pub tell : Method (DecryptorFile C) ℤ
  tell = checked (λ s. (ok s.offset, s))

  unfoldable pub readable : Method (DecryptorFile C) Bool
  readable = checked (pure true)

  unfoldable pub seekable : Method (DecryptorFile C) Bool
  seekable = checked (pure true)

  -- The file underneath stays open, unless it is a wrapper itself.
  unfoldable pub close : Method (DecryptorFile C) None
  close s = (ok tt, record s { state = closed; maybe_decryptor = none })
