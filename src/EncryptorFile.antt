-- ===== src/EncryptorFile.antt =====
-- rohmu/encryptor.py: `EncryptorFile`, which encrypts what is written to it, over `FileWrap`, of
-- rohmu/filewrap.py. The file underneath is a parameter, with its `write`; its `flush` changes nothing here.
pub mod Saved
use rohmu.Base.{
  ℕ, Bytes, Option, some, Method, err, None, ok, pure, ◌>>=◌, Bool, uninitialized, raise, ◌+◌, ◌∷◌,
  none, true, value_error, length, [],
}
use rohmu.Crypto.{Crypto, Random}
use rohmu.Sink.{Output}
use rohmu.Encryptor.{Encryptor, new_encryptor, update, finalize}
use rohmu.DecryptorFile.{FileState, opened, ended, closed}

module _ (C : Crypto) (N : Output) where
  pub record EncryptorFile : Type 0 where
    pub next_fp : N.State
    pub maybe_encryptor : Option (Encryptor C)
    pub offset : ℕ
    pub state : FileState

  unfoldable pub new_encryptor_file : N.State → EncryptorFile
  new_encryptor_file next_fp = record {
    next_fp = next_fp;
    maybe_encryptor = some (new_encryptor C);
    offset = 0;
    state = opened;
  }

  -- A call of the encryptor that is there
  unfoldable pub on_encryptor :
      {A : Type 0} → Method (Encryptor C) A → Option (Encryptor C) → Method EncryptorFile A
  on_encryptor call none s = (err uninitialized, s)
  on_encryptor call (some e) s = let r = call e in (r.0, record s { maybe_encryptor = some r.1 })

  unfoldable pub encrypting : {A : Type 0} → Method (Encryptor C) A → Method EncryptorFile A
  encrypting call s = on_encryptor call s.maybe_encryptor s

  -- `self.next_fp.write(..)`, whose count is passed over
  unfoldable pub write_next : Bytes → Method EncryptorFile ℕ
  write_next bytes s = let r = N.write bytes s.next_fp in (r.0, record s { next_fp = r.1 })

  unfoldable pub check_open : FileState → Method EncryptorFile None
  check_open closed = raise value_error
  check_open opened = pure tt
  check_open ended = pure tt

  unfoldable pub advance : ℕ → Method EncryptorFile ℕ
  advance n s = (ok n, record s { offset = s.offset + n })

  unfoldable pub write_data : Random → Bytes → Method EncryptorFile ℕ
  write_data r [] = pure 0
  write_data r (b ∷ bytes) = encrypting (update C r (b ∷ bytes)) >>= λ encrypted.
      write_next encrypted >>= λ _. advance (length (b ∷ bytes))

  unfoldable pub write : Random → Bytes → Method EncryptorFile ℕ
  write r bytes s = (check_open s.state >>= λ _. write_data r bytes) s

  unfoldable pub flush : Method EncryptorFile None
  flush s = check_open s.state s

  unfoldable pub set_closed : Method EncryptorFile None
  set_closed s = (ok tt, record s { maybe_encryptor = none; state = closed })

  -- A file that is not closed gets what `finalize` gives, before it is closed.
  unfoldable pub close_in : FileState → Method EncryptorFile None
  close_in closed = pure tt
  close_in opened =
      encrypting (finalize C) >>= λ final. write_next final >>= λ _. flush >>= λ _. set_closed
  close_in ended =
      encrypting (finalize C) >>= λ final. write_next final >>= λ _. flush >>= λ _. set_closed

  unfoldable pub close : Method EncryptorFile None
  close s = close_in s.state s

  unfoldable pub writable : Method EncryptorFile Bool
  writable s = (check_open s.state >>= λ _. pure true) s
