-- ===== src/Examples/Sealed.antt =====
-- Files that are written through an `EncryptorFile` and read through a `DecryptorFile`, at concrete
-- inputs.
use rohmu.EncryptorFile.{EncryptorFile, new_encryptor_file}
use rohmu.EncryptorFile.Saved.{Appends, save, save-read}
use rohmu.Sink.{Output}
use rohmu.Base.{ok, none, pos, ◌∷◌, [], ◌≡◌, Bytes, ◌++◌, length, refl}
use rohmu.Encryptor.Seal.{seal}
use rohmu.DecryptorFile.{DecryptorFile, new_decryptor_file}
use rohmu.DecryptorFile.Calls.{read}
use rohmu.DecryptorFile.Whole.{read-seal}
use rohmu.Examples.Toy.{toy_crypto, toy_crypto-IsLawful, toy_random, toy_random-HasSizes}

read-seal_example :
    (t : DecryptorFile toy_crypto) × (read toy_crypto none
        (new_decryptor_file toy_crypto (seal toy_crypto toy_random (1 ∷ 2 ∷ 3 ∷ [])) (5 ∷ 1 ∷ []))
      ≡ (ok (1 ∷ 2 ∷ 3 ∷ []), t))
    × (t.offset ≡ pos 3)
read-seal_example =
    read-seal toy_crypto toy_crypto-IsLawful toy_random toy_random-HasSizes (1 ∷ 2 ∷ 3 ∷ [])
      (5 ∷ 1 ∷ [])

abbrev kept : Output
kept = record { State = Bytes; write = λ bytes s. (ok (length bytes), s ++ bytes) }

abbrev kept-Appends : Appends kept
kept-Appends = record {
  contents = λ s. s;
  next = λ bytes s. s ++ bytes;
  writes = λ bytes s. refl;
  holds = λ bytes s. refl;
}

save-read_example :
    (t : EncryptorFile toy_crypto kept) × (u : DecryptorFile toy_crypto) × (save toy_crypto kept
        toy_random
        ((1 ∷ 2 ∷ []) ∷ [] ∷ (3 ∷ []) ∷ [])
        (new_encryptor_file toy_crypto kept [])
      ≡ (ok tt, t))
    × (read toy_crypto none (new_decryptor_file toy_crypto t.next_fp (5 ∷ 1 ∷ []))
        ≡ (ok (1 ∷ 2 ∷ 3 ∷ []), u))
save-read_example =
    save-read toy_crypto toy_crypto-IsLawful toy_random toy_random-HasSizes kept kept-Appends
      ((1 ∷ 2 ∷ []) ∷ [] ∷ (3 ∷ []) ∷ []) [] (5 ∷ 1 ∷ []) refl
