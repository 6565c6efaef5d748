-- ===== src/EncryptorFile/Saved.antt =====
-- rohmu/encryptor.py: what an `EncryptorFile` leaves in the file underneath, and what a `DecryptorFile` then
-- reads from it.
use rohmu.DecryptorFile.Whole.{read-seal}
use rohmu.DecryptorFile.{
  DecryptorFile, new_decryptor_file, read_block, read_levels, get_crypted_size, read_nonempty,
  reset,
}
use rohmu.DecryptorFile.Calls.{
  read, checked, check_not_closed, read_in, read_size, read_all, all_rounds, with_block,
}
use rohmu.Base.{
  ℕ, Bytes, List, ◌≡◌, Method, ◌∷◌, ok, None, some, [], length, ◌++◌, ◌>>=◌, join, none, refl, ◌+◌,
  ◌∙◌, ap, sym, append-nil, bind_ok, append_assoc,
}
use rohmu.Crypto.{Crypto, IsLawful, Random, HasSizes}
use rohmu.Sink.{Output}
use rohmu.Encryptor.{finalize}
use rohmu.Encryptor.Seal.{
  seal, running, ciphertext, header, tag, update-new, update-running, finalize-running,
  ciphertext-append, after,
}
use rohmu.EncryptorFile.{
  EncryptorFile, write, close, Encryptor, check_open, close_in, write_data, encrypting, opened,
  on_encryptor, write_next, advance, flush, update, set_closed, closed, new_encryptor,
  new_encryptor_file,
}

-- A file that takes all that is written to it, behind what it holds
pub record Appends (N : Output) : Type 0 where
  pub contents : N.State → Bytes
  pub next : Bytes → N.State → N.State
  pub writes : (b : Bytes) (n : N.State) → N.write b n ≡ (ok (length b), next b n)
  pub holds : (b : Bytes) (n : N.State) → contents (next b n) ≡ contents n ++ b

-- The calls `write(p)` for each piece in turn, then `close()`
unfoldable pub save :
    (C : Crypto) (N : Output) → Random → List Bytes → Method (EncryptorFile C N) None
save C N r [] = close C N
save C N r (p ∷ ps) = write C N r p >>= λ _. save C N r ps

-- An empty plaintext yields an empty file.
unfoldable pub file_of : Crypto → Random → Bytes → Bytes
file_of C r [] = []
file_of C r (b ∷ plain) = seal C r (b ∷ plain)

module _ (C : Crypto) (L : IsLawful C) (r : Random) (sized : HasSizes r) (N : Output)
    (A : Appends N) where
  abbrev at : N.State → Encryptor C → ℕ → EncryptorFile C N
  at n e o = record { next_fp = n; maybe_encryptor = some e; offset = o; state = opened }

  write_lem :
      (b : ℕ) (bytes out : Bytes) (n : N.State) (e later : Encryptor C) (o : ℕ)
      → update C r (b ∷ bytes) e ≡ (ok out, later)
      → write C N r (b ∷ bytes) (at n e o)
        ≡ (ok (length (b ∷ bytes)), at (A.next out n) later (o + length (b ∷ bytes)))
  unfolding write check_open write_data encrypting on_encryptor write_next advance
  write_lem b bytes out n e later o updates = rw (updates, A.writes out n) refl

  close_lem :
      (out : Bytes) (n : N.State) (e later : Encryptor C) (o : ℕ)
      → finalize C e ≡ (ok out, later)
      → close C N (at n e o) ≡ (
        ok tt,
        record { next_fp = A.next out n; maybe_encryptor = none; offset = o; state = closed },
      )
  unfolding close close_in encrypting on_encryptor write_next flush check_open set_closed
  close_lem out n e later o finalizes = rw (finalizes, A.writes out n) refl

  save-running :
      (p : Bytes) (ps : List Bytes) (n : N.State) (o : ℕ)
      → A.contents n ≡ header C r ++ ciphertext C r p
      → (t : EncryptorFile C N) × (save C N r ps (at n (running C L r sized p) o) ≡ (ok tt, t))
        × (A.contents t.next_fp ≡ seal C r (p ++ join ps))
  unfolding save seal write check_open write_data
  save-running p [] n o held =
      let out = tag C r (ciphertext C r p) in
      (
        record { next_fp = A.next out n; maybe_encryptor = none; offset = o; state = closed },
        close_lem out n (running C L r sized p) (new_encryptor C) o
            (finalize-running C L r sized p),
        A.holds out n ∙ ap (λ b. b ++ out) held ∙ ap (seal C r) (sym (append-nil p)),
      )
  save-running p ([] ∷ ps) n o held = save-running p ps n o held
  save-running p ((b ∷ bs) ∷ ps) n o held =
      let q = b ∷ bs in
      let out = (C.cipher_update q (after C L r sized p)).0 in
      let (t, saves, holds) = save-running (p ++ q) ps (A.next out n) (o + length q) (
        A.holds out n
        ∙ ap (λ x. x ++ out) held
        ∙ append_assoc (header C r) (ciphertext C r p) out
        ∙ ap (λ x. header C r ++ x) (sym (ciphertext-append C L r sized p q))) in
      (
        t,
        bind_ok (write C N r q) (λ _. save C N r ps) (at n (running C L r sized p) o)
              (write_lem b bs out n (running C L r sized p) (running C L r sized (p ++ q)) o
                (update-running C L r sized p q))
            ∙ saves,
        holds ∙ ap (seal C r) (append_assoc p q (join ps)),
      )

  save-new :
      (ps : List Bytes) (n : N.State)
      → A.contents n ≡ []
      → (t : EncryptorFile C N) × (save C N r ps (at n (new_encryptor C) 0) ≡ (ok tt, t))
        × (A.contents t.next_fp ≡ file_of C r (join ps))
  unfolding save file_of write check_open write_data finalize
  save-new [] n held = (
    record { next_fp = A.next [] n; maybe_encryptor = none; offset = 0; state = closed },
    close_lem [] n (new_encryptor C) (new_encryptor C) 0 refl,
    A.holds [] n ∙ ap (λ b. b ++ []) held,
  )
  save-new ([] ∷ ps) n held = save-new ps n held
  save-new ((b ∷ bs) ∷ ps) n held =
      let q = b ∷ bs in
      let out = header C r ++ ciphertext C r q in
      let (t, saves, holds) =
        save-running q ps (A.next out n) (0 + length q) (A.holds out n ∙ ap (λ x. x ++ out) held) in
      (
        t,
        bind_ok (write C N r q) (λ _. save C N r ps) (at n (new_encryptor C) 0)
              (write_lem b bs out n (new_encryptor C) (running C L r sized q) 0
                (update-new C L r sized q))
            ∙ saves,
        holds,
      )

  -- A file that an `EncryptorFile` has made is read to its end.
  read_file :
      (plain : Bytes) (pieces : List ℕ)
      → (t : DecryptorFile C) × (read C none (new_decryptor_file C (file_of C r plain) pieces)
          ≡ (ok plain, t))
  unfolding file_of read checked check_not_closed read_in read_size read_all all_rounds read_block
      read_levels get_crypted_size read_nonempty with_block new_decryptor_file reset
  read_file [] pieces = (_, refl)
  read_file (b ∷ bs) pieces =
      let (t, reads, others) = read-seal C L r sized (b ∷ bs) pieces in (t, reads)

  -- For a lawful cryptography package, keys of the right sizes, and a file underneath that is empty at first
  -- and takes all that is written to it: any pieces, empty ones too, that are written to a new `EncryptorFile`
  -- in turn, before it is closed, are what a `read()` of a new `DecryptorFile` over the file returns, joined,
  -- however few bytes at a time the file then gives; and neither the writing nor the reading raises.
  pub save-read :
      (ps : List Bytes) (n : N.State) (pieces : List ℕ)
      → A.contents n ≡ []
      → (t : EncryptorFile C N) × (u : DecryptorFile C) × (save C N r ps (new_encryptor_file C N n)
          ≡ (ok tt, t))
        × (read C none (new_decryptor_file C (A.contents t.next_fp) pieces) ≡ (ok (join ps), u))
  unfolding new_encryptor_file
  save-read ps n pieces empty =
      let (t, saves, holds) = save-new ps n empty in
      let (u, reads) = read_file (join ps) pieces in
      (t, u, saves, ap (λ b. read C none (new_decryptor_file C b pieces)) holds ∙ reads)
