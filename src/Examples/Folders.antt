-- ===== src/Examples/Folders.antt =====
-- The local transfer on a small disk, with a plain text form of metadata.
use rohmu.Local.Roundtrip.{store_then_fetch}
use rohmu.Local.Saves.{Fresh, Loads}
use rohmu.Base.{
  Bytes, Option, ℕ, ◌∷◌, some, ◌≡◌, [], length, ◌<◌, suc, ◌++◌, none, ap, cons_some, ◌∙◌, max,
  arith, zero, sym, Bool-cases, true, refl, append-nil, bytes_eq, ok, append_assoc, inl,
  bytes_eq→eq, inr,
}
use rohmu.Storage.{format_key_for_backend, lstrip, rstrip, validate_byte_range}
use rohmu.Storage.Values.{sanitize_metadata, set_entry, Metadata}
use rohmu.Disk.{
  dirname, split_path, place, has_directory, is_directory, look, Disk, directory, file,
}
use rohmu.Local.{target_path, strip, Runtime, Local, dot_metadata}
use rohmu.Local.Objects.{
  filter_metadata, with_digest, is_internal, store_file_object, get_contents_to_fileobj,
}
use rohmu.Local.Ranges.{ranged, Wrote, get_contents_to_fileobj-ranged}

-- An entry is a mark, the codes of the key one higher, up to a 0, and then a 0 for no value, or a mark and the
-- value in the same way.
unfoldable text_form : Bytes → Bytes → Bytes
text_form [] rest = 0 ∷ rest
text_form (c ∷ cs) rest = suc c ∷ text_form cs rest

unfoldable value_form : Option Bytes → Bytes → Bytes
value_form none rest = 0 ∷ rest
value_form (some value) rest = 1 ∷ text_form value rest

unfoldable dump : Metadata → Bytes
dump [] = []
dump ((key, value) ∷ metadata) = 1 ∷ text_form key (value_form value (dump metadata))

-- Where the reading of that form stands
data Mode : Type 0 where
  at_entry : Mode
  in_key at_value : Bytes → Mode
  in_value : Bytes → Bytes → Mode

unfoldable parse : Mode → Bytes → Option Metadata
parse at_entry [] = some []
parse at_entry (c ∷ cs) = parse (in_key []) cs
parse (in_key key) [] = none
parse (in_key key) (zero ∷ cs) = parse (at_value key) cs
parse (in_key key) (suc c ∷ cs) = parse (in_key (key ++ c ∷ [])) cs
parse (at_value key) [] = none
parse (at_value key) (zero ∷ cs) = cons_some (key, none) (parse at_entry cs)
parse (at_value key) (suc c ∷ cs) = parse (in_value key []) cs
parse (in_value key value) [] = none
parse (in_value key value) (zero ∷ cs) = cons_some (key, some value) (parse at_entry cs)
parse (in_value key value) (suc c ∷ cs) = parse (in_value key (value ++ c ∷ [])) cs

parse-key :
    (key text rest : Bytes)
    → parse (in_key key) (text_form text rest) ≡ parse (at_value (key ++ text)) rest
unfolding parse text_form
parse-key key [] rest = ap (λ k. parse (at_value k) rest) (sym (append-nil key))
parse-key key (c ∷ text) rest =
    parse-key (key ++ c ∷ []) text rest
    ∙ ap (λ k. parse (at_value k) rest) (append_assoc key (c ∷ []) text)

parse-value :
    (key value text rest : Bytes)
    → parse (in_value key value) (text_form text rest)
      ≡ cons_some (key, some (value ++ text)) (parse at_entry rest)
unfolding parse text_form
parse-value key value [] rest =
    ap (λ v. cons_some (key, some v) (parse at_entry rest)) (sym (append-nil value))
parse-value key value (c ∷ text) rest =
    parse-value key (value ++ c ∷ []) text rest
    ∙ ap (λ v. cons_some (key, some v) (parse at_entry rest)) (append_assoc value (c ∷ []) text)

parse-dump : (metadata : Metadata) → parse at_entry (dump metadata) ≡ some metadata
unfolding parse dump value_form
parse-dump [] = refl
parse-dump ((key, none) ∷ metadata) =
    parse-key [] key (0 ∷ dump metadata) ∙ ap (cons_some (key, none)) (parse-dump metadata)
parse-dump ((key, some value) ∷ metadata) =
    parse-key [] key (1 ∷ text_form value (dump metadata))
    ∙ parse-value key [] value (dump metadata)
    ∙ ap (cons_some (key, some value)) (parse-dump metadata)

-- A path that is longer than all
unfoldable longest : Disk → ℕ
longest [] = 0
longest ((p, node) ∷ disk) = let rest = longest disk in max (length p) rest

unfoldable ones : ℕ → Bytes
ones zero = []
ones (suc n) = 49 ∷ ones n

length-ones : (n : ℕ) → length (ones n) ≡ n
unfolding ones
length-ones zero = refl
length-ones (suc n) = ap (λ k. suc k) (length-ones n)

look-longer : (path : Bytes) (disk : Disk) → longest disk < length path → look path disk ≡ none
unfolding look longest
look-longer path [] h = refl
look-longer path ((p, node) ∷ disk) h = elim (Bool-cases (bytes_eq p path)) [
  | inl e ↦ absurd (omega (arith, ap length (bytes_eq→eq p path e), h))
  | inr e ↦ rw e (look-longer path disk (omega (arith, h)))
]

abbrev plain : Runtime
plain = record {
  dump = dump;
  load = λ bytes. parse at_entry bytes;
  hexdigest = λ bytes. 120 ∷ [];
  mkstemp = λ name suffix dir disk. ones (suc (longest disk));
  mtime = λ path disk. 0;
  directory_size = 4096;
  uuid = λ disk. 117 ∷ [];
  str = ones;
}

plain-Fresh : Fresh plain
plain-Fresh name suffix dir disk =
    look-longer (ones (suc (longest disk))) disk (omega (arith, length-ones (suc (longest disk))))

plain-Loads : Loads plain
plain-Loads metadata = parse-dump metadata

-- "/d/", the prefix of the transfer, on a disk with the directory "/d" alone
abbrev held : Bytes
held = 47 ∷ 100 ∷ 47 ∷ []

abbrev given : Local
given = record {
  disk = (47 ∷ [], directory) ∷ (47 ∷ 100 ∷ [], directory) ∷ [];
  source = record { rest = 5 ∷ 6 ∷ 7 ∷ []; pieces = 0 ∷ [] };
  source_fails = none;
  target = [];
  events = [];
}

-- The key is "a/k", whose directory is not there yet, and the metadata have an entry without a value.
store_then_fetch_example :
    ((store_file_object plain held (97 ∷ 47 ∷ 107 ∷ []) (some ((97 ∷ [], none) ∷ [])) true given).0
      ≡ ok tt)
    × Wrote []
        (6 ∷ 7 ∷ [])
        (store_file_object plain held
          (97 ∷ 47 ∷ 107 ∷ [])
          (some ((97 ∷ [], none) ∷ []))
          true
          given).1
        (get_contents_to_fileobj plain held
          (97 ∷ 47 ∷ 107 ∷ [])
          (some (1, 9))
          true
          (store_file_object plain held
            (97 ∷ 47 ∷ 107 ∷ [])
            (some ((97 ∷ [], none) ∷ []))
            true
            given).1)
unfolding target_path format_key_for_backend strip lstrip rstrip dirname split_path place
    has_directory is_directory look validate_byte_range ranged filter_metadata sanitize_metadata
    with_digest set_entry is_internal
store_then_fetch_example =
    store_then_fetch plain held (97 ∷ 47 ∷ 107 ∷ []) (some ((97 ∷ [], none) ∷ [])) true
      (some (1, 9)) given plain-Fresh plain-Loads refl
      ((1, (refl, omega arith, (refl, refl))), omega arith, refl, refl) refl

abbrev stored : Local
stored = record given {
  disk = (held ++ 107 ∷ [], file (1 ∷ 2 ∷ 3 ∷ [])) ∷ (held ++ 107 ∷ dot_metadata, file []) ∷ [];
}

get_contents_to_fileobj-ranged_example :
    Wrote []
      (1 ∷ 2 ∷ [])
      stored
      (get_contents_to_fileobj plain held (107 ∷ []) (some (0, 1)) true stored)
unfolding target_path format_key_for_backend strip lstrip rstrip look validate_byte_range ranged
    filter_metadata parse
get_contents_to_fileobj-ranged_example =
    get_contents_to_fileobj-ranged plain held (107 ∷ []) (some (0, 1)) true (1 ∷ 2 ∷ 3 ∷ []) []
      stored refl (refl, [], refl, refl)
