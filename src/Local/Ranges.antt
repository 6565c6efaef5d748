-- ===== src/Local/Ranges.antt =====
-- rohmu/object_storage/local.py: what `get_contents_to_fileobj` writes.
use rohmu.Disk.{is_something}
use rohmu.Storage.{validate_byte_range}
use rohmu.Local.{
  Local, record_event, chunk_size, Runtime, Text, read_all, Metadata, contents_of, Disk, look,
  target_path, file, dot_metadata,
}
use rohmu.Local.Objects.{
  note_progress, copy_rounds, write_target, copy_range, get_contents_to_fileobj,
  get_metadata_for_key, load_metadata_for_key, load_node, filter_metadata, fetch, parsed,
}
use rohmu.Base.{
  Option, ℕ, Bytes, ◌≤◌, is_empty, some, slice, take, Outcome, Bool, ◌≡◌, ◌+◌, ◌++◌, true, ok,
  false, length, ◌-◌, [], ◌<◌, refl, none, drop, ◌∷◌, arith, suc, take-nil, min, ap, zero,
  Bool-cases, inl, le→leb, sym, append-nil, inr, length-take, length-drop, ◌∙◌, ap₂, append_assoc,
  Error, None, err, take_all, ltb, if◌then◌else◌, invalid_byte_range,
}

-- The bytes of a range, both ends included, or all.
unfoldable pub ranged : Option (ℕ × ℕ) → Bytes → Bytes
ranged none bytes = bytes
ranged (some (first, last)) bytes = slice first (last + 1) bytes

-- Some of what is taken first, and then the others.
take_again :
    (k n : ℕ) (xs : Bytes)
    → k ≤ n
    → take k xs ++ take (n - length (take k xs)) (drop k xs) ≡ take n xs
take_again zero n xs le = let e : n - 0 ≡ n = omega arith in rw e refl
take_again (suc k) zero xs le = absurd (omega arith)
take_again (suc k) (suc n) [] le = take-nil (suc n - 0)
take_again (suc k) (suc n) (x ∷ xs) le =
    let e : suc n - suc (length (take k xs)) ≡ n - length (take k xs) = omega arith in
    rw e (ap (λ t. x ∷ t) (take_again k n xs (omega arith)))

take_none : (k n : ℕ) (xs : Bytes) → is_empty (take k xs) ≡ true → (k ≡ 0 → n ≡ 0) → take n xs ≡ []
take_none zero n xs e h = rw (h refl) refl
take_none (suc k) n [] e h = take-nil n
take_none (suc k) n (x ∷ xs) e h = absurd (cc e)

-- A call that returned this value and wrote these bytes, and left the disk.
abbrev pub Wrote : {A : Type 0} → A → Bytes → Local → Outcome A × Local → Type 0
Wrote a bytes s x = (x.0 ≡ ok a) × (x.1.target ≡ s.target ++ bytes) × (x.1.disk ≡ s.disk)

note_progress-Wrote :
    (progress : Bool) (m n : ℕ) (s : Local)
    → ((note_progress progress m n s).0 ≡ ok tt)
      × ((note_progress progress m n s).1.target ≡ s.target)
      × ((note_progress progress m n s).1.disk ≡ s.disk)
unfolding note_progress record_event
note_progress-Wrote true m n s = (refl, refl, refl)
note_progress-Wrote false m n s = (refl, refl, refl)

positive_length : (xs : Bytes) → is_empty xs ≡ false → 0 < length xs
positive_length [] h = absurd (cc h)
positive_length (x ∷ xs) h = omega arith

copy_rounds-Wrote :
    (rounds input_size bytes_written : ℕ) (progress : Bool) (bytes : Bytes) (s : Local)
    → length bytes < rounds
    → bytes_written ≤ input_size
    → Wrote tt
        (take (input_size - bytes_written) bytes)
        s
        (copy_rounds rounds input_size bytes_written progress bytes s)
unfolding copy_rounds write_target
copy_rounds-Wrote zero input_size bytes_written progress bytes s le within = absurd (omega arith)
copy_rounds-Wrote (suc rounds) input_size bytes_written progress bytes s le within =
    let n = input_size - bytes_written in
    let k = min n chunk_size in
    let buf = take k bytes in
    elim (Bool-cases (is_empty buf)) [
      | inl e ↦
          rw
            (
              le→leb bytes_written input_size within,
              e,
              take_none k n bytes e (λ z. omega (arith, z)),
            )
            (refl, sym (append-nil s.target), refl)
      | inr e ↦
          let some_read = positive_length buf e in
          let t : Local = record s { target = s.target ++ buf } in
          let (returns, target, disk) =
            note_progress-Wrote progress (bytes_written + length buf) input_size t in
          let u = (note_progress progress (bytes_written + length buf) input_size t).1 in
          let (value, wrote, kept) =
            copy_rounds-Wrote rounds input_size (bytes_written + length buf) progress (drop k bytes)
              u (omega (arith, length-take k bytes, length-drop k bytes, some_read))
              (omega (arith, length-take k bytes)) in
          let left : input_size - (bytes_written + length buf) ≡ n - length buf = omega arith in
          rw (le→leb bytes_written input_size within, e, returns)
            (
              value,
              wrote
                  ∙ ap₂ (λ a m. a ++ take m (drop k bytes)) target left
                  ∙ append_assoc s.target buf (take (n - length buf) (drop k bytes))
                  ∙ ap (λ b. s.target ++ b) (take_again k n bytes (omega arith)),
              kept ∙ disk,
            )
    ]

no_error : {e : Error} → Path (Outcome None) (err e) (ok tt) → ⊥
no_error h = cc

copy_range-Wrote :
    (byte_range : Option (ℕ × ℕ)) (progress : Bool) (bytes : Bytes) (s : Local)
    → validate_byte_range byte_range ≡ ok tt
    → Wrote tt (ranged byte_range bytes) s (copy_range byte_range progress bytes s)
unfolding copy_range ranged validate_byte_range
copy_range-Wrote none progress bytes s valid =
    let (value, wrote, kept) =
      copy_rounds-Wrote (suc (length bytes)) (length bytes) 0 progress bytes s (omega arith)
        (omega arith) in
    (value, wrote ∙ ap (λ b. s.target ++ b) (take_all (length bytes - 0) bytes (omega arith)), kept)
copy_range-Wrote (some (first, last)) progress bytes s valid =
    let (value, wrote, kept) =
      copy_rounds-Wrote (suc (length bytes)) (last - first + 1) 0 progress (drop first bytes) s
        (omega (arith, length-drop first bytes)) (omega arith) in
    let size : last - first + 1 - 0 ≡ last + 1 - first = elim (Bool-cases (ltb last first)) [
      | inl e ↦ absurd (
          no_error (ap (λ (b : Bool). if b then err invalid_byte_range else ok tt) (sym e) ∙ valid))
      | inr e ↦ ground arith
    ] in
    (value, wrote ∙ ap (λ m. s.target ++ take m (drop first bytes)) size, kept)

-- What is stored under a key: these contents, and these metadata.
abbrev pub Stored : Runtime → Text → Text → Bytes → Metadata → Disk → Type 0
Stored runtime prefix key bytes metadata disk =
    (look (target_path prefix key) disk ≡ some (file bytes))
    × (json : Bytes) × (look (target_path prefix key ++ dot_metadata) disk ≡ some (file json))
    × (runtime.load json ≡ some metadata)

-- Where contents and metadata are stored under a key, fetching a valid range of it, or all, returns the
-- metadata without the internal ones and writes the bytes from the first to the last of the range,
-- both included and as far as there are any, behind what the target held.
pub get_contents_to_fileobj-ranged :
    (runtime : Runtime) (prefix key : Text) (byte_range : Option (ℕ × ℕ)) (progress : Bool)
    (bytes : Bytes) (metadata : Metadata) (s : Local)
    → validate_byte_range byte_range ≡ ok tt
    → Stored runtime prefix key bytes metadata s.disk
    → Wrote
        (filter_metadata metadata)
        (ranged byte_range bytes)
        s
        (get_contents_to_fileobj runtime prefix key byte_range progress s)
unfolding get_contents_to_fileobj fetch read_all contents_of get_metadata_for_key
    load_metadata_for_key load_node is_something parsed
get_contents_to_fileobj-ranged runtime prefix key byte_range progress bytes metadata s valid
      (at, json, beside, loads) =
    let (value, wrote, kept) = copy_range-Wrote byte_range progress bytes s valid in
    rw (valid, at, value, kept, at, beside, loads) (refl, wrote, kept)
