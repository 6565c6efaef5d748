-- ===== src/Local/Roundtrip.antt =====
-- rohmu/object_storage/local.py: what has been stored under a key is what is fetched from it.
use rohmu.Local.Writes.{write_source-Writes}
use rohmu.Local.Folders.{makedirs-Opens, either_true}
use rohmu.Storage.Values.{sanitize_metadata}
use rohmu.Disk.Looks.{look-put, dirname-append, longer_differs}
use rohmu.Storage.{validate_byte_range}
use rohmu.Local.Ranges.{Stored, Wrote, ranged, get_contents_to_fileobj-ranged}
use rohmu.Local.Saves.{
  Fresh, Loads, Ready, save_metadata-Saved, look_differs, not_directory, write_all-Ready,
}
use rohmu.Base.{
  bytes_eq, ◌≡◌, false, ok, ℕ, refl, some, none, [], ◌++◌, ◌∙◌, true, ap, is_empty, ◌>>=◌,
  if◌then◌else◌, bytes_eq_refl, ◌∷◌, arith, length-append,
}
use rohmu.Local.Objects.{
  note_created, store_file_object, save_metadata, with_digest, filter_metadata,
  get_contents_to_fileobj, write_source,
}
use rohmu.Local.{
  Runtime, Text, Local, record_event, Metadata, Option, Bytes, Bool, target_path, dot_metadata,
}
use rohmu.Disk.{
  split_path, place, has_directory, is_directory, Disk, look, put, dirname, file, directory,
}

module _ (runtime : Runtime) where
  -- What else stands on the disk while the contents are written
  beside_written :
      (path q : Text) (s t : Local)
      → bytes_eq path q ≡ false
      → ((r : Text) → bytes_eq path r ≡ false → look r t.disk ≡ look r (put path (file []) s.disk))
      → look q t.disk ≡ look q s.disk
  beside_written path q s t differs same =
      same q differs
      ∙ look-put path q (file []) s.disk
      ∙ ap (λ (c : Bool). if c then some (file []) else look q s.disk) differs

  has_directory_lem :
      (path : Text) (disk : Disk)
      → look (dirname path) disk ≡ some directory
      → has_directory path disk ≡ true
  unfolding has_directory is_directory
  has_directory_lem path disk h = rw h (either_true (is_empty (dirname path)))

  note_created_lem :
      (prefix key : Text) (metadata : Metadata) (s : Local)
      → ((note_created runtime prefix key metadata s).0 ≡ ok tt)
        × ((note_created runtime prefix key metadata s).1.disk ≡ s.disk)
        × ((note_created runtime prefix key metadata s).1.target ≡ s.target)
  unfolding note_created record_event
  note_created_lem prefix key metadata s = (refl, refl, refl)

  -- The end of the storing, once the contents have been written
  finished :
      (prefix key : Text) (metadata : Metadata) (bytes : Bytes) (s : Local)
      → Fresh runtime
      → Loads runtime
      → look (target_path prefix key) s.disk ≡ some (file bytes)
      → has_directory (target_path prefix key ++ dot_metadata) s.disk ≡ true
      → is_directory (look (target_path prefix key ++ dot_metadata) s.disk) ≡ false
      → let x =
          (save_metadata runtime (target_path prefix key) metadata >>= λ _.
          note_created runtime prefix key metadata)
            s in
        (x.0 ≡ ok tt)
        × Stored runtime prefix key bytes (sanitize_metadata metadata) x.1.disk
        × (x.1.target ≡ s.target)
  finished prefix key metadata bytes s fresh loads there above free =
      let path = target_path prefix key in
      let (value, at, beside, target) =
        save_metadata-Saved runtime path bytes metadata s fresh there above free in
      let t = (save_metadata runtime path metadata s).1 in
      let (returns, disk, kept) = note_created_lem prefix key metadata t in
      rw value (
        returns,
        (
          ap (look path) disk ∙ at,
          runtime.dump (sanitize_metadata metadata),
          ap (look (path ++ dot_metadata)) disk ∙ beside,
          loads (sanitize_metadata metadata),
        ),
        kept ∙ target,
      )

  store_file_object-Stored :
      (prefix key : Text) (metadata : Option Metadata) (progress : Bool) (s : Local)
      → Fresh runtime
      → Loads runtime
      → s.source_fails ≡ none
      → Ready (target_path prefix key) s.disk
      → let x = store_file_object runtime prefix key metadata progress s in
        (x.0 ≡ ok tt)
        × Stored runtime prefix key s.source.rest
            (sanitize_metadata (with_digest metadata (runtime.hexdigest s.source.rest)))
            x.1.disk
        × (x.1.target ≡ s.target)
  unfolding store_file_object is_directory split_path place
  store_file_object-Stored prefix key metadata progress s fresh loads sound
        ((missing, opens), shorter, free_first, free_beside) =
      let path = target_path prefix key in
      let bytes = s.source.rest in
      let (made, makes, dir, same) = makedirs-Opens missing (dirname path) s opens in
      let s0 : Local = record s { disk = made } in
      let free : is_directory (look path s0.disk) ≡ false =
        ap is_directory (same path shorter) ∙ free_first in
      let s1 : Local = record s0 { disk = put path (file []) s0.disk } in
      let put_at : look path s1.disk ≡ some (file []) =
        look-put path path (file []) s0.disk
        ∙ ap (λ (c : Bool). if c then some (file []) else look path s0.disk) (bytes_eq_refl path) in
      let (value, there, others, target) = write_source-Writes path progress s1 sound put_at in
      let s2 = (write_source path progress s1).1 in
      let dir_still : look (dirname path) s2.disk ≡ some directory =
        beside_written path (dirname path) s0 s2
          (look_differs path (dirname path) s0.disk
            (λ e. not_directory (look path s0.disk) free (e ∙ dir)))
          others
        ∙ dir in
      let above_still : has_directory (path ++ dot_metadata) s2.disk ≡ true =
        has_directory_lem (path ++ dot_metadata) s2.disk
          (ap (λ d. look d s2.disk) (dirname-append path dot_metadata refl) ∙ dir_still) in
      let free_still : is_directory (look (path ++ dot_metadata) s2.disk) ≡ false =
        ap is_directory (
          beside_written path (path ++ dot_metadata) s0 s2
            (longer_differs path 46 (109 ∷ 101 ∷ 116 ∷ 97 ∷ 100 ∷ 97 ∷ 116 ∷ 97 ∷ [])) others
          ∙ same (path ++ dot_metadata) (omega (arith, shorter, length-append path dot_metadata)))
        ∙ free_beside in
      let (returns, stored, kept) =
        finished prefix key (with_digest metadata (runtime.hexdigest bytes)) bytes s2 fresh loads
          there above_still free_still in
      rw (makes, write_all-Ready path [] s0 (has_directory_lem path s0.disk dir) free, value)
        (returns, stored, kept ∙ target)

-- Under a path that is not the root, where a directory stands somewhere on the way up from it, with the one
-- above it and with nothing in between, and no directory stands in the way of the file or of its metadata;
-- with a source that does not raise, metadata that are read as they were written and temporary files at new
-- paths: storing a file under the key makes the directories that are missing and returns, however its
-- reads are cut; and fetching the key then, or a valid range of it, returns the metadata that were given,
-- without None and internal keys, and writes the bytes of the range, or all.
pub store_then_fetch :
    (runtime : Runtime) (prefix key : Text) (metadata : Option Metadata) (progress : Bool)
    (byte_range : Option (ℕ × ℕ)) (s : Local)
    → Fresh runtime
    → Loads runtime
    → s.source_fails ≡ none
    → Ready (target_path prefix key) s.disk
    → validate_byte_range byte_range ≡ ok tt
    → let stored = store_file_object runtime prefix key metadata progress s in
      let digest = runtime.hexdigest s.source.rest in
      (stored.0 ≡ ok tt)
      × Wrote
          (filter_metadata (sanitize_metadata (with_digest metadata digest)))
          (ranged byte_range s.source.rest)
          stored.1
          (get_contents_to_fileobj runtime prefix key byte_range progress stored.1)
store_then_fetch runtime prefix key metadata progress byte_range s fresh loads sound ready valid =
    let (returns, stored, target) =
      store_file_object-Stored runtime prefix key metadata progress s fresh loads sound ready in
    let digest = runtime.hexdigest s.source.rest in
    (
      returns,
      get_contents_to_fileobj-ranged runtime prefix key byte_range progress s.source.rest
          (sanitize_metadata (with_digest metadata digest))
          (store_file_object runtime prefix key metadata progress s).1 valid stored,
    )
