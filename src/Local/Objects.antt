-- ===== src/Local/Objects.antt =====
-- rohmu/object_storage/local.py: metadata, storing, copying, deleting, listing and fetching.
use rohmu.Storage.Readers.{read_some}
use rohmu.Storage.{validate_byte_range}
use rohmu.Disk.{
  basename, is_something, dirname, is_directory, file, has_directory, look, put, directory,
}
use rohmu.Local.{
  Runtime, hash_key, Node, Local, record_event, makedirs, upload_progressed, progressed, chunk_size,
  dot_metadata_tmp, dot_metadata, object_created, set_disk, unlink, target_path, rename, write_all,
  suppress_missing, rmtree, read_all, object_deleted, tree_deleted,
}
use rohmu.Base.{
  ℕ, Bool, Bytes, Option, bytes_eq, Method, Outcome, none, None, ok, loop_forever, suc, ◌++◌, raise,
  ◌>>=◌, some, if◌then◌else◌, ltb, ◌∷◌, length, file_not_found_from_storage, pure, [], take, err,
  os_error, min, ◌-◌, true, zero, value_error, drop, ◌+◌, false, diverge, file_not_found, leb, ◌&&◌,
  not, is_empty, Error,
}
use rohmu.Storage.Values.{Text, Metadata, set_entry, sanitize_metadata}

-- `metadata.get(key)`
unfoldable pub get_entry : Text → Metadata → Option Text
get_entry key [] = none
get_entry key ((k, v) ∷ metadata) = if bytes_eq k key then v else get_entry key metadata

-- `key in INTERNAL_METADATA_KEYS`
unfoldable pub is_internal : Text → Bool
is_internal key = bytes_eq key hash_key

unfoldable pub filter_internal_metadata : Metadata → Metadata
filter_internal_metadata [] = []
filter_internal_metadata ((k, v) ∷ metadata) =
    let rest = filter_internal_metadata metadata in if is_internal k then (k, v) ∷ rest else rest

unfoldable pub filter_metadata : Metadata → Metadata
filter_metadata [] = []
filter_metadata ((k, v) ∷ metadata) =
    let rest = filter_metadata metadata in if is_internal k then rest else (k, v) ∷ rest

-- `new_metadata.update(metadata)`
unfoldable pub update : Metadata → Metadata → Metadata
update metadata [] = metadata
update metadata ((k, v) ∷ new) = update (set_entry k v metadata) new

unfoldable pub size_of : ℕ → Option Node → ℕ
size_of directory_size (some (file bytes)) = length bytes
size_of directory_size other = directory_size

-- `fd.read(n)` of the file that is stored; what is left of one that fails is lost with a read beyond it.
unfoldable pub read_from : Option Error → ℕ → Method Local Bytes
read_from none n s = (ok (read_some n s.source).0, record s { source = (read_some n s.source).1 })
read_from (some e) n s =
    if ltb (length s.source.rest) n
    then (err e, s)
    else (ok (read_some n s.source).0, record s { source = (read_some n s.source).1 })

unfoldable pub read_source : ℕ → Method Local Bytes
read_source n s = read_from s.source_fails n s

unfoldable pub call_upload_progress : Bool → ℕ → Method Local None
call_upload_progress true bytes_written = record_event (upload_progressed bytes_written)
call_upload_progress false bytes_written = pure tt

unfoldable pub note_progress : Bool → ℕ → ℕ → Method Local None
note_progress true bytes_written input_size = record_event (progressed bytes_written input_size)
note_progress false bytes_written input_size = pure tt

-- One block, behind those that have been written to the file at the path
unfoldable pub write_block :
    (Bytes → Method Local Bytes) → Text → Bool → Bytes → Bytes → Method Local Bytes
write_block next path progress written [] s = (ok written, s)
write_block next path progress written (b ∷ block) s =
    (set_disk (put path (file (written ++ b ∷ block)) s.disk) >>= λ _.
    call_upload_progress progress (length (written ++ b ∷ block)) >>= λ _.
    next (written ++ b ∷ block))
      s

-- The loop that copies the source to an open file, in blocks of a mebibyte
unfoldable pub write_rounds : ℕ → Text → Bool → Bytes → Method Local Bytes
write_rounds zero path progress written = loop_forever
write_rounds (suc rounds) path progress written = read_source chunk_size >>= λ block.
    write_block (write_rounds rounds path progress) path progress written block

-- Each read but the last gives a byte at least.
unfoldable pub write_source : Text → Bool → Method Local Bytes
write_source path progress s = write_rounds (suc (length s.source.rest)) path progress [] s

-- The end of `atomic_create_file`: what was left of the temporary file goes, and the exception passes.
unfoldable pub after_rename : Text → Outcome None × Local → Outcome None × Local
after_rename tmp_file_path (ok a, s) = (ok tt, s)
after_rename tmp_file_path (err e, s) = (err e, (unlink tmp_file_path s).1)
after_rename tmp_file_path (diverge, s) = (diverge, s)

-- `fileobj_to_store_to.write(buf)`
unfoldable pub write_target : Bytes → Method Local None
write_target buf s = (ok tt, record s { target = s.target ++ buf })

-- The loop over the contents of the file, from where it stands
unfoldable pub copy_rounds : ℕ → ℕ → ℕ → Bool → Bytes → Method Local None
copy_rounds zero input_size bytes_written progress bytes = loop_forever
copy_rounds (suc rounds) input_size bytes_written progress bytes =
    let buf = take (min (input_size - bytes_written) chunk_size) bytes in
    let left = drop (min (input_size - bytes_written) chunk_size) bytes in
    if leb bytes_written input_size && not (is_empty buf)
    then (write_target buf >>= λ _.
        note_progress progress (bytes_written + length buf) input_size >>= λ _.
        copy_rounds rounds input_size (bytes_written + length buf) progress left)
    else pure tt

unfoldable pub copy_range : Option (ℕ × ℕ) → Bool → Bytes → Method Local None
copy_range none progress bytes = copy_rounds (suc (length bytes)) (length bytes) 0 progress bytes
copy_range (some (first, last)) progress bytes =
    copy_rounds (suc (length bytes)) (last - first + 1) 0 progress (drop first bytes)

-- The metadata that are stored: those that are given, and the digest
unfoldable pub with_digest : Option Metadata → Text → Metadata
with_digest none digest = set_entry hash_key (some digest) []
with_digest (some metadata) digest = set_entry hash_key (some digest) metadata

-- What `json.load` has made of a file
unfoldable pub parsed : Option Metadata → Method Local Metadata
parsed none = raise value_error
parsed (some metadata) = pure metadata

module _ (runtime : Runtime) where
  -- `atomic_create_file`, around the writing of these bytes
  unfoldable pub atomic_create_file : Text → Bytes → Method Local None
  atomic_create_file file_path bytes s =
      let tmp = runtime.mkstemp (basename file_path) dot_metadata_tmp (dirname file_path) s.disk in
      if has_directory file_path s.disk
      then after_rename tmp (rename tmp file_path (record s { disk = put tmp (file bytes) s.disk }))
      else (err file_not_found, s)

  unfoldable pub save_metadata : Text → Metadata → Method Local None
  save_metadata path metadata =
      atomic_create_file (path ++ dot_metadata) (runtime.dump (sanitize_metadata metadata))

  -- `open(metadata_path)` and `json.load`; a missing file is a missing key.
  unfoldable pub load_node : Option Node → Method Local Metadata
  load_node none = raise file_not_found_from_storage
  load_node (some directory) = raise os_error
  load_node (some (file bytes)) = parsed (runtime.load bytes)

  module _ (prefix : Text) where
    -- `_get_metadata_for_key`
    unfoldable pub load_metadata_for_key : Text → Method Local Metadata
    load_metadata_for_key key s =
        if is_something (look (target_path prefix key) s.disk)
        then load_node (look (target_path prefix key ++ dot_metadata) s.disk) s
        else (err file_not_found_from_storage, s)

    unfoldable pub get_metadata_for_key : Text → Method Local Metadata
    get_metadata_for_key key =
        load_metadata_for_key key >>= λ metadata. pure (filter_metadata metadata)

    unfoldable pub note_created : Text → Metadata → Method Local None
    note_created key metadata s =
        record_event
          (object_created key
            (size_of runtime.directory_size (look (target_path prefix key) s.disk))
            (sanitize_metadata (filter_metadata metadata)))
          s

    unfoldable pub store_file_object : Text → Option Metadata → Bool → Method Local None
    store_file_object key metadata progress = makedirs (dirname (target_path prefix key)) >>= λ _.
        write_all (target_path prefix key) [] >>= λ _.
        write_source (target_path prefix key) progress >>= λ bytes.
        save_metadata (target_path prefix key) (with_digest metadata (runtime.hexdigest bytes))
        >>= λ _. note_created key (with_digest metadata (runtime.hexdigest bytes))

    unfoldable pub delete_key : Text → Method Local None
    delete_key key s =
        if is_something (look (target_path prefix key) s.disk)
        then (unlink (target_path prefix key) >>= λ _.
              (λ t. suppress_missing (unlink (target_path prefix key ++ dot_metadata_tmp) t))
              >>= λ _.
                  (λ t. suppress_missing (unlink (target_path prefix key ++ dot_metadata) t))
                  >>= λ _. record_event (object_deleted key))
            s
        else (err file_not_found_from_storage, s)

    unfoldable pub delete_tree : Text → Method Local None
    delete_tree key s =
        if is_directory (look (target_path prefix key) s.disk)
        then (rmtree (target_path prefix key) >>= λ _. record_event (tree_deleted key)) s
        else (err file_not_found_from_storage, s)

    -- The fetching, once the range has been checked
    unfoldable pub fetch : Text → Option (ℕ × ℕ) → Bool → Method Local Metadata
    fetch key byte_range progress s =
        if is_something (look (target_path prefix key) s.disk)
        then (read_all (target_path prefix key) >>= λ bytes.
              copy_range byte_range progress bytes >>= λ _. get_metadata_for_key key)
            s
        else (err file_not_found_from_storage, s)

    unfoldable pub get_contents_to_fileobj : Text → Option (ℕ × ℕ) → Bool → Method Local Metadata
    get_contents_to_fileobj key byte_range progress =
        (λ s. (validate_byte_range byte_range, s)) >>= λ _. fetch key byte_range progress

    unfoldable pub get_file_size : Text → Method Local ℕ
    get_file_size key s =
        if is_something (look (target_path prefix key) s.disk)
        then (ok (size_of runtime.directory_size (look (target_path prefix key) s.disk)), s)
        else (err file_not_found_from_storage, s)
