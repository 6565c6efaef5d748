-- ===== src/Local/Listing.antt =====
-- rohmu/object_storage/local.py: copying and listing.
use rohmu.Disk.{is_file, dirname, basename, is_directory, directory}
use rohmu.Storage.{starts_with}
use rohmu.Base.{
  is_empty, ◌∷◌, Bytes, None, [], ◌++◌, pure, raise, err, ok, diverge, some, if◌then◌else◌,
  bytes_eq, true, ◌||◌, ◌>>=◌, none, not_implemented, file_not_found, ◌&&◌, suc, not, false,
  file_not_found_from_storage, zero, os_error,
}
use rohmu.Local.{
  Runtime, Bool, Disk, Option, Method, List, Metadata, ℕ, Node, Local, Outcome, hash_key, read_all,
  record_event, join_path, write_all, dot_metadata, object_copied, file, look, strip,
  dot_metadata_tmp, target_path, yielded, makedirs, listed_object, listed_prefix,
}
use rohmu.Storage.Values.{Text}
use rohmu.Local.Objects.{
  update, filter_internal_metadata, get_entry, load_metadata_for_key, save_metadata, size_of,
  filter_metadata,
}

unfoldable pub ends_with : Text → Text → Bool
ends_with suffix [] = is_empty suffix
ends_with suffix (c ∷ cs) =
    let rest = ends_with suffix cs in if bytes_eq suffix (c ∷ cs) then true else rest

-- `part in file_name`
unfoldable pub contains : Text → Text → Bool
contains part [] = is_empty part
contains part (c ∷ cs) =
    let rest = contains part cs in if starts_with part (c ∷ cs) then true else rest

-- A "." in front, ".metadata" at the end, or ".metadata_tmp" anywhere; "." is 46.
unfoldable pub skip_file_name : Text → Bool
skip_file_name file_name =
    starts_with (46 ∷ []) file_name
    || ends_with dot_metadata file_name
    || contains dot_metadata_tmp file_name

-- `os.listdir` of a directory
unfoldable pub listdir : Text → Disk → List Text
listdir path [] = []
listdir path ((p, node) ∷ disk) =
    let rest = listdir path disk in
    if bytes_eq (dirname p) path && not (bytes_eq p path) then basename p ∷ rest else rest

module _ (runtime : Runtime) where
  -- `shutil.copy`, into a file or into a directory under the name that it had. A file is not copied onto
  -- itself: a SameFileError, which is an OSError. A path is the same only as the text that it is.
  unfoldable pub copied_path : Text → Text → Option Node → Text
  copied_path source_path destination_path (some directory) =
      join_path destination_path (basename source_path)
  copied_path source_path destination_path other = destination_path

  unfoldable pub copy_file_to : Text → Text → Bytes → Method Local None
  copy_file_to source_path destination_path bytes =
      if bytes_eq source_path destination_path
      then raise os_error
      else write_all destination_path bytes

  unfoldable pub copy : Text → Text → Method Local None
  copy source_path destination_path s =
      (read_all source_path
          >>= copy_file_to source_path
              (copied_path source_path destination_path (look destination_path s.disk)))
        s

  module _ (prefix : Text) where
    -- The metadata of the copy; with new ones, the internal ones are those of the source key in this
    -- storage.
    unfoldable pub copy_metadata : Text → Text → Text → Option Metadata → Method Local None
    copy_metadata source_path destination_path source_key none =
        copy (source_path ++ dot_metadata) (destination_path ++ dot_metadata)
    copy_metadata source_path destination_path source_key (some metadata) =
        load_metadata_for_key runtime prefix source_key >>= λ old.
        save_metadata runtime destination_path (update (filter_internal_metadata old) metadata)

    unfoldable pub note_copied : Text → Option Metadata → Method Local None
    note_copied destination_key metadata s =
        record_event
          (object_copied destination_key
            (size_of runtime.directory_size (look (target_path prefix destination_key) s.disk))
            metadata)
          s

    -- The first prefix is that of the source.
    unfoldable pub copy_file_from_bucket : Text → Text → Text → Option Metadata → Method Local None
    copy_file_from_bucket source_prefix source_key destination_key metadata s =
        if is_file (look (target_path source_prefix source_key) s.disk)
        then (makedirs (dirname (target_path prefix destination_key)) >>= λ _.
              copy (target_path source_prefix source_key) (target_path prefix destination_key)
              >>= λ _.
                  copy_metadata (target_path source_prefix source_key)
                    (target_path prefix destination_key) source_key metadata
                  >>= λ _. note_copied destination_key metadata)
            s
        else (err file_not_found_from_storage, s)

    unfoldable pub copy_file : Text → Text → Option Metadata → Method Local None
    copy_file source_key destination_key metadata =
        copy_file_from_bucket prefix source_key destination_key metadata

    unfoldable pub copy_each : Text → List Text → Method Local None
    copy_each source_prefix [] = pure tt
    copy_each source_prefix (key ∷ keys) =
        copy_file_from_bucket source_prefix key key none >>= λ _. copy_each source_prefix keys

    -- `none` is a source that is no LocalTransfer.
    unfoldable pub copy_files_from : Option Text → List Text → Method Local None
    copy_files_from none keys = raise not_implemented
    copy_files_from (some source_prefix) keys = copy_each source_prefix keys

    -- `{"md5": md5} if md5 else {}`
    unfoldable pub digest_of : Metadata → Option Text
    digest_of metadata = elim (get_entry hash_key metadata) [
      | none ↦ none
      | some [] ↦ none
      | some (c ∷ cs) ↦ some (c ∷ cs)
    ]

    -- An object whose metadata have been found; none is what `os.stat` does not find.
    unfoldable pub yield_stat : Text → Text → Bool → Metadata → Option Node → Method Local None
    yield_stat key full_path with_metadata metadata none s = (err file_not_found, s)
    yield_stat key full_path with_metadata metadata (some node) s =
        record_event
          (yielded (
            listed_object key (size_of runtime.directory_size (some node))
              (runtime.mtime full_path s.disk)
              (if with_metadata then some (filter_metadata metadata) else none)
              (digest_of metadata)))
          s

    unfoldable pub yield_found : Text → Text → Bool → Outcome Metadata → Method Local None
    yield_found key full_path with_metadata (ok metadata) s =
        yield_stat key full_path with_metadata metadata (look full_path s.disk) s
    yield_found key full_path with_metadata (err file_not_found_from_storage) s = (ok tt, s)
    yield_found key full_path with_metadata (err e) s = (err e, s)
    yield_found key full_path with_metadata diverge s = (diverge, s)

    unfoldable pub yield_object : Text → Text → Bool → Method Local None
    yield_object key full_path with_metadata s =
        let r = load_metadata_for_key runtime prefix key s in
        yield_found key full_path with_metadata r.0 r.1

    -- One name of a directory; `list_deep` lists a directory under it.
    unfoldable pub list_name :
        (Text → Method Local None) → Text → Text → Bool → Bool → Text → Method Local None
    list_name list_deep key path with_metadata deep file_name s =
        let full_path = join_path path file_name in
        let file_key = join_path (strip key) file_name in
        if skip_file_name file_name
        then (ok tt, s)
        else if is_directory (look full_path s.disk)
        then (if deep
            then list_deep file_key s
            else record_event (yielded (listed_prefix file_key)) s)
        else yield_object file_key full_path with_metadata s

    unfoldable pub list_names :
        (Text → Method Local None) → Text → Text → Bool → Bool → List Text → Method Local None
    list_names list_deep key path with_metadata deep [] = pure tt
    list_names list_deep key path with_metadata deep (file_name ∷ file_names) =
        list_name list_deep key path with_metadata deep file_name >>= λ _.
        list_names list_deep key path with_metadata deep file_names

    -- A key that is a file is listed by itself, if it is to be included.
    unfoldable pub list_file : Text → Bool → Bool → Method Local None
    list_file key with_metadata include_key =
        if include_key && not (skip_file_name (basename (target_path prefix key)))
        then yield_object (strip key) (target_path prefix key) with_metadata
        else pure tt

    -- What stands at the path of the key: nothing, a file or a directory
    unfoldable pub list_node :
        (Text → Method Local None) → Text → Bool → Bool → Bool → Option Node → Method Local None
    list_node list_deep key with_metadata deep include_key none s = (ok tt, s)
    list_node list_deep key with_metadata deep include_key (some (file bytes)) s =
        list_file key with_metadata include_key s
    list_node list_deep key with_metadata deep include_key (some directory) s =
        list_names list_deep key (target_path prefix key) with_metadata deep
          (listdir (target_path prefix key) s.disk) s

    -- A round for each directory on the way down
    unfoldable pub iter_key : ℕ → Text → Bool → Bool → Bool → Method Local None
    iter_key zero key with_metadata deep include_key s = (diverge, s)
    iter_key (suc rounds) key with_metadata deep include_key s =
        list_node (λ file_key. iter_key rounds file_key with_metadata true false) key with_metadata
          deep include_key (look (target_path prefix key) s.disk) s
