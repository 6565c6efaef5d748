-- ===== src/Local/Concurrent.antt =====
-- rohmu/object_storage/local.py: concurrent uploads, as files in a directory of their own.
use rohmu.Storage.Readers.{whole}
use rohmu.Disk.{basename, Node, dirname, join_path, has_directory, file, put, Disk, look, directory}
use rohmu.Local.{
  Runtime, Local, format_key_for_backend, Metadata, rmtree, dot_concurrent_upload, makedirs, rename,
  unlink,
}
use rohmu.Base.{
  Outcome, None, Bytes, List, Method, Option, ◌∷◌, [], Error, ℕ, err, ok, concurrent_upload_error,
  Bool, ◌>>=◌, os_error, ◌++◌, some, pure, false, file_not_found, if◌then◌else◌, diverge, length,
  none,
}
use rohmu.Storage.Values.{Text, ConcurrentUpload, sorted_parts, set_etag}
use rohmu.Local.Objects.{store_file_object, after_rename, call_upload_progress, write_source}

-- "local"
abbrev pub local : Text
local = 108 ∷ 111 ∷ 99 ∷ 97 ∷ 108 ∷ []

-- The tag of every chunk, "no-etag"
abbrev pub no_etag : Text
no_etag = 110 ∷ 111 ∷ 45 ∷ 101 ∷ 116 ∷ 97 ∷ 103 ∷ []

-- `except OSError`, around a call
unfoldable pub upload_error : {A : Type 0} → Outcome A × Local → Outcome A × Local
upload_error (err os_error, s) = (err concurrent_upload_error, s)
upload_error (err file_not_found, s) = (err concurrent_upload_error, s)
upload_error (err e, s) = (err e, s)
upload_error (ok a, s) = (ok a, s)
upload_error (diverge, s) = (diverge, s)

-- `except OSError`, where it is only logged
unfoldable pub ignore_os_error : Outcome None × Local → Outcome None × Local
ignore_os_error (err os_error, s) = (ok tt, s)
ignore_os_error (err file_not_found, s) = (ok tt, s)
ignore_os_error (err e, s) = (err e, s)
ignore_os_error (ok a, s) = (ok tt, s)
ignore_os_error (diverge, s) = (diverge, s)

unfoldable pub get_chunks_dir : Text → ConcurrentUpload → Text
get_chunks_dir prefix upload =
    format_key_for_backend prefix (dot_concurrent_upload ++ upload.backend_id) false false

module _ (runtime : Runtime) where
  -- One chunk file, before the others
  unfoldable pub chunk_before : Bytes × Option Error → Option Node → Bytes × Option Error
  chunk_before rest none = ([], some file_not_found)
  chunk_before rest (some directory) = ([], some os_error)
  chunk_before (bytes, fails) (some (file chunk)) = (chunk ++ bytes, fails)

  -- The contents of the chunk files, one behind the other: each is opened when it is reached, and the
  -- first that is not there ends the stream with an exception.
  unfoldable pub chunk_contents : Text → List (ℕ × Text) → Disk → Bytes × Option Error
  chunk_contents chunks_dir [] disk = ([], none)
  chunk_contents chunks_dir ((number, etag) ∷ chunks) disk =
      chunk_before (chunk_contents chunks_dir chunks disk)
        (look (join_path chunks_dir (runtime.str number)) disk)

  -- The source is the stream of the chunk files.
  unfoldable pub open_chunks : Text → List (ℕ × Text) → Method Local None
  open_chunks chunks_dir chunks s =
      let (bytes, fails) = chunk_contents chunks_dir chunks s.disk in
      (ok tt, record s { source = whole bytes; source_fails = fails })

  -- `atomic_create_file_binary`, around the copying of the source
  unfoldable pub after_writing : Text → Text → Outcome Bytes × Local → Outcome Bytes × Local
  after_writing tmp file_path (ok bytes, s) =
      let r = after_rename tmp (rename tmp file_path s) in
      (elim r.0 [ ok _ ↦ ok bytes | err e ↦ err e | diverge ↦ diverge ], r.1)
  after_writing tmp file_path (err e, s) = (err e, (unlink tmp s).1)
  after_writing tmp file_path (diverge, s) = (diverge, s)

  unfoldable pub atomic_create_file_binary : Text → Method Local Bytes
  atomic_create_file_binary file_path s =
      let tmp = runtime.mkstemp (basename file_path) [] (dirname file_path) s.disk in
      if has_directory file_path s.disk
      then after_writing tmp file_path
          (write_source tmp false (record s { disk = put tmp (file []) s.disk }))
      else (err file_not_found, s)

  module _ (prefix : Text) where
    unfoldable pub create_concurrent_upload : Text → Option Metadata → Method Local ConcurrentUpload
    create_concurrent_upload key metadata s =
        let upload : ConcurrentUpload = record {
          backend = local;
          backend_id = runtime.uuid s.disk;
          key = key;
          metadata = metadata;
          chunks_to_etags = [];
        } in
        ((λ t. upload_error (makedirs (get_chunks_dir prefix upload) t)) >>= λ _. pure upload) s

    unfoldable pub upload_concurrent_chunk :
        ConcurrentUpload → ℕ → Bool → Method Local ConcurrentUpload
    upload_concurrent_chunk upload chunk_number progress s = upload_error (
        (atomic_create_file_binary
              (join_path (get_chunks_dir prefix upload) (runtime.str chunk_number))
            >>= λ bytes. call_upload_progress progress (length bytes) >>= λ _. pure (record upload {
              chunks_to_etags = set_etag chunk_number no_etag upload.chunks_to_etags;
            }))
          s)

    unfoldable pub complete_concurrent_upload : ConcurrentUpload → Method Local None
    complete_concurrent_upload upload =
        open_chunks (get_chunks_dir prefix upload) (sorted_parts upload.chunks_to_etags) >>= λ _.
        store_file_object runtime prefix upload.key upload.metadata false >>= λ _.
        (λ s. ignore_os_error (rmtree (get_chunks_dir prefix upload) s))

    unfoldable pub abort_concurrent_upload : ConcurrentUpload → Method Local None
    abort_concurrent_upload upload s = upload_error (rmtree (get_chunks_dir prefix upload) s)
