-- ===== src/S3/Objects.antt =====
-- rohmu/object_storage/s3.py: copying, deleting, listing and fetching objects.
use rohmu.Storage.Values.{set_entry}
use rohmu.S3.Multipart.{truthy}
use rohmu.Util.{batched}
use rohmu.Storage.{
  validate_byte_range, format_key_from_backend, format_key_for_backend, slash, rstrip,
}
use rohmu.S3.{
  Request, Reply, Session, S3Transfer, try_except, path_of, Content, record_event, copy_object,
  head_object, format_key_for_backend, get_object, object_deleted, progressed, missing_or_failed,
  delete_object, delete_objects, yielded, object_copied, uncaught, listed_object, listed_prefix,
  list_objects_v2, read_body, Metadata, Text,
}
use rohmu.Base.{
  ℕ, Option, Outcome, List, Bytes, Bool, ◌∷◌, [], false, Method, if◌then◌else◌, leb, map, is_empty,
  some, ◌==◌, ◌&&◌, true, None, ltb, ok, none, ◌+◌, pure, ◌++◌, raise, ◌>>=◌, loop_forever, diverge,
  err, not_implemented, not, suc, file_not_found_from_storage, min, ◌-◌, zero, length,
}

-- `k.lower()` of one character, for the ASCII letters that a header can have
unfoldable pub lower_code : ℕ → ℕ
lower_code c = if leb 65 c && leb c 90 then c + 32 else c

-- `{k.lower(): v for k, v in metadata.items()}`, from what has been gathered
unfoldable pub lowered : Metadata → Metadata → Metadata
lowered gathered [] = gathered
lowered gathered ((k, v) ∷ metadata) = lowered (set_entry (map lower_code k) v gathered) metadata

-- `etag.strip('"')`
unfoldable pub lstrip_quotes : Text → Text
lstrip_quotes [] = []
lstrip_quotes (c ∷ cs) = let rest = lstrip_quotes cs in if c == 34 then rest else c ∷ cs

unfoldable pub rstrip_quotes : Text → Text
rstrip_quotes [] = []
rstrip_quotes (c ∷ cs) =
    let rest = rstrip_quotes cs in if is_empty rest && c == 34 then [] else c ∷ rest

-- `metadata or {}`
unfoldable pub or_empty : Option Metadata → Metadata
or_empty none = []
or_empty (some metadata) = metadata

unfoldable pub is_given {ℓ} : {A : Type ℓ} → Option A → Bool
is_given none = false
is_given (some a) = true

-- `S3_READ_BLOCK_SIZE`
abbrev pub read_block_size : ℕ
read_block_size = 1048576

module _ {C : Type 0} where
  -- A result that is not an exception, or the exception of a helper
  unfoldable pub lift : {A : Type 0} → Outcome A → Method (Session C) A
  lift (ok a) s = (ok a, s)
  lift (err e) s = (err e, s)
  lift diverge s = (diverge, s)

  unfoldable pub note_deleted : List Text → Method (Session C) None
  note_deleted [] = pure tt
  note_deleted (key ∷ keys) = record_event (object_deleted key) >>= λ _. note_deleted keys

  -- `fileobj.write(data)`
  unfoldable pub write_target : Bytes → Method (Session C) None
  write_target chunk s = (ok tt, record s { target = s.target ++ chunk })

  -- `if cb: cb(data_read, body_length)`
  unfoldable pub call_back : Bool → ℕ → ℕ → Method (Session C) None
  call_back true data_read body_length = record_event (progressed data_read body_length)
  call_back false data_read body_length = pure tt

  unfoldable pub next_page :
      (Option Text → Method (Session C) None) → Option Text → Method (Session C) None
  next_page list_from none = pure tt
  next_page list_from (some token) = list_from (some token)

module _ {C : Type 0} (serve : Request → C → Reply × C) (transfer : S3Transfer) where
  unfoldable pub copy_file_from_bucket :
      S3Transfer → Text → Text → Option Metadata → Method (Session C) None
  copy_file_from_bucket source_bucket source_key destination_key metadata =
      try_except serve
        (copy_object transfer.bucket_name
          (source_bucket.bucket_name ++ slash ∷ path_of source_bucket source_key)
          (path_of transfer destination_key) (or_empty metadata) (is_given metadata))
        missing_or_failed
      >>= λ _. record_event (object_copied destination_key metadata)

  unfoldable pub copy_file : Text → Text → Option Metadata → Method (Session C) None
  copy_file source_key destination_key metadata =
      copy_file_from_bucket transfer source_key destination_key metadata

  unfoldable pub copy_each : S3Transfer → List Text → Method (Session C) None
  copy_each source [] = pure tt
  copy_each source (key ∷ keys) =
      copy_file_from_bucket source key key none >>= λ _. copy_each source keys

  -- `none` is a source that is no S3Transfer.
  unfoldable pub copy_files_from : Option S3Transfer → List Text → Method (Session C) None
  copy_files_from none keys = raise not_implemented
  copy_files_from (some source) keys = copy_each source keys

  unfoldable pub metadata_for_key : Text → Method (Session C) Metadata
  metadata_for_key key =
      try_except serve (head_object transfer.bucket_name key) missing_or_failed >>= λ response.
      pure response.metadata_field

  unfoldable pub get_metadata_for_key : Text → Method (Session C) Metadata
  get_metadata_for_key key = metadata_for_key (path_of transfer key)

  unfoldable pub delete_key : Text → Method (Session C) None
  delete_key key = metadata_for_key (path_of transfer key) >>= λ _.
      try_except serve (delete_object transfer.bucket_name (path_of transfer key)) uncaught >>= λ _.
      record_event (object_deleted key)

  unfoldable pub delete_batches : List (List Text) → Method (Session C) None
  delete_batches [] = pure tt
  delete_batches (batch ∷ batches) =
      try_except serve (delete_objects transfer.bucket_name (map (path_of transfer) batch)) uncaught
      >>= λ _. note_deleted batch >>= λ _. delete_batches batches

  unfoldable pub delete_keys : List Text → Method (Session C) None
  delete_keys keys = lift (batched keys 1000) >>= λ batches. delete_batches batches

  -- One item of `Contents`, once its metadata are known
  unfoldable pub yield_object : Content → Option Metadata → Method (Session C) None
  yield_object item metadata =
      lift (format_key_from_backend transfer.prefix item.content_key) >>= λ name. record_event (
        yielded (
          listed_object name item.content_size item.last_modified
            (rstrip_quotes (lstrip_quotes item.content_etag)) metadata))

  -- An object that has gone since it was listed is passed over.
  unfoldable pub with_found : Content → Outcome Metadata → Method (Session C) None
  with_found item (ok metadata) = yield_object item (some (lowered [] metadata))
  with_found item (err file_not_found_from_storage) = pure tt
  with_found item (err e) = raise e
  with_found item diverge = loop_forever

  unfoldable pub list_object : Bool → Content → Method (Session C) None
  list_object true item s = let r = metadata_for_key item.content_key s in with_found item r.0 r.1
  list_object false item s = yield_object item none s

  unfoldable pub list_contents : Bool → List Content → Method (Session C) None
  list_contents with_metadata [] = pure tt
  list_contents with_metadata (item ∷ items) =
      list_object with_metadata item >>= λ _. list_contents with_metadata items

  unfoldable pub list_common_prefixes : List Text → Method (Session C) None
  list_common_prefixes [] = pure tt
  list_common_prefixes (common_prefix ∷ prefixes) =
      lift (format_key_from_backend transfer.prefix common_prefix) >>= λ name.
      record_event (yielded (listed_prefix (rstrip name))) >>= λ _. list_common_prefixes prefixes

  -- The loop over the pages of a listing; the service decides how many there are.
  unfoldable pub list_pages : ℕ → Text → Bool → Bool → Option Text → Method (Session C) None
  list_pages zero path with_metadata deep token = loop_forever
  list_pages (suc rounds) path with_metadata deep token =
      try_except serve (list_objects_v2 transfer.bucket_name path (not deep) (truthy token))
        uncaught
      >>= λ response. list_contents with_metadata response.contents >>= λ _.
          list_common_prefixes response.common_prefixes >>= λ _.
          next_page (list_pages rounds path with_metadata deep) response.next_continuation_token

  unfoldable pub iter_key : ℕ → Text → Bool → Bool → Bool → Method (Session C) None
  iter_key rounds key with_metadata deep include_key =
      list_pages rounds (format_key_for_backend transfer.prefix key true (not include_key))
        with_metadata deep none

  -- The body stays with the service; what is returned is its length and the metadata.
  unfoldable pub get_object_stream : Text → Option (ℕ × ℕ) → Method (Session C) (ℕ × Metadata)
  get_object_stream key byte_range =
      try_except serve (get_object transfer.bucket_name (path_of transfer key) byte_range)
        missing_or_failed
      >>= λ response. pure (response.content_length, response.metadata_field)

  unfoldable pub read_rounds : ℕ → Bool → ℕ → ℕ → Method (Session C) ℕ
  read_rounds zero cb body_length data_read s =
      if ltb data_read body_length then (diverge, s) else (ok data_read, s)
  read_rounds (suc rounds) cb body_length data_read s =
      if ltb data_read body_length
      then (try_except serve (read_body (min (body_length - data_read) read_block_size)) uncaught
            >>= λ response. write_target response.body >>= λ _.
                call_back cb (data_read + length response.body) body_length >>= λ _.
                read_rounds rounds cb body_length (data_read + length response.body))
          s
      else (ok data_read, s)

  -- Each read gives a byte at least, so a round for each byte is enough.
  unfoldable pub read_object_to_fileobj : ℕ → Bool → Method (Session C) None
  read_object_to_fileobj body_length cb =
      read_rounds body_length cb body_length 0 >>= λ data_read. call_back cb data_read body_length

  unfoldable pub get_contents_to_fileobj :
      Text → Option (ℕ × ℕ) → Bool → Method (Session C) Metadata
  get_contents_to_fileobj key byte_range progress_callback =
      lift (validate_byte_range byte_range) >>= λ _. get_object_stream key byte_range >>= λ found.
      read_object_to_fileobj found.0 progress_callback >>= λ _. pure found.1

  unfoldable pub get_file_size : Text → Method (Session C) ℕ
  get_file_size key =
      try_except serve (head_object transfer.bucket_name (path_of transfer key)) missing_or_failed
      >>= λ response. pure response.content_length
