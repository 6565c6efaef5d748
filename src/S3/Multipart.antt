-- ===== src/S3/Multipart.antt =====
-- rohmu/object_storage/s3.py: `multipart_upload_file_object`, and the storing of files with it or with
-- one request.
use rohmu.Storage.Values.{sanitize_metadata}
use rohmu.Storage.{to_incremental, should_multipart}
use rohmu.S3.{
  S3Transfer, Request, Reply, Session, UploadArgs, Response, try_except, record_event,
  abort_multipart_upload, upload_part, complete_multipart_upload, path_of, create_multipart_upload,
  put_object, incremented, uncaught, object_created, Metadata, Text,
}
use rohmu.Storage.Readers.{Reader, read_some, whole}
use rohmu.Base.{
  ℕ, List, Option, Bytes, some, [], none, ◌∷◌, Method, Bool, join, None, suc, pure, length, ◌>>=◌,
  if◌then◌else◌, ◌-◌, ◌+◌, false, ◌++◌, raise, true, zero, ◌==◌, is_empty, storage_error, err,
  map_some, diverge,
}

-- `_read_bytes`: the reads until the length is reached or nothing comes; each gives a byte at least.
unfoldable pub read_results : ℕ → ℕ → Reader → List Bytes × Reader
read_results zero bytes_remaining stream = ([], stream)
read_results (suc rounds) bytes_remaining stream =
    let (got, after) = read_some bytes_remaining stream in
    let (results, left) = read_results rounds (bytes_remaining - length got) after in
    if bytes_remaining == 0
    then ([], stream)
    else if is_empty got
    then ([], after)
    else (got ∷ results, left)

unfoldable pub joined_results : List Bytes → Option Bytes
joined_results [] = none
joined_results (result ∷ []) = some result
joined_results (result ∷ next ∷ results) = some (join (result ∷ next ∷ results))

unfoldable pub read_bytes : Reader → ℕ → Option Bytes × Reader
read_bytes stream n =
    let (results, after) = read_results n n stream in (joined_results results, after)

-- `if metadata:` and the like: what counts as given.
unfoldable pub truthy {ℓ} : {A : Type ℓ} → Option (List A) → Option (List A)
truthy none = none
truthy (some []) = none
truthy (some (x ∷ xs)) = some (x ∷ xs)

-- The metadata that is sent, and noticed
unfoldable pub sanitized : Option Metadata → Option Metadata
sanitized none = none
sanitized (some []) = some []
sanitized (some (entry ∷ metadata)) = some (sanitize_metadata (entry ∷ metadata))

-- The arguments of `_init_args_for_multipart` besides the bucket and the path
unfoldable pub init_args_for_multipart :
    S3Transfer → Option Metadata → Option Text → Option Text → UploadArgs
init_args_for_multipart transfer metadata mimetype cache_control = record {
  metadata_arg = map_some sanitize_metadata (truthy metadata);
  encryption = transfer.encrypted;
  content_type = truthy mimetype;
  cache_control_arg = truthy cache_control;
}

module _ {C : Type 0} where
  unfoldable pub report : Option (ℕ → Method (Session C) None) → ℕ → Method (Session C) None
  report none bytes_sent = pure tt
  report (some progress_fn) bytes_sent = progress_fn bytes_sent

  unfoldable pub take_source : Reader → Session C → Session C
  take_source reader s = record s { source = reader }

  -- The caller's callback behind `_proportional_to_incremental_progress`
  unfoldable pub call_given : Option ℕ → Method (Session C) None
  call_given none = pure tt
  call_given (some increment) = record_event (incremented increment)

  unfoldable pub adapted_progress : ℕ → Method (Session C) None
  adapted_progress progress s =
      let (given, last) = to_incremental progress s.last_progress in
      call_given given (record s { last_progress = last })

  -- `if upload_progress_fn:`
  unfoldable pub call_if : Bool → ℕ → Method (Session C) None
  call_if true n = record_event (incremented n)
  call_if false n = pure tt

module _ {C : Type 0} (serve : Request → C → Reply × C) (transfer : S3Transfer) where
  -- What follows the failure of a part or of the completion: the upload is aborted, and whatever comes
  -- of that, a StorageError is raised.
  unfoldable pub abort_and_raise : Text → Text → Method (Session C) Response
  abort_and_raise path mp_id s =
      let after =
        try_except serve (abort_multipart_upload transfer.bucket_name path mp_id false) uncaught
          s in
      (err storage_error, after.1)

  -- The attempts to upload one part, when `attempts` are left behind the next one.
  unfoldable pub upload_attempts : ℕ → Bytes → Text → ℕ → Text → Method (Session C) Response
  upload_attempts zero chunk path part_number mp_id =
      try_except serve (upload_part chunk transfer.bucket_name path part_number mp_id)
        (λ status. abort_and_raise path mp_id)
  upload_attempts (suc attempts) chunk path part_number mp_id =
      try_except serve (upload_part chunk transfer.bucket_name path part_number mp_id)
        (λ status. upload_attempts attempts chunk path part_number mp_id)

  -- What is done with the bytes of one part, and the loop over the parts
  unfoldable pub with_chunk :
      (ℕ → List (ℕ × Text) → ℕ → Method (Session C) (List (ℕ × Text) × ℕ))
      → Option (ℕ → Method (Session C) None)
      → Text
      → Text
      → ℕ
      → List (ℕ × Text)
      → ℕ
      → Option Bytes
      → Method (Session C) (List (ℕ × Text) × ℕ)
  with_chunk next progress_fn path mp_id part_number parts bytes_sent none =
      pure (parts, bytes_sent)
  with_chunk next progress_fn path mp_id part_number parts bytes_sent (some chunk) =
      upload_attempts 9 chunk path part_number mp_id >>= λ response.
      report progress_fn (bytes_sent + length chunk) >>= λ _.
      next (part_number + 1) (parts ++ (part_number, response.etag) ∷ [])
        (bytes_sent + length chunk)

  unfoldable pub upload_parts :
      ℕ
      → Option (ℕ → Method (Session C) None)
      → Text
      → Text
      → ℕ
      → List (ℕ × Text)
      → ℕ
      → Method (Session C) (List (ℕ × Text) × ℕ)
  upload_parts zero progress_fn path mp_id part_number parts bytes_sent s = (diverge, s)
  upload_parts (suc rounds) progress_fn path mp_id part_number parts bytes_sent s =
      let (chunk, after) = read_bytes s.source transfer.multipart_chunk_size in
      with_chunk (upload_parts rounds progress_fn path mp_id) progress_fn path mp_id part_number
        parts bytes_sent chunk (take_source after s)

  -- The completion, and the notice behind it
  unfoldable pub complete_upload :
      Text → Text → Text → Option Metadata → List (ℕ × Text) × ℕ → Method (Session C) None
  complete_upload key path mp_id metadata (parts, bytes_sent) =
      try_except serve (complete_multipart_upload transfer.bucket_name path parts mp_id false)
        (λ status. abort_and_raise path mp_id)
      >>= λ _. record_event (object_created key bytes_sent metadata)

  -- The parts of an upload that the service has begun; a round for each byte, and one to see the end,
  -- are enough.
  unfoldable pub upload_begun :
      Text → Option Metadata → Option (ℕ → Method (Session C) None) → Text → Method (Session C) None
  upload_begun key metadata progress_fn mp_id s =
      (upload_parts (suc (length s.source.rest)) progress_fn (path_of transfer key) mp_id 1 [] 0
          >>= λ sent. complete_upload key (path_of transfer key) mp_id metadata sent)
        s

  unfoldable pub multipart_upload_file_object :
      Option Text
      → Text
      → Option Metadata
      → Option Text
      → Option (ℕ → Method (Session C) None)
      → Method (Session C) None
  multipart_upload_file_object cache_control key metadata mimetype progress_fn =
      try_except serve
        (create_multipart_upload transfer.bucket_name (path_of transfer key)
          (init_args_for_multipart transfer metadata mimetype cache_control))
        (λ status. raise storage_error)
      >>= λ response. upload_begun key (sanitized metadata) progress_fn response.upload_id

  unfoldable pub store_file_from_memory :
      Text → Bytes → Option Metadata → Option Text → Option Text → Method (Session C) None
  store_file_from_memory key memstring metadata cache_control mimetype =
      try_except serve
        (put_object transfer.bucket_name memstring (path_of transfer key) (record {
          metadata_arg = map_some sanitize_metadata (truthy metadata);
          encryption = transfer.encrypted;
          content_type = mimetype;
          cache_control_arg = cache_control;
        }))
        uncaught
      >>= λ _. record_event (object_created key (length memstring) (sanitized metadata))

  -- A file that is stored with one request
  unfoldable pub store_whole :
      Text → Option Metadata → Option Text → Option Text → Bool → Method (Session C) None
  store_whole key metadata cache_control mimetype with_progress s =
      (store_file_from_memory key s.source.rest metadata cache_control mimetype >>= λ _.
      call_if with_progress (length s.source.rest))
        (take_source (whole []) s)

  -- `content_length` is the Content-Length of the metadata, and `empty_source` what
  -- `file_object_is_empty` says.
  unfoldable pub store_file_object :
      Text
      → Option Metadata
      → Option ℕ
      → Bool
      → Option Text
      → Option Text
      → Option Bool
      → Bool
      → Method (Session C) None
  store_file_object key metadata content_length empty_source cache_control mimetype multipart
        with_progress s =
      if should_multipart content_length empty_source transfer.multipart_chunk_size multipart true
      then multipart_upload_file_object cache_control key metadata mimetype
          (if with_progress then some adapted_progress else none) (record s { last_progress = 0 })
      else store_whole key metadata cache_control mimetype with_progress s
