-- ===== src/S3/Concurrent.antt =====
-- rohmu/object_storage/s3.py: concurrent uploads. The chunks of an upload arrive in any order; each call
-- is one step.
use rohmu.Storage.Values.{ConcurrentUpload, set_etag, sorted_parts}
use rohmu.S3.Multipart.{init_args_for_multipart, call_if, sanitized}
use rohmu.Storage.Readers.{whole}
use rohmu.Base.{
  ℕ, Option, ◌∷◌, [], Method, Bool, None, raise, true, concurrent_upload_error, ◌>>=◌, pure, length,
}
use rohmu.S3.{
  Session, Request, Reply, S3Transfer, try_except, create_multipart_upload, upload_part,
  complete_multipart_upload, abort_multipart_upload, path_of, Text, Metadata,
}

-- The bytes of a file that is read whole, through a `ProgressStream`
unfoldable pub take_all_source : {C : Type 0} → Session C → Session C
take_all_source s = record s { source = whole [] }

-- The text "aws"
abbrev pub aws : Text
aws = 97 ∷ 119 ∷ 115 ∷ []

module _ {C : Type 0} (serve : Request → C → Reply × C) (transfer : S3Transfer) where
  unfoldable pub create_concurrent_upload :
      Text → Option Metadata → Option Text → Option Text → Method (Session C) ConcurrentUpload
  create_concurrent_upload key metadata mimetype cache_control =
      try_except serve
        (create_multipart_upload transfer.bucket_name (path_of transfer key)
          (init_args_for_multipart transfer metadata mimetype cache_control))
        (λ status. raise concurrent_upload_error)
      >>= λ response. pure (record {
        backend = aws;
        backend_id = response.upload_id;
        key = key;
        metadata = sanitized metadata;
        chunks_to_etags = [];
      })

  -- The client reads the whole of the body that it is given; where the call returns, the tag is kept.
  unfoldable pub upload_concurrent_chunk :
      ConcurrentUpload → ℕ → Bool → Method (Session C) ConcurrentUpload
  upload_concurrent_chunk upload chunk_number upload_progress_fn s =
      (try_except serve
            (upload_part s.source.rest transfer.bucket_name (path_of transfer upload.key)
              chunk_number upload.backend_id)
            (λ status. raise concurrent_upload_error)
          >>= λ response. call_if upload_progress_fn (length s.source.rest) >>= λ _.
              pure (record upload {
                chunks_to_etags = set_etag chunk_number response.etag upload.chunks_to_etags;
              }))
        (take_all_source s)

  unfoldable pub complete_concurrent_upload : ConcurrentUpload → Method (Session C) None
  complete_concurrent_upload upload =
      try_except serve
        (complete_multipart_upload transfer.bucket_name (path_of transfer upload.key)
          (sorted_parts upload.chunks_to_etags) upload.backend_id true)
        (λ status. raise concurrent_upload_error)
      >>= λ _. pure tt

  unfoldable pub abort_concurrent_upload : ConcurrentUpload → Method (Session C) None
  abort_concurrent_upload upload =
      try_except serve
        (abort_multipart_upload transfer.bucket_name (path_of transfer upload.key) upload.backend_id
          true)
        (λ status. raise concurrent_upload_error)
      >>= λ _. pure tt
