-- ===== src/Examples/Buckets.antt =====
-- The S3 transfer in front of small services.

use rohmu.Storage.Readers.{read_some, read_cut}
use rohmu.S3.Delivery.{adapted_progress-Quiet}
use rohmu.Util.Batches.{rejoin, Batched}
use rohmu.S3.Objects.{get_contents_to_fileobj, delete_keys}
use rohmu.S3.Uploads.{UploadEnds, multipart_upload_file_object-UploadEnds}
use rohmu.Storage.{validate_byte_range, to_incremental}
use rohmu.S3.Fetch.{Streams, get_contents_to_fileobj-Fetched}
use rohmu.S3.Deletion.{deletions, noted, DeletionEnds, delete_keys-DeletionEnds}
use rohmu.S3.Order.{Ascending, etag_of}
use rohmu.S3.Completion.{upload_chunks, tags, complete_concurrent_upload-sends}
use rohmu.S3.Concurrent.{complete_concurrent_upload, aws}
use rohmu.Storage.Values.{ConcurrentUpload}
use rohmu.Storage.Readers.{Reader}
use rohmu.S3.Attempts.{
  count_requests, Refuses, part_request, abort_request, upload_attempts-refused,
}
use rohmu.S3.Chunks.{some_unless_empty, read_bytes_lem}
use rohmu.S3.Multipart.{
  sanitized, multipart_upload_file_object, read_bytes, upload_attempts, upload_begun,
  adapted_progress, upload_parts, report, with_chunk, read_results, joined_results, complete_upload,
  call_given, take_source,
}
use rohmu.Base.{
  Bytes, List, ◌∷◌, ℕ, arith, [], if◌then◌else◌, none, false, ◌==◌, ◌≡◌, length, some, suc, refl,
  ◌+◌, err, true, ok, zero, storage_error, Bool,
}
use rohmu.S3.{
  Response, S3Transfer, Request, try_except, Reply, Session, on_reply, client_error, answer,
  read_body, record_event, exchange, complete_multipart_upload, path_of,
}

abbrev blank : Response
blank = record {
  upload_id = 117 ∷ [];
  etag = [];
  metadata_field = [];
  content_length = 0;
  contents = [];
  common_prefixes = [];
  next_continuation_token = none;
  body = [];
}

abbrev bucket : S3Transfer
bucket = record {
  bucket_name = 98 ∷ [];
  prefix = 112 ∷ 47 ∷ [];
  location = [];
  multipart_chunk_size = 2;
  encrypted = false;
}

abbrev opened : {C : Type 0} → C → Bytes → List ℕ → Session C
opened c bytes pieces = record {
  client = c;
  source = record { rest = bytes; pieces = pieces };
  target = [];
  last_progress = 0;
  events = [];
}

-- A service that refuses its second request, and gives the number of a request as a tag.
unfoldable busy : Request → ℕ → Reply × ℕ
busy request n =
    if n == 1
    then (client_error (some 503), n + 1)
    else (answer (record blank { etag = n ∷ [] }), n + 1)

multipart_upload_file_object-UploadEnds_example :
    UploadEnds bucket (107 ∷ []) none (opened 0 (1 ∷ 2 ∷ 3 ∷ []) (0 ∷ [])) (
      multipart_upload_file_object busy bucket none
        (107 ∷ [])
        none
        none
        (some adapted_progress)
        (opened 0 (1 ∷ 2 ∷ 3 ∷ []) (0 ∷ [])))
unfolding sanitized
multipart_upload_file_object-UploadEnds_example =
    multipart_upload_file_object-UploadEnds busy bucket none (107 ∷ []) none none
      (some adapted_progress) (opened 0 (1 ∷ 2 ∷ 3 ∷ []) (0 ∷ [])) (omega arith)
      adapted_progress-Quiet

-- The upload of that example returns.
uploaded :
    (multipart_upload_file_object busy bucket none
      (107 ∷ [])
      none
      none
      (some adapted_progress)
      (opened 0 (1 ∷ 2 ∷ 3 ∷ []) (0 ∷ []))).0
    ≡ ok tt
unfolding multipart_upload_file_object try_except on_reply upload_begun upload_parts upload_attempts
    report with_chunk read_bytes read_results read_some read_cut joined_results complete_upload
    record_event adapted_progress call_given to_incremental take_source busy
uploaded = refl

read_bytes_lem_example :
    ((read_bytes (record { rest = 1 ∷ 2 ∷ 3 ∷ []; pieces = 0 ∷ 0 ∷ [] }) 2).0 ≡ some (1 ∷ 2 ∷ []))
    × ((read_bytes (record { rest = 1 ∷ 2 ∷ 3 ∷ []; pieces = 0 ∷ 0 ∷ [] }) 2).1.rest ≡ 3 ∷ [])
unfolding some_unless_empty
read_bytes_lem_example = read_bytes_lem (record { rest = 1 ∷ 2 ∷ 3 ∷ []; pieces = 0 ∷ 0 ∷ [] }) 2

-- A service that refuses everything.
unfoldable closed_down : Request → ℕ → Reply × ℕ
closed_down request n = (client_error none, n + 1)

closed_down-Refuses : Refuses closed_down bucket (1 ∷ []) (107 ∷ []) 1 (117 ∷ [])
unfolding closed_down
closed_down-Refuses c = (none, c + 1, refl)

upload_attempts-refused_example :
    ((upload_attempts closed_down bucket 9 (1 ∷ []) (107 ∷ []) 1 (117 ∷ []) (opened 0 [] [])).0
      ≡ err storage_error)
    × (count_requests part_request
          (upload_attempts closed_down bucket 9
            (1 ∷ [])
            (107 ∷ [])
            1
            (117 ∷ [])
            (opened 0 [] [])).1.events
        ≡ 10)
    × (count_requests abort_request
          (upload_attempts closed_down bucket 9
            (1 ∷ [])
            (107 ∷ [])
            1
            (117 ∷ [])
            (opened 0 [] [])).1.events
        ≡ 1)
unfolding count_requests
upload_attempts-refused_example =
    upload_attempts-refused closed_down bucket 9 1 (1 ∷ []) (107 ∷ []) (117 ∷ []) (opened 0 [] [])
      closed_down-Refuses

abbrev new_upload : ConcurrentUpload
new_upload = record {
  backend = aws;
  backend_id = 117 ∷ [];
  key = 107 ∷ [];
  metadata = none;
  chunks_to_etags = [];
}

-- The third chunk arrives first; the upload of the first is refused, and then taken.
abbrev arrivals : List (ℕ × Bool × Reader)
arrivals =
    (3, true, record { rest = 7 ∷ []; pieces = [] })
    ∷ (1, false, record { rest = 5 ∷ 6 ∷ []; pieces = 1 ∷ [] })
    ∷ (1, false, record { rest = 5 ∷ 6 ∷ []; pieces = 1 ∷ [] })
    ∷ []

complete_concurrent_upload-sends_example :
    let (after, t) = upload_chunks busy bucket new_upload arrivals (opened 0 [] []) in
    (parts : List (ℕ × Bytes)) × (reply : Reply) × ((complete_concurrent_upload busy bucket after
        t).1.events
      ≡ exchange
          (complete_multipart_upload bucket.bucket_name
            (path_of bucket (107 ∷ []))
            parts
            (117 ∷ [])
            true)
          reply
        ∷ t.events)
    × Ascending 0 parts
    × ((k : ℕ) → etag_of k parts ≡ etag_of k (tags t.events))
complete_concurrent_upload-sends_example =
    complete_concurrent_upload-sends busy bucket new_upload arrivals (opened 0 [] []) refl refl

delete_keys-DeletionEnds_example :
    (batches : List (List Bytes)) × (rejoin batches ≡ (97 ∷ []) ∷ (98 ∷ []) ∷ [])
    × Batched 1000 batches
    × DeletionEnds bucket [] [] batches
        (delete_keys busy bucket ((97 ∷ []) ∷ (98 ∷ []) ∷ []) (opened 0 [] []))
unfolding deletions noted
delete_keys-DeletionEnds_example =
    delete_keys-DeletionEnds busy bucket ((97 ∷ []) ∷ (98 ∷ []) ∷ []) (opened 0 [] [])

-- A service that holds one body, and hands it out byte by byte.
unfoldable dripping : Request → Bytes → Reply × Bytes
dripping (read_body n) [] = (answer blank, [])
dripping (read_body n) (x ∷ xs) = (answer (record blank { body = x ∷ [] }), xs)
dripping request bytes = (answer (record blank { content_length = length bytes }), bytes)

abbrev all_of : Bytes → Bytes
all_of bytes = bytes

dripping-Streams : Streams dripping all_of
unfolding dripping
dripping-Streams n [] some_asked some_held = absurd (omega arith)
dripping-Streams n (x ∷ xs) some_asked some_held =
    (record blank { body = x ∷ [] }, xs, refl, omega arith, omega arith, refl)

get_contents_to_fileobj-Fetched_example :
    ((get_contents_to_fileobj dripping bucket (107 ∷ []) none true (opened (7 ∷ 8 ∷ []) [] [])).0
      ≡ ok [])
    × ((get_contents_to_fileobj dripping bucket
          (107 ∷ [])
          none
          true
          (opened (7 ∷ 8 ∷ []) [] [])).1.target
        ≡ 7 ∷ 8 ∷ [])
unfolding dripping validate_byte_range
get_contents_to_fileobj-Fetched_example =
    get_contents_to_fileobj-Fetched dripping bucket all_of dripping-Streams (107 ∷ []) none true
      (opened (7 ∷ 8 ∷ []) [] []) (record blank { content_length = 2 }) (7 ∷ 8 ∷ []) refl refl refl

-- Two pages of a listing, the first with a token.
abbrev first_page : Response
first_page = record blank {
  contents =
      record {
        content_key = 112 ∷ 47 ∷ 97 ∷ [];
        last_modified = 5;
        content_etag = 34 ∷ 101 ∷ 34 ∷ [];
        content_size = 4;
      }
      ∷ [];
  next_continuation_token = some (116 ∷ []);
}

abbrev last_page : Response
last_page = record blank { common_prefixes = (112 ∷ 47 ∷ 100 ∷ 47 ∷ []) ∷ [] }

unfoldable paging : Request → ℕ → Reply × ℕ
paging request zero = (answer first_page, 1)
paging request (suc n) = (answer last_page, suc n)
