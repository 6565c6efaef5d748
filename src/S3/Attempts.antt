-- ===== src/S3/Attempts.antt =====
-- rohmu/object_storage/s3.py: how often `multipart_upload_file_object` tries to upload one part.
use rohmu.S3.Multipart.{abort_and_raise, upload_attempts}
use rohmu.Base.{
  ℕ, List, ◌∷◌, Bytes, ◌+◌, Option, ◌≡◌, suc, [], arith, err, false, storage_error, zero, refl,
}
use rohmu.S3.{
  Request, Reply, upload_part, abort_multipart_upload, Event, S3Transfer, Session, on_reply,
  try_except, exchange, uncaught, exchanged, client_error, answer, failure, Text,
}

-- How many requests to upload a part there have been, and how many to abort an upload
unfoldable pub part_request : Request → ℕ
part_request (upload_part chunk bucket path number mp_id) = 1
part_request request = 0

unfoldable pub abort_request : Request → ℕ
abort_request (abort_multipart_upload bucket path mp_id payer) = 1
abort_request request = 0

unfoldable pub count_requests : (Request → ℕ) → List Event → ℕ
count_requests weight [] = 0
count_requests weight (exchange request reply ∷ events) =
    count_requests weight events + weight request
count_requests weight (event ∷ events) = count_requests weight events

module _ {C : Type 0} (serve : Request → C → Reply × C) (transfer : S3Transfer) where
  abort_and_raise-counts :
      (path mp_id : Text) (s : Session C)
      → (count_requests part_request (abort_and_raise serve transfer path mp_id s).1.events
          ≡ count_requests part_request s.events)
        × (count_requests abort_request (abort_and_raise serve transfer path mp_id s).1.events
            ≡ count_requests abort_request s.events + 1)
  unfolding abort_and_raise try_except on_reply count_requests part_request abort_request
  abort_and_raise-counts path mp_id s =
      aborted (serve (abort_multipart_upload transfer.bucket_name path mp_id false) s.client)
    where
      aborted :
          (x : Reply × C)
          → (count_requests part_request
                (on_reply uncaught x.0 (
                  exchanged
                    (abort_multipart_upload transfer.bucket_name path mp_id false)
                    x
                    s)).1.events
              ≡ count_requests part_request s.events)
            × (count_requests abort_request
                  (on_reply uncaught x.0 (
                    exchanged
                      (abort_multipart_upload transfer.bucket_name path mp_id false)
                      x
                      s)).1.events
                ≡ count_requests abort_request s.events + 1)
      aborted (answer response, c) = (omega arith, omega arith)
      aborted (client_error status, c) = (omega arith, omega arith)
      aborted (failure e, c) = (omega arith, omega arith)

  -- A service that refuses a part, with a ClientError, whenever it is asked.
  abbrev pub Refuses : Bytes → Text → ℕ → Text → Type 0
  Refuses chunk path number mp_id =
      (c : C)
      → (status : Option ℕ) × (d : C) × (serve
            (upload_part chunk transfer.bucket_name path number mp_id) c
          ≡ (client_error status, d))

  -- A part that the service always refuses is tried n + 1 times; then the upload is aborted, once, and
  -- a StorageError raised.
  pub upload_attempts-refused :
      (attempts number : ℕ) (chunk path mp_id : Bytes) (s : Session C)
      → Refuses chunk path number mp_id
      → ((upload_attempts serve transfer attempts chunk path number mp_id s).0 ≡ err storage_error)
        × (count_requests part_request
              (upload_attempts serve transfer attempts chunk path number mp_id s).1.events
            ≡ count_requests part_request s.events + suc attempts)
        × (count_requests abort_request
              (upload_attempts serve transfer attempts chunk path number mp_id s).1.events
            ≡ count_requests abort_request s.events + 1)
  unfolding upload_attempts try_except on_reply count_requests part_request abort_request
      abort_and_raise
  upload_attempts-refused zero number chunk path mp_id s refuses =
      let (status, d, e) = refuses s.client in
      let t =
        exchanged (upload_part chunk transfer.bucket_name path number mp_id)
          (client_error status, d) s in
      let (parts, aborts) = abort_and_raise-counts path mp_id t in
      rw e (raised t, omega (arith, parts), omega (arith, aborts))
    where
      raised : (t : Session C) → (abort_and_raise serve transfer path mp_id t).0 ≡ err storage_error
      raised t = refl
  upload_attempts-refused (suc attempts) number chunk path mp_id s refuses =
      let (status, d, e) = refuses s.client in
      let t =
        exchanged (upload_part chunk transfer.bucket_name path number mp_id)
          (client_error status, d) s in
      let (raises, parts, aborts) =
        upload_attempts-refused attempts number chunk path mp_id t refuses in
      rw e (raises, omega (arith, parts), omega (arith, aborts))
