-- ===== src/S3/Uploads.antt =====
-- rohmu/object_storage/s3.py: the whole of `multipart_upload_file_object`.
use rohmu.Util.Batches.{rejoin, batches-rejoin}
use rohmu.S3.Parts.{LoopEnds, upload_parts-Uploads}
use rohmu.S3.Multipart.{
  complete_upload, abort_and_raise, upload_begun, multipart_upload_file_object, upload_parts,
  sanitized, init_args_for_multipart,
}
use rohmu.Util.{batched, batches}
use rohmu.S3.Delivery.{
  Part, accepted, accepted_part, completed, accepted_completion, chunk_of, number_of, count_from,
  tag_of, view, abort_and_raise-completed, View, QuietEnd, Quiet,
}
use rohmu.S3.{
  S3Transfer, Request, Event, Reply, on_reply, Session, Response, record_event, try_except,
  exchanged, complete_multipart_upload, answer, object_created, path_of, failure, client_error,
  UploadArgs, create_multipart_upload, Text, Metadata,
}
use rohmu.Base.{
  List, Option, ℕ, none, Outcome, ◌∷◌, ◌<◌, some, None, ok, ◌≡◌, Bytes, [], ◌++◌, map, err, suc,
  diverge, false, length, append-nil, ◌-◌, resume, arith, ge→ltb, resume_rule, ap, ◌∙◌, sym, ap₂,
  refl, Method, raise, storage_error,
}

unfoldable pub newest : List Event → Option Event
newest [] = none
newest (event ∷ events) = some event

module _ {C : Type 0} where
  -- How an upload ends: with the contents of the source as parts that the service has accepted, a
  -- completion that lists them, and the notice; or with an exception and no completion.
  abbrev pub UploadEnds :
      S3Transfer → Text → Option Metadata → Session C → Outcome None × Session C → Type 0
  UploadEnds transfer key metadata s (ok a, t) =
      (parts : List Part) × (accepted t.events ≡ accepted s.events ++ parts)
      × (batched s.source.rest transfer.multipart_chunk_size ≡ ok (map chunk_of parts))
      × (map number_of parts ≡ count_from 1 parts)
      × (completed t.events ≡ completed s.events ++ map tag_of parts ∷ [])
      × (newest t.events ≡ some (object_created key (length s.source.rest) metadata))
  UploadEnds transfer key metadata s (err e, t) = completed t.events ≡ completed s.events
  UploadEnds transfer key metadata s (diverge, t) = ⊥

  -- An end, whatever is returned
  abbrev forget : {A : Type 0} → Outcome A × Session C → Outcome None × Session C
  forget (ok a, t) = (ok tt, t)
  forget (err e, t) = (err e, t)
  forget (diverge, t) = (diverge, t)

  UploadEnds-from :
      (transfer : S3Transfer) (key : Text) (metadata : Option Metadata) (s u : Session C)
      → view u ≡ view s
      → (x : Outcome None × Session C) → UploadEnds transfer key metadata u x
      → UploadEnds transfer key metadata s x
  UploadEnds-from transfer key metadata s u same (ok a, t)
        (parts, acc, cut, numbers, done, notice) =
      (
        parts,
        acc ∙ ap (λ (v : View). v.0 ++ parts) same,
        ap (λ (v : View). batched v.2 transfer.multipart_chunk_size) (sym same) ∙ cut,
        numbers,
        done ∙ ap (λ (v : View). v.1 ++ map tag_of parts ∷ []) same,
        notice ∙ ap (λ (v : View). some (object_created key (length v.2) metadata)) same,
      )
  UploadEnds-from transfer key metadata s u same (err e, t) done =
      done ∙ ap (λ (v : View). v.1) same
  UploadEnds-from transfer key metadata s u same (diverge, t) h = h

  -- The end of the completion
  abbrev CompletionEnds :
      List Part → List (List (ℕ × Text)) → List (ℕ × Text) → Outcome Response × Session C → Type 0
  CompletionEnds acc done parts (ok response, t) =
      (accepted t.events ≡ acc) × (completed t.events ≡ done ++ parts ∷ [])
  CompletionEnds acc done parts (err e, t) = completed t.events ≡ done
  CompletionEnds acc done parts (diverge, t) = ⊥

  module _ (serve : Request → C → Reply × C) (transfer : S3Transfer) where
    completion_replied :
        (path mp_id : Text) (parts : List (ℕ × Text)) (s : Session C) (x : Reply × C)
        → CompletionEnds (accepted s.events) (completed s.events) parts (
            on_reply
              (λ status. abort_and_raise serve transfer path mp_id)
              x.0
              (exchanged
                (complete_multipart_upload transfer.bucket_name path parts mp_id false)
                x
                s))
    unfolding on_reply accepted accepted_part completed accepted_completion
    completion_replied path mp_id parts s (answer response, c) =
        (append-nil (accepted s.events), refl)
    completion_replied path mp_id parts s (failure e, c) = append-nil (completed s.events)
    completion_replied path mp_id parts s (client_error status, c) =
        let after =
          exchanged (complete_multipart_upload transfer.bucket_name path parts mp_id false)
            (client_error status, c) s in
        rw (abort_and_raise-completed serve transfer path mp_id after).0 (
          (abort_and_raise-completed serve transfer path mp_id after).1
          ∙ append-nil (completed s.events))

    module _ (key : Text) (metadata : Option Metadata)
        (chunked : 0 < transfer.multipart_chunk_size) where
      batched_all :
          (bytes : Bytes) (parts : List Part)
          → map chunk_of parts ≡ batches (suc (length bytes)) transfer.multipart_chunk_size bytes
          → (batched bytes transfer.multipart_chunk_size ≡ ok (map chunk_of parts))
            × (length (rejoin (map chunk_of parts)) ≡ length bytes)
      unfolding batched
      batched_all bytes parts e =
          let m = transfer.multipart_chunk_size in
          let size : m ≡ suc (m - 1) = omega arith in
          (
            rw (ge→ltb m 1 (omega arith)) (ap (λ bs. ok bs) (sym e)),
            ap (λ (bs : List Bytes). length (rejoin bs))
                  (e ∙ ap (λ k. batches (suc (length bytes)) k bytes) size)
                ∙ ap length (batches-rejoin (suc (length bytes)) (m - 1) bytes (omega arith)),
          )

      complete_upload-UploadEnds :
          (mp_id : Text) (s t : Session C) (sent : Outcome (List (ℕ × Text) × ℕ))
          → LoopEnds transfer.multipart_chunk_size
              (suc (length s.source.rest))
              1
              []
              0
              (view s)
              (sent, t)
          → UploadEnds transfer key metadata s (
              resume sent
                (complete_upload serve transfer key (path_of transfer key) mp_id metadata)
                t)
      unfolding complete_upload record_event newest completed accepted try_except
      complete_upload-UploadEnds mp_id s t (err e) h = h
      complete_upload-UploadEnds mp_id s t diverge h = h
      complete_upload-UploadEnds mp_id s t (ok (tags, bytes))
            (parts, acc, done, chunks, numbers, tagged, size) =
          let (cut, all) = batched_all s.source.rest parts chunks in
          resume_rule (CompletionEnds (accepted t.events) (completed t.events) tags)
            (UploadEnds transfer key metadata s)
            (λ _. record_event (object_created key bytes metadata))
            (λ response u (kept, listed). (
              parts,
              kept ∙ acc,
              cut,
              numbers,
              listed ∙ ap₂ (λ a b. a ++ b ∷ []) done tagged,
              ap (λ n. some (object_created key n metadata)) (omega (arith, size, all)),
            ))
            (λ e u h. h ∙ done) (λ u h. h)
            (on_reply (λ status. abort_and_raise serve transfer (path_of transfer key) mp_id)
              (serve
                (complete_multipart_upload transfer.bucket_name (path_of transfer key) tags mp_id
                  false)
                t.client).0
              (exchanged
                (complete_multipart_upload transfer.bucket_name (path_of transfer key) tags mp_id
                  false)
                (serve
                  (complete_multipart_upload transfer.bucket_name (path_of transfer key) tags mp_id
                    false)
                  t.client)
                t))
            (completion_replied (path_of transfer key) mp_id tags t (
              serve
                (complete_multipart_upload transfer.bucket_name (path_of transfer key) tags mp_id
                  false)
                t.client))

      creation_replied :
          (args : UploadArgs) (s : Session C) (x : Reply × C)
          → QuietEnd (view s) (
              forget (
                on_reply
                  (λ status. raise storage_error)
                  x.0
                  (exchanged
                    (create_multipart_upload transfer.bucket_name (path_of transfer key) args)
                    x
                    s)))
      unfolding on_reply accepted accepted_part completed accepted_completion
      creation_replied args s (answer response, c) =
          ap₂ (λ a b. (a, b, s.source.rest)) (append-nil (accepted s.events))
            (append-nil (completed s.events))
      creation_replied args s (failure e, c) = append-nil (completed s.events)
      creation_replied args s (client_error status, c) = append-nil (completed s.events)

      upload_begun-UploadEnds :
          (progress_fn : Option (ℕ → Method (Session C) None)) (mp_id : Text)
          → Quiet progress_fn
          → (s : Session C)
          → UploadEnds transfer key metadata s
              (upload_begun serve transfer key metadata progress_fn mp_id s)
      unfolding upload_begun
      upload_begun-UploadEnds progress_fn mp_id quiet s =
          let x =
            upload_parts serve transfer (suc (length s.source.rest)) progress_fn
              (path_of transfer key) mp_id 1 [] 0 s in
          complete_upload-UploadEnds mp_id s x.1 x.0 (
            upload_parts-Uploads serve transfer progress_fn quiet (path_of transfer key) mp_id
              (suc (length s.source.rest)) 1 0 [] s (omega arith))

-- For every service and every source, whatever the reads give and the service replies,
-- `multipart_upload_file_object` with a positive chunk size and a progress callback that neither
-- uploads nor reads itself returns or raises. If it returns, the contents of the source, cut into
-- chunks, are the parts that the service has accepted, numbered from 1; the one completion lists
-- them with the tags that the service gave; and the notice has the size of the contents. If it raises, the
-- service has accepted no completion.
pub multipart_upload_file_object-UploadEnds :
    {C : Type 0} (serve : Request → C → Reply × C) (transfer : S3Transfer)
    (cache_control : Option Text) (key : Text) (metadata : Option Metadata) (mimetype : Option Text)
    (progress_fn : Option (ℕ → Method (Session C) None)) (s : Session C)
    → 0 < transfer.multipart_chunk_size
    → Quiet progress_fn
    → UploadEnds transfer key (sanitized metadata) s (
        multipart_upload_file_object serve transfer cache_control key metadata mimetype progress_fn
          s)
unfolding multipart_upload_file_object try_except
multipart_upload_file_object-UploadEnds serve transfer cache_control key metadata mimetype
      progress_fn s chunked quiet =
    let args = init_args_for_multipart transfer metadata mimetype cache_control in
    let request = create_multipart_upload transfer.bucket_name (path_of transfer key) args in
    let x = serve request s.client in
    resume_rule (λ (y : Outcome Response × Session _). QuietEnd (view s) (forget y))
      (UploadEnds transfer key (sanitized metadata) s)
      (λ response.
        upload_begun serve transfer key (sanitized metadata) progress_fn response.upload_id)
      (λ response t same.
        UploadEnds-from transfer key (sanitized metadata) s t same
          (upload_begun serve transfer key (sanitized metadata) progress_fn response.upload_id t)
          (upload_begun-UploadEnds serve transfer key (sanitized metadata) chunked progress_fn
            response.upload_id quiet t))
      (λ e t same. same) (λ t h. h)
      (on_reply (λ status. raise storage_error) x.0 (exchanged request x s))
      (creation_replied serve transfer key (sanitized metadata) chunked args s x)
