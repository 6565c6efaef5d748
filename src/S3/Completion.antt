-- ===== src/S3/Completion.antt =====
-- rohmu/object_storage/s3.py: what completes a concurrent upload.
use rohmu.Storage.Readers.{whole}
use rohmu.S3.Multipart.{call_if}
use rohmu.Base.{
  Outcome, ◌≡◌, Bool, ok, ◌∷◌, Method, Bytes, some, err, raise, [], none, diverge,
  concurrent_upload_error, ◌∙◌, true, ◌>>=◌, ap, length, pure, if◌then◌else◌, ◌==◌, false, None,
  subst, sym, refl, ap₂,
}
use rohmu.Storage.Values.{ConcurrentUpload, set_etag, sorted_parts}
use rohmu.S3.Order.{
  etag_of, Ascending, Distinct, etag_of-set_etag, set_etag-Distinct, etag_of-sorted_parts,
  sorted_parts-Ascending,
}
use rohmu.S3.Concurrent.{upload_concurrent_chunk, complete_concurrent_upload, take_all_source}
use rohmu.S3.{
  Session, Request, Reply, S3Transfer, Event, Option, List, on_reply, try_except, ℕ, Text,
  record_event, Reader, exchange, upload_part, path_of, complete_multipart_upload, answer,
  exchanged, client_error, failure,
}

-- The number and the tag of a part that the service has taken
unfoldable pub tag_of : Event → Option (ℕ × Text)
tag_of (exchange (upload_part body bucket path number id) (answer response)) =
    some (number, response.etag)
tag_of other = none

unfoldable pub with_tag : Option (ℕ × Text) → List (ℕ × Text) → List (ℕ × Text)
with_tag none tags = tags
with_tag (some tag) tags = tag ∷ tags

-- The tags that the service has given, the last one first
unfoldable pub tags : List Event → List (ℕ × Text)
tags [] = []
tags (event ∷ events) = with_tag (tag_of event) (tags events)

-- A chunk that could not be uploaded leaves the upload as it was.
unfoldable pub kept :
    {S : Type 0} → ConcurrentUpload → Outcome ConcurrentUpload × S → ConcurrentUpload × S
kept upload (ok after, s) = (after, s)
kept upload (err e, s) = (upload, s)
kept upload (diverge, s) = (upload, s)

module _ {C : Type 0} (serve : Request → C → Reply × C) (transfer : S3Transfer) where
  -- The calls `upload_concurrent_chunk`, for each number with its source in turn, whether they return or raise
  unfoldable pub upload_chunks :
      ConcurrentUpload → List (ℕ × Bool × Reader) → Session C → ConcurrentUpload × Session C
  upload_chunks upload [] s = (upload, s)
  upload_chunks upload ((number, with_progress, source) ∷ chunks) s =
      let (after, t) = kept upload (
        upload_concurrent_chunk serve transfer upload number with_progress
          (record s { source = source })) in
      upload_chunks after chunks t

  abbrev Tagged : ConcurrentUpload → ConcurrentUpload → Session C → Type 0
  Tagged upload after t =
      (after.key ≡ upload.key)
      × (after.backend_id ≡ upload.backend_id)
      × Distinct after.chunks_to_etags
      × ((k : ℕ) → etag_of k after.chunks_to_etags ≡ etag_of k (tags t.events))

  -- What follows a reply to a part
  abbrev ended :
      ConcurrentUpload → ℕ → Bool → ℕ → Request → Reply × C → Method (Session C) ConcurrentUpload
  ended upload number with_progress size request x =
      (λ s. on_reply (λ status. raise concurrent_upload_error) x.0 (exchanged request x s))
      >>= λ response. call_if with_progress size >>= λ _.
          pure (record upload {
            chunks_to_etags = set_etag number response.etag upload.chunks_to_etags;
          })

  ended-Tagged :
      (upload after : ConcurrentUpload) (number size : ℕ) (with_progress : Bool) (body : Bytes)
      (bucket path id : Text) (x : Reply × C) (s : Session C)
      → Tagged upload after s
      → let y =
          kept after
            (ended after number with_progress size (upload_part body bucket path number id) x s) in
        Tagged upload y.0 y.1
  unfolding kept on_reply call_if record_event tags tag_of with_tag etag_of
  ended-Tagged upload after number size true body bucket path id (answer r, c) s
        (key, id_same, d, e) =
      (
        key,
        id_same,
        set_etag-Distinct number r.etag after.chunks_to_etags d,
        λ k.
            etag_of-set_etag k number r.etag after.chunks_to_etags
            ∙ ap (λ o. if number == k then some r.etag else o) (e k),
      )
  ended-Tagged upload after number size false body bucket path id (answer r, c) s
        (key, id_same, d, e) =
      (
        key,
        id_same,
        set_etag-Distinct number r.etag after.chunks_to_etags d,
        λ k.
            etag_of-set_etag k number r.etag after.chunks_to_etags
            ∙ ap (λ o. if number == k then some r.etag else o) (e k),
      )
  ended-Tagged upload after number size p body bucket path id (client_error status, c) s tagged =
      tagged
  ended-Tagged upload after number size p body bucket path id (failure e, c) s tagged = tagged

  upload_chunks-Tagged :
      (upload after : ConcurrentUpload) (chunks : List (ℕ × Bool × Reader)) (s : Session C)
      → Tagged upload after s
      → let y = upload_chunks after chunks s in Tagged upload y.0 y.1
  unfolding upload_chunks upload_concurrent_chunk take_all_source try_except
  upload_chunks-Tagged upload after [] s tagged = tagged
  upload_chunks-Tagged upload after ((number, with_progress, source) ∷ chunks) s tagged =
      let request =
        upload_part source.rest transfer.bucket_name (path_of transfer after.key) number
          after.backend_id in
      let t : Session C = record s { source = whole [] } in
      let y = kept after (
        ended after number with_progress (length source.rest) request (serve request s.client) t) in
      upload_chunks-Tagged upload y.0 chunks y.1 (
        ended-Tagged upload after number (length source.rest) with_progress source.rest
          transfer.bucket_name (path_of transfer after.key) after.backend_id
          (serve request s.client) t tagged)

  -- What follows the reply to the completion
  abbrev finished : Request → Reply × C → Method (Session C) None
  finished request x =
      (λ s. on_reply (λ status. raise concurrent_upload_error) x.0 (exchanged request x s)) >>= λ _.
      pure tt

  finished-sends :
      (request : Request) (x : Reply × C) (s : Session C)
      → (finished request x s).1.events ≡ exchange request x.0 ∷ s.events
  unfolding on_reply
  finished-sends request (answer r, c) s = refl
  finished-sends request (client_error status, c) s = refl
  finished-sends request (failure e, c) s = refl

  -- Whatever chunks of a new upload are uploaded, in whatever order and however often each, with whatever
  -- sources, and whether the calls return or raise: the completion sends one request, for the path of the
  -- key and the number of the upload, whose parts have strictly growing numbers and, for each number, the
  -- tag that the service gave last; and no part whose upload the service has not answered.
  pub complete_concurrent_upload-sends :
      (upload : ConcurrentUpload) (chunks : List (ℕ × Bool × Reader)) (s : Session C)
      → upload.chunks_to_etags ≡ []
      → s.events ≡ []
      → let (after, t) = upload_chunks upload chunks s in
        (parts : List (ℕ × Text)) × (reply : Reply) × ((complete_concurrent_upload serve transfer
            after t).1.events
          ≡ exchange
              (complete_multipart_upload transfer.bucket_name
                (path_of transfer upload.key)
                parts
                upload.backend_id
                true)
              reply
            ∷ t.events)
        × Ascending 0 parts
        × ((k : ℕ) → etag_of k parts ≡ etag_of k (tags t.events))
  unfolding complete_concurrent_upload try_except etag_of tags
  complete_concurrent_upload-sends upload chunks s new fresh =
      let (key, id, distinct, same) = upload_chunks-Tagged upload upload chunks s (
        refl,
        refl,
        subst (λ c. Distinct c) (sym new) tt,
        λ k. ap (etag_of k) new ∙ sym (ap (λ es. etag_of k (tags es)) fresh),
      ) in
      let y = upload_chunks upload chunks s in
      let parts = sorted_parts y.0.chunks_to_etags in
      let request =
        complete_multipart_upload transfer.bucket_name (path_of transfer y.0.key) parts
          y.0.backend_id true in
      let x = serve request y.1.client in
      (
        parts,
        x.0,
        finished-sends request x y.1
            ∙ ap₂
                (λ k i.
                  exchange
                    (complete_multipart_upload transfer.bucket_name (path_of transfer k) parts i
                      true)
                    x.0
                  ∷ y.1.events)
                key id,
        sorted_parts-Ascending y.0.chunks_to_etags distinct,
        λ k. etag_of-sorted_parts k y.0.chunks_to_etags ∙ same k,
      )
