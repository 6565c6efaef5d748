-- ===== src/S3/Delivery.antt =====
-- rohmu/object_storage/s3.py: what `multipart_upload_file_object` leaves at the service.
use rohmu.Storage.{to_incremental}
use rohmu.S3.Multipart.{report, adapted_progress, call_given, abort_and_raise, upload_attempts}
use rohmu.S3.{
  Request, Session, Reply, Event, Response, S3Transfer, upload_part, exchange,
  complete_multipart_upload, answer, try_except, on_reply, uncaught, exchanged,
  abort_multipart_upload, client_error, failure, record_event, Text,
}
use rohmu.Base.{
  ℕ, Bytes, List, Outcome, Option, ◌∷◌, None, Method, ◌+◌, some, ok, ◌++◌, ◌≡◌, [], none, err,
  storage_error, false, append-nil, refl, ap, diverge, subst, suc, ap₂, zero,
}

-- A part: its number, the tag that the service gave it, and its bytes.
abbrev pub Part : Type 0
Part = ℕ × Text × Bytes

abbrev pub tag_of : Part → ℕ × Text
tag_of (number, etag, chunk) = (number, etag)

abbrev pub number_of : Part → ℕ
number_of (number, etag, chunk) = number

abbrev pub chunk_of : Part → Bytes
chunk_of (number, etag, chunk) = chunk

-- The parts that the service has accepted, in the order of the calls
unfoldable pub accepted_part : Request → Reply → List Part
accepted_part (upload_part chunk bucket path number mp_id) (answer response) =
    (number, response.etag, chunk) ∷ []
accepted_part request reply = []

unfoldable pub accepted : List Event → List Part
accepted [] = []
accepted (exchange request reply ∷ events) = accepted events ++ accepted_part request reply
accepted (event ∷ events) = accepted events

-- The lists of parts of the completions that the service has accepted
unfoldable pub accepted_completion : Request → Reply → List (List (ℕ × Text))
accepted_completion (complete_multipart_upload bucket path parts mp_id payer) (answer response) =
    parts ∷ []
accepted_completion request reply = []

unfoldable pub completed : List Event → List (List (ℕ × Text))
completed [] = []
completed (exchange request reply ∷ events) = completed events ++ accepted_completion request reply
completed (event ∷ events) = completed events

abbrev pub count_from {ℓ} : {A : Type ℓ} → ℕ → List A → List ℕ
count_from n [] = []
count_from n (x ∷ xs) = n ∷ count_from (n + 1) xs

-- What is seen of a session: the parts accepted, the completions, and what the source has left
abbrev pub View : Type 0
View = List Part × List (List (ℕ × Text)) × Bytes

module _ {C : Type 0} where
  abbrev pub view : Session C → View
  view s = (accepted s.events, completed s.events, s.source.rest)

  abbrev pub QuietEnd : View → Outcome None × Session C → Type 0
  QuietEnd v (ok a, t) = view t ≡ v
  QuietEnd v (err e, t) = completed t.events ≡ v.1
  QuietEnd v (diverge, t) = ⊥

  -- A progress callback that uploads nothing itself, and reads nothing from the source.
  abbrev pub Quiet : Option (ℕ → Method (Session C) None) → Type 0
  Quiet none = Unit
  Quiet (some progress_fn) = (n : ℕ) (s : Session C) → QuietEnd (view s) (progress_fn n s)

  pub report-QuietEnd :
      (progress_fn : Option (ℕ → Method (Session C) None)) (n : ℕ)
      → Quiet progress_fn
      → (s : Session C) → QuietEnd (view s) (report progress_fn n s)
  unfolding report
  report-QuietEnd none n quiet s = refl
  report-QuietEnd (some progress_fn) n quiet s = quiet n s

  called-QuietEnd : (given : Option ℕ) (s : Session C) → QuietEnd (view s) (call_given given s)
  unfolding call_given record_event accepted completed
  called-QuietEnd none s = refl
  called-QuietEnd (some k) s = refl

  pub adapted_progress-Quiet : Quiet (some (adapted_progress {C = C}))
  unfolding adapted_progress
  adapted_progress-Quiet n s =
      called-QuietEnd (to_incremental n s.last_progress).0
        (record s { last_progress = (to_incremental n s.last_progress).1 })

  -- The end of the attempts at one part
  abbrev pub AttemptEnds : View → ℕ → Bytes → Outcome Response × Session C → Type 0
  AttemptEnds v number chunk (ok response, t) =
      view t ≡ (v.0 ++ (number, response.etag, chunk) ∷ [], v.1, v.2)
  AttemptEnds v number chunk (err e, t) = completed t.events ≡ v.1
  AttemptEnds v number chunk (diverge, t) = ⊥

  module _ (serve : Request → C → Reply × C) (transfer : S3Transfer) where
    pub abort_and_raise-completed :
        (path mp_id : Text) (s : Session C)
        → ((abort_and_raise serve transfer path mp_id s).0 ≡ err storage_error)
          × (completed (abort_and_raise serve transfer path mp_id s).1.events ≡ completed s.events)
    unfolding abort_and_raise completed accepted_completion try_except on_reply
    abort_and_raise-completed path mp_id s = (
      refl,
      aborted (serve (abort_multipart_upload transfer.bucket_name path mp_id false) s.client),
    )
      where
        aborted :
            (x : Reply × C)
            → completed
                (on_reply uncaught x.0 (
                  exchanged
                    (abort_multipart_upload transfer.bucket_name path mp_id false)
                    x
                    s)).1.events
              ≡ completed s.events
        aborted (answer response, c) = append-nil (completed s.events)
        aborted (client_error status, c) = append-nil (completed s.events)
        aborted (failure e, c) = append-nil (completed s.events)

    aborted_AttemptEnds :
        (number : ℕ) (chunk path mp_id : Bytes) (s : Session C)
        → AttemptEnds (view s) number chunk (abort_and_raise serve transfer path mp_id s)
    unfolding abort_and_raise
    aborted_AttemptEnds number chunk path mp_id s = (abort_and_raise-completed path mp_id s).1

    attempt_replied :
        (handler : Option ℕ → Method (Session C) Response) (number : ℕ) (chunk path mp_id : Bytes)
        → ((status : Option ℕ) (s : Session C)
            → AttemptEnds (view s) number chunk (handler status s))
        → (s : Session C) (x : Reply × C)
        → AttemptEnds (view s) number chunk (
            on_reply handler x.0
              (exchanged (upload_part chunk transfer.bucket_name path number mp_id) x s))
    unfolding on_reply accepted accepted_part completed accepted_completion
    attempt_replied handler number chunk path mp_id handled s (answer response, c) =
        ap (λ t. (accepted s.events ++ (number, response.etag, chunk) ∷ [], t, s.source.rest))
          (append-nil (completed s.events))
    attempt_replied handler number chunk path mp_id handled s (failure e, c) =
        append-nil (completed s.events)
    attempt_replied handler number chunk path mp_id handled s (client_error status, c) =
        let after =
          exchanged (upload_part chunk transfer.bucket_name path number mp_id)
            (client_error status, c) s in
        subst (λ (v : View). AttemptEnds v number chunk (handler status after))
          (ap₂ (λ a b. (a, b, s.source.rest)) (append-nil (accepted s.events))
            (append-nil (completed s.events)))
          (handled status after)

    pub upload_attempts-AttemptEnds :
        (attempts number : ℕ) (chunk path mp_id : Bytes) (s : Session C)
        → AttemptEnds
            (view s)
            number
            chunk
            (upload_attempts serve transfer attempts chunk path number mp_id s)
    unfolding upload_attempts try_except
    upload_attempts-AttemptEnds zero number chunk path mp_id s =
        attempt_replied (λ status. abort_and_raise serve transfer path mp_id) number chunk path
          mp_id (λ status t. aborted_AttemptEnds number chunk path mp_id t) s
          (serve (upload_part chunk transfer.bucket_name path number mp_id) s.client)
    upload_attempts-AttemptEnds (suc attempts) number chunk path mp_id s =
        attempt_replied (λ status. upload_attempts serve transfer attempts chunk path number mp_id)
          number chunk path mp_id
          (λ status t. upload_attempts-AttemptEnds attempts number chunk path mp_id t) s
          (serve (upload_part chunk transfer.bucket_name path number mp_id) s.client)
