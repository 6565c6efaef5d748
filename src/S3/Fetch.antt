-- ===== src/S3/Fetch.antt =====
-- rohmu/object_storage/s3.py: fetching the contents of an object.
use rohmu.Storage.{validate_byte_range}
use rohmu.S3.Objects.{
  call_back, read_rounds, write_target, read_block_size, read_object_to_fileobj,
  get_contents_to_fileobj, lift, get_object_stream,
}
use rohmu.Base.{
  Bytes, ℕ, Outcome, ◌<◌, length, ◌≡◌, Bool, ok, ◌+◌, true, ◌≤◌, false, ◌++◌, refl, ge→ltb, arith,
  length-zero, ap, sym, append-nil, suc, Bool-cases, ltb, inr, inl, min, ◌-◌, ◌∷◌, length-append,
  ◌∙◌, ap₂, append_assoc, zero, Option,
}
use rohmu.S3.{
  Request, Reply, Bytes, S3Transfer, Session, record_event, try_except, on_reply, Response,
  read_body, answer, exchange, get_object, path_of, Text,
}

module _ {C : Type 0} (serve : Request → C → Reply × C) where
  -- A body that a state of the service still holds: a read for n > 0 bytes gives some of them, at most n,
  -- from the front, as long as there are any.
  abbrev pub Streams : (C → Bytes) → Type 0
  Streams held =
      (n : ℕ) (c : C)
      → 0 < n
      → 0 < length (held c)
      → (response : Response) × (d : C) × (serve (read_body n) c ≡ (answer response, d))
        × (0 < length response.body)
        × (length response.body ≤ n)
        × (response.body ++ held d ≡ held c)

  module _ (transfer : S3Transfer) (held : C → Bytes) (streams : Streams held) where
    -- A call that returned this value, and left the target so
    abbrev Fetched : {A : Type 0} → A → Bytes → Outcome A × Session C → Type 0
    Fetched a bytes x = (x.0 ≡ ok a) × (x.1.target ≡ bytes)

    call_back_lem :
        (cb : Bool) (data_read body_length : ℕ) (s : Session C)
        → ((call_back cb data_read body_length s).0 ≡ ok tt)
          × ((call_back cb data_read body_length s).1.target ≡ s.target)
          × ((call_back cb data_read body_length s).1.client ≡ s.client)
    unfolding call_back record_event
    call_back_lem true data_read body_length s = (refl, refl, refl)
    call_back_lem false data_read body_length s = (refl, refl, refl)

    read_rounds-Fetched :
        (rounds : ℕ) (cb : Bool) (body_length data_read : ℕ) (s : Session C)
        → length (held s.client) + data_read ≡ body_length
        → length (held s.client) ≤ rounds
        → Fetched body_length
            (s.target ++ held s.client)
            (read_rounds serve transfer rounds cb body_length data_read s)
    unfolding read_rounds try_except on_reply write_target
    read_rounds-Fetched zero cb body_length data_read s e le =
        rw (ge→ltb data_read body_length (omega arith), length-zero (held s.client) (omega arith))
          (ap (λ n. ok n) (omega arith), sym (append-nil s.target))
    read_rounds-Fetched (suc rounds) cb body_length data_read s e le =
        elim (Bool-cases (ltb data_read body_length)) [
          | inr stop ↦
              rw (stop, length-zero (held s.client) (ground arith))
                (ap (λ n. ok n) (ground arith), sym (append-nil s.target))
          | inl more ↦
              let n = min (body_length - data_read) read_block_size in
              let (response, d, served, some_read, within, parts) =
                streams n s.client (ground arith) (ground arith) in
              let k = data_read + length response.body in
              let t : Session C = record s {
                client = d;
                target = s.target ++ response.body;
                events = exchange (read_body n) (answer response) ∷ s.events;
              } in
              let (returns, target, client) = call_back_lem cb k body_length t in
              let u = (call_back cb k body_length t).1 in
              let size : length response.body + length (held d) ≡ length (held s.client) =
                sym (length-append response.body (held d)) ∙ ap length parts in
              let (value, bytes) =
                read_rounds-Fetched rounds cb body_length k u (rw client (omega (arith, size, e)))
                  (rw client (omega (arith, size, le, some_read))) in
              rw (more, served, returns)
                (
                  value,
                  bytes
                      ∙ ap₂ (λ a b. a ++ held b) target client
                      ∙ append_assoc s.target response.body (held d)
                      ∙ ap (λ b. s.target ++ b) parts,
                )
        ]

    read_object_to_fileobj-Fetched :
        (body_length : ℕ) (cb : Bool) (s : Session C)
        → length (held s.client) ≡ body_length
        → Fetched tt
            (s.target ++ held s.client)
            (read_object_to_fileobj serve transfer body_length cb s)
    unfolding read_object_to_fileobj
    read_object_to_fileobj-Fetched body_length cb s e =
        let (value, bytes) =
          read_rounds-Fetched body_length cb body_length 0 s (omega (arith, e))
            (omega (arith, e)) in
        let u = (read_rounds serve transfer body_length cb body_length 0 s).1 in
        let (returns, target, client) = call_back_lem cb body_length body_length u in
        rw value (returns, target ∙ bytes)

    -- When the service answers the request for an object, and hands out a body of the length that it has
    -- announced, in pieces of whatever sizes, the call returns the object's metadata, and exactly the
    -- body has been written behind what the file held.
    pub get_contents_to_fileobj-Fetched :
        (key : Text) (byte_range : Option (ℕ × ℕ)) (cb : Bool) (s : Session C) (response : Response)
        (d : C)
        → validate_byte_range byte_range ≡ ok tt
        → serve (get_object transfer.bucket_name (path_of transfer key) byte_range) s.client
          ≡ (answer response, d)
        → length (held d) ≡ response.content_length
        → ((get_contents_to_fileobj serve transfer key byte_range cb s).0
            ≡ ok response.metadata_field)
          × ((get_contents_to_fileobj serve transfer key byte_range cb s).1.target
              ≡ s.target ++ held d)
    unfolding get_contents_to_fileobj lift get_object_stream try_except on_reply
    get_contents_to_fileobj-Fetched key byte_range cb s response d valid served size =
        let request = get_object transfer.bucket_name (path_of transfer key) byte_range in
        let (returns, target) =
          read_object_to_fileobj-Fetched response.content_length cb
            (record s { client = d; events = exchange request (answer response) ∷ s.events })
            size in
        rw (valid, served, returns) (refl, target)
