-- ===== src/S3/Parts.antt =====
-- rohmu/object_storage/s3.py: the loop of `multipart_upload_file_object` over the parts, and the whole.
use rohmu.S3.Chunks.{some_unless_empty, read_bytes_lem}
use rohmu.S3.Multipart.{with_chunk, upload_parts, take_source, read_bytes, report, upload_attempts}
use rohmu.S3.Delivery.{
  View, Part, accepted, completed, chunk_of, number_of, tag_of, count_from, Quiet, view,
  AttemptEnds, QuietEnd, report-QuietEnd, upload_attempts-AttemptEnds,
}
use rohmu.S3.{Session, Request, Reply, S3Transfer, Response, Text}
use rohmu.Util.Batches.{rejoin}
use rohmu.Util.{batches}
use rohmu.Base.{
  ℕ, List, Bytes, take, ◌≡◌, Outcome, is_empty, false, drop, ◌+◌, ok, ◌++◌, ◌∷◌, suc, [], ap,
  length, map, ◌∙◌, ap₂, append_assoc, sym, arith, length-append, err, diverge, ◌<◌, refl,
  length-take, length-drop, Option, Method, None, append-nil, resume_rule, zero, ◌>>=◌, subst,
}

batches-part :
    (m rounds : ℕ) (bytes chunk : Bytes) (chunks : List Bytes)
    → take m bytes ≡ chunk
    → is_empty chunk ≡ false
    → chunks ≡ batches rounds m (drop m bytes)
    → chunk ∷ chunks ≡ batches (suc rounds) m bytes
unfolding batches
batches-part m rounds bytes chunk chunks e full h =
    rw (ap is_empty e ∙ full) (ap₂ (λ a b. a ∷ b) (sym e) h)

batches-end : (m rounds : ℕ) (bytes : Bytes) → take m bytes ≡ [] → [] ≡ batches (suc rounds) m bytes
unfolding batches
batches-end m rounds bytes e = rw e refl

fewer_left :
    (m rounds : ℕ) (bytes : Bytes) {x : ℕ} {xs : Bytes}
    → take m bytes ≡ x ∷ xs
    → length bytes < suc rounds
    → length (drop m bytes) < rounds
fewer_left m rounds bytes {x} {xs} e le =
    let some_taken : length (take m bytes) ≡ suc (length xs) = ap length e in
    omega (arith, length-take m bytes, length-drop m bytes)

module _ {C : Type 0} where
  -- How the loop ends: with the source cut into parts that the service has accepted, one after the other,
  -- or with an exception before anything is completed.
  abbrev pub LoopEnds :
      ℕ → ℕ → ℕ → List (ℕ × Text) → ℕ → View → Outcome (List (ℕ × Text) × ℕ) × Session C → Type 0
  LoopEnds m rounds number parts bytes_sent v (ok (tags, bytes), t) =
      (new : List Part) × (accepted t.events ≡ v.0 ++ new)
      × (completed t.events ≡ v.1)
      × (map chunk_of new ≡ batches rounds m v.2)
      × (map number_of new ≡ count_from number new)
      × (tags ≡ parts ++ map tag_of new)
      × (bytes ≡ bytes_sent + length (rejoin (map chunk_of new)))
  LoopEnds m rounds number parts bytes_sent v (err e, t) = completed t.events ≡ v.1
  LoopEnds m rounds number parts bytes_sent v (diverge, t) = ⊥

  -- One part, and what comes behind it.
  LoopEnds-part :
      (m rounds number bytes_sent : ℕ) (parts : List (ℕ × Text)) (v : View) (etag : Text)
      (chunk : Bytes)
      → take m v.2 ≡ chunk
      → is_empty chunk ≡ false
      → (x : Outcome (List (ℕ × Text) × ℕ) × Session C)
      → LoopEnds m rounds
          (number + 1)
          (parts ++ (number, etag) ∷ [])
          (bytes_sent + length chunk)
          (v.0 ++ (number, etag, chunk) ∷ [], v.1, drop m v.2)
          x
      → LoopEnds m (suc rounds) number parts bytes_sent v x
  unfolding rejoin
  LoopEnds-part m rounds number bytes_sent parts v etag chunk e full (ok (tags, bytes), t)
        (new, acc, done, chunks, numbers, tagged, sent) =
      (
        (number, etag, chunk) ∷ new,
        acc ∙ append_assoc v.0 ((number, etag, chunk) ∷ []) new,
        done,
        batches-part m rounds v.2 chunk (map chunk_of new) e full chunks,
        ap (λ ns. number ∷ ns) numbers,
        tagged ∙ append_assoc parts ((number, etag) ∷ []) (map tag_of new),
        omega (arith, sent, length-append chunk (rejoin (map chunk_of new))),
      )
  LoopEnds-part m rounds number bytes_sent parts v etag chunk e full (err error, t) h = h
  LoopEnds-part m rounds number bytes_sent parts v etag chunk e full (diverge, t) h = h

  module _ (serve : Request → C → Reply × C) (transfer : S3Transfer)
      (progress_fn : Option (ℕ → Method (Session C) None)) (quiet : Quiet progress_fn)
      (path mp_id : Text) where
    -- The loop with so many rounds left, where they are enough for what the source has left.
    abbrev pub Uploads : ℕ → Type 0
    Uploads rounds =
        (number bytes_sent : ℕ) (parts : List (ℕ × Text)) (s : Session C)
        → length s.source.rest < rounds
        → LoopEnds transfer.multipart_chunk_size rounds number parts bytes_sent (view s)
            (upload_parts serve transfer rounds progress_fn path mp_id number parts bytes_sent s)

    with_chunk-LoopEnds :
        (rounds number bytes_sent : ℕ) (parts : List (ℕ × Text)) (bytes chunk : Bytes)
        (s : Session C)
        → Uploads rounds
        → s.source.rest ≡ drop transfer.multipart_chunk_size bytes
        → take transfer.multipart_chunk_size bytes ≡ chunk
        → length bytes < suc rounds
        → LoopEnds transfer.multipart_chunk_size
            (suc rounds)
            number
            parts
            bytes_sent
            (accepted s.events, completed s.events, bytes)
            (with_chunk serve transfer
              (upload_parts serve transfer rounds progress_fn path mp_id)
              progress_fn
              path
              mp_id
              number
              parts
              bytes_sent
              (some_unless_empty chunk)
              s)
    unfolding with_chunk some_unless_empty rejoin
    with_chunk-LoopEnds rounds number bytes_sent parts bytes [] s uploads left e le = (
      [],
      sym (append-nil (accepted s.events)),
      refl,
      batches-end transfer.multipart_chunk_size rounds bytes e,
      refl,
      sym (append-nil parts),
      omega arith,
    )
    with_chunk-LoopEnds rounds number bytes_sent parts bytes (x ∷ xs) s uploads left e le =
        let m = transfer.multipart_chunk_size in
        let v : View = (accepted s.events, completed s.events, bytes) in
        let n = bytes_sent + length (x ∷ xs) in
        let Q : Outcome (List (ℕ × Text) × ℕ) × Session C → Type 0 =
          LoopEnds m (suc rounds) number parts bytes_sent v in
        let next = λ (response : Response) (_ : None).
          upload_parts serve transfer rounds progress_fn path mp_id (number + 1)
            (parts ++ (number, response.etag) ∷ []) n in
        resume_rule (AttemptEnds (view s) number (x ∷ xs)) Q
          (λ response. report progress_fn n >>= next response)
          (λ response t seen.
            resume_rule (QuietEnd (view t)) Q (next response)
              (λ a u same.
                LoopEnds-part m rounds number bytes_sent parts v response.etag (x ∷ xs) e refl
                  (next response a u)
                  (subst
                    (λ w.
                      LoopEnds m rounds (number + 1) (parts ++ (number, response.etag) ∷ []) n w
                        (next response a u))
                    (same
                      ∙ seen
                      ∙ ap (λ d. (v.0 ++ (number, response.etag, x ∷ xs) ∷ [], v.1, d)) left)
                    (uploads (number + 1) n (parts ++ (number, response.etag) ∷ []) u (
                      subst (λ d. length d < rounds)
                        (sym (ap (λ (w : View). w.2) (same ∙ seen) ∙ left))
                        (fewer_left m rounds bytes e le)))))
              (λ error u same. same ∙ ap (λ (w : View). w.1) seen) (λ u spins. spins)
              (report progress_fn n t) (report-QuietEnd progress_fn n quiet t))
          (λ error t same. same) (λ t spins. spins)
          (upload_attempts serve transfer 9 (x ∷ xs) path number mp_id s)
          (upload_attempts-AttemptEnds serve transfer 9 number (x ∷ xs) path mp_id s)

    pub upload_parts-Uploads : (rounds : ℕ) → Uploads rounds
    unfolding upload_parts take_source
    upload_parts-Uploads zero number bytes_sent parts s le = absurd (omega arith)
    upload_parts-Uploads (suc rounds) number bytes_sent parts s le =
        let m = transfer.multipart_chunk_size in
        let (gives, leaves) = read_bytes_lem s.source m in
        rw gives (
          with_chunk-LoopEnds rounds number bytes_sent parts s.source.rest (take m s.source.rest)
            (take_source (read_bytes s.source m).1 s) (upload_parts-Uploads rounds) leaves refl le)
