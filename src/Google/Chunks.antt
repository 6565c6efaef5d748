-- ===== src/Google/Chunks.antt =====
-- rohmu/object_storage/google.py: what one chunk of a download of a byte range comes to, retries included.
use rohmu.Google.Downloading.{
  HttpResponse, Download, received, chunk_range, total_of, progress_of, next_chunk,
  size_to_download, on_response, min_of, is_size, with_response, result_of,
}
use rohmu.Google.Retries.{
  Result, Failure, returned, failed, is_retried, retry_with, after_call, retry_on_reset,
}
use rohmu.Storage.Values.{Text}
use rohmu.Base.{
  ℕ, Bytes, take, ◌≤◌, Option, ◌≡◌, length, ◌<◌, ◌++◌, slice, min, Outcome, suc, ◌∷◌, drop, ◌+◌,
  ◌-◌, ap, arith, ok, if◌then◌else◌, some, ltb, zero, ◌∙◌, refl, [], sym, drop-drop, length-drop,
  length-take, ap₂, append_assoc, Bool, false, ◌||◌, pos, true, ◌==◌, le→leb, ℤ,
}

pub take_same : (k : ℕ) (xs : Bytes) → take k xs ≡ take (length (take k xs)) xs
take_same zero xs = refl
take_same (suc k) [] = refl
take_same (suc k) (x ∷ xs) = ap (λ t. x ∷ t) (take_same k xs)

take_more :
    (n k : ℕ) (xs : Bytes)
    → n ≤ length xs
    → take n xs ++ take k (drop n xs) ≡ take (n + length (take k (drop n xs))) xs
take_more zero k xs le =
    let e : 0 + length (take k xs) ≡ length (take k xs) = omega arith in rw e (take_same k xs)
take_more (suc n) k [] le = absurd (omega arith)
take_more (suc n) k (x ∷ xs) le =
    let e : suc n + length (take k (drop n xs)) ≡ suc (n + length (take k (drop n xs))) =
      omega arith in
    rw e (ap (λ t. x ∷ t) (take_more n k xs (omega arith)))

or_false : (b : Bool) → (b || false) ≡ b
or_false true = refl
or_false false = refl

module _ {H : Type 0} (http : Text → ℕ × ℕ → H → Result HttpResponse × H)
    (int : Text → Option ℕ) where
  -- What a server that holds these contents answers to a range, behind so many requests for it that fail in a
  -- way that is retried: what there is of it, and the total.
  abbrev pub Answers : Bytes → Text → ℕ → ℕ → ℕ → H → Type 0
  Answers contents uri first last zero h =
      (resp : HttpResponse) × (after : H) × (http uri (first, last) h ≡ (returned resp, after))
      × (resp.status ≡ 206)
      × (resp.content ≡ slice first (last + 1) contents)
      × (total_of int resp.content_range resp.content_length ≡ ok (some (length contents)))
  Answers contents uri first last (suc failures) h =
      (failure : Failure) × (after : H) × (http uri (first, last) h ≡ (failed failure, after))
      × (is_retried failure ≡ true)
      × Answers contents uri first last failures after

  -- A server that holds these contents: at most 60 requests for a range that begins within them fail, one after
  -- the other, before it is answered.
  abbrev pub ServesRanges : Bytes → Type 0
  ServesRanges contents =
      (uri : Text) (first last : ℕ) (h : H)
      → first ≤ last
      → first < length contents
      → (failures : ℕ) × (failures ≤ 60) × Answers contents uri first last failures h

  -- So many bytes of the range have come, fewer than there are.
  abbrev pub Midway : Bytes → Bytes → ℕ → Download → Type 0
  Midway contents before size d =
      (size ≡ min d.range_size (length contents - d.start_position))
      × (d.start_position < length contents)
      × (d.range_size ≡ d.end_position + 1 - d.start_position)
      × (0 < d.chunksize)
      × (d.num_bytes_downloaded < size)
      × (d.target ≡ before ++ take d.num_bytes_downloaded (drop d.start_position contents))
      × (d.done ≡ false)

  -- A chunk that has come
  pub step :
      (contents before : Bytes) (size : ℕ) (d : Download) (resp : HttpResponse)
      → Midway contents before size d
      → resp.content ≡ slice (chunk_range d).0 ((chunk_range d).1 + 1) contents
      → ((received resp d).target
          ≡ before ++ take (received resp d).num_bytes_downloaded (drop d.start_position contents))
        × (d.num_bytes_downloaded < (received resp d).num_bytes_downloaded)
        × ((received resp d).num_bytes_downloaded ≤ size)
  unfolding received chunk_range
  step contents before size d resp (total, within, range, chunked, more, target, fresh) content =
      let n = d.num_bytes_downloaded in
      let xs = drop d.start_position contents in
      let first = n + d.start_position in
      let last =
        if ltb d.end_position (first + d.chunksize - 1)
        then d.end_position
        else first + d.chunksize - 1 in
      let k = last + 1 - first in
      let at : d.start_position + n ≡ first = omega arith in
      let piece : resp.content ≡ take k (drop n xs) =
        content
        ∙ ap (take k)
            (sym (drop-drop n d.start_position contents ∙ ap (λ m. drop m contents) at)) in
      let long = length-drop d.start_position contents in
      let some_of : 0 < k = ground arith in
      let most : k ≤ d.range_size - n = ground arith in
      let got = length-take k (drop n xs) in
      let left = length-drop n xs in
      let count = ap length piece in
      (
        ap₂ (λ a b. a ++ b) target piece
            ∙ append_assoc before (take n xs) (take k (drop n xs))
            ∙ ap (λ t. before ++ t) (take_more n k xs (omega (arith, long, more, total)))
            ∙ ap (λ m. before ++ take (n + m) xs) (sym count),
        omega (arith, count, got, left, long, some_of, more, total, within),
        omega (arith, count, got, left, long, most, more, total, within),
      )

  progress_of_lem :
      (total size : ℕ) (d : Download)
      → size ≡ min d.range_size (total - d.start_position)
      → d.start_position < total
      → d.done ≡ false
      → progress_of (ok (some total)) d ≡ (
        ok (d.num_bytes_downloaded, pos size, d.num_bytes_downloaded == size),
        record d { done = d.num_bytes_downloaded == size },
      )
  unfolding progress_of size_to_download min_of is_size
  progress_of_lem total size d e le fresh =
      rw
        (
          le→leb d.start_position total (omega arith),
          fresh,
          ← e,
          or_false (d.num_bytes_downloaded == size),
        )
        refl

  -- The download behind a chunk
  abbrev pub behind : ℕ → Download → HttpResponse → Download
  behind size d resp = record (received resp d) {
    done = (received resp d).num_bytes_downloaded == size;
  }

  -- What the server's answer comes to
  next_chunk_lem :
      (contents before : Bytes) (size : ℕ) (h after : H) (d : Download) (resp : HttpResponse)
      → Midway contents before size d
      → http d.uri (chunk_range d) h ≡ (returned resp, after)
      → resp.status ≡ 206
      → total_of int resp.content_range resp.content_length ≡ ok (some (length contents))
      → next_chunk http int (d, h) ≡ (
        returned (
          (received resp d).num_bytes_downloaded,
          pos size,
          (received resp d).num_bytes_downloaded == size,
        ),
        (behind size d resp, after),
      )
  unfolding next_chunk with_response result_of on_response received
  next_chunk_lem contents before size h after d resp (total, within, _, _, _, _, fresh) served
        status tot =
      rw (served, status, tot)
        (ap
          (λ (x : Outcome (ℕ × ℤ × Bool) × Download).
            (result_of (record resp { status = 206 }) x.0, (x.1, after)))
          (progress_of_lem (length contents) size (received resp d) total within fresh))

  -- The retries outlast the failures.
  retried :
      (contents before : Bytes) (size failures retries first last : ℕ) (h : H) (d : Download)
      → Midway contents before size d
      → chunk_range d ≡ (first, last)
      → failures ≤ retries
      → Answers contents d.uri first last failures h
      → (resp : HttpResponse) × (after : H) × (retry_with (next_chunk http int) retries (d, h) ≡ (
        returned (
          (received resp d).num_bytes_downloaded,
          pos size,
          (received resp d).num_bytes_downloaded == size,
        ),
        (behind size d resp, after),
      ))
        × (resp.content ≡ slice first (last + 1) contents)
  unfolding retry_with after_call next_chunk with_response
  retried contents before size zero zero first last h d midway range le
        (resp, after, served, status, content, tot) =
      (
        resp,
        after,
        next_chunk_lem contents before size h after d resp midway
            (ap (λ r. http d.uri r h) range ∙ served) status tot,
        content,
      )
  retried contents before size zero (suc retries) first last h d midway range le
        (resp, after, served, status, content, tot) =
      (
        resp,
        after,
        ap (after_call (next_chunk http int) (retry_with (next_chunk http int) retries)) (
            next_chunk_lem contents before size h after d resp midway
              (ap (λ r. http d.uri r h) range ∙ served) status tot),
        content,
      )
  retried contents before size (suc failures) zero first last h d midway range le answers =
      absurd (omega arith)
  retried contents before size (suc failures) (suc retries) first last h d midway range le
        (failure, after, fails, again, answers) =
      let (resp, last_state, e, content) =
        retried contents before size failures retries first last after d midway range (omega arith)
          answers in
      (
        resp,
        last_state,
        ap
              (λ x.
                after_call (next_chunk http int) (retry_with (next_chunk http int) retries)
                  (with_response http int d x))
              (ap (λ r. http d.uri r h) range ∙ fails)
            ∙ ap
                (λ (b : Bool).
                  if b
                  then retry_with (next_chunk http int) retries (d, after)
                  else (failed failure, (d, after)))
                again
            ∙ e,
        content,
      )

  pub answered :
      (contents before : Bytes) (size failures first last : ℕ) (h : H) (d : Download)
      → Midway contents before size d
      → chunk_range d ≡ (first, last)
      → failures ≤ 60
      → Answers contents d.uri first last failures h
      → (resp : HttpResponse) × (after : H) × (retry_on_reset (next_chunk http int) (d, h) ≡ (
        returned (
          (received resp d).num_bytes_downloaded,
          pos size,
          (received resp d).num_bytes_downloaded == size,
        ),
        (behind size d resp, after),
      ))
        × (resp.content ≡ slice first (last + 1) contents)
  unfolding retry_on_reset
  answered contents before size failures first last h d =
      retried contents before size failures 60 first last h d
