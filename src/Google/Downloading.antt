-- ===== src/Google/Downloading.antt =====
-- rohmu/object_storage/google.py: `MediaIoBaseDownloadWithByteRange`, and the loop that drives it. The
-- transport is a parameter, as are the request's headers, which only go to it; a request gets a response or
-- raises.
use rohmu.Google.Retries.{
  Failure, Result, http_failure, other_failure, os_failure, returned, failed, retry_on_reset,
}
use rohmu.Util.{get_total_size_from_content_range}
use rohmu.Storage.Values.{Text}
use rohmu.Base.{
  ℕ, Bytes, Option, Outcome, Bool, if◌then◌else◌, ◌+◌, ℤ, Method, ok, err, None, ltb, ◌-◌, pos,
  key_error, ◌==◌, diverge, some, true, invalid_byte_range, min, sub_ℕ, ◌||◌, negsuc, suc, false,
  http_error, none, zero, length, ◌++◌, Error, transport_error, os_error,
}

-- What the code reads of a response, headers under their names where they are there
pub record HttpResponse : Type 0 where
  pub status : ℕ
  pub content_location : Option Text
  pub content_range : Option Text
  pub content_length : Option ℕ
  pub content : Bytes

pub record Download : Type 0 where
  pub target : Bytes
  pub uri : Text
  pub chunksize : ℕ
  pub start_position : ℕ
  pub end_position : ℕ
  pub num_bytes_downloaded : ℕ
  pub range_size : ℕ
  pub done : Bool

-- `__init__`
unfoldable pub new_download : Bytes → Text → ℕ → ℕ × ℕ → Outcome Download
new_download target uri chunksize (start, end) =
    if ltb (end + 1) start
    then err invalid_byte_range
    else ok (record {
      target = target;
      uri = uri;
      chunksize = chunksize;
      start_position = start;
      end_position = end;
      num_bytes_downloaded = 0;
      range_size = end + 1 - start;
      done = false;
    })

-- The range that is asked for next; the last byte of a chunk of no bytes would be in front of its first.
unfoldable pub chunk_range : Download → ℕ × ℕ
chunk_range d =
    let first = d.num_bytes_downloaded + d.start_position in
    let last = first + d.chunksize - 1 in
    (first, if ltb d.end_position last then d.end_position else last)

-- `size_to_download`, which may be negative
unfoldable pub min_of : ℕ → ℤ → ℤ
min_of n (pos m) = pos (min n m)
min_of n (negsuc m) = negsuc m

unfoldable pub size_to_download : Download → Option ℕ → ℤ
size_to_download d none = pos d.range_size
size_to_download d (some total) = min_of d.range_size (sub_ℕ total d.start_position)

unfoldable pub is_size : ℕ → ℤ → Bool
is_size n (pos m) = n == m
is_size n (negsuc m) = false

-- The download behind a chunk that has come, and the progress: how much there is, and of how much.
unfoldable pub received : HttpResponse → Download → Download
received resp d = record d {
  uri = elim resp.content_location [ none ↦ d.uri | some location ↦ location ];
  num_bytes_downloaded = d.num_bytes_downloaded + length resp.content;
  target = d.target ++ resp.content;
}

unfoldable pub progress_of : Outcome (Option ℕ) → Method Download (ℕ × ℤ × Bool)
progress_of (err e) d = (err e, d)
progress_of diverge d = (diverge, d)
progress_of (ok total) d =
    let size = size_to_download d total in
    let done = is_size d.num_bytes_downloaded size || d.done in
    (ok (d.num_bytes_downloaded, size, done), record d { done = done })

-- The total that a response announces; `int` is the parsing of a numeral.
unfoldable pub total_of : (Text → Option ℕ) → Option Text → Option ℕ → Outcome (Option ℕ)
total_of int none content_length = ok content_length
total_of int (some content_range) content_length =
    get_total_size_from_content_range int content_range

-- A response to a range that cannot be satisfied: the end, if the object is empty.
unfoldable pub unsatisfied : Outcome (Option ℕ) → Method Download (ℕ × ℤ × Bool)
unsatisfied (err e) d = (err e, d)
unsatisfied diverge d = (diverge, d)
unsatisfied (ok none) d = (err http_error, d)
unsatisfied (ok (some zero)) d =
    (ok (d.num_bytes_downloaded, pos 0, true), record d { done = true })
unsatisfied (ok (some (suc n))) d = (err http_error, d)

-- `resp["content-range"]`
unfoldable pub total_required : (Text → Option ℕ) → Option Text → Outcome (Option ℕ)
total_required int none = err key_error
total_required int (some content_range) = get_total_size_from_content_range int content_range

unfoldable pub on_response : (Text → Option ℕ) → HttpResponse → Method Download (ℕ × ℤ × Bool)
on_response int resp d =
    if resp.status == 200 || resp.status == 206
    then progress_of (total_of int resp.content_range resp.content_length) (received resp d)
    else if resp.status == 416
    then unsatisfied (total_required int resp.content_range) d
    else (err http_error, d)

-- The exception of a response, for `_retry_on_reset`: an HttpError carries its status.
unfoldable pub failure_of : HttpResponse → Error → Failure
failure_of resp http_error = http_failure resp.status
failure_of resp e = other_failure e

-- What is made of a response has no loop, so that `diverge` is never met.
unfoldable pub result_of : {A : Type 0} → HttpResponse → Outcome A → Result A
result_of resp (ok a) = returned a
result_of resp (err e) = failed (failure_of resp e)
result_of resp diverge = failed (other_failure transport_error)

-- What an exception is, once it is not told apart any more
unfoldable pub error_of : Failure → Error
error_of (http_failure status) = http_error
error_of (other_failure e) = e
error_of (os_failure errno) = os_error
error_of failure = transport_error

module _ {H : Type 0} (http : Text → ℕ × ℕ → H → Result HttpResponse × H)
    (int : Text → Option ℕ) where
  unfoldable pub with_response :
      Download → Result HttpResponse × H → Result (ℕ × ℤ × Bool) × (Download × H)
  with_response d (failed failure, h) = (failed failure, (d, h))
  with_response d (returned resp, h) =
      let (outcome, after) = on_response int resp d in (result_of resp outcome, (after, h))

  unfoldable pub next_chunk : Download × H → Result (ℕ × ℤ × Bool) × (Download × H)
  next_chunk (d, h) = with_response d (http d.uri (chunk_range d) h)

  -- `while not done`, of `get_contents_to_fileobj`, behind a call of `_retry_on_reset`
  unfoldable pub until_done :
      (Download × H → Outcome None × (Download × H))
      → Result (ℕ × ℤ × Bool) × (Download × H)
      → Outcome None × (Download × H)
  until_done again (returned (downloaded, size, true), c) = (ok tt, c)
  until_done again (returned (downloaded, size, false), c) = again c
  until_done again (failed failure, c) = (err (error_of failure), c)

  unfoldable pub download_rounds : ℕ → Download × H → Outcome None × (Download × H)
  download_rounds zero c = (diverge, c)
  download_rounds (suc rounds) c = until_done (download_rounds rounds) (retry_on_reset next_chunk c)
