-- ===== src/Examples/Clouds.antt =====
-- Uploads to, retries at and downloads from small services.
use rohmu.Google.Ranges.{download_lem}
use rohmu.Google.Chunks.{ServesRanges}
use rohmu.Google.Positions.{Holds, getbytes_lem}
use rohmu.Google.Attempts.{AllRetried, behind, Retried, retry_on_reset-AllRetried}
use rohmu.Google.Retries.{
  Result, retry_on_reset, failed, socket_timeout, returned, is_retried, http_failure,
  is_retried_status,
}
use rohmu.Base.{
  ℕ, Bytes, ◌∷◌, ◌≤◌, Option, ◌+◌, [], ◌≡◌, if◌then◌else◌, none, some, ok, ltb, slice, ◌⊎◌, arith,
  refl, Bool, false, true,
}
use rohmu.Google.Uploading.{MediaStreamUpload, position_or_zero, getbytes}
use rohmu.Google.Downloading.{total_of, Download, HttpResponse, new_download, download_rounds}
use rohmu.Util.{get_total_size_from_content_range, last_part}

-- A stream in the middle of 1, 2, 3, 4, 5: the first two are held, and one has been looked at.
abbrev midway : MediaStreamUpload
midway = record {
  data_held = 1 ∷ 2 ∷ [];
  next_chunk = 3 ∷ [];
  chunk_size = 3;
  fd = record { rest = 4 ∷ 5 ∷ []; pieces = 0 ∷ [] };
  mime_type = [];
  position = some 0;
}

getbytes_lem_example :
    ((getbytes 1 3 midway).0 ≡ ok (2 ∷ 3 ∷ 4 ∷ []))
    × Holds (1 ∷ 2 ∷ 3 ∷ 4 ∷ 5 ∷ []) (getbytes 1 3 midway).1
    × ((getbytes 1 3 midway).1.position ≡ some 1)
unfolding position_or_zero
getbytes_lem_example =
    getbytes_lem 1 3 (1 ∷ 2 ∷ 3 ∷ 4 ∷ 5 ∷ []) midway ([], refl, refl) (omega arith) (omega arith)
      (omega arith)

-- Two calls fail, and the third returns its number.
unfoldable flaky : ℕ → Result ℕ × ℕ
flaky n = if ltb n 2 then (failed socket_timeout, n + 1) else (returned n, n + 1)

retry_on_reset-AllRetried_example :
    (k : ℕ) × (k ≤ 60)
    × AllRetried flaky k 0
    × (retry_on_reset flaky 0 ≡ flaky (behind flaky k 0))
    × ((k ≡ 60) ⊎ (Retried (flaky (behind flaky k 0)).0 → ⊥))
retry_on_reset-AllRetried_example = retry_on_reset-AllRetried flaky 0

abbrev held_contents : Bytes
held_contents = 5 ∷ 6 ∷ 7 ∷ 8 ∷ []

-- Every other request fails. The total is one digit behind a slash.
unfoldable serve_range : Bytes → ℕ × ℕ → Bool → Result HttpResponse × Bool
serve_range uri (first, last) false = (failed (http_failure 503), true)
serve_range uri (first, last) true = (
  returned (record {
    status = 206;
    content_location = none;
    content_range = some (47 ∷ 4 ∷ []);
    content_length = none;
    content = slice first (last + 1) held_contents;
  }),
  false,
)

abbrev answer_of : ℕ → ℕ → HttpResponse
answer_of first last = record {
  status = 206;
  content_location = none;
  content_range = some (47 ∷ 4 ∷ []);
  content_length = none;
  content = slice first (last + 1) held_contents;
}

unfoldable digit : Bytes → Option ℕ
digit [] = none
digit (c ∷ cs) = some c

serve_range-ServesRanges : ServesRanges serve_range digit held_contents
unfolding serve_range digit total_of get_total_size_from_content_range last_part is_retried
    is_retried_status
serve_range-ServesRanges uri first last true le within =
    (0, omega arith, (answer_of first last, false, refl, refl, refl, refl))
serve_range-ServesRanges uri first last false le within = (
  1,
  omega arith,
  (http_failure 503, true, refl, refl, (answer_of first last, false, refl, refl, refl, refl)),
)

download_lem_example :
    (d : Download) × (new_download [] [] 2 (1, 9) ≡ ok d)
    × ((download_rounds serve_range digit 9 (d, false)).0 ≡ ok tt)
    × ((download_rounds serve_range digit 9 (d, false)).1.0.target ≡ 6 ∷ 7 ∷ 8 ∷ [])
download_lem_example =
    download_lem serve_range digit held_contents [] [] 2 1 9 false serve_range-ServesRanges
      (omega arith) (omega arith) (omega arith)
