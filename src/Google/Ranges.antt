-- ===== src/Google/Ranges.antt =====
-- rohmu/object_storage/google.py: what the download of a byte range writes.
use rohmu.Google.Chunks.{Midway, ServesRanges, step, answered, take_same}
use rohmu.Google.Downloading.{
  HttpResponse, Download, received, chunk_range, download_rounds, new_download, until_done,
}
use rohmu.Google.Retries.{Result}
use rohmu.Storage.Values.{Text}
use rohmu.Base.{
  ℕ, Bytes, take, ◌≤◌, Option, ◌≡◌, length, ◌<◌, ◌++◌, slice, min, Outcome, suc, drop, ◌+◌, ◌-◌,
  None, ap, arith, ok, zero, ◌∙◌, refl, sym, length-drop, length-take, false, append-nil,
  Bool-cases, ge→ltb, ◌==◌, inl, inr,
}

take-min :
    (k start : ℕ) (xs : Bytes)
    → take (min k (length xs - start)) (drop start xs) ≡ take k (drop start xs)
take-min k start xs =
    ap (λ m. take m (drop start xs))
      (omega (arith, length-take k (drop start xs), length-drop start xs))
    ∙ sym (take_same k (drop start xs))

module _ {H : Type 0} (http : Text → ℕ × ℕ → H → Result HttpResponse × H)
    (int : Text → Option ℕ) where
  -- The end of the download
  abbrev pub Downloads : Bytes → Bytes → ℕ → Download → Outcome None × (Download × H) → Type 0
  Downloads contents before size d x =
      (x.0 ≡ ok tt) × (x.1.0.target ≡ before ++ take size (drop d.start_position contents))

  download_rounds-Downloads :
      (contents before : Bytes) (size rounds : ℕ) (h : H) (d : Download)
      → ServesRanges http int contents
      → Midway http int contents before size d
      → size - d.num_bytes_downloaded ≤ rounds
      → Downloads contents before size d (download_rounds http int rounds (d, h))
  unfolding download_rounds until_done chunk_range received
  download_rounds-Downloads contents before size zero h d serves (_, _, _, _, more, _, _) le =
      absurd (omega (arith, more))
  download_rounds-Downloads contents before size (suc rounds) h d serves midway le =
      let (total, within, range, chunked, more, target, fresh) = midway in
      let (first, last) = chunk_range d in
      let (failures, few, answers) =
        serves d.uri first last h (ground arith) (omega (arith, total, more, within)) in
      let (resp, after, returns, content) =
        answered http int contents before size failures first last h d midway refl few answers in
      let (wrote, grows, most) = step http int contents before size d resp midway content in
      let n = (received resp d).num_bytes_downloaded in
      elim (Bool-cases (n == size)) [
        | inl e ↦
            rw (returns, e)
              (
                refl,
                wrote ∙ ap (λ m. before ++ take m (drop d.start_position contents)) (ground arith),
              )
        | inr e ↦
            rw (returns, e)
              (download_rounds-Downloads contents before size rounds after
                (record (received resp d) { done = false }) serves
                (total, within, range, chunked, ground (arith, most), wrote, refl)
                (omega (arith, grows, le)))
      ]

  -- From a server that holds the contents, and of whose requests for a range at most 60 in a row fail, in a way
  -- that is retried: the download of a range that begins within the contents, not behind its end, in
  -- chunks of some bytes, returns; and it writes the bytes from the first to the last of the range, both
  -- included and as far as there are any, behind what the target held. A round for each byte of the range is
  -- enough.
  pub download_lem :
      (contents before : Bytes) (uri : Text) (chunksize start end : ℕ) (h : H)
      → ServesRanges http int contents
      → 0 < chunksize
      → start ≤ end
      → start < length contents
      → (d : Download) × (new_download before uri chunksize (start, end) ≡ ok d)
        × ((download_rounds http int (end + 1 - start) (d, h)).0 ≡ ok tt)
        × ((download_rounds http int (end + 1 - start) (d, h)).1.0.target
            ≡ before ++ slice start (end + 1) contents)
  unfolding new_download
  download_lem contents before uri chunksize start end h serves chunked le within =
      let d : Download = record {
        target = before;
        uri = uri;
        chunksize = chunksize;
        start_position = start;
        end_position = end;
        num_bytes_downloaded = 0;
        range_size = end + 1 - start;
        done = false;
      } in
      let size = min (end + 1 - start) (length contents - start) in
      let (returns, wrote) =
        download_rounds-Downloads contents before size (end + 1 - start) h d serves
          (refl, within, refl, chunked, omega (arith, within), sym (append-nil before), refl)
          (omega arith) in
      (
        d,
        rw (ge→ltb (end + 1) start (omega arith)) refl,
        returns,
        wrote ∙ ap (λ t. before ++ t) (take-min (end + 1 - start) start contents),
      )
