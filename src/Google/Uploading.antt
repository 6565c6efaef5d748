-- ===== src/Google/Uploading.antt =====
-- rohmu/object_storage/google.py: `MediaStreamUpload`, which gives the chunks of a resumable upload from a
-- source that can only be read on.
use rohmu.S3.Multipart.{read_results}
use rohmu.Storage.Values.{Text}
use rohmu.Storage.Readers.{Reader}
use rohmu.Base.{
  Bytes, ℕ, ◌-◌, Option, Bool, ◌+◌, length, if◌then◌else◌, Method, true, false, some, [], ◌++◌, ltb,
  leb, ◌==◌, none, join, take, ◌&&◌, not, err, drop, ◌||◌, index_error, ok,
}

-- `position` is none before the first chunk.
pub record MediaStreamUpload : Type 0 where
  pub data_held : Bytes
  pub next_chunk : Bytes
  pub chunk_size : ℕ
  pub fd : Reader
  pub mime_type : Text
  pub position : Option ℕ

abbrev pub new_media_stream_upload : Reader → ℕ → Text → MediaStreamUpload
new_media_stream_upload fd chunk_size mime_type = record {
  data_held = [];
  next_chunk = [];
  chunk_size = chunk_size;
  fd = fd;
  mime_type = mime_type;
  position = none;
}

-- `_read_bytes`; its loop is that of the S3 storage.
unfoldable pub read_more : ℕ → Bytes → Reader → Bytes × Reader
read_more n initial_data fd =
    let (results, after) = read_results n n fd in (initial_data ++ join results, after)

-- One byte more than a chunk
unfoldable pub peeksize : MediaStreamUpload → ℕ
peeksize s = s.chunk_size + 1

unfoldable pub peek : MediaStreamUpload → MediaStreamUpload
peek s =
    let (next, after) = read_more (peeksize s - length s.next_chunk) s.next_chunk s.fd in
    if ltb (length s.next_chunk) (peeksize s) then record s { next_chunk = next; fd = after } else s

-- `self._position or 0`
unfoldable pub position_or_zero : Option ℕ → ℕ
position_or_zero none = 0
position_or_zero (some p) = p

-- `size`: the total, once the last chunk has been seen
unfoldable pub total_if_last : MediaStreamUpload → Option ℕ
total_if_last s =
    if ltb (length s.next_chunk) (peeksize s)
    then some (position_or_zero s.position + length s.data_held + length s.next_chunk)
    else none

unfoldable pub size : MediaStreamUpload → Option ℕ × MediaStreamUpload
size s = (total_if_last (peek s), peek s)

-- The data that follow those that are held
unfoldable pub advance : ℕ → MediaStreamUpload → MediaStreamUpload
advance n s =
    let (more, after) = read_more (n - length s.next_chunk) s.next_chunk s.fd in
    if leb n (length s.next_chunk)
    then record s { data_held = take n s.next_chunk; next_chunk = drop n s.next_chunk }
    else record s { data_held = more; next_chunk = []; fd = after }

-- The data from within those that are held, of which `retained` are kept
unfoldable pub retain : Bytes → ℕ → MediaStreamUpload → MediaStreamUpload
retain retained n s =
    let remaining = n - length retained in
    let all = retained ++ s.next_chunk in
    let (more, after) = read_more (n - length all) all s.fd in
    if ltb (length retained) n && leb remaining (length s.next_chunk)
    then record s {
      data_held = retained ++ take remaining s.next_chunk;
      next_chunk = drop remaining s.next_chunk;
    }
    else if ltb (length s.next_chunk) remaining
    then record s { data_held = more; next_chunk = []; fd = after }
    else s

unfoldable pub move_to : Option ℕ → ℕ → ℕ → MediaStreamUpload → MediaStreamUpload
move_to none begin n s = advance n s
move_to (some p) begin n s =
    if begin == p + length s.data_held
    then advance n s
    else if not (begin == p) || ltb (length s.data_held) n
    then retain (drop (begin - p) s.data_held) n s
    else s

unfoldable pub getbytes : ℕ → ℕ → Method MediaStreamUpload Bytes
getbytes begin n s =
    let moved = move_to s.position begin n s in
    if ltb begin (position_or_zero s.position)
    then (err index_error, s)
    else if ltb (position_or_zero s.position + length s.data_held) begin
    then (err index_error, s)
    else (ok moved.data_held, record (peek moved) { position = some begin })

unfoldable pub resumable : MediaStreamUpload → Bool
resumable s = true

unfoldable pub has_stream : MediaStreamUpload → Bool
has_stream s = false
