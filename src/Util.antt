-- ===== src/Util.antt =====
-- rohmu/util.py: `batched`, the total of a Content-Range, the concatenation of binary streams, the
-- counting wrapper of a stream, the test for an empty file, and the growing of pipes.
pub mod Batches
pub mod Concat
pub mod Counts
use rohmu.Base.{
  ℕ, List, Bytes, ℤ, Option, [], Outcome, Bool, none, if◌then◌else◌, pos, ltb, ◌∷◌, is_empty, true,
  false, suc, some, drop, err, take, negsuc, value_error, zero, ok, length, Method, diverge, ◌+◌,
  ◌-ℕ◌, ◌*◌, ◌++◌, ◌&&◌, ◌==◌, unsupported_operation, not, ◌/◌, index_error, leb, bytes_eq,
}

-- `batched`, when n is at least one: one round for each element is enough.
unfoldable pub batches {ℓ} : {A : Type ℓ} → ℕ → ℕ → List A → List (List A)
batches zero n xs = []
batches (suc fuel) n xs =
    let rest = batches fuel n (drop n xs) in if is_empty (take n xs) then [] else take n xs ∷ rest

unfoldable pub batched {ℓ} : {A : Type ℓ} → List A → ℕ → Outcome (List (List A))
batched xs n = if ltb n 1 then err value_error else ok (batches (suc (length xs)) n xs)

-- A binary stream that is only read, by the bytes that it has left, and whether it is closed. Each
-- `read` gives what it is asked for, as far as there is something.
pub record BinaryFile : Type 0 where
  pub left : Bytes
  pub closed : Bool

-- `file.read(size) if size > 0 else file.read()`
unfoldable pub read_file : ℤ → BinaryFile → Bytes × BinaryFile
read_file (pos zero) file = (file.left, record file { left = [] })
read_file (pos (suc n)) file =
    (take (suc n) file.left, record file { left = drop (suc n) file.left })
read_file (negsuc n) file = (file.left, record file { left = [] })

-- `BinaryStreamsConcatenation`, with the files that it has closed
pub record Concatenation : Type 0 where
  pub iter_files : List BinaryFile
  pub current_file : Option BinaryFile
  pub closed_files : List BinaryFile

abbrev pub new_concatenation : List BinaryFile → Concatenation
new_concatenation files = record { iter_files = files; current_file = none; closed_files = [] }

-- `self._current_file = next(self._iter_files, None)`
unfoldable pub next_file : Concatenation → Concatenation
next_file s = elim s.iter_files [
  | [] ↦ record s { current_file = none }
  | file ∷ files ↦ record s { iter_files = files; current_file = some file }
]

-- `_read_chunk` from a current file
unfoldable pub read_current : ℤ → BinaryFile → Concatenation → Bytes × Concatenation
read_current size file s =
    let (got, after) = read_file size file in
    (
      got,
      if is_empty got
          then next_file
              (record s { closed_files = record after { closed = true } ∷ s.closed_files })
          else record s { current_file = some after },
    )

-- `_read_chunk` once it has looked for a first file
unfoldable pub read_started : ℤ → Concatenation → Bytes × Concatenation
read_started size s = elim s.current_file [ none ↦ ([], s) | some file ↦ read_current size file s ]

unfoldable pub read_chunk : ℤ → Concatenation → Bytes × Concatenation
read_chunk size s = elim s.current_file [
  | none ↦ read_started size (next_file s)
  | some file ↦ read_current size file s
]

unfoldable pub is_none {ℓ} : {A : Type ℓ} → Option A → Bool
is_none none = true
is_none (some a) = false

-- `size > 0`
unfoldable pub positive : ℤ → Bool
positive (pos zero) = false
positive (pos (suc n)) = true
positive (negsuc n) = false

-- `size_left == 0`
unfoldable pub is_zero : ℤ → Bool
is_zero (pos zero) = true
is_zero (pos (suc n)) = false
is_zero (negsuc n) = false

-- The loop of `BinaryStreamsConcatenation.read`: what `result` holds goes from round to round.
unfoldable pub read_loop : ℕ → ℤ → ℤ → Bytes → Method Concatenation Bytes
read_loop zero size size_left result s = (diverge, s)
read_loop (suc fuel) size size_left result s =
    let (chunk, after) = read_chunk size_left s in
    let next = read_loop fuel size (size_left -ℕ length chunk) (result ++ chunk) after in
    if is_empty chunk && is_none after.current_file
    then (ok result, after)
    else if positive size && is_zero (size_left -ℕ length chunk)
    then (ok (result ++ chunk), after)
    else next

-- A file is read at most twice, the second time when it has nothing left.
unfoldable pub read : ℤ → Method Concatenation Bytes
read size s = read_loop (suc (suc (suc (2 * length s.iter_files)))) size size [] s

-- `int(text)` of a decimal numeral, as a parameter of the runtime: none stands for a ValueError.
unfoldable pub last_part {ℓ} : {A : Type ℓ} → (A → Bool) → List A → Option (List A)
last_part is_sep [] = none
last_part is_sep (c ∷ cs) = elim (last_part is_sep cs) [
  | some part ↦ some part
  | none ↦ if is_sep c then some cs else none
]

-- The characters as their codes: "/" is 47 and "*" is 42.
unfoldable pub get_total_size_from_content_range : (Bytes → Option ℕ) → Bytes → Outcome (Option ℕ)
get_total_size_from_content_range int content_range =
    elim (last_part (λ c. c == 47) content_range) [
      | none ↦ err index_error
      | some part ↦
          if bytes_eq part (42 ∷ [])
          then ok none
          else elim (int part) [ some n ↦ ok (some n) | none ↦ err value_error ]
    ]

-- What `ProgressStream` wraps: each reading method gives bytes or raises, and `seek` a position.
pub record RawStream {ℓ} (S : Type ℓ) : Type ℓ where
  pub raw_read : ℤ → Method S Bytes
  pub raw_readline : ℤ → Method S Bytes
  pub raw_readlines : ℤ → Method S (List Bytes)
  pub raw_next : Method S Bytes
  pub raw_seek : ℤ → ℕ → Method S ℕ

pub record ProgressStream {ℓ} (S : Type ℓ) : Type ℓ where
  pub raw_stream : S
  pub bytes_read : ℕ

-- `sum(map(len, lines))`
unfoldable pub total_length : List Bytes → ℕ
total_length [] = 0
total_length (line ∷ lines) = length line + total_length lines

module _ {ℓ} {S : Type ℓ} where
  -- A call of the raw stream, and what it adds to `bytes_read` when it returns.
  unfoldable pub count : {A : Type 0} → (A → ℕ) → Outcome A × S → ℕ → Outcome A × ProgressStream S
  count size (ok a, raw) n = (ok a, record { raw_stream = raw; bytes_read = n + size a })
  count size (err e, raw) n = (err e, record { raw_stream = raw; bytes_read = n })
  count size (diverge, raw) n = (diverge, record { raw_stream = raw; bytes_read = n })

  -- `truncate`, `write`, `writelines` and `fileno`
  unfoldable pub unsupported : {A : Type 0} → Method (ProgressStream S) A
  unsupported s = (err unsupported_operation, s)

  module _ (R : RawStream S) where
    unfoldable pub progress_read : ℤ → Method (ProgressStream S) Bytes
    progress_read n s = count length (R.raw_read n s.raw_stream) s.bytes_read

    unfoldable pub progress_readline : ℤ → Method (ProgressStream S) Bytes
    progress_readline limit s = count length (R.raw_readline limit s.raw_stream) s.bytes_read

    unfoldable pub progress_readlines : ℤ → Method (ProgressStream S) (List Bytes)
    progress_readlines hint s = count total_length (R.raw_readlines hint s.raw_stream) s.bytes_read

    unfoldable pub progress_next : Method (ProgressStream S) Bytes
    progress_next s = count length (R.raw_next s.raw_stream) s.bytes_read

    -- `seek` starts the count again, when the raw stream can seek.
    unfoldable pub seeked : Outcome ℕ × S → ℕ → Outcome ℕ × ProgressStream S
    seeked (ok position, raw) n = (ok position, record { raw_stream = raw; bytes_read = 0 })
    seeked (err e, raw) n = (err e, record { raw_stream = raw; bytes_read = n })
    seeked (diverge, raw) n = (diverge, record { raw_stream = raw; bytes_read = n })

    unfoldable pub progress_seek : ℤ → ℕ → Method (ProgressStream S) ℕ
    progress_seek offset whence s = seeked (R.raw_seek offset whence s.raw_stream) s.bytes_read

-- `file_object_is_empty` of a file by its contents and the position of its cursor; `seekable` says
-- whether it has a working `seek`. The cursor ends at the start.
unfoldable pub file_object_is_empty : Bool → Bytes × ℕ → Bool × (Bytes × ℕ)
file_object_is_empty seekable (bytes, cursor) =
    if not seekable
    then (false, (bytes, cursor))
    else (length (take 1 (drop 0 bytes)) == 0, (bytes, 0))

-- The sizes asked of a pipe before the one that is asked now, none when the loop has returned.
unfoldable pub asked_before : ℕ → Option (List ℕ) → Option (List ℕ)
asked_before size none = none
asked_before size (some asked) = some (size ∷ asked)

-- The loop of `increase_pipe_capacity` over the shifts, for one pipe: the sizes that it asks for, in
-- order; none when it finds the shifted size too small and returns. `allowed` says which sizes
-- `fcntl(pipe, F_SETPIPE_SZ, size)` grants.
unfoldable pub grow_pipe : (ℕ → Bool) → ℕ → ℕ → ℕ → Option (List ℕ)
grow_pipe allowed pipe_max_size zero size = some []
grow_pipe allowed pipe_max_size (suc shifts) size =
    let rest = grow_pipe allowed pipe_max_size shifts (size / 2) in
    if leb size 65536
    then none
    else if allowed pipe_max_size
    then some (pipe_max_size ∷ [])
    else asked_before pipe_max_size rest
