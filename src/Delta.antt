-- ===== src/Delta.antt =====
-- rohmu/delta/common.py: `Progress`, when a change is worth a log line, and `SizeLimitedFile`.
pub mod Meters
pub mod Limits
use rohmu.Base.{
  ℕ, false, Bool, Method, List, Bytes, ℤ, Option, if◌then◌else◌, None, ◌&&◌, ◌∷◌, true, ◌-◌, drop,
  Outcome, pos, ◌==◌, leb, ok, ltb, not, ◌+◌, some, suc, [], ◌||◌, err, min, length, negsuc, ◌*◌,
  assertion_error, none, take, os_error, sub_ℕ, value_error, ◌/◌, zero, pure,
}

-- `increase_worth_reporting`; `exponent v` is `int(math.log(v) / _log_1_1)`.
unfoldable pub worth_of_total : ℕ → ℕ → ℕ → Bool
worth_of_total total value new_value =
    if new_value == total || leb total 100
    then true
    else not (100 * value / total == 100 * new_value / total)

unfoldable pub worth_alone : (ℕ → ℕ) → ℕ → ℕ → Bool
worth_alone exponent value new_value =
    if leb value 10 || leb new_value 10 then true else not (exponent value == exponent new_value)

-- The old value when only the new one is given: `value - 1`, below 10 for a new value of 0.
unfoldable pub increase_worth_reporting : (ℕ → ℕ) → ℕ → Option ℕ → Option ℕ → Bool
increase_worth_reporting exponent value none none = worth_alone exponent (value - 1) value
increase_worth_reporting exponent value none (some total) = worth_of_total total (value - 1) value
increase_worth_reporting exponent value (some new_value) none = worth_alone exponent value new_value
increase_worth_reporting exponent value (some new_value) (some total) =
    worth_of_total total value new_value

pub record Progress : Type 0 where
  pub handled : ℕ
  pub failed : ℕ
  pub total : ℕ
  pub final : Bool

abbrev pub new_progress : Progress
new_progress = record { handled = 0; failed = 0; total = 0; final = false }

-- `assert test`
unfoldable pub assert : {S : Type 0} → Bool → Method S None
assert test s = if test then (ok tt, s) else (err assertion_error, s)

unfoldable pub add_total : ℕ → Method Progress None
add_total n s =
    if n == 0 then (ok tt, s) else assert (not s.final) (record s { total = s.total + n })

unfoldable pub start : ℕ → Method Progress None
start n s = if s.total == 0 then add_total n s else (err assertion_error, s)

unfoldable pub add_fail : ℕ → Method Progress None
add_fail n s =
    if ltb 0 n
    then assert (not s.final) (record s { failed = s.failed + n })
    else (err assertion_error, s)

unfoldable pub add_success : ℕ → Method Progress None
add_success n s =
    if ltb 0 n
    then assert (leb (s.handled + n) s.total && not s.final) (record s { handled = s.handled + n })
    else (err assertion_error, s)

-- `download_success`, `upload_success`, `upload_missing` and `upload_failure`
unfoldable pub download_success : ℕ → Method Progress None
download_success size = add_success size

unfoldable pub upload_success : Method Progress None
upload_success = add_success 1

unfoldable pub upload_missing : Method Progress None
upload_missing = add_fail 1

unfoldable pub upload_failure : Method Progress None
upload_failure = add_fail 1

unfoldable pub done : Method Progress None
done s =
    if leb s.handled s.total && not s.final
    then (ok tt, record s { final = true })
    else (err assertion_error, s)

unfoldable pub finished_successfully : Progress → Bool
finished_successfully s = s.final && s.failed == 0 && s.handled == s.total

unfoldable pub finished_failed : Progress → Bool
finished_failed s = s.final && not (finished_successfully s)

-- The loop of `merge`
unfoldable pub merge_into : Progress → List Progress → Progress
merge_into p [] = p
merge_into p (progress ∷ rest) =
    merge_into
      (record p {
        handled = p.handled + progress.handled;
        failed = p.failed + progress.failed;
        total = p.total + progress.total;
      })
      rest

-- `all(progress.final for progress in progresses)`
unfoldable pub all_final : List Progress → Bool
all_final [] = true
all_final (progress ∷ rest) = progress.final && all_final rest

unfoldable pub merge : List Progress → Progress
merge progresses = record (merge_into new_progress progresses) { final = all_final progresses }

-- `SizeLimitedFile`: the bytes of the open file, its cursor and the limit.
pub record SizeLimitedFile : Type 0 where
  pub file : Bytes
  pub cursor : ℕ
  pub file_size : ℕ

unfoldable pub can_read : SizeLimitedFile → ℕ
can_read s = s.file_size - s.cursor

-- `self._f.read(n)` of n bytes, or of all that is left
unfoldable pub read_raw : ℕ → SizeLimitedFile → Bytes × SizeLimitedFile
read_raw n s =
    let got = take n (drop s.cursor s.file) in (got, record s { cursor = s.cursor + length got })

-- `read(n)`, with -1 for all that is allowed; the file refuses other negative sizes.
unfoldable pub read_limited : ℤ → Method SizeLimitedFile Bytes
read_limited (pos n) s =
    pure (read_raw (min (can_read s) n) s).0 (read_raw (min (can_read s) n) s).1
read_limited (negsuc zero) s =
    pure (read_raw (min (can_read s) (can_read s)) s).0
      (read_raw (min (can_read s) (can_read s)) s).1
read_limited (negsuc (suc n)) s = (err value_error, s)

-- `seek(offset, whence)`: from the start (0), the cursor (1), or the end of the allowed part (2).
unfoldable pub seek_to : ℤ → SizeLimitedFile → Outcome ℕ × SizeLimitedFile
seek_to (pos n) s = (ok n, record s { cursor = n })
seek_to (negsuc n) s = (err os_error, s)

-- a number and an integer added up
unfoldable pub plus : ℕ → ℤ → ℤ
plus a (pos b) = pos (a + b)
plus a (negsuc b) = sub_ℕ a (suc b)

unfoldable pub seek_limited : ℤ → ℕ → SizeLimitedFile → Outcome ℕ × SizeLimitedFile
seek_limited offset zero s = seek_to offset s
seek_limited offset (suc zero) s = seek_to (plus s.cursor offset) s
seek_limited offset (suc (suc zero)) s = seek_to (plus s.file_size offset) s
seek_limited offset (suc (suc (suc n))) s = (err value_error, s)
