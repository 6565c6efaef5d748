-- ===== src/Util/Counts.antt =====
-- rohmu/util.py: what `ProgressStream` counts, and what `increase_pipe_capacity` asks for.
use rohmu.Util.{
  RawStream, ProgressStream, count, seeked, progress_read, total_length, progress_readline,
  grow_pipe, progress_readlines, progress_next, progress_seek, unsupported, asked_before,
}
use rohmu.Base.{
  ℤ, List, Outcome, ℕ, Bytes, ◌∷◌, Method, Bool, ok, [], ◌≡◌, err, ◌+◌, length, ◌∙◌, some, refl,
  diverge, arith, ap, Every, sym, Option, subst, suc, none, ◌/◌, if_both, leb, if◌then◌else◌, zero,
}

-- The calls of a `ProgressStream`, and what a caller sees of one that returns.
pub data Call : Type 0 where
  read_call readline_call readlines_call : ℤ → Call
  next_call : Call
  seek_call : ℤ → ℕ → Call
  other_call : Call

pub data Seen : Type 0 where
  gave : List Bytes → Seen
  moved : Seen

-- The bytes that the caller has been given since it last moved the cursor, after some earlier ones.
unfoldable pub given : List (Outcome Seen) → ℕ → ℕ
given [] n = n
given (ok (gave lines) ∷ seen) n = given seen (n + total_length lines)
given (ok moved ∷ seen) n = given seen 0
given (err e ∷ seen) n = given seen n
given (diverge ∷ seen) n = given seen n

-- The result of a call as the caller sees it.
unfoldable pub sees {ℓ} : {S : Type ℓ} {A : Type 0} → (A → Seen) → Outcome A × S → Outcome Seen × S
sees see (ok a, s) = (ok (see a), s)
sees see (err e, s) = (err e, s)
sees see (diverge, s) = (diverge, s)

module _ {ℓ} {S : Type ℓ} (R : RawStream S) where
  unfoldable pub perform : Call → Method (ProgressStream S) Seen
  perform (read_call n) s = sees (λ line. gave (line ∷ [])) (progress_read R n s)
  perform (readline_call n) s = sees (λ line. gave (line ∷ [])) (progress_readline R n s)
  perform (readlines_call n) s = sees gave (progress_readlines R n s)
  perform next_call s = sees (λ line. gave (line ∷ [])) (progress_next R s)
  perform (seek_call offset whence) s = sees (λ n. moved) (progress_seek R offset whence s)
  perform other_call s = unsupported s

  unfoldable pub perform_all : List Call → ProgressStream S → List (Outcome Seen) × ProgressStream S
  perform_all [] s = ([], s)
  perform_all (call ∷ calls) s =
      let (seen, after) = perform call s in
      let (rest, last) = perform_all calls after in (seen ∷ rest, last)

  counts_line :
      (r : Outcome Bytes × S) (n : ℕ)
      → (count length r n).1.bytes_read
        ≡ given ((sees (λ line. gave (line ∷ [])) (count length r n)).0 ∷ []) n
  unfolding count sees given total_length
  counts_line (ok line, raw) n = omega arith
  counts_line (err e, raw) n = refl
  counts_line (diverge, raw) n = refl

  counts_lines :
      (r : Outcome (List Bytes) × S) (n : ℕ)
      → (count total_length r n).1.bytes_read
        ≡ given ((sees gave (count total_length r n)).0 ∷ []) n
  unfolding count sees given
  counts_lines (ok lines, raw) n = refl
  counts_lines (err e, raw) n = refl
  counts_lines (diverge, raw) n = refl

  counts_seek :
      (r : Outcome ℕ × S) (n : ℕ)
      → (seeked R r n).1.bytes_read ≡ given ((sees (λ k. moved) (seeked R r n)).0 ∷ []) n
  unfolding seeked sees given
  counts_seek (ok k, raw) n = refl
  counts_seek (err e, raw) n = refl
  counts_seek (diverge, raw) n = refl

  same_state :
      {A : Type 0} (see : A → Seen) (r : Outcome A × ProgressStream S) → (sees see r).1 ≡ r.1
  unfolding sees
  same_state see (ok a, s) = refl
  same_state see (err e, s) = refl
  same_state see (diverge, s) = refl

  perform-counts :
      (call : Call) (s : ProgressStream S)
      → (perform call s).1.bytes_read ≡ given ((perform call s).0 ∷ []) s.bytes_read
  unfolding perform progress_read progress_readline progress_readlines progress_next progress_seek
      unsupported given
  perform-counts (read_call n) s =
      ap (λ t. t.bytes_read) (same_state (λ line. gave (line ∷ [])) (progress_read R n s))
      ∙ counts_line (R.raw_read n s.raw_stream) s.bytes_read
  perform-counts (readline_call n) s =
      ap (λ t. t.bytes_read) (same_state (λ line. gave (line ∷ [])) (progress_readline R n s))
      ∙ counts_line (R.raw_readline n s.raw_stream) s.bytes_read
  perform-counts (readlines_call n) s =
      ap (λ t. t.bytes_read) (same_state gave (progress_readlines R n s))
      ∙ counts_lines (R.raw_readlines n s.raw_stream) s.bytes_read
  perform-counts next_call s =
      ap (λ t. t.bytes_read) (same_state (λ line. gave (line ∷ [])) (progress_next R s))
      ∙ counts_line (R.raw_next s.raw_stream) s.bytes_read
  perform-counts (seek_call offset whence) s =
      ap (λ t. t.bytes_read) (same_state (λ k. moved) (progress_seek R offset whence s))
      ∙ counts_seek (R.raw_seek offset whence s.raw_stream) s.bytes_read
  perform-counts other_call s = refl

  given-cons :
      (seen : Outcome Seen) (rest : List (Outcome Seen)) (n : ℕ)
      → given (seen ∷ rest) n ≡ given rest (given (seen ∷ []) n)
  unfolding given
  given-cons (ok (gave lines)) rest n = refl
  given-cons (ok moved) rest n = refl
  given-cons (err e) rest n = refl
  given-cons diverge rest n = refl

  -- However the calls are mixed, and whichever of them raise, `bytes_read` is the number of bytes
  -- given to the caller since its last successful `seek`, on top of those counted before when there
  -- is none.
  pub bytes_read-given :
      (calls : List Call) (s : ProgressStream S)
      → (perform_all calls s).1.bytes_read ≡ given (perform_all calls s).0 s.bytes_read
  unfolding perform_all given
  bytes_read-given [] s = refl
  bytes_read-given (call ∷ calls) s =
      bytes_read-given calls (perform call s).1
      ∙ ap (given (perform_all calls (perform call s).1).0) (perform-counts call s)
      ∙ sym (given-cons (perform call s).0 (perform_all calls (perform call s).1).0 s.bytes_read)

abbrev Asks : ℕ → Option (List ℕ) → Type 0
Asks size none = Unit
Asks size (some asked) = Every (λ requested. requested ≡ size) asked

Asks-before :
    (size : ℕ) (rest : Option (List ℕ)) → Asks size rest → Asks size (asked_before size rest)
unfolding asked_before
Asks-before size none h = tt
Asks-before size (some asked) h = (refl, h)

Asks-all :
    (allowed : ℕ → Bool) (pipe_max_size shifts size : ℕ)
    → Asks pipe_max_size (grow_pipe allowed pipe_max_size shifts size)
unfolding grow_pipe
Asks-all allowed pipe_max_size zero size = tt
Asks-all allowed pipe_max_size (suc shifts) size =
    let rest = grow_pipe allowed pipe_max_size shifts (size / 2) in
    if_both (Asks pipe_max_size) (leb size 65536) none
      (if allowed pipe_max_size then some (pipe_max_size ∷ []) else asked_before pipe_max_size rest)
      tt
      (if_both (Asks pipe_max_size) (allowed pipe_max_size) (some (pipe_max_size ∷ []))
        (asked_before pipe_max_size rest) (refl, tt)
        (Asks-before pipe_max_size rest (Asks-all allowed pipe_max_size shifts (size / 2))))

-- Whatever sizes `fcntl` refuses, the loop over the shifts asks for the same size each time: the
-- shifted size is compared and never requested.
pub grow_pipe_asks :
    (allowed : ℕ → Bool) (pipe_max_size shifts size : ℕ) (asked : List ℕ)
    → grow_pipe allowed pipe_max_size shifts size ≡ some asked
    → Every (λ requested. requested ≡ pipe_max_size) asked
grow_pipe_asks allowed pipe_max_size shifts size asked h =
    subst (Asks pipe_max_size) h (Asks-all allowed pipe_max_size shifts size)
