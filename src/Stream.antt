-- ===== src/Stream.antt =====
-- rohmu/filewrap.py: `Stream`, which transforms what it reads from a source, chunk by chunk.
pub mod Fill
pub mod Read
use rohmu.Base.{
  ℕ, zero, suc, ℤ, Bytes, List, Bool, false, ◌∷◌, Option, [], true, ◌-◌, Outcome, pos, negsuc, ◌++◌,
  none, ltb, if◌then◌else◌, length, ok, some, ◌&&◌, ◌+◌, not, ◌==◌, err, diverge, take, index_error,
  drop, join,
}

-- `HasRead`: an object with a `read`, whose empty answer is the end of the input.
pub record Source : Type 1 where
  pub State : Type 0
  pub read : ℤ → State → Bytes × State

-- What a subclass adds: `_process_chunk` and `_finalize`.
pub record Processor : Type 1 where
  pub State : Type 0
  pub process_chunk : Bytes → State → Bytes × State
  pub finalize : State → Bytes × State

-- `chunks[:-1]` and `chunks[-1]`
abbrev pub split_last : List Bytes → Option (List Bytes × Bytes)
split_last [] = none
split_last (c ∷ cs) = elim (split_last cs) [ none ↦ some ([], c) | some p ↦ some (c ∷ p.0, p.1) ]

-- `size < 0 or bytes_available < size`
abbrev pub wants : ℤ → ℕ → Bool
wants (pos n) available = ltb available n
wants (negsuc n) available = true

-- `[self._remainder] if self._remainder else []`
unfoldable pub first_chunks : Bytes → List Bytes
first_chunks [] = []
first_chunks (b ∷ bs) = (b ∷ bs) ∷ []

module _ (S : Source) (P : Processor) where
  pub record Stream : Type 0 where
    pub eof : Bool
    pub remainder : Bytes
    pub src : S.State
    pub processor : P.State
    pub offset : ℕ

  -- `Stream.__init__`
  abbrev pub open_stream : S.State → P.State → Stream
  open_stream src processor = record {
    eof = false;
    remainder = [];
    src = src;
    processor = processor;
    offset = 0;
  }

  -- The local variables of the loop in `read`, with the object.
  pub record Filling : Type 0 where
    pub chunks : List Bytes
    pub available : ℕ
    pub stream : Stream

  -- How many bytes a round asks of the source. -1 stands for all.
  unfoldable pub bytes_to_read : ℕ → ℤ → ℕ → ℤ
  bytes_to_read minimum (negsuc n) available = negsuc 0
  bytes_to_read minimum (pos n) available =
      let missing = n - available in
      if ltb 0 missing && ltb missing minimum then pos minimum else pos missing

  -- `if dst_data: chunks.append(dst_data); bytes_available += len(dst_data)`
  keep_chunk : Bytes → Filling → Filling
  keep_chunk [] f = f
  keep_chunk (b ∷ bs) f = record f {
    chunks = f.chunks ++ ((b ∷ bs) ∷ []);
    available = f.available + suc (length bs);
  }

  -- What a round does with the bytes that it has read.
  take_in : Bytes → S.State → Filling → Filling
  unfolding keep_chunk
  take_in [] src f =
      let (dst, processor) = P.finalize f.stream.processor in
      let s : Stream = record f.stream { src = src; processor = processor; eof = true } in
      keep_chunk dst (record f { stream = s })
  take_in (b ∷ bs) src f =
      let (dst, processor) = P.process_chunk (b ∷ bs) f.stream.processor in
      let s : Stream = record f.stream { src = src; processor = processor } in
      keep_chunk dst (record f { stream = s })

  round : ℕ → ℤ → Filling → Filling
  unfolding take_in bytes_to_read
  round minimum size f =
      let (src_data, src) = S.read (bytes_to_read minimum size f.available) f.stream.src in
      take_in src_data src f

  -- The `while` loop, for at most `fuel` rounds; `none` if they are not enough.
  pub fill : ℕ → ℕ → ℤ → Filling → Option Filling
  unfolding round
  fill zero minimum size f = if not f.stream.eof && wants size f.available then none else some f
  fill (suc fuel) minimum size f =
      let rest = fill fuel minimum size (round minimum size f) in
      if not f.stream.eof && wants size f.available then rest else some f

  -- The bytes of the last chunk go to the caller as far as they are wanted; the rest is kept.
  divide : ℕ → Bytes → Bytes → Bytes × Bytes
  divide size front last =
      let missing = size - length front in
      if missing == length last
      then (front ++ last, [])
      else if ltb 0 missing
      then (front ++ take missing last, drop missing last)
      else (front, last)

  deliver : Bytes × Bytes → Stream → Outcome Bytes × Stream
  deliver (bytes, rest) s =
      (ok bytes, record s { remainder = rest; offset = s.offset + length bytes })

  -- What follows the loop. `chunks[-1]` of no chunk at all is an `IndexError`.
  finish : ℤ → Filling → Outcome Bytes × Stream
  unfolding divide deliver
  finish (negsuc n) f = deliver (join f.chunks, []) f.stream
  finish (pos n) f =
      if ltb f.available n
      then deliver (join f.chunks, []) f.stream
      else elim (split_last f.chunks) [
        | none ↦ (err index_error, f.stream)
        | some p ↦ deliver (divide n (join p.0) p.1) f.stream
      ]

  start : Stream → Filling
  start s = record { chunks = first_chunks s.remainder; available = length s.remainder; stream = s }

  -- `Stream.read`, with the rounds of its loop bounded by `fuel`.
  unfoldable pub read : ℕ → ℕ → ℤ → Stream → Outcome Bytes × Stream
  unfolding first_chunks fill finish start
  read fuel minimum size s = elim (fill fuel minimum size (start s)) [
    | none ↦ (diverge, s)
    | some f ↦ finish size f
  ]
