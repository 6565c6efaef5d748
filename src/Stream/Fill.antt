-- ===== src/Stream/Fill.antt =====
-- The loop of `Stream.read`: what its rounds keep, and that it ends.
use rohmu.Base.{
  Bytes, ℕ, List, ℤ, ◌≡◌, ◌<◌, pos, ◌++◌, length, ◌∷◌, some, ◌≤◌, true, ap, [], arith, ◌∙◌, negsuc,
  sym, None, append-nil, append_assoc, Option-cases, subst, length-append, refl, some-injective,
  inl, inr, false, Option, if◌then◌else◌, suc, not, ◌&&◌, Bool-cases, zero, none, join, join-snoc,
}
use rohmu.Stream.{
  Source, Processor, Stream, Filling, split_last, wants, keep_chunk, take_in, round, bytes_to_read,
  Bytes, ℕ, List, ℤ, fill,
}

-- The whole of what a processor has put out. Any processor can be instrumented with one.
pub record Emits (P : Processor) : Type 0 where
  pub emitted : P.State → Bytes
  pub emits_chunk :
      (c : Bytes) (s : P.State)
      → emitted (P.process_chunk c s).1 ≡ emitted s ++ (P.process_chunk c s).0
  pub emits_final : (s : P.State) → emitted (P.finalize s).1 ≡ emitted s ++ (P.finalize s).0

-- A source that comes to its end: each answer with bytes in it leaves less to come.
pub record Finite (S : Source) : Type 0 where
  pub left : S.State → ℕ
  pub shrinks : (k : ℤ) (s : S.State) → 0 < length (S.read k s).0 → left (S.read k s).1 < left s

pub split_last-snoc : (xs : List Bytes) (x : Bytes) → split_last (xs ++ x ∷ []) ≡ some (xs, x)
split_last-snoc [] x = refl
split_last-snoc (c ∷ cs) x = rw (split_last-snoc cs x)

split_last-cons :
    (c : Bytes) (cs : List Bytes) → (p : List Bytes × Bytes) × (split_last (c ∷ cs) ≡ some p)
split_last-cons c cs = elim (Option-cases (split_last cs)) [
  | inl e ↦ (([], c), rw e)
  | inr (p, e) ↦ ((c ∷ p.0, p.1), rw e)
]

pub split_last-none : (cs : List Bytes) → split_last cs ≡ none → cs ≡ []
split_last-none [] h = refl
split_last-none (c ∷ cs) h = let (p, e) = split_last-cons c cs in absurd (cc (e, h))

pub join-split_last :
    (cs : List Bytes) (p : List Bytes × Bytes) → split_last cs ≡ some p → join cs ≡ join p.0 ++ p.1
join-split_last [] p h = cc
join-split_last (c ∷ []) p h =
    subst (λ (q : List Bytes × Bytes). join (c ∷ []) ≡ join q.0 ++ q.1) (some-injective _ _ h)
      (append-nil c)
join-split_last (c ∷ d ∷ ds) p h =
    let (q, e) = split_last-cons d ds in
    subst (λ (r : List Bytes × Bytes). join (c ∷ d ∷ ds) ≡ join r.0 ++ r.1)
      (some-injective (c ∷ q.0, q.1) p (rw e at h))
      (ap (λ t. c ++ t) (join-split_last (d ∷ ds) q e) ∙ sym (append_assoc c (join q.0) q.1))

-- The chunks before the last one hold no more than was asked for.
abbrev pub NoMore : ℤ → ℕ → Type 0
NoMore (pos n) m = m ≤ n
NoMore (negsuc n) m = None

NoMore-of_wants : (size : ℤ) (m : ℕ) → wants size m ≡ true → NoMore size m
NoMore-of_wants (pos n) m h = ground arith
NoMore-of_wants (negsuc n) m h = tt

module _ (S : Source) (P : Processor) (M : Emits P) (size : ℤ) (old : Stream S P) where
  -- What holds of the loop's variables, from the state `old` in which `read` was called.
  pub record IsFilled (f : Filling S P) : Type 0 where
    pub emission : Bytes
    pub counted : f.available ≡ length (join f.chunks)
    pub kept : join f.chunks ≡ old.remainder ++ emission
    pub emitted_since : M.emitted f.stream.processor ≡ M.emitted old.processor ++ emission
    pub same_offset : f.stream.offset ≡ old.offset
    pub no_more :
        (p : List Bytes × Bytes) → split_last f.chunks ≡ some p → NoMore size (length (join p.0))

  keep_chunk-IsFilled :
      (dst emission : Bytes) (f : Filling S P)
      → f.available ≡ length (join f.chunks)
      → join f.chunks ≡ old.remainder ++ emission
      → M.emitted f.stream.processor ≡ (M.emitted old.processor ++ emission) ++ dst
      → f.stream.offset ≡ old.offset
      → ((p : List Bytes × Bytes) → split_last f.chunks ≡ some p → NoMore size (length (join p.0)))
      → wants size f.available ≡ true
      → IsFilled (keep_chunk S P dst f)
  unfolding keep_chunk
  keep_chunk-IsFilled [] emission f c k e o n w = record {
    emission = emission;
    counted = c;
    kept = k;
    emitted_since = e ∙ append-nil _;
    same_offset = o;
    no_more = n;
  }
  keep_chunk-IsFilled (b ∷ bs) emission f c k e o n w = record {
    emission = emission ++ (b ∷ bs);
    counted = rw join-snoc (omega (arith, length-append (join f.chunks) (b ∷ bs)));
    kept =
        join-snoc f.chunks (b ∷ bs)
        ∙ ap (λ t. t ++ (b ∷ bs)) k
        ∙ append_assoc old.remainder emission (b ∷ bs);
    emitted_since = e ∙ append_assoc _ emission (b ∷ bs);
    same_offset = o;
    no_more = λ p h.
        subst (λ (q : List Bytes × Bytes). NoMore size (length (join q.0)))
          (some-injective (f.chunks, b ∷ bs) p (sym (split_last-snoc f.chunks (b ∷ bs)) ∙ h))
          (NoMore-of_wants size _ (rw c at w));
  }

  take_in-IsFilled :
      (src_data : Bytes) (src : S.State) (f : Filling S P)
      → IsFilled f
      → wants size f.available ≡ true
      → IsFilled (take_in S P src_data src f)
  unfolding take_in
  take_in-IsFilled [] src f h w =
      keep_chunk-IsFilled (P.finalize f.stream.processor).0 h.emission _ h.counted h.kept
        (M.emits_final f.stream.processor
          ∙ ap (λ t. t ++ (P.finalize f.stream.processor).0) h.emitted_since)
        h.same_offset h.no_more w
  take_in-IsFilled (b ∷ bs) src f h w =
      keep_chunk-IsFilled (P.process_chunk (b ∷ bs) f.stream.processor).0 h.emission _ h.counted
        h.kept
        (M.emits_chunk (b ∷ bs) f.stream.processor
          ∙ ap (λ t. t ++ (P.process_chunk (b ∷ bs) f.stream.processor).0) h.emitted_since)
        h.same_offset h.no_more w

  round-IsFilled :
      (minimum : ℕ) (f : Filling S P)
      → IsFilled f
      → wants size f.available ≡ true
      → IsFilled (round S P minimum size f)
  unfolding round
  round-IsFilled minimum f h w =
      let r = S.read (bytes_to_read S P minimum size f.available) f.stream.src in
      take_in-IsFilled r.0 r.1 f h w

-- The rounds that a source can still give, the one that meets the end among them.
module _ (S : Source) (P : Processor) (F : Finite S) where
  abbrev pub rounds_left : Filling S P → ℕ
  rounds_left f = if f.stream.eof then 0 else suc (F.left f.stream.src)

  keep_chunk-stream : (dst : Bytes) (f : Filling S P) → (keep_chunk S P dst f).stream ≡ f.stream
  unfolding keep_chunk
  keep_chunk-stream [] f = refl
  keep_chunk-stream (b ∷ bs) f = refl

  take_in-rounds_left :
      (r : Bytes × S.State) (f : Filling S P)
      → (0 < length r.0 → F.left r.1 < F.left f.stream.src)
      → f.stream.eof ≡ false
      → rounds_left (take_in S P r.0 r.1 f) < rounds_left f
  unfolding take_in
  take_in-rounds_left ([], src) f shrinks going = rw (keep_chunk-stream, going) (omega arith)
  take_in-rounds_left (b ∷ bs, src) f shrinks going =
      rw (keep_chunk-stream, going) (omega (arith, shrinks (omega arith)))

  round-rounds_left :
      (minimum : ℕ) (size : ℤ) (f : Filling S P)
      → f.stream.eof ≡ false
      → rounds_left (round S P minimum size f) < rounds_left f
  unfolding round
  round-rounds_left minimum size f going =
      take_in-rounds_left (S.read (bytes_to_read S P minimum size f.available) f.stream.src) f
        (F.shrinks _ _) going

-- The loop ends by its test, with what it keeps.
pub record Ends (S : Source) (P : Processor) (M : Emits P) (size : ℤ) (old : Stream S P)
    (r : Option (Filling S P)) : Type 0 where
  pub result : Filling S P
  pub returns : r ≡ some result
  pub filled : IsFilled S P M size old result
  pub stops : (not result.stream.eof && wants size result.available) ≡ false

module _ (S : Source) (P : Processor) (M : Emits P) (F : Finite S) (size : ℤ)
    (old : Stream S P) where
  pub fill-Ends :
      (fuel minimum : ℕ) (f : Filling S P)
      → rounds_left S P F f ≤ fuel
      → IsFilled S P M size old f
      → Ends S P M size old (fill S P fuel minimum size f)
  unfolding fill
  fill-Ends zero minimum f enough h =
      let stop : (not f.stream.eof && wants size f.available) ≡ false = ground arith in
      record { result = f; returns = rw stop; filled = h; stops = stop }
  fill-Ends (suc fuel) minimum f enough h =
      elim (Bool-cases (not f.stream.eof && wants size f.available)) [
        | inr stop ↦ record { result = f; returns = rw stop; filled = h; stops = stop }
        | inl more ↦
            let ih : Ends S P M size old (fill S P fuel minimum size (round S P minimum size f)) =
              fill-Ends fuel minimum (round S P minimum size f)
                (omega (arith, round-rounds_left S P F minimum size f (ground arith)))
                (round-IsFilled S P M size old minimum f h (ground arith)) in
            record {
              result = ih.result;
              returns = rw more ih.returns;
              filled = ih.filled;
              stops = ih.stops;
            }
      ]
