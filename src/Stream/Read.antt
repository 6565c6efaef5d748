-- ===== src/Stream/Read.antt =====
-- What one call of `Stream.read` gives, and what it keeps for the next.
use rohmu.Base.{
  ℕ, ℤ, Bytes, Bool, Outcome, ◌<◌, length, ◌≡◌, pos, ◌++◌, ◌≤◌, false, ok, ◌⊎◌, ◌+◌, Bool-cases,
  ◌∙◌, ◌≢◌, negsuc, true, arith, not, ◌-◌, [], refl, ◌==◌, ◌&&◌, append-nil, inl, length-append,
  ltb, ==→eq, ltb→lt, inr, append_assoc, Option-cases, take, ltb→ge, drop, ap, take-append-drop,
  sym, length-take, none, err, index_error, suc, zero, some, ◌∷◌, List, some-injective, join,
}
use rohmu.Stream.{
  Source, Processor, Stream, Filling, split_last, wants, fill, divide, deliver, finish, start, read,
  ℕ, ℤ, first_chunks,
}
use rohmu.Stream.Fill.{
  Emits, Finite, IsFilled, Ends, fill-Ends, join-split_last, rounds_left, NoMore, split_last-none,
}

join-first_chunks : (r : Bytes) → join (first_chunks r) ≡ r
unfolding first_chunks
join-first_chunks [] = refl
join-first_chunks (b ∷ bs) = append-nil (b ∷ bs)

first_chunks_front :
    (r : Bytes) (p : List Bytes × Bytes) → split_last (first_chunks r) ≡ some p → p.0 ≡ []
unfolding first_chunks
first_chunks_front [] p h = absurd (cc h)
first_chunks_front (b ∷ bs) p h = ap (λ (q : List Bytes × Bytes). q.0) (sym (some-injective _ _ h))

NoMore-zero : (size : ℤ) → NoMore size 0
NoMore-zero (pos n) = omega arith
NoMore-zero (negsuc n) = tt

divide_lem :
    (n : ℕ) (front last : Bytes) (S : Source) (P : Processor)
    → length front ≤ n
    → n ≤ length front + length last
    → ((divide S P n front last).0 ++ (divide S P n front last).1 ≡ front ++ last)
      × (length (divide S P n front last).0 ≡ n)
unfolding divide
divide_lem n front last S P low high = elim (Bool-cases (n - length front == length last)) [
  | inl whole ↦
      (rw whole (append-nil _), rw whole (omega (arith, length-append front last, ==→eq _ _ whole)))
  | inr part ↦ elim (Bool-cases (ltb 0 (n - length front))) [
    | inl some_left ↦
        let m : ℕ = n - length front in
        (
          rw (part, some_left)
              (append_assoc front (take m last) (drop m last)
                ∙ ap (λ t. front ++ t) (take-append-drop m last)),
          rw (part, some_left)
              (omega (arith, length-append front (take m last), length-take m last)),
        )
    | inr full ↦ (rw (part, full), rw (part, full) (omega (arith, ltb→ge _ _ full)))
  ]
]

-- All that was asked for, unless the input has ended; all of the input if no size was given.
abbrev pub IsComplete : ℤ → (eof : Bool) → (bytes kept : Bytes) → Type 0
IsComplete (pos n) eof bytes kept = eof ≡ false → length bytes ≡ n
IsComplete (negsuc n) eof bytes kept = (eof ≡ true) × (kept ≡ [])

module _ (S : Source) (P : Processor) (M : Emits P) where
  pub record Reads (size : ℤ) (s : Stream S P) (r : Outcome Bytes × Stream S P) : Type 0 where
    pub bytes : Bytes
    pub after : Stream S P
    pub returns : r ≡ (ok bytes, after)
    pub emission : Bytes
    pub emitted_since : M.emitted after.processor ≡ M.emitted s.processor ++ emission
    pub conserved : bytes ++ after.remainder ≡ s.remainder ++ emission
    pub moved : after.offset ≡ s.offset + length bytes
    pub at_most : NoMore size (length bytes)
    pub complete : IsComplete size after.eof bytes after.remainder

  deliver-Reads :
      (size : ℤ) (s : Stream S P) (f : Filling S P) (d : Bytes × Bytes)
      → IsFilled S P M size s f
      → d.0 ++ d.1 ≡ join f.chunks
      → NoMore size (length d.0)
      → IsComplete size f.stream.eof d.0 d.1
      → Reads size s (deliver S P d f.stream)
  unfolding deliver
  deliver-Reads size s f d h whole at_most complete = record {
    bytes = d.0;
    after = record f.stream { remainder = d.1; offset = f.stream.offset + length d.0 };
    returns = refl;
    emission = h.emission;
    emitted_since = h.emitted_since;
    conserved = whole ∙ h.kept;
    moved = omega (arith, h.same_offset);
    at_most = at_most;
    complete = complete;
  }

  no_chunk :
      (f : Filling S P) (n : ℕ) (s : Stream S P)
      → (0 < length s.remainder) ⊎ (pos n ≢ pos 0)
      → IsFilled S P M (pos n) s f
      → n ≤ f.available
      → split_last f.chunks ≡ none
      → ⊥
  no_chunk f n s asks h enough e =
      let none_joined : length (join f.chunks) ≡ 0 = rw (split_last-none f.chunks e) refl in
      let parts : length (join f.chunks) ≡ length s.remainder + length h.emission =
        ap length h.kept ∙ length-append s.remainder h.emission in
      elim asks [
        | inl kept ↦ omega arith
        | inr differs ↦ differs (ap pos (omega (arith, h.counted)))
      ]

  finish-Reads :
      (size : ℤ) (s : Stream S P) (f : Filling S P)
      → (0 < length s.remainder) ⊎ (size ≢ pos 0)
      → IsFilled S P M size s f
      → (not f.stream.eof && wants size f.available) ≡ false
      → Reads size s (finish S P size f)
  unfolding finish
  finish-Reads (negsuc n) s f asks h stops =
      deliver-Reads (negsuc n) s f (join f.chunks, []) h (append-nil _) tt (ground arith, refl)
  finish-Reads (pos n) s f asks h stops = elim (Bool-cases (ltb f.available n)) [
    | inl short ↦ rw short (
        deliver-Reads (pos n) s f (join f.chunks, []) h (append-nil _)
          (omega (arith, ltb→lt _ _ short, h.counted)) (λ live. ground arith))
    | inr enough ↦ elim (Option-cases (split_last f.chunks)) [
      | inr (p, e) ↦
          let whole : join f.chunks ≡ join p.0 ++ p.1 = join-split_last f.chunks p e in
          let d : _ × _ = divide_lem n (join p.0) p.1 S P (h.no_more p e) (
            omega (
              arith,
              ltb→ge _ _ enough,
              h.counted,
              ap length whole,
              length-append (join p.0) p.1,
            )) in
          rw (enough, e)
            (deliver-Reads (pos n) s f (divide S P n (join p.0) p.1) h (d.0 ∙ sym whole)
              (omega (arith, d.1)) (λ live. d.1))
      | inl e ↦ absurd (no_chunk f n s asks h (ltb→ge f.available n enough) e)
    ]
  ]

  start-IsFilled : (size : ℤ) (s : Stream S P) → IsFilled S P M size s (start S P s)
  unfolding start
  start-IsFilled size s = record {
    emission = [];
    counted = ap length (sym (join-first_chunks s.remainder));
    kept = join-first_chunks s.remainder ∙ sym (append-nil s.remainder);
    emitted_since = sym (append-nil (M.emitted s.processor));
    same_offset = refl;
    no_more = λ p e. rw (first_chunks_front s.remainder p e) (NoMore-zero size);
  }

  start-rounds_left :
      (F : Finite S) (fuel : ℕ) (s : Stream S P)
      → F.left s.src < fuel
      → rounds_left S P F (start S P s) ≤ fuel
  unfolding start
  start-rounds_left F fuel s enough = ground arith

  -- Over a source that comes to an end, every call returns that asks for something, or finds bytes kept from
  -- earlier calls, given rounds for the rest of the input. What it returns and what it keeps are what was kept before and what the processor has put out since, in
  -- order; it returns all that was asked for unless the input has ended, and never more.
  pub read-Reads :
      (F : Finite S) (fuel minimum : ℕ) (size : ℤ) (s : Stream S P)
      → F.left s.src < fuel
      → (0 < length s.remainder) ⊎ (size ≢ pos 0)
      → Reads size s (read S P fuel minimum size s)
  unfolding read
  read-Reads F fuel minimum size s enough asks =
      let e : Ends S P M size s (fill S P fuel minimum size (start S P s)) =
        fill-Ends S P M F size s fuel minimum (start S P s) (start-rounds_left F fuel s enough)
          (start-IsFilled size s) in
      rw (e.returns, read) (finish-Reads size s e.result asks e.filled e.stops)

module _ (S : Source) (P : Processor) where
  fill_stop : (fuel minimum : ℕ) (f : Filling S P) → fill S P fuel minimum (pos 0) f ≡ some f
  unfolding fill
  fill_stop zero minimum f = ground arith
  fill_stop (suc fuel) minimum f = ground arith

  finish-none :
      (f : Filling S P)
      → split_last f.chunks ≡ none
      → finish S P (pos 0) f ≡ (err index_error, f.stream)
  unfolding finish
  finish-none f h = let e : ltb f.available 0 ≡ false = ground arith in rw (e, h)

  -- A call that asks for 0 bytes when none are kept raises an `IndexError` and changes nothing,
  -- wherever the input stands.
  pub read_zero :
      (fuel minimum : ℕ) (s : Stream S P)
      → s.remainder ≡ []
      → read S P fuel minimum (pos 0) s ≡ (err index_error, s)
  unfolding read start first_chunks
  read_zero fuel minimum s h =
      rw (fill_stop, read) (finish-none (start S P s) (rw (h, first_chunks)))
