-- ===== src/Google/Positions.antt =====
-- rohmu/object_storage/google.py: what `getbytes` of a `MediaStreamUpload` returns.
use rohmu.S3.Chunks.{read_results-Collected}
use rohmu.Storage.Readers.{Reader}
use rohmu.Google.Uploading.{
  read_more, peek, MediaStreamUpload, advance, retain, peeksize, move_to, position_or_zero,
  getbytes,
}
use rohmu.Base.{
  Option, Bytes, ℕ, ◌≡◌, ◌++◌, length, [], take, ap₂, Bool-cases, ◌<◌, drop, ◌∙◌, ltb, leb, ◌-◌,
  some, append_assoc, ◌+◌, inl, none, arith, ap, sym, inr, take-append-drop, take_within, lt→ltb,
  refl, take_beyond, length-append, ◌≤◌, drop_beyond, ok, drop_within, ge→ltb, ◌==◌, length-take,
  drop_all, not, ◌||◌, length-drop, take-append,
}

-- The source held these contents: those that have passed, up to the position, then the data that are held,
-- the next chunk, and what the file has left.
abbrev pub At : Option ℕ → Bytes → Bytes → Type 0
At none passed held = (passed ≡ []) × (held ≡ [])
At (some p) passed held = length passed ≡ p

abbrev pub Holds : Bytes → MediaStreamUpload → Type 0
Holds contents s =
    (passed : Bytes) × (passed ++ (s.data_held ++ (s.next_chunk ++ s.fd.rest)) ≡ contents)
    × At s.position passed s.data_held

read_more_lem :
    (n : ℕ) (initial : Bytes) (fd : Reader)
    → ((read_more n initial fd).0 ≡ initial ++ take n fd.rest)
      × ((read_more n initial fd).1.rest ≡ drop n fd.rest)
unfolding read_more
read_more_lem n initial fd =
    let (joins, leaves, each) = read_results-Collected n n fd (omega arith) in
    (ap (λ t. initial ++ t) joins, leaves)

-- What is read on stands in front of what is left.
read_more-parts :
    (n : ℕ) (initial : Bytes) (fd : Reader)
    → (read_more n initial fd).0 ++ (read_more n initial fd).1.rest ≡ initial ++ fd.rest
read_more-parts n initial fd =
    let (value, left) = read_more_lem n initial fd in
    ap₂ (λ a b. a ++ b) value left
    ∙ append_assoc initial (take n fd.rest) (drop n fd.rest)
    ∙ ap (λ t. initial ++ t) (take-append-drop n fd.rest)

-- The parts of the contents are left as they are.
peek_lem :
    (s : MediaStreamUpload)
    → ((peek s).data_held ≡ s.data_held)
      × ((peek s).next_chunk ++ (peek s).fd.rest ≡ s.next_chunk ++ s.fd.rest)
      × ((peek s).position ≡ s.position)
unfolding peek
peek_lem s = elim (Bool-cases (ltb (length s.next_chunk) (peeksize s))) [
  | inl e ↦ rw e (refl, read_more-parts (peeksize s - length s.next_chunk) s.next_chunk s.fd, refl)
  | inr e ↦ rw e (refl, refl, refl)
]

-- What comes behind the data that are held
abbrev ahead : MediaStreamUpload → Bytes
ahead s = s.next_chunk ++ s.fd.rest

advance_lem :
    (n : ℕ) (s : MediaStreamUpload)
    → ((advance n s).data_held ≡ take n (ahead s))
      × ((advance n s).data_held ++ ahead (advance n s) ≡ ahead s)
unfolding advance
advance_lem n s = elim (Bool-cases (leb n (length s.next_chunk))) [
  | inl e ↦ rw e (
    sym (take_within n s.next_chunk s.fd.rest (ground arith)),
    sym (append_assoc (take n s.next_chunk) (drop n s.next_chunk) s.fd.rest)
        ∙ ap (λ t. t ++ s.fd.rest) (take-append-drop n s.next_chunk),
  )
  | inr e ↦
      let k = n - length s.next_chunk in
      let (value, left) = read_more_lem k s.next_chunk s.fd in
      let at : length s.next_chunk + k ≡ n = ground arith in
      rw e (
        value
            ∙ sym (take_beyond k s.next_chunk s.fd.rest)
            ∙ ap (λ m. take m (s.next_chunk ++ s.fd.rest)) at,
        read_more-parts k s.next_chunk s.fd,
      )
]

retain_lem :
    (retained : Bytes) (n : ℕ) (s : MediaStreamUpload)
    → length retained < n
    → ((retain retained n s).data_held ≡ take n (retained ++ ahead s))
      × ((retain retained n s).data_held ++ ahead (retain retained n s) ≡ retained ++ ahead s)
unfolding retain
retain_lem retained n s le =
    let k = n - length retained in
    let at : length retained + k ≡ n = omega arith in
    elim (Bool-cases (leb k (length s.next_chunk))) [
      | inl e ↦
          rw (lt→ltb (length retained) n le, e)
            (
              ap (λ t. retained ++ t) (sym (take_within k s.next_chunk s.fd.rest (ground arith)))
                  ∙ sym (take_beyond k retained (ahead s))
                  ∙ ap (λ m. take m (retained ++ ahead s)) at,
              append_assoc retained (take k s.next_chunk) (drop k s.next_chunk ++ s.fd.rest)
                  ∙ ap (λ t. retained ++ t)
                      (sym (append_assoc (take k s.next_chunk) (drop k s.next_chunk) s.fd.rest)
                        ∙ ap (λ t. t ++ s.fd.rest) (take-append-drop k s.next_chunk)),
            )
      | inr e ↦
          let all = retained ++ s.next_chunk in
          let j = n - length all in
          let (value, left) = read_more_lem j all s.fd in
          let at' : length all + j ≡ n = ground (arith, length-append retained s.next_chunk) in
          rw (lt→ltb (length retained) n le, e, lt→ltb (length s.next_chunk) k (ground arith))
            (
              value
                  ∙ sym (take_beyond j all s.fd.rest)
                  ∙ ap₂ (λ m t. take m t) at' (append_assoc retained s.next_chunk s.fd.rest),
              read_more-parts j all s.fd ∙ append_assoc retained s.next_chunk s.fd.rest,
            )
    ]

-- The data that are held begin at this position, and are as many as were asked for, if there are.
abbrev pub Moved : ℕ → ℕ → Bytes → MediaStreamUpload → Type 0
Moved begin n contents m =
    (m.data_held ≡ take n (drop begin contents)) × (m.data_held ++ ahead m ≡ drop begin contents)

advance-Moved :
    (begin n : ℕ) (contents : Bytes) (s : MediaStreamUpload)
    → ahead s ≡ drop begin contents
    → Moved begin n contents (advance n s)
advance-Moved begin n contents s e =
    let (value, parts) = advance_lem n s in (value ∙ ap (take n) e, parts ∙ e)

move_to-Moved :
    (begin n : ℕ) (contents passed : Bytes) (s : MediaStreamUpload) (position : Option ℕ)
    → passed ++ (s.data_held ++ ahead s) ≡ contents
    → At position passed s.data_held
    → position_or_zero position ≤ begin
    → begin ≤ position_or_zero position + length s.data_held
    → length s.data_held ≤ n
    → Moved begin n contents (move_to position begin n s)
unfolding move_to position_or_zero
move_to-Moved begin n contents passed s none parts (first, nothing) low high fits =
    let start : begin ≡ 0 = omega (arith, high, ap length nothing) in
    rw start
      (advance-Moved 0 n contents s (sym (ap₂ (λ a b. a ++ (b ++ ahead s)) first nothing) ∙ parts))
move_to-Moved begin n contents passed s (some p) parts at low high fits =
    let k = begin - p in
    let split : length passed + k ≡ begin = omega (arith, at, low) in
    let within : drop begin contents ≡ drop k s.data_held ++ ahead s =
      sym (ap₂ drop split parts)
      ∙ drop_beyond k passed (s.data_held ++ ahead s)
      ∙ drop_within k s.data_held (ahead s) (omega (arith, high)) in
    elim (Bool-cases (begin == p + length s.data_held)) [
      | inl e ↦ rw e (
          advance-Moved begin n contents s
            (sym (within ∙ ap (λ t. t ++ ahead s) (drop_all k s.data_held (ground arith)))))
      | inr e ↦ elim (Bool-cases (not (begin == p) || ltb (length s.data_held) n)) [
        | inl d ↦
            let (value, left) =
              retain_lem (drop k s.data_held) n s (ground (arith, length-drop k s.data_held)) in
            rw (e, d) (value ∙ ap (take n) (sym within), left ∙ sym within)
        | inr d ↦
            let here : k ≡ 0 = ground arith in
            let same : s.data_held ++ ahead s ≡ drop begin contents =
              sym (within ∙ ap (λ j. drop j s.data_held ++ ahead s) here) in
            rw (e, d)
              (sym (take-append n s.data_held (ahead s) (ground arith)) ∙ ap (take n) same, same)
      ]
    ]

at_length :
    (position : Option ℕ) (passed held : Bytes)
    → At position passed held
    → length passed ≡ position_or_zero position
unfolding position_or_zero
at_length none passed held (first, nothing) = ap length first
at_length (some p) passed held at = at

-- For a stream that has not lost any of its contents, a request that begins within the data that are held,
-- or right behind them, and is for at least as many bytes as these, returns the bytes of the contents
-- from there on, as many as were asked for if there are so many; and the stream has still lost nothing.
pub getbytes_lem :
    (begin n : ℕ) (contents : Bytes) (s : MediaStreamUpload)
    → Holds contents s
    → position_or_zero s.position ≤ begin
    → begin ≤ position_or_zero s.position + length s.data_held
    → length s.data_held ≤ n
    → ((getbytes begin n s).0 ≡ ok (take n (drop begin contents)))
      × Holds contents (getbytes begin n s).1
      × ((getbytes begin n s).1.position ≡ some begin)
unfolding getbytes
getbytes_lem begin n contents s (passed, parts, at) low high fits =
    let moved = move_to s.position begin n s in
    let (value, left) = move_to-Moved begin n contents passed s s.position parts at low high fits in
    let (kept, beyond, _) = peek_lem moved in
    let size : length passed ≡ position_or_zero s.position =
      at_length s.position passed s.data_held at in
    let long : begin ≤ length contents = omega (
      arith,
      high,
      size,
      ap length parts,
      length-append passed (s.data_held ++ ahead s),
      length-append s.data_held (ahead s),
    ) in
    rw
      (
        ge→ltb begin (position_or_zero s.position) low,
        ge→ltb (position_or_zero s.position + length s.data_held) begin high,
      )
      (
        ap (λ t. ok t) value,
        (
          take begin contents,
          ap₂ (λ a b. take begin contents ++ (a ++ b)) kept beyond
              ∙ ap (λ t. take begin contents ++ t) left
              ∙ take-append-drop begin contents,
          omega (arith, length-take begin contents, long),
        ),
        refl,
      )
