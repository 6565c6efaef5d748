-- ===== src/Local/Writes.antt =====
-- rohmu/object_storage/local.py: the copying of a source to a file, block by block.
use rohmu.Disk.Looks.{look-put}
use rohmu.Storage.Readers.{read_some, read_some-Given}
use rohmu.Local.{Local, record_event, set_disk, put, look, file, chunk_size, Reader}
use rohmu.Base.{
  ℕ, Bytes, Bool, is_empty, Outcome, ◌≡◌, length, ok, none, take, arith, ◌<◌, ◌++◌, suc, true, some,
  [], false, bytes_eq, ap, ◌∷◌, refl, ◌∙◌, zero, append-nil, sym, if◌then◌else◌, bytes_eq_refl,
  subst, length-append, append_assoc, Option, bind_ok, Error,
}
use rohmu.Local.Objects.{
  call_upload_progress, write_block, write_rounds, write_source, read_source, read_from,
}
use rohmu.Storage.Values.{Text}

-- A call that returned these bytes, with the file at the path holding them, and everything else as it was.
abbrev pub Writes : Text → Bytes → Local → Outcome Bytes × Local → Type 0
Writes path bytes s x =
    (x.0 ≡ ok bytes)
    × (look path x.1.disk ≡ some (file bytes))
    × ((q : Text) → bytes_eq path q ≡ false → look q x.1.disk ≡ look q s.disk)
    × (x.1.target ≡ s.target)

call_upload_progress_lem :
    (progress : Bool) (n : ℕ) (s : Local) → (call_upload_progress progress n s).0 ≡ ok tt
unfolding call_upload_progress record_event
call_upload_progress_lem true n s = refl
call_upload_progress_lem false n s = refl

-- The state behind a block
abbrev written_state : Text → Bool → Bytes → Local → Local
written_state path progress bytes s =
    (call_upload_progress progress (length bytes)
      (record s { disk = put path (file bytes) s.disk })).1

same_source :
    (path : Text) (progress : Bool) (bytes : Bytes) (s : Local)
    → ((written_state path progress bytes s).source ≡ s.source)
      × ((written_state path progress bytes s).source_fails ≡ s.source_fails)
      × ((written_state path progress bytes s).target ≡ s.target)
      × ((written_state path progress bytes s).disk ≡ put path (file bytes) s.disk)
unfolding call_upload_progress record_event
same_source path true bytes s = (refl, refl, refl, refl)
same_source path false bytes s = (refl, refl, refl, refl)

-- The loop with so many rounds left, where they are enough for what the source has left.
abbrev Copies : ℕ → Type 0
Copies rounds =
    (path : Text) (progress : Bool) (written : Bytes) (s : Local)
    → s.source_fails ≡ none
    → length s.source.rest < rounds
    → look path s.disk ≡ some (file written)
    → Writes path (written ++ s.source.rest) s (write_rounds rounds path progress written s)

write_block-Writes :
    (rounds : ℕ) (path : Text) (progress : Bool) (written block bytes : Bytes) (s : Local)
    → Copies rounds
    → s.source_fails ≡ none
    → block ++ s.source.rest ≡ bytes
    → (is_empty block ≡ true → bytes ≡ [])
    → length bytes < suc rounds
    → look path s.disk ≡ some (file written)
    → Writes path
        (written ++ bytes)
        s
        (write_block (write_rounds rounds path progress) path progress written block s)
unfolding write_block set_disk
write_block-Writes rounds path progress written [] bytes s copies sound parts ends le at =
    let none_left : written ++ bytes ≡ written =
      ap (λ t. written ++ t) (ends refl) ∙ append-nil written in
    (
      ap (λ b. ok b) (sym none_left),
      at ∙ ap (λ b. some (file b)) (sym none_left),
      λ q differs. refl,
      refl,
    )
write_block-Writes rounds path progress written (b ∷ block) bytes s copies sound parts ends le at =
    let more = written ++ b ∷ block in
    let (source, fails, target, disk) = same_source path progress more s in
    let t = written_state path progress more s in
    let put_at : look path t.disk ≡ some (file more) =
      ap (look path) disk
      ∙ look-put path path (file more) s.disk
      ∙ ap (λ (c : Bool). if c then some (file more) else look path s.disk) (bytes_eq_refl path) in
    let left : length t.source.rest < rounds =
      subst (λ (r : Reader). length r.rest < rounds) (sym source)
        (omega (arith, ap length parts, length-append (b ∷ block) s.source.rest)) in
    let (value, there, others, kept) = copies path progress more t (fails ∙ sound) left put_at in
    let whole_of : more ++ t.source.rest ≡ written ++ bytes =
      ap (λ (r : Reader). more ++ r.rest) source
      ∙ append_assoc written (b ∷ block) s.source.rest
      ∙ ap (λ u. written ++ u) parts in
    rw
      (call_upload_progress_lem progress (length more)
        (record s { disk = put path (file more) s.disk }))
      (
        value ∙ ap (λ u. ok u) whole_of,
        there ∙ ap (λ u. some (file u)) whole_of,
        λ q differs.
            others q differs
            ∙ ap (look q) disk
            ∙ look-put path q (file more) s.disk
            ∙ ap (λ (c : Bool). if c then some (file more) else look q s.disk) differs,
        kept ∙ target,
      )

empty_end :
    (xs got : Bytes) → is_empty got ≡ is_empty (take chunk_size xs) → is_empty got ≡ true → xs ≡ []
empty_end [] got h e = refl
empty_end (x ∷ xs) got h e = absurd (cc (h, e))

read_source_sound :
    (s : Local) (fails : Option Error)
    → fails ≡ none
    → read_from fails chunk_size s ≡ (
      ok (read_some chunk_size s.source).0,
      record s { source = (read_some chunk_size s.source).1 },
    )
unfolding read_from
read_source_sound s none h = refl
read_source_sound s (some e) h = absurd (cc h)

write_rounds-Copies : (rounds : ℕ) → Copies rounds
unfolding write_rounds read_source
write_rounds-Copies zero path progress written s sound le at = absurd (omega arith)
write_rounds-Copies (suc rounds) path progress written s sound le at =
    let r = read_some chunk_size s.source in
    let (parts, within, alike) = read_some-Given chunk_size s.source in
    subst (Writes path (written ++ s.source.rest) s)
      (sym (
        bind_ok (read_source chunk_size)
          (λ block. write_block (write_rounds rounds path progress) path progress written block) s
          (read_source_sound s s.source_fails sound)))
      (write_block-Writes rounds path progress written r.0 s.source.rest (record s { source = r.1 })
        (write_rounds-Copies rounds) sound parts (empty_end s.source.rest r.0 alike) le at)

pub write_source-Writes :
    (path : Text) (progress : Bool) (s : Local)
    → s.source_fails ≡ none
    → look path s.disk ≡ some (file [])
    → Writes path s.source.rest s (write_source path progress s)
unfolding write_source
write_source-Writes path progress s sound at =
    write_rounds-Copies (suc (length s.source.rest)) path progress [] s sound (omega arith) at
