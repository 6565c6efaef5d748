-- ===== src/Inotify/Buffers.antt =====
-- rohmu/inotify.py: `parse_inotify_buffer` reads what the kernel writes.
use rohmu.Inotify.{
  field, rstrip_nul, Event, name_length, event_at, parse_loop, parse_inotify_buffer, signed,
}
use rohmu.Base.{
  ℕ, Bytes, List, ◌%◌, ◌<◌, [], ◌++◌, ◌∷◌, ◌≡◌, ◌/◌, length, suc, ◌^◌, zero, ◌+◌, refl, arith, ap,
  take, drop, ◌≤◌, take_beyond, sym, length-append, Every, ◌∙◌, drop-drop, map, take-append,
  drop_beyond, le→leb, drop-append,
}

unfoldable pub field_bytes : ℕ → Bytes
field_bytes n = n % 256 ∷ n / 256 % 256 ∷ n / 65536 % 256 ∷ n / 16777216 % 256 ∷ []

field-bytes : (n : ℕ) (rest : Bytes) → n < 2 ^ 32 → field (field_bytes n ++ rest) ≡ n
unfolding field field_bytes
field-bytes n rest h = omega arith

-- The layout of inotify(7): the watch descriptor, the mask, the cookie, the length of the name with
-- its padding, and the name with that many zero bytes behind it.
unfoldable pub zeros : ℕ → Bytes
zeros zero = []
zeros (suc n) = 0 ∷ zeros n

pub record Raw : Type 0 where
  pub descriptor : ℕ
  pub mask : ℕ
  pub cookie : ℕ
  pub name : Bytes
  pub padding : ℕ

-- An event before what follows it in the buffer.
unfoldable pub layout : Raw → Bytes → Bytes
layout r tail =
    field_bytes r.descriptor
    ++ (field_bytes r.mask
        ++ (field_bytes r.cookie
            ++ (field_bytes (length r.name + r.padding) ++ (r.name ++ (zeros r.padding ++ tail)))))

unfoldable pub layouts : List Raw → Bytes
layouts [] = []
layouts (r ∷ rs) = layout r (layouts rs)

-- The fields fit, and the name does not itself end in a zero byte.
abbrev pub Fits : Raw → Type 0
Fits r =
    (r.descriptor < 2 ^ 32)
    × (r.mask < 2 ^ 32)
    × (r.cookie < 2 ^ 32)
    × (length r.name + r.padding < 2 ^ 32)
    × (rstrip_nul r.name ≡ r.name)

abbrev pub seen : Raw → Event
seen r = record { wd = signed r.descriptor; mask = r.mask; cookie = r.cookie; name = r.name }

rstrip_nul-zeros : (n : ℕ) → rstrip_nul (zeros n) ≡ []
unfolding rstrip_nul zeros
rstrip_nul-zeros zero = refl
rstrip_nul-zeros (suc n) = rw (rstrip_nul-zeros n) refl

rstrip_nul-append : (name : Bytes) (n : ℕ) → rstrip_nul (name ++ zeros n) ≡ rstrip_nul name
unfolding rstrip_nul
rstrip_nul-append [] n = rstrip_nul-zeros n
rstrip_nul-append (c ∷ cs) n = rw (rstrip_nul-append cs n) refl

length-zeros : (n : ℕ) → n ≡ length (zeros n)
unfolding zeros
length-zeros zero = refl
length-zeros (suc n) = ap suc (length-zeros n)

name_length-layout :
    (r : Raw) (tail : Bytes)
    → length r.name + r.padding < 2 ^ 32
    → name_length (layout r tail) ≡ length r.name + r.padding
unfolding name_length layout field_bytes
name_length-layout r tail h =
    field-bytes (length r.name + r.padding) (r.name ++ (zeros r.padding ++ tail)) h

name-layout :
    (r : Raw) (tail : Bytes)
    → take (length r.name + r.padding) (r.name ++ (zeros r.padding ++ tail))
      ≡ r.name ++ zeros r.padding
name-layout r tail =
    take_beyond r.padding r.name (zeros r.padding ++ tail)
    ∙ ap (λ t. r.name ++ t) (take-append r.padding (zeros r.padding) tail (length-zeros r.padding))

abbrev event : ℕ → ℕ → ℕ → Bytes → Event
event d m c name = record { wd = signed d; mask = m; cookie = c; name = name }

event_at-layout : (r : Raw) (tail : Bytes) → Fits r → event_at (layout r tail) ≡ seen r
unfolding event_at layout field_bytes
event_at-layout r tail (d, m, c, n, stripped) =
    let l = layout r tail in
    let name : rstrip_nul (take (name_length l) (drop 16 l)) ≡ r.name =
      ap (λ k. rstrip_nul (take k (r.name ++ (zeros r.padding ++ tail))))
        (name_length-layout r tail n)
      ∙ ap rstrip_nul (name-layout r tail)
      ∙ rstrip_nul-append r.name r.padding
      ∙ stripped in
    let stem = rstrip_nul (take (name_length l) (drop 16 l)) in
    ap (λ x. event x (field (drop 4 l)) (field (drop 8 l)) stem)
      (field-bytes r.descriptor (drop 4 l) d)
    ∙ ap (λ x. event r.descriptor x (field (drop 8 l)) stem) (field-bytes r.mask (drop 8 l) m)
    ∙ ap (λ x. event r.descriptor r.mask x stem) (field-bytes r.cookie (drop 12 l) c)
    ∙ ap (λ x. event r.descriptor r.mask r.cookie x) name

drop-layout :
    (r : Raw) (tail : Bytes) → drop (16 + (length r.name + r.padding)) (layout r tail) ≡ tail
unfolding layout field_bytes
drop-layout r tail =
    sym (drop-drop (length r.name + r.padding) 16 (layout r tail))
    ∙ drop_beyond r.padding r.name (zeros r.padding ++ tail)
    ∙ drop-append r.padding (zeros r.padding) tail (length-zeros r.padding)

length-layout : (r : Raw) (tail : Bytes) → 16 + length tail ≤ length (layout r tail)
unfolding layout field_bytes
length-layout r tail =
    omega
      (arith, length-append r.name (zeros r.padding ++ tail), length-append (zeros r.padding) tail)

parse_loop-layouts :
    (rs : List Raw) (fuel : ℕ)
    → Every Fits rs
    → length (layouts rs) ≤ fuel
    → parse_loop fuel (layouts rs) ≡ map seen rs
unfolding parse_loop layouts
parse_loop-layouts [] zero h le = refl
parse_loop-layouts [] (suc fuel) h le = refl
parse_loop-layouts (r ∷ rs) zero h le = absurd (omega (arith, length-layout r (layouts rs)))
parse_loop-layouts (r ∷ rs) (suc fuel) h le =
    let tail = layouts rs in
    rw
      (
        le→leb 16 (length (layout r tail)) (omega (arith, length-layout r tail)),
        name_length-layout r tail h.0.3,
        drop-layout r tail,
        event_at-layout r tail h.0,
      )
      (ap (λ es. seen r ∷ es)
        (parse_loop-layouts rs fuel h.1 (omega (arith, length-layout r tail))))

-- A buffer that holds events as the kernel lays them out, whatever the padding of their names, is
-- parsed into exactly these events, in order.
pub parse_inotify_buffer-layouts :
    (rs : List Raw) → Every Fits rs → parse_inotify_buffer (layouts rs) ≡ map seen rs
unfolding parse_inotify_buffer
parse_inotify_buffer-layouts rs h = parse_loop-layouts rs (length (layouts rs)) h (omega arith)
