-- ===== src/Storage/Keys.antt =====
-- rohmu/object_storage/base.py: a key goes to the backend and comes back.
use rohmu.Base.{
  Bytes, ℕ, ◌++◌, ◌≡◌, ◌==◌, ◌∷◌, true, [], ok, ==_refl, false, drop-append, refl, length, sym,
  append_assoc, is_empty, ap, ◌∙◌, Bool, arith, Bool-cases, err, if◌then◌else◌, storage_error, inl,
  inr,
}
use rohmu.Storage.{
  starts_with, rstrip, ends_with_slash, format_key_from_backend, format_key_for_backend, Bytes,
  with_slash, slash, lstrip,
}

starts_with-append : (p k : Bytes) → starts_with p (p ++ k) ≡ true
unfolding starts_with
starts_with-append [] k = refl
starts_with-append (c ∷ p) k = rw (==_refl c) (starts_with-append p k)

is_empty-snoc : (xs : Bytes) (c : ℕ) → is_empty (xs ++ c ∷ []) ≡ false
is_empty-snoc [] c = refl
is_empty-snoc (x ∷ xs) c = refl

rstrip-snoc : (xs : Bytes) (c : ℕ) → (c == slash) ≡ false → rstrip (xs ++ c ∷ []) ≡ xs ++ c ∷ []
unfolding rstrip
rstrip-snoc [] c h = rw h refl
rstrip-snoc (x ∷ xs) c h = rw (rstrip-snoc xs c h, is_empty-snoc xs c) refl

ends_with_slash-snoc : (xs : Bytes) (c : ℕ) → ends_with_slash (xs ++ c ∷ []) ≡ (c == slash)
unfolding ends_with_slash
ends_with_slash-snoc [] c = refl
ends_with_slash-snoc (x ∷ []) c = refl
ends_with_slash-snoc (x ∷ y ∷ xs) c = ends_with_slash-snoc (y ∷ xs) c

with_slash-snoc :
    (xs : Bytes) (c : ℕ)
    → (c == slash) ≡ false
    → with_slash (xs ++ c ∷ []) ≡ (xs ++ c ∷ []) ++ slash ∷ []
unfolding with_slash
with_slash-snoc xs c h = rw (ends_with_slash-snoc xs c, h) refl

from_backend-append : (prefix key : Bytes) → format_key_from_backend prefix (prefix ++ key) ≡ ok key
unfolding format_key_from_backend
from_backend-append [] key = refl
from_backend-append (c ∷ prefix) key =
    rw
      (starts_with-append (c ∷ prefix) key, drop-append (length (c ∷ prefix)) (c ∷ prefix) key refl)
      refl

-- The slash is 47.
lstrip-kept : (xs : Bytes) → starts_with (slash ∷ []) xs ≡ false → lstrip xs ≡ xs
unfolding lstrip starts_with
lstrip-kept [] h = refl
lstrip-kept (x ∷ xs) h = ground (arith, h)

lstrip-starts : (prefix xs : Bytes) → starts_with (slash ∷ prefix) (lstrip xs) ≡ false
unfolding lstrip starts_with
lstrip-starts prefix [] = refl
lstrip-starts prefix (x ∷ xs) = elim (Bool-cases (x == slash)) [
  | inl e ↦ rw e (lstrip-starts prefix xs)
  | inr e ↦ ground (arith, e)
]

starts-append :
    (xs : Bytes) (c : ℕ) (ys : Bytes)
    → starts_with (slash ∷ []) (xs ++ c ∷ []) ≡ false
    → starts_with (slash ∷ []) ((xs ++ c ∷ []) ++ ys) ≡ false
unfolding starts_with
starts-append [] c ys h = h
starts-append (x ∷ xs) c ys h = h

-- `remove_slash_prefix` takes nothing from a path that does not begin with a slash.
removed :
    (remove_slash_prefix : Bool) (path : Bytes)
    → (remove_slash_prefix ≡ true → starts_with (slash ∷ []) path ≡ false)
    → (if remove_slash_prefix then lstrip path else path) ≡ path
removed true path h = lstrip-kept path (h refl)
removed false path h = refl

-- A key that is not empty and does not end in a slash is sent to the backend and comes back as it was; sent
-- with a trailing slash, it comes back with that slash behind it. With `remove_slash_prefix`, this is so
-- where the prefix and the key together do not begin with a slash.
pub format_key_roundtrip :
    (prefix front : Bytes) (last : ℕ) (remove_slash_prefix : Bool)
    → (last == slash) ≡ false
    → (remove_slash_prefix ≡ true
        → starts_with (slash ∷ []) (prefix ++ (front ++ last ∷ [])) ≡ false)
    → (format_key_from_backend prefix
          (format_key_for_backend prefix (front ++ last ∷ []) remove_slash_prefix false)
        ≡ ok (front ++ last ∷ []))
      × (format_key_from_backend prefix
            (format_key_for_backend prefix (front ++ last ∷ []) remove_slash_prefix true)
          ≡ ok ((front ++ last ∷ []) ++ slash ∷ []))
unfolding format_key_for_backend
format_key_roundtrip prefix front last remove_slash_prefix h bare_start =
    let key = front ++ last ∷ [] in
    let path : prefix ++ key ≡ (prefix ++ front) ++ last ∷ [] =
      sym (append_assoc prefix front (last ∷ [])) in
    let bare : rstrip (prefix ++ key) ≡ prefix ++ key =
      ap rstrip path ∙ rstrip-snoc (prefix ++ front) last h ∙ sym path in
    let slashed : with_slash (prefix ++ key) ≡ prefix ++ (key ++ slash ∷ []) =
      ap with_slash path
      ∙ with_slash-snoc (prefix ++ front) last h
      ∙ ap (λ t. t ++ slash ∷ []) (sym path)
      ∙ append_assoc prefix key (slash ∷ []) in
    let sent = λ (t : Bytes). if remove_slash_prefix then lstrip t else t in
    (
      ap (λ t. format_key_from_backend prefix (sent t)) bare
          ∙ ap (format_key_from_backend prefix)
              (removed remove_slash_prefix (prefix ++ key) bare_start)
          ∙ from_backend-append prefix key,
      ap (λ t. format_key_from_backend prefix (sent t)) slashed
          ∙ ap (format_key_from_backend prefix) (
              removed remove_slash_prefix (prefix ++ (key ++ slash ∷ [])) (λ e.
                ap (starts_with (slash ∷ []))
                  (sym (append_assoc prefix key (slash ∷ [])) ∙ ap (λ t. t ++ slash ∷ []) path)
                ∙ starts-append (prefix ++ front) last (slash ∷ [])
                    (ap (starts_with (slash ∷ [])) (sym path) ∙ bare_start e)))
          ∙ from_backend-append prefix (key ++ slash ∷ []),
    )

-- Under a prefix that begins with a slash, what a key is sent as with `remove_slash_prefix` is refused with a
-- StorageError when it comes back, whatever the key, with a trailing slash or without.
pub format_key_refused :
    (prefix key : Bytes) (trailing_slash : Bool)
    → format_key_from_backend
        (slash ∷ prefix)
        (format_key_for_backend (slash ∷ prefix) key true trailing_slash)
      ≡ err storage_error
unfolding format_key_for_backend format_key_from_backend
format_key_refused prefix key trailing_slash =
    let path = slash ∷ prefix ++ key in
    let sent = if trailing_slash then with_slash path else rstrip path in
    rw (lstrip-starts prefix sent) refl
