-- ===== src/Storage.antt =====
-- rohmu/object_storage/base.py: the keys of a transfer under its prefix, the adapters of progress
-- callbacks, the choice of a multipart upload, and what is built on the operations of a storage.
pub mod Keys
pub mod Callbacks
pub mod Readers
pub mod Values
use rohmu.Base.{
  ℕ, Bytes, Option, List, Bool, ◌∷◌, [], if◌then◌else◌, Outcome, ◌+◌, Method, false, is_empty, ◌==◌,
  ◌++◌, true, ltb, None, ok, ◌>>=◌, some, ◌&&◌, drop, ◌-◌, err, none, length, invalid_byte_range,
  suc, storage_error, zero,
}

-- Keys are lists of character codes; "/" is 47.
abbrev pub slash : ℕ
slash = 47

unfoldable pub ends_with_slash : Bytes → Bool
ends_with_slash [] = false
ends_with_slash (c ∷ []) = c == slash
ends_with_slash (c ∷ d ∷ cs) = ends_with_slash (d ∷ cs)

-- `path.rstrip("/")`
unfoldable pub rstrip : Bytes → Bytes
rstrip [] = []
rstrip (c ∷ cs) = let rest = rstrip cs in if is_empty rest && c == slash then [] else c ∷ rest

-- `path.lstrip("/")`
unfoldable pub lstrip : Bytes → Bytes
lstrip [] = []
lstrip (c ∷ cs) = let rest = lstrip cs in if c == slash then rest else c ∷ cs

-- The prefix that `__init__` keeps
unfoldable pub kept_prefix : Option Bytes → Bytes
kept_prefix none = []
kept_prefix (some []) = []
kept_prefix (some (c ∷ cs)) = if ends_with_slash (c ∷ cs) then c ∷ cs else (c ∷ cs) ++ slash ∷ []

unfoldable pub with_slash : Bytes → Bytes
with_slash path = if ends_with_slash path then path else path ++ slash ∷ []

unfoldable pub format_key_for_backend : Bytes → Bytes → Bool → Bool → Bytes
format_key_for_backend prefix key remove_slash_prefix trailing_slash =
    let path = if trailing_slash then with_slash (prefix ++ key) else rstrip (prefix ++ key) in
    if remove_slash_prefix then lstrip path else path

unfoldable pub starts_with : Bytes → Bytes → Bool
starts_with [] key = true
starts_with (p ∷ ps) [] = false
starts_with (p ∷ ps) (c ∷ cs) = p == c && starts_with ps cs

unfoldable pub format_key_from_backend : Bytes → Bytes → Outcome Bytes
format_key_from_backend prefix key =
    if is_empty prefix
    then ok key
    else if starts_with prefix key
    then ok (drop (length prefix) key)
    else err storage_error

-- `_incremental_to_proportional_progress`: a call with an increment, from what has been counted; and
-- what the callback is given, beside the size.
unfoldable pub to_proportional : ℕ → ℕ → ℕ × ℕ
to_proportional increment progress_so_far =
    (progress_so_far + increment, progress_so_far + increment)

-- `_proportional_to_incremental_progress`: a call with the progress, from the last one; and what the
-- callback is given, if it is called.
unfoldable pub to_incremental : ℕ → ℕ → Option ℕ × ℕ
to_incremental progress last_progress =
    if ltb last_progress progress
    then (some (progress - last_progress), progress)
    else (none, last_progress)

-- `_should_multipart`; `size` is the Content-Length and `empty` what `file_object_is_empty` says.
unfoldable pub should_multipart : Option ℕ → Bool → ℕ → Option Bool → Bool → Bool
should_multipart none true chunk_size multipart default = false
should_multipart none false chunk_size (some multipart) default = multipart
should_multipart none false chunk_size none default = default
should_multipart (some zero) empty chunk_size multipart default = false
should_multipart (some (suc n)) empty chunk_size (some multipart) default = multipart
should_multipart (some (suc n)) empty chunk_size none default = ltb chunk_size (suc n)

unfoldable pub validate_byte_range : Option (ℕ × ℕ) → Outcome None
validate_byte_range none = ok tt
validate_byte_range (some (first, last)) = if ltb last first then err invalid_byte_range else ok tt

-- What a listing yields.
pub data IterKeyItem : Type 0 where
  object_item prefix_item : Bytes → IterKeyItem

-- The names of `list_iter` and of `iter_prefixes`
unfoldable pub list_iter : List IterKeyItem → List Bytes
list_iter [] = []
list_iter (object_item name ∷ items) = name ∷ list_iter items
list_iter (prefix_item name ∷ items) = list_iter items

unfoldable pub iter_prefixes : List IterKeyItem → List Bytes
iter_prefixes [] = []
iter_prefixes (object_item name ∷ items) = iter_prefixes items
iter_prefixes (prefix_item name ∷ items) = name ∷ iter_prefixes items

module _ {S : Type 0} (delete_key : Bytes → Method S None) where
  unfoldable pub delete_keys : List Bytes → Method S None
  delete_keys [] s = (ok tt, s)
  delete_keys (key ∷ keys) s = (delete_key key >>= λ _. delete_keys keys) s

  -- `delete_tree`, over what a deep listing of the key gives
  unfoldable pub delete_tree : Method S (List IterKeyItem) → Method S None
  delete_tree iter_key s = (iter_key >>= λ items. delete_keys (list_iter items)) s
