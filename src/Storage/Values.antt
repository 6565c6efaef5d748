-- ===== src/Storage/Values.antt =====
-- rohmu/object_storage/base.py: texts and metadata, and the record of a concurrent upload.
use rohmu.Base.{List, Option, ℕ, ◌∷◌, if◌then◌else◌, some, [], bytes_eq, ◌==◌, leb, none}

-- Keys, paths and other texts are lists of character codes.
abbrev pub Text : Type 0
Text = List ℕ

-- Keys and values; `none` stands for None, and a value that is no text stands as the text of it.
abbrev pub Metadata : Type 0
Metadata = List (Text × Option Text)

-- `sanitize_metadata`
unfoldable pub sanitize_metadata : Metadata → Metadata
sanitize_metadata [] = []
sanitize_metadata ((key, none) ∷ metadata) = sanitize_metadata metadata
sanitize_metadata ((key, some value) ∷ metadata) = (key, some value) ∷ sanitize_metadata metadata

-- `d[k] = v`
unfoldable pub set_entry : Text → Option Text → Metadata → Metadata
set_entry key value [] = (key, value) ∷ []
set_entry key value ((k, v) ∷ metadata) =
    if bytes_eq k key then (k, value) ∷ metadata else (k, v) ∷ set_entry key value metadata

-- `ConcurrentUpload`; the dict of tags is in order of insertion.
pub record ConcurrentUpload : Type 0 where
  pub backend : Text
  pub backend_id : Text
  pub key : Text
  pub metadata : Option Metadata
  pub chunks_to_etags : List (ℕ × Text)

-- `chunks_to_etags[number] = etag`
unfoldable pub set_etag : ℕ → Text → List (ℕ × Text) → List (ℕ × Text)
set_etag number etag [] = (number, etag) ∷ []
set_etag number etag ((n, old) ∷ chunks) =
    if n == number then (n, etag) ∷ chunks else (n, old) ∷ set_etag number etag chunks

-- `sorted(..., key=lambda part: part["PartNumber"])`
unfoldable pub insert_part : ℕ × Text → List (ℕ × Text) → List (ℕ × Text)
insert_part part [] = part ∷ []
insert_part part (other ∷ parts) =
    let rest = insert_part part parts in
    if leb part.0 other.0 then part ∷ other ∷ parts else other ∷ rest

unfoldable pub sorted_parts : List (ℕ × Text) → List (ℕ × Text)
sorted_parts [] = []
sorted_parts (part ∷ parts) = insert_part part (sorted_parts parts)
