-- ===== src/S3/Listing.antt =====
-- rohmu/object_storage/s3.py: what `iter_key` yields when no metadata are asked for.
use rohmu.S3.Multipart.{truthy}
use rohmu.S3.Objects.{rstrip_quotes, lstrip_quotes}
use rohmu.S3.{
  Request, Event, Reply, Item, S3Transfer, Content, listed_prefix, Response, Session, listed_object,
  yielded, list_objects_v2, answer, format_key_for_backend, Text,
}
use rohmu.Storage.{starts_with, rstrip, format_key_for_backend}
use rohmu.Base.{
  List, ◌∷◌, ◌≡◌, Bool, true, map, Every, Option, Outcome, ◌++◌, ok, drop, None, [], length, not,
  none, some,
}

-- What a generator has yielded, in order
unfoldable pub yields : List Event → List Item
yields [] = []
yields (yielded item ∷ events) = yields events ++ item ∷ []
yields (event ∷ events) = yields events

module _ (transfer : S3Transfer) where
  -- What a page of a listing stands for
  unfoldable pub object_of : Content → Item
  object_of item =
      listed_object (drop (length transfer.prefix) item.content_key) item.content_size
        item.last_modified (rstrip_quotes (lstrip_quotes item.content_etag)) none

  unfoldable pub prefix_of : Text → Item
  prefix_of common_prefix = listed_prefix (rstrip (drop (length transfer.prefix) common_prefix))

  unfoldable pub items_of : List Response → List Item
  items_of [] = []
  items_of (page ∷ pages) =
      map object_of page.contents ++ map prefix_of page.common_prefixes ++ items_of pages

module _ {C : Type 0} (serve : Request → C → Reply × C) (transfer : S3Transfer) where
  -- The service answers a listing with these pages: each but the last has a token, with which the next
  -- one is asked for, and all keys in them have the prefix of the transfer.
  abbrev pub Prefixed : Response → Type 0
  Prefixed page =
      Every (λ (item : Content). starts_with transfer.prefix item.content_key ≡ true) page.contents
      × Every (λ key. starts_with transfer.prefix key ≡ true) page.common_prefixes

  abbrev pub Lists : Text → Bool → List Response → Option Text → C → Type 0
  Lists path deep [] token c = ⊥
  Lists path deep (page ∷ []) token c =
      (d : C) × (serve (list_objects_v2 transfer.bucket_name path (not deep) (truthy token)) c
        ≡ (answer page, d))
      × Prefixed page
      × (page.next_continuation_token ≡ none)
  Lists path deep (page ∷ next ∷ pages) token c =
      (d : C) × (after : Text) × (serve
          (list_objects_v2 transfer.bucket_name path (not deep) (truthy token)) c
        ≡ (answer page, d))
      × Prefixed page
      × (page.next_continuation_token ≡ some after)
      × Lists path deep (next ∷ pages) (some after) d

  -- A call that returned, with these items yielded, and has sent nothing.
  abbrev Yields : Session C → List Item → Outcome None × Session C → Type 0
  Yields s items x =
      (x.0 ≡ ok tt) × (yields x.1.events ≡ yields s.events ++ items) × (x.1.client ≡ s.client)
