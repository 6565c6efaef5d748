-- ===== src/S3.antt =====
-- rohmu/object_storage/s3.py: the requests that a transfer sends, the state that its methods work on,
-- and how the exceptions of the client are met. The client and the service behind it are a parameter: a
-- function from a request and a state of the service to a reply and the next state.
pub mod Multipart
pub mod Chunks
pub mod Delivery
pub mod Parts
pub mod Uploads
pub mod Attempts
pub mod Objects
pub mod Concurrent
pub mod Setup
pub mod Order
pub mod Completion
pub mod Fetch
pub mod Deletion
pub mod Listing
use rohmu.Storage.Values.{Metadata, Text}
use rohmu.Storage.{format_key_for_backend}
use rohmu.Storage.Readers.{Reader}
use rohmu.Base.{
  List, Option, ℕ, Method, ◌∷◌, Bool, Bytes, Error, true, None, ok, raise, some, false, err,
  client_error_raised, storage_error, [], if◌then◌else◌, none, ◌==◌, file_not_found_from_storage,
}
use Prim.Native.Nat.{ℕ}

-- The optional arguments of an upload: what stands under `Metadata`, whether `ServerSideEncryption` is
-- given, `ContentType` and `CacheControl`.
pub record UploadArgs : Type 0 where
  pub metadata_arg : Option Metadata
  pub encryption : Bool
  pub content_type : Option Text
  pub cache_control_arg : Option Text

-- The calls of the client, in the order of their keyword arguments in the source; `read_body` is a read
-- from a `StreamingBody`. The last argument of `copy_object` is whether the directive is REPLACE, and
-- that of the requests that end an upload whether the requester pays.
pub data Request : Type 0 where
  head_bucket : Text → Request
  create_bucket : Text → Option Text → Request
  copy_object : Text → Text → Text → Metadata → Bool → Request
  head_object delete_object : Text → Text → Request
  delete_objects : Text → List Text → Request
  list_objects_v2 : Text → Text → Bool → Option Text → Request
  get_object : Text → Text → Option (ℕ × ℕ) → Request
  read_body : ℕ → Request
  put_object : Text → Bytes → Text → UploadArgs → Request
  create_multipart_upload : Text → Text → UploadArgs → Request
  upload_part : Bytes → Text → Text → ℕ → Text → Request
  complete_multipart_upload : Text → Text → List (ℕ × Text) → Text → Bool → Request
  abort_multipart_upload : Text → Text → Text → Bool → Request

-- An entry of `Contents`
pub record Content : Type 0 where
  pub content_key : Text
  pub last_modified : ℕ
  pub content_etag : Text
  pub content_size : ℕ

-- The fields of a response that the code reads; `body` is what a read of a body gives.
pub record Response : Type 0 where
  pub upload_id : Text
  pub etag : Text
  pub metadata_field : Metadata
  pub content_length : ℕ
  pub contents : List Content
  pub common_prefixes : List Text
  pub next_continuation_token : Option Text
  pub body : Bytes

-- A response; a ClientError, with its HTTP status where there is one; or another exception.
pub data Reply : Type 0 where
  answer : Response → Reply
  client_error : Option ℕ → Reply
  failure : Error → Reply

-- What a listing yields: an object, with its metadata if they are asked for, or a prefix.
pub data Item : Type 0 where
  listed_object : Text → ℕ → ℕ → Text → Option Metadata → Item
  listed_prefix : Text → Item

-- What a method does to the world outside: requests and their replies, calls of the notifier and of
-- the caller's progress callbacks, and what a generator yields.
pub data Event : Type 0 where
  exchange : Request → Reply → Event
  object_created : Text → ℕ → Option Metadata → Event
  object_copied : Text → Option Metadata → Event
  object_deleted : Text → Event
  progressed : ℕ → ℕ → Event
  incremented : ℕ → Event
  yielded : Item → Event

-- The state of the service, the file that is read and the one that is written, what the adapter of the
-- progress callback has kept, and the events so far, the newest first.
pub record Session (C : Type 0) : Type 0 where
  pub client : C
  pub source : Reader
  pub target : Bytes
  pub last_progress : ℕ
  pub events : List Event

-- The attributes of a transfer that its methods read
pub record S3Transfer : Type 0 where
  pub bucket_name : Text
  pub prefix : Text
  pub location : Text
  pub multipart_chunk_size : ℕ
  pub encrypted : Bool

-- `format_key_for_backend(key, remove_slash_prefix=True)`
unfoldable pub path_of : S3Transfer → Text → Text
path_of transfer key = format_key_for_backend transfer.prefix key true false

module _ {C : Type 0} where
  unfoldable pub record_event : Event → Method (Session C) None
  record_event event s = (ok tt, record s { events = event ∷ s.events })

  -- `except ClientError`, around one call; other exceptions pass.
  unfoldable pub on_reply :
      (Option ℕ → Method (Session C) Response) → Reply → Method (Session C) Response
  on_reply handler (answer response) s = (ok response, s)
  on_reply handler (client_error status) s = handler status s
  on_reply handler (failure e) s = (err e, s)

  -- The state behind a request, with its exchange among the events.
  abbrev pub exchanged : Request → Reply × C → Session C → Session C
  exchanged request (reply, c) s = record s {
    client = c;
    events = exchange request reply ∷ s.events;
  }

  unfoldable pub try_except :
      (Request → C → Reply × C)
      → Request
      → (Option ℕ → Method (Session C) Response)
      → Method (Session C) Response
  try_except serve request handler s =
      let x = serve request s.client in on_reply handler x.0 (exchanged request x s)

  -- A call that nothing guards.
  abbrev pub uncaught : Option ℕ → Method (Session C) Response
  uncaught status = raise client_error_raised

  -- The handler that tells a missing object from other failures
  unfoldable pub missing_or_failed : Option ℕ → Method (Session C) Response
  missing_or_failed none = raise storage_error
  missing_or_failed (some status) =
      if status == 404 then raise file_not_found_from_storage else raise storage_error
