-- ===== src/Google/Retries.antt =====
-- rohmu/object_storage/google.py: `_retry_on_reset`, and what `_object_client` does with errors. Waiting and
-- reporting are left out.
use rohmu.Base.{
  ℕ, Bool, if◌then◌else◌, Error, ◌==◌, true, leb, Outcome, suc, ◌||◌, false, ◌&&◌, ok, zero,
  file_not_found_from_storage, err, http_error, os_error, transport_error,
}

-- The exceptions that an action can raise, as far as they are told apart: those that are retried as they
-- are, an HttpError with its status, an OSError or a gaierror with its number, and others.
pub data Errno : Type 0 where
  eagain ebadf econnreset other_errno : Errno

pub data Failure : Type 0 where
  incomplete_read socket_timeout ssl_eof broken_pipe : Failure
  http_failure : ℕ → Failure
  os_failure : Errno → Failure
  name_failure : Bool → Failure
  other_failure : Error → Failure

-- A call of the action: what it returns, or the exception.
pub data Result (A : Type 0) : Type 0 where
  returned : A → Result A
  failed : Failure → Result A

-- `ex.resp["status"] in ("429", "500", "502", "503", "504")`
unfoldable pub is_retried_status : ℕ → Bool
is_retried_status status =
    status == 429 || status == 500 || status == 502 || status == 503 || status == 504

-- Whether an exception is retried while retries are left. A gaierror is an OSError whose number is none of
-- the three, so the branch for OSError raises it before the one for unknown names is reached.
unfoldable pub is_retried : Failure → Bool
is_retried incomplete_read = true
is_retried socket_timeout = true
is_retried ssl_eof = true
is_retried broken_pipe = true
is_retried (http_failure status) = is_retried_status status
is_retried (os_failure other_errno) = false
is_retried (os_failure errno) = true
is_retried (name_failure unknown_name) = false
is_retried (other_failure e) = false

module _ {A C : Type 0} (action : C → Result A × C) where
  -- One call, and what follows a failure that is retried
  unfoldable pub after_call : (C → Result A × C) → Result A × C → Result A × C
  after_call again (returned a, c) = (returned a, c)
  after_call again (failed failure, c) = if is_retried failure then again c else (failed failure, c)

  unfoldable pub retry_with : ℕ → C → Result A × C
  retry_with zero c = action c
  retry_with (suc retries) c = after_call (retry_with retries) (action c)

  unfoldable pub retry_on_reset : C → Result A × C
  retry_on_reset c = retry_with 60 c

-- Whether the client and its objects are there
pub record Clients : Type 0 where
  pub gs : Bool
  pub gs_object_client : Bool

-- Statuses have three digits, so that their order as texts is that of the numbers.
unfoldable pub reset_clients : ℕ → Clients → Clients
reset_clients status clients =
    if leb 500 status && leb status 599
    then record { gs = false; gs_object_client = false }
    else clients

-- What `_object_client` makes of the exception of its body; `not_found` is whether a key is given.
unfoldable pub on_client_failure : Bool → Failure → Clients → Error × Clients
on_client_failure not_found (http_failure status) clients =
    if status == 404 && not_found
    then (file_not_found_from_storage, clients)
    else (http_error, reset_clients status clients)
on_client_failure not_found (other_failure e) clients = (e, clients)
on_client_failure not_found (os_failure errno) clients = (os_error, clients)
on_client_failure not_found failure clients = (transport_error, clients)

-- `with self._object_client(..)`, around a body; the client and its objects are made where they are missing.
unfoldable pub client_ended : {A : Type 0} → Bool → Result A → Clients → Outcome A × Clients
client_ended not_found (returned a) clients = (ok a, clients)
client_ended not_found (failed failure) clients =
    let (e, after) = on_client_failure not_found failure clients in (err e, after)

unfoldable pub with_object_client :
    {A C : Type 0} → Bool → (C → Result A × C) → C → Clients → (Outcome A × Clients) × C
with_object_client not_found body c clients =
    let (result, after) = body c in
    let ready : Clients =
      if clients.gs_object_client then clients else record { gs = true; gs_object_client = true } in
    (client_ended not_found result ready, after)
