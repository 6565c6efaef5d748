-- ===== src/S3/Setup.antt =====
-- rohmu/object_storage/s3.py: how a transfer is made. What it gives to the client's constructor is
-- recorded; texts are lists of character codes.
use rohmu.Storage.{kept_prefix, slash}
use rohmu.S3.Multipart.{truthy}
use rohmu.Base.{
  Option, Outcome, Bool, err, ℕ, ok, none, some, ◌∷◌, [], ◌++◌, key_error, value_error, Method, suc,
  diverge, if◌then◌else◌, bytes_eq, not, is_empty, zero, true, ◌||◌, ◌&&◌, raise, None, ◌>>=◌,
  false, client_error_raised, pure, loop_forever, ◌==◌, invalid_configuration,
}
use rohmu.S3.{
  Request, S3Transfer, Reply, Session, head_bucket, answer, exchanged, try_except, client_error,
  create_bucket, failure, uncaught, Text,
}

-- "http", "https", "socks5", "socks5h", "us-east-1", "s3" and "s3v4"
abbrev pub http : Text
http = 104 ∷ 116 ∷ 116 ∷ 112 ∷ []

abbrev pub https : Text
https = 104 ∷ 116 ∷ 116 ∷ 112 ∷ 115 ∷ []

abbrev pub socks5 : Text
socks5 = 115 ∷ 111 ∷ 99 ∷ 107 ∷ 115 ∷ 53 ∷ []

abbrev pub socks5h : Text
socks5h = 115 ∷ 111 ∷ 99 ∷ 107 ∷ 115 ∷ 53 ∷ 104 ∷ []

abbrev pub us_east_1 : Text
us_east_1 = 117 ∷ 115 ∷ 45 ∷ 101 ∷ 97 ∷ 115 ∷ 116 ∷ 45 ∷ 49 ∷ []

abbrev pub s3 : Text
s3 = 115 ∷ 51 ∷ []

abbrev pub s3v4 : Text
s3v4 = 115 ∷ 51 ∷ 118 ∷ 52 ∷ []

-- The entries of `proxy_info`; a port is the text of it.
pub record ProxyInfo : Type 0 where
  pub user : Option Text
  pub pass : Option Text
  pub proxy_host : Option Text
  pub proxy_port : Option Text
  pub type : Option Text

-- `f"{username}:{password}@"` where both are given; ":" is 58 and "@" is 64.
unfoldable pub proxy_auth : Option Text → Option Text → Text
proxy_auth (some (u ∷ username)) (some (p ∷ password)) =
    (u ∷ username) ++ 58 ∷ (p ∷ password) ++ 64 ∷ []
proxy_auth username password = []

unfoldable pub proxy_schema : Option Text → Text
proxy_schema none = http
proxy_schema (some type) = if bytes_eq type socks5 || bytes_eq type socks5h then type else http

-- `f"{schema}://{auth}{host}:{port}"`; the host is looked up before the port.
unfoldable pub proxy_address : Text → Text → Option Text → Option Text → Outcome Text
proxy_address schema auth none port = err key_error
proxy_address schema auth (some host) none = err key_error
proxy_address schema auth (some host) (some port) =
    ok (schema ++ 58 ∷ slash ∷ slash ∷ auth ++ host ++ 58 ∷ port)

unfoldable pub get_proxy_url : ProxyInfo → Outcome Text
get_proxy_url proxy_info =
    proxy_address (proxy_schema proxy_info.type) (proxy_auth proxy_info.user proxy_info.pass)
      proxy_info.proxy_host proxy_info.proxy_port

-- `S3AddressingStyle`, of rohmu/object_storage/config.py
pub data S3AddressingStyle : Type 0 where
  auto path virtual : S3AddressingStyle

-- What `verify` is: the path of a certificate, or a Boolean
pub data Verify : Type 0 where
  verify_with : Text → Verify
  verify_if : Bool → Verify

-- What the client is made with; `style` and `signature_version` are none where they are not given, and
-- an endpoint, where there is one, comes with `verify`.
pub record ClientSettings : Type 0 where
  pub proxy_url : Option Text
  pub connect_timeout : Option ℕ
  pub read_timeout : Option ℕ
  pub style : Option S3AddressingStyle
  pub signature_version : Option Text
  pub endpoint : Option (Text × Verify)
  pub region_name : Text

-- The arguments of `__init__`; timeouts are in a unit of the caller's.
pub record S3Args : Type 0 where
  pub region : Text
  pub bucket : Text
  pub key_prefix : Option Text
  pub host : Option Text
  pub port : Option Text
  pub addressing_style : S3AddressingStyle
  pub is_secure : Bool
  pub is_verify_tls : Bool
  pub cert_path : Option Text
  pub segment_size : ℕ
  pub encrypt : Bool
  pub proxy_info : Option ProxyInfo
  pub connect_timeout_arg : Option ℕ
  pub read_timeout_arg : Option ℕ

-- `if connect_timeout:`
unfoldable pub nonzero_timeout : Option ℕ → Option ℕ
nonzero_timeout none = none
nonzero_timeout (some zero) = none
nonzero_timeout (some (suc n)) = some (suc n)

unfoldable pub optional_proxy : Option ProxyInfo → Outcome (Option Text)
optional_proxy none = ok none
optional_proxy (some proxy_info) = elim (get_proxy_url proxy_info) [
  | ok url ↦ ok (some url)
  | err e ↦ err e
  | diverge ↦ diverge
]

-- The client of Amazon's own service, and the location
unfoldable pub default_client : S3Args → Option Text → ClientSettings × Text
default_client args proxy = (
  record {
    proxy_url = proxy;
    connect_timeout = nonzero_timeout args.connect_timeout_arg;
    read_timeout = nonzero_timeout args.read_timeout_arg;
    style = none;
    signature_version = none;
    endpoint = none;
    region_name = args.region;
  },
  if not (is_empty args.region) && not (bytes_eq args.region us_east_1) then args.region else [],
)

unfoldable pub verify_of : Bool → Option Text → Outcome Verify
verify_of is_verify_tls none = ok (verify_if is_verify_tls)
verify_of true (some cert_path) = ok (verify_with cert_path)
verify_of false (some cert_path) = err value_error

-- The client of a service at a host, and the location
unfoldable pub custom_client : S3Args → Text → Text → Option Text → Verify → ClientSettings × Text
custom_client args host port proxy verify = (
  record {
    proxy_url = proxy;
    connect_timeout = nonzero_timeout args.connect_timeout_arg;
    read_timeout = nonzero_timeout args.read_timeout_arg;
    style = some args.addressing_style;
    signature_version = some (if is_empty args.region then s3 else s3v4);
    endpoint = some (
      (if args.is_secure then https else http) ++ 58 ∷ slash ∷ slash ∷ host ++ 58 ∷ port,
      verify,
    );
    region_name = args.region;
  },
  args.region,
)

unfoldable pub with_verify :
    (Verify → ClientSettings × Text) → Outcome Verify → Outcome (ClientSettings × Text)
with_verify client (ok verify) = ok (client verify)
with_verify client (err e) = err e
with_verify client diverge = diverge

-- `if not host or not port`, with the proxy
unfoldable pub client_for :
    S3Args → Option Text → Option Text → Option Text → Outcome (ClientSettings × Text)
client_for args none port proxy = ok (default_client args proxy)
client_for args (some host) none proxy = ok (default_client args proxy)
client_for args (some host) (some port) proxy =
    with_verify (custom_client args host port proxy) (verify_of args.is_verify_tls args.cert_path)

unfoldable pub client_with : S3Args → Outcome (Option Text) → Outcome (ClientSettings × Text)
client_with args (ok proxy) = client_for args (truthy args.host) (truthy args.port) proxy
client_with args (err e) = err e
client_with args diverge = diverge

unfoldable pub client_settings : S3Args → Outcome (ClientSettings × Text)
client_settings args = client_with args (optional_proxy args.proxy_info)

unfoldable pub transfer_at : S3Args → Text → S3Transfer
transfer_at args location = record {
  bucket_name = args.bucket;
  prefix = kept_prefix args.key_prefix;
  location = location;
  multipart_chunk_size = args.segment_size;
  encrypted = args.encrypt;
}

module _ {C : Type 0} (serve : Request → C → Reply × C) where
  -- What the status of a failed check asks for: nothing, or that the bucket is made.
  unfoldable pub on_bucket_status : Option ℕ → Method (Session C) Bool
  on_bucket_status none = raise client_error_raised
  on_bucket_status (some status) =
      if status == 301
      then raise invalid_configuration
      else if status == 403
      then pure false
      else if status == 400 || status == 404
      then pure true
      else raise client_error_raised

  unfoldable pub on_bucket_reply : Reply → Method (Session C) Bool
  on_bucket_reply (answer response) = pure false
  on_bucket_reply (client_error status) = on_bucket_status status
  on_bucket_reply (failure e) = raise e

  unfoldable pub head_bucket_check : Text → Method (Session C) Bool
  head_bucket_check bucket s =
      let x = serve (head_bucket bucket) s.client in
      on_bucket_reply x.0 (exchanged (head_bucket bucket) x s)

  -- `if create_bucket:`; an empty location is not given.
  unfoldable pub create_if : S3Transfer → Bool → Method (Session C) None
  create_if transfer false = pure tt
  create_if transfer true =
      try_except serve (create_bucket transfer.bucket_name (truthy (some transfer.location)))
        uncaught
      >>= λ _. pure tt

  unfoldable pub check_or_create_bucket : S3Transfer → Method (Session C) None
  check_or_create_bucket transfer =
      head_bucket_check transfer.bucket_name >>= λ wanted. create_if transfer wanted

  -- `__init__`: the settings of the client, and the transfer, once its bucket has been checked.
  unfoldable pub with_client :
      S3Args → Outcome (ClientSettings × Text) → Method (Session C) (ClientSettings × S3Transfer)
  with_client args (ok (settings, location)) =
      check_or_create_bucket (transfer_at args location) >>= λ _.
      pure (settings, transfer_at args location)
  with_client args (err e) = raise e
  with_client args diverge = loop_forever

  unfoldable pub new_transfer : S3Args → Method (Session C) (ClientSettings × S3Transfer)
  new_transfer args = with_client args (client_settings args)
