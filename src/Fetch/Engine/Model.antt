-- ===== src/Fetch/Engine/Model.antt =====
-- crates/ferrijs-fetch/src/model.rs, error.rs and body.rs: what the engine sends and answers, and
-- what it asks of the `url` and `reqwest` crates and of the host.
use ferrijs.Prelude.{ℕ, Bool, true, false, ◌&&◌, List, Option, ltb, leb}
use ferrijs.Prelude.Result.{Result}
use ferrijs.Text.{Text, text}
use ferrijs.Permissions.Allow.{Denied}
use ferrijs.Fetch.Guard
use ferrijs.Fetch.Guard.{NetGuard, GuardError, IpText}
use ferrijs.Fetch.Headers.{Headers}
use ferrijs.Fetch.Cookie
use ferrijs.Fetch.Cookie.{Cookie, Seconds}

pub data RedirectMode : Type 0 where
  follow manual error : RedirectMode

abbrev pub is_manual : RedirectMode → Bool
is_manual RedirectMode.manual = true
is_manual _ = false

abbrev pub is_error : RedirectMode → Bool
is_error RedirectMode.error = true
is_error _ = false

pub data Credentials : Type 0 where
  omit same_origin include : Credentials

pub data ResponseType : Type 0 where
  basic cors opaque opaque_redirect error default : ResponseType

-- `ResponseType::as_str`
unfoldable pub response_type_as_str : ResponseType → Text
response_type_as_str ResponseType.basic = text "basic"
response_type_as_str ResponseType.cors = text "cors"
response_type_as_str ResponseType.opaque = text "opaque"
response_type_as_str ResponseType.opaque_redirect = text "opaqueredirect"
response_type_as_str ResponseType.error = text "error"
response_type_as_str ResponseType.default = text "default"

pub data FetchError : Type 0 where
  network abort timeout redirect_refused blocked invalid_url body bridge : Text → FetchError
  too_many_redirects : ℕ → FetchError
  denied : Denied → FetchError

-- `impl From<GuardError> for FetchError`
unfoldable pub from_guard_error : GuardError → FetchError
from_guard_error (GuardError.denied d) = FetchError.denied d
from_guard_error (GuardError.invalid m) = FetchError.blocked m
from_guard_error (GuardError.blocked m) = FetchError.blocked m

-- `RequestPayload`, which is also what a `Body` is to a request.
pub data RequestPayload : Type 0 where
  empty stream invalid : RequestPayload
  bytes : List ℕ → RequestPayload

-- The `url` crate at a type of URLs: what the guard, the cookies and the loop read of one.
pub record UrlLib (U : Type 0) : Type 0 where
  pub guard_url : U → Guard.Url
  pub cookie_url : U → Cookie.Url
  pub to_text : U → Text
  pub same_origin : U → U → Bool
  pub join : U → Text → Option U
  pub parse : Text → Option Guard.Url

-- One request on the wire.
pub record Sent (U : Type 0) : Type 0 where
  pub url : U
  pub method : Text
  pub headers : Headers
  pub payload : RequestPayload

-- A `reqwest::Response`. A header value that is no text is `none`; names are in lower case.
pub record HttpResponse : Type 0 where
  pub status : ℕ
  pub reason : Option Text
  pub headers : List (Text × Option Text)
  pub remote_addr : Option (Text × ℕ)
  pub peer_certificate : Option (List ℕ)

-- One error of a chain of sources: whether it is a `ConnectionReset`, and its message.
pub record ErrorSource : Type 0 where
  pub connection_reset : Bool
  pub message : Text

-- What comes back from one attempt.
pub data Attempt : Type 0 where
  answered : HttpResponse → Attempt
  failed : List ErrorSource → Text → Attempt

-- `ContextBridge`, whose answers may depend on what was sent and written before.
pub record ContextBridge (U F : Type 0) : Type 0 where
  pub cookies : List (Sent U) → Result Text (List (Cookie F))
  pub add_cookies : List (List (Cookie F)) → List (Cookie F) → Bool

-- The outside of the engine: the transport, the clock and the deadline may depend on all that was
-- sent before.
pub record Env (U F : Type 0) : Type 0 where
  pub lib : UrlLib U
  pub ip : IpText
  pub seconds : Seconds F
  pub now : List (Sent U) → F
  pub late : List (Sent U) → Bool
  pub transport : List (Sent U) → Sent U → Attempt

pub record Request (U : Type 0) : Type 0 where
  pub method : Text
  pub url : U
  pub headers : Headers
  pub body : RequestPayload
  pub redirect : RedirectMode
  pub credentials : Credentials
  pub max_redirects : Option ℕ
  pub max_retries : ℕ
  pub net_guard : Option NetGuard
  pub challenge : Option (U → Option Text)

pub record Response : Type 0 where
  pub status : ℕ
  pub status_text : Text
  pub url : Text
  pub headers : Headers
  pub redirected : Bool
  pub unfollowed_redirect : Bool
  pub server_addr : Option (Text × ℕ)
  pub type_of : ResponseType
  pub peer_certificate : Option (List ℕ)

-- `Response::ok`
unfoldable pub ok_status : Response → Bool
ok_status r = leb 200 r.status && ltb r.status 300
