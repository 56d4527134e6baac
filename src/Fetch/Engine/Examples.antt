-- ===== src/Fetch/Engine/Examples.antt =====
-- Tests of the engine, and the theorems at concrete inputs. A URL is one of three: 0 and 1 are of
-- one origin, 2 is of another. Each URL answers in one way.
use ferrijs.Prelude.{
  ℕ, zero, suc, ◌+◌, ◌*◌, ◌≤◌, ◌≡◌, refl, Bool, true, false, List, [], ◌∷◌, ◌++◌, Option, none,
  some, if◌then◌else◌, ◌==◌, list_eq, nat_eq, All, length, ltb, arith,
}
use ferrijs.Prelude.Result.{Result, ok}
use ferrijs.Text.{
  Text, text, to_ascii_lowercase, to_lower, eq_ignore_ascii_case, trim_start_matches, is_whitespace,
}
use ferrijs.Fetch.Guard.{is_active, preflight, check_url, NetGuard, IpText}
use ferrijs.Fetch.Guard.Safety.{IsSafe}
use ferrijs.Fetch.Headers.{set, remove, named, get_all, contains_name}
use ferrijs.Fetch.Cookie.{Seconds}
use ferrijs.Fetch.Engine.Model.{
  RedirectMode, Credentials, FetchError, RequestPayload, ResponseType, UrlLib, Sent, Attempt, Env,
  Request, Response,
}
use ferrijs.Fetch.Engine.Hop.{
  World, Cookies, is_reset_message, retry_backoff, follow_budget, hop_headers, send_hop,
  challenge_answer, redirect_target, store_set_cookies, rewrites_to_get, rewrite_headers,
}
use ferrijs.Fetch.Engine.Pool.{ClientPool, builds, standalone, guard_filter, client}
use ferrijs.Fetch.Engine.Send.{send, enough, round, redirected}
use ferrijs.Fetch.Engine.Kept.{authorization, cookie_name}
use ferrijs.Fetch.Engine.Bounds.{send_ends}
use ferrijs.Fetch.Engine.Safety.{send_guarded, send_omit, send-IsOwn, IsOwn}
use ferrijs.Fetch.Engine.Redirects.{send-IsHonest, IsHonest}
use ferrijs.Fetch.Engine.Streams.{send-streams, streams}
use ferrijs.Fetch.Engine.Pool.Keeps.{Answers, key_of, client-Keeps, standalone-Keeps}

reset_message : is_reset_message (text "ECONNRESET") ≡ true
unfolding is_reset_message to_ascii_lowercase to_lower
reset_message = refl

closed_message : is_reset_message (text "404 Not Found") ≡ false
unfolding is_reset_message to_ascii_lowercase to_lower
closed_message = refl

first_backoff : retry_backoff 1 ≡ 250
unfolding retry_backoff
first_backoff = refl

saturated_backoff : retry_backoff 64 ≡ 18446744073709551615
unfolding retry_backoff
saturated_backoff = refl

abbrev host : ℕ → Text
host (suc (suc u)) = text "b"
host _ = text "a"

abbrev origin : ℕ → ℕ
origin (suc (suc u)) = 1
origin _ = 0

abbrev lib : UrlLib ℕ
lib = record {
  guard_url = λ u. record {
    scheme = text "http";
    host_str = some (host u);
    port_or_known_default = some 80;
  };
  cookie_url = λ u. record { scheme = text "http"; host_str = some (host u); path = text "/" };
  to_text = λ u. text "http://" ++ host u;
  same_origin = λ u v. origin u == origin v;
  join = λ u location.
      if location == text "1" then some 1 else if location == text "2" then some 2 else none;
  parse = λ s. some (record {
    scheme = text "http";
    host_str = some (text "a");
    port_or_known_default = some 80;
  });
}

abbrev clock : Seconds ℕ
clock = record {
  ge_zero = λ s. true;
  lt = ltb;
  min = λ s t. s;
  add = λ s t. s + t;
  from_u32 = λ s. s;
  max_cookie_expires = 253402300799;
  parse_http_date = λ s. none;
}

abbrev no_literals : IpText
no_literals = record { parse_ip = λ s. none; display_ip = λ ip. [] }

abbrev answer : ℕ → List (Text × Option Text) → Attempt
answer status headers = Attempt.answered (record {
  status = status;
  reason = none;
  headers = headers;
  remote_addr = none;
  peer_certificate = none;
})

-- 0 challenges, then points at 2; 1 resets the connection; 2 answers.
abbrev serve : ℕ → Bool → Attempt
serve zero true = answer 302 ((text "location", some (text "2")) ∷ [])
serve zero false = answer 401 ((text "www-authenticate", some (text "Basic realm=x")) ∷ [])
serve (suc zero) authorized =
    Attempt.failed (record { connection_reset = true; message = [] } ∷ []) (text "reset")
serve (suc (suc u)) authorized = answer 200 []

abbrev env : Env ℕ ℕ
env = record {
  lib = lib;
  ip = no_literals;
  seconds = clock;
  now = λ log. 0;
  late = λ log. false;
  transport = λ log sent. serve sent.url (contains_name authorization sent.headers);
}

abbrev guard : NetGuard
guard = record { policy = none; block_metadata = true; block_private = false }

abbrev request : Request ℕ
request = record {
  method = text "POST";
  url = 0;
  headers = record { entries = [] };
  body = RequestPayload.bytes (1 ∷ []);
  redirect = RedirectMode.follow;
  credentials = Credentials.omit;
  max_redirects = none;
  max_retries = 2;
  net_guard = some guard;
  challenge = some (λ u. some (text "Basic eA=="));
}

abbrev world : World ℕ ℕ
world = record { jar_cookies = []; written = []; log = [] }

abbrev jar : Option (Cookies ℕ ℕ)
jar = some Cookies.jar

abbrev any_client : Result FetchError (Unit {0})
any_client = ok tt

abbrev first : Sent ℕ
first = record {
  url = 0;
  method = text "POST";
  headers = record { entries = [] };
  payload = RequestPayload.bytes (1 ∷ []);
}

-- The request with its authorization, and the one to the other origin without it.
abbrev after : World ℕ ℕ
after = record {
  jar_cookies = [];
  written = [];
  log =
      first
      ∷ record first { headers = record { entries = (authorization, text "Basic eA==") ∷ [] } }
      ∷ record first { url = 2; method = text "GET"; payload = RequestPayload.empty }
      ∷ [];
}

abbrev response : Response
response = record {
  status = 200;
  status_text = text "Unknown";
  url = text "http://b";
  headers = record { entries = [] };
  redirected = true;
  unfollowed_redirect = false;
  server_addr = none;
  type_of = ResponseType.basic;
  peer_certificate = none;
}

sent : send env jar request any_client world ≡ some (after, ok response)
unfolding send is_active preflight check_url contains_name eq_ignore_ascii_case to_ascii_lowercase
    to_lower follow_budget round hop_headers send_hop remove challenge_answer trim_start_matches
    is_whitespace set named redirect_target redirected store_set_cookies rewrites_to_get
    rewrite_headers
sent = refl

-- The same with redirects left to the caller.
abbrev manual_request : Request ℕ
manual_request = record request { redirect = RedirectMode.manual }

abbrev manual_after : World ℕ ℕ
manual_after = record {
  jar_cookies = [];
  written = [];
  log =
      first
      ∷ record first { headers = record { entries = (authorization, text "Basic eA==") ∷ [] } }
      ∷ [];
}

abbrev unfollowed : Response
unfollowed = record {
  status = 302;
  status_text = text "Unknown";
  url = text "http://a";
  headers = record { entries = (text "location", text "2") ∷ [] };
  redirected = false;
  unfollowed_redirect = true;
  server_addr = none;
  type_of = ResponseType.opaque_redirect;
  peer_certificate = none;
}

manual_sent : send env jar manual_request any_client world ≡ some (manual_after, ok unfollowed)
unfolding send is_active preflight check_url contains_name eq_ignore_ascii_case to_ascii_lowercase
    to_lower follow_budget round hop_headers send_hop remove challenge_answer trim_start_matches
    is_whitespace set named redirect_target redirected store_set_cookies rewrites_to_get
    rewrite_headers
manual_sent = refl

send_ends_example :
    (w : World ℕ ℕ) × (r : Result FetchError Response) × (send env jar request any_client world
      ≡ some (w, r))
    × (length w.log ≤ 0 + enough env jar request * 3)
send_ends_example = send_ends env jar request any_client world

send_guarded_example :
    (more : List (Sent ℕ)) × (after.log ≡ [] ++ more)
    × All (λ x. (host : Text) × IsSafe no_literals guard (lib.guard_url x.url) host) more
unfolding is_active
send_guarded_example =
    send_guarded env jar request any_client world after (ok response) guard refl refl sent

send_omit_example :
    (more : List (Sent ℕ)) × (after.log ≡ [] ++ more)
    × All (λ x. get_all cookie_name x.headers ≡ []) more
send_omit_example = send_omit env jar request any_client world after (ok response) refl sent

same_origin_transitive :
    (a b c : ℕ)
    → lib.same_origin a b ≡ true
    → lib.same_origin b c ≡ true
    → lib.same_origin a c ≡ true
same_origin_transitive a b c h k = ground arith

send-IsOwn_example :
    (more : List (Sent ℕ)) × (after.log ≡ [] ++ more)
    × All (λ x. IsOwn env jar request x.url (get_all authorization x.headers)) more
send-IsOwn_example =
    send-IsOwn env jar request same_origin_transitive any_client world after (ok response) sent

send-IsHonest_example : IsHonest env jar manual_request unfollowed
send-IsHonest_example =
    send-IsHonest env jar manual_request any_client world manual_after unfollowed manual_sent

send-streams_example : streams after.log ≤ 0 + 0
send-streams_example = send-streams env jar request any_client world after (ok response) sent

-- A proxy is a number, and so is its transport.
abbrev to_transport : ℕ → Result FetchError ℕ
to_transport p = ok p

abbrev pool : ClientPool ℕ ℕ
pool = standalone false

client-Keeps_example :
    Answers to_transport false
      (key_of true (guard_filter (some guard)))
      pool
      (client to_transport builds true (some guard) pool)
client-Keeps_example =
    client-Keeps to_transport false builds true (some guard) pool
      (standalone-Keeps to_transport false)
