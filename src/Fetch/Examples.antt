-- ===== src/Fetch/Examples.antt =====
-- Tests of the guard and of the header list, and the theorems at concrete inputs.
use ferrijs.Prelude.{◌==◌, list_eq, nat_eq, ◌≡◌, refl, true, false, [], ◌∷◌, none, some, All}
use ferrijs.Prelude.Result.{ok, is_ok}
use ferrijs.Text.{
  Text, text, to_lower, eq_ignore_ascii_case, trim_start_matches, trim_end_matches, join,
}
use ferrijs.Permissions.Ip.{IpAddr, v4, is_metadata_ip, is_private_ip}
use ferrijs.Fetch.Guard.{NetGuard, Url, IpText, check_url, ip_blocked, resolve}
use ferrijs.Fetch.Guard.Safety.{IsSafe, check_url-IsSafe, resolve_filters}
use ferrijs.Fetch.Headers.{Headers, set, get, named, normalize_value, scan_byte, to_object}

abbrev endpoint : IpAddr
endpoint = v4 (record { o0 = 169; o1 = 254; o2 = 169; o3 = 254 })

abbrev public_ip : IpAddr
public_ip = v4 (record { o0 = 93; o1 = 184; o2 = 216; o3 = 34 })

-- A reader that knows two literals, without brackets.
abbrev literals : IpText
literals = record {
  parse_ip = λ s. elim (s == text "169.254.169.254") [
    | true ↦ some endpoint
    | false ↦ elim (s == text "93.184.216.34") [ true ↦ some public_ip | false ↦ none ]
  ];
  display_ip = λ ip. [];
}

abbrev guard : NetGuard
guard = record { policy = none; block_metadata = true; block_private = false }

abbrev url : Text → Url
url host = record { scheme = text "http"; host_str = some host; port_or_known_default = some 80 }

metadata_url_blocked : is_ok (check_url literals (url (text "169.254.169.254")) guard) ≡ false
unfolding check_url ip_blocked is_metadata_ip is_private_ip
metadata_url_blocked = refl

check_url-IsSafe_example : (host : Text) × IsSafe literals guard (url (text "93.184.216.34")) host
unfolding check_url ip_blocked is_metadata_ip is_private_ip
check_url-IsSafe_example = check_url-IsSafe literals (url (text "93.184.216.34")) guard refl

resolve_filters_example : All (λ ip. ip_blocked ip true false ≡ false) (public_ip ∷ [])
unfolding resolve is_metadata_ip is_private_ip
resolve_filters_example =
    resolve_filters true false (ok (endpoint ∷ public_ip ∷ [])) (public_ip ∷ []) refl

abbrev sample : Headers
sample = record {
  entries = (text "x", text "1") ∷ (text "y", text "2") ∷ (text "X", text "3") ∷ [];
}

set_keeps_place :
    (set (text "x") (text "9") sample).entries ≡ (text "x", text "9") ∷ (text "y", text "2") ∷ []
unfolding set named eq_ignore_ascii_case to_lower
set_keeps_place = refl

to_object_test : to_object sample ≡ (text "x", text "1, 3") ∷ (text "y", text "2") ∷ []
unfolding to_object named eq_ignore_ascii_case to_lower join get
to_object_test = refl

normalize_test : normalize_value (text " a  b\\t ") ≡ text "a b\\t"
unfolding normalize_value scan_byte trim_end_matches trim_start_matches
normalize_test = refl
