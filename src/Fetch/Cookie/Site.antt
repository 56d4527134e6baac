-- ===== src/Fetch/Cookie/Site.antt =====
-- `SameSite` of crates/ferrijs-fetch/src/cookie.rs and its two conversions.
use ferrijs.Prelude.{◌==◌, list_eq, nat_eq, if◌then◌else◌}
use ferrijs.Prelude.Result.{Result, ok, err}
use ferrijs.Text.{Text, text}

pub data SameSite : Type 0 where
  strict lax none : SameSite

unfoldable pub same_site_as_str : SameSite → Text
same_site_as_str SameSite.strict = text "Strict"
same_site_as_str SameSite.lax = text "Lax"
same_site_as_str SameSite.none = text "None"

-- `impl FromStr for SameSite`
unfoldable pub same_site_from_str : Text → Result (Unit {0}) SameSite
same_site_from_str s =
    if s == text "Strict"
    then ok SameSite.strict
    else if s == text "Lax"
    then ok SameSite.lax
    else if s == text "None"
    then ok SameSite.none
    else err tt
