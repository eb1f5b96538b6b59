-- ===== src/Machines.antt =====
-- What the machines page accepts of the worker and of the edge (site/static/machines.js).
pub mod Credentials
pub mod Cards
pub mod Dashboard
pub mod Replies
pub mod Markup
pub mod Events
pub mod Sound
pub mod Calls
pub mod Shown
pub mod Denied
use Prim.Native.Char.{Char, code}
use Prim.Native.String
use Prim.Native.String.{◌++◌}
use text.Mathlib.Text.{starts_with}
use thelab_ms.Base.{
  ℕ, ◌+◌, ◌-◌, ◌*◌, String, Bool, true, false, ◌&&◌, ◌||◌, not, Option, none, some, List, [], ◌∷◌,
  ◌==◌, string_eq, nat_eq, option_eq, if◌then◌else◌, leb, ltb, utf16_length,
}
use thelab_ms.Json.{Json, prop, as_string, as_num}
use thelab_ms.App.{Url}
use thelab_ms.Session.{split}

-- Access
pub record Access : Type 0 where
  pub edge : String
  pub token : String
  pub expires : ℕ
  pub renew : ℕ

-- The claims that are read, where `iat` and `exp` are integers.
pub record TokenClaims : Type 0 where
  pub scope : Option String
  pub aud : Option String
  pub iat : ℕ
  pub exp : ℕ

base64_char : Char → String
base64_char c =
    if code c == b'-' then "+" else if code c == b'_' then "/" else (String.◌∷◌ c String.[])

-- text.replaceAll('-', '+').replaceAll('_', '/')
unfoldable pub from_url_alphabet : String → String
unfolding base64_char
from_url_alphabet String.[] = ""
from_url_alphabet (String.◌∷◌ c s) = base64_char c ++ from_url_alphabet s

-- parts[1] ?? ''
abbrev pub second : List String → String
second (a ∷ b ∷ rest) = b
second _ = ""

abbrev pub claims_with : Json → Option ℕ → Option ℕ → Option TokenClaims
claims_with value (some iat) (some exp) = some (record {
  scope = as_string (prop "scope" value);
  aud = as_string (prop "aud" value);
  iat = iat;
  exp = exp;
})
claims_with value _ _ = none

abbrev pub read_claims : Option Json → Option TokenClaims
read_claims none = none
read_claims (some value) = claims_with value (as_num (prop "iat" value)) (as_num (prop "exp" value))

-- new URL(edge).protocol === 'https:' && new URL(edge).origin === edge
abbrev pub is_edge_url : String → Option Url → Bool
is_edge_url edge none = false
is_edge_url edge (some url) = url.protocol == "https:" && url.origin == edge

unfoldable pub is_printer_token : String → TokenClaims → Bool
is_printer_token edge claims =
    (claims.scope == some "printers:read" && claims.aud == some edge)
    && (ltb claims.iat claims.exp && leb (claims.exp - claims.iat) 60)

abbrev pub earlier : ℕ → ℕ → ℕ
earlier m n = if leb m n then m else n

-- `parse_url` is `new URL`, and `decode` is JSON.parse of `atob` of a text; `none` is where they throw.
module _ (parse_url : String → Option Url) (decode : String → Option Json) where
  abbrev pub with_claims : String → String → ℕ → ℕ → Option TokenClaims → Option Access
  with_claims edge token started now none = none
  with_claims edge token started now (some claims) =
      let expires = earlier (claims.exp * 1000) (started + 60000) in
      if is_printer_token edge claims && ltb now expires
      then some (record { edge = edge; token = token; expires = expires; renew = expires - 15000 })
      else none

  abbrev pub from_texts : ℕ → ℕ → Option String → Option String → Option Access
  from_texts started now (some token) (some edge) =
      if leb (utf16_length token) 4096 && is_edge_url edge (parse_url edge)
      then with_claims edge token started now
          (read_claims (decode (from_url_alphabet (second (split 46 token)))))
      else none
  from_texts started now _ _ = none

  -- `credentials`, with Date.now(); `none` is where it throws.
  unfoldable pub credentials : Json → ℕ → ℕ → Option Access
  credentials reply started now =
      from_texts started now (as_string (prop "token" reply)) (as_string (prop "edge" reply))
