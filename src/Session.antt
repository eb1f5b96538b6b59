-- ===== src/Session.antt =====
-- Cookies and signed tokens of site/src/lib.ts.
pub mod Tokens
use Prim.Native.Nat.{ℕ, ◌+◌}
use Prim.Native.Char.{Char, code}
use Prim.Native.String
use text.Mathlib.Text.{starts_with}
use thelab_ms.Base.{
  String, Bool, true, false, ◌&&◌, Option, none, some, List, [], ◌∷◌, ◌==◌, string_eq, nat_eq,
  option_eq, if◌then◌else◌, leb, ltb, find, map, template, decimal, utf16_length,
}
use thelab_ms.Rows.{Member}
use thelab_ms.Json.{Json, bool, num, str, obj, end, field, prop, as_string, as_num, is_record}
use thelab_ms.App.{http_error, Result, ok, err, Platform, App, pure, query}

prepend : Char → List String → List String
prepend c [] = []
prepend c (first ∷ rest) = String.◌∷◌ c first ∷ rest

-- text.split(separator), for a separator of one character.
unfoldable pub split : ℕ → String → List String
unfolding prepend
split separator String.[] = "" ∷ []
split separator (String.◌∷◌ c s) =
    let rest = split separator s in if code c == separator then "" ∷ rest else prepend c rest

is_digit : ℕ → Bool
is_digit c = leb 48 c && leb c 57

unfoldable pub all_codes : (ℕ → Bool) → String → Bool
all_codes p String.[] = true
all_codes p (String.◌∷◌ c s) = p (code c) && all_codes p s

-- /^[1-9][0-9]{16,19}$/
unfoldable pub is_discord_id : String → Bool
unfolding is_digit
is_discord_id String.[] = false
is_discord_id (String.◌∷◌ c s) =
    (leb 49 (code c) && leb (code c) 57)
    && (all_codes is_digit s && (leb 16 (utf16_length s) && leb (utf16_length s) 19))

-- setCookie
unfoldable pub set_cookie : (site_origin name value : String) → ℕ → String
set_cookie site_origin name value max_age = template (
    name
    ∷ "="
    ∷ value
    ∷ "; Path=/; HttpOnly; SameSite=Lax; Max-Age="
    ∷ decimal max_age
    ∷ (if starts_with site_origin "https:" then "; Secure" else "")
    ∷ [])

-- What the tokens are made with: AUTH_SECRET, "" where it is unset; `encodeJSON`, base64 over
-- JSON.stringify; the signature of a text under the secret, in base64; whether a signature is that
-- of a text, `none` where `atob` throws; and JSON.parse of a decoded text, `none` where it throws.
pub record Crypto : Type 0 where
  pub auth_secret : String
  pub encode_json : Json → String
  pub mac : String → String
  pub verify : (signature payload : String) → Option Bool
  pub decode_json : String → Option Json

abbrev pub session_age : ℕ
session_age = 86400

pub record Session : Type 0 where
  pub sub : String
  pub admin : Bool

-- { ...fields, exp }
abbrev pub session_value : String → Bool → ℕ → Json
session_value sub admin exp =
    obj (field "sub" (str sub) (field "admin" (bool admin) (field "exp" (num exp) end)))

-- The value that `kioskClaim` signs.
abbrev pub claim_value : ℕ → ℕ → Json
claim_value fob exp = obj (field "fob" (num fob) (field "exp" (num exp) end))

-- isRecord(value) && typeof value.exp === 'number' && value.exp > now()
later_than : ℕ → Option ℕ → Bool
later_than now none = false
later_than now (some exp) = ltb now exp

live : ℕ → Option Json → Option Json
live now none = none
live now (some value) =
    if is_record value && later_than now (as_num (prop "exp" value)) then some value else none

-- typeof sub === 'string' && discordID.test(sub) ? { sub, admin: session?.admin === true } : null
is_true : Option Json → Bool
is_true (some (bool b)) = b
is_true _ = false

session_for : Option String → Bool → Option Session
session_for none admin = none
session_for (some sub) admin =
    if is_discord_id sub then some (record { sub = sub; admin = admin }) else none

unfoldable pub session_of : Option Json → Option Session
unfolding is_true session_for
session_of none = none
session_of (some value) = session_for (as_string (prop "sub" value)) (is_true (prop "admin" value))

-- Number.isInteger(n) && n > 0 && n <= 4294967295
unfoldable pub valid_fob : Option Json → Option ℕ
valid_fob (some (num n)) = if ltb 0 n && leb n 4294967295 then some n else none
valid_fob _ = none

-- What `bindFob` reads from a token.
unfoldable pub claimed_fob : Option Json → Option ℕ
unfolding valid_fob
claimed_fob none = none
claimed_fob (some claim) = valid_fob (prop "fob" claim)

module _ (c : Crypto) where
  -- authKey
  unfoldable pub auth_key : Result String
  auth_key =
      if leb 32 (utf16_length c.auth_secret)
      then ok c.auth_secret
      else err (http_error 503 "Sign-in is temporarily unavailable. Please contact leadership.")

  signed : Json → Result String → Result String
  signed value (err e) = err e
  signed value (ok key) =
      let payload = c.encode_json value in ok (template (payload ∷ "." ∷ c.mac payload ∷ []))

  unfoldable pub sign_token : Json → Result String
  unfolding signed
  sign_token value = signed value auth_key

  verified : ℕ → String → Option Bool → Option Json
  verified now payload (some true) = live now (c.decode_json payload)
  verified now payload _ = none

  opened : ℕ → (payload signature : String) → Result String → Result (Option Json)
  opened now payload signature (err e) = err e
  opened now payload signature (ok key) = ok (verified now payload (c.verify signature payload))

  read_parts : ℕ → List String → Result (Option Json)
  read_parts now (payload ∷ signature ∷ []) = opened now payload signature auth_key
  read_parts now _ = ok none

  -- The token's value if it is signed and live; 46 is the dot.
  unfoldable pub read_token : ℕ → String → Result (Option Json)
  unfolding verified opened read_parts live later_than
  read_token now token = read_parts now (split 46 token)

  -- The value of the session cookie that `sessionCookie` sets.
  unfoldable pub session_token : ℕ → String → Bool → Result String
  session_token now sub admin = sign_token (session_value sub admin (now + session_age))

  as_session : Result (Option Json) → Result (Option Session)
  as_session (err e) = err e
  as_session (ok value) = ok (session_of value)

  -- `readSession`, of the cookie's value.
  unfoldable pub read_session : ℕ → String → Result (Option Session)
  unfolding as_session
  read_session now token = as_session (read_token now token)

  as_claim : Result (Option Json) → Result (Option ℕ)
  as_claim (err e) = err e
  as_claim (ok claim) = ok (claimed_fob claim)

  -- The fob that a kiosk's token names.
  unfoldable pub read_claim : ℕ → String → Result (Option ℕ)
  unfolding as_claim
  read_claim now token = as_claim (read_token now token)

-- memberQuery, with or without a session.
unfoldable pub member_of : Option Session → List Member → Option Member
member_of none members = none
member_of (some session) members = find (λ m. m.discord_user_id == some session.sub) members

-- currentMember, once the session is read.
abbrev pub current_member : Platform → Option Session → App (Option Member)
current_member p none = pure none
current_member p (some session) = query p (λ db. member_of (some session) db.members)
