-- ===== src/Auth.antt =====
-- Discord sign-in (site/src/auth.ts).
pub mod Redirects
pub mod Linked
use Prim.Native.Char.{code}
use Prim.Native.String
use thelab_ms.Base.{
  ℕ, String, Bool, true, false, ◌&&◌, ◌||◌, not, Option, none, some, List, [], ◌∷◌, ◌==◌, string_eq,
  nat_eq, option_eq, if◌then◌else◌, any, find, leb, ltb, template, utf16_length,
}
use thelab_ms.Policy.{grants_membership}
use thelab_ms.Rows.{Member}
use thelab_ms.Json.{
  Json, str, bool, arr, obj, field, end, prop, as_string, items, truthy, is_record,
}
use thelab_ms.Database.{
  Database, Outcome, done, unique_failed, foreign_key_failed, exec, and_then, link_discord,
  register, refresh_identity, has_discord,
}
use thelab_ms.App.{
  Failure, http_error, provider_error, error, Result, ok, err, form, no_body, Fetch, Platform, App,
  pure, throw, ◌>>=◌, ◌>>◌, try_catch, transact, now,
}
use thelab_ms.Forms.{is_control, trim, valid_email}
use thelab_ms.Clients.{provider, discord, lift}
use thelab_ms.Session.{Crypto, split, all_codes, is_discord_id, session_token, set_cookie}
use thelab_ms.Billing.Role.{sync_discord_role}

-- (?![/\\])
local_start : String → Bool
local_start String.[] = true
local_start (String.◌∷◌ c s) = not (code c == 47) && not (code c == 92)

is_local : String → Bool
unfolding local_start
is_local String.[] = false
is_local (String.◌∷◌ c s) =
    code c == 47 && (local_start s && all_codes (λ code. not (is_control code)) s)

-- `none` where the value is not a string.
unfoldable pub safe_next : Option String → String
unfolding is_local
safe_next none = "/"
safe_next (some value) = if is_local value then value else "/"

pub record DiscordIdentity : Type 0 where
  pub id : String
  pub username : String
  pub email : String

-- The batch of `registerMember`; `member_id` is the random id of a new row.
unfoldable pub registration : String → DiscordIdentity → ℕ → Database → Outcome
unfolding and_then
registration member_id user now db =
    and_then (exec now (link_discord user.id user.email) db) (λ linked.
      and_then (exec now (register member_id user.id user.email) linked)
        (exec now (refresh_identity user.username user.email user.id)))

discord_failed : Failure
discord_failed = http_error 502 "Discord sign-in failed. Please try again."

-- `lower` is toLowerCase, over the tables of Unicode; `fuel` is for the loop of `syncDiscordRole`.
module _ (p : Platform) (lower : String → String) (fuel : ℕ) where
  token_request : String → Fetch
  token_request code = record {
    method = "POST";
    url = "https://discord.com/api/v10/oauth2/token";
    query = [];
    credential = "";
    idempotency_key = none;
    payload = form (
        ("client_id", p.env.discord_client_id)
        ∷ ("client_secret", p.env.discord_client_secret)
        ∷ ("grant_type", "authorization_code")
        ∷ ("code", code)
        ∷ ("redirect_uri", template (p.env.site_origin ∷ "/login/callback" ∷ []))
        ∷ []);
  }

  user_request : String → Fetch
  user_request token = record {
    method = "GET";
    url = "https://discord.com/api/v10/users/@me";
    query = [];
    credential = template ("Bearer " ∷ token ∷ []);
    idempotency_key = none;
    payload = no_body;
  }

  is_verified : Option Json → Bool
  is_verified (some (bool b)) = b
  is_verified _ = false

  checked_email : String → String → Bool → Option String → Result DiscordIdentity
  checked_email id username verified none =
      err (http_error 403 "Please verify your email in Discord before signing in.")
  checked_email id username verified (some email) =
      if verified && valid_email email
      then ok (record { id = id; username = username; email = lower (trim email) })
      else err (http_error 403 "Please verify your email in Discord before signing in.")

  checked : Json → Option String → Option String → Result DiscordIdentity
  unfolding discord_failed is_verified checked_email
  checked user (some id) (some username) =
      if is_discord_id id && (not (username == "") && not (truthy (prop "bot" user)))
      then checked_email id username (is_verified (prop "verified" user))
          (as_string (prop "email" user))
      else err discord_failed
  checked user _ _ = err discord_failed

  fetch_user : Option String → App Json
  unfolding discord_failed user_request
  fetch_user none = throw discord_failed
  fetch_user (some token) = provider p "Discord" (user_request token)

  unfoldable pub discord_identity : String → App DiscordIdentity
  unfolding token_request fetch_user checked
  discord_identity code = do
    token ← provider p "Discord" (token_request code)
    user ← fetch_user (as_string (prop "access_token" token))
    lift (checked user (as_string (prop "id" user)) (as_string (prop "username" user)))

  registered : Option Member → App Member
  registered none = throw (error "Member registration returned no row.")
  registered (some member) = pure member

  new_id : App String
  new_id w = (ok (p.random w.step), w)

  unfoldable pub register_member : DiscordIdentity → App Member
  unfolding registered new_id
  register_member user = do
    member_id ← new_id
    row ←
        transact p (registration member_id user)
          (λ before after. find (has_discord user.id) after.members)
    registered row

  join_first : Failure → Failure
  join_first (provider_error service (some status) code) =
      if status == 404
      then http_error 403 "Please join TheLab’s Discord server, then sign in again."
      else provider_error service (some status) code
  join_first e = e

  has_role : String → Option Json → Bool
  has_role role (some (arr roles)) = any (λ r. as_string (some r) == some role) (items roles)
  has_role role _ = false

  -- The answer to a callback: where it redirects, and the new session cookie.
  signed_in : Crypto → Option Json → DiscordIdentity → Json → App (String × String)
  unfolding has_role
  signed_in c next user guild_member = do
    member ← register_member user
    let roles = prop "roles" guild_member
    let missing = not (has_role p.env.discord_role_id roles)
    let needed = grants_membership member.stripe_subscription_state && missing
    if needed then sync_discord_role p fuel member.member_id else pure tt
    seconds ← now p
    cookie ← lift (session_token c seconds user.id (has_role p.env.discord_admin_role_id roles))
    pure (safe_next (as_string next), cookie)

  exchanged : Crypto → Option Json → String → App (String × String)
  unfolding signed_in join_first
  exchanged c next code = do
    user ← discord_identity code
    let path = template ("/guilds/" ∷ p.env.discord_guild_id ∷ "/members/" ∷ user.id ∷ [])
    guild_member ← try_catch (discord p "GET" path) (λ e. throw (join_first e))
    signed_in c next user guild_member

  with_code : Crypto → Option Json → Option String → App (String × String)
  unfolding exchanged
  with_code c next none =
      throw (http_error 400 "Discord sign-in was not authorized. Please start again.")
  with_code c next (some code) =
      if code == ""
      then throw (http_error 400 "Discord sign-in was not authorized. Please start again.")
      else exchanged c next code

  -- isRecord(saved) && saved.state && state === saved.state
  same_state : Option String → Option Json → Bool
  same_state state none = false
  same_state state (some saved) =
      is_record saved
      && (truthy (prop "state" saved)
          && (not (state == none) && state == as_string (prop "state" saved)))

  saved_next : Option Json → Option Json
  saved_next none = none
  saved_next (some saved) = prop "next" saved

  -- `within_limit` is what the rate limiter tells, true for a request without an address; `saved` is the
  -- sign-in cookie, `none` where it cannot be read; `state` and `code` are query parameters.
  unfoldable pub callback :
      Crypto
      → (within_limit : Bool) → (saved : Option Json) → (state code : Option String)
      → App (String × String)
  unfolding with_code same_state saved_next
  callback c within_limit saved state code =
      if not within_limit
      then throw (http_error 429 "Too many sign-in attempts. Please wait a minute and try again.")
      else if same_state state saved
      then with_code c (saved_next saved) code
      else throw (http_error 400 "Invalid or expired Discord sign-in. Please start again.")

-- Where `login` redirects: the address, its query, and the cookie that it sets.
pub record LoginRedirect : Type 0 where
  pub url : String
  pub query : List (String × String)
  pub cookie : String

-- JSON.stringify({ state, next })
abbrev pub saved_value : String → String → Json
saved_value state next = obj (field "state" (str state) (field "next" (str next) end))

-- `encode` is encodeURIComponent over JSON.stringify, `state` the random token, `next` the query's.
unfoldable pub login :
    Platform
    → (encode : Json → String) → (state : String) → (next : Option String) → Result LoginRedirect
login p encode state next =
    if p.env.discord_client_id == "" || p.env.discord_client_secret == ""
    then err (http_error 503 "Sign-in is temporarily unavailable. Please contact leadership.")
    else ok (record {
      url = "https://discord.com/oauth2/authorize";
      query =
          ("client_id", p.env.discord_client_id)
          ∷ ("response_type", "code")
          ∷ ("scope", "identify email")
          ∷ ("prompt", "none")
          ∷ ("redirect_uri", template (p.env.site_origin ∷ "/login/callback" ∷ []))
          ∷ ("state", state)
          ∷ [];
      cookie =
          set_cookie p.env.site_origin "thelab_oauth" (encode (saved_value state (safe_next next)))
            600;
    })

-- The cookie that `logout` sets on its redirect to `/`.
unfoldable pub logout : Platform → String
logout p = set_cookie p.env.site_origin "thelab_session" "" 0
