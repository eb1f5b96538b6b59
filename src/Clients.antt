-- ===== src/Clients.antt =====
-- The Stripe and Discord clients of site/src/lib.ts.
pub mod Requests
use thelab_ms.Base.{
  ℕ, zero, suc, String, Bool, true, false, ◌&&◌, ◌||◌, not, Option, none, some, List, [], ◌∷◌, ◌++◌,
  ◌==◌, string_eq, nat_eq, option_eq, if◌then◌else◌, leb, template,
}
use mathlib.Core.Option
use thelab_ms.Json.{Json, null, obj, end, prop, as_string, truthy, is_record, items, arr}
use thelab_ms.App.{
  http_error, provider_error, error, out_of_fuel, Result, ok, err, no_body, form, Fetch, Text,
  unreadable, empty, not_json, json, Reply, no_reply, reply, Platform, App, pure, throw, ◌>>=◌,
  send,
}

-- `data`: null if the text cannot be read or parsed.
unfoldable pub parsed : Text → Json
parsed unreadable = null
parsed not_json = null
parsed empty = obj end
parsed (json value) = value

-- response.ok
unfoldable pub is_success : ℕ → Bool
is_success status = leb 200 status && leb status 299

unfoldable pub read_reply : String → Reply → Result Json
unfolding parsed is_success
read_reply service no_reply = err (provider_error service none none)
read_reply service (reply status text) =
    let value = parsed text in
    if not (is_success status) || not (is_record value)
    then err (provider_error service (some status) (prop "code" value))
    else ok value

abbrev pub lift {ℓ} : {A : Type ℓ} → Result A → App A
lift r w = (r, w)

module _ (p : Platform) where
  unfoldable pub provider : String → Fetch → App Json
  provider service request = do answer ← send p request; lift (read_reply service answer)

  unfoldable pub discord_request : (method path : String) → Fetch
  discord_request method path = record {
    method = method;
    url = template ("https://discord.com/api/v10" ∷ path ∷ []);
    query = [];
    credential = template ("Bot " ∷ p.env.discord_bot_token ∷ []);
    idempotency_key = none;
    payload = no_body;
  }

  unfoldable pub discord : (method path : String) → App Json
  discord method path =
      if p.env.discord_bot_token == ""
      then throw (http_error 503 "Discord is temporarily unavailable. Please contact leadership.")
      else provider "Discord" (discord_request method path)

  -- A form makes the request a POST.
  unfoldable pub stripe_request :
      String → List (String × String) → Option (List (String × String)) → Option String → Fetch
  stripe_request path query none key = record {
    method = "GET";
    url = template ("https://api.stripe.com/v1" ∷ path ∷ []);
    query = query;
    credential = template ("Bearer " ∷ p.env.stripe_secret_key ∷ []);
    idempotency_key = key;
    payload = no_body;
  }
  stripe_request path query (some fields) key = record {
    method = "POST";
    url = template ("https://api.stripe.com/v1" ∷ path ∷ []);
    query = query;
    credential = template ("Bearer " ∷ p.env.stripe_secret_key ∷ []);
    idempotency_key = key;
    payload = form fields;
  }

  unfoldable pub stripe :
      String → List (String × String) → Option (List (String × String)) → Option String → App Json
  stripe path query fields key =
      if p.env.stripe_secret_key == ""
      then throw (http_error 503 "Billing is temporarily unavailable. Please contact leadership.")
      else provider "Stripe" (stripe_request path query fields key)

-- query.set(name, value)
unfoldable pub set_param : String → String → List (String × String) → List (String × String)
set_param name value [] = (name, value) ∷ []
set_param name value ((key, old) ∷ rest) =
    if key == name then (key, value) ∷ rest else (key, old) ∷ set_param name value rest

-- A reply is trusted to match its type; one that does not is an error here.
unfoldable pub trusted {ℓ} : {A : Type ℓ} → Option A → Result A
trusted none = err (error "The reply does not match its type.")
trusted (some a) = ok a

unfoldable pub decode_all {ℓ} : {A : Type ℓ} → (Json → Option A) → List Json → Option (List A)
decode_all decode [] = some []
decode_all decode (x ∷ xs) = elim (decode x) [
  | none ↦ none
  | some a ↦ Option.map (λ rest. a ∷ rest) (decode_all decode xs)
]

-- result.data
unfoldable pub decode_data {ℓ} : {A : Type ℓ} → (Json → Option A) → Option Json → Option (List A)
decode_data decode (some (arr xs)) = decode_all decode (items xs)
decode_data decode _ = none

abbrev pub last {ℓ} : {A : Type ℓ} → List A → Option A
last [] = none
last (x ∷ []) = some x
last (x ∷ y ∷ ys) = last (y ∷ ys)

module _ {ℓ} (p : Platform) {A : Type ℓ} (decode : Json → Option A) (id : A → String) where
  abbrev pub next_page :
      (List (String × String) → App (List A))
      → List (String × String)
      → List A
      → Bool
      → Option A
      → App (List A)
  next_page more params page has_more none = pure page
  next_page more params page false (some a) = pure page
  next_page more params page true (some a) = do
    rest ← more (set_param "starting_after" (id a) params)
    pure (page ++ rest)

  -- The loop of `stripeList`, on fuel for its pages.
  unfoldable pub list_pages : ℕ → String → List (String × String) → App (List A)
  list_pages zero path params = throw out_of_fuel
  list_pages (suc fuel) path params = do
    result ← stripe p path params none none
    page ← lift (trusted (decode_data decode (prop "data" result)))
    next_page (list_pages fuel path) params page (truthy (prop "has_more" result)) (last page)

  unfoldable pub stripe_list : ℕ → String → List (String × String) → App (List A)
  stripe_list fuel path params = list_pages fuel path (set_param "limit" "100" params)

-- user?.id !== id || typeof user.username !== 'string' || !user.username || user.bot
username_of : String → Option Json → Option String
username_of id none = none
username_of id (some user) = elim (as_string (prop "username" user)) [
  | none ↦ none
  | some username ↦
      if as_string (prop "id" user) == some id
        && (not (username == "") && not (truthy (prop "bot" user)))
      then some username
      else none
]

valid_user : Option String → Result String
valid_user none = err (http_error 400 "Choose a valid Discord member account.")
valid_user (some username) = ok username

unfoldable pub guild_username : Platform → String → App String
unfolding username_of valid_user
guild_username p id = do
  member ← discord p "GET" (template ("/guilds/" ∷ p.env.discord_guild_id ∷ "/members/" ∷ id ∷ []))
  lift (valid_user (username_of id (prop "user" member)))
