-- ===== src/Router.antt =====
-- The worker's entry point (site/src/index.tsx): which handler a request reaches, and how errors are
-- answered.
pub mod Origins
use text.Mathlib.Text.{starts_with}
use thelab_ms.Base.{
  ℕ, String, Bool, true, false, ◌&&◌, ◌||◌, not, Option, none, some, List, [], ◌∷◌, ◌==◌, string_eq,
  option_eq, if◌then◌else◌, any, find, template,
}
use thelab_ms.App.{
  Failure, http_error, provider_error, unique_error, foreign_key_error, error, out_of_fuel, Result,
  ok, err, failure_status,
}

pub data Handler : Type 0 where
  edge_jwks login callback logout checkout sign_waiver machines_data bind_fob : Handler
  kiosk_page kiosk_claim stripe_webhook swipe_webhook edge_sync_request admin_request : Handler

pub record Route : Type 0 where
  pub method : String
  pub path : String
  pub handler : Handler

abbrev pub route : String → String → Handler → Route
route method path handler = record { method = method; path = path; handler = handler }

-- The keys `${method} ${path}`, taken apart at their space: a method has none.
abbrev pub routes : List Route
routes =
    route "GET" "/.well-known/edge-jwks.json" edge_jwks
    ∷ route "GET" "/login" login
    ∷ route "GET" "/login/callback" callback
    ∷ route "POST" "/logout" logout
    ∷ route "GET" "/checkout" checkout
    ∷ route "POST" "/waiver/sign" sign_waiver
    ∷ route "GET" "/machines/data" machines_data
    ∷ route "GET" "/keyfob/bind" bind_fob
    ∷ route "POST" "/keyfob/bind" bind_fob
    ∷ route "GET" "/kiosk" kiosk_page
    ∷ route "POST" "/kiosk/claims" kiosk_claim
    ∷ route "POST" "/webhooks/stripe" stripe_webhook
    ∷ route "POST" "/webhooks/edge/swipes" swipe_webhook
    ∷ route "POST" "/webhooks/edge/sync" edge_sync_request
    ∷ []

abbrev pub json_paths : List String
json_paths = "/machines/data" ∷ "/kiosk/claims" ∷ "/webhooks/" ∷ []

abbrev pub cross_origin_paths : List String
cross_origin_paths = "/kiosk/claims" ∷ "/webhooks/" ∷ []

-- paths.some(p => path.startsWith(p))
unfoldable pub under : List String → String → Bool
under paths path = any (λ p. starts_with path p) paths

or_admin : String → Option Route → Option Handler
or_admin path (some r) = some r.handler
or_admin path none =
    if path == "/admin" || starts_with path "/admin/" then some admin_request else none

-- routes.get(...) ?? (... ? adminRequest : null)
unfoldable pub find_handler : String → String → Option Handler
unfolding or_admin
find_handler method path = or_admin path (find (λ r. r.method == method && r.path == path) routes)

or_not_found : Option Handler → Result Handler
or_not_found none = err (http_error 404 "Page not found.")
or_not_found (some handler) = ok handler

-- What `fetch` does before it runs a handler; `from` is the Origin header.
unfoldable pub dispatch : (site_origin method path : String) (from : Option String) → Result Handler
unfolding or_not_found
dispatch site_origin method path from =
    if method == "POST" && (not (under cross_origin_paths path) && not (from == some site_origin))
    then err (
        http_error 403
          "We couldn’t verify where this form came from. Reload the page and try again.")
    else or_not_found (find_handler method path)

-- error.message of an `HttpError`; the text of any other error is not shown.
unfoldable pub failure_message : Failure → String
failure_message (http_error status message) = message
failure_message (provider_error service status code) =
    template (service ∷ " is temporarily unavailable. Please try again." ∷ [])
failure_message _ = "Something went wrong. Please try again."

-- The answer to a request: a handler's own, or an error as JSON or as a page.
pub data Answer {ℓ} (R : Type ℓ) : Type ℓ where
  handled : R → Answer R
  json_error page_error : (status : ℕ) (message : String) → Answer R

abbrev answer {ℓ} : {R : Type ℓ} → Bool → Result R → Answer R
answer is_json (ok r) = handled r
answer true (err e) = json_error (failure_status e) (failure_message e)
answer false (err e) = page_error (failure_status e) (failure_message e)

abbrev run_handler {ℓ} : {R : Type ℓ} → (Handler → Result R) → Result Handler → Result R
run_handler run (ok handler) = run handler
run_handler run (err e) = err e

-- `fetch`, over what the handlers return or throw.
unfoldable pub fetch {ℓ} :
    {R : Type ℓ} (site_origin method path : String) (from : Option String)
    → (Handler → Result R)
    → Answer R
fetch site_origin method path from run =
    answer (under json_paths path) (run_handler run (dispatch site_origin method path from))
