-- ===== src/Kiosk.antt =====
-- Kiosk claims, the linking of fobs and the printers' credentials of site/src/edge.tsx.
pub mod Linking
pub mod Served
pub mod Bound
pub mod Pages
use thelab_ms.Base.{
  ℕ, ◌+◌, String, Bool, true, false, ◌&&◌, ◌||◌, not, Option, none, some, List, [], ◌∷◌, map, ◌==◌,
  string_eq, nat_eq, option_eq, if◌then◌else◌, any, find, template,
}
use thelab_ms.Sql.{holds}
use thelab_ms.Rows.{Member}
use thelab_ms.Policy.Access.{member_access_sql}
use thelab_ms.Json.{Json, prop}
use thelab_ms.Database.{Database, UniqueColumn, has_id, bind_fob}
use thelab_ms.App.{
  Failure, http_error, unique_error, Result, ok, err, Platform, App, pure, throw, ◌>>=◌, ◌>>◌,
  try_catch, query, execute, now,
}
use thelab_ms.Clients.{lift}
use thelab_ms.Session.{
  Crypto, Session, claim_value, valid_fob, sign_token, read_claim, read_session, member_of,
}
use thelab_ms.Edge.{printers_read, edge_event_key, edge_origin, edge_token, push_fobs}

-- The reply to a scan; the QR code is drawn from `url`.
pub record KioskTicket : Type 0 where
  pub token : String
  pub url : String
  pub expires : ℕ

abbrev unrecognized : Failure
unrecognized = http_error 400 "Fob not recognized. Scan again."

module _ (p : Platform) where
  -- verifyEdgeKey, of the Authorization header, "" where there is none.
  unfoldable pub verify_edge_key : String → App (Unit {0})
  verify_edge_key authorization = do
    key ← edge_event_key p
    let expected = template ("Bearer " ∷ key ∷ [])
    if authorization == expected
        then pure tt
        else throw (http_error 401 "Edge authentication failed.")

  ticket : Crypto → ℕ → App KioskTicket
  ticket c fob = do
    seconds ← now p
    token ← lift (sign_token c (claim_value fob (seconds + 300)))
    pure (record {
      token = token;
      url = template (p.env.site_origin ∷ "/keyfob/bind?token=" ∷ token ∷ []);
      expires = seconds + 300;
    })

  ticket_for : Crypto → Option ℕ → App KioskTicket
  ticket_for c none = throw unrecognized
  ticket_for c (some fob) = ticket c fob

  fob_of : Option Json → Option ℕ
  fob_of none = none
  fob_of (some input) = valid_fob (prop "fob_id" input)

  -- `input` is `none` where the body is not JSON.
  unfoldable pub kiosk_claim : Crypto → String → Option Json → App KioskTicket
  unfolding ticket ticket_for fob_of
  kiosk_claim c authorization input = do verify_edge_key authorization; ticket_for c (fob_of input)

-- What `new URL('/kiosk', env.EDGE_LAN_URL)` reads.
pub record KioskUrl : Type 0 where
  pub protocol : String
  pub origin : String
  pub href : String

-- The asset /kiosk, or a redirect.
pub data KioskPage : Type 0 where
  kiosk_asset : KioskPage
  redirect_to : (href : String) → KioskPage

abbrev not_on_lan : Failure
not_on_lan = http_error 404 "The fob kiosk is only available on TheLab’s network."

-- `lan_url` is EDGE_LAN_URL, and `target` the URL of /kiosk there, `none` where it has none.
module _ (p : Platform) (lan_url : String) (target : Option KioskUrl) where
  abbrev pub is_lan_url : KioskUrl → Bool
  is_lan_url url = (url.protocol == "http:" || url.protocol == "https:") && url.origin == lan_url

  abbrev pub redirect_lan : Option KioskUrl → App KioskPage
  redirect_lan none = throw not_on_lan
  redirect_lan (some url) = if is_lan_url url then pure (redirect_to url.href) else throw not_on_lan

  -- Of the Authorization header, `none` where the request has none.
  unfoldable pub kiosk_page : Option String → App KioskPage
  unfolding verify_edge_key
  kiosk_page (some authorization) = do verify_edge_key p authorization; pure kiosk_asset
  kiosk_page none = redirect_lan target

-- What `bindFob` answers with.
pub data Linked : Type 0 where
  linked_page : (fob : ℕ) → Linked
  link_form : (discord_username : String) (fob : ℕ) (replaces : Option ℕ) → Linked
  sign_in_first : Linked

abbrev invalid_claim : Failure
invalid_claim =
    http_error 410 "This QR code is invalid or expired. Scan your fob at the kiosk again."

abbrev fob_taken : Failure
fob_taken =
    http_error 409 "That fob belongs to another member. Please ask leadership to reassign it."

-- String(error).includes('members.fob_id')
bind_failure : Failure → Failure
bind_failure (unique_error UniqueColumn.fob_id) = fob_taken
bind_failure e = e

-- Whether the UPDATE returned a row: it changes a row that has the id and not yet the fob.
abbrev has_changed : ℕ → String → Database → Database → Bool
has_changed fob member_id before after =
    any (λ m. has_id member_id m && not (m.fob_id == some fob)) before.members

module _ (p : Platform) where
  link_fob : ℕ → String → App Bool
  unfolding bind_failure
  link_fob fob member_id =
      try_catch (execute p (bind_fob fob member_id) (has_changed fob member_id))
        (λ e. throw (bind_failure e))

  for_member : Bool → ℕ → Option Member → App Linked
  unfolding link_fob
  for_member true fob none = pure sign_in_first
  for_member false fob none =
      throw (http_error 401 "Your sign-in expired. Reload this enrollment link to sign in again.")
  for_member true fob (some member) =
      if member.fob_id == some fob
      then pure (linked_page fob)
      else pure (link_form member.discord_username fob member.fob_id)
  for_member false fob (some member) = do
    changed ← link_fob fob member.member_id
    if changed then push_fobs p else pure tt
    pure (linked_page fob)

  for_claim : Bool → Option Session → Option ℕ → App Linked
  unfolding for_member
  for_claim is_get session none = throw invalid_claim
  for_claim is_get session (some fob) = do
    member ← query p (λ db. member_of session db.members)
    for_member is_get fob member

  -- `token` is the link's, `cookie` that of the session; each "" where there is none.
  unfoldable pub bind_fob_page : Crypto → Bool → (token cookie : String) → App Linked
  unfolding for_claim
  bind_fob_page c is_get token cookie = do
    seconds ← now p
    claim ← lift (read_claim c seconds token)
    session ← lift (read_session c seconds cookie)
    for_claim is_get session claim

  printers_for : Option (String × Bool) → App (String × String)
  printers_for none = throw (http_error 401 "Sign in to view the printers.")
  printers_for (some (member_id, false)) = throw (
      http_error 403
        "An active membership with access eligibility is required to view the printers.")
  printers_for (some (member_id, true)) = do
    edge ← edge_origin p
    token ← edge_token p (printers_read member_id)
    pure (edge, token)

  printer_access : Option Member → Option (String × Bool)
  printer_access none = none
  printer_access (some m) = some (m.member_id, holds (member_access_sql m))

  -- The edge's address and a token for it.
  unfoldable pub machines_data : Crypto → String → App (String × String)
  unfolding printers_for printer_access
  machines_data c cookie = do
    seconds ← now p
    session ← lift (read_session c seconds cookie)
    found ← query p (λ db. printer_access (member_of session db.members))
    printers_for found
