-- ===== src/Admin/Routing.antt =====
-- `adminRequest` of site/src/admin.tsx: who may use the admin pages, and what each request does.
use Prim.Native.Char.{code}
use text.Mathlib.Text.{starts_with}
use thelab_ms.Base.{
  ℕ, String, Bool, true, false, ◌&&◌, Option, none, some, List, [], ◌∷◌, ◌==◌, string_eq, nat_eq,
  option_eq, if◌then◌else◌, find, drop_chars, ◌⊎◌, inl, inr,
}
use thelab_ms.Rows.{Member}
use thelab_ms.Database.{has_id}
use thelab_ms.App.{
  Failure, http_error, provider_error, Platform, App, pure, throw, ◌>>=◌, ◌>>◌, try_catch, query,
  now, failure_status,
}
use thelab_ms.Clients.{lift}
use thelab_ms.Forms.{Fields, member_path}
use thelab_ms.Session.{Crypto, Session, read_session}
use thelab_ms.Router.{failure_message}
use thelab_ms.Billing.Sync.{sync_member, is_member_id}
use thelab_ms.Admin.Validation.{validate_new, validate_edit}
use thelab_ms.Admin.Editing.{
  create_member_row, update_member, side_effects, delete_member_row, Edited,
}
use thelab_ms.Billing.Checkout.{checkout_link}
use thelab_ms.Admin.Checkout.{save_form}
use thelab_ms.Sql.{holds}
use thelab_ms.Policy.Access.{fob_enabled_sql}
use thelab_ms.Admin.Listing.{FilterValues, chosen_waiver, chosen_discord, chosen_payment}
use thelab_ms.Admin.Views.Forms.{Draft, form_draft, member_draft, new_draft}
use thelab_ms.Admin.Views.Pages.{new_member_view}
use thelab_ms.Admin.Showing.{
  AdminPage, sign_in, redirected, viewed, linked_draft, show_list, show_history, show_editor,
}

-- A request to the admin pages: the path without its query, the query's parameters, the form of a POST,
-- and the session cookie.
pub record AdminRequest : Type 0 where
  pub method : String
  pub path : String
  pub params : String → Option String
  pub fields : Fields
  pub cookie : String

-- url.pathname.replace(/\/$/, '')
unfoldable pub without_slash : String → String
without_slash String.[] = ""
without_slash (String.◌∷◌ c s) =
    let rest = String.◌∷◌ c (without_slash s) in if code c == b'/' && s == "" then "" else rest

abbrev pub actions : List String
actions = "" ∷ "/events" ∷ "/checkout" ∷ "/sync" ∷ "/delete" ∷ []

take_chars : ℕ → String → String
take_chars ℕ.zero s = ""
take_chars (ℕ.suc n) String.[] = ""
take_chars (ℕ.suc n) (String.◌∷◌ c s) = String.◌∷◌ c (take_chars n s)

-- /^\/admin\/members\/([a-f0-9]{32})(\/events|\/checkout|\/sync|\/delete)?$/, as the member's id and the
-- action.
unfoldable pub member_route : String → Option (String × String)
unfolding take_chars
member_route path =
    let id = take_chars 32 (drop_chars 15 path) in
    if starts_with path "/admin/members/" && is_member_id id
    then (elim (find (λ action. action == drop_chars 47 path) actions) [
      | none ↦ none
      | some action ↦ some (id, action)
    ])
    else none

-- error instanceof HttpError
unfoldable pub is_http_error : Failure → Bool
is_http_error (http_error status message) = true
is_http_error (provider_error service status code) = true
is_http_error e = false

-- catch (error) { if (!(error instanceof HttpError)) throw error; return page; }
abbrev pub or_page {ℓ} : {A : Type ℓ} → (String → ℕ → App A) → App A → App A
or_page page m =
    try_catch m
      (λ e. if is_http_error e then page (failure_message e) (failure_status e) else throw e)

notice_text : Option String → String
notice_text key =
    if key == some "saved"
    then "Member saved."
    else if key == some "created"
    then "Member created. Open Billing info to generate a checkout link."
    else if key == some "synced"
    then "Stripe and Discord synchronized."
    else if key == some "sync_failed"
    then "Saved, but Stripe or Discord synchronization failed. Use Sync with Stripe to retry."
    else ""

-- `lower` is toLowerCase, `number` is Number() of a field, and `fuel` bounds the loops.
module _ (p : Platform) (fuel : ℕ) (lower : String → String)
    (number : Option String → Option ℕ) where
  abbrev pub filter_values : AdminRequest → FilterValues
  filter_values r = record {
    waiver = chosen_waiver (r.params "waiver");
    discord = chosen_discord (r.params "discord");
    payment = chosen_payment (r.params "payment");
  }

  abbrev pub post_new_member : AdminRequest → App AdminPage
  post_new_member r =
      or_page
        (λ message status. pure (viewed (new_member_view (form_draft r.fields) message status)))
        (do
          value ← lift (validate_new lower r.fields)
          member ← create_member_row p value
          pure (redirected (member_path member.member_id) "created"))

  -- The side effects of an edit: their failure is logged and told.
  abbrev pub after_edit : Member → Edited → App AdminPage
  after_edit member edited =
      try_catch
        (side_effects p fuel member edited
          >> pure (redirected (member_path member.member_id) "saved"))
        (λ e. pure (redirected (member_path member.member_id) "sync_failed"))

  -- catch: the editor with the form's fields, for a member as it was read
  abbrev pub show_refused : Member → Bool → Draft → String → ℕ → App (Edited ⊎ AdminPage)
  show_refused member fob_enabled f message status = do
    page ← show_editor p member fob_enabled f message status ""
    pure (inr page)

  abbrev pub finish_edit : Member → Edited ⊎ AdminPage → App AdminPage
  finish_edit member (inl edited) = after_edit member edited
  finish_edit member (inr page) = pure page

  abbrev pub post_edit : AdminRequest → Member → Bool → App AdminPage
  post_edit r member fob_enabled = do
    outcome ← or_page (show_refused member fob_enabled (form_draft r.fields)) (do
      value ← lift (validate_edit number r.fields)
      edited ← update_member p member value
      pure (inl edited))
    finish_edit member outcome

  -- The page shows the row with the saved choices, whether or not there is a link.
  abbrev pub show_link : Member → Bool → Draft → App AdminPage
  show_link current fob_enabled f =
      or_page (λ message status. show_editor p current fob_enabled f message status "")
        (do
          link ← checkout_link p fuel lower true current
          show_editor p link.1 fob_enabled (linked_draft current link.1 f)
              "Checkout link ready to share." 200 link.0)

  abbrev pub link_page : Bool → (Member × Draft) ⊎ AdminPage → App AdminPage
  link_page fob_enabled (inl (current, f)) = show_link current fob_enabled f
  link_page fob_enabled (inr page) = pure page

  abbrev pub show_unsaved : Member → Bool → Draft → String → ℕ → App ((Member × Draft) ⊎ AdminPage)
  show_unsaved member fob_enabled f message status = do
    page ← show_editor p member fob_enabled f message status ""
    pure (inr page)

  abbrev pub post_checkout : AdminRequest → Member → Bool → App AdminPage
  post_checkout r member fob_enabled = do
    outcome ←
        or_page (show_unsaved member fob_enabled (form_draft r.fields))
          (do current ← save_form p number member r.fields; pure (inl current))
    link_page fob_enabled outcome

  -- What the request's action does for the member.
  unfoldable pub member_action : AdminRequest → String → Member → Bool → App AdminPage
  unfolding notice_text
  member_action r action member fob_enabled =
      if r.method == "GET" && action == ""
      then show_editor p member fob_enabled (member_draft member) (notice_text (r.params "notice"))
          200 ""
      else if r.method == "GET" && action == "/events"
      then show_history p (some member) r.path (r.params "event_type") (r.params "page")
      else if r.method == "POST" && action == ""
      then post_edit r member fob_enabled
      else if r.method == "POST" && action == "/sync"
      then (sync_member p fuel member.member_id member.stripe_customer_id
          >> pure (redirected (member_path member.member_id) "synced"))
      else if r.method == "POST" && action == "/checkout"
      then post_checkout r member fob_enabled
      else if r.method == "POST" && action == "/delete"
      then (delete_member_row p member >> pure (redirected "/admin" ""))
      else throw (http_error 405 "Method not allowed.")

  abbrev pub for_found : AdminRequest → String → Option Member → App AdminPage
  for_found r action none = throw (http_error 404 "Member not found.")
  for_found r action (some member) = member_action r action member (holds (fob_enabled_sql member))

  abbrev pub for_route : AdminRequest → Option (String × String) → App AdminPage
  for_route r none = throw (http_error 404 "Admin page not found.")
  for_route r (some (id, action)) = do
    member ← query p (λ db. find (has_id id) db.members)
    for_found r action member

  -- The pages, for an admin.
  unfoldable pub admin_page : AdminRequest → App AdminPage
  admin_page r =
      let path = without_slash r.path in
      if r.method == "GET" && path == "/admin"
      then show_list p (r.params "q") (r.params "page") (filter_values r)
      else if r.method == "GET" && path == "/admin/events"
      then show_history p none r.path (r.params "event_type") (r.params "page")
      else if r.method == "GET" && path == "/admin/members/new"
      then pure (viewed (new_member_view new_draft "" 200))
      else if r.method == "POST" && path == "/admin/members/new"
      then post_new_member r
      else for_route r (member_route path)

  unfoldable pub for_session : AdminRequest → Option Session → App AdminPage
  for_session r none =
      if r.method == "GET"
      then pure sign_in
      else throw (http_error 401 "Your session expired. Sign in again.")
  for_session r (some session) =
      if session.admin
      then admin_page r
      else throw (http_error 403 "Admin access is required to view this page.")

  unfoldable pub admin_request : Crypto → AdminRequest → App AdminPage
  admin_request c r = do
    seconds ← now p
    session ← lift (read_session c seconds r.cookie)
    for_session r session
