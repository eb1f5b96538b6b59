-- ===== src/Admin/Showing.antt =====
-- What the admin pages answer with, and what they read to show it (site/src/admin.tsx).
use thelab_ms.Base.{
  ℕ, String, Bool, false, Option, none, some, List, ◌==◌, string_eq, if◌then◌else◌, take,
}
use thelab_ms.Rows.{Member, MemberEvent}
use thelab_ms.Database.{Database}
use thelab_ms.App.{Platform, App, pure, ◌>>=◌, query}
use thelab_ms.Html.{Value, num, str}
use thelab_ms.Admin.Listing.{
  FilterValues, Listed, to_page, rows_of, member_list, page_number, search_query,
}
use thelab_ms.Admin.History.{HistoryEvent, history, requested_type, listed_events}
use thelab_ms.Admin.Views.{or_blank}
use thelab_ms.Admin.Views.Forms.{Draft}
use thelab_ms.Admin.Views.Pages.{View, member_list_view, history_view, editor_view}

-- A redirect to sign in, to a path with a notice, to a page of the member list or of a history; or a page.
pub data AdminPage : Type 0 where
  sign_in : AdminPage
  redirected : (path notice : String) → AdminPage
  list_at : (page : ℕ) (query : String) → FilterValues → AdminPage
  history_at : (path type : String) (page : ℕ) → AdminPage
  viewed : View → AdminPage

abbrev pub show_listed : (query : String) → FilterValues → ℕ → Listed Member → AdminPage
show_listed query values current (to_page last) = list_at last query values
show_listed query values current (rows_of total pages rows) =
    viewed (member_list_view query values total pages current rows)

abbrev pub show_events : Option Member → (path type : String) → ℕ → Listed HistoryEvent → AdminPage
show_events member path type current (to_page last) = history_at path type last
show_events member path type current (rows_of total pages rows) =
    viewed (history_view member path type total pages current rows)

abbrev pub id_of : Option Member → Option String
id_of none = none
id_of (some m) = some m.member_id

-- SELECT * FROM member_events WHERE member_id = ? ORDER BY created DESC, id DESC LIMIT 10
abbrev pub recent_events : String → Database → List MemberEvent
recent_events id db = take 10 (listed_events (some id) "" db)

-- fields.stripe_customer_id === text
abbrev pub is_text : Value → String → Bool
is_text (str value) text = value == text
is_text value text = false

-- The fields to show again with a checkout link: the form's, with the row's version, and with the row's
-- customer unless the form names another.
unfoldable pub linked_draft : (current linked : Member) → Draft → Draft
linked_draft current linked f = record f {
  metadata_version = num linked.metadata_version;
  stripe_customer_id =
      if is_text f.stripe_customer_id (or_blank current.stripe_customer_id)
      then str (or_blank linked.stripe_customer_id)
      else f.stripe_customer_id;
}

module _ (p : Platform) where
  -- `memberList`, of the query's parameters.
  unfoldable pub show_list : (q page : Option String) → FilterValues → App AdminPage
  show_list q page values = do
    listed ← member_list p q page values
    pure (show_listed (search_query q) values (page_number page) listed)

  -- `history`, at the path of the request.
  unfoldable pub show_history :
      Option Member → (path : String) → (event_type page : Option String) → App AdminPage
  show_history member path event_type page = do
    listed ← history p (id_of member) event_type page
    pure (show_events member path (requested_type event_type) (page_number page) listed)

  -- `editor`
  unfoldable pub show_editor :
      Member
      → (fob_enabled : Bool) → Draft
      → (message : String) (status : ℕ) (checkout : String) → App AdminPage
  show_editor member fob_enabled f message status checkout = do
    events ← query p (recent_events member.member_id)
    pure (viewed (editor_view member fob_enabled f message status checkout events))
