-- ===== src/Admin/Views/Pages.antt =====
-- The admin pages as the responses that they are (site/src/admin.tsx).
use thelab_ms.Base.{ℕ, String, Bool, true, Option, List, [], template, ◌∷◌}
use thelab_ms.Rows.{Member, MemberEvent}
use thelab_ms.Html.{Child}
use thelab_ms.Html.Layout.{Page, page}
use thelab_ms.Admin.Listing.{FilterValues}
use thelab_ms.Admin.History.{HistoryEvent}
use thelab_ms.Admin.Views.{Texts}
use thelab_ms.Admin.Views.Members.{name_of, member_list_body}
use thelab_ms.Admin.Views.Events.{history_title, history_body}
use thelab_ms.Admin.Views.Forms.{Draft, new_member_body}
use thelab_ms.Admin.Views.Editor.{editor_body}

-- The calls of `page` in site/src/admin.tsx, with what each shows.
pub data View : Type 0 where
  member_list_view :
      (query : String) → FilterValues → (total pages current : ℕ) → List Member → View
  history_view :
      Option Member → (path type : String) → (total pages current : ℕ) → List HistoryEvent → View
  new_member_view : Draft → (message : String) (status : ℕ) → View
  editor_view :
      Member
      → (fob_enabled : Bool) → Draft
      → (message : String) (status : ℕ) (checkout : String) → List MemberEvent
      → View

abbrev pub view_title : View → String
view_title (member_list_view query values total pages current rows) = "Registered members"
view_title (history_view member path type total pages current rows) = history_title member
view_title (new_member_view f message status) = "New member"
view_title (editor_view m fob_enabled f message status checkout events) =
    template ("Edit " ∷ name_of m ∷ [])

abbrev pub view_status : View → ℕ
view_status (new_member_view f message status) = status
view_status (editor_view m fob_enabled f message status checkout events) = status
view_status view = 200

abbrev pub view_body : Texts → View → Child
view_body t (member_list_view query values total pages current rows) =
    member_list_body t query values total pages current rows
view_body t (history_view member path type total pages current rows) =
    history_body t member path type total pages current rows
view_body t (new_member_view f message status) = new_member_body t f message
view_body t (editor_view m fob_enabled f message status checkout events) =
    editor_body t m fob_enabled f message status checkout events

unfoldable pub view_page : Texts → View → Page
view_page t view = page (view_title view) (view_body t view) (view_status view) true
