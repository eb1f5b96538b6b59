-- ===== src/Admin/Views/Events.antt =====
-- The tables and pages of the history (`eventTable` and `history` of site/src/admin.tsx).
use thelab_ms.Base.{
  ℕ, String, Bool, true, false, not, Option, none, some, List, [], ◌∷◌, map, ◌==◌, string_eq,
  nat_eq, if◌then◌else◌, template, decimal,
}
use thelab_ms.Rows.{Member}
use thelab_ms.Forms.{member_name, member_path}
use thelab_ms.Html.{absent, bool, num, str, Child, leaf, list, node}
use thelab_ms.Html.Markup.{plain, link, children, bare, one, when}
use thelab_ms.Admin.History.{HistoryEvent, event_types, event_label, event_details}
use thelab_ms.Admin.Views.{Texts, date, options, pagination}
use thelab_ms.Admin.Views.Members.{column, name_of}

-- memberName(event), of the columns that the LEFT JOIN gives.
abbrev pub joined_name : Option Member → String
joined_name none = member_name none none none none none
joined_name (some m) =
    member_name (some m.name_override) (some m.billing_name) (some m.discord_username)
      (some m.waiver_name) m.email

abbrev pub member_cell : Option String → Option Member → Child
member_cell none joined = plain "Unknown or deleted member"
member_cell (some id) joined =
    if id == ""
    then plain "Unknown or deleted member"
    else link (member_path id) (joined_name joined)

module _ (t : Texts) (show_member : Bool) where
  unfoldable pub event_row : HistoryEvent → Child
  unfolding children
  event_row row = bare "tr" (
      bare "td" (plain (date t row.event.created) ∷ [])
      ∷ bare "td" (plain (event_label row.event.event_type) ∷ [])
      ∷ when show_member (node "td" [] (one (member_cell row.event.member_id row.member)))
      ∷ bare "td" (plain (event_details row.event) ∷ [])
      ∷ [])

  -- rows.length ? rows : ...
  unfoldable pub event_rows : List HistoryEvent → Child
  unfolding children
  event_rows [] = bare "tr" (
      node "td" (("colspan", num (if show_member then 4 else 3)) ∷ [])
        (one (plain "No member history found."))
      ∷ [])
  event_rows (row ∷ rows) = list (children (map event_row (row ∷ rows)))

  unfoldable pub event_table : List HistoryEvent → Child
  unfolding children
  event_table rows =
      node "div"
        (("class", str "admin-table")
          ∷ ("role", str "region")
          ∷ ("aria-label", str "Member history")
          ∷ ("tabindex", str "0")
          ∷ [])
        (one (
          bare "table" (
            bare "thead" (
              bare "tr" (
                column "Timestamp"
                ∷ column "Event"
                ∷ when show_member (column "Member")
                ∷ column "Details"
                ∷ [])
              ∷ [])
            ∷ bare "tbody" (event_rows rows ∷ [])
            ∷ [])))

abbrev pub is_none : Option Member → Bool
is_none none = true
is_none (some m) = false

-- { page, ...(type ? { event_type: type } : {}) }
abbrev pub history_params : String → ℕ → List (String × String)
history_params type n = ("page", decimal n) ∷ (if type == "" then [] else ("event_type", type) ∷ [])

abbrev pub history_title : Option Member → String
history_title none = "Events"
history_title (some m) = template ("History for " ∷ name_of m ∷ [])

unfoldable pub back_link : Option Member → Child
back_link none = leaf absent
back_link (some m) = node "p" [] (one (link (member_path m.member_id) "← Back to member"))

module _ (t : Texts) where
  abbrev pub history_url : (path type : String) → ℕ → String
  history_url path type n = template (path ∷ "?" ∷ t.query_string (history_params type n) ∷ [])

  abbrev pub type_form : (path type : String) → Child
  unfolding children
  type_form path type =
      node "form"
        (("method", str "get")
          ∷ ("action", str path)
          ∷ ("class", str "admin-form admin-toolbar")
          ∷ [])
        (children (
          node "label" (("class", str "sr-only") ∷ ("for", str "event-type") ∷ [])
            (one (plain "Event type"))
          ∷ node "select"
              (("id", str "event-type")
                ∷ ("name", str "event_type")
                ∷ ("data-autosubmit", bool true)
                ∷ [])
              (one (options (("", "All event types") ∷ event_types) (some type)))
          ∷ node "button" (("class", str "btn btn-primary") ∷ ("type", str "submit") ∷ [])
              (one (plain "Filter"))
          ∷ when (not (type == "")) (link path "Clear")
          ∷ []))

  -- The body of the page `current` of `pages`, at the path of the request, for one member or for all.
  unfoldable pub history_body :
      Option Member → (path type : String) → (total pages current : ℕ) → List HistoryEvent → Child
  unfolding children
  history_body member path type total pages current rows = list (
      children (
        back_link member
        ∷ bare "p" (plain "Member changes are retained indefinitely. Timestamps are UTC." ∷ [])
        ∷ type_form path type
        ∷ bare "p" (
            leaf (num total)
            ∷ plain " event"
            ∷ plain (if total == 1 then "" else "s")
            ∷ plain "."
            ∷ [])
        ∷ event_table t (is_none member) rows
        ∷ pagination "History pages" current pages (history_url path type)
        ∷ []))
