-- ===== src/Admin/Views/Members.antt =====
-- The page of the member list (`memberList` of site/src/admin.tsx).
use Prim.Native.String.{◌++◌}
use thelab_ms.Base.{
  ℕ, String, Bool, true, ◌||◌, not, some, List, [], ◌∷◌, map, ◌==◌, string_eq, nat_eq, option_eq,
  if◌then◌else◌, template,
}
use thelab_ms.Rows.{Member}
use thelab_ms.Forms.{member_name, member_path}
use thelab_ms.Html.{bool, num, str, Child, leaf, list, node, nil}
use thelab_ms.Html.Markup.{plain, link, children, classed, tagged, bare, one, when, or_null}
use thelab_ms.Admin.Listing.{FilterValues, waiver_text, discord_text, payment_text, list_params}
use thelab_ms.Admin.Views.{
  Texts, Choices, options, status_badge, subscription_link, pagination, or_blank,
}

-- memberName(member)
abbrev pub name_of : Member → String
name_of m =
    member_name (some m.name_override) (some m.billing_name) (some m.discord_username)
      (some m.waiver_name) m.email

abbrev pub waiver_choices : Choices
waiver_choices =
    ("all", "Any waiver") ∷ ("signed", "Waiver signed") ∷ ("unsigned", "No waiver") ∷ []

abbrev pub discord_choices : Choices
discord_choices =
    ("all", "Any Discord") ∷ ("linked", "Discord linked") ∷ ("unlinked", "No Discord") ∷ []

abbrev pub payment_choices : Choices
payment_choices =
    ("all", "Any payment")
    ∷ ("stripe_active", "Stripe active")
    ∷ ("legacy_billing", "Legacy billing")
    ∷ ("non_billable", "Non-billable")
    ∷ ("inactive", "Inactive")
    ∷ []

unfoldable pub filter_select :
    (name label : String) → Choices → (value : String) (disabled : Bool) → Child
unfolding children
filter_select name label choices value disabled = list (
    children (
      node "label" (("class", str "sr-only") ∷ ("for", str name) ∷ []) (one (plain label))
      ∷ node "select"
          (("id", str name)
            ∷ ("name", str name)
            ∷ ("disabled", bool disabled)
            ∷ ("data-autosubmit", bool true)
            ∷ [])
          (one (options choices (some value)))
      ∷ []))

abbrev pub is_filtered : String → FilterValues → Bool
is_filtered query values =
    not (query == "")
    || (not (waiver_text values.waiver == "all")
        || (not (discord_text values.discord == "all")
            || not (payment_text values.payment == "all")))

abbrev pub is_changed : String → FilterValues → Bool
is_changed query values =
    not (query == "")
    || (not (waiver_text values.waiver == "signed")
        || (not (discord_text values.discord == "linked")
            || not (payment_text values.payment == "all")))

-- m.discord_email || m.email || 'No email'
abbrev pub contact : Member → String
contact m =
    if not (m.discord_email == "")
    then m.discord_email
    else if not (or_blank m.email == "")
    then or_blank m.email
    else "No email"

abbrev pub small : String → Child
small text = node "small" [] (one (plain text))

abbrev pub column : String → Child
column label = node "th" (("scope", str "col") ∷ []) (one (plain label))

module _ (t : Texts) where
  unfoldable pub list_url : ℕ → String → FilterValues → String
  list_url current query values = "/admin?" ++ t.query_string (list_params current query values)

  unfoldable pub member_row : Member → Child
  unfolding children
  member_row m = bare "tr" (
      node "th" (("scope", str "row") ∷ []) (
        children (
          node "a"
            (("class", str "admin-member-name") ∷ ("href", str (member_path m.member_id)) ∷ [])
            (one (plain (name_of m)))
          ∷ small (contact m)
          ∷ or_null m.non_billable (small "Non-billable")
          ∷ or_null m.legacy_billing (small "Legacy billing")
          ∷ []))
      ∷ bare "td" (status_badge t m ∷ node "small" [] (one (subscription_link t m)) ∷ [])
      ∷ [])

  -- tableRows.length ? tableRows : ...
  unfoldable pub member_rows : Bool → List Member → Child
  unfolding children
  member_rows filtered [] = bare "tr" (
      node "td" (("colspan", str "2") ∷ ("class", str "admin-empty") ∷ []) (
        one (
          plain (
            if filtered
            then "No members match your search and filters."
            else "No members have registered yet.")))
      ∷ [])
  member_rows filtered (m ∷ ms) = list (children (map member_row (m ∷ ms)))

  abbrev pub search_form : String → FilterValues → Child
  unfolding children
  search_form query values =
      node "form"
        (("method", str "get")
          ∷ ("action", str "/admin")
          ∷ ("role", str "search")
          ∷ ("class", str "admin-form admin-search-panel")
          ∷ [])
        (children (
          classed "div" "admin-search-row" (
            node "label" (("class", str "sr-only") ∷ ("for", str "member-search") ∷ [])
              (one (plain "Search members"))
            ∷ node "input"
                (("id", str "member-search")
                  ∷ ("type", str "search")
                  ∷ ("name", str "q")
                  ∷ ("value", str query)
                  ∷ ("maxlength", str "254")
                  ∷ ("placeholder", str "Search name, email, Discord, or fob ID")
                  ∷ ("data-search", bool true)
                  ∷ [])
                nil
            ∷ node "button" (("class", str "btn btn-primary") ∷ ("type", str "submit") ∷ [])
                (one (plain "Search"))
            ∷ node "a"
                (("class", str "btn btn-accent-outline") ∷ ("href", str "/admin/members/new") ∷ [])
                (one (plain "New member"))
            ∷ [])
          ∷ classed "div" "admin-filter-row" (
              node "span" (("class", str "admin-filter-label") ∷ ("aria-hidden", str "true") ∷ [])
                (one (plain "Filter"))
              ∷ filter_select "waiver" "Waiver status" waiver_choices (waiver_text values.waiver)
                  (not (query == ""))
              ∷ filter_select "discord" "Discord status" discord_choices
                  (discord_text values.discord) (not (query == ""))
              ∷ filter_select "payment" "Payment status" payment_choices
                  (payment_text values.payment) (not (query == ""))
              ∷ when (is_changed query values) (link "/admin" "Clear")
              ∷ [])
          ∷ []))

  abbrev pub list_summary : String → Bool → ℕ → Child
  unfolding children
  list_summary query filtered total = classed "div" "admin-list-summary" (
      bare "p" (
        bare "strong" (
          leaf (num total)
          ∷ plain " "
          ∷ plain (if filtered then "matching" else "registered")
          ∷ plain " member"
          ∷ plain (if total == 1 then "" else "s")
          ∷ [])
        ∷ plain (if query == "" then "" else template (" for “" ∷ query ∷ "”" ∷ []))
        ∷ [])
      ∷ tagged "p" "admin-help" (
          one (
            plain (
              if query == ""
              then "Newest first"
              else "Searching all members; filters are ignored")))
      ∷ [])

  -- The body of the page `current` of `pages`, with its rows.
  unfoldable pub member_list_body :
      (query : String) → FilterValues → (total pages current : ℕ) → List Member → Child
  unfolding children
  member_list_body query values total pages current rows =
      let filtered = is_filtered query values in
      list (
        children (
          search_form query values
          ∷ list_summary query filtered total
          ∷ node "div"
              (("class", str "admin-table")
                ∷ ("role", str "region")
                ∷ ("aria-label", str "Registered members")
                ∷ ("tabindex", str "0")
                ∷ [])
              (one (
                classed "table" "admin-member-table" (
                  bare "thead" (bare "tr" (column "Member" ∷ column "Subscription" ∷ []) ∷ [])
                  ∷ bare "tbody" (member_rows filtered rows ∷ [])
                  ∷ [])))
          ∷ pagination "Member pages" current pages (λ n. list_url n query values)
          ∷ []))
