-- ===== src/Admin/Views/Editor.antt =====
-- The page that edits a member (`editor` of site/src/admin.tsx).
use thelab_ms.Base.{
  ℕ, String, Bool, true, false, not, none, List, [], ◌∷◌, map, ◌==◌, string_eq, if◌then◌else◌,
  template, leb,
}
use thelab_ms.Rows.{Member, MemberEvent}
use thelab_ms.Forms.{member_path}
use thelab_ms.Html.{bool, str, Child, list, node, nil}
use thelab_ms.Html.Markup.{plain, link, children, classed, tagged, bare, one, when}
use thelab_ms.Admin.History.{HistoryEvent}
use thelab_ms.Admin.Views.{
  Texts, date, status_badge, subscription_link, input, checkbox, notice, billing_selects, or_blank,
  or_empty_value,
}
use thelab_ms.Admin.Views.Members.{name_of}
use thelab_ms.Admin.Views.Events.{event_table}
use thelab_ms.Admin.Views.Forms.{Draft, button, notes_field, all_members_link}

abbrev pub help : String → Child
help text = tagged "p" "admin-help" (one (plain text))

-- <div><dt>{label}</dt><dd>{value}</dd></div>
abbrev pub detail_row : String × String → Child
unfolding children
detail_row row = bare "div" (bare "dt" (plain row.0 ∷ []) ∷ bare "dd" (plain row.1 ∷ []) ∷ [])

abbrev pub or_dash : String × String → String × String
or_dash row = (row.0, if row.1 == "" then "—" else row.1)

-- The list `account`.
abbrev pub account : Member → List (String × String)
account m =
    ("Member email", or_blank m.email)
    ∷ ("Waiver name", m.waiver_name)
    ∷ ("Discord username", m.discord_username)
    ∷ ("Discord email", m.discord_email)
    ∷ ("Billing name (Stripe)", m.billing_name)
    ∷ ("Billing email (Stripe)", m.billing_email)
    ∷ []

unfoldable pub checkout_field : String → Child
unfolding children
checkout_field checkout = classed "div" "admin-field" (
    node "label" (("for", str "checkout-url") ∷ []) (one (plain "Shareable Stripe checkout URL"))
    ∷ node "input"
        (("id", str "checkout-url")
          ∷ ("type", str "url")
          ∷ ("readonly", bool true)
          ∷ ("value", str checkout)
          ∷ [])
        nil
    ∷ [])

abbrev pub outline_button : String → List Child → Child
unfolding children
outline_button action inside =
    node "button"
      (("class", str "btn btn-outline") ∷ ("type", str "submit") ∷ ("formaction", str action) ∷ [])
      (children inside)

-- The parts of the page. `is_refused` is status >= 400, and `path` the member's path.
module _ (t : Texts) (m : Member) (f : Draft) (is_refused : Bool) (checkout path : String) where
  unfoldable pub billing_details : Child
  unfolding children
  billing_details =
      node "details"
        (("class", str "admin-billing admin-linked-accounts")
          ∷ ("open", bool (if not (checkout == "") then true else is_refused))
          ∷ [])
        (children (
          bare "summary" (plain "Billing info" ∷ [])
          ∷ help
              "Used for new checkouts only. Generating a link saves these choices. Manage existing subscriptions in Stripe."
          ∷ billing_selects t f.billing f.discount_type
          ∷ classed "div" "admin-actions" (
              outline_button (template (path ∷ "/checkout" ∷ []))
                (plain "Generate checkout link" ∷ [])
              ∷ [])
          ∷ help
              "Share this Stripe link with the member, even before they link Discord. A signed waiver is still required for door access."
          ∷ when (not (checkout == "")) (checkout_field checkout)
          ∷ []))

  unfoldable pub settings_section : (fob_enabled : Bool) → Child
  unfolding children
  settings_section fob_enabled =
      node "section"
        (("class", str "admin-section") ∷ ("aria-labelledby", str "member-settings") ∷ [])
        (children (
          node "h2" (("id", str "member-settings") ∷ []) (one (plain "Member settings"))
          ∷ input "name_override" "Name override" f.name_override 160 "" "text"
          ∷ node "div" (("class", str "admin-field") ∷ ("aria-label", str "Saved fob status") ∷ [])
              (one (
                tagged "span"
                  (template (
                    "admin-status admin-status--"
                    ∷ (if fob_enabled then "active" else "inactive")
                    ∷ []))
                  (children
                    (plain "Fob " ∷ plain (if fob_enabled then "enabled" else "disabled") ∷ []))))
          ∷ input "fob_id" "Fob ID" f.fob_id 10 "" "text"
          ∷ checkbox "non_billable" "Non-billable" f.non_billable
          ∷ checkbox "legacy_billing" "Legacy billing" f.legacy_billing
          ∷ billing_details
          ∷ notes_field f.notes
          ∷ []))

  unfoldable pub linked_accounts : Child
  unfolding children
  linked_accounts =
      node "details"
        (("class", str "admin-section admin-linked-accounts") ∷ ("open", bool is_refused) ∷ [])
        (children (
          bare "summary"
            (plain "Linked accounts " ∷ bare "span" (plain "Edit Discord and Stripe IDs" ∷ []) ∷ [])
          ∷ classed "div" "admin-linked-fields" (
              input "discord_user_id" "Discord ID" f.discord_user_id 20
                "Changing this ID transfers membership to that Discord account." "text"
              ∷ input "stripe_customer_id" "Stripe customer ID" f.stripe_customer_id 255
                  "The current subscription is read from this customer." "text"
              ∷ [])
          ∷ []))

  unfoldable pub editor_actions : Child
  unfolding children
  editor_actions = classed "div" "admin-actions" (
      button "btn btn-primary" "Save changes"
      ∷ link path "Reload member"
      ∷ node "button"
          (("class", str "btn btn-outline")
            ∷ ("type", str "submit")
            ∷ ("form", str "sync-member")
            ∷ [])
          (one (plain "Sync with Stripe"))
      ∷ node "button"
          (("class", str "btn btn-outline admin-delete")
            ∷ ("type", str "submit")
            ∷ ("form", str "delete-member")
            ∷ ("disabled", bool true)
            ∷ [])
          (one (plain "Delete member"))
      ∷ [])

  unfoldable pub editor_form : (fob_enabled : Bool) → Child
  unfolding children
  editor_form fob_enabled =
      node "form"
        (("method", str "post")
          ∷ ("action", str path)
          ∷ ("class", str "admin-form admin-editor")
          ∷ [])
        (children (
          node "button"
            (("class", str "sr-only")
              ∷ ("type", str "submit")
              ∷ ("tabindex", str "-1")
              ∷ ("aria-hidden", str "true")
              ∷ [])
            (one (plain "Save changes"))
          ∷ node "input"
              (("type", str "hidden")
                ∷ ("name", str "metadata_version")
                ∷ ("value", or_empty_value f.metadata_version)
                ∷ [])
              nil
          ∷ settings_section fob_enabled
          ∷ linked_accounts
          ∷ editor_actions
          ∷ []))

  unfoldable pub account_details : Child
  unfolding children
  account_details =
      node "aside"
        (("class", str "admin-section admin-account")
          ∷ ("aria-labelledby", str "account-details")
          ∷ [])
        (children (
          node "h2" (("id", str "account-details") ∷ []) (one (plain "Account details"))
          ∷ tagged "dl" "admin-account-fields" (
              children (
                list (children (map (λ row. detail_row (or_dash row)) (account m)))
                ∷ detail_row ("Registered", date t m.created)
                ∷ []))
          ∷ []))

  unfoldable pub outside_forms : Child
  unfolding children
  outside_forms = list (
      children (
        node "form"
          (("id", str "sync-member")
            ∷ ("method", str "post")
            ∷ ("action", str (template (path ∷ "/sync" ∷ [])))
            ∷ [])
          nil
        ∷ node "form"
            (("id", str "delete-member")
              ∷ ("method", str "post")
              ∷ ("action", str (template (path ∷ "/delete" ∷ [])))
              ∷ (
                "data-confirm",
                str (
                    template (
                      "Delete "
                      ∷ name_of m
                      ∷ "? This cannot be undone. Cancel any Stripe subscription separately."
                      ∷ [])),
              )
              ∷ [])
            nil
        ∷ bare "noscript" (help "Enable JavaScript to delete a member with confirmation." ∷ [])
        ∷ []))

  unfoldable pub recent_history : List HistoryEvent → Child
  unfolding children
  recent_history events = classed "section" "card admin-section" (
      bare "h2" (plain "Recent member history" ∷ [])
      ∷ event_table t false events
      ∷ bare "p" (link (template (path ∷ "/events" ∷ [])) "View full member history" ∷ [])
      ∷ [])

-- The page's body: the member with whether the fob opens doors, the fields to show, a message with its
-- status, the address of a checkout link or "", and the last ten events.
unfoldable pub editor_body :
    Texts
    → Member
    → (fob_enabled : Bool) → Draft
    → (message : String) → (status : ℕ) → (checkout : String) → List MemberEvent
    → Child
unfolding children
editor_body t m fob_enabled f message status checkout events =
    let path = member_path m.member_id in
    let refused = leb 400 status in
    list (
      children (
        all_members_link
        ∷ notice message refused
        ∷ node "section"
            (("class", str "admin-member-summary")
              ∷ ("aria-label", str "Subscription summary")
              ∷ [])
            (one
              (classed "div" "admin-summary-line" (status_badge t m ∷ subscription_link t m ∷ [])))
        ∷ classed "div" "admin-editor-layout" (
            editor_form t m f refused checkout path fob_enabled
            ∷ account_details t m f refused checkout path
            ∷ [])
        ∷ outside_forms t m f refused checkout path
        ∷ recent_history t m f refused checkout path
            (map (λ event. record { event = event; member = none }) events)
        ∷ []))
