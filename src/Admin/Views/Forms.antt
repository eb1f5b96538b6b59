-- ===== src/Admin/Views/Forms.antt =====
-- The forms for a new member and for editing one (`newMemberForm` and `editor` of site/src/admin.tsx).
use thelab_ms.Base.{ℕ, String, Bool, true, Option, none, some, [], ◌∷◌, string_eq, if◌then◌else◌}
use thelab_ms.Rows.{Member, discount_text}
use thelab_ms.Forms.{Fields, read_form}
use thelab_ms.Html.{Value, absent, num, str, Child, leaf, list, node}
use thelab_ms.Html.Markup.{plain, link, children, classed, tagged, one}
use thelab_ms.Admin.Views.{Texts, input, notice, billing_selects}

-- `Fields`: a saved member, or a resubmitted draft.
pub record Draft : Type 0 where
  pub name_override : Value
  pub email : Value
  pub notes : Value
  pub discord_user_id : Value
  pub stripe_customer_id : Value
  pub fob_id : Value
  pub non_billable : Value
  pub legacy_billing : Value
  pub billing : Option String
  pub discount_type : Option String
  pub metadata_version : Value

abbrev pub text_value : Option String → Value
text_value none = absent
text_value (some text) = str text

abbrev pub number_value : Option ℕ → Value
number_value none = absent
number_value (some n) = num n

abbrev pub flag_value : Bool → Value
flag_value flag = num (if flag then 1 else 0)

-- A form as the fields to display.
unfoldable pub form_draft : Fields → Draft
form_draft form = record {
  name_override = text_value (read_form form "name_override");
  email = text_value (read_form form "email");
  notes = text_value (read_form form "notes");
  discord_user_id = text_value (read_form form "discord_user_id");
  stripe_customer_id = text_value (read_form form "stripe_customer_id");
  fob_id = text_value (read_form form "fob_id");
  non_billable = text_value (read_form form "non_billable");
  legacy_billing = text_value (read_form form "legacy_billing");
  billing = read_form form "billing";
  discount_type = read_form form "discount_type";
  metadata_version = text_value (read_form form "metadata_version");
}

-- { ...member, billing }
unfoldable pub member_draft : Member → Draft
member_draft m = record {
  name_override = str m.name_override;
  email = text_value m.email;
  notes = str m.notes;
  discord_user_id = text_value m.discord_user_id;
  stripe_customer_id = text_value m.stripe_customer_id;
  fob_id = number_value m.fob_id;
  non_billable = flag_value m.non_billable;
  legacy_billing = flag_value m.legacy_billing;
  billing = some (if m.bill_annually then "yearly" else "monthly");
  discount_type = some (discount_text m.discount_type);
  metadata_version = num m.metadata_version;
}

-- { billing: 'monthly', discount_type: '' }
abbrev pub new_draft : Draft
new_draft = record {
  name_override = absent;
  email = absent;
  notes = absent;
  discord_user_id = absent;
  stripe_customer_id = absent;
  fob_id = absent;
  non_billable = absent;
  legacy_billing = absent;
  billing = some "monthly";
  discount_type = some "";
  metadata_version = absent;
}

abbrev pub button : String → String → Child
button class text =
    node "button" (("class", str class) ∷ ("type", str "submit") ∷ []) (one (plain text))

unfoldable pub notes_field : Value → Child
unfolding children
notes_field notes = classed "div" "admin-field" (
    node "label" (("for", str "notes") ∷ []) (one (plain "Internal notes"))
    ∷ node "textarea"
        (("id", str "notes")
          ∷ ("name", str "notes")
          ∷ ("maxlength", str "5000")
          ∷ ("rows", str "4")
          ∷ [])
        (one (leaf notes))
    ∷ [])

abbrev pub all_members_link : Child
all_members_link = tagged "p" "admin-back" (one (link "/admin" "← All members"))

module _ (t : Texts) where
  unfoldable pub new_member_body : Draft → (message : String) → Child
  unfolding children
  new_member_body f message = list (
      children (
        all_members_link
        ∷ notice message true
        ∷ node "form"
            (("method", str "post")
              ∷ ("action", str "/admin/members/new")
              ∷ ("class", str "admin-form admin-section")
              ∷ [])
            (children (
              input "name_override" "Member name" f.name_override 160 "" "text"
              ∷ input "email" "Member email" f.email 254
                  "Use the member’s Discord email so their account and waiver link when they sign in."
                  "email"
              ∷ input "discord_user_id" "Discord ID (optional)" f.discord_user_id 20
                  "Leave blank if the member has not joined Discord yet." "text"
              ∷ billing_selects t f.billing f.discount_type
              ∷ notes_field f.notes
              ∷ classed "div" "admin-actions"
                  (button "btn btn-primary" "Create member" ∷ link "/admin" "Cancel" ∷ [])
              ∷ []))
        ∷ []))
