-- ===== src/Admin/Redisplay.antt =====
-- What the editor shows again after a form was sent (`adminRequest` of site/src/admin.tsx).
pub mod Saving
pub mod Sent
use thelab_ms.Base.{
  ℕ, String, ◌≡◌, refl, sym, ap, ◌∙◌, Bool, true, false, ◌&&◌, ◌⊎◌, inl, inr, Option, none, some,
  List, ◌==◌, string_eq, nat_eq, bool_eq, option_eq, if◌then◌else◌, Bool-cases, not, eq_iff, arith,
}
use thelab_ms.Rows.{Member, MemberEvent, Discount}
use thelab_ms.App.{Failure, ok, err, Platform, World, App, pure, throw, try_catch, ◌>>=◌, ◌>>◌}
use thelab_ms.App.Requests.{
  Yields, pure-Yields, throw-Yields, try_catch-Yields, >>=-Yields, >>=-Yields_any,
}
use thelab_ms.Html.{Value, num, str}
use thelab_ms.Forms.{Fields, read_form}
use thelab_ms.Admin.Views.{or_blank}
use thelab_ms.Admin.Views.Forms.{Draft, form_draft}
use thelab_ms.Admin.Views.Pages.{editor_view}
use thelab_ms.Admin.Editing.{Edited, found_row}
use thelab_ms.Admin.Checkout.{is_same_billing, save_choices, save_form}
use thelab_ms.Admin.Showing.{AdminPage, redirected, viewed, is_text, linked_draft, show_editor}
use thelab_ms.Admin.Routing.{
  AdminRequest, is_http_error, or_page, after_edit, show_refused, finish_edit, post_edit, show_link,
  link_page, show_unsaved, post_checkout, member_action,
}

-- The fields that the admin typed, apart from the version and the customer, are shown as they came.
pub record Kept (form shown : Draft) : Type 0 where
  pub name_override : shown.name_override ≡ form.name_override
  pub email : shown.email ≡ form.email
  pub notes : shown.notes ≡ form.notes
  pub discord_user_id : shown.discord_user_id ≡ form.discord_user_id
  pub fob_id : shown.fob_id ≡ form.fob_id
  pub non_billable : shown.non_billable ≡ form.non_billable
  pub legacy_billing : shown.legacy_billing ≡ form.legacy_billing
  pub billing : shown.billing ≡ form.billing
  pub discount_type : shown.discount_type ≡ form.discount_type

-- The version and the customer are those of the form or of the member that is shown.
pub record Shows (form : Draft) (m : Member) (shown : Draft) : Type 0 where
  pub kept : Kept form shown
  pub version :
      (shown.metadata_version ≡ form.metadata_version)
      ⊎ (shown.metadata_version ≡ num m.metadata_version)
  pub customer :
      (shown.stripe_customer_id ≡ form.stripe_customer_id)
      ⊎ (shown.stripe_customer_id ≡ str (or_blank m.stripe_customer_id))

-- The editor with the form's fields.
pub data ShownAgain (form : Draft) : AdminPage → Type 0 where
  shown_again :
      (m : Member) (fob_enabled : Bool) (f : Draft) (message : String) (status : ℕ)
      (checkout : String) (events : List MemberEvent)
      → Shows form m f
      → ShownAgain form (viewed (editor_view m fob_enabled f message status checkout events))

same_Kept : (f : Draft) → Kept f f
same_Kept f = record {
  name_override = refl;
  email = refl;
  notes = refl;
  discord_user_id = refl;
  fob_id = refl;
  non_billable = refl;
  legacy_billing = refl;
  billing = refl;
  discount_type = refl;
}

pub same_Shows : (f : Draft) (m : Member) → Shows f m f
same_Shows f m = record { kept = same_Kept f; version = inl refl; customer = inl refl }

-- With the customer still the form's.
pub record Saved (form : Draft) (saved : Member × Draft) : Type 0 where
  pub kept : Kept form saved.1
  pub version :
      (saved.1.metadata_version ≡ form.metadata_version)
      ⊎ (saved.1.metadata_version ≡ num saved.0.metadata_version)
  pub customer : saved.1.stripe_customer_id ≡ form.stripe_customer_id

pub Saved-Shows : (form : Draft) (m : Member) (f : Draft) → Saved form (m, f) → Shows form m f
Saved-Shows form m f s = record { kept = s.kept; version = s.version; customer = inl s.customer }

pub linked_draft-Shows :
    (form : Draft) (current linked : Member) (f : Draft)
    → Saved form (current, f)
    → Shows form linked (linked_draft current linked f)
unfolding linked_draft
linked_draft-Shows form current linked f s = record {
  kept = record {
    name_override = s.kept.name_override;
    email = s.kept.email;
    notes = s.kept.notes;
    discord_user_id = s.kept.discord_user_id;
    fob_id = s.kept.fob_id;
    non_billable = s.kept.non_billable;
    legacy_billing = s.kept.legacy_billing;
    billing = s.kept.billing;
    discount_type = s.kept.discount_type;
  };
  version = inr refl;
  customer =
      elim (Bool-cases (is_text f.stripe_customer_id (or_blank current.stripe_customer_id))) [
        | inl same ↦ rw same (inr refl)
        | inr other ↦ rw other (inl s.customer)
      ];
}

module _ {ℓ} {A : Type ℓ} (Q : A → Type 0) where
  pub or_page-Yields :
      (page : String → ℕ → App A) (m : App A)
      → Yields Q m
      → ((message : String) (status : ℕ) → Yields Q (page message status))
      → Yields Q (or_page page m)
  or_page-Yields page m q k = try_catch-Yields Q m _ q (λ e. elim (Bool-cases (is_http_error e)) [
    | inl told ↦ rw told (k _ _)
    | inr other ↦ rw other (throw-Yields Q e)
  ])

module _ (p : Platform) (form : Draft) where
  pub show_editor-ShownAgain :
      (m : Member) (fob_enabled : Bool) (f : Draft) (message : String) (status : ℕ)
      (checkout : String)
      → Shows form m f
      → Yields (ShownAgain form) (show_editor p m fob_enabled f message status checkout)
  unfolding show_editor
  show_editor-ShownAgain m fob_enabled f message status checkout s =
      >>=-Yields_any (ShownAgain form) _ _ (λ events.
        pure-Yields (ShownAgain form) _
          (shown_again m fob_enabled f message status checkout events s))

  pub save_choices-Saved :
      (m : Member) (annual : Bool) (discount : Discount) (version : ℕ)
      → Yields (Saved form) (save_choices p m annual discount version form)
  save_choices-Saved m annual discount version =
      elim (Bool-cases (is_same_billing annual discount m)) [
        | inl same ↦ rw same (
            pure-Yields (Saved form) _
              (record { kept = same_Kept form; version = inl refl; customer = refl }))
        | inr changed ↦ rw changed (
            >>=-Yields_any (Saved form) _ _ (λ updated.
              >>=-Yields_any (Saved form) (found_row updated) _ (λ row.
                pure-Yields (Saved form) _ (record {
                  kept = record {
                    name_override = refl;
                    email = refl;
                    notes = refl;
                    discord_user_id = refl;
                    fob_id = refl;
                    non_billable = refl;
                    legacy_billing = refl;
                    billing = refl;
                    discount_type = refl;
                  };
                  version = inr refl;
                  customer = refl;
                }))))
      ]
