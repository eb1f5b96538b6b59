-- ===== src/Admin/Checkout.antt =====
-- POST /admin/members/../checkout, up to the link (site/src/admin.tsx).
use thelab_ms.Base.{
  ℕ, String, Bool, ◌&&◌, not, Option, some, ◌==◌, string_eq, nat_eq, bool_eq, option_eq,
  if◌then◌else◌,
}
use thelab_ms.Rows.{Member, Discount, discount_text}
use thelab_ms.Database.{save_billing}
use thelab_ms.App.{Platform, App, pure, throw, ◌>>=◌, execute}
use thelab_ms.Clients.{lift}
use thelab_ms.Forms.{Fields, read_form}
use thelab_ms.Html.{num}
use thelab_ms.Admin.Views.Forms.{Draft, form_draft}
use thelab_ms.Admin.Validation.{form_discount, is_annual}
use thelab_ms.Admin.Editing.{stale_form, edited_row, found_row}

-- billing.bill_annually !== member.bill_annually || billing.discount_type !== member.discount_type
abbrev pub is_same_billing : Bool → Discount → Member → Bool
is_same_billing annual discount member =
    annual == member.bill_annually && discount_text discount == discount_text member.discount_type

module _ (p : Platform) where
  abbrev pub save_choices : Member → Bool → Discount → ℕ → Draft → App (Member × Draft)
  save_choices member annual discount version f =
      if is_same_billing annual discount member then pure (member, f) else do
        updated ←
            execute p (save_billing annual discount member.member_id version)
              (edited_row member version)
        row ← found_row updated
        pure (row, record f { metadata_version = num row.metadata_version })

  -- The choices that the link uses are saved first. The result is the row after it, and the fields to
  -- show again.
  unfoldable pub save_form : (Option String → Option ℕ) → Member → Fields → App (Member × Draft)
  save_form number member form =
      if not (number (read_form form "metadata_version") == some member.metadata_version)
      then throw stale_form
      else do
        discount ← lift (form_discount form)
        save_choices member (is_annual form) discount member.metadata_version (form_draft form)
