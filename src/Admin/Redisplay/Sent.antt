-- ===== src/Admin/Redisplay/Sent.antt =====
-- What is answered when the editor's form is sent (`adminRequest` of site/src/admin.tsx).
use thelab_ms.Base.{
  ℕ, String, ◌≡◌, Bool, ◌⊎◌, inl, inr, Option, some, ◌==◌, string_eq, nat_eq, bool_eq, option_eq,
  Bool-cases, not,
}
use thelab_ms.Rows.{Member}
use thelab_ms.App.{ok, Platform, World}
use thelab_ms.App.Requests.{Yields, pure-Yields, throw-Yields, >>=-Yields, >>=-Yields_any}
use thelab_ms.Forms.{Fields, read_form}
use thelab_ms.Admin.Views.Forms.{Draft, form_draft}
use thelab_ms.Admin.Checkout.{save_form}
use thelab_ms.Admin.Showing.{AdminPage}
use thelab_ms.Admin.Routing.{AdminRequest, show_link, link_page, post_checkout, member_action}
use thelab_ms.Admin.Redisplay.Saving.{SaveAnswer, post_edit-SaveAnswer}
use thelab_ms.Admin.Redisplay.{
  ShownAgain, same_Shows, Saved, Saved-Shows, linked_draft-Shows, or_page-Yields,
  show_editor-ShownAgain, save_choices-Saved,
}

-- What comes back of the form, by the action it was sent to.
pub data Answers (p : Platform) (fuel : ℕ) (number : Option String → Option ℕ) (r : AdminRequest)
    (m : Member) (fob_enabled : Bool) (w : World) (page : AdminPage) (action : String)
    : Type 0 where
  by_save :
      action ≡ ""
      → SaveAnswer p fuel number r m fob_enabled w page
      → Answers p fuel number r m fob_enabled w page action
  by_link :
      action ≡ "/checkout"
      → ShownAgain (form_draft r.fields) page
      → Answers p fuel number r m fob_enabled w page action

module _ (p : Platform) (fuel : ℕ) (lower : String → String)
    (number : Option String → Option ℕ) where
  save_form-Saved :
      (m : Member) (form : Fields) → Yields (Saved (form_draft form)) (save_form p number m form)
  unfolding save_form
  save_form-Saved m form =
      elim (Bool-cases
        (not (number (read_form form "metadata_version") == some m.metadata_version))) [
          | inl stale ↦ rw stale (throw-Yields (Saved (form_draft form)) _)
          | inr current ↦ rw current (
              >>=-Yields_any (Saved (form_draft form)) _ _
                (λ discount. save_choices-Saved p (form_draft form) m _ discount _))
        ]

  module _ (form : Draft) where
    show_link-ShownAgain :
        (current : Member) (fob_enabled : Bool) (f : Draft)
        → Saved form (current, f)
        → Yields (ShownAgain form) (show_link p fuel lower number current fob_enabled f)
    show_link-ShownAgain current fob_enabled f s =
        or_page-Yields (ShownAgain form) _ _
          (>>=-Yields_any (ShownAgain form) _ _ (λ link.
            show_editor-ShownAgain p form link.1 fob_enabled _ _ 200 link.0
              (linked_draft-Shows form current link.1 f s)))
          (λ message status.
            show_editor-ShownAgain p form current fob_enabled f message status ""
              (Saved-Shows form current f s))

    -- What is bound: the row with the fields, or an answer.
    abbrev Bound {ℓ} : {A : Type ℓ} → (A → Type 0) → A ⊎ AdminPage → Type 0
    Bound Q (inl a) = Q a
    Bound Q (inr page) = ShownAgain form page

    link_page-ShownAgain :
        (fob_enabled : Bool) (outcome : (Member × Draft) ⊎ AdminPage)
        → Bound (Saved form) outcome
        → Yields (ShownAgain form) (link_page p fuel lower number fob_enabled outcome)
    link_page-ShownAgain fob_enabled (inl (current, f)) s =
        show_link-ShownAgain current fob_enabled f s
    link_page-ShownAgain fob_enabled (inr page) answered =
        pure-Yields (ShownAgain form) page answered

  post_checkout-ShownAgain :
      (r : AdminRequest) (m : Member) (fob_enabled : Bool)
      → Yields
          (ShownAgain (form_draft r.fields))
          (post_checkout p fuel lower number r m fob_enabled)
  post_checkout-ShownAgain r m fob_enabled =
      let form = form_draft r.fields in
      >>=-Yields (ShownAgain form) (Bound form (Saved form)) _ _
        (or_page-Yields (Bound form (Saved form)) _ _
          (>>=-Yields (Bound form (Saved form)) (Saved form) _ _ (save_form-Saved m r.fields)
            (λ current s. pure-Yields (Bound form (Saved form)) (inl current) s))
          (λ message status.
            >>=-Yields (Bound form (Saved form)) (ShownAgain form) _ _
              (show_editor-ShownAgain p form m fob_enabled form message status ""
                (same_Shows form m))
              (λ page a. pure-Yields (Bound form (Saved form)) (inr page) a)))
        (link_page-ShownAgain form fob_enabled)

  -- When the editor's form is sent, to save the member or to open a checkout, and a page comes back. To save:
  -- the redirect to the member's page, only if the edit was valid and was written, with the notice that
  -- tells how the side effects ended; or, only if it was not, the editor with every field as it was sent
  -- and the failure as its message and status. To open a checkout: the editor with every field as it was sent,
  -- except that the version and the Stripe customer may be those of the row that is shown instead.
  pub member_action-Answers :
      (r : AdminRequest) (action : String) (m : Member) (fob_enabled : Bool) (page : AdminPage)
      (w w' : World)
      → r.method ≡ "POST"
      → (action ≡ "") ⊎ (action ≡ "/checkout")
      → member_action p fuel lower number r action m fob_enabled w ≡ (ok page, w')
      → Answers p fuel number r m fob_enabled w page action
  unfolding member_action
  member_action-Answers r action m fob_enabled page w w' post (inl saves) h =
      by_save saves
        (post_edit-SaveAnswer p fuel lower number r m fob_enabled w w' page (rw (post, saves) at h))
  member_action-Answers r action m fob_enabled page w w' post (inr links) h =
      by_link links
        ((post_checkout-ShownAgain r m fob_enabled).yields w w' page (rw (post, links) at h))
