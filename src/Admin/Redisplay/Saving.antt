-- ===== src/Admin/Redisplay/Saving.antt =====
-- What the editor answers when a member is saved (`adminRequest` and `updateMember` of site/src/admin.tsx).
use thelab_ms.Base.{
  ℕ, String, ◌≡◌, refl, sym, ap, ◌∙◌, Bool, ◌⊎◌, inl, inr, Option, List, if◌then◌else◌, Bool-cases,
}
use thelab_ms.Rows.{Member, MemberEvent}
use thelab_ms.Database.{Edit}
use thelab_ms.App.{
  Failure, Result, ok, err, failure_status, Platform, World, App, pure, throw, try_catch, query,
  continue, recover, arrive, ◌>>=◌,
}
use thelab_ms.App.Laws.{returned, >>=-eq-ok, >>=-eq-err, try_catch-eq-ok}
use thelab_ms.Router.{failure_message}
use thelab_ms.Clients.{lift}
use thelab_ms.Forms.{member_path}
use thelab_ms.Admin.Validation.{validate_edit}
use thelab_ms.Admin.Views.Forms.{form_draft}
use thelab_ms.Admin.Views.Pages.{editor_view}
use thelab_ms.Admin.Editing.{Edited, update_member, side_effects}
use thelab_ms.Admin.Showing.{AdminPage, redirected, viewed, show_editor, recent_events}
use thelab_ms.Admin.Routing.{
  AdminRequest, is_http_error, after_edit, show_refused, finish_edit, post_edit,
}

-- The redirect after an edit that was written, by how its side effects end.
pub data Told (p : Platform) (fuel : ℕ) (m : Member) (edited : Edited) (w : World)
    (page : AdminPage) : Type 0 where
  synced :
      (side_effects p fuel m edited w).0 ≡ ok tt
      → page ≡ redirected (member_path m.member_id) "saved"
      → Told p fuel m edited w page
  not_synced :
      (e : Failure)
      → (side_effects p fuel m edited w).0 ≡ err e
      → page ≡ redirected (member_path m.member_id) "sync_failed"
      → Told p fuel m edited w page

-- The edit is invalid, or it was not written.
pub data Refused (p : Platform) (number : Option String → Option ℕ) (r : AdminRequest) (m : Member)
    (w : World) (e : Failure) : Type 0 where
  invalid : validate_edit number r.fields ≡ err e → Refused p number r m w e
  unwritten :
      (value : Option Edit)
      → validate_edit number r.fields ≡ ok value
      → (update_member p m value w).0 ≡ err e
      → Refused p number r m w e

-- The answer to a save: a redirect, or the editor with the form as it was sent.
pub data SaveAnswer (p : Platform) (fuel : ℕ) (number : Option String → Option ℕ) (r : AdminRequest)
    (m : Member) (fob_enabled : Bool) (w : World) (page : AdminPage) : Type 0 where
  saved :
      (value : Option Edit) (edited : Edited) (w₁ : World)
      → validate_edit number r.fields ≡ ok value
      → update_member p m value w ≡ (ok edited, w₁)
      → Told p fuel m edited w₁ page
      → SaveAnswer p fuel number r m fob_enabled w page
  refused :
      (e : Failure) (events : List MemberEvent)
      → Refused p number r m w e
      → page
        ≡ viewed (
            editor_view m fob_enabled
              (form_draft r.fields)
              (failure_message e)
              (failure_status e)
              ""
              events)
      → SaveAnswer p fuel number r m fob_enabled w page

module _ (p : Platform) (fuel : ℕ) (lower : String → String)
    (number : Option String → Option ℕ) where
  module _ (r : AdminRequest) (m : Member) (fob_enabled : Bool) (w : World) where
    after_edit-Told :
        (edited : Edited) (w₁ w' : World) (page : AdminPage)
        → after_edit p fuel lower number m edited w₁ ≡ (ok page, w')
        → Told p fuel m edited w₁ page
    unfolding try_catch ◌>>=◌ pure
    after_edit-Told edited w₁ w' page h = told (side_effects p fuel m edited w₁) refl h
      where
        told :
            (o : Result (Unit {0}) × World)
            → side_effects p fuel m edited w₁ ≡ o
            → recover
                (λ e. pure (redirected (member_path m.member_id) "sync_failed"))
                (continue o (λ u. pure (redirected (member_path m.member_id) "saved")))
              ≡ (ok page, w')
            → Told p fuel m edited w₁ page
        told (ok u, w₂) e g = synced (ap (λ x. x.0) e) (sym (returned g))
        told (err failure, w₂) e g = not_synced failure (ap (λ x. x.0) e) (sym (returned g))

    -- The editor that tells the failure of a save, with the form as it was sent.
    show_refused-eq-ok :
        (e : Failure) (w₁ w₂ : World) (outcome : Edited ⊎ AdminPage)
        → (if is_http_error e
              then show_refused p fuel lower number m fob_enabled
                  (form_draft r.fields)
                  (failure_message e)
                  (failure_status e)
              else throw e)
            w₁
          ≡ (ok outcome, w₂)
        → (events : List MemberEvent) × (outcome
            ≡ inr (
                viewed (
                  editor_view m fob_enabled
                    (form_draft r.fields)
                    (failure_message e)
                    (failure_status e)
                    ""
                    events)))
    unfolding throw show_editor ◌>>=◌ pure query
    show_refused-eq-ok e w₁ w₂ outcome h = elim (Bool-cases (is_http_error e)) [
      | inl http ↦ (recent_events m.member_id (arrive p w₁).db, sym (returned (rw http at h)))
      | inr other ↦ absurd (cc (rw other at h))
    ]

    -- The `try` of the save.
    abbrev attempt : App (Edited ⊎ AdminPage)
    attempt = do
      value ← lift (validate_edit number r.fields)
      edited ← update_member p m value
      pure (inl edited)

    attempt-eq-ok :
        (outcome : Edited ⊎ AdminPage) (w₁ : World)
        → attempt w ≡ (ok outcome, w₁)
        → (value : Option Edit) × (edited : Edited) × (validate_edit number r.fields ≡ ok value)
          × (update_member p m value w ≡ (ok edited, w₁))
          × (outcome ≡ inl edited)
    unfolding pure
    attempt-eq-ok outcome w₁ h =
        let (value, w₂, found, g) = >>=-eq-ok (lift (validate_edit number r.fields)) _ w h in
        let valid : validate_edit number r.fields ≡ ok value = cc in
        let same : w₂ ≡ w = cc in
        let (edited, w₃, written, k) = >>=-eq-ok (update_member p m value) _ w₂ g in
        let end : w₃ ≡ w₁ = cc in (value, edited, valid, cc, sym (returned k))

    attempt-eq-err : (e : Failure) (w₁ : World) → attempt w ≡ (err e, w₁) → Refused p number r m w e
    unfolding pure
    attempt-eq-err e w₁ h = elim (>>=-eq-err (lift (validate_edit number r.fields)) _ w h) [
      | inl failed ↦ invalid failed
      | inr (value, w₂, found, g) ↦
          let valid : validate_edit number r.fields ≡ ok value = cc in
          let same : w₂ ≡ w = cc in
          elim (>>=-eq-err (update_member p m value) _ w₂ g) [
            | inl failed ↦ unwritten value valid (rw (sym same) failed)
            | inr (edited, w₃, written, k) ↦ absurd (cc)
          ]
    ]

    finish_save :
        (outcome : Edited ⊎ AdminPage) (w₁ w' : World) (page : AdminPage)
        → (attempt w ≡ (ok outcome, w₁))
          ⊎ ((e : Failure) × (w₂ : World) × (attempt w ≡ (err e, w₂))
              × ((if is_http_error e
                      then show_refused p fuel lower number m fob_enabled
                          (form_draft r.fields)
                          (failure_message e)
                          (failure_status e)
                      else throw e)
                    w₂
                  ≡ (ok outcome, w₁)))
        → finish_edit p fuel lower number m outcome w₁ ≡ (ok page, w')
        → SaveAnswer p fuel number r m fob_enabled w page
    unfolding pure
    finish_save (inl edited) w₁ w' page (inl done) g =
        let (value, same, valid, written, e) = attempt-eq-ok _ _ done in
        let equal : same ≡ edited = cc in
        saved value edited w₁ valid (written ∙ ap (λ x. (ok x, w₁)) equal)
          (after_edit-Told edited w₁ w' page g)
    finish_save (inr page') w₁ w' page (inl done) g =
        let (value, same, valid, written, e) = attempt-eq-ok _ _ done in absurd (cc)
    finish_save (inl edited) w₁ w' page (inr (e, w₂, failed, h)) g =
        let (events, told) = show_refused-eq-ok e w₂ w₁ _ h in absurd (cc)
    finish_save (inr page') w₁ w' page (inr (e, w₂, failed, h)) g =
        let (events, told) = show_refused-eq-ok e w₂ w₁ _ h in
        refused e events (attempt-eq-err e w₂ failed) (sym (returned g) ∙ cc)

    pub post_edit-SaveAnswer :
        (w' : World) (page : AdminPage)
        → post_edit p fuel lower number r m fob_enabled w ≡ (ok page, w')
        → SaveAnswer p fuel number r m fob_enabled w page
    post_edit-SaveAnswer w' page h =
        let (outcome, w₁, e, g) = >>=-eq-ok _ (finish_edit p fuel lower number m) w h in
        finish_save outcome w₁ w' page (try_catch-eq-ok attempt _ w e) g
