-- ===== src/Examples/AdminViews.antt =====
-- The editor's form at concrete inputs.
use thelab_ms.Base.{sort_by, refl, some, none, inr, ◌≡◌, true, [], ◌∷◌}
use thelab_ms.App.{ok, pure, throw, query, ◌>>=◌, try_catch, failure_status}
use thelab_ms.Forms.{Fields, read_form}
use thelab_ms.Router.{failure_message}
use thelab_ms.Admin.History.{listed_events}
use thelab_ms.Admin.Views.Forms.{form_draft}
use thelab_ms.Admin.Views.Pages.{editor_view}
use thelab_ms.Admin.Checkout.{save_form}
use thelab_ms.Admin.Showing.{AdminPage, viewed, show_editor}
use thelab_ms.Admin.Routing.{AdminRequest, member_action, is_http_error}
use thelab_ms.Admin.Redisplay.Sent.{Answers, member_action-Answers}
use thelab_ms.Examples.Sample.{ann, sample_platform, start_world}

abbrev unsaved : Fields
unsaved = ("notes", "new notes") ∷ ("stripe_customer_id", "cus_b") ∷ ("metadata_version", "9") ∷ []

abbrev link_request : AdminRequest
link_request = record {
  method = "POST";
  path = "/admin/members/a1/checkout";
  params = λ name. none;
  fields = unsaved;
  cookie = "";
}

abbrev told : AdminPage
told = viewed (
    editor_view ann true (form_draft unsaved)
      "This member was changed after you opened the form. Reload the member and reapply your edits."
      409 "" [])

refused_link :
    member_action sample_platform 2
      (λ s. s)
      (λ field. some 9)
      link_request
      "/checkout"
      ann
      true
      start_world
    ≡ (ok told, record start_world { step = 1 })
unfolding member_action save_form show_editor form_draft read_form failure_message failure_status
    is_http_error throw pure query ◌>>=◌ try_catch listed_events sort_by
refused_link = refl

member_action-Answers_example :
    Answers sample_platform 2 (λ field. some 9) link_request ann true start_world told "/checkout"
member_action-Answers_example =
    member_action-Answers sample_platform 2 (λ s. s) (λ field. some 9) link_request "/checkout" ann
      true told start_world (record start_world { step = 1 }) refl (inr refl) refused_link
