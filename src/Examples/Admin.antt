-- ===== src/Examples/Admin.antt =====
-- The admin pages at concrete inputs.
use mathlib.Core.List.{Perm}
use thelab_ms.Base.{
  ◌≤◌, ◌≡◌, refl, sym, ap, ◌∙◌, utf16_length, true, false, Option, none, some, [], ◌∷◌, ◌==◌,
  string_eq, keep, length, any,
}
use thelab_ms.Rows.{standard, discount_text}
use thelab_ms.Json.{prop, get_field, as_string, as_num, is_record}
use thelab_ms.App.{Result, ok}
use thelab_ms.Forms.{Fields}
use thelab_ms.Session.{
  Crypto, session_value, Session, read_session, read_token, session_of, auth_key, is_discord_id,
  all_codes, split,
}
use thelab_ms.Database.{
  Database, Statement, done, save_billing, begin_sync, exec, update_members, commit, violation,
  clashes, after_update, member_fob_changed, edge_member_change, member_changed, changed,
  notes_updated,
}
use thelab_ms.Database.Tracking.{run}
use thelab_ms.Admin.Editing.{edited_row}
use thelab_ms.Admin.Listing.{
  Waivers, Accounts, Payments, FilterValues, page_rows, page_count, listed_members, list_matches,
  search_matches, searched,
}
use thelab_ms.Admin.Paging.{pages_after, member_pages_complete}
use thelab_ms.Admin.Search.{column_contains, search_matches-contains}
use thelab_ms.Admin.Locking.{by_choices, by_form, saved_once}
use thelab_ms.Admin.Routing.{AdminRequest, admin_request}
use thelab_ms.Admin.Access.{Refused, admin_request-Refused}
use thelab_ms.App.Atomic.{Atomic}
use thelab_ms.Admin.Editing.{update_member}
use thelab_ms.Admin.Atomic.{update_member-Atomic}
use thelab_ms.Admin.Validation.{
  validate_edit, validate_common, text_input, valid_fob_text, is_fob_text, form_discount,
}
use thelab_ms.Admin.Validation.Bounds.{Bounded, validate_edit-Bounded}
use thelab_ms.Forms.{read_form, trim}
use thelab_ms.Base.{number_of}
use thelab_ms.Database.{Edit}
use thelab_ms.Examples.Sample.{ann, bob, start_db, sample_platform, start_world}

abbrev all_linked : FilterValues
all_linked = record {
  waiver = Waivers.signed;
  discord = Accounts.linked;
  payment = Payments.any_payment;
}

member_pages_complete_example :
    Perm
      (pages_after 0
        (page_count (length (listed_members "" all_linked start_db)))
        (listed_members "" all_linked start_db))
      (keep (list_matches "" all_linked) start_db.members)
    × (length (page_rows 1 (listed_members "" all_linked start_db)) ≤ 25)
member_pages_complete_example = member_pages_complete "" all_linked start_db 1

search_matches-contains_example :
    search_matches "50%_A" ann ≡ any (column_contains "50%_A") (searched ann)
search_matches-contains_example = search_matches-contains "50%_A" ann

abbrev chosen : Statement
chosen = save_billing false standard "a1" 0

abbrev saved_db : Database
saved_db = record start_db { members = record ann { metadata_version = 1 } ∷ bob ∷ [] }

saves : exec 1700000000000 chosen start_db ≡ done saved_db
unfolding exec update_members commit violation after_update member_fob_changed edge_member_change
    member_changed changed notes_updated clashes discount_text
saves = refl

abbrev no_fields : Fields
no_fields = []

abbrev late_edit : Statement
late_edit = save_billing true standard "a1" 0

saved_once_example :
    (run
        ((1700000000009, late_edit) ∷ [])
        (run ((1700000000005, begin_sync "a1" none) ∷ []) saved_db)
      ≡ run ((1700000000005, begin_sync "a1" none) ∷ []) saved_db)
    × (edited_row ann 0 (run ((1700000000005, begin_sync "a1" none) ∷ []) saved_db) (
          run
            ((1700000000009, late_edit) ∷ [])
            (run ((1700000000005, begin_sync "a1" none) ∷ []) saved_db))
        ≡ none)
saved_once_example =
    saved_once ann 0 1700000000000 1700000000009 chosen late_edit start_db saved_db
      ((1700000000005, begin_sync "a1" none) ∷ []) (by_choices false standard)
      (by_form (by_choices true standard)) ((λ own. refl), ((λ own. cc), tt)) (refl, tt) saves

abbrev member_crypto : Crypto
member_crypto = record {
  auth_secret = "0123456789abcdef0123456789abcdef";
  encode_json = λ value. "c2Vzc2lvbg";
  mac = λ payload. "c2ln";
  verify = λ signature payload. some (signature == "c2ln");
  decode_json = λ payload. some (session_value "123456789012345678" false 1700086400);
}

abbrev delete_request : AdminRequest
delete_request = record {
  method = "POST";
  path = "/admin/members/00000000000000000000000000000000/delete";
  params = λ key. none;
  fields = no_fields;
  cookie = "c2Vzc2lvbg.c2ln";
}

read_member :
    read_session member_crypto 1700000000 "c2Vzc2lvbg.c2ln"
    ≡ ok (some (record { sub = "123456789012345678"; admin = false }))
unfolding read_session read_token auth_key session_of is_record as_num prop get_field as_string
    is_discord_id all_codes utf16_length split
read_member = refl

no_admin :
    (s : Session)
    → read_session member_crypto 1700000000 "c2Vzc2lvbg.c2ln" ≡ ok (some s)
    → s.admin ≡ false
no_admin s h =
    let e : ◌≡◌ {A = Result (Option Session)}
        (ok (some (record { sub = "123456789012345678"; admin = false }))) (ok (some s)) =
      sym read_member ∙ h in
    let same : record { sub = "123456789012345678"; admin = false } ≡ s = cc in
    ap (λ (x : Session). x.admin) (sym same)

admin_request-Refused_example :
    Refused false
      (admin_request sample_platform 2
        (λ s. s)
        (λ field. none)
        member_crypto
        delete_request
        start_world).0
    × ((admin_request sample_platform 2
          (λ s. s)
          (λ field. none)
          member_crypto
          delete_request
          start_world).1
        ≡ start_world)
admin_request-Refused_example =
    admin_request-Refused sample_platform 2 (λ s. s) (λ field. none) member_crypto delete_request
      start_world no_admin

abbrev bob_edit : Edit
bob_edit = record {
  name_override = "Bob";
  notes = "";
  discord_user_id = none;
  bill_annually = false;
  discount_type = standard;
  stripe_customer_id = none;
  fob_id = some 42;
  non_billable = true;
  legacy_billing = false;
  metadata_version = 0;
}

update_member-Atomic_example : Atomic (update_member sample_platform bob (some bob_edit))
update_member-Atomic_example =
    update_member-Atomic sample_platform bob (some bob_edit) (λ step db. refl)

abbrev bob_fields : Fields
bob_fields = ("name_override", "Bob") ∷ ("fob_id", "4294967295") ∷ ("metadata_version", "0") ∷ []

abbrev bob_form : Edit
bob_form = record bob_edit { fob_id = some 4294967295; non_billable = false }

bob_valid : validate_edit (λ field. some 0) bob_fields ≡ ok (some bob_form)
unfolding validate_edit validate_common text_input valid_fob_text is_fob_text form_discount
    read_form trim utf16_length number_of all_codes discount_text
bob_valid = refl

validate_edit-Bounded_example : Bounded bob_form
validate_edit-Bounded_example =
    validate_edit-Bounded (λ field. some 0) bob_fields bob_form bob_valid
