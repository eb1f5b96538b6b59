-- ===== src/Database/Statements.antt =====
-- The SQL that the worker writes with, one constructor for each statement of site/src, and its effect.
use thelab_ms.Base.{
  ℕ, ◌+◌, ◌/◌, String, Bool, true, false, ◌&&◌, ◌||◌, not, Option, none, some, List, [], ◌∷◌, ◌++◌,
  ◌==◌, string_eq, nat_eq, bool_eq, option_eq, if◌then◌else◌, any, keep, leb,
}
use thelab_ms.Rows.{Member, MemberEvent, num, text, Details, FobAssignment, Discount}
use thelab_ms.Database.Tables.{Database}
use thelab_ms.Database.Triggers.{flag_scalar}
use thelab_ms.Database.Updates.{
  Outcome, done, foreign_key_failed, or_nothing, update_members, insert_member, new_member,
  delete_member, insert_waiver,
}

-- A swipe as `swipeWebhook` binds it; `at` is the instant that `time` names, in milliseconds.
pub record Swipe : Type 0 where
  pub id : String
  pub fob : ℕ
  pub allowed : Bool
  pub controller : String
  pub time : String
  pub at : ℕ

-- The values of the member editor's form (`validateEdit` of site/src/admin.tsx).
pub record Edit : Type 0 where
  pub name_override : String
  pub notes : String
  pub discord_user_id : Option String
  pub bill_annually : Bool
  pub discount_type : Discount
  pub stripe_customer_id : Option String
  pub fob_id : Option ℕ
  pub non_billable : Bool
  pub legacy_billing : Bool
  pub metadata_version : ℕ

-- The values of the new-member form (`validateNew`), with the Discord username that was looked up.
pub record NewMember : Type 0 where
  pub email : String
  pub name_override : String
  pub notes : String
  pub discord_user_id : Option String
  pub discord_username : String
  pub bill_annually : Bool
  pub discount_type : Discount

-- What a finished Stripe lookup publishes.
pub record Billing : Type 0 where
  pub subscription_id : Option String
  pub subscription_state : Option String
  pub name : String
  pub email : String

pub data Statement : Type 0 where
  -- auth.ts, registerMember
  link_discord : (discord_id email : String) → Statement
  register : (member_id discord_id email : String) → Statement
  refresh_identity : (username email discord_id : String) → Statement
  -- billing.ts
  begin_sync : (member_id : String) (customer : Option String) → Statement
  publish_sync : Billing → (member_id : String) (customer : Option String) (version : ℕ) → Statement
  link_customer : (customer reference : String) → Statement
  save_customer : (customer member_id : String) (version : ℕ) → Statement
  -- edge.tsx
  request_sync : (seconds : ℕ) → Statement
  record_swipe : Swipe → Statement
  bind_fob : (fob : ℕ) (member_id : String) → Statement
  -- waiver.tsx
  sign_waiver : (name email member_id : String) → Statement
  preregister : (member_id email : String) → Statement
  sign_by_email : (name email : String) → Statement
  -- admin.tsx
  create_member : (member_id : String) → NewMember → Statement
  edit_member :
      Edit
      → (discord_changed : Option String) (customer_changed : Bool) (member_id : String) → Statement
  save_billing :
      (bill_annually : Bool) (discount_type : Discount) (member_id : String) (version : ℕ)
      → Statement
  delete : (member_id : String) → Statement

abbrev pub has_id : String → Member → Bool
has_id id m = m.member_id == id

abbrev pub has_discord : String → Member → Bool
has_discord id m = m.discord_user_id == some id

abbrev pub has_email : String → Member → Bool
has_email email m = m.email == some email

-- email = ? OR discord_email = ?
abbrev pub has_either_email : String → Member → Bool
has_either_email email m = m.email == some email || m.discord_email == email

abbrev pub bump_version : Member → Member
bump_version m = record m { metadata_version = m.metadata_version + 1 }

-- discord_username = ?, discord_email = '' only if the Discord account changes
unfoldable pub edit_discord : Option String → Member → Member
edit_discord none m = m
edit_discord (some username) m = record m { discord_username = username; discord_email = "" }

-- stripe_subscription_id = NULL, ... only if the Stripe customer changes
unfoldable pub edit_customer : Bool → Member → Member
edit_customer false m = m
edit_customer true m = record m {
  stripe_subscription_id = none;
  stripe_subscription_state = none;
  billing_name = "";
  billing_email = "";
}

abbrev pub edit_row : Edit → Option String → Bool → Member → Member
edit_row v discord_changed customer_changed m =
    let n = edit_customer customer_changed (edit_discord discord_changed m) in
    record n {
      discord_user_id = v.discord_user_id;
      name_override = v.name_override;
      notes = v.notes;
      bill_annually = v.bill_annually;
      discount_type = v.discount_type;
      fob_id = v.fob_id;
      non_billable = v.non_billable;
      legacy_billing = v.legacy_billing;
      stripe_customer_id = v.stripe_customer_id;
      metadata_version = m.metadata_version + 1;
    }

-- ended IS NULL OR ended > at
open_at : ℕ → Option ℕ → Bool
open_at at none = true
open_at at (some ended) = not (leb ended at)

-- fob = ? AND started <= at AND (ended IS NULL OR ended > at)
unfoldable pub assigned_at : ℕ → ℕ → FobAssignment → Bool
unfolding open_at
assigned_at fob at a = a.fob == fob && (leb a.started at && open_at at a.ended)

-- ORDER BY started DESC, id DESC LIMIT 1: rows stand in the order of their ids.
later_start : Option FobAssignment → FobAssignment → Option FobAssignment
later_start none b = some b
later_start (some a) b = if leb a.started b.started then some b else some a

newest : Option FobAssignment → List FobAssignment → Option FobAssignment
newest best [] = best
newest best (a ∷ as') = newest (later_start best a) as'

owner : Option FobAssignment → Option String
owner none = none
owner (some a) = a.member_id

unfoldable pub swipe_owner : ℕ → ℕ → Database → Option String
unfolding assigned_at later_start newest owner
swipe_owner fob at db = owner (newest none (keep (assigned_at fob at) db.fob_assignments))

abbrev pub swipe_details : Swipe → Details
swipe_details e =
    ("id", text e.id)
    ∷ ("time", text e.time)
    ∷ ("controller", text e.controller)
    ∷ ("fob", num e.fob)
    ∷ ("allowed", flag_scalar e.allowed)
    ∷ []

abbrev pub has_source : String → MemberEvent → Bool
has_source id event = event.source_event_id == some id

-- ON CONFLICT(source_event_id) DO NOTHING
unfoldable pub insert_swipe : Swipe → Database → Database
insert_swipe e db = if any (has_source e.id) db.member_events then db else record db {
  last_event = db.last_event + 1;
  member_events =
      db.member_events
      ++ record {
        id = db.last_event + 1;
        created = e.at / 1000;
        member_id = swipe_owner e.fob e.at db;
        event_type = "FobSwipe";
        details = swipe_details e;
        source_event_id = some e.id;
      }
        ∷ [];
}

-- INSERT INTO waivers ... SELECT ... member_id FROM members WHERE ... AND COUNT(*) = 1
unfoldable pub sign_only : ℕ → String → String → List Member → Database → Database
sign_only now name email (m ∷ []) db = insert_waiver now name email m.member_id db
sign_only now name email _ db = db

unfoldable pub exec : ℕ → Statement → Database → Outcome
unfolding edit_discord edit_customer
exec now (link_discord discord_id email) db =
    let taken = any (has_discord discord_id) db.members in
    update_members now (λ m. has_email email m && (m.discord_user_id == none && not taken))
      (λ m. bump_version (record m { discord_user_id = some discord_id })) db
exec now (register member_id discord_id email) db =
    if any (has_discord discord_id) db.members
    then done db
    else insert_member now
        (record (new_member now member_id) {
          discord_user_id = some discord_id;
          email = if any (has_email email) db.members then none else some email;
        })
        db
exec now (refresh_identity username email discord_id) db =
    update_members now (has_discord discord_id)
      (λ m. record m { discord_username = username; discord_email = email }) db
exec now (begin_sync member_id customer) db =
    update_members now (λ m. has_id member_id m && m.stripe_customer_id == customer)
      (λ m. record m { stripe_sync_version = m.stripe_sync_version + 1 }) db
exec now (publish_sync b member_id customer version) db =
    update_members now
      (λ m.
        has_id member_id m
        && (m.stripe_customer_id == customer && m.stripe_sync_version == version))
      (λ m. record m {
        stripe_subscription_id = b.subscription_id;
        stripe_subscription_state = b.subscription_state;
        billing_name = b.name;
        billing_email = b.email;
      })
      db
exec now (link_customer customer reference) db =
    update_members now (λ m. has_id reference m && m.stripe_customer_id == none)
      (λ m. bump_version (record m { stripe_customer_id = some customer })) db
exec now (save_customer customer member_id version) db =
    update_members now
      (λ m. has_id member_id m && (m.stripe_customer_id == none && m.metadata_version == version))
      (λ m. bump_version (record m { stripe_customer_id = some customer })) db
exec now (request_sync seconds) db = done (
    if leb (db.edge_changes.sync_requested + 600) seconds
    then record db { edge_changes = record db.edge_changes { sync_requested = seconds } }
    else db)
exec now (record_swipe e) db = done (insert_swipe e db)
exec now (bind_fob fob member_id) db =
    update_members now (λ m. has_id member_id m && not (m.fob_id == some fob))
      (λ m. bump_version (record m { fob_id = some fob })) db
exec now (sign_waiver name email member_id) db =
    if any (has_id member_id) db.members
    then done (insert_waiver now name email member_id db)
    else foreign_key_failed
exec now (preregister member_id email) db =
    if any (has_either_email email) db.members
    then done db
    else or_nothing db
        (insert_member now (record (new_member now member_id) { email = some email }) db)
exec now (sign_by_email name email) db =
    done (sign_only now name email (keep (has_either_email email) db.members) db)
exec now (create_member member_id v) db =
    if any (λ m. m.discord_email == v.email) db.members
    then done db
    else insert_member now
        (record (new_member now member_id) {
          email = some v.email;
          name_override = v.name_override;
          notes = v.notes;
          discord_user_id = v.discord_user_id;
          discord_username = v.discord_username;
          bill_annually = v.bill_annually;
          discount_type = v.discount_type;
        })
        db
exec now (edit_member v discord_changed customer_changed member_id) db =
    update_members now (λ m. has_id member_id m && m.metadata_version == v.metadata_version)
      (edit_row v discord_changed customer_changed) db
exec now (save_billing bill_annually discount_type member_id version) db =
    update_members now (λ m. has_id member_id m && m.metadata_version == version)
      (λ m.
        bump_version (record m { bill_annually = bill_annually; discount_type = discount_type }))
      db
exec now (delete member_id) db = done (delete_member now member_id db)
