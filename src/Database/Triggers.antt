-- ===== src/Database/Triggers.antt =====
-- The triggers of site/migrations, each as the change that it makes to the tables other than the row
-- that fired it. Only `revision` of `edge_changes` tells the edge that access has changed.
use thelab_ms.Base.{
  ℕ, ◌+◌, ◌/◌, String, Bool, true, false, ◌&&◌, Option, none, some, [], ◌∷◌, ◌++◌, map, ◌==◌,
  Comparable, string_eq, nat_eq, bool_eq, option_eq, if◌then◌else◌,
}
use thelab_ms.Rows.{Member, Scalar, null, num, text, Details, FobAssignment, discount_text}
use thelab_ms.Database.Tables.{Database}

-- UPDATE edge_changes SET revision = revision + 1
unfoldable pub bump : Database → Database
bump db = record db {
  edge_changes = record db.edge_changes { revision = db.edge_changes.revision + 1 };
}

-- INSERT INTO member_events; `created` defaults to unixepoch().
unfoldable pub log_event : ℕ → String → String → Details → Database → Database
log_event now member_id event_type details db = record db {
  last_event = db.last_event + 1;
  member_events =
      db.member_events
      ++ record {
        id = db.last_event + 1;
        created = now / 1000;
        member_id = some member_id;
        event_type = event_type;
        details = details;
        source_event_id = none;
      }
        ∷ [];
}

-- UPDATE fob_assignments SET ended = now WHERE member_id = ? AND ended IS NULL
abbrev close_assignment : ℕ → String → FobAssignment → FobAssignment
close_assignment now member_id a =
    if a.member_id == some member_id && a.ended == none then record a { ended = some now } else a

unfoldable pub close_assignments : ℕ → String → Database → Database
close_assignments now member_id db = record db {
  fob_assignments = map (close_assignment now member_id) db.fob_assignments;
}

-- INSERT INTO fob_assignments(fob, member_id) SELECT ... WHERE fob IS NOT NULL
unfoldable pub open_assignment : ℕ → String → Option ℕ → Database → Database
open_assignment now member_id none db = db
open_assignment now member_id (some fob) db = record db {
  fob_assignments =
      db.fob_assignments
      ++ record { fob = fob; member_id = some member_id; started = now; ended = none } ∷ [];
}

unfoldable pub scalar : Option String → Scalar
scalar none = null
scalar (some s) = text s

unfoldable pub num_scalar : Option ℕ → Scalar
num_scalar none = null
num_scalar (some n) = num n

unfoldable pub flag_scalar : Bool → Scalar
flag_scalar true = num 1
flag_scalar false = num 0

abbrev pub from_to : Scalar → Scalar → Details
from_to from to = ("from", from) ∷ ("to", to) ∷ []

unfoldable pub member_fob_changed : ℕ → Member → Member → Database → Database
unfolding log_event close_assignments open_assignment num_scalar
member_fob_changed now old new db =
    if old.fob_id == new.fob_id
    then db
    else log_event now new.member_id "FobChanged"
        (from_to (num_scalar old.fob_id) (num_scalar new.fob_id))
        (open_assignment now new.member_id new.fob_id (close_assignments now new.member_id db))

-- The four columns whose change may change who can open the doors.
unfoldable pub edge_member_change : Member → Member → Database → Database
unfolding bump
edge_member_change old new db =
    if old.fob_id == new.fob_id
      && (old.stripe_subscription_state == new.stripe_subscription_state
          && (old.non_billable == new.non_billable && old.legacy_billing == new.legacy_billing))
    then db
    else bump db

-- One history entry of `member_changed`: WHERE OLD.column IS NOT NEW.column
unfoldable pub changed {ℓ} :
    {A : Type ℓ} ⦃e : Comparable A⦄
    → ℕ
    → String
    → String
    → (A → Scalar)
    → A
    → A
    → Database
    → Database
unfolding log_event
changed now member_id event_type value old new db =
    if old == new
    then db
    else log_event now member_id event_type (from_to (value old) (value new)) db

unfoldable pub notes_updated : ℕ → Member → Member → Database → Database
unfolding log_event
notes_updated now old new db =
    if old.notes == new.notes then db else log_event now new.member_id "NotesUpdated" [] db

unfoldable pub member_changed : ℕ → Member → Member → Database → Database
member_changed now old new db =
    let id = new.member_id in
    let d₁ = changed now id "NonBillableChanged" flag_scalar old.non_billable new.non_billable db in
    let d₂ =
      changed now id "LegacyBillingChanged" flag_scalar old.legacy_billing new.legacy_billing d₁ in
    let d₃ =
      changed now id "DiscordAccountChanged" scalar old.discord_user_id new.discord_user_id d₂ in
    let d₄ =
      changed now id "DiscordUsernameChanged" text old.discord_username new.discord_username d₃ in
    let d₅ = changed now id "DiscordEmailChanged" text old.discord_email new.discord_email d₄ in
    let d₆ = changed now id "BillingNameChanged" text old.billing_name new.billing_name d₅ in
    let d₇ = changed now id "BillingEmailChanged" text old.billing_email new.billing_email d₆ in
    let d₈ = changed now id "NameOverrideChanged" text old.name_override new.name_override d₇ in
    let d₉ = notes_updated now old new d₈ in
    let d₁₀ =
      changed now id "BillingCycleChanged" flag_scalar old.bill_annually new.bill_annually d₉ in
    let d₁₁ =
      changed now id "DiscountTypeModified" text (discount_text old.discount_type)
        (discount_text new.discount_type) d₁₀ in
    let d₁₂ =
      changed now id "StripeCustomerChanged" scalar old.stripe_customer_id new.stripe_customer_id
        d₁₁ in
    let d₁₃ =
      changed now id "StripeSubscriptionChanged" scalar old.stripe_subscription_id
        new.stripe_subscription_id d₁₂ in
    changed now id "SubscriptionStatusChanged" scalar old.stripe_subscription_state
      new.stripe_subscription_state d₁₃

-- What fires AFTER UPDATE of one row of `members` by a statement of the worker. (None of them sets
-- `legacy_waiver_signed`, so `legacy_waiver_changed` does not fire.)
unfoldable pub after_update : ℕ → Member → Member → Database → Database
after_update now old new db =
    member_changed now old new (edge_member_change old new (member_fob_changed now old new db))

-- What fires AFTER INSERT on `members`: `edge_member_insert` and `member_registered`. (No statement of
-- the worker inserts a row with `legacy_waiver_signed`.)
unfoldable pub after_insert : ℕ → Member → Database → Database
unfolding bump log_event open_assignment
after_insert now new db =
    log_event now new.member_id "MemberRegistered" []
      (open_assignment now new.member_id new.fob_id (bump db))

-- BEFORE DELETE on `members`: `edge_member_delete`.
unfoldable pub before_delete : ℕ → Member → Database → Database
unfolding bump close_assignments
before_delete now old db = close_assignments now old.member_id (bump db)
