-- ===== src/Database/Updates.antt =====
-- Statements that write: each runs its triggers in the same transaction, and a broken UNIQUE
-- constraint rolls all of it back.
use thelab_ms.Base.{
  ℕ, ◌+◌, ◌/◌, String, Bool, true, false, not, Option, none, some, List, [], ◌∷◌, ◌++◌, map, ◌==◌,
  string_eq, nat_eq, bool_eq, option_eq, if◌then◌else◌, keep,
}
use thelab_ms.Rows.{Member, MemberEvent, num, FobAssignment, Waiver, standard}
use thelab_ms.Database.Tables.{Database, UniqueColumn, violation}
use thelab_ms.Database.Triggers.{bump, log_event, after_update, after_insert, before_delete}

-- The outcome of a statement: the database after it, or the kind of constraint that it breaks.
pub data Outcome : Type 0 where
  done : Database → Outcome
  unique_failed : UniqueColumn → Outcome
  foreign_key_failed : Outcome

unfoldable pub commit : Database → Outcome
commit db = elim (violation db.members) [ none ↦ done db | some column ↦ unique_failed column ]

-- The row after `UPDATE members SET ... WHERE ...`.
abbrev pub updated {ℓ} : {A : Type ℓ} → (A → Bool) → (A → A) → A → A
updated where_ set m = if where_ m then set m else m

-- The update triggers of each row that the statement changes, in table order.
unfoldable pub fire_updates :
    ℕ → (Member → Bool) → (Member → Member) → List Member → Database → Database
fire_updates now where_ set [] db = db
fire_updates now where_ set (m ∷ ms) db =
    fire_updates now where_ set ms (if where_ m then after_update now m (set m) db else db)

-- UPDATE members SET ... WHERE ...
unfoldable pub update_members : ℕ → (Member → Bool) → (Member → Member) → Database → Outcome
unfolding commit fire_updates
update_members now where_ set db = commit (
    fire_updates now where_ set db.members
      (record db { members = map (updated where_ set) db.members }))

-- The columns of a new row that a statement does not name take their defaults.
abbrev pub new_member : ℕ → String → Member
new_member now id = record {
  member_id = id;
  discord_user_id = none;
  discord_username = "";
  discord_email = "";
  email = none;
  waiver_name = "";
  billing_name = "";
  billing_email = "";
  name_override = "";
  notes = "";
  fob_id = none;
  non_billable = false;
  legacy_billing = false;
  metadata_version = 0;
  created = now / 1000;
  bill_annually = false;
  discount_type = standard;
  stripe_customer_id = none;
  stripe_subscription_id = none;
  stripe_subscription_state = none;
  legacy_waiver_signed = false;
  stripe_sync_version = 0;
  waiver_signed = false;
}

-- INSERT INTO members
unfoldable pub insert_member : ℕ → Member → Database → Outcome
unfolding commit
insert_member now m db = commit (after_insert now m (record db { members = db.members ++ m ∷ [] }))

-- `edge_waiver_link` and `waiver_relinked` after ON DELETE SET NULL of a waiver: the former owner's row
-- is gone, so only the revision moves.
unfoldable pub unlink_waivers : String → List Waiver → Database → Database
unlink_waivers id [] db = db
unlink_waivers id (w ∷ ws) db =
    unlink_waivers id ws (if w.member_id == some id then bump db else db)

abbrev pub unlink : String → Option String → Option String
unlink id owner = if owner == some id then none else owner

-- The foreign keys' ON DELETE SET NULL in `waivers`, `member_events` and `fob_assignments`.
unfoldable pub set_null : String → Database → Database
set_null id db =
    let cleared = record db {
      waivers = map {A = Waiver} (λ w. record w { member_id = unlink id w.member_id }) db.waivers;
      member_events =
          map {A = MemberEvent} (λ e. record e { member_id = unlink id e.member_id })
            db.member_events;
      fob_assignments =
          map {A = FobAssignment} (λ a. record a { member_id = unlink id a.member_id })
            db.fob_assignments;
    } in
    unlink_waivers id db.waivers cleared

unfoldable pub delete_rows : ℕ → String → List Member → Database → Database
delete_rows now id [] db = db
delete_rows now id (m ∷ ms) db =
    delete_rows now id ms (if m.member_id == id then set_null id (before_delete now m db) else db)

-- DELETE FROM members WHERE member_id = ?
unfoldable pub delete_member : ℕ → String → Database → Database
delete_member now id db =
    delete_rows now id db.members
      (record db { members = keep (λ m. not (m.member_id == id)) db.members })

-- `waiver_signed` of 0011: the signature marks its member, and keeps a waiver name that is there.
unfoldable pub sign : String → Member → Member
sign name m = record m {
  waiver_name = if m.waiver_name == "" then name else m.waiver_name;
  waiver_signed = true;
  metadata_version = m.metadata_version + 1;
}

-- INSERT INTO waivers, with `edge_waiver_insert` and `waiver_signed`. The columns that the trigger
-- updates fire no trigger of `members`.
unfoldable pub insert_waiver : ℕ → String → String → String → Database → Database
unfolding bump log_event sign
insert_waiver now name email id db =
    let n = db.last_waiver + 1 in
    log_event now id "WaiverSigned" (("waiver_id", num n) ∷ []) (
      bump (record db {
        last_waiver = n;
        waivers =
            db.waivers ++ record { id = n; member_id = some id; name = name; email = email } ∷ [];
        members = map (updated (λ m. m.member_id == id) (sign name)) db.members;
      }))

-- ON CONFLICT DO NOTHING
unfoldable pub or_nothing : Database → Outcome → Outcome
or_nothing db (done db') = done db'
or_nothing db (unique_failed column) = done db
or_nothing db foreign_key_failed = foreign_key_failed

-- The statements of a batch follow each other in one transaction: the first that fails ends it.
unfoldable pub and_then : Outcome → (Database → Outcome) → Outcome
and_then (done db) next = next db
and_then (unique_failed column) next = unique_failed column
and_then foreign_key_failed next = foreign_key_failed
