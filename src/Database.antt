-- ===== src/Database.antt =====
-- The D1 database as a state: its tables (site/migrations), the triggers that run inside each
-- statement, and the SQL that the worker sends (site/src).
mod Tables
mod Triggers
mod Updates
mod Statements
pub mod Effects
pub mod Revision
pub mod Tracks
pub mod Counters
pub mod Later
pub mod Tracking
pub mod Unmatched
pub use Tables.{
  EdgeChanges, Database, UniqueColumn, member_id, discord_user_id, email, fob_id,
  stripe_customer_id,
}
pub use Updates.{Outcome, done, unique_failed, foreign_key_failed}
unfoldable pub use Tables.{violation, clashes}
unfoldable pub use Updates.{
  updated, update_members, insert_member, new_member, delete_member, insert_waiver, sign, commit,
  and_then, or_nothing,
}
pub use Statements.{has_id, has_discord, has_email, Swipe, Edit, NewMember, Billing}
pub use Statements.{
  Statement, link_discord, register, refresh_identity, begin_sync, publish_sync, link_customer,
  save_customer, request_sync, record_swipe, bind_fob, sign_waiver, preregister, sign_by_email,
  create_member, edit_member, save_billing, delete,
}
unfoldable pub use Statements.{
  exec, insert_swipe, swipe_owner, assigned_at, has_either_email, bump_version, has_source,
  sign_only, edit_row,
}
unfoldable pub use Triggers.{
  member_fob_changed, edge_member_change, changed, notes_updated, member_changed, after_update,
  after_insert, before_delete,
}
unfoldable pub use Updates.{fire_updates}
