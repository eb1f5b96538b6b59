-- ===== src/Admin/Editing.antt =====
-- Creating, editing and deleting members (site/src/admin.tsx).
use thelab_ms.Base.{
  ℕ, String, Bool, true, false, ◌&&◌, not, Option, none, some, [], ◌∷◌, ◌==◌, string_eq, nat_eq,
  bool_eq, option_eq, if◌then◌else◌, any, find, template,
}
use thelab_ms.Rows.{Member}
use thelab_ms.Json.{Json, prop, truthy}
use thelab_ms.Database.{
  Database, UniqueColumn, has_id, Edit, NewMember, create_member, edit_member, delete,
}
use thelab_ms.App.{
  Failure, http_error, unique_error, ok, Platform, App, pure, throw, ◌>>=◌, ◌>>◌, try_catch,
  execute,
}
use thelab_ms.Clients.{stripe, guild_username}
use thelab_ms.Edge.{push_fobs}
use thelab_ms.Billing.Role.{set_discord_role, sync_discord_role}
use thelab_ms.Billing.Sync.{sync_member}

abbrev pub taken : String → Failure
taken what = http_error 409 (template ("That " ∷ what ∷ " already belongs to another member." ∷ []))

-- String(error).includes(`members.${column}`)
unfoldable pub conflict : Failure → Failure
conflict (unique_error UniqueColumn.fob_id) = taken "fob"
conflict (unique_error UniqueColumn.discord_user_id) = taken "Discord account"
conflict (unique_error UniqueColumn.stripe_customer_id) = taken "Stripe customer"
conflict (unique_error UniqueColumn.email) = taken "email"
conflict e = e

abbrev pub stale_form : Failure
stale_form =
    http_error 409
      "This member was changed after you opened the form. Reload the member and reapply your edits."

abbrev pub username_for : Platform → Option String → App String
username_for p none = pure ""
username_for p (some id) = guild_username p id

abbrev pub created_row : Option Member → App Member
created_row none = throw (taken "email")
created_row (some row) = pure row

-- What INSERT ... RETURNING * gives, for the random id of a new row.
abbrev pub inserted_row : String → Database → Database → Option Member
inserted_row id before after =
    if any (has_id id) before.members then none else find (has_id id) after.members

abbrev pub new_id : Platform → App String
new_id p w = (ok (p.random w.step), w)

-- `createMember`, after `validateNew`.
unfoldable pub create_member_row : Platform → NewMember → App Member
create_member_row p value = do
  username ← username_for p value.discord_user_id
  id ← new_id p
  row ←
      try_catch
        (execute p (create_member id (record value { discord_username = username }))
          (inserted_row id))
        (λ e. throw (conflict e))
  created_row row

-- What an edit changed, and the row after it.
pub record Edited : Type 0 where
  pub discord_changed : Bool
  pub customer_changed : Bool
  pub row : Member

abbrev pub unlinks_discord : Option String → Option String → Bool
unlinks_discord old new = not (old == none) && new == none

abbrev pub new_username : Platform → Member → Option String → App String
new_username p member none = pure member.discord_username
new_username p member (some id) = guild_username p id

-- The username for the new Discord account, if the account changes to one.
abbrev pub edited_username : Platform → Member → Edit → App String
edited_username p member value =
    if member.discord_user_id == value.discord_user_id
    then pure member.discord_username
    else new_username p member value.discord_user_id

abbrev pub refuse_deleted : Json → App (Unit {0})
refuse_deleted customer =
    if truthy (prop "deleted" customer)
    then throw (http_error 400 "This Stripe customer has been deleted.")
    else pure tt

-- Whether the form's new customer still exists.
abbrev pub check_customer : Platform → Bool → Option String → App (Unit {0})
check_customer p true (some customer) = do
  reply ← stripe p (template ("/customers/" ∷ customer ∷ [])) [] none none
  refuse_deleted reply
check_customer p _ _ = pure tt

-- UPDATE ... WHERE member_id = ? AND metadata_version = ? RETURNING *
abbrev pub edited_row : Member → ℕ → Database → Database → Option Member
edited_row member version before after =
    if any (λ m. has_id member.member_id m && m.metadata_version == version) before.members
    then find (has_id member.member_id) after.members
    else none

abbrev pub found_row : Option Member → App Member
found_row none = throw stale_form
found_row (some row) = pure row

abbrev pub discord_change : Bool → String → Option String
discord_change changed username = if changed then some username else none

module _ (p : Platform) where
  abbrev pub write_edit : Member → Edit → App Edited
  write_edit member value = do
    let discord_changed = not (member.discord_user_id == value.discord_user_id)
    let customer_changed = not (member.stripe_customer_id == value.stripe_customer_id)
    username ← edited_username p member value
    check_customer p customer_changed value.stripe_customer_id
    updated ←
        try_catch
          (execute p
            (edit_member value (discord_change discord_changed username) customer_changed
              member.member_id)
            (edited_row member value.metadata_version))
          (λ e. throw (conflict e))
    row ← found_row updated
    push_fobs p
    pure (record {
      discord_changed = discord_changed;
      customer_changed = customer_changed;
      row = row;
    })

  -- `updateMember`, up to the function that it returns; `none` is an edit at no version.
  unfoldable pub update_member : Member → Option Edit → App Edited
  update_member member none = throw stale_form
  update_member member (some value) =
      if not (member.metadata_version == value.metadata_version)
      then throw stale_form
      else if unlinks_discord member.discord_user_id value.discord_user_id
      then throw (
          http_error 400
            "A linked Discord account can be transferred to another account, but not removed.")
      else write_edit member value

  -- The function that `updateMember` returns. `fuel` is for the loops of the syncs.
  unfoldable pub side_effects : ℕ → Member → Edited → App (Unit {0})
  side_effects fuel member edited = do
    if edited.discord_changed then set_discord_role p member.discord_user_id false else pure tt
    if edited.customer_changed
        then sync_member p fuel edited.row.member_id edited.row.stripe_customer_id
        else if edited.discord_changed
        then sync_discord_role p fuel edited.row.member_id
        else pure tt

  -- POST .../delete
  unfoldable pub delete_member_row : Member → App (Unit {0})
  delete_member_row member = do
    set_discord_role p member.discord_user_id false
    execute p {A = Unit {0}} (delete member.member_id) (λ before after. tt)
    push_fobs p
