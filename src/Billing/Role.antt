-- ===== src/Billing/Role.antt =====
-- The Discord member role: `setDiscordRole` and `syncDiscordRole` of site/src/billing.ts.
pub mod Settled
pub mod Ending
use thelab_ms.Base.{
  ℕ, zero, suc, String, Bool, true, false, ◌&&◌, ◌||◌, not, Option, none, some, List, [], ◌∷◌, ◌==◌,
  string_eq, nat_eq, bool_eq, option_eq, if◌then◌else◌, find, template,
}
use thelab_ms.Json.{Json, num}
use thelab_ms.Rows.{Member}
use thelab_ms.Policy.{grants_membership}
use thelab_ms.Database.{Database, has_id}
use thelab_ms.App.{
  Failure, provider_error, out_of_fuel, Platform, App, pure, throw, ◌>>=◌, ◌>>◌, try_catch, query,
  Fetch,
}
use thelab_ms.Clients.{discord, discord_request}

-- SELECT discord_user_id, stripe_subscription_state FROM members WHERE member_id = ?
pub record RoleRow : Type 0 where
  pub discord_user_id : Option String
  pub stripe_subscription_state : Option String

abbrev pub role_row_of : Option Member → Option RoleRow
role_row_of none = none
role_row_of (some m) = some (record {
  discord_user_id = m.discord_user_id;
  stripe_subscription_state = m.stripe_subscription_state;
})

unfoldable pub role_row : String → Database → Option RoleRow
role_row member_id db = role_row_of (find (has_id member_id) db.members)

unfoldable pub unknown_member : Option Json → Bool
unknown_member (some (num code)) = code == 10007
unknown_member _ = false

-- The failures that `setDiscordRole` passes over.
unfoldable pub is_skipped : (granted : Bool) → Failure → Bool
unfolding unknown_member
is_skipped granted (provider_error service (some status) code) =
    status == 404 && (not granted || unknown_member code)
is_skipped granted _ = false

module _ (p : Platform) where
  abbrev pub role_method : Bool → String
  role_method granted = if granted then "PUT" else "DELETE"

  unfoldable pub role_path : String → String
  role_path discord_id = template (
      "/guilds/" ∷ p.env.discord_guild_id ∷ "/members/" ∷ discord_id ∷ "/roles/"
      ∷ p.env.discord_role_id ∷ [])

  unfoldable pub set_discord_role : Option String → (granted : Bool) → App (Unit {0})
  set_discord_role none granted = pure tt
  set_discord_role (some id) granted =
      if id == ""
      then pure tt
      else try_catch (discord p (role_method granted) (role_path id) >> pure tt)
          (λ e. if is_skipped granted e then pure tt else throw e)

  -- !current || current.discord_user_id !== member.discord_user_id
  unfoldable pub has_moved : RoleRow → Option RoleRow → Bool
  has_moved member none = true
  has_moved member (some current) = not (current.discord_user_id == member.discord_user_id)

  -- !current || the same account and the same grant
  unfoldable pub is_settled : RoleRow → Option RoleRow → Bool
  is_settled member none = true
  is_settled member (some current) =
      current.discord_user_id == member.discord_user_id
      && grants_membership current.stripe_subscription_state
        == grants_membership member.stripe_subscription_state

  abbrev pub next_round : (RoleRow → App (Unit {0})) → RoleRow → Option RoleRow → App (Unit {0})
  next_round again member none = pure tt
  next_round again member (some current) =
      if is_settled member (some current) then pure tt else again current

  -- One turn of the `while` loop for `member`, the row that was read last.
  unfoldable pub role_loop : ℕ → String → RoleRow → App (Unit {0})
  role_loop zero member_id member = throw out_of_fuel
  role_loop (suc fuel) member_id member = do
    let granted = grants_membership member.stripe_subscription_state
    set_discord_role member.discord_user_id granted
    current ← query p (role_row member_id)
    if has_moved member current then set_discord_role member.discord_user_id false else pure tt
    next_round (role_loop fuel member_id) member current

  abbrev pub start_loop : (RoleRow → App (Unit {0})) → Option RoleRow → App (Unit {0})
  start_loop loop none = pure tt
  start_loop loop (some member) = loop member

  unfoldable pub sync_discord_role : ℕ → String → App (Unit {0})
  sync_discord_role fuel member_id = do
    member ← query p (role_row member_id)
    start_loop (role_loop fuel member_id) member
