-- ===== src/Examples/Billing.antt =====
-- The Discord role at a concrete input.
use thelab_ms.Base.{List, ℕ, ◌≡◌, ◌≢◌, refl, some, [], ◌∷◌, arith, template}
use thelab_ms.App.{ok, err, out_of_fuel, World, ◌>>=◌, try_catch, query, send}
use thelab_ms.Clients.{discord, discord_request, provider, read_reply}
use thelab_ms.Json.{is_record}
use thelab_ms.Policy.{grants_membership}
use thelab_ms.Billing.Role.{
  role_row, role_path, set_discord_role, has_moved, is_settled, role_loop, sync_discord_role,
}
use thelab_ms.Billing.Role.Settled.{Told, sync_discord_role-Told}
use thelab_ms.Billing.Role.Ending.{sync_discord_role-fuelled}
use thelab_ms.Database.{
  Database, Statement, Billing, done, begin_sync, publish_sync, exec, update_members, commit,
  violation, clashes, after_update, member_fob_changed, edge_member_change, member_changed, changed,
  notes_updated,
}
use thelab_ms.Rows.{discount_text}
use thelab_ms.Database.Tracking.{run}
use thelab_ms.Billing.Versions.{publish_sync_overtaken}
use thelab_ms.Examples.Sample.{ann, bob, start_db, sample_platform, start_world}

abbrev role_end : World
role_end = (sync_discord_role sample_platform 1 "a1" start_world).1

role_run : sync_discord_role sample_platform 1 "a1" start_world ≡ (ok tt, role_end)
unfolding sync_discord_role role_loop role_row set_discord_role role_path has_moved is_settled
    grants_membership discord discord_request provider read_reply is_record ◌>>=◌ try_catch query
    send template
role_run = refl

sync_discord_role-Told_example : Told sample_platform (role_row "a1" role_end.db) role_end.sent
sync_discord_role-Told_example =
    sync_discord_role-Told sample_platform 1 "a1" start_world role_end role_run

sync_discord_role-fuelled_example :
    (sync_discord_role sample_platform 1 "a1" start_world).0 ≢ err out_of_fuel
sync_discord_role-fuelled_example =
    sync_discord_role-fuelled sample_platform "a1" 0 1 start_world (λ k db late. refl) (omega arith)
      (omega arith)

abbrev lookup : Billing
lookup = record {
  subscription_id = some "sub_old";
  subscription_state = some "canceled";
  name = "Ann";
  email = "ann@example.com";
}

abbrev begun : Database
begun = record start_db { members = record ann { stripe_sync_version = 1 } ∷ bob ∷ [] }

begins : exec 1700000000000 (begin_sync "a1" (some "cus_a")) start_db ≡ done begun
unfolding exec update_members commit violation after_update member_fob_changed edge_member_change
    member_changed changed notes_updated clashes discount_text
begins = refl

-- In between, the newer lookup publishes what it found, and the same customer is looked up a third time.
abbrev between : List (ℕ × Statement)
between =
    (
      1700000000001,
      publish_sync (record lookup { subscription_state = some "active" }) "a1" (some "cus_a") 1,
    )
    ∷ (1700000000002, begin_sync "a1" (some "cus_a"))
    ∷ []

publish_sync_overtaken_example :
    run ((1700000000003, publish_sync lookup "a1" (some "cus_a") 0) ∷ []) (run between begun)
    ≡ run between begun
publish_sync_overtaken_example =
    publish_sync_overtaken "a1" 0 1700000000000 1700000000003 (some "cus_a") (some "cus_a") start_db
      begun between lookup ((λ _. (refl, omega arith)), ((λ own. absurd (cc)), tt)) begins
      (refl, (refl, tt))
