-- ===== src/Examples/Sample.antt =====
-- A small database and a platform whose outside accepts every request.
use thelab_ms.Base.{◌+◌, true, none, some, List, [], ◌∷◌}
use thelab_ms.Rows.{Member}
use thelab_ms.Json
use thelab_ms.Database.{Database, new_member}
use thelab_ms.App.{Env, Fetch, Reply, reply, json, Url, Platform, World}

abbrev pub ann : Member
ann = record (new_member 1700000000000 "a1") {
  discord_user_id = some "111";
  discord_username = "ann";
  discord_email = "ann@example.com";
  email = some "ann@example.com";
  fob_id = some 42;
  stripe_customer_id = some "cus_a";
  stripe_subscription_state = some "active";
  waiver_signed = true;
}

abbrev pub bob : Member
bob = record (new_member 1700000000000 "b2") {
  email = some "bob@example.com";
  fob_id = some 7;
  non_billable = true;
}

abbrev pub start_db : Database
start_db = record {
  members = ann ∷ bob ∷ [];
  edge_changes = record { revision = 3; sync_requested = 0 };
  fob_assignments =
      record { fob = 42; member_id = some "a1"; started = 1700000000000; ended = none }
      ∷ record { fob = 7; member_id = some "b2"; started = 1700000000000; ended = none }
      ∷ [];
  waivers = [];
  member_events = [];
  last_event = 0;
  last_waiver = 0;
}

abbrev pub sample_env : Env
sample_env = record {
  site_origin = "https://thelab.ms";
  edge_url = "https://edge.thelab.ms";
  discord_guild_id = "900";
  discord_role_id = "901";
  discord_admin_role_id = "902";
  discord_client_id = "903";
  discord_client_secret = "s";
  discord_bot_token = "bot";
  stripe_secret_key = "sk_test_1";
  stripe_webhook_secret = "whsec";
  turnstile_secret_key = "";
}

abbrev pub edge_url : Url
edge_url = record {
  protocol = "https:";
  origin = "https://edge.thelab.ms";
  hostname = "edge.thelab.ms";
}

abbrev pub accept : List Fetch → Fetch → Reply
accept sent request = reply 204 (json (Json.obj Json.end))

abbrev pub sample_platform : Platform
sample_platform = record {
  env = sample_env;
  fetch = accept;
  others = λ step db. db;
  clock = λ step. 1700000000000 + step;
  random = λ step. "00000000000000000000000000000000";
  parse_url = λ text. some edge_url;
  event_key = some "edge-key";
  sign_claims = λ claims. "signed";
}

abbrev pub start_world : World
start_world = record { db = start_db; step = 0; sent = []; prices = [] }
