-- ===== src/Examples/Identity.antt =====
-- Sessions, sign-in, fob linking, swipes and waivers at concrete inputs.
use thelab_ms.Base.{
  String, ◌≡◌, refl, true, false, Option, none, some, List, [], ◌∷◌, ◌==◌, string_eq, arith, All,
  any, if◌then◌else◌, template, utf16_length,
}
use thelab_ms.App.{ok}
use thelab_ms.Json.{Json, prop, get_field}
use thelab_ms.Session.{
  Crypto, session_value, claim_value, session_token, sign_token, read_session, read_claim, auth_key,
  all_codes, is_discord_id,
}
use thelab_ms.Session.Tokens.{Works, read_session-session_token, tokens_apart}
use thelab_ms.Auth.{safe_next, DiscordIdentity, registration}
use thelab_ms.Auth.Redirects.{browser_path, stays_on_site, safe_next-stays}
use thelab_ms.Auth.Linked.{Extends, registration-Extends}
use thelab_ms.Kiosk.{bind_fob_page}
use thelab_ms.Kiosk.Bound.{Bound, bind_fob_page-Bound}
use thelab_ms.Kiosk.Linking.{others_of, exec-bind_fob}
use thelab_ms.Swipes.{batches}
use thelab_ms.Swipes.Redelivery.{gathered, Framed, is_nil, batches_lem}
use thelab_ms.Waiver.{Signature, match_and_sign}
use thelab_ms.Waiver.Matching.{SignedAlone, match_and_sign-SignedAlone}
use thelab_ms.Rows.{discount_text}
use thelab_ms.Database.{
  Database, Outcome, done, Swipe, has_discord, has_id, exec, bind_fob, preregister, update_members,
  insert_member, commit, violation, clashes, after_update, after_insert, member_fob_changed,
  edge_member_change, member_changed, changed, notes_updated, insert_waiver, or_nothing, sign_only,
  and_then,
}
use thelab_ms.Examples.Sample.{start_db, sample_platform, start_world}

abbrev first_name : Option Json → String
first_name none = "c2Vzc2lvbg"
first_name (some fob) = "Y2xhaW0"

abbrev ann_session : Json
ann_session = session_value "123456789012345678" true 1700086400

abbrev fob_claim : Json
fob_claim = claim_value 42 1700000300

abbrev sample_crypto : Crypto
sample_crypto = record {
  auth_secret = "0123456789abcdef0123456789abcdef";
  encode_json = λ value. first_name (prop "fob" value);
  mac = λ payload. "c2ln";
  verify = λ signature payload. some (signature == "c2ln");
  decode_json = λ payload. some (if payload == "Y2xhaW0" then fob_claim else ann_session);
}

session-Works : Works sample_crypto ann_session
unfolding auth_key all_codes prop get_field utf16_length
session-Works = record {
  key = refl;
  payload_plain = refl;
  signature_plain = refl;
  verifies = refl;
  decodes = refl;
}

claim-Works : Works sample_crypto fob_claim
unfolding auth_key all_codes prop get_field utf16_length
claim-Works = record {
  key = refl;
  payload_plain = refl;
  signature_plain = refl;
  verifies = refl;
  decodes = refl;
}

session_signed :
    session_token sample_crypto 1700000000 "123456789012345678" true ≡ ok "c2Vzc2lvbg.c2ln"
unfolding session_token sign_token auth_key prop get_field utf16_length template
session_signed = refl

claim_signed : sign_token sample_crypto fob_claim ≡ ok "Y2xhaW0.c2ln"
unfolding sign_token auth_key prop get_field utf16_length template
claim_signed = refl

is_ann : is_discord_id "123456789012345678" ≡ true
unfolding is_discord_id all_codes utf16_length
is_ann = refl

read_session-session_token_example :
    read_session sample_crypto 1700086399 "c2Vzc2lvbg.c2ln"
    ≡ ok (some (record { sub = "123456789012345678"; admin = true }))
read_session-session_token_example =
    read_session-session_token sample_crypto 1700000000 "123456789012345678" true "c2Vzc2lvbg.c2ln"
      1700086399 session-Works is_ann session_signed

tokens_apart_example :
    (read_claim sample_crypto 1700000001 "c2Vzc2lvbg.c2ln" ≡ ok none)
    × (read_session sample_crypto 1700000001 "Y2xhaW0.c2ln" ≡ ok none)
tokens_apart_example =
    tokens_apart sample_crypto 1700000000 "123456789012345678" true 42 1700000300 1700000001
      "c2Vzc2lvbg.c2ln" "Y2xhaW0.c2ln" session-Works claim-Works session_signed claim_signed

safe_next-stays_example : stays_on_site (browser_path (safe_next (some "/\t/evil.example"))) ≡ true
safe_next-stays_example = safe_next-stays (some "/\t/evil.example")

abbrev db_of : Outcome → Database
db_of (done db) = db
db_of _ = start_db

-- Bob was pre-registered by email, and signs in.
abbrev bob_identity : DiscordIdentity
bob_identity = record { id = "222"; username = "bob"; email = "bob@example.com" }

abbrev registered_outcome : Outcome
registered_outcome = registration "c3" bob_identity 1700000000000 start_db

bob_registered : registered_outcome ≡ done (db_of registered_outcome)
unfolding registration and_then exec update_members commit violation after_update member_fob_changed
    edge_member_change member_changed changed notes_updated clashes discount_text
bob_registered = refl

registration-Extends_example :
    Extends start_db.members (db_of registered_outcome).members
    × (any (has_discord "222") (db_of registered_outcome).members ≡ true)
registration-Extends_example =
    registration-Extends 1700000000000 bob_identity "c3" start_db (db_of registered_outcome)
      bob_registered

abbrev linked_outcome : Outcome
linked_outcome = exec 1700000000000 (bind_fob 43 "a1") start_db

fob_linked : linked_outcome ≡ done (db_of linked_outcome)
unfolding exec update_members commit violation after_update member_fob_changed edge_member_change
    member_changed changed notes_updated clashes discount_text
fob_linked = refl

exec-bind_fob_example :
    All (λ m. has_id "a1" m ≡ true → m.fob_id ≡ some 43) (db_of linked_outcome).members
    × (others_of 43 "a1" (db_of linked_outcome).members ≡ others_of 43 "a1" start_db.members)
exec-bind_fob_example =
    exec-bind_fob 43 "a1" 1700000000000 start_db (db_of linked_outcome) fob_linked

-- The kiosk's token and the session come with a POST.
bind_fob_page-Bound_example :
    Bound sample_crypto false "Y2xhaW0.c2ln" "c2Vzc2lvbg.c2ln" 1700000000 start_world.db
      (bind_fob_page sample_platform sample_crypto false "Y2xhaW0.c2ln" "c2Vzc2lvbg.c2ln"
        start_world).1.db
bind_fob_page-Bound_example =
    bind_fob_page-Bound sample_platform (λ step db. refl) sample_crypto false "Y2xhaW0.c2ln"
      "c2Vzc2lvbg.c2ln" start_world

abbrev swipes : List Swipe
swipes =
    record {
      id = "s1";
      fob = 42;
      allowed = true;
      controller = "front";
      time = "2023-11-14T22:13:21Z";
      at = 1700000001000;
    }
    ∷ []

batches_lem_example :
    (gathered (batches 1 swipes) ≡ swipes)
    × Framed (batches 1 swipes)
    × (is_nil (batches 1 swipes) ≡ false)
batches_lem_example = batches_lem 1 swipes (omega arith)

abbrev eve : Signature
eve = record { name = "Eve"; email = "eve@example.com" }

abbrev signed_outcome : Outcome
signed_outcome = match_and_sign "e5" eve 1700000000000 start_db

eve_signed : signed_outcome ≡ done (db_of signed_outcome)
unfolding match_and_sign and_then exec insert_member commit violation after_insert clashes sign_only
    insert_waiver or_nothing
eve_signed = refl

match_and_sign-SignedAlone_example :
    (c : Database) × (exec 1700000000000 (preregister "e5" "eve@example.com") start_db ≡ done c)
    × SignedAlone 1700000000000 eve c (db_of signed_outcome)
match_and_sign-SignedAlone_example =
    match_and_sign-SignedAlone 1700000000000 "e5" eve start_db (db_of signed_outcome) eve_signed
