-- ===== src/Examples/Edge.antt =====
-- A push at a concrete input.
use thelab_ms.Base.{
  String, ◌≡◌, ◌≢◌, refl, ◌++◌, ◌⊎◌, All, some, none, if◌then◌else◌, ◌==◌, string_eq, [], ◌∷◌,
  arith, eq_iff,
}
use thelab_ms.App.{ok, pure}
use thelab_ms.Policy.Access.{fob_enabled_sql}
use thelab_ms.Sql.{holds}
use thelab_ms.Database.Revision.{enabled_fobs}
use thelab_ms.Edge.{push_fobs, sort_fobs, insert_fob}
use thelab_ms.Edge.Push.{PushedAll, full_push, push_fobs-PushedAll, push_fobs-sends}
use thelab_ms.Edge.Keys.{
  Runtime, read_key, cached_key, or_unconfigured, Isolate, fresh_isolate, ask_key, key_read, asked,
  ended, replaced, ReplacesIdle, KeySteps, none_yet, and_then,
}
use thelab_ms.Edge.Keys.Cached.{KeySteps-answered}
use thelab_ms.Kiosk.{KioskUrl, redirect_to, kiosk_page}
use thelab_ms.Kiosk.Served.{IsAllowed, kiosk_page-IsAllowed}
use thelab_ms.Examples.Sample.{sample_platform, start_world, edge_url, start_db}

pushed_fobs : sort_fobs (enabled_fobs start_db.members) ≡ 7 ∷ 42 ∷ []
unfolding sort_fobs insert_fob enabled_fobs fob_enabled_sql holds
pushed_fobs = refl

push_fobs-PushedAll_example :
    ((push_fobs sample_platform start_world).0 ≡ ok tt)
    × (((push_fobs sample_platform start_world).1.sent ≡ start_world.sent)
        ⊎ PushedAll sample_platform start_world (push_fobs sample_platform start_world).1.sent)
push_fobs-PushedAll_example = push_fobs-PushedAll sample_platform start_world

edge_url_set : ◌≢◌ {A = String} "https://edge.thelab.ms" ""
edge_url_set = ground (arith, eq_iff "https://edge.thelab.ms" "")

push_fobs-sends_example :
    (push_fobs sample_platform start_world).1.sent
    ≡ [] ++ full_push sample_platform start_world "edge-key" ∷ []
push_fobs-sends_example =
    push_fobs-sends sample_platform start_world "edge-key" edge_url edge_url_set
      (rw pushed_fobs (omega arith)) refl refl refl refl

-- A key is its secret, and "bad" is none.
abbrev runtime : Runtime String
runtime = record {
  decode = λ secret. if secret == "bad" then none else some secret;
  import_key = some;
  public_part = some;
  stringify = λ value. "";
  base64url = λ text. text;
  digest = λ text. "kid";
  sign = λ key text. key;
  hmac = λ secret text. secret;
}

-- The key is read by two calls at once, rotated, read again and then asked for once more.
abbrev old_read : Isolate String
old_read =
    key_read runtime "old"
      (record (key_read runtime "old"
        (record (ask_key runtime (ask_key runtime (fresh_isolate "old"))) {
          reading = "old" ∷ [];
        })) { reading = [] })

abbrev rotated : Isolate String
rotated = ask_key runtime (
    key_read runtime "new"
      (record (ask_key runtime (record old_read { secret = "new" })) { reading = [] }))

abbrev old_steps : KeySteps runtime (fresh_isolate "old") old_read
unfolding ask_key key_read cached_key
old_steps =
    and_then
      (and_then
        (and_then (and_then (none_yet (fresh_isolate "old")) (asked (fresh_isolate "old")))
          (asked _))
        (ended ("old" ∷ []) [] "old" _ refl))
      (ended [] [] "old" _ refl)

abbrev rotated_steps : KeySteps runtime (fresh_isolate "old") rotated
unfolding ask_key key_read cached_key
rotated_steps =
    and_then
      (and_then (and_then (and_then old_steps (replaced "new" old_read)) (asked _))
        (ended [] [] "new" _ refl))
      (asked _)

rotated_idle : ReplacesIdle runtime rotated_steps
unfolding ask_key key_read cached_key
rotated_idle = (tt, refl)

KeySteps-answered_example :
    All (λ answer. answer.1 ≡ or_unconfigured (read_key runtime answer.0)) rotated.answered
KeySteps-answered_example = KeySteps-answered runtime "old" rotated rotated_steps rotated_idle

abbrev lan_kiosk : KioskUrl
lan_kiosk = record {
  protocol = "http:";
  origin = "http://kiosk.lan";
  href = "http://kiosk.lan/kiosk";
}

sent_to_lan :
    kiosk_page sample_platform "http://kiosk.lan" (some lan_kiosk) none start_world
    ≡ (ok (redirect_to "http://kiosk.lan/kiosk"), start_world)
unfolding kiosk_page pure
sent_to_lan = refl

kiosk_page-IsAllowed_example :
    IsAllowed sample_platform "http://kiosk.lan"
      (some lan_kiosk)
      none
      (redirect_to "http://kiosk.lan/kiosk")
    × (start_world ≡ start_world)
kiosk_page-IsAllowed_example =
    kiosk_page-IsAllowed sample_platform "http://kiosk.lan" (some lan_kiosk) none
      (redirect_to "http://kiosk.lan/kiosk") start_world start_world sent_to_lan
