-- ===== src/Swipes.antt =====
-- The swipe history that the edge sends (`swipeWebhook` of site/src/edge.tsx).
pub mod Redelivery
use Prim.Native.Char.{code}
use Prim.Native.String
use thelab_ms.Base.{
  ℕ, zero, suc, ◌+◌, String, Bool, true, false, ◌&&◌, ◌||◌, not, Option, none, some, List, [], ◌∷◌,
  map, ◌==◌, string_eq, nat_eq, option_eq, if◌then◌else◌, any, all, take, drop, length, leb, ltb,
  decimal, utf16_length,
}
use thelab_ms.Json.{Json, bool, arr, obj, prop, as_string, items}
use thelab_ms.Database.{Database, Swipe, Outcome, done, exec, and_then, record_swipe}
use thelab_ms.App.{http_error, Platform, World, App, pure, throw, ◌>>=◌, ◌>>◌, transact}
use thelab_ms.Clients.{decode_all}
use thelab_ms.Database.Revision.{revision}
use thelab_ms.Edge.{push_fobs}
use thelab_ms.Session.{valid_fob, all_codes}
use thelab_ms.Kiosk.{verify_edge_key}

-- [A-Za-z0-9_-]
is_id_code : ℕ → Bool
is_id_code c =
    (leb 48 c && leb c 57)
    || ((leb 65 c && leb c 90) || ((leb 97 c && leb c 122) || (c == 95 || c == 45)))

-- /^[A-Za-z0-9_-]{1,128}$/
unfoldable pub is_event_id : String → Bool
unfolding is_id_code
is_event_id id = all_codes is_id_code id && (leb 1 (utf16_length id) && leb (utf16_length id) 128)

-- A text against a pattern of fixed places: 48 stands for a digit, any other code for itself. The rest
-- of the text after the pattern.
unfoldable pub after_pattern : List ℕ → String → Option String
after_pattern [] s = some s
after_pattern (p ∷ ps) String.[] = none
after_pattern (p ∷ ps) (String.◌∷◌ c s) =
    let rest = after_pattern ps s in
    if p == 48 && (leb 48 (code c) && leb (code c) 57) || not (p == 48) && code c == p
    then rest
    else none

-- \d{4}-\d\d-\d\dT\d\d:\d\d:\d\d
abbrev date_time : List ℕ
date_time =
    48 ∷ 48 ∷ 48 ∷ 48 ∷ 45 ∷ 48 ∷ 48 ∷ 45 ∷ 48 ∷ 48 ∷ 84 ∷ 48 ∷ 48 ∷ 58 ∷ 48 ∷ 48 ∷ 58 ∷ 48 ∷ 48
    ∷ []

-- \d{1,9}Z, after `n` digits.
fraction : ℕ → String → Bool
fraction n String.[] = false
fraction n (String.◌∷◌ c s) =
    let rest = fraction (n + 1) s in
    if leb 48 (code c) && leb (code c) 57
    then rest
    else code c == 90 && (s == "" && (leb 1 n && leb n 9))

-- (?:\.\d{1,9})?Z
time_end : String → Bool
unfolding fraction
time_end String.[] = false
time_end (String.◌∷◌ c s) = code c == 90 && s == "" || code c == 46 && fraction 0 s

ends_time : Option String → Bool
ends_time none = false
ends_time (some s) = time_end s

unfoldable pub is_time : String → Bool
unfolding ends_time time_end
is_time time = ends_time (after_pattern date_time time)

as_bool : Option Json → Option Bool
as_bool (some (bool b)) = some b
as_bool _ = none

swipe_of :
    Option String
    → Option ℕ
    → Option Bool
    → Option String
    → Option String
    → (String → Option ℕ)
    → Option Swipe
swipe_of (some id) (some fob) (some allowed) (some controller) (some time) parse =
    elim (parse time) [
      | none ↦ none
      | some at ↦
          if is_event_id id && (leb (utf16_length controller) 64 && is_time time)
          then some (record {
            id = id;
            fob = fob;
            allowed = allowed;
            controller = controller;
            time = time;
            at = at;
          })
          else none
    ]
swipe_of _ _ _ _ _ parse = none

-- `isSwipe`, with the swipe that it recognizes; `parse` is `Date.parse` in milliseconds, `none` for NaN.
unfoldable pub is_swipe : (String → Option ℕ) → Json → Option Swipe
unfolding swipe_of as_bool
is_swipe parse event =
    swipe_of (as_string (prop "id" event)) (valid_fob (prop "fob" event))
      (as_bool (prop "allowed" event)) (as_string (prop "controller" event))
      (as_string (prop "time" event)) parse

-- At most 512 events, each a swipe.
capped : Option (List Swipe) → Option (List Swipe)
capped none = none
capped (some events) = if leb (length events) 512 then some events else none

unfoldable pub swipe_batch : (String → Option ℕ) → Option Json → Option (List Swipe)
unfolding capped
swipe_batch parse (some (arr events)) = capped (decode_all (is_swipe parse) (items events))
swipe_batch parse _ = none

-- A batch is one transaction of single inserts.
unfoldable pub insert_all : ℕ → List Swipe → Database → Outcome
unfolding and_then
insert_all now [] db = done db
insert_all now (e ∷ es) db = and_then (exec now (record_swipe e) db) (insert_all now es)

-- The batches of the loop, 50 inserts each, with whether a batch is the last: for (i = 0; i === 0 ||
-- i < inserts.length; i += 50). Every batch but the first needs an insert left, so the number of
-- inserts is enough fuel.
unfoldable pub batches : ℕ → List Swipe → List (List Swipe × Bool)
batches zero inserts = (take 50 inserts, true) ∷ []
batches (suc fuel) inserts =
    let rest = batches fuel (drop 50 inserts) in
    if leb (length inserts) 50
    then (take 50 inserts, true) ∷ []
    else (take 50 inserts, false) ∷ rest

module _ (p : Platform) where
  -- The last batch also reads the revision.
  store : List (List Swipe × Bool) → App (Option ℕ)
  store [] = pure none
  store ((inserts, last) ∷ rest) = do
    found ← transact p (λ now. insert_all now inserts) (λ before after. revision after)
    if last then pure (some found) else store rest

  -- String(revision)
  shown : Option ℕ → String
  shown none = "undefined"
  shown (some n) = decimal n

  record_all : Option String → Option (List Swipe) → App (Unit {0})
  unfolding store shown
  record_all known none = throw (http_error 400 "Invalid swipe batch.")
  record_all known (some inserts) = do
    found ← store (batches (length inserts) inserts)
    if known == some (shown found) then pure tt else push_fobs p

  -- The push that is handed to `ctx.waitUntil` is run at the end. `known` is the X-Edge-Revision
  -- header, `body` is `none` where it is not JSON.
  unfoldable pub swipe_webhook :
      (String → Option ℕ)
      → (authorization : String) (known : Option String) → Option Json
      → App (Unit {0})
  unfolding record_all
  swipe_webhook parse authorization known body = do
    verify_edge_key p authorization
    record_all known (swipe_batch parse body)
