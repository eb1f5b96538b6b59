-- ===== src/Scanner.antt =====
-- The fob kiosk's page (site/static/kiosk/app.js): a scan of the HID reader, its claim, and the timers.
pub mod Sound
pub mod Keys
pub mod Screens
pub mod Spec
pub mod Newest
pub mod Refines
use Prim.Native.Char.{code}
use Prim.Native.String.{◌++◌ as string_append}
use thelab_ms.Base.{
  ℕ, ◌+◌, ◌*◌, ◌-◌, String, Bool, true, false, ◌&&◌, ◌||◌, not, Option, none, some, List, [], ◌∷◌,
  ◌==◌, string_eq, nat_eq, ◌≡◌, ◌++◌, if◌then◌else◌, leb, ltb, number_of, utf16_length,
}
use thelab_ms.Session.{all_codes}

-- kiosk.dataset.state
pub data Mode : Type 0 where
  ready reading claim failed : Mode

-- A `submit` that waits for its reply: the `current` that it keeps, and the fob that it sent.
pub record Pending : Type 0 where
  pub current : ℕ
  pub fob : ℕ

-- The page: the variables of `startKiosk` and what the elements show. `idle` is whether `idleTimer` is
-- set, `expiry` the time in milliseconds at which `expiryTimer` fires; `pending` are the calls of
-- `submit` that wait.
pub record Screen : Type 0 where
  pub buffer : String
  pub generation : ℕ
  pub idle : Bool
  pub expiry : Option ℕ
  pub is_panel_hidden : Bool
  pub mode : Mode
  pub qr : Option String
  pub is_alert : Bool
  pub message : String
  pub pending : List Pending

-- What `api` gives: the claim, or the error that it throws.
pub data Answer : Type 0 where
  claimed : (qr : String) (expires : ℕ) → Answer
  refused : (message : String) → Answer

unfoldable pub reset : String → Bool → Screen → Screen
reset message error s = record s {
  generation = s.generation + 1;
  idle = false;
  expiry = none;
  buffer = "";
  is_panel_hidden = true;
  mode = if error then failed else ready;
  qr = none;
  is_alert = error;
  message = message;
}

abbrev pub reading_again : Screen → Screen
reading_again s = record s { mode = reading }

is_digit : ℕ → Bool
is_digit c = leb b'0' c && leb c b'9'

-- /^\d{1,20}$/.test(value) and a number from 1 to 4294967295
unfoldable pub is_fob : String → Bool
unfolding is_digit
is_fob value =
    (not (value == "") && (all_codes is_digit value && leb (utf16_length value) 20))
    && (ltb 0 (number_of value) && leb (number_of value) 4294967295)

-- `submit` up to its `await`.
unfoldable pub submit : Screen → Screen
unfolding reset
submit s =
    let t = reading_again (reset "Reading…" false s) in
    if s.buffer == ""
    then s
    else if is_fob s.buffer
    then record t {
      pending = record { current = t.generation; fob = number_of s.buffer } ∷ t.pending;
    }
    else reset "Fob not recognized. Scan again." true t

-- The rest of `submit`, with Date.now().
unfoldable pub answer : ℕ → ℕ → Answer → Screen → Screen
unfolding reset
answer now current (claimed qr expires) s =
    if current == s.generation
    then record s {
      qr = some qr;
      is_panel_hidden = false;
      mode = claim;
      expiry = some (now + (expires * 1000 - now));
    }
    else s
answer now current (refused message) s = if current == s.generation then reset message true s else s

-- if (!buffer) { reset('Reading…'); kiosk.dataset.state = 'reading'; }
abbrev pub begin_scan : Screen → Screen
begin_scan s = if s.buffer == "" then reading_again (reset "Reading…" false s) else s

abbrev pub type_key : String → Screen → Screen
type_key key s = record s {
  buffer = if ltb (utf16_length s.buffer) 21 then string_append s.buffer key else s.buffer;
  idle = true;
}

-- The `keydown` handler. `ignored` is its first test: a handled, composed, repeated or modified key.
unfoldable pub key_down : Bool → String → Screen → Screen
unfolding reset
key_down ignored key s =
    if ignored
    then s
    else if utf16_length key == 1
    then type_key key (begin_scan s)
    else if s.buffer == ""
    then (if key == "Escape" && not s.is_panel_hidden then reset "Tap your fob" false s else s)
    else record s { idle = true }

-- window 'blur'
unfoldable pub blur : Screen → Screen
unfolding reset
blur s = if s.buffer == "" then s else reset "Scan interrupted. Try again." false s

-- What happens on the page, one event at a time. A timer fires only while it is set, and a reply is to a
-- `submit` that waits.
pub data Step : Screen → Screen → Type 0 where
  pressed : (ignored : Bool) (key : String) (s : Screen) → Step s (key_down ignored key s)
  fell_silent : (s : Screen) → s.idle ≡ true → Step s (submit (record s { idle = false }))
  replied :
      (now : ℕ) (before after : List Pending) (waiting : Pending) (a : Answer) (s : Screen)
      → s.pending ≡ before ++ waiting ∷ after
      → Step s (answer now waiting.current a (record s { pending = before ++ after }))
  timed_out :
      (s : Screen) (deadline : ℕ)
      → s.expiry ≡ some deadline
      → Step s (reset "Code expired. Scan again." false (record s { expiry = none }))
  closed : (s : Screen) → Step s (reset "Tap your fob" false s)
  blurred : (s : Screen) → Step s (blur s)
  left : (s : Screen) → Step s (reset "Tap your fob" false s)

-- The page as it is served.
abbrev pub start : Screen
start = record {
  buffer = "";
  generation = 0;
  idle = false;
  expiry = none;
  is_panel_hidden = true;
  mode = ready;
  qr = none;
  is_alert = false;
  message = "Tap your fob";
  pending = [];
}

-- The screens that the page can come to.
pub data Reachable : Screen → Type 0 where
  starts : Reachable start
  steps : {s t : Screen} → Reachable s → Step s t → Reachable t
