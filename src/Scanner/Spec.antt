-- ===== src/Scanner/Spec.antt =====
-- What the fob kiosk promises (site/static/kiosk/app.js), as a small machine of its own, and the view of
-- a screen in it.
use thelab_ms.Base.{
  ℕ, ◌≤◌, Bool, true, false, not, Option, none, some, ◌==◌, string_eq, nat_eq, if◌then◌else◌, find,
}
use thelab_ms.Scanner.{Mode, failed, Pending, Screen}

-- At rest; within a scan; asking for the claim of a fob; showing its code; or showing an error.
pub data View : Type 0 where
  at_rest typing showing rejected : View
  asking : (fob : ℕ) → View

-- A code is only shown, and a claim only refused, for the fob of the last scan that the kiosk asks for, and
-- only a finished scan is asked for.
pub data Move : View → View → Type 0 where
  tapped : (v : View) → Move v typing
  scanned : (fob : ℕ) → 1 ≤ fob → fob ≤ 4294967295 → Move typing (asking fob)
  not_read : Move typing rejected
  granted : (fob : ℕ) → Move (asking fob) showing
  turned_down : (fob : ℕ) → Move (asking fob) rejected
  ended : (v : View) → Move v at_rest

abbrev pub is_newest : ℕ → Pending → Bool
is_newest generation q = q.current == generation

abbrev pub is_failed : Mode → Bool
is_failed failed = true
is_failed mode = false

abbrev pub answered_view : Option Pending → Bool → Mode → View
answered_view (some q) is_panel_hidden mode = asking q.fob
answered_view none is_panel_hidden mode =
    if not is_panel_hidden then showing else if is_failed mode then rejected else at_rest

unfoldable pub view : Screen → View
view s =
    if not (s.buffer == "")
    then typing
    else answered_view (find (is_newest s.generation) s.pending) s.is_panel_hidden s.mode
