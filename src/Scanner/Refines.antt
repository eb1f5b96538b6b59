-- ===== src/Scanner/Refines.antt =====
-- The kiosk's page beside what it promises (site/static/kiosk/app.js).
use thelab_ms.Base.{◌+◌, ◌≤◌, ◌≡◌, Bool, ◌⊎◌, string_eq, nat_eq, if◌then◌else◌}
use thelab_ms.Scanner.{Screen}
use thelab_ms.Scanner.Sound.{Sound}
use thelab_ms.Scanner.Newest.{panels, newest}
use thelab_ms.Scanner.Spec.{View, at_rest, rejected, Move, view}

-- The newest scan is asked for once, and not while a code is shown.
pub record IsLone (s : Screen) : Type 0 where
  pub lone : newest s.generation s.pending + panels s.is_panel_hidden ≤ 1

-- The view stays, or moves as the promise allows.
pub record Follows (s t : Screen) : Type 0 where
  pub lone : IsLone t
  pub moves : (view t ≡ view s) ⊎ Move (view s) (view t)

rested : Bool → View
rested error = if error then rejected else at_rest
