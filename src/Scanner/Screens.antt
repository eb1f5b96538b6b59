-- ===== src/Scanner/Screens.antt =====
-- What holds of every screen that the kiosk can come to (site/static/kiosk/app.js).
use thelab_ms.Base.{
  ◌≤◌, String, ◌≡◌, true, List, [], ◌∷◌, ◌++◌, string_eq, nat_eq, arith, All, number_of,
}
use thelab_ms.Scanner.{Pending, Screen, is_fob}
use thelab_ms.Scanner.Sound.{Waits, Sound}

pub is_fob-le :
    (value : String) → is_fob value ≡ true → (1 ≤ number_of value) × (number_of value ≤ 4294967295)
unfolding is_fob
is_fob-le value h = (ground (arith, h), ground (arith, h))

pub one_of :
    (s : Screen) (before after : List Pending) (q : Pending)
    → All (Waits s) (before ++ q ∷ after)
    → Waits s q × All (Waits s) (before ++ after)
one_of s [] after q h = (h.0, h.1)
one_of s (b ∷ before) after q h =
    let (own, rest) = one_of s before after q h.1 in (own, (h.0, rest))
