-- ===== src/Examples/Scanner.antt =====
-- The fob kiosk at concrete inputs.
use thelab_ms.Base.{false, []}
use thelab_ms.Scanner.{Screen, claimed, submit, answer, key_down, start}
use thelab_ms.Scanner.Sound.{Sound}

abbrev scanned : Screen
scanned = key_down false "7" start

abbrev waiting : Screen
waiting = submit (record scanned { idle = false })

abbrev shown : Screen
shown =
    answer 1700000000000 2 (claimed "data:image/svg+xml" 1700000300)
      (record waiting { pending = [] })
