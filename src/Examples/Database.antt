-- ===== src/Examples/Database.antt =====
-- Statements at concrete inputs.
use thelab_ms.Base.{ℕ, some, List, [], ◌∷◌}
use thelab_ms.Database.{Statement, bind_fob, begin_sync, sign_waiver}
use thelab_ms.Database.Tracking.{run, run-Tracks}
use thelab_ms.Database.Tracks.{Tracks}
use thelab_ms.Examples.Sample.{start_db}

-- The second statement fails: the fob belongs to another member.
abbrev history : List (ℕ × Statement)
history =
    (1700000001000, bind_fob 43 "a1")
    ∷ (1700000002000, bind_fob 43 "b2")
    ∷ (1700000003000, begin_sync "a1" (some "cus_a"))
    ∷ (1700000004000, sign_waiver "Bob" "bob@example.com" "b2")
    ∷ []

run-Tracks_example : Tracks start_db (run history start_db)
run-Tracks_example = run-Tracks history start_db
