-- ===== src/Machines/Dashboard.antt =====
-- The machines page as a state: its variables, its timers, the calls of `refresh` that wait, and what is
-- shown (site/static/machines.js).
use thelab_ms.Base.{
  ℕ, ◌+◌, String, Bool, true, false, ◌&&◌, ◌||◌, not, Option, none, some, List, [], ◌∷◌, ◌==◌,
  string_eq, nat_eq, option_eq, any, if◌then◌else◌, leb, ltb,
}
use thelab_ms.Machines.{Access}
use thelab_ms.Machines.Cards.{Card}

-- An article of the page with its image. `url` is the image's blob URL, as the number of its making.
pub record Shown : Type 0 where
  pub operation : ℕ
  pub card : Card
  pub url : Option ℕ
  pub is_hidden : Bool

-- What a call of `refresh` waits for. Each image waits by itself.
pub data Stage : Type 0 where
  asking_access reading_access : (started : ℕ) → Stage
  asking_status reading_status : (edge : String) → Stage
  asking_image reading_image : (path : String) → Stage

pub record Task : Type 0 where
  pub operation : ℕ
  pub stage : Stage

-- `operations` and `urls` count the operations and the blob URLs that were made; `aborted` are the
-- operations whose signal is aborted; `expiry` is the time at which `expiryTimer` fires.
pub record Dashboard : Type 0 where
  pub stopped : Bool
  pub suspended : Bool
  pub is_document_hidden : Bool
  pub current : Option ℕ
  pub interval : Bool
  pub expiry : Option ℕ
  pub access : Option Access
  pub blobs : List ℕ
  pub cards : List Shown
  pub is_none_configured : Bool
  pub status_line : String
  pub is_help_hidden : Bool
  pub operations : ℕ
  pub urls : ℕ
  pub aborted : List ℕ
  pub tasks : List Task

-- clearImages and printers.replaceChildren()
unfoldable pub clear_dashboard : Dashboard → Dashboard
clear_dashboard d = record d { cards = []; is_none_configured = false; blobs = [] }

abbrev pub abort_current : Option ℕ → List ℕ → List ℕ
abort_current none aborted = aborted
abort_current (some operation) aborted = operation ∷ aborted

unfoldable pub cancel_refresh : Dashboard → Dashboard
cancel_refresh d = record d { aborted = abort_current d.current d.aborted; current = none }

unfoldable pub pause : Dashboard → Dashboard
unfolding clear_dashboard cancel_refresh
pause d = clear_dashboard (cancel_refresh (record d { interval = false; expiry = none }))

unfoldable pub deny_access : Dashboard → Dashboard
unfolding pause
deny_access d = record (pause (record d { stopped = true; access = none })) {
  status_line = "Printer access ended. Sign in again or check your membership eligibility.";
  is_help_hidden = false;
}

-- stopped || suspended || document.hidden
abbrev pub is_off : Dashboard → Bool
is_off d = d.stopped || (d.suspended || d.is_document_hidden)

-- active()
abbrev pub is_active : ℕ → Dashboard → Bool
is_active operation d = d.current == some operation && not (is_off d)

abbrev pub is_aborted : ℕ → Dashboard → Bool
is_aborted operation d = any (λ n. n == operation) d.aborted

-- access && Date.now() < access.expires
abbrev pub is_current : ℕ → Option Access → Bool
is_current now none = false
is_current now (some access) = ltb now access.expires

-- usable()
abbrev pub is_usable : ℕ → ℕ → Dashboard → Bool
is_usable now operation d =
    is_active operation d && (not (is_aborted operation d) && is_current now d.access)

abbrev pub wait : ℕ → Stage → Dashboard → Dashboard
wait operation stage d = record d {
  tasks = record { operation = operation; stage = stage } ∷ d.tasks;
}

abbrev pub has_tasks : ℕ → Dashboard → Bool
has_tasks operation d = any (λ (t : Task). t.operation == operation) d.tasks

-- finally: if (current === operation) current = undefined, once nothing of the operation waits.
abbrev pub finish : ℕ → Dashboard → Dashboard
finish operation d =
    if not (has_tasks operation d) && d.current == some operation
    then record d { current = none }
    else d

-- catch: if (active()) ...
unfoldable pub fail : ℕ → Dashboard → Dashboard
unfolding clear_dashboard
fail operation d = finish operation (
    if is_active operation d
    then record (clear_dashboard d) {
      status_line = "Connection lost — printer status unavailable. Retrying every 5 seconds.";
    }
    else d)

-- if (!usable() || !access) return; await fetch(new URL('/api/printers', edge), options)
abbrev pub edge_of : Option Access → String
edge_of none = ""
edge_of (some access) = access.edge

abbrev pub ask_status : ℕ → ℕ → Dashboard → Dashboard
ask_status now operation d =
    if is_usable now operation d
    then wait operation (asking_status (edge_of d.access)) d
    else finish operation d

-- !access || Date.now() >= access.renew
abbrev pub is_due : ℕ → Option Access → Bool
is_due now none = true
is_due now (some access) = leb access.renew now

abbrev pub begin_operation : ℕ → ℕ → Dashboard → Dashboard
begin_operation now operation d =
    let e = record d { current = some operation; operations = operation + 1 } in
    if is_due now e.access then wait operation (asking_access now) e else ask_status now operation e

-- `refresh` up to its first `await`.
unfoldable pub refresh : ℕ → Dashboard → Dashboard
refresh now d =
    if not (d.current == none) || is_off d then d else begin_operation now d.operations d

abbrev pub emptied : Dashboard → Dashboard
emptied d = record (clear_dashboard (cancel_refresh (record d { access = none; expiry = none }))) {
  status_line = "Checking printer access…";
}

unfoldable pub expire : ℕ → Dashboard → Dashboard
expire now d = refresh now (emptied d)

abbrev pub deadline : Option Access → Option ℕ
deadline none = none
deadline (some access) = some access.expires

abbrev pub unless_expired : ℕ → Option Access → Option Access
unless_expired now access = if is_current now access then access else none

abbrev pub with_timers : Option Access → Dashboard → Dashboard
with_timers access d = record d { interval = true; access = access; expiry = deadline access }

unfoldable pub resume : ℕ → Dashboard → Dashboard
resume now d = if is_off d then d else refresh now (with_timers (unless_expired now d.access) d)
