-- ===== src/Machines/Events.antt =====
-- What happens on the machines page, one event at a time (site/static/machines.js).
use thelab_ms.Base.{
  ℕ, ◌<◌, String, Bool, true, false, Option, none, some, List, [], ◌∷◌, ◌++◌, nat_eq, ◌≡◌,
  if◌then◌else◌,
}
use thelab_ms.Json.{Json}
use thelab_ms.App.{Url}
use thelab_ms.Machines.Cards.{Resolved}
use thelab_ms.Machines.Dashboard.{
  Stage, asking_access, reading_access, asking_status, reading_status, asking_image, reading_image,
  Task, Dashboard, pause, refresh, expire, resume, has_tasks, is_aborted,
}
use thelab_ms.Machines.Replies.{
  Head, access_replied, access_read, status_replied, status_read, image_replied, image_read,
  image_loaded, image_failed,
}

-- document.hidden has become true
unfoldable pub hide_page : Dashboard → Dashboard
unfolding pause
hide_page d =
    let e = pause (record d { is_document_hidden = true }) in
    if e.stopped then e else record e { status_line = "Refresh paused while this page is hidden." }

-- document.hidden has become false
unfoldable pub show_page : ℕ → Dashboard → Dashboard
unfolding resume
show_page now d = resume now (record d { is_document_hidden = false })

-- 'pagehide'
unfoldable pub leave_page : Dashboard → Dashboard
unfolding pause
leave_page d = pause (record d { suspended = true; access = none })

-- 'pageshow'
unfoldable pub return_to_page : ℕ → Dashboard → Dashboard
unfolding resume
return_to_page now d = resume now (record d { suspended = false })

-- No timer that is due has yet to fire.
abbrev pub OnTime : ℕ → Dashboard → Type 0
OnTime now d = (t : ℕ) → d.expiry ≡ some t → now < t

-- What comes of a call that waits.
pub data Outcome : Type 0 where
  replied : Head → Outcome
  parsed : Option Json → Outcome
  loaded : Bool → Outcome

-- Whether it is what the stage waits for.
abbrev pub suits : Stage → Outcome → Bool
suits (asking_access started) (replied h) = true
suits (asking_status edge) (replied h) = true
suits (asking_image path) (replied h) = true
suits (reading_access started) (parsed reply) = true
suits (reading_status edge) (parsed reply) = true
suits (reading_image path) (loaded fine) = true
suits stage outcome = false

module _ (parse_url : String → Option Url) (decode : String → Option Json)
    (resolve : String → String → Option Resolved) where
  -- The call goes on, at the time `now`, with the outcome that its stage waits for.
  unfoldable pub proceed : ℕ → ℕ → Stage → Outcome → Dashboard → Dashboard
  unfolding access_replied access_read status_replied status_read image_replied image_read
  proceed now operation (asking_access started) (replied h) d = access_replied operation started h d
  proceed now operation (reading_access started) (parsed reply) d =
      access_read parse_url decode now operation started reply d
  proceed now operation (asking_status edge) (replied h) d = status_replied now operation edge h d
  proceed now operation (reading_status edge) (parsed reply) d =
      status_read resolve now operation edge reply d
  proceed now operation (asking_image path) (replied h) d = image_replied now operation path h d
  proceed now operation (reading_image path) (loaded fine) d = image_read now operation path fine d
  proceed now operation stage outcome d = d

  pub data Step : Dashboard → Dashboard → Type 0 where
    proceeded :
        (now : ℕ) (before after : List Task) (task : Task) (outcome : Outcome) (d : Dashboard)
        → d.tasks ≡ before ++ task ∷ after
        → suits task.stage outcome ≡ true
        → Step d
            (proceed now task.operation task.stage outcome (record d { tasks = before ++ after }))
    took_too_long :
        (operation : ℕ) (d : Dashboard)
        → has_tasks operation d ≡ true
        → is_aborted operation d ≡ false
        → Step d (record d { aborted = operation ∷ d.aborted })
    ticked : (now : ℕ) (d : Dashboard) → d.interval ≡ true → Step d (refresh now d)
    expired : (now t : ℕ) (d : Dashboard) → d.expiry ≡ some t → Step d (expire now d)
    hid : (d : Dashboard) → Step d (hide_page d)
    showed : (now : ℕ) (d : Dashboard) → d.is_document_hidden ≡ true → Step d (show_page now d)
    left : (d : Dashboard) → Step d (leave_page d)
    returned : (now : ℕ) (d : Dashboard) → OnTime now d → Step d (return_to_page now d)
    image_came :
        (now operation : ℕ) (path : String) (d : Dashboard)
        → Step d (image_loaded now operation path d)
    image_broke :
        (operation : ℕ) (path : String) (d : Dashboard) → Step d (image_failed operation path d)

  -- Any number of events.
  pub data Steps : Dashboard → Dashboard → Type 0 where
    stay : (d : Dashboard) → Steps d d
    then_ : {a b c : Dashboard} → Steps a b → Step b c → Steps a c

-- The page before its first `resume()`.
abbrev pub blank : Bool → Dashboard
blank is_document_hidden = record {
  stopped = false;
  suspended = false;
  is_document_hidden = is_document_hidden;
  current = none;
  interval = false;
  expiry = none;
  access = none;
  blobs = [];
  cards = [];
  is_none_configured = false;
  status_line = "";
  is_help_hidden = true;
  operations = 0;
  urls = 0;
  aborted = [];
  tasks = [];
}

-- The page as it starts, at a time and hidden or not.
unfoldable pub opened : ℕ → Bool → Dashboard
unfolding resume
opened now is_document_hidden = resume now (blank is_document_hidden)
