-- ===== src/Machines/Sound.antt =====
-- What the machines page keeps, and that its steps keep it (site/static/machines.js).
use thelab_ms.Base.{
  ℕ, ◌+◌, String, ◌≡◌, refl, Bool, true, false, ◌||◌, not, Option, none, some, List, [], ◌==◌,
  string_eq, nat_eq, option_eq, All, Bool-cases, inl, inr, arith, if◌then◌else◌, ltb,
}
use thelab_ms.Machines.{Access}
use thelab_ms.Machines.Dashboard.{
  Shown, Task, Dashboard, clear_dashboard, cancel_refresh, pause, deny_access, is_off, is_active,
  is_current, finish, fail, ask_status, refresh, expire, emptied, with_timers, deadline,
  unless_expired, resume, is_due,
}
use thelab_ms.Machines.Replies.{has_blob}

-- A shown image has its blob URL.
abbrev pub HasBlob : List ℕ → Shown → Type 0
HasBlob blobs s = s.is_hidden ≡ false → has_blob blobs s.url ≡ true

-- Nothing is shown, asked for or awaited by a timer.
pub record IsDark (d : Dashboard) : Type 0 where
  pub cards : d.cards ≡ []
  pub blobs : d.blobs ≡ []
  pub current : d.current ≡ none
  pub expiry : d.expiry ≡ none

pub record Sound (d : Dashboard) : Type 0 where
  -- After access was denied there is no access, and no refresh is due.
  pub denied : d.stopped ≡ true → (d.access ≡ none) × (d.interval ≡ false)
  -- A page that is denied, suspended or hidden is dark.
  pub off : is_off d ≡ true → IsDark d
  -- On any other, the page's access ends by a timer that is set.
  pub timed : is_off d ≡ false → d.expiry ≡ deadline d.access
  -- No printers are shown without access.
  pub shown : d.access ≡ none → d.cards ≡ []
  pub images : All (HasBlob d.blobs) d.cards

pub clear-Sound : (d : Dashboard) → Sound d → Sound (clear_dashboard d)
unfolding clear_dashboard
clear-Sound d h = record {
  denied = h.denied;
  off = λ o.
      let k = h.off o in
      record { cards = refl; blobs = refl; current = k.current; expiry = k.expiry };
  timed = h.timed;
  shown = λ e. refl;
  images = tt;
}

pub status-Sound :
    (line : String) (d : Dashboard) → Sound d → Sound (record d { status_line = line })
status-Sound line d h = record {
  denied = h.denied;
  off = λ o.
      let k = h.off o in
      record { cards = k.cards; blobs = k.blobs; current = k.current; expiry = k.expiry };
  timed = h.timed;
  shown = h.shown;
  images = h.images;
}

pub tasks-Sound : (tasks : List Task) (d : Dashboard) → Sound d → Sound (record d { tasks = tasks })
tasks-Sound tasks d h = record {
  denied = h.denied;
  off = λ o.
      let k = h.off o in
      record { cards = k.cards; blobs = k.blobs; current = k.current; expiry = k.expiry };
  timed = h.timed;
  shown = h.shown;
  images = h.images;
}

-- The current operation may end at any time, and one may start while the page is on.
pub current-Sound :
    (current : Option ℕ) (operations : ℕ) (d : Dashboard)
    → (is_off d ≡ true → current ≡ none)
    → Sound d
    → Sound (record d { current = current; operations = operations })
current-Sound current operations d k h = record {
  denied = h.denied;
  off = λ o.
      let dark = h.off o in
      record { cards = dark.cards; blobs = dark.blobs; current = k o; expiry = dark.expiry };
  timed = h.timed;
  shown = h.shown;
  images = h.images;
}

pub if-Sound : (b : Bool) (d e : Dashboard) → Sound d → Sound e → Sound (if b then d else e)
if-Sound true d e h k = h
if-Sound false d e h k = k

pub finish-Sound : (operation : ℕ) (d : Dashboard) → Sound d → Sound (finish operation d)
finish-Sound operation d h = if-Sound _ _ _ (current-Sound none d.operations d (λ o. refl) h) h

pub fail-Sound : (operation : ℕ) (d : Dashboard) → Sound d → Sound (fail operation d)
unfolding fail
fail-Sound operation d h =
    finish-Sound operation _
      (if-Sound (is_active operation d) _ _ (status-Sound _ _ (clear-Sound d h)) h)

pub ask_status-Sound :
    (now operation : ℕ) (d : Dashboard) → Sound d → Sound (ask_status now operation d)
ask_status-Sound now operation d h = if-Sound _ _ _ (tasks-Sound _ d h) (finish-Sound operation d h)

-- A page that is off may be paused.
pub pause-Sound :
    (d : Dashboard) → is_off d ≡ true → (d.stopped ≡ true → d.access ≡ none) → Sound (pause d)
unfolding pause clear_dashboard cancel_refresh
pause-Sound d o k = record {
  denied = λ s. (k s, refl);
  off = λ _. record { cards = refl; blobs = refl; current = refl; expiry = refl };
  timed = λ on. absurd (cc);
  shown = λ e. refl;
  images = tt;
}

pub deny-Sound : (d : Dashboard) → Sound (deny_access d)
unfolding deny_access pause clear_dashboard cancel_refresh
deny-Sound d = record {
  denied = λ s. (refl, refl);
  off = λ _. record { cards = refl; blobs = refl; current = refl; expiry = refl };
  timed = λ on. absurd (cc);
  shown = λ e. refl;
  images = tt;
}

pub refresh-Sound : (now : ℕ) (d : Dashboard) → Sound d → Sound (refresh now d)
unfolding refresh
refresh-Sound now d h = elim (Bool-cases (not (d.current == none) || is_off d)) [
  | inl busy ↦ rw busy h
  | inr free ↦
      let on : is_off d ≡ false = ground (arith, free) in
      let begun = current-Sound (some d.operations) (d.operations + 1) d (λ o. absurd (cc)) h in
      rw free (
        if-Sound (is_due now d.access) _ _ (tasks-Sound _ _ begun)
          (ask_status-Sound now d.operations _ begun))
]

emptied-Sound : (d : Dashboard) → Sound d → Sound (emptied d)
unfolding clear_dashboard cancel_refresh
emptied-Sound d h = record {
  denied = λ s. (refl, (h.denied s).1);
  off = λ o. record { cards = refl; blobs = refl; current = refl; expiry = refl };
  timed = λ on. refl;
  shown = λ e. refl;
  images = tt;
}

pub expire-Sound : (now : ℕ) (d : Dashboard) → Sound d → Sound (expire now d)
unfolding expire
expire-Sound now d h = refresh-Sound now (emptied d) (emptied-Sound d h)

-- A page that wakes up: it is dark if it is off still, and shows nothing if its access has expired.
pub record Wakes (now : ℕ) (d : Dashboard) : Type 0 where
  pub denied : d.stopped ≡ true → (d.access ≡ none) × (d.interval ≡ false)
  pub off : is_off d ≡ true → IsDark d
  pub shown : is_current now d.access ≡ false → d.cards ≡ []
  pub images : All (HasBlob d.blobs) d.cards

expired_none :
    (now : ℕ) (access : Option Access)
    → unless_expired now access ≡ none
    → is_current now access ≡ false
expired_none now none e = refl
expired_none now (some access) e = elim (Bool-cases (ltb now access.expires)) [
  | inl live ↦ cc (rw live at e)
  | inr over ↦ over
]

awake-Sound :
    (now : ℕ) (d : Dashboard)
    → is_off d ≡ false
    → Wakes now d
    → Sound (with_timers (unless_expired now d.access) d)
awake-Sound now d on h = record {
  denied = λ s. absurd (ground (arith, on, s));
  off = λ o. absurd (ground (arith, on, o));
  timed = λ _. refl;
  shown = λ e. h.shown (expired_none now d.access e);
  images = h.images;
}

pub resume-Sound : (now : ℕ) (d : Dashboard) → Wakes now d → Sound (resume now d)
unfolding resume
resume-Sound now d h = elim (Bool-cases (is_off d)) [
  | inl o ↦ rw o (record {
    denied = h.denied;
    off = h.off;
    timed = λ on. absurd (cc);
    shown = λ e. (h.off o).cards;
    images = h.images;
  })
  | inr on ↦ rw on (refresh-Sound now _ (awake-Sound now d on h))
]
