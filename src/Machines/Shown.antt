-- ===== src/Machines/Shown.antt =====
-- What the machines page shows, and when (site/static/machines.js).
use thelab_ms.Base.{
  ℕ, String, ◌≡◌, refl, sym, ap, ◌∙◌, subst, Bool, true, false, ◌&&◌, Option, none, some, [], ◌++◌,
  ◌==◌, string_eq, nat_eq, option_eq, All, Bool-cases, Option-cases, inl, inr, arith,
}
use thelab_ms.Json.{Json}
use thelab_ms.App.{Url}
use thelab_ms.Machines.Cards.{Resolved}
use thelab_ms.Machines.Dashboard.{
  Stage, Dashboard, asking_access, reading_access, asking_status, reading_status, asking_image,
  reading_image, is_off, is_current, deadline,
}
use thelab_ms.Machines.Replies.{has_blob, image_loaded, image_failed}
use thelab_ms.Machines.Events.{
  hide_page, show_page, leave_page, return_to_page, OnTime, Outcome, replied, parsed, loaded, suits,
  proceed, Step, proceeded, took_too_long, ticked, expired, hid, showed, left, returned, image_came,
  image_broke, Steps, stay, then_, blank, opened,
}
use thelab_ms.Machines.Sound.{
  HasBlob, IsDark, Sound, Wakes, status-Sound, tasks-Sound, if-Sound, pause-Sound, refresh-Sound,
  expire-Sound, resume-Sound,
}
use thelab_ms.Machines.Calls.{
  access_replied-Sound, access_read-Sound, status_replied-Sound, status_read-Sound,
  image_replied-Sound, image_read-Sound, same_blobs-Sound,
}

image_loaded-Sound :
    (now operation : ℕ) (path : String) (d : Dashboard)
    → Sound d
    → Sound (image_loaded now operation path d)
unfolding image_loaded
image_loaded-Sound now operation path d s =
    if-Sound _ _ _
      (same_blobs-Sound _ d
        (λ shown has.
          elim (Bool-cases (
            (shown.operation == operation && shown.card.image == path)
            && has_blob d.blobs shown.url)) [
              | inl it ↦ rw it (λ e. ground (arith, it))
              | inr other ↦ rw other has
            ])
        s)
      s

image_failed-Sound :
    (operation : ℕ) (path : String) (d : Dashboard)
    → Sound d
    → Sound (image_failed operation path d)
unfolding image_failed
image_failed-Sound operation path d s =
    same_blobs-Sound _ d
      (λ shown has. elim (Bool-cases (shown.operation == operation && shown.card.image == path)) [
        | inl it ↦ rw it (λ e. absurd (cc))
        | inr other ↦ rw other has
      ])
      s

hide_page-Sound : (d : Dashboard) → Sound d → Sound (hide_page d)
unfolding hide_page
hide_page-Sound d s =
    let dark =
      pause-Sound (record d { is_document_hidden = true }) (ground arith) (λ e. (s.denied e).0) in
    if-Sound _ _ _ dark (status-Sound _ _ dark)

leave_page-Sound : (d : Dashboard) → Sound d → Sound (leave_page d)
unfolding leave_page
leave_page-Sound d s =
    pause-Sound (record d { suspended = true; access = none }) (ground arith) (λ e. refl)

-- A page that was off has nothing to show when it wakes up.
dark-Wakes :
    (now : ℕ) (e : Dashboard)
    → IsDark e
    → (e.stopped ≡ true → (e.access ≡ none) × (e.interval ≡ false))
    → Wakes now e
dark-Wakes now e dark denied = record {
  denied = denied;
  off = λ o. dark;
  shown = λ k. dark.cards;
  images = subst (λ cards. All (HasBlob e.blobs) cards) (sym dark.cards) tt;
}

show_page-Sound :
    (now : ℕ) (d : Dashboard) → d.is_document_hidden ≡ true → Sound d → Sound (show_page now d)
unfolding show_page
show_page-Sound now d was s =
    let dark = s.off (ground (arith, was)) in
    let woken = record d { is_document_hidden = false } in
    resume-Sound now woken (
      dark-Wakes now woken
        (record {
          cards = dark.cards;
          blobs = dark.blobs;
          current = dark.current;
          expiry = dark.expiry;
        })
        s.denied)

return_to_page-Sound :
    (now : ℕ) (d : Dashboard) → OnTime now d → Sound d → Sound (return_to_page now d)
unfolding return_to_page
return_to_page-Sound now d on_time s =
    resume-Sound now (record d { suspended = false })
      (record {
        denied = s.denied;
        off = λ o.
            let dark = s.off (ground (arith, o)) in
            record {
              cards = dark.cards;
              blobs = dark.blobs;
              current = dark.current;
              expiry = dark.expiry;
            };
        shown = over;
        images = s.images;
      })
  where
    over : is_current now d.access ≡ false → d.cards ≡ []
    over e = elim (Bool-cases (is_off d)) [
      | inl o ↦ (s.off o).cards
      | inr on ↦ elim (Option-cases d.access) [
        | inl none_ ↦ s.shown none_
        | inr (access, some_) ↦
            let due : d.expiry ≡ some access.expires = s.timed on ∙ ap deadline some_ in
            let live = on_time access.expires due in absurd (ground (arith, live, rw some_ at e))
      ]
    ]

module _ (parse_url : String → Option Url) (decode : String → Option Json)
    (resolve : String → String → Option Resolved) where
  proceed-Sound :
      (now operation : ℕ) (stage : Stage) (outcome : Outcome) (d : Dashboard)
      → suits stage outcome ≡ true
      → Sound d
      → Sound (proceed parse_url decode resolve now operation stage outcome d)
  unfolding proceed
  proceed-Sound now operation (asking_access started) (replied h) d fits s =
      access_replied-Sound operation started h d s
  proceed-Sound now operation (reading_access started) (parsed reply) d fits s =
      access_read-Sound parse_url decode now operation started reply d s
  proceed-Sound now operation (asking_status edge) (replied h) d fits s =
      status_replied-Sound now operation edge h d s
  proceed-Sound now operation (reading_status edge) (parsed reply) d fits s =
      status_read-Sound resolve now operation edge reply d s
  proceed-Sound now operation (asking_image path) (replied h) d fits s =
      image_replied-Sound now operation path h d s
  proceed-Sound now operation (reading_image path) (loaded fine) d fits s =
      image_read-Sound now operation path fine d s
  proceed-Sound now operation stage outcome d fits s = s

  Step-Sound : (d e : Dashboard) → Step parse_url decode resolve d e → Sound d → Sound e
  Step-Sound d _ (proceeded now before after task outcome _ e fits) s =
      proceed-Sound now task.operation task.stage outcome _ fits (tasks-Sound (before ++ after) d s)
  Step-Sound d _ (took_too_long operation _ waits live) s = record {
    denied = s.denied;
    off = λ o.
        let dark = s.off o in
        record {
          cards = dark.cards;
          blobs = dark.blobs;
          current = dark.current;
          expiry = dark.expiry;
        };
    timed = s.timed;
    shown = s.shown;
    images = s.images;
  }
  Step-Sound d _ (ticked now _ set) s = refresh-Sound now d s
  Step-Sound d _ (expired now t _ set) s = expire-Sound now d s
  Step-Sound d _ (hid _) s = hide_page-Sound d s
  Step-Sound d _ (showed now _ was) s = show_page-Sound now d was s
  Step-Sound d _ (left _) s = leave_page-Sound d s
  Step-Sound d _ (returned now _ on_time) s = return_to_page-Sound now d on_time s
  Step-Sound d _ (image_came now operation path _) s = image_loaded-Sound now operation path d s
  Step-Sound d _ (image_broke operation path _) s = image_failed-Sound operation path d s

opened-Sound : (now : ℕ) (is_document_hidden : Bool) → Sound (opened now is_document_hidden)
unfolding opened
opened-Sound now is_document_hidden = resume-Sound now (blank is_document_hidden) (
    dark-Wakes now (blank is_document_hidden)
      (record { cards = refl; blobs = refl; current = refl; expiry = refl }) (λ e. absurd (cc)))

module _ (parse_url : String → Option Url) (decode : String → Option Json)
    (resolve : String → String → Option Resolved) where
  carried : (d e : Dashboard) → Steps parse_url decode resolve d e → Sound d → Sound e
  carried d _ (stay _) s = s
  carried d e (then_ {b} before last) s =
      Step-Sound parse_url decode resolve b e last (carried d b before s)

  -- However the page was opened and whatever has happened since, in whatever order: no printers are shown
  -- without access; while the page is on, a timer is set for the time at which its access expires; a page
  -- that was denied, suspended or hidden shows nothing, keeps no image and has no refresh that runs; a
  -- denied page has no access and starts no refresh by itself; and every image that is shown is one that
  -- the page still holds. Timers are taken to fire before a 'pageshow' at which they are due.
  pub Steps-Sound :
      (now : ℕ) (is_document_hidden : Bool) (d : Dashboard)
      → Steps parse_url decode resolve (opened now is_document_hidden) d
      → Sound d
  Steps-Sound now is_document_hidden d steps =
      carried (opened now is_document_hidden) d steps (opened-Sound now is_document_hidden)
