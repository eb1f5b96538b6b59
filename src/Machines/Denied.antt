-- ===== src/Machines/Denied.antt =====
-- A page whose access was denied (site/static/machines.js).
use thelab_ms.Base.{
  ℕ, String, ◌≡◌, refl, Bool, true, false, ◌&&◌, ◌||◌, not, Option, none, some, List, ◌∷◌, ◌++◌,
  ◌==◌, nat_eq, option_eq, Bool-cases, inl, inr, arith, if◌then◌else◌, subst, sym, suc, ◌∙◌,
}
use thelab_ms.Json.{Json}
use thelab_ms.App.{Url}
use thelab_ms.Machines.Cards.{Card, Resolved, validate_cards}
use thelab_ms.Machines.Dashboard.{
  Dashboard, Stage, asking_access, reading_access, asking_status, reading_status, asking_image,
  reading_image, clear_dashboard, cancel_refresh, pause, is_active, is_off, is_aborted, finish,
  fail, refresh, emptied, expire, resume, is_current, has_tasks, Task,
}
use thelab_ms.Machines.Replies.{
  threw, head, access_replied, access_read, status_replied, status_read, image_replied, image_read,
  image_loaded, image_failed, use_cards,
}
use thelab_ms.Machines.Events.{
  hide_page, show_page, leave_page, return_to_page, Outcome, replied, parsed, loaded, proceed,
  proceeded, took_too_long, ticked, expired, hid, showed, left, returned, image_came, image_broke,
  Steps, stay, then_,
}

-- Access stays denied, and no call and no refresh is begun.
pub record Ended (d e : Dashboard) : Type 0 where
  pub stopped : e.stopped ≡ true
  pub tasks : e.tasks ≡ d.tasks
  pub operations : e.operations ≡ d.operations

module _ (d : Dashboard) (s : d.stopped ≡ true) where
  same_Ended : Ended d d
  same_Ended = record { stopped = s; tasks = refl; operations = refl }

  finish-Ended : (operation : ℕ) → Ended d (finish operation d)
  finish-Ended operation =
      elim (Bool-cases (not (has_tasks operation d) && d.current == some operation)) [
        | inl last ↦ rw last (record { stopped = s; tasks = refl; operations = refl })
        | inr more ↦ rw more (record { stopped = s; tasks = refl; operations = refl })
      ]

  -- A call that goes on finds the page stopped.
  inactive : (operation : ℕ) → is_active operation d ≡ false
  inactive operation = ground (arith, s)

  fail-Ended : (operation : ℕ) → Ended d (fail operation d)
  unfolding fail
  fail-Ended operation = rw (inactive operation) (finish-Ended operation)

  -- The same after a change that is none of the page's state.
  from :
      (e : Dashboard) (operation : ℕ)
      → e.stopped ≡ true
      → e.tasks ≡ d.tasks
      → e.operations ≡ d.operations
      → Ended d (finish operation e)
  from e operation stopped same held =
      elim (Bool-cases (not (has_tasks operation e) && e.current == some operation)) [
        | inl last ↦ rw last (record { stopped = stopped; tasks = same; operations = held })
        | inr more ↦ rw more (record { stopped = stopped; tasks = same; operations = held })
      ]

  proceed-Ended :
      (parse_url : String → Option Url) (decode : String → Option Json)
      (resolve : String → String → Option Resolved) (now operation : ℕ) (stage : Stage)
      (outcome : Outcome)
      → Ended d (proceed parse_url decode resolve now operation stage outcome d)
  unfolding proceed access_replied access_read status_replied status_read image_replied image_read
  proceed-Ended parse_url decode resolve now operation (asking_access started) (replied threw) =
      fail-Ended operation
  proceed-Ended parse_url decode resolve now operation (asking_access started)
        (replied (head status jpeg)) =
      rw (inactive operation) (finish-Ended operation)
  proceed-Ended parse_url decode resolve now operation (reading_access started) (parsed none) =
      fail-Ended operation
  proceed-Ended parse_url decode resolve now operation (reading_access started)
        (parsed (some reply)) =
      rw (inactive operation) (finish-Ended operation)
  proceed-Ended parse_url decode resolve now operation (asking_status edge) (replied threw) =
      fail-Ended operation
  proceed-Ended parse_url decode resolve now operation (asking_status edge)
        (replied (head status jpeg)) =
      rw (inactive operation) (finish-Ended operation)
  proceed-Ended parse_url decode resolve now operation (reading_status edge) (parsed none) =
      fail-Ended operation
  proceed-Ended parse_url decode resolve now operation (reading_status edge) (parsed (some reply)) =
      used (validate_cards resolve edge reply)
    where
      used : (cards : Option (List Card)) → Ended d (use_cards resolve now operation cards d)
      used none = fail-Ended operation
      used (some cards) = rw (inactive operation) (finish-Ended operation)
  proceed-Ended parse_url decode resolve now operation (asking_image path) (replied threw) =
      from _ operation s refl refl
  proceed-Ended parse_url decode resolve now operation (asking_image path)
        (replied (head status jpeg)) =
      rw (inactive operation) (finish-Ended operation)
  proceed-Ended parse_url decode resolve now operation (reading_image path) (loaded false) =
      from _ operation s refl refl
  proceed-Ended parse_url decode resolve now operation (reading_image path) (loaded true) =
      rw (inactive operation) (finish-Ended operation)
  proceed-Ended parse_url decode resolve now operation stage outcome = same_Ended

  refresh-Ended : (now : ℕ) → Ended d (refresh now d)
  unfolding refresh
  refresh-Ended now =
      let busy : (not (d.current == none) || is_off d) ≡ true = ground (arith, s) in
      rw busy same_Ended

  image_loaded-Ended :
      (now operation : ℕ) (path : String) → Ended d (image_loaded now operation path d)
  unfolding image_loaded
  image_loaded-Ended now operation path =
      let over : (not (is_off d) && (not (is_aborted operation d) && is_current now d.access))
          ≡ false =
        ground (arith, s) in
      rw over same_Ended

  if-Ended : (b : Bool) (e f : Dashboard) → Ended d e → Ended d f → Ended d (if b then e else f)
  if-Ended true e f h k = h
  if-Ended false e f h k = k

  hide_page-Ended : Ended d (hide_page d)
  unfolding hide_page pause clear_dashboard cancel_refresh
  hide_page-Ended =
      if-Ended d.stopped _ _ (record { stopped = s; tasks = refl; operations = refl })
        (record { stopped = s; tasks = refl; operations = refl })

-- The calls that wait, once `n` of them were answered: nothing is added and nothing else is gone.
pub data Remaining (ts : List Task) : List Task → ℕ → Type 0 where
  all_wait : Remaining ts ts 0
  one_answered :
      {us : List Task} {n : ℕ} (before after : List Task) (task : Task)
      → Remaining ts us n
      → us ≡ before ++ task ∷ after
      → Remaining ts (before ++ after) (suc n)

-- Denied, with the calls of `d` that wait after `n` were answered, and no refresh begun since.
pub record Quiet (d e : Dashboard) (n : ℕ) : Type 0 where
  pub stopped : e.stopped ≡ true
  pub remaining : Remaining d.tasks e.tasks n
  pub refreshes : e.operations ≡ d.operations

resumed-Ended :
    (now : ℕ) (d e : Dashboard)
    → e.stopped ≡ true
    → e.tasks ≡ d.tasks
    → e.operations ≡ d.operations
    → Ended d (resume now e)
unfolding resume
resumed-Ended now d e stopped same held =
    let off : is_off e ≡ true = ground (arith, stopped) in
    rw off (record { stopped = stopped; tasks = same; operations = held })

module _ (parse_url : String → Option Url) (decode : String → Option Json)
    (resolve : String → String → Option Resolved) where
  -- How many outcomes came of the calls that waited.
  abbrev pub answers : {d e : Dashboard} → Steps parse_url decode resolve d e → ℕ
  answers (stay d) = 0
  answers (then_ before (proceeded now xs ys task outcome d e fits)) = suc (answers before)
  answers (then_ before (took_too_long operation d waits live)) = answers before
  answers (then_ before (ticked now d set)) = answers before
  answers (then_ before (expired now t d set)) = answers before
  answers (then_ before (hid d)) = answers before
  answers (then_ before (showed now d was)) = answers before
  answers (then_ before (left d)) = answers before
  answers (then_ before (returned now d on_time)) = answers before
  answers (then_ before (image_came now operation path d)) = answers before
  answers (then_ before (image_broke operation path d)) = answers before

  module _ (d b : Dashboard) (n : ℕ) (q : Quiet d b n) where
    kept : (e : Dashboard) → Ended b e → Quiet d e n
    kept e k = record {
      stopped = k.stopped;
      remaining = subst (λ ts. Remaining d.tasks ts n) (sym (k.tasks)) q.remaining;
      refreshes = k.operations ∙ q.refreshes;
    }

    answered-Quiet :
        (now : ℕ) (before after : List Task) (task : Task) (outcome : Outcome)
        → b.tasks ≡ before ++ task ∷ after
        → Quiet d
            (proceed parse_url decode resolve now task.operation task.stage outcome
              (record b { tasks = before ++ after }))
            (suc n)
    answered-Quiet now before after task outcome e =
        let k =
          proceed-Ended (record b { tasks = before ++ after }) q.stopped parse_url decode resolve
            now task.operation task.stage outcome in
        record {
          stopped = k.stopped;
          remaining =
              subst (λ ts. Remaining d.tasks ts (suc n)) (sym (k.tasks))
                (one_answered before after task q.remaining e);
          refreshes = k.operations ∙ q.refreshes;
        }

  -- Once access was denied it stays denied, whatever happens, and no further request is made: the calls that
  -- wait are those that waited before, less exactly one for each that was answered since, and no refresh
  -- has begun.
  pub Steps-Quiet :
      (d e : Dashboard) (steps : Steps parse_url decode resolve d e)
      → d.stopped ≡ true
      → Quiet d e (answers steps)
  unfolding hide_page show_page leave_page return_to_page pause clear_dashboard cancel_refresh
      expire image_failed
  Steps-Quiet d _ (stay _) s = record { stopped = s; remaining = all_wait; refreshes = refl }
  Steps-Quiet d _ (then_ {b} before (proceeded now xs ys task outcome _ e fits)) s =
      answered-Quiet d b _ (Steps-Quiet d b before s) now xs ys task outcome e
  Steps-Quiet d _ (then_ {b} before (took_too_long operation _ waits live)) s =
      let q = Steps-Quiet d b before s in
      kept d b _ q _ (record { stopped = q.stopped; tasks = refl; operations = refl })
  Steps-Quiet d _ (then_ {b} before (ticked now _ set)) s =
      let q = Steps-Quiet d b before s in kept d b _ q _ (refresh-Ended b q.stopped now)
  Steps-Quiet d _ (then_ {b} before (expired now t _ set)) s =
      let q = Steps-Quiet d b before s in
      let k = refresh-Ended (emptied b) q.stopped now in
      kept d b _ q _ (record { stopped = k.stopped; tasks = k.tasks; operations = k.operations })
  Steps-Quiet d _ (then_ {b} before (hid _)) s =
      let q = Steps-Quiet d b before s in kept d b _ q _ (hide_page-Ended b q.stopped)
  Steps-Quiet d _ (then_ {b} before (showed now _ was)) s =
      let q = Steps-Quiet d b before s in
      kept d b _ q _
        (resumed-Ended now b (record b { is_document_hidden = false }) q.stopped refl refl)
  Steps-Quiet d _ (then_ {b} before (left _)) s =
      let q = Steps-Quiet d b before s in
      kept d b _ q _ (record { stopped = q.stopped; tasks = refl; operations = refl })
  Steps-Quiet d _ (then_ {b} before (returned now _ on_time)) s =
      let q = Steps-Quiet d b before s in
      kept d b _ q _ (resumed-Ended now b (record b { suspended = false }) q.stopped refl refl)
  Steps-Quiet d _ (then_ {b} before (image_came now operation path _)) s =
      let q = Steps-Quiet d b before s in
      kept d b _ q _ (image_loaded-Ended b q.stopped now operation path)
  Steps-Quiet d _ (then_ {b} before (image_broke operation path _)) s =
      let q = Steps-Quiet d b before s in
      kept d b _ q _ (record { stopped = q.stopped; tasks = refl; operations = refl })
