-- ===== src/Machines/Replies.antt =====
-- How a call of `refresh` goes on with each reply, and the events of the images (site/static/machines.js).
use thelab_ms.Base.{
  ℕ, ◌+◌, String, Bool, true, false, ◌&&◌, ◌||◌, not, Option, none, some, List, [], ◌∷◌, ◌++◌, map,
  ◌==◌, string_eq, nat_eq, option_eq, any, if◌then◌else◌, leb,
}
use thelab_ms.Json.{Json}
use thelab_ms.App.{Url}
use thelab_ms.Machines.{Access, credentials}
use thelab_ms.Machines.Cards.{Card, Resolved, validate_cards}
use thelab_ms.Machines.Dashboard.{
  Shown, reading_access, reading_status, asking_image, reading_image, Task, Dashboard,
  clear_dashboard, deny_access, is_off, is_active, is_aborted, is_current, is_usable, wait, finish,
  fail, ask_status,
}

-- A reply's head: `fetch` threw, or the status, with whether the content is a JPEG.
pub data Head : Type 0 where
  threw : Head
  head : (status : ℕ) (is_jpeg : Bool) → Head

abbrev pub is_denied : ℕ → Bool
is_denied status = status == 401 || status == 403

abbrev pub is_ok : ℕ → Bool
is_ok status = leb 200 status && leb status 299

-- After `await fetch('/machines/data')`.
unfoldable pub access_replied : ℕ → ℕ → Head → Dashboard → Dashboard
unfolding deny_access
access_replied operation started threw d = fail operation d
access_replied operation started (head status jpeg) d =
    if not (is_active operation d) || is_aborted operation d
    then finish operation d
    else if is_denied status
    then finish operation (deny_access d)
    else if is_ok status
    then wait operation (reading_access started) d
    else fail operation d

module _ (parse_url : String → Option Url) (decode : String → Option Json) where
  abbrev pub use_access : ℕ → ℕ → Option Access → Dashboard → Dashboard
  use_access now operation none d = fail operation d
  use_access now operation (some access) d =
      ask_status now operation (record d { access = some access; expiry = some access.expires })

  -- After its `response.json()`; `none` is where that throws.
  unfoldable pub access_read : ℕ → ℕ → ℕ → Option Json → Dashboard → Dashboard
  access_read now operation started none d = fail operation d
  access_read now operation started (some reply) d =
      if not (is_active operation d) || is_aborted operation d
      then finish operation d
      else use_access now operation (credentials parse_url decode reply started now) d

-- After `await fetch(new URL('/api/printers', edge))`.
unfoldable pub status_replied : ℕ → ℕ → String → Head → Dashboard → Dashboard
unfolding deny_access
status_replied now operation edge threw d = fail operation d
status_replied now operation edge (head status jpeg) d =
    if not (is_usable now operation d)
    then finish operation d
    else if is_denied status
    then finish operation (deny_access d)
    else if is_ok status
    then wait operation (reading_status edge) d
    else fail operation d

abbrev pub article : ℕ → Card → Shown
article operation card = record { operation = operation; card = card; url = none; is_hidden = true }

abbrev pub image_task : ℕ → Card → Task
image_task operation card = record { operation = operation; stage = asking_image card.image }

abbrev pub is_empty : List Card → Bool
is_empty [] = true
is_empty (card ∷ cards) = false

unfoldable pub show_cards : ℕ → List Card → Dashboard → Dashboard
unfolding clear_dashboard
show_cards operation cards d = finish operation (record (clear_dashboard d) {
  cards = map (article operation) cards;
  is_none_configured = is_empty cards;
  status_line = "";
  tasks = map (image_task operation) cards ++ d.tasks;
})

module _ (resolve : String → String → Option Resolved) where
  abbrev pub use_cards : ℕ → ℕ → Option (List Card) → Dashboard → Dashboard
  use_cards now operation none d = fail operation d
  use_cards now operation (some cards) d =
      if is_usable now operation d then show_cards operation cards d else finish operation d

  -- After its `response.json()`.
  unfoldable pub status_read : ℕ → ℕ → String → Option Json → Dashboard → Dashboard
  status_read now operation edge none d = fail operation d
  status_read now operation edge (some reply) d =
      use_cards now operation (validate_cards resolve edge reply) d

abbrev pub is_image : ℕ → String → Shown → Bool
is_image operation path shown = shown.operation == operation && shown.card.image == path

abbrev pub on_image : ℕ → String → (Shown → Shown) → List Shown → List Shown
on_image operation path f cards =
    map (λ shown. if is_image operation path shown then f shown else shown) cards

-- catch { image.hidden = true; }
abbrev pub hide_image : ℕ → String → Dashboard → Dashboard
hide_image operation path d = record d {
  cards = on_image operation path (λ s. record s { is_hidden = true }) d.cards;
}

-- After `await fetch(new URL(path, edge))`.
unfoldable pub image_replied : ℕ → ℕ → String → Head → Dashboard → Dashboard
unfolding deny_access
image_replied now operation path threw d = finish operation (hide_image operation path d)
image_replied now operation path (head status jpeg) d =
    if not (is_usable now operation d)
    then finish operation d
    else if is_denied status
    then finish operation (deny_access d)
    else if is_ok status && jpeg
    then wait operation (reading_image path) d
    else finish operation (hide_image operation path d)

-- After its `response.blob()`; `false` is where that throws.
unfoldable pub image_read : ℕ → ℕ → String → Bool → Dashboard → Dashboard
image_read now operation path false d = finish operation (hide_image operation path d)
image_read now operation path true d =
    if is_usable now operation d
    then finish operation (record d {
      urls = d.urls + 1;
      blobs = d.urls ∷ d.blobs;
      cards = on_image operation path (λ s. record s { url = some d.urls }) d.cards;
    })
    else finish operation d

abbrev pub has_blob : List ℕ → Option ℕ → Bool
has_blob blobs none = false
has_blob blobs (some url) = any (λ n. n == url) blobs

-- An image's 'load' event.
unfoldable pub image_loaded : ℕ → ℕ → String → Dashboard → Dashboard
image_loaded now operation path d =
    if not (is_off d) && (not (is_aborted operation d) && is_current now d.access)
    then record d {
      cards =
          map
            (λ (s : Shown).
              if (s.operation == operation && s.card.image == path) && has_blob d.blobs s.url
              then record s { is_hidden = false }
              else s)
            d.cards;
    }
    else d

-- An image's 'error' event.
unfoldable pub image_failed : ℕ → String → Dashboard → Dashboard
image_failed operation path d = record d {
  cards =
      map
        (λ (s : Shown).
          if s.operation == operation && s.card.image == path
          then record s { is_hidden = true; url = none }
          else s)
        d.cards;
}
