-- ===== src/Machines/Markup.antt =====
-- The elements of the printers' list (`element` and the articles of site/static/machines.js).
use Prim.Native.String.{◌++◌ as string_append}
use thelab_ms.Base.{
  ℕ, String, Bool, true, false, Option, none, some, List, [], ◌∷◌, ◌++◌, map, if◌then◌else◌,
}
use thelab_ms.Html.{Value, bool, str, Child, node, nil}
use thelab_ms.Html.Markup.{plain, classed, bare, children}
use thelab_ms.Machines.Dashboard.{Shown, Dashboard}

module _ (blob_url : ℕ → String) where
  -- image.src, or no such attribute
  abbrev pub source : Option ℕ → List (String × Value)
  source none = []
  source (some url) = ("src", str (blob_url url)) ∷ []

  abbrev pub camera_image : Shown → Child
  camera_image shown =
      node "img"
        (("alt", str (string_append "Current camera image of " shown.card.name))
          ∷ ("hidden", bool shown.is_hidden)
          ∷ source shown.url)
        nil

  abbrev pub status_class : Bool → String
  status_class unavailable = if unavailable then "status unavailable" else "status"

  -- The article of a card.
  unfoldable pub card_article : Shown → Child
  unfolding children
  card_article shown = classed "article" "card" (
      classed "div" "details" (
        bare "h2" (plain shown.card.name ∷ [])
        ∷ classed "p" (status_class shown.card.unavailable) (plain shown.card.status ∷ [])
        ∷ bare "dl" (
            bare "dt" (plain "Remaining print time" ∷ [])
            ∷ bare "dd" (plain shown.card.remaining ∷ [])
            ∷ [])
        ∷ [])
      ∷ classed "div" "camera" (
          bare "p" (plain "Camera unavailable — retrying automatically." ∷ [])
          ∷ camera_image shown
          ∷ [])
      ∷ [])

  abbrev pub none_configured : Bool → List Child
  unfolding children
  none_configured true = bare "p" (plain "No printers are configured yet." ∷ []) ∷ []
  none_configured false = []

  -- What `printers` holds.
  unfoldable pub printer_list : Dashboard → List Child
  unfolding card_article
  printer_list d = map card_article d.cards ++ none_configured d.is_none_configured
