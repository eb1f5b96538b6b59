-- ===== src/Machines/Cards.antt =====
-- The checks of the printers' status (`isCard` and `validateCards` of site/static/machines.js).
use text.Mathlib.Text.{starts_with}
use thelab_ms.Base.{
  ℕ, String, Bool, true, false, ◌&&◌, ◌||◌, not, Option, none, some, List, [], ◌∷◌, map, ◌==◌,
  string_eq, nat_eq, any, all, if◌then◌else◌, leb, length, drop_chars,
}
use thelab_ms.Json.{Json, bool, arr, prop, as_string, items}
use thelab_ms.Clients.{decode_all}
use thelab_ms.Session.{all_codes}
use thelab_ms.Forms.{is_space}

pub record Card : Type 0 where
  pub name : String
  pub status : String
  pub remaining : String
  pub updated : String
  pub image : String
  pub unavailable : Bool

abbrev as_flag : Option Json → Option Bool
as_flag (some (bool b)) = some b
as_flag _ = none

abbrev card_of :
    Option String
    → Option String
    → Option String
    → Option String
    → Option String
    → Option Bool
    → Option Card
card_of (some name) (some status) (some remaining) (some updated) (some image) (some unavailable) =
    some (record {
      name = name;
      status = status;
      remaining = remaining;
      updated = updated;
      image = image;
      unavailable = unavailable;
    })
card_of _ _ _ _ _ _ = none

-- `isCard`, with the card that it finds.
unfoldable pub read_card : Json → Option Card
read_card value =
    card_of (as_string (prop "Name" value)) (as_string (prop "Status" value))
      (as_string (prop "Remaining" value)) (as_string (prop "Updated" value))
      (as_string (prop "Image" value)) (as_flag (prop "Unavailable" value))

-- Whether some character stands before a last ".jpg".
has_jpg_end : String → Bool
has_jpg_end String.[] = false
has_jpg_end (String.◌∷◌ c s) = s == ".jpg" || has_jpg_end s

-- [^/?#\\\s]
is_plain : ℕ → Bool
is_plain c = not (c == b'/' || (c == b'?' || (c == b'#' || (c == b'\\' || is_space c))))

-- /^\/machines\/images\/[^/?#\\\s]+\.jpg$/
unfoldable pub is_image_path : String → Bool
unfolding has_jpg_end is_plain
is_image_path path =
    starts_with path "/machines/images/"
    && (all_codes is_plain (drop_chars 17 path) && has_jpg_end (drop_chars 17 path))

-- What `new URL(path, edge)` reads.
pub record Resolved : Type 0 where
  pub origin : String
  pub pathname : String

-- new Set(values).size === values.length
unfoldable pub is_distinct : List String → Bool
is_distinct [] = true
is_distinct (x ∷ rest) = not (any (λ y. y == x) rest) && is_distinct rest

-- `resolve` is `new URL`, `none` where it throws.
module _ (resolve : String → String → Option Resolved) where
  abbrev pub resolves_to_itself : String → String → Option Resolved → Bool
  resolves_to_itself edge path none = false
  resolves_to_itself edge path (some url) = url.origin == edge && url.pathname == path

  abbrev pub is_own_image : String → Card → Bool
  is_own_image edge card =
      is_image_path card.image && resolves_to_itself edge card.image (resolve card.image edge)

  abbrev pub checked_cards : String → Option (List Card) → Option (List Card)
  checked_cards edge none = none
  checked_cards edge (some cards) =
      if leb (length cards) 32
        && (all (is_own_image edge) cards && is_distinct (map (λ (c : Card). c.image) cards))
      then some cards
      else none

  -- `validateCards`; `none` is where it throws.
  unfoldable pub validate_cards : String → Json → Option (List Card)
  validate_cards edge (arr values) = checked_cards edge (decode_all read_card (items values))
  validate_cards edge _ = none
