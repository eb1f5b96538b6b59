-- ===== src/Admin/Like.antt =====
-- The search's LIKE patterns (site/src/admin.tsx).
use Prim.Native.Char.{Char, code}
use thelab_ms.Base.{
  ℕ, ◌+◌, String, Bool, true, false, ◌&&◌, ◌||◌, List, [], ◌∷◌, ◌==◌, nat_eq, if◌then◌else◌, leb,
}

-- query.replace(/[\\%_]/g, '\\$&')
unfoldable pub is_wild : ℕ → Bool
is_wild c = c == b'\\' || (c == b'%' || c == b'_')

unfoldable pub escape_like : String → String
unfolding is_wild
escape_like String.[] = ""
escape_like (String.◌∷◌ c s) =
    if is_wild (code c)
    then String.◌∷◌ "\\" (String.◌∷◌ c (escape_like s))
    else String.◌∷◌ c (escape_like s)

-- SQLite's LIKE with ESCAPE '\': a pattern's items, of which a text must match all. A letter of ASCII
-- stands for both of its cases.
pub data Item : Type 0 where
  letter : ℕ → Item
  one_char any_text : Item

-- `escaped` tells that the escape character stands before. A pattern that ends in it matches nothing,
-- which the query's own pattern never does.
abbrev pub plain_item : Char → Item
plain_item c =
    if code c == b'%' then any_text else if code c == b'_' then one_char else letter (code c)

unfoldable pub items_from : Bool → String → List Item
items_from escaped String.[] = []
items_from true (String.◌∷◌ c s) = letter (code c) ∷ items_from false s
items_from false (String.◌∷◌ c s) =
    let literal = items_from true s in
    let next = items_from false s in if code c == b'\\' then literal else plain_item c ∷ next

unfoldable pub like_items : String → List Item
unfolding items_from
like_items pattern_text = items_from false pattern_text

unfoldable pub fold_case : ℕ → ℕ
fold_case c = if leb b'A' c && leb c b'Z' then c + 32 else c

abbrev pub any_tail : (String → Bool) → String → Bool
any_tail p String.[] = p ""
any_tail p (String.◌∷◌ c s) = p (String.◌∷◌ c s) || any_tail p s

unfoldable pub like : List Item → String → Bool
like [] String.[] = true
like [] (String.◌∷◌ c s) = false
like (letter k ∷ rest) String.[] = false
like (letter k ∷ rest) (String.◌∷◌ c s) = fold_case k == fold_case (code c) && like rest s
like (one_char ∷ rest) String.[] = false
like (one_char ∷ rest) (String.◌∷◌ c s) = like rest s
like (any_text ∷ rest) s = any_tail (like rest) s
