-- ===== src/Admin/Search.antt =====
-- The search's LIKE pattern, and what it finds.
use Prim.Native.Char.{Char, code}
use Prim.Native.String.{◌++◌ as string_append}
use text.Mathlib.TextLemmas.{nil-append, cons-append}
use thelab_ms.Base.{
  String, ◌≡◌, refl, ap, ◌∙◌, Bool, true, false, ◌&&◌, ◌||◌, Option, none, some, List, [], ◌∷◌,
  ◌++◌, ◌==◌, nat_eq, any, template, arith, Bool-cases, inl, inr,
}
use thelab_ms.Rows.{Member}
use thelab_ms.Admin.Like.{
  Item, letter, any_text, is_wild, escape_like, items_from, like_items, fold_case, any_tail, like,
}
use thelab_ms.Admin.Listing.{column_like, searched, search_pattern, search_matches}

-- The text starts with the query, where a letter of ASCII stands for both of its cases.
unfoldable pub starts_folded : String → String → Bool
starts_folded String.[] s = true
starts_folded (String.◌∷◌ c q) String.[] = false
starts_folded (String.◌∷◌ c q) (String.◌∷◌ d s) =
    fold_case (code c) == fold_case (code d) && starts_folded q s

-- The text has the query somewhere.
unfoldable pub contains_folded : String → String → Bool
contains_folded q String.[] = starts_folded q ""
contains_folded q (String.◌∷◌ c s) = starts_folded q (String.◌∷◌ c s) || contains_folded q s

abbrev pub column_contains : String → Option String → Bool
column_contains q none = false
column_contains q (some value) = contains_folded q value

letters : String → List Item
letters String.[] = []
letters (String.◌∷◌ c s) = letter (code c) ∷ letters s

-- A character that is not wild stands for itself.
not_wild :
    (c : Char) (s : String)
    → is_wild (code c) ≡ false
    → items_from false (String.◌∷◌ c s) ≡ letter (code c) ∷ items_from false s
unfolding items_from is_wild
not_wild c s h = ground arith

items-escape :
    (q : String) → items_from false (string_append (escape_like q) "%") ≡ letters q ++ any_text ∷ []
unfolding items_from escape_like is_wild letters
items-escape String.[] = refl
items-escape (String.◌∷◌ c q) = elim (Bool-cases (is_wild (code c))) [
  | inl wild ↦ rw wild (
      rw (cons-append "\\" (String.◌∷◌ c (escape_like q)) "%", cons-append c (escape_like q) "%")
        (ap (λ l. letter (code c) ∷ l) (items-escape q)))
  | inr plain ↦ rw plain (
      rw (cons-append c (escape_like q) "%", not_wild c (string_append (escape_like q) "%") plain)
        (ap (λ l. letter (code c) ∷ l) (items-escape q)))
]

like_end : (s : String) → like (any_text ∷ []) s ≡ true
unfolding like
like_end String.[] = refl
like_end (String.◌∷◌ c s) = like_end s

like-letters : (q s : String) → like (letters q ++ any_text ∷ []) s ≡ starts_folded q s
unfolding like letters starts_folded
like-letters String.[] s = like_end s
like-letters (String.◌∷◌ c q) String.[] = refl
like-letters (String.◌∷◌ c q) (String.◌∷◌ d s) =
    ap (λ b. (fold_case (code c) == fold_case (code d)) && b) (like-letters q s)

any_tail-contains :
    (q s : String) → any_tail (like (letters q ++ any_text ∷ [])) s ≡ contains_folded q s
unfolding contains_folded
any_tail-contains q String.[] = like-letters q ""
any_tail-contains q (String.◌∷◌ c s) =
    rw (like-letters q (String.◌∷◌ c s), any_tail-contains q s) refl

search_pattern-letters : (q : String) → search_pattern q ≡ any_text ∷ (letters q ++ any_text ∷ [])
unfolding search_pattern like_items template items_from
search_pattern-letters q =
    ap (λ (s : String). items_from false s)
      (cons-append _ "" (string_append (escape_like q) (string_append "%" "")))
    ∙ ap (λ (s : String). any_text ∷ items_from false s)
        (nil-append (string_append (escape_like q) "%"))
    ∙ ap (λ l. any_text ∷ l) (items-escape q)

-- A column is found exactly if it holds the searched text somewhere, in either case of its ASCII letters:
-- no character of the search is read as a wildcard, and NULL columns are never found.
pub search_matches-contains :
    (q : String) (m : Member) → search_matches q m ≡ any (column_contains q) (searched m)
unfolding search_matches like
search_matches-contains q m = any_column (searched m)
  where
    one_column :
        (column : Option String) → column_like (search_pattern q) column ≡ column_contains q column
    one_column none = refl
    one_column (some value) =
        ap (λ (items : List Item). like items value) (search_pattern-letters q)
        ∙ any_tail-contains q value

    any_column :
        (columns : List (Option String))
        → any (column_like (search_pattern q)) columns ≡ any (column_contains q) columns
    any_column [] = refl
    any_column (column ∷ rest) = rw (one_column column, any_column rest) refl
