-- ===== src/Html/Markup.antt =====
-- Pieces of markup, as the JSX of site/src and the elements of site/static write them.
use thelab_ms.Base.{String, Bool, true, false, List, [], ◌∷◌}
use thelab_ms.Html.{absent, bool, str, Child, leaf, node, Children, nil, cons}

abbrev pub plain : String → Child
plain text = leaf (str text)

abbrev pub one : Child → Children
one c = cons c nil

-- <tag class={class}>...</tag>
abbrev pub tagged : String → String → Children → Child
tagged tag class inside = node tag (("class", str class) ∷ []) inside

abbrev pub link : String → String → Child
link href text = node "a" (("href", str href) ∷ []) (one (plain text))

unfoldable pub children : List Child → Children
children [] = nil
children (c ∷ rest) = cons c (children rest)

-- The same with its children as a list.
abbrev pub classed : String → String → List Child → Child
unfolding children
classed tag class inside = tagged tag class (children inside)

-- <tag>...</tag>
abbrev pub bare : String → List Child → Child
unfolding children
bare tag inside = node tag [] (children inside)

-- {shown && ...}
unfoldable pub when : Bool → Child → Child
when true c = c
when false c = leaf (bool false)

-- {shown ? ... : null}
unfoldable pub or_null : Bool → Child → Child
or_null true c = c
or_null false c = leaf absent
