-- ===== src/Html.antt =====
-- The server's JSX renderer (site/src/html.ts).
pub mod Escaping
pub mod Markup
pub mod Clean
pub mod Layout
use Prim.Native.Char.{Char, code}
use Prim.Native.String
use Prim.Native.String.{◌++◌}
use text.Mathlib.Text.{starts_with}
use thelab_ms.Base.{
  ℕ, String, Bool, true, false, ◌||◌, List, [], ◌∷◌, ◌==◌, nat_eq, string_eq, if◌then◌else◌, any,
  decimal,
}

-- `Value` and the text leaves of `Child`; `absent` is null or undefined.
pub data Value : Type 0 where
  absent : Value
  bool : Bool → Value
  num : ℕ → Value
  str : String → Value

mutual
  pub data Child : Type 0 where
    leaf : Value → Child
    list : Children → Child
    node : (tag : String) → List (String × Value) → Children → Child

  pub data Children : Type 0 where
    nil : Children
    cons : Child → Children → Children

abbrev pub entity : Char → String
entity c =
    if code c == b'&'
    then "&amp;"
    else if code c == b'<'
    then "&lt;"
    else if code c == b'>'
    then "&gt;"
    else if code c == b'"'
    then "&quot;"
    else if code c == 39
    then "&#39;"
    else (String.◌∷◌ c String.[])

unfoldable pub escape_html : String → String
escape_html String.[] = ""
escape_html (String.◌∷◌ c s) = entity c ++ escape_html s

-- String(value)
unfoldable pub value_text : Value → String
value_text absent = ""
value_text (bool true) = "true"
value_text (bool false) = "false"
value_text (num n) = decimal n
value_text (str s) = s

abbrev quoted : String → Value → String
quoted name value = " " ++ (name ++ ("=\"" ++ (escape_html (value_text value) ++ "\"")))

unfoldable pub render_attribute : String → Value → String
render_attribute name absent = ""
render_attribute name (bool true) =
    if starts_with name "aria-" || starts_with name "data-"
    then quoted name (bool true)
    else " " ++ name
render_attribute name (bool false) =
    if starts_with name "aria-" || starts_with name "data-" then quoted name (bool false) else ""
render_attribute name value = quoted name value

unfoldable pub render_attributes : List (String × Value) → String
render_attributes [] = ""
render_attributes ((name, value) ∷ rest) = render_attribute name value ++ render_attributes rest

abbrev pub void_tags : List String
void_tags =
    "area" ∷ "base" ∷ "br" ∷ "col" ∷ "embed" ∷ "hr" ∷ "img" ∷ "input" ∷ "link" ∷ "meta" ∷ "param"
    ∷ "source" ∷ "track" ∷ "wbr" ∷ []

unfoldable pub is_void : String → Bool
is_void tag = any (λ t. t == tag) void_tags

-- null, undefined and Booleans render as nothing.
unfoldable pub render_leaf : Value → String
render_leaf absent = ""
render_leaf (bool b) = ""
render_leaf value = escape_html (value_text value)

abbrev pub wrap : String → String → String → String
wrap tag attributes inside =
    ("<" ++ (tag ++ (attributes ++ ">")))
    ++ (if is_void tag then "" else inside ++ ("</" ++ (tag ++ ">")))

unfoldable mutual
  pub render : Child → String
  render (leaf value) = render_leaf value
  render (list nodes) = render_all nodes
  render (node tag props children) = wrap tag (render_attributes props) (render_all children)

  pub render_all : Children → String
  render_all nil = ""
  render_all (cons c rest) = render c ++ render_all rest
