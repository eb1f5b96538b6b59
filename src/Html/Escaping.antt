-- ===== src/Html/Escaping.antt =====
-- `escapeHTML` and the markup that `render` (site/src/html.ts) writes.
use Prim.Native.Nat.{ℕ, ◌+◌}
use Prim.Native.Char.{Char, code}
use Prim.Native.String.{◌++◌}
use text.Mathlib.TextLemmas.{nil-append, cons-append}
use thelab_ms.Base.{
  String, ◌≡◌, refl, ◌∙◌, ap, Bool, true, false, List, [], ◌∷◌, ◌==◌, nat_eq, if◌then◌else◌, arith,
  All, ◌⊎◌, inl,
}
use thelab_ms.Html.{
  Value, absent, bool, num, str, Child, leaf, list, node, Children, nil, cons, entity, escape_html,
  value_text, render_attribute, render_attributes, is_void, render_leaf, wrap, render, render_all,
}

-- How often a character occurs.
unfoldable pub occurs : ℕ → String → ℕ
occurs k String.[] = 0
occurs k (String.◌∷◌ c s) = (if code c == k then 1 else 0) + occurs k s

pub occurs-append : (k : ℕ) (s t : String) → occurs k (s ++ t) ≡ occurs k s + occurs k t
unfolding occurs
occurs-append k String.[] t = rw nil-append (omega arith)
occurs-append k (String.◌∷◌ c s) t = rw cons-append (omega (arith, occurs-append k s t))

occurs-if :
    (k : ℕ) (b : Bool) (s t : String)
    → occurs k (if b then s else t) ≡ (if b then occurs k s else occurs k t)
occurs-if k true s t = refl
occurs-if k false s t = refl

-- The characters that delimit markup.
abbrev pub IsDelimiter : ℕ → Type 0
IsDelimiter k = (k ≡ b'<') ⊎ ((k ≡ b'>') ⊎ (k ≡ b'"'))

occurs-entity : (k : ℕ) → IsDelimiter k → (c : Char) → occurs k (entity c) ≡ 0
unfolding occurs
occurs-entity k h c = simp occurs-if (ground arith)

-- Escaped text has no `<`, no `>` and no `"`.
pub occurs-escape_html : (k : ℕ) (s : String) → IsDelimiter k → occurs k (escape_html s) ≡ 0
unfolding escape_html
occurs-escape_html k String.[] h = unfold occurs in refl
occurs-escape_html k (String.◌∷◌ c s) h = omega (
  arith,
  occurs-append k (entity c) (escape_html s),
  occurs-entity k h c,
  occurs-escape_html k s h,
)

occurs-quoted :
    (name : String) (value : Value)
    → occurs b'<' name ≡ 0
    → occurs b'<' (" " ++ (name ++ ("=\"" ++ (escape_html (value_text value) ++ "\"")))) ≡ 0
occurs-quoted name value clean =
    let rest = escape_html (value_text value) ++ "\"" in
    omega (
      arith,
      clean,
      occurs-append b'<' " " (name ++ ("=\"" ++ rest)),
      occurs-append b'<' name ("=\"" ++ rest),
      occurs-append b'<' "=\"" rest,
      occurs-append b'<' (escape_html (value_text value)) "\"",
      occurs-escape_html b'<' (value_text value) (inl refl),
      space,
      equals,
      quote,
    )
  where
    space : occurs b'<' " " ≡ 0
    space = unfold occurs in refl

    equals : occurs b'<' "=\"" ≡ 0
    equals = unfold occurs in refl

    quote : occurs b'<' "\"" ≡ 0
    quote = unfold occurs in refl

empty-occurs : (k : ℕ) → occurs k "" ≡ 0
unfolding occurs
empty-occurs k = refl

occurs-render_attribute :
    (name : String) (value : Value)
    → occurs b'<' name ≡ 0
    → occurs b'<' (render_attribute name value) ≡ 0
unfolding render_attribute
occurs-render_attribute name absent clean = empty-occurs b'<'
occurs-render_attribute name (bool true) clean =
    rw occurs-if (ground (arith, occurs-quoted name (bool true), bare))
  where
    space : occurs b'<' " " ≡ 0
    space = unfold occurs in refl

    bare : occurs b'<' (" " ++ name) ≡ 0
    bare = omega (arith, occurs-append b'<' " " name, space, clean)
occurs-render_attribute name (bool false) clean =
    rw occurs-if (ground (arith, occurs-quoted name (bool false), empty-occurs b'<'))
occurs-render_attribute name (num n) clean = occurs-quoted name (num n) clean
occurs-render_attribute name (str s) clean = occurs-quoted name (str s) clean

abbrev pub CleanNames : List (String × Value) → Type 0
CleanNames props = All (λ a. occurs b'<' a.0 ≡ 0) props

occurs-render_attributes :
    (props : List (String × Value)) → CleanNames props → occurs b'<' (render_attributes props) ≡ 0
unfolding render_attributes
occurs-render_attributes [] clean = empty-occurs b'<'
occurs-render_attributes ((name, value) ∷ rest) clean = omega (
  arith,
  occurs-append b'<' (render_attribute name value) (render_attributes rest),
  occurs-render_attribute name value clean.0,
  occurs-render_attributes rest clean.1,
)

-- The page's own tag and attribute names are free of `<`.
abbrev mutual
  pub IsClean : Child → Type 0
  IsClean (leaf value) = Unit
  IsClean (list nodes) = AllClean nodes
  IsClean (node tag props children) = (occurs b'<' tag ≡ 0) × CleanNames props × AllClean children

  pub AllClean : Children → Type 0
  AllClean nil = Unit
  AllClean (cons c rest) = IsClean c × AllClean rest

-- The tags that a tree is to have: one for a void element, else an opening and a closing one.
unfoldable mutual
  pub tag_count : Child → ℕ
  tag_count (leaf value) = 0
  tag_count (list nodes) = tag_count_all nodes
  tag_count (node tag props children) = if is_void tag then 1 else 2 + tag_count_all children

  pub tag_count_all : Children → ℕ
  tag_count_all nil = 0
  tag_count_all (cons c rest) = tag_count c + tag_count_all rest

occurs-render_leaf : (value : Value) → occurs b'<' (render_leaf value) ≡ 0
unfolding render_leaf
occurs-render_leaf absent = empty-occurs b'<'
occurs-render_leaf (bool b) = empty-occurs b'<'
occurs-render_leaf (num n) = occurs-escape_html b'<' _ (inl refl)
occurs-render_leaf (str s) = occurs-escape_html b'<' _ (inl refl)

occurs-wrap :
    (tag attributes inside : String)
    → occurs b'<' tag ≡ 0
    → occurs b'<' attributes ≡ 0
    → occurs b'<' (wrap tag attributes inside) ≡ (if is_void tag then 1 else 2 + occurs b'<' inside)
occurs-wrap tag attributes inside t a =
    simp (occurs-append, occurs-if, opening, closing, end, t, a, empty-occurs) (ground arith)
  where
    opening : occurs b'<' "<" ≡ 1
    opening = unfold occurs in refl

    closing : occurs b'<' "</" ≡ 1
    closing = unfold occurs in refl

    end : occurs b'<' ">" ≡ 0
    end = unfold occurs in refl

mutual
  unfolding render tag_count

  render_count : (c : Child) → IsClean c → occurs b'<' (render c) ≡ tag_count c
  render_count (leaf value) clean = occurs-render_leaf value
  render_count (list nodes) clean = render_all_count nodes clean
  render_count (node tag props children) clean =
      occurs-wrap tag (render_attributes props) (render_all children) clean.0
        (occurs-render_attributes props clean.1)
      ∙ ap (λ n. if is_void tag then 1 else 2 + n) (render_all_count children clean.2)

  render_all_count : (cs : Children) → AllClean cs → occurs b'<' (render_all cs) ≡ tag_count_all cs
  render_all_count nil clean = empty-occurs b'<'
  render_all_count (cons c rest) clean =
      occurs-append b'<' (render c) (render_all rest)
      ∙ ap (λ n. n + occurs b'<' (render_all rest)) (render_count c clean.0)
      ∙ ap (λ n. tag_count c + n) (render_all_count rest clean.1)

-- Whatever texts, numbers and attribute values a page holds, its markup has exactly the tags of its
-- tree, provided that the page's own tag and attribute names have no `<`.
pub render-tag_count : (c : Child) → IsClean c → occurs b'<' (render c) ≡ tag_count c
render-tag_count c clean = render_count c clean
