-- ===== src/Html/Clean.antt =====
-- A test for markup whose own names have no `<`, which evaluates on a tree of the source.
use thelab_ms.Base.{
  String, ◌≡◌, refl, Bool, true, false, ◌&&◌, List, [], ◌∷◌, map, ◌==◌, nat_eq, arith,
}
use thelab_ms.Html.{Value, Child, leaf, list, node, Children, nil, cons}
use thelab_ms.Html.Escaping.{occurs, IsClean, AllClean, CleanNames}
use thelab_ms.Html.Markup.{children, when, or_null}

unfoldable pub names_clean : List (String × Value) → Bool
unfolding occurs
names_clean [] = true
names_clean ((name, value) ∷ rest) = occurs b'<' name == 0 && names_clean rest

unfoldable mutual
  unfolding occurs names_clean

  pub is_clean : Child → Bool
  is_clean (leaf value) = true
  is_clean (list nodes) = all_clean nodes
  is_clean (node tag props inside) = occurs b'<' tag == 0 && (names_clean props && all_clean inside)

  pub all_clean : Children → Bool
  all_clean nil = true
  all_clean (cons c rest) = is_clean c && all_clean rest

names_clean-CleanNames :
    (props : List (String × Value)) → names_clean props ≡ true → CleanNames props
unfolding names_clean
names_clean-CleanNames [] h = tt
names_clean-CleanNames ((name, value) ∷ rest) h =
    (ground (arith, h), names_clean-CleanNames rest (ground (arith, h)))

mutual
  unfolding is_clean

  every_name : (c : Child) → is_clean c ≡ true → IsClean c
  every_name (leaf value) h = tt
  every_name (list nodes) h = all_names nodes h
  every_name (node tag props inside) h = (
    ground (arith, h),
    names_clean-CleanNames props (ground (arith, h)),
    all_names inside (ground (arith, h)),
  )

  all_names : (cs : Children) → all_clean cs ≡ true → AllClean cs
  all_names nil h = tt
  all_names (cons c rest) h = (every_name c (ground (arith, h)), all_names rest (ground (arith, h)))

CleanNames-names_clean :
    (props : List (String × Value)) → CleanNames props → names_clean props ≡ true
unfolding names_clean
CleanNames-names_clean [] h = refl
CleanNames-names_clean ((name, value) ∷ rest) h =
    let more = CleanNames-names_clean rest h.1 in ground (arith, h.0, more)

mutual
  unfolding is_clean

  pub IsClean-is_clean : (c : Child) → IsClean c → is_clean c ≡ true
  IsClean-is_clean (leaf value) h = refl
  IsClean-is_clean (list nodes) h = AllClean-all_clean nodes h
  IsClean-is_clean (node tag props inside) h =
      let names = CleanNames-names_clean props h.1 in
      let more = AllClean-all_clean inside h.2 in ground (arith, h.0, names, more)

  AllClean-all_clean : (cs : Children) → AllClean cs → all_clean cs ≡ true
  AllClean-all_clean nil h = refl
  AllClean-all_clean (cons c rest) h =
      let first = IsClean-is_clean c h.0 in
      let more = AllClean-all_clean rest h.1 in ground (arith, first, more)

pub is_clean-IsClean : (c : Child) → is_clean c ≡ true → IsClean c
is_clean-IsClean c h = every_name c h

pub all_clean-map {ℓ} :
    {A : Type ℓ} (f : A → Child) (xs : List A)
    → ((x : A) → is_clean (f x) ≡ true)
    → all_clean (children (map f xs)) ≡ true
unfolding is_clean children
all_clean-map f [] h = refl
all_clean-map f (x ∷ xs) h = rw (h x, all_clean-map f xs h) refl

pub is_clean-when : (b : Bool) (c : Child) → is_clean c ≡ true → is_clean (when b c) ≡ true
unfolding is_clean when
is_clean-when true c h = h
is_clean-when false c h = refl

pub is_clean-or_null : (b : Bool) (c : Child) → is_clean c ≡ true → is_clean (or_null b c) ≡ true
unfolding is_clean or_null
is_clean-or_null true c h = h
is_clean-or_null false c h = refl
