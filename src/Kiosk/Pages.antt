-- ===== src/Kiosk/Pages.antt =====
-- The pages of `bindFob` (site/src/edge.tsx).
use thelab_ms.Base.{
  ℕ, ◌+◌, String, ◌≡◌, refl, true, false, not, Option, none, some, [], ◌∷◌, ◌==◌, nat_eq, template,
}
use thelab_ms.Html.{absent, num, str, Child, leaf, list, nil, node}
use thelab_ms.Html.Markup.{plain, one, bare, children, or_null}
use thelab_ms.Html.Escaping.{occurs, tag_count}
use thelab_ms.Html.Clean.{is_clean, names_clean, is_clean-IsClean, is_clean-or_null}
use thelab_ms.Html.Layout.{Page, page, occurs-page}
use thelab_ms.Kiosk.{Linked, linked_page, link_form, sign_in_first}

abbrev pub strong_number : ℕ → Child
strong_number n = node "strong" [] (one (leaf (num n)))

-- {member.fob_id ? ... : null}
unfoldable pub replaced_fob : Option ℕ → Child
unfolding children
replaced_fob none = leaf absent
replaced_fob (some n) = or_null (not (n == 0)) (
    bare "p"
      (plain "This replaces fob " ∷ strong_number n ∷ plain ", which will lose door access." ∷ []))

unfoldable pub link_body : (token discord_username : String) (fob : ℕ) → Option ℕ → Child
unfolding children
link_body token discord_username fob replaces = list (
    children (
      bare "p"
        (plain "Signed in as " ∷ bare "strong" (plain discord_username ∷ []) ∷ plain "." ∷ [])
      ∷ bare "p" (plain "Link fob " ∷ strong_number fob ∷ plain " to your membership." ∷ [])
      ∷ replaced_fob replaces
      ∷ bare "p" (plain "Door access follows your membership and waiver status." ∷ [])
      ∷ node "form"
          (("method", str "post")
            ∷ ("action", str (template ("/keyfob/bind?token=" ∷ token ∷ [])))
            ∷ [])
          (one (
            node "button" (("class", str "btn btn-primary") ∷ ("type", str "submit") ∷ [])
              (one (plain "Link fob"))))
      ∷ []))

unfoldable pub linked_body : ℕ → Child
unfolding children
linked_body fob = list (
    children (
      node "p" (("role", str "status") ∷ [])
        (children (plain "Fob " ∷ leaf (num fob) ∷ plain " is now linked to your membership." ∷ []))
      ∷ bare "p" (plain "You can close this page." ∷ [])
      ∷ []))

-- The page, or the redirect to sign in; `token` is the link's.
unfoldable pub linked_response : (token : String) → Linked → Option Page
linked_response token (linked_page fob) = some (page "Fob linked" (linked_body fob) 200 false)
linked_response token (link_form discord_username fob replaces) =
    some (page "Link your fob" (link_body token discord_username fob replaces) 200 false)
linked_response token sign_in_first = none

is_clean-replaced_fob : (replaces : Option ℕ) → is_clean (replaced_fob replaces) ≡ true
unfolding replaced_fob is_clean names_clean occurs children
is_clean-replaced_fob none = refl
is_clean-replaced_fob (some n) = is_clean-or_null (not (n == 0)) _ refl

is_clean-link_body :
    (token discord_username : String) (fob : ℕ) (replaces : Option ℕ)
    → is_clean (link_body token discord_username fob replaces) ≡ true
unfolding link_body is_clean names_clean occurs children
is_clean-link_body token discord_username fob replaces = rw (is_clean-replaced_fob replaces) refl

-- Neither a name nor a token adds a tag to the page that asks before a fob is linked.
pub occurs-link_form :
    (token discord_username : String) (fob : ℕ) (replaces : Option ℕ)
    → let body = link_body token discord_username fob replaces in
      occurs b'<' (page "Link your fob" body 200 false).text
      ≡ occurs b'<' (page "" (list nil) 200 false).text + tag_count body
occurs-link_form token discord_username fob replaces =
    occurs-page "Link your fob" _ 200 false
      (is_clean-IsClean _ (is_clean-link_body token discord_username fob replaces))
