-- ===== src/Html/Layout.antt =====
-- `page` of site/src/page.tsx: the layout that every page shares.
use Prim.Native.String.{◌++◌}
use thelab_ms.Base.{
  ℕ, ◌+◌, String, ◌≡◌, refl, Bool, true, false, List, [], ◌∷◌, if◌then◌else◌, arith,
}
use thelab_ms.Html.{bool, str, Child, leaf, list, node, nil, cons, render, is_void}
use thelab_ms.Html.Markup.{plain, one, tagged, link}
use thelab_ms.Html.Clean.{is_clean, names_clean, is_clean-IsClean, IsClean-is_clean}
use thelab_ms.Html.Escaping.{occurs, occurs-append, IsClean, tag_count, render-tag_count}

abbrev html_headers : List (String × String)
html_headers =
    ("Content-Type", "text/html; charset=utf-8")
    ∷ ("Cache-Control", "no-store")
    ∷ ("Referrer-Policy", "same-origin")
    ∷ ("X-Content-Type-Options", "nosniff")
    ∷ (
      "Content-Security-Policy",
      "default-src 'none'; script-src 'self'; style-src 'self'; img-src 'self'; form-action 'self'; base-uri 'none'; frame-ancestors 'none'",
    )
    ∷ []

-- The response of a page.
pub record Page : Type 0 where
  pub status : ℕ
  pub headers : List (String × String)
  pub text : String

abbrev admin_header : Child
admin_header = tagged "header" "admin-header" (
    cons
      (node "a" (("class", str "membership-brand") ∷ ("href", str "/") ∷ []) (one (plain "TheLab")))
      (cons
        (node "nav" (("aria-label", str "Admin navigation") ∷ [])
          (cons (link "/admin" "Members") (one (link "/admin/events" "Events"))))
        (one (
          tagged "div" "admin-toolbar-actions" (
            one (
              node "form" (("method", str "post") ∷ ("action", str "/logout") ∷ []) (
                one (
                  node "button" (("class", str "btn btn-outline") ∷ ("type", str "submit") ∷ [])
                    (one (plain "Log Out"))))))))))

abbrev heading : String → Child
heading title = node "h1" [] (one (plain title))

abbrev content : Bool → String → Child → Child
content true title body = list (cons admin_header (cons (heading title) (one body)))
content false title body = list (
    cons
      (node "a" (("class", str "membership-brand") ∷ ("href", str "/") ∷ []) (
        cons
          (node "img"
            (("src", str "/assets/favicon.svg")
              ∷ ("alt", str "")
              ∷ ("width", str "48")
              ∷ ("height", str "48")
              ∷ [])
            nil)
          (one (plain "TheLab"))))
      (one (tagged "section" "card membership-message" (cons (heading title) (one body)))))

-- {admin && <script src="/admin.js" defer />}
abbrev admin_script : Bool → Child
admin_script true = node "script" (("src", str "/admin.js") ∷ ("defer", bool true) ∷ []) nil
admin_script false = leaf (bool false)

unfoldable pub document : String → Child → Bool → Child
document title body admin = node "html" (("lang", str "en") ∷ []) (
    cons
      (node "head" [] (
        cons (node "meta" (("charset", str "utf-8") ∷ []) nil) (
          cons
            (node "meta"
              (("name", str "viewport")
                ∷ ("content", str "width=device-width, initial-scale=1")
                ∷ [])
              nil)
            (cons (node "meta" (("name", str "robots") ∷ ("content", str "noindex") ∷ []) nil) (
              cons (node "title" [] (cons (plain title) (one (plain " | TheLab")))) (
                cons
                  (node "link" (("rel", str "icon") ∷ ("href", str "/assets/favicon.svg") ∷ []) nil)
                  (cons
                    (node "link" (("rel", str "stylesheet") ∷ ("href", str "/style.css") ∷ []) nil)
                    (one (admin_script admin)))))))))
      (one (
        tagged "body" (if admin then "membership-page admin-page" else "membership-page") (
          one (
            tagged "main"
              (if admin
                then "container membership-main admin-main"
                else "container membership-main")
              (one (content admin title body)))))))

unfoldable pub page : String → Child → ℕ → Bool → Page
page title body status admin = record {
  status = status;
  headers = html_headers;
  text = "<!doctype html>" ++ render (document title body admin);
}

document-IsClean :
    (title : String) (body : Child) (admin : Bool)
    → IsClean body
    → IsClean (document title body admin)
document-IsClean title body admin clean =
    is_clean-IsClean (document title body admin) (tested admin (IsClean-is_clean body clean))
  where
    tested : (admin : Bool) → is_clean body ≡ true → is_clean (document title body admin) ≡ true
    tested true e = unfold document is_clean names_clean occurs in rw e refl
    tested false e = unfold document is_clean names_clean occurs in rw e refl

document-tag_count :
    (title : String) (body : Child) (admin : Bool)
    → tag_count (document title body admin)
      ≡ tag_count (document "" (list nil) admin) + tag_count body
unfolding document tag_count is_void
document-tag_count title body true = omega arith
document-tag_count title body false = omega arith

-- A page has the tags of its body beside those of the same page without title and body: a title adds none.
-- That is, if the body's own tag and attribute names have no `<`.
pub occurs-page :
    (title : String) (body : Child) (status : ℕ) (admin : Bool)
    → IsClean body
    → occurs b'<' (page title body status admin).text
      ≡ occurs b'<' (page "" (list nil) status admin).text + tag_count body
unfolding page
occurs-page title body status admin clean =
    let full = document title body admin in
    let empty = document "" (list nil) admin in
    let a = occurs-append b'<' "<!doctype html>" (render full) in
    let b = occurs-append b'<' "<!doctype html>" (render empty) in
    let c = render-tag_count full (document-IsClean title body admin clean) in
    let d = render-tag_count empty (document-IsClean "" (list nil) admin tt) in
    omega (arith, a, b, c, d, document-tag_count title body admin)
