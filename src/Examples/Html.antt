-- ===== src/Examples/Html.antt =====
-- The renderer at a concrete page.
use thelab_ms.Base.{String, ◌≡◌, refl, [], ◌∷◌}
use thelab_ms.Html.{
  Child, leaf, node, nil, cons, str, render, render_attribute, render_attributes, render_leaf,
  escape_html, is_void, value_text,
}
use thelab_ms.Html.Escaping.{occurs, tag_count, render-tag_count}

abbrev attack : String
attack = "\"><script>alert('x')</script>&"

abbrev attack_page : Child
attack_page =
    node "div" (("title", str attack) ∷ []) (cons (leaf (str attack)) (cons (node "br" [] nil) nil))

rendered :
    render attack_page
    ≡ "<div title=\"&quot;&gt;&lt;script&gt;alert(&#39;x&#39;)&lt;/script&gt;&amp;\">&quot;&gt;&lt;script&gt;alert(&#39;x&#39;)&lt;/script&gt;&amp;<br></div>"
unfolding render render_attribute render_attributes render_leaf escape_html is_void value_text
rendered = refl

render-tag_count_example : occurs b'<' (render attack_page) ≡ tag_count attack_page
render-tag_count_example =
    render-tag_count attack_page (unfold occurs in (refl, (refl, tt), (tt, ((refl, tt, tt), tt))))
