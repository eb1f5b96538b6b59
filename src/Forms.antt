-- ===== src/Forms.antt =====
-- What the forms and the sign-in check of a text: `validEmail` of site/src/lib.ts, trimming and control
-- characters.
use Prim.Native.Char.{code}
use text.Mathlib.Text.{starts_with}
use mathlib.Core.Option
use thelab_ms.Base.{
  ℕ, ◌+◌, String, Bool, true, false, ◌&&◌, ◌||◌, not, Option, none, some, List, [], ◌∷◌, map, ◌==◌,
  string_eq, nat_eq, if◌then◌else◌, find, leb, ltb, utf16_length, template, drop_chars,
}
use thelab_ms.Session.{split, all_codes}

-- [\x00-\x1f\x7f]
abbrev pub is_control : ℕ → Bool
is_control c = ltb c 32 || c == 127

-- \s, the white space of JavaScript.
abbrev pub is_space : ℕ → Bool
is_space c =
    (leb 9 c && leb c 13)
    || (c == 32
        || (c == 160
            || (c == 5760
                || ((leb 8192 c && leb c 8202)
                    || (c == 8232
                        || (c == 8233
                            || (c == 8239 || (c == 8287 || (c == 12288 || c == 65279)))))))))

-- \. with a character before it, which is not read here, and one after it.
dot_inside : String → Bool
dot_inside String.[] = false
dot_inside (String.◌∷◌ c s) = let later = dot_inside s in code c == 46 && not (s == "") || later

has_domain : String → Bool
unfolding dot_inside
has_domain String.[] = false
has_domain (String.◌∷◌ c s) = dot_inside s

two_parts : List String → Bool
unfolding has_domain
two_parts (local ∷ domain ∷ []) = not (local == "") && has_domain domain
two_parts _ = false

-- /^[^\s@]+@[^\s@]+\.[^\s@]+$/, by its parts around the one @ (64), up to 254 units long.
unfoldable pub valid_email : String → Bool
unfolding two_parts
valid_email email =
    leb (utf16_length email) 254
    && (all_codes (λ code. not (is_space code)) email && two_parts (split 64 email))

trim_start : String → String
trim_start String.[] = ""
trim_start (String.◌∷◌ c s) =
    let rest = trim_start s in if is_space (code c) then rest else String.◌∷◌ c s

trim_end : String → String
trim_end String.[] = ""
trim_end (String.◌∷◌ c s) =
    let rest = trim_end s in if rest == "" && is_space (code c) then "" else String.◌∷◌ c rest

-- text.trim()
unfoldable pub trim : String → String
unfolding trim_start trim_end
trim text = trim_end (trim_start text)

-- The text fields of a form, in its order.
abbrev pub Fields : Type 0
Fields = List (String × String)

or_here : Bool → String → Option String → Option String
or_here true value none = some value
or_here false value none = none
or_here here value (some later) = some later

-- The record that `readForm` makes of them: of two fields with one name, the later one stands.
unfoldable pub read_form : Fields → String → Option String
unfolding or_here
read_form [] name = none
read_form ((key, value) ∷ rest) name = or_here (key == name) value (read_form rest name)

or_empty : Option String → String
or_empty none = ""
or_empty (some value) = value

-- form[name] || ''
unfoldable pub text_field : String → Fields → String
unfolding or_empty
text_field name fields = or_empty (read_form fields name)

-- getCookie: the text after `name=` of the first part of the Cookie header that starts so; 59 is `;`.
after_name : String → Option String → Option String
after_name name none = none
after_name name (some part) = some (drop_chars (utf16_length name + 1) part)

unfoldable pub get_cookie : (header name : String) → Option String
unfolding after_name
get_cookie header name =
    after_name name
      (find (λ part. starts_with part (template (name ∷ "=" ∷ []))) (map trim (split 59 header)))

-- value?.trim() || ...
or_next : Option String → String → String
or_next none next = next
or_next (some value) next = if value == "" then next else value

-- memberName, of the columns that a row or a history event has.
unfoldable pub member_name :
    (name_override billing_name discord_username waiver_name email : Option String) → String
unfolding or_next
member_name name_override billing_name discord_username waiver_name email =
    or_next (Option.map trim name_override) (
      or_next (Option.map trim billing_name)
        (or_next discord_username (or_next waiver_name (or_next email "Member"))))

-- memberPath
unfoldable pub member_path : String → String
member_path member_id = template ("/admin/members/" ∷ member_id ∷ [])
