-- ===== src/Admin/Views.antt =====
-- What the admin pages share: dates, badges, links and form controls (site/src/admin.tsx).
pub mod Members
pub mod Events
pub mod Forms
pub mod Editor
pub mod Pages
use Prim.Native.Char.{code}
use Prim.Native.String
use Prim.Native.String.{◌++◌}
use text.Mathlib.Text.{starts_with}
use thelab_ms.Base.{
  ℕ, ◌+◌, ◌-◌, String, Bool, true, false, ◌&&◌, ◌||◌, not, Option, none, some, List, [], ◌∷◌, map,
  ◌==◌, string_eq, nat_eq, option_eq, if◌then◌else◌, ltb, template, decimal, drop_chars, any,
}
use thelab_ms.Rows.{Member, Discount, standard, first_responder, discounts, discount_text}
use thelab_ms.Policy.{grants_membership}
use thelab_ms.Session.{all_codes}
use thelab_ms.Admin.Validation.{is_alphanumeric}
use thelab_ms.Html.{Value, absent, bool, num, str, Child, leaf, list, node, nil}
use thelab_ms.Html.Markup.{plain, link, children, classed, tagged, one, when}

-- What a page is written with: the texts of the runtime's dates, upper case and query strings, and
-- whether the Stripe key is one of the test mode.
pub record Texts : Type 0 where
  pub iso : ℕ → String  -- new Date(milliseconds).toISOString()
  pub upper : String → String  -- toUpperCase
  pub query_string : List (String × String) → String  -- new URLSearchParams(...).toString()
  pub stripe_secret_key : String

-- text.replace(old, new) for a text that it has once at most
unfoldable pub replace_first : (old new text : String) → String
replace_first old new String.[] = ""
replace_first old new (String.◌∷◌ c s) =
    let rest = String.◌∷◌ c (replace_first old new s) in
    if starts_with (String.◌∷◌ c s) old
    then new ++ drop_chars (units old) (String.◌∷◌ c s)
    else rest
  where
    units : String → ℕ
    units String.[] = 0
    units (String.◌∷◌ c s) = units s + 1

unfoldable pub first_char : String → String
first_char String.[] = ""
first_char (String.◌∷◌ c s) = String.◌∷◌ c String.[]

-- text.replaceAll('_', ' ')
unfoldable pub spaced : String → String
spaced String.[] = ""
spaced (String.◌∷◌ c s) = (if code c == b'_' then " " else (String.◌∷◌ c String.[])) ++ spaced s

-- /^sub_[A-Za-z0-9]+$/
unfoldable pub is_subscription_id : String → Bool
is_subscription_id id =
    starts_with id "sub_" && (not (id == "sub_") && all_codes is_alphanumeric (drop_chars 4 id))

-- /^(sk|rk)_test_/
unfoldable pub is_test_key : String → Bool
is_test_key key = starts_with key "sk_test_" || starts_with key "rk_test_"

abbrev pub or_blank : Option String → String
or_blank none = ""
or_blank (some text) = text

module _ (t : Texts) where
  -- value.charAt(0).toUpperCase() + value.slice(1)
  unfoldable pub capitalised : String → String
  capitalised text = t.upper (first_char text) ++ drop_chars 1 text

  unfoldable pub label_discount : Discount → String
  label_discount standard = "Standard rate"
  label_discount first_responder = "First responder"
  label_discount discount = capitalised (discount_text discount)

  -- `date`, of milliseconds
  unfoldable pub date : ℕ → String
  date value =
      if value == 0 then "—" else replace_first ".000Z" " UTC" (replace_first "T" " " (t.iso value))

  abbrev pub badge_tone : Option String → String
  badge_tone state =
      if grants_membership state
      then "active"
      else if or_blank state == ""
      then "unknown"
      else "inactive"

  abbrev pub badge_text : Member → String
  badge_text m =
      if not (or_blank m.stripe_subscription_state == "")
      then capitalised (spaced (or_blank m.stripe_subscription_state))
      else if not (or_blank m.stripe_subscription_id == "")
      then "Unknown — not yet synced"
      else "No subscription"

  -- <span class={`admin-status admin-status--${tone}`}>{text}</span>
  abbrev pub status_span : String → String → Child
  status_span tone text =
      tagged "span" (template ("admin-status admin-status--" ∷ tone ∷ [])) (one (plain text))

  unfoldable pub status_badge : Member → Child
  status_badge m = status_span (badge_tone m.stripe_subscription_state) (badge_text m)

  abbrev pub stripe_url : String → String
  stripe_url id = template (
      "https://dashboard.stripe.com/"
      ∷ (if is_test_key t.stripe_secret_key then "test/" else "")
      ∷ "subscriptions/"
      ∷ id
      ∷ [])

  abbrev pub stripe_link : String → Child
  unfolding children
  stripe_link id =
      node "a"
        (("href", str (stripe_url id))
          ∷ ("target", str "_blank")
          ∷ ("rel", str "noopener noreferrer")
          ∷ [])
        (children (
          plain "View in Stripe "
          ∷ node "span" (("aria-hidden", str "true") ∷ []) (one (plain "↗"))
          ∷ tagged "span" "sr-only" (one (plain " (opens in a new tab)"))
          ∷ []))

  unfoldable pub subscription_link : Member → Child
  subscription_link m =
      if is_subscription_id (or_blank m.stripe_subscription_id)
      then stripe_link (or_blank m.stripe_subscription_id)
      else plain ""

abbrev pub label_for : String → String → Child
label_for name label = node "label" (("for", str name) ∷ []) (one (plain label))

-- help ? `${name}-help` : undefined
abbrev pub help_id : String → String → Value
help_id name help = if help == "" then absent else str (template (name ∷ "-help" ∷ []))

abbrev pub help_text : String → String → Child
help_text name help =
    node "p" (("class", str "admin-help") ∷ ("id", str (template (name ∷ "-help" ∷ []))) ∷ [])
      (one (plain help))

-- value ?? ''
abbrev pub or_empty_value : Value → Value
or_empty_value absent = str ""
or_empty_value value = value

-- `input`; `type` is "text" or "email".
unfoldable pub input : (name label : String) (value : Value) (max : ℕ) (help type : String) → Child
unfolding children
input name label value max help type = classed "div" "admin-field" (
    label_for name label
    ∷ node "input"
        (("id", str name)
          ∷ ("name", str name)
          ∷ ("type", str type)
          ∷ ("value", or_empty_value value)
          ∷ ("maxlength", num max)
          ∷ ("aria-describedby", help_id name help)
          ∷ [])
        nil
    ∷ when (not (help == "")) (help_text name help)
    ∷ [])

abbrev pub Choices : Type 0
Choices = List (String × String)

abbrev pub option_of : Option String → String × String → Child
option_of value choice =
    node "option" (("value", str choice.0) ∷ ("selected", bool (value == some choice.0)) ∷ [])
      (one (plain choice.1))

-- `options`
unfoldable pub options : Choices → Option String → Child
options choices value = list (children (map (option_of value) choices))

unfoldable pub select : (name label : String) → Option String → Choices → Child
unfolding children
select name label value choices = classed "div" "admin-field" (
    label_for name label
    ∷ node "select" (("id", str name) ∷ ("name", str name) ∷ []) (one (options choices value))
    ∷ [])

-- value === 1 || value === 'on'
abbrev pub is_checked : Value → Bool
is_checked (num n) = n == 1
is_checked (str text) = text == "on"
is_checked value = false

unfoldable pub checkbox : (name label : String) → Value → Child
unfolding children
checkbox name label value = classed "div" "admin-field" (
    node "label" (("class", str "admin-checkbox") ∷ ("for", str name) ∷ []) (
      children (
        node "input"
          (("id", str name)
            ∷ ("name", str name)
            ∷ ("type", str "checkbox")
            ∷ ("checked", bool (is_checked value))
            ∷ [])
          nil
        ∷ plain label
        ∷ []))
    ∷ [])

unfoldable pub notice : String → Bool → Child
notice message error =
    if message == ""
    then leaf absent
    else node "p"
        (("class", str (if error then "admin-notice admin-notice--error" else "admin-notice"))
          ∷ ("role", str (if error then "alert" else "status"))
          ∷ [])
        (one (plain message))

unfoldable pub billing_selects : Texts → (billing discount_type : Option String) → Child
unfolding children
billing_selects t billing discount_type = classed "div" "admin-field-grid" (
    select "billing" "Billing cycle" billing (("monthly", "Monthly") ∷ ("yearly", "Yearly") ∷ [])
    ∷ select "discount_type" "Discount category" discount_type
        (map (λ discount. (discount_text discount, label_discount t discount)) discounts)
    ∷ [])

abbrev pub page_link : String → String → Child
page_link href text =
    node "a" (("class", str "btn btn-outline") ∷ ("href", str href) ∷ []) (one (plain text))

unfoldable pub pagination : (label : String) (current pages : ℕ) (url : ℕ → String) → Child
unfolding children
pagination label current pages url =
    node "nav" (("class", str "admin-pagination") ∷ ("aria-label", str label) ∷ []) (
      children (
        when (ltb 1 current) (page_link (url (current - 1)) "Previous")
        ∷ node "span" []
            (children (plain "Page " ∷ leaf (num current) ∷ plain " of " ∷ leaf (num pages) ∷ []))
        ∷ when (ltb current pages) (page_link (url (current + 1)) "Next")
        ∷ []))
