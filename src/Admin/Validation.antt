-- ===== src/Admin/Validation.antt =====
-- The checks of the member forms (site/src/admin.tsx).
pub mod Bounds
use Prim.Native.Char.{code}
use text.Mathlib.Text.{starts_with}
use thelab_ms.Base.{
  ℕ, String, Bool, false, ◌&&◌, ◌||◌, not, Option, none, some, [], ◌∷◌, ◌==◌, string_eq, nat_eq,
  option_eq, if◌then◌else◌, find, leb, ltb, template, decimal, utf16_length, drop_chars, number_of,
}
use thelab_ms.Rows.{Discount, discounts, discount_text}
use thelab_ms.Database.{Edit, NewMember}
use thelab_ms.App.{http_error, Result, ok, err}
use thelab_ms.App.Results.{◌>>=◌}
use thelab_ms.Forms.{Fields, read_form, trim, valid_email}
use thelab_ms.Session.{all_codes, is_discord_id}

-- form[key] ?? ''
or_blank : Option String → String
or_blank none = ""
or_blank (some value) = value

valid_discount : Option Discount → Result Discount
valid_discount none = err (http_error 400 "Choose standard rate or a valid discount category.")
valid_discount (some discount) = ok discount

unfoldable pub form_discount : Fields → Result Discount
unfolding or_blank valid_discount
form_discount form = valid_discount (
    find (λ discount. discount_text discount == or_blank (read_form form "discount_type"))
      discounts)

-- form.billing === 'yearly'
abbrev pub is_annual : Fields → Bool
is_annual form = read_form form "billing" == some "yearly"

-- text(form, key, label, max)
unfoldable pub text_input : Fields → (key label : String) → ℕ → Result String
unfolding or_blank
text_input form key label max =
    let value = trim (or_blank (read_form form key)) in
    if ltb max (utf16_length value)
    then err (
        http_error 400 (template (label ∷ " must be at most " ∷ decimal max ∷ " characters." ∷ [])))
    else ok value

pub record Common : Type 0 where
  pub name_override : String
  pub notes : String
  pub discord_user_id : Option String
  pub bill_annually : Bool
  pub discount_type : Discount

valid_discord : String → Result (Option String)
valid_discord id =
    if id == ""
    then ok none
    else if is_discord_id id
    then ok (some id)
    else err (http_error 400 "Enter a valid Discord ID.")

unfoldable pub validate_common : Fields → Result Common
unfolding valid_discord
validate_common form = do
  name ← text_input form "name_override" "Name" 160
  notes ← text_input form "notes" "Notes" 5000
  id ← text_input form "discord_user_id" "Discord ID" 20
  discord ← valid_discord id
  discount ← form_discount form
  ok (record {
    name_override = name;
    notes = notes;
    discord_user_id = discord;
    bill_annually = is_annual form;
    discount_type = discount;
  })

checked_email : String → Result String
checked_email email =
    if valid_email email then ok email else err (http_error 400 "Enter a valid email address.")

-- `validateNew`; the username is looked up later. `lower` is toLowerCase.
unfoldable pub validate_new : (String → String) → Fields → Result NewMember
unfolding checked_email
validate_new lower form = do
  common ← validate_common form
  email ← text_input form "email" "Email" 254
  valid ← checked_email (lower email)
  ok (record {
    email = valid;
    name_override = common.name_override;
    notes = common.notes;
    discord_user_id = common.discord_user_id;
    discord_username = "";
    bill_annually = common.bill_annually;
    discount_type = common.discount_type;
  })

is_digit : ℕ → Bool
is_digit c = leb b'0' c && leb c b'9'

-- [A-Za-z0-9]
pub is_alphanumeric : ℕ → Bool
unfolding is_digit
is_alphanumeric c = is_digit c || ((leb b'A' c && leb c b'Z') || (leb b'a' c && leb c b'z'))

-- /^cus_[A-Za-z0-9]+$/
unfoldable pub is_customer_id : String → Bool
unfolding is_alphanumeric
is_customer_id id =
    starts_with id "cus_"
    && (not (drop_chars 4 id == "") && all_codes is_alphanumeric (drop_chars 4 id))

-- /^[1-9]\d{0,9}$/ and at most 4294967295
unfoldable pub is_fob_text : String → Bool
unfolding is_digit
is_fob_text String.[] = false
is_fob_text (String.◌∷◌ c s) =
    (leb b'1' (code c) && leb (code c) b'9')
    && ((all_codes is_digit s && leb (utf16_length s) 9)
        && leb (number_of (String.◌∷◌ c s)) 4294967295)

valid_customer : String → Result (Option String)
valid_customer id =
    if id == ""
    then ok none
    else if is_customer_id id
    then ok (some id)
    else err (http_error 400 "Enter a valid Stripe customer ID.")

unfoldable pub valid_fob_text : String → Result (Option ℕ)
valid_fob_text fob =
    if fob == ""
    then ok none
    else if is_fob_text fob
    then ok (some (number_of fob))
    else err (http_error 400 "Enter a fob ID from 1 through 4294967295, or leave blank.")

abbrev pub is_on : String → Fields → Bool
is_on key form = read_form form key == some "on"

-- The values that the form gives at a version.
abbrev edit_of : Fields → Common → Option String → Option ℕ → ℕ → Edit
edit_of form common customer fob version = record {
  name_override = common.name_override;
  notes = common.notes;
  discord_user_id = common.discord_user_id;
  bill_annually = common.bill_annually;
  discount_type = common.discount_type;
  stripe_customer_id = customer;
  fob_id = fob;
  non_billable = is_on "non_billable" form;
  legacy_billing = is_on "legacy_billing" form;
  metadata_version = version;
}

at_version : (ℕ → Edit) → Option ℕ → Option Edit
at_version edit none = none
at_version edit (some version) = some (edit version)

-- `validateEdit`. `number` is Number() of a field, `none` where that is no natural number: such a version
-- is no member's, and the edit is `none`.
unfoldable pub validate_edit : (Option String → Option ℕ) → Fields → Result (Option Edit)
unfolding valid_customer at_version
validate_edit number form = do
  common ← validate_common form
  customer_text ← text_input form "stripe_customer_id" "Stripe customer ID" 255
  customer ← valid_customer customer_text
  fob_text ← text_input form "fob_id" "Fob ID" 10
  fob ← valid_fob_text fob_text
  ok (at_version (edit_of form common customer fob) (number (read_form form "metadata_version")))
