-- ===== src/Admin/Validation/Bounds.antt =====
-- What the checks of the edit form leave (`validateEdit` of site/src/admin.tsx).
use thelab_ms.Base.{
  ℕ, ◌≤◌, String, ◌≡◌, refl, sym, true, Option, none, some, arith, utf16_length, number_of,
  number_of-ge, Bool-cases, inl, inr, ◌==◌, string_eq,
}
use thelab_ms.Database.{Edit}
use thelab_ms.App.{Result, ok, err}
use thelab_ms.App.Results.{◌>>=◌}
use thelab_ms.Forms.{Fields, read_form}
use thelab_ms.Session.{is_discord_id}
use thelab_ms.Admin.Validation.{
  Common, text_input, validate_common, is_customer_id, is_fob_text, valid_fob_text, validate_edit,
  form_discount, is_annual, is_digit, valid_discord, valid_customer, at_version, edit_of,
}

-- The values that the database is to hold of an edit.
pub record Bounded (v : Edit) : Type 0 where
  pub name : utf16_length v.name_override ≤ 160
  pub notes : utf16_length v.notes ≤ 5000
  pub discord : (id : String) → v.discord_user_id ≡ some id → is_discord_id id ≡ true
  pub customer :
      (id : String)
      → v.stripe_customer_id ≡ some id
      → (is_customer_id id ≡ true) × (utf16_length id ≤ 255)
  pub fob : (n : ℕ) → v.fob_id ≡ some n → (1 ≤ n) × (n ≤ 4294967295)

module _ {ℓ κ} {A : Type ℓ} {B : Type κ} where
  bind-eq-ok :
      (r : Result A) (f : A → Result B) (b : B)
      → (r >>= f) ≡ ok b
      → (a : A) × (r ≡ ok a) × (f a ≡ ok b)
  bind-eq-ok (ok a) f b h = (a, refl, h)
  bind-eq-ok (err e) f b h = cc

text_input-le :
    (form : Fields) (key label : String) (n : ℕ) (s : String)
    → text_input form key label n ≡ ok s
    → utf16_length s ≤ n
unfolding text_input
text_input-le form key label n s h = ground (arith, h)

is_fob_text-le :
    (s : String) → is_fob_text s ≡ true → (1 ≤ number_of s) × (number_of s ≤ 4294967295)
unfolding is_fob_text is_digit
is_fob_text-le String.[] h = cc
is_fob_text-le (String.◌∷◌ c s) h = (ground (arith, h, number_of-ge c s), ground (arith, h))

valid_fob_text-le :
    (s : String) (fob : Option ℕ) (n : ℕ)
    → valid_fob_text s ≡ ok fob
    → fob ≡ some n
    → (1 ≤ n) × (n ≤ 4294967295)
unfolding valid_fob_text
valid_fob_text-le s fob n h k = elim (Bool-cases (s == "")) [
  | inl blank ↦ cc (rw blank at h)
  | inr typed ↦ elim (Bool-cases (is_fob_text s)) [
    | inl good ↦
        let e = rw (typed, good) at h in
        let same : number_of s ≡ n = cc in rw (sym same) (is_fob_text-le s good)
    | inr bad ↦ cc (rw (typed, bad) at h)
  ]
]

valid_discord-ok :
    (s : String) (result : Option String) (id : String)
    → valid_discord s ≡ ok result
    → result ≡ some id
    → is_discord_id id ≡ true
unfolding valid_discord
valid_discord-ok s result id h k = elim (Bool-cases (s == "")) [
  | inl blank ↦ cc (rw blank at h)
  | inr typed ↦ elim (Bool-cases (is_discord_id s)) [
    | inl good ↦ let e = rw (typed, good) at h in let same : s ≡ id = cc in rw (sym same) good
    | inr bad ↦ cc (rw (typed, bad) at h)
  ]
]

valid_customer-ok :
    (s : String) (result : Option String) (id : String)
    → valid_customer s ≡ ok result
    → result ≡ some id
    → (is_customer_id id ≡ true) × (s ≡ id)
unfolding valid_customer
valid_customer-ok s result id h k = elim (Bool-cases (s == "")) [
  | inl blank ↦ cc (rw blank at h)
  | inr typed ↦ elim (Bool-cases (is_customer_id s)) [
    | inl good ↦
        let e = rw (typed, good) at h in let same : s ≡ id = cc in (rw (sym same) good, same)
    | inr bad ↦ cc (rw (typed, bad) at h)
  ]
]

validate_common-ok :
    (form : Fields) (common : Common)
    → validate_common form ≡ ok common
    → (utf16_length common.name_override ≤ 160)
      × (utf16_length common.notes ≤ 5000)
      × ((id : String) → common.discord_user_id ≡ some id → is_discord_id id ≡ true)
unfolding validate_common
validate_common-ok form common h =
    let (name, e₁, h₁) = bind-eq-ok (text_input form "name_override" "Name" 160) _ _ h in
    let (notes, e₂, h₂) = bind-eq-ok (text_input form "notes" "Notes" 5000) _ _ h₁ in
    let (id, e₃, h₃) = bind-eq-ok (text_input form "discord_user_id" "Discord ID" 20) _ _ h₂ in
    let (discord, e₄, h₄) = bind-eq-ok (valid_discord id) _ _ h₃ in
    let (discount, e₅, h₅) = bind-eq-ok (form_discount form) _ _ h₄ in
    let built : Common = record {
      name_override = name;
      notes = notes;
      discord_user_id = discord;
      bill_annually = is_annual form;
      discount_type = discount;
    } in
    let same : built ≡ common = cc in
    rw (sym same) (
      text_input-le form _ _ 160 name e₁,
      text_input-le form _ _ 5000 notes e₂,
      λ x k. valid_discord-ok id discord x e₄ k,
    )

-- An edit that the checks let through has a name of at most 160 characters, notes of at most 5000, and,
-- where the form has them, a Discord id, a Stripe customer id of at most 255 characters and a fob from 1
-- to 4294967295. A length counts UTF-16 units.
pub validate_edit-Bounded :
    (number : Option String → Option ℕ) (form : Fields) (v : Edit)
    → validate_edit number form ≡ ok (some v)
    → Bounded v
unfolding validate_edit
validate_edit-Bounded number form v h =
    let (common, e₁, h₁) = bind-eq-ok (validate_common form) _ _ h in
    let (customer_text, e₂, h₂) =
      bind-eq-ok (text_input form "stripe_customer_id" "Stripe customer ID" 255) _ _ h₁ in
    let (customer, e₃, h₃) = bind-eq-ok (valid_customer customer_text) _ _ h₂ in
    let (fob_text, e₄, h₄) = bind-eq-ok (text_input form "fob_id" "Fob ID" 10) _ _ h₃ in
    let (fob, e₅, h₅) = bind-eq-ok (valid_fob_text fob_text) _ _ h₄ in
    let fine = validate_common-ok form common e₁ in
    at (number (read_form form "metadata_version")) common customer fob h₅ fine
      (λ id k.
        let own = valid_customer-ok customer_text customer id e₃ k in
        (own.0, rw (sym own.1) (text_input-le form _ _ 255 customer_text e₂)))
      (λ n k. valid_fob_text-le fob_text fob n e₅ k)
  where
    at :
        (version : Option ℕ) (common : Common) (customer : Option String) (fob : Option ℕ)
        → ok (at_version (edit_of form common customer fob) version) ≡ ok (some v)
        → (utf16_length common.name_override ≤ 160)
          × (utf16_length common.notes ≤ 5000)
          × ((id : String) → common.discord_user_id ≡ some id → is_discord_id id ≡ true)
        → ((id : String)
            → customer ≡ some id
            → (is_customer_id id ≡ true) × (utf16_length id ≤ 255))
        → ((n : ℕ) → fob ≡ some n → (1 ≤ n) × (n ≤ 4294967295))
        → Bounded v
    at none common customer fob e fine c f = cc
    at (some version) common customer fob e fine c f =
        let same : edit_of form common customer fob version ≡ v = cc in
        rw (sym same)
          (record { name = fine.0; notes = fine.1; discord = fine.2; customer = c; fob = f })
