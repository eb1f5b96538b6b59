-- ===== src/Admin/Listing.antt =====
-- The member list: its filters, its search, its order and its pages (site/src/admin.tsx).
use Prim.Native.Char.{code}
use Prim.Native.Nat.{compare, Ordering}
use Prim.Native.String.{compare as compare_text}
use thelab_ms.Base.{
  ℕ, ◌+◌, ◌-◌, ◌*◌, ◌/◌, String, Bool, true, false, ◌&&◌, ◌||◌, not, Option, none, some, List, [],
  ◌∷◌, ◌++◌, ◌==◌, string_eq, nat_eq, option_eq, if◌then◌else◌, any, keep, take, drop, length, leb,
  ltb, decimal, template, sort_by,
}
use thelab_ms.Rows.{Member}
use thelab_ms.Forms.{trim}
use thelab_ms.Database.{Database}
use thelab_ms.App.{Platform, App, query}
use thelab_ms.Admin.Like.{Item, like_items, escape_like, like}

abbrev pub page_size : ℕ
page_size = 25

-- parseInt(text, 10) of what follows the leading white space and a plus sign; 0 where there is no
-- number or a negative one.
leading_number : ℕ → String → ℕ
leading_number n String.[] = n
leading_number n (String.◌∷◌ c s) =
    let more = leading_number (n * 10 + (code c - 48)) s in
    if leb b'0' (code c) && leb (code c) b'9' then more else n

after_plus : String → ℕ
unfolding leading_number
after_plus String.[] = 0
after_plus (String.◌∷◌ c s) =
    let signless = leading_number 0 (String.◌∷◌ c s) in
    let signed = leading_number 0 s in if code c == b'+' then signed else signless

unfoldable pub parse_int : String → ℕ
unfolding after_plus
parse_int text = after_plus (trim text)

-- Math.max(1, Math.min(1e7, parseInt(...) || 1))
clamp_page : ℕ → ℕ
clamp_page n = if ltb n 1 then 1 else if ltb 10000000 n then 10000000 else n

unfoldable pub page_number : Option String → ℕ
unfolding clamp_page
page_number none = 1
page_number (some text) = clamp_page (parse_int text)

-- Math.max(1, Math.ceil(total / PAGE_SIZE))
unfoldable pub page_count : ℕ → ℕ
page_count total = if ltb total 1 then 1 else (total + 24) / 25

-- LIMIT 25 OFFSET (current - 1) * 25
unfoldable pub page_rows {ℓ} : {A : Type ℓ} → ℕ → List A → List A
page_rows current rows = take page_size (drop ((current - 1) * page_size) rows)

pub data Waivers : Type 0 where
  any_waiver signed unsigned : Waivers

pub data Accounts : Type 0 where
  any_account linked unlinked : Accounts

pub data Payments : Type 0 where
  any_payment stripe_active legacy_billing non_billable inactive : Payments

-- The filters' values.
pub record FilterValues : Type 0 where
  pub waiver : Waivers
  pub discord : Accounts
  pub payment : Payments

-- `chosen`, for each of the filters: an unknown value is the default.
unfoldable pub chosen_waiver : Option String → Waivers
chosen_waiver value =
    if value == some "all"
    then any_waiver
    else if value == some "unsigned"
    then unsigned
    else signed

unfoldable pub chosen_discord : Option String → Accounts
chosen_discord value =
    if value == some "all"
    then any_account
    else if value == some "unlinked"
    then unlinked
    else linked

unfoldable pub chosen_payment : Option String → Payments
chosen_payment value =
    if value == some "stripe_active"
    then stripe_active
    else if value == some "legacy_billing"
    then legacy_billing
    else if value == some "non_billable"
    then non_billable
    else if value == some "inactive"
    then inactive
    else any_payment

-- The values as the query's parameters.
abbrev pub waiver_text : Waivers → String
waiver_text any_waiver = "all"
waiver_text signed = "signed"
waiver_text unsigned = "unsigned"

abbrev pub discord_text : Accounts → String
discord_text any_account = "all"
discord_text linked = "linked"
discord_text unlinked = "unlinked"

abbrev pub payment_text : Payments → String
payment_text any_payment = "all"
payment_text stripe_active = "stripe_active"
payment_text legacy_billing = "legacy_billing"
payment_text non_billable = "non_billable"
payment_text inactive = "inactive"

abbrev pub unless_default : String → String → String → List (String × String)
unless_default name default value = if value == default then [] else (name, value) ∷ []

-- `listURL`, as the query's parameters.
unfoldable pub list_params : ℕ → String → FilterValues → List (String × String)
list_params current q values =
    ("page", decimal current)
    ∷ (unless_default "q" "" q
        ++ (unless_default "waiver" "signed" (waiver_text values.waiver)
            ++ (unless_default "discord" "linked" (discord_text values.discord)
                ++ unless_default "payment" "all" (payment_text values.payment))))

-- CASE WHEN non_billable = 1 THEN ... END
unfoldable pub payment_of : Member → Payments
payment_of m =
    if m.non_billable
    then non_billable
    else if m.legacy_billing
    then legacy_billing
    else if m.stripe_subscription_state == some "active"
        || m.stripe_subscription_state == some "trialing"
    then stripe_active
    else inactive

abbrev pub waiver_matches : Waivers → Member → Bool
waiver_matches any_waiver m = true
waiver_matches signed m = m.waiver_signed
waiver_matches unsigned m = not m.waiver_signed

abbrev pub discord_matches : Accounts → Member → Bool
discord_matches any_account m = true
discord_matches linked m = not (m.discord_user_id == none)
discord_matches unlinked m = m.discord_user_id == none

abbrev pub payment_matches : Payments → Member → Bool
payment_matches any_payment m = true
payment_matches choice m = payment_text (payment_of m) == payment_text choice

unfoldable pub filter_matches : FilterValues → Member → Bool
filter_matches values m =
    waiver_matches values.waiver m
    && (discord_matches values.discord m && payment_matches values.payment m)

-- column LIKE ? ESCAPE '\', where NULL matches nothing
abbrev pub column_like : List Item → Option String → Bool
column_like pattern_items none = false
column_like pattern_items (some value) = like pattern_items value

abbrev pub fob_text : Option ℕ → Option String
fob_text none = none
fob_text (some fob) = some (decimal fob)

-- The columns that a search reads.
abbrev pub searched : Member → List (Option String)
searched m =
    m.discord_user_id
    ∷ some m.discord_username
    ∷ some m.discord_email
    ∷ some m.billing_name
    ∷ some m.billing_email
    ∷ some m.name_override
    ∷ m.email
    ∷ some m.waiver_name
    ∷ fob_text m.fob_id
    ∷ []

-- `%${escaped}%`
unfoldable pub search_pattern : String → List Item
search_pattern query = like_items (template ("%" ∷ escape_like query ∷ "%" ∷ []))

unfoldable pub search_matches : String → Member → Bool
search_matches query m = any (column_like (search_pattern query)) (searched m)

-- A search covers all members; filters apply without one.
unfoldable pub list_matches : String → FilterValues → Member → Bool
list_matches query values m =
    if query == "" then filter_matches values m else search_matches query m

-- text.slice(0, n) in UTF-16 units; a character that would be cut in half is left out whole.
unfoldable pub take_units : ℕ → String → String
take_units n String.[] = ""
take_units n (String.◌∷◌ c s) =
    let units = if ltb (code c) 65536 then 1 else 2 in
    let rest = String.◌∷◌ c (take_units (n - units) s) in if leb units n then rest else ""

-- (params.get('q') || '').trim().slice(0, 254)
unfoldable pub search_query : Option String → String
search_query none = ""
search_query (some q) = take_units 254 (trim q)

abbrev pub then_by : Ordering → Ordering → Ordering
then_by Ordering.eq other = other
then_by first other = first

-- NULL stands below every value.
abbrev pub compare_null : Option String → Option String → Ordering
compare_null none none = Ordering.eq
compare_null none (some b) = Ordering.lt
compare_null (some a) none = Ordering.gt
compare_null (some a) (some b) = compare_text a b

abbrev pub is_not_gt : Ordering → Bool
is_not_gt Ordering.gt = false
is_not_gt _ = true

-- ORDER BY created DESC, discord_user_id DESC, member_id DESC
unfoldable pub newer_member : Member → Member → Bool
newer_member a b = is_not_gt (
    then_by (compare b.created a.created) (
      then_by (compare_null b.discord_user_id a.discord_user_id)
        (compare_text b.member_id a.member_id)))

-- A page of rows, or the redirect to the last page.
pub data Listed {ℓ} (A : Type ℓ) : Type ℓ where
  to_page : ℕ → Listed A
  rows_of : (total pages : ℕ) → List A → Listed A

unfoldable pub show_page {ℓ} : {A : Type ℓ} → ℕ → List A → Listed A
show_page current rows =
    let pages = page_count (length rows) in
    if ltb pages current
    then to_page pages
    else rows_of (length rows) pages (page_rows current rows)

-- The rows of the list's SELECT without its LIMIT, whose number is the COUNT.
unfoldable pub listed_members : String → FilterValues → Database → List Member
listed_members query values db = sort_by newer_member (keep (list_matches query values) db.members)

-- `memberList`, of the query's parameters; the count and the rows are one batch.
unfoldable pub member_list :
    Platform → (q page : Option String) → FilterValues → App (Listed Member)
member_list p q page values =
    query p (λ db. show_page (page_number page) (listed_members (search_query q) values db))
