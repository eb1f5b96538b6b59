-- ===== src/Rows.antt =====
-- The rows of the site's database: the interfaces of site/src/lib.ts, and the tables that only SQL
-- reads (site/migrations). A nullable column is an `Option`, a `Flag` a `Bool`.
use thelab_ms.Base.{ℕ, String, Bool, Option, List, [], ◌∷◌, ◌==◌, string_eq, any}

pub data Discount : Type 0 where
  standard military retired first_responder student family : Discount

unfoldable pub discount_text : Discount → String
discount_text standard = ""
discount_text military = "military"
discount_text retired = "retired"
discount_text first_responder = "firstResponder"
discount_text student = "student"
discount_text family = "family"

-- The list `discounts`.
abbrev pub discounts : List Discount
discounts = standard ∷ military ∷ retired ∷ first_responder ∷ student ∷ family ∷ []

unfoldable pub is_discount : String → Bool
unfolding discount_text
is_discount value = any (λ discount. discount_text discount == value) discounts

pub record Member : Type 0 where
  pub member_id : String
  pub discord_user_id : Option String
  pub discord_username : String
  pub discord_email : String
  pub email : Option String
  pub waiver_name : String
  pub billing_name : String
  pub billing_email : String
  pub name_override : String
  pub notes : String
  pub fob_id : Option ℕ
  pub non_billable : Bool
  pub legacy_billing : Bool
  pub metadata_version : ℕ
  pub created : ℕ
  pub bill_annually : Bool
  pub discount_type : Discount
  pub stripe_customer_id : Option String
  pub stripe_subscription_id : Option String
  pub stripe_subscription_state : Option String
  pub legacy_waiver_signed : Bool
  pub stripe_sync_version : ℕ
  pub waiver_signed : Bool

-- The values that `json_object` is given.
pub data Scalar : Type 0 where
  null : Scalar
  num : ℕ → Scalar
  text : String → Scalar

abbrev pub Details : Type 0
Details = List (String × Scalar)

-- `details` is the JSON object as its list of fields.
pub record MemberEvent : Type 0 where
  pub id : ℕ
  pub created : ℕ
  pub member_id : Option String
  pub event_type : String
  pub details : Details
  pub source_event_id : Option String

-- Times are milliseconds since 1970: SQLite's real-valued seconds, as `unixepoch('subsec')` gives them.
pub record FobAssignment : Type 0 where
  pub fob : ℕ
  pub member_id : Option String
  pub started : ℕ
  pub ended : Option ℕ

pub record Waiver : Type 0 where
  pub id : ℕ
  pub member_id : Option String
  pub name : String
  pub email : String
