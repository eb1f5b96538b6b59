-- ===== src/Billing/Checkout/Keys.antt =====
-- What `checkoutLink` asks of Stripe.
use thelab_ms.Base.{ℕ, String, ◌≡◌, Option, none, some, string_eq, nat_eq, option_eq}
use thelab_ms.Rows.{Member}
use thelab_ms.Prices.{Price}
use thelab_ms.App.{Platform, App}
use thelab_ms.App.Requests.{Emits}
use thelab_ms.Billing.Pricing.{Coupon}
use thelab_ms.Billing.Checkout.Billed.{IsBilling, IsPriced, Billed}

module _ (p : Platform) (fuel : ℕ) (lower : String → String) (member : Member) where
  abbrev id : String
  id = member.member_id

  abbrev Asks {ℓ} : {A : Type ℓ} → App A → Type 0
  Asks m = Emits (Billed p fuel lower member) m

  -- A price that is known so far was resolved for the member.
  abbrev ArePriced : Option (Price × Option Coupon) → Type 0
  ArePriced none = Unit
  ArePriced (some chosen) = IsPriced p fuel lower member chosen

  -- The row with the new customer is the member's.
  abbrev IsSaved : String → Member → Type 0
  IsSaved customer row = (row.member_id ≡ id) × IsBilling p fuel lower member customer
