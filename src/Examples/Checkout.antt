-- ===== src/Examples/Checkout.antt =====
-- Checkout at concrete inputs.
use thelab_ms.Base.{String, ◌≡◌, refl, true, none, some, List, [], ◌∷◌}
use thelab_ms.Prices.{Price}
use thelab_ms.App.{ok, World, ◌>>=◌, send}
use thelab_ms.Clients.{stripe, stripe_request, provider, read_reply}
use thelab_ms.Json.{is_record}
use thelab_ms.Billing.Pricing.{membership_price, is_membership_price}
use thelab_ms.Billing.Pricing.Intervals.{CacheFits, ResultFits, membership_price-CacheFits}
use thelab_ms.Billing.Checkout.{
  CheckoutSession, settle_checkout, expire_all, is_reusable, all_but_first,
}
use thelab_ms.Billing.Checkout.Billed.{Billed}
use thelab_ms.Billing.Checkout.Pending.{Settled, settle_checkout-Settled}
use thelab_ms.Examples.Sample.{ann, sample_platform, start_world}

abbrev as_is : String → String
as_is s = s

abbrev monthly : Price
monthly = record {
  id = "price_m";
  price_type = "recurring";
  product = "prod_1";
  recurring = some ("month", 1);
}

abbrev cached_world : World
cached_world = record start_world {
  prices = ("month", record { price = monthly; expires = 1700000300000 }) ∷ [];
}

month_fits : CacheFits cached_world.prices
unfolding is_membership_price
month_fits = (refl, tt)

membership_price-CacheFits_example :
    CacheFits (membership_price sample_platform 2 as_is true cached_world).1.prices
    × ResultFits sample_platform 2 as_is true
        (membership_price sample_platform 2 as_is true cached_world).0
membership_price-CacheFits_example =
    membership_price-CacheFits sample_platform 2 as_is true cached_world month_fits

abbrev session_for : String → String → CheckoutSession
session_for id price = record {
  id = id;
  url = "https://checkout.stripe.com/c/1";
  mode = "subscription";
  status = "open";
  customer = some "cus_a";
  reference = some "a1";
  price_id = some price;
  coupon_id = none;
}

abbrev two_sessions : List CheckoutSession
two_sessions = session_for "cs_old" "price_y" ∷ session_for "cs_new" "price_m" ∷ []

abbrev settled : World
settled =
    (settle_checkout sample_platform 2 as_is ann "cus_a" two_sessions (monthly, none) start_world).1

settles :
    settle_checkout sample_platform 2 as_is ann "cus_a" two_sessions (monthly, none) start_world
    ≡ (ok ("https://checkout.stripe.com/c/1", ann), settled)
unfolding settle_checkout expire_all is_reusable all_but_first stripe stripe_request provider
    read_reply is_record ◌>>=◌ send
settles = refl

settle_checkout-Settled_example :
    Settled sample_platform ann "cus_a" "https://checkout.stripe.com/c/1" two_sessions monthly none
      [] settled.sent
settle_checkout-Settled_example =
    settle_checkout-Settled sample_platform 2 as_is ann ann "cus_a"
      "https://checkout.stripe.com/c/1" two_sessions monthly none start_world settled settles
