-- ===== src/Prices.antt =====
-- Stripe prices and the price cache of an isolate (site/src/billing.ts).
use thelab_ms.Base.{ℕ, String, Option, none, some, List, [], ◌∷◌, ◌==◌, string_eq, if◌then◌else◌}

-- `product` is the product's id, which Stripe gives as such or in an object.
pub record Price : Type 0 where
  pub id : String
  pub price_type : String
  pub product : String
  pub recurring : Option (String × ℕ)  -- interval and interval_count

-- An entry of the map `prices`; `expires` is in milliseconds.
pub record CachedPrice : Type 0 where
  pub price : Price
  pub expires : ℕ

abbrev pub PriceCache : Type 0
PriceCache = List (String × CachedPrice)

-- prices.get(interval)
unfoldable pub cached_price : String → PriceCache → Option CachedPrice
cached_price interval [] = none
cached_price interval ((key, entry) ∷ rest) =
    if key == interval then some entry else cached_price interval rest

-- prices.set(interval, entry)
unfoldable pub store_price : String → CachedPrice → PriceCache → PriceCache
store_price interval entry [] = (interval, entry) ∷ []
store_price interval entry ((key, old) ∷ rest) =
    if key == interval then (key, entry) ∷ rest else (key, old) ∷ store_price interval entry rest
