-- ===== src/Billing/Pricing/Intervals.antt =====
-- The price that `membershipPrice` finds, and its cache.
use thelab_ms.Base.{
  ℕ, zero, suc, String, ◌≡◌, refl, sym, subst, Bool, true, false, Option, none, some, List, [], ◌∷◌,
  ◌==◌, string_eq, nat_eq, find, find-eq-some, ltb, eq_iff, All, Option-cases, Bool-cases, inl, inr,
}
use thelab_ms.Prices.{Price, CachedPrice, PriceCache, cached_price, store_price}
use thelab_ms.App.{Result, ok, err, Platform, World, App, pure, throw, ◌>>=◌, send}
use thelab_ms.App.Laws.{returned}
use thelab_ms.App.Requests.{Preserves, >>=-Preserves, Yields, pure-Yields, >>=-Yields}
use thelab_ms.Clients.{provider, stripe, stripe_list, list_pages, next_page}
use thelab_ms.Billing.Pricing.{
  interval_of, is_membership_price, fresh_price, read_cache, remember, look_up, membership_price,
  decode_price,
}

-- Every entry holds a price of its key's interval.
abbrev pub CacheFits : PriceCache → Type 0
CacheFits prices =
    All (λ (e : String × CachedPrice). is_membership_price e.0 e.1.price ≡ true) prices

cached_price-fits :
    (interval : String) (prices : PriceCache) (entry : CachedPrice)
    → CacheFits prices
    → cached_price interval prices ≡ some entry
    → is_membership_price interval entry.price ≡ true
unfolding cached_price
cached_price-fits interval [] entry fits h = cc
cached_price-fits interval ((key, old) ∷ rest) entry fits h = elim (Bool-cases (key == interval)) [
  | inl here ↦
      let e : old ≡ entry = cc (rw here at h) in
      subst (λ k. is_membership_price k entry.price ≡ true) ((eq_iff key interval).0 here)
        (subst (λ (c : CachedPrice). is_membership_price key c.price ≡ true) e fits.0)
  | inr later ↦ cached_price-fits interval rest entry fits.1 (rw later at h)
]

store_price-fits :
    (interval : String) (entry : CachedPrice) (prices : PriceCache)
    → is_membership_price interval entry.price ≡ true
    → CacheFits prices
    → CacheFits (store_price interval entry prices)
unfolding store_price
store_price-fits interval entry [] h fits = (h, tt)
store_price-fits interval entry ((key, old) ∷ rest) h fits = elim (Bool-cases (key == interval)) [
  | inl here ↦ rw here (rw (sym ((eq_iff key interval).0 here)) at h, fits.1)
  | inr later ↦ rw later (fits.0, store_price-fits interval entry rest h fits.1)
]

abbrev Fits : World → Type 0
Fits w = CacheFits w.prices

abbrev pub FitsFor : String → Option Price → Type 0
FitsFor interval none = Unit
FitsFor interval (some price) = is_membership_price interval price ≡ true

fresh_price-fits :
    (p : Platform) (time : ℕ) (interval : String) (prices : PriceCache)
    → CacheFits prices
    → FitsFor interval (fresh_price p time (cached_price interval prices))
fresh_price-fits p time interval prices fits = elim (Option-cases (cached_price interval prices)) [
  | inl missing ↦ rw missing tt
  | inr (entry, here) ↦ elim (Bool-cases (ltb time entry.expires)) [
    | inl fresh ↦ rw (here, fresh) (cached_price-fits interval prices entry fits here)
    | inr stale ↦ rw (here, stale) tt
  ]
]

find-FitsFor :
    (interval : String) (found : List Price)
    → FitsFor interval (find (is_membership_price interval) found)
find-FitsFor interval found = elim (Option-cases (find (is_membership_price interval) found)) [
  | inl missing ↦ rw missing tt
  | inr (price, here) ↦ rw here (find-eq-some _ found price here)
]

module _ (p : Platform) where
  stripe-Fits :
      (path : String) (query : List (String × String)) (fields : Option (List (String × String)))
      (key : Option String)
      → Preserves Fits (stripe p path query fields key)
  unfolding stripe provider send throw ◌>>=◌
  stripe-Fits path query fields key = elim (Bool-cases (p.env.stripe_secret_key == "")) [
    | inl unset ↦ rw unset (record { kept = λ w fits. fits })
    | inr set ↦ rw set (record { kept = λ w fits. fits })
  ]

  list_pages-Fits :
      (fuel : ℕ) (path : String) (params : List (String × String))
      → Preserves Fits (list_pages p decode_price (λ price. price.id) fuel path params)
  unfolding list_pages throw pure
  list_pages-Fits zero path params = record { kept = λ w fits. fits }
  list_pages-Fits (suc fuel) path params =
      >>=-Preserves Fits _ _ (stripe-Fits path params none none) (λ result.
        >>=-Preserves Fits _ _ (record { kept = λ w fits. fits })
          (λ page. next_page-Fits page _ (list_pages-Fits fuel path) _ _))
    where
      next_page-Fits :
          (page : List Price) (params : List (String × String))
          → ((params : List (String × String))
              → Preserves Fits (list_pages p decode_price (λ price. price.id) fuel path params))
          → (has_more : Bool) (a : Option Price)
          → Preserves Fits (
              next_page p decode_price
                (λ price. price.id)
                (list_pages p decode_price (λ price. price.id) fuel path)
                params
                page
                has_more
                a)
      next_page-Fits page params more has_more none = record { kept = λ w fits. fits }
      next_page-Fits page params more false (some a) = record { kept = λ w fits. fits }
      next_page-Fits page params more true (some a) =
          >>=-Preserves Fits _ _ (more _) (λ rest. record { kept = λ w fits. fits })

  remember-Fits :
      (interval : String) (found : Option Price)
      → FitsFor interval found
      → Preserves Fits (remember p interval found)
  unfolding remember
  remember-Fits interval none h = record { kept = λ w fits. fits }
  remember-Fits interval (some price) h = record {
    kept = λ w fits. store_price-fits interval _ w.prices h fits;
  }

  remember-FitsFor :
      (interval : String) (found : Option Price)
      → FitsFor interval found
      → Yields (FitsFor interval) (remember p interval found)
  unfolding remember
  remember-FitsFor interval none h = record {
    yields = λ w w' a e. subst (FitsFor interval) (returned e) tt;
  }
  remember-FitsFor interval (some price) h = record {
    yields = λ w w' a e. subst (FitsFor interval) (returned e) h;
  }

  module _ (fuel : ℕ) (lower : String → String) (annual : Bool) where
    look_up-Fits : (cached : Option Price) → Preserves Fits (look_up p fuel lower annual cached)
    unfolding stripe_list pure
    look_up-Fits none =
        >>=-Preserves Fits _ _ (list_pages-Fits fuel _ _)
          (λ found. remember-Fits _ _ (find-FitsFor (interval_of annual) found))
    look_up-Fits (some price) = record { kept = λ w fits. fits }

    look_up-FitsFor :
        (cached : Option Price)
        → FitsFor (interval_of annual) cached
        → Yields (FitsFor (interval_of annual)) (look_up p fuel lower annual cached)
    look_up-FitsFor (some price) h = pure-Yields (FitsFor (interval_of annual)) (some price) h
    look_up-FitsFor none h =
        >>=-Yields (FitsFor (interval_of annual)) (λ found. Unit) _ _
          (record { yields = λ w w' a e. tt })
          (λ found u. remember-FitsFor _ _ (find-FitsFor (interval_of annual) found))

    abbrev pub ResultFits : Result (Option Price) → Type 0
    ResultFits (err e) = Unit
    ResultFits (ok found) = FitsFor (interval_of annual) found

    Yields-ResultFits :
        (m : App (Option Price)) (w : World)
        → Yields (FitsFor (interval_of annual)) m
        → ResultFits (m w).0
    Yields-ResultFits m w y = of_result (m w) refl
      where
        of_result : (r : Result (Option Price) × World) → m w ≡ r → ResultFits r.0
        of_result (ok found, w') h = y.yields w w' found h
        of_result (err e, w') h = tt

    -- As long as every price in the cache is a recurring price of one year or one month, as its key says,
    -- `membershipPrice` keeps the cache so, however it ends, and returns only such a price: one year for
    -- an annual member and one month for another, from the cache as from Stripe's list.
    pub membership_price-CacheFits :
        (w : World)
        → CacheFits w.prices
        → CacheFits (membership_price p fuel lower annual w).1.prices
          × ResultFits (membership_price p fuel lower annual w).0
    unfolding membership_price read_cache ◌>>=◌
    membership_price-CacheFits w fits =
        let cached = fresh_price p (p.clock w.step) (cached_price (interval_of annual) w.prices) in
        (
          (look_up-Fits cached).kept w fits,
          Yields-ResultFits (look_up p fuel lower annual cached) w
              (look_up-FitsFor cached (fresh_price-fits p _ (interval_of annual) w.prices fits)),
        )
