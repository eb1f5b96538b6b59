-- ===== src/Clients/Requests.antt =====
-- The requests of `provider`, `stripe` and `stripeList` (site/src/lib.ts).
use thelab_ms.Base.{
  ℕ, zero, suc, String, Bool, true, false, Option, none, some, List, ◌++◌, ◌==◌, string_eq,
  Bool-cases, inl, inr,
}
use thelab_ms.Json.{Json}
use thelab_ms.App.{Fetch, Platform, send}
use thelab_ms.App.Requests.{Emits, pure-Emits, throw-Emits, lift-Emits, >>=-Emits, send-Emits}
use thelab_ms.Clients.{
  provider, stripe, stripe_request, stripe_list, list_pages, next_page, read_reply,
}

module _ (P : Fetch → Type 0) (p : Platform) where
  pub provider-Emits : (service : String) (r : Fetch) → P r → Emits P (provider p service r)
  unfolding provider
  provider-Emits service r h =
      >>=-Emits P (send p r) _ (send-Emits P p r h)
        (λ answer. lift-Emits P (read_reply service answer))

  pub stripe-Emits :
      (path : String) (query : List (String × String)) (fields : Option (List (String × String)))
      (key : Option String)
      → P (stripe_request p path query fields key)
      → Emits P (stripe p path query fields key)
  unfolding stripe
  stripe-Emits path query fields key h = elim (Bool-cases (p.env.stripe_secret_key == "")) [
    | inl unset ↦ rw unset (throw-Emits P Json _)
    | inr set ↦ rw set (provider-Emits "Stripe" _ h)
  ]

  module _ {ℓ} {A : Type ℓ} (decode : Json → Option A) (id : A → String) where
    list_pages-Emits :
        ((path : String) (query : List (String × String))
          → P (stripe_request p path query none none))
        → (fuel : ℕ) (path : String) (params : List (String × String))
        → Emits P (list_pages p decode id fuel path params)
    unfolding list_pages
    list_pages-Emits h zero path params = throw-Emits P (List A) _
    list_pages-Emits h (suc fuel) path params =
        >>=-Emits P _ _ (stripe-Emits path params none none (h path params)) (λ result.
          >>=-Emits P _ _ (lift-Emits P _)
            (λ page. next_page-Emits page (list_pages-Emits h fuel path) params _ _))
      where
        next_page-Emits :
            (page : List A)
            → ((params : List (String × String))
                → Emits P (list_pages p decode id fuel path params))
            → (params : List (String × String)) (has_more : Bool) (a : Option A)
            → Emits P
                (next_page p decode id (list_pages p decode id fuel path) params page has_more a)
        next_page-Emits page more params has_more none = pure-Emits P page
        next_page-Emits page more params false (some a) = pure-Emits P page
        next_page-Emits page more params true (some a) =
            >>=-Emits P _ _ (more _) (λ rest. pure-Emits P (page ++ rest))

    pub stripe_list-Emits :
        ((path : String) (query : List (String × String))
          → P (stripe_request p path query none none))
        → (fuel : ℕ) (path : String) (params : List (String × String))
        → Emits P (stripe_list p decode id fuel path params)
    unfolding stripe_list
    stripe_list-Emits h fuel path params = list_pages-Emits h fuel path _
