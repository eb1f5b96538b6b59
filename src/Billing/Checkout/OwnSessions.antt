-- ===== src/Billing/Checkout/OwnSessions.antt =====
-- Which sessions `checkoutLink` (site/src/billing.ts) finds and ends.
use mathlib.Core.Bool.{and-eq-true_iff}
use thelab_ms.Base.{
  ℕ, String, ◌≡◌, subst, Bool, true, List, [], ◌∷◌, string_eq, option_eq, keep, All, Bool-cases,
  inl, inr,
}
use thelab_ms.App.{pure, Platform}
use thelab_ms.App.Laws.{>>=-eq-ok, returned}
use thelab_ms.App.Requests.{Yields}
use thelab_ms.Billing.Checkout.{
  CheckoutSession, is_own_session, is_open, is_customerless, all_but_first, sessions_of,
}

-- A session of the member that is still open.
abbrev pub IsPending : String → CheckoutSession → Type 0
IsPending id s = (is_own_session id s ≡ true) × (is_open s ≡ true)

module _ (id : String) where
  keep-own :
      (sessions : List CheckoutSession)
      → All (λ s. is_own_session id s ≡ true) (keep (is_own_session id) sessions)
  keep-own [] = tt
  keep-own (s ∷ rest) = elim (Bool-cases (is_own_session id s)) [
    | inl own ↦ rw own (own, keep-own rest)
    | inr other ↦ rw other (keep-own rest)
  ]

  pub keep-IsPending :
      (test : CheckoutSession → Bool) (sessions : List CheckoutSession)
      → ((s : CheckoutSession) → test s ≡ true → is_open s ≡ true)
      → All (λ s. is_own_session id s ≡ true) sessions
      → All (IsPending id) (keep test sessions)
  keep-IsPending test [] opens h = tt
  keep-IsPending test (s ∷ rest) opens h = elim (Bool-cases (test s)) [
    | inl kept ↦ rw kept ((h.0, opens s kept), keep-IsPending test rest opens h.1)
    | inr gone ↦ rw gone (keep-IsPending test rest opens h.1)
  ]

  pub all_but_first-IsPending :
      (test : CheckoutSession → Bool) (sessions : List CheckoutSession)
      → All (IsPending id) sessions
      → All (IsPending id) (all_but_first test sessions)
  unfolding all_but_first
  all_but_first-IsPending test [] h = tt
  all_but_first-IsPending test (s ∷ rest) h = elim (Bool-cases (test s)) [
    | inl first ↦ rw first (h.1)
    | inr other ↦ rw other (h.0, all_but_first-IsPending test rest h.1)
  ]

  pub sessions_of-own :
      (p : Platform) (fuel : ℕ) (lower : String → String) (params : List (String × String))
      → Yields (All (λ s. is_own_session id s ≡ true)) (sessions_of p fuel lower params id)
  unfolding pure
  sessions_of-own p fuel lower params = record {
    yields = λ w w' sessions h.
        let (all, w₁, e, g) = >>=-eq-ok _ _ w h in
        subst (All (λ s. is_own_session id s ≡ true)) (returned g) (keep-own all);
  }

pub is_customerless-is_open :
    (p : Platform) (fuel : ℕ) (lower : String → String) (s : CheckoutSession)
    → is_customerless p fuel lower s ≡ true
    → is_open s ≡ true
is_customerless-is_open p fuel lower s h = ((and-eq-true_iff (is_open s) _).0 h).0
