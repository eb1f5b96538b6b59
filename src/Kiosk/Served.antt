-- ===== src/Kiosk/Served.antt =====
-- To whom `kioskPage` serves the page, and where it sends the others (site/src/edge.tsx).
use thelab_ms.Base.{
  String, ◌≡◌, sym, subst, true, Option, none, some, [], ◌∷◌, ◌==◌, string_eq, eq_iff, Bool-cases,
  Option-cases, inl, inr, template,
}
use thelab_ms.App.{Platform, World, ok, pure, throw, ◌>>=◌}
use thelab_ms.Edge.{edge_event_key}
use thelab_ms.Kiosk.{
  KioskUrl, KioskPage, kiosk_asset, redirect_to, verify_edge_key, is_lan_url, kiosk_page,
}

module _ (p : Platform) (lan_url : String) (target : Option KioskUrl) where
  -- Whether a page may be the answer to a request with this header.
  pub data IsAllowed : Option String → KioskPage → Type 0 where
    by_edge :
        (key : String)
        → p.event_key ≡ some key
        → IsAllowed (some (template ("Bearer " ∷ key ∷ []))) kiosk_asset
    direct :
        (url : KioskUrl)
        → target ≡ some url
        → is_lan_url p lan_url target url ≡ true
        → IsAllowed none (redirect_to url.href)

  answered :
      {authorization : Option String} {page given : KioskPage} {w u : World}
      → pure given w ≡ (ok page, u)
      → IsAllowed authorization given
      → IsAllowed authorization page × (u ≡ w)
  unfolding pure
  answered {authorization} h allowed = (subst (IsAllowed authorization) (cc h) allowed, cc h)

  -- The page is served only to the edge, whose credential is derived from the signing key. A request
  -- without any credential is only redirected, to /kiosk at the configured origin over HTTP or HTTPS; a
  -- wrong credential is never redirected. Neither changes nor sends anything.
  pub kiosk_page-IsAllowed :
      (authorization : Option String) (page : KioskPage) (w u : World)
      → kiosk_page p lan_url target authorization w ≡ (ok page, u)
      → IsAllowed authorization page × (u ≡ w)
  unfolding kiosk_page verify_edge_key edge_event_key pure throw ◌>>=◌
  kiosk_page-IsAllowed (some authorization) page w u h = elim (Option-cases p.event_key) [
    | inl none_ ↦ absurd (cc (rw none_ at h))
    | inr (key, is_key) ↦ elim (Bool-cases (authorization == template ("Bearer " ∷ key ∷ []))) [
      | inl same ↦ answered (rw (is_key, same) at h) (
          subst (λ a. IsAllowed (some a) kiosk_asset) (sym ((eq_iff authorization _).0 same))
            (by_edge key is_key))
      | inr other ↦ absurd (cc (rw (is_key, other) at h))
    ]
  ]
  kiosk_page-IsAllowed none page w u h = elim (Option-cases target) [
    | inl gone ↦ absurd (cc (rw gone at h))
    | inr (url, is_target) ↦ elim (Bool-cases (is_lan_url p lan_url target url)) [
      | inl fine ↦ answered (rw (is_target, fine) at h) (direct url is_target fine)
      | inr wrong ↦ absurd (cc (rw (is_target, wrong) at h))
    ]
  ]
