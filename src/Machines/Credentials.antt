-- ===== src/Machines/Credentials.antt =====
-- How long the machines page uses what the worker gave it (site/static/machines.js).
use thelab_ms.Base.{
  ℕ, ◌+◌, ◌*◌, ◌-◌, ◌≤◌, ◌<◌, String, ◌≡◌, sym, true, ◌&&◌, Option, none, some, string_eq, nat_eq,
  option_eq, arith, Bool-cases, inl, inr, leb, ltb, utf16_length,
}
use thelab_ms.Json.{Json}
use thelab_ms.App.{Url}
use thelab_ms.Machines.{
  Access, TokenClaims, is_edge_url, is_printer_token, earlier, with_claims, from_texts, credentials,
}

-- Access that the page may use at `now`, of a request that it started at `started`.
pub record Bounded (parse_url : String → Option Url) (started now : ℕ) (a : Access) : Type 0 where
  pub current : now < a.expires
  pub short : a.expires ≤ started + 60000
  pub renewed : a.renew ≤ a.expires
  pub secure : is_edge_url a.edge (parse_url a.edge) ≡ true
  pub length : utf16_length a.token ≤ 4096

module _ (parse_url : String → Option Url) (decode : String → Option Json) (started now : ℕ) where
  with_claims-Bounded :
      (edge token : String) (claims : Option TokenClaims) (a : Access)
      → is_edge_url edge (parse_url edge) ≡ true
      → utf16_length token ≤ 4096
      → with_claims parse_url decode edge token started now claims ≡ some a
      → Bounded parse_url started now a
  with_claims-Bounded edge token none a secure short h = cc
  with_claims-Bounded edge token (some claims) a secure short h =
      let expires = earlier (claims.exp * 1000) (started + 60000) in
      elim (Bool-cases (is_printer_token edge claims && ltb now expires)) [
        | inl fine ↦
            let same : record {
              edge = edge;
              token = token;
              expires = expires;
              renew = expires - 15000;
            }
                ≡ a =
              cc (rw fine at h) in
            rw (sym same) (record {
              current = ground (arith, fine);
              short = ground arith;
              renewed = omega arith;
              secure = secure;
              length = short;
            })
        | inr bad ↦ cc (rw bad at h)
      ]

  from_texts-Bounded :
      (token edge : Option String) (a : Access)
      → from_texts parse_url decode started now token edge ≡ some a
      → Bounded parse_url started now a
  from_texts-Bounded none edge a h = cc
  from_texts-Bounded (some token) none a h = cc
  from_texts-Bounded (some token) (some edge) a h =
      elim (Bool-cases (leb (utf16_length token) 4096 && is_edge_url edge (parse_url edge))) [
        | inl fine ↦
            with_claims-Bounded edge token _ a (ground (arith, fine)) (ground (arith, fine))
              (rw fine at h)
        | inr bad ↦ cc (rw bad at h)
      ]

  -- What `credentials` accepts has not expired and is used for 60 seconds at most from the start of the
  -- request for it, whatever the token claims; it is renewed no later than it expires; and its edge is an
  -- https origin and nothing more. Its token has at most 4096 units.
  pub credentials-Bounded :
      (reply : Json) (a : Access)
      → credentials parse_url decode reply started now ≡ some a
      → Bounded parse_url started now a
  unfolding credentials
  credentials-Bounded reply a h = from_texts-Bounded _ _ a h
