-- ===== src/Router/Origins.antt =====
-- Which requests may come from another site's pages.
use Prim.Native.Char.{Char, code}
use Prim.Native.String.{◌++◌}
use text.Mathlib.Text.{starts_with}
use text.Mathlib.TextEquality.{eq_iff, starts_with_iff}
use text.Mathlib.TextLemmas.{cons-append, head-eq_of_cons-eq, tail-eq_of_cons-eq}
use thelab_ms.Base.{
  String, ◌≡◌, refl, ◌⊎◌, inl, inr, Bool, true, false, ◌&&◌, ◌||◌, not, Option, none, some, List,
  [], ◌∷◌, ◌==◌, string_eq, option_eq, find, arith, option_beq_iff, Bool-cases, all, subst, ap, sym,
  ◌∙◌,
}
use mathlib.Core.Bool.{and-eq-true_iff}
use thelab_ms.App.{ok}
use thelab_ms.Router.{
  Handler, kiosk_claim, stripe_webhook, swipe_webhook, edge_sync_request, Route, routes,
  cross_origin_paths, under, find_handler, dispatch, or_admin, or_not_found,
}

-- The handlers that check a credential of their own instead of a browser's cookie: the kiosk's claims
-- and the swipe webhook read a bearer token, Stripe's webhook a signature.
abbrev pub is_machine : Handler → Bool
is_machine kiosk_claim = true
is_machine stripe_webhook = true
is_machine swipe_webhook = true
is_machine _ = false

-- The edge's request to be synced authenticates nothing by design: it takes no input, and all it does is
-- to ask for a sync.
abbrev pub is_nudge : Handler → Bool
is_nudge edge_sync_request = true
is_nudge _ = false

abbrev takes_foreign : Handler → Bool
takes_foreign h = is_machine h || is_nudge h

check : Route → Bool
check r = not (r.method == "POST" && under cross_origin_paths r.path) || takes_foreign r.handler

-- The table of routes keeps the rule.
routes-check : all check routes ≡ true
unfolding check under
routes-check = refl

find-all :
    (p q : Route → Bool) (xs : List Route) {r : Route}
    → all q xs ≡ true
    → find p xs ≡ some r
    → (q r ≡ true) × (p r ≡ true)
find-all p q [] h e = cc
find-all p q (x ∷ xs) {r} h e = elim (Bool-cases (p x)) [
  | inl here ↦
      let same : x ≡ r = cc (rw here at e) in
      subst (λ y. (q y ≡ true) × (p y ≡ true)) same
        (((and-eq-true_iff (q x) (all q xs)).0 h).0, here)
  | inr later ↦ find-all p q xs ((and-eq-true_iff (q x) (all q xs)).0 h).1 (rw later at e)
]

second-code :
    (b c d : Char) (x y s t : String)
    → String.◌∷◌ b (String.◌∷◌ c x) ++ s ≡ String.◌∷◌ b (String.◌∷◌ d y) ++ t
    → code c ≡ code d
second-code b c d x y s t e =
    let outer = sym (cons-append b (String.◌∷◌ c x) s) ∙ e ∙ cons-append b (String.◌∷◌ d y) t in
    let inner = sym (cons-append c x s) ∙ tail-eq_of_cons-eq outer ∙ cons-append d y t in
    ap code (head-eq_of_cons-eq inner)

prefix_codes :
    (c d : Char) (x y path : String)
    → starts_with path (String.◌∷◌ "/" (String.◌∷◌ c x)) ≡ true
    → starts_with path (String.◌∷◌ "/" (String.◌∷◌ d y)) ≡ true
    → code c ≡ code d
prefix_codes c d x y path h k =
    let (s, e) = (starts_with_iff path (String.◌∷◌ "/" (String.◌∷◌ c x))).0 h in
    let (t, f) = (starts_with_iff path (String.◌∷◌ "/" (String.◌∷◌ d y))).0 k in
    second-code "/" c d x y s t (e ∙ sym f)

-- No path lies both under `/admin/` and under a path of the machines.
not-under-admin :
    (path : String) → starts_with path "/admin/" ≡ true → under cross_origin_paths path ≡ false
unfolding under
not-under-admin path h = elim (Bool-cases (starts_with path "/kiosk/claims")) [
  | inl kiosk ↦ absurd (omega (arith, prefix_codes "a" "k" "dmin/" "iosk/claims" path h kiosk))
  | inr no_kiosk ↦ elim (Bool-cases (starts_with path "/webhooks/")) [
    | inl hook ↦ absurd (omega (arith, prefix_codes "a" "w" "dmin/" "ebhooks/" path h hook))
    | inr no_hook ↦ rw (no_kiosk, no_hook)
  ]
]

admin-under : (path : String) → path ≡ "/admin" → under cross_origin_paths path ≡ false
unfolding under
admin-under path e = rw e refl

module _ (path : String) (h : Handler) (cross : under cross_origin_paths path ≡ true) where
  admin_refused : or_admin path none ≡ some h → ⊥
  unfolding or_admin
  admin_refused found = elim (Bool-cases (path == "/admin")) [
    | inl root ↦ cc (admin-under path ((eq_iff path "/admin").0 root))
    | inr other ↦ elim (Bool-cases (starts_with path "/admin/")) [
      | inl below ↦ cc (not-under-admin path below)
      | inr outside ↦ cc (rw (other, outside) at found)
    ]
  ]

  route_is_machine :
      (r : Route)
      → check r ≡ true
      → (r.method == "POST" && r.path == path) ≡ true
      → takes_foreign r.handler ≡ true
  unfolding check
  route_is_machine r kept chosen = ground (arith, eq_iff r.path path)

  found_is_machine :
      (o : Option Route)
      → ((r : Route)
          → o ≡ some r
          → (check r ≡ true) × ((r.method == "POST" && r.path == path) ≡ true))
      → or_admin path o ≡ some h
      → takes_foreign h ≡ true
  unfolding or_admin
  found_is_machine none facts found = absurd (unfold or_admin in admin_refused found)
  found_is_machine (some r) facts found =
      let same : r.handler ≡ h = cc in
      let (kept, chosen) = facts r refl in
      subst (λ x. takes_foreign x ≡ true) same (route_is_machine r kept chosen)

  machine_routes : find_handler "POST" path ≡ some h → takes_foreign h ≡ true
  unfolding find_handler
  machine_routes found =
      found_is_machine (find (λ (r : Route). r.method == "POST" && r.path == path) routes)
        (λ r e. find-all (λ x. x.method == "POST" && x.path == path) check routes routes-check e)
        found

or_not_found-eq-ok : (o : Option Handler) (h : Handler) → or_not_found o ≡ ok h → o ≡ some h
unfolding or_not_found
or_not_found-eq-ok none h e = cc
or_not_found-eq-ok (some x) h e = cc

foreign_kinds : (h : Handler) → takes_foreign h ≡ true → (is_machine h ≡ true) ⊎ (is_nudge h ≡ true)
foreign_kinds h e = ground arith

-- A POST reaches a handler only if its Origin header is the site's own origin, or if the handler checks a
-- machine's credential of its own (the kiosk's claims, Stripe's webhook and the swipe webhook), or if it is
-- the edge's request to be synced, which anyone may send.
pub dispatch-same_origin :
    (site_origin path : String) (from : Option String) (h : Handler)
    → dispatch site_origin "POST" path from ≡ ok h
    → (from ≡ some site_origin) ⊎ ((is_machine h ≡ true) ⊎ (is_nudge h ≡ true))
unfolding dispatch
dispatch-same_origin site_origin path from h e = elim (Bool-cases (from == some site_origin)) [
  | inl same ↦ inl ((option_beq_iff from (some site_origin)).0 same)
  | inr foreign ↦ elim (Bool-cases (under cross_origin_paths path)) [
    | inl cross ↦ inr (
        foreign_kinds h (
          machine_routes path h cross
            (or_not_found-eq-ok (find_handler "POST" path) h (rw (foreign, cross) at e))))
    | inr no_cross ↦ cc (rw (foreign, no_cross) at e)
  ]
]
