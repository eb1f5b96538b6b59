-- ===== src/Scanner/Keys.antt =====
-- The keys of the kiosk's reader (site/static/kiosk/app.js).
use thelab_ms.Base.{
  ◌+◌, ◌≤◌, String, ◌≡◌, ◌≢◌, refl, sym, ap, Bool, true, false, not, ◌&&◌, List, [], ◌∷◌, ◌==◌,
  string_eq, eq_iff, nat_eq, arith, All, Bool-cases, inl, inr, utf16_length, ltb,
}
use thelab_ms.Scanner.{Pending, Screen, reset, begin_scan, type_key, key_down}
use thelab_ms.Scanner.Sound.{
  Waits, Sound, utf16_length-append, typed, same-Waits, reset-Sound, reading_again-Sound,
}

pub begin_scan-Sound : (s : Screen) → Sound s → Sound (begin_scan s)
begin_scan-Sound s h = elim (Bool-cases (s.buffer == "")) [
  | inl blank ↦ rw blank (
      reading_again-Sound (reset "Reading…" false s) (reset-Sound "Reading…" false s h.waiting)
        (unfold reset in refl))
  | inr typed_ ↦ rw typed_ h
]

-- Once a scan has begun, no panel is shown and no `submit` that waits is the newest.
pub record Open (s : Screen) : Type 0 where
  pub away : s.is_panel_hidden ≡ true
  pub stale : All (λ q. q.current ≢ s.generation) s.pending

pub begin_scan-Open : (s : Screen) → Sound s → Open (begin_scan s)
begin_scan-Open s h = elim (Bool-cases (s.buffer == "")) [
  | inl blank ↦ rw blank (unfold reset in record { away = refl; stale = past s.pending h.waiting })
  | inr typed_ ↦ rw typed_ (record {
    away = elim (Bool-cases s.is_panel_hidden) [
      | inl away ↦ away
      | inr shown ↦ absurd (written typed_ (h.shown shown).1)
    ];
    stale = unread typed_ s.pending h.waiting;
  })
]
  where
    past : (ps : List Pending) → All (Waits s) ps → All (λ q. q.current ≢ s.generation + 1) ps
    past [] k = tt
    past (q ∷ ps) k = ((λ e. omega (arith, e, k.0.older)), past ps k.1)

    written : (s.buffer == "") ≡ false → s.buffer ≢ ""
    written e blank = let full = (eq_iff s.buffer "").1 blank in cc

    unread :
        (s.buffer == "") ≡ false
        → (ps : List Pending) → All (Waits s) ps
        → All (λ q. q.current ≢ s.generation) ps
    unread e [] k = tt
    unread e (q ∷ ps) k = ((λ same. written e (k.0.untouched same)), unread e ps k.1)

pub type_key-typed :
    (key : String) (s : Screen)
    → utf16_length key ≡ 1
    → utf16_length s.buffer ≤ 21
    → (1 ≤ utf16_length (type_key key s).buffer) × (utf16_length (type_key key s).buffer ≤ 21)
type_key-typed key s one h = elim (Bool-cases (ltb (utf16_length s.buffer) 21)) [
  | inl short ↦
      let sum = utf16_length-append s.buffer key in
      rw short (omega (arith, sum, one), ground (arith, sum, one, short))
  | inr long ↦ rw long (ground (arith, long), h)
]

typed-Sound :
    (key : String) (s : Screen) → utf16_length key ≡ 1 → Sound s → Open s → Sound (type_key key s)
typed-Sound key s one h open_ =
    let (some_, few) = type_key-typed key s one h.scan in
    record {
      scan = few;
      timer = ap not (sym (typed (type_key key s).buffer some_));
      shown = λ e. absurd (cc (open_.away));
      hidden = h.hidden;
      waiting = rest s.pending h.waiting open_.stale;
    }
  where
    rest :
        (ps : List Pending)
        → All (Waits s) ps
        → All (λ q. q.current ≢ s.generation) ps
        → All (Waits (type_key key s)) ps
    rest [] k o = tt
    rest (q ∷ ps) k o = (
      record { older = k.0.older; fob = k.0.fob; untouched = λ e. absurd (o.0 e) },
      rest ps k.1 o.1,
    )

pub key_down-Sound :
    (ignored : Bool) (key : String) (s : Screen) → Sound s → Sound (key_down ignored key s)
unfolding key_down
key_down-Sound true key s h = h
key_down-Sound false key s h = elim (Bool-cases (utf16_length key == 1)) [
  | inl one ↦ rw one (
      typed-Sound key (begin_scan s) (ground (arith, one)) (begin_scan-Sound s h)
        (begin_scan-Open s h))
  | inr special ↦ elim (Bool-cases (s.buffer == "")) [
    | inl blank ↦ elim (Bool-cases (key == "Escape" && not s.is_panel_hidden)) [
      | inl escape ↦ rw (special, blank, escape) (reset-Sound "Tap your fob" false s h.waiting)
      | inr other ↦ rw (special, blank, other) h
    ]
    | inr held ↦
        rw (special, held)
          (record {
            scan = h.scan;
            timer = rw held refl;
            shown = h.shown;
            hidden = h.hidden;
            waiting = same-Waits s _ s.pending refl refl h.waiting;
          })
  ]
]
