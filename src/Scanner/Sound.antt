-- ===== src/Scanner/Sound.antt =====
-- What the kiosk keeps, and that a reset keeps it (site/static/kiosk/app.js).
use Prim.Native.String.{◌++◌ as string_append}
use text.Mathlib.TextLemmas.{nil-append, cons-append}
use thelab_ms.Base.{
  ◌+◌, ◌≤◌, String, ◌≡◌, ◌≢◌, refl, sym, ◌∙◌, subst, Bool, true, false, not, none, List, [], ◌∷◌,
  ◌==◌, string_eq, eq_iff, nat_eq, arith, All, Bool-cases, inl, inr, utf16_length,
}
use thelab_ms.Scanner.{claim, Pending, Screen, reset, reading_again}

-- A `submit` that waits: it is no newer than the screen, it sent a fob, and if it is the newest, no key
-- has been typed since.
pub record Waits (s : Screen) (q : Pending) : Type 0 where
  pub older : q.current ≤ s.generation
  pub fob : (1 ≤ q.fob) × (q.fob ≤ 4294967295)
  pub untouched : q.current ≡ s.generation → s.buffer ≡ ""

pub record Sound (s : Screen) : Type 0 where
  pub scan : utf16_length s.buffer ≤ 21
  pub timer : s.idle ≡ not (s.buffer == "")
  pub shown :
      s.is_panel_hidden ≡ false
      → (s.mode ≡ claim) × (s.buffer ≡ "") × (s.qr ≢ none) × (s.expiry ≢ none)
  pub hidden : s.is_panel_hidden ≡ true → (s.qr ≡ none) × (s.expiry ≡ none)
  pub waiting : All (Waits s) s.pending

pub utf16_length-append :
    (s t : String) → utf16_length (string_append s t) ≡ utf16_length s + utf16_length t
unfolding utf16_length
utf16_length-append String.[] t = rw (nil-append t) (omega arith)
utf16_length-append (String.◌∷◌ c s) t =
    rw (cons-append c s t) (omega (arith, utf16_length-append s t))

pub typed : (s : String) → 1 ≤ utf16_length s → (s == "") ≡ false
unfolding utf16_length
typed s h = elim (Bool-cases (s == "")) [
  | inl blank ↦
      absurd (omega (arith, subst (λ (t : String). 1 ≤ utf16_length t) ((eq_iff s "").0 blank) h))
  | inr fine ↦ fine
]

pub older-Waits :
    (message : String) (error : Bool) (s : Screen) (ps : List Pending)
    → All (Waits s) ps
    → All (Waits (reset message error s)) ps
unfolding reset
older-Waits message error s [] h = tt
older-Waits message error s (q ∷ ps) h = (
  record { older = omega (arith, h.0.older); fob = h.0.fob; untouched = λ e. refl },
  older-Waits message error s ps h.1,
)

pub same-Waits :
    (s t : Screen) (ps : List Pending)
    → t.generation ≡ s.generation
    → t.buffer ≡ s.buffer
    → All (Waits s) ps
    → All (Waits t) ps
same-Waits s t [] g b h = tt
same-Waits s t (q ∷ ps) g b h = (
  record {
    older = subst (λ n. q.current ≤ n) (sym g) h.0.older;
    fob = h.0.fob;
    untouched = λ e. b ∙ h.0.untouched (e ∙ g);
  },
  same-Waits s t ps g b h.1,
)

pub reset-Sound :
    (message : String) (error : Bool) (s : Screen)
    → All (Waits s) s.pending
    → Sound (reset message error s)
unfolding reset utf16_length
reset-Sound message error s h = record {
  scan = omega arith;
  timer = refl;
  shown = λ e. cc;
  hidden = λ e. (refl, refl);
  waiting = unfold reset in older-Waits message error s s.pending h;
}

pub reading_again-Sound :
    (s : Screen) → Sound s → s.is_panel_hidden ≡ true → Sound (reading_again s)
reading_again-Sound s h away = record {
  scan = h.scan;
  timer = h.timer;
  shown = λ e. cc;
  hidden = h.hidden;
  waiting = same-Waits s _ s.pending refl refl h.waiting;
}
