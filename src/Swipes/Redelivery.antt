-- ===== src/Swipes/Redelivery.antt =====
-- The inserts of `swipeWebhook` (site/src/edge.tsx): redelivery, and the batches.
use thelab_ms.Base.{
  ℕ, zero, suc, ◌≤◌, String, ◌≡◌, refl, sym, ap, ◌∙◌, Bool, true, false, List, [], ◌∷◌, ◌++◌,
  string_eq, nat_eq, option_eq, any, take, drop, length, leb, append-nil, take-append-drop,
  length-take-le, arith, Bool-cases, inl, inr,
}
use thelab_ms.Database.{Database, Swipe, insert_swipe, has_source}
use thelab_ms.Swipes.{batches}

abbrev is_recorded : String → Database → Bool
is_recorded id db = any (has_source id) db.member_events

abbrev stored : List Swipe → Database → Database
stored [] db = db
stored (e ∷ es) db = stored es (insert_swipe e db)

abbrev pub is_nil : List (List Swipe × Bool) → Bool
is_nil [] = true
is_nil (b ∷ bs) = false

abbrev pub gathered : List (List Swipe × Bool) → List Swipe
gathered [] = []
gathered ((inserts, last) ∷ rest) = inserts ++ gathered rest

-- Each batch has at most 50 inserts, and exactly the last is marked as the last.
abbrev pub Framed : List (List Swipe × Bool) → Type 0
Framed [] = Unit
Framed ((inserts, last) ∷ rest) = (length inserts ≤ 50) × (last ≡ is_nil rest) × Framed rest

take_short : (n : ℕ) (es : List Swipe) → length es ≤ n → take n es ≡ es
take_short zero [] h = refl
take_short zero (e ∷ es) h = absurd (omega arith)
take_short (suc n) [] h = refl
take_short (suc n) (e ∷ es) h = ap (λ l. e ∷ l) (take_short n es (omega arith))

length-drop-le : (n : ℕ) (es : List Swipe) → length (drop n es) ≤ length es
length-drop-le zero es = omega arith
length-drop-le (suc n) [] = omega arith
length-drop-le (suc n) (e ∷ es) = omega (arith, length-drop-le n es)

batches-not-nil : (fuel : ℕ) (es : List Swipe) → is_nil (batches fuel es) ≡ false
unfolding batches
batches-not-nil zero es = refl
batches-not-nil (suc fuel) es = elim (Bool-cases (leb (length es) 50)) [
  | inl short ↦ rw short refl
  | inr long ↦ rw long refl
]

length-drop-lt :
    (fuel : ℕ) (es : List Swipe)
    → length es ≤ suc fuel
    → leb (length es) 50 ≡ false
    → length (drop 50 es) ≤ fuel
length-drop-lt fuel [] h long = omega arith
length-drop-lt fuel (e ∷ es) h long = omega (arith, length-drop-le 49 es)

-- The batches of a delivery hold all its swipes in their order, at most 50 each, and there is exactly one
-- last batch, the one that reads the revision; an empty delivery has it too. The number of swipes is
-- enough fuel.
pub batches_lem :
    (fuel : ℕ) (es : List Swipe)
    → length es ≤ fuel
    → (gathered (batches fuel es) ≡ es)
      × Framed (batches fuel es)
      × (is_nil (batches fuel es) ≡ false)
unfolding batches
batches_lem zero es h = (
  append-nil (take 50 es) ∙ take_short 50 es (omega arith),
  (length-take-le 50 es, refl, tt),
  refl,
)
batches_lem (suc fuel) es h = elim (Bool-cases (leb (length es) 50)) [
  | inl short ↦ rw short (
    append-nil (take 50 es) ∙ take_short 50 es (ground (arith, short)),
    (length-take-le 50 es, refl, tt),
    refl,
  )
  | inr long ↦
      let rest = batches_lem fuel (drop 50 es) (length-drop-lt fuel es h long) in
      rw long (
        ap (λ l. take 50 es ++ l) rest.0 ∙ take-append-drop 50 es,
        (length-take-le 50 es, sym (batches-not-nil fuel (drop 50 es)), rest.1),
        refl,
      )
]
