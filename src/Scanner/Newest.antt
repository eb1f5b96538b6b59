-- ===== src/Scanner/Newest.antt =====
-- The scans that wait, of which the newest counts (site/static/kiosk/app.js).
use thelab_ms.Base.{
  ℕ, ◌+◌, ◌≡◌, ◌≢◌, refl, Bool, true, false, inl, inr, none, some, List, [], ◌∷◌, ◌++◌, string_eq,
  nat_eq, arith, All, Bool-cases, find, keep, length, if◌then◌else◌,
}
use thelab_ms.Scanner.{Pending}
use thelab_ms.Scanner.Spec.{is_newest}

abbrev pub panels : Bool → ℕ
panels is_hidden = if is_hidden then 0 else 1

abbrev pub newest : ℕ → List Pending → ℕ
newest generation ps = length (keep (is_newest generation) ps)

module _ (g : ℕ) where
  pub all_older :
      (ps : List Pending)
      → All (λ (q : Pending). q.current ≢ g) ps
      → (find (is_newest g) ps ≡ none) × (newest g ps ≡ 0)
  all_older [] h = (refl, refl)
  all_older (q ∷ ps) h =
      let other : is_newest g q ≡ false = ground (arith, h.0) in
      let rest = all_older ps h.1 in (rw other rest.0, rw other rest.1)

  pub one_newest :
      (before after : List Pending) (q : Pending)
      → is_newest g q ≡ true
      → newest g (before ++ q ∷ after) ≡ newest g (before ++ after) + 1
  one_newest [] after q own = rw own (omega arith)
  one_newest (b ∷ before) after q own = elim (Bool-cases (is_newest g b)) [
    | inl here ↦ rw here (omega (arith, one_newest before after q own))
    | inr later ↦ rw later (one_newest before after q own)
  ]

  pub find_lone :
      (before after : List Pending) (q : Pending)
      → is_newest g q ≡ true
      → newest g (before ++ after) ≡ 0
      → (find (is_newest g) (before ++ q ∷ after) ≡ some q)
        × (find (is_newest g) (before ++ after) ≡ none)
  find_lone [] after q own h = (rw own refl, absent after h)
    where
      absent : (ps : List Pending) → newest g ps ≡ 0 → find (is_newest g) ps ≡ none
      absent [] k = refl
      absent (p ∷ ps) k = elim (Bool-cases (is_newest g p)) [
        | inl here ↦ absurd (omega (arith, rw here at k))
        | inr later ↦ rw later (absent ps (rw later at k))
      ]
  find_lone (b ∷ before) after q own h = elim (Bool-cases (is_newest g b)) [
    | inl here ↦ absurd (omega (arith, rw here at h))
    | inr later ↦
        let rest = find_lone before after q own (rw later at h) in
        (rw later rest.0, rw later rest.1)
  ]

  pub stale_out :
      (before after : List Pending) (q : Pending)
      → is_newest g q ≡ false
      → (find (is_newest g) (before ++ after) ≡ find (is_newest g) (before ++ q ∷ after))
        × (newest g (before ++ after) ≡ newest g (before ++ q ∷ after))
  stale_out [] after q other = rw other (refl, refl)
  stale_out (b ∷ before) after q other =
      let rest = stale_out before after q other in
      elim (Bool-cases (is_newest g b)) [
        | inl here ↦ rw here (refl, omega (arith, rest.1))
        | inr later ↦ rw later rest
      ]
