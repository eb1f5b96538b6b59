-- ===== src/App/Laws.antt =====
-- Computing with the worker's effects: how a `do` block that returned got there.
use thelab_ms.Base.{◌≡◌, refl, ◌⊎◌, inl, inr}
use thelab_ms.App.{Failure, Result, ok, err, World, App, continue, ◌>>=◌, pure, recover, try_catch}

pub returned {ℓ} :
    {A : Type ℓ} {a b : A} {w w' : World} → ◌≡◌ {A = Result A × World} (ok a, w) (ok b, w') → a ≡ b
returned h = cc

module _ {ℓ κ} {A : Type ℓ} {B : Type κ} where
  pub continue-eq-ok :
      (r : Result A × World) (f : A → App B) {b : B} {w' : World}
      → continue r f ≡ (ok b, w')
      → (a : A) × (w₁ : World) × (r ≡ (ok a, w₁)) × (f a w₁ ≡ (ok b, w'))
  continue-eq-ok (ok a, w₁) f h = (a, w₁, refl, h)
  continue-eq-ok (err e, w₁) f h = cc

  pub >>=-eq-ok :
      (m : App A) (f : A → App B) (w : World) {b : B} {w' : World}
      → (m >>= f) w ≡ (ok b, w')
      → (a : A) × (w₁ : World) × (m w ≡ (ok a, w₁)) × (f a w₁ ≡ (ok b, w'))
  unfolding ◌>>=◌
  >>=-eq-ok m f w h = continue-eq-ok (m w) f h

  pub continue-eq-err :
      (r : Result A × World) (f : A → App B) {e : Failure} {w' : World}
      → continue r f ≡ (err e, w')
      → (r.0 ≡ err e) ⊎ ((a : A) × (w₁ : World) × (r ≡ (ok a, w₁)) × (f a w₁ ≡ (err e, w')))
  continue-eq-err (ok a, w₁) f h = inr (a, w₁, refl, h)
  continue-eq-err (err e', w₁) f h = inl (cc)

  pub >>=-eq-err :
      (m : App A) (f : A → App B) (w : World) {e : Failure} {w' : World}
      → (m >>= f) w ≡ (err e, w')
      → ((m w).0 ≡ err e) ⊎ ((a : A) × (w₁ : World) × (m w ≡ (ok a, w₁)) × (f a w₁ ≡ (err e, w')))
  unfolding ◌>>=◌
  >>=-eq-err m f w h = continue-eq-err (m w) f h

module _ {ℓ} {A : Type ℓ} where
  recover-eq-ok :
      (handler : Failure → App A) (r : Result A × World) {a : A} {w' : World}
      → recover handler r ≡ (ok a, w')
      → (r ≡ (ok a, w'))
        ⊎ ((e : Failure) × (w₁ : World) × (r ≡ (err e, w₁)) × (handler e w₁ ≡ (ok a, w')))
  recover-eq-ok handler (ok a, w) h = inl h
  recover-eq-ok handler (err e, w) h = inr (e, w, refl, h)

  -- What was returned is the attempt's own result, or that of the handler.
  pub try_catch-eq-ok :
      (m : App A) (handler : Failure → App A) (w : World) {a : A} {w' : World}
      → try_catch m handler w ≡ (ok a, w')
      → (m w ≡ (ok a, w'))
        ⊎ ((e : Failure) × (w₁ : World) × (m w ≡ (err e, w₁)) × (handler e w₁ ≡ (ok a, w')))
  unfolding try_catch
  try_catch-eq-ok m handler w h = recover-eq-ok handler (m w) h

-- catch { log } : nothing is thrown on, and the state is the one that the attempt left.
recover-pure :
    (r : Result (Unit {0}) × World)
    → ((recover (λ e. pure tt) r).0 ≡ ok tt) × ((recover (λ e. pure tt) r).1 ≡ r.1)
unfolding pure
recover-pure (ok a, w) = (refl, refl)
recover-pure (err e, w) = (refl, refl)

pub swallow_lem :
    (m : App (Unit {0})) (w : World)
    → ((try_catch m (λ e. pure tt) w).0 ≡ ok tt) × ((try_catch m (λ e. pure tt) w).1 ≡ (m w).1)
unfolding try_catch
swallow_lem m w = recover-pure (m w)
