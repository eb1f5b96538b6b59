-- ===== src/App/Atomic.antt =====
-- Computations that leave the database alone when they fail.
use thelab_ms.Base.{ℕ, ◌≡◌, refl, sym, ap, ◌∙◌, Bool, true, false, if◌then◌else◌, ◌⊎◌, inl, inr}
use thelab_ms.Database.{Database, Outcome, done, unique_failed, foreign_key_failed, Statement, exec}
use thelab_ms.App.{
  Failure, Fetch, Result, ok, err, Platform, World, App, pure, throw, continue, recover, try_catch,
  after_exec, arrive, execute, ◌>>=◌, send, query, now,
}

-- The computation leaves the database alone, however it ends.
pub record Still {ℓ} {A : Type ℓ} (m : App A) : Type 0 where
  pub still : (w : World) → (m w).1.db ≡ w.db

-- The computation leaves the database alone if it fails.
pub record Atomic {ℓ} {A : Type ℓ} (m : App A) : Type ℓ where
  pub atomic : (w w' : World) (e : Failure) → m w ≡ (err e, w') → w'.db ≡ w.db

module _ {ℓ} {A : Type ℓ} where
  pub pure-Still : (a : A) → Still (pure a)
  unfolding pure
  pure-Still a = record { still = λ w. refl }

  pub throw-Still : (e : Failure) → Still (throw {A = A} e)
  unfolding throw
  throw-Still e = record { still = λ w. refl }

  pub if-Still : (b : Bool) (m n : App A) → Still m → Still n → Still (if b then m else n)
  if-Still true m n h k = h
  if-Still false m n h k = k

  pub if-Atomic : (b : Bool) (m n : App A) → Atomic m → Atomic n → Atomic (if b then m else n)
  if-Atomic true m n h k = h
  if-Atomic false m n h k = k

  pub throw-Atomic : (e : Failure) → Atomic (throw {A = A} e)
  unfolding throw
  throw-Atomic e = record { atomic = λ w w' e' h. ap (λ (r : Result A × World). r.1.db) (sym h) }

  recover-Still :
      (db : Database) (handler : Failure → App A) (r : Result A × World)
      → r.1.db ≡ db
      → ((e : Failure) → Still (handler e))
      → (recover handler r).1.db ≡ db
  recover-Still db handler (ok a, w) h k = h
  recover-Still db handler (err e, w) h k = (k e).still w ∙ h

  pub try_catch-Still :
      (m : App A) (handler : Failure → App A)
      → Still m
      → ((e : Failure) → Still (handler e))
      → Still (try_catch m handler)
  unfolding try_catch
  try_catch-Still m handler h k = record {
    still = λ w. recover-Still w.db handler (m w) (h.still w) k;
  }

-- Where no other request writes in between, a statement that only reads is one of these.
pub query-Still {ℓ} :
    {A : Type ℓ} (p : Platform) (f : Database → A)
    → ((step : ℕ) (db : Database) → p.others step db ≡ db)
    → Still (query p f)
unfolding query
query-Still p f quiet = record { still = λ w. quiet w.step w.db }

pub now-Still : (p : Platform) → Still (now p)
unfolding now
now-Still p = record { still = λ w. refl }

pub send-Still : (p : Platform) (r : Fetch) → Still (send p r)
unfolding send
send-Still p r = record { still = λ w. refl }

module _ {ℓ κ} {A : Type ℓ} {B : Type κ} where
  continue-Still :
      (db : Database) (r : Result A × World) (f : A → App B)
      → r.1.db ≡ db
      → ((a : A) → Still (f a))
      → (continue r f).1.db ≡ db
  continue-Still db (ok a, w) f h k = (k a).still w ∙ h
  continue-Still db (err e, w) f h k = h

  pub >>=-Still : (m : App A) (f : A → App B) → Still m → ((a : A) → Still (f a)) → Still (m >>= f)
  unfolding ◌>>=◌
  >>=-Still m f h k = record { still = λ w. continue-Still w.db (m w) f (h.still w) k }

  continue-Atomic :
      (db : Database) (r : Result A × World) (f : A → App B) (w' : World) (e : Failure)
      → r.1.db ≡ db
      → ((a : A) → Atomic (f a))
      → continue r f ≡ (err e, w')
      → w'.db ≡ db
  continue-Atomic db (ok a, w) f w' e h k x = (k a).atomic w w' e x ∙ h
  continue-Atomic db (err e', w) f w' e h k x = ap (λ (r : Result B × World). r.1.db) (sym x) ∙ h

  -- What leaves the database alone may come before.
  pub >>=-Atomic :
      (m : App A) (f : A → App B) → Still m → ((a : A) → Atomic (f a)) → Atomic (m >>= f)
  unfolding ◌>>=◌
  >>=-Atomic m f h k = record {
    atomic = λ w w' e x. continue-Atomic w.db (m w) f w' e (h.still w) k x;
  }

module _ {ℓ κ} {A : Type ℓ} {B : Type κ} (p : Platform) (convert : Failure → Failure) where
  after_exec-Atomic :
      (w w' : World) (e : Failure) (read : Database → A) (f : A → App B) (o : Outcome)
      → ((b : Database)
          → o ≡ done b
          → f (read b) (record w { db = b }) ≡ (err e, w')
          → w'.db ≡ w.db)
      → continue (recover (λ e. throw (convert e)) (after_exec p w read o)) f ≡ (err e, w')
      → w'.db ≡ w.db
  unfolding throw
  after_exec-Atomic w w' e read f (done b) k x = k b refl x
  after_exec-Atomic w w' e read f (unique_failed column) k x =
      ap (λ (r : Result B × World). r.1.db) (sym x)
  after_exec-Atomic w w' e read f foreign_key_failed k x =
      ap (λ (r : Result B × World). r.1.db) (sym x)

  -- A statement whose errors are converted is rolled back where it fails; what follows it has to see to
  -- the statement's own effect. No other request writes in between.
  pub execute-Atomic :
      (s : Statement) (read : Database → Database → A) (f : A → App B)
      → ((step : ℕ) (db : Database) → p.others step db ≡ db)
      → ((now : ℕ) (a : Database) (w w' : World) (e : Failure)
          → exec now s a ≡ done w.db
          → f (read a w.db) w ≡ (err e, w')
          → w'.db ≡ a)
      → Atomic (try_catch (execute p s read) (λ e. throw (convert e)) >>= f)
  unfolding ◌>>=◌ try_catch execute
  execute-Atomic s read f quiet k = record {
    atomic = λ w w' e x.
        after_exec-Atomic (arrive p w) w' e (read (arrive p w).db) f
          (exec (p.clock w.step) s (arrive p w).db)
          (λ b done_ y. k (p.clock w.step) (arrive p w).db _ w' e done_ y) x
        ∙ quiet w.step w.db;
  }

  after_exec-Writes :
      (w : World) (read : Database → A) (f : A → App B) (o : Outcome)
      → ((a : A) → Still (f a))
      → let r = continue (recover (λ e. throw (convert e)) (after_exec p w read o)) f in
        (r.1.db ≡ w.db) ⊎ (o ≡ done r.1.db)
  unfolding throw
  after_exec-Writes w read f (done b) k =
      inr (ap done (sym ((k (read b)).still (record w { db = b }))))
  after_exec-Writes w read f (unique_failed column) k = inl refl
  after_exec-Writes w read f foreign_key_failed k = inl refl

  -- The statement, with what follows it and leaves the database alone, has the statement's effect or none.
  pub execute-Writes :
      (s : Statement) (read : Database → Database → A) (f : A → App B)
      → ((step : ℕ) (db : Database) → p.others step db ≡ db)
      → ((a : A) → Still (f a))
      → (w : World)
      → let r = (try_catch (execute p s read) (λ e. throw (convert e)) >>= f) w in
        (r.1.db ≡ w.db) ⊎ (exec (p.clock w.step) s w.db ≡ done r.1.db)
  unfolding ◌>>=◌ try_catch execute
  execute-Writes s read f quiet k w =
      let here = quiet w.step w.db in
      elim (after_exec-Writes (arrive p w) (read (arrive p w).db) f
        (exec (p.clock w.step) s (arrive p w).db) k) [
          | inl same ↦ inl (same ∙ here)
          | inr wrote ↦ inr (ap (exec (p.clock w.step) s) (sym here) ∙ wrote)
        ]
