-- ===== src/App/Requests.antt =====
-- What a computation sends to the outside, and what it keeps of the worker's state, composed over `do`
-- blocks.
use thelab_ms.Base.{
  ◌≡◌, refl, sym, ap, subst, ◌∙◌, List, [], ◌∷◌, ◌++◌, append-nil, append_assoc, All, All-append,
}
use thelab_ms.App.Laws.{>>=-eq-ok, returned}
use thelab_ms.Database.{Database, Outcome, done, unique_failed, foreign_key_failed, Statement, exec}
use thelab_ms.App.{
  Failure, Result, ok, err, Fetch, Platform, World, App, pure, throw, continue, ◌>>=◌, query,
  execute, send, now, after_exec, arrive, recover, try_catch,
}

-- Whatever the computation returns has the property.
pub record Yields {ℓ} {A : Type ℓ} (Q : A → Type 0) (m : App A) : Type ℓ where
  pub yields : (w w' : World) (a : A) → m w ≡ (ok a, w') → Q a

module _ {ℓ} {A : Type ℓ} (Q : A → Type 0) where
  pub pure-Yields : (a : A) → Q a → Yields Q (pure a)
  unfolding pure
  pure-Yields a q = record { yields = λ w w' b h. subst Q (returned h) q }

  pub throw-Yields : (e : Failure) → Yields Q (throw e)
  unfolding throw
  throw-Yields e = record { yields = λ w w' a h. cc }

  pub query-Yields :
      (p : Platform) (f : Database → A) → ((db : Database) → Q (f db)) → Yields Q (query p f)
  unfolding query
  query-Yields p f q = record { yields = λ w w' a h. subst Q (returned h) (q (arrive p w).db) }

  after_exec-Yields :
      (p : Platform) (w w' : World) (read : Database → A) (o : Outcome) (a : A)
      → ((db : Database) → Q (read db))
      → after_exec p w read o ≡ (ok a, w')
      → Q a
  after_exec-Yields p w w' read (done db) a q h = subst Q (returned h) (q db)
  after_exec-Yields p w w' read (unique_failed column) a q h = cc
  after_exec-Yields p w w' read foreign_key_failed a q h = cc

  pub execute-Yields :
      (p : Platform) (s : Statement) (read : Database → Database → A)
      → ((before after : Database) → Q (read before after))
      → Yields Q (execute p s read)
  unfolding execute
  execute-Yields p s read q = record {
    yields = λ w w' a h.
        after_exec-Yields p (arrive p w) w' (read (arrive p w).db)
          (exec (p.clock w.step) s (arrive p w).db) a (q (arrive p w).db) h;
  }

  pub >>=-Yields {κ} :
      {B : Type κ} (R : B → Type 0) (m : App B) (f : B → App A)
      → Yields R m
      → ((b : B) → R b → Yields Q (f b))
      → Yields Q (m >>= f)
  >>=-Yields R m f q k = record {
    yields = λ w w' a h.
        let (b, w₁, e, g) = >>=-eq-ok m f w h in (k b (q.yields w w₁ b e)).yields w₁ w' a g;
  }

  recover-Yields :
      (handler : Failure → App A) (r : Result A × World) (w' : World) (a : A)
      → ((w : World) (b : A) → r ≡ (ok b, w) → Q b)
      → ((e : Failure) → Yields Q (handler e))
      → recover handler r ≡ (ok a, w')
      → Q a
  recover-Yields handler (ok b, w) w' a q k h = subst Q (returned h) (q w b refl)
  recover-Yields handler (err e, w) w' a q k h = (k e).yields w w' a h

  pub try_catch-Yields :
      (m : App A) (handler : Failure → App A)
      → Yields Q m
      → ((e : Failure) → Yields Q (handler e))
      → Yields Q (try_catch m handler)
  unfolding try_catch
  try_catch-Yields m handler q k = record {
    yields = λ w w' a h. recover-Yields handler (m w) w' a (λ u b. q.yields w u b) k h;
  }

  -- Where nothing is asked of what is bound.
  pub >>=-Yields_any {κ} :
      {B : Type κ} (m : App B) (f : B → App A) → ((b : B) → Yields Q (f b)) → Yields Q (m >>= f)
  >>=-Yields_any m f k =
      >>=-Yields (λ b. Unit) m f (record { yields = λ w w' a h. tt }) (λ b u. k b)

module _ (P : Fetch → Type 0) where
  -- The requests that were added to `sent` have the property.
  abbrev pub Added : List Fetch → List Fetch → Type 0
  Added sent sent' = (new : List Fetch) × (sent' ≡ sent ++ new) × All P new

  Added-refl : (sent : List Fetch) → Added sent sent
  Added-refl sent = ([], sym (append-nil sent), tt)

  Added-trans : (a b c : List Fetch) → Added a b → Added b c → Added a c
  Added-trans a b c (new, e, h) (more, f, k) =
      (new ++ more, f ∙ ap (λ l. l ++ more) e ∙ append_assoc a new more, All-append P new more h k)

  -- Every request that the computation sends has the property, however it ends.
  pub record Emits {ℓ} {A : Type ℓ} (m : App A) : Type 0 where
    pub added : (w : World) → Added w.sent (m w).1.sent

  pub throw-Emits {ℓ} : (A : Type ℓ) (e : Failure) → Emits (throw {A = A} e)
  unfolding throw
  throw-Emits A e = record { added = λ w. Added-refl w.sent }

  module _ {ℓ} {A : Type ℓ} where
    pub pure-Emits : (a : A) → Emits (pure a)
    unfolding pure
    pure-Emits a = record { added = λ w. Added-refl w.sent }

    pub lift-Emits : (r : Result A) → Emits {A = A} (λ w. (r, w))
    lift-Emits r = record { added = λ w. Added-refl w.sent }

    pub query-Emits : (p : Platform) (f : Database → A) → Emits (query p f)
    unfolding query
    query-Emits p f = record { added = λ w. Added-refl w.sent }

    after_exec-Added :
        (p : Platform) (w : World) (read : Database → A) (o : Outcome)
        → Added w.sent (after_exec p w read o).1.sent
    after_exec-Added p w read (done db) = Added-refl w.sent
    after_exec-Added p w read (unique_failed column) = Added-refl w.sent
    after_exec-Added p w read foreign_key_failed = Added-refl w.sent

    pub execute-Emits :
        (p : Platform) (s : Statement) (read : Database → Database → A) → Emits (execute p s read)
    unfolding execute
    execute-Emits p s read = record {
      added = λ w.
          after_exec-Added p (arrive p w) (read (arrive p w).db)
            (exec (p.clock w.step) s (arrive p w).db);
    }

  module _ {ℓ κ} {A : Type ℓ} {B : Type κ} where
    continue-Added_of :
        (sent : List Fetch) (r : Result A × World) (f : A → App B)
        → Added sent r.1.sent
        → ((a : A) (w : World) → r ≡ (ok a, w) → Emits (f a))
        → Added sent (continue r f).1.sent
    continue-Added_of sent (ok a, w) f h k =
        Added-trans sent w.sent (f a w).1.sent h ((k a w refl).added w)
    continue-Added_of sent (err e, w) f h k = h

    -- The same, where the next step may rely on what the first yields.
    pub >>=-Emits_of :
        (Q : A → Type 0) (m : App A) (f : A → App B)
        → Emits m
        → Yields Q m
        → ((a : A) → Q a → Emits (f a))
        → Emits (m >>= f)
    unfolding ◌>>=◌
    >>=-Emits_of Q m f h q k = record {
      added = λ w. continue-Added_of w.sent (m w) f (h.added w) (λ a w' e. k a (q.yields w w' a e));
    }

    continue-Added :
        (sent : List Fetch) (r : Result A × World) (f : A → App B)
        → Added sent r.1.sent
        → ((a : A) → Emits (f a))
        → Added sent (continue r f).1.sent
    continue-Added sent (ok a, w) f h k = Added-trans sent w.sent (f a w).1.sent h ((k a).added w)
    continue-Added sent (err e, w) f h k = h

    pub >>=-Emits :
        (m : App A) (f : A → App B) → Emits m → ((a : A) → Emits (f a)) → Emits (m >>= f)
    unfolding ◌>>=◌
    >>=-Emits m f h k = record { added = λ w. continue-Added w.sent (m w) f (h.added w) k }

  pub now-Emits : (p : Platform) → Emits (now p)
  unfolding now
  now-Emits p = record { added = λ w. Added-refl w.sent }

  pub send-Emits : (p : Platform) (r : Fetch) → P r → Emits (send p r)
  unfolding send
  send-Emits p r h = record { added = λ w. (r ∷ [], refl, (h, tt)) }

-- What holds of the state before holds of the state after, however the computation ends.
pub record Preserves {ℓ} {A : Type ℓ} (I : World → Type 0) (m : App A) : Type 0 where
  pub kept : (w : World) → I w → I (m w).1

module _ {ℓ κ} (I : World → Type 0) {A : Type ℓ} {B : Type κ} where
  continue-Preserves :
      (r : Result A × World) (f : A → App B)
      → I r.1
      → ((a : A) → Preserves I (f a))
      → I (continue r f).1
  continue-Preserves (ok a, w) f h k = (k a).kept w h
  continue-Preserves (err e, w) f h k = h

  pub >>=-Preserves :
      (m : App A) (f : A → App B)
      → Preserves I m
      → ((a : A) → Preserves I (f a))
      → Preserves I (m >>= f)
  unfolding ◌>>=◌
  >>=-Preserves m f h k = record { kept = λ w i. continue-Preserves (m w) f (h.kept w i) k }
