-- ===== src/Kiosk/Bound.antt =====
-- Which fob `bindFob` links to whom (site/src/edge.tsx).
use thelab_ms.Base.{
  ℕ, ◌/◌, String, ◌≡◌, refl, sym, ap, ◌∙◌, subst, Bool, true, false, ◌⊎◌, inl, inr, Option, none,
  some, ◌==◌, nat_eq, option_eq, Bool-cases, Option-cases, if◌then◌else◌,
}
use thelab_ms.Rows.{Member}
use thelab_ms.Database.{Database, done, bind_fob, exec}
use thelab_ms.App.{
  Result, ok, err, Platform, World, continue, arrive, pure, throw, query, now, ◌>>=◌, ◌>>◌,
}
use thelab_ms.App.Atomic.{pure-Still, if-Still, >>=-Still, execute-Writes}
use thelab_ms.Session.{Crypto, Session, read_claim, read_session, member_of}
use thelab_ms.Edge.{push_fobs}
use thelab_ms.Edge.Unwritten.{push_fobs-Still}
use thelab_ms.Kiosk.{
  has_changed, link_fob, for_member, for_claim, bind_failure, linked_page, bind_fob_page,
}

-- The database after the request: as it was, or after a POST with the member's fob linked, where the
-- link's token names the fob, and the session's cookie the member.
pub data Bound (c : Crypto) (is_get : Bool) (token cookie : String) (seconds : ℕ) (a : Database)
    : Database → Type 0 where
  untouched : Bound c is_get token cookie seconds a a
  links :
      (fob at : ℕ) (session : Session) (m : Member) (b : Database)
      → is_get ≡ false
      → read_claim c seconds token ≡ ok (some fob)
      → read_session c seconds cookie ≡ ok (some session)
      → member_of (some session) a.members ≡ some m
      → exec at (bind_fob fob m.member_id) a ≡ done b
      → Bound c is_get token cookie seconds a b

module _ (p : Platform) (quiet : (step : ℕ) (db : Database) → p.others step db ≡ db) where
  for_member-Bound :
      (is_get : Bool) (fob : ℕ) (member : Option Member) (w : World)
      → ((for_member p is_get fob member w).1.db ≡ w.db)
        ⊎ ((m : Member) × (is_get ≡ false)
            × (member ≡ some m)
            × (exec (p.clock w.step) (bind_fob fob m.member_id) w.db
                ≡ done (for_member p is_get fob member w).1.db))
  unfolding for_member link_fob pure throw
  for_member-Bound true fob none w = inl refl
  for_member-Bound false fob none w = inl refl
  for_member-Bound true fob (some m) w = elim (Bool-cases (m.fob_id == some fob)) [
    | inl held ↦ rw held (inl refl)
    | inr free ↦ rw free (inl refl)
  ]
  for_member-Bound false fob (some m) w =
      elim (execute-Writes p bind_failure (bind_fob fob m.member_id) (has_changed fob m.member_id)
        (λ changed. (if changed then push_fobs p else pure tt) >> pure (linked_page fob)) quiet
        (λ changed.
          >>=-Still _ _ (if-Still changed _ _ (push_fobs-Still p quiet) (pure-Still _))
            (λ u. pure-Still _))
        w) [ inl same ↦ inl same | inr wrote ↦ inr (m, refl, refl, wrote) ]

  for_claim-Bound :
      (c : Crypto) (is_get : Bool) (token cookie : String) (seconds : ℕ) (session : Option Session)
      (claim : Option ℕ) (w : World)
      → read_claim c seconds token ≡ ok claim
      → read_session c seconds cookie ≡ ok session
      → Bound c is_get token cookie seconds w.db (for_claim p is_get session claim w).1.db
  unfolding for_claim throw query ◌>>=◌
  for_claim-Bound c is_get token cookie seconds session none w e f = untouched
  for_claim-Bound c is_get token cookie seconds session (some fob) w e f =
      let here = quiet w.step w.db in
      elim (for_member-Bound is_get fob (member_of session (arrive p w).db.members) (arrive p w)) [
        | inl same ↦ subst (Bound c is_get token cookie seconds w.db) (sym (same ∙ here)) untouched
        | inr (m, post, found, wrote) ↦ elim (Option-cases session) [
          | inl gone ↦ absurd (unfold member_of in cc (rw gone at found))
          | inr (s, own) ↦
              links fob _ s m _ post e (f ∙ ap ok own) (rw (own, here) at found)
                (ap (exec _ (bind_fob fob m.member_id)) (sym here) ∙ wrote)
        ]
      ]

  -- While no other request writes: whatever link and session a request to link a fob comes with, and
  -- however it ends, the database is as it was, or the request was a POST and the database has just the
  -- effect of linking one fob to one member, where the kiosk's signed token names the fob, and the member
  -- is the one of the signed session. A GET never changes anything.
  pub bind_fob_page-Bound :
      (c : Crypto) (is_get : Bool) (token cookie : String) (w : World)
      → Bound c is_get token cookie
          (p.clock w.step / 1000)
          w.db
          (bind_fob_page p c is_get token cookie w).1.db
  unfolding bind_fob_page now ◌>>=◌
  bind_fob_page-Bound c is_get token cookie w =
      let seconds = p.clock w.step / 1000 in
      read (read_claim c seconds token) (read_session c seconds cookie) refl refl
    where
      read :
          (claim : Result (Option ℕ)) (session : Result (Option Session))
          → read_claim c (p.clock w.step / 1000) token ≡ claim
          → read_session c (p.clock w.step / 1000) cookie ≡ session
          → Bound c is_get token cookie
              (p.clock w.step / 1000)
              w.db
              (continue
                (claim, w)
                (λ claim'. (λ w'.
                  continue (session, w') (λ session'. for_claim p is_get session' claim')))).1.db
      read (err x) session e f = untouched
      read (ok claim) (err x) e f = untouched
      read (ok claim) (ok session) e f =
          for_claim-Bound c is_get token cookie (p.clock w.step / 1000) session claim w e f
