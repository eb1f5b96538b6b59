-- ===== src/Admin/Access.antt =====
-- Who reaches the admin pages (`adminRequest` of site/src/admin.tsx).
use thelab_ms.Base.{
  ℕ, ◌/◌, ◌≤◌, String, ◌≡◌, refl, ap, Bool, true, false, Option, none, some, ◌==◌, string_eq, arith,
  Bool-cases, inl, inr,
}
use thelab_ms.App.{
  Failure, Result, ok, err, World, Platform, continue, pure, throw, ◌>>=◌, now, failure_status,
}
use thelab_ms.Session.{Crypto, Session, read_session, read_token, auth_key}
use thelab_ms.Admin.Showing.{AdminPage, sign_in}
use thelab_ms.Admin.Routing.{AdminRequest, for_session, admin_request}

-- What a visitor gets who is no admin: a page load is sent to sign in, or fails with an error status.
pub data Refused (get : Bool) : Result AdminPage → Type 0 where
  signs_in : get ≡ true → Refused get (ok sign_in)
  fails : (e : Failure) → 400 ≤ failure_status e → Refused get (err e)

module _ (p : Platform) (fuel : ℕ) (lower : String → String)
    (number : Option String → Option ℕ) where
  read_session-status :
      (c : Crypto) (now : ℕ) (token : String) (e : Failure)
      → read_session c now token ≡ err e
      → failure_status e ≡ 503
  unfolding read_session read_token auth_key failure_status
  read_session-status c now token e h = ground arith

  for_session-Refused :
      (r : AdminRequest) (session : Option Session) (w : World)
      → ((s : Session) → session ≡ some s → s.admin ≡ false)
      → Refused (r.method == "GET") (for_session p fuel lower number r session w).0
        × ((for_session p fuel lower number r session w).1 ≡ w)
  unfolding for_session pure throw failure_status
  for_session-Refused r none w h = elim (Bool-cases (r.method == "GET")) [
    | inl get ↦ rw get (signs_in refl, refl)
    | inr post ↦ rw post (fails _ (omega arith), refl)
  ]
  for_session-Refused r (some s) w h = rw (h s refl) (fails _ (omega arith), refl)

  after_reading :
      (r : AdminRequest) (w : World) (read : Result (Option Session))
      → ((s : Session) → read ≡ ok (some s) → s.admin ≡ false)
      → ((e : Failure) → read ≡ err e → 400 ≤ failure_status e)
      → Refused (r.method == "GET") (continue (read, w) (for_session p fuel lower number r)).0
        × ((continue (read, w) (for_session p fuel lower number r)).1 ≡ w)
  after_reading r w (ok session) h k = for_session-Refused r session w (λ s e. h s (ap ok e))
  after_reading r w (err e) h k = (fails e (k e refl), refl)

  -- Without the session of an admin, a request to the admin pages changes nothing at all and sends
  -- nothing, whatever it asks for; it is sent to sign in if it is a GET, or fails with a status of 400 or
  -- more.
  pub admin_request-Refused :
      (c : Crypto) (r : AdminRequest) (w : World)
      → ((s : Session)
          → read_session c (p.clock w.step / 1000) r.cookie ≡ ok (some s)
          → s.admin ≡ false)
      → Refused (r.method == "GET") (admin_request p fuel lower number c r w).0
        × ((admin_request p fuel lower number c r w).1 ≡ w)
  unfolding admin_request ◌>>=◌ now
  admin_request-Refused c r w h =
      after_reading r w (read_session c (p.clock w.step / 1000) r.cookie) h
        (λ e k. omega (arith, read_session-status c _ _ e k))
