-- ===== src/Waiver.antt =====
-- The waiver form (site/src/waiver.tsx).
pub mod Matching
use Prim.Native.Char.{code}
use Prim.Native.String
use thelab_ms.Base.{
  ℕ, ◌+◌, String, Bool, true, false, ◌&&◌, ◌||◌, not, Option, none, some, List, [], ◌∷◌, ◌==◌,
  string_eq, nat_eq, option_eq, if◌then◌else◌, find, leb, ltb, utf16_length,
}
use thelab_ms.Policy.{grants_membership}
use thelab_ms.Rows.{Member}
use thelab_ms.Json.{Json, prop, as_string, bool}
use thelab_ms.Database.{
  Database, Outcome, done, unique_failed, foreign_key_failed, exec, and_then, sign_waiver,
  preregister, sign_by_email,
}
use thelab_ms.App.{
  Failure, http_error, Result, ok, err, form, Fetch, Url, Platform, App, pure, throw, ◌>>=◌, ◌>>◌,
  query, execute, transact, now,
}
use thelab_ms.Forms.{Fields, text_field, is_control, trim, valid_email}
use thelab_ms.Clients.{provider, lift}
use thelab_ms.Session.{Crypto, Session, read_session, member_of, current_member}
use thelab_ms.Edge.{push_fobs}

-- /[\x00-\x1f\x7f]/.test(name)
has_control : String → Bool
has_control String.[] = false
has_control (String.◌∷◌ c s) = is_control (code c) || has_control s

pub record Signature : Type 0 where
  pub name : String
  pub email : String

-- The checks of the form's fields, in their order.
unfoldable pub signature : (String → String) → Fields → Result Signature
unfolding has_control
signature lower fields =
    let name = trim (text_field "name" fields) in
    let email = lower (trim (text_field "email" fields)) in
    if not (text_field "agree_signature" fields == "on")
      || not (text_field "agree_terms" fields == "on")
    then err (http_error 400 "You must agree to all waiver terms.")
    else if name == "" || (ltb 160 (utf16_length name) || has_control name)
    then err (http_error 400 "Enter your legal name (up to 160 characters).")
    else if not (valid_email email)
    then err (http_error 400 "Enter a valid email address.")
    else ok (record { name = name; email = email })

-- The batch for someone who is not signed in; `member_id` is the random id of a new row.
unfoldable pub match_and_sign : String → Signature → ℕ → Database → Outcome
unfolding and_then
match_and_sign member_id s now db =
    and_then (exec now (preregister member_id s.email) db) (exec now (sign_by_email s.name s.email))

-- What RETURNING id gives: the new waiver's id, if there is one.
unfoldable pub new_waiver : Database → Database → Option ℕ
new_waiver before after =
    if before.last_waiver == after.last_waiver then none else some after.last_waiver

-- What the form answers with.
pub data Signed : Type 0 where
  to_checkout : Signed
  signed_page : Signature → (id : ℕ) → Signed

module _ (p : Platform) (lower : String → String) where
  siteverify : String → String → Fetch
  siteverify token address = record {
    method = "POST";
    url = "https://challenges.cloudflare.com/turnstile/v0/siteverify";
    query = [];
    credential = "";
    idempotency_key = none;
    payload =
        form (
          ("secret", p.env.turnstile_secret_key)
          ∷ ("response", token)
          ∷ ("remoteip", address)
          ∷ []);
  }

  hostname_of : Option Url → Option String
  hostname_of none = none
  hostname_of (some url) = some url.hostname

  is_success : Option Json → Bool
  is_success (some (bool b)) = b
  is_success _ = false

  is_human : Json → Bool
  unfolding hostname_of is_success
  is_human result =
      is_success (prop "success" result)
      && (not (hostname_of (p.parse_url p.env.site_origin) == none)
          && (as_string (prop "hostname" result) == hostname_of (p.parse_url p.env.site_origin)
              && as_string (prop "action" result) == some "waiver"))

  -- `token` is "" where the form has none.
  unfoldable pub verify_human : (token address : String) → App (Unit {0})
  unfolding siteverify is_human
  verify_human token address =
      if p.env.turnstile_secret_key == ""
      then pure tt
      else if token == ""
      then throw (http_error 400 "Please complete the human verification and try again.")
      else do
        result ← provider p "Cloudflare verification" (siteverify token address)
        if is_human result
            then pure tt
            else throw (
                http_error 400
                  "Human verification failed or expired. Please go back and complete it again.")

  new_id : App String
  new_id w = (ok (p.random w.step), w)

  -- INSERT for the signed-in member, or the batch that matches the email.
  unfoldable pub record_signature : Option Member → Signature → App (Option ℕ)
  unfolding new_id
  record_signature (some member) s =
      execute p (sign_waiver s.name s.email member.member_id) new_waiver
  record_signature none s = do
    member_id ← new_id
    transact p (match_and_sign member_id s) new_waiver

  signed_id : Option ℕ → App ℕ
  signed_id none =
      throw
        (http_error 409 "We couldn’t link your waiver to a membership. Please contact leadership.")
  signed_id (some id) = pure id

  must_pay : Option Member → Bool
  must_pay none = false
  must_pay (some m) =
      not m.non_billable
      && (not m.legacy_billing && not (grants_membership m.stripe_subscription_state))

  -- `fields` are the form's text fields, `cookie` the session cookie, "" where there is none.
  unfoldable pub waiver_form : Crypto → (cookie address : String) → Fields → App Signed
  unfolding signed_id must_pay
  waiver_form c cookie address fields = do
    s ← lift (signature lower fields)
    verify_human (text_field "cf-turnstile-response" fields) address
    seconds ← now p
    session ← lift (read_session c seconds cookie)
    member ← current_member p session
    found ← record_signature member s
    id ← signed_id found
    push_fobs p
    if must_pay member then pure to_checkout else pure (signed_page s id)
