-- ===== src/Session/Tokens.antt =====
-- The reading of signed tokens, and the two kinds of them (site/src/lib.ts, site/src/edge.tsx).
use Prim.Native.Nat.{ℕ, ◌+◌}
use Prim.Native.Char.{code}
use Prim.Native.String.{◌++◌ as string_append}
use text.Mathlib.TextLemmas.{append-nil, nil-append, cons-append}
use thelab_ms.Base.{
  String, ◌≡◌, refl, ap, ◌∙◌, sym, subst, Bool, true, not, none, some, [], ◌∷◌, ◌==◌, string_eq,
  nat_eq, if◌then◌else◌, ltb, template, arith, Bool-cases, inl, inr,
}
use thelab_ms.Json.{Json, prop, as_num, is_record, get_field, as_string}
use thelab_ms.App.{ok}
use thelab_ms.Session.{
  split, all_codes, is_discord_id, Crypto, session_age, session_value, claim_value, session_of,
  claimed_fob, auth_key, sign_token, read_token, session_token, read_session, read_claim,
}

abbrev pub is_not_dot : ℕ → Bool
is_not_dot c = not (c == 46)

split_plain : (s : String) → all_codes is_not_dot s ≡ true → split 46 s ≡ s ∷ []
unfolding split all_codes
split_plain String.[] h = refl
split_plain (String.◌∷◌ c s) h = elim (Bool-cases (code c == 46)) [
  | inl dot ↦ absurd (ground (arith, dot, h))
  | inr other ↦ rw (split_plain s (ground (arith, other, h)), other) refl
]

split-dot :
    (s u : String)
    → all_codes is_not_dot s ≡ true
    → split 46 (string_append s (string_append "." u)) ≡ s ∷ split 46 u
unfolding split all_codes
split-dot String.[] u h =
    ap (split 46) (nil-append (string_append "." u) ∙ cons-append _ "" u)
    ∙ ap (λ rest. "" ∷ split 46 rest) (nil-append u)
split-dot (String.◌∷◌ c s) u h = elim (Bool-cases (code c == 46)) [
  | inl dot ↦ absurd (ground (arith, dot, h))
  | inr other ↦
      rw (cons-append c s (string_append "." u), split-dot s u (ground (arith, other, h)), other)
        refl
]

token_parts :
    (s t : String)
    → all_codes is_not_dot s ≡ true
    → all_codes is_not_dot t ≡ true
    → split 46 (template (s ∷ "." ∷ t ∷ [])) ≡ s ∷ t ∷ []
unfolding template
token_parts s t hs ht =
    split-dot s (string_append t "") hs
    ∙ ap (λ u. s ∷ split 46 u) (append-nil t)
    ∙ ap (λ l. s ∷ l) (split_plain t ht)

-- What makes a token work, for the value that it holds: the secret is long enough, neither part has a
-- dot (base64url has none), the signature verifies, and the payload decodes to the value.
pub record Works (c : Crypto) (value : Json) : Type 0 where
  pub key : auth_key c ≡ ok c.auth_secret
  pub payload_plain : all_codes is_not_dot (c.encode_json value) ≡ true
  pub signature_plain : all_codes is_not_dot (c.mac (c.encode_json value)) ≡ true
  pub verifies : c.verify (c.mac (c.encode_json value)) (c.encode_json value) ≡ some true
  pub decodes : c.decode_json (c.encode_json value) ≡ some value

module _ (c : Crypto) (value : Json) (w : Works c value) where
  abbrev made : String
  made = template (c.encode_json value ∷ "." ∷ c.mac (c.encode_json value) ∷ [])

  sign_token-made : sign_token c value ≡ ok made
  unfolding sign_token
  sign_token-made = rw w.key refl

  read_token-made :
      (exp now : ℕ)
      → is_record value ≡ true
      → as_num (prop "exp" value) ≡ some exp
      → read_token c now made ≡ ok (if ltb now exp then some value else none)
  unfolding read_token
  read_token-made exp now record_ timed =
      rw
        (
          token_parts (c.encode_json value) (c.mac (c.encode_json value)) w.payload_plain
              w.signature_plain,
          w.key,
          w.verifies,
          w.decodes,
        )
        (rw (record_, timed) refl)

  -- A token that was signed for a value is read back as that value, as long as the value is a record
  -- with a numeric `exp` that is still to come, and is refused as `null` from then on.
  pub read_token-sign_token :
      (token : String) (exp now : ℕ)
      → is_record value ≡ true
      → as_num (prop "exp" value) ≡ some exp
      → sign_token c value ≡ ok token
      → read_token c now token ≡ ok (if ltb now exp then some value else none)
  read_token-sign_token token exp now record_ timed signed =
      subst (λ t. read_token c now t ≡ ok (if ltb now exp then some value else none))
        (let e = sym sign_token-made ∙ signed in cc) (read_token-made exp now record_ timed)

module _ (c : Crypto) (issued : ℕ) (sub : String) (admin : Bool) where
  -- A session cookie for a Discord account is read back as that account's session, with the same admin
  -- flag, for the 86400 seconds after it was issued, and as no session from then on.
  pub read_session-session_token :
      (token : String) (now : ℕ)
      → Works c (session_value sub admin (issued + session_age))
      → is_discord_id sub ≡ true
      → session_token c issued sub admin ≡ ok token
      → read_session c now token
        ≡ ok (if ltb now (issued + 86400) then some (record { sub = sub; admin = admin }) else none)
  unfolding session_token read_session session_of is_record as_num prop get_field as_string
  read_session-session_token token now w valid signed =
      rw
        (read_token-sign_token c (session_value sub admin (issued + session_age)) w token
          (issued + session_age) now refl refl signed)
        (elim (Bool-cases (ltb now (issued + 86400))) [
          | inl live ↦ rw (live, valid) refl
          | inr late ↦ rw late refl
        ])

  -- Neither kind of token is ever accepted as the other: a session token names no fob to link, and a
  -- kiosk token is no session, whatever the time.
  pub tokens_apart :
      (fob exp now : ℕ) (session claim : String)
      → Works c (session_value sub admin (issued + session_age))
      → Works c (claim_value fob exp)
      → session_token c issued sub admin ≡ ok session
      → sign_token c (claim_value fob exp) ≡ ok claim
      → (read_claim c now session ≡ ok none) × (read_session c now claim ≡ ok none)
  unfolding session_token read_session session_of read_claim claimed_fob is_record as_num prop
      get_field as_string
  tokens_apart fob exp now session claim w v signed claimed = (
    rw
        (read_token-sign_token c (session_value sub admin (issued + session_age)) w session
          (issued + session_age) now refl refl signed)
        (elim (Bool-cases (ltb now (issued + 86400))) [
          | inl live ↦ rw live refl
          | inr late ↦ rw late refl
        ]),
    rw (read_token-sign_token c (claim_value fob exp) v claim exp now refl refl claimed)
        (elim (Bool-cases (ltb now exp)) [ inl live ↦ rw live refl | inr late ↦ rw late refl ]),
  )
