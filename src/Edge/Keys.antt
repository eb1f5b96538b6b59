-- ===== src/Edge/Keys.antt =====
-- The key that signs what the worker sends to the edge, and the cache that an isolate keeps of it
-- (`signingKey`, `edgeToken`, `edgeJWKS` and `edgeEventKey` of site/src/edge.tsx).
pub mod Cached
use thelab_ms.Base.{
  ℕ, String, Bool, true, false, Option, none, some, List, [], ◌∷◌, ◌++◌, ◌==◌, string_eq, ◌≡◌,
  if◌then◌else◌, template,
}
use thelab_ms.Json.{Json, Items, obj, arr, str, num, field, end}
use thelab_ms.App.{Claims, Result, ok, err, Failure, http_error}

-- The runtime's functions; `none` is where they throw. Signatures and digests are in base64url, the HMAC
-- is in hexadecimal.
pub record Runtime (Key : Type 0) : Type 0 where
  pub decode : String → Option String  -- the bytes of base64
  pub import_key : String → Option Key
  pub public_part : Key → Option String  -- the exported key's `x`
  pub stringify : Json → String
  pub base64url : String → String
  pub digest : String → String
  pub sign : Key → String → String
  pub hmac : (secret message : String) → String

pub record PublicKey : Type 0 where
  pub x : String
  pub kid : String

pub record SigningKey (Key : Type 0) : Type 0 where
  pub key : Key
  pub public_key : PublicKey

abbrev pub no_key : Failure
no_key = http_error 503 "Edge signing key is not configured."

-- { crv: 'Ed25519', kty: 'OKP', x }
abbrev pub thumbprint_json : String → Json
thumbprint_json x =
    obj (field "crv" (str "Ed25519") (field "kty" (str "OKP") (field "x" (str x) end)))

module _ {Key : Type 0} (r : Runtime Key) where
  abbrev pub with_public : Key → Option String → Option (SigningKey Key)
  with_public key none = none
  with_public key (some x) =
      if x == ""
      then none
      else some (record {
        key = key;
        public_key = record { x = x; kid = r.digest (r.stringify (thumbprint_json x)) };
      })

  abbrev pub with_key : Option Key → Option (SigningKey Key)
  with_key none = none
  with_key (some key) = with_public key (r.public_part key)

  abbrev pub with_bytes : Option String → Option (SigningKey Key)
  with_bytes none = none
  with_bytes (some bytes) = with_key (r.import_key bytes)

  -- The `try` of `signingKey`, without the cache.
  unfoldable pub read_key : String → Option (SigningKey Key)
  read_key secret = with_bytes (r.decode secret)

-- The secret of the last key that was read, with that key.
abbrev pub KeyCache : Type 0 → Type 0
KeyCache Key = Option (String × SigningKey Key)

-- if (cached?.secret === env.EDGE_JWT_PRIVATE_KEY) return cached.value
unfoldable pub cached_key : {Key : Type 0} → String → KeyCache Key → Option (SigningKey Key)
cached_key secret none = none
cached_key secret (some (known, value)) = if known == secret then some value else none

-- signingKeys.set(env, { secret, value })
unfoldable pub store_key :
    {Key : Type 0} → String → Option (SigningKey Key) → KeyCache Key → KeyCache Key
store_key secret none cache = cache
store_key secret (some value) cache = some (secret, value)

-- What `signingKey` returns or throws.
abbrev pub or_unconfigured : {Key : Type 0} → Option (SigningKey Key) → Result (SigningKey Key)
or_unconfigured none = err no_key
or_unconfigured (some value) = ok value

-- The secret that an environment holds now, the cache that the isolate keeps for that environment, the
-- secrets whose reading has begun and waits, and what was answered, newest first.
pub record Isolate (Key : Type 0) : Type 0 where
  pub secret : String
  pub cache : KeyCache Key
  pub reading : List String
  pub answered : List (String × Result (SigningKey Key))

abbrev pub fresh_isolate : {Key : Type 0} → String → Isolate Key
fresh_isolate secret = record { secret = secret; cache = none; reading = []; answered = [] }

abbrev pub answer_with :
    {Key : Type 0} → String → Option (SigningKey Key) → Isolate Key → Isolate Key
answer_with secret value i = record i { answered = (secret, or_unconfigured value) ∷ i.answered }

module _ {Key : Type 0} (r : Runtime Key) where
  abbrev pub asked_with : Isolate Key → Option (SigningKey Key) → Isolate Key
  asked_with i none = record i { reading = i.secret ∷ i.reading }
  asked_with i (some value) = answer_with i.secret (some value) i

  -- `signingKey` up to its first `await`.
  unfoldable pub ask_key : Isolate Key → Isolate Key
  ask_key i = asked_with i (cached_key i.secret i.cache)

  -- The rest of it, once the key of the secret that the call began with is read: the key is stored under the
  -- secret that the environment holds by then.
  unfoldable pub key_read : String → Isolate Key → Isolate Key
  unfolding read_key store_key
  key_read secret i =
      let value = read_key r secret in
      answer_with secret value (record i { cache = store_key i.secret value i.cache })

  -- Calls of `signingKey` in one isolate, in any order, and replacements of the secret.
  pub data KeyStep : Isolate Key → Isolate Key → Type 0 where
    asked : (i : Isolate Key) → KeyStep i (ask_key i)
    ended :
        (before after : List String) (secret : String) (i : Isolate Key)
        → i.reading ≡ before ++ secret ∷ after
        → KeyStep i (key_read secret (record i { reading = before ++ after }))
    replaced : (secret : String) (i : Isolate Key) → KeyStep i (record i { secret = secret })

  pub data KeySteps : Isolate Key → Isolate Key → Type 0 where
    none_yet : (i : Isolate Key) → KeySteps i i
    and_then : {i j k : Isolate Key} → KeySteps i j → KeyStep j k → KeySteps i k

  -- The secret is only replaced while no call waits for a key.
  abbrev pub ReplacesIdle : {i j : Isolate Key} → KeySteps i j → Type 0
  ReplacesIdle (none_yet i) = Unit
  ReplacesIdle (and_then before (asked i)) = ReplacesIdle before
  ReplacesIdle (and_then before (ended xs ys secret i e)) = ReplacesIdle before
  ReplacesIdle (and_then before (replaced secret i)) = ReplacesIdle before × (i.reading ≡ [])

  -- { kid, alg, use } beside the thumbprint's fields
  abbrev pub public_json : PublicKey → Json
  public_json k = obj (
      field "crv" (str "Ed25519") (
        field "kty" (str "OKP") (
          field "x" (str k.x)
            (field "kid" (str k.kid) (field "alg" (str "EdDSA") (field "use" (str "sig") end))))))

  -- The body of `edgeJWKS`.
  unfoldable pub edge_jwks : SigningKey Key → Json
  edge_jwks value =
      obj (field "keys" (arr (Items.cons (public_json value.public_key) Items.nil)) end)

  abbrev pub encode_json : Json → String
  encode_json value = r.base64url (r.stringify value)

  abbrev pub claims_json : Claims → Json
  claims_json c = obj (
      field "iss" (str c.iss) (
        field "aud" (str c.aud) (
          field "sub" (str c.sub)
            (field "scope" (str c.scope) (field "iat" (num c.iat) (field "exp" (num c.exp) end))))))

  -- { alg: 'EdDSA', typ: 'JWT', kid }
  abbrev pub token_header : PublicKey → Json
  token_header k =
      obj (field "alg" (str "EdDSA") (field "typ" (str "JWT") (field "kid" (str k.kid) end)))

  -- The token of `edgeToken`.
  unfoldable pub signed_token : SigningKey Key → Claims → String
  signed_token value claims =
      let data_ = template (
        encode_json (token_header value.public_key)
        ∷ "."
        ∷ encode_json (claims_json claims)
        ∷ []) in
      template (data_ ∷ "." ∷ r.sign value.key data_ ∷ [])

  abbrev pub event_key_with : String → Option (SigningKey Key) → Option String
  event_key_with secret none = none
  event_key_with secret (some value) = some (r.hmac secret "edge-events")

  -- `edgeEventKey`; `none` is where it throws.
  unfoldable pub event_key_of_secret : String → Option String
  unfolding read_key
  event_key_of_secret secret = event_key_with secret (read_key r secret)
