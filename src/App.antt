-- ===== src/App.antt =====
-- A request of the worker as a computation: it may throw, its D1 statements and its `fetch` calls are
-- its only effects, and other requests commit between them.
pub mod Atomic
pub mod Laws
pub mod Requests
pub mod Results
use thelab_ms.Base.{
  ℕ, ◌+◌, ◌/◌, String, Bool, true, false, Option, none, some, List, [], ◌∷◌, ◌++◌, ◌≡◌, refl,
  if◌then◌else◌,
}
use thelab_ms.Json.{Json}
use thelab_ms.Prices.{PriceCache}
use thelab_ms.Database.{
  Database, UniqueColumn, Outcome, done, unique_failed, foreign_key_failed, Statement, exec,
}

-- The variables of the worker's environment (`Env`). An unset secret is "".
pub record Env : Type 0 where
  pub site_origin : String
  pub edge_url : String
  pub discord_guild_id : String
  pub discord_role_id : String
  pub discord_admin_role_id : String
  pub discord_client_id : String
  pub discord_client_secret : String
  pub discord_bot_token : String
  pub stripe_secret_key : String
  pub stripe_webhook_secret : String
  pub turnstile_secret_key : String

-- What is thrown: an `HttpError`, its subclass `ProviderError`, a D1 error, or any other `Error`.
pub data Failure : Type 0 where
  http_error : (status : ℕ) (message : String) → Failure
  provider_error :
      (service : String) (provider_status : Option ℕ) (provider_code : Option Json) → Failure
  unique_error : UniqueColumn → Failure
  foreign_key_error : Failure
  error : (message : String) → Failure
  out_of_fuel : Failure  -- of a loop of the model, never of the source

pub data Result {ℓ} (A : Type ℓ) : Type ℓ where
  ok : A → Result A
  err : Failure → Result A

pub record FobPush : Type 0 where
  pub revision : ℕ
  pub fobs : List ℕ
  pub key : String

pub data Payload : Type 0 where
  no_body : Payload
  form : List (String × String) → Payload
  fob_push : FobPush → Payload

-- An outgoing request. Of the headers, the bearer credential and the idempotency key are modelled.
pub record Fetch : Type 0 where
  pub method : String
  pub url : String
  pub query : List (String × String)  -- its query string, as the list of parameters
  pub credential : String
  pub idempotency_key : Option String
  pub payload : Payload

-- The reply's text: not readable, empty, or read by `JSON.parse`, which may refuse it.
pub data Text : Type 0 where
  unreadable empty not_json : Text
  json : Json → Text

pub data Reply : Type 0 where
  no_reply : Reply  -- `fetch` threw: a network error or the timeout
  reply : (status : ℕ) → Text → Reply

-- What `new URL` reads from a text.
pub record Url : Type 0 where
  pub protocol : String
  pub origin : String
  pub hostname : String

-- The claims of a token for the edge.
pub record Claims : Type 0 where
  pub iss : String
  pub aud : String
  pub sub : String
  pub scope : String
  pub iat : ℕ
  pub exp : ℕ

-- What the worker runs on: the outside's answer to a request, given those sent before; what other
-- requests commit before each statement; the clock; the random values; and the URL and signing
-- functions of the runtime.
pub record Platform : Type 0 where
  pub env : Env
  pub fetch : List Fetch → Fetch → Reply
  pub others : ℕ → Database → Database
  pub clock : ℕ → ℕ  -- Date.now()
  pub random : ℕ → String  -- 32 hexadecimal digits
  pub parse_url : String → Option Url  -- `none` where `new URL` throws
  pub event_key : Option String  -- derived from the signing key, `none` where it cannot be imported
  pub sign_claims : Claims → String  -- the signed token with these claims

-- `step` counts the awaited calls; `prices` is the isolate's price cache.
pub record World : Type 0 where
  pub db : Database
  pub step : ℕ
  pub sent : List Fetch
  pub prices : PriceCache

abbrev pub App {ℓ} : Type ℓ → Type ℓ
App A = World → Result A × World

module _ {ℓ} {A : Type ℓ} where
  unfoldable pub pure : A → App A
  pure a w = (ok a, w)

  unfoldable pub throw : Failure → App A
  throw e w = (err e, w)

module _ {ℓ κ} {A : Type ℓ} {B : Type κ} where
  abbrev pub continue : Result A × World → (A → App B) → Result B × World
  continue (ok a, w) f = f a w
  continue (err e, w) f = (err e, w)

  infixl 5 ◌>>=◌ ◌>>◌
  unfoldable pub ◌>>=◌ : App A → (A → App B) → App B
  unfolding pure throw
  ◌>>=◌ m f w = continue (m w) f

  abbrev pub ◌>>◌ : App A → App B → App B
  m >> k = m >>= λ _. k

module _ {ℓ} {A : Type ℓ} where
  abbrev pub recover : (Failure → App A) → Result A × World → Result A × World
  recover handler (ok a, w) = (ok a, w)
  recover handler (err e, w) = handler e w

  -- try m catch (error) handler
  unfoldable pub try_catch : App A → (Failure → App A) → App A
  unfolding pure throw
  try_catch m handler w = recover handler (m w)

module _ (p : Platform) where
  -- The database when the next statement runs.
  abbrev pub arrive : World → World
  arrive w = record w { db = p.others w.step w.db; step = w.step + 1 }

  -- A statement that only reads.
  unfoldable pub query {ℓ} : {A : Type ℓ} → (Database → A) → App A
  query f w = let w' = arrive w in (ok (f w'.db), w')

  abbrev after_exec {ℓ} : {A : Type ℓ} → World → (Database → A) → Outcome → Result A × World
  after_exec w read (done db) = (ok (read db), record w { db = db })
  after_exec w read (unique_failed column) = (err (unique_error column), w)
  after_exec w read foreign_key_failed = (err foreign_key_error, w)

  -- A statement that writes, with what it returns: `read` sees the database before and after it.
  unfoldable pub execute {ℓ} : {A : Type ℓ} → Statement → (Database → Database → A) → App A
  execute s read w = let w' = arrive w in after_exec w' (read w'.db) (exec (p.clock w.step) s w'.db)

  -- A batch of writing statements: one transaction.
  unfoldable pub transact {ℓ} :
      {A : Type ℓ} → (ℕ → Database → Outcome) → (Database → Database → A) → App A
  transact batch read w =
      let w' = arrive w in after_exec w' (read w'.db) (batch (p.clock w.step) w'.db)

  -- fetch(request)
  unfoldable pub send : Fetch → App Reply
  send r w = (ok (p.fetch w.sent r), record w { sent = w.sent ++ r ∷ []; step = w.step + 1 })

  -- now()
  unfoldable pub now : App ℕ
  now w = (ok (p.clock w.step / 1000), w)

-- error instanceof HttpError ? error.status : 500
unfoldable pub failure_status : Failure → ℕ
failure_status (http_error status message) = status
failure_status (provider_error service status code) = 502
failure_status _ = 500
