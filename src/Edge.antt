-- ===== src/Edge.antt =====
-- Edge proxy integration (site/src/edge.tsx): tokens, fob list pushes and sync requests.
pub mod Push
pub mod Keys
pub mod Unwritten
use thelab_ms.Base.{
  ℕ, ◌+◌, ◌/◌, String, Bool, true, false, ◌&&◌, not, Option, none, some, List, [], ◌∷◌, ◌++◌, ◌==◌,
  string_eq, nat_eq, if◌then◌else◌, take, length, leb, ltb, template,
}
use thelab_ms.Database.{Database, Statement, request_sync}
use thelab_ms.Database.Revision.{enabled_fobs, revision}
use thelab_ms.App.{
  Failure, http_error, error, Result, ok, err, Fetch, FobPush, fob_push, Reply, no_reply, reply,
  Claims, Url, Platform, App, pure, throw, ◌>>=◌, ◌>>◌, try_catch, query, execute, send, now,
}

-- ORDER BY fob_id
unfoldable pub insert_fob : ℕ → List ℕ → List ℕ
insert_fob fob [] = fob ∷ []
insert_fob fob (x ∷ xs) =
    let rest = insert_fob fob xs in if leb fob x then fob ∷ x ∷ xs else x ∷ rest

unfoldable pub sort_fobs : List ℕ → List ℕ
sort_fobs [] = []
sort_fobs (x ∷ xs) = insert_fob x (sort_fobs xs)

-- fetch(...) throws where there is no reply; the push wants a 204.
unfoldable pub pushed : Reply → App (Unit {0})
pushed no_reply = throw (error "fetch failed")
pushed (reply status text) =
    if status == 204 then pure tt else throw (error "Edge fob push failed.")

module _ (p : Platform) where
  edge_origin_of : Option Url → App String
  edge_origin_of none =
      throw (http_error 503 "Machine status is temporarily unavailable. Please try again later.")
  edge_origin_of (some url) =
      if url.protocol == "https:" && url.origin == p.env.edge_url
      then pure url.origin
      else throw
          (http_error 503 "Machine status is temporarily unavailable. Please try again later.")

  unfoldable pub edge_origin : App String
  unfolding edge_origin_of
  edge_origin = edge_origin_of (p.parse_url p.env.edge_url)

  -- `signingKey` throws before the key is used.
  event_key_of : Option String → App String
  event_key_of none = throw (http_error 503 "Edge signing key is not configured.")
  event_key_of (some key) = pure key

  unfoldable pub edge_event_key : App String
  unfolding event_key_of
  edge_event_key = event_key_of p.event_key

-- Fob pushes and sync use the edge API scope; printer dashboards read status for one member.
pub data EdgeGrant : Type 0 where
  edge_api : EdgeGrant
  printers_read : (member_id : String) → EdgeGrant

abbrev pub grant_scope : EdgeGrant → String
grant_scope edge_api = "edge:api"
grant_scope (printers_read member_id) = "printers:read"

abbrev pub grant_subject : EdgeGrant → String
grant_subject edge_api = "edge-sync"
grant_subject (printers_read member_id) = member_id

-- One batch reads the revision and SELECT fob_id ... ORDER BY fob_id LIMIT 513.
abbrev pub push_query : Database → ℕ × List ℕ
push_query db = (revision db, take 513 (sort_fobs (enabled_fobs db.members)))

module _ (p : Platform) where
  abbrev pub edge_claims : EdgeGrant → ℕ → Claims
  edge_claims grant issued = record {
    iss = p.env.site_origin;
    aud = p.env.edge_url;
    sub = grant_subject grant;
    scope = grant_scope grant;
    iat = issued;
    exp = issued + 60;
  }

  unfoldable pub edge_token : EdgeGrant → App String
  edge_token grant = do
    edge_event_key p
    issued ← now p
    pure (p.sign_claims (edge_claims grant issued))

  abbrev pub push_request : (edge token : String) → FobPush → Fetch
  push_request edge token body = record {
    method = "PUT";
    url = template (edge ∷ "/api/fobs" ∷ []);
    query = [];
    credential = template ("Bearer " ∷ token ∷ []);
    idempotency_key = none;
    payload = fob_push body;
  }

  unfoldable pub send_push : ℕ × List ℕ → App (Unit {0})
  send_push (revision, fobs) =
      if ltb 512 (length fobs)
      then throw (error "Authorized fob set exceeds edge capacity (512).")
      else do
        key ← edge_event_key p
        edge ← edge_origin p
        token ← edge_token edge_api
        answer ←
            send p
              (push_request edge token (record { revision = revision; fobs = fobs; key = key }))
        pushed answer

  -- Every failure is logged and swallowed.
  unfoldable pub push_fobs : App (Unit {0})
  push_fobs =
      if p.env.edge_url == ""
      then pure tt
      else try_catch (do rows ← query p push_query; send_push rows) (λ e. pure tt)

  -- `edgeSyncRequest`, with the push that it hands to `ctx.waitUntil` run at the end: the status.
  unfoldable pub edge_sync_request : App ℕ
  edge_sync_request = do
    seconds ← now p
    accepted ←
        execute p (request_sync seconds)
          (λ before after. leb (before.edge_changes.sync_requested + 600) seconds)
    if accepted then (do push_fobs; pure 202) else pure 429
