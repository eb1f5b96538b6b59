-- ===== src/Edge/Unwritten.antt =====
-- A push of the fobs writes nothing (`pushFobs` of site/src/edge.tsx).
use thelab_ms.Base.{ℕ, String, ◌≡◌, Option, none, some, List, string_eq, nat_eq}
use thelab_ms.Database.{Database}
use thelab_ms.App.{Reply, no_reply, reply, Url, Platform}
use thelab_ms.App.Atomic.{
  Still, pure-Still, throw-Still, if-Still, try_catch-Still, query-Still, now-Still, send-Still,
  >>=-Still,
}
use thelab_ms.Edge.{
  edge_origin_of, edge_origin, event_key_of, edge_event_key, edge_api, edge_token, pushed,
  push_query, send_push, push_fobs,
}

pushed-Still : (answer : Reply) → Still (pushed answer)
unfolding pushed
pushed-Still no_reply = throw-Still _
pushed-Still (reply status text) = if-Still _ _ _ (pure-Still _) (throw-Still _)

module _ (p : Platform) where
  edge_event_key-Still : Still (edge_event_key p)
  unfolding edge_event_key
  edge_event_key-Still = of p.event_key
    where
      of : (key : Option String) → Still (event_key_of p key)
      of none = unfold event_key_of in throw-Still _
      of (some key) = unfold event_key_of in pure-Still _

  edge_origin-Still : Still (edge_origin p)
  unfolding edge_origin
  edge_origin-Still = of (p.parse_url p.env.edge_url)
    where
      of : (url : Option Url) → Still (edge_origin_of p url)
      of none = unfold edge_origin_of in throw-Still _
      of (some url) = unfold edge_origin_of in if-Still _ _ _ (pure-Still _) (throw-Still _)

  edge_token-Still : Still (edge_token p edge_api)
  unfolding edge_token
  edge_token-Still =
      >>=-Still _ _ edge_event_key-Still
        (λ key. >>=-Still _ _ (now-Still p) (λ issued. pure-Still _))

  send_push-Still : (rows : ℕ × List ℕ) → Still (send_push p rows)
  unfolding send_push
  send_push-Still (revision, fobs) = if-Still _ _ _ (throw-Still _) (
      >>=-Still _ _ edge_event_key-Still (λ key. >>=-Still _ _ edge_origin-Still (λ edge.
        >>=-Still _ _ edge_token-Still (λ token. >>=-Still _ _ (send-Still p _) pushed-Still))))

  pub push_fobs-Still : ((step : ℕ) (db : Database) → p.others step db ≡ db) → Still (push_fobs p)
  unfolding push_fobs
  push_fobs-Still quiet = if-Still _ _ _ (pure-Still _) (
      try_catch-Still _ _ (>>=-Still _ _ (query-Still p push_query quiet) send_push-Still)
        (λ e. pure-Still _))
