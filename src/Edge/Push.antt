-- ===== src/Edge/Push.antt =====
-- What `pushFobs` (site/src/edge.tsx) sends to the edge.
use thelab_ms.Base.{
  ℕ, zero, suc, ◌+◌, ◌/◌, ◌≤◌, ◌<◌, String, ◌≡◌, ◌≢◌, refl, ◌⊎◌, inl, inr, ◌&&◌, some, List, [],
  ◌∷◌, ◌++◌, ◌==◌, string_eq, nat_eq, take, length, ltb, arith, Bool-cases, Option-cases, eq_iff,
  ap, subst, ◌∙◌, sym,
}
use thelab_ms.Database.{Database}
use thelab_ms.Database.Revision.{enabled_fobs, revision}
use thelab_ms.App.{ok, Fetch, Url, Platform, World, App, pure, ◌>>=◌, query, send, now, arrive}
use thelab_ms.App.Laws.{swallow_lem}
use thelab_ms.Edge.{
  sort_fobs, pushed, edge_origin, edge_event_key, edge_api, edge_claims, edge_token, push_request,
  push_query, send_push, push_fobs,
}

take_all : (n : ℕ) (xs : List ℕ) → length (take n xs) < n → take n xs ≡ xs
take_all zero xs h = absurd (omega arith)
take_all (suc n) [] h = refl
take_all (suc n) (x ∷ xs) h = ap (λ l. x ∷ l) (take_all n xs (omega arith))

length-take_of_le : (n : ℕ) (xs : List ℕ) → length xs ≤ n → take n xs ≡ xs
length-take_of_le zero [] h = refl
length-take_of_le zero (x ∷ xs) h = absurd (omega arith)
length-take_of_le (suc n) [] h = refl
length-take_of_le (suc n) (x ∷ xs) h = ap (λ l. x ∷ l) (length-take_of_le n xs (omega arith))

module _ (p : Platform) where
  abbrev request_at : ℕ → ℕ → List ℕ → String → Fetch
  request_at step revision fobs key =
      push_request p p.env.edge_url (p.sign_claims (edge_claims p edge_api (p.clock step / 1000)))
        (record { revision = revision; fobs = fobs; key = key })

  abbrev Sent : ℕ → List ℕ → World → List Fetch → Type 0
  Sent revision fobs w sent =
      (key : String) × (p.event_key ≡ some key)
      × (length fobs ≤ 512)
      × (sent ≡ w.sent ++ request_at w.step revision fobs key ∷ [])

  send_push-sent :
      (revision : ℕ) (fobs : List ℕ) (w : World)
      → ((send_push p (revision, fobs) w).1.sent ≡ w.sent)
        ⊎ Sent revision fobs w (send_push p (revision, fobs) w).1.sent
  unfolding send_push edge_event_key edge_origin edge_token now send pushed ◌>>=◌
  send_push-sent revision fobs w = elim (Bool-cases (ltb 512 (length fobs))) [
    | inl e ↦ inl (ground arith)
    | inr e ↦ elim (Option-cases p.event_key) [
      | inl n ↦ inl (ground arith)
      | inr (key, k) ↦ elim (Option-cases (p.parse_url p.env.edge_url)) [
        | inl n ↦ inl (ground arith)
        | inr (url, u) ↦
            elim (Bool-cases (url.protocol == "https:" && url.origin == p.env.edge_url)) [
              | inl good ↦
                  inr (key, k, ground arith, ground (arith, eq_iff url.origin p.env.edge_url))
              | inr bad ↦ inl (ground arith)
            ]
      ]
    ]
  ]

  -- Under the conditions that `pushFobs` checks, the request is made.
  send_push-sends :
      (revision : ℕ) (fobs : List ℕ) (w : World) (key : String) (url : Url)
      → length fobs ≤ 512
      → p.event_key ≡ some key
      → p.parse_url p.env.edge_url ≡ some url
      → url.protocol ≡ "https:"
      → url.origin ≡ p.env.edge_url
      → (send_push p (revision, fobs) w).1.sent ≡ w.sent ++ request_at w.step revision fobs key ∷ []
  unfolding send_push edge_event_key edge_origin edge_token now send pushed ◌>>=◌
  send_push-sends revision fobs w key url short k u secure same =
      ground (arith, eq_iff url.protocol "https:", eq_iff url.origin p.env.edge_url)

module _ (p : Platform) (w : World) where
  -- The database that the push reads.
  abbrev pub read_db : Database
  read_db = p.others w.step w.db

  abbrev pub full_push : String → Fetch
  full_push =
      request_at p (w.step + 1) (revision read_db) (sort_fobs (enabled_fobs read_db.members))

  -- A push that is sent is never cut off by the LIMIT: the list is complete, and fits the edge.
  abbrev pub PushedAll : List Fetch → Type 0
  PushedAll sent =
      (key : String) × (p.event_key ≡ some key)
      × (length (sort_fobs (enabled_fobs read_db.members)) ≤ 512)
      × (sent ≡ w.sent ++ full_push key ∷ [])

  attempt : App (Unit {0})
  attempt = do rows ← query p push_query; send_push p rows

  attempt-sent : ((attempt w).1.sent ≡ w.sent) ⊎ PushedAll (attempt w).1.sent
  unfolding attempt query ◌>>=◌
  attempt-sent =
      let fobs = take 513 (sort_fobs (enabled_fobs read_db.members)) in
      elim (send_push-sent p (revision read_db) fobs (arrive p w)) [
        | inl none_sent ↦ inl none_sent
        | inr (key, k, short, all) ↦
            let whole =
              take_all 513 (sort_fobs (enabled_fobs read_db.members)) (omega (arith, short)) in
            inr (
              key,
              k,
              subst (λ l. length l ≤ 512) whole short,
              subst
                  (λ l.
                    (send_push p (revision read_db, fobs) (arrive p w)).1.sent
                    ≡ w.sent ++ request_at p (w.step + 1) (revision read_db) l key ∷ [])
                  whole all,
            )
      ]

  -- `pushFobs` never throws. It sends nothing, or one request with the revision and all the enabled
  -- fobs, at most 512 of them, as one read of the database gives them, in ascending order.
  pub push_fobs-PushedAll :
      ((push_fobs p w).0 ≡ ok tt)
      × (((push_fobs p w).1.sent ≡ w.sent) ⊎ PushedAll (push_fobs p w).1.sent)
  unfolding push_fobs attempt
  push_fobs-PushedAll = elim (Bool-cases (p.env.edge_url == "")) [
    | inl unset ↦ rw unset (unfold pure in (refl, inl refl))
    | inr set ↦
        let (fine, same) = swallow_lem attempt w in
        rw set (
          fine,
          elim attempt-sent [
            | inl none_sent ↦ inl (ap (λ (v : World). v.sent) same ∙ none_sent)
            | inr (key, k, short, all) ↦ inr (key, k, short, ap (λ (v : World). v.sent) same ∙ all)
          ],
        )
  ]

  -- With a secure edge URL, a signing key and at most 512 enabled fobs, `pushFobs` does send them all.
  pub push_fobs-sends :
      (key : String) (url : Url)
      → p.env.edge_url ≢ ""
      → length (sort_fobs (enabled_fobs read_db.members)) ≤ 512
      → p.event_key ≡ some key
      → p.parse_url p.env.edge_url ≡ some url
      → url.protocol ≡ "https:"
      → url.origin ≡ p.env.edge_url
      → (push_fobs p w).1.sent ≡ w.sent ++ full_push key ∷ []
  unfolding push_fobs attempt query ◌>>=◌
  push_fobs-sends key url set short k u secure same = elim (Bool-cases (p.env.edge_url == "")) [
    | inl unset ↦ absurd (set ((eq_iff p.env.edge_url "").0 unset))
    | inr unequal ↦
        let fobs = take 513 (sort_fobs (enabled_fobs read_db.members)) in
        let whole =
          length-take_of_le 513 (sort_fobs (enabled_fobs read_db.members)) (omega (arith, short)) in
        rw unequal (
          ap (λ (v : World). v.sent) (swallow_lem attempt w).1
          ∙ send_push-sends p (revision read_db) fobs (arrive p w) key url
              (subst (λ l. length l ≤ 512) (sym whole) short) k u secure same
          ∙ ap (λ l. w.sent ++ request_at p (w.step + 1) (revision read_db) l key ∷ []) whole)
  ]
