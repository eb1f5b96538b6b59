-- ===== src/Edge/Keys/Cached.antt =====
-- What the cache of signing keys answers (`signingKey` of site/src/edge.tsx).
use thelab_ms.Base.{
  String, List, [], ◌∷◌, ◌++◌, ◌≡◌, refl, sym, ap, ◌∙◌, subst, some, ◌==◌, string_eq, eq_iff, All,
  Bool-cases, Option-cases, inl, inr,
}
use thelab_ms.App.{Result}
use thelab_ms.Edge.Keys.{
  Runtime, SigningKey, read_key, KeyCache, cached_key, store_key, or_unconfigured, Isolate,
  fresh_isolate, ask_key, key_read, asked, ended, replaced, ReplacesIdle, KeySteps, none_yet,
  and_then,
}

All-without :
    (P : String → Type 0) (before after : List String) (s : String)
    → All P (before ++ s ∷ after)
    → P s × All P (before ++ after)
All-without P [] after s h = h
All-without P (x ∷ before) after s h =
    let (here, others) = All-without P before after s h.1 in (here, (h.0, others))

module _ {Key : Type 0} (r : Runtime Key) where
  abbrev IsRead : String × Result (SigningKey Key) → Type 0
  IsRead answer = answer.1 ≡ or_unconfigured (read_key r answer.0)

  abbrev Holds : KeyCache Key → Type 0
  Holds cache =
      (secret : String) (value : SigningKey Key)
      → cached_key secret cache ≡ some value
      → read_key r secret ≡ some value

  -- A cached key is the one that its secret reads as, and so is every answer; a call that waits began with
  -- the secret that is still there.
  record Faithful (i : Isolate Key) : Type 0 where
    cache : Holds i.cache
    reading : All (λ secret. secret ≡ i.secret) i.reading
    answered : All IsRead i.answered

  store_key-Holds :
      (secret : String) (cache : KeyCache Key)
      → Holds cache
      → Holds (store_key secret (read_key r secret) cache)
  unfolding store_key cached_key
  store_key-Holds secret cache h = elim (Option-cases (read_key r secret)) [
    | inl gone ↦ rw gone h
    | inr (value, is_read) ↦ rw is_read (λ other found e. elim (Bool-cases (secret == other)) [
      | inl same ↦
          subst (λ s. read_key r s ≡ some found) ((eq_iff secret other).0 same)
            (is_read ∙ rw same at e)
      | inr apart ↦ absurd (cc (rw apart at e))
    ])
  ]

  ask_key-Faithful : (i : Isolate Key) → Faithful i → Faithful (ask_key r i)
  unfolding ask_key
  ask_key-Faithful i f = elim (Option-cases (cached_key i.secret i.cache)) [
    | inl unknown ↦
        rw unknown (record { cache = f.cache; reading = (refl, f.reading); answered = f.answered })
    | inr (value, known) ↦ rw known (record {
      cache = f.cache;
      reading = f.reading;
      answered = (ap or_unconfigured (sym (f.cache i.secret value known)), f.answered);
    })
  ]

  key_read-Faithful :
      (before after : List String) (secret : String) (i : Isolate Key)
      → i.reading ≡ before ++ secret ∷ after
      → Faithful i
      → Faithful (key_read r secret (record i { reading = before ++ after }))
  unfolding key_read
  key_read-Faithful before after secret i e f =
      let (same, others) =
        All-without (λ s. s ≡ i.secret) before after secret
          (subst (All (λ s. s ≡ i.secret)) e f.reading) in
      record {
        cache =
            subst (λ s. Holds (store_key s (read_key r secret) i.cache)) same
              (store_key-Holds secret i.cache f.cache);
        reading = others;
        answered = (refl, f.answered);
      }

  replaced-Faithful :
      (secret : String) (i : Isolate Key)
      → i.reading ≡ []
      → Faithful i
      → Faithful (record i { secret = secret })
  replaced-Faithful secret i idle f = record {
    cache = f.cache;
    reading = subst (All (λ s. s ≡ secret)) (sym idle) tt;
    answered = f.answered;
  }

  carried :
      (i j : Isolate Key) (steps : KeySteps r i j) → ReplacesIdle r steps → Faithful i → Faithful j
  carried i _ (none_yet _) idle f = f
  carried i _ (and_then {j} before (asked _)) idle f =
      ask_key-Faithful j (carried i j before idle f)
  carried i _ (and_then {j} before (ended xs ys secret _ e)) idle f =
      key_read-Faithful xs ys secret j e (carried i j before idle f)
  carried i _ (and_then {j} before (replaced secret _)) idle f =
      replaced-Faithful secret j idle.1 (carried i j before idle.0 f)

  -- However many calls of `signingKey` an isolate makes for an environment, in whatever order they begin and
  -- end, and however often the secret is replaced while no call waits: each call gives exactly what reading
  -- the secret it began with gives, the key or the failure. The cache never answers with the key of another
  -- secret.
  pub KeySteps-answered :
      (secret : String) (i : Isolate Key) (steps : KeySteps r (fresh_isolate secret) i)
      → ReplacesIdle r steps
      → All (λ answer. answer.1 ≡ or_unconfigured (read_key r answer.0)) i.answered
  unfolding cached_key
  KeySteps-answered secret i steps idle =
      (carried (fresh_isolate secret) i steps idle
        (record { cache = λ other value e. absurd (cc); reading = tt; answered = tt })).answered
