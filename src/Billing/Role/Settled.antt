-- ===== src/Billing/Role/Settled.antt =====
-- When `syncDiscordRole` ends, and what Discord was last told then.
use thelab_ms.Base.{
  ℕ, zero, suc, ◌≤◌, String, ◌≡◌, ◌≢◌, refl, sym, ◌∙◌, ap, subst, Bool, true, false, Option, none,
  some, List, [], ◌∷◌, ◌++◌, string_eq, nat_eq, bool_eq, option_eq, if◌then◌else◌, arith, eq_iff,
  Bool-cases, inl, inr, option_beq_iff, bool_beq_iff,
}
use thelab_ms.Policy.{grants_membership}
use thelab_ms.App.{
  out_of_fuel, Result, ok, err, Reply, no_reply, reply, Platform, World, App, pure, ◌>>=◌,
  try_catch, query, Fetch, send, arrive,
}
use thelab_ms.App.Laws.{continue-eq-ok}
use thelab_ms.Clients.{discord, discord_request, provider, read_reply}
use thelab_ms.Billing.Role.{
  RoleRow, role_row, is_skipped, role_method, role_path, set_discord_role, has_moved, is_settled,
  next_round, role_loop, start_loop, sync_discord_role,
}

read_reply-ne-out_of_fuel : (service : String) (r : Reply) → read_reply service r ≢ err out_of_fuel
unfolding read_reply
read_reply-ne-out_of_fuel service no_reply = cc
read_reply-ne-out_of_fuel service (reply status text) = ground arith

module _ (p : Platform) where
  -- PUT or DELETE /guilds/../members/../roles/..
  abbrev pub role_request : Bool → String → Fetch
  role_request granted id = discord_request p (role_method p granted) (role_path p id)

  module _ (granted : Bool) (w : World) where
    pub record RoleCall (account : Option String) : Type 0 where
      pub db : (set_discord_role p account granted w).1.db ≡ w.db
      pub step : w.step ≤ (set_discord_role p account granted w).1.step
      pub fuelled : (set_discord_role p account granted w).0 ≢ err out_of_fuel
      pub sent :
          (id : String)
          → account ≡ some id
          → id ≢ ""
          → (set_discord_role p account granted w).0 ≡ ok tt
          → (set_discord_role p account granted w).1.sent ≡ w.sent ++ role_request granted id ∷ []

    pub set_discord_role_lem : (account : Option String) → RoleCall account
    unfolding set_discord_role is_skipped ◌>>=◌ try_catch discord provider send
    set_discord_role_lem none = record {
      db = refl;
      step = omega arith;
      fuelled = cc;
      sent = λ id e. cc;
    }
    set_discord_role_lem (some id) = record {
      db = ground arith;
      step = ground arith;
      fuelled =
          ground
            (arith, read_reply-ne-out_of_fuel "Discord" (p.fetch w.sent (role_request granted id)));
      sent = λ id' e ne done. ground (arith, eq_iff id "");
    }

module _ (p : Platform) where
  -- The last request tells Discord whether the account of the row has the role.
  abbrev pub Told : Option RoleRow → List Fetch → Type 0
  Told none sent = Unit
  Told (some row) sent =
      (id : String)
      → row.discord_user_id ≡ some id
      → id ≢ ""
      → (before : List Fetch) × (sent
          ≡ before ++ role_request p (grants_membership row.stripe_subscription_state) id ∷ [])

  -- The account and the grant that the round's first request was for.
  abbrev ToldFor : Option String → Bool → List Fetch → Type 0
  ToldFor account granted sent =
      (id : String)
      → account ≡ some id
      → id ≢ ""
      → (before : List Fetch) × (sent ≡ before ++ role_request p granted id ∷ [])

  module _ (member_id : String) (member : RoleRow) (again : RoleRow → App (Unit {0})) where
    abbrev pub clean_up : Option RoleRow → App (Unit {0})
    clean_up current =
        if has_moved p member current
        then set_discord_role p member.discord_user_id false
        else pure tt

    settled_columns :
        (c : RoleRow)
        → is_settled p member (some c) ≡ true
        → (c.discord_user_id ≡ member.discord_user_id)
          × (grants_membership c.stripe_subscription_state
              ≡ grants_membership member.stripe_subscription_state)
          × (has_moved p member (some c) ≡ false)
    unfolding is_settled has_moved
    settled_columns c h = ground (
      arith,
      option_beq_iff c.discord_user_id member.discord_user_id,
      bool_beq_iff (grants_membership c.stripe_subscription_state)
          (grants_membership member.stripe_subscription_state),
    )

    -- The end of a round: `w₂` is the state in which the row was read again.
    round-Told :
        (w₂ w₃ w' : World) (current : Option RoleRow)
        → role_row member_id w₂.db ≡ current
        → ToldFor member.discord_user_id
            (grants_membership member.stripe_subscription_state)
            w₂.sent
        → clean_up current w₂ ≡ (ok tt, w₃)
        → next_round p again member current w₃ ≡ (ok tt, w')
        → ((c : RoleRow) → again c w₃ ≡ (ok tt, w') → Told (role_row member_id w'.db) w'.sent)
        → Told (role_row member_id w'.db) w'.sent
    unfolding has_moved pure
    round-Told w₂ w₃ w' none row told cleaned h ih =
        let same : w₃ ≡ w' = cc in
        let kept = (set_discord_role_lem p false w₂ member.discord_user_id).db in
        let moved : w₃.db ≡ w₂.db = cc in
        subst (λ r. Told r w'.sent)
          (sym (
            ap (λ (v : World). role_row member_id v.db) (sym same)
            ∙ ap (role_row member_id) moved
            ∙ row))
          tt
    round-Told w₂ w₃ w' (some c) row told cleaned h ih =
        elim (Bool-cases (is_settled p member (some c))) [
          | inl settled ↦
              let (account, grant, here) = settled_columns c settled in
              let still : w₂ ≡ w₃ = cc (rw here at cleaned) in
              let same : w₃ ≡ w' = cc (rw settled at h) in
              subst (λ (v : World). Told (role_row member_id v.db) v.sent) (still ∙ same)
                (subst (λ r. Told r w₂.sent) (sym row)
                  (rw grant (λ id own ne. told id (sym account ∙ own) ne)))
          | inr unsettled ↦ ih c (rw unsettled at h)
        ]

  role_loop-Told :
      (fuel : ℕ) (member_id : String) (member : RoleRow) (w w' : World)
      → role_loop p fuel member_id member w ≡ (ok tt, w')
      → Told (role_row member_id w'.db) w'.sent
  unfolding role_loop ◌>>=◌ query
  role_loop-Told zero member_id member w w' h = cc
  role_loop-Told (suc fuel) member_id member w w' h =
      let granted = grants_membership member.stripe_subscription_state in
      let (_, w₁, e₁, h₁) =
        continue-eq-ok (set_discord_role p member.discord_user_id granted w) _ h in
      let w₂ = arrive p w₁ in
      let current = role_row member_id w₂.db in
      let (_, w₃, e₃, h₃) =
        continue-eq-ok
          ((if has_moved p member current
              then set_discord_role p member.discord_user_id false
              else pure tt)
            w₂)
          _ h₁ in
      round-Told member_id member (role_loop p fuel member_id) w₂ w₃ w' current refl
        (λ id account ne. (
          w.sent,
          ap (λ (r : Result (Unit {0}) × World). r.1.sent) (sym e₁)
              ∙ (set_discord_role_lem p granted w member.discord_user_id).sent id account ne
                  (ap (λ (r : Result (Unit {0}) × World). r.0) e₁),
        ))
        e₃ h₃ (λ c k. role_loop-Told fuel member_id c w₃ w' k)

  -- Whenever `syncDiscordRole` returns, whatever other requests did to the member meanwhile: the
  -- member is gone, or has no Discord account, or the last request that was sent to Discord gives the
  -- role to the account that the row names now if its state now grants membership, and takes it away
  -- if not.
  pub sync_discord_role-Told :
      (fuel : ℕ) (member_id : String) (w w' : World)
      → sync_discord_role p fuel member_id w ≡ (ok tt, w')
      → Told (role_row member_id w'.db) w'.sent
  unfolding sync_discord_role ◌>>=◌ query
  sync_discord_role-Told fuel member_id w w' h = started (role_row member_id (arrive p w).db) refl h
    where
      started :
          (row : Option RoleRow)
          → role_row member_id (arrive p w).db ≡ row
          → start_loop p (role_loop p fuel member_id) row (arrive p w) ≡ (ok tt, w')
          → Told (role_row member_id w'.db) w'.sent
      started none e k =
          let same : arrive p w ≡ w' = cc in
          subst (λ (v : World). Told (role_row member_id v.db) v.sent) same
            (subst (λ r. Told r (arrive p w).sent) (sym e) tt)
      started (some member) e k = role_loop-Told fuel member_id member (arrive p w) w' k
