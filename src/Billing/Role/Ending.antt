-- ===== src/Billing/Role/Ending.antt =====
-- When the loop of `syncDiscordRole` (site/src/billing.ts) ends.
use thelab_ms.Base.{
  ℕ, zero, suc, ◌+◌, ◌≤◌, ◌<◌, String, ◌≡◌, ◌≢◌, refl, ◌∙◌, ap, subst, Bool, true, false, Option,
  none, some, string_eq, nat_eq, bool_eq, option_eq, if◌then◌else◌, arith, Bool-cases, inl, inr,
  option_beq_iff, bool_beq_iff,
}
use native.Mathlib.Decide.{dec_le}
use thelab_ms.Policy.{grants_membership}
use thelab_ms.Database.{Database}
use thelab_ms.App.{
  out_of_fuel, Result, err, Platform, World, App, pure, ◌>>=◌, query, continue, arrive,
}
use thelab_ms.App.Laws.{continue-eq-err}
use thelab_ms.Billing.Role.Settled.{set_discord_role_lem, clean_up}
use thelab_ms.Billing.Role.{
  RoleRow, role_row, set_discord_role, has_moved, is_settled, next_round, role_loop, start_loop,
  sync_discord_role,
}

module _ (p : Platform) (member_id : String) (n : ℕ)
    (quiet : (k : ℕ) (db : Database)
      → n ≤ k
      → role_row member_id (p.others k db) ≡ role_row member_id db) where
  is_settled_self : (member : RoleRow) → is_settled p member (some member) ≡ true
  unfolding is_settled
  is_settled_self member = ground (
    arith,
    option_beq_iff member.discord_user_id member.discord_user_id,
    bool_beq_iff (grants_membership member.stripe_subscription_state)
        (grants_membership member.stripe_subscription_state),
  )

  clean_up_lem :
      (b : Bool) (account : Option String) (w w' : World) (r : Result (Unit {0}))
      → (if b then set_discord_role p account false else pure tt) w ≡ (r, w')
      → (w'.db ≡ w.db) × (w.step ≤ w'.step) × (r ≢ err out_of_fuel)
  unfolding pure
  clean_up_lem true account w w' r h =
      let call = set_discord_role_lem p false w account in
      let now : (set_discord_role p account false w).1 ≡ w' =
        ap (λ (x : Result (Unit {0}) × World). x.1) h in
      (
        subst (λ (v : World). v.db ≡ w.db) now call.db,
        subst (λ (v : World). w.step ≤ v.step) now call.step,
        λ e. call.fuelled (ap (λ (x : Result (Unit {0}) × World). x.0) h ∙ e),
      )
  clean_up_lem false account w w' r h =
      let same : w ≡ w' = cc in
      (
        subst (λ (v : World). v.db ≡ w.db) same refl,
        subst (λ (v : World). w.step ≤ v.step) same (omega arith),
        λ e. cc,
      )

  module _ (member : RoleRow) (again : RoleRow → App (Unit {0})) (w₁ w' : World) where
    abbrev w₂ : World
    w₂ = arrive p w₁

    -- A round that reads the row when it is quiet is the last one.
    round_end :
        (current : Option RoleRow) (w₃ : World)
        → role_row member_id w₁.db ≡ some member
        → role_row member_id w₂.db ≡ current
        → next_round p again member current w₃ ≡ (err out_of_fuel, w')
        → (c : RoleRow) × (w₁.step < n)
          × (role_row member_id w₂.db ≡ some c)
          × (again c w₃ ≡ (err out_of_fuel, w'))
    unfolding pure
    round_end none w₃ row e h = cc
    round_end (some c) w₃ row e h = elim (Bool-cases (is_settled p member (some c))) [
      | inl settled ↦ cc (rw settled at h)
      | inr unsettled ↦ (
        c,
        elim (dec_le n w₁.step) [
          | yes late ↦
              let same : c ≡ member = cc (quiet w₁.step w₁.db late) in
              absurd (
                cc (
                  is_settled_self member,
                  subst (λ x. is_settled p member (some x) ≡ false) same unsettled,
                ))
          | no late ↦ omega arith
        ],
        e,
        rw unsettled at h,
      )
    ]

    round-fuelled :
        role_row member_id w₁.db ≡ some member
        → continue
            (clean_up p member_id member again (role_row member_id w₂.db) w₂)
            (λ _. next_round p again member (role_row member_id w₂.db))
          ≡ (err out_of_fuel, w')
        → ((c : RoleRow) (w₃ : World)
            → w₁.step < n
            → role_row member_id w₃.db ≡ some c
            → w₁.step < w₃.step
            → again c w₃ ≢ (err out_of_fuel, w'))
        → ⊥
    round-fuelled row h next =
        elim (continue-eq-err (clean_up p member_id member again (role_row member_id w₂.db) w₂) _
          h) [
            | inl e ↦
                (clean_up_lem (has_moved p member (role_row member_id w₂.db)) member.discord_user_id
                    w₂ _ _ refl).2
                  e
            | inr (_, w₃, e₃, h₃) ↦
                let (kept, later, _) =
                  clean_up_lem (has_moved p member (role_row member_id w₂.db))
                    member.discord_user_id w₂ w₃ _ e₃ in
                let (c, late, row₂, k) = round_end (role_row member_id w₂.db) w₃ row refl h₃ in
                next c w₃ late (ap (role_row member_id) kept ∙ row₂) (omega (arith, later)) k
          ]

  role_loop-fuelled :
      (fuel : ℕ) (member : RoleRow) (w w' : World)
      → role_row member_id w.db ≡ some member
      → n < w.step + fuel
      → 0 < fuel
      → role_loop p fuel member_id member w ≢ (err out_of_fuel, w')
  unfolding role_loop ◌>>=◌ query
  role_loop-fuelled zero member w w' row enough more h = omega arith
  role_loop-fuelled (suc fuel) member w w' row enough more h =
      let granted = grants_membership member.stripe_subscription_state in
      let call = set_discord_role_lem p granted w member.discord_user_id in
      elim (continue-eq-err (set_discord_role p member.discord_user_id granted w) _ h) [
        | inl e ↦ call.fuelled e
        | inr (_, w₁, e₁, h₁) ↦
            let now : (set_discord_role p member.discord_user_id granted w).1 ≡ w₁ =
              ap (λ (x : Result (Unit {0}) × World). x.1) e₁ in
            let later = subst (λ (v : World). w.step ≤ v.step) now call.step in
            let kept = subst (λ (v : World). v.db ≡ w.db) now call.db in
            round-fuelled member (role_loop p fuel member_id) w₁ w'
              (ap (role_row member_id) kept ∙ row) h₁
              (λ c w₃ late row₃ after k.
                role_loop-fuelled fuel c w₃ w' row₃ (omega (arith, late, after, later))
                  (omega (arith, late, later)) k)
      ]

-- If from some awaited call `n` on no other request changes the member's account or subscription state,
-- a loop that is allowed `fuel` rounds, at least one and with `n ≤ step + fuel`, ends by the source's own
-- returns.
pub sync_discord_role-fuelled :
    (p : Platform) (member_id : String) (n fuel : ℕ) (w : World)
    → ((k : ℕ) (db : Database) → n ≤ k → role_row member_id (p.others k db) ≡ role_row member_id db)
    → n ≤ w.step + fuel
    → 0 < fuel
    → (sync_discord_role p fuel member_id w).0 ≢ err out_of_fuel
unfolding sync_discord_role ◌>>=◌ query
sync_discord_role-fuelled p member_id n fuel w quiet enough more h =
    started (role_row member_id (arrive p w).db) refl h
  where
    started :
        (row : Option RoleRow)
        → role_row member_id (arrive p w).db ≡ row
        → (start_loop p (role_loop p fuel member_id) row (arrive p w)).0 ≡ err out_of_fuel
        → ⊥
    started none e k = cc
    started (some member) e k =
        role_loop-fuelled p member_id n quiet fuel member (arrive p w)
          (role_loop p fuel member_id member (arrive p w)).1 e (omega arith) more
          (ap (λ r. (r, (role_loop p fuel member_id member (arrive p w)).1)) k)
