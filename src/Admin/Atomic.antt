-- ===== src/Admin/Atomic.antt =====
-- An edit of a member that fails (`updateMember` of site/src/admin.tsx).
use thelab_ms.Base.{
  ℕ, String, ◌≡◌, ◌≢◌, refl, sym, ap, ◌∙◌, Bool, true, false, ◌&&◌, not, arith, Option-cases,
  Option, none, some, List, [], ◌∷◌, map, ◌==◌, string_eq, nat_eq, option_eq, any, find, All,
  Bool-cases, inl, inr,
}
use thelab_ms.Rows.{Member}
use thelab_ms.Database.{Database, Edit, done, has_id, edit_member, edit_row, exec, updated}
use thelab_ms.Database.Tracks.{commit-eq-done}
use thelab_ms.Database.Unmatched.{update_members_none, update_members-members}
use thelab_ms.App.{
  Failure, http_error, Result, ok, err, Platform, World, App, pure, throw, continue, ◌>>=◌, ◌>>◌,
}
use thelab_ms.App.Atomic.{
  Still, Atomic, pure-Still, throw-Still, send-Still, if-Still, if-Atomic, throw-Atomic, >>=-Still,
  >>=-Atomic, execute-Atomic,
}
use thelab_ms.Clients.{provider, discord, stripe, guild_username}
use thelab_ms.Edge.{push_fobs}
use thelab_ms.Edge.Push.{push_fobs-PushedAll}
use thelab_ms.Admin.Editing.{
  conflict, stale_form, Edited, new_username, edited_username, check_customer, edited_row,
  found_row, write_edit, unlinks_discord, update_member,
}

module _ (p : Platform) where
  guild_username-Still : (id : String) → Still (guild_username p id)
  unfolding guild_username discord provider throw
  guild_username-Still id =
      >>=-Still _ _
        (if-Still _ _ _ (throw-Still _)
          (>>=-Still _ _ (send-Still p _) (λ answer. record { still = λ w. refl })))
        (λ member. record { still = λ w. refl })

  edited_username-Still : (member : Member) (value : Edit) → Still (edited_username p member value)
  edited_username-Still member value =
      if-Still _ _ _ (pure-Still _) (changed member value.discord_user_id)
    where
      changed : (member : Member) (id : Option String) → Still (new_username p member id)
      changed member none = pure-Still _
      changed member (some id) = guild_username-Still id

  check_customer-Still :
      (changed : Bool) (customer : Option String) → Still (check_customer p changed customer)
  unfolding stripe provider
  check_customer-Still true (some customer) =
      >>=-Still _ _
        (if-Still _ _ _ (throw-Still _)
          (>>=-Still _ _ (send-Still p _) (λ answer. record { still = λ w. refl })))
        (λ reply. if-Still _ _ _ (throw-Still _) (pure-Still _))
  check_customer-Still true none = pure-Still _
  check_customer-Still false customer = pure-Still _

  kept_row :
      (id : String) (q : Member → Bool) (set : Member → Member) (ms : List Member)
      → ((m : Member) → has_id id (set m) ≡ has_id id m)
      → ((m : Member) → q m ≡ true → has_id id m ≡ true)
      → any q ms ≡ true
      → find (has_id id) (map (updated q set) ms) ≢ none
  kept_row id q set [] same own h = cc
  kept_row id q set (m ∷ ms) same own h = elim (Bool-cases (q m)) [
    | inl hit ↦ rw (hit, same m, own m hit) (λ e. cc)
    | inr miss ↦ rw miss (elim (Bool-cases (has_id id m)) [
      | inl mine ↦ rw mine (λ e. cc)
      | inr other ↦ rw other (kept_row id q set ms same own (rw miss at h))
    ])
  ]

  edit_row-id :
      (id : String) (value : Edit) (account : Option String) (customer : Bool) (m : Member)
      → has_id id (edit_row value account customer m) ≡ has_id id m
  unfolding exec
  edit_row-id id value account customer m = ground arith

  none_match : (q : Member → Bool) (ms : List Member) → any q ms ≡ false → All (λ m. q m ≡ false) ms
  none_match q [] h = tt
  none_match q (m ∷ ms) h = (ground (arith, h), none_match q ms (ground (arith, h)))

  module _ (member : Member) (value : Edit) where
    abbrev is_current : Member → Bool
    is_current m = has_id member.member_id m && m.metadata_version == value.metadata_version

    -- After the statement: the fobs are pushed, and the edit is told.
    abbrev told : Bool → Bool → Member → App Edited
    told discord_changed customer_changed row = do
      push_fobs p
      pure (record {
        discord_changed = discord_changed;
        customer_changed = customer_changed;
        row = row;
      })

    told_fine :
        (account customer : Bool) (row : Member) (w w' : World) (e : Failure)
        → told account customer row w ≢ (err e, w')
    unfolding ◌>>=◌ pure
    told_fine account customer row w w' e h = fine (push_fobs p w) (push_fobs-PushedAll p w).0 h
      where
        fine :
            (r : Result (Unit {0}) × World)
            → r.0 ≡ ok tt
            → continue {B = Edited} r (λ u.
              pure (record { discord_changed = account; customer_changed = customer; row = row }))
              ≢ (err e, w')
        fine (ok u, w₁) k h = cc
        fine (err e', w₁) k h = cc

    after_edit :
        (discord_changed customer_changed : Bool) (account : Option String) (customer : Bool)
        (now : ℕ) (a : Database) (w w' : World) (e : Failure)
        → exec now (edit_member value account customer member.member_id) a ≡ done w.db
        → (found_row (edited_row member value.metadata_version a w.db)
              >>= told discord_changed customer_changed)
            w
          ≡ (err e, w')
        → w'.db ≡ a
    unfolding exec ◌>>=◌ throw pure
    after_edit discord_changed customer_changed account customer now a w w' e d x =
        elim (Bool-cases (any is_current a.members)) [
          | inl hit ↦ elim (Option-cases (find (has_id member.member_id) w.db.members)) [
            | inl gone ↦ absurd (
                kept_row member.member_id is_current (edit_row value account customer) a.members
                  (edit_row-id member.member_id value account customer)
                  (λ m current. ground (arith, current)) hit
                  (rw (update_members-members now is_current _ a w.db d) at gone))
            | inr (row, here) ↦
                absurd (told_fine discord_changed customer_changed row w w' e (rw (hit, here) at x))
          ]
          | inr miss ↦
              let same : w.db ≡ a = commit-eq-done a w.db (
                sym (update_members_none now is_current _ a (none_match is_current a.members miss))
                ∙ d) in
              let y = rw miss at x in ap (λ (r : Result Edited × World). r.1.db) (sym y) ∙ same
        ]

    write_edit-Atomic :
        ((step : ℕ) (db : Database) → p.others step db ≡ db) → Atomic (write_edit p member value)
    write_edit-Atomic quiet = >>=-Atomic _ _ (edited_username-Still member value) (λ username.
        >>=-Atomic _ _ (check_customer-Still _ value.stripe_customer_id) (λ u.
          execute-Atomic p conflict _ _ _ quiet
            (λ now a w w' e d x. after_edit _ _ _ _ now a w w' e d x)))

  -- When no other request writes meanwhile and `updateMember` throws, at whatever point of its checks, its
  -- calls of Discord and Stripe and its UPDATE, the database is as it was: an edit is saved whole or not
  -- at all, and once it is saved `updateMember` does not fail.
  pub update_member-Atomic :
      (member : Member) (value : Option Edit)
      → ((step : ℕ) (db : Database) → p.others step db ≡ db)
      → Atomic (update_member p member value)
  unfolding update_member
  update_member-Atomic member none quiet = throw-Atomic _
  update_member-Atomic member (some value) quiet =
      if-Atomic (not (member.metadata_version == value.metadata_version)) _ _
        (throw-Atomic stale_form)
        (if-Atomic (unlinks_discord member.discord_user_id value.discord_user_id) _ _
          (throw-Atomic (
            http_error 400
              "A linked Discord account can be transferred to another account, but not removed."))
          (write_edit-Atomic member value quiet))
