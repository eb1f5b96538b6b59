-- ===== src/Database/Effects.antt =====
-- What the triggers of a statement leave alone.
use thelab_ms.Base.{
  ℕ, ◌+◌, String, ◌≡◌, refl, ◌∙◌, ap, Bool, true, false, ◌&&◌, List, [], ◌∷◌, ◌==◌, Comparable,
  string_eq, nat_eq, bool_eq, option_eq, if◌then◌else◌, arith,
}
use thelab_ms.Rows.{Member, Scalar, text, discount_text, Details}
use thelab_ms.Database.Tables.{EdgeChanges, Database}
use thelab_ms.Database.Triggers.{
  log_event, scalar, flag_scalar, member_fob_changed, edge_member_change, changed, notes_updated,
  member_changed, after_update,
}
use thelab_ms.Database.Updates.{fire_updates}

-- Only history was written.
pub record Quiet (a b : Database) : Type 0 where
  pub members : b.members ≡ a.members
  pub edge_changes : b.edge_changes ≡ a.edge_changes
  pub fob_assignments : b.fob_assignments ≡ a.fob_assignments
  pub waivers : b.waivers ≡ a.waivers
  pub last_waiver : b.last_waiver ≡ a.last_waiver

Quiet-trans : {a b c : Database} → Quiet a b → Quiet b c → Quiet a c
Quiet-trans p q = record {
  members = q.members ∙ p.members;
  edge_changes = q.edge_changes ∙ p.edge_changes;
  fob_assignments = q.fob_assignments ∙ p.fob_assignments;
  waivers = q.waivers ∙ p.waivers;
  last_waiver = q.last_waiver ∙ p.last_waiver;
}

log_event-Quiet :
    (now : ℕ) (id type : String) (details : Details) (db : Database)
    → Quiet db (log_event now id type details db)
unfolding log_event
log_event-Quiet now id type details db = record {
  members = refl;
  edge_changes = refl;
  fob_assignments = refl;
  waivers = refl;
  last_waiver = refl;
}

if-Quiet : (b : Bool) {db d : Database} → Quiet db d → Quiet db (if b then db else d)
if-Quiet true q = record {
  members = refl;
  edge_changes = refl;
  fob_assignments = refl;
  waivers = refl;
  last_waiver = refl;
}
if-Quiet false q = q

changed-Quiet {ℓ} :
    {A : Type ℓ} ⦃e : Comparable A⦄ (now : ℕ) (id type : String) (value : A → Scalar) (old new : A)
    (db : Database)
    → Quiet db (changed now id type value old new db)
unfolding changed
changed-Quiet now id type value old new db =
    if-Quiet (old == new) (log_event-Quiet now id type _ db)

notes_updated-Quiet :
    (now : ℕ) (old new : Member) (db : Database) → Quiet db (notes_updated now old new db)
unfolding notes_updated
notes_updated-Quiet now old new db =
    if-Quiet (old.notes == new.notes) (log_event-Quiet now new.member_id "NotesUpdated" [] db)

pub member_changed-Quiet :
    (now : ℕ) (old new : Member) (db : Database) → Quiet db (member_changed now old new db)
unfolding member_changed
member_changed-Quiet now old new db =
    Quiet-trans (changed-Quiet now _ _ flag_scalar old.non_billable new.non_billable _) (
      Quiet-trans (changed-Quiet now _ _ flag_scalar old.legacy_billing new.legacy_billing _) (
        Quiet-trans (changed-Quiet now _ _ scalar old.discord_user_id new.discord_user_id _) (
          Quiet-trans (changed-Quiet now _ _ text old.discord_username new.discord_username _) (
            Quiet-trans (changed-Quiet now _ _ text old.discord_email new.discord_email _) (
              Quiet-trans (changed-Quiet now _ _ text old.billing_name new.billing_name _) (
                Quiet-trans (changed-Quiet now _ _ text old.billing_email new.billing_email _) (
                  Quiet-trans (changed-Quiet now _ _ text old.name_override new.name_override _) (
                    Quiet-trans (notes_updated-Quiet now old new _) (
                      Quiet-trans
                        (changed-Quiet now _ _ flag_scalar old.bill_annually new.bill_annually _)
                        (Quiet-trans
                          (changed-Quiet now _ _ text (discount_text old.discount_type)
                            (discount_text new.discount_type) _)
                          (Quiet-trans
                            (changed-Quiet now _ _ scalar old.stripe_customer_id
                              new.stripe_customer_id _)
                            (Quiet-trans
                              (changed-Quiet now _ _ scalar old.stripe_subscription_id
                                new.stripe_subscription_id _)
                              (changed-Quiet now _ _ scalar old.stripe_subscription_state
                                new.stripe_subscription_state _)))))))))))))

-- The test of `edge_member_change`.
abbrev pub same_access : Member → Member → Bool
same_access old new =
    old.fob_id == new.fob_id
    && (old.stripe_subscription_state == new.stripe_subscription_state
        && (old.non_billable == new.non_billable && old.legacy_billing == new.legacy_billing))

member_fob_changed-members :
    (now : ℕ) (old new : Member) (db : Database)
    → ((member_fob_changed now old new db).members ≡ db.members)
      × ((member_fob_changed now old new db).edge_changes ≡ db.edge_changes)
      × ((member_fob_changed now old new db).waivers ≡ db.waivers)
unfolding member_fob_changed
member_fob_changed-members now old new db = ground arith

edge_member_change-members :
    (old new : Member) (db : Database)
    → ((edge_member_change old new db).members ≡ db.members)
      × ((edge_member_change old new db).edge_changes.revision ≡ (
          if same_access old new then db.edge_changes.revision else db.edge_changes.revision + 1))
      × ((edge_member_change old new db).waivers ≡ db.waivers)
unfolding edge_member_change
edge_member_change-members old new db = ground arith

module _ (now : ℕ) (old new : Member) (db : Database) where
  pub after_update-members : (after_update now old new db).members ≡ db.members
  unfolding after_update
  after_update-members =
      let a = member_fob_changed now old new db in
      let b = edge_member_change old new a in
      (member_changed-Quiet now old new b).members
      ∙ (edge_member_change-members old new a).0
      ∙ (member_fob_changed-members now old new db).0

  pub after_update-revision :
      (after_update now old new db).edge_changes.revision
      ≡ (if same_access old new then db.edge_changes.revision else db.edge_changes.revision + 1)
  unfolding after_update
  after_update-revision =
      let a = member_fob_changed now old new db in
      let b = edge_member_change old new a in
      ap (λ (e : EdgeChanges). e.revision) (member_changed-Quiet now old new b).edge_changes
      ∙ (edge_member_change-members old new a).1
      ∙ ap (λ (e : EdgeChanges). if same_access old new then e.revision else e.revision + 1)
          (member_fob_changed-members now old new db).1

-- A row's triggers move the revision exactly if it changes in a column of `edge_member_change`.
pub fire_updates-members :
    (now : ℕ) (where_ : Member → Bool) (set : Member → Member) (ms : List Member) (db : Database)
    → (fire_updates now where_ set ms db).members ≡ db.members
unfolding fire_updates
fire_updates-members now where_ set [] db = refl
fire_updates-members now where_ set (m ∷ ms) db =
    fire_updates-members now where_ set ms _ ∙ one (where_ m)
  where
    one : (b : Bool) → (if b then after_update now m (set m) db else db).members ≡ db.members
    one true = after_update-members now m (set m) db
    one false = refl
