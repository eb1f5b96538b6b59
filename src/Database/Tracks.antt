-- ===== src/Database/Tracks.antt =====
-- How the tables' statements move the revision (site/migrations).
use thelab_ms.Base.{
  ℕ, ◌+◌, ◌≤◌, ◌<◌, String, ◌≡◌, refl, ◌∙◌, ap, Bool, true, false, not, List, [], ◌∷◌, ◌++◌, map,
  ◌==◌, string_eq, nat_eq, bool_eq, option_eq, if◌then◌else◌, keep, arith,
}
use thelab_ms.Rows.{MemberEvent, FobAssignment, Member, Waiver}
use thelab_ms.Database.Tables.{Database}
use thelab_ms.Database.Triggers.{bump, after_insert, before_delete}
use thelab_ms.Database.Updates.{
  done, fire_updates, updated, commit, update_members, insert_member, delete_member, insert_waiver,
  delete_rows, set_null, unlink_waivers, unlink,
}
use thelab_ms.Database.Revision.{
  enabled_fobs, revision, fire_updates-revision_le, fire_updates-enabled_fobs,
}
use thelab_ms.Database.Effects.{fire_updates-members}

-- The revision never falls, and while it stands still the authorized fobs are the same.
pub record Tracks (a b : Database) : Type 0 where
  pub grows : revision a ≤ revision b
  pub faithful : revision b ≡ revision a → enabled_fobs b.members ≡ enabled_fobs a.members

pub Tracks-refl : (db : Database) → Tracks db db
Tracks-refl db = record { grows = omega arith; faithful = λ _. refl }

-- A statement that moves the revision needs no more.
pub Tracks-of_lt : {a b : Database} → revision a < revision b → Tracks a b
Tracks-of_lt h = record { grows = omega arith; faithful = λ e. absurd (omega arith) }

pub Tracks-trans : {a b c : Database} → Tracks a b → Tracks b c → Tracks a c
Tracks-trans {a} {b} {c} p q = record {
  grows = omega (arith, p.grows, q.grows);
  faithful = λ e.
      let bc : revision c ≡ revision b = omega (arith, p.grows, q.grows) in
      let ab : revision b ≡ revision a = omega (arith, p.grows, q.grows) in
      q.faithful bc ∙ p.faithful ab;
}

pub commit-eq-done : (a b : Database) → commit a ≡ done b → b ≡ a
unfolding commit
commit-eq-done a b h = ground arith

pub update_members-Tracks :
    (now : ℕ) (where_ : Member → Bool) (set : Member → Member) (a b : Database)
    → ((m : Member) → (set m).waiver_signed ≡ m.waiver_signed)
    → update_members now where_ set a ≡ done b
    → Tracks a b
unfolding update_members
update_members-Tracks now where_ set a b keeps h =
    let a' = record a { members = map (updated where_ set) a.members } in
    let e = commit-eq-done (fire_updates now where_ set a.members a') b h in
    rw e (record {
      grows = fire_updates-revision_le now where_ set a.members a';
      faithful = λ same.
          rw (fire_updates-members now where_ set a.members a')
            (fire_updates-enabled_fobs now where_ set keeps a.members a' same);
    })

after_insert-revision :
    (now : ℕ) (m : Member) (a : Database) → revision (after_insert now m a) ≡ revision a + 1
unfolding after_insert
after_insert-revision now m a = ground arith

pub insert_member-Tracks :
    (now : ℕ) (m : Member) (a b : Database) → insert_member now m a ≡ done b → Tracks a b
unfolding insert_member
insert_member-Tracks now m a b h =
    let e = commit-eq-done _ b h in
    Tracks-of_lt (
      omega (
        arith,
        ap revision e,
        after_insert-revision now m (record a { members = a.members ++ m ∷ [] }),
      ))

pub insert_waiver-Tracks :
    (now : ℕ) (name email id : String) (a : Database) → Tracks a (insert_waiver now name email id a)
unfolding insert_waiver
insert_waiver-Tracks now name email id a = Tracks-of_lt (omega arith)

unlink_waivers_lem :
    (id : String) (ws : List Waiver) (db : Database)
    → ((unlink_waivers id ws db).members ≡ db.members)
      × (revision db ≤ revision (unlink_waivers id ws db))
unfolding unlink_waivers bump
unlink_waivers_lem id [] db = (refl, omega arith)
unlink_waivers_lem id (w ∷ ws) db =
    ground (arith, unlink_waivers_lem id ws db, unlink_waivers_lem id ws (bump db))

-- The row's own deletion moves the revision, whatever its waivers add.
delete_row_lem :
    (now : ℕ) (id : String) (m : Member) (db : Database)
    → ((set_null id (before_delete now m db)).members ≡ db.members)
      × (revision db < revision (set_null id (before_delete now m db)))
unfolding set_null before_delete
delete_row_lem now id m db =
    let b = before_delete now m db in
    let c = record b {
      waivers = map {A = Waiver} (λ w. record w { member_id = unlink id w.member_id }) b.waivers;
      member_events =
          map {A = MemberEvent} (λ e. record e { member_id = unlink id e.member_id })
            b.member_events;
      fob_assignments =
          map {A = FobAssignment} (λ a. record a { member_id = unlink id a.member_id })
            b.fob_assignments;
    } in
    let u = unlink_waivers_lem id b.waivers c in (u.0, omega (arith, u.1))

pub delete_rows_lem :
    (now : ℕ) (id : String) (ms : List Member) (db : Database)
    → ((delete_rows now id ms db).members ≡ db.members)
      × (revision db ≤ revision (delete_rows now id ms db))
      × (revision (delete_rows now id ms db) ≡ revision db
          → keep (λ m. not (m.member_id == id)) ms ≡ ms)
unfolding delete_rows
delete_rows_lem now id [] db = (refl, omega arith, λ _. refl)
delete_rows_lem now id (m ∷ ms) db =
    choose (m.member_id == id) (delete_row_lem now id m db)
      (delete_rows_lem now id ms (set_null id (before_delete now m db)))
      (delete_rows_lem now id ms db)
  where
    rest : List Member
    rest = keep (λ x. not (x.member_id == id)) ms

    gone : Database
    gone = set_null id (before_delete now m db)

    Claim : Database → Database → Bool → Type 0
    Claim d out b =
        (out.members ≡ db.members)
        × (revision db ≤ revision out)
        × (revision out ≡ revision db → (if not b then m ∷ rest else rest) ≡ m ∷ ms)

    choose :
        (b : Bool)
        → (gone.members ≡ db.members) × (revision db < revision gone)
        → ((delete_rows now id ms gone).members ≡ gone.members)
          × (revision gone ≤ revision (delete_rows now id ms gone))
          × (revision (delete_rows now id ms gone) ≡ revision gone → rest ≡ ms)
        → ((delete_rows now id ms db).members ≡ db.members)
          × (revision db ≤ revision (delete_rows now id ms db))
          × (revision (delete_rows now id ms db) ≡ revision db → rest ≡ ms)
        → Claim db (delete_rows now id ms (if b then gone else db)) b
    choose true (same, lt) (ih, le, _) _ =
        (ih ∙ same, omega (arith, lt, le), λ h. absurd (omega (arith, lt, le)))
    choose false _ _ (ih, le, keeps) = (ih, le, λ h. ap (λ l. m ∷ l) (keeps h))

pub delete_member-Tracks :
    (now : ℕ) (id : String) (a : Database) → Tracks a (delete_member now id a)
unfolding delete_member
delete_member-Tracks now id a =
    let a' = record a { members = keep (λ m. not (m.member_id == id)) a.members } in
    record {
      grows = (delete_rows_lem now id a.members a').1;
      faithful = λ e.
          rw ((delete_rows_lem now id a.members a').0)
            (ap enabled_fobs ((delete_rows_lem now id a.members a').2 e));
    }
