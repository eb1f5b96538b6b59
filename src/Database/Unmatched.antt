-- ===== src/Database/Unmatched.antt =====
-- An UPDATE whose WHERE clause no row meets, and the rows after any UPDATE or INSERT.
use thelab_ms.Base.{ℕ, ◌≡◌, refl, ◌∙◌, ap, Bool, false, List, [], ◌∷◌, ◌++◌, map, arith, All}
use thelab_ms.Rows.{Member}
use thelab_ms.Database.Tables.{Database}
use thelab_ms.Database.Triggers.{after_insert}
use thelab_ms.Database.Updates.{insert_member, done, commit, update_members, updated, fire_updates}
use thelab_ms.Database.Effects.{fire_updates-members}
use thelab_ms.Database.Tracks.{commit-eq-done}

module _ (now : ℕ) (where_ : Member → Bool) (set : Member → Member) where
  fire_updates_none :
      (ms : List Member) (db : Database)
      → All (λ m. where_ m ≡ false) ms
      → fire_updates now where_ set ms db ≡ db
  unfolding fire_updates
  fire_updates_none [] db h = refl
  fire_updates_none (m ∷ ms) db h = rw (h.0) (fire_updates_none ms db h.1)

  map-updated_none :
      (ms : List Member) → All (λ m. where_ m ≡ false) ms → map (updated where_ set) ms ≡ ms
  map-updated_none [] h = refl
  map-updated_none (m ∷ ms) h = rw (h.0) (ap (λ l. m ∷ l) (map-updated_none ms h.1))

  -- An UPDATE whose WHERE clause no row meets changes nothing.
  pub update_members_none :
      (db : Database)
      → All (λ m. where_ m ≡ false) db.members
      → update_members now where_ set db ≡ commit db
  unfolding update_members
  update_members_none db h =
      rw (map-updated_none db.members h) (rw (fire_updates_none db.members db h))

pub commit-done : (a b : Database) → commit a ≡ done b → commit b ≡ done b
unfolding commit
commit-done a b h = ground arith

pub update_members-members :
    (now : ℕ) (where_ : Member → Bool) (set : Member → Member) (a b : Database)
    → update_members now where_ set a ≡ done b
    → b.members ≡ map (updated where_ set) a.members
unfolding update_members
update_members-members now where_ set a b h =
    let a' = record a { members = map (updated where_ set) a.members } in
    ap (λ (d : Database). d.members) (commit-eq-done (fire_updates now where_ set a.members a') b h)
    ∙ fire_updates-members now where_ set a.members a'

-- What a successful UPDATE left breaks no constraint.
pub update_members-commit :
    (now : ℕ) (where_ : Member → Bool) (set : Member → Member) (a b : Database)
    → update_members now where_ set a ≡ done b
    → commit b ≡ done b
unfolding update_members
update_members-commit now where_ set a b h = commit-done _ b h

after_insert-members :
    (now : ℕ) (m : Member) (db : Database) → (after_insert now m db).members ≡ db.members
unfolding after_insert
after_insert-members now m db = ground arith

pub insert_member-members :
    (now : ℕ) (m : Member) (a b : Database)
    → insert_member now m a ≡ done b
    → b.members ≡ a.members ++ m ∷ []
unfolding insert_member
insert_member-members now m a b h =
    let a' = record a { members = a.members ++ m ∷ [] } in
    ap (λ (d : Database). d.members) (commit-eq-done (after_insert now m a') b h)
    ∙ after_insert-members now m a'
