-- ===== src/Database/Later.antt =====
-- What statements of other requests leave of a counter, and a statement that matches no row.
use thelab_ms.Base.{
  ℕ, String, ◌≡◌, refl, Bool, false, some, List, [], ◌∷◌, ◌==◌, string_eq, option_eq, arith, All,
}
use thelab_ms.Rows.{Member}
use thelab_ms.Database.{
  Database, Outcome, done, unique_failed, foreign_key_failed, exec, Statement, update_members,
  commit,
}
use thelab_ms.Database.Counters.{Counter, new_row, IsPast, exec-IsPast}
use thelab_ms.Database.Tracking.{run, settle}
use thelab_ms.Database.Unmatched.{update_members_none}

-- No statement of a row with another id.
abbrev pub IsOther : String → ℕ × Statement → Type 0
IsOther id s = (new_row s.1 == some id) ≡ false

module _ (counter : Counter) (id : String) (v : ℕ) where
  settle-IsPast :
      (a : Database) (o : Outcome)
      → All (IsPast counter id v) a.members
      → ((b : Database) → o ≡ done b → All (IsPast counter id v) b.members)
      → All (IsPast counter id v) (settle a o).members
  settle-IsPast a (done b) h k = k b refl
  settle-IsPast a (unique_failed column) h k = h
  settle-IsPast a foreign_key_failed h k = h

  pub run-IsPast :
      (statements : List (ℕ × Statement)) (db : Database)
      → All (IsOther id) statements
      → All (IsPast counter id v) db.members
      → All (IsPast counter id v) (run statements db).members
  unfolding run
  run-IsPast [] db o h = h
  run-IsPast ((now, s) ∷ rest) db o h =
      run-IsPast rest _ o.1
        (settle-IsPast db (exec now s db) h (λ b e. exec-IsPast counter id v now s db b o.0 h e))

settle-commit : (a : Database) → settle a (commit a) ≡ a
unfolding commit
settle-commit a = ground arith

pub past-settle :
    (now : ℕ) (where_ : Member → Bool) (set : Member → Member) (a : Database)
    → All (λ m. where_ m ≡ false) a.members
    → settle a (update_members now where_ set a) ≡ a
past-settle now where_ set a h = rw (update_members_none now where_ set a h) (settle-commit a)
