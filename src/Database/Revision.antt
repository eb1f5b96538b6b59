-- ===== src/Database/Revision.antt =====
-- The authorized fob list, and what it is read from: the revision of `edge_changes` stands for it.
use thelab_ms.Base.{
  ℕ, ◌+◌, ◌≤◌, ◌≡◌, refl, sym, ◌∙◌, Bool, true, Option, some, List, [], ◌∷◌, map, string_eq, nat_eq,
  bool_eq, option_eq, if◌then◌else◌, arith, inl, inr, Bool-cases, option_beq_iff, bool_beq_iff,
}
use thelab_ms.Rows.{Member}
use thelab_ms.Sql.{holds}
use thelab_ms.Policy.Access.{member_access_sql, fob_enabled_sql}
use thelab_ms.Database.Tables.{Database}
use thelab_ms.Database.Triggers.{after_update}
use thelab_ms.Database.Updates.{fire_updates, updated}
use thelab_ms.Database.Effects.{same_access, after_update-revision}

abbrev pub fobs_of : Bool → Option ℕ → List ℕ → List ℕ
fobs_of true (some fob) rest = fob ∷ rest
fobs_of _ _ rest = rest

-- SELECT fob_id FROM members WHERE fobEnabledSQL, in table order.
unfoldable pub enabled_fobs : List Member → List ℕ
enabled_fobs [] = []
enabled_fobs (m ∷ ms) = fobs_of (holds (fob_enabled_sql m)) m.fob_id (enabled_fobs ms)

abbrev pub revision : Database → ℕ
revision db = db.edge_changes.revision

same_access_columns :
    (m n : Member)
    → same_access m n ≡ true
    → (n.fob_id ≡ m.fob_id)
      × (n.stripe_subscription_state ≡ m.stripe_subscription_state)
      × (n.non_billable ≡ m.non_billable)
      × (n.legacy_billing ≡ m.legacy_billing)
same_access_columns m n h = ground (
  arith,
  option_beq_iff m.fob_id n.fob_id,
  option_beq_iff m.stripe_subscription_state n.stripe_subscription_state,
  bool_beq_iff m.non_billable n.non_billable,
  bool_beq_iff m.legacy_billing n.legacy_billing,
)

fobs_of-same_access :
    (m n : Member) (rest : List ℕ)
    → same_access m n ≡ true
    → n.waiver_signed ≡ m.waiver_signed
    → fobs_of (holds (fob_enabled_sql n)) n.fob_id rest
      ≡ fobs_of (holds (fob_enabled_sql m)) m.fob_id rest
unfolding fob_enabled_sql member_access_sql
fobs_of-same_access m n rest h w =
    let (e₁, e₂, e₃, e₄) = same_access_columns m n h in simp (e₁, e₂, e₃, e₄, w)

module _ (now : ℕ) (where_ : Member → Bool) (set : Member → Member) where
  after : Member → Database → Database
  after m db = if where_ m then after_update now m (set m) db else db

  after-revision :
      (m : Member) (db : Database)
      → revision (after m db) ≡ (
          if where_ m
          then if same_access m (set m) then revision db else revision db + 1
          else revision db)
  unfolding after
  after-revision m db = elim (Bool-cases (where_ m)) [
    | inl e ↦ rw e (after_update-revision now m (set m) db)
    | inr e ↦ rw e refl
  ]

  pub fire_updates-revision_le :
      (ms : List Member) (db : Database)
      → revision db ≤ revision (fire_updates now where_ set ms db)
  unfolding fire_updates after
  fire_updates-revision_le [] db = omega arith
  fire_updates-revision_le (m ∷ ms) db =
      ground (arith, fire_updates-revision_le ms (after m db), after-revision m db)

  module _ (keeps : (m : Member) → (set m).waiver_signed ≡ m.waiver_signed) where
    updated-fobs :
        (m : Member) (rest : List ℕ)
        → (where_ m ≡ true → same_access m (set m) ≡ true)
        → fobs_of
            (holds (fob_enabled_sql (updated where_ set m)))
            (updated where_ set m).fob_id
            rest
          ≡ fobs_of (holds (fob_enabled_sql m)) m.fob_id rest
    updated-fobs m rest h = elim (Bool-cases (where_ m)) [
      | inl e ↦ rw e (fobs_of-same_access m (set m) rest (h e) (keeps m))
      | inr e ↦ rw e refl
    ]

    pub fire_updates-enabled_fobs :
        (ms : List Member) (db : Database)
        → revision (fire_updates now where_ set ms db) ≡ revision db
        → enabled_fobs (map (updated where_ set) ms) ≡ enabled_fobs ms
    unfolding fire_updates enabled_fobs after
    fire_updates-enabled_fobs [] db h = refl
    fire_updates-enabled_fobs (m ∷ ms) db h =
        let le = fire_updates-revision_le ms (after m db) in
        let step = after-revision m db in
        let same : revision (after m db) ≡ revision db = ground arith in
        rw (fire_updates-enabled_fobs ms (after m db) (h ∙ sym same))
          (updated-fobs m (enabled_fobs ms) (λ e. ground arith))
