-- ===== src/Kiosk/Linking.antt =====
-- The statement of `bindFob`: what it does to the member's row, and to the others.
use thelab_ms.Base.{
  ℕ, String, ◌≡◌, refl, sym, ap, ◌∙◌, subst, Bool, true, ◌&&◌, not, some, List, [], ◌∷◌, map, ◌==◌,
  string_eq, nat_eq, option_eq, option_beq_iff, All, keep, Bool-cases, inl, inr,
}
use thelab_ms.Rows.{Member}
use thelab_ms.Database.{has_id, Database, done, bind_fob, exec, updated, bump_version}
use thelab_ms.Database.Unmatched.{update_members-members}

module _ (fob : ℕ) (id : String) where
  abbrev is_unlinked : Member → Bool
  is_unlinked m = has_id id m && not (m.fob_id == some fob)

  abbrev link : Member → Member
  link m = bump_version (record m { fob_id = some fob })

  linked_id : (m : Member) → has_id id (updated is_unlinked link m) ≡ has_id id m
  linked_id m = elim (Bool-cases (is_unlinked m)) [ inl e ↦ rw e refl | inr e ↦ rw e refl ]

  linked_fob : (m : Member) → has_id id m ≡ true → (updated is_unlinked link m).fob_id ≡ some fob
  linked_fob m own = elim (Bool-cases (m.fob_id == some fob)) [
    | inl held ↦ rw (own, held) ((option_beq_iff m.fob_id (some fob)).0 held)
    | inr free ↦ rw (own, free) refl
  ]

  abbrev pub others_of : List Member → List Member
  others_of = keep (λ m. not (has_id id m))

  linked_rows :
      (ms : List Member)
      → All (λ m. has_id id m ≡ true → m.fob_id ≡ some fob) (map (updated is_unlinked link) ms)
        × (others_of (map (updated is_unlinked link) ms) ≡ others_of ms)
  linked_rows [] = (tt, refl)
  linked_rows (m ∷ ms) =
      let rest = linked_rows ms in
      (
        ((λ k. linked_fob m (sym (linked_id m) ∙ k)), rest.0),
        elim (Bool-cases (has_id id m)) [
          | inl own ↦ rw (linked_id m, own) rest.1
          | inr other ↦ rw (linked_id m, other) (ap (λ l. m ∷ l) rest.1)
        ],
      )

  -- When linking a fob succeeds, every row of the member holds that fob, and all other rows are as they
  -- were: no fob is taken from another member.
  pub exec-bind_fob :
      (now : ℕ) (a b : Database)
      → exec now (bind_fob fob id) a ≡ done b
      → All (λ m. has_id id m ≡ true → m.fob_id ≡ some fob) b.members
        × (others_of b.members ≡ others_of a.members)
  unfolding exec
  exec-bind_fob now a b h =
      subst
        (λ ms.
          All (λ m. has_id id m ≡ true → m.fob_id ≡ some fob) ms
          × (others_of ms ≡ others_of a.members))
        (sym (update_members-members now is_unlinked link a b h)) (linked_rows a.members)
