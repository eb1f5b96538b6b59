-- ===== src/Admin/Locking.antt =====
-- `metadata_version`, by which the member editor and the checkout of site/src/admin.tsx and
-- site/src/billing.ts notice that a row has changed.
use thelab_ms.Base.{
  ℕ, ◌+◌, String, ◌≡◌, refl, sym, subst, Bool, true, false, ◌&&◌, Option, none, List, [], ◌∷◌, map,
  ◌==◌, string_eq, nat_eq, option_eq, any, arith, All, Bool-cases, inl, inr,
}
use thelab_ms.Rows.{Member}
use thelab_ms.Database.{
  Database, done, has_id, updated, exec, Statement, save_customer, edit_member, save_billing, Edit,
  edit_row, update_members,
}
use thelab_ms.Admin.Editing.{edited_row}
use thelab_ms.Database.Counters.{form_version, IsPast}
use thelab_ms.Database.Later.{IsOther, run-IsPast, past-settle}
use thelab_ms.Database.Tracking.{run, settle}
use thelab_ms.Database.Unmatched.{update_members-members}

-- The statements that save a form of the member which was opened at version `v`.
pub data Saves (member_id : String) (v : ℕ) : Statement → Type 0 where
  by_edit :
      (value : Edit) (discord : Option String) (customer : Bool)
      → value.metadata_version ≡ v
      → Saves member_id v (edit_member value discord customer member_id)
  by_choices :
      (annual : Bool) (discount : _) → Saves member_id v (save_billing annual discount member_id v)

-- The statements of a request that read the member at version `v`: those, and the customer of a checkout.
pub data Guarded (member_id : String) (v : ℕ) : Statement → Type 0 where
  by_form : {s : Statement} → Saves member_id v s → Guarded member_id v s
  by_customer : (customer : String) → Guarded member_id v (save_customer customer member_id v)

module _ (id : String) (v : ℕ) where
  -- The member's row stands at version `v`.
  abbrev pub IsAt : Member → Type 0
  IsAt m = has_id id m ≡ true → m.metadata_version ≡ v

  moved :
      (set : Member → Member) (ms : List Member)
      → ((m : Member)
          → (has_id id (set m) ≡ has_id id m) × ((set m).metadata_version ≡ m.metadata_version + 1))
      → All IsAt ms
      → All
          (IsPast form_version id v)
          (map (updated (λ m. has_id id m && m.metadata_version == v) set) ms)
  moved set [] k h = tt
  moved set (m ∷ ms) k h = (
    elim (Bool-cases (has_id id m)) [
      | inl own ↦
          let at : m.metadata_version ≡ v = h.0 own in
          let same : (m.metadata_version == v) ≡ true = ground arith in
          rw (own, same) (λ _. omega (arith, at, (k m).1))
      | inr other ↦ rw other (λ own. absurd (cc))
    ],
    moved set ms k h.1,
  )

  update_members-moved :
      (now : ℕ) (set : Member → Member) (a b : Database)
      → ((m : Member)
          → (has_id id (set m) ≡ has_id id m) × ((set m).metadata_version ≡ m.metadata_version + 1))
      → All IsAt a.members
      → update_members now (λ m. has_id id m && m.metadata_version == v) set a ≡ done b
      → All (IsPast form_version id v) b.members
  update_members-moved now set a b k h e =
      subst (All (IsPast form_version id v)) (sym (update_members-members now _ set a b e))
        (moved set a.members k h)

  edit_row-moved :
      (value : Edit) (discord : Option String) (customer : Bool) (m : Member)
      → (has_id id (edit_row value discord customer m) ≡ has_id id m)
        × ((edit_row value discord customer m).metadata_version ≡ m.metadata_version + 1)
  unfolding exec
  edit_row-moved value discord customer m = ground arith

  Saves-IsPast :
      (now : ℕ) (s : Statement) (a b : Database)
      → Saves id v s
      → All IsAt a.members
      → exec now s a ≡ done b
      → All (IsPast form_version id v) b.members
  unfolding exec
  Saves-IsPast now _ a b (by_choices annual discount) h e =
      update_members-moved now _ a b (λ m. (refl, refl)) h e
  Saves-IsPast now _ a b (by_edit value discord customer version) h e =
      let e' = rw version at e in
      update_members-moved now _ a b (edit_row-moved value discord customer) h e'

  unmatched :
      (ms : List Member)
      → All (IsPast form_version id v) ms
      → All (λ m. (has_id id m && m.metadata_version == v) ≡ false) ms
  unmatched [] h = tt
  unmatched (m ∷ ms) h = (ground (arith, h.0), unmatched ms h.1)

  none_matches :
      (ms : List Member)
      → All (IsPast form_version id v) ms
      → any (λ m. has_id id m && m.metadata_version == v) ms ≡ false
  none_matches [] h = refl
  none_matches (m ∷ ms) h = rw ((unmatched (m ∷ ms) h).0) (none_matches ms h.1)

  free_unmatched :
      (ms : List Member)
      → All (IsPast form_version id v) ms
      → All
          (λ m. (has_id id m && (m.stripe_customer_id == none && m.metadata_version == v)) ≡ false)
          ms
  free_unmatched [] h = tt
  free_unmatched (m ∷ ms) h = (ground (arith, h.0), free_unmatched ms h.1)

  Guarded-late :
      (now : ℕ) (s : Statement) (a : Database)
      → Guarded id v s
      → All (IsPast form_version id v) a.members
      → settle a (exec now s a) ≡ a
  unfolding exec
  Guarded-late now _ a (by_form (by_edit value discord customer version)) h =
      rw version (past-settle now _ _ a (unmatched a.members h))
  Guarded-late now _ a (by_form (by_choices annual discount)) h =
      past-settle now _ _ a (unmatched a.members h)
  Guarded-late now _ a (by_customer customer) h = past-settle now _ _ a (free_unmatched a.members h)

-- After a form of a member that was opened at version `v` has been saved while the member's row stood at
-- `v`, and after any further statements of any requests that insert no row with the member's id, every
-- other statement that relies on version `v` (another save of the editor or of the billing choices, or
-- the customer of a checkout) changes nothing, and `RETURNING` gives the request no row.
pub saved_once :
    (member : Member) (v now now' : ℕ) (first second : Statement) (a b : Database)
    (rest : List (ℕ × Statement))
    → Saves member.member_id v first
    → Guarded member.member_id v second
    → All (IsAt member.member_id v) a.members
    → All (IsOther member.member_id) rest
    → exec now first a ≡ done b
    → (run ((now', second) ∷ []) (run rest b) ≡ run rest b)
      × (edited_row member v (run rest b) (run ((now', second) ∷ []) (run rest b)) ≡ none)
unfolding run
saved_once member v now now' first second a b rest save guarded at other h =
    let past =
      run-IsPast form_version member.member_id v rest b other
        (Saves-IsPast member.member_id v now first a b save at h) in
    (
      Guarded-late member.member_id v now' second (run rest b) guarded past,
      rw (none_matches member.member_id v _ past) refl,
    )
