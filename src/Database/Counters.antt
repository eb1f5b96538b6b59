-- ===== src/Database/Counters.antt =====
-- The two counters of a member's row, `metadata_version` and `stripe_sync_version`, never fall, whatever
-- statement runs (site/src/members.ts, site/src/admin.tsx, site/src/billing.ts).
use thelab_ms.Base.{
  ℕ, ◌≤◌, ◌<◌, String, ◌≡◌, refl, sym, ◌∙◌, subst, Bool, true, false, not, Option, none, some, List,
  [], ◌∷◌, map, ◌==◌, string_eq, nat_eq, option_eq, if◌then◌else◌, any, keep, arith, All,
  All-append, Bool-cases, inl, inr,
}
use thelab_ms.Rows.{Member}
use thelab_ms.Database.{
  Database, Outcome, done, unique_failed, foreign_key_failed, has_id, updated, exec, Statement,
  link_discord, register, refresh_identity, begin_sync, publish_sync, link_customer, save_customer,
  request_sync, record_swipe, bind_fob, sign_waiver, preregister, sign_by_email, create_member,
  edit_member, save_billing, delete, Edit, Swipe, edit_row, update_members, insert_member,
  insert_waiver, delete_member, or_nothing, sign_only, sign, insert_swipe, has_either_email,
}
use thelab_ms.Database.Tracks.{delete_rows_lem}
use thelab_ms.Database.Unmatched.{update_members-members, insert_member-members}

-- The row that the statement may insert.
abbrev pub new_row : Statement → Option String
new_row (register member_id discord_id email) = some member_id
new_row (preregister member_id email) = some member_id
new_row (create_member member_id v) = some member_id
new_row _ = none

-- What an editor's form, and what a Stripe lookup, was opened at.
pub data Counter : Type 0 where
  form_version : Counter
  lookup_version : Counter

abbrev pub version : Counter → Member → ℕ
version form_version m = m.metadata_version
version lookup_version m = m.stripe_sync_version

version_le :
    (counter : Counter) (m n : Member)
    → m.metadata_version ≤ n.metadata_version
    → m.stripe_sync_version ≤ n.stripe_sync_version
    → version counter m ≤ version counter n
version_le form_version m n form lookup = form
version_le lookup_version m n form lookup = lookup

module _ (counter : Counter) (id : String) (v : ℕ) where
  -- The member's row has moved past version `v`.
  abbrev pub IsPast : Member → Type 0
  IsPast m = has_id id m ≡ true → v < version counter m

  -- An update of a row that keeps its id and lowers neither counter.
  abbrev Rises : (Member → Member) → Type 0
  Rises set =
      (m : Member)
      → (has_id id (set m) ≡ has_id id m)
        × (m.metadata_version ≤ (set m).metadata_version)
        × (m.stripe_sync_version ≤ (set m).stripe_sync_version)

  map-IsPast :
      (where_ : Member → Bool) (set : Member → Member) (ms : List Member)
      → Rises set
      → All IsPast ms
      → All IsPast (map (updated where_ set) ms)
  map-IsPast where_ set [] k h = tt
  map-IsPast where_ set (m ∷ ms) k h = (
    elim (Bool-cases (where_ m)) [
      | inl hit ↦ rw hit (λ own.
          let (same, form, lookup) = k m in
          omega (arith, h.0 (sym same ∙ own), version_le counter m (set m) form lookup))
      | inr miss ↦ rw miss (h.0)
    ],
    map-IsPast where_ set ms k h.1,
  )

  keep-IsPast : (q : Member → Bool) (ms : List Member) → All IsPast ms → All IsPast (keep q ms)
  keep-IsPast q [] h = tt
  keep-IsPast q (m ∷ ms) h = elim (Bool-cases (q m)) [
    | inl hit ↦ rw hit (h.0, keep-IsPast q ms h.1)
    | inr miss ↦ rw miss (keep-IsPast q ms h.1)
  ]

  update_members-IsPast :
      (now : ℕ) (where_ : Member → Bool) (set : Member → Member) (a b : Database)
      → Rises set
      → All IsPast a.members
      → update_members now where_ set a ≡ done b
      → All IsPast b.members
  update_members-IsPast now where_ set a b k h e =
      subst (All IsPast) (sym (update_members-members now where_ set a b e))
        (map-IsPast where_ set a.members k h)

  insert_member-IsPast :
      (now : ℕ) (m : Member) (a b : Database)
      → has_id id m ≡ false
      → All IsPast a.members
      → insert_member now m a ≡ done b
      → All IsPast b.members
  insert_member-IsPast now m a b other h e =
      subst (All IsPast) (sym (insert_member-members now m a b e))
        (All-append IsPast a.members (m ∷ []) h ((λ own. absurd (cc)), tt))

  insert_waiver-IsPast :
      (now : ℕ) (name email member_id : String) (a : Database)
      → All IsPast a.members
      → All IsPast (insert_waiver now name email member_id a).members
  unfolding insert_waiver sign
  insert_waiver-IsPast now name email member_id a h =
      map-IsPast (has_id member_id) (sign name) a.members (λ m. (refl, omega arith, omega arith)) h

  sign_only-IsPast :
      (now : ℕ) (name email : String) (ms : List Member) (a : Database)
      → All IsPast a.members
      → All IsPast (sign_only now name email ms a).members
  unfolding sign_only
  sign_only-IsPast now name email [] a h = h
  sign_only-IsPast now name email (m ∷ []) a h = insert_waiver-IsPast now name email m.member_id a h
  sign_only-IsPast now name email (m ∷ n ∷ ms) a h = h

  delete_member-IsPast :
      (now : ℕ) (member_id : String) (a : Database)
      → All IsPast a.members
      → All IsPast (delete_member now member_id a).members
  unfolding delete_member
  delete_member-IsPast now member_id a h =
      subst (All IsPast)
        (sym (
          (delete_rows_lem now member_id a.members
            (record a { members = keep (λ m. not (m.member_id == member_id)) a.members })).0))
        (keep-IsPast _ a.members h)

  done-IsPast : (b c : Database) → All IsPast b.members → done b ≡ done c → All IsPast c.members
  done-IsPast b c h e = let same : b ≡ c = cc in subst (λ d. All IsPast d.members) same h

  -- A statement that does nothing on some test.
  unless-IsPast :
      (t : Bool) (o : Outcome) (a c : Database)
      → All IsPast a.members
      → (o ≡ done c → All IsPast c.members)
      → (if t then done a else o) ≡ done c
      → All IsPast c.members
  unless-IsPast true o a c h k e = done-IsPast _ _ h e
  unless-IsPast false o a c h k e = k e

  or_nothing-IsPast :
      (a b : Database) (o : Outcome)
      → All IsPast a.members
      → ((c : Database) → o ≡ done c → All IsPast c.members)
      → or_nothing a o ≡ done b
      → All IsPast b.members
  unfolding or_nothing
  or_nothing-IsPast a b (done c) h k e = done-IsPast _ _ (k c refl) e
  or_nothing-IsPast a b (unique_failed column) h k e = done-IsPast _ _ h e
  or_nothing-IsPast a b foreign_key_failed h k e = cc

  signed-IsPast :
      (t : Bool) (c d : Database)
      → All IsPast c.members
      → (if t then done c else foreign_key_failed) ≡ done d
      → All IsPast d.members
  signed-IsPast true c d h e = done-IsPast _ _ h e
  signed-IsPast false c d h e = cc

  edit_row-Rises :
      (value : Edit) (discord : Option String) (customer : Bool)
      → Rises (edit_row value discord customer)
  unfolding exec
  edit_row-Rises value discord customer m = ground arith

  either-IsPast :
      (t : Bool) (b c : Database)
      → All IsPast b.members
      → All IsPast c.members
      → All IsPast (if t then b else c).members
  either-IsPast true b c h k = h
  either-IsPast false b c h k = k

  swipe-IsPast :
      (e : Swipe) (a : Database) → All IsPast a.members → All IsPast (insert_swipe e a).members
  unfolding insert_swipe
  swipe-IsPast e a h = either-IsPast _ _ _ h h

  pub exec-IsPast :
      (now : ℕ) (s : Statement) (a b : Database)
      → (new_row s == some id) ≡ false
      → All IsPast a.members
      → exec now s a ≡ done b
      → All IsPast b.members
  unfolding exec
  exec-IsPast now (link_discord d e) a b o h x =
      update_members-IsPast now _ _ a b (λ m. (refl, omega arith, omega arith)) h x
  exec-IsPast now (register i d e) a b o h x =
      unless-IsPast _ _ a b h (insert_member-IsPast now _ a b o h) x
  exec-IsPast now (refresh_identity u e d) a b o h x =
      update_members-IsPast now _ _ a b (λ m. (refl, omega arith, omega arith)) h x
  exec-IsPast now (begin_sync i c) a b o h x =
      update_members-IsPast now _ _ a b (λ m. (refl, omega arith, omega arith)) h x
  exec-IsPast now (publish_sync y i c n) a b o h x =
      update_members-IsPast now _ _ a b (λ m. (refl, omega arith, omega arith)) h x
  exec-IsPast now (link_customer c r) a b o h x =
      update_members-IsPast now _ _ a b (λ m. (refl, omega arith, omega arith)) h x
  exec-IsPast now (save_customer c i n) a b o h x =
      update_members-IsPast now _ _ a b (λ m. (refl, omega arith, omega arith)) h x
  exec-IsPast now (request_sync s) a b o h x = done-IsPast _ _ (either-IsPast _ _ _ h h) x
  exec-IsPast now (record_swipe e) a b o h x = done-IsPast _ _ (swipe-IsPast e a h) x
  exec-IsPast now (bind_fob f i) a b o h x =
      update_members-IsPast now _ _ a b (λ m. (refl, omega arith, omega arith)) h x
  exec-IsPast now (sign_waiver n e i) a b o h x =
      signed-IsPast (any (has_id i) a.members) _ _ (insert_waiver-IsPast now n e i a h) x
  exec-IsPast now (preregister i e) a b o h x =
      unless-IsPast (any (has_either_email e) a.members) _ a b h
        (or_nothing-IsPast a _ _ h (λ c. insert_member-IsPast now _ a c o h)) x
  exec-IsPast now (sign_by_email n e) a b o h x = done-IsPast _ _ (sign_only-IsPast now n e _ a h) x
  exec-IsPast now (create_member i value) a b o h x =
      unless-IsPast _ _ a b h (insert_member-IsPast now _ a b o h) x
  exec-IsPast now (edit_member value d c i) a b o h x =
      update_members-IsPast now _ _ a b (edit_row-Rises value d c) h x
  exec-IsPast now (save_billing y d i n) a b o h x =
      update_members-IsPast now _ _ a b (λ m. (refl, omega arith, omega arith)) h x
  exec-IsPast now (delete i) a b o h x = done-IsPast _ _ (delete_member-IsPast now i a h) x
