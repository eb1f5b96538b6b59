-- ===== src/Auth/Linked.antt =====
-- The batch of `registerMember` (site/src/auth.ts) and the Discord accounts of the rows.
use thelab_ms.Base.{
  ℕ, String, ◌≡◌, ◌≢◌, refl, sym, ◌∙◌, subst, Bool, true, none, some, List, [], ◌∷◌, ◌++◌, map,
  string_eq, nat_eq, option_eq, option_beq_iff, any, arith, Bool-cases, inl, inr,
}
use thelab_ms.Rows.{Member}
use thelab_ms.Database.{
  Database, Outcome, done, unique_failed, foreign_key_failed, has_discord, exec, updated,
  link_discord, register, refresh_identity, and_then,
}
use thelab_ms.Database.Unmatched.{update_members-members, insert_member-members}
use thelab_ms.Auth.{DiscordIdentity, registration}

-- The same member, with its Discord account if it had one.
abbrev Keeps : Member → Member → Type 0
Keeps m n =
    (n.member_id ≡ m.member_id) × (m.discord_user_id ≢ none → n.discord_user_id ≡ m.discord_user_id)

-- The rows are kept in order, and others may follow.
abbrev pub Extends : List Member → List Member → Type 0
Extends [] ns = Unit
Extends (m ∷ ms) [] = ⊥
Extends (m ∷ ms) (n ∷ ns) = Keeps m n × Extends ms ns

Extends-refl : (ms : List Member) → Extends ms ms
Extends-refl [] = tt
Extends-refl (m ∷ ms) = ((refl, (λ h. refl)), Extends-refl ms)

Extends-trans : (ms ns os : List Member) → Extends ms ns → Extends ns os → Extends ms os
Extends-trans [] ns os p q = tt
Extends-trans (m ∷ ms) [] os p q = absurd p
Extends-trans (m ∷ ms) (n ∷ ns) [] p q = absurd q
Extends-trans (m ∷ ms) (n ∷ ns) (o ∷ os) (k, p) (l, q) = (
  (l.0 ∙ k.0, (λ h. l.1 (subst (λ account. account ≢ none) (sym (k.1 h)) h) ∙ k.1 h)),
  Extends-trans ms ns os p q,
)

Extends-append : (ms ns : List Member) → Extends ms (ms ++ ns)
Extends-append [] ns = tt
Extends-append (m ∷ ms) ns = ((refl, (λ h. refl)), Extends-append ms ns)

Extends-map :
    (where_ : Member → Bool) (set : Member → Member) (ms : List Member)
    → ((m : Member) → where_ m ≡ true → Keeps m (set m))
    → Extends ms (map (updated where_ set) ms)
Extends-map where_ set [] k = tt
Extends-map where_ set (m ∷ ms) k = (
  elim (Bool-cases (where_ m)) [
    | inl hit ↦ rw hit (k m hit)
    | inr miss ↦ rw miss (refl, λ h. refl)
  ],
  Extends-map where_ set ms k,
)

any-append_last :
    (id : String) (ms : List Member) (m : Member)
    → has_discord id m ≡ true
    → any (has_discord id) (ms ++ m ∷ []) ≡ true
any-append_last id [] m h = rw h refl
any-append_last id (n ∷ ms) m h = elim (Bool-cases (has_discord id n)) [
  | inl here ↦ rw here refl
  | inr there ↦ rw there (any-append_last id ms m h)
]

any-refresh :
    (id : String) (set : Member → Member) (ms : List Member)
    → ((m : Member) → has_discord id (set m) ≡ has_discord id m)
    → any (has_discord id) (map (updated (has_discord id) set) ms) ≡ any (has_discord id) ms
any-refresh id set [] k = refl
any-refresh id set (m ∷ ms) k = elim (Bool-cases (has_discord id m)) [
  | inl own ↦ rw own (rw (k m, own) refl)
  | inr other ↦ rw other (rw other (any-refresh id set ms k))
]

module _ (now : ℕ) (user : DiscordIdentity) where
  link_discord-Extends :
      (a b : Database)
      → exec now (link_discord user.id user.email) a ≡ done b
      → Extends a.members b.members
  unfolding exec
  link_discord-Extends a b h = rw (update_members-members now _ _ a b h) (
      Extends-map _ _ a.members (λ m hit.
        (refl, λ h'. absurd (ground (arith, hit, h', option_beq_iff m.discord_user_id none)))))

  refresh_identity-Extends :
      (a b : Database)
      → exec now (refresh_identity user.username user.email user.id) a ≡ done b
      → Extends a.members b.members
  unfolding exec
  refresh_identity-Extends a b h =
      rw (update_members-members now _ _ a b h)
        (Extends-map _ _ a.members (λ m hit. (refl, (λ h'. refl))))

  register-Extends :
      (member_id : String) (a b : Database)
      → exec now (register member_id user.id user.email) a ≡ done b
      → Extends a.members b.members × (any (has_discord user.id) b.members ≡ true)
  unfolding exec
  register-Extends member_id a b h = elim (Bool-cases (any (has_discord user.id) a.members)) [
    | inl known ↦
        let same : b ≡ a = (let h' = rw known at h in cc) in
        (rw same (Extends-refl a.members), rw same known)
    | inr new ↦
        let h' = rw new at h in
        let rows = insert_member-members now _ a b h' in
        (
          rw rows (Extends-append a.members _),
          rw rows (
              any-append_last user.id a.members _
                ((option_beq_iff (some user.id) (some user.id)).1 refl)),
        )
  ]

  refresh_identity-known :
      (a b : Database)
      → any (has_discord user.id) a.members ≡ true
      → exec now (refresh_identity user.username user.email user.id) a ≡ done b
      → any (has_discord user.id) b.members ≡ true
  unfolding exec
  refresh_identity-known a b known h =
      rw (update_members-members now _ _ a b h)
        (any-refresh user.id _ a.members (λ m. refl) ∙ known)

  and_then_done :
      (o : Outcome) (next : Database → Outcome) (b : Database)
      → and_then o next ≡ done b
      → (c : Database) × (o ≡ done c) × (next c ≡ done b)
  unfolding and_then
  and_then_done (done c) next b h = (c, refl, h)
  and_then_done (unique_failed column) next b h = absurd (cc)
  and_then_done foreign_key_failed next b h = absurd (cc)

  -- When `registerMember` commits, there is a row for the Discord account that signs in, and every row
  -- that was there keeps its place, its member id and the Discord account that it was linked to, if it
  -- had one: a linked account is never moved by an email address.
  pub registration-Extends :
      (member_id : String) (a b : Database)
      → registration member_id user now a ≡ done b
      → Extends a.members b.members × (any (has_discord user.id) b.members ≡ true)
  unfolding registration
  registration-Extends member_id a b h =
      let (c, linked, h') = and_then_done _ _ b h in
      let (d, added, refreshed) = and_then_done _ _ b h' in
      let (more, known) = register-Extends member_id c d added in
      (
        Extends-trans a.members c.members b.members (link_discord-Extends a c linked) (
            Extends-trans c.members d.members b.members more
              (refresh_identity-Extends d b refreshed)),
        refresh_identity-known d b known refreshed,
      )
