-- ===== src/Billing/Versions.antt =====
-- The counter `stripe_sync_version` that `syncMember` (site/src/billing.ts) orders its lookups with.
use thelab_ms.Base.{
  ℕ, ◌+◌, ◌≤◌, String, ◌≡◌, sym, subst, true, false, ◌&&◌, Option, List, [], ◌∷◌, map, ◌==◌,
  string_eq, nat_eq, bool_eq, option_eq, arith, All, Bool-cases, inl, inr,
}
use thelab_ms.Rows.{Member}
use thelab_ms.Database.{
  has_id, Database, done, Billing, begin_sync, publish_sync, exec, updated, Statement,
}
use thelab_ms.Database.Counters.{lookup_version, IsPast}
use thelab_ms.Database.Later.{IsOther, run-IsPast, past-settle}
use thelab_ms.Database.Tracking.{run}
use thelab_ms.Database.Unmatched.{update_members-members}
use thelab_ms.Billing.Sync.{is_customer_of}

module _ (member_id : String) (n : ℕ) where
  -- The member's row belongs to this customer, and a lookup of it has begun with version `n`.
  abbrev pub IsLookedUp : Option String → Member → Type 0
  IsLookedUp customer m =
      has_id member_id m ≡ true
      → (is_customer_of member_id customer m ≡ true) × (n ≤ m.stripe_sync_version)

  advance : Member → Member
  advance m = record m { stripe_sync_version = m.stripe_sync_version + 1 }

  advanced :
      (customer : Option String) (ms : List Member)
      → All (IsLookedUp customer) ms
      → All
          (IsPast lookup_version member_id n)
          (map (updated (is_customer_of member_id customer) advance) ms)
  unfolding advance
  advanced customer [] h = tt
  advanced customer (m ∷ ms) h = (
    elim (Bool-cases (is_customer_of member_id customer m)) [
      | inl e ↦ rw e (λ own. omega (arith, (h.0 own).1))
      | inr e ↦ rw e (λ own. let belongs = (h.0 own).0 in absurd (cc))
    ],
    advanced customer ms h.1,
  )

  -- A newer start of a lookup moves the member's row past the version of the older one.
  begin_sync-IsPast :
      (now : ℕ) (customer : Option String) (a b : Database)
      → All (IsLookedUp customer) a.members
      → exec now (begin_sync member_id customer) a ≡ done b
      → All (IsPast lookup_version member_id n) b.members
  unfolding exec advance
  begin_sync-IsPast now customer a b at h =
      subst (All (IsPast lookup_version member_id n)) (sym (update_members-members now _ _ a b h))
        (advanced customer a.members at)

  behind :
      (customer : Option String) (ms : List Member)
      → All (IsPast lookup_version member_id n) ms
      → All
          (λ m.
            (has_id member_id m && (m.stripe_customer_id == customer && m.stripe_sync_version == n))
            ≡ false)
          ms
  behind customer [] h = tt
  behind customer (m ∷ ms) h = (ground (arith, h.0), behind customer ms h.1)

  publish_sync-late :
      (now : ℕ) (customer : Option String) (found : Billing) (a : Database)
      → All (IsPast lookup_version member_id n) a.members
      → run ((now, publish_sync found member_id customer n) ∷ []) a ≡ a
  unfolding exec run
  publish_sync-late now customer found a h = past-settle now _ _ a (behind customer a.members h)

  -- A lookup of a member began with version `n`. After another start of a lookup of the same member, and
  -- after any further statements of any requests that insert no row with the member's id (the newer lookup's
  -- own publishing among them), the older lookup publishes nothing and fires no trigger, whatever Stripe
  -- told it and whichever customer it looked up.
  pub publish_sync_overtaken :
      (now now' : ℕ) (newer older : Option String) (a b : Database) (rest : List (ℕ × Statement))
      (found : Billing)
      → All (IsLookedUp newer) a.members
      → exec now (begin_sync member_id newer) a ≡ done b
      → All (IsOther member_id) rest
      → run ((now', publish_sync found member_id older n) ∷ []) (run rest b) ≡ run rest b
  publish_sync_overtaken now now' newer older a b rest found at h others =
      publish_sync-late now' older found (run rest b)
        (run-IsPast lookup_version member_id n rest b others (begin_sync-IsPast now newer a b at h))
