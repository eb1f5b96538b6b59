-- ===== src/Billing/Checkout/OwnRow.antt =====
-- Whose row the saving of a new Stripe customer returns (`checkoutLink` of site/src/billing.ts).
use thelab_ms.Base.{
  ℕ, String, ◌≡◌, sym, Bool, true, Option, none, some, List, string_eq, nat_eq, option_eq, find,
  arith, eq_iff, inl, inr, Option-cases, find-eq-some,
}
use thelab_ms.Rows.{Member}
use thelab_ms.Database.{Database, has_id}
use thelab_ms.App.{Platform}
use thelab_ms.App.Requests.{
  Yields, pure-Yields, throw-Yields, query-Yields, execute-Yields, >>=-Yields,
}
use thelab_ms.Billing.Checkout.{
  saved_row, or_same, saved, save_new_customer, same_customer_row, reread,
}

module _ (p : Platform) (fuel : ℕ) (lower : String → String) (id : String) where
  -- The row that is returned is the member's.
  abbrev OwnRow : Option Member → Type 0
  OwnRow none = Unit
  OwnRow (some row) = row.member_id ≡ id

  found-OwnRow :
      (test : Member → Bool) (rows : List Member)
      → ((m : Member) → test m ≡ true → has_id id m ≡ true)
      → OwnRow (find test rows)
  found-OwnRow test rows own = elim (Option-cases (find test rows)) [
    | inl missing ↦ rw missing tt
    | inr (row, here) ↦
        rw here ((eq_iff row.member_id id).0 (own row (find-eq-some test rows row here)))
  ]

  saved_row-OwnRow :
      (member : Member) (before after : Database)
      → member.member_id ≡ id
      → OwnRow (saved_row p fuel lower member before after)
  saved_row-OwnRow member before after own = reread_own _
    where
      reread_own : (old : Option Member) → OwnRow (reread p fuel lower member.member_id after old)
      reread_own none = tt
      reread_own (some old) = found-OwnRow _ after.members (λ m h. rw (sym own) h)

  same_customer_row-OwnRow :
      (member : Member) (customer : String) (db : Database)
      → member.member_id ≡ id
      → OwnRow (same_customer_row p fuel lower member customer db)
  same_customer_row-OwnRow member customer db own =
      found-OwnRow _ db.members
        (λ m h. let i : has_id member.member_id m ≡ true = ground (arith, h) in rw (sym own) i)

  pub save_new_customer-own :
      (member : Member) (customer : String)
      → member.member_id ≡ id
      → Yields
          (λ (row : Member). row.member_id ≡ id)
          (save_new_customer p fuel lower member customer)
  unfolding save_new_customer
  save_new_customer-own member customer own =
      >>=-Yields _ OwnRow _ _
        (execute-Yields OwnRow p _ _ (λ before after. saved_row-OwnRow member before after own))
        (λ updated q. >>=-Yields _ OwnRow _ _ (or_same-own updated q) saved-own)
    where
      or_same-own :
          (row : Option Member)
          → OwnRow row
          → Yields OwnRow (or_same p fuel lower member customer row)
      or_same-own (some row) q = pure-Yields OwnRow (some row) q
      or_same-own none q =
          query-Yields OwnRow p _ (λ db. same_customer_row-OwnRow member customer db own)

      saved-own :
          (row : Option Member)
          → OwnRow row
          → Yields (λ (r : Member). r.member_id ≡ id) (saved p fuel lower row)
      saved-own none q = throw-Yields _ _
      saved-own (some row) q = pure-Yields _ row q
