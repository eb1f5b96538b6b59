-- ===== src/Admin/Paging.antt =====
-- The pages of a list, taken together.
use mathlib.Core.List.{Perm}
use thelab_ms.Base.{
  ℕ, zero, suc, ◌+◌, ◌-◌, ◌*◌, ◌≤◌, String, ◌≡◌, refl, sym, ap, ◌∙◌, subst, List, [], ◌∷◌, ◌++◌,
  keep, drop, length, length-take-le, take-append-drop, arith, sort_by-perm,
}
use thelab_ms.Database.{Database}
use thelab_ms.Admin.Listing.{
  FilterValues, page_count, page_rows, listed_members, list_matches, newer_member,
}

enough_pages : (total : ℕ) → total ≤ (0 + page_count total) * 25
unfolding page_count
enough_pages total = ground arith

module _ {ℓ} {A : Type ℓ} where
  -- The pages after page `k`, `n` of them, one after the other.
  abbrev pub pages_after : ℕ → ℕ → List A → List A
  pages_after k zero rows = []
  pages_after k (suc n) rows = page_rows (k + 1) rows ++ pages_after (k + 1) n rows

  drop-nil : (n : ℕ) → drop {A = A} n [] ≡ []
  drop-nil zero = refl
  drop-nil (suc n) = refl

  drop-drop : (m n : ℕ) (xs : List A) → drop n (drop m xs) ≡ drop (m + n) xs
  drop-drop zero n xs = ap (λ k. drop k xs) (omega arith)
  drop-drop (suc m) n [] = drop-nil n ∙ sym (drop-nil (suc m + n))
  drop-drop (suc m) n (x ∷ xs) =
      let e : suc m + n ≡ suc (m + n) = omega arith in rw e (drop-drop m n xs)

  drop_all : (n : ℕ) (xs : List A) → length xs ≤ n → drop n xs ≡ []
  drop_all n [] h = drop-nil n
  drop_all zero (x ∷ xs) h = absurd (omega arith)
  drop_all (suc n) (x ∷ xs) h = drop_all n xs (omega arith)

  pages_after-eq-drop :
      (k n : ℕ) (rows : List A)
      → length rows ≤ (k + n) * 25
      → pages_after k n rows ≡ drop (k * 25) rows
  unfolding page_rows
  pages_after-eq-drop k zero rows h = sym (drop_all (k * 25) rows (omega arith))
  pages_after-eq-drop k (suc n) rows h =
      let e : (k + 1 - 1) * 25 ≡ k * 25 = omega arith in
      let next : (k + 1) * 25 ≡ k * 25 + 25 = omega arith in
      rw
        (
          e,
          pages_after-eq-drop (k + 1) n rows (omega arith),
          next,
          sym (drop-drop (k * 25) 25 rows),
        )
        (take-append-drop 25 (drop (k * 25) rows))

  length-page_rows-le : (current : ℕ) (rows : List A) → length (page_rows current rows) ≤ 25
  unfolding page_rows
  length-page_rows-le current rows = length-take-le 25 (drop ((current - 1) * 25) rows)

-- The pages of the member list, from the first to the last, hold every member that matches the search or
-- the filters, each once and no other; no page has more than 25 rows.
pub member_pages_complete :
    (query : String) (values : FilterValues) (db : Database) (current : ℕ)
    → Perm
        (pages_after 0
          (page_count (length (listed_members query values db)))
          (listed_members query values db))
        (keep (list_matches query values) db.members)
      × (length (page_rows current (listed_members query values db)) ≤ 25)
unfolding listed_members
member_pages_complete query values db current =
    let rows = listed_members query values db in
    (
      subst (λ l. Perm l (keep (list_matches query values) db.members))
          (sym (pages_after-eq-drop 0 (page_count (length rows)) rows (enough_pages (length rows))))
          (sort_by-perm newer_member (keep (list_matches query values) db.members)),
      length-page_rows-le current rows,
    )
