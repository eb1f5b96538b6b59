-- ===== src/Policy/Selection.antt =====
-- Which subscription `selectCurrentSubscription` (site/src/lib.ts) returns.
use Prim.Native.Nat.{Ordering}
use thelab_ms.Base.{
  String, ◌≤◌, ◌<◌, ◌≡◌, ◌≢◌, ◌↔◌, ◌∙◌, ap, sym, subst, refl, ◌⊎◌, inr, Bool, true, false, ◌||◌,
  Option, none, some, List, [], ◌∷◌, string_eq, arith, any, All,
}
use mathlib.Core.List.{Memᴰ}
use thelab_ms.Policy.{
  grants_membership, Subscription, priority, comparator, insert_sorted, to_sorted, first,
  select_current_subscription,
}

abbrev any_of {ℓ} : {A : Type ℓ} → (A → Bool) → Option A → Bool
any_of p none = false
any_of p (some a) = p a

-- `s` is at least as good as `t`: a higher class, or the same class and no older.
abbrev pub AtLeast : Subscription → Subscription → Type 0
AtLeast s t = (priority t < priority s) ⊎ ((priority t ≡ priority s) × (t.created ≤ s.created))

comparator-AtLeast : (a b : Subscription) → comparator a b ≢ Ordering.gt → AtLeast a b
unfolding comparator
comparator-AtLeast a b h = ground arith

comparator-gt : (a b : Subscription) → comparator a b ≡ Ordering.gt → AtLeast b a
unfolding comparator
comparator-gt a b h = ground arith

AtLeast-trans : (a b c : Subscription) → AtLeast a b → AtLeast b c → AtLeast a c
AtLeast-trans a b c h k = ground arith

module _ (x : Subscription) where
  insert_sorted-All :
      (P : Subscription → Type 0) (ys : List Subscription)
      → P x
      → All P ys
      → All P (insert_sorted x ys)
  unfolding insert_sorted
  insert_sorted-All P [] p h = (p, tt)
  insert_sorted-All P (y ∷ ys) p h = ground (arith, insert_sorted-All P ys p)

-- The head of a sorted list is at least as good as what follows.
abbrev Leads : List Subscription → Type 0
Leads [] = Unit
Leads (x ∷ xs) = All (AtLeast x) xs × Leads xs

All-AtLeast-trans :
    (a b : Subscription) (xs : List Subscription)
    → AtLeast a b
    → All (AtLeast b) xs
    → All (AtLeast a) xs
All-AtLeast-trans a b [] h k = tt
All-AtLeast-trans a b (x ∷ xs) h k = (AtLeast-trans a b x h k.0, All-AtLeast-trans a b xs h k.1)

insert_sorted-Leads :
    (x : Subscription) (ys : List Subscription) → Leads ys → Leads (insert_sorted x ys)
unfolding insert_sorted
insert_sorted-Leads x [] h = (tt, tt)
insert_sorted-Leads x (y ∷ ys) h = ground (
  arith,
  comparator-gt x y,
  comparator-AtLeast x y,
  All-AtLeast-trans x y ys,
  insert_sorted-Leads x ys,
  insert_sorted-All x (AtLeast y) ys,
)

to_sorted-Leads : (xs : List Subscription) → Leads (to_sorted xs)
unfolding to_sorted
to_sorted-Leads [] = tt
to_sorted-Leads (x ∷ xs) = insert_sorted-Leads x (to_sorted xs) (to_sorted-Leads xs)

to_sorted-All :
    (P : Subscription → Type 0) (xs : List Subscription) → All P xs → All P (to_sorted xs)
unfolding to_sorted
to_sorted-All P [] h = tt
to_sorted-All P (x ∷ xs) h = insert_sorted-All x P (to_sorted xs) h.0 (to_sorted-All P xs h.1)

All-insert_sorted :
    (P : Subscription → Type 0) (x : Subscription) (ys : List Subscription)
    → All P (insert_sorted x ys)
    → P x × All P ys
unfolding insert_sorted
All-insert_sorted P x [] h = h
All-insert_sorted P x (y ∷ ys) h = ground (arith, All-insert_sorted P x ys)

All-to_sorted :
    (P : Subscription → Type 0) (xs : List Subscription) → All P (to_sorted xs) → All P xs
unfolding to_sorted
All-to_sorted P [] h = tt
All-to_sorted P (x ∷ xs) h =
    let (p, rest) = All-insert_sorted P x (to_sorted xs) h in (p, All-to_sorted P xs rest)

All-weaken :
    (P Q : Subscription → Type 0) (xs : List Subscription)
    → ((x : Subscription) → P x → Q x)
    → All P xs
    → All Q xs
All-weaken P Q [] f h = tt
All-weaken P Q (x ∷ xs) f h = (f x h.0, All-weaken P Q xs f h.1)

All-Memᴰ : (xs : List Subscription) → All (λ x. Memᴰ x xs) xs
All-Memᴰ [] = tt
All-Memᴰ (x ∷ xs) = (
  Memᴰ.head refl,
  All-weaken (λ y. Memᴰ y xs) (λ y. Memᴰ y (x ∷ xs)) xs (λ y m. Memᴰ.tail m) (All-Memᴰ xs),
)

first-insert_sorted :
    (x : Subscription) (ys : List Subscription) → first (insert_sorted x ys) ≢ none
unfolding insert_sorted
first-insert_sorted x [] = cc
first-insert_sorted x (y ∷ ys) = ground arith

select-none : (subs : List Subscription) → first (to_sorted subs) ≡ none → subs ≡ []
unfolding to_sorted
select-none [] h = refl
select-none (x ∷ xs) h = absurd (first-insert_sorted x (to_sorted xs) h)

AtLeast-first :
    (zs : List Subscription) (s : Subscription) (P : Subscription → Type 0)
    → first zs ≡ some s
    → Leads zs
    → All P zs
    → P s × All (AtLeast s) zs
AtLeast-first [] s P e h k = cc
AtLeast-first (z ∷ zs) s P e h k =
    let same : z ≡ s = cc in
    subst (λ t. P t × (AtLeast t z × All (AtLeast t) zs)) same (k.0, (inr (refl, omega arith), h.0))

insert_sorted-any :
    (p : Subscription → Bool) (x : Subscription) (ys : List Subscription)
    → any p (insert_sorted x ys) ≡ (p x || any p ys)
unfolding insert_sorted
insert_sorted-any p x [] = refl
insert_sorted-any p x (y ∷ ys) = ground (arith, insert_sorted-any p x ys)

to_sorted-any : (p : Subscription → Bool) (xs : List Subscription) → any p (to_sorted xs) ≡ any p xs
unfolding to_sorted
to_sorted-any p [] = refl
to_sorted-any p (x ∷ xs) =
    insert_sorted-any p x (to_sorted xs) ∙ ap (λ b. p x || b) (to_sorted-any p xs)

module _ (p : Subscription → Bool) where
  none_of_AtLeast :
      (up : (a b : Subscription) → AtLeast a b → p b ≡ true → p a ≡ true) (x : Subscription)
      (xs : List Subscription)
      → All (AtLeast x) xs
      → p x ≡ false
      → any p xs ≡ false
  none_of_AtLeast up x [] h e = refl
  none_of_AtLeast up x (y ∷ ys) h e = ground (arith, up x y, none_of_AtLeast up x ys)

  -- A property that better subscriptions have too holds of the first of a sorted list, if of any.
  any-eq-first :
      (up : (a b : Subscription) → AtLeast a b → p b ≡ true → p a ≡ true) (xs : List Subscription)
      → Leads xs
      → any p xs ≡ any_of p (first xs)
  any-eq-first up [] h = refl
  any-eq-first up (x ∷ xs) h = ground (arith, none_of_AtLeast up x xs)

abbrev pub status_of : Option Subscription → Option String
status_of none = none
status_of (some s) = some s.status

grants : Subscription → Bool
grants s = grants_membership (some s.status)

AtLeast-grants : (a b : Subscription) → AtLeast a b → grants b ≡ true → grants a ≡ true
unfolding grants priority
AtLeast-grants a b h e = ground arith

any_of-grants : (o : Option Subscription) → any_of grants o ≡ grants_membership (status_of o)
unfolding grants grants_membership
any_of-grants none = refl
any_of-grants (some s) = refl

-- The state that is copied from the selected subscription grants membership exactly if some
-- subscription of the customer does.
pub select-grants :
    (subs : List Subscription)
    → grants_membership (status_of (select_current_subscription subs))
      ≡ any (λ s. grants_membership (some s.status)) subs
unfolding select_current_subscription grants
select-grants subs =
    sym (any_of-grants (first (to_sorted subs)))
    ∙ sym (any-eq-first grants AtLeast-grants (to_sorted subs) (to_sorted-Leads subs))
    ∙ to_sorted-any grants subs

-- The selected subscription is one of the list, and at least as good as every other: no other is in
-- a better class (granting, ongoing, ended), and none of its class was created later. None is
-- selected exactly from the empty list.
pub select-AtLeast :
    (subs : List Subscription)
    → ((s : Subscription)
        → select_current_subscription subs ≡ some s
        → Memᴰ s subs × All (AtLeast s) subs)
      × ((select_current_subscription subs ≡ none) ↔ (subs ≡ []))
unfolding select_current_subscription to_sorted
select-AtLeast subs = (
  λ s e.
      let (m, best) =
        AtLeast-first (to_sorted subs) s (λ x. Memᴰ x subs) e (to_sorted-Leads subs)
          (to_sorted-All (λ x. Memᴰ x subs) subs (All-Memᴰ subs)) in
      (m, All-to_sorted (AtLeast s) subs best),
  (select-none subs, λ e. rw e refl),
)
