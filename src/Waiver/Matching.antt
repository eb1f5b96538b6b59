-- ===== src/Waiver/Matching.antt =====
-- Signing by email address, for someone who is not signed in.
use thelab_ms.Base.{ℕ, String, ◌≡◌, refl, ◌⊎◌, List, [], ◌∷◌, keep, inl, inr}
use thelab_ms.Rows.{Member}
use thelab_ms.Database.{
  Database, Outcome, done, unique_failed, foreign_key_failed, exec, preregister, sign_by_email,
  has_either_email, insert_waiver, sign_only, and_then,
}
use thelab_ms.Waiver.{Signature, match_and_sign}

-- The database is as it was, or one row alone has the address and the waiver is that row's.
abbrev pub SignedAlone : ℕ → Signature → Database → Database → Type 0
SignedAlone now s c b =
    (b ≡ c)
    ⊎ ((m : Member) × (keep (has_either_email s.email) c.members ≡ m ∷ [])
        × (b ≡ insert_waiver now s.name s.email m.member_id c))

sign_only-SignedAlone :
    (now : ℕ) (s : Signature) (ms : List Member) (c b : Database)
    → keep (has_either_email s.email) c.members ≡ ms
    → done (sign_only now s.name s.email ms c) ≡ done b
    → SignedAlone now s c b
unfolding sign_only
sign_only-SignedAlone now s [] c b e h = inl (cc)
sign_only-SignedAlone now s (m ∷ []) c b e h = inr (m, e, cc)
sign_only-SignedAlone now s (m ∷ n ∷ ms) c b e h = inl (cc)

and_then-SignedAlone :
    (now : ℕ) (s : Signature) (b : Database) (o : Outcome)
    → and_then o (exec now (sign_by_email s.name s.email)) ≡ done b
    → (c : Database) × (o ≡ done c) × SignedAlone now s c b
unfolding and_then exec
and_then-SignedAlone now s b (done c) h = (c, refl, sign_only-SignedAlone now s _ c b refl h)
and_then-SignedAlone now s b (unique_failed column) h = absurd (cc)
and_then-SignedAlone now s b foreign_key_failed h = absurd (cc)

-- The batch for someone who is not signed in first pre-registers the address where no row has it. Then it
-- either signs nothing, or there is one row alone with the address, and it records the waiver for that
-- row: it never picks between two members.
pub match_and_sign-SignedAlone :
    (now : ℕ) (id : String) (s : Signature) (a b : Database)
    → match_and_sign id s now a ≡ done b
    → (c : Database) × (exec now (preregister id s.email) a ≡ done c) × SignedAlone now s c b
unfolding match_and_sign
match_and_sign-SignedAlone now id s a b h =
    and_then-SignedAlone now s b (exec now (preregister id s.email) a) h
