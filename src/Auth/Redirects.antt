-- ===== src/Auth/Redirects.antt =====
-- Where a sign-in can lead to.
use Prim.Native.Char.{code}
use thelab_ms.Base.{
  ℕ, String, ◌≡◌, refl, Bool, true, false, ◌&&◌, ◌||◌, not, Option, none, some, ◌==◌, string_eq,
  nat_eq, if◌then◌else◌, arith, Bool-cases, inl, inr,
}
use thelab_ms.Forms.{is_control}
use thelab_ms.Session.{all_codes}
use thelab_ms.Auth.{local_start, is_local, safe_next}

-- What a browser makes of a Location: it drops tabs (9) and newlines (10, 13).
abbrev is_dropped : ℕ → Bool
is_dropped c = c == 9 || (c == 10 || c == 13)

unfoldable pub browser_path : String → String
browser_path String.[] = ""
browser_path (String.◌∷◌ c s) =
    let rest = browser_path s in if is_dropped (code c) then rest else String.◌∷◌ c rest

-- A browser leaves the site at `//` and at `/\`.
leaves_after : String → Bool
leaves_after String.[] = false
leaves_after (String.◌∷◌ c s) = code c == 47 || code c == 92

unfoldable pub stays_on_site : String → Bool
unfolding leaves_after
stays_on_site String.[] = false
stays_on_site (String.◌∷◌ c s) = code c == 47 && not (leaves_after s)

browser_path_plain :
    (s : String) → all_codes (λ c. not (is_control c)) s ≡ true → browser_path s ≡ s
unfolding all_codes browser_path
browser_path_plain String.[] h = refl
browser_path_plain (String.◌∷◌ c s) h = elim (Bool-cases (is_dropped (code c))) [
  | inl dropped ↦ absurd (ground (arith, dropped, h))
  | inr kept ↦ rw (kept, browser_path_plain s (ground (arith, h))) refl
]

local_plain : (s : String) → is_local s ≡ true → all_codes (λ c. not (is_control c)) s ≡ true
unfolding is_local local_start all_codes
local_plain String.[] h = refl
local_plain (String.◌∷◌ c s) h = ground (arith, h)

local_on_site : (s : String) → is_local s ≡ true → stays_on_site s ≡ true
unfolding is_local local_start stays_on_site leaves_after
local_on_site String.[] h = absurd (ground (arith, h))
local_on_site (String.◌∷◌ c String.[]) h = ground (arith, h)
local_on_site (String.◌∷◌ c (String.◌∷◌ d s)) h = ground (arith, h)

is_local-stays : (s : String) → is_local s ≡ true → stays_on_site (browser_path s) ≡ true
is_local-stays s h = rw (browser_path_plain s (local_plain s h)) (local_on_site s h)

-- Wherever a sign-in is asked to lead, a browser that follows the redirect stays on the site, even after
-- it has dropped the tabs and newlines of the path.
pub safe_next-stays :
    (value : Option String) → stays_on_site (browser_path (safe_next value)) ≡ true
unfolding safe_next browser_path stays_on_site leaves_after
safe_next-stays none = refl
safe_next-stays (some value) = elim (Bool-cases (is_local value)) [
  | inl fine ↦ rw fine (is_local-stays value fine)
  | inr bad ↦ rw bad refl
]
