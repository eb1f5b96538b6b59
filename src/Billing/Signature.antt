-- ===== src/Billing/Signature.antt =====
-- `verifyStripe` of site/src/lib.ts, and the webhook behind it.
use text.Mathlib.Text.{starts_with}
use thelab_ms.Base.{
  ℕ, ◌+◌, String, Bool, false, ◌&&◌, ◌||◌, not, Option, none, some, List, [], ◌∷◌, map, ◌==◌,
  string_eq, nat_eq, if◌then◌else◌, any, find, leb, template, utf16_length, drop_chars, number_of,
}
use thelab_ms.Json.{Json}
use thelab_ms.App.{http_error, Result, ok, err, Platform, App, ◌>>=◌, ◌>>◌, now}
use thelab_ms.Clients.{lift}
use thelab_ms.Session.{split, all_codes}
use thelab_ms.Forms.{trim}
use thelab_ms.Billing.Sync.{stripe_webhook}

is_digit : ℕ → Bool
is_digit c = leb b'0' c && leb c b'9'

-- [a-f0-9], with the flag i
is_hex : ℕ → Bool
unfolding is_digit
is_hex c = is_digit c || ((leb b'a' c && leb c b'f') || (leb b'A' c && leb c b'F'))

slice_two : Option String → String
slice_two none = ""
slice_two (some part) = drop_chars 2 part

-- parts.find(s => s.startsWith('t='))?.slice(2) || ''
unfoldable pub signed_time : List String → String
unfolding slice_two
signed_time parts = slice_two (find (λ part. starts_with part "t=") parts)

-- /^\d+$/.test(timestamp) && Math.abs(now() - Number(timestamp)) <= 300
unfoldable pub is_recent : ℕ → String → Bool
unfolding is_digit
is_recent seconds timestamp =
    not (timestamp == "")
    && (all_codes is_digit timestamp
        && (leb (number_of timestamp) (seconds + 300) && leb seconds (number_of timestamp + 300)))

starts_version : String → Bool
starts_version part = starts_with part "v1=" || starts_with part "V1="

-- /^v1=([a-f0-9]{64})$/i, with the digits that it captures
unfoldable pub signature_digits : String → Option String
unfolding starts_version is_hex
signature_digits part =
    let digits = drop_chars 3 part in
    if starts_version part && (all_codes is_hex digits && utf16_length digits == 64)
    then some digits
    else none

-- `verify` tells whether hexadecimal digits are the signature of a text under the webhook's secret.
verifies : (String → String → Bool) → String → Option String → Bool
verifies verify signed_text none = false
verifies verify signed_text (some digits) = verify digits signed_text

unfoldable pub verify_stripe :
    (verify : String → String → Bool)
    → (secret header : String) → (seconds : ℕ) → (text : String) → Result (Unit {0})
unfolding verifies
verify_stripe verify secret header seconds text =
    let parts = map trim (split b',' header) in
    let timestamp = signed_time parts in
    let signed_text = template (timestamp ∷ "." ∷ text ∷ []) in
    if secret == ""
    then err (http_error 503 "Stripe webhooks are not configured.")
    else if not (is_recent seconds timestamp)
    then err (http_error 400 "Invalid Stripe signature.")
    else if any (λ part. verifies verify signed_text (signature_digits part)) parts
    then ok tt
    else err (http_error 400 "Invalid Stripe signature.")

-- `stripeWebhook`: `parse` is JSON.parse, `none` where it throws.
unfoldable pub signed_webhook :
    (p : Platform) (fuel : ℕ) (verify : String → String → Bool) (parse : String → Option Json)
    (header text : String)
    → App ℕ
signed_webhook p fuel verify parse header text = do
  seconds ← now p
  lift (verify_stripe verify p.env.stripe_webhook_secret header seconds text)
  stripe_webhook p fuel (parse text)
