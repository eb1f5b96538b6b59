-- ===== src/Examples/Router.antt =====
-- Dispatch at a concrete request.
use thelab_ms.Base.{String, ◌≡◌, refl, ◌⊎◌, true, Option, none, some}
use thelab_ms.App.{ok}
use thelab_ms.Router.{dispatch, find_handler, under, kiosk_claim}
use thelab_ms.Router.Origins.{is_machine, is_nudge, dispatch-same_origin}

claim_dispatched : dispatch "https://thelab.ms" "POST" "/kiosk/claims" none ≡ ok kiosk_claim
unfolding dispatch find_handler under
claim_dispatched = refl

dispatch-same_origin_example :
    (◌≡◌ {A = Option String} none (some "https://thelab.ms"))
    ⊎ ((is_machine kiosk_claim ≡ true) ⊎ (is_nudge kiosk_claim ≡ true))
dispatch-same_origin_example =
    dispatch-same_origin "https://thelab.ms" "/kiosk/claims" none kiosk_claim claim_dispatched
