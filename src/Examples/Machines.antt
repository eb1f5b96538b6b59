-- ===== src/Examples/Machines.antt =====
-- The machines page at concrete inputs.
use thelab_ms.Base.{
  ◌∷◌, drop_chars, ℕ, String, ◌≡◌, refl, true, false, [], Option, some, string_eq, utf16_length,
}
use thelab_ms.App.{Url}
use thelab_ms.Json.{
  Json, Items, obj, arr, bool, field, str, num, end, prop, get_field, as_string, as_num,
}
use thelab_ms.Session.{split, all_codes}
use thelab_ms.Clients.{decode_all}
use thelab_ms.Machines.{Access, credentials, from_url_alphabet, is_printer_token}
use thelab_ms.Machines.Credentials.{Bounded, credentials-Bounded}
use thelab_ms.Machines.Cards.{Resolved, read_card, is_image_path, is_distinct, validate_cards}
use thelab_ms.Machines.Dashboard.{
  Dashboard, asking_access, reading_access, asking_status, reading_status, asking_image, Stage,
  clear_dashboard, cancel_refresh, pause, deny_access, refresh, resume,
}
use thelab_ms.Machines.Replies.{
  head, show_cards, access_replied, access_read, status_replied, status_read, image_replied,
}
use thelab_ms.Machines.Events.{
  Outcome, replied, parsed, proceed, proceeded, hid, hide_page, Steps, stay, then_, opened,
}
use thelab_ms.Machines.Sound.{Sound}
use thelab_ms.Machines.Shown.{Steps-Sound}
use thelab_ms.Machines.Denied.{Quiet, Steps-Quiet}
use thelab_ms.Examples.Sample.{edge_url}

abbrev any_url : String → Option Url
any_url text = some edge_url

abbrev printer_claims : String → Option Json
printer_claims text = some (
    obj (
      field "scope" (str "printers:read") (
        field "aud" (str "https://edge.thelab.ms")
          (field "iat" (num 1700000000) (field "exp" (num 1700000060) end)))))

abbrev reply : Json
reply = obj (field "token" (str "h.c_1.s") (field "edge" (str "https://edge.thelab.ms") end))

abbrev granted : Access
granted = record {
  edge = "https://edge.thelab.ms";
  token = "h.c_1.s";
  expires = 1700000059000;
  renew = 1700000044000;
}

grants : credentials any_url printer_claims reply 1699999999000 1700000000000 ≡ some granted
unfolding credentials from_url_alphabet is_printer_token prop get_field as_string as_num split
    utf16_length
grants = refl

credentials-Bounded_example : Bounded any_url 1699999999000 1700000000000 granted
credentials-Bounded_example =
    credentials-Bounded any_url printer_claims 1699999999000 1700000000000 reply granted grants

abbrev own_origin : String → String → Option Resolved
own_origin path edge = some (record { origin = edge; pathname = path })

abbrev one_card : Json
one_card = obj (
    field "Name" (str "Prusa") (
      field "Status" (str "Printing") (
        field "Remaining" (str "1h") (
          field "Updated" (str "now") (
            field "Image" (str "/machines/images/prusa.jpg")
              (field "Unavailable" (bool false) end))))))

-- The page goes on with the only call that waits.
abbrev next : ℕ → Stage → Outcome → Dashboard → Dashboard
next now stage outcome d =
    proceed any_url printer_claims own_origin now 0 stage outcome (record d { tasks = [] })

abbrev asked : Dashboard
asked = opened 1699999999000 false

abbrev answered : Dashboard
answered = next 1700000000000 (asking_access 1699999999000) (replied (head 200 false)) asked

abbrev allowed : Dashboard
allowed = next 1700000000000 (reading_access 1699999999000) (parsed (some reply)) answered

abbrev told : Dashboard
told =
    next 1700000000100 (asking_status "https://edge.thelab.ms") (replied (head 200 false)) allowed

abbrev listed : Dashboard
listed =
    next 1700000000200 (reading_status "https://edge.thelab.ms")
      (parsed (some (arr (Items.cons one_card Items.nil)))) told

abbrev denied : Dashboard
denied =
    next 1700000000300 (asking_image "/machines/images/prusa.jpg") (replied (head 403 false)) listed

listed-Steps : Steps any_url printer_claims own_origin asked listed
unfolding opened resume refresh proceed access_replied access_read status_replied status_read
    validate_cards read_card is_image_path is_distinct show_cards clear_dashboard credentials
    from_url_alphabet is_printer_token prop get_field as_string as_num split utf16_length
listed-Steps =
    then_
      (then_
        (then_
          (then_ (stay asked) (
            proceeded 1700000000000 [] []
              (record { operation = 0; stage = asking_access 1699999999000 })
              (replied (head 200 false)) asked refl refl))
          (proceeded 1700000000000 [] []
            (record { operation = 0; stage = reading_access 1699999999000 }) (parsed (some reply))
            answered refl refl))
        (proceeded 1700000000100 [] []
          (record { operation = 0; stage = asking_status "https://edge.thelab.ms" })
          (replied (head 200 false)) allowed refl refl))
      (proceeded 1700000000200 [] []
        (record { operation = 0; stage = reading_status "https://edge.thelab.ms" })
        (parsed (some (arr (Items.cons one_card Items.nil)))) told refl refl)

Steps-Sound_example : Sound listed
Steps-Sound_example =
    Steps-Sound any_url printer_claims own_origin 1699999999000 false listed listed-Steps

is_denied : denied.stopped ≡ true
unfolding opened resume refresh proceed access_replied access_read status_replied status_read
    validate_cards read_card is_image_path is_distinct show_cards clear_dashboard credentials
    from_url_alphabet is_printer_token prop get_field as_string as_num split utf16_length
    image_replied deny_access pause cancel_refresh decode_all all_codes drop_chars
is_denied = refl

-- Denied while the call for a second image still waits.
abbrev waiting : Dashboard
waiting = record denied {
  tasks = record { operation = 0; stage = asking_image "/machines/images/mk4.jpg" } ∷ [];
}

abbrev replied_late : Dashboard
replied_late =
    proceed any_url printer_claims own_origin 1700000000400 0
      (asking_image "/machines/images/mk4.jpg") (replied (head 200 true))
      (record waiting { tasks = [] })

Steps-Quiet_example : Quiet waiting (hide_page replied_late) 1
Steps-Quiet_example =
    Steps-Quiet any_url printer_claims own_origin waiting (hide_page replied_late)
      (then_
        (then_ (stay waiting) (
          proceeded 1700000000400 [] []
            (record { operation = 0; stage = asking_image "/machines/images/mk4.jpg" })
            (replied (head 200 true)) waiting refl refl))
        (hid replied_late))
      is_denied
