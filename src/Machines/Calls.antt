-- ===== src/Machines/Calls.antt =====
-- The calls of the machines page, as they go on (site/static/machines.js).
use thelab_ms.Base.{
  ℕ, ◌+◌, String, ◌≡◌, ◌≢◌, refl, ap, Bool, true, false, ◌&&◌, ◌||◌, not, Option, none, some, List,
  [], ◌∷◌, ◌++◌, map, string_eq, nat_eq, option_eq, All, Bool-cases, inl, inr, arith,
}
use thelab_ms.Json.{Json}
use thelab_ms.App.{Url}
use thelab_ms.Machines.{Access}
use thelab_ms.Machines.Cards.{Card, Resolved, validate_cards}
use thelab_ms.Machines.Dashboard.{
  Shown, Dashboard, clear_dashboard, is_off, is_active, is_aborted, is_usable,
}
use thelab_ms.Machines.Replies.{
  Head, threw, head, is_denied, is_ok, has_blob, access_replied, use_access, access_read,
  status_replied, article, image_task, show_cards, is_empty, use_cards, status_read, is_image,
  hide_image, image_replied, image_read,
}
use thelab_ms.Machines.Sound.{
  HasBlob, Sound, tasks-Sound, if-Sound, finish-Sound, fail-Sound, ask_status-Sound, deny-Sound,
}

-- A change of the images that keeps each one's blob URL.
images-Sound :
    (blobs : List ℕ) (urls : ℕ) (f : Shown → Shown) (d : Dashboard)
    → (is_off d ≡ true → blobs ≡ [])
    → ((s : Shown) → HasBlob d.blobs s → HasBlob blobs (f s))
    → Sound d
    → Sound (record d { urls = urls; blobs = blobs; cards = map f d.cards })
images-Sound blobs urls f d k keep h = record {
  denied = h.denied;
  off = λ o.
      let dark = h.off o in
      record {
        cards = ap (map f) dark.cards;
        blobs = k o;
        current = dark.current;
        expiry = dark.expiry;
      };
  timed = h.timed;
  shown = λ e. ap (map f) (h.shown e);
  images = mapped d.cards h.images;
}
  where
    mapped : (cards : List Shown) → All (HasBlob d.blobs) cards → All (HasBlob blobs) (map f cards)
    mapped [] all = tt
    mapped (s ∷ rest) all = (keep s all.0, mapped rest all.1)

pub same_blobs-Sound :
    (f : Shown → Shown) (d : Dashboard)
    → ((s : Shown) → HasBlob d.blobs s → HasBlob d.blobs (f s))
    → Sound d
    → Sound (record d { cards = map f d.cards })
same_blobs-Sound f d keep h = images-Sound d.blobs d.urls f d (λ o. (h.off o).blobs) keep h

pub access_replied-Sound :
    (operation started : ℕ) (h : Head) (d : Dashboard)
    → Sound d
    → Sound (access_replied operation started h d)
unfolding access_replied
access_replied-Sound operation started threw d s = fail-Sound operation d s
access_replied-Sound operation started (head status jpeg) d s =
    if-Sound _ _ _ (finish-Sound operation d s) (
      if-Sound (is_denied status) _ _ (finish-Sound operation _ (deny-Sound d))
        (if-Sound (is_ok status) _ _ (tasks-Sound _ d s) (fail-Sound operation d s)))

module _ (parse_url : String → Option Url) (decode : String → Option Json) where
  use_access-Sound :
      (now operation : ℕ) (access : Option Access) (d : Dashboard)
      → is_off d ≡ false
      → Sound d
      → Sound (use_access parse_url decode now operation access d)
  use_access-Sound now operation none d on s = fail-Sound operation d s
  use_access-Sound now operation (some access) d on s =
      ask_status-Sound now operation
        (record d { access = some access; expiry = some access.expires })
        (record {
          denied = λ stopped. absurd (ground (arith, on, stopped));
          off = λ o. absurd (ground (arith, on, o));
          timed = λ _. refl;
          shown = λ e. absurd (cc);
          images = s.images;
        })

  pub access_read-Sound :
      (now operation started : ℕ) (reply : Option Json) (d : Dashboard)
      → Sound d
      → Sound (access_read parse_url decode now operation started reply d)
  unfolding access_read
  access_read-Sound now operation started none d s = fail-Sound operation d s
  access_read-Sound now operation started (some reply) d s =
      elim (Bool-cases (not (is_active operation d) || is_aborted operation d)) [
        | inl over ↦ rw over (finish-Sound operation d s)
        | inr live ↦ rw live (use_access-Sound now operation _ d (ground (arith, live)) s)
      ]

pub status_replied-Sound :
    (now operation : ℕ) (edge : String) (h : Head) (d : Dashboard)
    → Sound d
    → Sound (status_replied now operation edge h d)
unfolding status_replied
status_replied-Sound now operation edge threw d s = fail-Sound operation d s
status_replied-Sound now operation edge (head status jpeg) d s =
    if-Sound _ _ _ (finish-Sound operation d s) (
      if-Sound (is_denied status) _ _ (finish-Sound operation _ (deny-Sound d))
        (if-Sound (is_ok status) _ _ (tasks-Sound _ d s) (fail-Sound operation d s)))

hidden_images :
    (operation : ℕ) (cards : List Card) → All (HasBlob []) (map (article operation) cards)
hidden_images operation [] = tt
hidden_images operation (card ∷ rest) = ((λ e. absurd (cc)), hidden_images operation rest)

show_cards-Sound :
    (now operation : ℕ) (cards : List Card) (d : Dashboard)
    → is_usable now operation d ≡ true
    → Sound d
    → Sound (show_cards operation cards d)
unfolding show_cards clear_dashboard
show_cards-Sound now operation cards d usable s =
    finish-Sound operation
      (record d {
        cards = map (article operation) cards;
        is_none_configured = is_empty cards;
        blobs = [];
        status_line = "";
        tasks = map (image_task operation) cards ++ d.tasks;
      })
      (record {
        denied = s.denied;
        off = λ o. absurd (ground (arith, usable, o));
        timed = s.timed;
        shown = λ e. absurd (no_access e);
        images = hidden_images operation cards;
      })
  where
    no_access : d.access ≢ none
    no_access e = ground (arith, usable, e)

module _ (resolve : String → String → Option Resolved) where
  pub status_read-Sound :
      (now operation : ℕ) (edge : String) (reply : Option Json) (d : Dashboard)
      → Sound d
      → Sound (status_read resolve now operation edge reply d)
  unfolding status_read
  status_read-Sound now operation edge none d s = fail-Sound operation d s
  status_read-Sound now operation edge (some reply) d s = used (validate_cards resolve edge reply)
    where
      used : (cards : Option (List Card)) → Sound (use_cards resolve now operation cards d)
      used none = fail-Sound operation d s
      used (some cards) = elim (Bool-cases (is_usable now operation d)) [
        | inl usable ↦ rw usable (show_cards-Sound now operation cards d usable s)
        | inr gone ↦ rw gone (finish-Sound operation d s)
      ]

hide_image-Sound :
    (operation : ℕ) (path : String) (d : Dashboard) → Sound d → Sound (hide_image operation path d)
hide_image-Sound operation path d s =
    same_blobs-Sound _ d
      (λ shown has. elim (Bool-cases (is_image operation path shown)) [
        | inl it ↦ rw it (λ e. absurd (cc))
        | inr other ↦ rw other has
      ])
      s

pub image_replied-Sound :
    (now operation : ℕ) (path : String) (h : Head) (d : Dashboard)
    → Sound d
    → Sound (image_replied now operation path h d)
unfolding image_replied
image_replied-Sound now operation path threw d s =
    finish-Sound operation _ (hide_image-Sound operation path d s)
image_replied-Sound now operation path (head status jpeg) d s =
    if-Sound _ _ _ (finish-Sound operation d s) (
      if-Sound (is_denied status) _ _ (finish-Sound operation _ (deny-Sound d)) (
        if-Sound (is_ok status && jpeg) _ _ (tasks-Sound _ d s)
          (finish-Sound operation _ (hide_image-Sound operation path d s))))

pub image_read-Sound :
    (now operation : ℕ) (path : String) (fine : Bool) (d : Dashboard)
    → Sound d
    → Sound (image_read now operation path fine d)
unfolding image_read
image_read-Sound now operation path false d s =
    finish-Sound operation _ (hide_image-Sound operation path d s)
image_read-Sound now operation path true d s = elim (Bool-cases (is_usable now operation d)) [
  | inl usable ↦ rw usable (
      finish-Sound operation _ (
        images-Sound (d.urls ∷ d.blobs) (d.urls + 1) _ d (λ o. absurd (ground (arith, usable, o)))
          (λ shown has. elim (Bool-cases (is_image operation path shown)) [
            | inl it ↦ rw it (λ e. ground arith)
            | inr other ↦ rw other (λ e. ground (arith, kept shown.url (has e)))
          ])
          s))
  | inr gone ↦ rw gone (finish-Sound operation d s)
]
  where
    kept : (url : Option ℕ) → has_blob d.blobs url ≡ true → has_blob (d.urls ∷ d.blobs) url ≡ true
    kept none h = h
    kept (some n) h = ground (arith, h)
