-- ===== src/Viewer/Signals.antt =====
-- src/ext/viewer.mjs: the engine's signals do not grow the tab's history.
use browsception.Viewer.{
  Viewer, sync_tab_history, opt_text_eq, ViewerCall, push_state, is_known_index, Step, synced,
  replace_state, same_url,
}
use browsception.Prelude.Integers.{ℤ, opt_int_eq}
use browsception.Prelude.{
  ◌≡◌, Option, true, Text, some, false, [], ap, arith, Bool, none, refl, All, text_eq_iff,
  text_eq_refl, sym, ◌&&◌, if◌then◌else◌, not, ◌||◌,
}
use browsception.Host.{UrlParser}
use browsception.Viewer.History.{int_eq-true}

-- A call that adds no entry to the tab's history.
abbrev pub AddsNone : ViewerCall → Type 0
AddsNone (push_state index url) = ⊥
AddsNone _ = Unit

opt_int_eq-true : (a b : Option ℤ) → opt_int_eq a b ≡ true → a ≡ b
opt_int_eq-true none none h = refl
opt_int_eq-true none (some b) h = cc
opt_int_eq-true (some a) none h = cc
opt_int_eq-true (some a) (some b) h = ap some (int_eq-true a b h)

opt_text_eq-true : (a b : Option Text) → opt_text_eq a b ≡ true → a ≡ b
opt_text_eq-true none none h = refl
opt_text_eq-true none (some b) h = cc
opt_text_eq-true (some a) none h = cc
opt_text_eq-true (some a) (some b) h = ap some ((text_eq_iff a b).0 h)

module _ (parse : UrlParser) (tab_url_for : Text → Text) (v : Viewer) (url : Text)
    (index : Option ℤ) where
  abbrev unforced : Viewer
  unforced = record v { force_replace = false }

  abbrev replaced : Bool → Bool → Step
  replaced allowed changed =
      if changed
      then synced unforced url index allowed (replace_state index (tab_url_for url))
      else (unforced, [])

  replaced-AddsNone : (allowed changed : Bool) → All AddsNone (replaced allowed changed).1
  replaced-AddsNone true true = (tt, tt)
  replaced-AddsNone false true = tt
  replaced-AddsNone allowed false = tt

  no_push : (a b c : Bool) → (a && b && c && false) ≡ false
  no_push true true true = refl
  no_push true true false = refl
  no_push true false c = refl
  no_push false b c = refl

  -- Once the mirror is at a URL, more signals of that URL add no entry.
  same-AddsNone :
      (allowed is_new : Bool)
      → v.mirror_url ≡ some url
      → All AddsNone (sync_tab_history parse tab_url_for allowed v url is_new index).1
  unfolding sync_tab_history
  same-AddsNone allowed is_new at =
      let same : same_url parse (some url) v.mirror_url ≡ true =
        rw at (ground (arith, text_eq_refl url)) in
      rw (same, no_push is_new (is_known_index v.mirror_index) (not v.force_replace))
        (replaced-AddsNone allowed
          (not (opt_text_eq (some url) v.mirror_url) || not (opt_int_eq index v.mirror_index)))

  abbrev Mirrors : Viewer → Type 0
  Mirrors w = (w.mirror_url ≡ some url) × (w.mirror_index ≡ index)

  choice-Mirrors :
      (push changed : Bool)
      → (changed ≡ false → Mirrors unforced)
      → Mirrors
          (if push
            then synced unforced url index true (push_state index (tab_url_for url))
            else replaced true changed).0
  choice-Mirrors true changed h = (refl, refl)
  choice-Mirrors false true h = (refl, refl)
  choice-Mirrors false false h = h refl

  sync-Mirrors :
      (is_new : Bool) → Mirrors (sync_tab_history parse tab_url_for true v url is_new index).0
  unfolding sync_tab_history
  sync-Mirrors is_new =
      choice-Mirrors _
        (not (opt_text_eq (some url) v.mirror_url) || not (opt_int_eq index v.mirror_index))
        λ h. (
          sym (opt_text_eq-true (some url) v.mirror_url (ground (arith, h))),
          sym (opt_int_eq-true index v.mirror_index (ground (arith, h))),
        )

-- A navigation grows the tab's history once: a signal that the browser lets through leaves the
-- mirror at its URL and index, and another signal of that URL, of whatever kind and index, adds no
-- entry.
pub signal-AddsNone :
    (parse : UrlParser) (tab_url_for : Text → Text) (v : Viewer) (url : Text)
    (first second : Option ℤ) (is_new again allowed : Bool)
    → let after = (sync_tab_history parse tab_url_for true v url is_new first).0 in
      (after.mirror_url ≡ some url)
      × (after.mirror_index ≡ first)
      × All AddsNone (sync_tab_history parse tab_url_for allowed after url again second).1
signal-AddsNone parse tab_url_for v url first second is_new again allowed =
    let (at, index) = sync-Mirrors parse tab_url_for v url first is_new in
    (at, index, same-AddsNone parse tab_url_for _ url second allowed again at)
