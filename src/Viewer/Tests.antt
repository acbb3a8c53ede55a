-- ===== src/Viewer/Tests.antt =====
-- Steps back, snapshots and wheels, and inputs that the theorems apply to.
use browsception.Viewer.Persist.{
  persist_all, PersistEvent, new_persist, snapshot, latest, good_writes, IsResting, timer_fired,
  write_failed, persist_all-rests, write_done, persist,
}
use browsception.Viewer.{
  UrlSignal, normalize_engine_url, is_shown, sync_tab_history, Viewer, pop_state, on_url, drive,
  ends_scheme, engine_go, engine_load,
}
use browsception.Prelude.{
  ℕ, Text, List, ◌≡◌, true, some, codes, none, false, ◌++◌, [], trim, ◌∷◌, All, text_eq, ◌≢◌, refl,
  starts_with, map,
}
use browsception.Host.{UrlParser, Url, has_http_scheme, is_http_url}
use browsception.Viewer.Input.{
  button, on_input, on_inputs, wheeled, ticked, Wheel, InputEvent, mods, Move,
}
use browsception.Prelude.Integers.{ℤ, int_eq, pos, negsuc, int_le, ◌+ℤ◌, int_lt, ◌-ℤ◌}
use browsception.Viewer.Wheels.{living, IsGathered, held_wheels, sent_wheels, turned_wheels}
use browsception.Viewer.Gathered.{on_inputs-IsGathered}
use browsception.Viewer.History.{obeyed, IsHop, hop-arrives, burst-overshoots}
use browsception.Viewer.Signals.{AddsNone, signal-AddsNone}

viewer : Unit {0}
unfolding on_url sync_tab_history drive pop_state normalize_engine_url ends_scheme trim text_eq
    has_http_scheme is_http_url starts_with ◌-ℤ◌ ◌+ℤ◌ on_input on_inputs mods persist persist_all
    latest
viewer = tt

abbrev web : Text
web = codes "https://a.b/"

abbrev page : Url
page = record {
  href = web;
  protocol = codes "https:";
  username = [];
  password = [];
  hostname = codes "a.b";
  port = [];
}

abbrev parser : UrlParser
parser s = some page

abbrev tab_of : Text → Text
tab_of url = codes "/viewer?url=" ++ url

-- The engine is at entry 2 of 5.
abbrev at_two : Viewer
at_two = record {
  ready = true;
  dead = false;
  url = some web;
  index = some (pos 2);
  length = pos 5;
  mirror_url = some web;
  mirror_index = some (pos 2);
  force_replace = false;
  want = none;
  issued_from = none;
}

abbrev new_page : UrlSignal
new_page = record {
  url = some (codes "https://c/");
  is_new = true;
  index = some (pos 3);
  length = pos 4;
}

viewer_tests :
    (normalize_engine_url parser (codes " a.b/x ") ≡ some (codes "https://a.b/x"))
    × ((pop_state parser at_two (some (pos 0)) (some web)).1 ≡ engine_go (negsuc 1) ∷ [])
    × ((pop_state parser at_two (some (pos 7)) (some web)).1 ≡ engine_load web ∷ [])
    × (pos 2 -ℤ pos 5 ≡ negsuc 2)
    × ((on_input ◌+ℤ◌
          (living none none)
          (button true 3 (record { x = pos 0; y = pos 0; mods = 0 }) 1)).1
        ≡ [])
    × (mods (record { shift = true; ctrl = false; alt = true; meta = false }) ≡ 5)
unfolding viewer
viewer_tests = (refl, refl, refl, refl, refl, refl)

at_two-IsHop :
    (i : ℤ)
    → int_eq (pos 2) i ≡ false
    → int_le (pos 0) i ≡ true
    → int_lt i (pos 5) ≡ true
    → IsHop at_two (pos 2) i
at_two-IsHop i a b c = (refl, a, b, c)

web-is_shown : is_shown web ≡ true
unfolding viewer
web-is_shown = refl

hop-arrives_example :
    let popped = pop_state parser at_two (some (pos 0)) (some web) in
    let after = on_url parser tab_of true popped.0 (obeyed (pos 2) (pos 0 -ℤ pos 2) web (pos 5)) in
    (popped.1 ≡ engine_go (pos 0 -ℤ pos 2) ∷ [])
    × (after.1 ≡ [])
    × (after.0.want ≡ none)
    × (after.0.index ≡ some (pos 0))
    × (after.0.mirror_index ≡ some (pos 0))
    × (after.0.mirror_url ≡ some web)
hop-arrives_example =
    hop-arrives parser tab_of true at_two (pos 2) (pos 0) (pos 5) web (refl, refl)
      (at_two-IsHop (pos 0) refl refl refl) web-is_shown

burst-overshoots_example :
    let one = pop_state parser at_two (some (pos 1)) none in
    let two = pop_state parser one.0 (some (pos 0)) none in
    (one.1 ≡ engine_go (pos 1 -ℤ pos 2) ∷ [])
    × (two.1 ≡ engine_go (pos 0 -ℤ pos 2) ∷ [])
    × ((pos 2 +ℤ (pos 1 -ℤ pos 2)) +ℤ (pos 0 -ℤ pos 2) ≢ pos 0)
burst-overshoots_example =
    burst-overshoots parser at_two (pos 2) (pos 1) (pos 0) none none (refl, refl)
      (at_two-IsHop (pos 1) refl refl refl) (at_two-IsHop (pos 0) refl refl refl)

signal-AddsNone_example :
    let after =
      (sync_tab_history parser tab_of true at_two (codes "https://c/") true (some (pos 2))).0 in
    (after.mirror_url ≡ some (codes "https://c/"))
    × (after.mirror_index ≡ some (pos 2))
    × All AddsNone
        (sync_tab_history parser tab_of true after (codes "https://c/") true (some (pos 3))).1
signal-AddsNone_example =
    signal-AddsNone parser tab_of at_two (codes "https://c/") (some (pos 2)) (some (pos 3)) true
      true true

abbrev snapshots : List PersistEvent
snapshots =
    snapshot (codes "a")
    ∷ timer_fired
    ∷ snapshot (codes "b")
    ∷ write_failed
    ∷ timer_fired
    ∷ write_done
    ∷ []

persist_all-rests_example :
    let s = persist_all (persist_all (new_persist none) snapshots) good_writes in
    IsResting s × (s.file ≡ latest none snapshots)
persist_all-rests_example = persist_all-rests none snapshots

abbrev turn : ℕ → Wheel ℤ
turn m = record { x = pos 1; y = pos 1; dx = pos 2; dy = negsuc 9; mods = m }

abbrev turns : List (InputEvent ℤ)
turns = wheeled (turn 0) ∷ wheeled (turn 0) ∷ wheeled (turn 1) ∷ ticked ∷ wheeled (turn 1) ∷ []

abbrev place : Move ℤ
place = record { x = pos 3; y = pos 4; mods = 0 }

wheel_tests :
    map {B = ℤ × ℤ} (λ w. (w.dx, w.dy)) (sent_wheels (on_inputs ◌+ℤ◌ (living none none) turns).1)
    ≡ (pos 4, negsuc 19) ∷ (pos 2, negsuc 9) ∷ []
unfolding viewer
wheel_tests = refl

-- The addition of integers stands for that of numbers.
on_inputs-IsGathered_example :
    let r = on_inputs ◌+ℤ◌ (living none none) turns in
    IsGathered ◌+ℤ◌ (held_wheels none ++ turned_wheels turns) r
    × ((on_input ◌+ℤ◌ r.0 ticked).0.pending_wheel ≡ none)
    × ((on_input ◌+ℤ◌ r.0 (button true 0 place 1)).0.pending_wheel ≡ none)
on_inputs-IsGathered_example =
    on_inputs-IsGathered ◌+ℤ◌ (living none none) turns true 0 place 1 refl refl
