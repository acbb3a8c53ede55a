-- ===== src/EngineLink/Tests.antt =====
-- A link that dies, and inputs that the theorems apply to.
use browsception.EngineLink.{
  link_run, link_step, Link, View, link_call, asked, LinkEvent, posted, on_message, net_data,
  terminate, heard, owned_bytes, data_post, aborted, told, worker_error, net_done,
}
use browsception.Prelude.{List, false, ◌≡◌, ◌∷◌, [], codes, ◌≤◌, All, true, refl, none}
use browsception.EngineLink.Corpse.{aborts, IsUnposted, link_run-dies}

link : Unit {0}
unfolding link_run link_step link_call on_message owned_bytes
link = tt

abbrev new_link : Link
new_link = record { dead = false; calls = 0 }

abbrev middle : View
middle = record { buffer = 1 ∷ 2 ∷ 3 ∷ []; offset = 1; byte_length = 1 }

abbrev crash : List LinkEvent
crash =
    asked (net_data 4 middle)
    ∷ heard (aborted (codes "a"))
    ∷ worker_error (codes "b")
    ∷ asked (net_done 4 none)
    ∷ []

crash_tests :
    ((link_run new_link crash).1 ≡ posted (data_post 4 (2 ∷ [])) ∷ told (aborted (codes "a")) ∷ [])
    × ((link_run new_link crash).0.dead ≡ true)
unfolding link
crash_tests = (refl, refl)

link_run-dies_example :
    let ended = link_step (link_run new_link crash).0 (asked terminate) in
    (aborts (link_run new_link crash).1 ≤ 1)
    × All IsUnposted (link_run ended.0 crash).1
    × (aborts (link_run ended.0 crash).1 ≡ 0)
link_run-dies_example = link_run-dies new_link crash crash
