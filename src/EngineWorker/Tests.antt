-- ===== src/EngineWorker/Tests.antt =====
-- A frame, a copied image and posts, and inputs that the theorem applies to.
use browsception.EngineWorker.Ranges.{received_bytes, engine_bytes, received-copied_bytes}
use browsception.EngineWorker.{
  bib_frame, copied_bytes, Worker, ranged_items, EngineItem, frame_returned, bib_chrome, plain_item,
  freed_pointers, heap_item, freed, read_c_string, until_nul, receive_post, bib_net_begin, wrote,
  got_data, present_done,
}
use browsception.Prelude.{List, false, ℕ, ◌≡◌, ◌∷◌, none, [], codes, text_eq, arith, true, refl}
use browsception.EngineLink.{data_post}

engine_worker : Unit {0}
unfolding bib_frame frame_returned bib_chrome ranged_items copied_bytes freed_pointers text_eq
    until_nul receive_post bib_net_begin
engine_worker = tt

abbrev heap : List ℕ
heap = 0 ∷ 11 ∷ 12 ∷ 13 ∷ 0 ∷ 14 ∷ []

abbrev items : List EngineItem
items =
    plain_item (codes "text/plain") (codes "a")
    ∷ heap_item (codes "image/png") 2 2
    ∷ heap_item (codes "x") 0 1
    ∷ heap_item (codes "y") 5 1
    ∷ []

abbrev running : Worker
running = record { dead = false; frame_buf = none }

worker_tests :
    (copied_bytes heap items ≡ 12 ∷ 13 ∷ 14 ∷ [])
    × (freed_pointers items ≡ freed 2 ∷ freed 5 ∷ [])
    × (read_c_string heap 1 ≡ 11 ∷ 12 ∷ 13 ∷ [])
    × ((receive_post (λ n. 40) (λ t. t) (λ f. true) running (data_post 3 (7 ∷ []))).1
        ≡ wrote 40 (7 ∷ []) ∷ got_data 3 40 1 ∷ [])
    × ((frame_returned 8 running).1 ≡ present_done ∷ [])
unfolding engine_worker
worker_tests = (refl, refl, refl, refl, refl)

received-copied_bytes_example :
    received_bytes (copied_bytes heap items) (ranged_items 0 items) ≡ engine_bytes heap items
received-copied_bytes_example =
    received-copied_bytes heap items (tt, (omega arith, (omega arith, (omega arith, tt))))
