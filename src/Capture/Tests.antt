-- ===== src/Capture/Tests.antt =====
-- Runs of the capture, and inputs that the theorems apply to.
use browsception.Prelude.{
  Text, codes, ◌≡◌, refl, [], ◌∷◌, some, none, true, false, inl, text_eq, lower, starts_with,
  has_code, trim, split_lines,
}
use browsception.Prelude.Maps.{get, put}
use browsception.Prelude.TextMap.{lookup, insert, remove}
use browsception.Host.{UrlParser}
use browsception.Capture.{Capture, resolved, has_header, header_values, is_redirect_entry}
use browsception.Capture.Queues.{
  new_capture, push, claim_entry, time_out, sweep, pending, key_of, fresh_entries, fresh_queues,
  unexpired, without, pending_in,
}
use browsception.Capture.Listeners.{
  Details, headers_of, on_headers_received, on_before_redirect, is_ours, header_lines, trimmed,
  is_redirect_status, set_location, without_location,
}
use browsception.Capture.Exclusive.{
  handle_all, handle, IsExclusive, headers_received, asked, handle_all-IsExclusive,
}

capture : Unit {0}
unfolding get put text_eq lower starts_with has_code trim lookup insert remove has_header
    header_values is_redirect_entry key_of fresh_entries fresh_queues unexpired sweep push
    claim_entry without time_out split_lines trimmed header_lines headers_of is_ours
    is_redirect_status on_headers_received set_location without_location on_before_redirect handle
    handle_all pending_in
capture = tt

abbrev no_parser : UrlParser
no_parser s = none

abbrev self : Text
self = codes "moz-extension://x"

-- A redirect with two cookies in one value, as Firefox gives it.
abbrev moved : Details
moved = record {
  request_id = codes "7";
  url = codes "u";
  status_code = 302;
  response_headers =
      (codes "Location", some (codes "/b")) ∷ (codes "Set-Cookie", some (codes "a=1\nb=2")) ∷ [];
  redirect_url = codes "https://h/b";
  initiator = none;
  origin_url = some (codes "moz-extension://x/viewer.html");
  document_url = none;
}

line_tests :
    (header_lines (codes "a=1\n\n b=2 ") ≡ codes "a=1" ∷ codes "b=2" ∷ [])
    × (header_lines (codes " a") ≡ codes " a" ∷ [])
    × (is_ours self moved ≡ true)
    × (is_ours self (record moved { origin_url = some (codes "moz-extension://xy/") }) ≡ false)
unfolding capture
line_tests = (refl, refl, refl, refl)

abbrev seen_moved : Capture
seen_moved = handle_all no_parser self new_capture (headers_received 10 moved ∷ [])

queue_tests :
    (pending seen_moved ≡ 1)
    × ((claim_entry (codes "u") 3 seen_moved).1 ≡ resolved 3 (some 0) ∷ [])
    × ((claim_entry (codes "v") 3 seen_moved).1 ≡ [])
    × (pending (sweep 40000 seen_moved) ≡ 0)
    × ((handle no_parser self
          (claim_entry (codes "u") 3 new_capture).0
          (headers_received 10 moved)).1
        ≡ resolved 3 (some 0) ∷ [])
unfolding capture
queue_tests = (refl, refl, refl, refl, refl)

moved_entry :
    get 0 seen_moved.entries
    ≡ some (record { status = 302; headers = headers_of moved.response_headers })
unfolding capture
moved_entry = refl

moved_facts :
    (lookup moved.request_id seen_moved.continued ≡ none)
    × (lookup moved.request_id seen_moved.redirects ≡ some (record { at = 10; entry = 0 }))
unfolding capture
moved_facts = (refl, refl)

moved-is_ours : is_ours self moved ≡ true
unfolding capture
moved-is_ours = refl

new_capture-IsExclusive : IsExclusive new_capture
unfolding capture
new_capture-IsExclusive key = inl refl

handle_all-IsExclusive_example : IsExclusive (
    handle_all no_parser self new_capture
      (asked (codes "u") 1 ∷ headers_received 10 moved ∷ headers_received 11 moved ∷ []))
handle_all-IsExclusive_example =
    handle_all-IsExclusive no_parser self new_capture
      (asked (codes "u") 1 ∷ headers_received 10 moved ∷ headers_received 11 moved ∷ [])
      new_capture-IsExclusive
