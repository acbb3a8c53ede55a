-- ===== src/ViewerUrl.antt =====
-- src/ext/viewer-url.mjs: the `?url=` wire format of the viewer page. (`isHttpUrl` is in Host.)
pub mod RoundTrip
mod Tests
use mathlib.Core.Option
use browsception.Prelude.{
  ℕ, Text, codes, text_eq, lower, starts_with, Bool, ◌&&◌, ◌||◌, Option, none, some, [], ◌∷◌, ◌++◌,
  ◌==◌, if◌then◌else◌, drop,
}
use browsception.Prelude.Uri.{decode_uri_component}

abbrev pub param_name : Text
param_name = codes "url="

abbrev pub is_separator : ℕ → Bool
is_separator c = c == b'?' || c == b'&'

abbrev cons_head : ℕ → Option (Text × Text) → Option (Text × Text)
cons_head c none = none
cons_head c (some (head, target)) = some (c ∷ head, target)

-- `/[?&]url=/.exec(s)`: the text before the first match and the text behind it.
unfoldable pub find_param : Text → Option (Text × Text)
find_param [] = none
find_param (c ∷ s) =
    let later = cons_head c (find_param s) in
    if is_separator c && starts_with s param_name then some ([], drop 4 s) else later

-- `/^https?%3A/i.test(raw)`
unfoldable pub is_encoded : Text → Bool
is_encoded raw =
    starts_with (lower raw) (codes "http%3a") || starts_with (lower raw) (codes "https%3a")

abbrev decoded : Text → Option Text → Text
decoded raw none = raw
decoded raw (some t) = t

unfoldable pub target_of_raw : Text → Text → Text
target_of_raw raw raw_hash =
    if is_encoded raw then decoded raw (decode_uri_component raw) else raw ++ raw_hash

unfoldable pub slice_target : Text → Text → Option Text
slice_target url_or_search raw_hash = elim (find_param url_or_search) [
  | none ↦ none
  | some (head, raw) ↦ some (target_of_raw raw raw_hash)
]

unfoldable pub viewer_target : Text → Text → Option Text
viewer_target url viewer_base =
    if starts_with url (viewer_base ++ b'?' ∷ []) then slice_target url [] else none

abbrev without_question : Text → Text
without_question head = if starts_with head (b'?' ∷ []) then drop 1 head else head

abbrev head_or_all : Text → Option (Text × Text) → Text
head_or_all s none = s
head_or_all s (some (head, target)) = head

unfoldable pub viewer_params : Text → Text
viewer_params url_or_search =
    without_question (head_or_all url_or_search (find_param url_or_search))

-- A bare `params` is followed by `&`.
unfoldable pub viewer_url_for : Text → Text → Text → Text
viewer_url_for viewer_base target [] = viewer_base ++ b'?' ∷ (param_name ++ target)
viewer_url_for viewer_base target (p ∷ params) =
    viewer_base ++ b'?' ∷ ((p ∷ params) ++ b'&' ∷ (param_name ++ target))
