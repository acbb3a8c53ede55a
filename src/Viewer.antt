-- ===== src/Viewer.antt =====
-- src/ext/viewer.mjs: `normalizeEngineURL` and the mirror of the engine's history in the tab's
-- history. A step gives the new state and the calls made. Whether the browser lets a history call
-- through is an input: over its rate limit the call throws.
pub mod History
pub mod Signals
pub mod Persist
pub mod Input
pub mod Wheels
pub mod Releases
pub mod Gathered
pub mod Boundary
mod Tests
use browsception.Prelude.{
  Option, List, Text, Bool, ℕ, some, ◌++◌, trim, false, if◌then◌else◌, none, leb, [], ◌||◌, ◌&&◌,
  starts_with, true, codes, text_eq, ◌∷◌, not, ◌==◌,
}
use browsception.Prelude.Integers.{ℤ, int_eq, opt_int_eq, int_le, pos, int_lt, ◌-ℤ◌}
use browsception.Host.{UrlParser, Url, is_http_url}
use browsception.ListMatch.{is_digit}

-- `/^[a-z][a-z0-9+.-]*:/i`
abbrev is_letter : ℕ → Bool
is_letter c = leb b'a' c && leb c b'z' || leb b'A' c && leb c b'Z'

abbrev is_scheme_char : ℕ → Bool
is_scheme_char c = is_letter c || is_digit c || c == b'+' || c == b'.' || c == b'-'

unfoldable pub ends_scheme : Text → Bool
ends_scheme [] = false
ends_scheme (c ∷ s) = let rest = ends_scheme s in c == b':' || is_scheme_char c && rest

abbrev pub has_scheme : Text → Bool
has_scheme [] = false
has_scheme (c ∷ s) = is_letter c && ends_scheme s

abbrev pub with_scheme : Text → Text
with_scheme url = if has_scheme url then url else codes "https://" ++ url

abbrev pub web_only : UrlParser → Text → Option Text
web_only parse url = if is_http_url parse url then some url else none

-- `normalizeEngineURL`; a missing value is the empty text.
unfoldable pub normalize_engine_url : UrlParser → Text → Option Text
normalize_engine_url parse raw =
    let url = trim raw in if text_eq url [] then none else web_only parse (with_scheme url)

abbrev pub href_eq : Option Url → Option Url → Bool
href_eq (some a) (some b) = text_eq a.href b.href
href_eq _ _ = false

-- `sameURL`, where a missing URL is `null`.
abbrev pub same_url : UrlParser → Option Text → Option Text → Bool
same_url parse none none = true
same_url parse (some a) (some b) =
    text_eq a b || not (text_eq a []) && not (text_eq b []) && href_eq (parse a) (parse b)
same_url parse _ _ = false

-- The calls of the browser and of the engine.
pub data ViewerCall : Type 0 where
  push_state replace_state : Option ℤ → Text → ViewerCall
  engine_go : ℤ → ViewerCall
  engine_load : Text → ViewerCall
  reload_page : ViewerCall

pub record Target : Type 0 where
  pub index : ℤ
  pub url : Option Text

-- What the engine last reported, and the variables of the mirror.
pub record Viewer : Type 0 where
  pub ready : Bool
  pub dead : Bool
  pub url : Option Text
  pub index : Option ℤ
  pub length : ℤ
  pub mirror_url : Option Text
  pub mirror_index : Option ℤ
  pub force_replace : Bool
  pub want : Option Target
  pub issued_from : Option ℤ

abbrev pub Step : Type 0
Step = Viewer × List ViewerCall

-- `bs.navigate`
abbrev pub navigate_to : Viewer → Option Text → Option (List ViewerCall)
navigate_to v none = none
navigate_to v (some clean) = if v.dead then none else some (engine_load clean ∷ [])

abbrev pub loaded : Viewer → Option (List ViewerCall) → Step
loaded v none = (record v { want = none; issued_from = none; force_replace = false }, [])
loaded v (some calls) = (record v { want = none; issued_from = none; force_replace = true }, calls)

-- `loadEntry`
abbrev pub load_entry : UrlParser → Viewer → Option Text → Step
load_entry parse v none = (record v { want = none; issued_from = none }, [])
load_entry parse v (some url) =
    if text_eq url []
    then (record v { want = none; issued_from = none }, [])
    else loaded v (navigate_to v (normalize_engine_url parse url))

abbrev pub is_url : Option Text → Bool
is_url none = false
is_url (some url) = not (text_eq url [])

-- The engine is where the tab is: its URL may be another one.
abbrev pub arrive : UrlParser → Viewer → Option Text → Step
arrive parse v url =
    let here = record v { want = none; issued_from = none } in
    if is_url url && is_url v.url && not (same_url parse url v.url)
    then load_entry parse here url
    else (here, [])

abbrev pub drive_from : UrlParser → Viewer → Target → Option ℤ → Step
drive_from parse v target none = (v, [])
drive_from parse v target (some here) =
    if int_eq here target.index
    then arrive parse v target.url
    else if opt_int_eq v.issued_from (some here)
    then (v, [])
    else if int_le (pos 0) target.index && int_lt target.index v.length
    then (record v { issued_from = some here }, engine_go (target.index -ℤ here) ∷ [])
    else load_entry parse v target.url

abbrev pub drive_to : UrlParser → Viewer → Option Target → Step
drive_to parse v none = (v, [])
drive_to parse v (some target) =
    if not v.ready || v.dead then (v, []) else drive_from parse v target v.index

-- `drive`
unfoldable pub drive : UrlParser → Viewer → Step
drive parse v = drive_to parse v v.want

abbrev pub is_known_index : Option ℤ → Bool
is_known_index none = false
is_known_index (some i) = true

-- The `popstate` listener: the index that the entry was tagged with, and its URL as
-- `normalizeEngineURL` gives it.
abbrev pub popped : UrlParser → Viewer → Option ℤ → Option Text → Step
popped parse v (some idx) url =
    drive parse (record v { issued_from = none; want = some (record { index = idx; url = url }) })
popped parse v none url =
    let cleared = record v { issued_from = none; want = none } in
    if is_url url && not (same_url parse url v.url)
    then load_entry parse cleared url
    else (cleared, [])

unfoldable pub pop_state : UrlParser → Viewer → Option ℤ → Option Text → Step
pop_state parse v idx url =
    let mirrored = record v { mirror_url = url; mirror_index = idx } in
    if v.dead then (mirrored, reload_page ∷ []) else popped parse mirrored idx url

abbrev pub opt_text_eq : Option Text → Option Text → Bool
opt_text_eq none none = true
opt_text_eq (some a) (some b) = text_eq a b
opt_text_eq _ _ = false

-- The end of `syncTabHistory`, with whether the browser lets the history call through.
abbrev pub synced : Viewer → Text → Option ℤ → Bool → ViewerCall → Step
synced v url index allowed call =
    if allowed
    then (record v { mirror_url = some url; mirror_index = index }, call ∷ [])
    else (v, [])

-- `syncTabHistory`; `tab_url_for` is the viewer URL of an engine URL.
unfoldable pub sync_tab_history :
    UrlParser → (Text → Text) → Bool → Viewer → Text → Bool → Option ℤ → Step
sync_tab_history parse tab_url_for allowed v url is_new index =
    let push =
      is_new
      && is_known_index v.mirror_index
      && not v.force_replace
      && not (same_url parse (some url) v.mirror_url) in
    let unforced = record v { force_replace = false } in
    if push
    then synced unforced url index allowed (push_state index (tab_url_for url))
    else if not (opt_text_eq (some url) v.mirror_url) || not (opt_int_eq index v.mirror_index)
    then synced unforced url index allowed (replace_state index (tab_url_for url))
    else (unforced, [])

-- What a `url` signal of the engine says.
pub record UrlSignal : Type 0 where
  pub url : Option Text
  pub is_new : Bool
  pub index : Option ℤ
  pub length : ℤ

-- Boot and about pages are not shown and never mirrored.
abbrev pub is_shown : Text → Bool
is_shown url = starts_with url (codes "http:") || starts_with url (codes "https:")

abbrev pub mirrored : UrlParser → (Text → Text) → Bool → Viewer → UrlSignal → Option Text → Step
mirrored parse tab_url_for allowed v s none = (v, [])
mirrored parse tab_url_for allowed v s (some url) =
    if is_shown url
    then sync_tab_history parse tab_url_for allowed v url s.is_new s.index
    else (v, [])

abbrev pub and_drive : UrlParser → Step → Step
and_drive parse (v, calls) = let next = drive parse v in (next.0, calls ++ next.1)

-- `onChrome("url", …)`: the part on the history.
unfoldable pub on_url : UrlParser → (Text → Text) → Bool → Viewer → UrlSignal → Step
on_url parse tab_url_for allowed v s =
    let seen = record v { url = s.url; index = s.index; length = s.length } in
    and_drive parse (mirrored parse tab_url_for allowed seen s s.url)
