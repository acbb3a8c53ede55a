-- ===== src/Capture/Listeners.antt =====
-- src/shim/redirect-capture.mjs: the two listeners that `start` installs.
use browsception.Prelude.{
  ℕ, Text, codes, List, [], ◌∷◌, ◌++◌, Option, none, some, Bool, true, false, not, suc, map,
  if◌then◌else◌, text_eq, ◌==◌, trim, ◌||◌, has_code, lower, starts_with, ◌&&◌, split_lines,
}
use browsception.Prelude.Maps.{get, put}
use browsception.Prelude.TextMap.{lookup, insert, remove}
use browsception.Host.{UrlParser}
use browsception.BridgeRules.{Fields}
use browsception.Capture.{Capture, Entry, Resolution, Stamped, has_header}
use browsception.Capture.Queues.{push, key_of}

-- The fields of an event's details that are read: a header may have no value.
pub record Details : Type 0 where
  pub request_id : Text
  pub url : Text
  pub status_code : ℕ
  pub response_headers : List (Text × Option Text)
  pub redirect_url : Text
  pub initiator : Option Text
  pub origin_url : Option Text
  pub document_url : Option Text

abbrev pub keep_line : Text → List Text → List Text
keep_line [] ls = ls
keep_line (c ∷ l) ls = (c ∷ l) ∷ ls

-- `.map((s) => s.trim()).filter(Boolean)`
unfoldable pub trimmed : List Text → List Text
trimmed [] = []
trimmed (l ∷ ls) = keep_line (trim l) (trimmed ls)

unfoldable pub header_lines : Text → List Text
header_lines v = if has_code 10 v then trimmed (split_lines v) else v ∷ []

abbrev pub value_or_empty : Option Text → Text
value_or_empty none = []
value_or_empty (some v) = v

-- `headersOf`
unfoldable pub headers_of : List (Text × Option Text) → Fields
headers_of [] = []
headers_of ((name, value) ∷ hs) =
    map (λ v. (lower name, v)) (header_lines (value_or_empty value)) ++ headers_of hs

abbrev first_of : Option Text → Option Text → Option Text
first_of none other = other
first_of (some t) other = some t

abbrev from_origin : Text → Option Text → Bool
from_origin origin none = false
from_origin origin (some from) = text_eq from origin || starts_with from (origin ++ b'/' ∷ [])

abbrev ours_by : Text → Option Text → Option Text → Bool
ours_by origin (some i) from = text_eq i origin
ours_by origin none from = from_origin origin from

-- `ours`
unfoldable pub is_ours : Text → Details → Bool
is_ours origin d = ours_by origin d.initiator (first_of d.origin_url d.document_url)

-- `REDIRECT_STATUS`
unfoldable pub is_redirect_status : ℕ → Bool
is_redirect_status n = n == 301 || n == 302 || n == 303 || n == 307 || n == 308

abbrev pub is_known {ℓ} : {A : Type ℓ} → Option A → Bool
is_known none = false
is_known (some a) = true

-- A new entry object, and its place.
abbrev pub allocate : Entry → Capture → Capture
allocate entry s = record s {
  entries = put s.next_entry entry s.entries;
  next_entry = suc s.next_entry;
}

-- `onHeadersReceived`, at the time `now`
unfoldable pub on_headers_received :
    UrlParser → Text → ℕ → Details → Capture → Capture × List Resolution
on_headers_received parse origin now d s =
    let headers = headers_of d.response_headers in
    let stamped : Stamped = record { at = now; entry = s.next_entry } in
    let s' = allocate (record { status = d.status_code; headers = headers }) s in
    let noted = record s' { redirects = insert d.request_id stamped s'.redirects } in
    if not (is_ours origin d) || is_known (lookup d.request_id s.continued)
    then (s, [])
    else push (key_of parse d.url) stamped (
        if is_redirect_status d.status_code && has_header (codes "location") headers
        then noted
        else s')

-- The first `location` becomes the URL; without one it is appended.
unfoldable pub set_location : Text → Fields → Fields
set_location url [] = (codes "location", url) ∷ []
set_location url ((k, v) ∷ hs) =
    if text_eq k (codes "location")
    then (codes "location", url) ∷ hs
    else (k, v) ∷ set_location url hs

unfoldable pub without_location : Fields → Fields
without_location [] = []
without_location ((k, v) ∷ hs) =
    let rest = without_location hs in if text_eq k (codes "location") then rest else (k, v) ∷ rest

abbrev pub relocate : Text → Option Entry → Option Entry
relocate url none = none
relocate url (some entry) = some (record entry { headers = set_location url entry.headers })

abbrev pub write_entry : ℕ → Option Entry → Capture → Capture
write_entry place none s = s
write_entry place (some entry) s = record s { entries = put place entry s.entries }

-- A server redirect that was seen at its headers, and one that the network stack made up.
abbrev pub before_redirect_at :
    UrlParser → ℕ → Details → Capture → Option Stamped → Capture × List Resolution
before_redirect_at parse now d s (some seen) = (
  write_entry seen.entry (relocate d.redirect_url (get seen.entry s.entries))
      (record s { redirects = remove d.request_id s.redirects }),
  [],
)
before_redirect_at parse now d s none =
    let headers =
      without_location (headers_of d.response_headers) ++ (codes "location", d.redirect_url) ∷ [] in
    let status = if d.status_code == 0 then 307 else d.status_code in
    push (key_of parse d.url) (record { at = now; entry = s.next_entry })
      (allocate (record { status = status; headers = headers })
        (record s { continued = insert d.request_id now s.continued }))

-- `onBeforeRedirect`
unfoldable pub on_before_redirect :
    UrlParser → Text → ℕ → Details → Capture → Capture × List Resolution
on_before_redirect parse origin now d s =
    let next = before_redirect_at parse now d s (lookup d.request_id s.redirects) in
    if not (is_ours origin d) || is_known (lookup d.request_id s.continued) then (s, []) else next
