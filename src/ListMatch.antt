-- ===== src/ListMatch.antt =====
-- src/ext/list-match.mjs: the canonical form of a site-list entry, and which hostnames it covers.
pub mod Covers
pub mod Canonical
mod Tests
use browsception.Prelude.{
  ℕ, zero, suc, ◌+◌, Text, codes, text_eq, lower, starts_with, ends_with, strip_dots, has_code,
  trim, Bool, true, false, not, ◌&&◌, ◌||◌, Option, none, some, List, [], ◌∷◌, ◌++◌, leb, ltb, ◌==◌,
  if◌then◌else◌, drop, any,
}
use browsception.Host.{UrlParser, Url}

-- `s.includes(p)`
unfoldable pub includes : Text → Text → Bool
includes [] p = starts_with [] p
includes (c ∷ s) p = starts_with (c ∷ s) p || includes s p

abbrev pub is_digit : ℕ → Bool
is_digit c = leb b'0' c && leb c b'9'

-- `[a-z0-9_-]`
abbrev pub is_label_char : ℕ → Bool
is_label_char c = leb b'a' c && leb c b'z' || is_digit c || c == b'_' || c == b'-'

-- `/^[a-z0-9_-]+(\.[a-z0-9_-]+)*$/`; the flag says that the current label has a character.
unfoldable pub is_labels : Bool → Text → Bool
is_labels seen [] = seen
is_labels seen (c ∷ s) =
    let next = is_labels false s in
    let more = is_labels true s in if c == b'.' then seen && next else is_label_char c && more

-- `/^\d{1,3}(\.\d{1,3}){3}$/`; the numbers are the dots to come and the digits of this part.
unfoldable pub is_quad : ℕ → ℕ → Text → Bool
is_quad dots n [] = dots == 0 && leb 1 n
is_quad dots n (c ∷ s) =
    let next = is_quad (elim dots [ zero ↦ 0 | suc d ↦ d ]) 0 s in
    let more = is_quad dots (n + 1) s in
    if c == b'.' then leb 1 n && leb 1 dots && next else is_digit c && ltb n 3 && more

unfoldable pub is_ip_literal : Text → Bool
is_ip_literal host = if is_quad 3 0 host then true else has_code b':' host

-- The hostname in a pasted URL, or the text itself.
unfoldable pub pasted_host : UrlParser → Text → Option Text
pasted_host parse s =
    if has_code b'/' s || has_code b':' s
    then elim (parse (if includes s (codes "://") then s else codes "https://" ++ s)) [
      | none ↦ none
      | some u ↦ some u.hostname
    ]
    else some s

abbrev pub without_mark : Bool → Text → Text
without_mark exact s = if exact then drop 1 s else s

abbrev pub with_mark : Bool → Text → Text
with_mark exact s = if exact then b'=' ∷ s else s

abbrev is_usable : Text → Bool
is_usable s = is_labels false s || is_ip_literal s

-- The checks after the hostname is known.
unfoldable pub checked : Bool → Text → Option Text
checked exact s = if is_usable s then some (with_mark exact s) else none

abbrev finish_entry : Bool → Option Text → Option Text
finish_entry exact none = none
finish_entry exact (some host) = checked exact (strip_dots host)

-- The body of `normalizeEntry` below the test for the empty text.
unfoldable pub normalize_lowered : UrlParser → Text → Option Text
normalize_lowered parse s =
    let exact = starts_with s (b'=' ∷ []) in
    finish_entry exact (pasted_host parse (without_mark exact s))

-- The input is a string; `normalizeEntry` answers null for any other value.
unfoldable pub normalize_entry : UrlParser → Text → Option Text
normalize_entry parse input =
    let s = lower (trim input) in if text_eq s [] then none else normalize_lowered parse s

abbrev pub canonical_host : Text → Text
canonical_host hostname = strip_dots (lower hostname)

-- The three kinds of entry, against a hostname in lower case with no dots at its end.
unfoldable pub entry_covers : Text → Text → Bool
entry_covers entry host =
    if starts_with entry (b'=' ∷ [])
    then text_eq host (drop 1 entry)
    else if is_ip_literal entry
    then text_eq host entry
    else text_eq host entry || ends_with host (b'.' ∷ entry)

unfoldable pub entry_matches : Text → Text → Bool
entry_matches entry hostname =
    if text_eq entry [] || text_eq hostname []
    then false
    else entry_covers entry (canonical_host hostname)

unfoldable pub list_matches : List Text → Text → Bool
list_matches list hostname = any (λ e. entry_matches e hostname) list
