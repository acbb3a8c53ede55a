-- ===== src/Capture/Headers.antt =====
-- What the entries hold: header values of one line, and the location of a redirect.
use browsception.Prelude.{
  ℕ, Text, codes, ◌≡◌, List, [], ◌∷◌, Option, none, some, true, false, refl, arith, All, All-append,
  has_code, trim, Bool-cases, ◌==◌, inl, inr, All-trim, map, lower, text_eq, cons_line, split_lines,
}
use browsception.Prelude.Maps.{get, put, get-put}
use browsception.Prelude.TextMap.{lookup, remove}
use browsception.BridgeRules.{Fields}
use browsception.Host.{UrlParser}
use browsception.Capture.{Capture, Entry, Stamped}
use browsception.Capture.Listeners.{
  Details, headers_of, header_lines, trimmed, set_location, on_before_redirect, keep_line, is_ours,
  value_or_empty,
}

-- A text of one line.
abbrev pub IsLine : Text → Type 0
IsLine v = All (λ c. (c == 10) ≡ false) v

of_no_code-IsLine : (v : Text) → has_code 10 v ≡ false → IsLine v
unfolding has_code
of_no_code-IsLine [] h = tt
of_no_code-IsLine (c ∷ v) h = (ground (arith, h), of_no_code-IsLine v (ground (arith, h)))

cons_line-IsLine :
    (c : ℕ) (ls : List Text) → (c == 10) ≡ false → All IsLine ls → All IsLine (cons_line c ls)
cons_line-IsLine c [] n h = ((n, tt), tt)
cons_line-IsLine c (l ∷ ls) n h = ((n, h.0), h.1)

split_lines-IsLine : (v : Text) → All IsLine (split_lines v)
unfolding split_lines
split_lines-IsLine [] = (tt, tt)
split_lines-IsLine (c ∷ s) =
    let rest = split_lines-IsLine s in
    elim (Bool-cases (c == 10)) [
      | inl e ↦ rw e (tt, rest)
      | inr e ↦ rw e (cons_line-IsLine c (split_lines s) e rest)
    ]

keep_line-IsLine :
    (l : Text) (ls : List Text) → IsLine l → All IsLine ls → All IsLine (keep_line l ls)
keep_line-IsLine [] ls h k = k
keep_line-IsLine (c ∷ l) ls h k = (h, k)

trimmed-IsLine : (ls : List Text) → All IsLine ls → All IsLine (trimmed ls)
unfolding trimmed
trimmed-IsLine [] h = tt
trimmed-IsLine (l ∷ ls) h =
    keep_line-IsLine (trim l) (trimmed ls) (All-trim _ l h.0) (trimmed-IsLine ls h.1)

header_lines-IsLine : (v : Text) → All IsLine (header_lines v)
unfolding header_lines
header_lines-IsLine v = elim (Bool-cases (has_code 10 v)) [
  | inl e ↦ rw e (trimmed-IsLine (split_lines v) (split_lines-IsLine v))
  | inr e ↦ rw e (of_no_code-IsLine v e, tt)
]

named-IsLine :
    (name : Text) (vs : List Text)
    → All IsLine vs
    → All (λ (h : Text × Text). IsLine h.1) (map (λ v. (name, v)) vs)
named-IsLine name [] h = tt
named-IsLine name (v ∷ vs) h = (h.0, named-IsLine name vs h.1)

-- Every header value that the capture records is a single line, also where the browser joined
-- repeated headers with newlines.
pub headers_of-IsLine :
    (hs : List (Text × Option Text)) → All (λ (h : Text × Text). IsLine h.1) (headers_of hs)
unfolding headers_of
headers_of-IsLine [] = tt
headers_of-IsLine ((name, value) ∷ hs) =
    All-append (λ (h : Text × Text). IsLine h.1)
      (map (λ v. (lower name, v)) (header_lines (value_or_empty value))) (headers_of hs)
      (named-IsLine (lower name) _ (header_lines-IsLine (value_or_empty value)))
      (headers_of-IsLine hs)

set_location-value :
    (url : Text) (hs : Fields) → lookup (codes "location") (set_location url hs) ≡ some url
unfolding set_location lookup text_eq
set_location-value url [] = refl
set_location-value url ((k, v) ∷ hs) = ground (arith, set_location-value url hs)

abbrev relocated : Details → Capture → Stamped → Entry → Capture
relocated d s seen entry = record s {
  redirects = remove d.request_id s.redirects;
  entries =
      put seen.entry (record entry { headers = set_location d.redirect_url entry.headers })
        s.entries;
}

before_redirect-eq-relocated :
    (parse : UrlParser) (origin : Text) (now : ℕ) (d : Details) (s : Capture) (seen : Stamped)
    (entry : Entry)
    → is_ours origin d ≡ true
    → lookup d.request_id s.continued ≡ none
    → lookup d.request_id s.redirects ≡ some seen
    → get seen.entry s.entries ≡ some entry
    → on_before_redirect parse origin now d s ≡ (relocated d s seen entry, [])
unfolding on_before_redirect
before_redirect-eq-relocated parse origin now d s seen entry ours fresh noted held =
    rw (ours, fresh, noted, held) refl

-- A server redirect that was recorded at its headers: when the browser names the resolved target,
-- the entry, in the queue or with the taker that has it, keeps its status and from then on has the
-- target as its location, and nothing is queued twice.
pub before_redirect-relocates :
    (parse : UrlParser) (origin : Text) (now : ℕ) (d : Details) (s : Capture) (seen : Stamped)
    (entry : Entry)
    → is_ours origin d ≡ true
    → lookup d.request_id s.continued ≡ none
    → lookup d.request_id s.redirects ≡ some seen
    → get seen.entry s.entries ≡ some entry
    → ((e : Entry) × (get seen.entry (on_before_redirect parse origin now d s).0.entries ≡ some e)
        × (e.status ≡ entry.status)
        × (lookup (codes "location") e.headers ≡ some d.redirect_url))
      × ((on_before_redirect parse origin now d s).0.queues ≡ s.queues)
before_redirect-relocates parse origin now d s seen entry ours fresh noted held =
    rw (before_redirect-eq-relocated parse origin now d s seen entry ours fresh noted held) (
      (
        record entry { headers = set_location d.redirect_url entry.headers },
        ground (
          arith,
          get-put seen.entry seen.entry
              (record entry { headers = set_location d.redirect_url entry.headers }) s.entries,
        ),
        refl,
        set_location-value d.redirect_url entry.headers,
      ),
      refl,
    )
