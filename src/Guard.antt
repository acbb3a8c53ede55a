-- ===== src/Guard.antt =====
-- src/shim/guard.mjs: the guard list that every bridge request passes before it is fetched.
pub mod Ipv4
pub mod Decision
mod Tests
use mathlib.Core.Option
use browsception.Prelude.{
  ℕ, zero, suc, ◌+◌, ◌-◌, ◌*◌, Text, codes, text_eq, lower, starts_with, ends_with, strip_dots,
  has_code, Bool, true, false, not, ◌&&◌, ◌||◌, Option, none, some, List, [], ◌∷◌, ◌++◌, leb, ltb,
  ◌==◌, if◌then◌else◌, drop, any, all,
}
use browsception.Host.{Url, UrlParser, has_http_scheme}
use browsception.ListMatch.{is_digit, is_quad}

-- `CAPS`
abbrev pub max_response_bytes : ℕ
max_response_bytes = 256 * 1024 * 1024

abbrev pub idle_timeout_ms : ℕ
idle_timeout_ms = 30_000

unfoldable pub bad_ports : List ℕ
bad_ports =
    1 ∷ 7 ∷ 9 ∷ 11 ∷ 13 ∷ 15 ∷ 17 ∷ 19 ∷ 20 ∷ 21 ∷ 22 ∷ 23 ∷ 25 ∷ 37 ∷ 42 ∷ 43 ∷ 53 ∷ 69 ∷ 77 ∷ 79
    ∷ 87 ∷ 95 ∷ 101 ∷ 102 ∷ 103 ∷ 104 ∷ 109 ∷ 110 ∷ 111 ∷ 113 ∷ 115 ∷ 117 ∷ 119 ∷ 123 ∷ 135 ∷ 137
    ∷ 139 ∷ 143 ∷ 161 ∷ 179 ∷ 389 ∷ 427 ∷ 465 ∷ 512 ∷ 513 ∷ 514 ∷ 515 ∷ 526 ∷ 530 ∷ 531 ∷ 532 ∷ 540
    ∷ 548 ∷ 554 ∷ 556 ∷ 563 ∷ 587 ∷ 601 ∷ 636 ∷ 989 ∷ 990 ∷ 993 ∷ 995 ∷ 1719 ∷ 1720 ∷ 1723 ∷ 2049
    ∷ 3659 ∷ 4045 ∷ 4190 ∷ 5060 ∷ 5061 ∷ 6000 ∷ 6566 ∷ 6665 ∷ 6666 ∷ 6667 ∷ 6668 ∷ 6669 ∷ 6679
    ∷ 6697 ∷ 10080 ∷ 3306 ∷ 5432 ∷ 5900 ∷ 6379 ∷ 9200 ∷ 11211 ∷ 27017 ∷ []

abbrev cons_octet : ℕ → Option (List ℕ) → Option (List ℕ)
cons_octet v none = none
cons_octet v (some vs) = some (v ∷ vs)

-- The groups of `/^(\d{1,3})\.(\d{1,3})\.(\d{1,3})\.(\d{1,3})$/` as numbers: the dots to come, the
-- digits of this group and its value so far.
unfoldable pub octets_from : ℕ → ℕ → ℕ → Text → Option (List ℕ)
octets_from dots n value [] = if dots == 0 && leb 1 n then some (value ∷ []) else none
octets_from dots n value (c ∷ s) =
    let next = cons_octet value (octets_from (dots - 1) 0 0 s) in
    let more = octets_from dots (n + 1) (value * 10 + (c - b'0')) s in
    if c == b'.'
    then if leb 1 n && leb 1 dots then next else none
    else if is_digit c && ltb n 3
    then more
    else none

abbrev in_range : Option (List ℕ) → Option (List ℕ)
in_range none = none
in_range (some o) = if all (λ x. leb x 255) o then some o else none

unfoldable pub parse_ipv4 : Text → Option (List ℕ)
parse_ipv4 host = in_range (octets_from 3 0 0 host)

unfoldable pub is_private_ipv4 : List ℕ → Bool
is_private_ipv4 (a ∷ b ∷ o) =
    a == 0
    || a == 127
    || a == 10
    || a == 172 && leb 16 b && leb b 31
    || a == 192 && b == 168
    || a == 169 && b == 254
    || a == 100 && leb 64 b && leb b 127
    || a == 255
is_private_ipv4 _ = false

-- `/^::(?:ffff:)?(\d{1,3}(?:\.\d{1,3}){3})$/`: the group.
mapped_quad : Text → Option Text
mapped_quad h =
    let rest = drop 2 h in
    if not (starts_with h (codes "::"))
    then none
    else if starts_with rest (codes "ffff:") && is_quad 3 0 (drop 5 rest)
    then some (drop 5 rest)
    else if is_quad 3 0 rest
    then some rest
    else none

abbrev private_or_odd : Option (List ℕ) → Bool
private_or_odd none = true
private_or_odd (some o) = is_private_ipv4 o

unfoldable pub is_private_ipv6 : Text → Bool
unfolding mapped_quad
is_private_ipv6 host =
    let h = lower host in
    if text_eq h (codes "::") || text_eq h (codes "::1")
    then true
    else if starts_with h (codes "fe8")
        || starts_with h (codes "fe9")
        || starts_with h (codes "fea")
        || starts_with h (codes "feb")
    then true
    else if starts_with h (codes "fc") || starts_with h (codes "fd")
    then true
    else elim (mapped_quad h) [
      | some q ↦ private_or_odd (parse_ipv4 q)
      | none ↦ starts_with h (codes "::ffff:")
    ]

unfoldable pub is_private_hostname : Text → Bool
is_private_hostname host =
    let h = strip_dots (lower host) in
    text_eq h (codes "localhost")
    || ends_with h (codes ".localhost")
    || ends_with h (codes ".local")
    || ends_with h (codes ".internal")
    || text_eq h (codes "local")
    || text_eq h (codes "internal")
    || text_eq h []

abbrev drop_open : Text → Text
drop_open [] = []
drop_open (c ∷ s) = if c == b'[' then s else c ∷ s

drop_close : Text → Text
drop_close [] = []
drop_close (c ∷ []) = if c == b']' then [] else c ∷ []
drop_close (c ∷ d ∷ s) = c ∷ drop_close (d ∷ s)

-- `hostname.replace(/^\[|\]$/g, '')`
unfoldable pub bare_host : Text → Text
unfolding drop_close
bare_host hostname = drop_close (drop_open hostname)

-- The three kinds of host.
unfoldable pub is_private_host : Text → Bool
is_private_host host = elim (parse_ipv4 host) [
  | some v4 ↦ is_private_ipv4 v4
  | none ↦ if has_code b':' host then is_private_ipv6 host else is_private_hostname host
]

-- `Number(port)` of the digits of a parsed port.
unfoldable pub number_from : ℕ → Text → ℕ
number_from n [] = n
number_from n (c ∷ s) = number_from (n * 10 + (c - b'0')) s

unfoldable pub is_bad_port : Text → Bool
is_bad_port [] = false
is_bad_port (c ∷ s) = any (λ p. number_from 0 (c ∷ s) == p) bad_ports

pub record Verdict : Type 0 where
  pub allow : Bool
  pub reason : Text

abbrev deny : Text → Verdict
deny reason = record { allow = false; reason = reason }

-- `protocol.replace(/:$/, '')`
unfoldable pub drop_colon : Text → Text
drop_colon [] = []
drop_colon (c ∷ []) = if c == b':' then [] else c ∷ []
drop_colon (c ∷ d ∷ s) = c ∷ drop_colon (d ∷ s)

abbrev is_some_text : Text → Bool
is_some_text [] = false
is_some_text (c ∷ s) = true

evaluate_url : Bool → Url → Verdict
evaluate_url allow_private_network url =
    if not (has_http_scheme url)
    then deny (codes "scheme:" ++ drop_colon url.protocol)
    else if is_some_text url.username || is_some_text url.password
    then deny (codes "userinfo")
    else if is_bad_port url.port
    then deny (codes "bad-port:" ++ url.port)
    else if not allow_private_network && is_private_host (bare_host url.hostname)
    then deny (codes "private-network")
    else record { allow = true; reason = codes "ok" }

unfoldable pub evaluate_request : UrlParser → Text → Bool → Verdict
unfolding evaluate_url
evaluate_request parse url_string allow_private_network = elim (parse url_string) [
  | none ↦ deny (codes "unparseable-url")
  | some url ↦ evaluate_url allow_private_network url
]
