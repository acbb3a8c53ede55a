-- ===== src/ListMatch/Tests.antt =====
-- The cases of test/tier0/list-match.test.mjs, and witnesses.
use browsception.Prelude.{
  ◌≡◌, refl, codes, text_eq, lower, trim, starts_with, ends_with, strip_dots, has_code, true, false,
  none, some, [], ◌∷◌, ◌↔◌, ◌≢◌,
}
use browsception.Host.{UrlParser}
use browsception.ListMatch.{
  normalize_entry, normalize_lowered, pasted_host, checked, entry_matches, entry_covers,
  list_matches, is_labels, is_quad, is_ip_literal, includes, canonical_host,
}
use browsception.ListMatch.Canonical.{normalize_entry_idem}
use browsception.ListMatch.Covers.{CoversHost, entry_matches_iff}

list_match : Unit {0}
unfolding normalize_entry normalize_lowered pasted_host checked entry_matches entry_covers
    list_matches is_labels is_quad is_ip_literal includes text_eq lower trim starts_with ends_with
    strip_dots has_code
list_match = tt

-- A parser that knows one URL.
abbrev one_url : UrlParser
one_url s = elim (text_eq s (codes "https://www.example.com/path")) [
  | true ↦ some (record {
    href = s;
    protocol = codes "https:";
    username = [];
    password = [];
    hostname = codes "www.example.com";
    port = [];
  })
  | false ↦ none
]

normalize_tests :
    (normalize_entry one_url (codes "  Example.COM.  ") ≡ some (codes "example.com"))
    × (normalize_entry one_url (codes "www.example.com/path") ≡ some (codes "www.example.com"))
    × (normalize_entry one_url (codes "=HOST.example.com") ≡ some (codes "=host.example.com"))
    × (normalize_entry one_url (codes "192.168.0.1") ≡ some (codes "192.168.0.1"))
    × (normalize_entry one_url (codes "not a domain") ≡ none)
    × (normalize_entry one_url (codes "http://") ≡ none)
unfolding list_match
normalize_tests = (refl, refl, refl, refl, refl, refl)

match_tests :
    (entry_matches (codes "example.com") (codes "www.EXAMPLE.com.") ≡ true)
    × (entry_matches (codes "example.com") (codes "badexample.com") ≡ false)
    × (entry_matches (codes "=host.example.com") (codes "sub.host.example.com") ≡ false)
    × (entry_matches (codes "192.168.0.1") (codes "1.192.168.0.1") ≡ false)
    × (list_matches (codes "a.b" ∷ codes "=c.d" ∷ []) (codes "c.d") ≡ true)
unfolding list_match
match_tests = (refl, refl, refl, refl, refl)

entry_matches_iff_example :
    (entry_matches (codes "example.com") (codes "www.EXAMPLE.com.") ≡ true) ↔ (
      (codes "example.com" ≢ [])
      × (codes "www.EXAMPLE.com." ≢ [])
      × CoversHost (codes "example.com") (canonical_host (codes "www.EXAMPLE.com.")))
entry_matches_iff_example = entry_matches_iff (codes "example.com") (codes "www.EXAMPLE.com.")

normalize_entry_idem_example :
    normalize_entry one_url (codes "=host.example.com") ≡ some (codes "=host.example.com")
normalize_entry_idem_example =
    normalize_entry_idem one_url (codes "=HOST.example.com") (codes "=host.example.com")
      normalize_tests.2 (unfold has_code in refl)
