-- ===== src/Guard/Tests.antt =====
-- Cases of test/tier0/guard.test.mjs, and requests that the theorems apply to.
use browsception.Prelude.{
  ◌≡◌, refl, codes, some, if◌then◌else◌, [], true, false, ◌∷◌, text_eq, ◌↔◌, none, ◌⊎◌, arith,
  lower, starts_with, ends_with, strip_dots, has_code,
}
use browsception.Host.{has_http_scheme, Url, UrlParser}
use browsception.Guard.{
  octets_from, evaluate_request, is_bad_port, parse_ipv4, is_private_host, is_private_ipv4,
  bare_host, is_private_ipv6, is_private_hostname, number_from, bad_ports, drop_colon,
}
use browsception.Guard.Ipv4.{dotted, parse_ipv4-dotted}
use browsception.Guard.Decision.{IsPrivateRange, allowed_iff, ipv4_refused_iff}
use browsception.ListMatch.{is_quad}

guard : Unit {0}
unfolding octets_from parse_ipv4 is_private_ipv4 is_private_ipv6 is_private_hostname bare_host
    is_private_host number_from is_bad_port bad_ports drop_colon evaluate_request text_eq lower
    starts_with ends_with strip_dots has_code is_quad has_http_scheme
guard = tt

host_tests :
    (is_private_host (codes "172.31.255.255") ≡ true)
    × (is_private_host (codes "172.32.0.1") ≡ false)
    × (is_private_host (codes "::ffff:10.0.0.1") ≡ true)
    × (is_private_host (codes "fe80::1") ≡ true)
    × (is_private_host (codes "LOCALHOST.") ≡ true)
    × (is_private_host (codes "example.com") ≡ false)
    × (bare_host (codes "[::1]") ≡ codes "::1")
    × (parse_ipv4 (codes "256.1.1.1") ≡ none)
    × (parse_ipv4 (codes "1.2.3") ≡ none)
    × (is_bad_port (codes "25") ≡ true)
    × (is_bad_port (codes "8080") ≡ false)
    × (is_bad_port [] ≡ false)
unfolding guard
host_tests = (refl, refl, refl, refl, refl, refl, refl, refl, refl, refl, refl, refl)

-- `http://172.16.0.9:8080/`, as a URL parser gives it.
abbrev router_url : Url
router_url = record {
  href = codes "http://172.16.0.9:8080/";
  protocol = codes "http:";
  username = [];
  password = [];
  hostname = codes "172.16.0.9";
  port = codes "8080";
}

parse_router : UrlParser
parse_router s = if text_eq s (codes "http://172.16.0.9:8080") then some router_url else none

parsed_router : parse_router (codes "http://172.16.0.9:8080") ≡ some router_url
unfolding parse_router guard
parsed_router = refl

no_bad_port : is_bad_port router_url.port ≡ false
unfolding guard
no_bad_port = refl

parse_ipv4-dotted_example : parse_ipv4 (dotted 172 16 0 9) ≡ some (172 ∷ 16 ∷ 0 ∷ 9 ∷ [])
parse_ipv4-dotted_example =
    parse_ipv4-dotted 172 16 0 9 (omega arith) (omega arith) (omega arith) (omega arith)

allowed_iff_example :
    ((evaluate_request parse_router (codes "http://172.16.0.9:8080") true).allow ≡ true) ↔ (
      (u : Url) × (parse_router (codes "http://172.16.0.9:8080") ≡ some u)
      × (has_http_scheme u ≡ true)
      × (u.username ≡ [])
      × (u.password ≡ [])
      × (is_bad_port u.port ≡ false)
      × ((true ≡ true) ⊎ (is_private_host (bare_host u.hostname) ≡ false)))
allowed_iff_example = allowed_iff parse_router (codes "http://172.16.0.9:8080") true

router_scheme : has_http_scheme router_url ≡ true
unfolding guard
router_scheme = refl

ipv4_refused_iff_example :
    ((evaluate_request parse_router (codes "http://172.16.0.9:8080") false).allow ≡ false)
    ↔ IsPrivateRange 172 16
ipv4_refused_iff_example =
    ipv4_refused_iff parse_router (codes "http://172.16.0.9:8080") router_url 172 16 0 9
      parsed_router router_scheme refl refl no_bad_port refl (omega arith) (omega arith)
      (omega arith) (omega arith)
