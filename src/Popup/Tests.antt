-- ===== src/Popup/Tests.antt =====
-- Cases of test/tier0/actions.test.mjs, and inputs that the theorems apply to.
use browsception.Prelude.{
  codes, ◌≡◌, refl, [], ◌∷◌, some, none, true, false, Text, map, text_eq, lower, starts_with,
  ends_with, strip_dots, has_code, trim,
}
use browsception.State.{State, default_state, Mode}
use mathlib.Core.List.{Memᴰ}
use browsception.Popup.{
  primary_actions, SiteAction, native, sandboxed, other, open_once, add_action, covering_entry,
  untrust, trust, inspect_tab,
}
use browsception.Popup.Clicks.{click, switch_mode, has_entry, add_entry, remove_entry}
use browsception.ListMatch.{
  is_labels, entry_matches, entry_covers, list_matches, normalize_entry, normalize_lowered,
  pasted_host, checked, includes, is_quad, is_ip_literal,
}
use browsception.DnrRules.{should_sandbox, tab_url}
use browsception.Popup.Offers.{trust-runs_natively}
use browsception.Host.{Url, UrlParser, has_http_scheme, is_http_url}
use browsception.ViewerUrl.{viewer_target, slice_target, find_param, is_encoded, target_of_raw}

popup : Unit {0}
unfolding primary_actions covering_entry has_entry add_entry remove_entry click switch_mode
    inspect_tab tab_url viewer_target slice_target find_param is_encoded target_of_raw entry_matches
    entry_covers list_matches normalize_entry normalize_lowered pasted_host checked includes
    is_labels is_quad is_ip_literal text_eq lower starts_with ends_with strip_dots has_code trim
    should_sandbox has_http_scheme is_http_url
popup = tt

abbrev no_parser : UrlParser
no_parser s = none

abbrev trusting : State
trusting = record default_state { whitelist = codes "b.c" ∷ [] }

abbrev host : Text
host = codes "a.b.c"

abbrev trust_host : SiteAction
trust_host = add_action trust host (codes "Trust a.b.c — always run natively")

offer_tests :
    (primary_actions no_parser default_state sandboxed (some host) ≡ trust_host ∷ open_once ∷ [])
    × (map (λ a. a.entry) (primary_actions no_parser trusting native (some host))
        ≡ some (codes "b.c") ∷ [])
    × (primary_actions no_parser default_state native (some host) ≡ [])
    × (primary_actions no_parser default_state other (some host) ≡ [])
    × ((click default_state trust_host).whitelist ≡ host ∷ [])
    × ((click trusting (add_action untrust (codes "b.c") [])).whitelist ≡ [])
    × ((switch_mode false default_state).mode ≡ Mode.whitelist)
unfolding popup
offer_tests = (refl, refl, refl, refl, refl, refl, refl)

abbrev site : Url
site = record {
  href = codes "https://a.b.c/";
  protocol = codes "https:";
  username = [];
  password = [];
  hostname = host;
  port = [];
}

abbrev site_parser : UrlParser
site_parser s = some site

plain_host : (is_labels false host ≡ true) × (has_http_scheme site ≡ true)
unfolding popup
plain_host = (refl, refl)

trust_offered : Memᴰ trust_host (primary_actions site_parser default_state sandboxed (some host))
unfolding popup
trust_offered = Memᴰ.head refl

trust-runs_natively_example :
    should_sandbox site_parser (click default_state trust_host) (codes "https://a.b.c/") ≡ false
trust-runs_natively_example =
    trust-runs_natively site_parser default_state sandboxed host (codes "https://a.b.c/") site
      trust_host plain_host.0 trust_offered refl refl refl plain_host.1 refl
