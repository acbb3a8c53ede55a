-- ===== src/DnrRules/Tests.antt =====
-- Cases of test/tier0/dnr-rules.test.mjs, and a browser that the theorems apply to.
use browsception.Prelude.{
  ◌≡◌, refl, codes, text_eq, starts_with, lower, [], ◌∷◌, ends_with, strip_dots, has_code, Text,
  some, if◌then◌else◌, true, Bool, none, false, arith, ◌++◌, ◌↔◌, ◌⊎◌,
}
use browsception.DnrRules.{
  entry_regex, escape_host, desired_rule_state, rules_from, catchall_rules, escape_session_rule,
  RuleState, should_sandbox, catchall_filter, catchall_rule, allow_rule, sweep_action, sandbox, Tab,
  tab_url, native, viewer_substitution, escapes,
}
use browsception.ListMatch.{
  is_ip_literal, is_quad, entry_matches, entry_covers, list_matches, canonical_host, is_labels,
}
use browsception.DnrRules.Filter.Urls.{write, WebUrl, IsWebUrl}
use browsception.State.{State, default_state}
use browsception.Host.{UrlParser, Url, has_http_scheme, is_http_url}
use browsception.DnrRules.Engine.{IsSound, Reads, catchall_pattern}
use browsception.DnrRules.Filter.{entry_pattern, entry_regex-render}
use browsception.Regex.Matcher.{accepts_iff}
use browsception.Regex.{accepts, Matches, render}
use browsception.DnrRules.Ids.{AreDistinct, ids, dynamic_ids-AreDistinct}
use browsception.DnrRules.Installed.{redirect_of}
use browsception.ViewerUrl.{viewer_url_for, viewer_target, find_param, slice_target, is_encoded}
use browsception.DnrRules.Sweep.{settled, sweep_action-settles, sweep_action_safe}
use browsception.DnrRules.ModelEngine.{model_engine}
use browsception.DnrRules.Interception.{request}
use browsception.DnrRules.Filter.Matching.{pattern_iff}
use browsception.DnrRules.Grants.{granted_passes}
use browsception.DnrRules.Agreement.{redirects-eq-should_sandbox}
use mathlib.Core.List.{Memᴰ}
use browsception.DnrRules.Dots.{dotted_host_unfiltered}

dnr_rules : Unit {0}
unfolding text_eq starts_with lower ends_with strip_dots has_code is_ip_literal is_quad entry_regex
    escape_host desired_rule_state rules_from catchall_rules escape_session_rule entry_matches
    entry_covers list_matches write
dnr_rules = tt

regex_tests :
    (entry_regex (codes "a.b") ≡ codes "^https?://(?:[^/:@?#]+\\.)?a\\.b(?::\\d+)?(?:[/?#].*)?$")
    × (entry_regex (codes "=a.b") ≡ codes "^https?://a\\.b(?::\\d+)?(?:[/?#].*)?$")
    × (codes "\\." ≡ 92 ∷ 46 ∷ [])
unfolding dnr_rules
regex_tests = (refl, refl, refl)

abbrev domain : Text
domain = codes "example.com"

-- Reads the catch-all filter and the filter of `domain`.
re2 : Text → Text → Bool
re2 filter s =
    if text_eq filter catchall_filter
    then accepts catchall_pattern s
    else if text_eq filter (entry_regex domain)
    then accepts (entry_pattern domain) s
    else false

re2-catchall : Reads re2 catchall_filter catchall_pattern
unfolding re2 dnr_rules
re2-catchall s = accepts_iff catchall_pattern s

re2-domain : Reads re2 (entry_regex domain) (entry_pattern domain)
unfolding re2 dnr_rules
re2-domain s = accepts_iff (entry_pattern domain) s

domain-IsSound : IsSound re2 domain
domain-IsSound = record {
  some_entry = cc;
  host_text = unfold dnr_rules in ground arith;
  reads = re2-domain;
}

abbrev page : WebUrl
page = record { secure = true; host = codes "www.example.com"; port = []; tail = codes "/a?b" }

page-IsWebUrl : IsWebUrl page
unfolding dnr_rules
page-IsWebUrl = record {
  host_text = ground arith;
  host_some = cc;
  host_start = refl;
  port_digits = tt;
  tail_text = ground arith;
}

page_canonical : canonical_host page.host ≡ page.host
unfolding dnr_rules
page_canonical = refl

abbrev page_url : Url
page_url = record {
  href = write page;
  protocol = codes "https:";
  username = [];
  password = [];
  hostname = codes "www.example.com";
  port = [];
}

abbrev parse : UrlParser
parse s = if text_eq s (write page) then some page_url else none

abbrev trusting : State
trusting = record default_state { whitelist = domain ∷ [] }

abbrev base : Text
base = codes "chrome-extension://id/ext/viewer.html"

abbrev installed : RuleState
installed = record {
  dynamic_rules = catchall_rule base ∷ allow_rule 0 domain ∷ [];
  session_rules = escape_session_rule 7 domain ∷ [];
}

installed_lem : desired_rule_state trusting ((7, domain) ∷ []) base ≡ some installed
unfolding dnr_rules
installed_lem = refl

page_trusted : should_sandbox parse trusting (write page) ≡ false
unfolding dnr_rules should_sandbox has_http_scheme
page_trusted = refl

redirects-eq-should_sandbox_example :
    redirect_of (
      (model_engine re2).obeyed
        (installed.dynamic_rules ++ installed.session_rules)
        (request re2 page page-IsWebUrl page_canonical 3))
    ≡ (if should_sandbox parse trusting (write page) then some (viewer_substitution base) else none)
redirects-eq-should_sandbox_example =
    redirects-eq-should_sandbox re2 (model_engine re2) page page-IsWebUrl page_canonical 3 base
      ((7, domain) ∷ []) (omega arith, tt) trusting (domain-IsSound, tt) tt re2-catchall parse
      page_url installed (unfold dnr_rules in refl) refl (unfold dnr_rules has_http_scheme in refl)
      installed_lem

page_granted : entry_matches domain page.host ≡ true
unfolding dnr_rules
page_granted = refl

granted_passes_example :
    redirect_of (
      (model_engine re2).obeyed
        (installed.dynamic_rules ++ installed.session_rules)
        (request re2 page page-IsWebUrl page_canonical 7))
    ≡ none
granted_passes_example =
    granted_passes re2 (model_engine re2) page page-IsWebUrl page_canonical 7 base
      ((7, domain) ∷ []) trusting installed domain installed_lem domain-IsSound (Memᴰ.head refl)
      page_granted

dynamic_ids-AreDistinct_example : AreDistinct (ids installed.dynamic_rules)
dynamic_ids-AreDistinct_example =
    dynamic_ids-AreDistinct trusting ((7, domain) ∷ []) base installed installed_lem

entry_regex-render_example :
    entry_regex domain ≡ codes "^" ++ (render (entry_pattern domain) ++ codes "$")
entry_regex-render_example = entry_regex-render domain

pattern_iff_example :
    Matches (entry_pattern domain) (write page) ↔ (entry_covers domain page.host ≡ true)
pattern_iff_example = pattern_iff page page-IsWebUrl domain domain-IsSound.host_text

-- An untrusted page in a tab that is mid-navigation.
abbrev racing : Tab
racing = record { id = some 4; pending_url = some (write page); url = some (codes "about:blank") }

racing_swept :
    sweep_action parse default_state racing base none
    ≡ some (sandbox (viewer_url_for base (write page) []))
unfolding dnr_rules sweep_action tab_url viewer_target slice_target find_param should_sandbox
    has_http_scheme viewer_url_for
racing_swept = refl

sweep_action-settles_example :
    sweep_action parse default_state
      (settled (some 4) (viewer_url_for base (write page) []))
      base
      (some domain)
    ≡ none
sweep_action-settles_example =
    sweep_action-settles parse default_state base racing none (some domain)
      (sandbox (viewer_url_for base (write page) [])) (unfold dnr_rules find_param in refl)
      (unfold dnr_rules tab_url is_encoded in refl) (λ t e. cc) racing_swept

sweep_action_safe_example :
    ((t : Text) × (sandbox (viewer_url_for base (write page) []) ≡ native t)
      × (is_http_url parse t ≡ true)
      × (should_sandbox parse default_state t ≡ false))
    ⊎ ((sandbox (viewer_url_for base (write page) [])
          ≡ sandbox (viewer_url_for base (tab_url racing) []))
        × (should_sandbox parse default_state (tab_url racing) ≡ true)
        × (escapes parse none (tab_url racing) ≡ false)
        × (viewer_target (tab_url racing) base ≡ none))
sweep_action_safe_example =
    sweep_action_safe parse default_state base racing none
      (sandbox (viewer_url_for base (write page) [])) racing_swept

abbrev dotted_page : WebUrl
dotted_page = record { secure = true; host = codes "example.com."; port = []; tail = [] }

dotted_page-IsWebUrl : IsWebUrl dotted_page
unfolding dnr_rules
dotted_page-IsWebUrl = record {
  host_text = ground arith;
  host_some = cc;
  host_start = refl;
  port_digits = tt;
  tail_text = tt;
}

dotted_host_unfiltered_example :
    (entry_matches domain dotted_page.host ≡ true)
    × (¬ Matches (entry_pattern domain) (write dotted_page))
dotted_host_unfiltered_example =
    dotted_host_unfiltered domain dotted_page (unfold is_labels in refl) (cc) dotted_page-IsWebUrl
      refl
