-- ===== src/ServiceWorker/Tests.antt =====
-- A grant, a reconcile and a tab that is closed, and inputs that the theorems apply to.
use browsception.Prelude.{
  List, Text, some, codes, [], none, ◌≡◌, refl, ◌∷◌, true, arith, false, length, text_eq, lower,
  trim, has_code, starts_with, strip_dots,
}
use browsception.Host.{Url, has_http_scheme, UrlParser}
use browsception.ServiceWorker.{
  do_apply, sweep_tab, escape_key, Kept, escape_grants, Call, open_natively, send_response,
  update_tab, grants_from, sweep_tabs, refresh_badges, update_badge,
}
use browsception.Prelude.Maps.{get}
use browsception.State.{Stored, default_state, get_state}
use browsception.DnrRules.{
  RuleState, Tab, desired_rule_state, sweep_action, should_sandbox, tab_url, rules_from,
  catchall_rules,
}
use browsception.ServiceWorker.Events.{
  answer_all, WorkerEvent, keep_calls, reconciled, calls_or_none, asked_natively, bridge_rules,
  tab_removed, find_rule,
}
use browsception.ListMatch.{
  is_labels, normalize_entry, normalize_lowered, pasted_host, checked, list_matches, includes,
  is_quad,
}
use browsception.ServiceWorker.Hatch.{do_apply-installs}
use browsception.ServiceWorker.Stays.{opened_tab_stays}
use browsception.Prelude.TextMap.{lookup, insert}
use browsception.DnrRules.Sweep.{settled}
use browsception.ViewerUrl.{
  viewer_target, viewer_url_for, slice_target, find_param, is_encoded, target_of_raw,
}
use browsception.Bridge.Stream.{number_text}
use browsception.ServiceWorker.Quiet.{IsMirror}
use browsception.ServiceWorker.Mirror.{answer_all-IsMirror}

worker : Unit {0}
unfolding do_apply get escape_key number_text keep_calls open_natively has_http_scheme text_eq
    normalize_entry lower trim normalize_lowered pasted_host has_code starts_with checked is_labels
    strip_dots insert escape_grants grants_from find_rule lookup sweep_tabs sweep_tab sweep_action
    should_sandbox tab_url viewer_target slice_target find_param is_encoded target_of_raw
    refresh_badges update_badge desired_rule_state get_state list_matches viewer_url_for rules_from
    catchall_rules includes is_quad
worker = tt

abbrev base : Text
base = codes "chrome-extension://id/ext/viewer.html"

abbrev page : Url
page = record {
  href = codes "https://a.b/x";
  protocol = codes "https:";
  username = [];
  password = [];
  hostname = codes "a.b";
  port = [];
}

abbrev page_parser : UrlParser
page_parser s = some page

abbrev unset : Stored
unset = record {
  active = none;
  mode = none;
  whitelist = none;
  blacklist = none;
  allow_private_network = none;
}

abbrev idle_tab : Tab
idle_tab = record { id = some 7; pending_url = none; url = some page.href }

abbrev fresh : Kept
fresh = record {
  stored = unset;
  session = [];
  dynamic_rules = [];
  session_rules = [];
  tabs = idle_tab ∷ [];
}

worker_tests :
    (escape_key 102 ≡ codes "escape:102")
    × ((keep_calls fresh (open_natively page_parser (some 7) page.href)).session
        ≡ (codes "escape:7", codes "a.b") ∷ [])
    × (open_natively page_parser none page.href ≡ send_response false ∷ [])
    × (length (calls_or_none (do_apply page_parser base fresh)) ≡ 3)
    × (sweep_tab page_parser default_state base [] idle_tab
        ≡ update_tab 7 (viewer_url_for base page.href []) ∷ [])
unfolding worker
worker_tests = (refl, refl, refl, refl, refl)

fresh-IsMirror : IsMirror fresh
unfolding worker
fresh-IsMirror = record { keys = tt; rules = λ n. refl }

abbrev day : List WorkerEvent
day =
    reconciled
    ∷ asked_natively (some 7) page.href
    ∷ bridge_rules (9001 ∷ []) []
    ∷ tab_removed 7
    ∷ []

answer_all-IsMirror_example : IsMirror (answer_all page_parser base fresh day)
answer_all-IsMirror_example =
    answer_all-IsMirror page_parser base fresh day (tt, (tt, (((omega arith, tt), tt), (tt, tt))))
      fresh-IsMirror

plain_page :
    (has_http_scheme page ≡ true)
    × (is_labels false page.hostname ≡ true)
    × (viewer_target page.href base ≡ none)
unfolding worker
plain_page = (refl, refl, refl)

-- Another tab is opened natively and goes away, and the rules are reconciled.
abbrev afterwards : List WorkerEvent
afterwards = asked_natively (some 8) page.href ∷ tab_removed 8 ∷ reconciled ∷ []

opened_tab_stays_example :
    sweep_tab page_parser default_state base
      (escape_grants
        (answer_all page_parser base fresh
          (asked_natively (some 7) page.href ∷ afterwards)).session)
      (settled (some 7) page.href)
    ≡ []
opened_tab_stays_example =
    opened_tab_stays page_parser base fresh afterwards default_state 7 page.href page tt refl refl
      plain_page.0 plain_page.1 plain_page.2 (refl, (refl, (tt, tt)))

abbrev first_calls : List Call
first_calls = calls_or_none (do_apply page_parser base fresh)

first_calls_made : do_apply page_parser base fresh ≡ some first_calls
unfolding worker
first_calls_made = refl

do_apply-installs_example :
    (desired : RuleState) × (desired_rule_state (get_state fresh.stored) [] base ≡ some desired)
    × ((keep_calls fresh first_calls).dynamic_rules ≡ desired.dynamic_rules)
do_apply-installs_example = do_apply-installs page_parser base fresh first_calls first_calls_made
