-- ===== src/ServiceWorker/Stays.antt =====
-- src/ext/sw.mjs: a tab that was opened natively, and what happens around it afterwards.
use browsception.ServiceWorker.{
  Kept, open_natively, sweep_tab, grant_entry, grant_calls, escape_grants,
}
use browsception.Prelude.{
  ℕ, List, Text, All, ◌≡◌, some, false, ◌∷◌, true, Bool-cases, inl, none, [], inr, refl,
}
use browsception.DnrRules.{sweep_action, tab_url, escapes, should_sandbox}
use browsception.Host.{UrlParser, Url, has_http_scheme}
use browsception.ServiceWorker.Events.{keep_calls, WorkerEvent, asked_natively, answer_all}
use browsception.State.{State}
use browsception.ServiceWorker.Grants.{IsSession, get-escape_grants}
use browsception.Prelude.TextMap.{TextMap}
use browsception.ListMatch.{is_labels, normalize_entry}
use browsception.ViewerUrl.{viewer_target}
use browsception.ListMatch.Canonical.{normalize_of_labels}
use browsception.DnrRules.Sweep.{settled, tab_url-settled}
use browsception.Popup.Offers.{entry_matches_self}
use browsception.ServiceWorker.Granted.{
  IsElsewhere, IsGranted, grant_calls-IsGranted, answer_all-IsGranted,
}

-- A plain host is granted as itself.
grants_itself :
    (parse : UrlParser) (t : ℕ) (url host : Text)
    → is_labels false host ≡ true
    → grant_entry (some t) url (normalize_entry parse host) ≡ grant_calls t host url
grants_itself parse t url [] labels = unfold is_labels in cc
grants_itself parse t url (c ∷ host) labels =
    rw (normalize_of_labels parse false (c ∷ host) labels) refl

asked_calls :
    (parse : UrlParser) (t : ℕ) (url : Text) (u : Url)
    → parse url ≡ some u
    → has_http_scheme u ≡ true
    → is_labels false u.hostname ≡ true
    → open_natively parse (some t) url ≡ grant_calls t u.hostname u.href
unfolding open_natively
asked_calls parse t url u parsed web labels =
    rw (parsed, web) (grants_itself parse t u.href u.hostname labels)

stays :
    (parse : UrlParser) (state : State) (base : Text) (t : ℕ) (u : Url)
    → parse u.href ≡ some u
    → is_labels false u.hostname ≡ true
    → viewer_target u.href base ≡ none
    → sweep_action parse state (settled (some t) u.href) base (some u.hostname) ≡ none
unfolding sweep_action
stays parse state base t u again labels outside =
    let at : tab_url (settled (some t) u.href) ≡ u.href = tab_url-settled (some t) u.href in
    let free : escapes parse (some u.hostname) u.href ≡ true =
      rw (escapes, again) (entry_matches_self u.hostname labels) in
    elim (Bool-cases (should_sandbox parse state u.href)) [
      | inl boxed ↦ rw (sweep_action, at, outside, at, boxed, free) refl
      | inr open' ↦ rw (sweep_action, at, outside, at, open') refl
    ]

module _ (parse : UrlParser) (base : Text) where
  settled_sweep :
      (state : State) (t : ℕ) (u : Url) (session : TextMap Text)
      → parse u.href ≡ some u
      → is_labels false u.hostname ≡ true
      → viewer_target u.href base ≡ none
      → IsGranted t u.hostname session
      → sweep_tab parse state base (escape_grants session) (settled (some t) u.href) ≡ []
  unfolding sweep_tab
  settled_sweep state t u session again labels outside g =
      rw
        (
          get-escape_grants t session g.keys,
          g.granted,
          stays parse state base t u again labels outside,
        )
        refl

  -- A tab that was opened natively is left alone by every later sweep, whatever the settings are by
  -- then, once it has arrived: after any further messages, tabs, reconciles, bridge rules and
  -- changed settings, each answered to its end, but for another grant for this tab and its removal.
  -- So for an http(s) URL on a plain host (no IPv6 literal), which is no viewer URL and is read by
  -- the parser again as itself.
  pub opened_tab_stays :
      (k : Kept) (events : List WorkerEvent) (state : State) (t : ℕ) (url : Text) (u : Url)
      → IsSession k.session
      → parse url ≡ some u
      → parse u.href ≡ some u
      → has_http_scheme u ≡ true
      → is_labels false u.hostname ≡ true
      → viewer_target u.href base ≡ none
      → All (IsElsewhere t) events
      → sweep_tab parse state base
          (escape_grants (answer_all parse base k (asked_natively (some t) url ∷ events)).session)
          (settled (some t) u.href)
        ≡ []
  unfolding answer_all
  opened_tab_stays k events state t url u ok parsed again web labels outside apart =
      let opened = keep_calls k (open_natively parse (some t) url) in
      let g : IsGranted t u.hostname opened.session =
        rw (asked_calls parse t url u parsed web labels)
          (grant_calls-IsGranted k t u.hostname u.href ok) in
      settled_sweep state t u (answer_all parse base opened events).session again labels outside
        (answer_all-IsGranted parse base t u.hostname opened events apart g)
