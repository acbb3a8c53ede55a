-- ===== src/ServiceWorker/Mirror.antt =====
-- src/ext/sw.mjs: the session storage mirrors the session rules of the grants.
use browsception.ServiceWorker.Events.{
  WorkerEvent, find_rule, bridge_rules, without_ids, keep_calls, keep_call, answer_all, answer,
  asked_natively, tab_removed, tab_updated, settings_changed, tabs_changed, reconciled,
}
use browsception.Prelude.{
  List, ℕ, Option, All, Text, ◌≡◌, some, none, if◌then◌else◌, ◌==◌, ◌∷◌, arith, [], Bool-cases,
  refl, inl, inr, false, ◌+◌, Bool, true, append-nil, ◌||◌, ◌∙◌, All-map,
}
use browsception.ServiceWorker.{
  Kept, escape_key, update_badge, update_session_rules, on_removed, grant_calls, grant_entry,
  open_natively, grant_parsed, do_apply,
}
use browsception.ServiceWorker.Grants.{IsSession-remove, IsSession-insert, escape_key-eq}
use browsception.Dnr.{Rule}
use browsception.DnrRules.{
  escape_rule_id, escape_session_rule, escape_base, Tab, tab_url, desired_rule_state,
}
use browsception.Prelude.TextMap.{lookup, lookup-insert, lookup-remove}
use browsception.Host.{UrlParser, Url, has_http_scheme}
use browsception.State.{get_state}
use browsception.ServiceWorker.Rules.{
  find_rule-append, find_rule_low, with-grant, find_rule-without_ids, without-grant, low_any,
  or_rule-none,
}
use browsception.ListMatch.{normalize_entry}
use browsception.ServiceWorker.Quiet.{
  IsBridgeRules, IsAllowed, IsMirror, rule_of, quiet_calls, update_badge-IsQuiet, desired-IsMirror,
}

granted_rule :
    (same : Bool) (n : ℕ) (entry : Text) (found : Option Text)
    → (if same then some (escape_session_rule n entry) else rule_of n found)
      ≡ rule_of n (if same then some entry else found)
granted_rule true n entry found = refl
granted_rule false n entry found = refl

removed_rule :
    (same : Bool) (n : ℕ) (found : Option Text)
    → (if same then none else rule_of n found) ≡ rule_of n (if same then none else found)
removed_rule true n found = refl
removed_rule false n found = refl

grant-IsMirror :
    (k : Kept) (t : ℕ) (entry url : Text)
    → IsMirror k
    → IsMirror (keep_calls k (grant_calls t entry url))
unfolding keep_calls
grant-IsMirror k t entry url m = record {
  keys = IsSession-insert t entry k.session m.keys;
  rules = λ n.
      rw
        (
          with-grant t n entry k.session_rules,
          m.rules n,
          lookup-insert (escape_key t) (escape_key n) entry k.session,
          escape_key-eq t n,
        )
        (granted_rule (t == n) n entry (lookup (escape_key n) k.session));
}

removed-IsMirror : (k : Kept) (t : ℕ) → IsMirror k → IsMirror (keep_calls k (on_removed t))
unfolding keep_calls on_removed
removed-IsMirror k t m = record {
  keys = IsSession-remove (escape_key t) k.session m.keys;
  rules = λ n.
      rw
        (
          append-nil (without_ids (escape_rule_id t ∷ []) k.session_rules),
          without-grant t n k.session_rules,
          m.rules n,
          lookup-remove (escape_key t) (escape_key n) k.session,
          escape_key-eq t n,
        )
        (removed_rule (t == n) n (lookup (escape_key n) k.session));
}

bridge-IsMirror :
    (k : Kept) (ids : List ℕ) (added : List Rule)
    → IsBridgeRules ids added
    → IsMirror k
    → IsMirror (keep_call k (update_session_rules ids added))
unfolding escape_rule_id
bridge-IsMirror k ids added low m = record {
  keys = m.keys;
  rules = λ n.
      let id = escape_base + n in
      rw
        (
          find_rule-append id (without_ids ids k.session_rules) added,
          find_rule_low id added (All-map _ _ (λ r h. omega arith) added low.1),
          find_rule-without_ids id ids k.session_rules,
          low_any id ids (All-map _ _ (λ i h. omega arith) ids low.0),
        )
        (or_rule-none (find_rule id k.session_rules) ∙ m.rules n);
}

module _ (parse : UrlParser) (base : Text) where
  entry-IsMirror :
      (k : Kept) (tab_id : Option ℕ) (url : Text) (entry : Option Text)
      → IsMirror k
      → IsMirror (keep_calls k (grant_entry tab_id url entry))
  unfolding keep_calls
  entry-IsMirror k none url entry m = m
  entry-IsMirror k (some t) url none m = m
  entry-IsMirror k (some t) url (some []) m = m
  entry-IsMirror k (some t) url (some (c ∷ entry)) m = grant-IsMirror k t (c ∷ entry) url m

  asked-IsMirror :
      (k : Kept) (tab_id : Option ℕ) (u : Option Url)
      → IsMirror k
      → IsMirror (keep_calls k (grant_parsed parse tab_id u))
  unfolding keep_calls
  asked-IsMirror k tab_id none m = m
  asked-IsMirror k tab_id (some u) m = elim (Bool-cases (has_http_scheme u)) [
    | inl web ↦ rw web (entry-IsMirror k tab_id u.href (normalize_entry parse u.hostname) m)
    | inr other ↦ rw other m
  ]

  updated-IsMirror :
      (k : Kept) (id : ℕ) (tab : Tab) (b : Bool)
      → IsMirror k
      → IsMirror
          (keep_calls k (if b then update_badge base (get_state k.stored) id (tab_url tab) else []))
  unfolding keep_calls
  updated-IsMirror k id tab true m =
      quiet_calls k (update_badge base (get_state k.stored) id (tab_url tab))
        (update_badge-IsQuiet base (get_state k.stored) id (tab_url tab)) m
  updated-IsMirror k id tab false m = m

  answer-IsMirror :
      (k : Kept) (e : WorkerEvent) → IsAllowed e → IsMirror k → IsMirror (answer parse base k e)
  unfolding open_natively do_apply
  answer-IsMirror k (asked_natively tab_id url) ok m = asked-IsMirror k tab_id (parse url) m
  answer-IsMirror k (tab_removed t) ok m = removed-IsMirror k t m
  answer-IsMirror k (tab_updated id tab u l) ok m = updated-IsMirror k id tab (u || l) m
  answer-IsMirror k reconciled ok m =
      let state = get_state k.stored in
      desired-IsMirror parse base state k (desired_rule_state state [] base) m
  answer-IsMirror k (bridge_rules ids added) ok m = bridge-IsMirror k ids added ok m
  answer-IsMirror k (settings_changed stored) ok m = record { keys = m.keys; rules = m.rules }
  answer-IsMirror k (tabs_changed tabs) ok m = record { keys = m.keys; rules = m.rules }

  -- The session storage mirrors the session rules: whatever messages, tabs, reconciles and changed
  -- settings the script answers, each to its end, and whatever rules with ids below those of grants
  -- the bridge keeps, the session rule of a tab is the one of the grant that is stored for it, and
  -- there is none where no grant is stored.
  pub answer_all-IsMirror :
      (k : Kept) (events : List WorkerEvent)
      → All IsAllowed events
      → IsMirror k
      → IsMirror (answer_all parse base k events)
  unfolding answer_all
  answer_all-IsMirror k [] ok m = m
  answer_all-IsMirror k (e ∷ events) ok m =
      answer_all-IsMirror (answer parse base k e) events ok.1 (answer-IsMirror k e ok.0 m)
