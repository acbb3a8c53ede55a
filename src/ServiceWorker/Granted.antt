-- ===== src/ServiceWorker/Granted.antt =====
-- src/ext/sw.mjs: the grant of one tab, which other events leave in the session storage.
use browsception.ServiceWorker.{
  Call, Kept, open_natively, do_apply, grant_parsed, update_dynamic_rules, grant_entry, grant_calls,
  on_removed, escape_key, update_session_rules, update_badge, apply_desired, set_session,
  remove_session, update_tab, set_badge_text, set_badge_color, send_response,
}
use browsception.Prelude.{
  ℕ, List, Text, All, ◌≡◌, Option, Bool, ◌==◌, some, false, ◌∷◌, ◌∙◌, true, Bool-cases,
  if◌then◌else◌, inl, none, [], subst, inr, refl, text_eq_refl, sym, ◌||◌,
}
use browsception.DnrRules.{Tab, RuleState, tab_url, desired_rule_state}
use browsception.Host.{UrlParser, Url, has_http_scheme}
use browsception.ServiceWorker.Quiet.{IsQuiet, reconcile_calls-IsQuiet, update_badge-IsQuiet}
use browsception.ServiceWorker.Events.{
  keep_calls, WorkerEvent, keep_call, asked_natively, answer_all, answer, calls_or_none,
  tab_removed, tab_updated, bridge_rules, settings_changed, tabs_changed, reconciled,
}
use browsception.State.{State, get_state}
use browsception.ServiceWorker.Grants.{IsSession, IsSession-insert, IsSession-remove, escape_key-eq}
use browsception.Prelude.TextMap.{TextMap, lookup, insert, remove, lookup-insert, lookup-remove}
use browsception.ListMatch.{normalize_entry}

-- The session storage has the grant of the entry for the tab.
pub record IsGranted (t : ℕ) (entry : Text) (session : TextMap Text) : Type 0 where
  pub keys : IsSession session
  pub granted : lookup (escape_key t) session ≡ some entry

-- An event that is no grant for the tab and not its removal.
abbrev pub IsElsewhere : ℕ → WorkerEvent → Type 0
IsElsewhere t (asked_natively (some i) url) = (i == t) ≡ false
IsElsewhere t (tab_removed i) = (i == t) ≡ false
IsElsewhere t _ = Unit

quiet_session : (k : Kept) (c : Call) → IsQuiet c → (keep_call k c).session ≡ k.session
quiet_session k (update_dynamic_rules ids added) q = absurd q
quiet_session k (update_session_rules ids added) q = absurd q
quiet_session k (set_session key value) q = absurd q
quiet_session k (remove_session key) q = absurd q
quiet_session k (update_tab tab_id url) q = refl
quiet_session k (set_badge_text tab_id t) q = refl
quiet_session k (set_badge_color tab_id t) q = refl
quiet_session k (send_response ok) q = refl

quiet_sessions :
    (k : Kept) (calls : List Call) → All IsQuiet calls → (keep_calls k calls).session ≡ k.session
unfolding keep_calls
quiet_sessions k [] q = refl
quiet_sessions k (c ∷ calls) q = quiet_sessions (keep_call k c) calls q.1 ∙ quiet_session k c q.0

pub grant_calls-IsGranted :
    (k : Kept) (t : ℕ) (entry url : Text)
    → IsSession k.session
    → IsGranted t entry (keep_calls k (grant_calls t entry url)).session
unfolding keep_calls
grant_calls-IsGranted k t entry url ok = record {
  keys = IsSession-insert t entry k.session ok;
  granted =
      rw (lookup-insert (escape_key t) (escape_key t) entry k.session, text_eq_refl (escape_key t))
        refl;
}

module _ (parse : UrlParser) (base : Text) where
  reconciled_session :
      (state : State) (k : Kept) (d : Option RuleState)
      → (keep_calls k (calls_or_none (apply_desired parse state base k d))).session ≡ k.session
  unfolding keep_calls
  reconciled_session state k none = refl
  reconciled_session state k (some desired) =
      quiet_sessions _ _ (reconcile_calls-IsQuiet parse base state k)

  updated_session :
      (k : Kept) (id : ℕ) (tab : Tab) (b : Bool)
      → (keep_calls k
          (if b then update_badge base (get_state k.stored) id (tab_url tab) else [])).session
        ≡ k.session
  unfolding keep_calls
  updated_session k id tab true =
      quiet_sessions k _ (update_badge-IsQuiet base (get_state k.stored) id (tab_url tab))
  updated_session k id tab false = refl

  module _ (t : ℕ) (entry : Text) where
    other_grant :
        (i : ℕ) (other : Text) (session : TextMap Text)
        → (i == t) ≡ false
        → IsGranted t entry session
        → IsGranted t entry (insert (escape_key i) other session)
    other_grant i other session apart g = record {
      keys = IsSession-insert i other session g.keys;
      granted =
          rw (lookup-insert (escape_key i) (escape_key t) other session, escape_key-eq i t, apart)
            g.granted;
    }

    other_removal :
        (i : ℕ) (session : TextMap Text)
        → (i == t) ≡ false
        → IsGranted t entry session
        → IsGranted t entry (remove (escape_key i) session)
    other_removal i session apart g = record {
      keys = IsSession-remove (escape_key i) session g.keys;
      granted =
          rw (lookup-remove (escape_key i) (escape_key t) session, escape_key-eq i t, apart)
            g.granted;
    }

    entry-IsGranted :
        (k : Kept) (tab_id : Option ℕ) (asked url : Text) (e : Option Text)
        → IsElsewhere t (asked_natively tab_id asked)
        → IsGranted t entry k.session
        → IsGranted t entry (keep_calls k (grant_entry tab_id url e)).session
    unfolding keep_calls
    entry-IsGranted k none asked url e apart g = g
    entry-IsGranted k (some i) asked url none apart g = g
    entry-IsGranted k (some i) asked url (some []) apart g = g
    entry-IsGranted k (some i) asked url (some (c ∷ e)) apart g =
        other_grant i (c ∷ e) k.session apart g

    asked-IsGranted :
        (k : Kept) (tab_id : Option ℕ) (asked : Text) (u : Option Url)
        → IsElsewhere t (asked_natively tab_id asked)
        → IsGranted t entry k.session
        → IsGranted t entry (keep_calls k (grant_parsed parse tab_id u)).session
    unfolding keep_calls
    asked-IsGranted k tab_id asked none apart g = g
    asked-IsGranted k tab_id asked (some u) apart g = elim (Bool-cases (has_http_scheme u)) [
      | inl web ↦
          rw web (entry-IsGranted k tab_id asked u.href (normalize_entry parse u.hostname) apart g)
      | inr other ↦ rw other g
    ]

    answer-IsGranted :
        (k : Kept) (e : WorkerEvent)
        → IsElsewhere t e
        → IsGranted t entry k.session
        → IsGranted t entry (answer parse base k e).session
    unfolding open_natively do_apply keep_calls on_removed
    answer-IsGranted k (asked_natively tab_id url) apart g =
        asked-IsGranted k tab_id url (parse url) apart g
    answer-IsGranted k (tab_removed i) apart g = other_removal i k.session apart g
    answer-IsGranted k (tab_updated id tab u l) apart g =
        subst (IsGranted t entry) (sym (updated_session k id tab (u || l))) g
    answer-IsGranted k reconciled apart g =
        let state = get_state k.stored in
        subst (IsGranted t entry)
          (sym (reconciled_session state k (desired_rule_state state [] base))) g
    answer-IsGranted k (bridge_rules ids added) apart g = g
    answer-IsGranted k (settings_changed stored) apart g = g
    answer-IsGranted k (tabs_changed tabs) apart g = g

    pub answer_all-IsGranted :
        (k : Kept) (events : List WorkerEvent)
        → All (IsElsewhere t) events
        → IsGranted t entry k.session
        → IsGranted t entry (answer_all parse base k events).session
    unfolding answer_all
    answer_all-IsGranted k [] apart g = g
    answer_all-IsGranted k (e ∷ events) apart g =
        answer_all-IsGranted (answer parse base k e) events apart.1 (answer-IsGranted k e apart.0 g)
