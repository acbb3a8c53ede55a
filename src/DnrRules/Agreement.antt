-- ===== src/DnrRules/Agreement.antt =====
-- Whatever the state, the browser sends a main-frame navigation to the viewer exactly if
-- `should_sandbox` says so.
use browsception.Prelude.{
  ◌≡◌, refl, sym, ap, Text, ℕ, Bool, true, false, List, [], ◌∷◌, ◌++◌, some, none, arith, Option,
  inl, inr, ◌⊎◌, ◌≢◌, if◌then◌else◌, All, has_code, subst, Option-cases, ◌∙◌, All-get, Bool-cases,
}
use mathlib.Core.List.Memᴰ
use mathlib.Core.List.{Memᴰ, map}
use browsception.Dnr.{Rule}
use browsception.State.{State, Mode, unknown}
use browsception.DnrRules.{
  catchall_rule, allow_rule, redirect_rule, rules_from, RuleState, desired_rule_state,
  should_sandbox, escape_session_rule, viewer_substitution, mode_rules, sandboxed_host,
  catchall_filter, catchall_rules,
}
use browsception.DnrRules.Engine.{
  Navigation, Applies, RuleEngine, Reads, IsSound, catchall_pattern, TabFits,
}
use browsception.DnrRules.Interception.{applied_entry, entry_applied, request}
use browsception.DnrRules.Filter.Urls.{WebUrl, IsWebUrl, write, from_host}
use browsception.DnrRules.Filter.Parts.{scheme_intro, none_of-Repeats}
use browsception.Regex.{Matches, seq, star, dot, none_of, stop}
use browsception.ListMatch.{list_matches, canonical_host}
use browsception.Host.{UrlParser, Url, has_http_scheme}
use browsception.DnrRules.Installed.{redirect_of, desired_inv, no_rules}

any_text : (s : Text) → All (λ c. has_code c [] ≡ false) s
unfolding has_code
any_text [] = tt
any_text (c ∷ s) = (refl, any_text s)

catchall-Matches : (w : WebUrl) → Matches catchall_pattern (write w)
unfolding write
catchall-Matches w =
    scheme_intro w.secure (seq (star dot) (star (none_of []))) (from_host w)
      ([], from_host w, refl, stop refl, none_of-Repeats [] (from_host w) (any_text (from_host w)))

module _ (re2 : Text → Text → Bool) (engine : RuleEngine re2) (w : WebUrl) (web : IsWebUrl w)
    (canonical : canonical_host w.host ≡ w.host) (tab_id : ℕ) where
  abbrev q : Navigation
  q = request re2 w web canonical tab_id

  -- The rules of grants for other tabs do not apply.
  session_away :
      (hatches : List (ℕ × Text)) (r : Rule)
      → All (λ h. h.0 ≢ tab_id) hatches
      → Memᴰ r (map (λ h. escape_session_rule h.0 h.1) hatches)
      → ¬ Applies re2 r q
  unfolding escape_session_rule
  session_away hatches r away m a =
      let (h, n, k) = Memᴰ.of_map (λ (h : ℕ × Text). escape_session_rule h.0 h.1) hatches m in
      let tab : Memᴰ tab_id (h.0 ∷ []) =
        subst (λ (x : Rule). TabFits x.condition.tab_ids tab_id) (sym k) a.tab in
      All-get (λ h. h.0 ≢ tab_id) hatches away n (sym (Memᴰ.eq_of_singleton tab))

  module _ (base : Text) (hatches : List (ℕ × Text)) (away : All (λ h. h.0 ≢ tab_id) hatches) where
    abbrev session : List Rule
    session = map (λ h. escape_session_rule h.0 h.1) hatches

    -- Where the obeyed rule is one of the dynamic rules.
    dynamic_obeyed :
        (dynamic : List Rule) (r : Rule)
        → engine.obeyed (dynamic ++ session) q ≡ some r
        → Memᴰ r dynamic × Applies re2 r q
    dynamic_obeyed dynamic r e =
        let (m, a) = engine.listed (dynamic ++ session) q r e in
        elim (Memᴰ.append_cases dynamic m) [
          | inl l ↦ (l, a)
          | inr s ↦ absurd (session_away hatches r away s a)
        ]

    module _ (list : List Text) (sound : All (IsSound re2) list) where
      abbrev redirects : List Rule
      redirects = rules_from (redirect_rule base) 0 list

      redirects_entry :
          (r : Rule)
          → engine.obeyed (redirects ++ session) q ≡ some r
          → (list_matches list w.host ≡ true) × (j : ℕ) × (e : Text) × (r ≡ redirect_rule base j e)
      redirects_entry r e =
          let (l, a) = dynamic_obeyed redirects r e in
          applied_entry re2 w web canonical tab_id (redirect_rule base) (λ i d. refl) list sound 0 r
            l a

      blacklist-redirects :
          list_matches list w.host ≡ true
          → redirect_of (engine.obeyed (redirects ++ session) q) ≡ some (viewer_substitution base)
      blacklist-redirects h =
          let (j, e, m, a) =
            entry_applied re2 w web canonical tab_id (redirect_rule base) (λ i d. refl) list sound 0
              h in
          elim (Option-cases (engine.obeyed (redirects ++ session) q)) [
            | inl missing ↦
                absurd (
                  engine.some_rule (redirects ++ session) q _ (Memᴰ.append_left session m) a
                    missing)
            | inr (r, k) ↦
                let (_, i, d, same) = redirects_entry r k in ap redirect_of (k ∙ ap some same)
          ]

      blacklist-passes :
          list_matches list w.host ≡ false
          → redirect_of (engine.obeyed (redirects ++ session) q) ≡ none
      blacklist-passes h = elim (Option-cases (engine.obeyed (redirects ++ session) q)) [
        | inl missing ↦ ap redirect_of missing
        | inr (r, k) ↦ cc (h, (redirects_entry r k).0)
      ]

      abbrev allows : List Rule
      allows = catchall_rule base ∷ rules_from allow_rule 0 list

      -- The rule obeyed in whitelist mode is the catch-all, or an entry that matches.
      allows_cases :
          (r : Rule)
          → engine.obeyed (allows ++ session) q ≡ some r
          → (r ≡ catchall_rule base)
            ⊎ ((list_matches list w.host ≡ true) × (j : ℕ) × (e : Text) × (r ≡ allow_rule j e))
      allows_cases r e =
          let (l, a) = dynamic_obeyed allows r e in
          elim (Memᴰ.cases_cons l) [
            | inl k ↦ inl k
            | inr m ↦ inr (
                applied_entry re2 w web canonical tab_id allow_rule (λ i d. refl) list sound 0 r m
                  a)
          ]

      whitelist-redirects :
          Reads re2 catchall_filter catchall_pattern
          → list_matches list w.host ≡ false
          → redirect_of (engine.obeyed (allows ++ session) q) ≡ some (viewer_substitution base)
      whitelist-redirects reads h =
          let a : Applies re2 (catchall_rule base) q = record {
            kind = Memᴰ.head refl;
            tab = tt;
            filter = (reads (write w)).1 (catchall-Matches w);
          } in
          elim (Option-cases (engine.obeyed (allows ++ session) q)) [
            | inl missing ↦
                absurd (engine.some_rule (allows ++ session) q _ (Memᴰ.head refl) a missing)
            | inr (r, k) ↦ elim (allows_cases r k) [
              | inl c ↦ ap redirect_of (k ∙ ap some c)
              | inr (m, i, d, same) ↦ cc (h, m)
            ]
          ]

      whitelist-passes :
          list_matches list w.host ≡ true → redirect_of (engine.obeyed (allows ++ session) q) ≡ none
      whitelist-passes h =
          let (j, e, m, a) =
            entry_applied re2 w web canonical tab_id allow_rule (λ i d. refl) list sound 0 h in
          elim (Option-cases (engine.obeyed (allows ++ session) q)) [
            | inl missing ↦ ap redirect_of missing
            | inr (r, k) ↦ elim (allows_cases r k) [
              | inl c ↦
                  let beats =
                    engine.highest (allows ++ session) q r (allow_rule j e) k
                      (Memᴰ.tail (Memᴰ.append_left session m)) a in
                  absurd (omega (arith, ap (λ (x : Rule). x.priority) c, beats))
              | inr (_, i, d, same) ↦ ap redirect_of (k ∙ ap some same)
            ]
          ]

    module _ (state : State) (trusted : All (IsSound re2) state.whitelist)
        (untrusted : All (IsSound re2) state.blacklist)
        (reads : Reads re2 catchall_filter catchall_pattern) where
      abbrev verdict : Bool → Option Text
      verdict sandboxed = if sandboxed then some (viewer_substitution base) else none

      mode_agrees :
          (m : Mode) (rules : List Rule)
          → mode_rules m state base ≡ some rules
          → redirect_of (engine.obeyed (rules ++ session) q)
            ≡ verdict (sandboxed_host m state w.host)
      unfolding catchall_rules
      mode_agrees Mode.whitelist rules e =
          let same : rules ≡ allows state.whitelist trusted = cc in
          elim (Bool-cases (list_matches state.whitelist w.host)) [
            | inl h ↦ rw (same, h) (whitelist-passes state.whitelist trusted h)
            | inr h ↦ rw (same, h) (whitelist-redirects state.whitelist trusted reads h)
          ]
      mode_agrees Mode.blacklist rules e =
          let same : rules ≡ redirects state.blacklist untrusted = cc in
          elim (Bool-cases (list_matches state.blacklist w.host)) [
            | inl h ↦ rw (same, h) (blacklist-redirects state.blacklist untrusted h)
            | inr h ↦ rw (same, h) (blacklist-passes state.blacklist untrusted h)
          ]
      mode_agrees (unknown t) rules e = cc

      -- With no grant for the tab, a main-frame request for a web URL is redirected to the viewer
      -- exactly if `should_sandbox` holds of the URL, and left alone otherwise. The entries of both
      -- lists are sound (hostname characters, their filters read as their patterns), the catch-all
      -- filter is read as its pattern, the URL parses to an http(s) URL with the host it is written
      -- with, and this host is in lower case with no dot at an end.
      pub redirects-eq-should_sandbox :
          (parse : UrlParser) (u : Url) (rs : RuleState)
          → parse (write w) ≡ some u
          → u.hostname ≡ w.host
          → has_http_scheme u ≡ true
          → desired_rule_state state hatches base ≡ some rs
          → redirect_of (engine.obeyed (rs.dynamic_rules ++ rs.session_rules) q)
            ≡ verdict (should_sandbox parse state (write w))
      unfolding desired_rule_state should_sandbox
      redirects-eq-should_sandbox parse u rs parsed host scheme e =
          elim (desired_inv state.active (mode_rules state.mode state base) hatches rs e) [
            | inl (off, nothing') ↦
                rw (off, nothing')
                  (no_rules (engine.obeyed [] q) (λ r k. (engine.listed [] q r k).0))
            | inr (on, (rules, k, same)) ↦
                rw (on, same, parsed, scheme, host) (mode_agrees state.mode rules k)
          ]
