-- ===== src/DnrRules/Interception.antt =====
-- The installed rules intercept exactly the URLs that `should_sandbox` names.
use browsception.Prelude.{
  ℕ, Text, ◌≡◌, ◌↔◌, refl, sym, ap, ◌∙◌, Bool, true, [], arith, All, List, any_inv, any_intro,
  All-get, text_eq_iff, subst,
}
use mathlib.Core.List.{Memᴰ}
use browsception.Dnr.{Rule, main_frame}
use browsception.DnrRules.{rules_from, entry_regex, main_frame_filter}
use browsception.DnrRules.Filter.Urls.{WebUrl, IsWebUrl, write}
use browsception.DnrRules.Filter.Matching.{pattern_iff}
use browsception.DnrRules.Engine.{Navigation, Applies, IsSound, FilterFits, TabFits}
use browsception.ListMatch.{list_matches, entry_matches, entry_covers, canonical_host}
use browsception.DnrRules.Installed.{rules_from_inv, rules_from_intro}

module _ (re2 : Text → Text → Bool) (w : WebUrl) (web : IsWebUrl w)
    (canonical : canonical_host w.host ≡ w.host) (tab_id : ℕ) where
  abbrev pub request : Navigation
  request = record { url = write w; kind = main_frame; tab = tab_id }

  entry_matches-host : (e : Text) → IsSound re2 e → entry_matches e w.host ≡ entry_covers e w.host
  unfolding entry_matches
  entry_matches-host e s =
      let host : entry_covers e (canonical_host w.host) ≡ entry_covers e w.host =
        ap (entry_covers e) canonical in
      ground (arith, text_eq_iff e [], text_eq_iff w.host [], host, s.some_entry, web.host_some)

  pub entry_regex_iff :
      (e : Text)
      → IsSound re2 e
      → (re2 (entry_regex e) (write w) ≡ true) ↔ (entry_matches e w.host ≡ true)
  entry_regex_iff e s =
      let pattern = pattern_iff w web e s.host_text in
      let same = entry_matches-host e s in
      (
        λ h. same ∙ pattern.0 ((s.reads (write w)).0 h),
        λ h. (s.reads (write w)).1 (pattern.1 (sym same ∙ h)),
      )

  -- A family of rules, one for each entry, like `allow_rule` and `redirect_rule`.
  module _ (rule : ℕ → Text → Rule) where
    abbrev pub IsFamily : Type 0
    IsFamily = (i : ℕ) (e : Text) → (rule i e).condition ≡ main_frame_filter (entry_regex e)

    -- A rule of the family that applies names an entry that matches the host, and the other way
    -- round.
    module _ (family : IsFamily) (es : List Text) (sound : All (IsSound re2) es) where
      pub applied_entry :
          (i : ℕ) (r : Rule)
          → Memᴰ r (rules_from rule i es)
          → Applies re2 r request
          → (list_matches es w.host ≡ true) × (j : ℕ) × (e : Text) × (r ≡ rule j e)
      applied_entry i r m a =
          let (j, e, n, k) = rules_from_inv rule i es r m in
          let same : r.condition ≡ main_frame_filter (entry_regex e) =
            ap (λ (x : Rule). x.condition) k ∙ family j e in
          let fits : re2 (entry_regex e) (write w) ≡ true =
            subst (λ c. FilterFits re2 c.regex_filter (write w)) same a.filter in
          let matched = (entry_regex_iff e (All-get (IsSound re2) es sound n)).0 fits in
          (unfold list_matches in any_intro (λ x. entry_matches x w.host) es n matched, j, e, k)

      pub entry_applied :
          (i : ℕ)
          → list_matches es w.host ≡ true
          → (j : ℕ) × (e : Text) × Memᴰ (rule j e) (rules_from rule i es)
            × Applies re2 (rule j e) request
      entry_applied i h =
          let (e, n, matched) =
            any_inv (λ x. entry_matches x w.host) es (unfold list_matches in h) in
          let (j, m) = rules_from_intro rule i es e n in
          let fits = (entry_regex_iff e (All-get (IsSound re2) es sound n)).1 matched in
          let same = sym (family j e) in
          (
            j,
            e,
            m,
            record {
              kind = subst (λ c. Memᴰ main_frame c.resource_types) same (Memᴰ.head refl);
              tab = subst (λ c. TabFits c.tab_ids tab_id) same tt;
              filter = subst (λ c. FilterFits re2 c.regex_filter (write w)) same fits;
            },
          )
