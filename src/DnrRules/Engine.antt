-- ===== src/DnrRules/Engine.antt =====
-- The browser's rule engine, as a parameter with what its documentation says, and what an entry must
-- be for the engine to read its filter.
use browsception.Prelude.{ℕ, ◌≤◌, Text, ◌≡◌, ◌≢◌, ◌↔◌, Bool, true, [], List, Option, none, some}
use mathlib.Core.List.{Memᴰ}
use browsception.Regex.{Regex, Matches, seq, star, dot, none_of}
use browsception.Dnr.{Rule, ResourceType}
use browsception.DnrRules.{entry_regex, bare_entry}
use browsception.DnrRules.Filter.{entry_pattern, scheme_pattern}
use browsception.DnrRules.Filter.Urls.{IsHostText}

-- A request as the engine sees it.
pub record Navigation : Type 0 where
  pub url : Text
  pub kind : ResourceType
  pub tab : ℕ

abbrev pub TabFits : Option (List ℕ) → ℕ → Type 0
TabFits none t = Unit
TabFits (some ids) t = Memᴰ t ids

abbrev pub FilterFits : (Text → Text → Bool) → Option Text → Text → Type 0
FilterFits re2 none url = Unit
FilterFits re2 (some filter) url = re2 filter url ≡ true

-- When a rule without `urlFilter` and `initiatorDomains` applies. `re2` is the browser's test of a
-- `regexFilter` on a URL.
pub record Applies (re2 : Text → Text → Bool) (r : Rule) (q : Navigation) : Type 0 where
  pub kind : Memᴰ q.kind r.condition.resource_types
  pub tab : TabFits r.condition.tab_ids q.tab
  pub filter : FilterFits re2 r.condition.regex_filter q.url

-- What the engine documents: the rule that it obeys is one that applies, no rule that applies has a
-- higher priority, and it obeys one if any applies.
pub record RuleEngine (re2 : Text → Text → Bool) : Type 0 where
  pub obeyed : List Rule → Navigation → Option Rule
  pub listed :
      (rs : List Rule) (q : Navigation) (r : Rule)
      → obeyed rs q ≡ some r
      → Memᴰ r rs × Applies re2 r q
  pub highest :
      (rs : List Rule) (q : Navigation) (r s : Rule)
      → obeyed rs q ≡ some r
      → Memᴰ s rs
      → Applies re2 s q
      → s.priority ≤ r.priority
  pub some_rule :
      (rs : List Rule) (q : Navigation) (s : Rule)
      → Memᴰ s rs
      → Applies re2 s q
      → obeyed rs q ≢ none

-- How RE2 reads a filter: it holds of the texts that the pattern matches.
abbrev pub Reads : (Text → Text → Bool) → Text → Regex → Type 0
Reads re2 filter r = (s : Text) → (re2 filter s ≡ true) ↔ Matches r s

-- Behind a filter that does not end in `$` anything may follow.
abbrev pub catchall_pattern : Regex
catchall_pattern = seq scheme_pattern (seq (star dot) (star (none_of [])))

-- An entry as `normalizeEntry` leaves it, IPv6 literals apart, whose filter the engine reads.
pub record IsSound (re2 : Text → Text → Bool) (entry : Text) : Type 0 where
  pub some_entry : entry ≢ []
  pub host_text : IsHostText (bare_entry entry)
  pub reads : Reads re2 (entry_regex entry) (entry_pattern entry)
