-- ===== src/Popup/Offers.antt =====
-- What is offered, and what a click on it changes.
use mathlib.Core.List.{Memᴰ}
use browsception.Prelude.{
  Text, ◌≡◌, ◌≢◌, List, [], ◌∷◌, ◌++◌, Option, none, some, Bool, true, false, not, refl, ap, arith,
  All, All-get, Bool-cases, inl, sym, subst, inr, codes, strip_dots, lower_of_fixed, ◌∙◌, any_intro,
  text_eq, text_eq_iff,
}
use browsception.Host.{Url, UrlParser, has_http_scheme}
use browsception.ListMatch.{entry_matches, list_matches, is_labels, canonical_host}
use browsception.State.{State, Mode}
use browsception.DnrRules.{should_sandbox, sandboxed_host}
use browsception.Popup.{
  SiteAction, Disposition, trust, untrust, sandbox, unsandbox, open_native_once, sandboxed, native,
  other, primary_actions, unknown, whitelist_actions, covering_entry, blacklist_actions,
  actions_for, removal, is_other, open_once,
}
use browsception.Popup.Clicks.{click, add_entry, has_entry}
use browsception.ListMatch.Canonical.{
  normalize_of_labels, host_chars-fixed, is_labels-All, strip_dots_of_labels, not_marked,
}
use browsception.ListMatch.Covers.{entry_matches_iff, CoversHost}

abbrev pub is_whitelist : Mode → Bool
is_whitelist Mode.whitelist = true
is_whitelist Mode.blacklist = false
is_whitelist (unknown m) = false

-- An entry of the list that matches the host, so that its removal changes something.
abbrev pub Covers : List Text → Text → SiteAction → Type 0
Covers list host a = (e : Text) × (a.entry ≡ some e) × Memᴰ e list × (entry_matches e host ≡ true)

-- What each offered operation carries.
abbrev pub IsOffer : State → Mode → Text → Text → SiteAction → Type 0
IsOffer state mode host entry a =
    (a.op ≡ trust → (is_whitelist mode ≡ true) × (a.entry ≡ some entry))
    × (a.op ≡ sandbox → (is_whitelist mode ≡ false) × (a.entry ≡ some entry))
    × (a.op ≡ untrust → (is_whitelist mode ≡ true) × Covers state.whitelist host a)
    × (a.op ≡ unsandbox → (is_whitelist mode ≡ false) × Covers state.blacklist host a)

covering_entry_lem :
    (list : List Text) (host e : Text)
    → covering_entry list host ≡ some e
    → Memᴰ e list × (entry_matches e host ≡ true)
unfolding covering_entry
covering_entry_lem [] host e h = cc
covering_entry_lem (x ∷ list) host e h = elim (Bool-cases (entry_matches x host)) [
  | inl m ↦
      let same : x ≡ e = ground (arith, h, m) in
      (Memᴰ.head (sym same), subst (λ t. entry_matches t host ≡ true) same m)
  | inr m ↦ let (a, b) = covering_entry_lem list host e (rw m at h) in (Memᴰ.tail a, b)
]

untrust_offers :
    (state : State) (host entry list : Text) (found : Option Text)
    → covering_entry state.whitelist host ≡ found
    → All (IsOffer state Mode.whitelist host entry) (removal untrust list found)
untrust_offers state host entry list none h = tt
untrust_offers state host entry list (some e) h = (
  (
    λ k. cc,
    λ k. cc,
    λ k. let (m, c) = covering_entry_lem state.whitelist host e h in (refl, (e, refl, m, c)),
    λ k. cc,
  ),
  tt,
)

unsandbox_offers :
    (state : State) (mode : Mode) (host entry list : Text) (found : Option Text) (more : SiteAction)
    → is_whitelist mode ≡ false
    → more.op ≡ open_native_once
    → covering_entry state.blacklist host ≡ found
    → All (IsOffer state mode host entry) (removal unsandbox list found ++ more ∷ [])
unsandbox_offers state mode host entry list none more off once h =
    ((λ k. cc, λ k. cc, λ k. cc, λ k. cc), tt)
unsandbox_offers state mode host entry list (some e) more off once h = (
  (
    λ k. cc,
    λ k. cc,
    λ k. cc,
    λ k. let (m, c) = covering_entry_lem state.blacklist host e h in (off, (e, refl, m, c)),
  ),
  ((λ k. cc, λ k. cc, λ k. cc, λ k. cc), tt),
)

whitelist_offers :
    (state : State) (d : Disposition) (host entry : Text)
    → All (IsOffer state Mode.whitelist host entry) (whitelist_actions state d host entry)
whitelist_offers state sandboxed host entry =
    ((λ k. (refl, refl), λ k. cc, λ k. cc, λ k. cc), ((λ k. cc, λ k. cc, λ k. cc, λ k. cc), tt))
whitelist_offers state native host entry = untrust_offers state host entry (codes "trusted") _ refl
whitelist_offers state other host entry = untrust_offers state host entry (codes "trusted") _ refl

blacklist_offers :
    (state : State) (mode : Mode) (d : Disposition) (host entry : Text)
    → is_whitelist mode ≡ false
    → All (IsOffer state mode host entry) (blacklist_actions state d host entry)
blacklist_offers state mode native host entry off =
    ((λ k. cc, λ k. (off, refl), λ k. cc, λ k. cc), tt)
blacklist_offers state mode sandboxed host entry off =
    unsandbox_offers state mode host entry (codes "sandbox") _ open_once off refl refl
blacklist_offers state mode other host entry off =
    unsandbox_offers state mode host entry (codes "sandbox") _ open_once off refl refl

actions_for-offers :
    (state : State) (mode : Mode) (d : Disposition) (host entry : Text)
    → All (IsOffer state mode host entry) (actions_for state mode d host (some entry))
actions_for-offers state Mode.whitelist d host entry = whitelist_offers state d host entry
actions_for-offers state Mode.blacklist d host entry =
    blacklist_offers state Mode.blacklist d host entry refl
actions_for-offers state (unknown m) d host entry =
    blacklist_offers state (unknown m) d host entry refl

offers :
    (parse : UrlParser) (state : State) (d : Disposition) (host : Text)
    → is_labels false host ≡ true
    → All (IsOffer state state.mode host host) (primary_actions parse state d (some host))
unfolding primary_actions
offers parse state d [] labels = tt
offers parse state d (c ∷ host) labels = elim (Bool-cases state.active) [
  | inr off ↦ rw off tt
  | inl on ↦ elim (Bool-cases (is_other d)) [
    | inl nowhere ↦ rw (on, nowhere) tt
    | inr there ↦
        rw (on, there, normalize_of_labels parse false (c ∷ host) labels)
          (actions_for-offers state state.mode d (c ∷ host) (c ∷ host))
  ]
]

canonical_of_labels : (s : Text) → is_labels false s ≡ true → canonical_host s ≡ s
canonical_of_labels s labels =
    ap strip_dots (lower_of_fixed s (host_chars-fixed s (is_labels-All false s labels)).0)
    ∙ strip_dots_of_labels false s labels

-- A plain host is covered by itself as an entry.
pub entry_matches_self : (s : Text) → is_labels false s ≡ true → entry_matches s s ≡ true
entry_matches_self s labels =
    let mark = not_marked s (is_labels-All false s labels) in
    let some' : s ≢ [] = λ e. nonempty s labels e in
    (entry_matches_iff s s).1 (some', some', CoversHost.same mark (canonical_of_labels s labels))
  where
    nonempty : (s : Text) → is_labels false s ≡ true → s ≢ []
    nonempty [] h = unfold is_labels in cc
    nonempty (c ∷ s) h = λ e. cc

has_entry_inv : (e : Text) (list : List Text) → has_entry e list ≡ true → Memᴰ e list
unfolding has_entry
has_entry_inv e [] h = cc
has_entry_inv e (x ∷ list) h = elim (Bool-cases (text_eq x e)) [
  | inl m ↦ Memᴰ.head (sym ((text_eq_iff x e).0 m))
  | inr m ↦ Memᴰ.tail (has_entry_inv e list (rw m at h))
]

mem-append_last : (e : Text) (list : List Text) → Memᴰ e (list ++ e ∷ [])
mem-append_last e [] = Memᴰ.head refl
mem-append_last e (x ∷ list) = Memᴰ.tail (mem-append_last e list)

mem-add_entry : (e : Text) (list : List Text) → Memᴰ e (add_entry e list)
unfolding add_entry
mem-add_entry e list = elim (Bool-cases (has_entry e list)) [
  | inl h ↦ rw h (has_entry_inv e list h)
  | inr h ↦ rw h (mem-append_last e list)
]

list_matches-add_entry :
    (host : Text) (list : List Text)
    → is_labels false host ≡ true
    → list_matches (add_entry host list) host ≡ true
unfolding list_matches
list_matches-add_entry host list labels =
    any_intro (λ e. entry_matches e host) (add_entry host list) (mem-add_entry host list)
      (entry_matches_self host labels)

-- The host's disposition once the host is on the list of the mode.
listed_host :
    (m : Mode) (state : State) (host : Text)
    → (is_whitelist m ≡ true → list_matches state.whitelist host ≡ true)
    → (is_whitelist m ≡ false → list_matches state.blacklist host ≡ true)
    → sandboxed_host m state host ≡ not (is_whitelist m)
listed_host Mode.whitelist state host w b = ap not (w refl)
listed_host Mode.blacklist state host w b = b refl
listed_host (unknown t) state host w b = b refl

should_sandbox_of_web :
    (parse : UrlParser) (state : State) (url : Text) (u : Url)
    → state.active ≡ true
    → parse url ≡ some u
    → has_http_scheme u ≡ true
    → should_sandbox parse state url ≡ sandboxed_host state.mode state u.hostname
unfolding should_sandbox
should_sandbox_of_web parse state url u on parsed scheme = simp (on, parsed, scheme)

-- In whitelist mode, a click on the offered `trust` of a tab's host makes the host run natively:
-- the host is a plain one (no IPv6 literal), and the URL is an http(s) URL on it.
pub trust-runs_natively :
    (parse : UrlParser) (state : State) (d : Disposition) (host url : Text) (u : Url)
    (a : SiteAction)
    → is_labels false host ≡ true
    → Memᴰ a (primary_actions parse state d (some host))
    → a.op ≡ trust
    → state.active ≡ true
    → parse url ≡ some u
    → has_http_scheme u ≡ true
    → u.hostname ≡ host
    → should_sandbox parse (click state a) url ≡ false
unfolding click
trust-runs_natively parse state d host url u a labels offered chosen on parsed scheme at_host =
    let (mode, entry) = (All-get _ _ (offers parse state d host labels) offered).0 chosen in
    let list = list_matches-add_entry host state.whitelist labels in
    let after = record state { whitelist = add_entry host state.whitelist } in
    let web = should_sandbox_of_web parse after url u on parsed scheme in
    let listed = listed_host state.mode after host (λ w. list) (λ b. cc) in
    rw (chosen, entry) (web ∙ ap (sandboxed_host state.mode after) at_host ∙ listed ∙ ap not mode)

-- In blacklist mode, a click on the offered `sandbox` of a tab's host makes the host sandboxed,
-- under the same conditions.
pub sandbox-is_sandboxed :
    (parse : UrlParser) (state : State) (d : Disposition) (host url : Text) (u : Url)
    (a : SiteAction)
    → is_labels false host ≡ true
    → Memᴰ a (primary_actions parse state d (some host))
    → a.op ≡ sandbox
    → state.active ≡ true
    → parse url ≡ some u
    → has_http_scheme u ≡ true
    → u.hostname ≡ host
    → should_sandbox parse (click state a) url ≡ true
unfolding click
sandbox-is_sandboxed parse state d host url u a labels offered chosen on parsed scheme at_host =
    let (mode, entry) = (All-get _ _ (offers parse state d host labels) offered).1 chosen in
    let list = list_matches-add_entry host state.blacklist labels in
    let after = record state { blacklist = add_entry host state.blacklist } in
    let web = should_sandbox_of_web parse after url u on parsed scheme in
    let listed = listed_host state.mode after host (λ w. cc) (λ b. list) in
    rw (chosen, entry) (web ∙ ap (sandboxed_host state.mode after) at_host ∙ listed ∙ ap not mode)

-- An offered removal names an entry that is on the list and matches the tab's host, which is a
-- plain one: `untrust` one of the trusted list, and only in whitelist mode.
pub untrust-Covers :
    (parse : UrlParser) (state : State) (d : Disposition) (host : Text) (a : SiteAction)
    → is_labels false host ≡ true
    → Memᴰ a (primary_actions parse state d (some host))
    → a.op ≡ untrust
    → (is_whitelist state.mode ≡ true) × Covers state.whitelist host a
untrust-Covers parse state d host a labels offered chosen =
    (All-get _ _ (offers parse state d host labels) offered).2 chosen
