-- ===== src/DnrRules/Sweep.antt =====
-- The tab sweep: what it does is stable, safe and obeys the grants.
use browsception.Prelude.{
  ℕ, ◌≡◌, refl, Text, [], ◌∷◌, some, none, arith, false, true, inl, inr, Option, ap, ◌⊎◌,
}
use browsception.State.{State}
use browsception.Host.{UrlParser, is_http_url}
use browsception.DnrRules.{
  Tab, tab_url, sweep_action, sweep_viewer, sweep_native, SweepAction, native, sandbox,
  should_sandbox, escapes,
}
use browsception.ViewerUrl.{viewer_target, find_param, is_encoded, viewer_url_for}
use browsception.ViewerUrl.RoundTrip.{viewer_target-viewer_url_for}

-- A tab that has arrived at a URL.
abbrev pub settled : Option ℕ → Text → Tab
settled id url = record { id = id; pending_url = none; url = some url }

pub tab_url-settled : (id : Option ℕ) (url : Text) → tab_url (settled id url) ≡ url
unfolding tab_url
tab_url-settled id [] = refl
tab_url-settled id (c ∷ s) = refl

module _ (parse : UrlParser) (state : State) (viewer_base : Text) where
  abbrev swept_tab : Tab → Option Text → Option SweepAction
  swept_tab tab grant = sweep_action parse state tab viewer_base grant

  -- What the sweep did to a tab, taken apart.
  sweep_sandbox_inv :
      (tab : Tab) (grant : Option Text) (u : Text)
      → swept_tab tab grant ≡ some (sandbox u)
      → (viewer_target (tab_url tab) viewer_base ≡ none)
        × (should_sandbox parse state (tab_url tab) ≡ true)
        × (escapes parse grant (tab_url tab) ≡ false)
        × (u ≡ viewer_url_for viewer_base (tab_url tab) [])
  unfolding sweep_action
  sweep_sandbox_inv tab grant u h = by_case (viewer_target (tab_url tab) viewer_base) refl h
    where
      by_case :
          (o : Option Text)
          → viewer_target (tab_url tab) viewer_base ≡ o
          → elim o [
            | some target ↦ sweep_viewer parse state target
            | none ↦ sweep_native parse state viewer_base (tab_url tab) grant
          ]
            ≡ some (sandbox u)
          → (viewer_target (tab_url tab) viewer_base ≡ none)
            × (should_sandbox parse state (tab_url tab) ≡ true)
            × (escapes parse grant (tab_url tab) ≡ false)
            × (u ≡ viewer_url_for viewer_base (tab_url tab) [])
      by_case none e k = (e, ground arith, ground arith, ground arith)
      by_case (some t) e k = ground arith

  sweep_native_inv :
      (tab : Tab) (grant : Option Text) (t : Text)
      → swept_tab tab grant ≡ some (native t)
      → (viewer_target (tab_url tab) viewer_base ≡ some t)
        × (should_sandbox parse state t ≡ false)
        × (is_http_url parse t ≡ true)
  unfolding sweep_action
  sweep_native_inv tab grant t h = by_case (viewer_target (tab_url tab) viewer_base) refl h
    where
      by_case :
          (o : Option Text)
          → viewer_target (tab_url tab) viewer_base ≡ o
          → elim o [
            | some target ↦ sweep_viewer parse state target
            | none ↦ sweep_native parse state viewer_base (tab_url tab) grant
          ]
            ≡ some (native t)
          → (viewer_target (tab_url tab) viewer_base ≡ some t)
            × (should_sandbox parse state t ≡ false)
            × (is_http_url parse t ≡ true)
      by_case none e k = ground arith
      by_case (some s) e k =
          let same : s ≡ t = ground arith in
          (cc, rw (← same) (ground arith), rw (← same) (ground arith))

  abbrev action_url : SweepAction → Text
  action_url (native t) = t
  action_url (sandbox u) = u

  -- Once a tab has gone where the sweep sent it, the next sweep under the same state leaves it
  -- alone: the viewer base holds no `url=` parameter, a sandboxed URL does not begin like a
  -- percent-encoded one, and a URL taken native is not itself a viewer URL.
  pub sweep_action-settles :
      (tab : Tab) (grant next_grant : Option Text) (a : SweepAction)
      → find_param viewer_base ≡ none
      → is_encoded (tab_url tab) ≡ false
      → ((t : Text) → a ≡ native t → viewer_target t viewer_base ≡ none)
      → sweep_action parse state tab viewer_base grant ≡ some a
      → sweep_action parse state (settled tab.id (action_url a)) viewer_base next_grant ≡ none
  unfolding sweep_action
  sweep_action-settles tab grant next_grant (sandbox u) base raw outside h =
      let (_, boxed, _, shape) = sweep_sandbox_inv tab grant u h in
      let back : viewer_target u viewer_base ≡ some (tab_url tab) =
        rw shape (viewer_target-viewer_url_for viewer_base (tab_url tab) [] base raw) in
      ground (
        arith,
        back,
        boxed,
        tab_url-settled tab.id u,
        ap (λ v. viewer_target v viewer_base) (tab_url-settled tab.id u),
      )
  sweep_action-settles tab grant next_grant (native t) base raw outside h =
      let (_, open', _) = sweep_native_inv tab grant t h in
      ground (
        arith,
        tab_url-settled tab.id t,
        outside t refl,
        open',
        ap (λ u. viewer_target u viewer_base) (tab_url-settled tab.id t),
        ap (should_sandbox parse state) (tab_url-settled tab.id t),
      )

  -- The sweep hands a tab only http(s) URLs that are not to be sandboxed, and sandboxes only URLs
  -- that are, that the tab has no grant for, and that were not yet in the viewer.
  pub sweep_action_safe :
      (tab : Tab) (grant : Option Text) (a : SweepAction)
      → sweep_action parse state tab viewer_base grant ≡ some a
      → ((t : Text) × (a ≡ native t)
          × (is_http_url parse t ≡ true)
          × (should_sandbox parse state t ≡ false))
        ⊎ ((a ≡ sandbox (viewer_url_for viewer_base (tab_url tab) []))
            × (should_sandbox parse state (tab_url tab) ≡ true)
            × (escapes parse grant (tab_url tab) ≡ false)
            × (viewer_target (tab_url tab) viewer_base ≡ none))
  sweep_action_safe tab grant (native t) h =
      let (_, open', http) = sweep_native_inv tab grant t h in inl (t, refl, http, open')
  sweep_action_safe tab grant (sandbox u) h =
      let (out, boxed, free, shape) = sweep_sandbox_inv tab grant u h in
      inr (ap sandbox shape, boxed, free, out)
