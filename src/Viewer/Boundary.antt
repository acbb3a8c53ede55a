-- ===== src/Viewer/Boundary.antt =====
-- src/ext/viewer.mjs: `navigationPolicy` and the gate before the host's clipboard.
use browsception.Host.{UrlParser}
use browsception.Prelude.{
  Text, Option, Bool, if◌then◌else◌, List, true, false, ◌∷◌, not, ◌≡◌, [], some, text_eq, map, ◌&&◌,
  ap, none, refl,
}
use browsception.State.{State}
use browsception.DnrRules.{should_sandbox}

pub data Disposal : Type 0 where
  nested leave : Disposal

abbrev pub same_target : Text → Option Text → Bool
same_target url none = false
same_target url (some target) = text_eq url target

abbrev pub by_lists : UrlParser → State → Text → Disposal
by_lists parse state url = if should_sandbox parse state url then nested else leave

-- `navigationPolicy`: whether a main load was seen, from then on that one was, and the answer.
-- `nested` is 'sandbox' and `leave` is 'native'.
unfoldable pub navigation_policy : UrlParser → State → Option Text → Bool → Text → Bool × Disposal
navigation_policy parse state navigate_url seen url =
    (true, if not seen && same_target url navigate_url then nested else by_lists parse state url)

unfoldable pub policies : UrlParser → State → Option Text → Bool → List Text → List Disposal
policies parse state navigate_url seen [] = []
policies parse state navigate_url seen (url ∷ urls) =
    let (seen', d) = navigation_policy parse state navigate_url seen url in
    d ∷ policies parse state navigate_url seen' urls

-- Only the first main load of a viewer can be exempt, and only when it is the target that the
-- viewer was opened for: every later one leaves the sandbox exactly if it is not to be sandboxed.
pub policies-boundary :
    (parse : UrlParser) (state : State) (navigate_url : Option Text) (first : Text)
    (urls : List Text)
    → policies parse state navigate_url false (first ∷ urls)
      ≡ (if same_target first navigate_url then nested else by_lists parse state first)
        ∷ map (by_lists parse state) urls
unfolding policies navigation_policy
policies-boundary parse state navigate_url first urls =
    ap (λ ds. (if same_target first navigate_url then nested else by_lists parse state first) ∷ ds)
      (later urls)
  where
    later :
        (urls : List Text)
        → policies parse state navigate_url true urls ≡ map (by_lists parse state) urls
    later [] = refl
    later (url ∷ urls) = ap (λ ds. by_lists parse state url ∷ ds) (later urls)
