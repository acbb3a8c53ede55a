-- ===== src/ViewerUrl/RoundTrip.antt =====
-- The viewer URL built for a target gives the target and the parameters back.
use browsception.Prelude.{
  ℕ, Text, ◌≡◌, refl, true, false, [], ◌∷◌, ◌++◌, some, none, arith, starts_with, Option,
  append_assoc, ap, append-nil, starts_with-append,
}
use browsception.ViewerUrl.{
  find_param, param_name, is_separator, cons_head, viewer_params, viewer_url_for, viewer_target,
  slice_target, target_of_raw, is_encoded,
}

-- A separator ends what `url=` can match.
starts_with-separator :
    (h t : Text) (c : ℕ)
    → is_separator c ≡ true
    → starts_with h param_name ≡ false
    → starts_with (h ++ c ∷ t) param_name ≡ false
unfolding starts_with
starts_with-separator [] t c s h = ground arith
starts_with-separator (a ∷ []) t c s h = ground arith
starts_with-separator (a ∷ b ∷ []) t c s h = ground arith
starts_with-separator (a ∷ b ∷ d ∷ []) t c s h = ground arith
starts_with-separator (a ∷ b ∷ d ∷ e ∷ h) t c s k = k

cons_head-none : (c : ℕ) (o : Option (Text × Text)) → cons_head c o ≡ none → o ≡ none
cons_head-none c none e = refl
cons_head-none c (some (a, b)) e = cc

find_param-first :
    (h t : Text) (c : ℕ)
    → is_separator c ≡ true
    → find_param h ≡ none
    → find_param (h ++ c ∷ (param_name ++ t)) ≡ some (h, t)
unfolding find_param
find_param-first [] t c s e = unfold starts_with in ground arith
find_param-first (d ∷ h) t c s e = ground (
  arith,
  s,
  starts_with-separator h (param_name ++ t) c s,
  find_param-first h t c s,
  cons_head-none d (find_param h),
)

-- Where the base has no `?` and no `&`, and the parameters before `url=` hold no `url=` of their
-- own, the head of a viewer URL.
abbrev pub viewer_head : Text → Text → Text
viewer_head viewer_base [] = viewer_base
viewer_head viewer_base (p ∷ params) = viewer_base ++ b'?' ∷ p ∷ params

pub find_param-viewer_url_for :
    (viewer_base target params : Text)
    → find_param (viewer_head viewer_base params) ≡ none
    → find_param (viewer_url_for viewer_base target params)
      ≡ some (viewer_head viewer_base params, target)
unfolding viewer_url_for
find_param-viewer_url_for viewer_base target [] e = find_param-first viewer_base target b'?' refl e
find_param-viewer_url_for viewer_base target (p ∷ params) e =
    rw (← append_assoc viewer_base (b'?' ∷ p ∷ params) (b'&' ∷ (param_name ++ target)))
      (find_param-first (viewer_base ++ b'?' ∷ p ∷ params) target b'&' refl e)

starts_with-viewer_url_for :
    (viewer_base target params : Text)
    → starts_with (viewer_url_for viewer_base target params) (viewer_base ++ b'?' ∷ []) ≡ true
unfolding viewer_url_for
starts_with-viewer_url_for viewer_base target [] =
    rw append_assoc at (starts_with-append (viewer_base ++ b'?' ∷ []) (param_name ++ target))
starts_with-viewer_url_for viewer_base target (p ∷ params) =
    rw append_assoc at (
      starts_with-append (viewer_base ++ b'?' ∷ []) ((p ∷ params) ++ b'&' ∷ (param_name ++ target)))

slice_target_of_found :
    (s raw_hash head raw : Text)
    → find_param s ≡ some (head, raw)
    → slice_target s raw_hash ≡ some (target_of_raw raw raw_hash)
unfolding slice_target
slice_target_of_found s raw_hash head raw e = rw (e, slice_target)

-- A raw target written into a viewer URL is read back from it whole, whatever `?`, `&`, `#` and
-- `url=` it holds: the base and the parameters hold no `url=` parameter, and the target does not
-- begin like a percent-encoded http(s) URL.
pub viewer_target-viewer_url_for :
    (viewer_base target params : Text)
    → find_param (viewer_head viewer_base params) ≡ none
    → is_encoded target ≡ false
    → viewer_target (viewer_url_for viewer_base target params) viewer_base ≡ some target
unfolding viewer_target target_of_raw
viewer_target-viewer_url_for viewer_base target params e raw =
    rw
      (
        starts_with-viewer_url_for viewer_base target params,
        slice_target_of_found _ [] _ target (find_param-viewer_url_for viewer_base target params e),
        raw,
      )
      (ap some (append-nil target))

-- The viewer's own parameters, when they hold no `url=` themselves, are read back from the search
-- part of a viewer URL built with them, whatever its target.
pub viewer_params-viewer_url_for :
    (target params : Text)
    → find_param (viewer_head [] params) ≡ none
    → viewer_params (viewer_url_for [] target params) ≡ params
unfolding viewer_params
viewer_params-viewer_url_for target [] e =
    rw (find_param-viewer_url_for [] target [] e) (unfold starts_with in refl)
viewer_params-viewer_url_for target (p ∷ params) e =
    rw (find_param-viewer_url_for [] target (p ∷ params) e) (unfold starts_with in refl)
