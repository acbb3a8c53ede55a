-- ===== src/ViewerUrl/Tests.antt =====
-- Cases of test/tier0/viewer-url.test.mjs.
use browsception.Prelude.{◌≡◌, refl, Text, codes, text_eq, starts_with, lower, some, none, []}
use browsception.Prelude.Uri.{decode_uri_component}
use browsception.ViewerUrl.{
  find_param, is_encoded, target_of_raw, slice_target, viewer_target, viewer_params, viewer_url_for,
}
use browsception.ViewerUrl.RoundTrip.{viewer_params-viewer_url_for, viewer_target-viewer_url_for}

viewer_url : Unit {0}
unfolding text_eq starts_with lower decode_uri_component find_param is_encoded target_of_raw
    slice_target viewer_target viewer_params viewer_url_for
viewer_url = tt

abbrev base : Text
base = codes "chrome-extension://id/ext/viewer.html"

slice_tests :
    (slice_target (codes "?blit=2d&url=https://a.b/?x=1&url=2") (codes "#f")
      ≡ some (codes "https://a.b/?x=1&url=2#f"))
    × (slice_target (codes "?url=https%3A%2F%2Fa.b%2F%C3%A9") (codes "#f")
        ≡ some (codes "https://a.b/é"))
    × (slice_target (codes "?url=https%3A%zz") (codes "#f") ≡ some (codes "https%3A%zz"))
    × (slice_target (codes "?curl=x") [] ≡ none)
    × (viewer_params (codes "?stub=1&url=x") ≡ codes "stub=1")
    × (viewer_target (codes "https://evil/?url=x") base ≡ none)
unfolding viewer_url
slice_tests = (refl, refl, refl, refl, refl, refl)

viewer_target-viewer_url_for_example :
    viewer_target (viewer_url_for base (codes "https://a.b/?url=c&d#e") (codes "blit=2d")) base
    ≡ some (codes "https://a.b/?url=c&d#e")
viewer_target-viewer_url_for_example =
    viewer_target-viewer_url_for base (codes "https://a.b/?url=c&d#e") (codes "blit=2d")
      (unfold viewer_url in refl) (unfold viewer_url in refl)

viewer_params-viewer_url_for_example :
    viewer_params (viewer_url_for [] (codes "https://a.b/") (codes "stub=1")) ≡ codes "stub=1"
viewer_params-viewer_url_for_example =
    viewer_params-viewer_url_for (codes "https://a.b/") (codes "stub=1") (unfold viewer_url in refl)
