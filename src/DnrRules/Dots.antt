-- ===== src/DnrRules/Dots.antt =====
-- A host with a dot at its end: `entryMatches` takes the dot off, and the filter does not.
use browsception.Prelude.{
  ℕ, ◌≡◌, ◌≢◌, refl, sym, ap, ◌∙◌, Text, [], ◌∷◌, ◌++◌, true, false, arith, strip_dots, lower,
  length, length-append, append_assoc, text_eq_iff, has_code, All, subst, lower_of_fixed,
  All-append, lower_char,
}
use browsception.ListMatch.{is_labels, entry_matches, entry_covers, canonical_host}
use browsception.ListMatch.Canonical.{
  strip_dots_of_labels, not_marked, is_labels-All, IsHostChar, host_chars-fixed,
}
use browsception.ListMatch.Covers.{CoversHost, exact, same, below, entry_covers_iff}
use browsception.DnrRules.{bare_entry}
use browsception.DnrRules.Filter.{entry_pattern}
use browsception.DnrRules.Filter.Urls.{WebUrl, IsWebUrl, write, IsHostText}
use browsception.DnrRules.Filter.Matching.{pattern_iff}
use browsception.Regex.{Matches}

strip_dots-append_dot : (s : Text) → strip_dots (s ++ b'.' ∷ []) ≡ strip_dots s
unfolding strip_dots
strip_dots-append_dot [] = refl
strip_dots-append_dot (c ∷ s) = rw (strip_dots-append_dot s)

strip_dots-cons :
    (c d : ℕ) (x : Text) → strip_dots (d ∷ x) ≡ d ∷ x → strip_dots (c ∷ d ∷ x) ≡ c ∷ d ∷ x
unfolding strip_dots
strip_dots-cons c d x h = rw h

strip_dots-append : (s t : Text) → strip_dots t ≡ t → t ≢ [] → strip_dots (s ++ t) ≡ s ++ t
strip_dots-append [] t e n = e
strip_dots-append (c ∷ s) [] e n = absurd (n refl)
strip_dots-append (c ∷ []) (d ∷ t) e n = strip_dots-cons c d t e
strip_dots-append (c ∷ a ∷ s) (d ∷ t) e n =
    strip_dots-cons c a (s ++ d ∷ t) (strip_dots-append (a ∷ s) (d ∷ t) e n)

no_dot_below : (e sub : Text) → is_labels false e ≡ true → e ≢ [] → e ++ b'.' ∷ [] ≢ sub ++ b'.' ∷ e
no_dot_below e sub labels some' k =
    let left = strip_dots-append_dot e ∙ strip_dots_of_labels false e labels in
    let right : strip_dots (sub ++ b'.' ∷ e) ≡ sub ++ b'.' ∷ e =
      rw (append_assoc sub (b'.' ∷ []) e) at
        (strip_dots-append (sub ++ b'.' ∷ []) e (strip_dots_of_labels false e labels) some') in
    let same : e ≡ sub ++ b'.' ∷ e = sym left ∙ ap strip_dots k ∙ right in
    omega (arith, ap length same, length-append sub (b'.' ∷ e))

no_dotted_cover : (e : Text) → is_labels false e ≡ true → e ≢ [] → ¬ CoversHost e (e ++ b'.' ∷ [])
no_dotted_cover e labels some' (exact k) = omega (arith, ap length k, length-append e (b'.' ∷ []))
no_dotted_cover e labels some' (same m k) = omega (arith, ap length k, length-append e (b'.' ∷ []))
no_dotted_cover e labels some' (below m i sub k) = no_dot_below e sub labels some' k

host_char-plain : (s : Text) → All IsHostChar s → IsHostText s
unfolding has_code
host_char-plain [] h = tt
host_char-plain (c ∷ s) h = (ground (arith, h.0), host_char-plain s h.1)

-- The dot is taken off, and the entry is left.
canonical_dotted : (e : Text) → is_labels false e ≡ true → canonical_host (e ++ b'.' ∷ []) ≡ e
canonical_dotted e labels =
    let chars = is_labels-All false e labels in
    let low : lower (e ++ b'.' ∷ []) ≡ e ++ b'.' ∷ [] = lower_of_fixed (e ++ b'.' ∷ []) (
      All-append (λ c. lower_char c ≡ c ∷ []) e (b'.' ∷ []) (host_chars-fixed e chars).0
        (unfold lower_char in refl, tt)) in
    ap strip_dots low ∙ strip_dots-append_dot e ∙ strip_dots_of_labels false e labels

-- For a domain entry and a URL on that domain written with a dot at its end, the entry matches the
-- host, and the filter that is installed for the entry does not match the URL.
pub dotted_host_unfiltered :
    (entry : Text) (w : WebUrl)
    → is_labels false entry ≡ true
    → entry ≢ []
    → IsWebUrl w
    → w.host ≡ entry ++ b'.' ∷ []
    → (entry_matches entry w.host ≡ true) × (¬ Matches (entry_pattern entry) (write w))
unfolding entry_matches
dotted_host_unfiltered entry w labels some' web e =
    let unmarked = not_marked entry (is_labels-All false entry labels) in
    let plain : IsHostText (bare_entry entry) =
      rw unmarked (host_char-plain entry (is_labels-All false entry labels)) in
    let host : canonical_host w.host ≡ entry =
      ap canonical_host e ∙ canonical_dotted entry labels in
    let covered : entry_covers entry (canonical_host w.host) ≡ true =
      rw host ((entry_covers_iff entry entry).1 (same unmarked refl)) in
    (
      ground (arith, text_eq_iff entry [], text_eq_iff w.host [], web.host_some, covered),
      λ m. no_dotted_cover entry labels some' (
          subst (CoversHost entry) e
            ((entry_covers_iff entry w.host).0 ((pattern_iff w web entry plain).0 m))),
    )
