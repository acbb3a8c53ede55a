-- ===== src/DnrRules/Filter.antt =====
-- The filter of an entry: the regular expression that it writes, and the web URLs that it matches.
pub mod Urls
pub mod Parts
pub mod Matching
use browsception.Prelude.{
  Text, codes, ◌≡◌, inl, inr, refl, sym, ap, ◌||◌, [], ◌∷◌, ◌++◌, if◌then◌else◌, append_assoc,
  Bool-cases,
}
use browsception.Regex.{
  Regex, empty, chr, dot, digit, one_of, none_of, seq, opt_chr, opt_group, plus, star, literal,
  render,
}
use browsception.ListMatch.{is_ip_literal}
use browsception.DnrRules.{escape_host, is_exact, bare_entry, entry_regex}

abbrev delimiters : Text
delimiters = codes "/:@?#"

abbrev pub scheme_pattern : Regex
scheme_pattern = seq (literal (codes "http")) (seq (opt_chr b's') (literal (codes "://")))

abbrev sub_pattern : Text → Regex
sub_pattern entry =
    if is_exact entry || is_ip_literal entry
    then empty
    else opt_group (seq (plus (none_of delimiters)) (chr b'.'))

abbrev port_pattern : Regex
port_pattern = opt_group (seq (chr b':') (plus digit))

abbrev tail_pattern : Regex
tail_pattern = opt_group (seq (one_of (codes "/?#")) (star dot))

-- What `entry_regex` writes between its anchors.
unfoldable pub entry_pattern : Text → Regex
entry_pattern entry =
    seq scheme_pattern
      (seq (sub_pattern entry) (seq (literal (bare_entry entry)) (seq port_pattern tail_pattern)))

escape_host-render : (host : Text) → escape_host host ≡ render (literal host)
unfolding escape_host literal render
escape_host-render [] = refl
escape_host-render (c ∷ s) = rw (escape_host-render s)

host-render :
    (host : Text)
    → escape_host host ++ codes "(?::\\d+)?(?:[/?#].*)?$"
      ≡ render (seq (literal host) (seq port_pattern tail_pattern)) ++ codes "$"
unfolding render
host-render host =
    rw (escape_host-render host) (sym (append_assoc (render (literal host)) _ (codes "$")))

-- The filter text that is installed for any entry is the printed form of the entry's pattern
-- between `^` and `$`.
pub entry_regex-render :
    (entry : Text) → entry_regex entry ≡ codes "^" ++ (render (entry_pattern entry) ++ codes "$")
unfolding entry_regex entry_pattern render literal
entry_regex-render entry = elim (Bool-cases (is_exact entry || is_ip_literal entry)) [
  | inl e ↦ rw e (ap (λ t. codes "^https?://" ++ t) (host-render (bare_entry entry)))
  | inr e ↦
      rw e (ap (λ t. codes "^https?://(?:[^/:@?#]+\\.)?" ++ t) (host-render (bare_entry entry)))
]
