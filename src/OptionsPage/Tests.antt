-- ===== src/OptionsPage/Tests.antt =====
-- A saved list, and the theorem at it.
use browsception.Prelude.{
  codes, ◌≡◌, refl, [], ◌∷◌, none, All, Text, has_code, false, split_lines, trim, text_eq, lower,
  starts_with, strip_dots,
}
use browsception.Host.{UrlParser}
use browsception.OptionsPage.{parse_list, join_lines, parse_lines}
use browsception.OptionsPage.Saving.{parse_list-join_lines}
use browsception.Popup.Clicks.{has_entry}
use browsception.ListMatch.{
  normalize_entry, normalize_lowered, pasted_host, checked, includes, is_labels, is_quad,
  is_ip_literal,
}

options : Unit {0}
unfolding parse_lines parse_list join_lines has_entry split_lines trim text_eq normalize_entry
    normalize_lowered pasted_host checked includes is_labels is_quad is_ip_literal lower starts_with
    strip_dots has_code
options = tt

abbrev no_parser : UrlParser
no_parser s = none

abbrev text : Text
text = codes "a.b\n\n =C.d. \n not a host\na.b"

parse_test :
    parse_list no_parser text ≡ record { entries = codes "a.b" ∷ codes "=c.d" ∷ []; dropped = 1 }
unfolding options
parse_test = refl

plain : All (λ e. has_code b':' e ≡ false) (parse_list no_parser text).entries
unfolding options
plain = (refl, (refl, tt))

parse_list-join_lines_example :
    parse_list no_parser (join_lines (parse_list no_parser text).entries)
    ≡ record { entries = (parse_list no_parser text).entries; dropped = 0 }
parse_list-join_lines_example = parse_list-join_lines no_parser text plain
