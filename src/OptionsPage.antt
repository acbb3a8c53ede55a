-- ===== src/OptionsPage.antt =====
-- src/ext/options.mjs: the lists of the options page, from their text and back.
mod Saving
mod Tests
use browsception.Prelude.{
  ℕ, Text, List, [], ◌∷◌, ◌++◌, Option, none, some, Bool, ◌+◌, suc, split_lines, if◌then◌else◌,
  text_eq, trim,
}
use browsception.Host.{UrlParser}
use browsception.ListMatch.{normalize_entry}
use browsception.State.{State}
use browsception.Popup.Clicks.{has_entry}

pub record Parsed : Type 0 where
  pub entries : List Text
  pub dropped : ℕ

abbrev pub no_lines : Parsed
no_lines = record { entries = []; dropped = 0 }

abbrev pub add_line : Parsed → Option Text → Parsed
add_line p none = record p { dropped = suc p.dropped }
add_line p (some entry) =
    if has_entry entry p.entries then p else record p { entries = p.entries ++ entry ∷ [] }

-- A line that is blank is passed over.
abbrev pub read_line : UrlParser → Parsed → Text → Parsed
read_line parse p line =
    if text_eq (trim line) [] then p else add_line p (normalize_entry parse line)

-- The loop over the lines.
unfoldable pub parse_lines : UrlParser → Parsed → List Text → Parsed
parse_lines parse p [] = p
parse_lines parse p (line ∷ lines) = parse_lines parse (read_line parse p line) lines

-- `parseList`
unfoldable pub parse_list : UrlParser → Text → Parsed
parse_list parse text = parse_lines parse no_lines (split_lines text)

-- `entries.join('\n')`
unfoldable pub join_lines : List Text → Text
join_lines [] = []
join_lines (l ∷ []) = l
join_lines (l ∷ m ∷ ls) = l ++ 10 ∷ join_lines (m ∷ ls)

-- `save`: the state that is stored, and the texts that are shown from then on.
unfoldable pub save : UrlParser → Text → Text → Bool → State → State × Text × Text × ℕ
save parse whitelist blacklist override state =
    let wl = parse_list parse whitelist in
    let bl = parse_list parse blacklist in
    (
      record state {
        whitelist = wl.entries;
        blacklist = bl.entries;
        allow_private_network = override;
      },
      join_lines wl.entries,
      join_lines bl.entries,
      wl.dropped + bl.dropped,
    )
