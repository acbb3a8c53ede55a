-- ===== src/OptionsPage/Saving.antt =====
-- Saving what the options page shows changes nothing.
use browsception.Prelude.{
  Text, ◌≡◌, List, [], ◌∷◌, ◌++◌, Option, none, some, Bool, true, false, refl, ap, arith, All,
  All-append, text_eq, ◌==◌, has_code, Bool-cases, append-nil, split_lines, inl, ◌∙◌, trim, subst,
  append_assoc, sym, inr, starts_with, lower, strip_dots,
}
use browsception.Host.{UrlParser}
use browsception.ListMatch.{normalize_entry, with_mark}
use browsception.OptionsPage.{
  Parsed, parse_lines, parse_list, join_lines, add_line, read_line, no_lines,
}
use browsception.ListMatch.Canonical.{
  IsHostChar, normalize_lowered_inv, normalize_entry_inv, usable-is_labels, has_code-with_mark,
  is_labels-All, mark-fixed, with_mark-ne-nil, normalize_entry_idem,
}
use browsception.Popup.Clicks.{has_entry}

abbrev IsOneLine : Text → Type 0
IsOneLine l = All (λ c. (c == 10) ≡ false) l

split_lines-cut : (l t : Text) → IsOneLine l → split_lines (l ++ 10 ∷ t) ≡ l ∷ split_lines t
unfolding split_lines
split_lines-cut [] t h = refl
split_lines-cut (c ∷ l) t h = ground (arith, split_lines-cut l t h.1, h.0)

split_lines-line : (l : Text) → IsOneLine l → split_lines l ≡ l ∷ []
unfolding split_lines
split_lines-line [] h = refl
split_lines-line (c ∷ l) h = ground (arith, split_lines-line l h.1, h.0)

split_lines-join_lines :
    (l : Text) (ls : List Text)
    → IsOneLine l
    → All IsOneLine ls
    → split_lines (join_lines (l ∷ ls)) ≡ l ∷ ls
unfolding join_lines
split_lines-join_lines l [] h k = split_lines-line l h
split_lines-join_lines l (m ∷ ls) h k =
    split_lines-cut l (join_lines (m ∷ ls)) h ∙ ap (◌∷◌ l) (split_lines-join_lines m ls k.0 k.1)

-- An entry that is read as itself.
record IsStable (parse : UrlParser) (e : Text) : Type 0 where
  one_line : IsOneLine e
  not_blank : text_eq (trim e) [] ≡ false
  itself : normalize_entry parse e ≡ some e

-- Entries that differ from those seen and from each other.
abbrev AreNew : List Text → List Text → Type 0
AreNew seen [] = Unit
AreNew seen (e ∷ es) = (has_entry e seen ≡ false) × AreNew (seen ++ e ∷ []) es

AreNew-snoc :
    (seen es : List Text) (e : Text)
    → AreNew seen es
    → has_entry e (seen ++ es) ≡ false
    → AreNew seen (es ++ e ∷ [])
AreNew-snoc seen [] e h n = (subst (λ l. has_entry e l ≡ false) (append-nil seen) n, tt)
AreNew-snoc seen (d ∷ es) e h n = (
  h.0,
  AreNew-snoc (seen ++ d ∷ []) es e h.1
      (subst (λ l. has_entry e l ≡ false) (sym (append_assoc seen (d ∷ []) es)) n),
)

-- What the loop keeps.
abbrev IsGood : UrlParser → Parsed → Type 0
IsGood parse p =
    All (λ e. (has_code b':' e ≡ false) → IsStable parse e) p.entries × AreNew [] p.entries

host-IsOneLine : (s : Text) → All IsHostChar s → IsOneLine s
host-IsOneLine [] h = tt
host-IsOneLine (c ∷ s) h = (ground (arith, h.0), host-IsOneLine s h.1)

mark-IsOneLine : (exact : Bool) (s : Text) → All IsHostChar s → IsOneLine (with_mark exact s)
mark-IsOneLine false s h = host-IsOneLine s h
mark-IsOneLine true s h = (refl, host-IsOneLine s h)

normalize_entry-IsStable :
    (parse : UrlParser) (line e : Text)
    → normalize_entry parse line ≡ some e
    → has_code b':' e ≡ false
    → IsStable parse e
normalize_entry-IsStable parse line e h colon =
    let (host, _, usable, shape) =
      normalize_lowered_inv parse _ (normalize_entry_inv parse line h) in
    let exact = starts_with (lower (trim line)) (b'=' ∷ []) in
    let s = strip_dots host in
    let labels = usable-is_labels s usable (has_code-with_mark exact s (rw shape at colon)) in
    let chars = is_labels-All false s labels in
    record {
      one_line = rw shape (mark-IsOneLine exact s chars);
      not_blank = rw shape (rw ((mark-fixed exact s chars).0) (with_mark-ne-nil exact s labels));
      itself = normalize_entry_idem parse line e h colon;
    }

add_line-IsGood :
    (parse : UrlParser) (p : Parsed) (line : Text) (o : Option Text)
    → normalize_entry parse line ≡ o
    → IsGood parse p
    → IsGood parse (add_line p o)
add_line-IsGood parse p line none h g = g
add_line-IsGood parse p line (some e) h g = elim (Bool-cases (has_entry e p.entries)) [
  | inl old ↦ rw old g
  | inr new ↦ rw new (
    All-append _ p.entries (e ∷ []) g.0
        (λ colon. normalize_entry-IsStable parse line e h colon, tt),
    AreNew-snoc [] p.entries e g.1 new,
  )
]

read_line-IsGood :
    (parse : UrlParser) (p : Parsed) (line : Text)
    → IsGood parse p
    → IsGood parse (read_line parse p line)
read_line-IsGood parse p line g = elim (Bool-cases (text_eq (trim line) [])) [
  | inl blank ↦ rw blank g
  | inr read ↦ rw read (add_line-IsGood parse p line _ refl g)
]

parse_lines-IsGood :
    (parse : UrlParser) (p : Parsed) (lines : List Text)
    → IsGood parse p
    → IsGood parse (parse_lines parse p lines)
unfolding parse_lines
parse_lines-IsGood parse p [] g = g
parse_lines-IsGood parse p (line ∷ lines) g =
    parse_lines-IsGood parse (read_line parse p line) lines (read_line-IsGood parse p line g)

read_line-stable :
    (parse : UrlParser) (p : Parsed) (e : Text)
    → IsStable parse e
    → has_entry e p.entries ≡ false
    → read_line parse p e ≡ record p { entries = p.entries ++ e ∷ [] }
read_line-stable parse p e h new = rw (h.not_blank, h.itself, new) refl

-- Reading stable entries that are new adds them in order and drops nothing.
parse_lines-stable :
    (parse : UrlParser) (p : Parsed) (es : List Text)
    → All (IsStable parse) es
    → AreNew p.entries es
    → parse_lines parse p es ≡ record p { entries = p.entries ++ es }
unfolding parse_lines
parse_lines-stable parse p [] h n = ap (λ l. record p { entries = l }) (sym (append-nil p.entries))
parse_lines-stable parse p (e ∷ es) h n =
    ap (λ q. parse_lines parse q es) (read_line-stable parse p e h.0 n.0)
    ∙ parse_lines-stable parse (record p { entries = p.entries ++ e ∷ [] }) es h.1 n.1
    ∙ ap (λ l. record p { entries = l }) (append_assoc p.entries (e ∷ []) es)

entries-IsStable :
    (parse : UrlParser) (es : List Text)
    → All (λ e. (has_code b':' e ≡ false) → IsStable parse e) es
    → All (λ e. has_code b':' e ≡ false) es
    → All (IsStable parse) es
entries-IsStable parse [] h k = tt
entries-IsStable parse (e ∷ es) h k = (h.0 k.0, entries-IsStable parse es h.1 k.1)

entries-IsOneLine :
    (parse : UrlParser) (es : List Text) → All (IsStable parse) es → All IsOneLine es
entries-IsOneLine parse [] h = tt
entries-IsOneLine parse (e ∷ es) h = (h.0.one_line, entries-IsOneLine parse es h.1)

saved_again :
    (parse : UrlParser) (es : List Text)
    → All (IsStable parse) es
    → AreNew [] es
    → parse_list parse (join_lines es) ≡ record { entries = es; dropped = 0 }
unfolding parse_list
saved_again parse [] h n =
    unfold parse_lines in
    unfold split_lines in unfold join_lines in unfold trim in unfold text_eq in refl
saved_again parse (e ∷ es) h n =
    ap (parse_lines parse no_lines)
      (split_lines-join_lines e es h.0.one_line (entries-IsOneLine parse es h.1))
    ∙ parse_lines-stable parse no_lines (e ∷ es) h n

-- The page shows the entries that it saved, one on each line. Saving this text again stores the
-- same entries in the same order and drops no line, where no entry is an IPv6 literal (has a
-- colon).
pub parse_list-join_lines :
    (parse : UrlParser) (text : Text)
    → All (λ e. has_code b':' e ≡ false) (parse_list parse text).entries
    → parse_list parse (join_lines (parse_list parse text).entries)
      ≡ record { entries = (parse_list parse text).entries; dropped = 0 }
parse_list-join_lines parse text plain =
    let g : IsGood parse (parse_list parse text) =
      unfold parse_list in parse_lines-IsGood parse no_lines (split_lines text) (tt, tt) in
    saved_again parse _ (entries-IsStable parse _ g.0 plain) g.1
