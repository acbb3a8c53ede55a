-- ===== src/Regex.antt =====
-- The fragment of RE2 that the rule filters use: its syntax trees, how they are written, which texts
-- they match, and an executable matcher. The browser's engine itself is not part of the program.
pub mod Matcher
use browsception.Prelude.{
  ℕ, Text, codes, ◌≡◌, ◌≢◌, ◌⊎◌, Bool, true, false, not, ◌&&◌, ◌||◌, [], ◌∷◌, ◌++◌, ◌==◌, leb,
  if◌then◌else◌, has_code,
}

pub data Regex : Type 0 where
  nothing empty : Regex
  -- one character: itself, any but a line feed, a digit, one listed, one not listed
  chr : ℕ → Regex
  dot digit : Regex
  one_of none_of : Text → Regex
  seq alt : Regex → Regex → Regex
  -- `r?` of one character, `(?:r)?`, `r+`, `r*`
  opt_chr : ℕ → Regex
  opt_group : Regex → Regex
  plus star : Regex → Regex

-- The repetition of `P`, each round of which takes a character.
pub data Repeats (P : Text → Type 0) : Text → Type 0 where
  stop : {s : Text} → s ≡ [] → Repeats P s
  again : {s : Text} (c : ℕ) (u v : Text) → s ≡ (c ∷ u) ++ v → P (c ∷ u) → Repeats P v → Repeats P s

-- `Matches r s`: the whole of `s` is matched by `r`.
abbrev pub Matches : Regex → Text → Type 0
Matches nothing s = ⊥
Matches empty s = s ≡ []
Matches (chr c) s = s ≡ c ∷ []
Matches dot s = (d : ℕ) × (s ≡ d ∷ []) × ((d == 10) ≡ false)
Matches digit s = (d : ℕ) × (s ≡ d ∷ []) × ((leb b'0' d && leb d b'9') ≡ true)
Matches (one_of cs) s = (d : ℕ) × (s ≡ d ∷ []) × (has_code d cs ≡ true)
Matches (none_of cs) s = (d : ℕ) × (s ≡ d ∷ []) × (has_code d cs ≡ false)
Matches (seq a b) s = (u : Text) × (v : Text) × (s ≡ u ++ v) × Matches a u × Matches b v
Matches (alt a b) s = Matches a s ⊎ Matches b s
Matches (opt_chr c) s = (s ≡ []) ⊎ (s ≡ c ∷ [])
Matches (opt_group r) s = (s ≡ []) ⊎ Matches r s
Matches (plus r) s = (u : Text) × (v : Text) × (s ≡ u ++ v) × Matches r u × Repeats (Matches r) v
Matches (star r) s = Repeats (Matches r) s

-- A character by itself: a dot is escaped, and no other that stands in a hostname need be.
abbrev render_chr : ℕ → Text
render_chr c = if c == b'.' then codes "\\." else c ∷ []

-- How a filter is written. (`alt` and `nothing` do not occur in the filters.)
unfoldable pub render : Regex → Text
render nothing = codes "[]"
render empty = []
render (chr c) = render_chr c
render dot = codes "."
render digit = codes "\\d"
render (one_of cs) = codes "[" ++ cs ++ codes "]"
render (none_of cs) = codes "[^" ++ cs ++ codes "]"
render (seq a b) = render a ++ render b
render (alt a b) = render a ++ codes "|" ++ render b
render (opt_chr c) = render_chr c ++ codes "?"
render (opt_group r) = codes "(?:" ++ render r ++ codes ")?"
render (plus r) = render r ++ codes "+"
render (star r) = render r ++ codes "*"

unfoldable pub literal : Text → Regex
literal [] = empty
literal (c ∷ s) = seq (chr c) (literal s)

unfoldable pub nullable : Regex → Bool
nullable empty = true
nullable (seq a b) = nullable a && nullable b
nullable (alt a b) = nullable a || nullable b
nullable (opt_chr c) = true
nullable (opt_group r) = true
nullable (plus r) = nullable r
nullable (star r) = true
nullable _ = false

abbrev when : Bool → Regex → Regex
when b r = if b then r else nothing

-- What is left to match once `c` is read.
unfoldable pub derivative : ℕ → Regex → Regex
derivative c nothing = nothing
derivative c empty = nothing
derivative c (chr d) = when (c == d) empty
derivative c dot = when (not (c == 10)) empty
derivative c digit = when (leb b'0' c && leb c b'9') empty
derivative c (one_of cs) = when (has_code c cs) empty
derivative c (none_of cs) = when (not (has_code c cs)) empty
derivative c (seq a b) = alt (seq (derivative c a) b) (when (nullable a) (derivative c b))
derivative c (alt a b) = alt (derivative c a) (derivative c b)
derivative c (opt_chr d) = when (c == d) empty
derivative c (opt_group r) = derivative c r
derivative c (plus r) = seq (derivative c r) (star r)
derivative c (star r) = seq (derivative c r) (star r)

unfoldable pub accepts : Regex → Text → Bool
accepts r [] = nullable r
accepts r (c ∷ s) = accepts (derivative c r) s
