-- ===== src/DnrRules/Filter/Urls.antt =====
-- The text of a web URL without user information, as its parts, and where its host ends.
use browsception.Prelude.{
  Text, codes, ◌≡◌, ◌≢◌, refl, Bool, true, false, [], ◌∷◌, ◌++◌, All, has_code, starts_with,
  if◌then◌else◌, ◌==◌,
}
use browsception.ListMatch.{is_digit}

pub record WebUrl : Type 0 where
  pub secure : Bool
  pub host : Text
  pub port : Text
  pub tail : Text

abbrev pub port_part : Text → Text
port_part [] = []
port_part (d ∷ ds) = b':' ∷ d ∷ ds

abbrev pub from_host : WebUrl → Text
from_host w = w.host ++ (port_part w.port ++ w.tail)

abbrev pub scheme_part : Bool → Text
scheme_part secure = codes "http" ++ ((if secure then codes "s" else []) ++ codes "://")

unfoldable pub write : WebUrl → Text
write w = scheme_part w.secure ++ from_host w

abbrev pub delimiters : Text
delimiters = codes "/:@?#"

abbrev pub IsHostText : Text → Type 0
IsHostText = All (λ c. has_code c delimiters ≡ false)

abbrev pub IsTail : Text → Type 0
IsTail [] = Unit
IsTail (c ∷ t) = (has_code c (codes "/?#") ≡ true) × All (λ d. (d == 10) ≡ false) t

-- The parts are what they are called, and the host has no dot at its start.
pub record IsWebUrl (w : WebUrl) : Type 0 where
  pub host_text : IsHostText w.host
  pub host_some : w.host ≢ []
  pub host_start : starts_with w.host (b'.' ∷ []) ≡ false
  pub port_digits : All (λ d. is_digit d ≡ true) w.port
  pub tail_text : IsTail w.tail

-- What may follow a host: nothing, or a delimiter.
abbrev pub IsEnd : Text → Type 0
IsEnd [] = Unit
IsEnd (c ∷ t) = has_code c delimiters ≡ true

-- The host of a URL is read off it in one way.
pub cut_unique :
    (a b x y : Text) → IsHostText a → IsHostText b → IsEnd x → IsEnd y → a ++ x ≡ b ++ y → a ≡ b
cut_unique [] [] x y ha hb ex ey e = refl
cut_unique [] (d ∷ b) [] y ha hb ex ey e = cc
cut_unique [] (d ∷ b) (c ∷ x) y ha hb ex ey e = cc
cut_unique (c ∷ a) [] x [] ha hb ex ey e = cc
cut_unique (c ∷ a) [] x (d ∷ y) ha hb ex ey e = cc
cut_unique (c ∷ a) (d ∷ b) x y ha hb ex ey e = cc (cut_unique a b x y ha.1 hb.1 ex ey (cc))
