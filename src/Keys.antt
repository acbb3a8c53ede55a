-- ===== src/Keys.antt =====
-- src/ext/keys.mjs: which side of the viewer gets a key, and the text that a key inserts.
pub mod Routing
mod Tests
use browsception.Prelude.{
  ℕ, Text, codes, List, [], ◌∷◌, Bool, ◌&&◌, ◌||◌, not, leb, lower, if◌then◌else◌, any, false,
  text_eq, true,
}

-- The fields of a keyboard event that the routing reads; `alt_graph` is
-- `getModifierState?.('AltGraph')`.
pub record KeyEvent : Type 0 where
  pub key : Text
  pub ctrl : Bool
  pub meta : Bool
  pub alt : Bool
  pub shift : Bool
  pub alt_graph : Bool

abbrev pub accel : KeyEvent → Bool
accel e = e.ctrl || e.meta

unfoldable pub lower_key : Text → Text
lower_key (c ∷ []) = lower (c ∷ [])
lower_key key = key

abbrev is_one_of : Text → List Text → Bool
is_one_of k names = any (λ n. text_eq k n) names

unfoldable pub accel_host : List Text
accel_host =
    codes "l"
    ∷ codes "t"
    ∷ codes "w"
    ∷ codes "n"
    ∷ codes "r"
    ∷ codes "q"
    ∷ codes "="
    ∷ codes "+"
    ∷ codes "-"
    ∷ codes "0"
    ∷ codes "Tab"
    ∷ codes "PageUp"
    ∷ codes "PageDown"
    ∷ codes "F4"
    ∷ codes "F5"
    ∷ []

-- `/^[1-9]$/`
abbrev is_tab_digit : Text → Bool
is_tab_digit (c ∷ []) = leb b'1' c && leb c b'9'
is_tab_digit _ = false

unfoldable pub host_key_of : Text → (accel alt shift : Bool) → Bool
host_key_of k accel alt shift =
    if is_one_of k (codes "F5" ∷ codes "F6" ∷ codes "F11" ∷ codes "F12" ∷ [])
    then true
    else if alt
        && not accel
        && is_one_of k (codes "ArrowLeft" ∷ codes "ArrowRight" ∷ codes "Home" ∷ codes "F4" ∷ [])
    then true
    else if not accel
    then false
    else if is_one_of k accel_host || is_tab_digit k
    then true
    else if (shift || alt) && is_one_of k (codes "i" ∷ codes "j" ∷ codes "c" ∷ [])
    then true
    else shift && is_one_of k (codes "Delete" ∷ codes "b" ∷ codes "o" ∷ [])

-- `hostKey`
unfoldable pub host_key : KeyEvent → Bool
host_key e = host_key_of (lower_key e.key) (accel e) e.alt e.shift

-- `hostPasteKey`
unfoldable pub host_paste_key : KeyEvent → Bool
host_paste_key e =
    if accel e && not e.alt && text_eq (lower_key e.key) (codes "v")
    then true
    else e.shift && not (accel e) && not e.alt && text_eq e.key (codes "Insert")

abbrev typed : Text → Text
typed (c ∷ []) = c ∷ []
typed key =
    if text_eq key (codes "Enter")
    then 13 ∷ []
    else if text_eq key (codes "Tab")
    then 9 ∷ []
    else []

-- `keyText`
unfoldable pub key_text : KeyEvent → Text
key_text e =
    let alt_gr = e.alt_graph || e.ctrl && e.alt && not e.meta in
    if accel e && not alt_gr then [] else typed e.key
