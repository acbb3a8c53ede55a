-- ===== src/Prelude/Uri.antt =====
-- `decodeURIComponent` of ECMAScript: `none` where it throws a `URIError`. A state machine over the
-- code units: the escape being read, and the UTF-8 sequence that it belongs to.
use browsception.Prelude.Texts.{Text}
use browsception.Prelude.Tests.{leb, ltb, ◌==◌, if◌then◌else◌}
use Prim.Native.Nat.{ℕ, ◌+◌, ◌-◌, ◌*◌, ◌/◌, ◌%◌}
use mathlib.Core.Bool.{Bool, ◌&&◌, ◌||◌}
use mathlib.Core.Option
use mathlib.Core.Option.{Option, none, some}
use mathlib.Core.List.{[], ◌∷◌, ◌++◌}

-- A sequence begun: the bytes to come, the value so far and the least value of this length.
pub record Sequence : Type 0 where
  pub more : ℕ
  pub value : ℕ
  pub least : ℕ

pub data Reading : Type 0 where
  -- outside an escape, or before the `%` of a sequence's next byte
  plain : Option Sequence → Reading
  -- after the `%`, and after its first digit
  first : Option Sequence → Reading
  second : Option Sequence → ℕ → Reading

hex_value : ℕ → Option ℕ
hex_value c =
    if leb b'0' c && leb c b'9'
    then some (c - b'0')
    else if leb b'a' c && leb c b'f'
    then some (c - 87)
    else if leb b'A' c && leb c b'F'
    then some (c - 55)
    else none

-- The code units of a code point.
utf16 : ℕ → Text
utf16 v =
    if ltb v 0x10000
    then v ∷ []
    else (0xd800 + (v - 0x10000) / 1024) ∷ (0xdc00 + (v - 0x10000) % 1024) ∷ []

-- What one decoded byte does: text to emit and the sequence to go on with.
byte_step : Option Sequence → ℕ → Option (Text × Option Sequence)
unfolding utf16
byte_step none b =
    if ltb b 0x80
    then some (b ∷ [], none)
    else if leb 0xc2 b && leb b 0xdf
    then some ([], some (record { more = 1; value = b - 0xc0; least = 0x80 }))
    else if leb 0xe0 b && leb b 0xef
    then some ([], some (record { more = 2; value = b - 0xe0; least = 0x800 }))
    else if leb 0xf0 b && leb b 0xf4
    then some ([], some (record { more = 3; value = b - 0xf0; least = 0x10000 }))
    else none
byte_step (some q) b =
    let v = q.value * 64 + (b - 0x80) in
    if ltb b 0x80 || ltb 0xbf b
    then none
    else if ltb 1 q.more
    then some ([], some (record { more = q.more - 1; value = v; least = q.least }))
    else if ltb v q.least || leb 0xd800 v && leb v 0xdfff || ltb 0x10ffff v
    then none
    else some (utf16 v, none)

decode_from : Reading → Text → Option Text
unfolding hex_value byte_step
decode_from (plain none) [] = some []
decode_from r [] = none
decode_from (plain none) (c ∷ s) = elim (c == b'%') [
  | Bool.true ↦ decode_from (first none) s
  | Bool.false ↦ Option.map (λ t. c ∷ t) (decode_from (plain none) s)
]
decode_from (plain (some q)) (c ∷ s) = elim (c == b'%') [
  | Bool.true ↦ decode_from (first (some q)) s
  | Bool.false ↦ none
]
decode_from (first q) (c ∷ s) = elim (hex_value c) [
  | none ↦ none
  | some h ↦ decode_from (second q h) s
]
decode_from (second q h) (c ∷ s) = elim (hex_value c) [
  | none ↦ none
  | some l ↦ elim (byte_step q (h * 16 + l)) [
    | none ↦ none
    | some (out, next) ↦ Option.map (λ t. out ++ t) (decode_from (plain next) s)
  ]
]

unfoldable pub decode_uri_component : Text → Option Text
unfolding decode_from
decode_uri_component s = decode_from (plain none) s
