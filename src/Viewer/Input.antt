-- ===== src/Viewer/Input.antt =====
-- src/ext/viewer.mjs: pointer input. Moves and wheel deltas are held back until the next frame or
-- button. The type of coordinates and deltas, and the addition of deltas, are parameters: the
-- source's are floating-point numbers, whose sums are rounded.
use browsception.Prelude.{
  ◌++◌, Option, List, ℕ, if◌then◌else◌, some, Bool, ◌∷◌, ◌+◌, [], ◌==◌, none, ◌||◌,
}

pub record Modifiers : Type 0 where
  pub shift : Bool
  pub ctrl : Bool
  pub alt : Bool
  pub meta : Bool

abbrev flag : Bool → ℕ → ℕ
flag b n = if b then n else 0

-- `mods`
unfoldable pub mods : Modifiers → ℕ
mods e = flag e.shift 1 + flag e.ctrl 2 + flag e.alt 4 + flag e.meta 8

pub record Move (D : Type 0) : Type 0 where
  pub x : D
  pub y : D
  pub mods : ℕ

pub record Wheel (D : Type 0) : Type 0 where
  pub x : D
  pub y : D
  pub dx : D
  pub dy : D
  pub mods : ℕ

pub data InputCall (D : Type 0) : Type 0 where
  mouse_move : Move D → InputCall D
  -- pressed, button, place, click count
  mouse_button : Bool → ℕ → Move D → ℕ → InputCall D
  wheel_call : Wheel D → InputCall D
  tick_call : InputCall D

pub record Input (D : Type 0) : Type 0 where
  pub dead : Bool
  pub pending_move : Option (Move D)
  pub pending_wheel : Option (Wheel D)

abbrev pub Sent : Type 0 → Type 0
Sent D = Input D × List (InputCall D)

abbrev move_calls : {D : Type 0} → Option (Move D) → List (InputCall D)
move_calls none = []
move_calls (some m) = mouse_move m ∷ []

abbrev pub wheel_calls : {D : Type 0} → Option (Wheel D) → List (InputCall D)
wheel_calls none = []
wheel_calls (some w) = wheel_call w ∷ []

-- `flushPendingMove` and `flushPendingWheel`, of an engine that lives.
abbrev pub flush_move : {D : Type 0} → Input D → Sent D
flush_move s =
    if s.dead then (s, []) else (record s { pending_move = none }, move_calls s.pending_move)

abbrev pub flush_wheel : {D : Type 0} → Input D → Sent D
flush_wheel s =
    if s.dead then (s, []) else (record s { pending_wheel = none }, wheel_calls s.pending_wheel)

abbrev pub then_send : {D : Type 0} → Sent D → (Input D → Sent D) → Sent D
then_send (s, calls) f = let next = f s in (next.0, calls ++ next.1)

-- `hostButton`
abbrev pub host_button : ℕ → Bool
host_button button = button == 3 || button == 4

-- `e.detail || 1`
abbrev clicks : ℕ → ℕ
clicks detail = if detail == 0 then 1 else detail

pub data InputEvent (D : Type 0) : Type 0 where
  moved : Move D → InputEvent D
  button : Bool → ℕ → Move D → ℕ → InputEvent D
  wheeled : Wheel D → InputEvent D
  ticked : InputEvent D

-- `add` is the `+` of numbers.
abbrev pub merged_wheel : {D : Type 0} → (D → D → D) → Wheel D → Wheel D → Wheel D
merged_wheel add p w = record {
  x = w.x;
  y = w.y;
  dx = add p.dx w.dx;
  dy = add p.dy w.dy;
  mods = p.mods;
}

abbrev hold_wheel : {D : Type 0} → Wheel D → Input D → Sent D
hold_wheel w s = (record s { pending_wheel = some w }, [])

-- The held deltas are summed while the modifiers stay the same.
abbrev pub add_wheel : {D : Type 0} → (D → D → D) → Wheel D → Option (Wheel D) → Input D → Sent D
add_wheel add w none s = then_send (flush_wheel s) (hold_wheel w)
add_wheel add w (some p) s =
    if p.mods == w.mods
    then hold_wheel (merged_wheel add p w) s
    else then_send (flush_wheel s) (hold_wheel w)

-- The listeners on the canvas and `tickLoop`.
unfoldable pub on_input : {D : Type 0} → (D → D → D) → Input D → InputEvent D → Sent D
on_input add s (moved m) = (record s { pending_move = some m }, [])
on_input add s (button down b m detail) =
    if s.dead || host_button b
    then (s, [])
    else then_send (flush_move s)
        λ s'. then_send (flush_wheel s') λ s''. (s'', mouse_button down b m (clicks detail) ∷ [])
on_input add s (wheeled w) =
    if s.dead then (s, []) else then_send (flush_move s) λ s'. add_wheel add w s'.pending_wheel s'
on_input add s ticked =
    if s.dead
    then (s, [])
    else then_send (flush_move s) λ s'. then_send (flush_wheel s') λ s''. (s'', tick_call ∷ [])

unfoldable pub on_inputs : {D : Type 0} → (D → D → D) → Input D → List (InputEvent D) → Sent D
on_inputs add s [] = (s, [])
on_inputs add s (e ∷ es) = then_send (on_input add s e) λ s'. on_inputs add s' es
