-- ===== src/Viewer/Wheels.antt =====
-- src/ext/viewer.mjs: what holding wheel deltas back may make of the wheel events.
use browsception.Viewer.Input.{
  InputEvent, InputCall, Wheel, Sent, Move, wheeled, wheel_call, mouse_move, moved, Input,
  mouse_button, button, ticked, tick_call,
}
use browsception.Prelude.{List, All, Option, ◌∷◌, ◌++◌, ◌≡◌, [], map, some, false, none}

-- A wheel event and those after it that are sent with it.
pub record Group (D : Type 0) : Type 0 where
  pub first : Wheel D
  pub later : List (Wheel D)

abbrev pub members : {D : Type 0} → Group D → List (Wheel D)
members g = g.first ∷ g.later

abbrev pub members_of : {D : Type 0} → List (Group D) → List (Wheel D)
members_of [] = []
members_of (g ∷ gs) = members g ++ members_of gs

-- The sum from the left.
abbrev pub sum_from : {D : Type 0} → (D → D → D) → D → List D → D
sum_from add d [] = d
sum_from add d (x ∷ xs) = sum_from add (add d x) xs

abbrev pub last_of : {D : Type 0} → D → List D → D
last_of d [] = d
last_of d (x ∷ xs) = last_of x xs

-- One event at the last place, with both deltas summed in order.
abbrev pub total : {D : Type 0} → (D → D → D) → Group D → Wheel D
total add g = record {
  x = last_of g.first.x (map (λ w. w.x) g.later);
  y = last_of g.first.y (map (λ w. w.y) g.later);
  dx = sum_from add g.first.dx (map (λ w. w.dx) g.later);
  dy = sum_from add g.first.dy (map (λ w. w.dy) g.later);
  mods = g.first.mods;
}

-- The same modifiers throughout.
abbrev pub IsEven : {D : Type 0} → Group D → Type 0
IsEven g = All (λ w. w.mods ≡ g.first.mods) g.later

-- The wheel calls among those that were sent, and the wheel events among those that happened.
abbrev pub sent_wheels : {D : Type 0} → List (InputCall D) → List (Wheel D)
sent_wheels [] = []
sent_wheels (wheel_call w ∷ calls) = w ∷ sent_wheels calls
sent_wheels (mouse_move m ∷ calls) = sent_wheels calls
sent_wheels (mouse_button down b m n ∷ calls) = sent_wheels calls
sent_wheels (tick_call ∷ calls) = sent_wheels calls

abbrev pub turned_wheels : {D : Type 0} → List (InputEvent D) → List (Wheel D)
turned_wheels [] = []
turned_wheels (wheeled w ∷ es) = w ∷ turned_wheels es
turned_wheels (moved m ∷ es) = turned_wheels es
turned_wheels (button down b m n ∷ es) = turned_wheels es
turned_wheels (ticked ∷ es) = turned_wheels es

abbrev pub held_wheels : {D : Type 0} → Option (Wheel D) → List (Wheel D)
held_wheels none = []
held_wheels (some w) = w ∷ []

abbrev pub living : {D : Type 0} → Option (Move D) → Option (Wheel D) → Input D
living m w = record { dead = false; pending_move = m; pending_wheel = w }

-- What was sent, and then what is held, are the totals of a division of the wheel events.
abbrev pub IsGathered : {D : Type 0} → (D → D → D) → List (Wheel D) → Sent D → Type 0
IsGathered add wheels r =
    (groups : List (Group _)) × (members_of groups ≡ wheels)
    × All IsEven groups
    × (sent_wheels r.1 ++ held_wheels r.0.pending_wheel ≡ map (total add) groups)
