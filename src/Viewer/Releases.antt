-- ===== src/Viewer/Releases.antt =====
-- src/ext/viewer.mjs: pointer input does not end the engine, and what sends a held wheel.
use browsception.Viewer.Input.{
  InputEvent, on_inputs, Input, Wheel, on_input, Move, moved, wheeled, button, host_button, ticked,
}
use browsception.Prelude.{
  List, Option, ℕ, some, [], ◌==◌, ◌≡◌, Bool, ◌∷◌, false, none, Bool-cases, ap, inl, subst, sym,
  refl, inr,
}
use browsception.Viewer.Wheels.{living}

pub living_of :
    {D : Type 0} (s : Input D) → s.dead ≡ false → living s.pending_move s.pending_wheel ≡ s
living_of s alive =
    ap (λ d. record { dead = d; pending_move = s.pending_move; pending_wheel = s.pending_wheel })
      (sym alive)

module _ {D : Type 0} (add : D → D → D) where
  input_alive :
      (m : Option (Move D)) (w : Option (Wheel D)) (e : InputEvent D)
      → (on_input add (living m w) e).0.dead ≡ false
  unfolding on_input
  input_alive m w (moved n) = refl
  input_alive m w ticked = refl
  input_alive m w (button down b n k) = elim (Bool-cases (host_button b)) [
    | inl host ↦ rw host refl
    | inr ours ↦ rw ours refl
  ]
  input_alive m none (wheeled w) = refl
  input_alive m (some p) (wheeled w) = elim (Bool-cases (p.mods == w.mods)) [
    | inl same ↦ rw same refl
    | inr differ ↦ rw differ refl
  ]

  pub inputs_alive :
      (s : Input D) (es : List (InputEvent D))
      → s.dead ≡ false
      → (on_inputs add s es).0.dead ≡ false
  unfolding on_inputs
  inputs_alive s [] alive = alive
  inputs_alive s (e ∷ es) alive = inputs_alive (on_input add s e).0 es (
      subst (λ t. (on_input add t e).0.dead ≡ false) (living_of s alive)
        (input_alive s.pending_move s.pending_wheel e))

  pub frame_releases :
      (s : Input D) → s.dead ≡ false → (on_input add s ticked).0.pending_wheel ≡ none
  unfolding on_input
  frame_releases s alive = rw alive refl

  pub button_releases :
      (s : Input D) (down : Bool) (b : ℕ) (n : Move D) (k : ℕ)
      → host_button b ≡ false
      → s.dead ≡ false
      → (on_input add s (button down b n k)).0.pending_wheel ≡ none
  unfolding on_input
  button_releases s down b n k ours alive = rw (alive, ours) refl
