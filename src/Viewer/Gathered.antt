-- ===== src/Viewer/Gathered.antt =====
-- src/ext/viewer.mjs: holding wheel deltas back loses no event.
use browsception.Viewer.Input.{
  InputEvent, on_inputs, Input, Wheel, on_input, Sent, Move, merged_wheel, moved, wheeled, button,
  wheel_call, host_button, then_send, ticked,
}
use browsception.Prelude.{
  List, Option, ℕ, ◌++◌, some, [], ◌==◌, ◌≡◌, All-append, true, Bool, ◌∷◌, false, map, none, arith,
  Bool-cases, ap, inl, subst, sym, refl, inr, append_assoc,
}
use browsception.Viewer.Wheels.{
  Group, IsEven, sum_from, last_of, members, IsGathered, total, held_wheels, turned_wheels, living,
}
use browsception.Viewer.Releases.{inputs_alive, living_of, frame_releases, button_releases}

abbrev grown : {D : Type 0} → Group D → Wheel D → Group D
grown g w = record { first = g.first; later = g.later ++ w ∷ [] }

abbrev group_members : {D : Type 0} → Option (Group D) → List (Wheel D)
group_members none = []
group_members (some g) = members g

abbrev IsEvenHeld : {D : Type 0} → Option (Group D) → Type 0
IsEvenHeld none = Unit
IsEvenHeld (some g) = IsEven g

module _ {D : Type 0} (add : D → D → D) where
  abbrev held_total : Option (Group D) → Option (Wheel D)
  held_total none = none
  held_total (some g) = some (total add g)

  last-snoc :
      (f : Wheel D → D) (d : D) (ws : List (Wheel D)) (w : Wheel D)
      → last_of d (map f (ws ++ w ∷ [])) ≡ f w
  last-snoc f d [] w = refl
  last-snoc f d (v ∷ ws) w = last-snoc f (f v) ws w

  sum-snoc :
      (f : Wheel D → D) (d : D) (ws : List (Wheel D)) (w : Wheel D)
      → sum_from add d (map f (ws ++ w ∷ [])) ≡ add (sum_from add d (map f ws)) (f w)
  sum-snoc f d [] w = refl
  sum-snoc f d (v ∷ ws) w = sum-snoc f (add d (f v)) ws w

  total-grown :
      (g : Group D) (w : Wheel D) → merged_wheel add (total add g) w ≡ total add (grown g w)
  total-grown g w =
      rw
        (
          last-snoc (λ v. v.x) g.first.x g.later w,
          last-snoc (λ v. v.y) g.first.y g.later w,
          sum-snoc (λ v. v.dx) g.first.dx g.later w,
          sum-snoc (λ v. v.dy) g.first.dy g.later w,
        )
        refl

  grown-IsEven : (g : Group D) (w : Wheel D) → IsEven g → w.mods ≡ g.first.mods → IsEven (grown g w)
  grown-IsEven g w even same = All-append (λ v. v.mods ≡ g.first.mods) _ _ even (same, tt)

  -- A group that is sent before the rest.
  closing :
      (g : Group D) (wheels : List (Wheel D)) (r : Sent D)
      → IsEven g
      → IsGathered add wheels r
      → IsGathered add (members g ++ wheels) (r.0, wheel_call (total add g) ∷ r.1)
  closing g wheels r even (groups, same, evens, sent) =
      (g ∷ groups, ap (λ ws. members g ++ ws) same, (even, evens), ap (λ ws. total add g ∷ ws) sent)

  -- What the events that are left make of a held group.
  abbrev Gathers : List (InputEvent D) → Type 0
  Gathers es =
      (m : Option (Move D)) (h : Option (Group D))
      → IsEvenHeld h
      → IsGathered add (group_members h ++ turned_wheels es)
          (on_inputs add (living m (held_total h)) es)

  flushed :
      (g : Group D) (es : List (InputEvent D))
      → IsEven g
      → Gathers es
      → IsGathered add
          (members g ++ turned_wheels es)
          (let r = on_inputs add (living none none) es in (r.0, wheel_call (total add g) ∷ r.1))
  flushed g es even rest =
      closing g (turned_wheels es) (on_inputs add (living none none) es) even (rest none none tt)

  merging :
      (g : Group D) (w : Wheel D) (es : List (InputEvent D))
      → IsEven g
      → w.mods ≡ g.first.mods
      → Gathers es
      → IsGathered add
          (members g ++ w ∷ turned_wheels es)
          (on_inputs add (living none (some (merged_wheel add (total add g) w))) es)
  merging g w es even same rest =
      let wheels = members g ++ w ∷ turned_wheels es in
      subst (λ t. IsGathered add wheels (on_inputs add (living none (some t)) es))
        (sym (total-grown g w))
        (subst
          (λ ws. IsGathered add ws (on_inputs add (living none (some (total add (grown g w)))) es))
          (append_assoc (members g) (w ∷ []) (turned_wheels es))
          (rest none (some (grown g w)) (grown-IsEven g w even same)))

  starting :
      (g : Group D) (w : Wheel D) (es : List (InputEvent D))
      → IsEven g
      → Gathers es
      → IsGathered add
          (members g ++ w ∷ turned_wheels es)
          (let r = on_inputs add (living none (some w)) es in (r.0, wheel_call (total add g) ∷ r.1))
  starting g w es even rest =
      closing g (w ∷ turned_wheels es) (on_inputs add (living none (some w)) es) even
        (rest none (some (record { first = w; later = [] })) tt)

  same_mods : (a b : ℕ) → (a == b) ≡ true → b ≡ a
  same_mods a b h = ground arith

  -- One event, and then the others.
  abbrev Sends : Option (Move D) → Option (Group D) → InputEvent D → List (InputEvent D) → Type 0
  Sends m h e es =
      IsGathered add (group_members h ++ turned_wheels (e ∷ es))
        (then_send (on_input add (living m (held_total h)) e) λ s. on_inputs add s es)

  pressing :
      (m : Option (Move D)) (h : Option (Group D)) (down : Bool) (b : ℕ) (n : Move D) (k : ℕ)
      (es : List (InputEvent D))
      → host_button b ≡ false
      → IsEvenHeld h
      → Gathers es
      → Sends m h (button down b n k) es
  unfolding on_input
  pressing none none down b n k es ours even rest = rw ours (rest none none tt)
  pressing (some m) none down b n k es ours even rest = rw ours (rest none none tt)
  pressing none (some g) down b n k es ours even rest = rw ours (flushed g es even rest)
  pressing (some m) (some g) down b n k es ours even rest = rw ours (flushed g es even rest)

  turning :
      (m : Option (Move D)) (g : Group D) (w : Wheel D) (es : List (InputEvent D))
      → IsEven g
      → Gathers es
      → Sends m (some g) (wheeled w) es
  unfolding on_input
  turning none g w es even rest = elim (Bool-cases (g.first.mods == w.mods)) [
    | inl same ↦ rw same (merging g w es even (same_mods g.first.mods w.mods same) rest)
    | inr differ ↦ rw differ (starting g w es even rest)
  ]
  turning (some m) g w es even rest = elim (Bool-cases (g.first.mods == w.mods)) [
    | inl same ↦ rw same (merging g w es even (same_mods g.first.mods w.mods same) rest)
    | inr differ ↦ rw differ (starting g w es even rest)
  ]

  sending :
      (m : Option (Move D)) (h : Option (Group D)) (e : InputEvent D) (es : List (InputEvent D))
      → IsEvenHeld h
      → Gathers es
      → Sends m h e es
  unfolding on_input
  sending m h (moved n) es even rest = rest (some n) h even
  sending none none ticked es even rest = rest none none tt
  sending (some m) none ticked es even rest = rest none none tt
  sending none (some g) ticked es even rest = flushed g es even rest
  sending (some m) (some g) ticked es even rest = flushed g es even rest
  sending m h (button down b n k) es even rest = elim (Bool-cases (host_button b)) [
    | inl host ↦ rw host (rest m h even)
    | inr ours ↦ pressing m h down b n k es ours even rest
  ]
  sending none none (wheeled w) es even rest =
      rest none (some (record { first = w; later = [] })) tt
  sending (some m) none (wheeled w) es even rest =
      rest none (some (record { first = w; later = [] })) tt
  sending m (some g) (wheeled w) es even rest = turning m g w es even rest

  gathering : (es : List (InputEvent D)) → Gathers es
  unfolding on_inputs
  gathering [] m none even = ([], refl, tt, refl)
  gathering [] m (some g) even = (g ∷ [], refl, (even, tt), refl)
  gathering (e ∷ es) m h even = sending m h e es even (gathering es)

  gathered :
      (m : Option (Move D)) (w : Option (Wheel D)) (es : List (InputEvent D))
      → IsGathered add (held_wheels w ++ turned_wheels es) (on_inputs add (living m w) es)
  gathered m none es = gathering es m none tt
  gathered m (some w) es = gathering es m (some (record { first = w; later = [] })) tt

  -- While the engine lives, the wheel calls that were sent, in order, and then the wheel that is
  -- still held are the totals of consecutive groups of the wheel events, beginning with the one held
  -- at the start: no event is lost, repeated or moved, all events of a group have the same
  -- modifiers, and a total has the place of its last event and the sums from the left of both
  -- deltas, whatever addition of numbers is; and whatever moves, buttons and frames come between.
  -- A frame or a button that is not the host's, if it comes next, leaves nothing held.
  pub on_inputs-IsGathered :
      (s : Input D) (es : List (InputEvent D)) (down : Bool) (b : ℕ) (n : Move D) (k : ℕ)
      → s.dead ≡ false
      → host_button b ≡ false
      → IsGathered add (held_wheels s.pending_wheel ++ turned_wheels es) (on_inputs add s es)
        × ((on_input add (on_inputs add s es).0 ticked).0.pending_wheel ≡ none)
        × ((on_input add (on_inputs add s es).0 (button down b n k)).0.pending_wheel ≡ none)
  on_inputs-IsGathered s es down b n k alive ours =
      let wheels = held_wheels s.pending_wheel ++ turned_wheels es in
      let end = (on_inputs add s es).0 in
      let lives = inputs_alive add s es alive in
      (
        subst (λ t. IsGathered add wheels (on_inputs add t es)) (living_of s alive)
            (gathered s.pending_move s.pending_wheel es),
        frame_releases add end lives,
        button_releases add end down b n k ours lives,
      )
