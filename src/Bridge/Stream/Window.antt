-- ===== src/Bridge/Stream/Window.antt =====
-- The credit window of a stream.
use browsception.Prelude.{
  ℕ, suc, zero, ◌+◌, ◌-◌, ◌≤◌, ◌<◌, ◌≡◌, List, [], ◌∷◌, ◌++◌, arith, length, take, drop, All, ◌⊎◌,
  ap, inl, append_assoc, refl, max, Bool-cases, ◌∙◌, leb, inr,
}
use browsception.Bridge.Stream.{deliver, Delivery, add_slice, stopped}

abbrev pub concat : List (List ℕ) → List ℕ
concat [] = []
concat (xs ∷ xss) = xs ++ concat xss

append-take-drop : (n : ℕ) (xs : List ℕ) → take n xs ++ drop n xs ≡ xs
append-take-drop zero xs = refl
append-take-drop (suc n) [] = refl
append-take-drop (suc n) (x ∷ xs) = ap (◌∷◌ x) (append-take-drop n xs)

length-take_le : (n : ℕ) (xs : List ℕ) → length (take n xs) ≤ n
length-take_le zero xs = omega arith
length-take_le (suc n) [] = omega arith
length-take_le (suc n) (x ∷ xs) = omega (arith, length-take_le n xs)

length-take-drop : (n : ℕ) (xs : List ℕ) → length (take n xs) + length (drop n xs) ≡ length xs
length-take-drop zero xs = omega arith
length-take-drop (suc n) [] = omega arith
length-take-drop (suc n) (x ∷ xs) = omega (arith, length-take-drop n xs)

-- What one delivery of a chunk has to do.
pub record IsDelivery (slice window acked sent : ℕ) (value : List ℕ) (d : Delivery) : Type 0 where
  -- nothing is lost, doubled or put out of order
  pub whole : concat d.slices ++ d.rest ≡ value
  pub counted : d.sent + length d.rest ≡ sent + length value
  -- it stops early only where the credit is used up
  pub spent : (d.rest ≡ []) ⊎ (acked + window ≤ d.sent)
  -- and never runs more than one slice beyond it
  pub bounded : sent < acked + window + slice → d.sent < acked + window + slice
  pub sliced : All (λ s. length s ≤ slice) d.slices

length-drop_lt : (n c : ℕ) (xs : List ℕ) → 0 < n → length (drop n (c ∷ xs)) < length (c ∷ xs)
length-drop_lt zero c xs h = omega (arith, h)
length-drop_lt (suc n) c xs h = omega (arith, length-take-drop n xs)

stopped-IsDelivery :
    (slice window acked sent max_unacked : ℕ) (value : List ℕ)
    → (value ≡ []) ⊎ (acked + window ≤ sent)
    → IsDelivery slice window acked sent value (stopped sent max_unacked value)
stopped-IsDelivery slice window acked sent max_unacked value why = record {
  whole = refl;
  counted = refl;
  spent = why;
  bounded = λ h. h;
  sliced = tt;
}

sliced-IsDelivery :
    (slice window acked sent : ℕ) (value : List ℕ) (d : Delivery)
    → sent < acked + window
    → IsDelivery slice window acked (sent + length (take slice value)) (drop slice value) d
    → IsDelivery slice window acked sent value (add_slice (take slice value) d)
sliced-IsDelivery slice window acked sent value d room k =
    let size = length-take_le slice value in
    let parts = length-take-drop slice value in
    record {
      whole =
          append_assoc (take slice value) (concat d.slices) d.rest
          ∙ ap (λ t. take slice value ++ t) k.whole
          ∙ append-take-drop slice value;
      counted = omega (arith, k.counted, parts);
      spent = k.spent;
      bounded = λ h. k.bounded (omega (arith, size, room));
      sliced = (size, k.sliced);
    }

-- With a round for each byte and slices that are not empty, the loop over a chunk delivers the
-- bytes in order in slices of bounded length, leaves a rest only when the unacknowledged bytes have
-- reached the window, and keeps them below the window and one slice if they were below it before.
pub deliver-IsDelivery :
    (slice window acked fuel : ℕ) (value : List ℕ) (sent max_unacked : ℕ)
    → 0 < slice
    → length value ≤ fuel
    → IsDelivery slice window acked sent value
        (deliver slice window acked fuel value sent max_unacked)
unfolding deliver
deliver-IsDelivery slice window acked zero [] sent max_unacked pos enough =
    stopped-IsDelivery slice window acked sent max_unacked [] (inl refl)
deliver-IsDelivery slice window acked zero (c ∷ value) sent max_unacked pos enough =
    absurd (omega (arith, enough))
deliver-IsDelivery slice window acked (suc fuel) [] sent max_unacked pos enough =
    stopped-IsDelivery slice window acked sent max_unacked [] (inl refl)
deliver-IsDelivery slice window acked (suc fuel) (c ∷ value) sent max_unacked pos enough =
    let part = length-take-drop slice (c ∷ value) in
    let short = length-drop_lt slice c value pos in
    let after = sent + length (take slice (c ∷ value)) in
    let next =
      deliver-IsDelivery slice window acked fuel (drop slice (c ∷ value)) after
        (max max_unacked (after - acked)) pos (omega (arith, short, enough)) in
    elim (Bool-cases (leb (acked + window) sent)) [
      | inl e ↦ rw e (
          stopped-IsDelivery slice window acked sent max_unacked (c ∷ value)
            (inr (ground (arith, e))))
      | inr e ↦
          rw e (sliced-IsDelivery slice window acked sent (c ∷ value) _ (ground (arith, e)) next)
    ]
