-- ===== src/EngineWorker/Ranges.antt =====
-- src/ext/engine-worker.js: the engine's clipboard items keep their bytes on the way to the page.
use browsception.EngineWorker.{
  ranged_items, EngineItem, copied_bytes, plain_item, ◌∷◌, heap_slice, heap_item, suc,
}
use browsception.Prelude.Integers.{pos}
use browsception.Prelude.{
  some, none, List, ℕ, Option, ◌+◌, ◌≤◌, length, All, drop, take, none, ◌++◌, [], if◌then◌else◌,
  ◌≡◌, ap, ◌==◌, arith, max, some, Bool-cases, zero, inl, refl, inr, append_assoc, length-append,
  subst, drop-append, ◌∙◌, take-append,
}
use browsception.Clipboard.{SignalItem}
use browsception.Prelude.Integers.{ℤ}

abbrev read_at : List ℕ → Option ℤ → Option ℤ → Option (List ℕ)
read_at buf (some (pos off)) (some (pos len)) = some (take len (drop off buf))
read_at buf _ _ = none

-- What the page reads of each item in the buffer, and what the engine had on its heap.
unfoldable pub received_bytes : List ℕ → List SignalItem → List (Option (List ℕ))
received_bytes buf [] = []
received_bytes buf (it ∷ items) = read_at buf it.off it.len ∷ received_bytes buf items

unfoldable pub engine_bytes : List ℕ → List EngineItem → List (Option (List ℕ))
engine_bytes heap [] = []
engine_bytes heap (plain_item kind text ∷ items) = none ∷ engine_bytes heap items
engine_bytes heap (heap_item kind ptr len ∷ items) =
    let rest = engine_bytes heap items in
    if ptr == 0 then none ∷ rest else some (heap_slice heap ptr len) ∷ rest

-- The engine's pointers and lengths are ranges of its heap.
abbrev pub IsOnHeap : List ℕ → EngineItem → Type 0
IsOnHeap heap (plain_item kind text) = Unit
IsOnHeap heap (heap_item kind ptr len) = ptr + len ≤ length heap

length-take : (n : ℕ) (xs : List ℕ) → n ≤ length xs → length (take n xs) ≡ n
length-take zero xs h = refl
length-take (suc n) [] h = omega (arith, h)
length-take (suc n) (x ∷ xs) h = ap suc (length-take n xs (omega (arith, h)))

length-drop : (n : ℕ) (xs : List ℕ) → n + length (drop n xs) ≡ max n (length xs)
length-drop zero xs = omega arith
length-drop (suc n) [] = omega arith
length-drop (suc n) (x ∷ xs) = omega (arith, length-drop n xs)

length-heap_slice :
    (heap : List ℕ) (ptr len : ℕ) → ptr + len ≤ length heap → length (heap_slice heap ptr len) ≡ len
length-heap_slice heap ptr len h =
    length-take len (drop ptr heap) (omega (arith, length-drop ptr heap, h))

cons_eq : {A : Type 0} {x y : A} {xs ys : List A} → x ≡ y → xs ≡ ys → x ∷ xs ≡ y ∷ ys
cons_eq h k = cc

-- The items behind a part of the buffer that is already filled.
received-ranged_items :
    (heap before : List ℕ) (items : List EngineItem)
    → All (IsOnHeap heap) items
    → received_bytes (before ++ copied_bytes heap items) (ranged_items (length before) items)
      ≡ engine_bytes heap items
unfolding received_bytes engine_bytes ranged_items copied_bytes
received-ranged_items heap before [] h = refl
received-ranged_items heap before (plain_item kind text ∷ items) h =
    ap (λ r. none ∷ r) (received-ranged_items heap before items h.1)
received-ranged_items heap before (heap_item kind ptr len ∷ items) h =
    elim (Bool-cases (ptr == 0)) [
      | inl null ↦ rw null (ap (λ r. none ∷ r) (received-ranged_items heap before items h.1))
      | inr there ↦
          let slice = heap_slice heap ptr len in
          let long = length-heap_slice heap ptr len h.0 in
          let rest = received-ranged_items heap (before ++ slice) items h.1 in
          let whole = append_assoc before slice (copied_bytes heap items) in
          let place : length (before ++ slice) ≡ length before + len =
            omega (arith, length-append before slice, long) in
          let tail : received_bytes (before ++ (slice ++ copied_bytes heap items))
                (ranged_items (length before + len) items)
              ≡ engine_bytes heap items =
            subst
              (λ n.
                received_bytes (before ++ (slice ++ copied_bytes heap items)) (ranged_items n items)
                ≡ engine_bytes heap items)
              place
              (subst
                (λ b.
                  received_bytes b (ranged_items (length (before ++ slice)) items)
                  ≡ engine_bytes heap items)
                whole rest) in
          let head : take len (drop (length before) (before ++ (slice ++ copied_bytes heap items)))
              ≡ slice =
            ap (λ b. take len b) (drop-append before (slice ++ copied_bytes heap items))
            ∙ subst (λ n. take n (slice ++ copied_bytes heap items) ≡ slice) long
                (take-append slice (copied_bytes heap items)) in
          rw there (cons_eq (ap some head) tail)
    ]

-- Every clipboard item of the engine reaches the page with its bytes: what the page reads at an
-- item's range in the buffer is what the engine had on its heap, and an item without a pointer has
-- no range, where the engine's ranges lie on its heap.
pub received-copied_bytes :
    (heap : List ℕ) (items : List EngineItem)
    → All (IsOnHeap heap) items
    → received_bytes (copied_bytes heap items) (ranged_items 0 items) ≡ engine_bytes heap items
received-copied_bytes heap items h = received-ranged_items heap [] items h
