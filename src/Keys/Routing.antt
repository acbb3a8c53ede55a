-- ===== src/Keys/Routing.antt =====
-- No key is routed two ways.
use browsception.Prelude.{
  ◌≡◌, Text, codes, Bool, true, false, refl, arith, Bool-cases, text_eq, ◌&&◌, not, inl,
  text_eq_iff, inr,
}
use browsception.Keys.{
  KeyEvent, host_key, host_key_of, host_paste_key, accel, lower_key, accel_host,
}

paste_letter : (shift : Bool) → host_key_of (codes "v") true false shift ≡ false
unfolding host_key_of text_eq accel_host
paste_letter true = refl
paste_letter false = refl

insert_key : (k : Text) → k ≡ codes "Insert" → host_key_of (lower_key k) false false true ≡ false
unfolding host_key_of text_eq accel_host lower_key
insert_key k e = rw e refl

-- A paste key is never a key that the host keeps: the viewer forwards it to the engine, whatever
-- the modifiers.
pub host_paste_key-apart : (e : KeyEvent) → host_paste_key e ≡ true → host_key e ≡ false
unfolding host_paste_key host_key
host_paste_key-apart e h =
    elim (Bool-cases (accel e && not e.alt && text_eq (lower_key e.key) (codes "v"))) [
      | inl p ↦
          let on : accel e ≡ true = ground (arith, p) in
          let off : e.alt ≡ false = ground (arith, p) in
          let same : lower_key e.key ≡ codes "v" =
            (text_eq_iff (lower_key e.key) (codes "v")).0 (ground (arith, p)) in
          rw (on, off, same) (paste_letter e.shift)
      | inr p ↦
          let off : accel e ≡ false = ground (arith, p, h) in
          let plain : e.alt ≡ false = ground (arith, p, h) in
          let shifted : e.shift ≡ true = ground (arith, p, h) in
          let same = (text_eq_iff e.key (codes "Insert")).0 (ground (arith, p, h)) in
          rw (off, plain, shifted) (insert_key e.key same)
    ]
