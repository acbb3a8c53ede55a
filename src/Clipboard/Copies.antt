-- ===== src/Clipboard/Copies.antt =====
-- src/ext/clipboard.mjs: what may reach the host's clipboard.
use browsception.Prelude.TextMap.{insert, TextMap, lookup}
use browsception.Clipboard.{
  Content, writable_types, add_items, to_clipboard_record, text_blob, SignalItem, Copied, add_range,
  add_item, add_content, add_bytes, byte_blob, add_plain, negsuc, is_there, pos,
}
use browsception.Prelude.{
  [], ◌∷◌, none, some, Text, All, ◌≡◌, true, Option, ℕ, List, leb, Bool-cases, arith, text_eq, take,
  refl, inr, codes, inl, drop, ◌+◌, length, ◌≤◌,
}
use browsception.Popup.Clicks.{has_entry}
use browsception.Prelude.Integers.{ℤ, ◌+ℤ◌}

-- Bytes that are a range inside the engine's buffer.
abbrev pub IsInside : Option (List ℕ) → Content → Type 0
IsInside buf (text_blob text) = Unit
IsInside buf (byte_blob b) =
    (bytes : List ℕ) × (off : ℕ) × (len : ℕ) × (buf ≡ some bytes)
    × (b ≡ take len (drop off bytes))
    × (off + len ≤ length bytes)

-- Every type in the record is writable, and all bytes are the engine's.
abbrev pub IsWritable : Option (List ℕ) → TextMap Content → Type 0
IsWritable buf m = All (λ p. (has_entry p.0 writable_types ≡ true) × IsInside buf p.1) m

insert-IsWritable :
    (buf : Option (List ℕ)) (kind : Text) (content : Content) (m : TextMap Content)
    → has_entry kind writable_types ≡ true
    → IsInside buf content
    → IsWritable buf m
    → IsWritable buf (insert kind content m)
unfolding insert
insert-IsWritable buf kind content [] w inside h = ((w, inside), tt)
insert-IsWritable buf kind content ((j, c) ∷ m) w inside h = elim (Bool-cases (text_eq j kind)) [
  | inl same ↦ rw same ((w, inside), h.1)
  | inr differ ↦ rw differ (h.0, insert-IsWritable buf kind content m w inside h.1)
]

zero_le : (a : ℕ) → leb 0 a ≡ true
zero_le a = ground arith

module _ (buf : Option (List ℕ)) (kind : Text)
    (writable : has_entry kind writable_types ≡ true) where
  add_range-IsWritable :
      (bytes : List ℕ) (off len : ℤ) (c : Copied)
      → buf ≡ some bytes
      → IsWritable buf c.record_of
      → IsWritable buf (add_range kind bytes off len c).record_of
  unfolding ◌+ℤ◌
  add_range-IsWritable bytes (negsuc a) len c e h = h
  add_range-IsWritable bytes (pos a) (negsuc b) c e h = rw (zero_le a) h
  add_range-IsWritable bytes (pos a) (pos b) c e h =
      elim (Bool-cases (leb (a + b) (length bytes))) [
        | inl fits ↦
            rw (zero_le a, zero_le b, fits)
              (insert-IsWritable buf kind (byte_blob (take b (drop a bytes))) c.record_of writable
                (bytes, a, b, e, refl, ground (arith, fits)) h)
        | inr over ↦ rw (zero_le a, zero_le b, over) h
      ]

  add_bytes-IsWritable :
      (held : Option (List ℕ)) (off len : Option ℤ) (c : Copied)
      → buf ≡ held
      → IsWritable buf c.record_of
      → IsWritable buf (add_bytes kind held off len c).record_of
  add_bytes-IsWritable none off len c e h = h
  add_bytes-IsWritable (some bytes) none len c e h = h
  add_bytes-IsWritable (some bytes) (some off) none c e h = h
  add_bytes-IsWritable (some bytes) (some off) (some len) c e h =
      add_range-IsWritable bytes off len c e h

  add_plain-IsWritable :
      (text : Text) (c : Copied)
      → IsWritable buf c.record_of
      → IsWritable buf (add_plain kind text c).record_of
  add_plain-IsWritable text c h = elim (Bool-cases (text_eq kind (codes "text/plain"))) [
    | inl plain ↦ rw plain h
    | inr other ↦ rw other h
  ]

add_content-IsWritable :
    (buf : Option (List ℕ)) (it : SignalItem) (text : Option Text) (c : Copied)
    → has_entry it.kind writable_types ≡ true
    → IsWritable buf c.record_of
    → IsWritable buf (add_content it buf text c).record_of
add_content-IsWritable buf it none c w h =
    add_bytes-IsWritable buf it.kind w buf it.off it.len c refl h
add_content-IsWritable buf it (some text) c w h =
    add_plain-IsWritable buf it.kind w text _
      (insert-IsWritable buf it.kind (text_blob text) c.record_of w tt h)

add_item-IsWritable :
    (buf : Option (List ℕ)) (c : Copied) (it : SignalItem)
    → IsWritable buf c.record_of
    → IsWritable buf (add_item buf c it).record_of
add_item-IsWritable buf c it h = elim (Bool-cases (has_entry it.kind writable_types)) [
  | inr bad ↦ rw bad h
  | inl ok ↦ elim (Bool-cases (is_there (lookup it.kind c.record_of))) [
    | inl there ↦ rw (ok, there) h
    | inr first ↦ rw (ok, first) (add_content-IsWritable buf it it.text c ok h)
  ]
]

add_items-IsWritable :
    (buf : Option (List ℕ)) (c : Copied) (items : List SignalItem)
    → IsWritable buf c.record_of
    → IsWritable buf (add_items buf c items).record_of
unfolding add_items
add_items-IsWritable buf c [] h = h
add_items-IsWritable buf c (it ∷ items) h =
    add_items-IsWritable buf (add_item buf c it) items (add_item-IsWritable buf c it h)

-- Whatever the engine's signal says, the record for the host's clipboard holds only types that the
-- clipboard takes, and all its bytes are ranges inside the buffer that came with the signal.
pub to_clipboard_record-IsWritable :
    (items : Option (List SignalItem)) (buf : Option (List ℕ))
    → IsWritable buf (to_clipboard_record items buf).record_of
unfolding to_clipboard_record
to_clipboard_record-IsWritable none buf = tt
to_clipboard_record-IsWritable (some items) buf = add_items-IsWritable buf _ items tt
