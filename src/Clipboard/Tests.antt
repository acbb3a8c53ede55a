-- ===== src/Clipboard/Tests.antt =====
-- A paste of a text and an image, a copy, and inputs that the theorems apply to.
use browsception.Clipboard.Ranges.{IsPacked, IsHonest, pack_data_transfer-IsPacked}
use browsception.Clipboard.{
  pack_data_transfer, SignalItem, Transfer, PasteFile, text_items, to_clipboard_record, text_item,
  chosen_files, file_items, file_item, byte_blob, payload, add_items,
}
use browsception.Prelude.{All, List, codes, [], some, ◌∷◌, ◌≡◌, none, arith, text_eq, refl}
use browsception.Clipboard.Copies.{IsWritable, to_clipboard_record-IsWritable}
use browsception.Prelude.Integers.{pos, ◌+ℤ◌}
use browsception.Popup.Clicks.{has_entry}
use browsception.Prelude.TextMap.{lookup, insert}

clipboard : Unit {0}
unfolding pack_data_transfer text_items chosen_files file_items payload has_entry text_eq
    to_clipboard_record add_items lookup insert ◌+ℤ◌
clipboard = tt

abbrev image : PasteFile
image = record {
  kind = codes "image/png";
  name = codes "a";
  size = 3;
  content = some (1 ∷ 2 ∷ 3 ∷ []);
}

abbrev unread : PasteFile
unread = record { kind = []; name = codes "b"; size = 2; content = none }

abbrev large : PasteFile
large = record { kind = []; name = codes "c"; size = 90; content = some (7 ∷ []) }

abbrev pasted : Transfer
pasted = record {
  types = codes "text/plain" ∷ [];
  get_data = λ type. codes "hi";
  files = unread ∷ large ∷ image ∷ [];
}

pasted-IsHonest : All IsHonest pasted.files
pasted-IsHonest = (omega arith, (omega arith, (omega arith, tt)))

pack_data_transfer-IsPacked_example : IsPacked pasted 20 (pack_data_transfer pasted 20)
pack_data_transfer-IsPacked_example = pack_data_transfer-IsPacked pasted 20 pasted-IsHonest

abbrev copied_image : SignalItem
copied_image = record {
  kind = codes "image/png";
  text = none;
  off = some (pos 1);
  len = some (pos 2);
}

abbrev copied_script : SignalItem
copied_script = record { kind = codes "text/x"; text = some (codes "x"); off = none; len = none }

abbrev outside : SignalItem
outside = record { kind = codes "text/html"; text = none; off = some (pos 2); len = some (pos 9) }

abbrev signal : List SignalItem
signal = copied_script ∷ outside ∷ copied_image ∷ copied_image ∷ []

clipboard_tests :
    ((pack_data_transfer pasted 20).items
      ≡ text_item (codes "text/plain") (codes "hi")
        ∷ file_item (codes "image/png") (codes "a") 0 3
        ∷ [])
    × ((pack_data_transfer pasted 5).bytes ≡ none)
    × ((to_clipboard_record (some signal) (some (9 ∷ 8 ∷ 7 ∷ []))).record_of
        ≡ (codes "image/png", byte_blob (8 ∷ 7 ∷ [])) ∷ [])
unfolding clipboard
clipboard_tests = (refl, refl, refl)

to_clipboard_record-IsWritable_example :
    IsWritable (some (9 ∷ [])) (to_clipboard_record (some signal) (some (9 ∷ []))).record_of
to_clipboard_record-IsWritable_example =
    to_clipboard_record-IsWritable (some signal) (some (9 ∷ []))
