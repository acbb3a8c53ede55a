-- ===== src/Clipboard.antt =====
-- src/ext/clipboard.mjs: a paste packed for the engine, and an engine's copy unpacked for the host.
pub mod Ranges
pub mod Copies
mod Tests
use browsception.Prelude.{
  List, ℕ, Text, Option, none, ◌∷◌, Bool, ◌*◌, codes, some, [], if◌then◌else◌, not, length, ◌++◌,
  ◌+◌, false, text_eq, true, ◌||◌, ltb, ◌&&◌, take, drop,
}
use browsception.Prelude.Integers.{ℤ, pos, negsuc, int_le, ◌+ℤ◌}
use browsception.Prelude.TextMap.{TextMap, insert, lookup}
use browsception.Popup.Clicks.{has_entry}

-- A file of a DataTransfer: its bytes, unless reading them fails.
pub record PasteFile : Type 0 where
  pub kind : Text
  pub name : Text
  pub size : ℕ
  pub content : Option (List ℕ)

-- `dt.types`, what `dt.getData` answers, and `dt.files`
pub record Transfer : Type 0 where
  pub types : List Text
  pub get_data : Text → Text
  pub files : List PasteFile

pub data PasteItem : Type 0 where
  text_item : Text → Text → PasteItem
  -- type, name, offset and length
  file_item : Text → Text → ℕ → ℕ → PasteItem

-- `STRING_TYPES`, `WRITABLE_TYPES` and `PASTE_MAX_BYTES`
abbrev pub string_types : List Text
string_types = codes "text/plain" ∷ codes "text/html" ∷ codes "text/uri-list" ∷ []

abbrev pub writable_types : List Text
writable_types = codes "text/plain" ∷ codes "text/html" ∷ codes "image/png" ∷ []

abbrev pub paste_max_bytes : ℕ
paste_max_bytes = 32 * 1024 * 1024

abbrev add_text : Text → Text → List PasteItem × ℕ → List PasteItem × ℕ
add_text type text (items, used) =
    if text_eq text [] then (items, used) else (text_item type text ∷ items, length text * 2 + used)

-- The strings, and an upper bound for their size.
unfoldable pub text_items : Transfer → List Text → List PasteItem × ℕ
text_items dt [] = ([], 0)
text_items dt (type ∷ types) =
    let rest = text_items dt types in
    if has_entry type dt.types then add_text type (dt.get_data type) rest else rest

-- The files that fit below `maxBytes`, in order.
unfoldable pub chosen_files : ℕ → ℕ → List PasteFile → List PasteFile
chosen_files max_bytes used [] = []
chosen_files max_bytes used (f ∷ files) =
    let kept = chosen_files max_bytes (used + f.size) files in
    let passed = chosen_files max_bytes used files in
    if ltb max_bytes (used + f.size) then passed else f ∷ kept

abbrev or_octets : Text → Text
or_octets [] = codes "application/octet-stream"
or_octets (c ∷ s) = c ∷ s

abbrev place_file : PasteFile → Option (List ℕ) → ℕ → (ℕ → List PasteItem) → List PasteItem
place_file f none off rest = rest off
place_file f (some p) off rest =
    file_item (or_octets f.kind) f.name off (length p) ∷ rest (off + length p)

-- The ranges of the files that could be read, and the bytes that are set at them.
unfoldable pub file_items : ℕ → List PasteFile → List PasteItem
file_items off [] = []
file_items off (f ∷ files) = place_file f f.content off (λ off'. file_items off' files)

abbrev pub bytes_or_none : Option (List ℕ) → List ℕ
bytes_or_none none = []
bytes_or_none (some p) = p

unfoldable pub payload : List PasteFile → List ℕ
payload [] = []
payload (f ∷ files) = bytes_or_none f.content ++ payload files

pub record Packed : Type 0 where
  pub items : List PasteItem
  pub bytes : Option (List ℕ)

abbrev pub packed_files : List PasteItem → List PasteFile → Packed
packed_files items [] = record { items = items; bytes = none }
packed_files items (f ∷ files) = record {
  items = items ++ file_items 0 (f ∷ files);
  bytes = some (payload (f ∷ files));
}

-- `packDataTransfer`
unfoldable pub pack_data_transfer : Transfer → ℕ → Packed
pack_data_transfer dt max_bytes =
    let (items, used) = text_items dt string_types in
    packed_files items (chosen_files max_bytes used dt.files)

-- An item of the engine's "clipboard" signal; what a field lacks is `undefined`.
pub record SignalItem : Type 0 where
  pub kind : Text
  pub text : Option Text
  pub off : Option ℤ
  pub len : Option ℤ

-- What goes into a Blob.
pub data Content : Type 0 where
  text_blob : Text → Content
  byte_blob : List ℕ → Content

pub record Copied : Type 0 where
  pub record_of : TextMap Content
  pub plain : Text

abbrev pub nat_of : ℤ → ℕ
nat_of (pos n) = n
nat_of (negsuc n) = 0

abbrev add_blob : Text → Content → Copied → Copied
add_blob kind content c = record c { record_of = insert kind content c.record_of }

-- `new Uint8Array(buf, it.off, it.len)`, where the range is inside.
abbrev add_range : Text → List ℕ → ℤ → ℤ → Copied → Copied
add_range kind buf off len c =
    if int_le (pos 0) off && int_le (pos 0) len && int_le (off +ℤ len) (pos (length buf))
    then add_blob kind (byte_blob (take (nat_of len) (drop (nat_of off) buf))) c
    else c

abbrev add_bytes : Text → Option (List ℕ) → Option ℤ → Option ℤ → Copied → Copied
add_bytes kind (some buf) (some off) (some len) c = add_range kind buf off len c
add_bytes kind _ _ _ c = c

abbrev add_plain : Text → Text → Copied → Copied
add_plain kind text c = if text_eq kind (codes "text/plain") then record c { plain = text } else c

abbrev add_content : SignalItem → Option (List ℕ) → Option Text → Copied → Copied
add_content it buf (some text) c = add_plain it.kind text (add_blob it.kind (text_blob text) c)
add_content it buf none c = add_bytes it.kind buf it.off it.len c

abbrev pub is_there {ℓ} : {A : Type ℓ} → Option A → Bool
is_there none = false
is_there (some a) = true

-- One item: a type that is not writable, or that has a blob already, is passed over.
abbrev pub add_item : Option (List ℕ) → Copied → SignalItem → Copied
add_item buf c it =
    if not (has_entry it.kind writable_types) || is_there (lookup it.kind c.record_of)
    then c
    else add_content it buf it.text c

unfoldable pub add_items : Option (List ℕ) → Copied → List SignalItem → Copied
add_items buf c [] = c
add_items buf c (it ∷ items) = add_items buf (add_item buf c it) items

-- `toClipboardRecord`, of the items that `JSON.parse` found: none where it throws. The source
-- answers null for an empty record.
unfoldable pub to_clipboard_record : Option (List SignalItem) → Option (List ℕ) → Copied
to_clipboard_record none buf = record { record_of = []; plain = [] }
to_clipboard_record (some items) buf = add_items buf (record { record_of = []; plain = [] }) items
