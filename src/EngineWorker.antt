-- ===== src/EngineWorker.antt =====
-- src/ext/engine-worker.js: the worker that hosts the engine. The heap is a list of bytes, `alloc`
-- is the engine's allocator, and a step gives the new state and what was done, in order.
pub mod Ranges
mod Tests
use browsception.Prelude.{
  List, Text, ℕ, Bool, none, length, if◌then◌else◌, take, drop, Option, ◌∷◌, ◌+◌, ◌==◌, text_eq,
  some, [], ◌++◌, ◌*◌, true, ltb, codes, suc, ◌||◌, not,
}
use browsception.Clipboard.{SignalItem}
use browsception.EngineLink.{
  Post, Argument, frame_return, call_post, edit_post, response_post, data_post, done_post,
  fail_post, redirect_post, boot_post, readback_post,
}
use browsception.Prelude.Integers.{pos}

pub record Band : Type 0 where
  pub fb_w : ℕ
  pub fb_h : ℕ
  pub stride : ℕ
  pub x : ℕ
  pub y : ℕ
  pub w : ℕ
  pub h : ℕ

-- An item of the engine's "clipboard" signal: a text, or bytes on the heap (0 is no pointer).
pub data EngineItem : Type 0 where
  plain_item : Text → Text → EngineItem
  heap_item : Text → ℕ → ℕ → EngineItem

pub data WorkerEffect : Type 0 where
  -- messages to the main thread; a frame's buffer has a length and begins with the band
  frame_sent : ℕ → List ℕ → Band → WorkerEffect
  signal_sent : Text → Text → WorkerEffect
  clipboard_sent : List SignalItem → List ℕ → WorkerEffect
  request_sent : Text → Option (List ℕ) → WorkerEffect
  abort_sent : Text → WorkerEffect
  -- the engine's heap and its exports
  wrote : ℕ → List ℕ → WorkerEffect
  freed : ℕ → WorkerEffect
  present_done request_readback : WorkerEffect
  export_called : Text → List Argument → WorkerEffect
  edited : Text → ℕ → ℕ → WorkerEffect
  got_response : ℕ → ℕ → WorkerEffect
  got_data : ℕ → ℕ → ℕ → WorkerEffect
  got_done : ℕ → ℕ → WorkerEffect
  got_failure : ℕ → ℕ → ℕ → WorkerEffect
  got_redirect : ℕ → ℕ → ℕ → WorkerEffect

-- `dead`, and the length of `frameBuf` while the main thread does not hold it.
pub record Worker : Type 0 where
  pub dead : Bool
  pub frame_buf : Option ℕ

abbrev pub WorkerStep : Type 0
WorkerStep = Worker × List WorkerEffect

-- `heap.subarray(ptr, ptr + len)`
abbrev pub heap_slice : List ℕ → ℕ → ℕ → List ℕ
heap_slice heap ptr len = take len (drop ptr heap)

-- The bytes up to the NUL, of `readCString`.
unfoldable pub until_nul : List ℕ → List ℕ
until_nul [] = []
until_nul (b ∷ bs) = let rest = until_nul bs in if b == 0 then [] else b ∷ rest

abbrev pub read_c_string : List ℕ → ℕ → List ℕ
read_c_string heap ptr = until_nul (drop ptr heap)

-- `abort`
abbrev pub abort_worker : Text → Worker → WorkerStep
abort_worker reason s =
    if s.dead then (s, []) else (record s { dead = true }, abort_sent reason ∷ [])

abbrev buffer_for : ℕ → Option ℕ → ℕ
buffer_for capacity none = capacity
buffer_for capacity (some n) = if ltb n capacity then capacity else n

-- `bibFrame`
unfoldable pub bib_frame : List ℕ → ℕ → Band → Worker → WorkerStep
bib_frame heap ptr b s = (
  record s { frame_buf = none },
  frame_sent (buffer_for (b.fb_h * b.stride) s.frame_buf)
        (heap_slice heap (ptr + b.y * b.stride) (b.h * b.stride)) b
      ∷ [],
)

-- `frameReturned`, with the length of the buffer.
unfoldable pub frame_returned : ℕ → Worker → WorkerStep
frame_returned n s = (
  if n == 0 then s else record s { frame_buf = some n },
  if s.dead then [] else present_done ∷ [],
)

-- The items with their ranges in the new buffer, that buffer, and the pointers that are freed.
unfoldable pub ranged_items : ℕ → List EngineItem → List SignalItem
ranged_items off [] = []
ranged_items off (plain_item kind text ∷ items) =
    record { kind = kind; text = some text; off = none; len = none } ∷ ranged_items off items
ranged_items off (heap_item kind ptr len ∷ items) =
    let here = ranged_items (off + len) items in
    let missing = ranged_items off items in
    if ptr == 0
    then record { kind = kind; text = none; off = none; len = some (pos len) } ∷ missing
    else record { kind = kind; text = none; off = some (pos off); len = some (pos len) } ∷ here

unfoldable pub copied_bytes : List ℕ → List EngineItem → List ℕ
copied_bytes heap [] = []
copied_bytes heap (plain_item kind text ∷ items) = copied_bytes heap items
copied_bytes heap (heap_item kind ptr len ∷ items) =
    let rest = copied_bytes heap items in if ptr == 0 then rest else heap_slice heap ptr len ++ rest

unfoldable pub freed_pointers : List EngineItem → List WorkerEffect
freed_pointers [] = []
freed_pointers (plain_item kind text ∷ items) = freed_pointers items
freed_pointers (heap_item kind ptr len ∷ items) =
    let rest = freed_pointers items in if ptr == 0 then rest else freed ptr ∷ rest

abbrev clipboard_signal : List ℕ → Option (List EngineItem) → List WorkerEffect
clipboard_signal heap none = []
clipboard_signal heap (some items) =
    freed_pointers items ++ clipboard_sent (ranged_items 0 items) (copied_bytes heap items) ∷ []

-- `bibChrome`; `parse` is `JSON.parse` and `none` where it throws.
unfoldable pub bib_chrome :
    (Text → Option (List EngineItem)) → List ℕ → Text → Text → List WorkerEffect
bib_chrome parse heap kind json =
    if text_eq kind (codes "clipboard")
    then clipboard_signal heap (parse json)
    else signal_sent kind json ∷ []

-- A request of the engine: its JSON without the body's place, which is given apart.
abbrev request_body : List ℕ → ℕ → ℕ → Option (List ℕ)
request_body heap body_ptr body_len =
    if body_len == 0 then none else some (heap_slice heap body_ptr body_len)

-- `bibNetBegin`, of a JSON text that parses.
unfoldable pub bib_net_begin : List ℕ → ℕ → Text → ℕ → ℕ → List WorkerEffect
bib_net_begin heap ptr request body_ptr body_len =
    freed ptr
    ∷ ((if body_ptr == 0 then [] else freed body_ptr ∷ [])
        ++ request_sent request (request_body heap body_ptr body_len) ∷ [])

module _ (alloc : ℕ → ℕ) (utf8 : Text → List ℕ) where
  -- `allocCString`: the pointer and the write.
  abbrev pub alloc_c_string : Text → ℕ × List WorkerEffect
  alloc_c_string str =
      let bytes = utf8 str in
      let ptr = alloc (length bytes + 1) in (ptr, wrote ptr (bytes ++ 0 ∷ []) ∷ [])

  abbrev alloc_or_null : Option Text → ℕ × List WorkerEffect
  alloc_or_null none = (0, [])
  alloc_or_null (some []) = (0, [])
  alloc_or_null (some (c ∷ str)) = alloc_c_string (c ∷ str)

  abbrev edit_payload : Option (List ℕ) → ℕ × ℕ × List WorkerEffect
  edit_payload none = (0, 0, [])
  edit_payload (some []) = (0, 0, [])
  edit_payload (some (b ∷ bytes)) =
      let ptr = alloc (suc (length bytes)) in (ptr, suc (length bytes), wrote ptr (b ∷ bytes) ∷ [])

  -- `edit`
  abbrev pub edit_heap : Text → Option (List ℕ) → List WorkerEffect
  edit_heap json buf =
      let (ptr, len, writes) = edit_payload buf in writes ++ edited json ptr len ∷ []

  -- `self.onmessage` after the boot, with `callExport`, `netIn` and the rest; `has_export` says
  -- which exports the engine has, and none of them throws.
  unfoldable pub receive_post : (Text → Bool) → Worker → Post → WorkerStep
  receive_post has_export s (frame_return buf) =
      if s.dead then (s, []) else frame_returned (length buf) s
  receive_post has_export s (call_post fn args) =
      (s, if s.dead || not (has_export fn) then [] else export_called fn args ∷ [])
  receive_post has_export s (edit_post json buf) = (s, if s.dead then [] else edit_heap json buf)
  receive_post has_export s readback_post = (s, if s.dead then [] else request_readback ∷ [])
  receive_post has_export s (response_post id json) =
      let (ptr, writes) = alloc_c_string json in
      (s, if s.dead then [] else writes ++ got_response id ptr ∷ [])
  receive_post has_export s (data_post id bytes) =
      let ptr = alloc (length bytes) in
      (s, if s.dead then [] else wrote ptr bytes ∷ got_data id ptr (length bytes) ∷ [])
  receive_post has_export s (done_post id json) =
      let (ptr, writes) = alloc_or_null json in
      (s, if s.dead then [] else writes ++ got_done id ptr ∷ [])
  receive_post has_export s (fail_post id kind message) =
      let (ptr, writes) = alloc_or_null message in
      (s, if s.dead then [] else writes ++ got_failure id kind ptr ∷ [])
  receive_post has_export s (redirect_post id status json) =
      let (ptr, writes) = alloc_c_string json in
      (s, if s.dead then [] else writes ++ got_redirect id status ptr ∷ [])
  receive_post has_export s (boot_post engine_url config) = (s, [])
