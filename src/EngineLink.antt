-- ===== src/EngineLink.antt =====
-- src/ext/engine-link.mjs: the main thread's end of the engine worker. A step gives the new state
-- and what was done, in order: messages posted to the worker and hooks called. A hook does not call
-- the link again before the step is over.
pub mod Corpse
mod Tests
use browsception.Prelude.{
  List, Text, suc, Bool, Option, codes, if◌then◌else◌, ◌∷◌, ◌++◌, [], ℕ, ◌==◌, true, some, ◌&&◌,
  none, length, take, drop,
}
use browsception.Prelude.Integers.{ℤ}

-- Arguments of an export call: strings and numbers only.
pub data Argument : Type 0 where
  text_argument : Text → Argument
  number_argument : ℤ → Argument

-- A `Uint8Array`: a part of a buffer.
pub record View : Type 0 where
  pub buffer : List ℕ
  pub offset : ℕ
  pub byte_length : ℕ

-- What the worker reports of a presented frame.
pub record Frame : Type 0 where
  pub buf : List ℕ
  pub fb_w : ℕ
  pub fb_h : ℕ
  pub stride : ℕ
  pub x : ℕ
  pub y : ℕ
  pub w : ℕ
  pub h : ℕ

pub data Post : Type 0 where
  boot_post : Text → Text → Post
  call_post : Text → List Argument → Post
  edit_post : Text → Option (List ℕ) → Post
  readback_post : Post
  response_post : ℕ → Text → Post
  -- the bytes, from 0 to their length
  data_post : ℕ → List ℕ → Post
  done_post : ℕ → Option Text → Post
  fail_post : ℕ → ℕ → Option Text → Post
  redirect_post : ℕ → ℕ → Text → Post
  frame_return : List ℕ → Post

-- What comes from the worker, which is also what the hooks and the bridge are told.
pub data WorkerMessage : Type 0 where
  frame : Frame → WorkerMessage
  chrome_signal : Text → Text → Option (List ℕ) → WorkerMessage
  persisted : Text → WorkerMessage
  readback : Option (List ℕ) → ℕ → ℕ → WorkerMessage
  net_begin : Text → Option (List ℕ) → WorkerMessage
  net_cancel : ℕ → WorkerMessage
  net_ack : ℕ → ℕ → WorkerMessage
  logged : Bool → Text → WorkerMessage
  engine_loaded engine_ready : WorkerMessage
  boot_failed aborted : Text → WorkerMessage

pub data LinkEffect : Type 0 where
  posted : Post → LinkEffect
  told : WorkerMessage → LinkEffect
  called : Text → List Argument → LinkEffect
  edited : Text → LinkEffect
  terminated : LinkEffect

pub record Link : Type 0 where
  pub dead : Bool
  pub calls : ℕ

abbrev pub LinkStep : Type 0
LinkStep = Link × List LinkEffect

-- `#post`
abbrev pub post : Post → Link → List LinkEffect
post p s = if s.dead then [] else posted p ∷ []

-- `#abort`
abbrev pub abort_link : Text → Link → LinkStep
abort_link reason s =
    if s.dead then (s, []) else (record s { dead = true }, told (aborted reason) ∷ [])

-- The whole buffer, or a copy of the part.
unfoldable pub owned_bytes : View → List ℕ
owned_bytes v =
    if v.offset == 0 && v.byte_length == length v.buffer
    then v.buffer
    else take v.byte_length (drop v.offset v.buffer)

abbrev edit_buffer : Option View → Option (List ℕ)
edit_buffer none = none
edit_buffer (some v) = if v.byte_length == 0 then none else some (owned_bytes v)

-- The methods of the viewer and of the bridge.
pub data LinkCall : Type 0 where
  boot : Text → Text → LinkCall
  call : Text → List Argument → LinkCall
  edit : Text → Option View → LinkCall
  request_readback terminate : LinkCall
  net_response : ℕ → Text → LinkCall
  net_data : ℕ → View → LinkCall
  net_done : ℕ → Option Text → LinkCall
  net_fail : ℕ → ℕ → Option Text → LinkCall
  net_redirect : ℕ → ℕ → Text → LinkCall

abbrev pub with_call : Link → Link
with_call s = record s { calls = suc s.calls }

-- An operation of an edit is given as its JSON.
unfoldable pub link_call : Link → LinkCall → LinkStep
link_call s (boot engine_url config) = (s, post (boot_post engine_url config) s)
link_call s (call fn args) =
    if s.dead
    then (s, [])
    else (with_call s, called fn args ∷ post (call_post fn args) (with_call s))
link_call s (edit json bytes) =
    if s.dead
    then (s, [])
    else (with_call s, edited json ∷ post (edit_post json (edit_buffer bytes)) (with_call s))
link_call s request_readback = (s, post readback_post s)
link_call s terminate = (record s { dead = true }, terminated ∷ [])
link_call s (net_response id json) = (s, post (response_post id json) s)
link_call s (net_data id bytes) = (s, post (data_post id (owned_bytes bytes)) s)
link_call s (net_done id json) = (s, post (done_post id json) s)
link_call s (net_fail id kind message) = (s, post (fail_post id kind message) s)
link_call s (net_redirect id status json) = (s, post (redirect_post id status json) s)

-- `#onMessage`
unfoldable pub on_message : Link → WorkerMessage → LinkStep
on_message s (frame f) =
    (s, (if s.dead then [] else told (frame f) ∷ []) ++ post (frame_return f.buf) s)
on_message s (boot_failed message) = (record s { dead = true }, told (boot_failed message) ∷ [])
on_message s (aborted reason) = abort_link reason s
on_message s m = (s, told m ∷ [])

-- Calls, messages and errors of the worker.
pub data LinkEvent : Type 0 where
  asked : LinkCall → LinkEvent
  heard : WorkerMessage → LinkEvent
  worker_error : Text → LinkEvent

unfoldable pub link_step : Link → LinkEvent → LinkStep
link_step s (asked c) = link_call s c
link_step s (heard m) = on_message s m
link_step s (worker_error message) = abort_link (codes "worker error: " ++ message) s

unfoldable pub link_run : Link → List LinkEvent → LinkStep
link_run s [] = (s, [])
link_run s (e ∷ es) =
    let next = link_step s e in let rest = link_run next.0 es in (rest.0, next.1 ++ rest.1)
