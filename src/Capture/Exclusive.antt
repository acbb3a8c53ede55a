-- ===== src/Capture/Exclusive.antt =====
-- No entry waits in a queue while a taker waits for it.
use browsception.Prelude.{
  ℕ, Text, ◌≡◌, List, [], ◌∷◌, ◌⊎◌, inl, inr, Option, none, some, Bool, true, false, refl,
  if◌then◌else◌, subst, sym, ap,
}
use browsception.Host.{UrlParser}
use browsception.Capture.{Capture, Stamped, Resolution, Entry}
use browsception.Capture.Queues.{push, claim_entry, time_out, sweep, without, fresh_entries, key_of}
use browsception.Capture.Listeners.{
  Details, on_headers_received, on_before_redirect, before_redirect_at, write_entry,
}
use browsception.Capture.Lanes.{
  Lane, lane, capture-lanes, claim, offer, drop_old, give_up, sweep-lane,
}

abbrev pub IsOneSided : Lane → Type 0
IsOneSided l = (l.queued ≡ []) ⊎ (l.waiting ≡ [])

abbrev pub IsExclusive : Capture → Type 0
IsExclusive s = (key : Text) → IsOneSided (lane key s)

offer-IsOneSided :
    (e : Stamped) (q : List Stamped) (ws : List ℕ)
    → IsOneSided (record { queued = q; waiting = ws })
    → IsOneSided (offer e (record { queued = q; waiting = ws }))
offer-IsOneSided e q [] h = inr refl
offer-IsOneSided e q (w ∷ ws) (inl empty') = inl empty'
offer-IsOneSided e q (w ∷ ws) (inr h) = cc

claim-IsOneSided :
    (taker : ℕ) (q : List Stamped) (ws : List ℕ)
    → IsOneSided (record { queued = q; waiting = ws })
    → IsOneSided (claim taker (record { queued = q; waiting = ws }))
claim-IsOneSided taker [] ws h = inl refl
claim-IsOneSided taker (e ∷ q) ws (inl h) = cc
claim-IsOneSided taker (e ∷ q) ws (inr empty') = inr empty'

give_up-IsOneSided : (taker : ℕ) (l : Lane) → IsOneSided l → IsOneSided (give_up taker l)
unfolding without
give_up-IsOneSided taker l (inl h) = inl h
give_up-IsOneSided taker l (inr h) = inr (ap (without taker) h)

drop_old-IsOneSided : (now age : ℕ) (l : Lane) → IsOneSided l → IsOneSided (drop_old now age l)
unfolding fresh_entries
drop_old-IsOneSided now age l (inl h) = inl (ap (fresh_entries now age) h)
drop_old-IsOneSided now age l (inr h) = inr h

if-IsOneSided :
    (c : Bool) (x y : Lane) → IsOneSided x → IsOneSided y → IsOneSided (if c then x else y)
if-IsOneSided true x y hx hy = hx
if-IsOneSided false x y hx hy = hy

sweep-IsExclusive : (now : ℕ) (s : Capture) → IsExclusive s → IsExclusive (sweep now s)
sweep-IsExclusive now s h key =
    subst IsOneSided (sym (sweep-lane now key s))
      (if-IsOneSided _ _ _ (h key) (drop_old-IsOneSided now s.max_age (lane key s) (h key)))

push-IsExclusive :
    (key : Text) (e : Stamped) (s : Capture) → IsExclusive s → IsExclusive (push key e s).0
push-IsExclusive key e s h j =
    let swept = sweep-IsExclusive e.at s h j in
    subst IsOneSided (sym (capture-lanes key j e 0 s).0)
      (if-IsOneSided _ _ _ (offer-IsOneSided e _ _ swept) swept)

claim_entry-IsExclusive :
    (key : Text) (taker : ℕ) (s : Capture) → IsExclusive s → IsExclusive (claim_entry key taker s).0
claim_entry-IsExclusive key taker s h j =
    subst IsOneSided (sym (capture-lanes key j (record { at = 0; entry = 0 }) taker s).2)
      (if-IsOneSided _ _ _ (claim-IsOneSided taker _ _ (h j)) (h j))

time_out-IsExclusive :
    (key : Text) (taker : ℕ) (s : Capture) → IsExclusive s → IsExclusive (time_out key taker s).0
time_out-IsExclusive key taker s h j =
    subst IsOneSided (sym (capture-lanes key j (record { at = 0; entry = 0 }) taker s).4)
      (if-IsOneSided _ _ _ (give_up-IsOneSided taker _ (h j)) (h j))

-- What can happen to the capture.
pub data CaptureEvent : Type 0 where
  headers_received before_redirect : ℕ → Details → CaptureEvent
  asked timed_out : Text → ℕ → CaptureEvent

unfoldable pub handle : UrlParser → Text → Capture → CaptureEvent → Capture × List Resolution
handle parse origin s (headers_received now d) = on_headers_received parse origin now d s
handle parse origin s (before_redirect now d) = on_before_redirect parse origin now d s
handle parse origin s (asked url taker) = claim_entry (key_of parse url) taker s
handle parse origin s (timed_out url taker) = time_out (key_of parse url) taker s

unfoldable pub handle_all : UrlParser → Text → Capture → List CaptureEvent → Capture
handle_all parse origin s [] = s
handle_all parse origin s (e ∷ es) = handle_all parse origin (handle parse origin s e).0 es

if-IsExclusive :
    (c : Bool) (x y : Capture × List Resolution)
    → IsExclusive x.0
    → IsExclusive y.0
    → IsExclusive (if c then x else y).0
if-IsExclusive true x y hx hy = hx
if-IsExclusive false x y hx hy = hy

either-IsExclusive :
    (c : Bool) (x y : Capture) → IsExclusive x → IsExclusive y → IsExclusive (if c then x else y)
either-IsExclusive true x y hx hy = hx
either-IsExclusive false x y hx hy = hy

write_entry-IsExclusive :
    (place : ℕ) (e : Option Entry) (s : Capture)
    → IsExclusive s
    → IsExclusive (write_entry place e s)
write_entry-IsExclusive place none s h = h
write_entry-IsExclusive place (some e) s h = h

before_redirect_at-IsExclusive :
    (parse : UrlParser) (now : ℕ) (d : Details) (s : Capture) (seen : Option Stamped)
    → IsExclusive s
    → IsExclusive (before_redirect_at parse now d s seen).0
before_redirect_at-IsExclusive parse now d s none h = push-IsExclusive _ _ _ h
before_redirect_at-IsExclusive parse now d s (some seen) h =
    write_entry-IsExclusive seen.entry _ _ h

handle-IsExclusive :
    (parse : UrlParser) (origin : Text) (s : Capture) (e : CaptureEvent)
    → IsExclusive s
    → IsExclusive (handle parse origin s e).0
unfolding handle on_headers_received on_before_redirect
handle-IsExclusive parse origin s (headers_received now d) h =
    if-IsExclusive _ _ _ h (push-IsExclusive _ _ _ (either-IsExclusive _ _ _ h h))
handle-IsExclusive parse origin s (before_redirect now d) h =
    if-IsExclusive _ _ _ h (before_redirect_at-IsExclusive parse now d s _ h)
handle-IsExclusive parse origin s (asked url taker) h = claim_entry-IsExclusive _ taker s h
handle-IsExclusive parse origin s (timed_out url taker) h = time_out-IsExclusive _ taker s h

-- After any sequence of webRequest events, takes and time-outs, no URL has an entry in its queue
-- while a taker of the same URL waits, if none had before.
pub handle_all-IsExclusive :
    (parse : UrlParser) (origin : Text) (s : Capture) (es : List CaptureEvent)
    → IsExclusive s
    → IsExclusive (handle_all parse origin s es)
unfolding handle_all
handle_all-IsExclusive parse origin s [] h = h
handle_all-IsExclusive parse origin s (e ∷ es) h =
    handle_all-IsExclusive parse origin (handle parse origin s e).0 es
      (handle-IsExclusive parse origin s e h)
