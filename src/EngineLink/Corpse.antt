-- ===== src/EngineLink/Corpse.antt =====
-- src/ext/engine-link.mjs: after its death the worker is a corpse, and it dies once.
use browsception.EngineLink.{
  on_message, link_step, LinkStep, LinkEffect, link_call, ◌∷◌, LinkCall, WorkerMessage, LinkEvent,
  posted, Link, told, asked, frame, boot, chrome_signal, call, heard, aborted, worker_error,
  persisted, edit, readback, net_response, net_begin, net_data, net_done, net_cancel, net_fail,
  net_ack, logged, net_redirect, request_readback, boot_failed, terminate, engine_loaded,
  engine_ready, link_run, owned_bytes, View,
}
use browsception.Prelude.{
  Bool, ℕ, List, ◌≡◌, true, ◌++◌, ◌+◌, All, false, arith, [], suc, refl, subst, ap, ◌≤◌, sym,
  All-append, Bool-cases, inl, inr, take, length, drop, ◌==◌, ◌&&◌,
}

abbrev pub IsUnposted : LinkEffect → Type 0
IsUnposted (posted p) = ⊥
IsUnposted _ = Unit

-- Deaths that the viewer is told of as an abort.
abbrev pub aborts : List LinkEffect → ℕ
aborts [] = 0
aborts (told (aborted reason) ∷ es) = suc (aborts es)
aborts (_ ∷ es) = aborts es

abbrev pub lives : Bool → ℕ
lives true = 0
lives false = 1

abbrev corpse : ℕ → Link
corpse n = record { dead = true; calls = n }

abbrev alive : ℕ → Link
alive n = record { dead = false; calls = n }

abbrev IsCorpse : LinkStep → Type 0
IsCorpse r = (r.0.dead ≡ true) × All IsUnposted r.1 × (aborts r.1 ≡ 0)

call-IsCorpse : (n : ℕ) (c : LinkCall) → IsCorpse (link_call (corpse n) c)
unfolding link_call
call-IsCorpse n (boot engine_url config) = (refl, tt, refl)
call-IsCorpse n (call fn args) = (refl, tt, refl)
call-IsCorpse n (edit json bytes) = (refl, tt, refl)
call-IsCorpse n request_readback = (refl, tt, refl)
call-IsCorpse n terminate = (refl, (tt, tt), refl)
call-IsCorpse n (net_response id json) = (refl, tt, refl)
call-IsCorpse n (net_data id bytes) = (refl, tt, refl)
call-IsCorpse n (net_done id json) = (refl, tt, refl)
call-IsCorpse n (net_fail id kind message) = (refl, tt, refl)
call-IsCorpse n (net_redirect id status json) = (refl, tt, refl)

message-IsCorpse : (n : ℕ) (m : WorkerMessage) → IsCorpse (on_message (corpse n) m)
unfolding on_message
message-IsCorpse n (frame f) = (refl, tt, refl)
message-IsCorpse n (chrome_signal kind json buf) = (refl, (tt, tt), refl)
message-IsCorpse n (persisted json) = (refl, (tt, tt), refl)
message-IsCorpse n (readback bytes w h) = (refl, (tt, tt), refl)
message-IsCorpse n (net_begin req body) = (refl, (tt, tt), refl)
message-IsCorpse n (net_cancel id) = (refl, (tt, tt), refl)
message-IsCorpse n (net_ack id bytes) = (refl, (tt, tt), refl)
message-IsCorpse n (logged err s) = (refl, (tt, tt), refl)
message-IsCorpse n engine_loaded = (refl, (tt, tt), refl)
message-IsCorpse n engine_ready = (refl, (tt, tt), refl)
message-IsCorpse n (boot_failed message) = (refl, (tt, tt), refl)
message-IsCorpse n (aborted reason) = (refl, tt, refl)

step-IsCorpse : (n : ℕ) (e : LinkEvent) → IsCorpse (link_step (corpse n) e)
unfolding link_step
step-IsCorpse n (asked c) = call-IsCorpse n c
step-IsCorpse n (heard m) = message-IsCorpse n m
step-IsCorpse n (worker_error message) = (refl, tt, refl)

aborts-append : (xs ys : List LinkEffect) → aborts (xs ++ ys) ≡ aborts xs + aborts ys
aborts-append [] ys = omega arith
aborts-append (x ∷ xs) ys = by_effect x (aborts-append xs ys)
  where
    by_effect :
        (e : LinkEffect)
        → aborts (xs ++ ys) ≡ aborts xs + aborts ys
        → aborts (e ∷ xs ++ ys) ≡ aborts (e ∷ xs) + aborts ys
    by_effect (told (aborted reason)) h = omega (arith, h)
    by_effect _ h = h

eta : (s : Link) (b : Bool) → s.dead ≡ b → record { dead = b; calls = s.calls } ≡ s
eta s b h = ap (λ d. record { dead = d; calls = s.calls }) (sym h)

dead-IsCorpse : (s : Link) (e : LinkEvent) → s.dead ≡ true → IsCorpse (link_step s e)
dead-IsCorpse s e h = subst (λ t. IsCorpse (link_step t e)) (eta s true h) (step-IsCorpse s.calls e)

run-IsCorpse : (s : Link) (es : List LinkEvent) → s.dead ≡ true → IsCorpse (link_run s es)
unfolding link_run
run-IsCorpse s [] h = (h, tt, refl)
run-IsCorpse s (e ∷ es) h =
    let (s', effects) = link_step s e in
    let (still, quiet, none') = dead-IsCorpse s e h in
    let (end, rest, none'') = run-IsCorpse s' es still in
    (
      end,
      All-append IsUnposted effects (link_run s' es).1 quiet rest,
      omega (arith, aborts-append effects (link_run s' es).1, none', none''),
    )

-- An abort is told at most once, and only by a link that is dead from then on.
abbrev IsOnce : LinkStep → Type 0
IsOnce r = aborts r.1 + lives r.0.dead ≤ 1

call-IsOnce : (n : ℕ) (c : LinkCall) → IsOnce (link_call (alive n) c)
unfolding link_call
call-IsOnce n (boot engine_url config) = omega arith
call-IsOnce n (call fn args) = omega arith
call-IsOnce n (edit json bytes) = omega arith
call-IsOnce n request_readback = omega arith
call-IsOnce n terminate = omega arith
call-IsOnce n (net_response id json) = omega arith
call-IsOnce n (net_data id bytes) = omega arith
call-IsOnce n (net_done id json) = omega arith
call-IsOnce n (net_fail id kind message) = omega arith
call-IsOnce n (net_redirect id status json) = omega arith

message-IsOnce : (n : ℕ) (m : WorkerMessage) → IsOnce (on_message (alive n) m)
unfolding on_message
message-IsOnce n (boot_failed message) = omega arith
message-IsOnce n (aborted reason) = omega arith
message-IsOnce n _ = omega arith

step-IsOnce : (n : ℕ) (e : LinkEvent) → IsOnce (link_step (alive n) e)
unfolding link_step
step-IsOnce n (asked c) = call-IsOnce n c
step-IsOnce n (heard m) = message-IsOnce n m
step-IsOnce n (worker_error message) = omega arith

live-IsOnce : (s : Link) (e : LinkEvent) → s.dead ≡ false → IsOnce (link_step s e)
live-IsOnce s e h = subst (λ t. IsOnce (link_step t e)) (eta s false h) (step-IsOnce s.calls e)

run-IsOnce : (s : Link) (es : List LinkEvent) → IsOnce (link_run s es)
unfolding link_run
run-IsOnce s [] = elim (Bool-cases s.dead) [
  | inl d ↦ rw d (omega arith)
  | inr a ↦ rw a (omega arith)
]
run-IsOnce s (e ∷ es) =
    let (s', effects) = link_step s e in
    let rest = link_run s' es in
    let sum = aborts-append effects rest.1 in
    elim (Bool-cases s.dead) [
      | inl dead ↦
          let (still, quiet, none') = dead-IsCorpse s e dead in
          omega (arith, sum, none', run-IsOnce s' es)
      | inr live ↦ elim (Bool-cases s'.dead) [
        | inl died ↦
            let (end, quiet, none') = run-IsCorpse s' es died in
            let once = live-IsOnce s e live in
            omega (arith, sum, none', once, ap lives died, ap lives end)
        | inr lives_on ↦
            omega (arith, sum, live-IsOnce s e live, ap lives lives_on, run-IsOnce s' es)
      ]
    ]

-- Whatever is called and whatever the worker says, the viewer is told of an abort at most once, and
-- once the link is terminated nothing is posted to the worker any more and no abort is told.
pub link_run-dies :
    (s : Link) (es more : List LinkEvent)
    → let ended = link_step (link_run s es).0 (asked terminate) in
      (aborts (link_run s es).1 ≤ 1)
      × All IsUnposted (link_run ended.0 more).1
      × (aborts (link_run ended.0 more).1 ≡ 0)
unfolding link_step link_call
link_run-dies s es more =
    let (end, quiet, none') = run-IsCorpse (record (link_run s es).0 { dead = true }) more refl in
    (omega (arith, run-IsOnce s es), quiet, none')

take_all {ℓ} : {A : Type ℓ} (xs : List A) → take (length xs) xs ≡ xs
take_all [] = refl
take_all (x ∷ xs) = ap (λ t. x ∷ t) (take_all xs)

-- The bytes of a view reach the worker as they are, whether their buffer is handed over or copied.
pub owned_bytes_lem :
    (v : View)
    → v.offset + v.byte_length ≤ length v.buffer
    → owned_bytes v ≡ take v.byte_length (drop v.offset v.buffer)
unfolding owned_bytes
owned_bytes_lem v inside = elim (Bool-cases (v.offset == 0 && v.byte_length == length v.buffer)) [
  | inr part ↦ rw part refl
  | inl whole ↦
      let at : v.offset ≡ 0 = ground (arith, whole) in
      let long : v.byte_length ≡ length v.buffer = ground (arith, whole) in
      rw (whole, at, long) (sym (take_all v.buffer))
]
