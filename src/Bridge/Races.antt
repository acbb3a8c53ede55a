-- ===== src/Bridge/Races.antt =====
-- A cancellation that meets the wait for the capture.
use mathlib.Core.List.{Memᴰ}
use browsception.Prelude.{
  ℕ, ◌≡◌, Text, [], ◌∷◌, Option, none, some, true, refl, ap, ◌∙◌, arith, subst, sym,
}
use browsception.Prelude.Maps.{get, get-delete, get-put}
use browsception.Capture.{Entry, is_redirect_entry}
use browsception.Bridge.{
  Bridge, Request, Pending, finish, finish_at, fail, fail_at, recovering, net_fail, net_redirect,
  cancelled, Step, by_cancel, abort_fetch,
}
use browsception.Bridge.Requests.{
  cancel, update, redirect_to, update_at, ended, first_abort, cancel_at,
}
use browsception.Bridge.Stream.{entry_taken, taken_at, taking_task, recovered, redirect_entry}

finish_keeps_tasks : (id : ℕ) (b : Bridge) → (finish id b).0.tasks ≡ b.tasks
unfolding finish
finish_keeps_tasks id b = at (get id b.inflight)
  where
    at : (o : Option Pending) → (finish_at id b o).0.tasks ≡ b.tasks
    at none = refl
    at (some st) = refl

finish_ends : (id : ℕ) (b : Bridge) → get id (finish id b).0.inflight ≡ none
unfolding finish
finish_ends id b = at (get id b.inflight) refl
  where
    at : (o : Option Pending) → get id b.inflight ≡ o → get id (finish_at id b o).0.inflight ≡ none
    at none e = e
    at (some st) e = ground (arith, get-delete id id b.inflight)

update_keeps_tasks : (id : ℕ) (f : Pending → Pending) (b : Bridge) → (update id f b).tasks ≡ b.tasks
unfolding update
update_keeps_tasks id f b = at (get id b.inflight)
  where
    at : (o : Option Pending) → (update_at id f b o).tasks ≡ b.tasks
    at none = refl
    at (some st) = refl

update_of_ended :
    (id : ℕ) (f : Pending → Pending) (b : Bridge) → get id b.inflight ≡ none → update id f b ≡ b
unfolding update
update_of_ended id f b e = ap (update_at id f b) e

finish_of_ended : (id : ℕ) (b : Bridge) → get id b.inflight ≡ none → finish id b ≡ (b, [])
unfolding finish
finish_of_ended id b e = ap (finish_at id b) e

-- The capture's redirect is reported, whether or not the request is still in flight.
redirect_of_ended :
    (id : ℕ) (b : Bridge) (req : Request) (message : Text) (entry : Entry)
    → get id b.inflight ≡ none
    → get id b.tasks ≡ some (recovering req message)
    → is_redirect_entry (some entry) ≡ true
    → (entry_taken id (some entry) b).1 ≡ net_redirect id entry.status req.url entry.headers ∷ []
unfolding entry_taken redirect_to
redirect_of_ended id b req message entry gone task hop =
    let took = λ (st : Pending). record st { took = true } in
    let resumed = ap (λ t. (taken_at id (some entry) b (taking_task t)).1) task in
    let same =
      ap (λ c. (recovered id req message c (redirect_entry (some entry))).1)
        (update_of_ended id took b gone) in
    let chosen : redirect_entry (some entry) ≡ some entry = rw hop refl in
    resumed
    ∙ same
    ∙ ap (λ h. (recovered id req message b h).1) chosen
    ∙ ap (λ s. net_redirect id entry.status req.url entry.headers ∷ s.1)
        (finish_of_ended id (ended id b) gone)

update_of_live :
    (id : ℕ) (f : Pending → Pending) (b : Bridge) (st : Pending)
    → get id b.inflight ≡ some st
    → get id (update id f b).inflight ≡ some (f st)
unfolding update
update_of_live id f b st e =
    ap (λ o. get id (update_at id f b o).inflight) e
    ∙ ground (arith, get-put id id (f st) b.inflight)

abbrev BothReported : ℕ → Request → Entry → Step → Type 0
BothReported id req entry s =
    (Memᴰ (net_fail id cancelled none) s.1)
    × ((entry_taken id (some entry) s.0).1
        ≡ net_redirect id entry.status req.url entry.headers ∷ [])

-- A request that waits for the capture after its fetch rejected, and is cancelled then: the engine
-- is told that the request failed, and when the capture gives a redirect it is told of the
-- redirect too, as if the request were still in flight.
pub cancelled_redirect :
    (id : ℕ) (b : Bridge) (st : Pending) (req : Request) (message : Text) (entry : Entry)
    → get id b.inflight ≡ some st
    → get id b.tasks ≡ some (recovering req message)
    → is_redirect_entry (some entry) ≡ true
    → (Memᴰ (net_fail id cancelled none) (cancel id b).1)
      × ((entry_taken id (some entry) (cancel id b).0).1
          ≡ net_redirect id entry.status req.url entry.headers ∷ [])
unfolding cancel fail
cancelled_redirect id b st req message entry live task hop =
    let f = λ (st : Pending). record st { abort_reason = first_abort by_cancel st.abort_reason } in
    let c = update id f b in
    let left = finish id c in
    let tasks : get id left.0.tasks ≡ some (recovering req message) =
      ap (get id) (finish_keeps_tasks id c ∙ update_keeps_tasks id f b) ∙ task in
    let failed = ap (fail_at id cancelled none c) (update_of_live id f b st live) in
    subst (λ (o : Option Pending). BothReported id req entry (cancel_at id b o)) (sym live)
      (subst (λ (t : Step). BothReported id req entry (t.0, abort_fetch id by_cancel ∷ t.1))
        (sym failed)
        (
          Memᴰ.tail (Memᴰ.head refl),
          redirect_of_ended id left.0 req message entry (finish_ends id c) tasks hop,
        ))
