-- ===== src/Viewer/Persist.antt =====
-- src/ext/viewer.mjs: the engine's snapshots on their way to the file. A write is its awaits of the
-- file system together: it is done, or one of them fails.
use browsception.Prelude.{
  ◌≢◌, Text, Bool, Option, ◌≡◌, List, some, ◌∷◌, none, false, [], true, ◌⊎◌, ◌∙◌, sym, refl, inl,
  inr, ap,
}

pub record Persist : Type 0 where
  -- `persistPending` and whether `persistTimer` is armed
  pub pending : Option Text
  pub timer : Bool
  -- the text in flight while `persistWriting`
  pub writing : Option Text
  -- what the file holds
  pub file : Option Text

pub data PersistEvent : Type 0 where
  snapshot : Text → PersistEvent
  timer_fired write_done write_failed : PersistEvent

-- `onPersist`, with the persistence on.
abbrev pub on_persist : Text → Persist → Persist
on_persist json s = record s { pending = some json; timer = true }

-- One round of the loop: the next text, or the end with its `finally`.
abbrev pub next_write : Persist → Option Text → Persist
next_write s none = record s { writing = none }
next_write s (some text) = record s { pending = none; writing = some text }

-- `persistWriteLoop`, which runs once at a time.
abbrev pub write_loop : Persist → Option Text → Persist
write_loop s (some text) = s
write_loop s none = next_write s s.pending

abbrev pub fire : Persist → Bool → Persist
fire s false = s
fire s true = let fired = record s { timer = false } in write_loop fired fired.writing

abbrev pub written_at : Persist → Option Text → Persist
written_at s none = s
written_at s (some text) = let done = record s { file = some text } in next_write done done.pending

-- The text is queued again, if no newer one is, and the loop ends.
abbrev pub requeued : Option Text → Text → Option Text
requeued none text = some text
requeued (some newer) text = some newer

abbrev pub failed_at : Persist → Option Text → Persist
failed_at s none = s
failed_at s (some text) = record s {
  pending = requeued s.pending text;
  writing = none;
  timer = true;
}

unfoldable pub persist : Persist → PersistEvent → Persist
persist s (snapshot json) = on_persist json s
persist s timer_fired = fire s s.timer
persist s write_done = written_at s s.writing
persist s write_failed = failed_at s s.writing

unfoldable pub persist_all : Persist → List PersistEvent → Persist
persist_all s [] = s
persist_all s (e ∷ es) = persist_all (persist s e) es

-- Nothing yet, and what the file held before.
abbrev pub new_persist : Option Text → Persist
new_persist file = record { pending = none; timer = false; writing = none; file = file }

-- The last snapshot that was given, or what the file held.
unfoldable pub latest : Option Text → List PersistEvent → Option Text
latest held [] = held
latest held (snapshot json ∷ es) = latest (some json) es
latest held (timer_fired ∷ es) = latest held es
latest held (write_done ∷ es) = latest held es
latest held (write_failed ∷ es) = latest held es

abbrev first_text : Option Text → Option Text → Option Text
first_text none other = other
first_text (some t) other = some t

-- The newest text that is pending, in flight or in the file.
abbrev pub newest : Persist → Option Text
newest s = first_text s.pending (first_text s.writing s.file)

-- A pending text has a timer or a running loop to take it.
abbrev pub IsTaken : Persist → Type 0
IsTaken s = s.pending ≢ none → (s.timer ≡ true) ⊎ (s.writing ≢ none)

abbrev make : Option Text → Option Text → Option Text → Bool → Persist
make p w f t = record { pending = p; timer = t; writing = w; file = f }

newest_by :
    (p w f : Option Text) (t : Bool) (e : PersistEvent)
    → newest (persist (make p w f t) e) ≡ latest (newest (make p w f t)) (e ∷ [])
unfolding persist latest
newest_by p w f t (snapshot json) = refl
newest_by p w f false timer_fired = refl
newest_by p (some x) f true timer_fired = refl
newest_by none none f true timer_fired = refl
newest_by (some y) none f true timer_fired = refl
newest_by p none f t write_done = refl
newest_by none (some x) f t write_done = refl
newest_by (some y) (some x) f t write_done = refl
newest_by p none f t write_failed = refl
newest_by none (some x) f t write_failed = refl
newest_by (some y) (some x) f t write_failed = refl

persist-IsTaken :
    (p w f : Option Text) (t : Bool) (e : PersistEvent)
    → IsTaken (make p w f t)
    → IsTaken (persist (make p w f t) e)
unfolding persist
persist-IsTaken p w f t (snapshot json) h = λ k. inl refl
persist-IsTaken p w f false timer_fired h = h
persist-IsTaken p (some x) f true timer_fired h = λ k. inr (λ e. cc)
persist-IsTaken none none f true timer_fired h = λ k. absurd (k refl)
persist-IsTaken (some y) none f true timer_fired h = λ k. inr (λ e. cc)
persist-IsTaken p none f t write_done h = h
persist-IsTaken none (some x) f t write_done h = λ k. absurd (k refl)
persist-IsTaken (some y) (some x) f t write_done h = λ k. inr (λ e. cc)
persist-IsTaken p none f t write_failed h = h
persist-IsTaken none (some x) f t write_failed h = λ k. inl refl
persist-IsTaken (some y) (some x) f t write_failed h = λ k. inl refl

latest-cons :
    (held : Option Text) (e : PersistEvent) (es : List PersistEvent)
    → latest held (e ∷ es) ≡ latest (latest held (e ∷ [])) es
unfolding latest
latest-cons held (snapshot json) es = refl
latest-cons held timer_fired es = refl
latest-cons held write_done es = refl
latest-cons held write_failed es = refl

persist_all-newest :
    (s : Persist) (es : List PersistEvent) → newest (persist_all s es) ≡ latest (newest s) es
unfolding persist_all latest
persist_all-newest s [] = refl
persist_all-newest s (e ∷ es) =
    persist_all-newest (persist s e) es
    ∙ ap (λ n. latest n es) (newest_by s.pending s.writing s.file s.timer e)
    ∙ sym (latest-cons (newest s) e es)

persist_all-IsTaken :
    (s : Persist) (es : List PersistEvent) → IsTaken s → IsTaken (persist_all s es)
unfolding persist_all
persist_all-IsTaken s [] h = h
persist_all-IsTaken s (e ∷ es) h =
    persist_all-IsTaken (persist s e) es (persist-IsTaken s.pending s.writing s.file s.timer e h)

file_of_rest : (s : Persist) → IsTaken s → s.timer ≡ false → s.writing ≡ none → newest s ≡ s.file
file_of_rest s h quiet idle = by_pending s.pending refl
  where
    by_pending : (p : Option Text) → s.pending ≡ p → newest s ≡ s.file
    by_pending none e = rw (e, idle) refl
    by_pending (some y) e = elim (h (λ k. cc)) [ inl t ↦ cc | inr w ↦ absurd (w idle) ]

-- No snapshot is lost: however snapshots, timers, finished and failed writes follow each other, a
-- pending text always has a timer or a running loop to take it, and the file holds the last
-- snapshot that was given, if no timer is armed and no write is in flight.
pub persist_all-latest :
    (held : Option Text) (es : List PersistEvent)
    → (persist_all (new_persist held) es).timer ≡ false
    → (persist_all (new_persist held) es).writing ≡ none
    → IsTaken (persist_all (new_persist held) es)
      × ((persist_all (new_persist held) es).file ≡ latest held es)
persist_all-latest held es quiet idle =
    let taken = persist_all-IsTaken (new_persist held) es (λ k. absurd (k refl)) in
    (
      taken,
      sym (file_of_rest (persist_all (new_persist held) es) taken quiet idle)
          ∙ persist_all-newest (new_persist held) es,
    )

abbrev pub IsResting : Persist → Type 0
IsResting s = (s.timer ≡ false) × (s.writing ≡ none) × (s.pending ≡ none)

abbrev pub good_writes : List PersistEvent
good_writes = write_done ∷ write_done ∷ timer_fired ∷ write_done ∷ []

rests_by :
    (p w f : Option Text) (t : Bool)
    → IsTaken (make p w f t)
    → IsResting (persist_all (make p w f t) good_writes)
      × ((persist_all (make p w f t) good_writes).file ≡ newest (make p w f t))
unfolding persist_all persist
rests_by none none f false h = ((refl, refl, refl), refl)
rests_by none none f true h = ((refl, refl, refl), refl)
rests_by (some y) none f true h = ((refl, refl, refl), refl)
rests_by (some y) none f false h = elim (h (λ k. cc)) [ inl t ↦ cc | inr w ↦ absurd (w refl) ]
rests_by none (some x) f false h = ((refl, refl, refl), refl)
rests_by none (some x) f true h = ((refl, refl, refl), refl)
rests_by (some y) (some x) f false h = ((refl, refl, refl), refl)
rests_by (some y) (some x) f true h = ((refl, refl, refl), refl)

-- After any events, writes that succeed bring the persistence to rest: at most two end the loop that
-- runs, one timer and one more write take what is left, and then the file holds the last snapshot.
pub persist_all-rests :
    (held : Option Text) (es : List PersistEvent)
    → let s = persist_all (persist_all (new_persist held) es) good_writes in
      IsResting s × (s.file ≡ latest held es)
persist_all-rests held es =
    let s = persist_all (new_persist held) es in
    let taken = persist_all-IsTaken (new_persist held) es (λ k. absurd (k refl)) in
    let (rest, file) = rests_by s.pending s.writing s.file s.timer taken in
    (rest, file ∙ persist_all-newest (new_persist held) es)
