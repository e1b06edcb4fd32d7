-- ===== src/FileStream/Ending.antt =====
-- QcFileStream.hpp: a whole stream, with its messages, failures and the heartbeat's checks in any order.
use qcremote.Prelude.{
  ℕ, ◌+◌, ◌≤◌, ◌≡◌, refl, sym, ap, ◌∙◌, inl, inr, false, Option, none, some, List, [], ◌∷◌, ◌++◌,
}
use qcremote.FileStream.{FileStream, Summary, check_timeout, start}
use qcremote.FileStream.History.{Event, handle, handle_all, handle_all-start, seen}
use qcremote.FileStream.Finish.{
  Due, Due-cases, Due-finishes, inactive_ignores, inactive_waits, not-Due_waits, report,
}

-- What comes: a message or a failed inflate, or a check of the heartbeat and when.
pub data StreamStep : Type 0 where
  event : Event → StreamStep
  check : ℕ → StreamStep

abbrev pub told : Option Summary → List Summary → List Summary
told none rs = rs
told (some r) rs = r ∷ rs

-- The stream after the steps, and what its checks reported, in order.
abbrev pub run_steps : FileStream → List StreamStep → List Summary × FileStream
run_steps s [] = ([], s)
run_steps s (event e ∷ steps) = run_steps (handle s e) steps
run_steps s (check now ∷ steps) = (
  told (check_timeout s now).0 (run_steps (check_timeout s now).1 steps).0,
  (run_steps (check_timeout s now).1 steps).1,
)

-- The events among the steps, behind `es`.
abbrev pub seen_with : List Event → List StreamStep → List Event
seen_with es [] = es
seen_with es (event e ∷ steps) = seen_with (es ++ e ∷ []) steps
seen_with es (check now ∷ steps) = seen_with es steps

-- No check among the steps comes when the stream that was started at `t0` and saw `es` before is due.
abbrev pub NoneDue : ℕ → List Event → List StreamStep → Type 0
NoneDue t0 es [] = Unit
NoneDue t0 es (event e ∷ steps) = NoneDue t0 (es ++ e ∷ []) steps
NoneDue t0 es (check now ∷ steps) = (¬ Due (seen t0 es) now) × NoneDue t0 es steps

-- What a stream that saw `es` before comes to: it goes on, or ends with the first check that comes when
-- it is due.
pub data Ends (t0 : ℕ) (es : List Event) (steps : List StreamStep)
    : List Summary × FileStream → Type 0 where
  still_open : NoneDue t0 es steps → Ends t0 es steps ([], seen t0 (seen_with es steps))
  closed :
      (before after : List StreamStep) (now : ℕ)
      → steps ≡ before ++ check now ∷ after
      → NoneDue t0 es before
      → Due (seen t0 (seen_with es before)) now
      → Ends t0 es steps (
        report (seen t0 (seen_with es before)) now ∷ [],
        record (seen t0 (seen_with es before)) { active = false },
      )

handle_all-append_one :
    (s : FileStream) (es : List Event) (e : Event)
    → handle_all s (es ++ e ∷ []) ≡ handle (handle_all s es) e
unfolding handle_all
handle_all-append_one s [] e = refl
handle_all-append_one s (f ∷ es) e = handle_all-append_one (handle s f) es e

handle-seen :
    (t0 : ℕ) (es : List Event) (e : Event) → handle (seen t0 es) e ≡ seen t0 (es ++ e ∷ [])
handle-seen t0 es e =
    ap (λ s. handle s e) (sym (handle_all-start (seen t0 []) t0 es))
    ∙ sym (handle_all-append_one (start (seen t0 []) t0) es e)
    ∙ handle_all-start (seen t0 []) t0 (es ++ e ∷ [])

nothing_more :
    (s : FileStream) (steps : List StreamStep) → s.active ≡ false → run_steps s steps ≡ ([], s)
unfolding handle_all
nothing_more s [] off = refl
nothing_more s (event e ∷ steps) off =
    rw (inactive_ignores s (e ∷ []) off) (nothing_more s steps off)
nothing_more s (check now ∷ steps) off =
    rw (inactive_waits s now off, nothing_more s steps off) refl

behind_event :
    {t0 : ℕ} {es : List Event} {steps : List StreamStep} (e : Event) {r : List Summary × FileStream}
    → Ends t0 (es ++ e ∷ []) steps r
    → Ends t0 es (event e ∷ steps) r
behind_event e (still_open none_due) = still_open none_due
behind_event e (closed before after now at none_due due) =
    closed (event e ∷ before) after now (ap (λ t. event e ∷ t) at) none_due due

behind_check :
    {t0 : ℕ} {es : List Event} {steps : List StreamStep} (now : ℕ) {r : List Summary × FileStream}
    → ¬ Due (seen t0 es) now
    → Ends t0 es steps r
    → Ends t0 es (check now ∷ steps) r
behind_check now early (still_open none_due) = still_open (early, none_due)
behind_check now early (closed before after later at none_due due) =
    closed (check now ∷ before) after later (ap (λ t. check now ∷ t) at) (early, none_due) due

seen-Ends :
    (t0 : ℕ) (es : List Event) (steps : List StreamStep)
    → Ends t0 es steps (run_steps (seen t0 es) steps)
seen-Ends t0 es [] = still_open tt
seen-Ends t0 es (event e ∷ steps) =
    rw (handle-seen t0 es e) (behind_event e (seen-Ends t0 (es ++ e ∷ []) steps))
seen-Ends t0 es (check now ∷ steps) = elim (Due-cases (seen t0 es) now) [
  | inl due ↦
      rw
        (
          Due-finishes (seen t0 es) now refl due,
          nothing_more (record (seen t0 es) { active = false }) steps refl,
        )
        (closed [] steps now refl tt due)
  | inr early ↦
      rw (not-Due_waits (seen t0 es) now early) (behind_check now early (seen-Ends t0 es steps))
]

-- A stream that is started, whatever it held before, and then sees messages, failed inflates and checks
-- in any order: it ends with the first check at which the last of at least one message is 5 s old or the
-- start 30 s. That check alone reports, with the counts of all the events up to it, and what comes
-- after it changes nothing. If there is no such check, none reports, and the stream goes on with the
-- counts of all the events.
pub run_steps-Ends :
    (s : FileStream) (t0 : ℕ) (steps : List StreamStep)
    → Ends t0 [] steps (run_steps (start s t0) steps)
unfolding handle_all
run_steps-Ends s t0 steps = rw (handle_all-start s t0 []) (seen-Ends t0 [] steps)

not-Due_at :
    (t0 now : ℕ) (es : List Event) (before after : List StreamStep)
    → NoneDue t0 es (before ++ check now ∷ after)
    → ¬ Due (seen t0 (seen_with es before)) now
not-Due_at t0 now es [] after h = h.0
not-Due_at t0 now es (event e ∷ before) after h = not-Due_at t0 now (es ++ e ∷ []) before after h
not-Due_at t0 now es (check t ∷ before) after h = not-Due_at t0 now es before after h.1

started_at : (t0 : ℕ) (es : List Event) → (seen t0 es).started_at_ms ≡ t0
started_at t0 es = refl

-- A stream that is started at `t0` is over once a check has come 30 s later or more, whatever messages,
-- failures and checks come before and behind that check: exactly one check reports in all, and the
-- stream is not active at the end.
pub overall_timeout :
    (s : FileStream) (t0 now : ℕ) (before after : List StreamStep)
    → t0 + 30000 ≤ now
    → (r : Summary) × ((run_steps (start s t0) (before ++ check now ∷ after)).0 ≡ r ∷ [])
      × ((run_steps (start s t0) (before ++ check now ∷ after)).1.active ≡ false)
overall_timeout s t0 now before after h = over (run_steps-Ends s t0 (before ++ check now ∷ after))
  where
    over :
        {x : List Summary × FileStream}
        → Ends t0 [] (before ++ check now ∷ after) x
        → (r : Summary) × (x.0 ≡ r ∷ []) × (x.1.active ≡ false)
    over (still_open none_due) = absurd (not-Due_at t0 now [] before after none_due (inr h))
    over (closed b a t at none_due due) = (report (seen t0 (seen_with [] b)) t, refl, refl)
