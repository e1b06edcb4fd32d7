-- ===== src/FileStream/Finish.antt =====
-- When the stream ends, what it reports, and that it reports once.
use qcremote.Prelude.{
  ltb, leb, Bool-cases, ℕ, ◌+◌, ◌-◌, ◌≤◌, ◌<◌, ◌≡◌, refl, ◌↔◌, ◌⊎◌, inl, inr, Bool, true, false,
  ◌&&◌, none, some, List, [], ◌∷◌, arith,
}
use qcremote.FileStream.{
  Summary, FileStream, on_message, on_inflate_failed, check_timeout, is_listing_incomplete,
}
use qcremote.FileStream.History.{Event, message, failed, handle, handle_all}

-- The stream's end: a message came and the last is 5 s old, or the start is 30 s old.
abbrev pub Due : FileStream → ℕ → Type 0
Due s now =
    ((0 < s.message_count) × (s.last_message_at_ms + 5000 ≤ now)) ⊎ (s.started_at_ms + 30000 ≤ now)

abbrev pub report : FileStream → ℕ → Summary
report s now = record {
  message_count = s.message_count;
  compressed_count = s.compressed_count;
  failed_count = s.failed_count;
  total_wire_bytes = s.total_wire_bytes;
  total_inflated_bytes = s.total_inflated_bytes;
  max_wire_bytes = s.max_wire_bytes;
  max_inflated_bytes = s.max_inflated_bytes;
  elapsed_ms = now - s.started_at_ms;
  timed_out = leb (s.started_at_ms + 30000) now;
  dispatcher_dropped = 0;
  gzip_dropped = 0;
  reassembly_overflow_count = 0;
  reassembly_malformed_count = 0;
}

pub Due-finishes :
    (s : FileStream) (now : ℕ)
    → s.active ≡ true
    → Due s now
    → check_timeout s now ≡ (some (report s now), record s { active = false })
unfolding check_timeout
Due-finishes s now a (inl q) = ground arith
Due-finishes s now a (inr t) = ground arith

pub not-Due_waits : (s : FileStream) (now : ℕ) → ¬ Due s now → check_timeout s now ≡ (none, s)
unfolding check_timeout
not-Due_waits s now n =
    elim (Bool-cases (ltb 0 s.message_count && leb (s.last_message_at_ms + 5000) now)) [
      | inl q ↦ absurd (n (inl (ground arith)))
      | inr q ↦ elim (Bool-cases (leb (s.started_at_ms + 30000) now)) [
        | inl t ↦ absurd (n (inr (ground arith)))
        | inr t ↦ ground arith
      ]
    ]

pub Due-cases : (s : FileStream) (now : ℕ) → (Due s now) ⊎ (¬ Due s now)
Due-cases s now =
    elim (Bool-cases (ltb 0 s.message_count && leb (s.last_message_at_ms + 5000) now)) [
      | inl q ↦ inl (inl (ground arith))
      | inr q ↦ elim (Bool-cases (leb (s.started_at_ms + 30000) now)) [
        | inl t ↦ inl (inr (ground arith))
        | inr t ↦ inr (λ d. elim d [ inl p ↦ ground arith | inr p ↦ ground arith ])
      ]
    ]

pub inactive_ignores : (s : FileStream) (es : List Event) → s.active ≡ false → handle_all s es ≡ s
unfolding handle_all handle on_message on_inflate_failed
inactive_ignores s [] a = refl
inactive_ignores s (message now w i c ∷ es) a = simp a (inactive_ignores s es a)
inactive_ignores s (failed now w z ∷ es) a = simp a (inactive_ignores s es a)

pub inactive_waits : (s : FileStream) (now : ℕ) → s.active ≡ false → check_timeout s now ≡ (none, s)
unfolding check_timeout
inactive_waits s now a = simp a

reporting_stops :
    (s : FileStream) (now : ℕ) (r : Summary) (t : FileStream)
    → check_timeout s now ≡ (some r, t)
    → t.active ≡ false
unfolding check_timeout
reporting_stops s now r t e = ground arith

-- Once a check has reported, the stream stays as it is: messages and failed inflates change nothing,
-- and no later check reports again, until the next start.
pub reported_once :
    (s : FileStream) (now : ℕ) (r : Summary) (t : FileStream) (es : List Event) (later : ℕ)
    → check_timeout s now ≡ (some r, t)
    → (handle_all t es ≡ t) × (check_timeout (handle_all t es) later ≡ (none, t))
reported_once s now r t es later e =
    let off : t.active ≡ false = reporting_stops s now r t e in
    let same : handle_all t es ≡ t = inactive_ignores t es off in
    (same, rw same (inactive_waits t later off))

-- A listing passes for complete exactly when the stream went quiet in time, nothing of it failed,
-- was dropped, overflowed or was malformed, and the catalog had room for it.
pub is_listing_incomplete_lem :
    (r : Summary) (overflowed : Bool)
    → (is_listing_incomplete r overflowed ≡ false) ↔ (
        (r.timed_out ≡ false)
        × (r.failed_count ≡ 0)
        × (r.dispatcher_dropped ≡ 0)
        × (r.gzip_dropped ≡ 0)
        × (r.reassembly_overflow_count ≡ 0)
        × (r.reassembly_malformed_count ≡ 0)
        × (overflowed ≡ false))
unfolding is_listing_incomplete
is_listing_incomplete_lem r overflowed = (λ e. ground arith, λ h. ground arith)
