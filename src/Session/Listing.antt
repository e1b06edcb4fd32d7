-- ===== src/Session/Listing.antt =====
-- What the heartbeat publishes of the tally.
use qcremote.Prelude.{
  leb, lt→leb, ==_self, length, drop, is_empty, ℕ, zero, suc, ◌+◌, ◌<◌, ◌≡◌, refl, ap, Bool, true,
  false, none, some, List, [], ◌∷◌, arith,
}
use qcremote.Tally.{TallyEntry}
use qcremote.Session.{QcSession}
use qcremote.Session.Stream.{changed_entries, mark_logged, report_change, check_tally}

changed-not_due : (ls es : List TallyEntry) → changed_entries false ls es ≡ drop (length ls) es
unfolding changed_entries
changed-not_due [] [] = refl
changed-not_due (l ∷ ls) [] = refl
changed-not_due [] (e ∷ es) = ap (λ t. e ∷ t) (changed-not_due [] es)
changed-not_due (l ∷ ls) (e ∷ es) = ground (arith, changed-not_due ls es)

changed-same : (due : Bool) (es : List TallyEntry) → changed_entries due es es ≡ []
unfolding changed_entries
changed-same due [] = refl
changed-same due (e ∷ es) = rw (==_self e.count) (changed-same due es)

abbrev is_due : QcSession → ℕ → Bool
is_due s now = leb (s.post_stream_last_logged_at_ms + 60000) now

nothing_new :
    (s : QcSession) (now later : ℕ)
    → check_tally (mark_logged s now) later ≡ (none, mark_logged s now)
unfolding check_tally mark_logged report_change
nothing_new s now later =
    rw
      (
        ==_self s.post_stream_tally.other_count,
        changed-same (leb (now + 60000) later) s.post_stream_tally.entries,
      )
      (ground arith)

not_empty : (n : ℕ) (es : List TallyEntry) → n < length es → is_empty (drop n es) ≡ false
not_empty zero [] h = absurd (omega arith)
not_empty zero (e ∷ es) h = refl
not_empty (suc n) [] h = absurd (omega arith)
not_empty (suc n) (e ∷ es) h = not_empty n es (omega arith)

-- Within 60 seconds of the last report, a heartbeat that finds new commands in the tally reports these
-- alone, and takes the counts of all the others for reported: a later heartbeat, at whatever time,
-- reports nothing of them as long as the tally stands.
pub bumps_forgotten :
    (s : QcSession) (now later : ℕ)
    → s.post_stream_tally.active ≡ true
    → now < s.post_stream_last_logged_at_ms + 60000
    → length s.post_stream_logged_entries < length s.post_stream_tally.entries
    → (check_tally s now ≡ (
      some (record {
        entries = drop (length s.post_stream_logged_entries) s.post_stream_tally.entries;
        other_count = 0;
      }),
      mark_logged s now,
    ))
      × (check_tally (mark_logged s now) later ≡ (none, mark_logged s now))
bumps_forgotten s now later active early more = (
  unfold check_tally report_change in
      simp
        (
          active,
          lt→leb (s.post_stream_last_logged_at_ms + 60000) now early,
          changed-not_due s.post_stream_logged_entries s.post_stream_tally.entries,
          not_empty (length s.post_stream_logged_entries) s.post_stream_tally.entries more,
        )
        (ground arith),
  nothing_new s now later,
)
