-- ===== src/Hid/Strays.antt =====
-- Reports that belong to no message, as the reassembler takes them.
use qcremote.Prelude.{
  le→ltb, length, is_empty, ℕ, ◌+◌, ◌≤◌, ◌<◌, ◌≡◌, refl, ◌∙◌, Bool, true, false, ◌&&◌, List, [],
  ◌∷◌, ◌++◌, arith,
}
use qcremote.Hid.Report.{first, last}
use qcremote.Hid.Chunker.{flag_of, reports}
use qcremote.Hid.Reassembler.{
  HidReassembler, in_progress, complete, malformed, cleared, store, feed, feed_all,
}
use qcremote.Hid.Framing.{feed_orphan, report_of, feed_first, feed_next}
use qcremote.Hid.RoundTrip.{feed_all-reports}

-- A message that is not empty and fits leaves its bytes in the buffer after Complete. A LAST report
-- with no FIRST before it is then taken for its continuation: the answer is Complete, not Malformed,
-- and the buffer is the old message with the stray bytes behind it, as long as both fit together.
pub stray_last_joins :
    (capacity id : ℕ) (m chunk : List ℕ) (r : HidReassembler)
    → 0 < length m
    → length m + length chunk ≤ capacity
    → length chunk ≤ 126
    → feed capacity (feed_all capacity r (reports m id)).1 (report_of id last chunk)
      ≡ (complete, record { buffer = m ++ chunk; overflowing = false; overflow_size = 0 })
unfolding flag_of
stray_last_joins capacity id m chunk r p fits small =
    let after : (feed_all capacity r (reports m id)).1
        ≡ record { buffer = m; overflowing = false; overflow_size = 0 } =
      rw (feed_all-reports capacity id m r, le→ltb capacity (length m) (omega arith)) refl in
    rw after (feed_next capacity held id chunk true small (kept m p) ∙ stored)
  where
    held : HidReassembler
    held = record { buffer = m; overflowing = false; overflow_size = 0 }

    kept : (xs : List ℕ) → 0 < length xs → (is_empty xs && true) ≡ false
    kept [] h = absurd (omega arith)
    kept (x ∷ xs) h = refl

    stored :
        store capacity held true chunk
        ≡ (complete, record { buffer = m ++ chunk; overflowing = false; overflow_size = 0 })
    stored = unfold store in rw (le→ltb capacity (length m + length chunk) fits) refl

-- A FIRST report that carries no byte is answered InProgress and then forgotten: the report that
-- follows it in the same message is answered Malformed, for every length up to 126 and both flags.
pub empty_first_is_lost :
    (capacity id : ℕ) (chunk : List ℕ) (is_last : Bool) (r : HidReassembler)
    → length chunk ≤ 126
    → feed_all capacity r (report_of id first [] ∷ report_of id (flag_of false is_last) chunk ∷ [])
      ≡ (in_progress ∷ malformed ∷ [], cleared)
unfolding feed_all flag_of
empty_first_is_lost capacity id chunk is_last r h =
    let started : feed capacity r (report_of id first []) ≡ (in_progress, cleared) =
      feed_first capacity r id [] false (omega arith)
      ∙ unfold store in rw (le→ltb capacity 0 (omega arith)) refl in
    rw (started, feed_orphan capacity cleared id chunk is_last h refl) refl
