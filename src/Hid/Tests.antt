-- ===== src/Hid/Tests.antt =====
-- Runs of the chunker and the reassembler, and the theorems at concrete inputs.
use qcremote.Prelude.{length, replicate, ℕ, ◌≡◌, refl, false, List, [], ◌∷◌, arith}
use qcremote.Hid.Report.{last}
use qcremote.Hid.Chunker.{reports}
use qcremote.Hid.Reassembler.{
  HidReassembler, in_progress, complete, overflow, cleared, feed, feed_all,
}
use qcremote.Hid.Framing.{report_of}
use qcremote.Hid.RoundTrip.{holding, feed_all-reports}
use qcremote.Hid.Strays.{stray_last_joins}

abbrev short : List ℕ
short = 7 ∷ 8 ∷ 9 ∷ []

-- tests/hid_framing: 300 bytes go in three reports.
length-reports_300 : length (reports (replicate 300 5) 2) ≡ 3
unfolding reports
length-reports_300 = refl

reports_empty : length (reports [] 2) ≡ 1
unfolding reports
reports_empty = refl

abbrev pending : HidReassembler
pending = record { buffer = 1 ∷ []; overflowing = false; overflow_size = 0 }

feed_all-reports_example :
    feed_all 200 pending (reports (replicate 300 5) 2)
    ≡ (in_progress ∷ in_progress ∷ overflow ∷ [], holding 200 (replicate 300 5))
feed_all-reports_example = feed_all-reports 200 2 (replicate 300 5) pending

stray_last_joins_example :
    feed 10 (feed_all 10 cleared (reports short 1)).1 (report_of 1 last (4 ∷ []))
    ≡ (complete, record { buffer = 7 ∷ 8 ∷ 9 ∷ 4 ∷ []; overflowing = false; overflow_size = 0 })
stray_last_joins_example =
    stray_last_joins 10 1 short (4 ∷ []) cleared (omega arith) (omega arith) (omega arith)
