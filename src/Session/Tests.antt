-- ===== src/Session/Tests.antt =====
-- The session's theorems at concrete inputs.
use qcremote.Prelude.{
  ◌==◌, if◌then◌else◌, length, take, replicate, ℕ, zero, suc, ◌+◌, ◌<◌, ◌≡◌, refl, ◌⊎◌, Bool, true,
  false, not, none, some, List, [], ◌∷◌, ◌++◌, arith,
}
use qcremote.Session.Samples.{entry, session, long_message, file_bytes}
use qcremote.Prelude.Text.{truncating}
use qcremote.Hid.Chunker.{reports}
use qcremote.Hid.Reassembler.{in_progress, complete, cleared, feed, feed_all}
use qcremote.Gzip.{has_magic}
use qcremote.Session.{message_capacity, record_in_transfer}
use qcremote.Session.Bridge.{on_status, on_report_in, receive}
use qcremote.Session.Transfers.{aligned, kept}
use qcremote.Session.Shift.{split_transfers, out_of_step}
use qcremote.Session.Stream.{mark_logged, check_tally}
use qcremote.Session.Listing.{bumps_forgotten}
use qcremote.Session.Handshake.{
  SendReturn, ok, broken_pipe, send_error, send_message, mirrored_version, run_handshake,
}
use qcremote.Session.Script.{
  opening, attempts, fresh, run_handshake_lem, send_message_lem, AllFine, FirstError,
}
use qcremote.Session.Settle.{Poll, settle, FirstDue, settle_ends}

out_of_step_example :
    ((front : List ℕ)
      → length front ≡ 128
      → on_report_in (kept (9 ∷ []) cleared session) front
        ≡ on_status
            (aligned cleared (record_in_transfer session))
            (feed message_capacity cleared (9 ∷ front)))
    × ((receive
          (kept (9 ∷ []) cleared session)
          (split_transfers ((replicate 128 1, 7) ∷ []))).partial_report
        ≡ 7 ∷ [])
out_of_step_example = out_of_step cleared session 9 ((replicate 128 1, 7) ∷ []) (refl, tt)

plain_file : has_magic file_bytes ≡ false
unfolding has_magic
plain_file = refl

bumps_forgotten_example :
    (check_tally session 2000
      ≡ (some (record { entries = entry 15 1 ∷ []; other_count = 0 }), mark_logged session 2000))
    × (check_tally (mark_logged session 2000) 90000 ≡ (none, mark_logged session 2000))
bumps_forgotten_example = bumps_forgotten session 2000 90000 refl (omega arith) (omega arith)

-- A link that loses the third message.
abbrev link : ℕ → Bool
link n = not (n == 2)

run_handshake_lem_example :
    ((run_handshake link truncating false none (fresh 0)).sent
      ≡ attempts link 0 (opening (mirrored_version truncating false none) 0) ++ [])
    × ((run_handshake link truncating false none (fresh 0)).stream_started ≡ false)
run_handshake_lem_example = run_handshake_lem link truncating false none 0

-- The second report meets the harmless error, the third another one.
abbrev usb : ℕ → SendReturn
usb n = if n == 1 then broken_pipe else if n == 2 then send_error else ok

send_message_lem_example :
    (AllFine usb 0 (length (reports long_message 2))
      × ((send_message usb long_message).0 ≡ true)
      × (feed_all 400 cleared (send_message usb long_message).1 ≡ (
        in_progress ∷ in_progress ∷ complete ∷ [],
        record { buffer = long_message; overflowing = false; overflow_size = 0 },
      )))
    ⊎ ((k : ℕ) × (k < length (reports long_message 2))
        × FirstError usb 0 k
        × (send_message usb long_message ≡ (false, take (suc k) (reports long_message 2))))
send_message_lem_example = send_message_lem usb long_message 400 cleared (omega arith)

abbrev polls_from : ℕ → ℕ → List Poll
polls_from zero time = []
polls_from (suc n) time = record { elapsed = time; transfers = time } ∷ polls_from n (time + 200)

settle_ends_example :
    (p : Poll) × (settle 0 false (polls_from 30 200) ≡ some p)
    × FirstDue 0 false (polls_from 30 200) p
settle_ends_example = settle_ends 0 (polls_from 30 200) (omega arith) (omega arith)
