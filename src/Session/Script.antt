-- ===== src/Session/Script.antt =====
-- The messages of a handshake, in order, whatever the link does; and the reports of a message.
use qcremote.Prelude.{
  if◌then◌else◌, le→ltb, Bool-cases, length, take, replicate, ℕ, zero, suc, ◌+◌, ◌-◌, ◌/◌, ◌≤◌, ◌<◌,
  ◌≡◌, refl, ap, ◌∙◌, ◌⊎◌, inl, inr, Bool, true, false, ◌&&◌, Option, List, [], ◌∷◌, ◌++◌, arith,
}
use qcremote.Prelude.Text.{EtlString}
use qcremote.Hid.Chunker.{reports}
use qcremote.Hid.Reassembler.{HidReassembler, in_progress, complete, feed_all}
use qcremote.Hid.RoundTrip.{feed_all-reports}
use qcremote.Messages.Requests.{
  encode_reset_comms_buffers, encode_version_read, encode_version_update, encode_connection,
  encode_file_read, encode_state_read, post_connect_state_read_commands,
}
use qcremote.Messages.Replies.{VersionReply}
use qcremote.Session.Handshake.{
  SendReturn, ok, broken_pipe, send_error, is_error, send_reports, send_message, Progress,
  session_id, mirrored_version, next_id, start_file_stream, send, send_next, after_version_update,
  after_version_read, after_reset, run_handshake,
}

-- The four messages that the handshake depends on.
abbrev pub opening : List ℕ → ℕ → List (List ℕ)
opening version counter =
    encode_reset_comms_buffers [] session_id
    ∷ encode_version_read []
    ∷ encode_version_update [] version (next_id counter)
    ∷ encode_connection [] true (next_id (next_id counter))
    ∷ []

abbrev pub state_reads : ℕ → List ℕ → List (List ℕ)
state_reads counter [] = []
state_reads counter (command ∷ commands) =
    encode_state_read [] command (next_id counter) ∷ state_reads (next_id counter) commands

abbrev pub counter_after : ℕ → List ℕ → ℕ
counter_after counter [] = counter
counter_after counter (command ∷ commands) = counter_after (next_id counter) commands

-- The messages that follow: the state READs and the File READ.
abbrev pub following : ℕ → List (List ℕ)
following counter =
    state_reads counter post_connect_state_read_commands
    ++ encode_file_read [] (next_id (counter_after counter post_connect_state_read_commands)) ∷ []

-- Messages up to the first that the link refuses, that one included.
abbrev pub attempts : (ℕ → Bool) → ℕ → List (List ℕ) → List (List ℕ)
attempts link n [] = []
attempts link n (m ∷ ms) = let rest = attempts link (n + 1) ms in m ∷ (if link n then rest else [])

abbrev pub opened : (ℕ → Bool) → Bool
opened link = link 0 && link 1 && link 2 && link 3

abbrev pub fresh : ℕ → Progress
fresh counter = record { sent = []; request_id_counter = counter; stream_started = false }

-- The handshake gives sendMessage the opening's messages, in order, up to the first that fails. If
-- none of these four fails, the twelve state READs and the File READ follow, whether they are sent or
-- not, the request ids count on from one message to the next, and the File stream is started;
-- otherwise nothing follows and it is not.
pub run_handshake_lem :
    (link : ℕ → Bool) (etl : EtlString) (got_reply : Bool) (pending : Option VersionReply)
    (counter : ℕ)
    → ((run_handshake link etl got_reply pending (fresh counter)).sent
        ≡ attempts link 0 (opening (mirrored_version etl got_reply pending) counter)
          ++ (if opened link then following (next_id (next_id counter)) else []))
      × ((run_handshake link etl got_reply pending (fresh counter)).stream_started ≡ opened link)
unfolding run_handshake send after_reset after_version_read after_version_update send_next
run_handshake_lem link etl got_reply pending counter = elim (Bool-cases (link 0)) [
  | inr f0 ↦ simp f0 (refl, refl)
  | inl t0 ↦ elim (Bool-cases (link 1)) [
    | inr f1 ↦ simp (t0, f1) (refl, refl)
    | inl t1 ↦ elim (Bool-cases (link 2)) [
      | inr f2 ↦ simp (t0, t1, f2) (refl, refl)
      | inl t2 ↦ elim (Bool-cases (link 3)) [
        | inr f3 ↦ simp (t0, t1, t2, f3) (refl, refl)
        | inl t3 ↦ simp (t0, t1, t2, t3) (unfold start_file_stream in (refl, refl))
      ]
    ]
  ]
]

-- No error, from the report `n` on for `count` reports.
abbrev pub AllFine : (ℕ → SendReturn) → ℕ → ℕ → Type 0
AllFine usb n zero = Unit
AllFine usb n (suc count) = (is_error (usb n) ≡ false) × AllFine usb (n + 1) count

-- The first error is that of the report `k` behind `n`.
abbrev pub FirstError : (ℕ → SendReturn) → ℕ → ℕ → Type 0
FirstError usb n k = AllFine usb n k × (usb (n + k) ≡ send_error)

error_is : (x : SendReturn) → is_error x ≡ true → x ≡ send_error
error_is ok e = cc
error_is broken_pipe e = cc
error_is send_error e = refl

send_reports_lem :
    (usb : ℕ → SendReturn) (n : ℕ) (rs : List (List ℕ))
    → (AllFine usb n (length rs) × (send_reports usb n rs ≡ (true, rs)))
      ⊎ ((k : ℕ) × (k < length rs)
          × FirstError usb n k
          × (send_reports usb n rs ≡ (false, take (suc k) rs)))
unfolding send_reports
send_reports_lem usb n [] = inl (tt, refl)
send_reports_lem usb n (r ∷ rs) = elim (Bool-cases (is_error (usb n))) [
  | inl bad ↦
      inr (0, omega arith, (tt, same_at n 0 (omega arith) ∙ error_is (usb n) bad), rw bad refl)
  | inr fine ↦ elim (send_reports_lem usb (n + 1) rs) [
    | inl (all, e) ↦ inl ((fine, all), rw (fine, e) refl)
    | inr (k, small, (before, bad), e) ↦ inr (
      suc k,
      omega arith,
      ((fine, before), same_at (n + 1 + k) (suc k) (omega arith) ∙ bad),
      rw (fine, e) refl,
    )
  ]
]
  where
    same_at : (i j : ℕ) → n + j ≡ i → usb (n + j) ≡ usb i
    same_at i j e = ap usb e

-- If sendReport returns no error but -EPIPE for any report of the message, sendMessage answers true, and
-- a reassembler with room for the message, in whatever state, ends with it complete by the reports that
-- were passed. Otherwise it answers false, and the reports passed are those up to the first such error.
pub send_message_lem :
    (usb : ℕ → SendReturn) (m : List ℕ) (capacity : ℕ) (r : HidReassembler)
    → length m ≤ capacity
    → (AllFine usb 0 (length (reports m 2))
        × ((send_message usb m).0 ≡ true)
        × (feed_all capacity r (send_message usb m).1 ≡ (
          replicate ((length m - 1) / 126) in_progress ++ complete ∷ [],
          record { buffer = m; overflowing = false; overflow_size = 0 },
        )))
      ⊎ ((k : ℕ) × (k < length (reports m 2))
          × FirstError usb 0 k
          × (send_message usb m ≡ (false, take (suc k) (reports m 2))))
unfolding send_message
send_message_lem usb m capacity r h = elim (send_reports_lem usb 0 (reports m 2)) [
  | inl (fine, sent) ↦ inl (
    fine,
    ap (λ x. x.0) sent,
    ap (λ x. feed_all capacity r x.1) sent
        ∙ feed_all-reports capacity 2 m r
        ∙ rw (le→ltb capacity (length m) h) refl,
  )
  | inr broken ↦ inr broken
]
