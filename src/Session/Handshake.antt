-- ===== src/Session/Handshake.antt =====
-- runHandshake and sendMessage (QcSession.hpp). What the USB link answers is an argument.
use qcremote.Prelude.{
  if◌then◌else◌, length, is_empty, ℕ, ◌+◌, ◌%◌, ◌^◌, Bool, true, false, not, ◌&&◌, Option, none,
  some, List, [], ◌∷◌, ◌++◌,
}
use qcremote.Prelude.Text.{EtlString, codes}
use qcremote.Hid.Chunker.{reports}
use qcremote.Messages.Requests.{
  encode_reset_comms_buffers, encode_version_read, encode_version_update, encode_connection,
  encode_file_read, encode_state_read, post_connect_state_read_commands,
}
use qcremote.Messages.Replies.{VersionReply}

-- What UsbHostClass::sendReport returns: 0, -EPIPE, or another error.
pub data SendReturn : Type 0 where
  ok broken_pipe send_error : SendReturn

abbrev pub is_error : SendReturn → Bool
is_error send_error = true
is_error _ = false

-- The loop of `sendMessage` over the chunker's reports: the answer, and the reports that were passed to
-- sendReport. `usb` is what it returns for the report `n`.
unfoldable pub send_reports : (ℕ → SendReturn) → ℕ → List (List ℕ) → Bool × List (List ℕ)
send_reports usb n [] = (true, [])
send_reports usb n (r ∷ rs) =
    let (sent, passed) = send_reports usb (n + 1) rs in
    if is_error (usb n) then (false, r ∷ []) else (sent, r ∷ passed)

abbrev pub report_id_host_to_qc : ℕ
report_id_host_to_qc = 2

unfoldable pub send_message : (ℕ → SendReturn) → List ℕ → Bool × List (List ℕ)
send_message usb message = send_reports usb 0 (reports message report_id_host_to_qc)

-- What a handshake has done: the messages given to sendMessage, in order, the counter of request ids
-- and whether the File stream was started.
pub record Progress : Type 0 where
  pub sent : List (List ℕ)
  pub request_id_counter : ℕ
  pub stream_started : Bool

abbrev pub session_id : List ℕ
session_id = codes "qcremote-firmware-0000000000000"

abbrev pub fallback_firmware_version : List ℕ
fallback_firmware_version = codes "4.1.0"

unfoldable pub mirrored_version : EtlString → Bool → Option VersionReply → List ℕ
mirrored_version etl got_reply none = etl.assign 40 fallback_firmware_version
mirrored_version etl got_reply (some reply) =
    if got_reply && not (is_empty reply.zenos_git_hash)
    then etl.assign 40 reply.zenos_git_hash
    else if got_reply && not (is_empty reply.app_fw_version)
    then etl.assign 40 reply.app_fw_version
    else etl.assign 40 fallback_firmware_version

-- `nextRequestId` on a 64-bit counter.
abbrev pub next_id : ℕ → ℕ
next_id counter = (counter + 1) % 2 ^ 64

unfoldable pub start_file_stream : Progress → Progress
start_file_stream p = record p { stream_started = true }

-- `link n` is the answer of sendMessage for the message `n` of the handshake.
module _ (link : ℕ → Bool) where
  unfoldable pub send : Progress → List ℕ → Bool × Progress
  send p message = (link (length p.sent), record p { sent = p.sent ++ message ∷ [] })

  -- With a request id.
  unfoldable pub send_next : Progress → (ℕ → List ℕ) → Bool × Progress
  unfolding send
  send_next p message =
      let id = next_id p.request_id_counter in
      send (record p { request_id_counter = id }) (message id)

  -- A send that fails stops nothing.
  unfoldable pub send_state_reads : Progress → List ℕ → Progress
  unfolding send_next
  send_state_reads p [] = p
  send_state_reads p (command ∷ commands) =
      send_state_reads (send_next p (λ id. encode_state_read [] command id)).1 commands

  -- From the state READs on. waitForInTrafficToSettle, which sends nothing, is a module of its own.
  unfoldable pub after_connection : Bool × Progress → Progress
  unfolding send_state_reads send_next
  after_connection (false, p) = p
  after_connection (true, p) =
      let read = send_state_reads p post_connect_state_read_commands in
      (send_next (start_file_stream read) (λ id. encode_file_read [] id)).1

  unfoldable pub after_version_update : Bool × Progress → Progress
  unfolding after_connection send_next
  after_version_update (false, p) = p
  after_version_update (true, p) =
      after_connection (send_next p (λ id. encode_connection [] true id))

  unfoldable pub after_version_read : List ℕ → Bool × Progress → Progress
  unfolding after_version_update send_next
  after_version_read version (false, p) = p
  after_version_read version (true, p) =
      after_version_update (send_next p (λ id. encode_version_update [] version id))

  unfoldable pub after_reset : List ℕ → Bool × Progress → Progress
  unfolding after_version_read send
  after_reset version (false, p) = p
  after_reset version (true, p) = after_version_read version (send p (encode_version_read []))

  -- `got_reply` and `pending` are what the wait for the Version reply found.
  unfoldable pub run_handshake : EtlString → Bool → Option VersionReply → Progress → Progress
  unfolding after_reset send
  run_handshake etl got_reply pending p =
      after_reset (mirrored_version etl got_reply pending)
        (send p (encode_reset_comms_buffers [] session_id))
