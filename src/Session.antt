-- ===== src/Session.antt =====
-- QcSession.hpp: the messages of the device, from the `usbh` thread to the stream, the catalog and the
-- tally. The mutexes make each operation here one step; times (`k_uptime_get`) are arguments.
pub mod Workers
pub mod Stream
pub mod Bridge
pub mod Transfers
pub mod Shift
pub mod Handshake
pub mod Script
pub mod Races
pub mod Arrivals
pub mod Device
pub mod Heartbeat
pub mod Published
pub mod Reports
pub mod Settle
pub mod Routing
pub mod Listing
pub mod Samples
mod Tests
mod DeviceTests
use qcremote.Prelude.{
  ltb, ◌==◌, if◌then◌else◌, length, ℕ, ◌+◌, ◌%◌, ◌^◌, Bool, true, ◌&&◌, ◌||◌, Option, none, some,
  List,
}
use qcremote.Prelude.Text.{EtlString}
use qcremote.Messages.Requests.{
  command_version, command_file, command_model_repo, command_module_stats,
}
use qcremote.Messages.Replies.{VersionReply, decode_version_reply}
use qcremote.Messages.File.{decode_file}
use qcremote.Message.{DecodedMessage, decode_message}
use qcremote.Mailbox.{Item, Mailbox, empty_mailbox, submit}
use qcremote.Catalog.{PresetCatalog, add_presets}
use qcremote.FileStream.{FileStream, on_message, on_inflate_failed}
use qcremote.Catalog.Snapshot.{QcCatalogSnapshot}
use qcremote.Tally.{TallyEntry, QcMessageTally, record_command}
use qcremote.Gzip.{has_magic, max_compressed_input_size}

-- QcHidBridge.hpp's kReassemblyCapacity and QcDispatcher.hpp's kMailboxCapacity.
abbrev pub message_capacity : ℕ
message_capacity = 131072

-- `version_reply_sem` is a semaphore whose limit is 1; `post_stream_logged_entries` are the first
-- `postStreamLoggedEntryCount_` slots.
pub record QcSession : Type 0 where
  pub dispatcher : Mailbox
  pub gzip_inflater : Mailbox
  pub ignored_large_command_count : ℕ
  pub reassembly_overflow_count : ℕ
  pub reassembly_overflow_max_size : ℕ
  pub reassembly_malformed_count : ℕ
  pub total_in_transfers : ℕ
  pub waiting_for_version_reply : Bool
  pub version_reply_sem : Bool
  pub pending_version_reply : Option VersionReply
  pub file_stream : FileStream
  pub preset_catalog : PresetCatalog
  pub post_stream_tally : QcMessageTally
  pub dispatcher_dropped_at_start : ℕ
  pub gzip_dropped_at_start : ℕ
  pub reassembly_overflow_at_start : ℕ
  pub reassembly_malformed_at_start : ℕ
  pub total_in_transfers_at_start : ℕ
  pub post_stream_logged_entries : List TallyEntry
  pub post_stream_logged_other_count : ℕ
  pub post_stream_last_logged_at_ms : ℕ
  pub catalog_snapshot : QcCatalogSnapshot

-- `fetch_add(1)` on a 32-bit counter.
abbrev pub counted : ℕ → ℕ
counted n = (n + 1) % 2 ^ 32

abbrev pub is_ignored_command : ℕ → Bool
is_ignored_command command = command == command_model_repo || command == command_module_stats

unfoldable pub submit_compressed : QcSession → Item → QcSession
submit_compressed s i = record s {
  gzip_inflater = (submit max_compressed_input_size s.gzip_inflater i).1;
}

unfoldable pub submit_plain : QcSession → Item → QcSession
submit_plain s i = record s { dispatcher = (submit message_capacity s.dispatcher i).1 }

unfoldable pub handle_decoded : QcSession → ℕ → DecodedMessage → QcSession
handle_decoded s size d =
    let i : Item = record { command = d.command; bytes = d.proto_bytes; wire_size = size } in
    if is_ignored_command d.command
    then record s { ignored_large_command_count = counted s.ignored_large_command_count }
    else if has_magic d.proto_bytes
    then submit_compressed s i
    else submit_plain s i

unfoldable pub handle_message : QcSession → List ℕ → QcSession
handle_message s message = elim (decode_message message) [
  | none ↦ s
  | some d ↦ handle_decoded s (length message) d
]

unfoldable pub record_reassembly_overflow : QcSession → ℕ → QcSession
record_reassembly_overflow s true_size = record s {
  reassembly_overflow_count = counted s.reassembly_overflow_count;
  reassembly_overflow_max_size =
      if ltb s.reassembly_overflow_max_size true_size
      then true_size % 2 ^ 32
      else s.reassembly_overflow_max_size;
}

unfoldable pub record_reassembly_malformed : QcSession → QcSession
record_reassembly_malformed s = record s {
  reassembly_malformed_count = counted s.reassembly_malformed_count;
}

unfoldable pub record_in_transfer : QcSession → QcSession
record_in_transfer s = record s { total_in_transfers = counted s.total_in_transfers }

unfoldable pub take_version_reply : QcSession → ℕ → Option VersionReply → QcSession
take_version_reply s command reply =
    if command == command_version && s.waiting_for_version_reply
    then record s { pending_version_reply = reply; version_reply_sem = true }
    else s

unfoldable pub tally : QcSession → ℕ → QcSession
tally s command = record s { post_stream_tally = record_command command s.post_stream_tally }

module _ (etl : EtlString) where
  -- The block under `fileStreamMutex_` of onMessage, behind the tally.
  unfoldable pub stream_message : QcSession → ℕ → ℕ → List ℕ → ℕ → ℕ → Bool → QcSession
  stream_message s now command proto_bytes wire_size inflated_size compressed =
      if command == command_file && s.file_stream.active
      then record s {
        file_stream = on_message s.file_stream now wire_size inflated_size compressed;
        preset_catalog = add_presets etl s.preset_catalog (decode_file proto_bytes).1;
      }
      else s

  -- QcSession::onMessage, at the time `now`.
  unfoldable pub session_on_message : QcSession → ℕ → ℕ → List ℕ → ℕ → ℕ → Bool → QcSession
  session_on_message s now command proto_bytes wire_size inflated_size compressed =
      stream_message
        (tally (take_version_reply s command (decode_version_reply etl proto_bytes)) command) now
        command proto_bytes wire_size inflated_size compressed

unfoldable pub stream_failure : QcSession → ℕ → ℕ → ℕ → Option ℕ → QcSession
stream_failure s now command wire_size advertised_size =
    if command == command_file && s.file_stream.active
    then record s { file_stream = on_inflate_failed s.file_stream now wire_size advertised_size }
    else s

-- QcSession::onInflateFailed; its `reason` is for the log.
unfoldable pub session_on_inflate_failed : QcSession → ℕ → ℕ → ℕ → Option ℕ → QcSession
session_on_inflate_failed s now command wire_size advertised_size =
    stream_failure (tally s command) now command wire_size advertised_size
