-- ===== src/Session/Samples.antt =====
-- A session to run the code on.
use qcremote.Prelude.{replicate, ℕ, true, false, none, List, [], ◌∷◌}
use qcremote.Mailbox.{empty_mailbox}
use qcremote.Catalog.{PresetCatalog}
use qcremote.Catalog.Snapshot.{blank_snapshot}
use qcremote.FileStream.{FileStream}
use qcremote.Tally.{TallyEntry}
use qcremote.Session.{QcSession}

abbrev pub stream : FileStream
stream = record {
  active = true;
  message_count = 1;
  compressed_count = 0;
  failed_count = 0;
  total_wire_bytes = 40;
  total_inflated_bytes = 32;
  max_wire_bytes = 40;
  max_inflated_bytes = 32;
  started_at_ms = 100;
  last_message_at_ms = 200;
}

abbrev pub catalog : PresetCatalog
catalog = record {
  folders = [];
  preset_count = 0;
  folder_overflow_count = 0;
  preset_overflow_count = 0;
  generation = 1;
}

abbrev pub entry : ℕ → ℕ → TallyEntry
entry command count = record { command = command; count = count }

abbrev pub session : QcSession
session = record {
  dispatcher = empty_mailbox;
  gzip_inflater = empty_mailbox;
  ignored_large_command_count = 0;
  reassembly_overflow_count = 3;
  reassembly_overflow_max_size = 140000;
  reassembly_malformed_count = 1;
  total_in_transfers = 7;
  waiting_for_version_reply = false;
  version_reply_sem = false;
  pending_version_reply = none;
  file_stream = stream;
  preset_catalog = catalog;
  post_stream_tally = record {
    active = true;
    entries = entry 33 9 ∷ entry 15 1 ∷ [];
    other_count = 0;
  };
  dispatcher_dropped_at_start = 0;
  gzip_dropped_at_start = 0;
  reassembly_overflow_at_start = 3;
  reassembly_malformed_at_start = 1;
  total_in_transfers_at_start = 2;
  post_stream_logged_entries = entry 33 4 ∷ [];
  post_stream_logged_other_count = 0;
  post_stream_last_logged_at_ms = 1000;
  catalog_snapshot = blank_snapshot;
}

abbrev pub long_message : List ℕ
long_message = replicate 300 5

abbrev pub file_bytes : List ℕ
file_bytes = 24 ∷ 0 ∷ 34 ∷ 6 ∷ 10 ∷ 1 ∷ 102 ∷ 58 ∷ 3 ∷ 26 ∷ 1 ∷ 65 ∷ []
