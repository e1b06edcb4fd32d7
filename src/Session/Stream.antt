-- ===== src/Session/Stream.antt =====
-- The File stream's start in runHandshake and its end in runHeartbeat and logFileStreamSummary
-- (QcSession.hpp), and what runHeartbeat publishes of the tally.
use qcremote.Prelude.{
  leb, ◌==◌, if◌then◌else◌, is_empty, ℕ, ◌+◌, ◌-◌, ◌%◌, ◌^◌, Bool, not, ◌&&◌, ◌||◌, Option, none,
  some, List, [], ◌∷◌,
}
use qcremote.Catalog.{reset, overflowed}
use qcremote.Catalog.Snapshot.{copy_catalog_snapshot}
use qcremote.FileStream.{FileStream, Summary, check_timeout, is_listing_incomplete}
use qcremote.FileStream as FileStream
use qcremote.Tally.{TallyEntry, QcMessageTally}
use qcremote.Tally as Tally
use qcremote.Session.{QcSession}

abbrev pub post_stream_log_interval_ms : ℕ
post_stream_log_interval_ms = 60000

-- The block under `fileStreamMutex_` before the File READ.
unfoldable pub start_stream : QcSession → ℕ → QcSession
start_stream s now = record s {
  file_stream = FileStream.start s.file_stream now;
  preset_catalog = reset s.preset_catalog;
  dispatcher_dropped_at_start = s.dispatcher.dropped_count;
  gzip_dropped_at_start = s.gzip_inflater.dropped_count;
  reassembly_overflow_at_start = s.reassembly_overflow_count;
  reassembly_malformed_at_start = s.reassembly_malformed_count;
  total_in_transfers_at_start = s.total_in_transfers;
}

-- `uint32_t` subtraction.
abbrev pub since : ℕ → ℕ → ℕ
since n start = (n + 2 ^ 32 - start) % 2 ^ 32

unfoldable pub with_drops : QcSession → Summary → Summary
with_drops s r = record r {
  dispatcher_dropped = since s.dispatcher.dropped_count s.dispatcher_dropped_at_start;
  gzip_dropped = since s.gzip_inflater.dropped_count s.gzip_dropped_at_start;
  reassembly_overflow_count = since s.reassembly_overflow_count s.reassembly_overflow_at_start;
  reassembly_malformed_count = since s.reassembly_malformed_count s.reassembly_malformed_at_start;
}

-- checkTimeout and the numbers of this stream, in the block under `fileStreamMutex_`.
unfoldable pub check_stream : QcSession → ℕ → Option Summary × QcSession
check_stream s now =
    let (summary, file_stream) = check_timeout s.file_stream now in
    (
      elim summary [ none ↦ none | some r ↦ some (with_drops s r) ],
      record s { file_stream = file_stream },
    )

-- The loop over the tally's entries, with those that were logged.
unfoldable pub changed_entries : Bool → List TallyEntry → List TallyEntry → List TallyEntry
changed_entries interval_due logged [] = []
changed_entries interval_due [] (e ∷ es) = e ∷ changed_entries interval_due [] es
changed_entries interval_due (l ∷ ls) (e ∷ es) =
    let rest = changed_entries interval_due ls es in
    if not (e.count == l.count) && interval_due then e ∷ rest else rest

-- What a heartbeat publishes of the tally: entries, and a count of others.
pub record TallyChange : Type 0 where
  pub entries : List TallyEntry
  pub other_count : ℕ

unfoldable pub mark_logged : QcSession → ℕ → QcSession
mark_logged s now = record s {
  post_stream_logged_entries = s.post_stream_tally.entries;
  post_stream_logged_other_count = s.post_stream_tally.other_count;
  post_stream_last_logged_at_ms = now;
}

unfoldable pub report_change :
    QcSession → ℕ → List TallyEntry → Bool → Option TallyChange × QcSession
report_change s now entries other_due =
    if not (is_empty entries) || other_due
    then (
      some (record {
        entries = entries;
        other_count = if other_due then s.post_stream_tally.other_count else 0;
      }),
      mark_logged s now,
    )
    else (none, s)

unfoldable pub check_tally : QcSession → ℕ → Option TallyChange × QcSession
check_tally s now =
    let due : Bool = leb (s.post_stream_last_logged_at_ms + post_stream_log_interval_ms) now in
    let other_due : Bool =
      not (s.post_stream_tally.other_count == s.post_stream_logged_other_count) && due in
    if s.post_stream_tally.active
    then report_change s now
        (changed_entries due s.post_stream_logged_entries s.post_stream_tally.entries) other_due
    else (none, s)

-- logFileStreamSummary's two guarded blocks: the snapshot for the transports, and the tally's start.
abbrev pub copy_block : QcSession → Bool → QcSession
copy_block s incomplete = record s {
  catalog_snapshot = copy_catalog_snapshot s.preset_catalog incomplete;
}

abbrev pub tally_block : QcSession → ℕ → QcSession
tally_block s now = record s {
  post_stream_tally = Tally.start s.post_stream_tally;
  post_stream_logged_entries = [];
  post_stream_logged_other_count = 0;
  post_stream_last_logged_at_ms = now;
}

-- logFileStreamSummary, without the log and the printer: `overflowed` is read without the mutex, and
-- `copying` and `tallying` are what other threads do to the session before each of the two blocks.
abbrev pub log_summary_among :
    (QcSession → QcSession) → (QcSession → QcSession) → QcSession → ℕ → Summary → QcSession
log_summary_among copying tallying s now summary =
    let incomplete = is_listing_incomplete summary (overflowed s.preset_catalog) in
    tally_block (tallying (copy_block (copying s) incomplete)) now

-- The same where no other thread comes in between.
unfoldable pub log_file_stream_summary : QcSession → ℕ → Summary → QcSession
log_file_stream_summary s now summary = log_summary_among (λ t. t) (λ t. t) s now summary

-- A heartbeat, from the block under the mutex on: what is published, and the session.
unfoldable pub finish_stream : Option Summary → QcSession → ℕ → QcSession
finish_stream none s now = s
finish_stream (some summary) s now = log_file_stream_summary s now summary

unfoldable pub heartbeat : QcSession → ℕ → Option Summary × Option TallyChange × QcSession
heartbeat s now =
    let (summary, s1) = check_stream s now in
    let (change, s2) = check_tally s1 now in (summary, change, finish_stream summary s2 now)
