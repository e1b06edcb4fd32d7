-- ===== src/FileStream.antt =====
-- QcFileStream.hpp: the File-read stream, from its start to its summary. Times are milliseconds since
-- boot; a test `now - t >= w` on int64_t is written `t + w ≤ now`. Counters and sizes have 32 bits.
pub mod History
pub mod Finish
pub mod Ending
mod Tests
use qcremote.Prelude.{
  ltb, leb, if◌then◌else◌, ℕ, ◌+◌, ◌-◌, ◌%◌, ◌^◌, max, Bool, true, false, not, ◌&&◌, ◌||◌, Option,
  none, some,
}

abbrev pub quiet_window_ms : ℕ
quiet_window_ms = 5000

abbrev pub overall_timeout_ms : ℕ
overall_timeout_ms = 30000

abbrev pub word_mod : ℕ
word_mod = 2 ^ 32

pub record Summary : Type 0 where
  pub message_count : ℕ
  pub compressed_count : ℕ
  pub failed_count : ℕ
  pub total_wire_bytes : ℕ
  pub total_inflated_bytes : ℕ
  pub max_wire_bytes : ℕ
  pub max_inflated_bytes : ℕ
  pub elapsed_ms : ℕ
  pub timed_out : Bool
  pub dispatcher_dropped : ℕ
  pub gzip_dropped : ℕ
  pub reassembly_overflow_count : ℕ
  pub reassembly_malformed_count : ℕ

unfoldable pub is_listing_incomplete : Summary → Bool → Bool
is_listing_incomplete summary catalog_overflowed =
    summary.timed_out
    || ltb 0 summary.failed_count
    || ltb 0 summary.dispatcher_dropped
    || ltb 0 summary.gzip_dropped
    || ltb 0 summary.reassembly_overflow_count
    || ltb 0 summary.reassembly_malformed_count
    || catalog_overflowed

pub record FileStream : Type 0 where
  pub active : Bool
  pub message_count : ℕ
  pub compressed_count : ℕ
  pub failed_count : ℕ
  pub total_wire_bytes : ℕ
  pub total_inflated_bytes : ℕ
  pub max_wire_bytes : ℕ
  pub max_inflated_bytes : ℕ
  pub started_at_ms : ℕ
  pub last_message_at_ms : ℕ

unfoldable pub start : FileStream → ℕ → FileStream
start s now_ms = record s {
  active = true;
  message_count = 0;
  compressed_count = 0;
  failed_count = 0;
  total_wire_bytes = 0;
  total_inflated_bytes = 0;
  max_wire_bytes = 0;
  max_inflated_bytes = 0;
  started_at_ms = now_ms;
  last_message_at_ms = now_ms;
}

unfoldable pub on_message : FileStream → ℕ → ℕ → ℕ → Bool → FileStream
on_message s now_ms wire_size inflated_size compressed = if not s.active then s else record s {
  message_count = (s.message_count + 1) % word_mod;
  compressed_count = if compressed then (s.compressed_count + 1) % word_mod else s.compressed_count;
  total_wire_bytes = (s.total_wire_bytes + wire_size) % word_mod;
  total_inflated_bytes = (s.total_inflated_bytes + inflated_size) % word_mod;
  max_wire_bytes = max s.max_wire_bytes wire_size;
  max_inflated_bytes = max s.max_inflated_bytes inflated_size;
  last_message_at_ms = now_ms;
}

abbrev larger : ℕ → Option ℕ → ℕ
larger m none = m
larger m (some n) = max m n

unfoldable pub on_inflate_failed : FileStream → ℕ → ℕ → Option ℕ → FileStream
on_inflate_failed s now_ms wire_size true_inflated_size = if not s.active then s else record s {
  message_count = (s.message_count + 1) % word_mod;
  failed_count = (s.failed_count + 1) % word_mod;
  total_wire_bytes = (s.total_wire_bytes + wire_size) % word_mod;
  max_wire_bytes = max s.max_wire_bytes wire_size;
  max_inflated_bytes = larger s.max_inflated_bytes true_inflated_size;
  last_message_at_ms = now_ms;
}

unfoldable pub check_timeout : FileStream → ℕ → Option Summary × FileStream
check_timeout s now_ms =
    let quiet : Bool =
      ltb 0 s.message_count && leb (s.last_message_at_ms + quiet_window_ms) now_ms in
    let timed_out : Bool = leb (s.started_at_ms + overall_timeout_ms) now_ms in
    if not s.active then (none, s) else if not quiet && not timed_out then (none, s) else (
      some (record {
        message_count = s.message_count;
        compressed_count = s.compressed_count;
        failed_count = s.failed_count;
        total_wire_bytes = s.total_wire_bytes;
        total_inflated_bytes = s.total_inflated_bytes;
        max_wire_bytes = s.max_wire_bytes;
        max_inflated_bytes = s.max_inflated_bytes;
        elapsed_ms = now_ms - s.started_at_ms;
        timed_out = timed_out;
        dispatcher_dropped = 0;
        gzip_dropped = 0;
        reassembly_overflow_count = 0;
        reassembly_malformed_count = 0;
      }),
      record s { active = false },
    )
