-- ===== src/Session/Bridge.antt =====
-- QcHidBridge.hpp: IN transfers are joined to reports, reports to messages, and messages handled.
use qcremote.Prelude.{ltb, ◌==◌, if◌then◌else◌, length, is_empty, ℕ, ◌+◌, ◌&&◌, List, [], ◌∷◌, ◌++◌}
use qcremote.Hid.Report.{hid_report_size}
use qcremote.Hid.Reassembler.{
  HidReassembler, Status, in_progress, complete, overflow, malformed, feed,
}
use qcremote.Session.{
  QcSession, message_capacity, handle_message, record_reassembly_overflow,
  record_reassembly_malformed, record_in_transfer,
}

pub record QcHidBridge : Type 0 where
  pub partial_report : List ℕ
  pub reassembler : HidReassembler
  pub session : QcSession

-- The switch of `feedReport`, behind `feed`.
unfoldable pub on_status : QcHidBridge → Status × HidReassembler → QcHidBridge
on_status b (complete, r) = record b {
  reassembler = r;
  session = handle_message b.session r.buffer;
}
on_status b (overflow, r) = record b {
  reassembler = r;
  session = record_reassembly_overflow b.session r.overflow_size;
}
on_status b (malformed, r) = record b {
  reassembler = r;
  session = record_reassembly_malformed b.session;
}
on_status b (in_progress, r) = record b { reassembler = r }

unfoldable pub feed_report : QcHidBridge → List ℕ → QcHidBridge
feed_report b report = on_status b (feed message_capacity b.reassembler report)

unfoldable pub drop_partial : QcHidBridge → List ℕ → QcHidBridge
drop_partial b transfer =
    if ltb hid_report_size (length b.partial_report + length transfer)
    then record b { partial_report = []; session = record_reassembly_malformed b.session }
    else b

-- `insert` at the end, and the report where it is whole. No transfer is longer than a report, whose size
-- the shim's buffer has, so behind drop_partial the vector's capacity of 129 is enough.
unfoldable pub join_partial : QcHidBridge → List ℕ → QcHidBridge
join_partial b transfer =
    let joined = b.partial_report ++ transfer in
    if length joined == hid_report_size
    then record (feed_report (record b { partial_report = joined }) joined) { partial_report = [] }
    else record b { partial_report = joined }

unfoldable pub count_transfer : QcHidBridge → QcHidBridge
count_transfer b = record b { session = record_in_transfer b.session }

unfoldable pub join_transfer : QcHidBridge → List ℕ → QcHidBridge
join_transfer b transfer =
    if is_empty b.partial_report && length transfer == hid_report_size
    then feed_report b transfer
    else join_partial (drop_partial b transfer) transfer

unfoldable pub on_report_in : QcHidBridge → List ℕ → QcHidBridge
on_report_in b transfer = join_transfer (count_transfer b) transfer

unfoldable pub receive : QcHidBridge → List (List ℕ) → QcHidBridge
receive b [] = b
receive b (t ∷ ts) = receive (on_report_in b t) ts

-- The parts of onProbe (of a HID interface) and onRemoved that change the bridge.
unfoldable pub forget_partial : QcHidBridge → QcHidBridge
forget_partial b = record b { partial_report = [] }
