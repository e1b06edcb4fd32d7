-- ===== src/Session/DeviceTests.antt =====
-- The theorems on the session with its threads, printer and transports, at concrete inputs.
use qcremote.Prelude.{leb, All, ◌+◌, ◌≡◌, refl, inl, Bool, true, false, ◌||◌, some, [], ◌∷◌, arith}
use qcremote.Session.Bridge.{QcHidBridge}
use qcremote.Message.{encode_message}
use qcremote.Messages.Replies.{VersionReply}
use qcremote.Session.Heartbeat.{ServesListing}
use qcremote.Gzip.{has_magic}
use qcremote.Session.Handshake.{mirrored_version}
use qcremote.Catalog.Snapshot.{copy_catalog_snapshot}
use qcremote.Session.Stream.{log_file_stream_summary, start_stream}
use qcremote.Session.Transfers.{aligned}
use qcremote.Session.Published.{listing_served}
use qcremote.Session.Races.{emptied_listing, stale_version_reply, version_read}
use qcremote.Web.{new_transport}
use qcremote.Session.{record_in_transfer, QcSession}
use qcremote.Prelude.Text.{codes, truncating}
use qcremote.Session.Arrivals.{
  Arrived, FileArrival, IsPlain, IsReady, arrive_all, arrive_all-Arrived, presets_of, after_arrival,
  arrive_lem,
}
use qcremote.Session.Device.{Device, tick}
use qcremote.Printer.{new_printer}
use qcremote.Catalog.{overflowed, add_presets, reset}
use qcremote.FileStream.Finish.{Due, report}
use qcremote.FileStream.{start, on_message, is_listing_incomplete}
use qcremote.Session.Samples.{session, stream, catalog, file_bytes}
use qcremote.Hid.Reassembler.{cleared}

abbrev reply : VersionReply
reply = record { app_fw_version = codes "4.1.0"; zenos_git_hash = codes "abc" }

abbrev stale : Bool × QcSession
stale = version_read (version_read session false (some reply ∷ [])).1 true []

stale_version_reply_example :
    (stale.0 ≡ true)
    × (mirrored_version truncating stale.0 stale.1.pending_version_reply ≡ codes "4.1.0")
stale_version_reply_example = stale_version_reply truncating session (some reply)

in_time_report : is_listing_incomplete (report stream 5300) false ≡ false
unfolding is_listing_incomplete
in_time_report = refl

emptied_listing_example :
    (log_file_stream_summary (start_stream session 5300) 5301 (report stream 5300)).catalog_snapshot
    ≡ record { folders = []; preset_count = 0; incomplete = false; generation = 2 }
emptied_listing_example = emptied_listing session 5300 5301 (report stream 5300) in_time_report

abbrev device : Device
device = record {
  session = session;
  printer = new_printer;
  transports = new_transport ∷ [];
  thread_started = true;
  device_ready_sem = false;
  heartbeat_thread_started = true;
  heartbeat_sem = false;
  last_reported_dispatcher_dropped = 0;
  last_reported_gzip_dropped = 0;
  last_reported_reassembly_overflow = 2;
  last_reported_reassembly_malformed = 1;
}

-- A stream of one message.
abbrev begun : QcHidBridge
begun = record (aligned cleared session) { session = start_stream session 800 }

abbrev file : FileArrival
file = record {
  proto = file_bytes;
  reserved_and_hash = 0 ∷ 0 ∷ 0 ∷ 0 ∷ 0x12 ∷ 0xAB ∷ [];
  report_id = 1;
  now = 900;
}

is_plain : IsPlain file
unfolding has_magic
is_plain = (refl, refl, omega arith)

begun-IsReady : IsReady begun
unfolding start_stream start
begun-IsReady = record { no_part = refl; free = refl; streaming = refl }

arrive_all-Arrived_example :
    (c : QcHidBridge) × (arrive_all truncating begun (file ∷ []) ≡ some c)
    × Arrived truncating begun c (presets_of (file ∷ []))
arrive_all-Arrived_example =
    arrive_all-Arrived truncating begun (file ∷ []) begun-IsReady (is_plain, tt)

abbrev after : QcHidBridge
after = after_arrival truncating begun file

file_arrives : arrive_all truncating begun (file ∷ []) ≡ some after
unfolding arrive_all
file_arrives = rw (arrive_lem truncating begun file begun-IsReady is_plain, arrive_all) refl

quiet : Due after.session.file_stream 6000
unfolding on_message start_stream start record_in_transfer encode_message
quiet = inl (omega arith, omega arith)

listing_served_example :
    let catalog = add_presets truncating (reset catalog) (presets_of (file ∷ [])) in
    let later = (tick (record device { session = after.session }) 6000).1 in
    (later.session.catalog_snapshot
      ≡ copy_catalog_snapshot catalog
          (leb (after.session.file_stream.started_at_ms + 30000) 6000 || overflowed catalog))
    × All (ServesListing later.session.catalog_snapshot) later.transports
listing_served_example =
    listing_served truncating (aligned cleared session) after 800 (file ∷ [])
      (record device { session = after.session }) 6000 refl refl (is_plain, tt) file_arrives refl
      quiet
