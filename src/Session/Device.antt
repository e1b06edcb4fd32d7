-- ===== src/Session/Device.antt =====
-- QcSession.hpp and QcHidBridge.hpp with what they drive: the printer, the transports and the threads.
use qcremote.Prelude.{
  leb, ◌==◌, if◌then◌else◌, length, ℕ, Bool, true, false, ◌&&◌, Option, none, some, List, [], ◌∷◌,
  ◌++◌, map,
}
use qcremote.Catalog.{overflowed}
use qcremote.Tally.{TallyEntry}
use qcremote.Messages.Requests.{encode_keep_alive}
use qcremote.Session.Stream.{TallyChange, heartbeat}
use qcremote.Session.Bridge.{QcHidBridge, forget_partial}
use qcremote.Web.{QcWifiWebTransport, publish_catalog, publish_preset_change}
use qcremote.Printer.{QcPresetPrinter, request_print, start_printer}
use qcremote.FileStream.{Summary, is_listing_incomplete}
use qcremote.Session.{QcSession}

-- The members of QcSession that the modules before leave aside. The transports are web transports.
pub record Device : Type 0 where
  pub session : QcSession
  pub printer : QcPresetPrinter
  pub transports : List QcWifiWebTransport
  pub thread_started : Bool
  pub device_ready_sem : Bool
  pub heartbeat_thread_started : Bool
  pub heartbeat_sem : Bool
  pub last_reported_dispatcher_dropped : ℕ
  pub last_reported_gzip_dropped : ℕ
  pub last_reported_reassembly_overflow : ℕ
  pub last_reported_reassembly_malformed : ℕ

abbrev pub max_transports : ℕ
max_transports = 2

unfoldable pub add_transport : Device → QcWifiWebTransport → Device
add_transport d t =
    if leb max_transports (length d.transports)
    then d
    else record d { transports = d.transports ++ t ∷ [] }

-- The dispatcher's and the inflater's threads have no state but their mailboxes.
unfoldable pub device_connected : Device → Device
device_connected d = record d {
  thread_started = true;
  printer = start_printer d.printer;
  device_ready_sem = true;
}

-- The timer gives the semaphore from then on.
unfoldable pub start_heartbeat : Device → Device
start_heartbeat d = record d { heartbeat_thread_started = true }

unfoldable pub timer_expiry : Device → Device
timer_expiry d = record d { heartbeat_sem = true }

-- k_sem_take, which waits while the semaphore is not given.
unfoldable pub take_ready : Device → Option Device
take_ready d = if d.device_ready_sem then some (record d { device_ready_sem = false }) else none

unfoldable pub take_heartbeat : Device → Option Device
take_heartbeat d = if d.heartbeat_sem then some (record d { heartbeat_sem = false }) else none

-- The warning's numbers.
pub record TrafficWarning : Type 0 where
  pub dispatcher_dropped : ℕ
  pub gzip_dropped : ℕ
  pub reassembly_overflow : ℕ
  pub reassembly_overflow_max : ℕ
  pub reassembly_malformed : ℕ

abbrev pub is_reported : Device → Bool
is_reported d =
    (d.session.dispatcher.dropped_count == d.last_reported_dispatcher_dropped)
    && (d.session.gzip_inflater.dropped_count == d.last_reported_gzip_dropped)
    && (d.session.reassembly_overflow_count == d.last_reported_reassembly_overflow)
    && (d.session.reassembly_malformed_count == d.last_reported_reassembly_malformed)

unfoldable pub check_traffic_health : Device → Option TrafficWarning × Device
check_traffic_health d = if is_reported d then (none, d) else (
  some (record {
    dispatcher_dropped = d.session.dispatcher.dropped_count;
    gzip_dropped = d.session.gzip_inflater.dropped_count;
    reassembly_overflow = d.session.reassembly_overflow_count;
    reassembly_overflow_max = d.session.reassembly_overflow_max_size;
    reassembly_malformed = d.session.reassembly_malformed_count;
  }),
  record d {
    last_reported_dispatcher_dropped = d.session.dispatcher.dropped_count;
    last_reported_gzip_dropped = d.session.gzip_inflater.dropped_count;
    last_reported_reassembly_overflow = d.session.reassembly_overflow_count;
    last_reported_reassembly_malformed = d.session.reassembly_malformed_count;
  },
)

-- What logFileStreamSummary hands to the printer and to each transport.
unfoldable pub hand_over : Device → Option Summary → Device
hand_over d none = d
hand_over d (some r) = record d {
  printer =
      request_print d.printer d.session.preset_catalog
        (is_listing_incomplete r (overflowed d.session.preset_catalog));
  transports = map (λ t. publish_catalog t d.session.catalog_snapshot) d.transports;
}

-- The loop over the entries that a heartbeat publishes, for one transport.
unfoldable pub publish_changes : QcWifiWebTransport → List TallyEntry → QcWifiWebTransport
publish_changes t [] = t
publish_changes t (e ∷ es) =
    publish_changes (publish_preset_change t (record { command = e.command; count = e.count })) es

unfoldable pub publish_tally : Device → Option TallyChange → Device
publish_tally d none = d
publish_tally d (some change) = record d {
  transports = map (λ t. publish_changes t change.entries) d.transports;
}

pub record TickOutput : Type 0 where
  pub keep_alive : List ℕ
  pub summary : Option Summary
  pub warning : Option TrafficWarning
  pub change : Option TallyChange

-- A round of runHeartbeat behind k_sem_take, at the time `now`. A KeepAlive that cannot be sent changes
-- nothing.
unfoldable pub tick : Device → ℕ → TickOutput × Device
tick d now =
    let (summary, change, s) = heartbeat d.session now in
    let (warning, warned) = check_traffic_health (hand_over (record d { session = s }) summary) in
    (
      record {
        keep_alive = encode_keep_alive [];
        summary = summary;
        warning = warning;
        change = change;
      },
      publish_tally warned change,
    )

-- QcHidBridge's onProbe and onRemoved.
abbrev pub usb_base_class_hid : ℕ
usb_base_class_hid = 3

unfoldable pub on_probe : QcHidBridge → Device → ℕ → Bool × QcHidBridge × Device
on_probe b d iface_class =
    if iface_class == usb_base_class_hid
    then (true, forget_partial b, device_connected d)
    else (false, b, d)
