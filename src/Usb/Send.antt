-- ===== src/Usb/Send.antt =====
-- usbh_shim.c and UsbHostClass.hpp: the start of the host, and a report that is sent.
use qcremote.Prelude.{
  if◌then◌else◌, length, ℕ, ◌+◌, ◌%◌, ◌^◌, Bool, Option, none, some, List, [], ◌∷◌,
}
use qcremote.FileStream.Finish.{report}
use qcremote.Session.Device.{on_probe}
use qcremote.Usb.{Errno, QcUsbhFilter, QcUsbhOps, Shim, all_ops, is_ok, enodev, ok, enotsup, enomem}

-- `initialised` and `enabled` are what usbh_init and usbh_enable answer.
unfoldable pub qc_usbh_bridge_start : Shim → QcUsbhFilter → QcUsbhOps → Errno → Errno → Errno × Shim
qc_usbh_bridge_start s filter ops initialised enabled = (
  if is_ok initialised then enabled else initialised,
  record s { registered_filter = filter; registered_ops = some ops },
)

-- The control request of a report.
pub record SetupRequest : Type 0 where
  pub device : ℕ
  pub request_type : ℕ
  pub request : ℕ
  pub value : ℕ
  pub index : ℕ
  pub size : ℕ
  pub data_bytes : List ℕ

abbrev pub report_id : List ℕ → ℕ
report_id [] = 0
report_id (id ∷ report) = id

-- `answer` is what usbh_req_setup answers; the buffer is freed behind it.
unfoldable pub qc_usbh_send_report : Shim → List ℕ → Bool → Errno → Errno × Option SetupRequest
qc_usbh_send_report s report has_buffer answer = elim s.claimed_udev [
  | none ↦ (enodev, none)
  | some udev ↦
      if has_buffer
      then (
        answer,
        some (record {
          device = udev;
          request_type = 0x21;
          request = 0x09;
          value = 0x200 + report_id report;
          index = s.registered_filter.iface;
          size = length report % 2 ^ 16;
          data_bytes = report;
        }),
      )
      else (enomem, none)
]

-- UsbHostClass's trampolines go to `instance`, the bridge that was started last, if any. Its onProbe takes
-- the interface where it is of the class HID.
unfoldable pub trampoline_probe : Bool → (ℕ → Bool) → ℕ → Errno
trampoline_probe has_instance on_probe interface_class =
    if has_instance then (if on_probe interface_class then ok else enotsup) else enotsup

-- UsbHostClass::start.
unfoldable pub start_class : Shim → QcUsbhFilter → Errno → Errno → Errno × Shim
start_class s filter initialised enabled = qc_usbh_bridge_start s filter all_ops initialised enabled
