-- ===== src/Usb.antt =====
-- usbh_shim.c and UsbHostClass.hpp: the USB host class that claims the device, receives its reports in a
-- loop of transfers, and sends reports by control requests. What Zephyr's USB stack answers is a
-- parameter.
pub mod Endpoints
pub mod Receive
pub mod Delivery
pub mod Send
pub mod Claim
mod Tests
use qcremote.Prelude.{
  ltb, ◌==◌, if◌then◌else◌, ℕ, ◌+◌, ◌-◌, bit_and, Bool, true, false, not, ◌&&◌, Option, none, some,
  List, [], ◌∷◌,
}
use qcremote.FileStream.Finish.{report}

-- 0 and the errors; any other answer of Zephyr is `other_error`.
pub data Errno : Type 0 where
  ok : Errno
  enotsup : Errno
  enoent : Errno
  enodev : Errno
  enomem : Errno
  other_error : ℕ → Errno

abbrev pub is_ok : Errno → Bool
is_ok ok = true
is_ok _ = false

pub record QcUsbhFilter : Type 0 where
  pub vid : ℕ
  pub pid : ℕ
  pub iface : ℕ

-- Which of the callbacks are there.
pub record QcUsbhOps : Type 0 where
  pub has_on_init : Bool
  pub has_on_probe : Bool
  pub has_on_removed : Bool
  pub has_on_report_in : Bool

-- The static variables; a device is a number. `queued` and `buffers` are what Zephyr holds of this
-- shim: the transfers that are enqueued, and the buffers that are allocated.
pub record Shim : Type 0 where
  pub registered_filter : QcUsbhFilter
  pub registered_ops : Option QcUsbhOps
  pub claimed_udev : Option ℕ
  pub ep_in : ℕ
  pub has_in_xfer : Bool
  pub receiving : Bool
  pub queued : ℕ
  pub buffers : ℕ

abbrev pub all_ops : QcUsbhOps
all_ops = record {
  has_on_init = true;
  has_on_probe = true;
  has_on_removed = true;
  has_on_report_in = true;
}

abbrev pub new_shim : Shim
new_shim = record {
  registered_filter = record { vid = 0; pid = 0; iface = 0 };
  registered_ops = none;
  claimed_udev = none;
  ep_in = 0;
  has_in_xfer = false;
  receiving = false;
  queued = 0;
  buffers = 0;
}

-- What usbh_xfer_buf_alloc and usbh_xfer_enqueue answer.
pub record ArmAnswers : Type 0 where
  pub has_buffer : Bool
  pub enqueued : Errno

abbrev pub arms : ArmAnswers → Bool
arms a = a.has_buffer && is_ok a.enqueued

-- A buffer is freed again where the transfer is refused.
unfoldable pub arm_in_transfer : Shim → ArmAnswers → Errno × Shim
arm_in_transfer s a =
    if not a.has_buffer
    then (enomem, s)
    else if is_ok a.enqueued
    then (ok, record s { buffers = s.buffers + 1; queued = s.queued + 1 })
    else (a.enqueued, s)

abbrev pub takes_reports : Option QcUsbhOps → Bool
takes_reports none = false
takes_reports (some ops) = ops.has_on_report_in

unfoldable pub stop_if_failed : Errno × Shim → Shim
stop_if_failed (ret, s) = if is_ok ret then s else record s { receiving = false }

-- The end of in_xfer_cb, behind net_buf_unref.
unfoldable pub rearm : Shim → ArmAnswers → Shim
rearm s a = if s.receiving then stop_if_failed (arm_in_transfer s a) else s

-- A transfer of ours completes: `failed` is whether `xfer->err` is not 0, `report` what stands in its
-- buffer. The answer has the report where it is handed to on_report_in.
unfoldable pub in_xfer_cb : Shim → Bool → List ℕ → ArmAnswers → Option (List ℕ) × Shim
in_xfer_cb s failed report a = (
  if failed then none else if takes_reports s.registered_ops then some report else none,
  rearm (record s { buffers = s.buffers - 1; queued = s.queued - 1 }) a,
)

unfoldable pub give_up : Errno × Shim → Errno × Shim
give_up (ret, s) =
    if is_ok ret then (ret, s) else (ret, record s { has_in_xfer = false; receiving = false })

-- `has_xfer` is whether usbh_xfer_alloc has a transfer.
unfoldable pub start_receiving : Shim → Bool → ArmAnswers → Errno × Shim
start_receiving s has_xfer a =
    if has_xfer
    then give_up (arm_in_transfer (record s { has_in_xfer = true; receiving = true }) a)
    else (enomem, record s { has_in_xfer = false })

-- A descriptor behind that of the interface.
pub data Descriptor : Type 0 where
  interface : Descriptor
  endpoint : ℕ → Descriptor
  other_descriptor : Descriptor

-- USB_EP_DIR_IS_IN.
abbrev pub is_in : ℕ → Bool
is_in address = not (bit_and address 0x80 == 0)

-- The loop, with `ep_in` and `found` so far; usbh_desc_get_next answers NULL behind the last one.
unfoldable pub walk_descriptors : ℕ → ℕ → ℕ → List Descriptor → ℕ
walk_descriptors num_endpoints found ep [] = ep
walk_descriptors num_endpoints found ep (interface ∷ ds) = ep
walk_descriptors num_endpoints found ep (endpoint address ∷ ds) =
    let rest =
      walk_descriptors num_endpoints (found + 1) (if is_in address then address else ep) ds in
    if ltb found num_endpoints then rest else ep
walk_descriptors num_endpoints found ep (other_descriptor ∷ ds) =
    let rest = walk_descriptors num_endpoints found ep ds in
    if ltb found num_endpoints then rest else ep

pub record UsbIfDescriptor : Type 0 where
  pub num_endpoints : ℕ
  pub interface_class : ℕ
  pub following : List Descriptor

unfoldable pub discover_endpoints : Shim → UsbIfDescriptor → Shim
discover_endpoints s d = record s { ep_in = walk_descriptors d.num_endpoints 0 0 d.following }

-- What a device that connects is like, and what the calls of shim_probe answer for it. `desc` is the
-- descriptor of the interface that the filter names, `accepted` what on_probe answers.
pub record Probe : Type 0 where
  pub udev : ℕ
  pub vendor : ℕ
  pub product : ℕ
  pub desc : Option UsbIfDescriptor
  pub accepted : Errno
  pub has_xfer : Bool
  pub armed : ArmAnswers

abbrev pub takes_probes : Option QcUsbhOps → Bool
takes_probes none = false
takes_probes (some ops) = ops.has_on_probe

-- The part behind on_probe's consent.
unfoldable pub claim : Shim → Probe → UsbIfDescriptor → Errno × Shim
claim s p d =
    let t = discover_endpoints (record s { claimed_udev = some p.udev }) d in
    if t.ep_in == 0
    then (enodev, record t { claimed_udev = none })
    else start_receiving t p.has_xfer p.armed

abbrev pub matches : QcUsbhFilter → Probe → Bool
matches f p = p.vendor == f.vid && p.product == f.pid

unfoldable pub shim_probe : Shim → Probe → Errno × Shim
shim_probe s p = if not (matches s.registered_filter p) then (enotsup, s) else elim p.desc [
  | none ↦ (enoent, s)
  | some d ↦
      if not (takes_probes s.registered_ops)
      then (enotsup, s)
      else if is_ok p.accepted
      then claim s p d
      else (p.accepted, s)
]

unfoldable pub shim_removed : Shim → Shim
shim_removed s = record s { receiving = false; claimed_udev = none; ep_in = 0; has_in_xfer = false }
