-- ===== src/Usb/Claim.antt =====
-- usbh_shim.c: what a probe leads to, and what is sent to the device then.
use qcremote.Prelude.{
  ◌==◌, if◌then◌else◌, Bool-cases, Option-cases, length, take, ℕ, ◌+◌, ◌%◌, ◌^◌, ◌<◌, ◌≡◌, refl,
  ◌∙◌, inl, inr, true, false, ◌&&◌, none, some, List, arith,
}
use qcremote.Usb.Send.{qc_usbh_send_report, report_id}
use qcremote.Usb.Delivery.{at_work}
use qcremote.Usb.Endpoints.{discover_endpoints_lem, last_in, addresses}
use qcremote.Usb.{
  Errno, Probe, Shim, UsbIfDescriptor, give_up, is_ok, shim_probe, start_receiving, takes_probes,
  enodev, matches, enotsup, claim, enomem, ok, enoent, arm_in_transfer,
}

-- The shim with no transfer, as it starts and as it is after a device went.
abbrev pub idle : Shim → Shim
idle s = record s { has_in_xfer = false; receiving = false; queued = 0; buffers = 0 }

abbrev pub recorded : UsbIfDescriptor → ℕ
recorded d = last_in 0 (take d.num_endpoints (addresses d.following))

-- Why a device is left alone, and the answer.
pub data Refused (s : Shim) (p : Probe) : Errno → Type 0 where
  other_device : matches s.registered_filter p ≡ false → Refused s p enotsup
  no_interface : matches s.registered_filter p ≡ true → p.desc ≡ none → Refused s p enoent
  no_class :
      (d : UsbIfDescriptor)
      → p.desc ≡ some d
      → matches s.registered_filter p ≡ true
      → takes_probes s.registered_ops ≡ false
      → Refused s p enotsup
  denied :
      (d : UsbIfDescriptor)
      → p.desc ≡ some d
      → matches s.registered_filter p ≡ true
      → takes_probes s.registered_ops ≡ true
      → is_ok p.accepted ≡ false
      → Refused s p p.accepted

-- The device is the filter's, has the interface `d`, and the class takes it.
pub record Agreed (s : Shim) (p : Probe) (d : UsbIfDescriptor) : Type 0 where
  pub there : p.desc ≡ some d
  pub fits : matches s.registered_filter p ≡ true
  pub asked : takes_probes s.registered_ops ≡ true
  pub allowed : is_ok p.accepted ≡ true

-- What the calls that start the receive loop answer: no transfer, no buffer, or the enqueue's answer.
abbrev pub start_answer : Probe → Errno
start_answer p = if p.has_xfer && p.armed.has_buffer then p.armed.enqueued else enomem

-- The claimed shim, before the receive loop is started.
abbrev pub recording : Shim → Probe → UsbIfDescriptor → Shim
recording s p d = record (idle s) { claimed_udev = some p.udev; ep_in = recorded d }

-- What a probe answers and leaves.
pub data Claimed (s : Shim) (p : Probe) : Errno × Shim → Type 0 where
  left_alone : {ret : Errno} → Refused s p ret → Claimed s p (ret, idle s)
  no_endpoint :
      (d : UsbIfDescriptor)
      → Agreed s p d
      → recorded d ≡ 0
      → Claimed s p (enodev, record (idle s) { claimed_udev = none; ep_in = 0 })
  runs :
      (d : UsbIfDescriptor)
      → Agreed s p d
      → 0 < recorded d
      → is_ok (start_answer p) ≡ true
      → Claimed s p (ok, at_work (record s { claimed_udev = some p.udev; ep_in = recorded d }))
  not_started :
      (d : UsbIfDescriptor)
      → Agreed s p d
      → 0 < recorded d
      → is_ok (start_answer p) ≡ false
      → Claimed s p (start_answer p, recording s p d)

started :
    (s : Shim) (p : Probe) (d : UsbIfDescriptor)
    → is_ok (start_answer p) ≡ true
    → start_receiving (recording s p d) p.has_xfer p.armed
      ≡ (ok, at_work (record s { claimed_udev = some p.udev; ep_in = recorded d }))
unfolding start_receiving arm_in_transfer give_up
started s p d good = elim (Bool-cases p.has_xfer) [
  | inr without ↦ absurd (ground arith)
  | inl xfer ↦ elim (Bool-cases p.armed.has_buffer) [
    | inr without ↦ absurd (ground arith)
    | inl buffer ↦
        let fine : is_ok p.armed.enqueued ≡ true = ground arith in simp (xfer, buffer, fine)
  ]
]

not_running :
    (s : Shim) (p : Probe) (d : UsbIfDescriptor)
    → is_ok (start_answer p) ≡ false
    → start_receiving (recording s p d) p.has_xfer p.armed ≡ (start_answer p, recording s p d)
unfolding start_receiving arm_in_transfer give_up
not_running s p d bad = elim (Bool-cases p.has_xfer) [
  | inr without ↦ simp without
  | inl xfer ↦ elim (Bool-cases p.armed.has_buffer) [
    | inr without ↦ simp (xfer, without)
    | inl buffer ↦
        let failed : is_ok p.armed.enqueued ≡ false = ground arith in simp (xfer, buffer, failed)
  ]
]

-- The probe of a device that is the filter's and that the class takes.
consented_probe :
    (s : Shim) (p : Probe) (d : UsbIfDescriptor)
    → Agreed s p d
    → shim_probe (idle s) p ≡ claim (idle s) p d
unfolding shim_probe
consented_probe s p d k = simp (k.fits, k.there, k.asked, k.allowed)

claim_found :
    (s : Shim) (p : Probe) (d : UsbIfDescriptor)
    → 0 < recorded d
    → claim (idle s) p d ≡ start_receiving (recording s p d) p.has_xfer p.armed
unfolding claim
claim_found s p d found =
    let found_one : (recorded d == 0) ≡ false = ground arith in
    rw (discover_endpoints_lem (record (idle s) { claimed_udev = some p.udev }) d)
      (rw found_one refl)

claim_missing :
    (s : Shim) (p : Probe) (d : UsbIfDescriptor)
    → recorded d ≡ 0
    → claim (idle s) p d ≡ (enodev, record (idle s) { claimed_udev = none; ep_in = 0 })
unfolding claim
claim_missing s p d missing =
    rw (discover_endpoints_lem (record (idle s) { claimed_udev = some p.udev }) d) (rw missing refl)

claim-Claimed :
    (s : Shim) (p : Probe) (d : UsbIfDescriptor) → Agreed s p d → Claimed s p (claim (idle s) p d)
claim-Claimed s p d k = elim (Bool-cases (recorded d == 0)) [
  | inl missing ↦
      let none_there : recorded d ≡ 0 = ground arith in
      rw (claim_missing s p d none_there) (no_endpoint d k none_there)
  | inr found ↦
      let one : 0 < recorded d = ground arith in
      rw (claim_found s p d one) (elim (Bool-cases (is_ok (start_answer p))) [
        | inl good ↦ rw (started s p d good) (runs d k one good)
        | inr bad ↦ rw (not_running s p d bad) (not_started d k one bad)
      ])
]

-- A probe of an idle shim, in every case. A device that the filter does not name, that lacks the
-- interface, or that the class is not there for or refuses is left alone, with the answer of that
-- reason. Otherwise the endpoint that counts is looked for: without one the answer is -ENODEV and
-- nothing is claimed; with one the device is claimed, and the answer is 0 and the receive loop runs
-- exactly if a transfer and a buffer are there and the enqueue answers 0; if not, the answer is the
-- error of that call.
pub shim_probe-Claimed : (s : Shim) (p : Probe) → Claimed s p (shim_probe (idle s) p)
unfolding shim_probe
shim_probe-Claimed s p = elim (Bool-cases (matches s.registered_filter p)) [
  | inr other ↦ simp other (left_alone (other_device other))
  | inl fits ↦ elim (Option-cases p.desc) [
    | inl missing ↦ simp (fits, missing) (left_alone (no_interface fits missing))
    | inr (d, found) ↦ elim (Bool-cases (takes_probes s.registered_ops)) [
      | inr without ↦ simp (fits, found, without) (left_alone (no_class d found fits without))
      | inl asked ↦ elim (Bool-cases (is_ok p.accepted)) [
        | inr denies ↦
            simp (fits, found, asked, denies) (left_alone (denied d found fits asked denies))
        | inl allowed ↦
            let k : Agreed s p d = record {
              there = found;
              fits = fits;
              asked = asked;
              allowed = allowed;
            } in
            rw (consented_probe s p d k) (claim-Claimed s p d k)
      ]
    ]
  ]
]

-- A probe that the class agrees to and that finds an endpoint, but whose receive loop cannot be started
-- because there is no transfer, no buffer or the enqueue fails, answers that error and leaves the device
-- claimed: reports go on being sent to it, by a request of its own each.
pub claimed_after_failure :
    (s : Shim) (p : Probe) (d : UsbIfDescriptor) (report : List ℕ) (answer : Errno)
    → Agreed s p d
    → 0 < recorded d
    → is_ok (start_answer p) ≡ false
    → ((shim_probe (idle s) p).0 ≡ start_answer p)
      × (qc_usbh_send_report (shim_probe (idle s) p).1 report true answer ≡ (
        answer,
        some (record {
          device = p.udev;
          request_type = 0x21;
          request = 0x09;
          value = 0x200 + report_id report;
          index = s.registered_filter.iface;
          size = length report % 2 ^ 16;
          data_bytes = report;
        }),
      ))
unfolding qc_usbh_send_report
claimed_after_failure s p d report answer k found bad =
    let e : shim_probe (idle s) p ≡ (start_answer p, recording s p d) =
      consented_probe s p d k ∙ claim_found s p d found ∙ not_running s p d bad in
    rw e (refl, refl)
