-- ===== src/Usb/Receive.antt =====
-- usbh_shim.c: the receive loop. While the device is claimed, a transfer with its buffer is with Zephyr;
-- each that completes is handed on and armed again.
use qcremote.Prelude.{
  ◌==◌, if◌then◌else◌, Bool-cases, Option-cases, ℕ, ◌+◌, ◌<◌, ◌≡◌, refl, ◌⊎◌, inl, inr, Bool, true,
  false, Option, none, some, List, [], ◌∷◌, arith,
}
use qcremote.Usb.{
  ArmAnswers, Probe, Shim, arm_in_transfer, give_up, in_xfer_cb, shim_probe, shim_removed,
  stop_if_failed, rearm, Errno, is_ok, start_receiving, ok, arms, enomem, UsbIfDescriptor,
  discover_endpoints, takes_probes, walk_descriptors, claim, matches,
}

pub record Completion : Type 0 where
  pub failed : Bool
  pub report : List ℕ
  pub armed : ArmAnswers

pub data UsbEvent : Type 0 where
  probes : Probe → UsbEvent
  removes : UsbEvent
  completes : Completion → UsbEvent

-- Only a transfer that is with Zephyr completes, and the class is not probed while it has a device.
unfoldable pub complete_one : Shim → Completion → Option (List ℕ) × Shim
complete_one s c = if s.queued == 0 then (none, s) else in_xfer_cb s c.failed c.report c.armed

unfoldable pub usb_event : Shim → UsbEvent → Shim
usb_event s (probes p) = if s.receiving then s else (shim_probe s p).1
usb_event s removes = shim_removed s
usb_event s (completes c) = (complete_one s c).1

unfoldable pub run_usb : Shim → List UsbEvent → Shim
run_usb s [] = s
run_usb s (e ∷ es) = run_usb (usb_event s e) es

pub record Receiving (s : Shim) : Type 0 where
  pub device : ℕ
  pub claimed : s.claimed_udev ≡ some device
  pub allocated : s.has_in_xfer ≡ true
  pub in_endpoint : 0 < s.ep_in
  pub armed : 0 < s.queued

pub record IsValid (s : Shim) : Type 0 where
  pub no_leak : s.buffers ≡ s.queued
  pub loop_runs : (s.receiving ≡ false) ⊎ Receiving s

-- The two ways in which a transfer is armed, or not.
pub data Armed (s : Shim) : Bool → Errno × Shim → Type 0 where
  is_armed : Armed s true (ok, record s { buffers = s.buffers + 1; queued = s.queued + 1 })
  refused : (ret : Errno) → is_ok ret ≡ false → Armed s false (ret, s)

pub arm_in_transfer-Armed : (s : Shim) (a : ArmAnswers) → Armed s (arms a) (arm_in_transfer s a)
unfolding arm_in_transfer
arm_in_transfer-Armed s a = elim (Bool-cases a.has_buffer) [
  | inr without ↦ rw without (refused enomem refl)
  | inl buffer ↦ elim (Bool-cases (is_ok a.enqueued)) [
    | inl good ↦ rw (buffer, good) is_armed
    | inr bad ↦ rw (buffer, bad) (refused a.enqueued bad)
  ]
]

give_up-IsValid :
    {s : Shim} {is_ready : Bool} {r : Errno × Shim} (device : ℕ)
    → s.claimed_udev ≡ some device
    → s.has_in_xfer ≡ true
    → 0 < s.ep_in
    → s.buffers ≡ s.queued
    → Armed s is_ready r
    → IsValid (give_up r).1
unfolding give_up
give_up-IsValid {s = s} device c x e b is_armed = record {
  no_leak = omega arith;
  loop_runs = inr (record {
    device = device;
    claimed = c;
    allocated = x;
    in_endpoint = e;
    armed = omega arith;
  });
}
give_up-IsValid device c x e b (refused ret bad) =
    rw bad (record { no_leak = b; loop_runs = inl refl })

start_receiving-IsValid :
    (s : Shim) (has_xfer : Bool) (a : ArmAnswers) (device : ℕ)
    → s.claimed_udev ≡ some device
    → 0 < s.ep_in
    → s.receiving ≡ false
    → s.buffers ≡ s.queued
    → IsValid (start_receiving s has_xfer a).1
unfolding start_receiving
start_receiving-IsValid s true a device c e idle b =
    give_up-IsValid device c refl e b (arm_in_transfer-Armed _ a)
start_receiving-IsValid s false a device c e idle b = record { no_leak = b; loop_runs = inl idle }

claim-IsValid :
    (s : Shim) (p : Probe) (d : UsbIfDescriptor)
    → s.receiving ≡ false
    → s.buffers ≡ s.queued
    → IsValid (claim s p d).1
unfolding claim discover_endpoints
claim-IsValid s p d idle b =
    let ep = walk_descriptors d.num_endpoints 0 0 d.following in
    elim (Bool-cases (ep == 0)) [
      | inl missing ↦ rw missing (record { no_leak = b; loop_runs = inl idle })
      | inr there ↦
          rw there (start_receiving-IsValid _ p.has_xfer p.armed p.udev refl (ground arith) idle b)
    ]

probe-IsValid :
    (s : Shim) (p : Probe) → s.receiving ≡ false → s.buffers ≡ s.queued → IsValid (shim_probe s p).1
unfolding shim_probe
probe-IsValid s p idle b =
    let same : IsValid s = record { no_leak = b; loop_runs = inl idle } in
    elim (Bool-cases (matches s.registered_filter p)) [
      | inr other ↦ rw other same
      | inl fits ↦ elim (Option-cases p.desc) [
        | inl missing ↦ rw (fits, missing) same
        | inr (d, found) ↦ elim (Bool-cases (takes_probes s.registered_ops)) [
          | inr without ↦ rw (fits, found, without) same
          | inl asked ↦ elim (Bool-cases (is_ok p.accepted)) [
            | inr denied ↦ rw (fits, found, asked, denied) same
            | inl allowed ↦ rw (fits, found, asked, allowed) (claim-IsValid s p d idle b)
          ]
        ]
      ]
    ]

stop_if_failed-IsValid :
    {s : Shim} {is_ready : Bool} {r : Errno × Shim} (device : ℕ)
    → s.claimed_udev ≡ some device
    → s.has_in_xfer ≡ true
    → 0 < s.ep_in
    → s.buffers ≡ s.queued
    → Armed s is_ready r
    → IsValid (stop_if_failed r)
unfolding stop_if_failed
stop_if_failed-IsValid {s = s} device c x e b is_armed = record {
  no_leak = omega arith;
  loop_runs = inr (record {
    device = device;
    claimed = c;
    allocated = x;
    in_endpoint = e;
    armed = omega arith;
  });
}
stop_if_failed-IsValid device c x e b (refused ret bad) =
    rw bad (record { no_leak = b; loop_runs = inl refl })

complete-IsValid : (s : Shim) (c : Completion) → IsValid s → IsValid (complete_one s c).1
unfolding complete_one in_xfer_cb rearm
complete-IsValid s c v = elim (Bool-cases (s.queued == 0)) [
  | inl idle ↦ rw idle v
  | inr busy ↦ elim (Bool-cases s.receiving) [
    | inr stopped ↦
        rw busy (rw stopped (record { no_leak = omega (arith, v.no_leak); loop_runs = inl refl }))
    | inl runs ↦ elim v.loop_runs [
      | inl stopped ↦ ground arith
      | inr k ↦ rw busy (
          rw runs (
            stop_if_failed-IsValid k.device k.claimed k.allocated k.in_endpoint
              (omega (arith, v.no_leak)) (arm_in_transfer-Armed _ c.armed)))
    ]
  ]
]

event-IsValid : (s : Shim) (e : UsbEvent) → IsValid s → IsValid (usb_event s e)
unfolding usb_event shim_removed
event-IsValid s (probes p) v = elim (Bool-cases s.receiving) [
  | inl taken ↦ simp taken v
  | inr free ↦ simp free (probe-IsValid s p free v.no_leak)
]
event-IsValid s removes v = record { no_leak = v.no_leak; loop_runs = inl refl }
event-IsValid s (completes c) v = complete-IsValid s c v

-- Through devices that come and go and transfers that succeed, fail or cannot be armed again, in any
-- order: every buffer that is allocated is in a transfer that Zephyr has, so none leaks, and as long as
-- the shim takes itself to be receiving, a device is claimed, its IN endpoint is known, and a transfer
-- is with Zephyr.
pub run_usb-IsValid : (s : Shim) (es : List UsbEvent) → IsValid s → IsValid (run_usb s es)
unfolding run_usb
run_usb-IsValid s [] v = v
run_usb-IsValid s (e ∷ es) v = run_usb-IsValid (usb_event s e) es (event-IsValid s e v)
