-- ===== src/Usb/Delivery.antt =====
-- usbh_shim.c with QcHidBridge.hpp and QcSession.hpp: the transfers that complete are what the bridge
-- receives.
use qcremote.Prelude.{
  if◌then◌else◌, Bool-cases, length, ℕ, suc, ◌+◌, ◌-◌, ◌/◌, ◌≤◌, ◌≡◌, refl, ap, ◌∙◌, inl, inr, Bool,
  true, false, ◌&&◌, Option, none, some, List, [], ◌∷◌, ◌++◌, arith,
}
use qcremote.FileStream.Finish.{report}
use qcremote.Hid.Chunker.{reports}
use qcremote.Session.Transfers.{after_transfers, receive-reports}
use qcremote.Session.{handle_message, message_capacity}
use mathlib.Core.Path.{subst}
use qcremote.Session.Bridge.{QcHidBridge, on_report_in, receive}
use qcremote.Usb.{
  Shim, arm_in_transfer, in_xfer_cb, stop_if_failed, takes_reports, rearm, arms, Errno, ArmAnswers,
}
use qcremote.Usb.Receive.{Completion, complete_one, Armed, arm_in_transfer-Armed, is_armed, refused}

-- on_report_in of the shim goes through UsbHostClass to the bridge's onReportIn. Its `instance` is set
-- before the operations are registered and is never cleared: a report finds the bridge there.
unfoldable pub deliver : Option (List ℕ) × Shim → QcHidBridge → Shim × QcHidBridge
deliver (none, s) b = (s, b)
deliver (some report, s) b = (s, on_report_in b report)

unfoldable pub receive_transfers : Shim → QcHidBridge → List Completion → Shim × QcHidBridge
receive_transfers s b [] = (s, b)
receive_transfers s b (c ∷ cs) =
    let (t, d) = deliver (complete_one s c) b in receive_transfers t d cs

-- The completions up to the first behind which the transfer cannot be armed again.
abbrev pub until_stop : List Completion → List Completion
until_stop [] = []
until_stop (c ∷ cs) = if arms c.armed then c ∷ until_stop cs else c ∷ []

abbrev pub all_arm : List Completion → Bool
all_arm [] = true
all_arm (c ∷ cs) = arms c.armed && all_arm cs

abbrev pub good_reports : List Completion → List (List ℕ)
good_reports [] = []
good_reports (c ∷ cs) = if c.failed then good_reports cs else c.report ∷ good_reports cs

-- The shim while its transfer is with Zephyr, and after the receive loop has stopped.
abbrev pub at_work : Shim → Shim
at_work s = record s { has_in_xfer = true; receiving = true; queued = 1; buffers = 1 }

abbrev pub at_rest : Shim → Shim
at_rest s = record s { has_in_xfer = true; receiving = false; queued = 0; buffers = 0 }

-- Nothing comes once no transfer is with Zephyr.
silent :
    (s : Shim) (b : QcHidBridge) (cs : List Completion)
    → receive_transfers (at_rest s) b cs ≡ (at_rest s, b)
unfolding receive_transfers complete_one deliver
silent s b [] = refl
silent s b (c ∷ cs) = silent s b cs

rearmed :
    {t : Shim} {r : Errno × Shim}
    → Armed t true r
    → stop_if_failed r ≡ record t { buffers = t.buffers + 1; queued = t.queued + 1 }
unfolding stop_if_failed
rearmed is_armed = refl

stopped :
    {t : Shim} {r : Errno × Shim}
    → Armed t false r
    → stop_if_failed r ≡ record t { receiving = false }
unfolding stop_if_failed
stopped (refused ret bad) = rw bad refl

one_completion :
    (s : Shim) (b : QcHidBridge) (c : Completion)
    → takes_reports s.registered_ops ≡ true
    → deliver (complete_one (at_work s) c) b
      ≡ (if arms c.armed then at_work s else at_rest s, receive b (good_reports (c ∷ [])))
unfolding complete_one in_xfer_cb rearm deliver receive
one_completion s b c h =
    let t : Shim = record (at_work s) { queued = 0; buffers = 0 } in
    elim (Bool-cases (arms c.armed)) [
      | inl good ↦
          let e = rearmed (
            subst (λ g. Armed t g (arm_in_transfer t c.armed)) good
              (arm_in_transfer-Armed t c.armed)) in
          rw (good, e, h) (delivered c.failed (at_work s))
      | inr bad ↦
          let e = stopped (
            subst (λ g. Armed t g (arm_in_transfer t c.armed)) bad
              (arm_in_transfer-Armed t c.armed)) in
          rw (bad, e, h) (delivered c.failed (at_rest s))
    ]
  where
    delivered :
        (failed : Bool) (u : Shim)
        → deliver (if failed then none else some c.report, u) b
          ≡ (u, receive b (if failed then [] else c.report ∷ []))
    delivered true u = refl
    delivered false u = refl

receive-append :
    (b : QcHidBridge) (ts us : List (List ℕ)) → receive b (ts ++ us) ≡ receive (receive b ts) us
unfolding receive
receive-append b [] us = refl
receive-append b (t ∷ ts) us = receive-append (on_report_in b t) ts us

good_reports-cons :
    (c : Completion) (cs : List Completion)
    → good_reports (c ∷ cs) ≡ good_reports (c ∷ []) ++ good_reports cs
good_reports-cons c cs = ground arith

-- While a transfer is with Zephyr, the reports of the transfers that complete without an error are
-- handed to the bridge, each once and in order, up to the first behind which the transfer cannot be
-- armed again, that one included. A transfer with an error is skipped and the loop goes on. If every
-- transfer is armed again, the shim is as before; else it has stopped, with no buffer left behind.
pub receive_transfers_lem :
    (s : Shim) (b : QcHidBridge) (cs : List Completion)
    → takes_reports s.registered_ops ≡ true
    → receive_transfers (at_work s) b cs
      ≡ (if all_arm cs then at_work s else at_rest s, receive b (good_reports (until_stop cs)))
unfolding receive_transfers receive
receive_transfers_lem s b [] h = refl
receive_transfers_lem s b (c ∷ cs) h = elim (Bool-cases (arms c.armed)) [
  | inl good ↦ rw (one_completion s b c h) (
      rw
        (
          good,
          good_reports-cons c (until_stop cs),
          receive-append b (good_reports (c ∷ [])) (good_reports (until_stop cs)),
        )
        (receive_transfers_lem s (receive b (good_reports (c ∷ []))) cs h))
  | inr bad ↦ rw (one_completion s b c h) (rw bad (silent s (receive b (good_reports (c ∷ []))) cs))
]

abbrev pub arrivals : ArmAnswers → List (List ℕ) → List Completion
arrivals a [] = []
arrivals a (r ∷ rs) = record { failed = false; report = r; armed = a } ∷ arrivals a rs

good_arrivals :
    (a : ArmAnswers) (rs : List (List ℕ))
    → arms a ≡ true
    → (all_arm (arrivals a rs) ≡ true) × (good_reports (until_stop (arrivals a rs)) ≡ rs)
good_arrivals a [] h = (refl, refl)
good_arrivals a (r ∷ rs) h =
    let (all, good) = good_arrivals a rs h in (rw (h, all) refl, rw (h, good) refl)

-- From the cable to the handlers: the reports that the chunker makes of a message of at most 131072
-- bytes, each in a transfer that completes and is armed again, hand the message to handleMessage once
-- and whole, after as many counted transfers, and the shim goes on as before.
pub message_over_usb :
    (s : Shim) (b : QcHidBridge) (m : List ℕ) (id : ℕ) (a : ArmAnswers)
    → takes_reports s.registered_ops ≡ true
    → arms a ≡ true
    → b.partial_report ≡ []
    → length m ≤ message_capacity
    → receive_transfers (at_work s) b (arrivals a (reports m id)) ≡ (
      at_work s,
      record b {
        reassembler = record { buffer = m; overflowing = false; overflow_size = 0 };
        session = handle_message (after_transfers (suc ((length m - 1) / 126)) b.session) m;
      },
    )
message_over_usb s b m id a h good p fits =
    let (all, same) = good_arrivals a (reports m id) good in
    receive_transfers_lem s b (arrivals a (reports m id)) h
    ∙ rw (all, same) (ap (λ d. (at_work s, d)) (receive-reports b m id p fits))
