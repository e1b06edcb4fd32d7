-- ===== src/Usb/Tests.antt =====
-- The USB shim's theorems at concrete inputs.
use qcremote.Prelude.{◌≡◌, refl, inl, true, false, some, [], ◌∷◌, arith}
use qcremote.Usb.Send.{qc_usbh_send_report}
use qcremote.Session.{handle_message}
use qcremote.Usb.Delivery.{
  at_rest, at_work, message_over_usb, receive_transfers, receive_transfers_lem, arrivals,
}
use qcremote.Session.Transfers.{after_transfers, aligned}
use qcremote.Session.Bridge.{receive}
use qcremote.Hid.Chunker.{reports}
use qcremote.Usb.Receive.{Completion, IsValid, run_usb, run_usb-IsValid, probes, completes, removes}
use qcremote.Usb.Claim.{Claimed, claimed_after_failure, shim_probe-Claimed, idle}
use qcremote.Usb.{
  ArmAnswers, Probe, Shim, UsbIfDescriptor, all_ops, new_shim, other_descriptor, shim_probe, ok,
  endpoint, interface, enomem,
}
use qcremote.Session.Samples.{session, long_message}
use qcremote.Hid.Reassembler.{cleared}

abbrev registered : Shim
registered = record new_shim {
  registered_filter = record { vid = 1; pid = 2; iface = 5 };
  registered_ops = some all_ops;
}

-- Two IN endpoints: the last one is recorded.
abbrev hid : UsbIfDescriptor
hid = record {
  num_endpoints = 2;
  interface_class = 3;
  following = other_descriptor ∷ endpoint 0x81 ∷ endpoint 0x82 ∷ interface ∷ endpoint 0x83 ∷ [];
}

abbrev all_well : ArmAnswers
all_well = record { has_buffer = true; enqueued = ok }

abbrev unit : Probe
unit = record {
  udev = 7;
  vendor = 1;
  product = 2;
  desc = some hid;
  accepted = ok;
  has_xfer = true;
  armed = all_well;
}

shim_probe-Claimed_example : Claimed registered unit (shim_probe (idle registered) unit)
shim_probe-Claimed_example = shim_probe-Claimed registered unit

abbrev lost : Completion
lost = record { failed = true; report = []; armed = record { has_buffer = false; enqueued = ok } }

new_shim-IsValid : IsValid registered
new_shim-IsValid = record { no_leak = refl; loop_runs = inl refl }

run_usb-IsValid_example :
    IsValid (run_usb registered (probes unit ∷ completes lost ∷ removes ∷ probes unit ∷ []))
run_usb-IsValid_example =
    run_usb-IsValid registered (probes unit ∷ completes lost ∷ removes ∷ probes unit ∷ [])
      new_shim-IsValid

receive_transfers_lem_example :
    receive_transfers (at_work registered) (aligned cleared session) (lost ∷ [])
    ≡ (at_rest registered, aligned cleared session)
unfolding receive
receive_transfers_lem_example =
    receive_transfers_lem registered (aligned cleared session) (lost ∷ []) refl

message_over_usb_example :
    receive_transfers
      (at_work registered)
      (aligned cleared session)
      (arrivals all_well (reports long_message 1))
    ≡ (
      at_work registered,
      record (aligned cleared session) {
        reassembler = record { buffer = long_message; overflowing = false; overflow_size = 0 };
        session = handle_message (after_transfers 3 session) long_message;
      },
    )
message_over_usb_example =
    message_over_usb registered (aligned cleared session) long_message 1 all_well refl refl refl
      (omega arith)

-- No buffer for the transfer.
abbrev unlucky : Probe
unlucky = record unit { armed = record { has_buffer = false; enqueued = ok } }

claimed_after_failure_example :
    ((shim_probe (idle registered) unlucky).0 ≡ enomem)
    × (qc_usbh_send_report (shim_probe (idle registered) unlucky).1 (2 ∷ 9 ∷ []) true ok ≡ (
      ok,
      some (record {
        device = 7;
        request_type = 0x21;
        request = 0x09;
        value = 0x202;
        index = 5;
        size = 2;
        data_bytes = 2 ∷ 9 ∷ [];
      }),
    ))
claimed_after_failure_example =
    claimed_after_failure registered unlucky hid (2 ∷ 9 ∷ []) ok
      (record { there = refl; fits = refl; asked = refl; allowed = refl }) (omega arith) refl
