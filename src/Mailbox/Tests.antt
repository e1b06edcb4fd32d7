-- ===== src/Mailbox/Tests.antt =====
-- Runs of the slot, and the theorems at concrete inputs.
use qcremote.Prelude.{length, ℕ, ◌+◌, ◌%◌, ◌^◌, ◌≡◌, refl, List, [], ◌∷◌}
use qcremote.Mailbox.{Item, take_item, submit, release}
use qcremote.Mailbox.Delivery.{
  Event, submits, takes, delivers, run_events, at_rest, submissions, IsValid, run_events-IsValid,
  accepted_or_dropped, happens, submitted, taken, delivered_item,
}

abbrev item : ℕ → Item
item n = record { command = n; bytes = n ∷ n ∷ []; wire_size = 10 }

-- The second comes while the first is held, the third after it.
abbrev traffic : List Event
traffic =
    submits (item 1)
    ∷ takes
    ∷ submits (item 2)
    ∷ delivers
    ∷ submits (item 3)
    ∷ takes
    ∷ delivers
    ∷ []

run_traffic : (run_events 2 at_rest traffic).delivered ≡ item 1 ∷ item 3 ∷ []
unfolding run_events happens submitted taken take_item submit delivered_item release
run_traffic = refl

run_events-IsValid_example : IsValid 2 (run_events 2 at_rest traffic)
run_events-IsValid_example = run_events-IsValid 2 traffic

accepted_or_dropped_example :
    (length (run_events 2 at_rest traffic).accepted
        + (run_events 2 at_rest traffic).box.dropped_count)
      % 2 ^ 32
    ≡ submissions traffic % 2 ^ 32
accepted_or_dropped_example = accepted_or_dropped 2 traffic
