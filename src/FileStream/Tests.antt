-- ===== src/FileStream/Tests.antt =====
-- Runs of the stream, and the theorems at concrete inputs.
use qcremote.Prelude.{◌≡◌, refl, false, some, List, [], ◌∷◌, ◌++◌, arith}
use qcremote.FileStream.Finish.{report}
use qcremote.FileStream.Ending.{
  Ends, StreamStep, check, event, overall_timeout, run_steps, run_steps-Ends,
}
use qcremote.FileStream.{FileStream, start, check_timeout, Summary}
use qcremote.FileStream.History.{Event, message, failed, handle_all, seen, handle_all-start}

abbrev old : FileStream
old = record {
  active = false;
  message_count = 9;
  compressed_count = 1;
  failed_count = 1;
  total_wire_bytes = 70;
  total_inflated_bytes = 70;
  max_wire_bytes = 30;
  max_inflated_bytes = 30;
  started_at_ms = 5;
  last_message_at_ms = 6;
}

abbrev events : List Event
events = message 110 40 32 false ∷ failed 120 50 (some 40000) ∷ []

abbrev running : FileStream
running = seen 100 events

seen_sizes : (running.max_inflated_bytes ≡ 40000) × (running.failed_count ≡ 1)
seen_sizes = (refl, refl)

finished :
    check_timeout running 5120 ≡ (some (report running 5120), record running { active = false })
unfolding check_timeout
finished = refl

handle_all-start_example : handle_all (start old 100) events ≡ running
handle_all-start_example = handle_all-start old 100 events

abbrev as_steps : List Event → List StreamStep
as_steps [] = []
as_steps (e ∷ es) = event e ∷ as_steps es

-- The events, and three checks.
abbrev steps : List StreamStep
steps = as_steps events ++ check 5118 ∷ check 5119 ∷ check 30200 ∷ []

run_steps-Ends_example : Ends 100 [] steps (run_steps (start old 100) steps)
run_steps-Ends_example = run_steps-Ends old 100 steps

overall_timeout_example :
    (r : Summary) × ((run_steps (start old 100) steps).0 ≡ r ∷ [])
    × ((run_steps (start old 100) steps).1.active ≡ false)
overall_timeout_example =
    overall_timeout old 100 30200 (as_steps events ++ check 5118 ∷ check 5119 ∷ []) [] (omega arith)
