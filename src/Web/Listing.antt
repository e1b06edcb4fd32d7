-- ===== src/Web/Listing.antt =====
-- QcWifiWebTransport.hpp: what the transport promises of its contents, and that its buffers, flags and
-- threads implement it.
use qcremote.Prelude.{
  if◌then◌else◌, ℕ, ◌≡◌, refl, sym, ap, ◌∙◌, Bool, true, false, Option, none, some, List, [], ◌∷◌,
  ◌++◌,
}
use qcremote.Web.Effects.{
  IsFresh, Reach-IsFresh, begin_broadcast_lem, get_presets_lem, add_ws_client_lem, listing_text,
  poll_client_lem, push_to_lem, add_ws_client_lem,
}
use qcremote.Catalog.Snapshot.{QcCatalogSnapshot}
use qcremote.Web.Threads.{
  Step, World, Reach, all_polled, all_pushed, announce, announces, connects, gets, poll, polls,
  publishes_catalog, publishes_change, pushes, times_out, wakes, here, next, push, signals,
}
use qcremote.Web.{
  QcPresetChangeEvent, append_last_change, json_capacity, startup_snapshot, begin_broadcast,
  new_transport, request_initial_send,
}

-- The promise, without the flags and the buffers: the last listing, and the last change that no
-- broadcast has told yet.
pub record Board : Type 0 where
  pub latest : QcCatalogSnapshot
  pub pending : Option QcPresetChangeEvent
  pub served : List (List ℕ)
  pub broadcasts : List (List ℕ)

abbrev pub message_text : Board → List ℕ
message_text b = elim b.pending [
  | none ↦ listing_text b.latest
  | some e ↦ append_last_change json_capacity e (listing_text b.latest)
]

abbrev pub start_board : Board
start_board = record { latest = startup_snapshot; pending = none; served = []; broadcasts = [] }

-- What is asked of it, one at a time.
pub data BoardEvent : Type 0 where
  listed : QcCatalogSnapshot → BoardEvent
  changed : QcPresetChangeEvent → BoardEvent
  asked : BoardEvent
  broadcast : BoardEvent

abbrev pub board_after : Board → BoardEvent → Board
board_after b (listed snapshot) = record b { latest = snapshot }
board_after b (changed e) = record b { pending = some e }
board_after b asked = record b { served = listing_text b.latest ∷ b.served }
board_after b broadcast = record b { pending = none; broadcasts = message_text b ∷ b.broadcasts }

-- The board after events, the last of which stands first.
abbrev pub run_board : List BoardEvent → Board
run_board [] = start_board
run_board (e ∷ es) = board_after (run_board es) e

-- What a step of the threads asks of the board; the steps of the clients and the worker's others ask
-- nothing.
abbrev pub event_of : {w v : World} → Step w v → List BoardEvent
event_of (publishes_catalog w snapshot) = listed snapshot ∷ []
event_of (publishes_change w e) = changed e ∷ []
event_of (gets w) = asked ∷ []
event_of (connects w sock h) = []
event_of (signals w n h) = []
event_of (wakes w h k) = []
event_of (times_out w h k) = []
event_of (announces w h) = broadcast ∷ []
event_of (pushes w text sock rest is_sent h) = []
event_of (all_pushed w text h) = []
event_of (polls w sock rest received h) = []
event_of (all_polled w h) = []

abbrev pub trace : {w : World} → Reach w → List BoardEvent
trace here = []
trace (next r s) = event_of s ++ trace r

abbrev run_from : Board → List BoardEvent → Board
run_from b [] = b
run_from b (e ∷ es) = board_after (run_from b es) e

run_board-append : (es fs : List BoardEvent) → run_board (es ++ fs) ≡ run_from (run_board fs) es
run_board-append [] fs = refl
run_board-append (e ∷ es) fs = ap (λ b. board_after b e) (run_board-append es fs)

abbrev pub pending_change : Bool → QcPresetChangeEvent → Option QcPresetChangeEvent
pending_change is_pending e = if is_pending then some e else none

abbrev pub board : World → Board
board w = record {
  latest = w.transport.catalog_snapshot;
  pending = pending_change w.transport.change_pending w.transport.last_change_event;
  served = w.served;
  broadcasts = w.broadcasts;
}

message_text-board :
    (w : World)
    → (if w.transport.change_pending
        then append_last_change json_capacity w.transport.last_change_event
            (listing_text w.transport.catalog_snapshot)
        else listing_text w.transport.catalog_snapshot)
      ≡ message_text (board w)
message_text-board w = by_pending w.transport.change_pending
  where
    by_pending :
        (p : Bool)
        → (if p
            then append_last_change json_capacity w.transport.last_change_event
                (listing_text w.transport.catalog_snapshot)
            else listing_text w.transport.catalog_snapshot)
          ≡ elim (pending_change p w.transport.last_change_event) [
            | none ↦ listing_text w.transport.catalog_snapshot
            | some e ↦
                append_last_change json_capacity e (listing_text w.transport.catalog_snapshot)
          ]
    by_pending true = refl
    by_pending false = refl

-- What a broadcast sends.
pub broadcast_json-begin_broadcast :
    (w : World)
    → IsFresh w.transport
    → (begin_broadcast w.transport).broadcast_json ≡ message_text (board w)
broadcast_json-begin_broadcast w fresh =
    ap (λ t. t.broadcast_json) (begin_broadcast_lem w.transport fresh) ∙ message_text-board w

announced :
    (w : World)
    → IsFresh w.transport
    → board (announce w)
      ≡ record (board w) { pending = none; broadcasts = message_text (board w) ∷ w.broadcasts }
unfolding announce
announced w fresh =
    let e = begin_broadcast_lem w.transport fresh in
    λ i. record {
      latest = (e i).catalog_snapshot;
      pending = pending_change ((e i).change_pending) ((e i).last_change_event);
      served = w.served;
      broadcasts = broadcast_json-begin_broadcast w fresh i ∷ w.broadcasts;
    }

Step-board :
    {w v : World} (s : Step w v) → IsFresh w.transport → board v ≡ run_from (board w) (event_of s)
unfolding push poll request_initial_send
Step-board (publishes_catalog w snapshot) fresh = refl
Step-board (publishes_change w e) fresh = refl
Step-board (gets w) fresh = rw (get_presets_lem w fresh) refl
Step-board (connects w sock h) fresh = rw (add_ws_client_lem w.transport sock) refl
Step-board (signals w n h) fresh = refl
Step-board (wakes w h k) fresh = refl
Step-board (times_out w h k) fresh = refl
Step-board (announces w h) fresh = announced w fresh
Step-board (pushes w text sock rest is_sent h) fresh =
    rw (push_to_lem w.transport sock is_sent) refl
Step-board (all_pushed w text h) fresh = refl
Step-board (polls w sock rest received h) fresh =
    rw (poll_client_lem w.transport sock received) refl
Step-board (all_polled w h) fresh = refl

-- Whatever the threads of the transport do, and in whatever order: what is served and broadcast is what
-- the board says that is driven by the same publishes, requests and broadcasts in the same order. A
-- response is always the encoding of the last listing that was published before it, or of an empty
-- incomplete one before the first; a broadcast is that encoding, with the last change that was published
-- before it if no broadcast has come since that one, and without a change otherwise.
pub board-Reach : {w : World} (r : Reach w) → board w ≡ run_board (trace r)
unfolding new_transport
board-Reach here = refl
board-Reach (next r s) =
    Step-board s (Reach-IsFresh r)
    ∙ ap (λ b. run_from b (event_of s)) (board-Reach r)
    ∙ sym (run_board-append (event_of s) (trace r))
