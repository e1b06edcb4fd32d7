-- ===== src/Web/Tests.antt =====
-- Runs of the web transport, and the theorems at concrete inputs.
use qcremote.Prelude.{ℕ, ◌≡◌, refl, Bool, true, false, ◌||◌, some, List, [], ◌∷◌, ◌++◌, arith}
use qcremote.Web.Station.{
  after_events, connect_result, disconnect_result, failure_after_events, link_dropped,
  on_wifi_event,
}
use qcremote.Json.{
  encode_catalog_json, append_literal, append_uint, reverse_onto, digits, append_end,
  encode_folders, append_header,
}
use qcremote.Web.LastChange.{append_last_change_lem, change_text, open_document}
use qcremote.Catalog.Snapshot.{FolderEntry, QcCatalogSnapshot, blank_snapshot}
use qcremote.Json.Rendering.{Shown}
use qcremote.Web.{
  add_ws_client, again, append_last_change, begin_broadcast, json_capacity, new_transport,
  encode_if_dirty, poll_client, push_to, reaction, request_initial_send, pop_back,
  publish_catalog_block, ws_setup_block,
}
use qcremote.Web.AccessPoint.{ApConfig, NetAnswers}
use qcremote.Web.Clients.Reached.{all_informed}
use qcremote.Prelude.Text.{codes}
use qcremote.Web.Clients.Informed.{Shows, last_sent}
use qcremote.Web.Listing.{board, board-Reach, run_board, trace, board-Reach, run_board, trace}
use qcremote.Web.Threads.{
  Reach, World, all_polled, all_pushed, announce, announces, connects, here, next, poll, polling,
  polls, publishes_catalog, push, pushes, start_world, waiting, wakes, woken, behind_block, signals,
}

abbrev listing : QcCatalogSnapshot
listing = record {
  folders =
      record { name = codes "My"; presets = record { index = 7; name = codes "A" } ∷ [] } ∷ [];
  preset_count = 1;
  incomplete = false;
  generation = 2;
}

change_in_listing :
    append_last_change 400
      (record { command = 49; count = 3 })
      (encode_catalog_json 300 blank_snapshot)
    ≡ codes
        "{\"generation\":0,\"presetCount\":0,\"folders\":[],\"incomplete\":false,\"lastChange\":{\"command\":49,\"count\":3}}"
unfolding append_last_change append_literal append_uint reverse_onto digits pop_back
    encode_catalog_json append_end encode_folders append_header
change_in_listing = refl

append_last_change_lem_example :
    (shown : List FolderEntry) × (left_out : Bool) × Shown listing.folders shown left_out
    × (append_last_change json_capacity
          (record { command = 49; count = 3 })
          (encode_catalog_json json_capacity listing)
        ≡ open_document (record listing { folders = shown; incomplete = false || left_out })
          ++ change_text (record { command = 49; count = 3 }))
append_last_change_lem_example =
    append_last_change_lem listing (record { command = 49; count = 3 })
      ((omega arith, (omega arith, tt)), tt)

-- A third client is not taken up.
third_client :
    (add_ws_client (record new_transport { ws_sockets = 4 ∷ 5 ∷ [] }) 6).ws_sockets ≡ 4 ∷ 5 ∷ []
unfolding add_ws_client
third_client = refl

-- A client connects, a listing is published, and the worker makes a round.
abbrev connected : World
connected = behind_block start_world (ws_setup_block start_world.transport 4)

abbrev signalled_once : World
signalled_once = record connected {
  transport = request_initial_send connected.transport;
  signalling = 0;
}

abbrev listed_there : World
listed_there = behind_block signalled_once (publish_catalog_block signalled_once.transport listing)

abbrev published : World
published = record listed_there {
  transport = request_initial_send listed_there.transport;
  signalling = 0;
}

abbrev awoken : World
awoken = record published {
  transport = record published.transport { broadcast_sem = false };
  worker = woken;
}

abbrev announced : World
announced = announce awoken

abbrev message : List ℕ
message = (begin_broadcast awoken.transport).broadcast_json

abbrev pushed : World
pushed = push announced message 4 [] true

abbrev to_poll : World
to_poll = record pushed { worker = polling pushed.transport.ws_sockets }

abbrev polled : World
polled = poll to_poll 4 [] again

abbrev round_done : World
round_done = record polled { worker = waiting }

round_done-Reach : Reach round_done
unfolding add_ws_client request_initial_send announce begin_broadcast encode_if_dirty push push_to
    poll poll_client reaction new_transport
round_done-Reach =
    next
      (next
        (next
          (next
            (next
              (next
                (next
                  (next (next (next here (connects start_world 4 refl)) (signals connected 0 refl))
                    (publishes_catalog signalled_once listing))
                  (signals listed_there 0 refl))
                (wakes published refl refl))
              (announces awoken refl))
            (pushes announced message 4 [] true refl))
          (all_pushed pushed message refl))
        (polls to_poll 4 [] again refl))
      (all_polled polled refl)

board-Reach_example : board round_done ≡ run_board (trace round_done-Reach)
board-Reach_example = board-Reach round_done-Reach

all_informed_example :
    (text : List ℕ) × (last_sent 4 round_done.sent ≡ some text)
    × Shows round_done.transport.catalog_snapshot text
unfolding add_ws_client request_initial_send announce begin_broadcast encode_if_dirty push push_to
    poll poll_client reaction new_transport
all_informed_example = all_informed 4 round_done-Reach refl refl refl refl

abbrev open_network : ApConfig
open_network = record {
  ssid_length = 8;
  psk_length = 0;
  has_app_dhcp = true;
  address = some (192 ∷ 168 ∷ 4 ∷ 1 ∷ []);
}

abbrev all_well : NetAnswers
all_well = record {
  has_interface = true;
  address_added = true;
  netmask_set = true;
  dhcp_started = true;
}

failure_after_events_example :
    (on_wifi_event
      (after_events false (connect_result (some true) ∷ disconnect_result ∷ []))
      (connect_result (some false))).1
    ≡ link_dropped
failure_after_events_example =
    failure_after_events (connect_result (some true) ∷ disconnect_result ∷ []) (some false) refl
