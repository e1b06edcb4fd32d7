-- ===== src/Web.antt =====
-- QcWifiWebTransport.hpp: the web transport. It keeps the last listing that it was given, serves it as
-- JSON, and pushes it to at most two websocket clients. There is one transport, to which `instance_`
-- points from its constructor on.
pub mod Threads
pub mod Effects
pub mod Listing
pub mod Clients
pub mod LastChange
pub mod Station
pub mod AccessPoint
mod Tests
use qcremote.Prelude.{
  leb, ◌==◌, if◌then◌else◌, length, ℕ, zero, suc, Bool, true, false, Option, none, some, List, [],
  ◌∷◌, ◌++◌,
}
use qcremote.Json.{append_literal, append_uint, encode_catalog_json}
use qcremote.Prelude.Text.{codes}
use qcremote.Catalog.Snapshot.{QcCatalogSnapshot, blank_snapshot}

-- QcPresetTransport.hpp's `QcPresetChangeEvent`.
pub record QcPresetChangeEvent : Type 0 where
  pub command : ℕ
  pub count : ℕ

abbrev pub no_change : QcPresetChangeEvent
no_change = record { command = 0; count = 0 }

-- `broadcast_sem` is the semaphore `broadcastSem_`, whose limit is 1.
pub record QcWifiWebTransport : Type 0 where
  pub thread_started : Bool
  pub http_server_started : Bool
  pub broadcast_sem : Bool
  pub catalog_snapshot : QcCatalogSnapshot
  pub catalog_dirty : Bool
  pub catalog_json : List ℕ
  pub broadcast_json : List ℕ
  pub response_json : List ℕ
  pub ws_sockets : List ℕ
  pub last_change_event : QcPresetChangeEvent
  pub change_pending : Bool

abbrev pub json_capacity : ℕ
json_capacity = 16384

abbrev pub max_ws_clients : ℕ
max_ws_clients = 2

-- What the constructor encodes before anything was published.
abbrev pub startup_snapshot : QcCatalogSnapshot
startup_snapshot = record blank_snapshot { incomplete = true }

unfoldable pub new_transport : QcWifiWebTransport
new_transport = record {
  thread_started = false;
  http_server_started = false;
  broadcast_sem = false;
  catalog_snapshot = startup_snapshot;
  catalog_dirty = false;
  catalog_json = encode_catalog_json json_capacity startup_snapshot;
  broadcast_json = [];
  response_json = [];
  ws_sockets = [];
  last_change_event = no_change;
  change_pending = false;
}

-- `is_up` is whether http_server_start answers 0.
unfoldable pub start_server : QcWifiWebTransport → Bool → QcWifiWebTransport
start_server t is_up = record t { http_server_started = is_up; thread_started = true }

-- k_sem_give, that many times, of a semaphore whose limit is 1.
abbrev pub give : QcWifiWebTransport × ℕ → QcWifiWebTransport
give (t, zero) = t
give (t, suc n) = record t { broadcast_sem = true }

-- publishCatalog up to the end of its guarded block, and the k_sem_give calls behind it: another thread
-- may come between the two.
abbrev pub publish_catalog_block : QcWifiWebTransport → QcCatalogSnapshot → QcWifiWebTransport × ℕ
publish_catalog_block t snapshot =
    (record t { catalog_snapshot = snapshot; catalog_dirty = true }, 1)

unfoldable pub publish_catalog : QcWifiWebTransport → QcCatalogSnapshot → QcWifiWebTransport
publish_catalog t snapshot = give (publish_catalog_block t snapshot)

-- The same for publishPresetChange.
abbrev pub publish_change_block : QcWifiWebTransport → QcPresetChangeEvent → QcWifiWebTransport × ℕ
publish_change_block t event = (record t { last_change_event = event; change_pending = true }, 1)

unfoldable pub publish_preset_change : QcWifiWebTransport → QcPresetChangeEvent → QcWifiWebTransport
publish_preset_change t event = give (publish_change_block t event)

unfoldable pub encode_if_dirty : QcWifiWebTransport → QcWifiWebTransport
encode_if_dirty t =
    if t.catalog_dirty
    then record t {
      catalog_json = encode_catalog_json json_capacity t.catalog_snapshot;
      catalog_dirty = false;
    }
    else t

-- The block that handlePresetsGet guards; the body of the response is `response_json`.
respond : QcWifiWebTransport → QcWifiWebTransport
respond t = record t { response_json = t.catalog_json }

-- `is_final` is whether the transaction's status is HTTP_SERVER_REQUEST_DATA_FINAL. The answer is the
-- body of the response.
unfoldable pub handle_presets_get : QcWifiWebTransport → Bool → QcWifiWebTransport × Option (List ℕ)
unfolding respond
handle_presets_get t is_final =
    if is_final
    then (respond (encode_if_dirty t), some (encode_if_dirty t).catalog_json)
    else (t, none)

unfoldable pub add_ws_client : QcWifiWebTransport → ℕ → QcWifiWebTransport
add_ws_client t sock =
    if leb max_ws_clients (length t.ws_sockets)
    then t
    else record t { ws_sockets = t.ws_sockets ++ sock ∷ [] }

-- `std::find` and `erase`: the first entry goes.
unfoldable pub erase : ℕ → List ℕ → List ℕ
erase sock [] = []
erase sock (s ∷ ss) = let rest = erase sock ss in if s == sock then ss else s ∷ rest

unfoldable pub remove_ws_client : QcWifiWebTransport → ℕ → QcWifiWebTransport
remove_ws_client t sock = record t { ws_sockets = erase sock t.ws_sockets }

unfoldable pub request_initial_send : QcWifiWebTransport → QcWifiWebTransport
request_initial_send t = record t { broadcast_sem = true }

-- The same for handleWsSetup, whose guarded block is addWsClient's, and whose requestInitialSend is the
-- call of k_sem_give.
abbrev pub ws_setup_block : QcWifiWebTransport → ℕ → QcWifiWebTransport × ℕ
ws_setup_block t sock = (add_ws_client t sock, 1)

unfoldable pub handle_ws_setup : QcWifiWebTransport → ℕ → QcWifiWebTransport
handle_ws_setup t sock = give (ws_setup_block t sock)

unfoldable pub pop_back : List ℕ → List ℕ
pop_back [] = []
pop_back (c ∷ []) = []
pop_back (c ∷ d ∷ text) = c ∷ pop_back (d ∷ text)

unfoldable pub append_last_change : ℕ → QcPresetChangeEvent → List ℕ → List ℕ
append_last_change capacity event out =
    append_literal capacity
      (append_uint capacity
        (append_literal capacity
          (append_uint capacity
            (append_literal capacity (pop_back out) (codes ",\"lastChange\":{\"command\":"))
            event.command)
          (codes ",\"count\":"))
        event.count)
      (codes "}}")

-- The block that broadcast guards, after encodeIfDirtyLocked. What it copies, the message and the
-- sockets, is read off the state.
prepare : QcWifiWebTransport → QcWifiWebTransport
prepare t = record t {
  change_pending = false;
  broadcast_json =
      if t.change_pending
      then append_last_change json_capacity t.last_change_event t.catalog_json
      else t.catalog_json;
}

unfoldable pub begin_broadcast : QcWifiWebTransport → QcWifiWebTransport
unfolding prepare
begin_broadcast t = prepare (encode_if_dirty t)

-- A round of broadcast's loop: `is_sent` is whether websocket_send_msg answers 0 or more.
unfoldable pub push_to : QcWifiWebTransport → ℕ → Bool → QcWifiWebTransport
push_to t sock is_sent = if is_sent then t else remove_ws_client t sock

-- What websocket_recv_msg answers: -EAGAIN, another error, or a frame with its type's flags.
pub data Received : Type 0 where
  again : Received
  error : Received
  frame : (is_close is_ping : Bool) → Received

-- What pollWsClients does with the answer.
pub data Reaction : Type 0 where
  keep_on : Reaction
  unregister : Reaction
  reply_pong : Reaction

unfoldable pub reaction : Received → Reaction
reaction again = keep_on
reaction error = unregister
reaction (frame is_close is_ping) =
    if is_close then unregister else if is_ping then reply_pong else keep_on

-- A round of pollWsClients's loop.
unfoldable pub poll_client : QcWifiWebTransport → ℕ → Received → QcWifiWebTransport
poll_client t sock received = elim (reaction received) [
  | keep_on ↦ t
  | unregister ↦ remove_ws_client t sock
  | reply_pong ↦ t
]
