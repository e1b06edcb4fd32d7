-- ===== src/Web/Threads.antt =====
-- QcWifiWebTransport.hpp: its worker thread `qc_wifi_web` among the threads that publish, the HTTP
-- server's thread and the clients, in any interleaving.
use qcremote.Prelude.{
  ◌==◌, if◌then◌else◌, ℕ, suc, ◌+◌, ◌≡◌, Bool, true, false, ◌||◌, none, some, List, [], ◌∷◌,
}
use qcremote.Catalog.Snapshot.{QcCatalogSnapshot}
use qcremote.Web.{
  QcPresetChangeEvent, QcWifiWebTransport, Received, begin_broadcast, handle_presets_get,
  new_transport, poll_client, push_to, publish_catalog_block, publish_change_block,
  request_initial_send, ws_setup_block,
}

-- Where the worker stands in `run`: at k_sem_take, behind it, in broadcast's loop with the message and
-- the sockets to go, or in pollWsClients's loop with the sockets to go.
pub data Worker : Type 0 where
  waiting : Worker
  woken : Worker
  pushing : List ℕ → List ℕ → Worker
  polling : List ℕ → Worker

-- `signalling` is how many calls of k_sem_give are due by threads that are behind their guarded block;
-- `sent` is what was pushed, to which socket, the last first; `served` the bodies of the responses, the
-- last first; `broadcasts` the messages of the broadcasts, the last first.
pub record World : Type 0 where
  pub transport : QcWifiWebTransport
  pub worker : Worker
  pub signalling : ℕ
  pub sent : List (ℕ × List ℕ)
  pub served : List (List ℕ)
  pub broadcasts : List (List ℕ)

abbrev pub contains : ℕ → List ℕ → Bool
contains sock [] = false
contains sock (s ∷ ss) = (s == sock) || contains sock ss

abbrev pub start_world : World
start_world = record {
  transport = new_transport;
  worker = waiting;
  signalling = 0;
  sent = [];
  served = [];
  broadcasts = [];
}

unfoldable pub get_presets : World → World
get_presets w = record w {
  transport = (handle_presets_get w.transport true).0;
  served = elim ((handle_presets_get w.transport true).1) [
    | none ↦ w.served
    | some body ↦ body ∷ w.served
  ];
}

-- The worker enters broadcast, or is done with one socket.
unfoldable pub announce : World → World
announce w = record w {
  transport = begin_broadcast w.transport;
  worker = pushing (begin_broadcast w.transport).broadcast_json w.transport.ws_sockets;
  broadcasts = (begin_broadcast w.transport).broadcast_json ∷ w.broadcasts;
}

unfoldable pub push : World → List ℕ → ℕ → List ℕ → Bool → World
push w text sock rest is_sent = record w {
  transport = push_to w.transport sock is_sent;
  worker = pushing text rest;
  sent = if is_sent then (sock, text) ∷ w.sent else w.sent;
}

unfoldable pub poll : World → ℕ → List ℕ → Received → World
poll w sock rest received = record w {
  transport = poll_client w.transport sock received;
  worker = polling rest;
}

-- A thread that publishes or sets up a client is through its guarded block.
abbrev pub behind_block : World → QcWifiWebTransport × ℕ → World
behind_block w (t, gives) = record w { transport = t; signalling = w.signalling + gives }

-- A socket's number is not used for a new client while it stands in the list of the clients.
pub data Step : World → World → Type 0 where
  publishes_catalog :
      (w : World) (snapshot : QcCatalogSnapshot)
      → Step w (behind_block w (publish_catalog_block w.transport snapshot))
  publishes_change :
      (w : World) (event : QcPresetChangeEvent)
      → Step w (behind_block w (publish_change_block w.transport event))
  gets : (w : World) → Step w (get_presets w)
  connects :
      (w : World) (sock : ℕ)
      → contains sock w.transport.ws_sockets ≡ false
      → Step w (behind_block w (ws_setup_block w.transport sock))
  signals :
      (w : World) (n : ℕ)
      → w.signalling ≡ suc n
      → Step w (record w { transport = request_initial_send w.transport; signalling = n })
  wakes :
      (w : World)
      → w.worker ≡ waiting
      → w.transport.broadcast_sem ≡ true
      → Step w
          (record w { transport = record w.transport { broadcast_sem = false }; worker = woken })
  -- k_sem_take returns with an error after kPollIntervalMs.
  times_out :
      (w : World)
      → w.worker ≡ waiting
      → w.transport.broadcast_sem ≡ false
      → Step w (record w { worker = polling w.transport.ws_sockets })
  announces : (w : World) → w.worker ≡ woken → Step w (announce w)
  pushes :
      (w : World) (text : List ℕ) (sock : ℕ) (rest : List ℕ) (is_sent : Bool)
      → w.worker ≡ pushing text (sock ∷ rest)
      → Step w (push w text sock rest is_sent)
  all_pushed :
      (w : World) (text : List ℕ)
      → w.worker ≡ pushing text []
      → Step w (record w { worker = polling w.transport.ws_sockets })
  polls :
      (w : World) (sock : ℕ) (rest : List ℕ) (received : Received)
      → w.worker ≡ polling (sock ∷ rest)
      → Step w (poll w sock rest received)
  all_polled : (w : World) → w.worker ≡ polling [] → Step w (record w { worker = waiting })

pub data Reach : World → Type 0 where
  here : Reach start_world
  next : {w v : World} → Reach w → Step w v → Reach v
