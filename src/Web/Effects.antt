-- ===== src/Web/Effects.antt =====
-- QcWifiWebTransport.hpp: its operations as changes of the state, where the JSON is of the last listing
-- unless it is marked as old; it always is.
use qcremote.Prelude.{
  leb, if◌then◌else◌, Bool-cases, length, ℕ, ◌≡◌, refl, inl, inr, Bool, true, false, none, some,
  List, [], ◌∷◌, ◌++◌, arith,
}
use qcremote.Catalog.Snapshot.{QcCatalogSnapshot}
use qcremote.Json.{encode_catalog_json}
use qcremote.Web.{
  QcWifiWebTransport, Reaction, Received, add_ws_client, append_last_change, begin_broadcast,
  encode_if_dirty, erase, handle_presets_get, json_capacity, keep_on, max_ws_clients, new_transport,
  poll_client, push_to, reaction, remove_ws_client, reply_pong, request_initial_send, unregister,
}
use qcremote.Web.Threads.{
  Reach, Step, World, all_polled, all_pushed, announce, announces, connects, get_presets, gets,
  here, next, poll, polls, publishes_catalog, publishes_change, push, pushes, times_out, wakes,
  signals,
}

abbrev pub listing_text : QcCatalogSnapshot → List ℕ
listing_text s = encode_catalog_json json_capacity s

-- The JSON is of the last snapshot unless it is marked as old.
unfoldable pub IsFresh : QcWifiWebTransport → Type 0
IsFresh t = t.catalog_dirty ≡ false → t.catalog_json ≡ listing_text t.catalog_snapshot

pub encode_if_dirty_lem :
    (t : QcWifiWebTransport)
    → IsFresh t
    → encode_if_dirty t
      ≡ record t { catalog_json = listing_text t.catalog_snapshot; catalog_dirty = false }
unfolding IsFresh encode_if_dirty
encode_if_dirty_lem t fresh = elim (Bool-cases t.catalog_dirty) [
  | inl dirty ↦ simp dirty
  | inr clean ↦ ground (arith, fresh clean)
]

pub begin_broadcast_lem :
    (t : QcWifiWebTransport)
    → IsFresh t
    → begin_broadcast t ≡ record t {
      catalog_json = listing_text t.catalog_snapshot;
      catalog_dirty = false;
      change_pending = false;
      broadcast_json =
          if t.change_pending
          then append_last_change json_capacity t.last_change_event
              (listing_text t.catalog_snapshot)
          else listing_text t.catalog_snapshot;
    }
unfolding begin_broadcast
begin_broadcast_lem t fresh = rw (encode_if_dirty_lem t fresh) refl

handle_presets_get_lem :
    (t : QcWifiWebTransport)
    → IsFresh t
    → handle_presets_get t true ≡ (
      record t {
        catalog_json = listing_text t.catalog_snapshot;
        catalog_dirty = false;
        response_json = listing_text t.catalog_snapshot;
      },
      some (listing_text t.catalog_snapshot),
    )
unfolding handle_presets_get
handle_presets_get_lem t fresh = rw (encode_if_dirty_lem t fresh) refl

pub get_presets_lem :
    (w : World)
    → IsFresh w.transport
    → get_presets w ≡ record w {
      transport = record w.transport {
        catalog_json = listing_text w.transport.catalog_snapshot;
        catalog_dirty = false;
        response_json = listing_text w.transport.catalog_snapshot;
      };
      served = listing_text w.transport.catalog_snapshot ∷ w.served;
    }
unfolding get_presets
get_presets_lem w fresh = λ i. record w {
  transport = (handle_presets_get_lem w.transport fresh i).0;
  served = elim ((handle_presets_get_lem w.transport fresh i).1) [
    | none ↦ w.served
    | some body ↦ body ∷ w.served
  ];
}

-- The operations on the clients change nothing else.
pub push_to_lem :
    (t : QcWifiWebTransport) (sock : ℕ) (is_sent : Bool)
    → push_to t sock is_sent
      ≡ record t { ws_sockets = if is_sent then t.ws_sockets else erase sock t.ws_sockets }
unfolding push_to remove_ws_client
push_to_lem t sock true = refl
push_to_lem t sock false = refl

-- The clients that a reaction leaves.
abbrev pub left_clients : Reaction → ℕ → List ℕ → List ℕ
left_clients keep_on sock ss = ss
left_clients unregister sock ss = erase sock ss
left_clients reply_pong sock ss = ss

pub poll_client_lem :
    (t : QcWifiWebTransport) (sock : ℕ) (received : Received)
    → poll_client t sock received
      ≡ record t { ws_sockets = left_clients (reaction received) sock t.ws_sockets }
unfolding poll_client remove_ws_client
poll_client_lem t sock received = by_reaction (reaction received)
  where
    by_reaction :
        (r : Reaction)
        → elim r [
          | keep_on ↦ t
          | unregister ↦ record t { ws_sockets = erase sock t.ws_sockets }
          | reply_pong ↦ t
        ]
          ≡ record t { ws_sockets = left_clients r sock t.ws_sockets }
    by_reaction keep_on = refl
    by_reaction unregister = refl
    by_reaction reply_pong = refl

pub add_ws_client_lem :
    (t : QcWifiWebTransport) (sock : ℕ)
    → add_ws_client t sock ≡ record t {
      ws_sockets =
          if leb max_ws_clients (length t.ws_sockets)
          then t.ws_sockets
          else t.ws_sockets ++ sock ∷ [];
    }
unfolding add_ws_client
add_ws_client_lem t sock = elim (Bool-cases (leb max_ws_clients (length t.ws_sockets))) [
  | inl full ↦ simp full
  | inr free ↦ simp free
]

Step-IsFresh : {w v : World} → Step w v → IsFresh w.transport → IsFresh v.transport
unfolding IsFresh get_presets announce push poll request_initial_send
Step-IsFresh (publishes_catalog w snapshot) fresh = λ clean. ground arith
Step-IsFresh (publishes_change w e) fresh = fresh
Step-IsFresh (gets w) fresh = rw (handle_presets_get_lem w.transport fresh) (λ clean. refl)
Step-IsFresh (connects w sock h) fresh = rw (add_ws_client_lem w.transport sock) fresh
Step-IsFresh (signals w n h) fresh = fresh
Step-IsFresh (wakes w h k) fresh = fresh
Step-IsFresh (times_out w h k) fresh = fresh
Step-IsFresh (announces w h) fresh = rw (begin_broadcast_lem w.transport fresh) (λ clean. refl)
Step-IsFresh (pushes w text sock rest is_sent h) fresh =
    rw (push_to_lem w.transport sock is_sent) fresh
Step-IsFresh (all_pushed w text h) fresh = fresh
Step-IsFresh (polls w sock rest received h) fresh =
    rw (poll_client_lem w.transport sock received) fresh
Step-IsFresh (all_polled w h) fresh = fresh

pub Reach-IsFresh : {w : World} → Reach w → IsFresh w.transport
unfolding IsFresh new_transport
Reach-IsFresh here = λ clean. refl
Reach-IsFresh (next r s) = Step-IsFresh s (Reach-IsFresh r)
