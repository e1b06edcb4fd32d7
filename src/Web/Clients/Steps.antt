-- ===== src/Web/Clients/Steps.antt =====
-- QcWifiWebTransport.hpp: no step of a thread leaves a client behind.
use qcremote.Prelude.{
  ltb, leb, Bool-cases, length, length-append, ℕ, ◌+◌, ◌≡◌, refl, ap, ◌⊎◌, inl, inr, Bool, true,
  false, ◌||◌, none, some, List, [], ◌∷◌, arith,
}
use qcremote.Web.Clients.{Distinct-append_one, Distinct-erase, contains-erase, length-erase}
use qcremote.Web.Clients.Informed.{
  Informed, IsValid, Shows, again_soon, awake, current, in_turn, is_pushing, is_woken, not_pushing,
  listing_only, signalled, told, with_change, remaining,
}
use qcremote.Web.Listing.{board, broadcast_json-begin_broadcast, message_text, pending_change}
use qcremote.Web.{
  Reaction, Received, append_last_change, begin_broadcast, erase, json_capacity, keep_on,
  max_ws_clients, new_transport, reaction, reply_pong, unregister, ws_setup_block,
}
use qcremote.Catalog.Snapshot.{QcCatalogSnapshot}
use qcremote.Web.Effects.{
  IsFresh, begin_broadcast_lem, get_presets_lem, add_ws_client_lem, left_clients, listing_text,
  poll_client_lem, add_ws_client_lem,
}
use qcremote.Web.Threads.{
  Worker, World, announce, contains, get_presets, poll, polling, start_world, behind_block,
}

pub message_Shows : (w : World) → Shows w.transport.catalog_snapshot (message_text (board w))
message_Shows w = by_pending w.transport.change_pending
  where
    by_pending :
        (p : Bool)
        → Shows w.transport.catalog_snapshot
            (elim (pending_change p w.transport.last_change_event) [
              | none ↦ listing_text w.transport.catalog_snapshot
              | some e ↦
                  append_last_change json_capacity e (listing_text w.transport.catalog_snapshot)
            ])
    by_pending true = with_change w.transport.last_change_event
    by_pending false = listing_only

pub start-IsValid : IsValid start_world
unfolding new_transport
start-IsValid = record {
  few = omega arith;
  distinct = tt;
  informed = λ sock h. ground arith;
  current = not_pushing refl;
}

pub one_more : (given : Bool) (n : ℕ) → (given || ltb 0 (n + 1)) ≡ true
one_more given n = ground arith

pub connects-IsValid :
    (w : World) (sock : ℕ)
    → contains sock w.transport.ws_sockets ≡ false
    → IsValid w
    → IsValid (behind_block w (ws_setup_block w.transport sock))
connects-IsValid w sock fresh v =
    let due = one_more w.transport.broadcast_sem w.signalling in
    rw (add_ws_client_lem w.transport sock)
      (elim (Bool-cases (leb max_ws_clients (length w.transport.ws_sockets))) [
        | inl full ↦ rw full (record {
          few = v.few;
          distinct = v.distinct;
          informed = λ s h. signalled due;
          current = again_soon due;
        })
        | inr free ↦ rw free (record {
          few = ground (arith, length-append w.transport.ws_sockets (sock ∷ []));
          distinct = Distinct-append_one sock w.transport.ws_sockets fresh v.distinct;
          informed = λ s h. signalled due;
          current = again_soon due;
        })
      ])

-- A worker that has just woken up or has sockets to go stays responsible; any other can go on.
moves_on :
    {is_signalled : Bool} {s : QcCatalogSnapshot} {sent : List (ℕ × List ℕ)} {sock : ℕ}
    (now later : Worker)
    → is_woken now ≡ false
    → contains sock (remaining now) ≡ false
    → Informed is_signalled s now sent sock
    → Informed is_signalled s later sent sock
moves_on now later h k (signalled e) = signalled e
moves_on now later h k (awake e) = ground arith
moves_on now later h k (in_turn e) = ground arith
moves_on now later h k (told text e shows) = told text e shows

pub goes_on :
    (w : World) (later : Worker)
    → is_woken w.worker ≡ false
    → ((s : ℕ) → contains s (remaining w.worker) ≡ false)
    → is_pushing later ≡ false
    → IsValid w
    → IsValid (record w { worker = later })
goes_on w later h k idle v = record {
  few = v.few;
  distinct = v.distinct;
  informed = λ s c. moves_on w.worker later h (k s) (v.informed s c);
  current = not_pushing idle;
}

pub gets-IsValid : (w : World) → IsFresh w.transport → IsValid w → IsValid (get_presets w)
gets-IsValid w fresh v =
    rw (get_presets_lem w fresh)
      (record { few = v.few; distinct = v.distinct; informed = v.informed; current = v.current })

pub announces-IsValid : (w : World) → IsFresh w.transport → IsValid w → IsValid (announce w)
unfolding announce
announces-IsValid w fresh v =
    let shows : Shows w.transport.catalog_snapshot (begin_broadcast w.transport).broadcast_json =
      rw (broadcast_json-begin_broadcast w fresh) (message_Shows w) in
    let e = begin_broadcast_lem w.transport fresh in
    let same_sockets : (begin_broadcast w.transport).ws_sockets ≡ w.transport.ws_sockets =
      ap (λ t. t.ws_sockets) e in
    let same_snapshot : (begin_broadcast w.transport).catalog_snapshot
        ≡ w.transport.catalog_snapshot =
      ap (λ t. t.catalog_snapshot) e in
    record {
      few = rw same_sockets v.few;
      distinct = rw same_sockets v.distinct;
      informed = λ s h. in_turn (rw same_sockets at h);
      current =
          current (begin_broadcast w.transport).broadcast_json w.transport.ws_sockets refl
            (rw same_snapshot shows);
    }

drops-IsValid :
    (w : World) (sock : ℕ) (rest : List ℕ)
    → w.worker ≡ polling (sock ∷ rest)
    → IsValid w
    → (ss : List ℕ) → (ss ≡ w.transport.ws_sockets) ⊎ (ss ≡ erase sock w.transport.ws_sockets)
    → IsValid
        (record w { transport = record w.transport { ws_sockets = ss }; worker = polling rest })
drops-IsValid w sock rest h v ss (inl e) = rw e (record {
  few = v.few;
  distinct = v.distinct;
  informed = λ s k. moves_on w.worker (polling rest) (ground arith) (ground arith) (v.informed s k);
  current = not_pushing refl;
})
drops-IsValid w sock rest h v ss (inr e) = rw e (record {
  few = omega (arith, v.few, length-erase sock w.transport.ws_sockets);
  distinct = Distinct-erase sock w.transport.ws_sockets v.distinct;
  informed = λ s k.
      moves_on w.worker (polling rest) (ground arith) (ground arith)
        (v.informed s (contains-erase s sock w.transport.ws_sockets k));
  current = not_pushing refl;
})

pub polls-IsValid :
    (w : World) (sock : ℕ) (rest : List ℕ) (received : Received)
    → w.worker ≡ polling (sock ∷ rest)
    → IsValid w
    → IsValid (poll w sock rest received)
unfolding poll
polls-IsValid w sock rest received h v =
    rw (poll_client_lem w.transport sock received)
      (drops-IsValid w sock rest h v _ (by_reaction (reaction received)))
  where
    by_reaction :
        (r : Reaction)
        → (left_clients r sock w.transport.ws_sockets ≡ w.transport.ws_sockets)
          ⊎ (left_clients r sock w.transport.ws_sockets ≡ erase sock w.transport.ws_sockets)
    by_reaction keep_on = inl refl
    by_reaction unregister = inr refl
    by_reaction reply_pong = inl refl
