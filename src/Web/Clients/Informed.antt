-- ===== src/Web/Clients/Informed.antt =====
-- QcWifiWebTransport.hpp: what the semaphore, the snapshot of the sockets and the loop of broadcast are
-- for: no client is left with an old listing.
use qcremote.Prelude.{
  ltb, ◌==◌, if◌then◌else◌, length, ℕ, ◌≤◌, ◌≡◌, Bool, true, false, ◌||◌, Option, none, some, List,
  [], ◌∷◌,
}
use qcremote.Catalog.Snapshot.{QcCatalogSnapshot}
use qcremote.Web.Effects.{listing_text}
use qcremote.Web.Threads.{Worker, World, contains, pushing, woken}
use qcremote.Web.{QcPresetChangeEvent, append_last_change, json_capacity, max_ws_clients}
use qcremote.Web.Clients.{Distinct}

-- The last text that was pushed to a socket.
abbrev pub last_sent : ℕ → List (ℕ × List ℕ) → Option (List ℕ)
last_sent sock [] = none
last_sent sock (p ∷ sent) = if p.0 == sock then some p.1 else last_sent sock sent

-- A message that shows the listing, with or without a change of the preset.
pub data Shows (s : QcCatalogSnapshot) : List ℕ → Type 0 where
  listing_only : Shows s (listing_text s)
  with_change :
      (e : QcPresetChangeEvent) → Shows s (append_last_change json_capacity e (listing_text s))

abbrev pub remaining : Worker → List ℕ
remaining (pushing text rest) = rest
remaining _ = []

abbrev pub is_pushing : Worker → Bool
is_pushing (pushing text rest) = true
is_pushing _ = false

abbrev pub is_woken : Worker → Bool
is_woken woken = true
is_woken _ = false

pub data Informed (is_signalled : Bool) (s : QcCatalogSnapshot) (worker : Worker)
    (sent : List (ℕ × List ℕ)) (sock : ℕ) : Type 0 where
  signalled : is_signalled ≡ true → Informed is_signalled s worker sent sock
  awake : is_woken worker ≡ true → Informed is_signalled s worker sent sock
  in_turn : contains sock (remaining worker) ≡ true → Informed is_signalled s worker sent sock
  told :
      (text : List ℕ)
      → last_sent sock sent ≡ some text
      → Shows s text
      → Informed is_signalled s worker sent sock

-- What is being pushed.
pub data Current (is_signalled : Bool) (s : QcCatalogSnapshot) (worker : Worker) : Type 0 where
  again_soon : is_signalled ≡ true → Current is_signalled s worker
  not_pushing : is_pushing worker ≡ false → Current is_signalled s worker
  current :
      (text rest : List ℕ)
      → worker ≡ pushing text rest
      → Shows s text
      → Current is_signalled s worker

-- The semaphore is given, or a thread is about to give it.
abbrev pub is_due : World → Bool
is_due w = w.transport.broadcast_sem || ltb 0 w.signalling

pub record IsValid (w : World) : Type 0 where
  pub few : length w.transport.ws_sockets ≤ max_ws_clients
  pub distinct : Distinct w.transport.ws_sockets
  pub informed :
      (sock : ℕ)
      → contains sock w.transport.ws_sockets ≡ true
      → Informed (is_due w) w.transport.catalog_snapshot w.worker w.sent sock
  pub current : Current (is_due w) w.transport.catalog_snapshot w.worker
