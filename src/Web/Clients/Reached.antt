-- ===== src/Web/Clients/Reached.antt =====
-- QcWifiWebTransport.hpp: the clients in every state that the threads can reach.
use qcremote.Prelude.{ℕ, ◌≡◌, refl, true, false, some, List, arith}
use qcremote.Web.Clients.Pushes.{pushes-IsValid}
use qcremote.Web.Effects.{IsFresh, Reach-IsFresh}
use qcremote.Web.Clients.Informed.{
  IsValid, Shows, again_soon, awake, in_turn, last_sent, not_pushing, signalled, told,
}
use qcremote.Web.Clients.Steps.{
  announces-IsValid, connects-IsValid, gets-IsValid, goes_on, polls-IsValid, start-IsValid,
  one_more,
}
use qcremote.Web.{request_initial_send}
use qcremote.Web.Threads.{
  Reach, Step, World, all_polled, all_pushed, announces, connects, contains, gets, here, next,
  polling, polls, publishes_catalog, publishes_change, pushes, times_out, waiting, wakes, signals,
}

Step-IsValid : {w v : World} → Step w v → IsFresh w.transport → IsValid w → IsValid v
unfolding request_initial_send
Step-IsValid (publishes_catalog w snapshot) fresh v = record {
  few = v.few;
  distinct = v.distinct;
  informed = λ s k. signalled (one_more w.transport.broadcast_sem w.signalling);
  current = again_soon (one_more w.transport.broadcast_sem w.signalling);
}
Step-IsValid (publishes_change w e) fresh v = record {
  few = v.few;
  distinct = v.distinct;
  informed = λ s k. signalled (one_more w.transport.broadcast_sem w.signalling);
  current = again_soon (one_more w.transport.broadcast_sem w.signalling);
}
Step-IsValid (gets w) fresh v = gets-IsValid w fresh v
Step-IsValid (connects w sock h) fresh v = connects-IsValid w sock h v
Step-IsValid (signals w n h) fresh v = record {
  few = v.few;
  distinct = v.distinct;
  informed = λ s k. signalled refl;
  current = again_soon refl;
}
Step-IsValid (wakes w h k) fresh v = record {
  few = v.few;
  distinct = v.distinct;
  informed = λ s k. awake refl;
  current = not_pushing refl;
}
Step-IsValid (times_out w h k) fresh v =
    goes_on w (polling w.transport.ws_sockets) (ground arith) (λ s. ground arith) refl v
Step-IsValid (announces w h) fresh v = announces-IsValid w fresh v
Step-IsValid (pushes w text sock rest is_sent h) fresh v =
    pushes-IsValid w text sock rest is_sent h v
Step-IsValid (all_pushed w text h) fresh v =
    goes_on w (polling w.transport.ws_sockets) (ground arith) (λ s. ground arith) refl v
Step-IsValid (polls w sock rest received h) fresh v = polls-IsValid w sock rest received h v
Step-IsValid (all_polled w h) fresh v = goes_on w waiting (ground arith) (λ s. ground arith) refl v

-- In every state that the threads can reach, the list of the clients has at most two sockets, none
-- twice, and whoever stands in it is not forgotten: the semaphore is given or about to be, or the worker has just
-- taken it, or is on its way to the client, or the last text pushed to it shows the last listing that
-- was published. A text in the worker's hand shows that listing or the semaphore is given again.
pub Reach-IsValid : {w : World} → Reach w → IsValid w
Reach-IsValid here = start-IsValid
Reach-IsValid (next r s) = Step-IsValid s (Reach-IsFresh r) (Reach-IsValid r)

-- When the worker waits, nothing has been signalled and no thread is about to signal, the last text that was pushed to each client in
-- the list shows the last listing that was published, whatever the threads did before: no client that
-- connects while the worker is at work, and no listing published meanwhile, is missed.
pub all_informed :
    {w : World} (sock : ℕ)
    → Reach w
    → w.worker ≡ waiting
    → w.transport.broadcast_sem ≡ false
    → w.signalling ≡ 0
    → contains sock w.transport.ws_sockets ≡ true
    → (text : List ℕ) × (last_sent sock w.sent ≡ some text)
      × Shows w.transport.catalog_snapshot text
all_informed sock r h k n c = elim ((Reach-IsValid r).informed sock c) [
  | signalled e ↦ ground arith
  | awake e ↦ ground arith
  | in_turn e ↦ ground arith
  | told text e shows ↦ (text, e, shows)
]
