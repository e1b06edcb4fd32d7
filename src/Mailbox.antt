-- ===== src/Mailbox.antt =====
-- QcDispatcher.hpp and QcGzipInflater.hpp: the slot between the `usbh` thread, which submits, and a
-- worker thread, which takes an item, hands it on and frees the slot.
pub mod Delivery
mod Tests
use qcremote.Prelude.{
  ltb, if◌then◌else◌, length, ℕ, ◌+◌, ◌%◌, ◌^◌, Bool, true, false, Option, none, some, List, [],
}

pub record Item : Type 0 where
  pub command : ℕ
  pub bytes : List ℕ
  pub wire_size : ℕ

-- `item` is what stands in `mailbox_`, `mailboxLen_`, `mailboxCommand_` and `mailboxWireSize_`; `ready`
-- is the semaphore `itemReadySem_`, whose limit is 1.
pub record Mailbox : Type 0 where
  pub busy : Bool
  pub dropped_count : ℕ
  pub item : Item
  pub ready : Bool

abbrev pub empty_item : Item
empty_item = record { command = 0; bytes = []; wire_size = 0 }

abbrev pub empty_mailbox : Mailbox
empty_mailbox = record { busy = false; dropped_count = 0; item = empty_item; ready = false }

-- `k_sem_give` after the copy.
unfoldable pub submit : ℕ → Mailbox → Item → Bool × Mailbox
submit capacity m i =
    if m.busy
    then (false, record m { dropped_count = (m.dropped_count + 1) % 2 ^ 32 })
    else if ltb capacity (length i.bytes)
    then (false, record m { busy = false; dropped_count = (m.dropped_count + 1) % 2 ^ 32 })
    else (true, record m { busy = true; item = i; ready = true })

-- `k_sem_take`, which waits while nothing is ready.
unfoldable pub take_item : Mailbox → Option Mailbox
take_item m = if m.ready then some (record m { ready = false }) else none

-- `busy_.store(false)` at the end of a round of `run`.
unfoldable pub release : Mailbox → Mailbox
release m = record m { busy = false }
