-- ===== src/Session/Workers.antt =====
-- One round of `run` of QcDispatcher.hpp and of QcGzipInflater.hpp, with the session as the sink.
use qcremote.Prelude.{length, ℕ, true, false, Option, none, some, List}
use qcremote.Prelude.Text.{EtlString}
use qcremote.Gzip.{
  InflateResult, inflated, failed, InflateError, output_too_large, Tinfl, inflate,
  max_inflated_size, peek_decompressed_size,
}
use qcremote.Mailbox.{Item, take_item, release}
use qcremote.Session.{QcSession, session_on_message, session_on_inflate_failed}

-- The size that onInflateFailed is given.
unfoldable pub advertised_size : InflateError → List ℕ → Option ℕ
advertised_size output_too_large gzipped = peek_decompressed_size gzipped
advertised_size _ gzipped = none

unfoldable pub free_dispatcher : QcSession → QcSession
free_dispatcher s = record s { dispatcher = release s.dispatcher }

unfoldable pub free_inflater : QcSession → QcSession
free_inflater s = record s { gzip_inflater = release s.gzip_inflater }

module _ (etl : EtlString) where
  unfoldable pub deliver_plain : QcSession → ℕ → Item → QcSession
  deliver_plain s now i =
      session_on_message etl s now i.command i.bytes i.wire_size (length i.bytes) false

  unfoldable pub deliver_inflated : QcSession → ℕ → Item → InflateResult → QcSession
  deliver_inflated s now i (inflated bytes) =
      session_on_message etl s now i.command bytes i.wire_size (length bytes) true
  deliver_inflated s now i (failed error) =
      session_on_inflate_failed s now i.command i.wire_size (advertised_size error i.bytes)

  -- A round waits (`none`) until an item is ready.
  unfoldable pub dispatcher_round : QcSession → ℕ → Option QcSession
  dispatcher_round s now = elim (take_item s.dispatcher) [
    | none ↦ none
    | some box ↦ some (free_dispatcher (deliver_plain (record s { dispatcher = box }) now box.item))
  ]

  unfoldable pub inflater_round : Tinfl → QcSession → ℕ → Option QcSession
  inflater_round tinfl s now = elim (take_item s.gzip_inflater) [
    | none ↦ none
    | some box ↦ some (
        free_inflater (
          deliver_inflated (record s { gzip_inflater = box }) now box.item
            (inflate tinfl box.item.bytes max_inflated_size)))
  ]
