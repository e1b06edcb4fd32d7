-- ===== src/Session/Arrivals.antt =====
-- QcHidBridge.hpp, QcSession.hpp and QcDispatcher.hpp together: a stream of File messages, from the
-- reports on the wire to the catalog.
use qcremote.Prelude.{
  length, All, ℕ, zero, suc, ◌+◌, ◌-◌, ◌/◌, ◌≤◌, ◌≡◌, refl, sym, ap, ◌∙◌, true, false, Option, none,
  some, List, [], ◌∷◌, ◌++◌, arith,
}
use qcremote.Hid.Reassembler.{HidReassembler}
use qcremote.Catalog.{add_presets, PresetCatalog, add_preset}
use qcremote.Session.Routing.{
  file_message_arrives, with_file_message, file_reply, length-file_reply,
}
use qcremote.Hid.Chunker.{reports}
use qcremote.FileStream.{on_message}
use qcremote.Session.Workers.{dispatcher_round}
use qcremote.Prelude.Text.{EtlString}
use qcremote.Gzip.{has_magic}
use qcremote.Messages.File.{FilePreset, decode_file}
use qcremote.Session.{QcSession, message_capacity, record_in_transfer}
use qcremote.Session.Transfers.{after_transfers, receive-reports}
use qcremote.Session.Bridge.{QcHidBridge, receive}

-- A File message, the reserved word and the hash of its trailer, the id of its reports, and when the
-- dispatcher takes it.
pub record FileArrival : Type 0 where
  pub proto : List ℕ
  pub reserved_and_hash : List ℕ
  pub report_id : ℕ
  pub now : ℕ

abbrev pub message_of : FileArrival → List ℕ
message_of a = file_reply a.proto a.reserved_and_hash

-- Its trailer is whole, it is not compressed, and it fits the reassembler.
abbrev pub IsPlain : FileArrival → Type 0
IsPlain a =
    (length a.reserved_and_hash ≡ 6)
    × (has_magic a.proto ≡ false)
    × (length a.proto + 8 ≤ message_capacity)

abbrev pub presets_of : List FileArrival → List FilePreset
presets_of [] = []
presets_of (a ∷ more) = (decode_file a.proto).1 ++ presets_of more

unfoldable pub with_session : QcHidBridge → Option QcSession → Option QcHidBridge
with_session b none = none
with_session b (some s) = some (record b { session = s })

module _ (etl : EtlString) where
  -- The reports of the message are received, and the dispatcher makes a round.
  unfoldable pub arrive : QcHidBridge → FileArrival → Option QcHidBridge
  arrive b a =
      let c = receive b (reports (message_of a) a.report_id) in
      with_session c (dispatcher_round etl c.session a.now)

  unfoldable pub arrive_all : QcHidBridge → List FileArrival → Option QcHidBridge
  arrive_all b [] = some b
  arrive_all b (a ∷ more) = elim (arrive b a) [ none ↦ none | some c ↦ arrive_all c more ]

-- The stream runs, the slot of the dispatcher is free, and no part of a report waits.
pub record IsReady (b : QcHidBridge) : Type 0 where
  pub no_part : b.partial_report ≡ []
  pub free : b.session.dispatcher.busy ≡ false
  pub streaming : b.session.file_stream.active ≡ true

-- Nothing was lost between the two.
pub record SameLosses (s t : QcSession) : Type 0 where
  pub dispatcher : t.dispatcher.dropped_count ≡ s.dispatcher.dropped_count
  pub inflater : t.gzip_inflater.dropped_count ≡ s.gzip_inflater.dropped_count
  pub overflows : t.reassembly_overflow_count ≡ s.reassembly_overflow_count
  pub malformed : t.reassembly_malformed_count ≡ s.reassembly_malformed_count
  pub failed : t.file_stream.failed_count ≡ s.file_stream.failed_count

-- The counters of the stream's start.
pub record SameStarts (s t : QcSession) : Type 0 where
  pub dispatcher : t.dispatcher_dropped_at_start ≡ s.dispatcher_dropped_at_start
  pub inflater : t.gzip_dropped_at_start ≡ s.gzip_dropped_at_start
  pub overflows : t.reassembly_overflow_at_start ≡ s.reassembly_overflow_at_start
  pub malformed : t.reassembly_malformed_at_start ≡ s.reassembly_malformed_at_start

-- Counting transfers changes the counter alone.
after_transfers_lem :
    (n : ℕ) (s : QcSession)
    → after_transfers n s
      ≡ record s { total_in_transfers = (after_transfers n s).total_in_transfers }
unfolding record_in_transfer
after_transfers_lem zero s = refl
after_transfers_lem (suc n) s = after_transfers_lem n (record_in_transfer s)

-- What a stream of presets leaves: the bridge is ready for the next message, the catalog has taken them
-- all in order, and no loss was counted.
pub record Arrived (etl : EtlString) (b c : QcHidBridge) (ps : List FilePreset) : Type 0 where
  pub ready : IsReady c
  pub catalog : c.session.preset_catalog ≡ add_presets etl b.session.preset_catalog ps
  pub losses : SameLosses b.session c.session
  pub starts : SameStarts b.session c.session

module _ (etl : EtlString) where
  after_file :
      (b : QcHidBridge) (r : HidReassembler) (s : QcSession) (now : ℕ) (proto : List ℕ) (n : ℕ)
      → b.partial_report ≡ []
      → s ≡ record b.session { total_in_transfers = n }
      → b.session.file_stream.active ≡ true
      → Arrived etl b
          (record b { reassembler = r; session = with_file_message etl s now proto })
          (decode_file proto).1
  unfolding on_message
  after_file b r s now proto n part e active = rw e (record {
    ready = record { no_part = part; free = refl; streaming = simp active };
    catalog = refl;
    losses = record {
      dispatcher = refl;
      inflater = refl;
      overflows = refl;
      malformed = refl;
      failed = simp active;
    };
    starts = record { dispatcher = refl; inflater = refl; overflows = refl; malformed = refl };
  })

  -- What the arrival of a file leaves.
  abbrev pub after_arrival : QcHidBridge → FileArrival → QcHidBridge
  after_arrival b a =
      let m = message_of a in
      record b {
        reassembler = record { buffer = m; overflowing = false; overflow_size = 0 };
        session =
            with_file_message etl (after_transfers (suc ((length m - 1) / 126)) b.session) a.now
              a.proto;
      }

  pub arrive_lem :
      (b : QcHidBridge) (a : FileArrival)
      → IsReady b
      → IsPlain a
      → arrive etl b a ≡ some (after_arrival b a)
  unfolding arrive with_session
  arrive_lem b a ready plain =
      let m = message_of a in
      let s = after_transfers (suc ((length m - 1) / 126)) b.session in
      let same = after_transfers_lem (suc ((length m - 1) / 126)) b.session in
      let received =
        receive-reports b m a.report_id ready.no_part
          (rw (length-file_reply a.proto a.reserved_and_hash plain.0) plain.2) in
      let round =
        file_message_arrives etl s a.now a.proto a.reserved_and_hash plain.0
          (ap (λ x. x.dispatcher.busy) same ∙ ready.free)
          (ap (λ x. x.file_stream.active) same ∙ ready.streaming) plain.1 (omega arith) in
      rw received (rw round refl)

  arrive-Arrived :
      (b : QcHidBridge) (a : FileArrival)
      → IsReady b
      → IsPlain a
      → (c : QcHidBridge) × (arrive etl b a ≡ some c) × Arrived etl b c (decode_file a.proto).1
  arrive-Arrived b a ready plain =
      let m = message_of a in
      let k = suc ((length m - 1) / 126) in
      (
        after_arrival b a,
        arrive_lem b a ready plain,
        after_file b (record { buffer = m; overflowing = false; overflow_size = 0 })
            (after_transfers k b.session) a.now a.proto
            (after_transfers k b.session).total_in_transfers ready.no_part
            (after_transfers_lem k b.session) ready.streaming,
      )

  add_presets-append :
      (c : PresetCatalog) (ps qs : List FilePreset)
      → add_presets etl c (ps ++ qs) ≡ add_presets etl (add_presets etl c ps) qs
  unfolding add_presets
  add_presets-append c [] qs = refl
  add_presets-append c (p ∷ ps) qs = add_presets-append (add_preset etl c p) ps qs

  Arrived-trans :
      {b c d : QcHidBridge} {ps qs : List FilePreset}
      → Arrived etl b c ps
      → Arrived etl c d qs
      → Arrived etl b d (ps ++ qs)
  Arrived-trans {b = b} {ps = ps} {qs = qs} x y = record {
    ready = y.ready;
    catalog =
        y.catalog
        ∙ ap (λ t. add_presets etl t qs) x.catalog
        ∙ sym (add_presets-append b.session.preset_catalog ps qs);
    losses = record {
      dispatcher = y.losses.dispatcher ∙ x.losses.dispatcher;
      inflater = y.losses.inflater ∙ x.losses.inflater;
      overflows = y.losses.overflows ∙ x.losses.overflows;
      malformed = y.losses.malformed ∙ x.losses.malformed;
      failed = y.losses.failed ∙ x.losses.failed;
    };
    starts = record {
      dispatcher = y.starts.dispatcher ∙ x.starts.dispatcher;
      inflater = y.starts.inflater ∙ x.starts.inflater;
      overflows = y.starts.overflows ∙ x.starts.overflows;
      malformed = y.starts.malformed ∙ x.starts.malformed;
    };
  }

  -- The stream is active, the dispatcher's slot is free and no part of a report waits. File messages that
  -- are not compressed and of at most 131072 bytes with their trailers, with any hash, arrive in their
  -- reports one after the other, each taken by the dispatcher before the next is complete. Then all are
  -- delivered, whatever the reassembler held: the catalog takes the presets of all of them, in order, no loss or failure is counted, and the bridge is
  -- ready for more.
  pub arrive_all-Arrived :
      (b : QcHidBridge) (files : List FileArrival)
      → IsReady b
      → All IsPlain files
      → (c : QcHidBridge) × (arrive_all etl b files ≡ some c) × Arrived etl b c (presets_of files)
  unfolding arrive_all
  arrive_all-Arrived b [] ready all_plain = (
    b,
    refl,
    record {
      ready = ready;
      catalog = unfold add_presets in refl;
      losses = record {
        dispatcher = refl;
        inflater = refl;
        overflows = refl;
        malformed = refl;
        failed = refl;
      };
      starts = record { dispatcher = refl; inflater = refl; overflows = refl; malformed = refl };
    },
  )
  arrive_all-Arrived b (a ∷ more) ready all_plain =
      let (c, arrives, one) = arrive-Arrived b a ready all_plain.0 in
      let (d, rest, others) = arrive_all-Arrived c more one.ready all_plain.1 in
      (d, rw (arrives, arrive_all) rest, Arrived-trans one others)
