-- ===== src/Session/Published.antt =====
-- QcSession.hpp, QcPresetCatalog.hpp, QcCatalogSnapshot.hpp and QcWifiWebTransport.hpp together: from a
-- stream of File messages to what the web page is served.
use qcremote.Prelude.{
  leb, All, ℕ, ◌+◌, ◌≡◌, refl, sym, ap, ◌∙◌, Bool, true, false, ◌||◌, some, List, [], arith,
}
use qcremote.Session.Heartbeat.{
  HasNew-ServesListing, ServesListing, heartbeat_ends, heartbeat_snapshot, tick-HasNew,
}
use qcremote.Prelude.Text.{EtlString}
use qcremote.Session.Bridge.{QcHidBridge}
use qcremote.Session.Arrivals.{
  FileArrival, IsPlain, arrive_all, arrive_all-Arrived, presets_of, Arrived,
}
use qcremote.Session.Device.{Device, tick}
use qcremote.Catalog.{overflowed, add_presets, reset}
use qcremote.FileStream.Finish.{Due, report}
use qcremote.Catalog.Snapshot.{copy_catalog_snapshot}
use qcremote.FileStream.{is_listing_incomplete, Summary, start}
use qcremote.Session.{QcSession}
use qcremote.Session.Stream.{with_drops, since, start_stream}

since_self : (n m : ℕ) → n ≡ m → since n m ≡ 0
since_self n m e = omega (arith, e)

-- Nothing was lost, so the mark is of the time and of the catalog's room.
mark_of_stream :
    (s t : QcSession) (r : Summary)
    → t.dispatcher.dropped_count ≡ s.dispatcher.dropped_count
    → t.dispatcher_dropped_at_start ≡ s.dispatcher.dropped_count
    → t.gzip_inflater.dropped_count ≡ s.gzip_inflater.dropped_count
    → t.gzip_dropped_at_start ≡ s.gzip_inflater.dropped_count
    → t.reassembly_overflow_count ≡ s.reassembly_overflow_count
    → t.reassembly_overflow_at_start ≡ s.reassembly_overflow_count
    → t.reassembly_malformed_count ≡ s.reassembly_malformed_count
    → t.reassembly_malformed_at_start ≡ s.reassembly_malformed_count
    → r.failed_count ≡ 0
    → (is_over : Bool) → is_listing_incomplete (with_drops t r) is_over ≡ (r.timed_out || is_over)
unfolding is_listing_incomplete with_drops
mark_of_stream s t r a b c d e f g h z is_over =
    rw
      (
        z,
        since_self _ _ (a ∙ sym b),
        since_self _ _ (c ∙ sym d),
        since_self _ _ (e ∙ sym f),
        since_self _ _ (g ∙ sym h),
      )
      (ground arith)

-- The whole way: a bridge with no part of a report and a free dispatcher starts a File stream; File
-- messages that are not compressed and of at most 131072 bytes with their trailers, with any hash,
-- arrive, each received in its reports and delivered; and the heartbeat, with no other thread at the
-- session meanwhile, finds the stream
-- ended, because it has been quiet or has run too long. Then the listing has the folders of the catalog
-- that takes the presets of all the messages, from empty; it is marked incomplete exactly if the 30
-- seconds are over or the catalog overflowed; and every transport answers a GET with its JSON.
pub listing_served :
    (etl : EtlString) (b c : QcHidBridge) (started : ℕ) (files : List FileArrival) (d : Device)
    (now : ℕ)
    → b.partial_report ≡ []
    → b.session.dispatcher.busy ≡ false
    → All IsPlain files
    → arrive_all etl (record b { session = start_stream b.session started }) files ≡ some c
    → d.session ≡ c.session
    → Due c.session.file_stream now
    → let catalog = add_presets etl (reset b.session.preset_catalog) (presets_of files) in
      let after = (tick d now).1 in
      (after.session.catalog_snapshot
        ≡ copy_catalog_snapshot catalog
            (leb (c.session.file_stream.started_at_ms + 30000) now || overflowed catalog))
      × All (ServesListing after.session.catalog_snapshot) after.transports
unfolding start_stream start
listing_served etl b c started files d now part free plain arrived same due =
    let begun : QcHidBridge = record b { session = start_stream b.session started } in
    let (c', arrives, a) =
      arrive_all-Arrived etl begun files (record { no_part = part; free = free; streaming = refl })
        plain in
    let same_bridge : c' ≡ c = cc in
    let k : Arrived etl begun c (presets_of files) = rw (← same_bridge) a in
    let active : d.session.file_stream.active ≡ true = rw same k.ready.streaming in
    let due_there : Due d.session.file_stream now = rw same due in
    let ends = heartbeat_ends d.session now active due_there in
    let (session_kept, all_new) = tick-HasNew d now _ _ _ ends in
    let mark =
      mark_of_stream b.session c.session (report c.session.file_stream now) k.losses.dispatcher
        k.starts.dispatcher k.losses.inflater k.starts.inflater k.losses.overflows
        k.starts.overflows k.losses.malformed k.starts.malformed k.losses.failed
        (overflowed c.session.preset_catalog) in
    (
      ap (λ x. x.catalog_snapshot) session_kept
          ∙ sym (ap (λ h. h.2.catalog_snapshot) ends)
          ∙ heartbeat_snapshot d.session now active due_there
          ∙ rw same (ap (copy_catalog_snapshot c.session.preset_catalog) mark)
          ∙ ap
              (λ x.
                copy_catalog_snapshot x
                  (leb (c.session.file_stream.started_at_ms + 30000) now || overflowed x))
              k.catalog,
      rw session_kept (HasNew-ServesListing _ _ all_new),
    )
