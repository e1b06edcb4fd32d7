-- ===== src/Session/Heartbeat.antt =====
-- QcSession.hpp: the tick of the heartbeat that ends a stream, and what the transports are given then.
use qcremote.Prelude.{
  leb, ◌==◌, Bool-cases, is_empty, All, ℕ, ◌+◌, ◌≡◌, refl, ap, ◌∙◌, ◌⊎◌, inl, inr, true, false, not,
  ◌&&◌, ◌||◌, Option, none, some, List, [], ◌∷◌, map,
}
use qcremote.Session.{QcSession}
use qcremote.Catalog.Snapshot.{QcCatalogSnapshot, copy_catalog_snapshot}
use qcremote.Tally.{TallyEntry}
use qcremote.FileStream.{Summary, is_listing_incomplete}
use qcremote.Web.Effects.{listing_text}
use qcremote.Session.Device.{
  Device, check_traffic_health, hand_over, is_reported, publish_changes, publish_tally, tick,
}
use qcremote.Web.{
  QcWifiWebTransport, encode_if_dirty, handle_presets_get, publish_catalog, publish_preset_change,
}
use qcremote.Session.Stream.{
  TallyChange, changed_entries, check_stream, check_tally, finish_stream, heartbeat,
  log_file_stream_summary, mark_logged, post_stream_log_interval_ms, report_change, with_drops,
}
use qcremote.Catalog.{overflowed}
use qcremote.FileStream.Finish.{Due, Due-finishes, report}

-- A tally check changes at most what it has logged.
check_tally-session :
    (s : QcSession) (now : ℕ)
    → ((check_tally s now).1 ≡ s) ⊎ ((check_tally s now).1 ≡ mark_logged s now)
unfolding check_tally report_change
check_tally-session s now = elim (Bool-cases s.post_stream_tally.active) [
  | inr idle ↦ inl (simp idle)
  | inl active ↦
      let due = leb (s.post_stream_last_logged_at_ms + post_stream_log_interval_ms) now in
      let other_due =
        not (s.post_stream_tally.other_count == s.post_stream_logged_other_count) && due in
      let changed = changed_entries due s.post_stream_logged_entries s.post_stream_tally.entries in
      elim (Bool-cases (not (is_empty changed) || other_due)) [
        | inl news ↦ inr (simp (active, news))
        | inr none_there ↦ inl (simp (active, none_there))
      ]
]

abbrev ended_session : QcSession → QcSession
ended_session s = record s { file_stream = record s.file_stream { active = false } }

abbrev pub final_report : QcSession → ℕ → Summary
final_report s now = with_drops s (report s.file_stream now)

pub heartbeat_ends :
    (s : QcSession) (now : ℕ)
    → s.file_stream.active ≡ true
    → Due s.file_stream now
    → heartbeat s now ≡ (
      some (final_report s now),
      (check_tally (ended_session s) now).0,
      log_file_stream_summary (check_tally (ended_session s) now).1 now (final_report s now),
    )
unfolding heartbeat check_stream finish_stream
heartbeat_ends s now active due =
    let checked : check_stream s now ≡ (some (final_report s now), ended_session s) = λ i. (
      elim (Due-finishes s.file_stream now active due i).0 [
        | none ↦ none
        | some r ↦ some (with_drops s r)
      ],
      record s { file_stream = (Due-finishes s.file_stream now active due i).1 },
    ) in
    λ i. (
      (checked i).0,
      (check_tally ((checked i).1) now).0,
      finish_stream ((checked i).0) ((check_tally ((checked i).1) now).1) now,
    )

-- A heartbeat that ends the stream publishes the catalog as it is, with its mark.
pub heartbeat_snapshot :
    (s : QcSession) (now : ℕ)
    → s.file_stream.active ≡ true
    → Due s.file_stream now
    → (heartbeat s now).2.catalog_snapshot
      ≡ copy_catalog_snapshot s.preset_catalog
          (is_listing_incomplete (final_report s now) (overflowed s.preset_catalog))
unfolding log_file_stream_summary mark_logged
heartbeat_snapshot s now active due =
    ap (λ h. h.2.catalog_snapshot) (heartbeat_ends s now active due)
    ∙ ended (check_tally (ended_session s) now).1 (check_tally-session (ended_session s) now)
  where
    ended :
        (t : QcSession)
        → (t ≡ ended_session s) ⊎ (t ≡ mark_logged (ended_session s) now)
        → (log_file_stream_summary t now (final_report s now)).catalog_snapshot
          ≡ copy_catalog_snapshot s.preset_catalog
              (is_listing_incomplete (final_report s now) (overflowed s.preset_catalog))
    ended t (inl e) = rw e refl
    ended t (inr e) = rw e refl

-- A GET is answered with the listing.
abbrev pub ServesListing : QcCatalogSnapshot → QcWifiWebTransport → Type 0
ServesListing snapshot t = (handle_presets_get t true).1 ≡ some (listing_text snapshot)

pub publish_changes_lem :
    (t : QcWifiWebTransport) (es : List TallyEntry)
    → ((publish_changes t es).catalog_snapshot ≡ t.catalog_snapshot)
      × ((publish_changes t es).catalog_dirty ≡ t.catalog_dirty)
unfolding publish_changes publish_preset_change
publish_changes_lem t [] = (refl, refl)
publish_changes_lem t (e ∷ es) =
    publish_changes_lem (publish_preset_change t (record { command = e.command; count = e.count }))
      es

-- The transport was just given the listing.
abbrev pub HasNew : QcCatalogSnapshot → QcWifiWebTransport → Type 0
HasNew snapshot t = (t.catalog_snapshot ≡ snapshot) × (t.catalog_dirty ≡ true)

pub HasNew-ServesListing :
    (snapshot : QcCatalogSnapshot) (ts : List QcWifiWebTransport)
    → All (HasNew snapshot) ts
    → All (ServesListing snapshot) ts
unfolding handle_presets_get encode_if_dirty
HasNew-ServesListing snapshot [] all_new = tt
HasNew-ServesListing snapshot (t ∷ ts) all_new =
    (simp (all_new.0.1, all_new.0.0), HasNew-ServesListing snapshot ts all_new.1)

published-HasNew :
    (snapshot : QcCatalogSnapshot) (ts : List QcWifiWebTransport)
    → All (HasNew snapshot) (map (λ t. publish_catalog t snapshot) ts)
unfolding publish_catalog
published-HasNew snapshot [] = tt
published-HasNew snapshot (t ∷ ts) = ((refl, refl), published-HasNew snapshot ts)

changed-HasNew :
    (snapshot : QcCatalogSnapshot) (es : List TallyEntry) (ts : List QcWifiWebTransport)
    → All (HasNew snapshot) ts
    → All (HasNew snapshot) (map (λ t. publish_changes t es) ts)
changed-HasNew snapshot es [] all_new = tt
changed-HasNew snapshot es (t ∷ ts) all_new =
    let (same, dirty) = publish_changes_lem t es in
    ((same ∙ all_new.0.0, dirty ∙ all_new.0.1), changed-HasNew snapshot es ts all_new.1)

check_traffic_health-kept :
    (d : Device)
    → ((check_traffic_health d).1.session ≡ d.session)
      × ((check_traffic_health d).1.transports ≡ d.transports)
unfolding check_traffic_health
check_traffic_health-kept d = elim (Bool-cases (is_reported d)) [
  | inl old ↦ (simp old, simp old)
  | inr new ↦ (simp new, simp new)
]

publish_tally-HasNew :
    (snapshot : QcCatalogSnapshot) (d : Device) (change : Option TallyChange)
    → All (HasNew snapshot) d.transports
    → ((publish_tally d change).session ≡ d.session)
      × All (HasNew snapshot) (publish_tally d change).transports
unfolding publish_tally
publish_tally-HasNew snapshot d none all_new = (refl, all_new)
publish_tally-HasNew snapshot d (some change) all_new =
    (refl, changed-HasNew snapshot change.entries d.transports all_new)

-- A tick that ends the stream gives every transport the snapshot that it leaves in the session.
pub tick-HasNew :
    (d : Device) (now : ℕ) (r : Summary) (change : Option TallyChange) (s : QcSession)
    → heartbeat d.session now ≡ (some r, change, s)
    → ((tick d now).1.session ≡ s) × All (HasNew s.catalog_snapshot) (tick d now).1.transports
unfolding tick hand_over
tick-HasNew d now r change s e =
    let handed = hand_over (record d { session = s }) (some r) in
    let (same, kept) = check_traffic_health-kept handed in
    let fresh : All (HasNew s.catalog_snapshot) (check_traffic_health handed).1.transports =
      rw kept (published-HasNew s.catalog_snapshot d.transports) in
    let (session_kept, all_new) =
      publish_tally-HasNew s.catalog_snapshot (check_traffic_health handed).1 change fresh in
    rw (e, tick) (session_kept ∙ same, all_new)
