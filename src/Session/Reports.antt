-- ===== src/Session/Reports.antt =====
-- QcSession.hpp: what the heartbeat reports of losses.
use qcremote.Prelude.{if◌then◌else◌, ==_self, Bool-cases, ◌≡◌, inl, inr, true, none, some, arith}
use qcremote.Session.Device.{Device, check_traffic_health, is_reported}

reported_after : (d : Device) → is_reported (check_traffic_health d).1 ≡ true
unfolding check_traffic_health
reported_after d = elim (Bool-cases (is_reported d)) [
  | inl old ↦ simp old
  | inr new ↦ simp (
    new,
    ==_self d.session.dispatcher.dropped_count,
    ==_self d.session.gzip_inflater.dropped_count,
    ==_self d.session.reassembly_overflow_count,
    ==_self d.session.reassembly_malformed_count,
  )
]

silent : (d : Device) → is_reported d ≡ true → (check_traffic_health d).0 ≡ none
unfolding check_traffic_health
silent d old = simp old

-- A check warns exactly if a counter is not what was reported last, and a check after it warns of
-- nothing unless a counter has moved since: of a drop one warning comes, with the next heartbeat.
pub check_traffic_health_lem :
    (d : Device)
    → ((check_traffic_health d).0 ≡ (
        if is_reported d
        then none
        else some (record {
          dispatcher_dropped = d.session.dispatcher.dropped_count;
          gzip_dropped = d.session.gzip_inflater.dropped_count;
          reassembly_overflow = d.session.reassembly_overflow_count;
          reassembly_overflow_max = d.session.reassembly_overflow_max_size;
          reassembly_malformed = d.session.reassembly_malformed_count;
        })))
      × (is_reported (check_traffic_health d).1 ≡ true)
      × ((check_traffic_health (check_traffic_health d).1).0 ≡ none)
unfolding check_traffic_health
check_traffic_health_lem d =
    (ground arith, reported_after d, silent (check_traffic_health d).1 (reported_after d))
