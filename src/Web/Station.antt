-- ===== src/Web/Station.antt =====
-- QcWifiWebTransport.hpp: what onWifiEvent makes of the driver's events.
use qcremote.Prelude.{
  if◌then◌else◌, ◌≡◌, Bool, true, false, ◌||◌, Option, none, some, List, [], ◌∷◌, arith,
}

-- An event, with what its status says where there is one: `some true` is a success.
pub data WifiEvent : Type 0 where
  connect_result : Option Bool → WifiEvent
  disconnect_result : WifiEvent
  ap_enable_result : Option Bool → WifiEvent
  ap_disable_result : WifiEvent
  ap_sta_connected : WifiEvent
  ap_sta_disconnected : WifiEvent
  other_event : WifiEvent

-- The lines of the log.
pub data Report : Type 0 where
  station_connected : Report
  link_dropped : Report
  connect_failed : Report
  disconnected : Report
  ap_enabled : Report
  ap_enable_failed : Report
  ap_disabled : Report
  station_joined : Report
  station_left : Report
  no_report : Report

abbrev pub is_success : Option Bool → Bool
is_success none = false
is_success (some is_ok) = is_ok

-- The state is `staConnectedOnce_`.
unfoldable pub on_wifi_event : Bool → WifiEvent → Bool × Report
on_wifi_event once (connect_result status) =
    if is_success status
    then (true, station_connected)
    else if once
    then (once, link_dropped)
    else (once, connect_failed)
on_wifi_event once disconnect_result = (once, disconnected)
on_wifi_event once (ap_enable_result status) =
    (once, if is_success status then ap_enabled else ap_enable_failed)
on_wifi_event once ap_disable_result = (once, ap_disabled)
on_wifi_event once ap_sta_connected = (once, station_joined)
on_wifi_event once ap_sta_disconnected = (once, station_left)
on_wifi_event once other_event = (once, no_report)

-- The events one after the other, from the transport's start.
abbrev pub after_events : Bool → List WifiEvent → Bool
after_events once [] = once
after_events once (e ∷ es) = after_events (on_wifi_event once e).0 es

abbrev pub is_connect : WifiEvent → Bool
is_connect (connect_result status) = is_success status
is_connect _ = false

abbrev pub any_connect : List WifiEvent → Bool
any_connect [] = false
any_connect (e ∷ es) = is_connect e || any_connect es

after_events_lem :
    (once : Bool) (es : List WifiEvent) → after_events once es ≡ (once || any_connect es)
unfolding on_wifi_event
after_events_lem once [] = ground arith
after_events_lem once (connect_result status ∷ es) =
    ground (arith, after_events_lem once es, after_events_lem true es)
after_events_lem once (disconnect_result ∷ es) = after_events_lem once es
after_events_lem once (ap_enable_result status ∷ es) = after_events_lem once es
after_events_lem once (ap_disable_result ∷ es) = after_events_lem once es
after_events_lem once (ap_sta_connected ∷ es) = after_events_lem once es
after_events_lem once (ap_sta_disconnected ∷ es) = after_events_lem once es
after_events_lem once (other_event ∷ es) = after_events_lem once es

-- Whatever events came since the start: a failed association is reported as a wrong configuration if
-- none has succeeded, and as a link that was dropped if one has.
pub failure_after_events :
    (es : List WifiEvent) (status : Option Bool)
    → is_success status ≡ false
    → (on_wifi_event (after_events false es) (connect_result status)).1
      ≡ (if any_connect es then link_dropped else connect_failed)
unfolding on_wifi_event
failure_after_events es status h = ground (arith, after_events_lem false es)
