-- ===== src/Web/AccessPoint.antt =====
-- QcWifiWebTransport.hpp: bringing up the network. The calls of Zephyr's network API are listed with
-- what they are given; what they answer is a parameter.
use qcremote.Prelude.{
  ◌==◌, if◌then◌else◌, ℕ, ◌+◌, ◌%◌, Bool, true, false, not, Option, none, some, List, [], ◌∷◌, ◌++◌,
}

-- What is configured: `has_app_dhcp` is CONFIG_QC_WIFI_AP_APP_DHCP_SERVER, and the last is the access
-- point's address, of four bytes, where the text of it and of the netmask can be read.
pub record ApConfig : Type 0 where
  pub ssid_length : ℕ
  pub psk_length : ℕ
  pub has_app_dhcp : Bool
  pub address : Option (List ℕ)

-- What the calls answer.
pub record NetAnswers : Type 0 where
  pub has_interface : Bool
  pub address_added : Bool
  pub netmask_set : Bool
  pub dhcp_started : Bool

pub data Security : Type 0 where
  no_security : Security
  psk : Security

pub data NetCall : Type 0 where
  set_gateway : List ℕ → NetCall
  add_address : List ℕ → NetCall
  set_netmask : List ℕ → NetCall
  start_dhcp_server : List ℕ → NetCall
  enable_ap : Security → NetCall
  connect : Security → NetCall

-- `poolStart.s4_addr[3] += 10`, in a byte.
unfoldable pub pool_start : List ℕ → List ℕ
pool_start (a ∷ b ∷ c ∷ d ∷ []) = a ∷ b ∷ c ∷ (d + 10) % 256 ∷ []
pool_start other = other

-- The calls, and whether it answers true.
unfoldable pub start_app_dhcp_server : ApConfig → NetAnswers → List NetCall × Bool
start_app_dhcp_server c n = elim c.address [
  | none ↦ ([], false)
  | some a ↦
      if not n.address_added
      then (set_gateway a ∷ add_address a ∷ [], false)
      else if not n.netmask_set
      then (set_gateway a ∷ add_address a ∷ set_netmask a ∷ [], false)
      else (
        set_gateway a ∷ add_address a ∷ set_netmask a ∷ start_dhcp_server (pool_start a) ∷ [],
        n.dhcp_started,
      )
]

abbrev pub security : ℕ → Security
security psk_length = if psk_length == 0 then no_security else psk

unfoldable pub start_access_point : ApConfig → NetAnswers → List NetCall
start_access_point c n =
    let (calls, is_started) = start_app_dhcp_server c n in
    if not n.has_interface
    then []
    else if not c.has_app_dhcp
    then enable_ap (security c.psk_length) ∷ []
    else if is_started
    then calls ++ enable_ap (security c.psk_length) ∷ []
    else calls

unfoldable pub start_station : ApConfig → NetAnswers → List NetCall
start_station c n =
    if not n.has_interface
    then []
    else if c.ssid_length == 0
    then []
    else connect (security c.psk_length) ∷ []

abbrev pub enabled_with : List NetCall → Option Security
enabled_with [] = none
enabled_with (enable_ap s ∷ calls) = some s
enabled_with (set_gateway a ∷ calls) = enabled_with calls
enabled_with (add_address a ∷ calls) = enabled_with calls
enabled_with (set_netmask a ∷ calls) = enabled_with calls
enabled_with (start_dhcp_server a ∷ calls) = enabled_with calls
enabled_with (connect s ∷ calls) = enabled_with calls

abbrev pub is_readable : Option (List ℕ) → Bool
is_readable none = false
is_readable (some a) = true
