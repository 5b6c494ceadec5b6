-- ===== src/Transport.antt =====
-- rust_core/src/transport/mod.rs: the four transports and the manager that chooses among them. The trait
-- object `dyn Transport` is one of four structs; an async method is a function.
pub mod Reachable
pub mod Choice
use merabriar.Prelude.{
  Bool, true, false, Option, none, some, List, [], ◌∷◌, filter_by, if◌then◌else◌,
}
use merabriar.Rust.Text.{Bytes, Text, text}
use merabriar.Rust.Result.{Result, ok, err}
use merabriar.Rust.HashMap.{HashMap}

pub record TransportId : Type 0 where
  pub name : Text

-- `TransportId::CLOUD`, `LAN`, `BLUETOOTH` and `TOR`
abbrev pub cloud_id : Text
cloud_id = text "org.merabriar.cloud"

abbrev pub lan_id : Text
lan_id = text "org.merabriar.lan"

abbrev pub bluetooth_id : Text
bluetooth_id = text "org.merabriar.bluetooth"

abbrev pub tor_id : Text
tor_id = text "org.merabriar.tor"

pub data TransportState : Type 0 where
  active enabling disabled unavailable : TransportState

pub record TransportProperties : Type 0 where
  pub properties : HashMap Text

-- `CloudTransport`, `LanTransport`, `BluetoothTransport`, `TorTransport`, each with its state
pub data Transport : Type 0 where
  cloud lan bluetooth tor : TransportState → Transport

-- the four `new`
unfoldable pub new_cloud : Transport
new_cloud = cloud disabled

unfoldable pub new_lan : Transport
new_lan = lan disabled

unfoldable pub new_bluetooth : Transport
new_bluetooth = bluetooth disabled

unfoldable pub new_tor : Transport
new_tor = tor disabled

unfoldable pub id : Transport → TransportId
id (cloud _) = record { name = cloud_id }
id (lan _) = record { name = lan_id }
id (bluetooth _) = record { name = bluetooth_id }
id (tor _) = record { name = tor_id }

unfoldable pub state : Transport → TransportState
state (cloud s) = s
state (lan s) = s
state (bluetooth s) = s
state (tor s) = s

unfoldable pub is_available : Transport → Bool
unfolding state
is_available t = elim (state t) [
  | active ↦ true
  | enabling ↦ false
  | disabled ↦ false
  | unavailable ↦ false
]

-- `send`, which ignores its arguments and the state
unfoldable pub send : Transport → Text → Bytes → Result (Unit {0})
send (cloud _) _ _ = ok tt
send (lan _) _ _ = err (text "LAN transport not yet implemented")
send (bluetooth _) _ _ = err (text "Bluetooth transport not yet implemented")
send (tor _) _ _ = err (text "Tor transport not yet implemented")

-- `start` and `stop`: the result, and the transport with its new state
unfoldable pub start : Transport → Result (Unit {0}) × Transport
start (cloud _) = (ok tt, cloud active)
start (lan _) = (ok tt, lan disabled)
start (bluetooth _) = (ok tt, bluetooth disabled)
start (tor _) = (ok tt, tor disabled)

unfoldable pub stop : Transport → Result (Unit {0}) × Transport
stop (cloud _) = (ok tt, cloud disabled)
stop (lan _) = (ok tt, lan disabled)
stop (bluetooth _) = (ok tt, bluetooth disabled)
stop (tor _) = (ok tt, tor disabled)

pub record TransportManager : Type 0 where
  pub transports : List Transport

unfoldable pub new_manager : TransportManager
unfolding new_cloud new_lan new_bluetooth new_tor
new_manager = record { transports = new_cloud ∷ new_lan ∷ new_bluetooth ∷ new_tor ∷ [] }

-- `iter().find(|t| t.is_available())`
unfoldable pub first_available : List Transport → Option Transport
unfolding is_available
first_available [] = none
first_available (t ∷ ts) = let rest = first_available ts in if is_available t then some t else rest

unfoldable pub get_best_transport : TransportManager → Option Transport
unfolding first_available
get_best_transport m = first_available m.transports

unfoldable pub get_available_transports : TransportManager → List Transport
unfolding is_available
get_available_transports m = filter_by is_available m.transports
