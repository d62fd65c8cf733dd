-- ===== src/State/Holder.antt =====
-- `Tekmar482State` of src/tekmar_482/state.py: the data of a discovered topology.
use tekmar.Prelude.{ℕ, Option, none, some, List, [], ◌∷◌, ◌==◌, if◌then◌else◌}
use tekmar.Exceptions.{Result, err, protocol_error}
use tekmar.Trpc.Methods.{TrpcMethod}
use tekmar.Trpc.Message.{TrpcPacket}
use tekmar.Models.Device.{DiscoveredDevice}
use tekmar.Models.Equality.{same_info}
use tekmar.Models.Runtime.{DeviceRuntime, DeviceSnapshot, AvailableInfo, DiscoveryResult}
use tekmar.State.{require_device_support}
use tekmar.State.Apply.{Applied, ignored, raises_type_error, updated, apply_message}

pub record TekmarState : Type 0 where
  pub discovery : DiscoveryResult
  pub current_data : AvailableInfo

later_device : Option DiscoveredDevice → DiscoveredDevice → ℕ → Option DiscoveredDevice
later_device (some later) d address = some later
later_device none d address = if d.address == address then some d else none

later_runtime : Option DeviceRuntime → DeviceRuntime → ℕ → Option DeviceRuntime
later_runtime (some later) r address = some later
later_runtime none r address = if r.info.address == address then some r else none

-- A dict by address keeps the last item with the address.
last_device : List DiscoveredDevice → ℕ → Option DiscoveredDevice
unfolding later_device
last_device [] address = none
last_device (d ∷ rest) address = later_device (last_device rest address) d address

-- `device`.
unfoldable pub device : TekmarState → ℕ → Option DiscoveredDevice
unfolding last_device
device s address = last_device s.discovery.devices address

last_runtime : List DeviceSnapshot → ℕ → Option DeviceRuntime
unfolding later_runtime
last_runtime [] address = none
last_runtime (d ∷ rest) address = later_runtime (last_runtime rest address) d.runtime address

-- `runtime`.
unfoldable pub runtime_of : TekmarState → ℕ → Option DeviceRuntime
unfolding last_runtime
runtime_of s address = last_runtime s.current_data.devices address

required_support : Option DiscoveredDevice → TrpcMethod → Result (Unit {0})
unfolding require_device_support
required_support none method = err protocol_error
required_support (some d) method = require_device_support d method

-- `require_device_support` of the class.
unfoldable pub require_support : TekmarState → ℕ → TrpcMethod → Result (Unit {0})
unfolding device required_support
require_support s address method = required_support (device s address) method

-- What `Tekmar482State.apply_message` does: TypeError, or the state and whether it changed.
pub data Change : Type 0 where
  type_error : Change
  changed unchanged : TekmarState → Change

unfoldable pub applied_to : TekmarState → Applied → Change
unfolding same_info
applied_to s ignored = unchanged s
applied_to s raises_type_error = type_error
applied_to s (updated info) =
    if same_info info s.current_data
    then unchanged s
    else changed (record s { current_data = info })

unfoldable pub apply_to_state : TekmarState → TrpcPacket → Change
unfolding applied_to apply_message
apply_to_state s m = applied_to s (apply_message s.discovery s.current_data m)
