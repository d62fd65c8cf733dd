-- ===== src/Controller/Handles.antt =====
-- `Tekmar482DeviceHandle` (src/tekmar_482/controller.py): the writes that need no conversion, with the
-- check of the device.
use tekmar.Prelude.{ℕ, Bool, Option, none, some, List, [], ◌∷◌, ◌==◌, if◌then◌else◌}
use tekmar.Exceptions.{Result, ok, err, protocol_error}
use tekmar.Trpc.Methods.{TrpcMethod}
use tekmar.Trpc.Message.{TrpcPacket}
use tekmar.Models.Device.{DiscoveredDevice}
use tekmar.Models.Runtime.{DeviceRuntime, DiscoveryResult}
use tekmar.State.{require_device_support}
use tekmar.State.Holder.{TekmarState, runtime_of, require_support}
use tekmar.Prelude.Int.{ℤ}
use tekmar.Client.Action.{Action, ◌>>◌, lift_result}
use tekmar.Client.Calls.{SessionCalls}
use tekmar.Client.Writes.{set_latest_fan_percent, set_mode}
use tekmar.Controller.{Controller, call}

-- The first device with the address.
first_device : List DiscoveredDevice → ℕ → Result DiscoveredDevice
first_device [] address = err protocol_error
first_device (d ∷ rest) address =
    let later = first_device rest address in if d.address == address then ok d else later

info_in : Option DiscoveryResult → ℕ → Result DiscoveredDevice
unfolding first_device
info_in none address = err protocol_error
info_in (some discovery) address = first_device discovery.devices address

-- `info`.
unfoldable pub handle_info : Controller → ℕ → Result DiscoveredDevice
unfolding info_in
handle_info c address = info_in c.discovery address

runtime_in : Option TekmarState → ℕ → Option DeviceRuntime
unfolding runtime_of
runtime_in none address = none
runtime_in (some s) address = runtime_of s address

-- `runtime`.
unfoldable pub handle_runtime : Controller → ℕ → Option DeviceRuntime
unfolding runtime_in
handle_runtime c address = runtime_in c.state address

supported_if : Result DiscoveredDevice → TrpcMethod → Result (Unit {0})
unfolding require_device_support
supported_if (err e) method = err e
supported_if (ok d) method = require_device_support d method

supported_in : Option TekmarState → Controller → ℕ → TrpcMethod → Result (Unit {0})
unfolding require_support supported_if handle_info
supported_in (some s) c address method = require_support s address method
supported_in none c address method = supported_if (handle_info c address) method

-- `_require_support`.
unfoldable pub require_handle_support : Controller → ℕ → TrpcMethod → Result (Unit {0})
unfolding supported_in
require_handle_support c address method = supported_in c.state c address method

module _ {W : Type 0} (session : SessionCalls W) where
  unfoldable pub handle_fan_percent : ℕ → Bool → ℤ → ℕ → Action (Controller × W) (Option TrpcPacket)
  unfolding require_handle_support set_latest_fan_percent
  handle_fan_percent address confirm percent setback (c, w) =
      (do
        lift_result (require_handle_support c address TrpcMethod.fan_percent)
        call (set_latest_fan_percent session confirm address percent setback))
        (c, w)

  unfoldable pub handle_mode : ℕ → Bool → ℤ → Action (Controller × W) (Option TrpcPacket)
  unfolding require_handle_support set_mode
  handle_mode address confirm mode (c, w) =
      (do
        lift_result (require_handle_support c address TrpcMethod.mode_setting)
        call (set_mode session confirm address mode))
        (c, w)
