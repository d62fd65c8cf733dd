-- ===== src/Client/Discovery.antt =====
-- Discovery in src/tekmar_482/client.py: `get_gateway_info`, `get_inventory_addresses`,
-- `get_device_info` and `discover`.
pub mod Inventory
use tekmar.Prelude.{
  ℕ, zero, suc, String, Bool, true, false, ◌&&◌, ◌||◌, Option, none, some, List, [], ◌∷◌, ◌++◌,
  ◌==◌, if◌then◌else◌,
}
use tekmar.Trpc.Fields.{FieldsInput, nothing, payload, address_fields, enable_fields}
use tekmar.Trpc.Methods.{TrpcMethod, TrpcService, method_id, service_id}
use tekmar.Trpc.Message.{TrpcPacket, require}
use tekmar.Trpc.Match.{elem}
use tekmar.Models.Device.{DiscoveredDevice}
use tekmar.Models.Runtime.{GatewayInfo, DiscoveryResult}
use tekmar.Client.Action.{
  Action, Reply, returned, ran_out, then_reply, ◌>>=◌, ◌>>◌, give, lift_call, lift_result, when,
  finally, for_each,
}
use tekmar.Client.Calls.{
  SessionCalls, matching, request_response, update_response, set_reporting_state,
  request_device_inventory, delay,
}

abbrev pub na_16 : ℕ
na_16 = 0xFFFF

abbrev pub na_32 : ℕ
na_32 = 0xFFFFFFFF

-- `message.require(field) if message is not None else None`.
abbrev pub required_of : {W : Type 0} → Option TrpcPacket → String → Action W (Option ℕ)
required_of none field = give none
required_of (some m) field = do value ← lift_result (require m field); give (some value)

-- `None if value == ThaValue.NA_32 else value`.
unfoldable pub unless_na_32 : Option ℕ → Option ℕ
unless_na_32 none = none
unless_na_32 (some value) = if value == na_32 then none else some value

abbrev value_or_zero : Option ℕ → ℕ
value_or_zero none = 0
value_or_zero (some value) = value

-- The predicate of the inventory loop; both properties look the ids up in the enumerations.
unfoldable pub is_inventory : TrpcPacket → Bool
unfolding method_id service_id
is_inventory m =
    m.service_id == service_id TrpcService.response_request
    && m.method_id == method_id TrpcMethod.device_inventory

-- `if address not in addresses: addresses.append(address)`.
unfoldable pub add_address : ℕ → List ℕ → List ℕ
unfolding elem
add_address address addresses =
    if elem address addresses then addresses else addresses ++ (address ∷ [])

module _ {W : Type 0} (session : SessionCalls W) where
  unfoldable pub get_gateway_info : Action W GatewayInfo
  unfolding request_response
  get_gateway_info = do
    firmware ← request_response session TrpcMethod.firmware_revision (matching none nothing) nothing
    protocol ← request_response session TrpcMethod.protocol_version (matching none nothing) nothing
    revision ← required_of firmware "revision"
    version ← required_of protocol "version"
    give (record { firmware_revision = revision; protocol_version = version })

  -- The end of a round: an address of 0 or NA ends the loop.
  unfoldable pub after_address : (List ℕ → Action W (List ℕ)) → List ℕ → ℕ → Action W (List ℕ)
  unfolding add_address
  after_address next addresses address =
      if address == 0 || address == na_16
      then give addresses
      else next (add_address address addresses)

  unfoldable pub after_message :
      (List ℕ → Action W (List ℕ)) → List ℕ → Option TrpcPacket → Action W (List ℕ)
  unfolding after_address
  after_message next addresses none = give addresses
  after_message next addresses (some m) = do
    address ← lift_result (require m "address")
    after_address next addresses address

  -- The loop `while True`, for a number of rounds.
  unfoldable pub collect_addresses : ℕ → List ℕ → Action W (List ℕ)
  unfolding after_message is_inventory
  collect_addresses zero addresses w = (w, ran_out)
  collect_addresses (suc rounds) addresses w =
      let round =
        then_reply (lift_call (session.next_matching is_inventory) w)
          (after_message (collect_addresses rounds) addresses) in
      if session.expired w then (w, returned addresses) else round

  unfoldable pub get_inventory_addresses : ℕ → ℕ → Action W (List ℕ)
  unfolding request_device_inventory collect_addresses
  get_inventory_addresses rounds start_address = do
    request_device_inventory session start_address
    collect_addresses rounds []

  -- The four requests of `get_device_info` have one form.
  unfoldable pub request_at : TrpcMethod → ℕ → Action W (Option TrpcPacket)
  unfolding request_response
  request_at method address =
      request_response session method (matching (some address) nothing)
        (payload (address_fields address))

  unfoldable pub get_device_info : ℕ → Action W DiscoveredDevice
  unfolding request_at unless_na_32
  get_device_info address = do
    device_type ← request_at TrpcMethod.device_type address
    device_version ← request_at TrpcMethod.device_version address
    attributes ← request_at TrpcMethod.device_attributes address
    setback_events ← request_at TrpcMethod.setback_events address
    raw_attributes ← required_of attributes "attributes"
    raw_type_code ← required_of device_type "type"
    raw_version ← required_of device_version "j_number"
    events ← required_of setback_events "events"
    give (record {
      address = address;
      type_code = unless_na_32 raw_type_code;
      version = unless_na_32 raw_version;
      attributes = value_or_zero raw_attributes;
      setback_events = events;
    })

  -- `setback_enable` of `discover`.
  unfoldable pub set_setback_enable : Bool → Option Bool → Action W (Unit {0})
  unfolding update_response delay
  set_setback_enable delayed none = give tt
  set_setback_enable delayed (some enabled) = do
    let fields = payload (enable_fields enabled)
    update_response session TrpcMethod.setback_enable (matching none fields) fields
    delay session delayed

  unfoldable pub device_after_delay : Bool → ℕ → Action W DiscoveredDevice
  unfolding get_device_info delay
  device_after_delay delayed address = do
    device ← get_device_info address
    delay session delayed
    give device

  -- The body of the `try` in `discover`.
  unfoldable pub discover_body : ℕ → Bool → Option Bool → Bool → Action W DiscoveryResult
  unfolding set_reporting_state delay get_gateway_info set_setback_enable get_inventory_addresses
      device_after_delay for_each
  discover_body rounds manage_reporting setback_enable delayed = do
    when manage_reporting (set_reporting_state session false >> delay session delayed)
    gateway ← get_gateway_info
    delay session delayed
    set_setback_enable delayed setback_enable
    addresses ← get_inventory_addresses rounds 0
    devices ← for_each (device_after_delay delayed) addresses
    give (record { gateway = gateway; devices = devices })

  unfoldable pub discover : ℕ → Bool → Option Bool → Bool → Action W DiscoveryResult
  unfolding discover_body set_reporting_state
  discover rounds manage_reporting setback_enable delayed =
      finally (discover_body rounds manage_reporting setback_enable delayed)
        (when manage_reporting (set_reporting_state session true))
