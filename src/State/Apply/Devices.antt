-- ===== src/State/Apply/Devices.antt =====
-- What a message about a device changes (src/tekmar_482/state.py).
use tekmar.Prelude.{
  ℕ, String, ◌≡◌, refl, ap, ◌∙◌, Bool, true, ◌||◌, Option, none, some, List, [], ◌∷◌, ◌==◌,
  if◌then◌else◌, Option-cases, inl, inr, arith,
}
use tekmar.Prelude.Dict.{number_key, Map, lookup, insert, lookup-insert}
use tekmar.Trpc.Methods.{TrpcMethod}
use tekmar.Trpc.Message.{TrpcPacket, get}
use tekmar.Models.Setback.{ThaSetback, setback_from_value}
use tekmar.Models.Device.{DiscoveredDevice}
use tekmar.Models.Runtime.{
  DeviceValue, DeviceRuntime, with_scalar, with_setpoint, DeviceSnapshot, AvailableInfo,
  DiscoveryResult,
}
use tekmar.Models.Runtime.Updates.{held-with_scalar, held-with_setpoint}
use tekmar.State.{setpoint_method, scalar_method}
use tekmar.State.Apply.{
  updated, add_snapshots, cons_found, in_order, has_address, new_runtime, from_stored,
  setpoint_report, apply_setpoint_report, update_by_entry, update_runtime, store_update,
  apply_to_snapshot, apply_device_message,
}

abbrev Snapshots : Type 0
Snapshots = Map ℕ DeviceSnapshot

-- Each snapshot stands at its own address.
abbrev IsOwn : Snapshots → Type 0
IsOwn snapshots =
    (k : ℕ) (s : DeviceSnapshot) → lookup k snapshots ≡ some s → s.runtime.info.address ≡ k

insert-IsOwn :
    (s : DeviceSnapshot) (address : ℕ) (snapshots : Snapshots)
    → s.runtime.info.address ≡ address
    → IsOwn snapshots
    → IsOwn (insert address s snapshots)
insert-IsOwn s address snapshots e own k other h =
    ground (arith, lookup-insert address k s snapshots, own k other)

add_snapshots-IsOwn :
    (devices : List DeviceSnapshot) (snapshots : Snapshots)
    → IsOwn snapshots
    → IsOwn (add_snapshots devices snapshots)
unfolding add_snapshots
add_snapshots-IsOwn [] snapshots own = own
add_snapshots-IsOwn (s ∷ devices) snapshots own =
    add_snapshots-IsOwn devices (insert s.runtime.info.address s snapshots)
      (insert-IsOwn s s.runtime.info.address snapshots refl own)

-- The first one that is found.
abbrev or_else : Option DeviceSnapshot → Option DeviceSnapshot → Option DeviceSnapshot
or_else none other = other
or_else (some s) other = some s

absent_first :
    (a k : ℕ) (snapshots : Snapshots) (has : Bool) (found : Option DeviceSnapshot)
    → lookup a snapshots ≡ none
    → (if has then or_else (lookup k snapshots) found else found)
      ≡ (if a == k || has then or_else (lookup k snapshots) found else found)
absent_first a k snapshots has found e = ground (arith, e)

present_first :
    (s : DeviceSnapshot) (a k : ℕ) (snapshots found : Snapshots) (has : Bool)
    → lookup a snapshots ≡ some s
    → s.runtime.info.address ≡ a
    → (if has
        then or_else (lookup k snapshots) (lookup k (insert s.runtime.info.address s found))
        else lookup k (insert s.runtime.info.address s found))
      ≡ (if a == k || has then or_else (lookup k snapshots) (lookup k found) else lookup k found)
present_first s a k snapshots found has e own =
    ground (arith, e, own, lookup-insert s.runtime.info.address k s found)

add_snapshots-in_order :
    (devices : List DiscoveredDevice) (snapshots found : Snapshots) (k : ℕ)
    → IsOwn snapshots
    → lookup k (add_snapshots (in_order devices snapshots) found) ≡ (
        if has_address devices k
        then or_else (lookup k snapshots) (lookup k found)
        else lookup k found)
unfolding add_snapshots in_order has_address
add_snapshots-in_order [] snapshots found k own = refl
add_snapshots-in_order (device ∷ devices) snapshots found k own =
    elim (Option-cases (lookup device.address snapshots)) [
      | inl e ↦
          ap
            (λ first.
              lookup k (add_snapshots (cons_found first (in_order devices snapshots)) found))
            e
          ∙ add_snapshots-in_order devices snapshots found k own
          ∙ absent_first device.address k snapshots (has_address devices k) (lookup k found) e
      | inr (s, e) ↦
          ap
            (λ first.
              lookup k (add_snapshots (cons_found first (in_order devices snapshots)) found))
            e
          ∙ add_snapshots-in_order devices snapshots (insert s.runtime.info.address s found) k own
          ∙ present_first s device.address k snapshots found (has_address devices k) e
              (own device.address s e)
    ]

from_stored-info :
    (r t : DeviceRuntime) (stored : Option DeviceRuntime)
    → ((u : DeviceRuntime) → stored ≡ some u → u.info ≡ r.info)
    → from_stored stored ≡ new_runtime t
    → t.info ≡ r.info
unfolding from_stored
from_stored-info r t none keeps e = cc
from_stored-info r t (some u) keeps e = ground (arith, keeps u refl)

setpoint_report-info :
    (r t : DeviceRuntime) (entry : DeviceValue × String) (setback : Option ThaSetback)
    (m : TrpcPacket)
    → setpoint_report r entry setback m ≡ new_runtime t
    → t.info ≡ r.info
unfolding setpoint_report
setpoint_report-info r t entry none m e = cc
setpoint_report-info r t entry (some setback) m e =
    from_stored-info r t (with_setpoint r entry.0 setback (get m entry.1))
      (λ u h. (held-with_setpoint r u entry.0 entry.0 setback (get m entry.1) h).2) e

update_by_entry-info :
    (r t : DeviceRuntime) (scalar setpoint : Option (DeviceValue × String)) (m : TrpcPacket)
    → update_by_entry scalar setpoint r m ≡ new_runtime t
    → t.info ≡ r.info
unfolding update_by_entry apply_setpoint_report
update_by_entry-info r t (some entry) other m e =
    from_stored-info r t (with_scalar r entry.0 (get m entry.1))
      (λ u h. (held-with_scalar r u entry.0 entry.0 (get m entry.1) h).2) e
update_by_entry-info r t none (some entry) m e =
    setpoint_report-info r t entry (setback_from_value (get m "setback")) m e
update_by_entry-info r t none none m e = cc

-- The snapshot at an address, as state.py finds it: of several, the last one.
unfoldable pub snapshot_at : AvailableInfo → ℕ → Option DeviceSnapshot
unfolding lookup add_snapshots
snapshot_at info address = lookup address (add_snapshots info.devices [])

empty-IsOwn : IsOwn []
unfolding lookup
empty-IsOwn k s h = cc

stored_first :
    (stored : DeviceSnapshot) (address other : ℕ) (snapshots : Snapshots) (has : Bool)
    → has ≡ true
    → (if has
        then or_else (lookup other (insert address stored snapshots)) (lookup {K = ℕ} other [])
        else lookup {K = ℕ} other [])
      ≡ (if address == other then some stored else lookup other snapshots)
unfolding lookup
stored_first stored address other snapshots has h =
    ground (arith, h, lookup-insert address other stored snapshots)

-- A message that gives the runtime of a snapshot a new value: it is applied, the snapshot at its
-- address, read at a discovered address, has the new runtime, the one at any other discovered
-- address is unchanged, and so are the gateway's values.
pub apply_device_message_lem :
    (discovery : DiscoveryResult) (info : AvailableInfo) (address other : ℕ) (method : TrpcMethod)
    (m : TrpcPacket) (s : DeviceSnapshot) (r : DeviceRuntime)
    → snapshot_at info address ≡ some s
    → update_runtime method s.runtime m ≡ new_runtime r
    → has_address discovery.devices other ≡ true
    → (after : AvailableInfo) × (apply_device_message discovery info address method m
        ≡ updated after)
      × (after.gateway ≡ info.gateway)
      × (snapshot_at after other
          ≡ (if address == other then some (record { runtime = r }) else snapshot_at info other))
unfolding apply_device_message apply_to_snapshot store_update snapshot_at update_runtime
apply_device_message_lem discovery info address other method m s r found new known =
    let snapshots = add_snapshots info.devices [] in
    let stored : DeviceSnapshot = record { runtime = r } in
    let own = add_snapshots-IsOwn info.devices [] empty-IsOwn in
    let own_after =
      insert-IsOwn stored address snapshots
        (ap (λ i. i.address)
            (update_by_entry-info s.runtime r (scalar_method method) (setpoint_method method) m new)
          ∙ own address s found)
        own in
    (
      record info { devices = in_order discovery.devices (insert address stored snapshots) },
      ap (apply_to_snapshot discovery info address method m snapshots) found
          ∙ ap (store_update discovery info address snapshots) new,
      refl,
      add_snapshots-in_order discovery.devices (insert address stored snapshots) [] other own_after
          ∙ stored_first stored address other snapshots (has_address discovery.devices other) known,
    )
