-- ===== src/Controller.antt =====
-- src/tekmar_482/controller.py: `Tekmar482Controller`, as actions on the controller beside the world
-- that its client and its listeners act on.
pub mod Running
pub mod Listening
pub mod OnReturn
pub mod Started
pub mod Handles
mod Tests
use mathlib.Core.Option
use tekmar.Prelude.{
  ℕ, Bool, true, false, ◌&&◌, Option, none, some, List, [], ◌∷◌, ◌==◌, if◌then◌else◌,
}
use tekmar.Exceptions.{TekmarError, Result, ok, err, protocol_error}
use tekmar.Trpc.Methods.{TrpcMethod, method_id}
use tekmar.Trpc.Message.{TrpcPacket}
use tekmar.Models.Device.{DiscoveredDevice}
use tekmar.Models.Runtime.{AvailableInfo, DiscoveryResult}
use tekmar.State.{is_runtime_message, require_device_support}
use tekmar.State.Holder.{
  TekmarState, Change, type_error, changed, unchanged, apply_to_state, require_support,
}
use tekmar.Client.Action.{
  Action, Reply, returned, raised, value_error, os_error, ran_out, then_reply, after_cleanup, ◌>>=◌,
  ◌>>◌, give,
}

-- The calls of the client and of the listeners, which may raise. A listener is its identity.
pub record ControllerCalls (W : Type 0) : Type 0 where
  pub open_client : Action W (Unit {0})
  pub close_client : Action W (Unit {0})
  pub client_is_open : W → Bool
  pub set_reporting : Bool → Action W (Option TrpcPacket)
  pub discover_all : Action W DiscoveryResult
  pub poll_all : DiscoveryResult → Action W AvailableInfo
  pub call_state : ℕ → AvailableInfo → Action W (Unit {0})
  pub call_topology : ℕ → TrpcPacket → Action W (Unit {0})
  pub start_reports : W → W
  pub stop_reports : W → W

-- The fields that change; `has_task` is whether `_report_task` is set.
pub record Controller : Type 0 where
  pub discovery : Option DiscoveryResult
  pub state : Option TekmarState
  pub state_callbacks : List ℕ
  pub topology_callbacks : List ℕ
  pub error_callbacks : List ℕ
  pub has_task : Bool
  pub is_running : Bool

unfoldable pub new_controller : Controller
new_controller = record {
  discovery = none;
  state = none;
  state_callbacks = [];
  topology_callbacks = [];
  error_callbacks = [];
  has_task = false;
  is_running = false;
}

-- `set.add` and `set.discard`.
unfoldable pub add_callback : ℕ → List ℕ → List ℕ
add_callback id [] = id ∷ []
add_callback id (c ∷ rest) =
    let added = add_callback id rest in if c == id then c ∷ rest else c ∷ added

unfoldable pub discard_callback : ℕ → List ℕ → List ℕ
discard_callback id [] = []
discard_callback id (c ∷ rest) =
    let left = discard_callback id rest in if c == id then left else c ∷ left

unfoldable pub add_listener : ℕ → Controller → Controller
unfolding add_callback
add_listener id c = record c { state_callbacks = add_callback id c.state_callbacks }

unfoldable pub remove_listener : ℕ → Controller → Controller
unfolding discard_callback
remove_listener id c = record c { state_callbacks = discard_callback id c.state_callbacks }

unfoldable pub add_topology_listener : ℕ → Controller → Controller
unfolding add_callback
add_topology_listener id c = record c { topology_callbacks = add_callback id c.topology_callbacks }

unfoldable pub add_error_listener : ℕ → Controller → Controller
unfolding add_callback
add_error_listener id c = record c { error_callbacks = add_callback id c.error_callbacks }

-- `is_topology_message` of state.py.
unfoldable pub is_topology_message : TrpcPacket → Bool
unfolding is_runtime_message method_id
is_topology_message m = is_runtime_message m && m.method_id == method_id TrpcMethod.taking_address

-- `data`.
unfoldable pub data_of : Controller → Option AvailableInfo
data_of c = Option.map (λ s. s.current_data) c.state

-- A call of the world, beside the controller.
abbrev pub call : {W A : Type 0} → Action W A → Action (Controller × W) A
call action (c, w) = ((c, (action w).0), (action w).1)

abbrev pub store : {W : Type 0} → (Controller → Controller) → Action (Controller × W) (Unit {0})
store change (c, w) = ((change c, w), returned tt)

-- `except BaseException: …; raise`.
abbrev pub handled : {W A B : Type 0} → W × Reply A → Action W B → W × Reply A
handled (w, returned a) cleanup = (w, returned a)
handled (w, raised e) cleanup = after_cleanup (raised e) (cleanup w)
handled (w, value_error) cleanup = after_cleanup value_error (cleanup w)
handled (w, os_error) cleanup = after_cleanup os_error (cleanup w)
handled (w, ran_out) cleanup = after_cleanup ran_out (cleanup w)

-- `with suppress(OSError, TekmarError)`.
abbrev pub suppressed : {W A : Type 0} → W × Reply A → W × Reply (Unit {0})
suppressed (w, returned a) = (w, returned tt)
suppressed (w, raised e) = (w, returned tt)
suppressed (w, os_error) = (w, returned tt)
suppressed (w, value_error) = (w, value_error)
suppressed (w, ran_out) = (w, ran_out)

module _ {W : Type 0} (calls : ControllerCalls W) where
  -- A loop that calls each listener; one that raises ends it.
  unfoldable pub call_each :
      {A : Type 0} → (ℕ → A → Action W (Unit {0})) → List ℕ → A → Action W (Unit {0})
  call_each one [] a = give tt
  call_each one (id ∷ rest) a = one id a >> call_each one rest a

  -- `_notify_state`.
  unfoldable pub notify_at : Option TekmarState → Action (Controller × W) (Unit {0})
  unfolding call_each
  notify_at none cw = (cw, returned tt)
  notify_at (some s) (c, w) =
      call (call_each calls.call_state c.state_callbacks s.current_data) (c, w)

  unfoldable pub notify_state : Action (Controller × W) (Unit {0})
  unfolding notify_at
  notify_state (c, w) = notify_at c.state (c, w)

  -- The end of `_handle_message`, by what the state makes of the message.
  unfoldable pub after_change : Change → Action (Controller × W) (Unit {0})
  unfolding notify_state
  after_change type_error cw = (cw, value_error)
  after_change (unchanged s) cw = (cw, returned tt)
  after_change (changed s) (c, w) = notify_state (record c { state = some s }, w)

  unfoldable pub apply_in : Option TekmarState → TrpcPacket → Action (Controller × W) (Unit {0})
  unfolding after_change apply_to_state
  apply_in none m cw = (cw, returned tt)
  apply_in (some s) m cw = after_change (apply_to_state s m) cw

  unfoldable pub handle_message : TrpcPacket → Action (Controller × W) (Unit {0})
  unfolding apply_in is_topology_message call_each
  handle_message m (c, w) =
      if is_topology_message m
      then call (call_each calls.call_topology c.topology_callbacks m) (c, w)
      else apply_in c.state m (c, w)

  -- The loop over the reports in `_report_loop`.
  unfoldable pub handle_all : List TrpcPacket → Action (Controller × W) (Unit {0})
  unfolding handle_message
  handle_all [] = give tt
  handle_all (m ∷ ms) = handle_message m >> handle_all ms
