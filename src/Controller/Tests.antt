-- ===== src/Controller/Tests.antt =====
-- The model of src/tekmar_482/controller.py at concrete inputs.
use mathlib.Core.Option
use tekmar.Prelude.{
  ℕ, ◌≡◌, refl, ap, true, false, Option, none, some, List, [], ◌∷◌, ◌==◌, if◌then◌else◌, arith,
}
use tekmar.Trpc.Message.{TrpcPacket}
use tekmar.Trpc.Match.{elem}
use tekmar.Models.Runtime.{AvailableInfo, DiscoveryResult}
use tekmar.Client.Action.{returned, value_error}
use tekmar.Controller.{
  ControllerCalls, Controller, new_controller, add_listener, handle_all, data_of,
}
use tekmar.Controller.Running.{start}
use tekmar.Controller.Listening.{Listens, Sees, handle_all-Sees}
use tekmar.Controller.Started.{start-IsStarted}

abbrev nothing_known : AvailableInfo
nothing_known = record {
  gateway = record {
    info = record { firmware_revision = none; protocol_version = some 3 };
    outdoor_temp = none;
    network_error = none;
    date_time = none;
    reporting_enabled = none;
    setback_enabled = none;
    setpoint_groups = none;
  };
  devices = [];
}

abbrev no_devices : DiscoveryResult
no_devices = record {
  gateway = record { firmware_revision = none; protocol_version = some 3 };
  devices = [];
}

-- The world is the list of what the listeners were told, the newest first.
abbrev World : Type 0
World = List (ℕ × AvailableInfo)

abbrev quiet_calls : ControllerCalls World
quiet_calls = record {
  open_client = λ w. (w, returned tt);
  close_client = λ w. (w, returned tt);
  client_is_open = λ w. true;
  set_reporting = λ enabled w. (w, returned none);
  discover_all = λ w. (w, returned no_devices);
  poll_all = λ found w. (w, returned nothing_known);
  call_state = λ id info w. ((id, info) ∷ w, returned tt);
  call_topology = λ id m w. (w, returned tt);
  start_reports = λ w. w;
  stop_reports = λ w. w;
}

-- The listeners raise.
abbrev raising_calls : ControllerCalls World
raising_calls = record quiet_calls { call_state = λ id info w. (w, value_error) }

last_told : ℕ → World → Option AvailableInfo
last_told id [] = none
last_told id ((other, info) ∷ rest) =
    let earlier = last_told id rest in if other == id then some info else earlier

abbrev SeenByOne : AvailableInfo → World → Type 0
SeenByOne info w = last_told 1 w ≡ some info

told_again :
    (id : ℕ) (info : AvailableInfo) (w : World) → SeenByOne info w → SeenByOne info ((id, info) ∷ w)
unfolding last_told
told_again id info w seen = ground (arith, seen)

told_one : (info : AvailableInfo) (w : World) → SeenByOne info ((1, info) ∷ w)
unfolding last_told
told_one info w = refl

abbrev one_listens : Listens quiet_calls 1 SeenByOne
one_listens = record {
  sees = told_one;
  keeps = told_again;
  returns = λ id info w. refl;
  topology_keeps = λ id m info w seen. seen;
  topology_returns = λ id m w. refl;
}

abbrev one_listener : Controller
one_listener = add_listener 1 new_controller

abbrev started : Controller
started = record one_listener {
  discovery = some no_devices;
  state = some (record { discovery = no_devices; current_data = nothing_known });
  is_running = true;
  has_task = true;
}

start-started :
    start quiet_calls (one_listener, [])
    ≡ ((started, (1, nothing_known) ∷ []), returned nothing_known)
unfolding start add_listener new_controller
start-started = refl

start-IsStarted_example :
    (started.is_running ≡ true) × (started.has_task ≡ true) × (data_of started ≡ some nothing_known)
unfolding add_listener new_controller
start-IsStarted_example =
    start-IsStarted quiet_calls one_listener started [] ((1, nothing_known) ∷ []) nothing_known refl
      start-started

-- A listener that raises when `start` first tells it leaves a controller that counts as running,
-- with no report loop.
start-listener_raises :
    ((start raising_calls (one_listener, [])).1 ≡ value_error)
    × ((start raising_calls (one_listener, [])).0.0.is_running ≡ true)
    × ((start raising_calls (one_listener, [])).0.0.has_task ≡ false)
unfolding start add_listener new_controller
start-listener_raises = (refl, refl, refl)

-- Report OutdoorTemp.
abbrev warmer : TrpcPacket
warmer = record { service_id = 2; method_id = 0x117; body = ("temp", 70) ∷ []; extra = [] }

started-Sees : Sees quiet_calls 1 SeenByOne one_listens started ((1, nothing_known) ∷ [])
unfolding Sees add_listener new_controller last_told
started-Sees s e = ap (Option.map (λ t. t.current_data)) e

handle_all-Sees_example :
    ((handle_all quiet_calls (warmer ∷ []) (started, (1, nothing_known) ∷ [])).1 ≡ returned tt)
    × ((handle_all quiet_calls (warmer ∷ []) (started, (1, nothing_known) ∷ [])).0.0.state_callbacks
        ≡ started.state_callbacks)
    × Sees quiet_calls 1 SeenByOne one_listens
        (handle_all quiet_calls (warmer ∷ []) (started, (1, nothing_known) ∷ [])).0.0
        (handle_all quiet_calls (warmer ∷ []) (started, (1, nothing_known) ∷ [])).0.1
unfolding add_listener new_controller elem
handle_all-Sees_example =
    handle_all-Sees quiet_calls 1 SeenByOne one_listens (warmer ∷ []) started
      ((1, nothing_known) ∷ []) refl started-Sees
