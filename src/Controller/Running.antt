-- ===== src/Controller/Running.antt =====
-- `start`, `stop`, `refresh_runtime` and `rediscover` (src/tekmar_482/controller.py).
use tekmar.Prelude.{Bool, true, false, ◌&&◌, Option, none, some, if◌then◌else◌}
use tekmar.Trpc.Message.{TrpcPacket}
use tekmar.Models.Runtime.{AvailableInfo, DiscoveryResult}
use tekmar.State.Holder.{TekmarState, Change, type_error, changed, unchanged, apply_to_state}
use tekmar.Client.Action.{Action, returned, value_error, ◌>>=◌, ◌>>◌, give}
use tekmar.Controller.{ControllerCalls, Controller, call, store, handled, suppressed, notify_state}

-- `self.state.apply_message(response)`: the state, and whether it returned.
unfoldable pub applied_response : TekmarState → Change → Option TekmarState × Bool
applied_response s type_error = (some s, false)
applied_response s (changed t) = (some t, true)
applied_response s (unchanged t) = (some t, true)

unfoldable pub apply_response : Option TrpcPacket → Option TekmarState → Option TekmarState × Bool
unfolding apply_to_state applied_response
apply_response none state = (state, true)
apply_response (some m) none = (none, true)
apply_response (some m) (some s) = applied_response s (apply_to_state s m)

unfoldable pub data_or : AvailableInfo → Option TrpcPacket → Option TekmarState → AvailableInfo
data_or info (some m) (some s) = s.current_data
data_or info (some m) none = info
data_or info none state = info

module _ {W : Type 0} (calls : ControllerCalls W) where
  -- `self.discovery = await self.client.discover(…)`.
  unfoldable pub rediscovered : Action (Controller × W) DiscoveryResult
  rediscovered = do
    found ← call calls.discover_all
    store (λ c. record c { discovery = some found })
    give found

  unfoldable pub known_discovery : Option DiscoveryResult → Action (Controller × W) DiscoveryResult
  unfolding rediscovered
  known_discovery none = rediscovered
  known_discovery (some found) = give found

  unfoldable pub refresh_runtime : Action (Controller × W) AvailableInfo
  unfolding known_discovery
  refresh_runtime (c, w) =
      (do
        found ← known_discovery c.discovery
        info ← call (calls.poll_all found)
        store (λ d. record d { state = some (record { discovery = found; current_data = info }) })
        give info)
        (c, w)

  -- `if response is not None and self.state is not None: self.state.apply_message(response)`.
  unfoldable pub apply_response_now : Option TrpcPacket → Action (Controller × W) (Unit {0})
  unfolding apply_response
  apply_response_now response (c, w) =
      let applied = apply_response response c.state in
      if applied.1
      then ((record c { state = applied.0 }, w), returned tt)
      else ((c, w), value_error)

  -- The first line of the clean-up of `start` and of `rediscover`.
  unfoldable pub restore_reporting : Bool → Action (Controller × W) (Unit {0})
  restore_reporting disabled (c, w) =
      if disabled && calls.client_is_open w
      then suppressed (call (calls.set_reporting true) (c, w))
      else ((c, w), returned tt)

  unfoldable pub start_cleanup : Bool → Action (Controller × W) (Unit {0})
  unfolding restore_reporting
  start_cleanup disabled = do
    restore_reporting disabled
    λ cw. suppressed (call calls.close_client cw)

  -- The body of the `try` of `start`, cut where `reporting_disabled` changes.
  unfoldable pub seed : Action (Controller × W) (AvailableInfo × Option TrpcPacket)
  unfolding rediscovered refresh_runtime
  seed = do
    rediscovered
    info ← refresh_runtime
    response ← call (calls.set_reporting true)
    give (info, response)

  unfoldable pub read_newest :
      AvailableInfo → Option TrpcPacket → Action (Controller × W) AvailableInfo
  unfolding data_or
  read_newest info response (c, w) = ((c, w), returned (data_or info response c.state))

  -- `asyncio.create_task(self._report_loop())`.
  unfoldable pub create_task : Action (Controller × W) (Unit {0})
  create_task (c, w) = ((record c { has_task = true }, calls.start_reports w), returned tt)

  unfoldable pub announce : AvailableInfo → Action (Controller × W) AvailableInfo
  unfolding create_task notify_state
  announce newest = do
    store (λ c. record c { is_running = true })
    notify_state calls
    create_task
    give newest

  unfoldable pub run_reports :
      AvailableInfo × Option TrpcPacket → Action (Controller × W) AvailableInfo
  unfolding apply_response_now read_newest announce
  run_reports (info, response) = do
    apply_response_now response
    newest ← read_newest info response
    announce newest

  unfoldable pub start_opened : Action (Controller × W) AvailableInfo
  unfolding start_cleanup seed run_reports
  start_opened = do
    (λ cw. handled (call (calls.set_reporting false) cw) (start_cleanup false))
    seeded ← (λ cw. handled (seed cw) (start_cleanup true))
    (λ cw. handled (run_reports seeded cw) (start_cleanup false))

  unfoldable pub already_running : Bool → Option TekmarState → Option AvailableInfo
  already_running true (some s) = some s.current_data
  already_running true none = none
  already_running false state = none

  unfoldable pub start_unless : Option AvailableInfo → Action (Controller × W) AvailableInfo
  unfolding start_opened
  start_unless (some info) = give info
  start_unless none = do call calls.open_client; start_opened

  unfoldable pub start : Action (Controller × W) AvailableInfo
  unfolding start_unless already_running
  start (c, w) = start_unless (already_running c.is_running c.state) (c, w)

  -- `stop`; cancelling the task and waiting for it ends the report loop.
  unfoldable pub stop : Action (Controller × W) (Unit {0})
  stop (c, w) =
      let ended = if c.has_task then calls.stop_reports w else w in
      (do
        (λ (d, v).
            if calls.client_is_open v
            then suppressed (call (calls.set_reporting false) (d, v))
            else ((d, v), returned tt))
        call calls.close_client)
        (record c { is_running = false; has_task = false }, ended)

  unfoldable pub rediscover_body : Action (Controller × W) (Unit {0})
  unfolding rediscovered refresh_runtime
  rediscover_body = do rediscovered; refresh_runtime; give tt

  pause_if : Bool → Action (Controller × W) (Unit {0})
  pause_if false = give tt
  pause_if true = call (calls.set_reporting false) >> give tt

  resume_if : Bool → Action (Controller × W) (Unit {0})
  unfolding apply_response_now
  resume_if false = give tt
  resume_if true = do response ← call (calls.set_reporting true); apply_response_now response

  unfoldable pub rediscover : Bool → Action (Controller × W) (Option DiscoveryResult)
  unfolding pause_if rediscover_body restore_reporting resume_if notify_state
  rediscover pause_reporting (c, w) =
      let paused = pause_reporting && c.is_running in
      (do
        pause_if paused
        (λ cw. handled (rediscover_body cw) (restore_reporting paused))
        resume_if paused
        notify_state calls
        (λ (d, v). ((d, v), returned d.discovery)))
        (c, w)
