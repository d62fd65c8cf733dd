-- ===== src/Controller/Started.antt =====
-- What holds when `start` returns (src/tekmar_482/controller.py).
use mathlib.Core.Option
use tekmar.Prelude.{◌≡◌, refl, sym, ap, ◌∙◌, true, false, Option, none, some, if◌then◌else◌}
use mathlib.Core.Path.{subst}
use tekmar.Trpc.Message.{TrpcPacket}
use tekmar.Models.Runtime.{AvailableInfo}
use tekmar.State.Holder.{TekmarState, Change, type_error, changed, unchanged, apply_to_state}
use tekmar.Client.Action.{Reply, returned, value_error, ◌>>=◌, ◌>>◌, give}
use tekmar.Controller.{
  ControllerCalls, Controller, call, store, handled, notify_state, notify_at, call_each, data_of,
}
use tekmar.Controller.Running.{
  apply_response, applied_response, data_or, rediscovered, known_discovery, refresh_runtime,
  apply_response_now, start_cleanup, seed, read_newest, create_task, announce, run_reports,
  start_opened, start_unless, already_running, start,
}
use tekmar.Controller.OnReturn.{
  OnReturn, anything, then_reply-OnReturn, handled-OnReturn, call-OnReturn,
}

-- The controller holds a state with these data.
Holds : AvailableInfo → Controller → Type 0
Holds info c = (s : TekmarState) × (c.state ≡ some s) × (s.current_data ≡ info)

-- The report loop runs, and the controller holds these data.
IsStarted : AvailableInfo → Controller → Type 0
IsStarted info c = (c.is_running ≡ true) × (c.has_task ≡ true) × (data_of c ≡ some info)

module _ {W : Type 0} (calls : ControllerCalls W) where
  refresh_runtime-Holds :
      (c : Controller) (w : W) → OnReturn (λ info x. Holds info x.0) (refresh_runtime calls (c, w))
  unfolding refresh_runtime OnReturn Holds
  refresh_runtime-Holds c w =
      then_reply-OnReturn (λ a x. Unit) (λ info x. Holds info x.0)
        (known_discovery calls c.discovery (c, w))
        (λ found. call (calls.poll_all found) >>= λ info.
          store (λ d. record d { state = some (record { discovery = found; current_data = info }) })
          >> give info)
        (anything (known_discovery calls c.discovery (c, w)))
        (λ found (d, v) u.
          then_reply-OnReturn (λ a x. Unit) (λ info x. Holds info x.0)
            (call (calls.poll_all found) (d, v))
            (λ info.
              store
                (λ e. record e { state = some (record { discovery = found; current_data = info }) })
              >> give info)
            (anything (call (calls.poll_all found) (d, v)))
            (λ info (e, z) t. (record { discovery = found; current_data = info }, refl, refl)))

  seed-Holds :
      (c : Controller) (w : W) → OnReturn (λ (info, response) x. Holds info x.0) (seed calls (c, w))
  unfolding seed OnReturn
  seed-Holds c w =
      then_reply-OnReturn (λ a x. Unit) (λ (info, response) x. Holds info x.0)
        (rediscovered calls (c, w))
        (λ found. refresh_runtime calls >>= λ info.
          call (calls.set_reporting true) >>= λ response. give (info, response))
        (anything (rediscovered calls (c, w)))
        (λ found (d, v) u.
          then_reply-OnReturn (λ info x. Holds info x.0) (λ (info, response) x. Holds info x.0)
            (refresh_runtime calls (d, v))
            (λ info. call (calls.set_reporting true) >>= λ response. give (info, response))
            (refresh_runtime-Holds d v)
            (λ info (e, z) holds.
              then_reply-OnReturn (λ response x. Holds info x.0)
                (λ (info, response) x. Holds info x.0) (call (calls.set_reporting true) (e, z))
                (λ response. give (info, response))
                (call-OnReturn (Holds info) (calls.set_reporting true) e z holds)
                (λ response x holds_still. holds_still)))

  change-Holds :
      (change : Change) (s : TekmarState) (info : AvailableInfo) (m : TrpcPacket) (c : Controller)
      (w : W)
      → OnReturn {A = Unit {0}}
          (λ (u : Unit {0}) (x : Controller × W). Holds (data_or info (some m) x.0.state) x.0)
          (if (applied_response s change).1
            then ((record c { state = (applied_response s change).0 }, w), returned tt)
            else ((c, w), value_error))
  unfolding OnReturn Holds applied_response data_or
  change-Holds type_error s info m c w = tt
  change-Holds (changed t) s info m c w = (t, refl, refl)
  change-Holds (unchanged t) s info m c w = (t, refl, refl)

  -- The answer to the last update may change the state's data; `data` is then what it holds.
  applied-Holds :
      (response : Option TrpcPacket) (state : Option TekmarState) (info : AvailableInfo)
      (c : Controller) (w : W)
      → (s : TekmarState) × (state ≡ some s) × (s.current_data ≡ info)
      → OnReturn {A = Unit {0}}
          (λ (u : Unit {0}) (x : Controller × W). Holds (data_or info response x.0.state) x.0)
          (let applied = apply_response response state in
            if applied.1
            then ((record c { state = applied.0 }, w), returned tt)
            else ((c, w), value_error))
  unfolding OnReturn Holds apply_response data_or
  applied-Holds none state info c w holds = holds
  applied-Holds (some m) none info c w (s, e, f) = cc
  applied-Holds (some m) (some s) info c w holds = change-Holds (apply_to_state s m) s info m c w

  -- `_notify_state` leaves the controller as it is.
  notify_at-OnReturn :
      (P : Controller → Type 0) (state : Option TekmarState) (c : Controller) (w : W)
      → P c
      → OnReturn (λ (u : Unit {0}) (x : Controller × W). P x.0) (notify_at calls state (c, w))
  unfolding notify_at OnReturn
  notify_at-OnReturn P none c w p = p
  notify_at-OnReturn P (some s) c w p =
      call-OnReturn P (call_each calls calls.call_state c.state_callbacks s.current_data) c w p

  announce-IsStarted :
      (newest : AvailableInfo) (c : Controller) (w : W)
      → Holds newest c
      → OnReturn (λ info (x : Controller × W). IsStarted info x.0) (announce calls newest (c, w))
  unfolding announce notify_state IsStarted OnReturn Holds data_of
  announce-IsStarted newest c w (s, e, f) =
      then_reply-OnReturn
        (λ (u : Unit {0}) (x : Controller × W). (x.0.is_running ≡ true) × (x.0.state ≡ some s))
        (λ info (x : Controller × W). IsStarted info x.0)
        (notify_at calls c.state (record c { is_running = true }, w))
        (λ u. create_task calls >> give newest)
        (notify_at-OnReturn (λ d. (d.is_running ≡ true) × (d.state ≡ some s)) c.state
          (record c { is_running = true }) w (refl, e))
        (λ u x (running, held).
          (running, refl, ap (Option.map (λ t. t.current_data)) held ∙ ap some f))

  run_reports-IsStarted :
      (info : AvailableInfo) (response : Option TrpcPacket) (c : Controller) (w : W)
      → Holds info c
      → OnReturn
          (λ newest (x : Controller × W). IsStarted newest x.0)
          (run_reports calls (info, response) (c, w))
  unfolding run_reports OnReturn apply_response_now Holds read_newest
  run_reports-IsStarted info response c w holds =
      then_reply-OnReturn
        (λ (u : Unit {0}) (x : Controller × W). Holds (data_or info response x.0.state) x.0)
        (λ newest (x : Controller × W). IsStarted newest x.0)
        (apply_response_now calls response (c, w))
        (λ u. read_newest calls info response >>= announce calls)
        (applied-Holds response c.state info c w holds)
        (λ u (d, v) held. announce-IsStarted (data_or info response d.state) d v held)

  start_opened-IsStarted :
      (c : Controller) (w : W)
      → OnReturn (λ newest (x : Controller × W). IsStarted newest x.0) (start_opened calls (c, w))
  unfolding start_opened OnReturn
  start_opened-IsStarted c w =
      let off = handled (call (calls.set_reporting false) (c, w)) (start_cleanup calls false) in
      then_reply-OnReturn (λ a x. Unit) (λ newest (x : Controller × W). IsStarted newest x.0) off
        (λ a. (λ cw. handled (seed calls cw) (start_cleanup calls true)) >>= λ seeded cw.
          handled (run_reports calls seeded cw) (start_cleanup calls false))
        (anything off)
        (λ a (d, v) u.
          then_reply-OnReturn (λ (info, response) (x : Controller × W). Holds info x.0)
            (λ newest (x : Controller × W). IsStarted newest x.0)
            (handled (seed calls (d, v)) (start_cleanup calls true))
            (λ seeded cw. handled (run_reports calls seeded cw) (start_cleanup calls false))
            (handled-OnReturn (λ (info, response) (x : Controller × W). Holds info x.0)
              (seed calls (d, v)) (start_cleanup calls true) (seed-Holds d v))
            (λ (info, response) (e, z) holds.
              handled-OnReturn (λ newest (x : Controller × W). IsStarted newest x.0)
                (run_reports calls (info, response) (e, z)) (start_cleanup calls false)
                (run_reports-IsStarted info response e z holds)))

  on_return :
      (r : (Controller × W) × Reply AvailableInfo) (c' : Controller) (w' : W) (info : AvailableInfo)
      → r ≡ ((c', w'), returned info)
      → OnReturn (λ newest (x : Controller × W). IsStarted newest x.0) r
      → IsStarted info c'
  unfolding OnReturn
  on_return r c' w' info e holds =
      subst (OnReturn (λ newest (x : Controller × W). IsStarted newest x.0)) e holds

  -- If `start` returns on a controller that does not run, the report loop runs, and what it returns is
  -- what the controller holds, also if the answer to switching reporting on has changed it.
  pub start-IsStarted :
      (c c' : Controller) (w w' : W) (info : AvailableInfo)
      → c.is_running ≡ false
      → start calls (c, w) ≡ ((c', w'), returned info)
      → (c'.is_running ≡ true) × (c'.has_task ≡ true) × (data_of c' ≡ some info)
  unfolding IsStarted start start_unless already_running
  start-IsStarted c c' w w' info idle e =
      let not_yet = ap (λ b. already_running calls b c.state) idle in
      on_return (start_unless calls none (c, w)) c' w' info
        (sym (ap (λ o. start_unless calls o (c, w)) not_yet) ∙ e)
        (then_reply-OnReturn (λ a x. Unit) (λ newest (x : Controller × W). IsStarted newest x.0)
          (call calls.open_client (c, w)) (λ a. start_opened calls)
          (anything (call calls.open_client (c, w))) (λ a (d, v) u. start_opened-IsStarted d v))
