-- ===== src/Client/Poll/Current.antt =====
-- What `_dump_setpoints` makes of the answer for the current setback (src/tekmar_482/client.py).
use tekmar.Prelude.{
  ℕ, String, ◌≡◌, refl, ap, ◌∙◌, Bool, false, if◌then◌else◌, Option, none, some, [], arith,
}
use tekmar.Prelude.Dict.{insert}
use tekmar.Trpc.Message.{TrpcPacket, get}
use tekmar.Trpc.Fields.{payload, nothing, address_setback_fields}
use tekmar.Trpc.Methods.{TrpcMethod}
use tekmar.Models.Setback.{
  ThaSetback, current_setback, same_setback, setback_value, setback_key, setback_from_value,
}
use tekmar.Models.Setpoints.{SetpointValues, current, is_setback}
use tekmar.Models.Setpoints.Reading.{get_value-insert, same_self}
use tekmar.Client.Action.{Reply, returned, then_reply, give, ◌>>◌}
use tekmar.Client.Calls.{SessionCalls, matching, request_response, delay}
use tekmar.Client.Poll.{
  setback_or, Observed, observe_current, observe, store_if, observe_if, dump_loop, dump_setpoints,
  setback_match, got,
}

-- The loop's variables as the value that `_dump_setpoints` returns.
abbrev pub as_setpoints : Observed → SetpointValues
as_setpoints o = record {
  values = o.values;
  active_setback = o.observed_active;
  current_observed_setback = o.current_observed;
}

-- The variables before the loop.
abbrev pub unobserved : Option ThaSetback → Observed
unobserved active = record { values = []; observed_active = active; current_observed = none }

-- What `current` reads when the loop saw a setback, and when it saw none.
current-seen :
    (seen : Option ThaSetback) (value : Option ℕ)
    → current (
        as_setpoints (record {
          values = insert current_setback value (store_if seen value []);
          observed_active = seen;
          current_observed = seen;
        }))
      ≡ value
unfolding current store_if is_setback
current-seen none value =
    ground
      (arith, get_value-insert current_setback current_setback value [], same_self current_setback)
current-seen (some seen) value =
    let stored = insert seen value [] in
    ground (
      arith,
      same_self current_setback,
      same_self seen,
      get_value-insert current_setback current_setback value stored,
      get_value-insert current_setback seen value stored,
      get_value-insert seen seen value [],
    )

setback_or-same :
    (answered active : Option ThaSetback)
    → setback_or (setback_or answered active) active ≡ setback_or answered active
unfolding setback_or
setback_or-same none none = refl
setback_or-same none (some active) = ground arith
setback_or-same (some answered) none = ground arith
setback_or-same (some answered) (some active) = ground arith

observe-seen :
    (field : String) (m : TrpcPacket) (active : Option ThaSetback)
    → current (as_setpoints (observe current_setback field (some m) (unobserved active)))
      ≡ get m field
unfolding observe observe_if observe_current same_setback setback_value got
observe-seen field m active =
    let seen = setback_or (setback_from_value (get m "setback")) active in
    ap
      (λ observed. current (
        as_setpoints (record {
          values = insert current_setback (get m field) (store_if seen (get m field) []);
          observed_active = observed;
          current_observed = seen;
        })))
      (setback_or-same (setback_from_value (get m "setback")) active)
    ∙ current-seen seen (get m field)

-- What the request for CURRENT sends and waits for.
abbrev pub ask_current :
    {W : Type 0} → SessionCalls W → TrpcMethod → ℕ → W → W × Reply (Option TrpcPacket)
ask_current session method address =
    request_response session method (matching (some address) nothing)
      (payload (address_setback_fields address (setback_value current_setback)))

module _ {W : Type 0} (session : SessionCalls W) where
  -- A poll of the current setpoint that is answered pauses if a write delay is set, and returns
  -- setpoints whose `current` is the answered value, whichever setback the answer reports and
  -- whichever one was the active one.
  pub dump_setpoints-current :
      (delayed : Bool) (active : Option ThaSetback) (method : TrpcMethod) (field : String)
      (address : ℕ) (w w' : W) (m : TrpcPacket)
      → ask_current session method address w ≡ (w', returned (some m))
      → (s : SetpointValues) × (dump_setpoints session delayed false active method field address w
          ≡ ((if delayed then session.pause w' else w'), returned s))
        × (current s ≡ get m field)
  unfolding dump_setpoints dump_loop delay setback_match
  dump_setpoints-current delayed active method field address w w' m asked = (
    as_setpoints (observe current_setback field (some m) (unobserved active)),
    ap
        (λ reply.
          then_reply
            (then_reply reply (λ message.
              delay session delayed
              >> give (observe current_setback field message (unobserved active))))
            (λ o. give (as_setpoints o)))
        asked,
    observe-seen field m active,
  )
