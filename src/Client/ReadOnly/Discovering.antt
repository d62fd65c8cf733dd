-- ===== src/Client/ReadOnly/Discovering.antt =====
-- Discovery keeps what requests keep, and so does the dump (src/tekmar_482/client.py).
use tekmar.Prelude.{ℕ, zero, suc, Bool, true, false, Option, none, some, List, [], if_both}
use tekmar.Prelude.Dict.{number_key}
use tekmar.Trpc.Fields.{nothing, payload, address_fields}
use tekmar.Trpc.Methods.{TrpcMethod, method_id}
use tekmar.Trpc.Message.{TrpcPacket, require}
use tekmar.Client.Action.{Action, Reply, returned, give, lift_call, lift_result, when}
use tekmar.Client.Calls.{
  SessionCalls, matching, client_request, set_reporting_state, request_device_inventory,
}
use tekmar.Client.Discovery.{
  is_inventory, add_address, get_gateway_info, after_address, after_message, collect_addresses,
  get_inventory_addresses, request_at, get_device_info, device_after_delay, discover_body, discover,
}
use tekmar.Client.Snapshot.{poll_runtime, dump_available_info}
use tekmar.Models.Runtime.{DiscoveryResult}
use tekmar.Client.ReadOnly.{
  Keeps, RequestsKeep, then_reply-keeps, bind-Keeps, finally-Keeps, give-Keeps, unwanted-Keeps,
  lift_result-Keeps, for_each-Keeps, request_response-Keeps, delay-Keeps, required_of-Keeps,
}
use tekmar.Client.ReadOnly.Polling.{poll_runtime-Keeps}

module _ {W : Type 0} (session : SessionCalls W) (P : W → Type 0)
    (keep : RequestsKeep session P) where
  get_gateway_info-Keeps : Keeps P (get_gateway_info session)
  unfolding get_gateway_info
  get_gateway_info-Keeps = search (
    bind-Keeps,
    give-Keeps,
    request_response-Keeps session P keep,
    required_of-Keeps session P keep,
  )

  request_at-Keeps :
      (method : TrpcMethod) (address : ℕ) → Keeps P (request_at session method address)
  unfolding request_at
  request_at-Keeps method address =
      request_response-Keeps session P keep method (matching (some address) nothing)
        (payload (address_fields address))

  get_device_info-Keeps : (address : ℕ) → Keeps P (get_device_info session address)
  unfolding get_device_info
  get_device_info-Keeps address =
      search (bind-Keeps, give-Keeps, request_at-Keeps, required_of-Keeps session P keep) depth 20

  device_after_delay-Keeps :
      (delayed : Bool) (address : ℕ) → Keeps P (device_after_delay session delayed address)
  unfolding device_after_delay
  device_after_delay-Keeps delayed address =
      search (bind-Keeps, give-Keeps, get_device_info-Keeps, delay-Keeps session P keep)

  after_address-Keeps :
      (next : List ℕ → Action W (List ℕ)) (addresses : List ℕ) (address : ℕ)
      → ((found : List ℕ) → Keeps P (next found))
      → Keeps P (after_address session next addresses address)
  unfolding after_address
  after_address-Keeps next addresses address keeps =
      if_both (Keeps P) _ (give addresses) (next (add_address address addresses))
        (give-Keeps P addresses) (keeps (add_address address addresses))

  after_message-Keeps :
      (next : List ℕ → Action W (List ℕ)) (addresses : List ℕ) (found : Option TrpcPacket)
      → ((addresses : List ℕ) → Keeps P (next addresses))
      → Keeps P (after_message session next addresses found)
  unfolding after_message
  after_message-Keeps next addresses none keeps = give-Keeps P addresses
  after_message-Keeps next addresses (some m) keeps =
      bind-Keeps P (lift_result (require m "address")) (after_address session next addresses)
        (lift_result-Keeps P (require m "address"))
        (λ address. after_address-Keeps next addresses address keeps)

  collect_addresses-Keeps :
      (rounds : ℕ) (addresses : List ℕ) → Keeps P (collect_addresses session rounds addresses)
  unfolding collect_addresses
  collect_addresses-Keeps zero addresses = record { kept = λ w p. p }
  collect_addresses-Keeps (suc rounds) addresses = record {
    kept = λ w p.
        if_both (λ (r : W × Reply (List ℕ)). P r.0) (session.expired w) (w, returned addresses) _ p
          (then_reply-keeps P (lift_call (session.next_matching is_inventory) w)
            (after_message session (collect_addresses session rounds) addresses)
            (keep.next_keeps is_inventory w p)
            (λ found.
              after_message-Keeps (collect_addresses session rounds) addresses found
                (collect_addresses-Keeps rounds)));
  }

  get_inventory_addresses-Keeps :
      (rounds start_address : ℕ) → Keeps P (get_inventory_addresses session rounds start_address)
  unfolding get_inventory_addresses request_device_inventory client_request
  get_inventory_addresses-Keeps rounds start_address =
      bind-Keeps P _ _
        (record {
          kept = λ w p.
              keep.send_keeps (method_id TrpcMethod.device_inventory)
                (payload (address_fields start_address)) w p;
        })
        (λ m. collect_addresses-Keeps rounds [])

  discover_body-Keeps :
      (rounds : ℕ) (delayed : Bool) → Keeps P (discover_body session rounds false none delayed)
  unfolding discover_body
  discover_body-Keeps rounds delayed =
      search
        (
          bind-Keeps,
          give-Keeps,
          get_gateway_info-Keeps,
          delay-Keeps session P keep,
          get_inventory_addresses-Keeps,
          for_each-Keeps P (device_after_delay session delayed),
          device_after_delay-Keeps,
        )
        depth 20

  discover-Keeps :
      (rounds : ℕ) (delayed : Bool) → Keeps P (discover session rounds false none delayed)
  unfolding discover
  discover-Keeps rounds delayed =
      finally-Keeps P (discover_body session rounds false none delayed)
        (when false (set_reporting_state session true)) (discover_body-Keeps rounds delayed)
        (unwanted-Keeps P (set_reporting_state session true))

  dump_available_info-Keeps :
      (rounds : ℕ) (delayed include_setbacks include_datetime : Bool)
      → Keeps P (dump_available_info session rounds delayed include_setbacks include_datetime)
  unfolding dump_available_info
  dump_available_info-Keeps rounds delayed include_setbacks include_datetime =
      search (bind-Keeps, discover-Keeps, poll_runtime-Keeps session P keep)

  -- `discover` with no setting to write, `poll_runtime` with and without the setpoint groups, and
  -- `dump_available_info` only request: what the requests, the reads and the pauses of a session
  -- keep, such as the gateway's reporting and setback settings, they keep, whatever is answered or
  -- raised.
  pub dump_available_info-keeps :
      (rounds : ℕ) (delayed include_setbacks include_datetime include_groups : Bool)
      (discovery : DiscoveryResult) (w : W)
      → P w
      → P (discover session rounds false none delayed w).0
        × P
            (poll_runtime session delayed include_setbacks include_datetime include_groups discovery
              w).0
        × P (dump_available_info session rounds delayed include_setbacks include_datetime w).0
  dump_available_info-keeps rounds delayed include_setbacks include_datetime include_groups
        discovery w p =
      (
        (discover-Keeps rounds delayed).kept w p,
        (poll_runtime-Keeps session P keep delayed include_setbacks include_datetime include_groups
              discovery).kept
            w p,
        (dump_available_info-Keeps rounds delayed include_setbacks include_datetime).kept w p,
      )
