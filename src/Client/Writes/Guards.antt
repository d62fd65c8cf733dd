-- ===== src/Client/Writes/Guards.antt =====
-- The guards of the writes in src/tekmar_482/client.py.
use tekmar.Prelude.{
  ℕ, ◌≡◌, ◌≤◌, ◌⊎◌, inl, inr, Bool, true, false, Bool-cases, Option, some, List, leb, arith,
}
use tekmar.Prelude.Int.{ℤ, pos, negsuc}
use tekmar.Trpc.Fields.{
  TrpcPayload, FieldsInput, payload, setback_percent_fields, mode_setting_fields,
}
use tekmar.Trpc.Methods.{TrpcMethod, method_id}
use tekmar.Trpc.Match.{ResponseMatch, update_command, for_command}
use tekmar.Trpc.Message.{TrpcPacket}
use tekmar.Client.Action.{Action, ◌>>◌}
use tekmar.Client.Calls.{
  SessionCalls, matching, update_response, client_coalesced_update,
  client_coalesced_update_response,
}
use tekmar.Client.Writes.{
  key_of, validate_percent, is_device_mode, byte_field, update_setback_payload,
  coalesced_setback_payload, set_fan_percent, set_latest_fan_percent, set_mode,
}

-- Updates of a fan with at most 100 percent, or of a mode with 0 to 4 or 6.
pub data InRange : ℕ → FieldsInput → Type 0 where
  fan :
      (address percent setback : ℕ)
      → percent ≤ 100
      → InRange
          (method_id TrpcMethod.fan_percent)
          (payload (setback_percent_fields address percent setback))
  mode :
      (address value : ℕ)
      → (value ≤ 4) ⊎ (value ≡ 6)
      → InRange (method_id TrpcMethod.mode_setting) (payload (mode_setting_fields address value))

-- What updates in range keep.
pub record UpdatesKeep {W : Type 0} (session : SessionCalls W) (P : W → Type 0) : Type 0 where
  pub respond_keeps :
      (method : ℕ) (fields : FieldsInput) (match : ResponseMatch) (w : W)
      → InRange method fields
      → P w
      → P (session.respond true (update_command method fields) match w).0
  pub coalesce_keeps :
      (method : ℕ) (fields : FieldsInput) (key : List ℕ) (w : W)
      → InRange method fields
      → P w
      → P (session.coalesce (update_command method fields) key w).0
  pub coalesce_respond_keeps :
      (method : ℕ) (fields : FieldsInput) (key : List ℕ) (match : ResponseMatch) (w : W)
      → InRange method fields
      → P w
      → P (session.coalesce_respond (update_command method fields) key match w).0

is_device_mode-values : (value : ℕ) → is_device_mode (pos value) ≡ true → (value ≤ 4) ⊎ (value ≡ 6)
unfolding is_device_mode
is_device_mode-values value e = ground (arith, e)

module _ {W : Type 0} (session : SessionCalls W) (P : W → Type 0)
    (keep : UpdatesKeep session P) where
  -- `_update_setback_payload` for a payload in range.
  update-keeps :
      (method : TrpcMethod) (fields : TrpcPayload) (address : ℕ) (w : W)
      → InRange (method_id method) (payload fields)
      → P w
      → P (update_setback_payload session method fields address w).0
  unfolding update_setback_payload update_response
  update-keeps method fields address w r p =
      keep.respond_keeps (method_id method) (payload fields)
        (for_command (update_command (method_id method) (payload fields))
          (matching (some address) (payload fields)))
        w r p

  -- `_coalesced_setback_payload` for a payload in range.
  coalesced-keeps :
      (method : TrpcMethod) (fields : TrpcPayload) (address : ℕ) (confirm : Bool) (w : W)
      → InRange (method_id method) (payload fields)
      → P w
      → P (coalesced_setback_payload session method fields address confirm w).0
  unfolding coalesced_setback_payload client_coalesced_update_response client_coalesced_update
  coalesced-keeps method fields address true w r p =
      keep.coalesce_respond_keeps (method_id method) (payload fields) (key_of method fields)
        (for_command (update_command (method_id method) (payload fields))
          (matching (some address) (payload fields)))
        w r p
  coalesced-keeps method fields address false w r p =
      keep.coalesce_keeps (method_id method) (payload fields) (key_of method fields) w r p

  -- What a percentage that passes the guard lets a write do.
  validated-keeps :
      (write : Action W (Option TrpcPacket)) (percent : ℤ) (w : W)
      → (byte_field percent ≤ 100 → P (write w).0)
      → P w
      → P ((validate_percent percent >> write) w).0
  unfolding validate_percent byte_field
  validated-keeps write (pos value) w keeps p = elim (Bool-cases (leb value 100)) [
    | inl e ↦ rw e (keeps (ground (arith, e)))
    | inr e ↦ rw e p
  ]
  validated-keeps write (negsuc value) w keeps p = p

  mode-keeps :
      (confirm : Bool) (address : ℕ) (value : ℤ) (w : W)
      → P w
      → P (set_mode session confirm address value w).0
  unfolding set_mode is_device_mode byte_field
  mode-keeps confirm address (pos value) w p = elim (Bool-cases (is_device_mode (pos value))) [
    | inl e ↦ rw e (
        coalesced-keeps TrpcMethod.mode_setting (mode_setting_fields address value) address confirm
          w (mode address value (is_device_mode-values value e)) p)
    | inr e ↦ rw e p
  ]
  mode-keeps confirm address (negsuc value) w p = p

  -- Whatever integer they are given, and confirmed or not, `set_fan_percent`,
  -- `set_latest_fan_percent` and `set_mode` send at most updates in range, a percentage of 0 to 100
  -- and a mode of 0 to 4 or 6: what such updates keep, they keep.
  pub guarded_writes-keep :
      (confirm : Bool) (address setback : ℕ) (value : ℤ) (w : W)
      → P w
      → P (set_fan_percent session address value setback w).0
        × P (set_latest_fan_percent session confirm address value setback w).0
        × P (set_mode session confirm address value w).0
  unfolding set_fan_percent set_latest_fan_percent
  guarded_writes-keep confirm address setback value w p =
      let fields = setback_percent_fields address (byte_field value) setback in
      (
        validated-keeps (update_setback_payload session TrpcMethod.fan_percent fields address) value
            w
            (λ h.
              update-keeps TrpcMethod.fan_percent fields address w
                (fan address (byte_field value) setback h) p)
            p,
        validated-keeps
            (coalesced_setback_payload session TrpcMethod.fan_percent fields address confirm) value
            w
            (λ h.
              coalesced-keeps TrpcMethod.fan_percent fields address confirm w
                (fan address (byte_field value) setback h) p)
            p,
        mode-keeps confirm address value w p,
      )
