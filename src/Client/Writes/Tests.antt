-- ===== src/Client/Writes/Tests.antt =====
-- The guarded writes of src/tekmar_482/client.py with a session that never answers.
use tekmar.Prelude.{
  ℕ, ◌≡◌, refl, Bool, true, false, ◌&&◌, leb, Option, none, some, List, [], ◌∷◌, arith,
}
use tekmar.Prelude.Int.{negsuc}
use tekmar.Prelude.Dict.{text_key, lookup, insert}
use tekmar.Exceptions.{err, transport_error, ok}
use tekmar.Trpc.Fields.{FieldsInput, freeze_fields}
use tekmar.Trpc.Match.{TrpcCommand, update_command}
use tekmar.Client.Calls.{SessionCalls}
use tekmar.Client.Writes.{set_fan_percent, set_latest_fan_percent, set_mode}
use tekmar.Client.Writes.Guards.{InRange, fan, mode, UpdatesKeep, guarded_writes-keep}

-- A session that keeps the commands and never answers.
abbrev silent_session : SessionCalls (List TrpcCommand)
silent_session = record {
  send = λ command sent. (command ∷ sent, err transport_error);
  respond = λ publish command match sent. (command ∷ sent, ok none);
  coalesce = λ command key sent. (command ∷ sent, ok none);
  coalesce_respond = λ command key match sent. (command ∷ sent, ok none);
  next_matching = λ predicate sent. (sent, ok none);
  expired = λ sent. false;
  pause = λ sent. sent;
}

-- The value of the field, if there is one, is at most the limit.
within : ℕ → Option ℕ → Bool
within limit none = true
within limit (some value) = leb value limit

are_within : List TrpcCommand → Bool
unfolding within
are_within [] = true
are_within (command ∷ sent) =
    within 100 (lookup "percent" command.fields)
    && within 6 (lookup "mode" command.fields)
    && are_within sent

InRange-are_within :
    (method : ℕ) (fields : FieldsInput) (sent : List TrpcCommand)
    → InRange method fields
    → are_within sent ≡ true
    → are_within (update_command method fields ∷ sent) ≡ true
unfolding are_within within update_command freeze_fields lookup insert
InRange-are_within method fields sent (fan address percent setback e) h = ground (arith, e, h)
InRange-are_within method fields sent (mode address value e) h = ground (arith, e, h)

are_within_nil : are_within [] ≡ true
unfolding are_within
are_within_nil = refl

abbrev updates_keep : UpdatesKeep silent_session (λ sent. are_within sent ≡ true)
updates_keep = record {
  respond_keeps = λ method fields match. InRange-are_within method fields;
  coalesce_keeps = λ method fields key. InRange-are_within method fields;
  coalesce_respond_keeps = λ method fields key match. InRange-are_within method fields;
}

guarded_writes-keep_example :
    (are_within (set_fan_percent silent_session 5 (negsuc 150) 6 []).0 ≡ true)
    × (are_within (set_latest_fan_percent silent_session true 5 (negsuc 150) 6 []).0 ≡ true)
    × (are_within (set_mode silent_session true 5 (negsuc 150) []).0 ≡ true)
guarded_writes-keep_example =
    guarded_writes-keep silent_session (λ sent. are_within sent ≡ true) updates_keep true 5 6
      (negsuc 150) [] are_within_nil
