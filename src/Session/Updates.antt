-- ===== src/Session/Updates.antt =====
-- Coalesced updates in src/tekmar_482/session.py: `coalesced_update`, `coalesced_update_response`,
-- `_remove_coalesced_update` and the rounds of `_coalesced_update_loop`. A coalesce key is a tuple of
-- numbers.
pub mod Coalescing
use tekmar.Prelude.{
  ℕ, Bool, true, false, ◌&&◌, Option, none, some, List, [], ◌∷◌, ◌++◌, ◌==◌, if◌then◌else◌, ◌≡◌,
  refl, ◌↔◌, ==_iff, arith, Bool-cases, inl, inr,
}
use tekmar.Prelude.Dict.{Key, Map, lookup, insert}
use tekmar.Exceptions.{TekmarError, Result, ok, err}
use tekmar.Trpc.Message.{TrpcPacket}
use tekmar.Trpc.Match.{TrpcCommand, ResponseMatch}
use tekmar.Session.Types.{
  Future, waiting, result, failed, cancelled, QueuedUpdate, Session, create_future, settle,
  raise_if_unavailable,
}
use tekmar.Session.Requests.{match_for}

unfoldable pub same_key : List ℕ → List ℕ → Bool
same_key [] [] = true
same_key [] (j ∷ js) = false
same_key (k ∷ ks) [] = false
same_key (k ∷ ks) (j ∷ js) = k == j && same_key ks js

pub same_key_iff : (k j : List ℕ) → (same_key k j ≡ true) ↔ (k ≡ j)
unfolding same_key
same_key_iff [] [] = (λ _. refl, λ _. refl)
same_key_iff [] (j ∷ js) = (λ h. cc, λ h. cc)
same_key_iff (k ∷ ks) [] = (λ h. cc, λ h. cc)
same_key_iff (k ∷ ks) (j ∷ js) = ground (arith, same_key_iff ks js)

instance abbrev pub tuple_key : Key (List ℕ)
tuple_key = record { same = same_key; same_iff = same_key_iff }

-- The type of `_coalesced_updates`.
abbrev pub Updates : Type 0
Updates = Map (List ℕ) QueuedUpdate

-- An update that a newer one replaces returns None, unless it is done.
supersede : Option QueuedUpdate → (ℕ → Future) → ℕ → Future
supersede none futures = futures
supersede (some previous) futures = settle previous.future (result none) futures

-- The body of both methods: an OrderedDict keeps the place of a key that is present.
unfoldable pub enqueue_update : List ℕ → QueuedUpdate → Session → Session
unfolding supersede
enqueue_update key update s =
    let created = create_future update.future s in
    record created {
      futures = supersede (lookup key s.coalesced_updates) created.futures;
      coalesced_updates = insert key update s.coalesced_updates;
    }

enqueue_if : Result (Unit {0}) → List ℕ → QueuedUpdate → Session → Session × Result (Unit {0})
enqueue_if (err e) key update s = (s, err e)
enqueue_if (ok available) key update s = (enqueue_update key update s, ok tt)

-- `coalesced_update`, up to the wait for the future `id`.
unfoldable pub coalesced_update : TrpcCommand → List ℕ → ℕ → Session → Session × Result (Unit {0})
unfolding enqueue_if raise_if_unavailable
coalesced_update command key id s =
    enqueue_if (raise_if_unavailable s) key
      (record { command = command; future = id; response_match = none }) s

-- `coalesced_update_response`, up to the wait for the future `id`.
unfoldable pub coalesced_update_response :
    TrpcCommand → List ℕ → Option ResponseMatch → ℕ → Session → Session × Result (Unit {0})
unfolding enqueue_if raise_if_unavailable match_for
coalesced_update_response command key given id s =
    enqueue_if (raise_if_unavailable s) key
      (record { command = command; future = id; response_match = some (match_for given command) }) s

-- `del` of a key in a dict.
pub delete_key : List ℕ → Updates → Updates
delete_key key [] = []
delete_key key (entry ∷ others) =
    let rest = delete_key key others in if same_key entry.0 key then others else entry ∷ rest

unfoldable pub remove_in : Option QueuedUpdate → List ℕ → ℕ → Session → Session
unfolding delete_key
remove_in none key id s = s
remove_in (some update) key id s =
    if update.future == id
    then record s { coalesced_updates = delete_key key s.coalesced_updates }
    else s

-- `_remove_coalesced_update`, which a caller runs when its wait is cancelled.
unfoldable pub remove_coalesced_update : List ℕ → ℕ → Session → Session
unfolding remove_in
remove_coalesced_update key id s = remove_in (lookup key s.coalesced_updates) key id s

-- What a round of `_coalesced_update_loop` starts with.
pub data Round : Type 0 where
  writes : QueuedUpdate → Round
  skips waits_for_update returns_from_loop : Round

is_cancelled : Future → Bool
is_cancelled cancelled = true
is_cancelled _ = false

unfoldable pub next_update_in : Updates → Session → Session × Round
unfolding is_cancelled
next_update_in [] s = (s, if s.closed then returns_from_loop else waits_for_update)
next_update_in (entry ∷ others) s = (
  record s { coalesced_updates = others },
  if is_cancelled (s.futures entry.1.future) then skips else writes entry.1,
)

-- `popitem(last=False)` takes the oldest key.
unfoldable pub next_update : Session → Session × Round
unfolding next_update_in
next_update s = next_update_in s.coalesced_updates s

-- The end of a round: what the write returned, or raised, goes to the update's future unless it is
-- done. The wait of an update with a response match is `_write_and_wait_response`.
unfoldable pub finish_update : QueuedUpdate → Result (Option TrpcPacket) → Session → Session
unfolding settle
finish_update update (ok m) s = record s { futures = settle update.future (result m) s.futures }
finish_update update (err e) s = record s { futures = settle update.future (failed e) s.futures }
