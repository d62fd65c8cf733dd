-- ===== src/Transport.antt =====
-- src/tekmar_482/transport.py: `_TpckProtocol`, which frames the bytes of an asyncio transport, and
-- the transports over it. Each stretch of code between two awaits is a definition.
pub mod Calls
pub mod Receiving
pub mod Steps
mod Tests
pub mod Opening
pub mod Null
pub mod Waking
use tekmar.Prelude.{
  ℕ, ◌≡◌, ◌+◌, String, Bool, true, false, not, ◌&&◌, Option, none, some, List, [], ◌∷◌, ◌++◌, ◌==◌,
  Bytes, if◌then◌else◌,
}
use tekmar.Prelude.Store.{assign}
use tekmar.Exceptions.{TekmarError, Result, ok, err, transport_error, connection_closed}
use tekmar.Packet.{Packet}
use tekmar.Tpck.{TpckParser, FedMany, new_parser, reset, serialize, feed_many}

-- What `_WritableTransport` asks of a transport of asyncio: a transport that is closed is closing.
pub record Link (T : Type 0) : Type 0 where
  pub write : Bytes → T → T
  pub close_link : T → T
  pub is_closing : T → Bool
  pub close_link-closes : (t : T) → is_closing (close_link t) ≡ true

-- An exception of the package, or one that the event loop reports, by its text.
pub data Fault : Type 0 where
  tekmar_error : TekmarError → Fault
  event_loop : String → Fault

-- A future without a value; a task that waits for it may be cancelled, and it with the task.
pub data Waiter : Type 0 where
  pending resolved cancelled : Waiter
  failed : Fault → Waiter

unfoldable pub waiter_done : Waiter → Bool
waiter_done pending = false
waiter_done resolved = true
waiter_done cancelled = true
waiter_done (failed e) = true

-- The fields of `_TpckProtocol`. A drain waiter is shared by the writers that wait for it: the state
-- maps identities to them, and `next_waiter` is the next one.
pub record TpckProtocol (T : Type 0) : Type 0 where
  pub parser : TpckParser
  pub packets : List Packet
  pub packet_event : Bool
  pub transport : Option T
  pub closed_waiter : Option Waiter
  pub drain_waiter : Option ℕ
  pub waiters : ℕ → Waiter
  pub next_waiter : ℕ
  pub paused : Bool
  pub error : Option Fault

unfoldable pub new_protocol : {T : Type 0} → TpckProtocol T
new_protocol = record {
  parser = new_parser false;
  packets = [];
  packet_event = false;
  transport = none;
  closed_waiter = none;
  drain_waiter = none;
  waiters = λ id. pending;
  next_waiter = 0;
  paused = false;
  error = none;
}

abbrev is_none : {A : Type 0} → Option A → Bool
is_none none = true
is_none (some a) = false

-- `_wake_drain_waiter`, which sets the outcome.
unfoldable pub wake_at : {T : Type 0} → Option ℕ → Waiter → TpckProtocol T → TpckProtocol T
unfolding waiter_done
wake_at none outcome p = p
wake_at (some id) outcome p =
    if waiter_done (p.waiters id) then p else record p { waiters = assign p.waiters id outcome }

unfoldable pub wake_drain_waiter : {T : Type 0} → Waiter → TpckProtocol T → TpckProtocol T
unfolding wake_at
wake_drain_waiter outcome p = wake_at p.drain_waiter outcome (record p { drain_waiter = none })

-- `if self._closed_waiter is not None and not self._closed_waiter.done()`.
unfoldable pub resolve : Option Waiter → Option Waiter
unfolding waiter_done
resolve none = none
resolve (some waiter) = some (if waiter_done waiter then waiter else resolved)

unfoldable pub lost_error : Option Fault → Fault
lost_error none = tekmar_error connection_closed
lost_error (some exc) = exc

module _ {T : Type 0} (link : Link T) where
  unfoldable pub is_closed_link : Option T → Bool
  is_closed_link none = true
  is_closed_link (some t) = link.is_closing t

  unfoldable pub is_open : TpckProtocol T → Bool
  unfolding is_closed_link
  is_open p = not (is_closed_link p.transport) && is_none p.error

  -- `connection_made`; the argument is None for a transport that is not writable.
  unfoldable pub connection_made : Option T → TpckProtocol T → TpckProtocol T
  connection_made none p = record p { error = some (tekmar_error transport_error) }
  connection_made (some t) p = record p {
    transport = some t;
    closed_waiter = some pending;
    error = none;
  }

  unfoldable pub close_transport : Option T → Option T
  close_transport none = none
  close_transport (some t) = some (link.close_link t)

  -- The end of `data_received`, behind the parser.
  unfoldable pub after_parser : TpckProtocol T → FedMany → TpckProtocol T
  unfolding close_transport
  after_parser p (parser, err e) = record p {
    parser = parser;
    error = some (tekmar_error e);
    transport = close_transport p.transport;
    packet_event = true;
  }
  after_parser p (parser, ok []) = record p { parser = parser }
  after_parser p (parser, ok (packet ∷ packets)) = record p {
    parser = parser;
    packets = p.packets ++ (packet ∷ packets);
    packet_event = true;
  }

  unfoldable pub data_received : Bytes → TpckProtocol T → TpckProtocol T
  unfolding after_parser feed_many
  data_received bytes p = after_parser p (feed_many p.parser bytes)

  unfoldable pub connection_lost : Option Fault → TpckProtocol T → TpckProtocol T
  unfolding wake_drain_waiter resolve lost_error
  connection_lost exc p =
      let woken =
        wake_drain_waiter (failed (lost_error exc))
          (record p { transport = none; error = some (lost_error exc); packet_event = true }) in
      record woken { closed_waiter = resolve woken.closed_waiter }

  unfoldable pub pause_writing : TpckProtocol T → TpckProtocol T
  pause_writing p = record p { paused = true }

  unfoldable pub resume_writing : TpckProtocol T → TpckProtocol T
  unfolding wake_drain_waiter
  resume_writing p = wake_drain_waiter resolved (record p { paused = false })
