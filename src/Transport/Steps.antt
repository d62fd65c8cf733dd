-- ===== src/Transport/Steps.antt =====
-- Every interleaving of the callbacks and the coroutines of `_TpckProtocol` behind its connection
-- (src/tekmar_482/transport.py).
use tekmar.Prelude.{ℕ, ◌≡◌, Option, some, Bytes}
use tekmar.Prelude.Store.{assign}
use tekmar.Packet.{Packet}
use tekmar.Transport.{
  Link, Fault, pending, cancelled, TpckProtocol, data_received, connection_lost, pause_writing,
  resume_writing,
}
use tekmar.Transport.Calls.{start_close, finish_close, read_round, start_write, resume_write}

-- A stretch of code between two awaits, the cancellation of a writer's wait, or a change of the
-- asyncio transport by the event loop. The connection is made once, before all of these.
pub data Step {T : Type 0} (link : Link T) : TpckProtocol T → TpckProtocol T → Type 0 where
  receive : {p : TpckProtocol T} (bytes : Bytes) → Step link p (data_received link bytes p)
  lose : {p : TpckProtocol T} (exc : Option Fault) → Step link p (connection_lost link exc p)
  pause : {p : TpckProtocol T} → Step link p (pause_writing link p)
  resume : {p : TpckProtocol T} → Step link p (resume_writing link p)
  close : {p : TpckProtocol T} → Step link p (start_close link p).0
  end_close : {p : TpckProtocol T} → Step link p (finish_close link p)
  read : {p : TpckProtocol T} → Step link p (read_round link p).0
  write : {p : TpckProtocol T} (packet : Packet) → Step link p (start_write link packet p).0
  resume_of : {p : TpckProtocol T} (id : ℕ) → Step link p (resume_write link id p).0
  cancel :
      {p : TpckProtocol T} (id : ℕ)
      → p.waiters id ≡ pending
      → Step link p (record p { waiters = assign p.waiters id cancelled })
  elsewhere :
      {p : TpckProtocol T} (t t' : T)
      → p.transport ≡ some t
      → Step link p (record p { transport = some t' })

pub data Reaches {T : Type 0} (link : Link T) (from : TpckProtocol T)
    : TpckProtocol T → Type 0 where
  here : Reaches link from from
  then_step : {p q : TpckProtocol T} → Reaches link from p → Step link p q → Reaches link from q
