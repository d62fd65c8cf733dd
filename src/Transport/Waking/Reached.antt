-- ===== src/Transport/Waking/Reached.antt =====
-- No wake-up is lost in any state that the interleavings of `_TpckProtocol` reach
-- (src/tekmar_482/transport.py).
use tekmar.Prelude.{
  ℕ, ◌<◌, ◌≡◌, ◌≢◌, refl, sym, ◌∙◌, true, false, Bool-cases, inl, inr, Option, none, some, List, [],
  ◌∷◌, Bytes, arith,
}
use tekmar.Prelude.Store.{assign}
use tekmar.Exceptions.{Result, ok, err}
use tekmar.Packet.{Packet}
use tekmar.Tpck.{feed_many, serialize}
use tekmar.Transport.{
  Link, Fault, new_protocol, connection_made, Waiter, pending, resolved, cancelled, failed,
  waiter_done, TpckProtocol, wake_drain_waiter, data_received, connection_lost, resume_writing,
  is_open, lost_error, pause_writing,
}
use tekmar.Transport.Calls.{
  Required, usable, refused, read_nothing, read_first, read_round, start_close, finish_close,
  required_link, after_waiter, resume_write, write_serialized, write_on, start_write,
}
use tekmar.Transport.Steps.{
  Step, Reaches, receive, lose, pause, resume, close, end_close, read, write, resume_of, cancel,
  elsewhere, here, then_step,
}
use tekmar.Transport.Waking.{
  IsAwake, after_parser-IsAwake, wake_at-writer, wake_drain_waiter-IsAwake, drain_round-IsAwake,
  failed-done, true-not_false, cons-not_nil, cancelled-not_pending, assign-pending,
}

resolved-done : waiter_done resolved ≡ true
unfolding waiter_done
resolved-done = refl

module _ {T : Type 0} (link : Link T) where
  after_waiter-IsAwake :
      (waiter : Waiter) (id : ℕ) (p : TpckProtocol T)
      → IsAwake p
      → IsAwake (after_waiter link waiter id p).0
  unfolding after_waiter
  after_waiter-IsAwake pending id p i = i
  after_waiter-IsAwake resolved id p i = drain_round-IsAwake link p i
  after_waiter-IsAwake cancelled id p i = i
  after_waiter-IsAwake (failed e) id p i = i

  write_serialized-IsAwake :
      (t : T) (bytes : Result Bytes) (p : TpckProtocol T)
      → IsAwake p
      → IsAwake (write_serialized link t bytes p).0
  unfolding write_serialized
  write_serialized-IsAwake t (err e) p i = i
  write_serialized-IsAwake t (ok bytes) p i =
      drain_round-IsAwake link (record p { transport = some (link.write bytes t) })
        (record { reader = i.reader; writer = i.writer })

  write_on-IsAwake :
      (required : Required T) (sent : Packet) (p : TpckProtocol T)
      → IsAwake p
      → IsAwake (write_on link required sent p).0
  unfolding write_on
  write_on-IsAwake (usable t) sent p i = write_serialized-IsAwake t (serialize sent) p i
  write_on-IsAwake (refused e) sent p i = i

  read_nothing-IsAwake :
      (error : Option Fault) (p : TpckProtocol T)
      → p.error ≡ error
      → p.packets ≡ []
      → IsAwake p
      → IsAwake (read_nothing link error p).0
  unfolding read_nothing
  read_nothing-IsAwake (some e) p known empty i = i
  read_nothing-IsAwake none p known empty i = elim (Bool-cases (is_open link p)) [
    | inl is_so ↦ rw is_so (record { reader = λ h. (empty, known); writer = i.writer })
    | inr is_so ↦ rw is_so i
  ]

  read_first-IsAwake :
      (packets : List Packet) (p : TpckProtocol T)
      → p.packets ≡ packets
      → IsAwake p
      → IsAwake (read_first link packets p).0
  unfolding read_first
  read_first-IsAwake [] p e i = read_nothing-IsAwake p.error p refl e i
  read_first-IsAwake (first ∷ rest) p e i = record {
    reader = λ h. absurd (cons-not_nil (sym e ∙ (i.reader h).0));
    writer = i.writer;
  }

  connection_lost-IsAwake :
      (exc : Option Fault) (p : TpckProtocol T) → IsAwake p → IsAwake (connection_lost link exc p)
  unfolding connection_lost
  connection_lost-IsAwake exc p i =
      let woken =
        wake_drain_waiter-IsAwake link (failed (lost_error exc))
          (record p { transport = none; error = some (lost_error exc); packet_event = true })
          (failed-done (lost_error exc)) (λ h. absurd (true-not_false h))
          (λ id b h. (i.writer id b h).0) in
      record { reader = woken.reader; writer = woken.writer }

  resume_writing-IsAwake : (p : TpckProtocol T) → IsAwake p → IsAwake (resume_writing link p)
  unfolding resume_writing waiter_done
  resume_writing-IsAwake p i =
      wake_drain_waiter-IsAwake link resolved (record p { paused = false }) refl i.reader
        (λ id b h. (i.writer id b h).0)

  cancel-IsAwake :
      (id : ℕ) (p : TpckProtocol T)
      → IsAwake p
      → IsAwake (record p { waiters = assign p.waiters id cancelled })
  cancel-IsAwake id p i = record {
    reader = i.reader;
    writer = λ other b h. elim (assign-pending p.waiters id other cancelled h) [
      | inl (same, now) ↦ absurd (cancelled-not_pending now)
      | inr (differs, before) ↦ i.writer other b before
    ];
  }

  Step-IsAwake : (p q : TpckProtocol T) → Step link p q → IsAwake p → IsAwake q
  unfolding data_received pause_writing start_close finish_close read_round start_write resume_write
  Step-IsAwake p _ (receive bytes) i = after_parser-IsAwake link p (feed_many p.parser bytes) i
  Step-IsAwake p _ (lose exc) i = connection_lost-IsAwake exc p i
  Step-IsAwake p _ pause i = record {
    reader = i.reader;
    writer = λ id b h. ((i.writer id b h).0, refl);
  }
  Step-IsAwake p _ resume i = resume_writing-IsAwake p i
  Step-IsAwake p _ close i = record { reader = i.reader; writer = i.writer }
  Step-IsAwake p _ end_close i = record { reader = λ h. (refl, (i.reader h).1); writer = i.writer }
  Step-IsAwake p _ read i = read_first-IsAwake p.packets p refl i
  Step-IsAwake p _ (write packet) i =
      write_on-IsAwake (required_link link p.error p.transport) packet p i
  Step-IsAwake p _ (resume_of id) i = after_waiter-IsAwake (p.waiters id) id p i
  Step-IsAwake p _ (cancel id waiting) i = cancel-IsAwake id p i
  Step-IsAwake p _ (elsewhere t t' e) i = record { reader = i.reader; writer = i.writer }

  Reaches-IsAwake : (from p : TpckProtocol T) → IsAwake from → Reaches link from p → IsAwake p
  Reaches-IsAwake from _ i here = i
  Reaches-IsAwake from _ i (then_step {p} {q} reached step) =
      Step-IsAwake p q step (Reaches-IsAwake from p i reached)

  new_protocol-IsAwake : (t : T) → IsAwake (connection_made link (some t) new_protocol)
  unfolding connection_made new_protocol
  new_protocol-IsAwake t = record {
    reader = λ h. (refl, refl);
    writer = λ id b h. absurd (omega arith);
  }

  no_waiter :
      (outcome : Waiter) (p : TpckProtocol T)
      → waiter_done outcome ≡ true
      → ((id : ℕ) → id < p.next_waiter → p.waiters id ≡ pending → p.drain_waiter ≡ some id)
      → (id : ℕ) → id < (wake_drain_waiter outcome p).next_waiter
      → (wake_drain_waiter outcome p).waiters id ≢ pending
  unfolding wake_drain_waiter
  no_waiter outcome p =
      wake_at-writer link p.drain_waiter outcome (record p { drain_waiter = none })

  -- In every state that a connected protocol reaches, in whatever order its callbacks and coroutines
  -- run: if the event on which readers wait is clear, no packet is queued and no error is set; and
  -- when writing is resumed or the connection is lost, every writer that waits is woken.
  pub Reaches-wakes :
      (t : T) (p : TpckProtocol T) (exc : Option Fault)
      → Reaches link (connection_made link (some t) new_protocol) p
      → (p.packet_event ≡ false → (p.packets ≡ []) × (p.error ≡ none))
        × ((id : ℕ)
            → id < (resume_writing link p).next_waiter
            → (resume_writing link p).waiters id ≢ pending)
        × ((id : ℕ)
            → id < (connection_lost link exc p).next_waiter
            → (connection_lost link exc p).waiters id ≢ pending)
  unfolding resume_writing connection_lost
  Reaches-wakes t p exc reached =
      let i =
        Reaches-IsAwake (connection_made link (some t) new_protocol) p (new_protocol-IsAwake t)
          reached in
      (
        i.reader,
        no_waiter resolved (record p { paused = false }) resolved-done
            (λ id b h. (i.writer id b h).0),
        no_waiter (failed (lost_error exc))
            (record p { transport = none; error = some (lost_error exc); packet_event = true })
            (failed-done (lost_error exc)) (λ id b h. (i.writer id b h).0),
      )
