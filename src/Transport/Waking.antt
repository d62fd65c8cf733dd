-- ===== src/Transport/Waking.antt =====
-- No wake-up of a reader or a writer of `_TpckProtocol` is lost (src/tekmar_482/transport.py).
pub mod Reached
use tekmar.Prelude.{
  ℕ, ◌+◌, ◌<◌, ◌≡◌, ◌≢◌, refl, sym, ap, ◌∙◌, Bool, true, false, Bool-cases, ◌⊎◌, inl, inr, ◌==◌,
  Option, none, some, List, [], ◌∷◌, Bytes, if◌then◌else◌, arith,
}
use tekmar.Prelude.Store.{assign, assign_self, assign_ne}
use tekmar.Exceptions.{Result, ok, err}
use tekmar.Packet.{Packet}
use tekmar.Tpck.{FedMany, feed_many, serialize}
use tekmar.Transport.{
  Link, Fault, Waiter, pending, resolved, cancelled, failed, waiter_done, TpckProtocol, wake_at,
  wake_drain_waiter, after_parser, data_received, connection_lost, resume_writing, is_open,
  lost_error, pause_writing,
}
use tekmar.Transport.Calls.{
  Required, usable, refused, read_nothing, read_first, read_round, start_close, finish_close,
  required_link, new_drain_waiter, join_waiter, end_write, drain_round, after_waiter, resume_write,
  write_serialized, write_on, start_write,
}
use tekmar.Transport.Steps.{
  Step, Reaches, receive, lose, pause, resume, close, end_close, read, write, resume_of, cancel,
  elsewhere, here, then_step,
}

-- If the event is clear, a reader has nothing to do; a writer's waiter that is pending is the one
-- that `_wake_drain_waiter` wakes, while writing is paused.
pub record IsAwake {T : Type 0} (p : TpckProtocol T) : Type 0 where
  pub reader : p.packet_event ≡ false → (p.packets ≡ []) × (p.error ≡ none)
  pub writer :
      (id : ℕ)
      → id < p.next_waiter
      → p.waiters id ≡ pending
      → (p.drain_waiter ≡ some id) × (p.paused ≡ true)

some-not_none : {id : ℕ} → ◌≢◌ {A = Option ℕ} none (some id)
some-not_none h = cc

some-same : {m n : ℕ} → ◌≡◌ {A = Option ℕ} (some m) (some n) → m ≡ n
some-same h = cc

done-not_pending : (waiter : Waiter) → waiter_done waiter ≡ true → waiter ≢ pending
unfolding waiter_done
done-not_pending pending d h = cc
done-not_pending resolved d h = cc
done-not_pending cancelled d h = cc
done-not_pending (failed e) d h = cc

pub cons-not_nil : {x : Packet} {xs : List Packet} → x ∷ xs ≢ []
cons-not_nil h = cc

pub true-not_false : true ≢ false
true-not_false h = cc

pub cancelled-not_pending : cancelled ≢ pending
cancelled-not_pending h = cc

pub failed-done : (e : Fault) → waiter_done (failed e) ≡ true
unfolding waiter_done
failed-done e = refl

pub assign-pending :
    (waiters : ℕ → Waiter) (woken id : ℕ) (outcome : Waiter)
    → assign waiters woken outcome id ≡ pending
    → ((woken ≡ id) × (outcome ≡ pending)) ⊎ ((woken ≢ id) × (waiters id ≡ pending))
unfolding assign
assign-pending waiters woken id outcome h = elim (Bool-cases (woken == id)) [
  | inl same ↦ inl (ground (arith, same), ground (arith, same))
  | inr other ↦ inr ((λ same. ground (arith, same, other)), ground (arith, other))
]

module _ {T : Type 0} (link : Link T) where
  pub after_parser-IsAwake :
      (p : TpckProtocol T) (fed : FedMany) → IsAwake p → IsAwake (after_parser link p fed)
  unfolding after_parser
  after_parser-IsAwake p (q, err e) i = record { reader = λ h. cc; writer = i.writer }
  after_parser-IsAwake p (q, ok []) i = record { reader = i.reader; writer = i.writer }
  after_parser-IsAwake p (q, ok (first ∷ rest)) i = record { reader = λ h. cc; writer = i.writer }

  -- The waiter at hand is woken, and no other is pending.
  wake_at-reader :
      (drain : Option ℕ) (outcome : Waiter) (p : TpckProtocol T)
      → (p.packet_event ≡ false → (p.packets ≡ []) × (p.error ≡ none))
      → (wake_at drain outcome p).packet_event ≡ false
      → ((wake_at drain outcome p).packets ≡ []) × ((wake_at drain outcome p).error ≡ none)
  unfolding wake_at
  wake_at-reader none outcome p i = i
  wake_at-reader (some id) outcome p i = elim (Bool-cases (waiter_done (p.waiters id))) [
    | inl is_so ↦ rw is_so i
    | inr is_so ↦ rw is_so i
  ]

  pub wake_at-writer :
      (drain : Option ℕ) (outcome : Waiter) (p : TpckProtocol T)
      → waiter_done outcome ≡ true
      → ((id : ℕ) → id < p.next_waiter → p.waiters id ≡ pending → drain ≡ some id)
      → (id : ℕ) → id < (wake_at drain outcome p).next_waiter
      → (wake_at drain outcome p).waiters id ≢ pending
  unfolding wake_at
  wake_at-writer none outcome p d i id = λ b h. absurd (some-not_none (i id b h))
  wake_at-writer (some woken) outcome p d i id = elim (Bool-cases (waiter_done (p.waiters woken))) [
    | inl is_so ↦
        rw is_so (λ b h.
          done-not_pending (p.waiters woken) is_so (ap p.waiters (some-same (i id b h)) ∙ h))
    | inr is_so ↦ rw is_so (λ b h. elim (assign-pending p.waiters woken id outcome h) [
      | inl (same, now) ↦ done-not_pending outcome d now
      | inr (other, before) ↦ other (some-same (i id b before))
    ])
  ]

  -- Nobody waits any more behind `_wake_drain_waiter`.
  pub wake_drain_waiter-IsAwake :
      (outcome : Waiter) (p : TpckProtocol T)
      → waiter_done outcome ≡ true
      → (p.packet_event ≡ false → (p.packets ≡ []) × (p.error ≡ none))
      → ((id : ℕ) → id < p.next_waiter → p.waiters id ≡ pending → p.drain_waiter ≡ some id)
      → IsAwake (wake_drain_waiter outcome p)
  unfolding wake_drain_waiter
  wake_drain_waiter-IsAwake outcome p d told i = record {
    reader = wake_at-reader p.drain_waiter outcome (record p { drain_waiter = none }) told;
    writer = λ id b h.
        absurd
          (wake_at-writer p.drain_waiter outcome (record p { drain_waiter = none }) d i id b h);
  }

  new_drain_waiter-IsAwake :
      (p : TpckProtocol T)
      → p.paused ≡ true
      → IsAwake p
      → ((id : ℕ) → id < p.next_waiter → p.waiters id ≢ pending)
      → IsAwake (new_drain_waiter link p).0
  unfolding new_drain_waiter
  new_drain_waiter-IsAwake p paused i no_other = record {
    reader = i.reader;
    writer = λ id b h. elim (assign-pending p.waiters p.next_waiter id pending h) [
      | inl (same, now) ↦ (ap some same, paused)
      | inr (other, before) ↦ absurd (no_other id (omega arith) before)
    ];
  }

  join_waiter-IsAwake :
      (drain : Option ℕ) (p : TpckProtocol T)
      → p.drain_waiter ≡ drain
      → p.paused ≡ true
      → IsAwake p
      → IsAwake (join_waiter link drain p).0
  unfolding join_waiter
  join_waiter-IsAwake none p e paused i =
      new_drain_waiter-IsAwake p paused i (λ id b h. some-not_none (sym e ∙ (i.writer id b h).0))
  join_waiter-IsAwake (some drain) p e paused i =
      elim (Bool-cases (waiter_done (p.waiters drain))) [
        | inl is_so ↦ rw is_so (
            new_drain_waiter-IsAwake p paused i (λ id b h.
              done-not_pending (p.waiters drain) is_so
                (ap p.waiters (some-same (sym e ∙ (i.writer id b h).0)) ∙ h)))
        | inr is_so ↦ rw is_so i
      ]

  drain_round-paused :
      (paused : Bool) (p : TpckProtocol T)
      → p.paused ≡ paused
      → IsAwake p
      → IsAwake
          (if paused then join_waiter link p.drain_waiter p else (p, end_write link p.error)).0
  drain_round-paused true p e i = join_waiter-IsAwake p.drain_waiter p refl e i
  drain_round-paused false p e i = i

  pub drain_round-IsAwake : (p : TpckProtocol T) → IsAwake p → IsAwake (drain_round link p).0
  unfolding drain_round
  drain_round-IsAwake p i = drain_round-paused p.paused p refl i
