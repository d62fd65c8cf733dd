-- ===== src/Session/Dispatch/Reading.antt =====
-- `read_until` of src/tekmar_482/session.py.
use tekmar.Prelude.{
  ◌≡◌, refl, ap, ◌∙◌, Bool, true, false, none, some, List, [], ◌∷◌, ◌++◌, All, arith,
}
use tekmar.Trpc.Message.{TrpcPacket}
use tekmar.Session.Types.{Session}
use tekmar.Session.Dispatch.{ready, no_message, pop_first, read_until_in, read_until}

module _ (predicate : TrpcPacket → Bool) where
  pop_first-split :
      (m : TrpcPacket) (before after : List TrpcPacket)
      → All (λ other. predicate other ≡ false) before
      → predicate m ≡ true
      → pop_first predicate (before ++ (m ∷ after)) ≡ some (m, before ++ after)
  unfolding pop_first
  pop_first-split m [] after passed h = ground (arith, h)
  pop_first-split m (x ∷ before) after passed h =
      ground (arith, pop_first-split m before after passed.1 h, passed.0)

  pop_first-none :
      (backlog : List TrpcPacket)
      → All (λ other. predicate other ≡ false) backlog
      → pop_first predicate backlog ≡ none
  unfolding pop_first
  pop_first-none [] passed = refl
  pop_first-none (x ∷ backlog) passed = ground (arith, pop_first-none backlog passed.1, passed.0)

  -- `read_until` takes the oldest message that passes the predicate out of the backlog and leaves the
  -- others in their order.
  pub read_until-first :
      (s : Session) (m : TrpcPacket) (before after : List TrpcPacket)
      → s.message_backlog ≡ before ++ (m ∷ after)
      → All (λ other. predicate other ≡ false) before
      → predicate m ≡ true
      → read_until predicate s ≡ (record s { message_backlog = before ++ after }, ready m)
  unfolding read_until read_until_in
  read_until-first s m before after e passed h =
      ap (λ found. read_until_in found s)
        (ap (pop_first predicate) e ∙ pop_first-split m before after passed h)

  -- With no such message the backlog is unchanged, and the reader raises the error of the session,
  -- ends if it is closed, and waits otherwise.
  pub read_until-none :
      (s : Session)
      → All (λ other. predicate other ≡ false) s.message_backlog
      → read_until predicate s ≡ (s, no_message s)
  unfolding read_until read_until_in
  read_until-none s passed =
      ap (λ found. read_until_in found s) (pop_first-none s.message_backlog passed)
