-- ===== src/Controller/Listening.antt =====
-- What a listener of the controller has been told (src/tekmar_482/controller.py).
use tekmar.Prelude.{
  ℕ, ◌≡◌, ◌≢◌, refl, ap, ◌∙◌, Bool, true, false, ◌||◌, Option, none, some, List, [], ◌∷◌, ◌==◌,
  if◌then◌else◌, if_both, arith,
}
use mathlib.Core.Path.{subst}
use tekmar.Trpc.Message.{TrpcPacket}
use tekmar.Trpc.Match.{elem}
use tekmar.Models.Equality.{same_info}
use tekmar.Models.Runtime.{AvailableInfo}
use tekmar.State.Apply.{Applied, ignored, raises_type_error, updated, apply_message}
use tekmar.State.Apply.Total.{apply_message-total}
use tekmar.State.Holder.{
  TekmarState, Change, type_error, changed, unchanged, apply_to_state, applied_to,
}
use tekmar.Client.Action.{Action, Reply, returned, then_reply}
use tekmar.Controller.{
  ControllerCalls, Controller, call, call_each, notify_at, notify_state, after_change, apply_in,
  is_topology_message, handle_message, handle_all,
}

-- A listener whose calls are seen, among listeners that do not raise. `Seen` says what it was last
-- told.
pub record Listens {W : Type 0} (calls : ControllerCalls W) (listener : ℕ)
    (Seen : AvailableInfo → W → Type 0) : Type 0 where
  pub sees : (info : AvailableInfo) (w : W) → Seen info (calls.call_state listener info w).0
  pub keeps :
      (id : ℕ) (info : AvailableInfo) (w : W)
      → Seen info w
      → Seen info (calls.call_state id info w).0
  pub returns :
      (id : ℕ) (info : AvailableInfo) (w : W) → (calls.call_state id info w).1 ≡ returned tt
  pub topology_keeps :
      (id : ℕ) (m : TrpcPacket) (info : AvailableInfo) (w : W)
      → Seen info w
      → Seen info (calls.call_topology id m w).0
  pub topology_returns :
      (id : ℕ) (m : TrpcPacket) (w : W) → (calls.call_topology id m w).1 ≡ returned tt

changed_if-total :
    (s : TekmarState) (info : AvailableInfo) (same : Bool)
    → (if same then unchanged s else changed (record s { current_data = info })) ≢ type_error
changed_if-total s info true h = cc
changed_if-total s info false h = cc

applied_to-total :
    (s : TekmarState) (applied : Applied)
    → applied ≢ raises_type_error
    → applied_to s applied ≢ type_error
unfolding applied_to
applied_to-total s ignored total h = cc
applied_to-total s raises_type_error total h = total refl
applied_to-total s (updated info) total h =
    changed_if-total s info (same_info info s.current_data) h

module _ {W : Type 0} where
  -- A step that returns, and the rest behind it.
  returning :
      (r : W × Reply (Unit {0})) (next : Action W (Unit {0})) (P : W × Reply (Unit {0}) → Type 0)
      → r.1 ≡ returned tt
      → P (next r.0)
      → P (then_reply r (λ a. next))
  returning (w, reply) next P e p = rw e p

module _ {W : Type 0} (calls : ControllerCalls W) (listener : ℕ) (Seen : AvailableInfo → W → Type 0)
    (listens : Listens calls listener Seen) where
  id_is : (id : ℕ) → (id == listener) ≡ true → id ≡ listener
  id_is id e = ground (arith, e)

  told-kept :
      (ids : List ℕ) (info : AvailableInfo) (w : W)
      → Seen info w
      → Seen info (call_each calls calls.call_state ids info w).0
        × ((call_each calls calls.call_state ids info w).1 ≡ returned tt)
  unfolding call_each
  told-kept [] info w seen = (seen, refl)
  told-kept (id ∷ rest) info w seen =
      returning (calls.call_state id info w) (call_each calls calls.call_state rest info)
        (λ r. Seen info r.0 × (r.1 ≡ returned tt)) (listens.returns id info w)
        (told-kept rest info (calls.call_state id info w).0 (listens.keeps id info w seen))

  told_rest :
      (same : Bool) (id : ℕ) (rest : List ℕ) (info : AvailableInfo) (w : W)
      → (id == listener) ≡ same
      → (same || elem listener rest) ≡ true
      → (elem listener rest ≡ true
          → (v : W)
          → Seen info (call_each calls calls.call_state rest info v).0
            × ((call_each calls calls.call_state rest info v).1 ≡ returned tt))
      → Seen info (call_each calls calls.call_state rest info (calls.call_state id info w).0).0
        × ((call_each calls calls.call_state rest info (calls.call_state id info w).0).1
            ≡ returned tt)
  told_rest true id rest info w same e others =
      told-kept rest info (calls.call_state id info w).0 (rw (id_is id same) (listens.sees info w))
  told_rest false id rest info w same e others = others e (calls.call_state id info w).0

  told :
      (ids : List ℕ) (info : AvailableInfo) (w : W)
      → elem listener ids ≡ true
      → Seen info (call_each calls calls.call_state ids info w).0
        × ((call_each calls calls.call_state ids info w).1 ≡ returned tt)
  unfolding call_each elem
  told [] info w e = cc
  told (id ∷ rest) info w e =
      returning (calls.call_state id info w) (call_each calls calls.call_state rest info)
        (λ r. Seen info r.0 × (r.1 ≡ returned tt)) (listens.returns id info w)
        (told_rest (id == listener) id rest info w refl e (λ within v. told rest info v within))

  -- The listener has been told the data that the controller holds.
  unfoldable pub Sees : Controller → W → Type 0
  Sees c w = (s : TekmarState) → c.state ≡ some s → Seen s.current_data w

  -- What handling leaves: it returned, the listeners are the same, and the listener is up to date.
  IsTold : List ℕ → (Controller × W) × Reply (Unit {0}) → Type 0
  IsTold ids r = (r.1 ≡ returned tt) × (r.0.0.state_callbacks ≡ ids) × Sees r.0.0 r.0.1

  topology-kept :
      (ids : List ℕ) (m : TrpcPacket) (w : W)
      → ((info : AvailableInfo)
          → Seen info w
          → Seen info (call_each calls calls.call_topology ids m w).0)
        × ((call_each calls calls.call_topology ids m w).1 ≡ returned tt)
  unfolding call_each
  topology-kept [] m w = ((λ info seen. seen), refl)
  topology-kept (id ∷ rest) m w =
      let (keeps, returns) = topology-kept rest m (calls.call_topology id m w).0 in
      (
        (λ info seen.
            (returning (calls.call_topology id m w) (call_each calls calls.call_topology rest m)
              (λ r. Seen info r.0) (listens.topology_returns id m w)
              (keeps info (listens.topology_keeps id m info w seen)))),
        returning (calls.call_topology id m w) (call_each calls calls.call_topology rest m)
            (λ r. r.1 ≡ returned tt) (listens.topology_returns id m w) returns,
      )

  some-state : {s t : TekmarState} → ◌≡◌ {A = Option TekmarState} (some s) (some t) → s ≡ t
  some-state h = cc

  after_change-IsTold :
      (change : Change) (c : Controller) (w : W)
      → change ≢ type_error
      → elem listener c.state_callbacks ≡ true
      → Sees c w
      → IsTold c.state_callbacks (after_change calls change (c, w))
  unfolding after_change notify_state notify_at IsTold Sees
  after_change-IsTold type_error c w total among sees = absurd (total refl)
  after_change-IsTold (unchanged s) c w total among sees = (refl, refl, sees)
  after_change-IsTold (changed s) c w total among sees =
      let (seen, returns) = told c.state_callbacks s.current_data w among in
      (
        returns,
        refl,
        λ t e.
            subst
              (λ u.
                Seen u.current_data
                  (call_each calls calls.call_state c.state_callbacks s.current_data w).0)
              (some-state e) seen,
      )

  apply_to_state-total : (s : TekmarState) (m : TrpcPacket) → apply_to_state s m ≢ type_error
  unfolding apply_to_state
  apply_to_state-total s m =
      applied_to-total s (apply_message s.discovery s.current_data m)
        (apply_message-total s.discovery s.current_data m)

  apply_in-IsTold :
      (state : Option TekmarState) (c : Controller) (m : TrpcPacket) (w : W)
      → elem listener c.state_callbacks ≡ true
      → Sees c w
      → IsTold c.state_callbacks (apply_in calls state m (c, w))
  unfolding apply_in IsTold
  apply_in-IsTold none c m w among sees = (refl, refl, sees)
  apply_in-IsTold (some s) c m w among sees =
      after_change-IsTold (apply_to_state s m) c w (apply_to_state-total s m) among sees

  handle_message-IsTold :
      (m : TrpcPacket) (c : Controller) (w : W)
      → elem listener c.state_callbacks ≡ true
      → Sees c w
      → IsTold c.state_callbacks (handle_message calls m (c, w))
  unfolding handle_message IsTold Sees
  handle_message-IsTold m c w among sees =
      let (keeps, returns) = topology-kept c.topology_callbacks m w in
      if_both (IsTold c.state_callbacks) (is_topology_message m)
        (call (call_each calls calls.call_topology c.topology_callbacks m) (c, w))
        (apply_in calls c.state m (c, w)) (returns, refl, λ s e. keeps s.current_data (sees s e))
        (apply_in-IsTold c.state c m w among sees)

  handle_all-IsTold :
      (ms : List TrpcPacket) (c : Controller) (w : W)
      → elem listener c.state_callbacks ≡ true
      → Sees c w
      → IsTold c.state_callbacks (handle_all calls ms (c, w))
  unfolding handle_all IsTold
  handle_all-IsTold [] c w among sees = (refl, refl, sees)
  handle_all-IsTold (m ∷ ms) c w among sees =
      let (returns, same, now) = handle_message-IsTold m c w among sees in
      returning (handle_message calls m (c, w)) (handle_all calls ms) (IsTold c.state_callbacks)
        returns
        (let (returned_, same_, seen) =
            handle_all-IsTold ms (handle_message calls m (c, w)).0.0
              (handle_message calls m (c, w)).0.1 (ap (elem listener) same ∙ among) now in
          (returned_, same_ ∙ same, seen))

  -- If no listener raises, however many messages arrive, and whatever they say: each is handled
  -- without an exception, the listeners stay the same, and a registered listener that had been told
  -- the controller's data before has, at the end, been told the data that the controller then holds.
  pub handle_all-Sees :
      (ms : List TrpcPacket) (c : Controller) (w : W)
      → elem listener c.state_callbacks ≡ true
      → Sees c w
      → ((handle_all calls ms (c, w)).1 ≡ returned tt)
        × ((handle_all calls ms (c, w)).0.0.state_callbacks ≡ c.state_callbacks)
        × Sees (handle_all calls ms (c, w)).0.0 (handle_all calls ms (c, w)).0.1
  unfolding IsTold
  handle_all-Sees = handle_all-IsTold
