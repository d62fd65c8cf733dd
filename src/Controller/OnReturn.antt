-- ===== src/Controller/OnReturn.antt =====
-- Rules for what holds when an action of the controller returns (src/tekmar_482/controller.py).

use tekmar.Client.Action.{
  Action, Reply, returned, raised, value_error, os_error, ran_out, then_reply, after_cleanup,
}
use tekmar.Controller.{Controller, call, handled}

-- If it returned, then so.
unfoldable pub OnReturn : {X A : Type 0} → (A → X → Type 0) → X × Reply A → Type 0
OnReturn Q (x, returned a) = Q a x
OnReturn Q (x, raised e) = Unit
OnReturn Q (x, value_error) = Unit
OnReturn Q (x, os_error) = Unit
OnReturn Q (x, ran_out) = Unit

module _ {X A B : Type 0} (Q : A → X → Type 0) where
  pub then_reply-OnReturn :
      (R : B → X → Type 0) (r : X × Reply A) (next : A → Action X B)
      → OnReturn Q r
      → ((a : A) (x : X) → Q a x → OnReturn R (next a x))
      → OnReturn R (then_reply r next)
  unfolding OnReturn
  then_reply-OnReturn R (x, returned a) next q holds = holds a x q
  then_reply-OnReturn R (x, raised e) next q holds = tt
  then_reply-OnReturn R (x, value_error) next q holds = tt
  then_reply-OnReturn R (x, os_error) next q holds = tt
  then_reply-OnReturn R (x, ran_out) next q holds = tt

  after_cleanup-OnReturn :
      (reply : Reply A) (end : X × Reply B)
      → ((x : X) → OnReturn Q (x, reply))
      → OnReturn Q (after_cleanup reply end)
  unfolding OnReturn
  after_cleanup-OnReturn reply (x, returned b) r = r x
  after_cleanup-OnReturn reply (x, raised e) r = tt
  after_cleanup-OnReturn reply (x, value_error) r = tt
  after_cleanup-OnReturn reply (x, os_error) r = tt
  after_cleanup-OnReturn reply (x, ran_out) r = tt

  pub handled-OnReturn :
      (r : X × Reply A) (cleanup : Action X B) → OnReturn Q r → OnReturn Q (handled r cleanup)
  unfolding OnReturn
  handled-OnReturn (x, returned a) cleanup q = q
  handled-OnReturn (x, raised e) cleanup q = after_cleanup-OnReturn (raised e) (cleanup x) (λ y. tt)
  handled-OnReturn (x, value_error) cleanup q =
      after_cleanup-OnReturn value_error (cleanup x) (λ y. tt)
  handled-OnReturn (x, os_error) cleanup q = after_cleanup-OnReturn os_error (cleanup x) (λ y. tt)
  handled-OnReturn (x, ran_out) cleanup q = after_cleanup-OnReturn ran_out (cleanup x) (λ y. tt)

pub anything : {X A : Type 0} (r : X × Reply A) → OnReturn (λ a x. Unit) r
unfolding OnReturn
anything (x, returned a) = tt
anything (x, raised e) = tt
anything (x, value_error) = tt
anything (x, os_error) = tt
anything (x, ran_out) = tt

module _ {W : Type 0} where
  reply-OnReturn :
      {A : Type 0} (P : Controller → Type 0) (c : Controller) (r : W × Reply A)
      → P c
      → OnReturn (λ (a : A) (x : Controller × W). P x.0) ((c, r.0), r.1)
  unfolding OnReturn
  reply-OnReturn P c (w, returned a) p = p
  reply-OnReturn P c (w, raised e) p = tt
  reply-OnReturn P c (w, value_error) p = tt
  reply-OnReturn P c (w, os_error) p = tt
  reply-OnReturn P c (w, ran_out) p = tt

  pub call-OnReturn :
      {A : Type 0} (P : Controller → Type 0) (action : Action W A) (c : Controller) (w : W)
      → P c
      → OnReturn (λ (a : A) (x : Controller × W). P x.0) (call action (c, w))
  call-OnReturn P action c w p = reply-OnReturn P c (action w) p
