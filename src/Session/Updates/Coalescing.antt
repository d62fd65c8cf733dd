-- ===== src/Session/Updates/Coalescing.antt =====
-- How updates with the same key replace each other (src/tekmar_482/session.py).
use tekmar.Prelude.{
  ℕ, ◌≡◌, ◌≢◌, ◌∙◌, ap, none, some, List, [], ◌∷◌, ◌++◌, ◌==◌, if◌then◌else◌, arith,
}
use tekmar.Prelude.Dict.{lookup, insert, insert-fresh}
use tekmar.Prelude.Store.{assign}
use tekmar.Session.Types.{waiting, result, is_done, QueuedUpdate, Session, settle}
use tekmar.Session.Updates.{
  Updates, same_key_iff, tuple_key, supersede, enqueue_update, delete_key, remove_in,
  remove_coalesced_update,
}

split-lookup :
    (key : List ℕ) (previous : QueuedUpdate) (before after : Updates)
    → lookup key before ≡ none
    → lookup key (before ++ ((key, previous) ∷ after)) ≡ some previous
unfolding lookup
split-lookup key previous [] after h = ground (arith, same_key_iff key key)
split-lookup key previous (entry ∷ before) after h =
    ground (arith, split-lookup key previous before after)

split-insert :
    (key : List ℕ) (previous update : QueuedUpdate) (before after : Updates)
    → lookup key before ≡ none
    → insert key update (before ++ ((key, previous) ∷ after)) ≡ before ++ ((key, update) ∷ after)
unfolding lookup insert
split-insert key previous update [] after h = ground (arith, same_key_iff key key)
split-insert key previous update (entry ∷ before) after h =
    ground (arith, split-insert key previous update before after)

split-delete :
    (key : List ℕ) (update : QueuedUpdate) (before after : Updates)
    → lookup key before ≡ none
    → delete_key key (before ++ ((key, update) ∷ after)) ≡ before ++ after
unfolding lookup delete_key
split-delete key update [] after h = ground (arith, same_key_iff key key)
split-delete key update (entry ∷ before) after h =
    ground (arith, split-delete key update before after)

-- An update with a future of its own whose key is queued: it takes the place of the queued one, whose caller gets None unless
-- its future is done; the new future waits, and no other future and no other update changes.
pub enqueue_update-replaces :
    (key : List ℕ) (previous update : QueuedUpdate) (before after : Updates) (s : Session) (id : ℕ)
    → s.coalesced_updates ≡ before ++ ((key, previous) ∷ after)
    → lookup key before ≡ none
    → update.future ≢ previous.future
    → ((enqueue_update key update s).coalesced_updates ≡ before ++ ((key, update) ∷ after))
      × ((enqueue_update key update s).futures id ≡ (
          if update.future == id
          then waiting
          else if previous.future == id
          then if is_done (s.futures id) then s.futures id else result none
          else s.futures id))
unfolding enqueue_update settle supersede assign
enqueue_update-replaces key previous update before after s id e h ne = (
  ap (insert key update) e ∙ split-insert key previous update before after h,
  ground (arith, ap (lookup key) e ∙ split-lookup key previous before after h),
)

-- An update whose key is not queued goes behind all others, and only its own future changes: it waits.
pub enqueue_update-fresh :
    (key : List ℕ) (update : QueuedUpdate) (s : Session) (id : ℕ)
    → lookup key s.coalesced_updates ≡ none
    → ((enqueue_update key update s).coalesced_updates
        ≡ s.coalesced_updates ++ ((key, update) ∷ []))
      × ((enqueue_update key update s).futures id
          ≡ (if update.future == id then waiting else s.futures id))
unfolding enqueue_update supersede assign
enqueue_update-fresh key update s id h =
    (insert-fresh key update s.coalesced_updates h, ground (arith, h))

remove_own :
    (key : List ℕ) (update : QueuedUpdate) (s : Session)
    → remove_in (some update) key update.future s
      ≡ record s { coalesced_updates = delete_key key s.coalesced_updates }
unfolding remove_in
remove_own key update s = ground arith

-- A caller whose wait is cancelled takes its own update out of the queue, the others stay in order.
pub remove_coalesced_update-own :
    (key : List ℕ) (update : QueuedUpdate) (before after : Updates) (s : Session)
    → s.coalesced_updates ≡ before ++ ((key, update) ∷ after)
    → lookup key before ≡ none
    → remove_coalesced_update key update.future s ≡ record s { coalesced_updates = before ++ after }
unfolding remove_coalesced_update
remove_coalesced_update-own key update before after s e h =
    ap (λ found. remove_in found key update.future s)
      (ap (lookup key) e ∙ split-lookup key update before after h)
    ∙ remove_own key update s
    ∙ ap (λ updates. record s { coalesced_updates = updates })
        (ap (delete_key key) e ∙ split-delete key update before after h)
