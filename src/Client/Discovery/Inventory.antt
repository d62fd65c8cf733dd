-- ===== src/Client/Discovery/Inventory.antt =====
-- Which addresses `get_inventory_addresses` collects, and that it ends (src/tekmar_482/client.py).
use tekmar.Prelude.{
  ℕ, zero, suc, ◌<◌, ◌≡◌, refl, sym, ap, ◌∙◌, Bool, true, false, ◌||◌, Option, none, some, List, [],
  ◌∷◌, ◌++◌, append_assoc, append-nil, ◌==◌, if◌then◌else◌, ◌⊎◌, inl, inr, length, Bool-cases,
  arith,
}
use tekmar.Exceptions.{Result, ok}
use tekmar.Trpc.Message.{TrpcPacket, require}
use tekmar.Trpc.Match.{elem}
use tekmar.Client.Action.{Action, returned, give, then_reply, reply_of}
use tekmar.Client.Calls.{SessionCalls, request_device_inventory}
use tekmar.Client.Discovery.{
  na_16, is_inventory, add_address, after_address, after_message, collect_addresses,
  get_inventory_addresses,
}

abbrev pub is_end : ℕ → Bool
is_end address = address == 0 || address == na_16

-- The addresses before the first 0 or NA.
unfoldable pub before_end : List ℕ → List ℕ
before_end [] = []
before_end (a ∷ others) = let rest = before_end others in if is_end a then [] else a ∷ rest

unfoldable pub without : ℕ → List ℕ → List ℕ
without x [] = []
without x (y ∷ ys) = let rest = without x ys in if y == x then rest else y ∷ rest

-- The first occurrence of each address.
unfoldable pub unique : List ℕ → List ℕ
unfolding without
unique [] = []
unique (x ∷ xs) = x ∷ without x (unique xs)

without_all : List ℕ → List ℕ → List ℕ
without_all seen [] = []
without_all seen (y ∷ ys) = let rest = without_all seen ys in if elem y seen then rest else y ∷ rest

elem-append_one : (y x : ℕ) (seen : List ℕ) → elem y (seen ++ (x ∷ [])) ≡ (elem y seen || x == y)
unfolding elem
elem-append_one y x [] = ground arith
elem-append_one y x (z ∷ seen) = ground (arith, elem-append_one y x seen)

without_all-append_one :
    (x : ℕ) (seen ys : List ℕ) → without_all (seen ++ (x ∷ [])) ys ≡ without_all seen (without x ys)
unfolding without_all without
without_all-append_one x seen [] = refl
without_all-append_one x seen (y ∷ ys) =
    ground (arith, elem-append_one y x seen, without_all-append_one x seen ys)

without_all-without :
    (x : ℕ) (seen ys : List ℕ)
    → elem x seen ≡ true
    → without_all seen (without x ys) ≡ without_all seen ys
unfolding without_all without
without_all-without x seen [] h = refl
without_all-without x seen (y ∷ ys) h = ground (arith, h, without_all-without x seen ys h)

without_all_nil : (ys : List ℕ) → without_all [] ys ≡ ys
unfolding without_all elem
without_all_nil [] = refl
without_all_nil (y ∷ ys) = ap (◌∷◌ y) (without_all_nil ys)

add_all : List ℕ → List ℕ → List ℕ
add_all seen [] = seen
add_all seen (x ∷ xs) = add_all (add_address x seen) xs

add_all-unique : (seen xs : List ℕ) → add_all seen xs ≡ seen ++ without_all seen (unique xs)
unfolding add_all without_all unique add_address
add_all-unique seen [] = sym (append-nil seen)
add_all-unique seen (x ∷ xs) = elim (Bool-cases (elem x seen)) [
  | inl e ↦ ground (arith, e, add_all-unique seen xs, without_all-without x seen (unique xs) e)
  | inr e ↦ ground (
    arith,
    e,
    add_all-unique (seen ++ (x ∷ [])) xs,
    without_all-append_one x seen (unique xs),
    append_assoc seen (x ∷ []) (without_all seen (without x (unique xs))),
  )
]

end_or_next :
    {W : Type 0} (b : Bool) (next : Action W (List ℕ)) (a : ℕ) (seen rest : List ℕ) (w : W)
    → (next w).1 ≡ returned (add_all (add_address a seen) rest)
    → ((if b then give {W = W} seen else next) w).1
      ≡ returned (add_all seen (if b then [] else a ∷ rest))
unfolding add_all
end_or_next true next a seen rest w h = refl
end_or_next false next a seen rest w h = h

module _ {W : Type 0} (session : SessionCalls W) where
  -- The session delivers these inventory addresses from a world on, and then the deadline is over
  -- or no more message comes.
  unfoldable pub Inventory : W → List ℕ → Type 0
  Inventory w [] =
      (session.expired w ≡ true)
      ⊎ ((session.expired w ≡ false) × ((session.next_matching is_inventory w).1 ≡ ok none))
  Inventory w (a ∷ rest) =
      (session.expired w ≡ false)
      × (m : TrpcPacket) × ((session.next_matching is_inventory w).1 ≡ ok (some m))
      × (require m "address" ≡ ok a)
      × Inventory (session.next_matching is_inventory w).0 rest

  -- One round, by what the deadline and the session say.
  collect_round :
      (rounds : ℕ) (seen : List ℕ) (w : W) (late : Bool) (found : Result (Option TrpcPacket))
      → session.expired w ≡ late
      → (session.next_matching is_inventory w).1 ≡ found
      → collect_addresses session (suc rounds) seen w ≡ (
          if late
          then (w, returned seen)
          else then_reply
              ((session.next_matching is_inventory w).0, reply_of found)
              (after_message session (collect_addresses session rounds) seen))
  unfolding collect_addresses
  collect_round rounds seen w late found e f = rw (← e, ← f) refl

  collect_addresses-add_all :
      (rounds : ℕ) (addresses seen : List ℕ) (w : W)
      → Inventory w addresses
      → length addresses < rounds
      → (collect_addresses session rounds seen w).1 ≡ returned (add_all seen (before_end addresses))
  unfolding collect_addresses Inventory before_end add_all after_address
  collect_addresses-add_all zero addresses seen w i h = absurd (omega arith)
  collect_addresses-add_all (suc rounds) [] seen w (inl late) h =
      ap (λ r. r.1)
        (collect_round rounds seen w true (session.next_matching is_inventory w).1 late refl)
  collect_addresses-add_all (suc rounds) [] seen w (inr last) h =
      ap (λ r. r.1) (collect_round rounds seen w false (ok none) last.0 last.1)
  collect_addresses-add_all (suc rounds) (a ∷ rest) seen w (late, m, found, address, i) h =
      ap (λ r. r.1) (collect_round rounds seen w false (ok (some m)) late found)
      ∙ ap
          (λ r.
            (then_reply ((session.next_matching is_inventory w).0, reply_of r)
              (after_address session (collect_addresses session rounds) seen)).1)
          address
      ∙ end_or_next (is_end a) (collect_addresses session rounds (add_address a seen)) a seen
          (before_end rest) (session.next_matching is_inventory w).0
          (collect_addresses-add_all rounds rest (add_address a seen)
            (session.next_matching is_inventory w).0 i (omega arith))

  collect_addresses-unique :
      (rounds : ℕ) (addresses : List ℕ) (w : W)
      → Inventory w addresses
      → length addresses < rounds
      → (collect_addresses session rounds [] w).1 ≡ returned (unique (before_end addresses))
  collect_addresses-unique rounds addresses w i h =
      collect_addresses-add_all rounds addresses [] w i h
      ∙ ap returned (
          add_all-unique [] (before_end addresses)
          ∙ without_all_nil (unique (before_end addresses)))

  -- If the inventory request is sent and the session delivers finitely many addresses, the loop ends
  -- in one round more than there are addresses, at the latest, and `get_inventory_addresses` returns
  -- the first occurrence of each address before the first 0 or NA.
  pub get_inventory_addresses-unique :
      (rounds start_address : ℕ) (addresses : List ℕ) (w sent : W) (m : TrpcPacket)
      → request_device_inventory session start_address w ≡ (sent, returned m)
      → Inventory sent addresses
      → length addresses < rounds
      → (get_inventory_addresses session rounds start_address w).1
        ≡ returned (unique (before_end addresses))
  unfolding get_inventory_addresses
  get_inventory_addresses-unique rounds start_address addresses w sent m e i h =
      ap (λ r. (then_reply r (λ a. collect_addresses session rounds [])).1) e
      ∙ collect_addresses-unique rounds addresses sent i h
