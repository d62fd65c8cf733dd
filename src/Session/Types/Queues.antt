-- ===== src/Session/Types/Queues.antt =====
-- Bounds of the backlogs and of the report queues (src/tekmar_482/session.py).
use tekmar.Prelude.{
  zero, suc, ℕ, ◌-◌, ◌≤◌, ◌<◌, ◌≡◌, refl, Bool, false, List, [], ◌∷◌, ◌++◌, length, length-append,
  length-drop, drop, leb, ◌==◌, ◌||◌, if◌then◌else◌, arith,
}
use tekmar.Prelude.Store.{assign}
use tekmar.Session.Types.{ReportItem, ReportQueue, trim, put_report_item, put_in_all}

pub length-trim {ℓ} : {A : Type ℓ} (bound : ℕ) (xs : List A) → length (trim bound xs) ≤ bound
unfolding trim
length-trim bound xs = ground (arith, length-drop (length xs - bound) xs)

-- A bounded queue that holds no more than its bound.
abbrev pub Fits : ReportQueue → Type 0
Fits q = (0 < q.max_size) → (length q.items ≤ q.max_size)

drop-append_le {ℓ} :
    {A : Type ℓ} (n : ℕ) (xs ys : List A) → n ≤ length xs → drop n (xs ++ ys) ≡ drop n xs ++ ys
drop-append_le zero xs ys h = refl
drop-append_le (suc n) [] ys h = absurd (omega arith)
drop-append_le (suc n) (x ∷ xs) ys h = drop-append_le n xs ys (omega arith)

trim-room {ℓ} :
    {A : Type ℓ} (bound : ℕ) (xs : List A) → 0 < bound → length xs ≤ bound → trim bound xs ≡ xs
unfolding trim
trim-room bound xs h k =
    let n : length xs - bound ≡ 0 = omega arith in
    let b : leb bound 0 ≡ false = ground arith in rw (b, n)

-- One item over the bound: the first one goes.
trim-over {ℓ} :
    {A : Type ℓ} (bound : ℕ) (xs : List A) (x : A)
    → 0 < bound
    → length xs ≡ bound
    → trim bound (xs ++ (x ∷ [])) ≡ drop 1 xs ++ (x ∷ [])
unfolding trim
trim-over bound xs x h k =
    let n : length (xs ++ (x ∷ [])) - bound ≡ 1 = omega (arith, length-append xs (x ∷ []), k) in
    let b : leb bound 0 ≡ false = ground arith in
    rw (b, n) (drop-append_le 1 xs (x ∷ []) (omega arith))

-- Putting an item into a queue that fits its bound keeps the newest items: it adds the item at the
-- end and, on a bounded queue, drops the oldest so that the bound is kept.
pub put_report_item-trim :
    (q : ReportQueue) (item : ReportItem)
    → Fits q
    → ((put_report_item q item).max_size ≡ q.max_size)
      × ((put_report_item q item).items ≡ (
          if q.max_size == 0
          then q.items ++ (item ∷ [])
          else trim q.max_size (q.items ++ (item ∷ []))))
unfolding put_report_item
put_report_item-trim q item fits = ground (
  arith,
  length-drop 1 q.items,
  length-append q.items (item ∷ []),
  trim-room q.max_size (q.items ++ (item ∷ [])),
  trim-over q.max_size q.items item,
)

pub put_report_item-Fits :
    (q : ReportQueue) (item : ReportItem) → Fits q → Fits (put_report_item q item)
unfolding put_report_item
put_report_item-Fits q item fits positive = ground (
  arith,
  length-drop 1 q.items,
  length-append q.items (item ∷ []),
  length-append (drop 1 q.items) (item ∷ []),
)

abbrev pub is_in : ℕ → List ℕ → Bool
is_in id [] = false
is_in id (x ∷ xs) = x == id || is_in id xs

-- The identities in a Python set are distinct.
abbrev pub Nodup : List ℕ → Type 0
Nodup [] = Unit
Nodup (x ∷ xs) = (is_in x xs ≡ false) × Nodup xs

-- An item reaches the queues of the list, and no other queue changes.
pub put_in_all-at :
    (ids : List ℕ) (item : ReportItem) (queues : ℕ → ReportQueue) (id : ℕ)
    → Nodup ids
    → put_in_all ids item queues id
      ≡ (if is_in id ids then put_report_item (queues id) item else queues id)
unfolding put_in_all assign
put_in_all-at [] item queues id d = refl
put_in_all-at (x ∷ ids) item queues id d =
    ground (
      arith,
      put_in_all-at ids item (assign queues x (put_report_item (queues x) item)) id d.1,
      d.0,
    )
