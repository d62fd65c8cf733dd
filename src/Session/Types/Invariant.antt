-- ===== src/Session/Types/Invariant.antt =====
-- The invariant of a session (src/tekmar_482/session.py).
use tekmar.Prelude.{ℕ, ◌≤◌, ◌≡◌, ◌⊎◌, true, none, List, [], ◌∷◌, ◌==◌, length, if_both}
use tekmar.Prelude.Store.{assign}
use tekmar.Session.Types.{ReportItem, ReportQueue, Session, put_report_item, put_in_all}
use tekmar.Session.Types.Queues.{Fits, Nodup, put_report_item-Fits}

-- The backlogs and the report queues keep their bounds, the subscriptions are distinct, and an error
-- of the reader closes the session.
abbrev pub IsWellFormed : Session → Type 0
IsWellFormed s =
    (length s.message_backlog ≤ s.max_message_backlog)
    × (length s.packet_backlog ≤ s.max_packet_backlog)
    × ((id : ℕ) → Fits (s.queues id))
    × Nodup s.report_queues
    × ((s.reader_error ≡ none) ⊎ (s.closed ≡ true))

pub assign-Fits :
    (queues : ℕ → ReportQueue) (id : ℕ) (q : ReportQueue)
    → ((other : ℕ) → Fits (queues other))
    → Fits q
    → (other : ℕ) → Fits (assign queues id q other)
unfolding assign
assign-Fits queues id q fits fits_q other =
    if_both Fits (id == other) q (queues other) fits_q (fits other)

pub put_in_all-Fits :
    (ids : List ℕ) (item : ReportItem) (queues : ℕ → ReportQueue)
    → ((id : ℕ) → Fits (queues id))
    → (id : ℕ) → Fits (put_in_all ids item queues id)
unfolding put_in_all
put_in_all-Fits [] item queues fits = fits
put_in_all-Fits (x ∷ ids) item queues fits =
    put_in_all-Fits ids item (assign queues x (put_report_item (queues x) item)) (
      assign-Fits queues x (put_report_item (queues x) item) fits
        (put_report_item-Fits (queues x) item (fits x)))
