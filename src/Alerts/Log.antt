-- ===== src/Alerts/Log.antt =====
-- The events of a monitor as a log in the order of their creation.
use uppity.Base.{
  ℕ, ◌≤◌, ◌≡◌, refl, Bool, true, false, Option, none, some, List, [], ◌∷◌, arith, All,
  All-rows_where, Bool-cases, is_some, Option-cases, rows_where, first_where, newest,
  newest-cons_latest, inl, inr,
}
use uppity.Tables.{NotificationType, NotificationEvent}
use uppity.Alerts.{
  event_of, event_created_at, newest_event, active_flap, outage_alerted, is_status_event,
  is_outage_event, is_flapping, is_recovery,
}

-- Each event was created no earlier than those inserted before it.
abbrev pub IsChronological : List NotificationEvent → Type 0
IsChronological [] = Unit
IsChronological (e ∷ es) = All (λ d. d.created_at ≤ e.created_at) es × IsChronological es

-- In such a log the newest event is the last inserted.
pub newest_event-eq_first :
    (m : ℕ) (types : NotificationType → Bool) (es : List NotificationEvent)
    → IsChronological es
    → newest_event es m types ≡ first_where (event_of m types) es
unfolding newest_event rows_where first_where newest
newest_event-eq_first m types [] h = refl
newest_event-eq_first m types (e ∷ es) h = elim (Bool-cases (event_of m types e)) [
  | inl t ↦ rw t (
      newest-cons_latest event_created_at e (rows_where (event_of m types) es)
        (All-rows_where _ (event_of m types) es h.0))
  | inr t ↦ rw t (newest_event-eq_first m types es h.1)
]

-- The last event that told people of an outage or of its end.
pub last_told : ℕ → List NotificationEvent → Option NotificationEvent
last_told m es = first_where (event_of m is_outage_event) es

abbrev pub TellsOutage : Option NotificationEvent → Type 0
TellsOutage none = ⊥
TellsOutage (some e) = is_recovery e.type ≡ false

-- Each recovery alert of the monitor follows an alert of an outage, with no other recovery between.
abbrev pub IsAlternating : ℕ → List NotificationEvent → Type 0
IsAlternating m [] = Unit
IsAlternating m (e ∷ es) =
    (event_of m is_recovery e ≡ true → TellsOutage (last_told m es)) × IsAlternating m es

pub outage_alerted-TellsOutage :
    (m : ℕ) (es : List NotificationEvent)
    → IsChronological es
    → outage_alerted es m ≡ true
    → TellsOutage (last_told m es)
unfolding outage_alerted last_told
outage_alerted-TellsOutage m es h o = ground (arith, newest_event-eq_first m is_outage_event es h)

-- A log whose newest status event is a flapping message ends in that message.
flapping_first :
    (m : ℕ) (es : List NotificationEvent) {e : NotificationEvent}
    → first_where (event_of m is_status_event) es ≡ some e
    → is_flapping e.type ≡ true
    → first_where (event_of m is_outage_event) es ≡ some e
unfolding first_where
flapping_first m [] p f = cc
flapping_first m (d ∷ es) {e} p f = elim (Bool-cases (event_of m is_status_event d)) [
  | inl t ↦ ground arith
  | inr t ↦
      let q : first_where (event_of m is_status_event) es ≡ some e = ground arith in
      ground (arith, flapping_first m es q f)
]

pub active_flap-TellsOutage :
    (m : ℕ) (es : List NotificationEvent)
    → IsChronological es
    → is_some (active_flap es m) ≡ true
    → TellsOutage (last_told m es)
unfolding active_flap last_told
active_flap-TellsOutage m es h o =
    elim (Option-cases (first_where (event_of m is_status_event) es)) [
      | inl n ↦ ground (arith, newest_event-eq_first m is_status_event es h)
      | inr (e, n) ↦
          ground (arith, newest_event-eq_first m is_status_event es h, flapping_first m es n)
    ]
