-- ===== src/Processor/Incidents.antt =====
-- The open automatic incidents of a monitor, counted (src/worker/monitor/processor.ts).
use uppity.Base.{
  ℕ, ◌≤◌, ◌+◌, ◌≡◌, ◌≢◌, refl, Bool, false, ◌&&◌, none, List, [], ◌∷◌, arith, All, count_where,
  count_where-update_le, first_where-none, Option-cases, Bool-cases, ◌==◌, ==_refl, inl, inr,
  if◌then◌else◌, String,
}
use uppity.Tables.{Db, Monitor, Incident, IncidentMonitor}
use uppity.Alerts.{is_active}
use uppity.Processor.Actions.{
  Calls, affects, active_incident, open_incident, resolve_auto_incident, auto_incident, resolve,
}

-- An open automatic incident of the monitor.
abbrev pub is_open_auto : List IncidentMonitor → ℕ → Incident → Bool
is_open_auto links k i = affects links k i && is_active i && i.is_auto_created

abbrev pub open_autos : Db → ℕ → ℕ
open_autos db k = count_where (is_open_auto db.incident_monitors k) db.incidents

-- The identifier of a new incident is new to the incidents and to their links.
pub record IsFresh (id : ℕ) (db : Db) : Type 0 where
  pub incidents : All (λ i. i.id ≢ id) db.incidents
  pub links : All (λ l. l.incident_id ≢ id) db.incident_monitors

affects-fresh :
    (id k j : ℕ) (i : Incident) (links : List IncidentMonitor)
    → i.id ≢ id
    → affects (record { incident_id = id; monitor_id = j } ∷ links) k i ≡ affects links k i
affects-fresh id k j i links h = ground arith

unlinked :
    (id k : ℕ) (i : Incident) (links : List IncidentMonitor)
    → i.id ≡ id
    → All (λ l. l.incident_id ≢ id) links
    → affects links k i ≡ false
unlinked id k i [] e h = refl
unlinked id k i (l ∷ links) e h = ground (arith, unlinked id k i links e h.1)

count-fresh :
    (id k j : ℕ) (is : List Incident) (links : List IncidentMonitor)
    → All (λ i. i.id ≢ id) is
    → count_where (is_open_auto (record { incident_id = id; monitor_id = j } ∷ links) k) is
      ≡ count_where (is_open_auto links k) is
unfolding count_where
count-fresh id k j [] links h = refl
count-fresh id k j (i ∷ is) links h =
    ground (arith, affects-fresh id k j i links h.0, count-fresh id k j is links h.1)

module _ (calls : Calls) (m : Monitor) where
  -- A new incident counts for its own monitor alone.
  pub open_incident-open_autos :
      (title message : String) (db : Db) (k : ℕ)
      → IsFresh calls.incident_id db
      → open_autos (open_incident calls m title message db) k
        ≡ (if m.id == k then open_autos db k + 1 else open_autos db k)
  unfolding open_incident count_where
  open_incident-open_autos title message db k fresh = ground (
    arith,
    count-fresh calls.incident_id k m.id db.incidents db.incident_monitors fresh.incidents,
    unlinked calls.incident_id k (auto_incident calls m title) db.incident_monitors refl
        fresh.links,
    ==_refl calls.incident_id,
  )

  pub resolve_auto_incident-open_autos :
      (message : String) (db : Db) (k : ℕ)
      → open_autos (resolve_auto_incident calls m message db) k ≤ open_autos db k
  unfolding resolve_auto_incident
  resolve_auto_incident-open_autos message db k = elim (Option-cases (active_incident db m.id)) [
    | inl n ↦ ground arith
    | inr (i, n) ↦ elim (Bool-cases i.is_auto_created) [
      | inl a ↦ ground (
        arith,
        count_where-update_le (is_open_auto db.incident_monitors k) (λ j. j.id == i.id)
            (resolve calls.now) db.incidents (λ j h. ground arith),
      )
      | inr a ↦ ground arith
    ]
  ]

-- With no open incident found there is no open automatic one.
pub active_incident-none : (db : Db) (k : ℕ) → active_incident db k ≡ none → open_autos db k ≡ 0
unfolding active_incident
active_incident-none db k e =
    first_where-none (is_open_auto db.incident_monitors k) db.incidents (ground arith)
