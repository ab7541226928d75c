-- ===== src/Processor/Batch.antt =====
-- A run of `processResults` and the run after it (src/worker/monitor/processor.ts).
use uppity.Base.{
  ℕ, ◌≡◌, refl, ◌∙◌, All, All-mono, ap, List-cases, any-order_by, Bool, true, Option, none, some,
  List, [], ◌∷◌, arith, Bool-cases, inl, inr, ◌⊎◌, ◌==◌, ==_refl, ==_iff, first_where-holds, any,
  rows_where, update_where, first_where, length, order_by,
}
use uppity.Settings.{Settings}
use uppity.Tables.{Db, Monitor, MonitorCheck, MonitorStatus}
use uppity.Processor.Actions.{Calls, ssl_warning, open_incident, resolve_auto_incident}
use uppity.Processor.Interpret.{
  process_results, interpret, settle, announce, current_status, start_flapping, keep_flapping,
  alert_down, alert_up, when_degraded, process_rows, waiting_rows, finish, interpret_all,
  is_waiting, mark_processed, checked_before,
}

-- A run ends with nothing to do, or with every waiting row interpreted and marked.
pub process_results_cases :
    (cfg : Settings) (calls : ℕ → Calls) (now m : ℕ) (db : Db) {db' : Db} {n : ℕ}
    → process_results cfg calls now m db ≡ some (db', n)
    → ((waiting_rows db m ≡ []) × (db' ≡ db))
      ⊎ ((row : Monitor) × (row.id ≡ m)
          × (db'
              ≡ finish now
                  (waiting_rows db m)
                  (interpret_all cfg calls row (waiting_rows db m) db)))
unfolding process_results
process_results_cases cfg calls now m db {db'} {n} p =
    go (waiting_rows db m) (first_where (λ r. r.id == m) db.monitors)
      (λ row e. (==_iff row.id m).0 (first_where-holds (λ r. r.id == m) db.monitors e)) p
  where
    go :
        (rows : List MonitorCheck) (found : Option Monitor)
        → ((row : Monitor) → found ≡ some row → row.id ≡ m)
        → process_rows cfg calls now db rows found ≡ some (db', n)
        → ((rows ≡ []) × (db' ≡ db))
          ⊎ ((row : Monitor) × (row.id ≡ m)
              × (db' ≡ finish now rows (interpret_all cfg calls row rows db)))
    go [] found named p = inl (refl, cc)
    go (c ∷ cs) none named p = cc
    go (c ∷ cs) (some row) named p = inr (row, named row refl, cc)

module _ (cfg : Settings) where
  settle-checks :
      (calls : Calls) (m : Monitor) (c : MonitorCheck) (current : Option MonitorStatus) (db : Db)
      → (settle cfg calls m c current db).checks ≡ db.checks
  unfolding settle announce start_flapping keep_flapping alert_down alert_up when_degraded
      open_incident resolve_auto_incident
  settle-checks calls m c current db = ground arith

  interpret-checks :
      (calls : Calls) (m : Monitor) (c : MonitorCheck) (db : Db)
      → (interpret cfg calls m c db).checks ≡ db.checks
  unfolding interpret ssl_warning
  interpret-checks calls m c db =
      ground
        (arith, settle-checks calls m c (current_status db m.id) (ssl_warning cfg calls m c db))

  interpret_all-checks :
      (calls : ℕ → Calls) (m : Monitor) (cs : List MonitorCheck) (db : Db)
      → (interpret_all cfg calls m cs db).checks ≡ db.checks
  unfolding interpret_all
  interpret_all-checks calls m [] db = refl
  interpret_all-checks calls m (c ∷ cs) db =
      interpret_all-checks calls m cs (interpret cfg (calls c.id) m c db)
      ∙ interpret-checks (calls c.id) m c db

-- The row is among those picked up.
abbrev IsPicked : List MonitorCheck → MonitorCheck → Type 0
IsPicked rows c = any (λ r. r.id == c.id) rows ≡ true

waiting-IsPicked :
    (p : MonitorCheck → Bool) (cs : List MonitorCheck)
    → All (λ c. p c ≡ true → IsPicked (rows_where p cs) c) cs
unfolding rows_where
waiting-IsPicked p [] = tt
waiting-IsPicked p (c ∷ cs) = elim (Bool-cases (p c)) [
  | inl w ↦ rw w (
    λ _. ground (arith, ==_refl c.id),
    All-mono _ cs (λ d h q. ground (arith, h q)) (waiting-IsPicked p cs),
  )
  | inr n ↦ (λ q. cc, All-mono _ cs (λ d h q. ground (arith, h q)) (waiting-IsPicked p cs))
]

picked-processed :
    (now m : ℕ) (rows cs : List MonitorCheck)
    → All (λ c. is_waiting m c ≡ true → IsPicked rows c) cs
    → rows_where (is_waiting m) (mark_processed now rows cs) ≡ []
unfolding rows_where update_where
picked-processed now m rows [] h = refl
picked-processed now m rows (c ∷ cs) h = elim (Bool-cases (any (λ r. r.id == c.id) rows)) [
  | inl t ↦ ground (arith, picked-processed now m rows cs h.1)
  | inr n ↦ elim (Bool-cases (is_waiting m c)) [
    | inl w ↦ ground (arith, h.0 w)
    | inr o ↦ ground (arith, picked-processed now m rows cs h.1)
  ]
]

waiting-finish :
    (now m : ℕ) (db db' : Db)
    → db'.checks ≡ db.checks
    → waiting_rows (finish now (waiting_rows db m) db') m ≡ []
unfolding waiting_rows order_by
waiting-finish now m db db' same =
    let rows : List MonitorCheck = waiting_rows db m in
    let picked : All (λ c. is_waiting m c ≡ true → IsPicked rows c) db.checks =
      All-mono _ db.checks (λ c h q. any-order_by checked_before (λ r. r.id == c.id) _ ∙ h q)
        (waiting-IsPicked (is_waiting m) db.checks) in
    rw same (ap (order_by checked_before) (picked-processed now m rows db.checks picked))

idle_run :
    (cfg : Settings) (calls : ℕ → Calls) (now m : ℕ) (db : Db)
    → waiting_rows db m ≡ []
    → process_results cfg calls now m db ≡ some (db, 0)
unfolding process_results
idle_run cfg calls now m db e = rw (e, process_rows)

busy_run :
    (cfg : Settings) (calls : ℕ → Calls) (now m : ℕ) (db : Db) {row : Monitor} {c : MonitorCheck}
    {cs : List MonitorCheck}
    → waiting_rows db m ≡ c ∷ cs
    → first_where (λ r. r.id == m) db.monitors ≡ some row
    → process_results cfg calls now m db
      ≡ some (
        finish now (waiting_rows db m) (interpret_all cfg calls row (waiting_rows db m) db),
        length (waiting_rows db m),
      )
unfolding process_results
busy_run cfg calls now m db e found = rw (e, found, process_rows)

-- A run for a monitor that exists returns with the number of the waiting results, and a run
-- after it, whatever the clocks say then, finds none left and changes nothing.
pub process_results_once :
    (cfg : Settings) (calls calls' : ℕ → Calls) (now now' m : ℕ) (db : Db) {row : Monitor}
    → first_where (λ r. r.id == m) db.monitors ≡ some row
    → (db' : Db) × (process_results cfg calls now m db ≡ some (db', length (waiting_rows db m)))
      × (process_results cfg calls' now' m db' ≡ some (db', 0))
process_results_once cfg calls calls' now now' m db {row} found =
    let rows : List MonitorCheck = waiting_rows db m in
    elim (List-cases rows) [
      | inl e ↦ (db, rw e (idle_run cfg calls now m db e), idle_run cfg calls' now' m db e)
      | inr (c, cs, e) ↦
          let seen : Db = interpret_all cfg calls row rows db in
          (
            finish now rows seen,
            busy_run cfg calls now m db e found,
            idle_run cfg calls' now' m (finish now rows seen)
                (waiting-finish now m db seen (interpret_all-checks cfg calls row rows db)),
          )
    ]
