-- ===== src/Windows/Runs.antt =====
-- Runs of the status transitions, `runStatusTransitions`
-- (src/lib/server/services/maintenance-window.service.ts).
use uppity.Base.{
  ℕ, ◌≤◌, ◌≡◌, refl, Bool, false, ◌&&◌, ◌||◌, List, [], ◌∷◌, arith, Bool-cases, inl, inr, ltb, leb,
  if◌then◌else◌, count_where, first_where, update_where, is_some, any, update_where-none,
}
use uppity.Tables.{Db, MaintenanceWindow, WindowMonitor, in_progress, completed}
use uppity.Windows.{
  run_status_transitions, set_status, is_scheduled, is_in_progress, starts_now, ends_now,
  find_active_window, covers,
}

-- A window, scheduled or in progress, that covers the monitor, has started and ends later.
module _ (now : ℕ) where
  abbrev pub spans : List WindowMonitor → ℕ → MaintenanceWindow → Bool
  spans links m w =
      covers links m w
      && (is_scheduled w.status || is_in_progress w.status)
      && leb w.starts_at now
      && ltb now w.ends_at

  abbrev holds_alerts : List WindowMonitor → ℕ → MaintenanceWindow → Bool
  holds_alerts links m w =
      covers links m w && is_in_progress w.status && leb w.starts_at now && leb now w.ends_at

module _ (now stamp : ℕ) where
  -- A row after both updates of a run.
  abbrev started : MaintenanceWindow → MaintenanceWindow
  started w = if starts_now now w then set_status in_progress stamp w else w

  abbrev ended : MaintenanceWindow → MaintenanceWindow
  ended w = if ends_now now w then set_status completed stamp w else w

  not_starting :
      (now' : ℕ) (w : MaintenanceWindow) → now' ≤ now → starts_now now' (ended (started w)) ≡ false
  not_starting now' w h = ground arith

  not_ending :
      (now' : ℕ) (w : MaintenanceWindow) → now' ≤ now → ends_now now' (ended (started w)) ≡ false
  not_ending now' w h = ground arith

  spans-run :
      (links : List WindowMonitor) (m : ℕ) (w : MaintenanceWindow)
      → holds_alerts now links m (ended (started w)) ≡ spans now links m w
  spans-run links m w = ground arith

  -- Both updates of a run.
  abbrev run_rows : List MaintenanceWindow → List MaintenanceWindow
  run_rows ws =
      update_where (ends_now now) (set_status completed stamp)
        (update_where (starts_now now) (set_status in_progress stamp) ws)

  none_starting :
      (now' : ℕ) (ws : List MaintenanceWindow)
      → now' ≤ now
      → count_where (starts_now now') (run_rows ws) ≡ 0
  unfolding count_where update_where
  none_starting now' [] h = refl
  none_starting now' (w ∷ ws) h = simp (not_starting now' w h) (none_starting now' ws h)

  none_ending :
      (now' : ℕ) (ws : List MaintenanceWindow)
      → now' ≤ now
      → count_where (ends_now now') (run_rows ws) ≡ 0
  unfolding count_where update_where
  none_ending now' [] h = refl
  none_ending now' (w ∷ ws) h = simp (not_ending now' w h) (none_ending now' ws h)

  found-run :
      (links : List WindowMonitor) (m : ℕ) (ws : List MaintenanceWindow)
      → is_some (first_where (holds_alerts now links m) (run_rows ws)) ≡ any (spans now links m) ws
  unfolding first_where update_where
  found-run links m [] = refl
  found-run links m (w ∷ ws) =
      let here_run = spans-run links m w in
      let rest = found-run links m ws in
      elim (Bool-cases (spans now links m w)) [
        | inl s ↦ simp (here_run, s) refl
        | inr s ↦ simp (here_run, s) rest
      ]

-- After a run at a time, a run at that time or an earlier one starts nothing, completes nothing and
-- changes nothing.
pub run-idempotent :
    (now now' stamp stamp' : ℕ) (db : Db)
    → now' ≤ now
    → let db' = (run_status_transitions now stamp db).0 in
      run_status_transitions now' stamp' db' ≡ (db', 0, 0)
unfolding run_status_transitions
run-idempotent now now' stamp stamp' db h =
    let starting = none_starting now stamp now' db.windows h in
    let ending = none_ending now stamp now' db.windows h in
    rw
      (
        update_where-none (starts_now now') (set_status in_progress stamp') _ starting,
        update_where-none (ends_now now') (set_status completed stamp') _ ending,
        starting,
        ending,
      )
      refl

-- Right after a run at a time, a monitor's alerts are held at that time exactly if a window that
-- was scheduled or in progress before the run covers the monitor, has started by then, and ends
-- after it.
pub run-find_active_window :
    (now stamp m : ℕ) (db : Db)
    → let db' = (run_status_transitions now stamp db).0 in
      is_some (find_active_window db'.windows db'.window_monitors m now)
      ≡ any (spans now db.window_monitors m) db.windows
unfolding run_status_transitions find_active_window
run-find_active_window now stamp m db = found-run now stamp db.window_monitors m db.windows
