-- ===== src/Windows.antt =====
-- Maintenance windows (src/lib/server/services/maintenance-window.service.ts) and the check that
-- monitors belong to an organization (src/lib/server/services/monitor-ownership.ts).
pub mod Proper
pub mod Lifecycle
pub mod Runs
use uppity.Base.{
  ℕ, Bool, true, false, not, ◌&&◌, ◌||◌, Option, none, some, List, [], ◌∷◌, ◌++◌, leb, ltb, ◌==◌,
  any, first_where, rows_where, count_where, update_where, delete_where, length, map, if◌then◌else◌,
  String, trim, is_empty, unique, Result, threw, returned, or_threw, unless, is_none, or_default,
  or_else, holds, order_by,
}
use uppity.Tables.{
  Db, Monitor, WindowStatus, scheduled, in_progress, completed, cancelled, MaintenanceWindow,
  WindowMonitor,
}

abbrev pub is_in_progress : WindowStatus → Bool
is_in_progress in_progress = true
is_in_progress _ = false

abbrev pub covers : List WindowMonitor → ℕ → MaintenanceWindow → Bool
covers links m w = any (λ l. (l.window_id == w.id) && (l.monitor_id == m)) links

-- `findActiveWindow`
unfoldable pub find_active_window :
    List MaintenanceWindow → List WindowMonitor → ℕ → ℕ → Option MaintenanceWindow
find_active_window windows links m at =
    first_where
      (λ w. covers links m w && is_in_progress w.status && leb w.starts_at at && leb at w.ends_at)
      windows

-- `monitorsBelongToOrg`
unfoldable pub monitors_belong_to_org : Db → ℕ → List ℕ → Bool
monitors_belong_to_org db org ids =
    count_where (λ m. (m.organization_id == org) && any (λ i. i == m.id) (unique ids)) db.monitors
    == length (unique ids)

-- `MaintenanceWindowErrorCode`
pub data WindowError : Type 0 where
  not_found name_required end_before_start end_in_past : WindowError
  no_monitors monitor_not_found cannot_cancel_completed not_deletable : WindowError

pub record CreateWindow : Type 0 where
  pub organization_id : ℕ
  pub name : String
  pub description : Option String
  pub starts_at : ℕ
  pub ends_at : ℕ
  pub monitor_ids : List ℕ
  pub created_by : Option ℕ

-- A field that the caller leaves out is `none`.
pub record UpdateWindow : Type 0 where
  pub name : Option String
  pub description : Option String
  pub starts_at : Option ℕ
  pub ends_at : Option ℕ
  pub monitor_ids : Option (List ℕ)

abbrev pub links_of : ℕ → List ℕ → List WindowMonitor
links_of id = map (λ m. record { window_id = id; monitor_id = m })

abbrev pub new_window : ℕ → ℕ → CreateWindow → MaintenanceWindow
new_window now id input = record {
  id = id;
  organization_id = input.organization_id;
  name = trim input.name;
  description = input.description;
  status = scheduled;
  starts_at = input.starts_at;
  ends_at = input.ends_at;
  created_by = input.created_by;
  updated_at = now;
}

abbrev pub insert_window : ℕ → ℕ → CreateWindow → Db → Db
insert_window now id input db = record db {
  windows = new_window now id input ∷ db.windows;
  window_monitors = links_of id (unique input.monitor_ids) ++ db.window_monitors;
}

-- `create`; `id` is the new identifier
unfoldable pub create : ℕ → ℕ → CreateWindow → Db → Result WindowError (Db × MaintenanceWindow)
create now id input db =
    if is_empty (trim input.name)
    then threw name_required
    else if leb input.ends_at input.starts_at
    then threw end_before_start
    else if leb input.ends_at now
    then threw end_in_past
    else if length input.monitor_ids == 0
    then threw no_monitors
    else if not (monitors_belong_to_org db input.organization_id (unique input.monitor_ids))
    then threw monitor_not_found
    else returned (insert_window now id input db, new_window now id input)

abbrev pub is_window : ℕ → ℕ → MaintenanceWindow → Bool
is_window id org w = (w.id == id) && (w.organization_id == org)

-- `const [existing] = …`
unfoldable pub find_window : Db → ℕ → ℕ → Option MaintenanceWindow
find_window db id org = first_where (is_window id org) db.windows

-- `updateData`
abbrev pub updated_window : ℕ → UpdateWindow → MaintenanceWindow → MaintenanceWindow
updated_window now input w = record w {
  name = elim input.name [ none ↦ w.name | some n ↦ trim n ];
  description = or_else input.description w.description;
  starts_at = or_default input.starts_at w.starts_at;
  ends_at = or_default input.ends_at w.ends_at;
  updated_at = now;
}

-- The checks of `monitorIds`, when it is given.
abbrev pub monitors_error : Db → ℕ → Option (List ℕ) → Option WindowError
monitors_error db org none = none
monitors_error db org (some ids) =
    if length ids == 0
    then some no_monitors
    else if not (monitors_belong_to_org db org (unique ids))
    then some monitor_not_found
    else none

abbrev pub relinked : ℕ → Option (List ℕ) → List WindowMonitor → List WindowMonitor
relinked id none links = links
relinked id (some ids) links =
    links_of id (unique ids) ++ delete_where (λ l. l.window_id == id) links

abbrev pub write_update : ℕ → ℕ → ℕ → UpdateWindow → Db → Db
write_update now id org input db = record db {
  windows = update_where (is_window id org) (updated_window now input) db.windows;
  window_monitors = relinked id input.monitor_ids db.window_monitors;
}

abbrev pub update_found :
    ℕ → ℕ → ℕ → UpdateWindow → Db → MaintenanceWindow → Result WindowError (Db × MaintenanceWindow)
update_found now id org input db w =
    if leb (or_default input.ends_at w.ends_at) (or_default input.starts_at w.starts_at)
    then threw end_before_start
    else if holds (λ n. is_empty (trim n)) input.name
    then threw name_required
    else unless (monitors_error db org input.monitor_ids)
        (write_update now id org input db, updated_window now input w)

-- `update`
unfoldable pub update : ℕ → ℕ → ℕ → UpdateWindow → Db → Result WindowError (Db × MaintenanceWindow)
update now id org input db =
    or_threw (find_window db id org) not_found (update_found now id org input db)

abbrev pub set_status : WindowStatus → ℕ → MaintenanceWindow → MaintenanceWindow
set_status s now w = record w { status = s; updated_at = now }

abbrev pub cancel_found :
    ℕ → ℕ → ℕ → Db → MaintenanceWindow → WindowStatus → Result WindowError (Db × MaintenanceWindow)
cancel_found now id org db w completed = threw cannot_cancel_completed
cancel_found now id org db w cancelled = returned (db, w)
cancel_found now id org db w _ = returned (
  record db { windows = update_where (is_window id org) (set_status cancelled now) db.windows },
  set_status cancelled now w,
)

-- `cancel`
unfoldable pub cancel : ℕ → ℕ → ℕ → Db → Result WindowError (Db × MaintenanceWindow)
cancel now id org db =
    or_threw (find_window db id org) not_found (λ w. cancel_found now id org db w w.status)

abbrev pub is_scheduled : WindowStatus → Bool
is_scheduled scheduled = true
is_scheduled _ = false

-- The deletion cascades to the links (`mwm_window_fk`).
abbrev pub remove_window : ℕ → ℕ → Db → Db
remove_window id org db = record db {
  windows = delete_where (is_window id org) db.windows;
  window_monitors = delete_where (λ l. l.window_id == id) db.window_monitors;
}

-- `delete`
unfoldable pub delete : ℕ → ℕ → Db → Result WindowError Db
delete id org db =
    or_threw (find_window db id org) not_found (λ w.
      if is_scheduled w.status then returned (remove_window id org db) else threw not_deletable)

-- `findById`
unfoldable pub find_by_id : Db → ℕ → ℕ → Option (MaintenanceWindow × List ℕ)
find_by_id db id org = elim (find_window db id org) [
  | none ↦ none
  | some w ↦
      some (w, map (λ l. l.monitor_id) (rows_where (λ l. l.window_id == id) db.window_monitors))
]

-- `listByOrg`: each window with its number of monitors, the latest start first
unfoldable pub list_by_org : Db → ℕ → List (MaintenanceWindow × ℕ)
list_by_org db org =
    map (λ w. (w, count_where (λ l. l.window_id == w.id) db.window_monitors))
      (order_by (λ v w. leb w.starts_at v.starts_at)
        (rows_where (λ w. w.organization_id == org) db.windows))

abbrev pub starts_now : ℕ → MaintenanceWindow → Bool
starts_now now w = is_scheduled w.status && leb w.starts_at now

abbrev pub ends_now : ℕ → MaintenanceWindow → Bool
ends_now now w = is_in_progress w.status && leb w.ends_at now

-- `runStatusTransitions`: the database, how many windows started, and how many were completed.
-- `now` is the time that decides, `stamp` the clock.
unfoldable pub run_status_transitions : ℕ → ℕ → Db → Db × ℕ × ℕ
run_status_transitions now stamp db =
    let started = update_where (starts_now now) (set_status in_progress stamp) db.windows in
    let ended = update_where (ends_now now) (set_status completed stamp) started in
    (
      record db { windows = ended },
      count_where (starts_now now) db.windows,
      count_where (ends_now now) started,
    )
