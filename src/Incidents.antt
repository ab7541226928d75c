-- ===== src/Incidents.antt =====
-- Incidents that people manage (src/lib/server/services/incident.service.ts).
pub mod Calls
pub mod Foreign
pub mod Naming
pub mod Owned
pub mod Resolved
use uppity.Base.{
  ℕ, String, Bool, true, false, not, ◌&&◌, ◌||◌, Option, none, some, List, [], ◌∷◌, ◌++◌, map, leb,
  ltb, ◌==◌, if◌then◌else◌, is_some, or_default, holds, any, length, first_where, rows_where,
  count_where, update_where, delete_where, unique, order_by, Result, threw, returned,
}
use uppity.Tables.{
  Db, Monitor, MonitorType, Incident, IncidentMonitor, IncidentUpdate, IncidentStatus,
  IncidentImpact, investigating, resolved, postmortem, minor, NotificationEvent, NotificationType,
  incident_created, incident_updated, incident_resolved, pending, Content, incident_change,
}
use uppity.Alerts.{is_ended, is_active}
use uppity.Windows.{monitors_belong_to_org}

-- What the platform returns to one call: the clock, the database's clock and the new identifiers.
pub record Stamps : Type 0 where
  pub now : ℕ
  pub stamp : ℕ
  pub incident_id : ℕ
  pub update_id : ℕ
  pub event_id : ℕ

-- `CreateIncidentInput`; a field that the caller leaves out is `none`.
pub record CreateIncident : Type 0 where
  pub organization_id : ℕ
  pub title : String
  pub status : Option IncidentStatus
  pub impact : Option IncidentImpact
  pub message : String
  pub monitor_ids : List ℕ
  pub created_by : Option ℕ
  pub is_auto_created : Option Bool

-- `UpdateIncidentInput`
pub record UpdateIncident : Type 0 where
  pub title : Option String
  pub status : Option IncidentStatus
  pub impact : Option IncidentImpact

-- `AddUpdateInput`
pub record AddUpdate : Type 0 where
  pub incident_id : ℕ
  pub organization_id : ℕ
  pub status : IncidentStatus
  pub message : String
  pub created_by : Option ℕ

-- The columns of a monitor that an incident shows.
pub record AffectedMonitor : Type 0 where
  pub id : ℕ
  pub name : String
  pub type : MonitorType

pub record IncidentWithDetails : Type 0 where
  pub incident : Incident
  pub updates : List IncidentUpdate
  pub affected_monitors : List AffectedMonitor

-- The error of `create`.
pub data IncidentError : Type 0 where
  monitor_not_found : IncidentError

abbrev pub is_resolved : IncidentStatus → Bool
is_resolved resolved = true
is_resolved _ = false

abbrev pub is_postmortem : IncidentStatus → Bool
is_postmortem postmortem = true
is_postmortem _ = false

-- The row that `enqueueIncidentEvent` inserts.
abbrev pub incident_event : Stamps → NotificationType → Incident → Content → NotificationEvent
incident_event s type i content = record {
  id = s.event_id;
  organization_id = i.organization_id;
  monitor_id = none;
  incident_id = some i.id;
  type = type;
  payload = record { content = content; retry = none; mail_server_down = none };
  status = pending;
  claimed_at = none;
  processed_at = none;
  error_message = none;
  created_at = s.stamp;
}

-- `enqueueIncidentEvent`
abbrev pub enqueue_incident_event : Stamps → NotificationType → Incident → Content → Db → Db
enqueue_incident_event s type i content db = record db {
  events = incident_event s type i content ∷ db.events;
}

abbrev pub new_incident : Stamps → CreateIncident → Incident
new_incident s input = record {
  id = s.incident_id;
  organization_id = input.organization_id;
  title = input.title;
  status = or_default input.status investigating;
  impact = or_default input.impact minor;
  started_at = s.now;
  resolved_at = none;
  created_by = input.created_by;
  is_auto_created = or_default input.is_auto_created false;
  created_at = s.stamp;
  updated_at = s.stamp;
}

abbrev pub new_update : Stamps → ℕ → IncidentStatus → String → Option ℕ → IncidentUpdate
new_update s incident_id status message created_by = record {
  id = s.update_id;
  incident_id = incident_id;
  status = status;
  message = message;
  created_by = created_by;
  created_at = s.stamp;
}

-- The rows that `create` inserts before its event.
abbrev pub insert_incident : Stamps → CreateIncident → Db → Db
insert_incident s input db = record db {
  incidents = new_incident s input ∷ db.incidents;
  incident_monitors =
      map (λ m. record { incident_id = s.incident_id; monitor_id = m }) (unique input.monitor_ids)
      ++ db.incident_monitors;
  incident_updates =
      new_update s s.incident_id (or_default input.status investigating) input.message
        input.created_by
      ∷ db.incident_updates;
}

-- `create`
unfoldable pub create_incident : Stamps → CreateIncident → Db → Result IncidentError (Db × Incident)
create_incident s input db =
    if not (monitors_belong_to_org db input.organization_id (unique input.monitor_ids))
    then threw monitor_not_found
    else returned (
      enqueue_incident_event s incident_created (new_incident s input) (incident_change none none)
          (insert_incident s input db),
      new_incident s input,
    )

abbrev pub is_incident : ℕ → ℕ → Incident → Bool
is_incident id org i = (i.id == id) && (i.organization_id == org)

-- `findByIdAndOrg`
unfoldable pub find_by_id_and_org : ℕ → ℕ → Db → Option Incident
find_by_id_and_org id org db = first_where (is_incident id org) db.incidents

-- `findByOrganization`, the last started first
unfoldable pub find_by_organization : ℕ → Bool → Db → List Incident
find_by_organization org include_resolved db =
    order_by (λ i j. leb j.started_at i.started_at)
      (rows_where (λ i. (i.organization_id == org) && (include_resolved || is_active i))
        db.incidents)

-- `getUpdates`, the last written first
unfoldable pub get_updates : ℕ → Db → List IncidentUpdate
get_updates id db =
    order_by (λ u v. leb v.created_at u.created_at)
      (rows_where (λ u. u.incident_id == id) db.incident_updates)

-- The inner join of the links with the monitors; a link has a key, so a monitor comes once.
abbrev pub monitors_affected : ℕ → ℕ → Db → List AffectedMonitor
monitors_affected id org db =
    map (λ m. record { id = m.id; name = m.name; type = m.type })
      (rows_where
        (λ m.
          (m.organization_id == org)
          && any (λ l. (l.incident_id == id) && (l.monitor_id == m.id)) db.incident_monitors)
        db.monitors)

abbrev pub with_details : ℕ → ℕ → Db → Option Incident → Option IncidentWithDetails
with_details id org db none = none
with_details id org db (some i) = some record {
  incident = i;
  updates = get_updates id db;
  affected_monitors = monitors_affected id org db;
}

-- `findWithDetails`
unfoldable pub find_with_details : ℕ → ℕ → Db → Option IncidentWithDetails
find_with_details id org db = with_details id org db (find_by_id_and_org id org db)

-- `isFlippingToResolved`
abbrev pub is_flipping_to_resolved : UpdateIncident → Incident → Bool
is_flipping_to_resolved input existing =
    holds is_resolved input.status && not (is_ended existing.status)

abbrev pub patched : ℕ → Bool → UpdateIncident → Incident → Incident
patched now flips input i = record i {
  title = or_default input.title i.title;
  status = or_default input.status i.status;
  impact = or_default input.impact i.impact;
  updated_at = now;
  resolved_at = if flips then some now else i.resolved_at;
}

-- The event of `update`, after the row that it returns.
abbrev pub announce_flip : Stamps → Bool → Db → Option Incident → Db
announce_flip s flips db none = db
announce_flip s flips db (some u) =
    if flips
    then enqueue_incident_event s incident_resolved u (incident_change none none) db
    else db

abbrev pub update_existing : Stamps → ℕ → ℕ → UpdateIncident → Db → Option Incident → Db
update_existing s id org input db none = db
update_existing s id org input db (some existing) =
    let flips : Bool = is_flipping_to_resolved input existing in
    let written : Db = record db {
      incidents = update_where (is_incident id org) (patched s.now flips input) db.incidents;
    } in
    announce_flip s flips written (find_by_id_and_org id org written)

-- `update`; it returns the row as it is then, or nothing
unfoldable pub update_incident : Stamps → ℕ → ℕ → UpdateIncident → Db → Db × Option Incident
update_incident s id org input db =
    let after : Db = update_existing s id org input db (find_by_id_and_org id org db) in
    (after, find_by_id_and_org id org after)

-- The condition of the update of the incident in `addUpdate`.
abbrev pub takes_update : AddUpdate → Incident → Bool
takes_update input i =
    is_incident input.incident_id input.organization_id i
    && (not (is_postmortem input.status) || is_ended i.status)
    && (not (is_resolved input.status) || is_active i)

abbrev pub moved : ℕ → IncidentStatus → Incident → Incident
moved now status i = record i {
  status = status;
  updated_at = now;
  resolved_at = if is_resolved status then some now else i.resolved_at;
}

-- The event of `addUpdate`, of the row that its update returned.
abbrev pub announce_update : Stamps → AddUpdate → Db → Option Incident → Db
announce_update s input db none = db
announce_update s input db (some i) =
    if is_postmortem input.status
    then db
    else enqueue_incident_event s
        (if is_resolved input.status then incident_resolved else incident_updated) i
        (incident_change (some s.update_id) (some input.message)) db

abbrev pub input_update : Stamps → AddUpdate → IncidentUpdate
input_update s input = new_update s input.incident_id input.status input.message input.created_by

abbrev pub add_existing : Stamps → AddUpdate → Db → Option Incident → Db × Option IncidentUpdate
add_existing s input db none = (db, none)
add_existing s input db (some existing) =
    let written : Db = record db {
      incident_updates = input_update s input ∷ db.incident_updates;
      incidents = update_where (takes_update input) (moved s.now input.status) db.incidents;
    } in
    (
      announce_update s input written (first_where (takes_update input) db.incidents),
      some (input_update s input),
    )

-- `addUpdate`
unfoldable pub add_update : Stamps → AddUpdate → Db → Db × Option IncidentUpdate
add_update s input db =
    add_existing s input db (find_by_id_and_org input.incident_id input.organization_id db)

-- The condition of `updatePostmortem`, with its subquery `ownedIncident`.
abbrev pub is_owned_postmortem : ℕ → ℕ → ℕ → Db → IncidentUpdate → Bool
is_owned_postmortem id org update_id db u =
    (u.id == update_id)
    && is_postmortem u.status
    && any (λ i. is_incident id org i && (i.id == u.incident_id)) db.incidents

-- `updatePostmortem`
unfoldable pub update_postmortem : ℕ → ℕ → ℕ → String → Db → Db × Option IncidentUpdate
update_postmortem id org update_id message db =
    let owned = is_owned_postmortem id org update_id db in
    let rows = update_where owned (λ u. record u { message = message }) db.incident_updates in
    (record db { incident_updates = rows }, first_where owned rows)

abbrev pub names_incident : ℕ → Option ℕ → Bool
names_incident id incident_id = holds (λ i. i == id) incident_id

-- What goes with a deleted incident, by the foreign keys.
abbrev pub cascade : ℕ → Db → Db
cascade id db = record db {
  incident_monitors = delete_where (λ l. l.incident_id == id) db.incident_monitors;
  incident_updates = delete_where (λ u. u.incident_id == id) db.incident_updates;
  events = delete_where (λ e. names_incident id e.incident_id) db.events;
}

-- `delete`
unfoldable pub delete_incident : ℕ → ℕ → Db → Db × Bool
delete_incident id org db =
    let deleted : ℕ = count_where (is_incident id org) db.incidents in
    let rest : Db = record db { incidents = delete_where (is_incident id org) db.incidents } in
    (if ltb 0 deleted then cascade id rest else rest, ltb 0 deleted)
