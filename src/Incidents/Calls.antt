-- ===== src/Incidents/Calls.antt =====
-- Sequences of calls of the service of incidents (src/lib/server/services/incident.service.ts).
use uppity.Base.{ℕ, String, List, [], ◌∷◌, Result, threw, returned}
use uppity.Tables.{Db, Incident}
use uppity.Incidents.{
  IncidentError, Stamps, CreateIncident, UpdateIncident, AddUpdate, create_incident,
  update_incident, add_update, update_postmortem, delete_incident,
}

-- A call of the service, by people.
pub data Call : Type 0 where
  creates : Stamps → CreateIncident → Call
  updates : Stamps → ℕ → ℕ → UpdateIncident → Call
  posts : Stamps → AddUpdate → Call
  rewrites : ℕ → ℕ → ℕ → String → Call
  deletes : ℕ → ℕ → Call

abbrev pub after_create : Db → Result IncidentError (Db × Incident) → Db
after_create db (threw e) = db
after_create db (returned (db', i)) = db'

-- What the call leaves in the database.
unfoldable pub perform : Call → Db → Db
perform (creates s input) db = after_create db (create_incident s input db)
perform (updates s id org input) db = (update_incident s id org input db).0
perform (posts s input) db = (add_update s input db).0
perform (rewrites id org update_id message) db = (update_postmortem id org update_id message db).0
perform (deletes id org) db = (delete_incident id org db).0

unfoldable pub perform_all : List Call → Db → Db
unfolding perform
perform_all [] db = db
perform_all (c ∷ cs) db = perform_all cs (perform c db)
