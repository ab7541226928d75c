-- ===== src/Tests/HumanIncidents.antt =====
-- Incidents that people manage, at the sample.
use uppity.Base.{
  ℕ, ◌≡◌, ◌≤◌, ◌+◌, refl, false, none, some, [], ◌∷◌, List, count_where, first_where, update_where,
  unique_by,
}
use uppity.Tables.{Db, resolved, identified}
use uppity.Windows.{monitors_belong_to_org}
use uppity.Incidents.{
  Stamps, CreateIncident, UpdateIncident, AddUpdate, create_incident, update_incident, add_update,
  update_postmortem, delete_incident, find_by_id_and_org, find_with_details,
}
use uppity.Incidents.Calls.{Call, creates, updates, posts, perform, perform_all}
use uppity.Incidents.Foreign.{IsForeign, find_by_id_and_org-foreign}
use uppity.Incidents.Naming.{AreOwned}
use uppity.Incidents.Owned.{perform_all-AreOwned}
use uppity.Incidents.Resolved.{perform_all-announcements, announcements, is_open, count, openings}
use uppity.Tests.Sample.{sample}

abbrev stamps : ℕ → Stamps
stamps n = record { now = n; stamp = n; incident_id = 50; update_id = n + 1; event_id = n + 2 }

abbrev outage : CreateIncident
outage = record {
  organization_id = 7;
  title = "outage";
  status = none;
  impact = none;
  message = "we look into it";
  monitor_ids = 1 ∷ 1 ∷ [];
  created_by = some 9;
  is_auto_created = none;
}

abbrev note : AddUpdate
note = record {
  incident_id = 50;
  organization_id = 7;
  status = identified;
  message = "found";
  created_by = some 9;
}

abbrev closing : UpdateIncident
closing = record { title = none; status = some resolved; impact = none }

-- Opened, resolved, opened again by an entry, resolved by an entry, resolved once more.
abbrev history : List Call
history =
    creates (stamps 100) outage
    ∷ updates (stamps 200) 50 7 closing
    ∷ posts (stamps 300) note
    ∷ posts (stamps 400) (record note { status = resolved })
    ∷ posts (stamps 500) (record note { status = resolved })
    ∷ []

two_announcements : announcements 50 7 (perform_all history sample) ≡ 2
unfolding perform_all perform count_where add_update find_by_id_and_org first_where update_incident
    create_incident monitors_belong_to_org unique_by update_where
two_announcements = refl

two_openings : openings 50 7 history sample ≡ 2
unfolding openings perform create_incident monitors_belong_to_org count_where unique_by
    update_incident find_by_id_and_org first_where update_where add_update
two_openings = refl

perform_all-announcements_example :
    announcements 50 7 (perform_all history sample)
      + count (is_open 50 7 (perform_all history sample))
    ≤ announcements 50 7 sample + count (is_open 50 7 sample) + openings 50 7 history sample
perform_all-announcements_example = perform_all-announcements 50 7 history sample

perform_all-AreOwned_example : AreOwned (perform_all history sample)
perform_all-AreOwned_example =
    perform_all-AreOwned history sample (record { events = tt; entries = tt })

abbrev opened : Db
opened = perform (creates (stamps 100) outage) sample

not_of_8 : IsForeign 50 8 opened.incidents
unfolding perform first_where create_incident monitors_belong_to_org count_where unique_by
not_of_8 = (λ e. refl, tt)

find_by_id_and_org-foreign_example :
    (find_by_id_and_org 50 8 opened ≡ none)
    × (find_with_details 50 8 opened ≡ none)
    × (update_incident (stamps 200) 50 8 closing opened ≡ (opened, none))
    × (add_update (stamps 200) (record note { organization_id = 8 }) opened ≡ (opened, none))
    × (update_postmortem 50 8 101 "mine" opened ≡ (opened, none))
    × (delete_incident 50 8 opened ≡ (opened, false))
find_by_id_and_org-foreign_example =
    find_by_id_and_org-foreign (stamps 200) 50 8 closing (record note { organization_id = 8 }) 101
      "mine" opened not_of_8 refl refl
