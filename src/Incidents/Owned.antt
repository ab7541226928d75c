-- ===== src/Incidents/Owned.antt =====
-- What names an incident (src/lib/server/services/incident.service.ts).
use uppity.Base.{
  ◌∙◌, ℕ, ◌≡◌, refl, Bool, true, false, not, Option, none, some, List, [], ◌∷◌, arith, count_where,
  update_where, delete_where-none, first_where, ◌==◌, ==_refl, Bool-cases, inl, inr, ltb, unique,
}
use uppity.Tables.{Db, Incident}
use uppity.Windows.{monitors_belong_to_org}
use uppity.Incidents.Calls.{Call, creates, updates, posts, rewrites, deletes, perform, perform_all}
use uppity.Incidents.{
  new_incident, Stamps, CreateIncident, UpdateIncident, AddUpdate, create_incident, update_incident,
  add_update, update_postmortem, delete_incident, is_incident, find_by_id_and_org, patched,
  announce_flip, update_existing, takes_update, moved, announce_update, add_existing,
  is_flipping_to_resolved, is_postmortem,
}
use uppity.Incidents.Naming.{
  AreNamed-kept, AreWritten-kept, is_there, AreOwned, any-update_where, found_there, any-found,
  rewritten, named-deleted, written-deleted,
}

module _ (p : Incident → Bool) (f : Incident → Incident) where
  -- An update of incidents that keeps their keys and organizations.
  AreOwned-updated :
      (db : Db)
      → ((i : Incident) → (f i).id ≡ i.id)
      → ((i : Incident) → (f i).organization_id ≡ i.organization_id)
      → AreOwned db
      → AreOwned (record db { incidents = update_where p f db.incidents })
  AreOwned-updated db ids orgs h = record {
    events =
        AreNamed-kept db.incidents _
          (λ k o t.
            any-update_where (is_incident k o) p f db.incidents (λ i. simp (ids i, orgs i) refl)
            ∙ t)
          db.events h.events;
    entries =
        AreWritten-kept db.incidents _
          (λ k t. any-update_where (λ i. i.id == k) p f db.incidents (λ i. simp (ids i) refl) ∙ t)
          db.incident_updates h.entries;
  }

announce_flip-AreOwned :
    (s : Stamps) (flips : Bool) (id org : ℕ) (db : Db) (row : Option Incident)
    → first_where (is_incident id org) db.incidents ≡ row
    → AreOwned db
    → AreOwned (announce_flip s flips db row)
announce_flip-AreOwned s flips id org db none e h = h
announce_flip-AreOwned s false id org db (some u) e h = h
announce_flip-AreOwned s true id org db (some u) e h = record {
  events = (found_there (is_incident id org) db.incidents e, h.events);
  entries = h.entries;
}

update-AreOwned :
    (s : Stamps) (id org : ℕ) (input : UpdateIncident) (db : Db)
    → AreOwned db
    → AreOwned (update_incident s id org input db).0
unfolding update_incident find_by_id_and_org
update-AreOwned s id org input db h = go _
  where
    go : (found : Option Incident) → AreOwned (update_existing s id org input db found)
    go none = h
    go (some existing) =
        let flips : Bool = is_flipping_to_resolved input existing in
        announce_flip-AreOwned s flips id org _ _ refl (
          AreOwned-updated (is_incident id org) (patched s.now flips input) db (λ i. refl)
            (λ i. refl) h)

announce_update-AreOwned :
    (s : Stamps) (input : AddUpdate) (db : Db) (row : Option Incident)
    → ((u : Incident) → row ≡ some u → is_there db.incidents u.id u.organization_id ≡ true)
    → AreOwned db
    → AreOwned (announce_update s input db row)
announce_update-AreOwned s input db none e h = h
announce_update-AreOwned s input db (some u) e h = elim (Bool-cases (is_postmortem input.status)) [
  | inl t ↦ rw t h
  | inr t ↦ rw t (record { events = (e u refl, h.events); entries = h.entries })
]

add-AreOwned :
    (s : Stamps) (input : AddUpdate) (db : Db) → AreOwned db → AreOwned (add_update s input db).0
unfolding add_update find_by_id_and_org
add-AreOwned s input db h =
    go (first_where (is_incident input.incident_id input.organization_id) db.incidents) refl
  where
    go :
        (found : Option Incident)
        → first_where (is_incident input.incident_id input.organization_id) db.incidents ≡ found
        → AreOwned (add_existing s input db found).0
    go none e = h
    go (some existing) e =
        let kept =
          AreOwned-updated (takes_update input) (moved s.now input.status) db (λ i. refl)
            (λ i. refl) h in
        announce_update-AreOwned s input _ _
          (λ u r.
            any-update_where (is_incident u.id u.organization_id) (takes_update input)
              (moved s.now input.status) db.incidents (λ i. refl)
            ∙ found_there (takes_update input) db.incidents r)
          (record {
            events = kept.events;
            entries = (
              any-update_where (λ i. i.id == input.incident_id) (takes_update input)
                    (moved s.now input.status) db.incidents (λ i. refl)
                  ∙ any-found (is_incident input.incident_id input.organization_id) _ db.incidents
                      (λ i t. ground arith) e,
              kept.entries,
            );
          })

create-AreOwned :
    (s : Stamps) (input : CreateIncident) (db : Db)
    → AreOwned db
    → AreOwned (perform (creates s input) db)
unfolding perform create_incident
create-AreOwned s input db h =
    elim (Bool-cases
      (not (monitors_belong_to_org db input.organization_id (unique input.monitor_ids)))) [
        | inl t ↦ rw (perform, t) h
        | inr t ↦
            rw (perform, t)
              (record {
                events = (
                  simp (==_refl s.incident_id, ==_refl input.organization_id) refl,
                  AreNamed-kept db.incidents (new_incident s input ∷ db.incidents)
                      (λ k o t. ground arith) db.events h.events,
                );
                entries = (
                  simp (==_refl s.incident_id) refl,
                  AreWritten-kept db.incidents (new_incident s input ∷ db.incidents)
                      (λ k t. ground arith) db.incident_updates h.entries,
                );
              })
      ]

delete-AreOwned : (id org : ℕ) (db : Db) → AreOwned db → AreOwned (delete_incident id org db).0
unfolding delete_incident
delete-AreOwned id org db h =
    elim (Bool-cases (ltb 0 (count_where (is_incident id org) db.incidents))) [
      | inl t ↦ rw t (record {
        events = named-deleted id org db.incidents db.events h.events;
        entries = written-deleted id org db.incidents db.incident_updates h.entries;
      })
      | inr t ↦
          let absent : count_where (is_incident id org) db.incidents ≡ 0 = ground arith in
          rw (t, delete_where-none (is_incident id org) db.incidents absent) h
    ]

perform-AreOwned : (c : Call) (db : Db) → AreOwned db → AreOwned (perform c db)
unfolding perform update_postmortem
perform-AreOwned (creates s input) db h = create-AreOwned s input db h
perform-AreOwned (updates s id org input) db h = update-AreOwned s id org input db h
perform-AreOwned (posts s input) db h = add-AreOwned s input db h
perform-AreOwned (rewrites id org update_id message) db h = record {
  events = h.events;
  entries = rewritten db.incidents _ message db.incident_updates h.entries;
}
perform-AreOwned (deletes id org) db h = delete-AreOwned id org db h

-- If every event that names an incident is of the organization that owns it and every entry of a
-- timeline belongs to an incident, then both hold after any calls of the service, a call that
-- deletes an incident included.
pub perform_all-AreOwned : (cs : List Call) (db : Db) → AreOwned db → AreOwned (perform_all cs db)
unfolding perform_all
perform_all-AreOwned [] db h = h
perform_all-AreOwned (c ∷ cs) db h =
    perform_all-AreOwned cs (perform c db) (perform-AreOwned c db h)
