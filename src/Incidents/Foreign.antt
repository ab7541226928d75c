-- ===== src/Incidents/Foreign.antt =====
-- An incident that is not the caller's (src/lib/server/services/incident.service.ts).
use uppity.Base.{
  All, Bool-cases, inl, inr, true, ℕ, ◌≡◌, refl, String, false, ◌&&◌, none, List, [], ◌∷◌, arith,
  any, count_where, update_where, delete_where-none, first_where, ◌==◌,
}
use uppity.Tables.{Db, Incident, IncidentUpdate}
use uppity.Incidents.{
  Stamps, UpdateIncident, AddUpdate, find_by_id_and_org, find_with_details, update_incident,
  add_update, update_postmortem, delete_incident, is_incident, is_owned_postmortem,
}

uncounted :
    (id org : ℕ) (is : List Incident)
    → first_where (is_incident id org) is ≡ none
    → count_where (is_incident id org) is ≡ 0
unfolding first_where count_where
uncounted id org [] e = refl
uncounted id org (i ∷ is) e = ground (arith, uncounted id org is)

unowned :
    (id org k : ℕ) (is : List Incident)
    → first_where (is_incident id org) is ≡ none
    → any (λ i. is_incident id org i && (i.id == k)) is ≡ false
unfolding first_where
unowned id org k [] e = refl
unowned id org k (i ∷ is) e = ground (arith, unowned id org k is)

unwritten :
    (id org update_id : ℕ) (message : String) (db : Db) (us : List IncidentUpdate)
    → find_by_id_and_org id org db ≡ none
    → let owned = is_owned_postmortem id org update_id db in
      let rows = update_where owned (λ u. record u { message = message }) us in
      (rows ≡ us) × (first_where owned us ≡ none)
unfolding find_by_id_and_org first_where update_where
unwritten id org update_id message db [] e = (refl, refl)
unwritten id org update_id message db (u ∷ us) e =
    let (same, unfound) = unwritten id org update_id message db us e in
    let none_owned = unowned id org u.incident_id db.incidents e in
    (ground (arith, none_owned, same), ground (arith, none_owned, unfound))

absent_count :
    (id org : ℕ) (db : Db)
    → find_by_id_and_org id org db ≡ none
    → count_where (is_incident id org) db.incidents ≡ 0
unfolding find_by_id_and_org
absent_count id org db e = uncounted id org db.incidents e

-- No incident with this id is this organization's.
abbrev pub IsForeign : ℕ → ℕ → List Incident → Type 0
IsForeign id org = All (λ (i : Incident). (i.id == id) ≡ true → (i.organization_id == org) ≡ false)

unfound :
    (id org : ℕ) (is : List Incident)
    → IsForeign id org is
    → first_where (is_incident id org) is ≡ none
unfolding first_where
unfound id org [] h = refl
unfound id org (i ∷ is) (h, hs) = elim (Bool-cases (i.id == id)) [
  | inl e ↦ rw (e, h e) (unfound id org is hs)
  | inr e ↦ rw e (unfound id org is hs)
]

-- For an organization that owns no incident with this id, nothing is read and nothing is written:
-- the incident is not found, its details are not shown, and an update, a timeline entry, a rewritten
-- postmortem and a deletion each return nothing and leave the database as it is, whoever else owns
-- it.
pub find_by_id_and_org-foreign :
    (s : Stamps) (id org : ℕ) (patch : UpdateIncident) (input : AddUpdate) (update_id : ℕ)
    (message : String) (db : Db)
    → IsForeign id org db.incidents
    → input.incident_id ≡ id
    → input.organization_id ≡ org
    → (find_by_id_and_org id org db ≡ none)
      × (find_with_details id org db ≡ none)
      × (update_incident s id org patch db ≡ (db, none))
      × (add_update s input db ≡ (db, none))
      × (update_postmortem id org update_id message db ≡ (db, none))
      × (delete_incident id org db ≡ (db, false))
unfolding find_by_id_and_org find_with_details update_incident add_update update_postmortem
    delete_incident
find_by_id_and_org-foreign s id org patch input update_id message db foreign same_id same_org =
    let e = unfound id org db.incidents foreign in
    let (same, unlisted) = unwritten id org update_id message db db.incident_updates e in
    let absent = absent_count id org db e in
    (
      e,
      rw e refl,
      rw (e, e) refl,
      rw (same_id, same_org, e) refl,
      rw (same, unlisted) refl,
      rw (absent, delete_where-none (is_incident id org) db.incidents absent) refl,
    )
