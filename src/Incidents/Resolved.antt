-- ===== src/Incidents/Resolved.antt =====
-- The announcements that an incident is resolved (src/lib/server/services/incident.service.ts).
use mathlib.Core.Path.{subst, sym}
use uppity.Base.{
  ℕ, ◌+◌, ◌≤◌, ◌≡◌, refl, Bool, true, false, not, ◌&&◌, Option, none, some, List, [], ◌∷◌, unique,
  ◌⊎◌, arith, any, count_where, update_where, first_where, ◌==◌, Bool-cases, inl, inr,
  first_where-holds, count_where-delete_le, ltb,
}
use uppity.Tables.{Db, Incident, NotificationEvent, NotificationType, incident_resolved}
use uppity.Alerts.{is_active}
use uppity.Incidents.Calls.{Call, creates, updates, posts, rewrites, deletes, perform, perform_all}
use uppity.Windows.{monitors_belong_to_org}
use uppity.Incidents.{
  Stamps, CreateIncident, UpdateIncident, AddUpdate, create_incident, update_incident, add_update,
  update_postmortem, delete_incident, is_incident, find_by_id_and_org, names_incident, patched,
  announce_flip, update_existing, takes_update, moved, announce_update, add_existing,
  is_flipping_to_resolved, is_resolved,
}

abbrev pub is_resolution : NotificationType → Bool
is_resolution incident_resolved = true
is_resolution _ = false

abbrev pub announces : ℕ → ℕ → NotificationEvent → Bool
announces k o e = is_resolution e.type && names_incident k e.incident_id && (e.organization_id == o)

-- The announcements that this incident is resolved.
abbrev pub announcements : ℕ → ℕ → Db → ℕ
announcements k o db = count_where (announces k o) db.events

abbrev pub is_open : ℕ → ℕ → Db → Bool
is_open k o db = any (λ i. is_incident k o i && is_active i) db.incidents

abbrev pub count : Bool → ℕ
count true = 1
count false = 0

-- How often the incident is opened, or opened again, by the calls.
unfoldable pub openings : ℕ → ℕ → List Call → Db → ℕ
unfolding perform
openings k o [] db = 0
openings k o (c ∷ cs) db =
    count (not (is_open k o db) && is_open k o (perform c db)) + openings k o cs (perform c db)

-- A call announces the end of the incident at most once, and only as it closes it.
abbrev pub Closes : ℕ → ℕ → Db → Db → Type 0
Closes k o db db' =
    (announcements k o db' ≤ announcements k o db)
    ⊎ ((announcements k o db' ≤ announcements k o db + 1)
        × (is_open k o db ≡ true)
        × (is_open k o db' ≡ false))

module _ (k o : ℕ) where
  -- An update that closes every row of the incident.
  closed :
      (p : Incident → Bool) (f : Incident → Incident) (is : List Incident)
      → ((i : Incident) → p i ≡ true → is_active (f i) ≡ false)
      → ((i : Incident) → p i ≡ false → (is_incident k o i && is_active i) ≡ false)
      → any (λ i. is_incident k o i && is_active i) (update_where p f is) ≡ false
  unfolding update_where
  closed p f [] h g = refl
  closed p f (i ∷ is) h g = ground (arith, h i, g i, closed p f is h g)

  found_open :
      (p : Incident → Bool) (is : List Incident) {i : Incident}
      → first_where p is ≡ some i
      → (is_incident k o i && is_active i) ≡ true
      → any (λ j. is_incident k o j && is_active j) is ≡ true
  unfolding first_where
  found_open p [] e h = cc
  found_open p (j ∷ is) {i} e h = elim (Bool-cases (p j)) [
    | inl t ↦
        let same : j ≡ i = ground arith in
        rw (subst (λ x. (is_incident k o x && is_active x) ≡ true) (sym same) h) refl
    | inr t ↦
        let later : first_where p is ≡ some i = ground arith in
        ground (arith, found_open p is later h)
  ]

  announce_flip-quiet :
      (s : Stamps) (db : Db) (u : Option Incident)
      → announcements k o (announce_flip s false db u) ≡ announcements k o db
  announce_flip-quiet s db none = refl
  announce_flip-quiet s db (some u) = refl

  -- What `update` writes, when it finds the incident and resolves it.
  flipped-Closes :
      (s : Stamps) (id org : ℕ) (input : UpdateIncident) (db written : Db) (existing : Incident)
      (row : Option Incident)
      → written ≡ record db {
        incidents = update_where (is_incident id org) (patched s.now true input) db.incidents;
      }
      → first_where (is_incident id org) db.incidents ≡ some existing
      → is_flipping_to_resolved input existing ≡ true
      → first_where (is_incident id org) written.incidents ≡ row
      → Closes k o db (announce_flip s true written row)
  unfolding count_where
  flipped-Closes s id org input db written existing none w e t r = inl (ground arith)
  flipped-Closes s id org input db written existing (some u) w e t r =
      let ours = first_where-holds (is_incident id org) db.incidents e in
      let same = first_where-holds (is_incident id org) written.incidents r in
      elim (Bool-cases (is_incident k o u)) [
        | inl y ↦ inr (
          ground arith,
          found_open (is_incident id org) db.incidents e (ground arith),
          rw w (
              closed (is_incident id org) (patched s.now true input) db.incidents
                (λ i h. ground arith) (λ i h. ground arith)),
        )
        | inr n ↦ inl (ground arith)
      ]

  update-Closes :
      (s : Stamps) (id org : ℕ) (input : UpdateIncident) (db : Db)
      → Closes k o db (update_incident s id org input db).0
  unfolding update_incident find_by_id_and_org
  update-Closes s id org input db = go (first_where (is_incident id org) db.incidents) refl
    where
      go :
          (found : Option Incident)
          → first_where (is_incident id org) db.incidents ≡ found
          → Closes k o db (update_existing s id org input db found)
      go none e = inl (omega arith)
      go (some existing) e = elim (Bool-cases (is_flipping_to_resolved input existing)) [
        | inl t ↦ rw t (flipped-Closes s id org input db _ existing _ refl e t refl)
        | inr t ↦ rw t (inl (omega (arith, announce_flip-quiet s _ _)))
      ]

  -- What `addUpdate` writes, when it finds the incident.
  posted-Closes :
      (s : Stamps) (input : AddUpdate) (db written : Db) (row : Option Incident)
      → written.events ≡ db.events
      → written.incidents
        ≡ update_where (takes_update input) (moved s.now input.status) db.incidents
      → first_where (takes_update input) db.incidents ≡ row
      → Closes k o db (announce_update s input written row)
  unfolding count_where
  posted-Closes s input db written none v w r = inl (ground arith)
  posted-Closes s input db written (some u) v w r =
      let taken = first_where-holds (takes_update input) db.incidents r in
      elim (Bool-cases (is_resolved input.status && is_incident k o u)) [
        | inl y ↦
            let shut =
              closed (takes_update input) (moved s.now input.status) db.incidents
                (λ i h. ground arith) (λ i h. ground arith) in
            inr (
              ground arith,
              found_open (takes_update input) db.incidents r (ground arith),
              ground (arith, w, shut),
            )
        | inr n ↦ inl (ground arith)
      ]

  add-Closes : (s : Stamps) (input : AddUpdate) (db : Db) → Closes k o db (add_update s input db).0
  unfolding add_update find_by_id_and_org
  add-Closes s input db = go _
    where
      go : (found : Option Incident) → Closes k o db (add_existing s input db found).0
      go none = inl (omega arith)
      go (some existing) = posted-Closes s input db _ _ refl refl refl

  create-Closes :
      (s : Stamps) (input : CreateIncident) (db : Db) → Closes k o db (perform (creates s input) db)
  unfolding perform create_incident count_where
  create-Closes s input db =
      elim (Bool-cases
        (not (monitors_belong_to_org db input.organization_id (unique input.monitor_ids)))) [
          | inl t ↦ rw t (inl (omega arith))
          | inr t ↦ rw t (inl (ground arith))
        ]

  delete-Closes : (id org : ℕ) (db : Db) → Closes k o db (delete_incident id org db).0
  unfolding delete_incident
  delete-Closes id org db =
      elim (Bool-cases (ltb 0 (count_where (is_incident id org) db.incidents))) [
        | inl t ↦ rw t (inl (count_where-delete_le (announces k o) _ db.events))
        | inr t ↦ rw t (inl (omega arith))
      ]

  perform-Closes : (c : Call) (db : Db) → Closes k o db (perform c db)
  unfolding perform update_postmortem
  perform-Closes (creates s input) db = create-Closes s input db
  perform-Closes (updates s id org input) db = update-Closes s id org input db
  perform-Closes (posts s input) db = add-Closes s input db
  perform-Closes (rewrites id org update_id message) db = inl (omega arith)
  perform-Closes (deletes id org) db = delete-Closes id org db

-- After any calls of the service, the announcements that an incident is resolved are at most those
-- there were before, one more if the incident was open before, and one for each time that a call
-- opened it, by creating it or by taking it back from an ended state; an incident that is open
-- after the calls has one announcement fewer still.
pub perform_all-announcements :
    (k o : ℕ) (cs : List Call) (db : Db)
    → announcements k o (perform_all cs db) + count (is_open k o (perform_all cs db))
      ≤ announcements k o db + count (is_open k o db) + openings k o cs db
unfolding perform_all openings
perform_all-announcements k o [] db = omega arith
perform_all-announcements k o (c ∷ cs) db =
    let rest = perform_all-announcements k o cs (perform c db) in
    ground (arith, perform-Closes k o c db, rest)
