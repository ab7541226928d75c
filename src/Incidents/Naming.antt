-- ===== src/Incidents/Naming.antt =====
-- The events and the entries that name an incident (src/lib/server/services/incident.service.ts).
use mathlib.Core.Path.{subst}
use uppity.Base.{
  ℕ, ◌≡◌, refl, Bool, true, false, Option, none, some, List, [], ◌∷◌, arith, any, All, update_where,
  delete_where, first_where, ◌==◌, ==_refl, Bool-cases, inl, inr, String,
}
use uppity.Tables.{Db, Incident, IncidentUpdate, NotificationEvent}
use uppity.Incidents.{is_incident, names_incident}

abbrev pub is_there : List Incident → ℕ → ℕ → Bool
is_there is k o = any (is_incident k o) is

abbrev pub has_owner : List Incident → NotificationEvent → Option ℕ → Bool
has_owner is e none = true
has_owner is e (some k) = is_there is k e.organization_id

abbrev pub AreNamed : List Incident → List NotificationEvent → Type 0
AreNamed is es = All (λ e. has_owner is e e.incident_id ≡ true) es

abbrev pub AreWritten : List Incident → List IncidentUpdate → Type 0
AreWritten is us = All (λ u. any (λ i. i.id == u.incident_id) is ≡ true) us

-- Every event that names an incident is of the organization that owns it, and every entry of a
-- timeline belongs to an incident.
pub record AreOwned (db : Db) : Type 0 where
  pub events : AreNamed db.incidents db.events
  pub entries : AreWritten db.incidents db.incident_updates

pub any-update_where :
    (q p : Incident → Bool) (f : Incident → Incident) (is : List Incident)
    → ((i : Incident) → q (f i) ≡ q i)
    → any q (update_where p f is) ≡ any q is
unfolding update_where
any-update_where q p f [] h = refl
any-update_where q p f (i ∷ is) h = ground (arith, h i, any-update_where q p f is h)

pub any-delete_other :
    (q p : Incident → Bool) (is : List Incident)
    → ((i : Incident) → q i ≡ true → p i ≡ false)
    → any q is ≡ true
    → any q (delete_where p is) ≡ true
unfolding delete_where
any-delete_other q p [] h e = e
any-delete_other q p (i ∷ is) h e = ground (arith, h i, any-delete_other q p is h)

module _ (is js : List Incident) where
  pub AreNamed-kept :
      ((k o : ℕ) → is_there is k o ≡ true → is_there js k o ≡ true)
      → (es : List NotificationEvent) → AreNamed is es
      → AreNamed js es
  AreNamed-kept h [] n = tt
  AreNamed-kept h (e ∷ es) n = (go e.incident_id n.0, AreNamed-kept h es n.1)
    where
      go : (k : Option ℕ) → has_owner is e k ≡ true → has_owner js e k ≡ true
      go none t = t
      go (some k) t = h k e.organization_id t

  pub AreWritten-kept :
      ((k : ℕ) → any (λ i. i.id == k) is ≡ true → any (λ i. i.id == k) js ≡ true)
      → (us : List IncidentUpdate) → AreWritten is us
      → AreWritten js us
  AreWritten-kept h [] n = tt
  AreWritten-kept h (u ∷ us) n = (h u.incident_id n.0, AreWritten-kept h us n.1)

pub found_there :
    (p : Incident → Bool) (is : List Incident) {u : Incident}
    → first_where p is ≡ some u
    → is_there is u.id u.organization_id ≡ true
unfolding first_where
found_there p [] e = cc
found_there p (i ∷ is) {u} e = elim (Bool-cases (p i)) [
  | inl t ↦
      let same : i ≡ u = ground arith in
      subst (λ x. is_there (i ∷ is) x.id x.organization_id ≡ true) same
        (simp (==_refl i.id, ==_refl i.organization_id) refl)
  | inr t ↦
      let later : first_where p is ≡ some u = ground arith in ground (arith, found_there p is later)
]

pub any-found :
    (p q : Incident → Bool) (is : List Incident) {u : Incident}
    → ((i : Incident) → p i ≡ true → q i ≡ true)
    → first_where p is ≡ some u
    → any q is ≡ true
unfolding first_where
any-found p q [] h e = cc
any-found p q (i ∷ is) {u} h e = elim (Bool-cases (p i)) [
  | inl t ↦ rw (h i t) refl
  | inr t ↦
      let later : first_where p is ≡ some u = ground arith in
      ground (arith, any-found p q is h later)
]

pub rewritten :
    (is : List Incident) (p : IncidentUpdate → Bool) (message : String) (us : List IncidentUpdate)
    → AreWritten is us
    → AreWritten is (update_where p (λ u. record u { message = message }) us)
unfolding update_where
rewritten is p message [] h = tt
rewritten is p message (u ∷ us) h = elim (Bool-cases (p u)) [
  | inl t ↦ rw t (h.0, rewritten is p message us h.1)
  | inr t ↦ rw t (h.0, rewritten is p message us h.1)
]

module _ (id org : ℕ) (is : List Incident) where
  pub named-deleted :
      (es : List NotificationEvent)
      → AreNamed is es
      → AreNamed
          (delete_where (is_incident id org) is)
          (delete_where (λ e. names_incident id e.incident_id) es)
  unfolding delete_where
  named-deleted [] h = tt
  named-deleted (e ∷ es) h = elim (Bool-cases (names_incident id e.incident_id)) [
    | inl t ↦ rw t (named-deleted es h.1)
    | inr t ↦ rw t (go e.incident_id t h.0, named-deleted es h.1)
  ]
    where
      go :
          (k : Option ℕ)
          → names_incident id k ≡ false
          → has_owner is e k ≡ true
          → has_owner (delete_where (is_incident id org) is) e k ≡ true
      go none t o = refl
      go (some k) t o = any-delete_other _ _ is (λ i u. ground arith) o

  pub written-deleted :
      (us : List IncidentUpdate)
      → AreWritten is us
      → AreWritten
          (delete_where (is_incident id org) is)
          (delete_where (λ u. u.incident_id == id) us)
  unfolding delete_where
  written-deleted [] h = tt
  written-deleted (u ∷ us) h = elim (Bool-cases (u.incident_id == id)) [
    | inl t ↦ rw t (written-deleted us h.1)
    | inr t ↦ rw t (any-delete_other _ _ is (λ i e. ground arith) h.0, written-deleted us h.1)
  ]
