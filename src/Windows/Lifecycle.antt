-- ===== src/Windows/Lifecycle.antt =====
-- The status of a window that is over (src/lib/server/services/maintenance-window.service.ts).
use mathlib.Core.Path.{subst}
use uppity.Base.{
  ℕ, ◌≤◌, ◌≡◌, refl, sym, Bool, true, false, Option, some, List, arith, Bool-cases, inl, inr, ◌==◌,
  if◌then◌else◌, returned, count_where, first_where, update_where, first_where-update_any,
  first_where-delete_other, first_where-narrow, first_where-count, first_where-update_miss,
  or_threw-returned, ap, first_where-holds, returned-injective, ==_iff,
}
use uppity.Tables.{
  Db, MaintenanceWindow, WindowStatus, scheduled, in_progress, completed, cancelled,
}
use uppity.Windows.{
  CreateWindow, UpdateWindow, create, update, cancel, delete, run_status_transitions, is_window,
  find_window, updated_window, cancel_found, set_status, is_scheduled, is_in_progress, starts_now,
  ends_now, write_update, insert_window, remove_window,
}
use uppity.Windows.Proper.{
  Change, Changes, created, updated, cancelled_one, deleted, ran, here, next,
}

abbrev pub window_at : Db → ℕ → Option MaintenanceWindow
window_at db i = first_where (λ w. w.id == i) db.windows

-- The window with this key has ended with this status.
abbrev pub HasEnded : ℕ → WindowStatus → Db → Type 0
HasEnded i s db = (w : MaintenanceWindow) × (window_at db i ≡ some w) × (w.status ≡ s)

pub data IsOver : WindowStatus → Type 0 where
  is_completed : IsOver completed
  is_cancelled : IsOver cancelled

abbrev is_over : WindowStatus → Bool
is_over completed = true
is_over cancelled = true
is_over _ = false

over-is_over : {s : WindowStatus} → IsOver s → is_over s ≡ true
over-is_over is_completed = refl
over-is_over is_cancelled = refl

over_not_scheduled : {s : WindowStatus} → IsOver s → is_scheduled s ≡ false
over_not_scheduled is_completed = refl
over_not_scheduled is_cancelled = refl

over_not_in_progress : {s : WindowStatus} → IsOver s → is_in_progress s ≡ false
over_not_in_progress is_completed = refl
over_not_in_progress is_cancelled = refl

over_not_ending : (now : ℕ) (w : MaintenanceWindow) → IsOver w.status → ends_now now w ≡ false
over_not_ending now w o = simp (over_not_in_progress o) refl

over_not_starting : (now : ℕ) (w : MaintenanceWindow) → IsOver w.status → starts_now now w ≡ false
over_not_starting now w o = simp (over_not_scheduled o) refl

create-HasEnded :
    (now id : ℕ) (input : CreateWindow) (db db' : Db) (w : MaintenanceWindow) (i : ℕ)
    (s : WindowStatus)
    → count_where (λ v. v.id == id) db.windows ≡ 0
    → create now id input db ≡ returned (db', w)
    → HasEnded i s db
    → HasEnded i s db'
unfolding create first_where
create-HasEnded now id input db db' w i s fresh e (v, found, ended) =
    let written : insert_window now id input db ≡ db' = ground arith in
    elim (Bool-cases (id == i)) [
      | inl same ↦
          let found_new : 1 ≤ count_where (λ v. v.id == id) db.windows =
            subst (λ k. 1 ≤ count_where (λ v. v.id == k) db.windows) (sym ((==_iff id i).0 same))
              (first_where-count _ db.windows found) in
          ground arith
      | inr other ↦ subst (HasEnded i s) written (v, ground arith, ended)
    ]

update-HasEnded :
    (now id org : ℕ) (input : UpdateWindow) (db db' : Db) (w : MaintenanceWindow) (i : ℕ)
    (s : WindowStatus)
    → update now id org input db ≡ returned (db', w)
    → HasEnded i s db
    → HasEnded i s db'
unfolding update
update-HasEnded now id org input db db' w i s e (v, found, ended) =
    let (old, there, e1) = or_threw-returned (find_window db id org) _ _ e in
    let written : write_update now id org input db ≡ db' = ground arith in
    subst (HasEnded i s) written (
      if is_window id org v then updated_window now input v else v,
      first_where-update_any (λ x. x.id == i) (is_window id org) (updated_window now input)
          db.windows (λ y. refl) found,
      ground arith,
    )

-- The row found for a call, if it is the one with this key.
found_row :
    (db : Db) (id org i : ℕ) {old v : MaintenanceWindow}
    → window_at db i ≡ some v
    → is_window id org v ≡ true
    → find_window db id org ≡ some old
    → old ≡ v
unfolding find_window
found_row db id org i {old} {v} found hit there =
    let key : v.id ≡ id = ground (arith, ==_iff v.id id) in
    let own : v.id ≡ i = (==_iff v.id i).0 (first_where-holds (λ w. w.id == i) db.windows found) in
    let same : find_window db id org ≡ some v =
      first_where-narrow (is_window id org) (λ w. w.id == i) db.windows
        (λ y t. ground (arith, ==_iff y.id id, ==_iff y.id i)) found hit in
    cc

-- A write to the row of another window.
other_row :
    (id org i : ℕ) (s : WindowStatus) (f : MaintenanceWindow → MaintenanceWindow) (db : Db)
    {old : MaintenanceWindow}
    → ((x : MaintenanceWindow) → (f x).id ≡ x.id)
    → IsOver s
    → is_over old.status ≡ false
    → find_window db id org ≡ some old
    → HasEnded i s db
    → HasEnded i s (record db { windows = update_where (is_window id org) f db.windows })
other_row id org i s f db {old} keys o open_now there (v, found, ended) =
    elim (Bool-cases (is_window id org v)) [
      | inl hit ↦
          let same : old ≡ v = found_row db id org i found hit there in
          let over : is_over old.status ≡ true = rw (same, ended) (over-is_over o) in cc
      | inr miss ↦ (
        v,
        first_where-update_miss (λ x. x.id == i) (is_window id org) f db.windows
            (λ y. rw (keys y) refl) found miss,
        ended,
      )
    ]

cancel_found-HasEnded :
    (now id org : ℕ) (db db' : Db) (v w : MaintenanceWindow) (t : WindowStatus) (i : ℕ)
    (s : WindowStatus)
    → cancel_found now id org db v t ≡ returned (db', w)
    → find_window db id org ≡ some v
    → v.status ≡ t
    → IsOver s
    → HasEnded i s db
    → HasEnded i s db'
unfolding find_window
cancel_found-HasEnded now id org db db' old w completed i s e there st o (v, found, ended) = cc
cancel_found-HasEnded now id org db db' old w cancelled i s e there st o (v, found, ended) =
    let written : db ≡ db' = ap (λ r. r.0) (returned-injective e) in
    subst (HasEnded i s) written (v, found, ended)
cancel_found-HasEnded now id org db db' old w scheduled i s e there st o h =
    subst (HasEnded i s) (ap (λ r. r.0) (returned-injective e))
      (other_row id org i s (set_status cancelled now) db (λ x. refl) o (simp st refl) there h)
cancel_found-HasEnded now id org db db' old w in_progress i s e there st o h =
    subst (HasEnded i s) (ap (λ r. r.0) (returned-injective e))
      (other_row id org i s (set_status cancelled now) db (λ x. refl) o (simp st refl) there h)

cancel-HasEnded :
    (now id org : ℕ) (db db' : Db) (w : MaintenanceWindow) (i : ℕ) (s : WindowStatus)
    → cancel now id org db ≡ returned (db', w)
    → IsOver s
    → HasEnded i s db
    → HasEnded i s db'
unfolding cancel
cancel-HasEnded now id org db db' w i s e o h =
    let (old, there, e1) = or_threw-returned (find_window db id org) _ _ e in
    cancel_found-HasEnded now id org db db' old w old.status i s e1 there refl o h

delete-HasEnded :
    (id org : ℕ) (db db' : Db) (i : ℕ) (s : WindowStatus)
    → delete id org db ≡ returned db'
    → IsOver s
    → HasEnded i s db
    → HasEnded i s db'
unfolding delete find_window
delete-HasEnded id org db db' i s e o (v, found, ended) =
    let (old, there, e1) = or_threw-returned (find_window db id org) _ _ e in
    let written : remove_window id org db ≡ db' = ground arith in
    elim (Bool-cases (is_window id org v)) [
      | inl hit ↦
          let same : old ≡ v = found_row db id org i found hit there in
          let stopped : is_scheduled old.status ≡ false = rw (same, ended) (over_not_scheduled o) in
          ground arith
      | inr miss ↦
          subst (HasEnded i s) written
            (v, first_where-delete_other _ (is_window id org) db.windows found miss, ended)
    ]

run-HasEnded :
    (now stamp : ℕ) (db : Db) (i : ℕ) (s : WindowStatus)
    → IsOver s
    → HasEnded i s db
    → HasEnded i s (run_status_transitions now stamp db).0
unfolding run_status_transitions
run-HasEnded now stamp db i s o (v, found, ended) =
    let over : IsOver v.status = subst IsOver (sym ended) o in
    let started : List MaintenanceWindow =
      update_where (starts_now now) (set_status in_progress stamp) db.windows in
    let first : first_where (λ x. x.id == i) started ≡ some v =
      first_where-update_miss _ (starts_now now) (set_status in_progress stamp) db.windows
        (λ y. refl) found (over_not_starting now v over) in
    (
      v,
      first_where-update_miss _ (ends_now now) (set_status completed stamp) started (λ y. refl)
          first (over_not_ending now v over),
      ended,
    )

Change-HasEnded :
    {db db' : Db} (i : ℕ) (s : WindowStatus)
    → IsOver s
    → Change db db'
    → HasEnded i s db
    → HasEnded i s db'
Change-HasEnded {db} {db'} i s o (created now id input w fresh e) h =
    create-HasEnded now id input db db' w i s fresh e h
Change-HasEnded {db} {db'} i s o (updated now id org input w e) h =
    update-HasEnded now id org input db db' w i s e h
Change-HasEnded {db} {db'} i s o (cancelled_one now id org w e) h =
    cancel-HasEnded now id org db db' w i s e o h
Change-HasEnded {db} {db'} i s o (deleted id org e) h = delete-HasEnded id org db db' i s e o h
Change-HasEnded {db} i s o (ran now stamp) h = run-HasEnded now stamp db i s o h

-- A window that was completed or cancelled is still there with that status after any sequence of
-- successful creations, updates, cancellations and deletions, and of runs of the transitions.
pub Changes-HasEnded :
    {db db' : Db} (i : ℕ) (s : WindowStatus)
    → IsOver s
    → Changes db db'
    → HasEnded i s db
    → HasEnded i s db'
Changes-HasEnded i s o here h = h
Changes-HasEnded i s o (next before last) h =
    Change-HasEnded i s o last (Changes-HasEnded i s o before h)
