-- ===== src/Windows/Proper.antt =====
-- Sequences of operations on windows, and what a window should satisfy
-- (src/lib/server/services/maintenance-window.service.ts).
use mathlib.Core.Path.{subst}
use uppity.Base.{
  ℕ, ◌≤◌, ◌<◌, ◌≡◌, refl, Bool, false, List, arith, All, Option-cases, inl, inr, leb, ◌==◌,
  is_empty, trim, holds, or_default, returned, count_where, update_where, count_where_mono,
  count_where-update_where, count_where-delete_le, All-delete_where, All-update_only,
  All-update_where, returned-injective, or_threw-returned, ap, ==_iff,
}
use uppity.Tables.{
  Db, MaintenanceWindow, WindowStatus, scheduled, in_progress, completed, cancelled,
}
use uppity.Windows.{
  CreateWindow, UpdateWindow, create, update, cancel, delete, run_status_transitions, is_window,
  find_window, updated_window, cancel_found, set_status, starts_now, ends_now, write_update,
  insert_window, remove_window,
}

-- A call that changes windows and returns; the key of a new window is unused.
pub data Change (db : Db) : Db → Type 0 where
  created :
      {db' : Db} (now id : ℕ) (input : CreateWindow) (w : MaintenanceWindow)
      → count_where (λ v. v.id == id) db.windows ≡ 0
      → create now id input db ≡ returned (db', w)
      → Change db db'
  updated :
      {db' : Db} (now id org : ℕ) (input : UpdateWindow) (w : MaintenanceWindow)
      → update now id org input db ≡ returned (db', w)
      → Change db db'
  cancelled_one :
      {db' : Db} (now id org : ℕ) (w : MaintenanceWindow)
      → cancel now id org db ≡ returned (db', w)
      → Change db db'
  deleted : {db' : Db} (id org : ℕ) → delete id org db ≡ returned db' → Change db db'
  ran : (now stamp : ℕ) → Change db (run_status_transitions now stamp db).0

pub data Changes (db : Db) : Db → Type 0 where
  here : Changes db db
  next : {a b : Db} → Changes db a → Change a b → Changes db b

-- It starts before it ends, and it has a name.
abbrev pub IsProper : MaintenanceWindow → Type 0
IsProper w = (w.starts_at < w.ends_at) × (is_empty w.name ≡ false)

abbrev pub IsKeyed : List MaintenanceWindow → Type 0
IsKeyed ws = (id : ℕ) → count_where (λ w. w.id == id) ws ≤ 1

pub record AreProper (ws : List MaintenanceWindow) : Type 0 where
  pub keyed : IsKeyed ws
  pub proper : All IsProper ws

-- An update that keeps the keys, the times and the names.
kept :
    (p : MaintenanceWindow → Bool) (f : MaintenanceWindow → MaintenanceWindow)
    (ws : List MaintenanceWindow)
    → ((w : MaintenanceWindow) → (f w).id ≡ w.id)
    → ((w : MaintenanceWindow) → IsProper w → IsProper (f w))
    → AreProper ws
    → AreProper (update_where p f ws)
kept p f ws ids keep h = record {
  keyed = λ id.
      rw (count_where-update_where (λ w. w.id == id) p f ws (λ w. rw (ids w) refl)) (h.keyed id);
  proper = All-update_where IsProper p f ws (λ w _ k. keep w k) h.proper;
}

one_window :
    (id org : ℕ) (ws : List MaintenanceWindow) → IsKeyed ws → count_where (is_window id org) ws ≤ 1
one_window id org ws h =
    omega
      (arith, h id, count_where_mono (is_window id org) (λ w. w.id == id) ws (λ w e. ground arith))

status-AreProper :
    (p : MaintenanceWindow → Bool) (s : WindowStatus) (now : ℕ) (ws : List MaintenanceWindow)
    → AreProper ws
    → AreProper (update_where p (set_status s now) ws)
status-AreProper p s now ws h = kept p (set_status s now) ws (λ w. refl) (λ w k. k) h

create-AreProper :
    (now id : ℕ) (input : CreateWindow) (db db' : Db) (w : MaintenanceWindow)
    → count_where (λ v. v.id == id) db.windows ≡ 0
    → create now id input db ≡ returned (db', w)
    → AreProper db.windows
    → AreProper db'.windows
unfolding create count_where
create-AreProper now id input db db' w fresh e h =
    let named : is_empty (trim input.name) ≡ false = ground arith in
    let ordered : input.starts_at < input.ends_at = ground arith in
    let written : insert_window now id input db ≡ db' = ground arith in
    subst (λ d. AreProper d.windows) written
      (record {
        keyed = λ i. ground (arith, h.keyed i, ==_iff id i);
        proper = ((ordered, named), h.proper);
      })

updated_window-IsProper :
    (now : ℕ) (input : UpdateWindow) (w : MaintenanceWindow)
    → leb (or_default input.ends_at w.ends_at) (or_default input.starts_at w.starts_at) ≡ false
    → holds (λ n. is_empty (trim n)) input.name ≡ false
    → is_empty w.name ≡ false
    → IsProper (updated_window now input w)
updated_window-IsProper now input w ordered named old = elim (Option-cases input.name) [
  | inl e ↦ simp e (ground arith, old)
  | inr (n, e) ↦ simp e (ground arith, ground arith)
]

update-AreProper :
    (now id org : ℕ) (input : UpdateWindow) (db db' : Db) (w : MaintenanceWindow)
    → update now id org input db ≡ returned (db', w)
    → AreProper db.windows
    → AreProper db'.windows
unfolding update find_window
update-AreProper now id org input db db' w e h =
    let (old, found, e1) = or_threw-returned (find_window db id org) _ _ e in
    let ordered : leb (or_default input.ends_at old.ends_at)
          (or_default input.starts_at old.starts_at)
        ≡ false =
      ground arith in
    let named : holds (λ n. is_empty (trim n)) input.name ≡ false = ground arith in
    let written : write_update now id org input db ≡ db' = ground arith in
    subst (λ d. AreProper d.windows) written
      (record {
        keyed = λ i.
            rw
              (count_where-update_where (λ v. v.id == i) (is_window id org)
                (updated_window now input) db.windows (λ v. refl))
              (h.keyed i);
        proper =
            All-update_only IsProper (is_window id org) (updated_window now input) db.windows
              (one_window id org db.windows h.keyed) found
              (λ k. updated_window-IsProper now input old ordered named k.1) h.proper;
      })

cancel_found-AreProper :
    (now id org : ℕ) (db db' : Db) (v w : MaintenanceWindow) (s : WindowStatus)
    → cancel_found now id org db v s ≡ returned (db', w)
    → AreProper db.windows
    → AreProper db'.windows
cancel_found-AreProper now id org db db' v w scheduled e h =
    subst (λ d. AreProper d.windows) (ap (λ r. r.0) (returned-injective e))
      (status-AreProper (is_window id org) cancelled now db.windows h)
cancel_found-AreProper now id org db db' v w in_progress e h =
    subst (λ d. AreProper d.windows) (ap (λ r. r.0) (returned-injective e))
      (status-AreProper (is_window id org) cancelled now db.windows h)
cancel_found-AreProper now id org db db' v w completed e h = cc
cancel_found-AreProper now id org db db' v w cancelled e h =
    subst (λ d. AreProper d.windows) (ap (λ r. r.0) (returned-injective e)) h

cancel-AreProper :
    (now id org : ℕ) (db db' : Db) (w : MaintenanceWindow)
    → cancel now id org db ≡ returned (db', w)
    → AreProper db.windows
    → AreProper db'.windows
unfolding cancel
cancel-AreProper now id org db db' w e h =
    let (old, found, e1) = or_threw-returned (find_window db id org) _ _ e in
    cancel_found-AreProper now id org db db' old w old.status e1 h

delete-AreProper :
    (id org : ℕ) (db db' : Db)
    → delete id org db ≡ returned db'
    → AreProper db.windows
    → AreProper db'.windows
unfolding delete
delete-AreProper id org db db' e h =
    let (old, found, e1) = or_threw-returned (find_window db id org) _ _ e in
    let written : remove_window id org db ≡ db' = ground arith in
    subst (λ d. AreProper d.windows) written
      (record {
        keyed = λ i. omega (
          arith,
          h.keyed i,
          count_where-delete_le (λ v. v.id == i) (is_window id org) db.windows,
        );
        proper = All-delete_where IsProper (is_window id org) db.windows h.proper;
      })

run-AreProper :
    (now stamp : ℕ) (db : Db)
    → AreProper db.windows
    → AreProper (run_status_transitions now stamp db).0.windows
unfolding run_status_transitions
run-AreProper now stamp db h =
    status-AreProper (ends_now now) completed stamp _
      (status-AreProper (starts_now now) in_progress stamp db.windows h)

Change-AreProper : {db db' : Db} → Change db db' → AreProper db.windows → AreProper db'.windows
Change-AreProper {db} {db'} (created now id input w fresh e) h =
    create-AreProper now id input db db' w fresh e h
Change-AreProper {db} {db'} (updated now id org input w e) h =
    update-AreProper now id org input db db' w e h
Change-AreProper {db} {db'} (cancelled_one now id org w e) h =
    cancel-AreProper now id org db db' w e h
Change-AreProper {db} {db'} (deleted id org e) h = delete-AreProper id org db db' e h
Change-AreProper {db} (ran now stamp) h = run-AreProper now stamp db h

-- After any sequence of successful creations, updates, cancellations and deletions, and of runs of
-- the status transitions, every window starts before it ends and has a name, and no two windows
-- share a key, if that held before and each new key is unused.
pub Changes-AreProper :
    {db db' : Db} → Changes db db' → AreProper db.windows → AreProper db'.windows
Changes-AreProper here h = h
Changes-AreProper (next before last) h = Change-AreProper last (Changes-AreProper before h)
