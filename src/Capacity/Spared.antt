-- ===== src/Capacity/Spared.antt =====
-- Which monitors a pass of `runCapacityGrace` may pause
-- (src/lib/server/services/capacity.service.ts).
use mathlib.Core.Path.{subst}
use uppity.Base.{
  ap, ◌∙◌, ℕ, ◌-◌, ◌≡◌, refl, sym, Bool, true, false, Option, none, some, List, [], ◌∷◌, arith, All,
  Bool-cases, inl, inr, leb, ltb, ◌==◌, ==_iff, if◌then◌else◌, is_some, any, map, first_where,
  first_where-holds, update_where, All-take, All-order_by, All-rows_where, All-selected,
  All-update_where, first_where-update_any,
}
use uppity.Tables.{Db, Monitor, Subscription}
use uppity.Schedule.{is_among}
use uppity.Capacity.{
  ceiling_of, clear_clock, active_monitor_count, newest_active, is_active_of, newer_first,
}
use uppity.Capacity.Pass.{
  CapacityNotice, GraceResult, enforces, enforce_row, over_row, clear_row, pause, pause_row,
  is_pausing, warn, set_sub, with_clock, grace_row, grace_rows, run_capacity_grace, rank,
  warning_due,
}
use uppity.Capacity.Grace.{IsOverdue, spared, grace_row-monitors}

-- The rows with this id are this organization's.
abbrev pub IsOwned : ℕ → ℕ → List Monitor → Type 0
IsOwned id org = All (λ (r : Monitor). (r.id == id) ≡ true → (r.organization_id == org) ≡ true)

module _ (id : ℕ) (m : Monitor) where
  -- The row of the monitor is this one, and rows with its id are its organization's.
  record Stays (ms : List Monitor) : Type 0 where
    row : first_where (λ r. r.id == id) ms ≡ some m
    owned : IsOwned id m.organization_id ms

  unpaused :
      (org : ℕ) (rows : List Monitor)
      → (org == m.organization_id) ≡ false
      → IsOwned id m.organization_id rows
      → All (λ r. is_active_of org r ≡ true) rows
      → any (λ r. r.id == id) rows ≡ false
  unpaused org [] other h k = refl
  unpaused org (r ∷ rows) other (h, hs) (k, ks) = elim (Bool-cases (r.id == id)) [
    | inl e ↦
        let mine = h e in
        let same : r.organization_id ≡ org = ground (arith, k, ==_iff r.organization_id org) in
        let clash : (org == m.organization_id) ≡ true =
          subst (λ o. (o == m.organization_id) ≡ true) same mine in
        cc
    | inr e ↦ rw e (unpaused org rows other hs ks)
  ]

  either :
      (b : Bool) (x y : Db × GraceResult)
      → Stays x.0.monitors
      → Stays y.0.monitors
      → Stays (if b then x else y).0.monitors
  either true x y h k = h
  either false x y h k = k

  paused-Stays :
      (now : ℕ) (rows ms : List Monitor)
      → any (λ r. r.id == id) rows ≡ false
      → Stays ms
      → Stays (update_where (is_pausing rows) (pause_row now) ms)
  paused-Stays now rows ms free h = record {
    row =
        first_where-update_any (λ r. r.id == id) (is_pausing rows) (pause_row now) ms (λ r. refl)
          h.row
        ∙ ap some (rw kept refl);
    owned = All-update_where _ (is_pausing rows) (pause_row now) ms (λ r e k. k) h.owned;
  }
    where
      same : m.id ≡ id
      same = (==_iff m.id id).0 (first_where-holds (λ r. r.id == id) ms h.row)

      among : is_among rows m ≡ false
      among = ap (λ k. any (λ r. r.id == k) rows) same ∙ free

      kept : is_pausing rows m ≡ false
      kept = rw among refl

  module _ (now : ℕ) (send : ℕ → CapacityNotice → Bool) (sub : Subscription)
      (other : (sub.organization_id == m.organization_id) ≡ false) where
    chosen :
        (n : ℕ) (db : Db)
        → Stays db.monitors
        → any (λ r. r.id == id) (newest_active db sub.organization_id n) ≡ false
    unfolding newest_active
    chosen n db h =
        let p = is_active_of sub.organization_id in
        unpaused sub.organization_id _ other
          (All-take _ n _ (All-order_by _ newer_first _ (All-rows_where _ p db.monitors h.owned)))
          (All-take _ n _ (All-order_by _ newer_first _ (All-selected p db.monitors)))

    pause-Stays :
        (active ceiling : ℕ) (db : Db) (r : GraceResult)
        → Stays db.monitors
        → Stays (pause now send sub active ceiling db r).0.monitors
    pause-Stays active ceiling db r h =
        either _ _ _
          (paused-Stays now (newest_active db sub.organization_id (active - ceiling)) db.monitors
            (chosen (active - ceiling) db h) h)
          h

    enforce_row-Stays :
        (active ceiling since : ℕ) (db : Db) (r : GraceResult)
        → Stays db.monitors
        → Stays (enforce_row now send sub active ceiling since db r).0.monitors
    enforce_row-Stays active ceiling since db r h =
        either (ltb (rank sub.capacity_notice) (rank (some (warning_due (now - since)))))
          (warn now send sub active ceiling since db r)
          (if enforces now since sub then pause now send sub active ceiling db r else (db, r))
          (either _ _ _ h h)
          (either (enforces now since sub) (pause now send sub active ceiling db r) (db, r)
            (pause-Stays active ceiling db r h) h)

    over_row-Stays :
        (active ceiling : ℕ) (since : Option ℕ) (db : Db) (r : GraceResult)
        → Stays db.monitors
        → Stays (over_row now send sub active ceiling since db r).0.monitors
    over_row-Stays active ceiling (some since) db r h =
        enforce_row-Stays active ceiling since db _ h
    over_row-Stays active ceiling none db r h =
        enforce_row-Stays active ceiling now (set_sub sub.id (with_clock now) db) _ h

    clear_row-Stays :
        (db : Db) (r : GraceResult)
        → Stays db.monitors
        → Stays (clear_row now send sub db r).0.monitors
    unfolding clear_clock
    clear_row-Stays db r h = either (is_some sub.over_capacity_since) _ _ h h

    grace_row-Stays :
        (ceiling : Option ℕ) (active : ℕ) (db : Db) (r : GraceResult)
        → Stays db.monitors
        → Stays (grace_row now send sub ceiling active db r).0.monitors
    grace_row-Stays none active db r h = clear_row-Stays db r h
    grace_row-Stays (some ceiling) active db r h =
        either (leb active ceiling) (clear_row now send sub db r)
          (over_row now send sub active ceiling sub.over_capacity_since db r)
          (clear_row-Stays db r h) (over_row-Stays active ceiling sub.over_capacity_since db r h)

  module _ (now : ℕ) (send : ℕ → CapacityNotice → Bool) (count : Subscription → ℕ) where
    -- A subscription of the monitor's organization is not overdue.
    abbrev pub IsInTime : Subscription → Type 0
    IsInTime s = (s.organization_id == m.organization_id) ≡ true → ¬ IsOverdue now s

    grace_rows-Stays :
        (subs : List Subscription) (db : Db) (r : GraceResult)
        → All IsInTime subs
        → Stays db.monitors
        → Stays (grace_rows now send (map (λ s. (s, count s)) subs) db r).0.monitors
    unfolding grace_rows
    grace_rows-Stays [] db r h k = k
    grace_rows-Stays (s ∷ subs) db r (h, hs) k =
        let row = grace_row now send s (ceiling_of false s) (count s) db r in
        grace_rows-Stays subs row.0 row.1 hs
          (elim (Bool-cases (s.organization_id == m.organization_id)) [
            | inl e ↦
                subst Stays
                  (sym (
                    grace_row-monitors now send s (ceiling_of false s) (count s) db r
                      (spared now s (h e))))
                  k
            | inr e ↦ grace_row-Stays now send s e (ceiling_of false s) (count s) db r k
          ])

-- A pass leaves a monitor as it is, however many organizations are over their ceilings and whichever
-- notices are delivered, unless the clock of the monitor's own organization has run for fourteen days
-- and its last-day warning was delivered a day ago at least. The id of the monitor is no other
-- organization's.
pub run_capacity_grace-spared :
    (now : ℕ) (send : ℕ → CapacityNotice → Bool) (self_hosted : Bool) (db : Db) (id : ℕ)
    (m : Monitor)
    → first_where (λ r. r.id == id) db.monitors ≡ some m
    → IsOwned id m.organization_id db.monitors
    → All
        (λ s. (s.organization_id == m.organization_id) ≡ true → ¬ IsOverdue now s)
        db.subscriptions
    → first_where (λ r. r.id == id) (run_capacity_grace now send self_hosted db).0.monitors ≡ some m
unfolding run_capacity_grace
run_capacity_grace-spared now send true db id m e o h = e
run_capacity_grace-spared now send false db id m e o h =
    (grace_rows-Stays id m now send (λ s. active_monitor_count db s.organization_id)
      db.subscriptions db _ h (record { row = e; owned = o })).row
