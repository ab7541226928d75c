-- ===== src/Capacity/Grace.antt =====
-- What a pass of `runCapacityGrace` does to monitors (src/lib/server/services/capacity.service.ts).
use uppity.Base.{
  All-mono, ◌+◌, ◌≤◌, ◌&&◌, ℕ, ◌-◌, ◌≡◌, refl, ◌∙◌, Bool, true, false, Option, none, some, List, [],
  ◌∷◌, arith, All, Bool-cases, inl, inr, leb, ltb, if◌then◌else◌, is_some, map, holds,
}
use uppity.Tables.{
  Db, Monitor, Subscription, NoticeKind, over_notice, week_notice, day_notice, paused_notice,
}
use uppity.Capacity.{day_ms, pause_date, ceiling_of, clear_clock, active_monitor_count}
use uppity.Capacity.Pass.{
  CapacityNotice, GraceResult, enforces, enforce_row, over_row, clear_row, pause, set_sub,
  with_clock, grace_row, grace_rows, run_capacity_grace, rank, warning_due, is_day,
}

-- The organization has a clock that has run for fourteen days of 86,400,000 ms, and its last-day
-- warning, the last notice that was delivered to it, was delivered a day ago at least.
pub record IsOverdue (now : ℕ) (s : Subscription) : Type 0 where
  pub since : ℕ
  pub warned_at : ℕ
  pub started : s.over_capacity_since ≡ some since
  pub ran : since + 1209600000 ≤ now
  pub warned : s.capacity_notice ≡ some day_notice
  pub notified : s.capacity_noticed_at ≡ some warned_at
  pub a_day_ago : warned_at + 86400000 ≤ now

-- Where the code would enforce the ceiling, the organization is overdue.
enforces-IsOverdue :
    (now since : ℕ) (s : Subscription)
    → s.over_capacity_since ≡ some since
    → enforces now since s ≡ true
    → IsOverdue now s
enforces-IsOverdue now since s started e = go s.capacity_notice s.capacity_noticed_at refl refl e
  where
    go :
        (k : Option NoticeKind) (t : Option ℕ)
        → s.capacity_notice ≡ k
        → s.capacity_noticed_at ≡ t
        → (holds is_day k && leb (pause_date since) now && holds (λ u. leb (u + day_ms) now) t)
          ≡ true
        → IsOverdue now s
    go none t p q e = cc
    go (some over_notice) t p q e = cc
    go (some week_notice) t p q e = cc
    go (some paused_notice) t p q e = cc
    go (some day_notice) none p q e = ground arith
    go (some day_notice) (some u) p q e = record {
      since = since;
      warned_at = u;
      started = started;
      ran = ground arith;
      warned = p;
      notified = q;
      a_day_ago = ground arith;
    }

-- The code enforces no ceiling of an organization that is not overdue.
abbrev pub IsSpared : ℕ → Subscription → Type 0
IsSpared now s = holds (λ since. enforces now since s) s.over_capacity_since ≡ false

pub spared : (now : ℕ) (s : Subscription) → ¬ IsOverdue now s → IsSpared now s
spared now s h = go s.over_capacity_since refl
  where
    go :
        (o : Option ℕ) → s.over_capacity_since ≡ o → holds (λ since. enforces now since s) o ≡ false
    go none e = refl
    go (some since) e = elim (Bool-cases (enforces now since s)) [
      | inl t ↦ absurd (h (enforces-IsOverdue now since s e t))
      | inr t ↦ t
    ]

-- Either way the monitors are the same.
either :
    (b : Bool) (x y : Db × GraceResult) (ms : List Monitor)
    → x.0.monitors ≡ ms
    → y.0.monitors ≡ ms
    → (if b then x else y).0.monitors ≡ ms
either true x y ms h k = h
either false x y ms h k = k

module _ (now : ℕ) (send : ℕ → CapacityNotice → Bool) (sub : Subscription) where
  clear_row-monitors :
      (db : Db) (r : GraceResult) → (clear_row now send sub db r).0.monitors ≡ db.monitors
  unfolding clear_clock
  clear_row-monitors db r = elim (Bool-cases (is_some sub.over_capacity_since)) [
    | inl t ↦ rw t refl
    | inr t ↦ rw t refl
  ]

  enforce_row-monitors :
      (active ceiling since : ℕ) (db : Db) (r : GraceResult)
      → enforces now since sub ≡ false
      → (enforce_row now send sub active ceiling since db r).0.monitors ≡ db.monitors
  enforce_row-monitors active ceiling since db r spared =
      either (ltb (rank sub.capacity_notice) (rank (some (warning_due (now - since))))) _
        (if enforces now since sub then pause now send sub active ceiling db r else (db, r))
        db.monitors (either _ _ _ db.monitors refl refl) (rw spared refl)

  -- A clock that starts now has not run out.
  new_clock : enforces now now sub ≡ false
  new_clock = ground arith

  over_row-monitors :
      (active ceiling : ℕ) (since : Option ℕ) (db : Db) (r : GraceResult)
      → holds (λ t. enforces now t sub) since ≡ false
      → (over_row now send sub active ceiling since db r).0.monitors ≡ db.monitors
  over_row-monitors active ceiling (some since) db r spared =
      enforce_row-monitors active ceiling since db _ spared
  over_row-monitors active ceiling none db r spared =
      enforce_row-monitors active ceiling now (set_sub sub.id (with_clock now) db) _ new_clock

  pub grace_row-monitors :
      (ceiling : Option ℕ) (active : ℕ) (db : Db) (r : GraceResult)
      → IsSpared now sub
      → (grace_row now send sub ceiling active db r).0.monitors ≡ db.monitors
  grace_row-monitors none active db r spared = clear_row-monitors db r
  grace_row-monitors (some ceiling) active db r spared =
      either (leb active ceiling) _ _ db.monitors (clear_row-monitors db r)
        (over_row-monitors active ceiling sub.over_capacity_since db r spared)

module _ (now : ℕ) (send : ℕ → CapacityNotice → Bool) (count : Subscription → ℕ) where
  grace_rows-monitors :
      (subs : List Subscription) (db : Db) (r : GraceResult)
      → All (IsSpared now) subs
      → (grace_rows now send (map (λ s. (s, count s)) subs) db r).0.monitors ≡ db.monitors
  unfolding grace_rows
  grace_rows-monitors [] db r h = refl
  grace_rows-monitors (s ∷ subs) db r h =
      let row = grace_row now send s (ceiling_of false s) (count s) db r in
      grace_rows-monitors subs row.0 row.1 h.1
      ∙ grace_row-monitors now send s (ceiling_of false s) (count s) db r h.0

-- A pass changes no monitor, however many are over their ceilings and whichever notices are
-- delivered, unless some organization's clock has run for fourteen days and its last-day warning was
-- delivered a day ago at least.
pub run_capacity_grace-monitors :
    (now : ℕ) (send : ℕ → CapacityNotice → Bool) (self_hosted : Bool) (db : Db)
    → All (λ s. ¬ IsOverdue now s) db.subscriptions
    → (run_capacity_grace now send self_hosted db).0.monitors ≡ db.monitors
unfolding run_capacity_grace
run_capacity_grace-monitors now send true db h = refl
run_capacity_grace-monitors now send false db h =
    grace_rows-monitors now send (λ s. active_monitor_count db s.organization_id) db.subscriptions
      db _ (All-mono _ _ (spared now) h)
