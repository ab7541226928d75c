-- ===== src/Subscriptions/Reduction.antt =====
-- A scheduled reduction of blocks: `setBlocks` and `applyScheduledReductions`
-- (src/lib/server/services/subscription.service.ts).
use uppity.Base.{
  ℕ, ◌≤◌, ◌<◌, ◌≡◌, refl, ap, Bool, true, false, not, ◌||◌, Option, none, some, arith, ltb, ◌==◌,
  is_none, is_some, first_where, update_where, first_where-update_hit, first_where-update_met,
}
use uppity.Tables.{Db, Subscription}
use uppity.Plans.{is_block_eligible, plans}
use uppity.Capacity.{find_subscription, resume_after_raise, ceiling_of, room, active_monitor_count}
use uppity.Subscriptions.{
  set_blocks, with_blocks, set_subscription, get_or_create_subscription, apply_scheduled_reductions,
  is_reducing, reduced,
}

no_room : (ceiling : Option ℕ) (active : ℕ) → room ceiling ceiling active ≡ 0
no_room none active = refl
no_room (some n) active = omega arith

-- A ceiling that does not change resumes nothing.
no_resume :
    (sh : Bool) (now org : ℕ) (ceiling : Option ℕ) (db : Db)
    → resume_after_raise sh now org ceiling ceiling db ≡ (db, 0)
unfolding resume_after_raise
no_resume sh now org ceiling db = rw (no_room ceiling (active_monitor_count db org)) refl

-- The database that a scheduled reduction leaves.
abbrev scheduled_db : ℕ → ℕ → ℕ → Db → Db
scheduled_db now org blocks = set_subscription org (with_blocks now blocks true)

set_blocks-schedules :
    (sh : Bool) (now id org blocks : ℕ) (db : Db) (sub : Subscription)
    → find_subscription db org ≡ some sub
    → is_block_eligible sub.plan_id ≡ true
    → (blocks ≤ 40) × (blocks < sub.blocks)
    → is_some sub.current_period_end ≡ true
    → (set_blocks sh now id org blocks db).0 ≡ scheduled_db now org blocks db
unfolding set_blocks get_or_create_subscription ceiling_of
set_blocks-schedules sh now id org blocks db sub found eligible (few, fewer) ends =
    let not_many : ltb 40 blocks ≡ false = ground arith in
    let less : ltb blocks sub.blocks ≡ true = ground arith in
    let no_more : ltb sub.blocks blocks ≡ false = ground arith in
    let offered : (is_none (plans sub.plan_id) || not (is_block_eligible sub.plan_id)) ≡ false =
      ground arith in
    simp (not_many, found, offered, no_more, less, ends)
      (ap (λ r. r.0) (no_resume sh now org (ceiling_of sh sub) (scheduled_db now org blocks db)))

-- After a reduction, on a plan with blocks and with a known end of the billing period, to a
-- count that may be sold, the organization keeps its blocks with the reduction scheduled, and a
-- sweep at any time from that end on leaves it with exactly the blocks that were asked for, and
-- nothing scheduled.
pub set_blocks-reduces :
    (sh : Bool) (now id org blocks at now' : ℕ) (db : Db) (sub : Subscription) (e : ℕ)
    → find_subscription db org ≡ some sub
    → is_block_eligible sub.plan_id ≡ true
    → (blocks ≤ 40) × (blocks < sub.blocks)
    → (sub.current_period_end ≡ some e) × (e ≤ at)
    → let db' = (set_blocks sh now id org blocks db).0 in
      ((s : Subscription) × (find_subscription db' org ≡ some s)
        × (s.blocks ≡ sub.blocks)
        × (s.scheduled_blocks ≡ some blocks))
      × ((s : Subscription) × (find_subscription (apply_scheduled_reductions at now' db').0 org
            ≡ some s)
          × (s.blocks ≡ blocks)
          × (s.scheduled_blocks ≡ none))
unfolding find_subscription apply_scheduled_reductions
set_blocks-reduces sh now id org blocks at now' db sub e found eligible fewer (ends, over) =
    let own : Subscription → Bool = λ s. s.organization_id == org in
    let kept : Subscription = with_blocks now blocks true sub in
    let written =
      set_blocks-schedules sh now id org blocks db sub found eligible fewer (simp ends refl) in
    let first : first_where own (scheduled_db now org blocks db).subscriptions ≡ some kept =
      first_where-update_hit own (with_blocks now blocks true) db.subscriptions (λ s. refl) found in
    let due : is_reducing at kept ≡ true = ground arith in
    let last : first_where own (
          update_where (is_reducing at) (reduced now')
            (scheduled_db now org blocks db).subscriptions)
        ≡ some (reduced now' kept) =
      first_where-update_met own (is_reducing at) (reduced now') _ (λ s. refl) first due in
    rw written ((kept, first, refl, refl), (reduced now' kept, last, refl, refl))
