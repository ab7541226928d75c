-- ===== src/Subscriptions/Blocks.antt =====
-- The blocks of a subscription through one operation
-- (src/lib/server/services/subscription.service.ts).
use mathlib.Core.Path.{subst}
use uppity.Base.{
  ℕ, ◌≤◌, ◌<◌, ◌≡◌, refl, Bool, true, false, not, ◌&&◌, ◌||◌, ==_refl, Option, none, some, List,
  ◌∷◌, arith, All, Bool-cases, Option-cases, inl, inr, ltb, ◌==◌, if◌then◌else◌, is_none, is_some,
  ==_iff, count_where, first_where, update_where, count_where-update_where, first_where-none,
  All-update_where, All-update_within,
}
use uppity.Tables.{Db, Subscription}
use uppity.Plans.{is_block_eligible, plans}
use uppity.Capacity.{
  find_subscription, has_clock, without_clock, clear_clock, clear_if_within_ceiling, clear_found,
  resume_after_raise, ceiling_of, active_monitor_count, fits, paused_rows, room, resume_rows,
}
use uppity.Subscriptions.{
  free_subscription, get_or_create_subscription, or_insert, unless_held, set_blocks, write_blocks,
  with_blocks, is_scheduling, other_block_holder, is_reducing, reduced,
}
use uppity.Subscriptions.Sync.{PolarSyncData, synced, is_leaving}

-- At most 40 blocks are held, none on a plan that is not billed for them, and a scheduled count is
-- less than the count held.
pub record IsSound (s : Subscription) : Type 0 where
  pub bounded : s.blocks ≤ 40
  pub billed : is_block_eligible s.plan_id ≡ false → s.blocks ≡ 0
  pub lower : (n : ℕ) → s.scheduled_blocks ≡ some n → n < s.blocks

pub record AreSound (ss : List Subscription) : Type 0 where
  pub keyed : (org : ℕ) → count_where (λ s. s.organization_id == org) ss ≤ 1
  pub sound : All IsSound ss

pub kept :
    (p : Subscription → Bool) (f : Subscription → Subscription) (ss : List Subscription)
    → ((s : Subscription) → (f s).organization_id ≡ s.organization_id)
    → ((s : Subscription) → p s ≡ true → IsSound s → IsSound (f s))
    → AreSound ss
    → AreSound (update_where p f ss)
kept p f ss orgs keep h = record {
  keyed = λ org.
      rw (count_where-update_where (λ s. s.organization_id == org) p f ss (λ s. rw (orgs s) refl))
        (h.keyed org);
  sound = All-update_where IsSound p f ss keep h.sound;
}

-- A write to the one row of an organization.
pub kept_own :
    (org : ℕ) (p : Subscription → Bool) (f : Subscription → Subscription) (ss : List Subscription)
    {own : Subscription}
    → ((s : Subscription) → (f s).organization_id ≡ s.organization_id)
    → ((s : Subscription) → p s ≡ true → (s.organization_id == org) ≡ true)
    → first_where (λ s. s.organization_id == org) ss ≡ some own
    → (IsSound own → IsSound (f own))
    → AreSound ss
    → AreSound (update_where p f ss)
kept_own org p f ss orgs narrow found keep h = record {
  keyed = λ o.
      rw (count_where-update_where (λ s. s.organization_id == o) p f ss (λ s. rw (orgs s) refl))
        (h.keyed o);
  sound =
      All-update_within IsSound (λ s. s.organization_id == org) p f ss narrow (h.keyed org) found
        keep h.sound;
}

pub inserted :
    (s : Subscription) (ss : List Subscription)
    → first_where (λ r. r.organization_id == s.organization_id) ss ≡ none
    → IsSound s
    → AreSound ss
    → AreSound (s ∷ ss)
unfolding count_where
inserted s ss missing sound h = record {
  keyed = λ org.
      let absent = first_where-none (λ r. r.organization_id == s.organization_id) ss missing in
      elim (Bool-cases (s.organization_id == org)) [
        | inl e ↦
            let same : s.organization_id ≡ org = (==_iff s.organization_id org).0 e in
            let absent' : count_where (λ r. r.organization_id == org) ss ≡ 0 =
              subst (λ o. count_where (λ r. r.organization_id == o) ss ≡ 0) same absent in
            ground (arith, h.keyed org)
        | inr e ↦ ground (arith, h.keyed org)
      ];
  sound = (sound, h.sound);
}

clear_clock-AreSound :
    (org : ℕ) (db : Db) → AreSound db.subscriptions → AreSound (clear_clock org db).0.subscriptions
unfolding clear_clock
clear_clock-AreSound org db h =
    kept (has_clock org) without_clock db.subscriptions (λ s. refl)
      (λ s _ k. record { bounded = k.bounded; billed = k.billed; lower = k.lower }) h

pub clear_if-AreSound :
    (sh : Bool) (org : ℕ) (db : Db)
    → AreSound db.subscriptions
    → AreSound (clear_if_within_ceiling sh org db).subscriptions
unfolding clear_if_within_ceiling
clear_if-AreSound sh org db h = go (find_subscription db org)
  where
    go : (o : Option Subscription) → AreSound (clear_found sh org db o).subscriptions
    go none = h
    go (some sub) =
        elim (Bool-cases (
          is_some sub.over_capacity_since
          && fits (ceiling_of sh sub) (active_monitor_count db org))) [
            | inl t ↦ rw t (clear_clock-AreSound org db h)
            | inr t ↦ rw t h
          ]

pub resume-AreSound :
    (sh : Bool) (now org : ℕ) (before after : Option ℕ) (db : Db)
    → AreSound db.subscriptions
    → AreSound (resume_after_raise sh now org before after db).0.subscriptions
unfolding resume_after_raise
resume-AreSound sh now org before after db h =
    let n : ℕ = room before after (active_monitor_count db org) in
    elim (Bool-cases (n == 0)) [
      | inl t ↦ rw t h
      | inr t ↦ rw t (clear_if-AreSound sh org (resume_rows now (paused_rows org n db) db) h)
    ]

pub get_or_create-AreSound :
    (now id org : ℕ) (db : Db)
    → AreSound db.subscriptions
    → AreSound (get_or_create_subscription now id org db).0.subscriptions
unfolding get_or_create_subscription find_subscription
get_or_create-AreSound now id org db h = go (find_subscription db org) refl
  where
    go :
        (o : Option Subscription)
        → find_subscription db org ≡ o
        → AreSound (or_insert (free_subscription now id org) db o).0.subscriptions
    go none e =
        inserted (free_subscription now id org) db.subscriptions e
          (record { bounded = omega arith; billed = λ _. refl; lower = λ n e. cc }) h
    go (some s) e = h

-- The row of the organization that `getOrCreateSubscription` returns is in the table.
get_or_create-found :
    (now id org : ℕ) (db : Db)
    → let (ready, sub) = get_or_create_subscription now id org db in
      first_where (λ s. s.organization_id == org) ready.subscriptions ≡ some sub
unfolding get_or_create_subscription find_subscription first_where
get_or_create-found now id org db = go (find_subscription db org) refl
  where
    go :
        (o : Option Subscription)
        → find_subscription db org ≡ o
        → let (ready, sub) = or_insert (free_subscription now id org) db o in
          first_where (λ s. s.organization_id == org) ready.subscriptions ≡ some sub
    go none e = simp (==_refl org) refl
    go (some s) e = e

with_blocks-IsSound :
    (now blocks : ℕ) (sub s : Subscription)
    → blocks ≤ 40
    → is_block_eligible sub.plan_id ≡ true
    → IsSound sub
    → IsSound (with_blocks now blocks (is_scheduling blocks sub) sub)
with_blocks-IsSound now blocks sub s few eligible h = record {
  bounded = ground (arith, h.bounded);
  billed = λ e. ground arith;
  lower = λ n e. ground arith;
}

write_blocks-AreSound :
    (sh : Bool) (now org blocks : ℕ) (sub : Subscription) (db : Db)
    → blocks ≤ 40
    → is_block_eligible sub.plan_id ≡ true
    → first_where (λ s. s.organization_id == org) db.subscriptions ≡ some sub
    → AreSound db.subscriptions
    → AreSound (write_blocks sh now org blocks sub db).0.subscriptions
write_blocks-AreSound sh now org blocks sub db few eligible found h =
    resume-AreSound sh now org _ _ _ (
      kept_own org (λ s. s.organization_id == org)
        (with_blocks now blocks (is_scheduling blocks sub)) db.subscriptions (λ s. refl) (λ s t. t)
        found (with_blocks-IsSound now blocks sub sub few eligible) h)

pub set_blocks-AreSound :
    (sh : Bool) (now id org blocks : ℕ) (db : Db)
    → AreSound db.subscriptions
    → AreSound (set_blocks sh now id org blocks db).0.subscriptions
unfolding set_blocks
set_blocks-AreSound sh now id org blocks db h = elim (Bool-cases (ltb 40 blocks)) [
  | inl many ↦ rw many h
  | inr few ↦
      let (ready, sub) = get_or_create_subscription now id org db in
      let ready-AreSound = get_or_create-AreSound now id org db h in
      elim (Bool-cases (is_none (plans sub.plan_id) || not (is_block_eligible sub.plan_id))) [
        | inl t ↦ simp (few, t) ready-AreSound
        | inr t ↦
            simp (few, t)
              (go ready sub (ground arith) (ground arith) (get_or_create-found now id org db)
                ready-AreSound
                (if ltb sub.blocks blocks then other_block_holder ready sub else none))
      ]
]
  where
    go :
        (d : Db) (sub : Subscription)
        → blocks ≤ 40
        → is_block_eligible sub.plan_id ≡ true
        → first_where (λ s. s.organization_id == org) d.subscriptions ≡ some sub
        → AreSound d.subscriptions
        → (o : Option ℕ) → AreSound (unless_held sh now org blocks sub d o).0.subscriptions
    go d sub few eligible found k none =
        write_blocks-AreSound sh now org blocks sub d few eligible found k
    go d sub few eligible found k (some holder) = k

pub reduced-IsSound :
    (now at : ℕ) (s : Subscription) → is_reducing at s ≡ true → IsSound s → IsSound (reduced now s)
reduced-IsSound now at s t h = elim (Option-cases s.scheduled_blocks) [
  | inl e ↦ ground arith
  | inr (n, e) ↦
      let fewer = h.lower n e in
      simp e (record {
        bounded = omega (arith, h.bounded, fewer);
        billed = λ u. omega (arith, h.billed u, fewer);
        lower = λ k f. cc;
      })
]

pub synced-IsSound :
    (now : ℕ) (incoming : PolarSyncData) (s : Subscription)
    → IsSound s
    → IsSound (synced now incoming s s)
synced-IsSound now incoming s h = elim (Bool-cases (is_leaving s incoming)) [
  | inl leaving ↦
      simp leaving (record { bounded = omega arith; billed = λ u. refl; lower = λ n e. cc })
  | inr stays ↦ elim (Option-cases s.scheduled_blocks) [
    | inl e ↦ record {
      bounded = ground (arith, h.bounded);
      billed = λ u. ground (arith, h.billed);
      lower = λ n f. ground arith;
    }
    | inr (k, e) ↦
        let fewer = h.lower k e in
        record {
          bounded = ground (arith, h.bounded, fewer);
          billed = λ u. ground (arith, h.billed, fewer);
          lower = λ n f. ground (arith, h.lower n);
        }
  ]
]
