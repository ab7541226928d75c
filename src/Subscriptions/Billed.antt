-- ===== src/Subscriptions/Billed.antt =====
-- Sequences of operations on subscriptions (src/lib/server/services/subscription.service.ts).
use uppity.Base.{
  ℕ, ◌≡◌, refl, Bool, true, Option, none, some, arith, Bool-cases, inl, inr, ◌==◌, count_where,
  first_where,
}
use uppity.Tables.{Db, Subscription}
use uppity.Capacity.{find_subscription, clear_if_within_ceiling}
use uppity.Subscriptions.{
  get_or_create_subscription, set_blocks, apply_scheduled_reductions, is_reducing, reduced,
}
use uppity.Subscriptions.Sync.{
  PolarSyncData, HeldPolarSubscription, apply_sync, write_sync, sync_row, synced, is_synced,
  new_synced,
}
use uppity.Subscriptions.Blocks.{
  AreSound, kept, kept_own, inserted, clear_if-AreSound, resume-AreSound, get_or_create-AreSound,
  set_blocks-AreSound, reduced-IsSound, synced-IsSound,
}

-- One operation of the services on the subscription table.
pub data Change (sh : Bool) (db : Db) : Db → Type 0 where
  created : (now id org : ℕ) → Change sh db (get_or_create_subscription now id org db).0
  blocks_set : (now id org blocks : ℕ) → Change sh db (set_blocks sh now id org blocks db).0
  synced_from :
      (now id org : ℕ) (incoming : PolarSyncData) (held : Option HeldPolarSubscription)
      → Change sh db (apply_sync sh now id org incoming held db).0
  reductions_applied : (at now : ℕ) → Change sh db (apply_scheduled_reductions at now db).0
  cleared : (org : ℕ) → Change sh db (clear_if_within_ceiling sh org db)

pub data Changes (sh : Bool) (db : Db) : Db → Type 0 where
  here : Changes sh db db
  next : {a b : Db} → Changes sh db a → Change sh a b → Changes sh db b

is_synced-own :
    (org : ℕ) (held : Option HeldPolarSubscription) (s : Subscription)
    → is_synced org held s ≡ true
    → (s.organization_id == org) ≡ true
is_synced-own org none s t = t
is_synced-own org (some held) s t = ground arith

write_sync-AreSound :
    (sh : Bool) (now org : ℕ) (incoming : PolarSyncData) (held : Option HeldPolarSubscription)
    (existing : Subscription) (db : Db)
    → first_where (λ s. s.organization_id == org) db.subscriptions ≡ some existing
    → AreSound db.subscriptions
    → AreSound (write_sync sh now org incoming held existing db).0.subscriptions
write_sync-AreSound sh now org incoming held existing db found h =
    elim (Bool-cases (count_where (is_synced org held) db.subscriptions == 0)) [
      | inl t ↦ rw t h
      | inr t ↦ rw t (
          resume-AreSound sh now org _ _ _ (
            kept_own org (is_synced org held) (synced now incoming existing) db.subscriptions
              (λ s. refl) (is_synced-own org held) found (synced-IsSound now incoming existing) h))
    ]

apply_sync-AreSound :
    (sh : Bool) (now id org : ℕ) (incoming : PolarSyncData) (held : Option HeldPolarSubscription)
    (db : Db)
    → AreSound db.subscriptions
    → AreSound (apply_sync sh now id org incoming held db).0.subscriptions
unfolding apply_sync find_subscription
apply_sync-AreSound sh now id org incoming held db h = go held (find_subscription db org) refl
  where
    go :
        (held : Option HeldPolarSubscription) (o : Option Subscription)
        → find_subscription db org ≡ o
        → AreSound (sync_row sh now id org incoming held db o).0.subscriptions
    go held (some existing) e = write_sync-AreSound sh now org incoming held existing db e h
    go (some k) none e = h
    go none none e =
        inserted (new_synced now id org incoming) db.subscriptions e
          (record { bounded = omega arith; billed = λ _. refl; lower = λ n e. cc }) h

Change-AreSound :
    {sh : Bool} {db db' : Db}
    → Change sh db db'
    → AreSound db.subscriptions
    → AreSound db'.subscriptions
unfolding apply_scheduled_reductions
Change-AreSound {sh} {db} (created now id org) h = get_or_create-AreSound now id org db h
Change-AreSound {sh} {db} (blocks_set now id org blocks) h =
    set_blocks-AreSound sh now id org blocks db h
Change-AreSound {sh} {db} (synced_from now id org incoming held) h =
    apply_sync-AreSound sh now id org incoming held db h
Change-AreSound {sh} {db} (reductions_applied at now) h =
    kept (is_reducing at) (reduced now) db.subscriptions (λ s. refl) (reduced-IsSound now at) h
Change-AreSound {sh} {db} (cleared org) h = clear_if-AreSound sh org db h

-- If every subscription holds at most 40 blocks, holds none on a plan that is not billed for
-- them, has any reduction scheduled to fewer blocks than it holds, and is the only one of its
-- organization, then all this holds after any sequence of operations: rows created, blocks set,
-- webhooks applied, scheduled reductions applied, clocks cleared.
pub Changes-AreSound :
    {sh : Bool} {db db' : Db}
    → Changes sh db db'
    → AreSound db.subscriptions
    → AreSound db'.subscriptions
Changes-AreSound here h = h
Changes-AreSound (next before last) h = Change-AreSound last (Changes-AreSound before h)
