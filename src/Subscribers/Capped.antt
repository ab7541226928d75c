-- ===== src/Subscribers/Capped.antt =====
-- The confirmations that a page sends in a day (src/lib/server/services/status-page-subscriber.service.ts).
use mathlib.Core.Path.{subst}
use uppity.Base.{
  ℕ, ◌+◌, ◌≤◌, ◌<◌, ◌≡◌, refl, String, true, false, not, ◌&&◌, Option, none, some, List, [], ◌∷◌,
  arith, Bool-cases, inl, inr, leb, ltb, ◌==◌, if◌then◌else◌, holds, any, trim, count_where,
  count_where_mono, count_where-delete_le, count_where-update_le, ==_iff,
}
use uppity.Mail.{MailRefusal, suppressed, blocked, at_ceiling}
use uppity.Subscribers.{
  Subscriber, Page, SubscriberDb, MailSettings, SubscribeCalls, subscribe, subscriber_email_enabled,
  cap_of, sent_within, is_sent, unless_refused, after_upsert, upsert, resend_row, is_row,
  may_resend,
}
use uppity.Subscribers.Links.{
  confirm, confirms, unsubscribe, has_token, delete_expired_unconfirmed_subscribers,
  delete_suppressed_subscribers,
}

-- A call of the service or of its maintenance, at a time.
pub data Call : Type 0 where
  subscribes : SubscribeCalls → Page → String → Call
  confirms_link : ℕ → ℕ → Call
  unsubscribes : ℕ → ℕ → Call
  sweeps_expired sweeps_suppressed : Call

unfoldable pub perform : MailSettings → ℕ → Call → SubscriberDb → SubscriberDb
perform cfg now (subscribes calls page email) db =
    (subscribe cfg (record calls { now = now }) page email db).0
perform cfg now (confirms_link page token) db = (confirm now page token db).0
perform cfg now (unsubscribes page token) db = unsubscribe page token db
perform cfg now sweeps_expired db = (delete_expired_unconfirmed_subscribers now db).0
perform cfg now sweeps_suppressed db = (delete_suppressed_subscribers cfg now db).0

-- The calls one after another, each some time after the one before; the time goes along.
unfoldable pub perform_all : MailSettings → ℕ → List (ℕ × Call) → SubscriberDb → ℕ × SubscriberDb
unfolding perform
perform_all cfg now [] db = (now, db)
perform_all cfg now ((wait, call) ∷ calls) db =
    perform_all cfg (now + wait) calls (perform cfg (now + wait) call db)

module _ (k now : ℕ) where
  later-sent_within :
      (wait : ℕ) (db : SubscriberDb) → sent_within (now + wait) k db ≤ sent_within now k db
  later-sent_within wait db =
      count_where_mono (is_sent (now + wait) k) (is_sent now k) db.subscribers
        (λ s h. go s s.confirmation_sent_at h)
    where
      go :
          (s : Subscriber) (t : Option ℕ)
          → ((s.status_page_id == k) && holds (λ t. ltb (now + wait) (t + 86400000)) t) ≡ true
          → ((s.status_page_id == k) && holds (λ t. ltb now (t + 86400000)) t) ≡ true
      go s none h = ground arith
      go s (some t) h = ground arith

  -- A row that is written again counts once more, and only on its page.
  resend_row-counted :
      (page : ℕ) (email : String) (rows : List Subscriber)
      → count_where (is_sent now k) (resend_row now page email rows).0
        ≤ count_where (is_sent now k) rows + (if page == k then 1 else 0)
  unfolding resend_row count_where
  resend_row-counted page email [] = omega arith
  resend_row-counted page email (s ∷ ss) =
      let rest = resend_row-counted page email ss in
      elim (Bool-cases (is_row page email s)) [
        | inl e ↦ elim (Bool-cases (may_resend now s)) [
          | inl m ↦ rw (e, m) (ground arith)
          | inr m ↦ rw (e, m) (omega arith)
        ]
        | inr e ↦ rw e (ground (arith, rest))
      ]

  upsert-counted :
      (calls : SubscribeCalls) (page : ℕ) (email : String) (rows : List Subscriber)
      → calls.now ≡ now
      → count_where (is_sent now k) (upsert calls page email rows).0
        ≤ count_where (is_sent now k) rows + (if page == k then 1 else 0)
  unfolding upsert count_where
  upsert-counted calls page email rows e = elim (Bool-cases (any (is_row page email) rows)) [
    | inl a ↦ rw (a, e) (resend_row-counted page email rows)
    | inr a ↦ rw (a, e) (ground arith)
  ]

  after_upsert-counted :
      (calls : SubscribeCalls) (email : String) (db : SubscriberDb)
      (r : List Subscriber × Option Subscriber)
      → sent_within now k (after_upsert calls email db r).0 ≤ count_where (is_sent now k) r.0
  after_upsert-counted calls email db (rows, none) = omega arith
  after_upsert-counted calls email db (rows, some s) = elim (Bool-cases calls.is_delivered) [
    | inl d ↦ rw d (omega arith)
    | inr d ↦ rw d (
        count_where-update_le (is_sent now k) (λ r. r.id == s.id)
          (λ r. record r { confirmation_sent_at = none }) rows (λ r h. ground arith))
  ]

  module _ (cfg : MailSettings) where
    unless_refused-capped :
        (calls : SubscribeCalls) (page : Page) (email : String) (db : SubscriberDb)
        (o : Option MailRefusal)
        → calls.now ≡ now
        → sent_within now page.id db < cfg.max_sends
        → sent_within now k db ≤ cfg.max_sends
        → sent_within now k (unless_refused calls page email db o).0 ≤ cfg.max_sends
    unless_refused-capped calls page email db (some suppressed) e below h = h
    unless_refused-capped calls page email db (some blocked) e below h = h
    unless_refused-capped calls page email db (some at_ceiling) e below h = h
    unless_refused-capped calls page email db none e below h =
        let written = upsert-counted calls page.id email db.subscribers e in
        let counted =
          after_upsert-counted calls email db (upsert calls page.id email db.subscribers) in
        elim (Bool-cases (page.id == k)) [
          | inl p ↦
              let here : sent_within now k db < cfg.max_sends =
                subst (λ x. sent_within now x db < cfg.max_sends) ((==_iff page.id k).0 p) below in
              ground (arith, here, written, counted)
          | inr p ↦ ground (arith, written, counted)
        ]

    passed_cap :
        (calls : SubscribeCalls) (page : Page) (db : SubscriberDb)
        → calls.now ≡ now
        → leb (cap_of cfg page.id db) (sent_within calls.now page.id db) ≡ false
        → sent_within now page.id db < cfg.max_sends
    unfolding cap_of
    passed_cap calls page db e c =
        let c' = subst (λ t. leb (cap_of cfg page.id db) (sent_within t page.id db) ≡ false) e c in
        ground (arith, c')

    subscribe-capped :
        (calls : SubscribeCalls) (page : Page) (email : String) (db : SubscriberDb)
        → calls.now ≡ now
        → sent_within now k db ≤ cfg.max_sends
        → sent_within now k (subscribe cfg calls page email db).0 ≤ cfg.max_sends
    unfolding subscribe
    subscribe-capped calls page email db e h =
        elim (Bool-cases (not (subscriber_email_enabled cfg page.organization_id db))) [
          | inl p ↦ rw p h
          | inr p ↦
              elim (Bool-cases (leb (cap_of cfg page.id db) (sent_within calls.now page.id db))) [
                | inl c ↦ rw (p, c) h
                | inr c ↦
                    rw (p, c)
                      (unless_refused-capped calls page (calls.lower_case (trim email)) db _ e
                        (passed_cap calls page db e c) h)
              ]
        ]

    perform-capped :
        (call : Call) (db : SubscriberDb)
        → sent_within now k db ≤ cfg.max_sends
        → sent_within now k (perform cfg now call db) ≤ cfg.max_sends
    unfolding perform confirm unsubscribe delete_expired_unconfirmed_subscribers
        delete_suppressed_subscribers
    perform-capped (subscribes calls page email) db h =
        subscribe-capped (record calls { now = now }) page email db refl h
    perform-capped (confirms_link page token) db h = omega (
      arith,
      count_where-update_le (is_sent now k) (confirms now page token)
          (λ s. record s { verified_at = some now }) db.subscribers (λ s p. p),
    )
    perform-capped (unsubscribes page token) db h =
        omega (arith, count_where-delete_le (is_sent now k) (has_token page token) db.subscribers)
    perform-capped sweeps_expired db h =
        omega (arith, count_where-delete_le (is_sent now k) _ db.subscribers)
    perform-capped sweeps_suppressed db h =
        omega (arith, count_where-delete_le (is_sent now k) _ db.subscribers)

-- If at some time no more subscribers of a page than the operator's maximum were sent a
-- confirmation in the 24 hours before, then this holds at the end of any sequence of
-- subscriptions, confirmations, unsubscriptions and sweeps, each some time after the one before,
-- however many addresses visitors type.
pub perform_all-capped :
    (cfg : MailSettings) (k now : ℕ) (calls : List (ℕ × Call)) (db : SubscriberDb)
    → sent_within now k db ≤ cfg.max_sends
    → let (end, db') = perform_all cfg now calls db in sent_within end k db' ≤ cfg.max_sends
unfolding perform_all
perform_all-capped cfg k now [] db h = h
perform_all-capped cfg k now ((wait, call) ∷ calls) db h =
    let there : sent_within (now + wait) k db ≤ cfg.max_sends =
      omega (arith, later-sent_within k now wait db) in
    perform_all-capped cfg k (now + wait) calls (perform cfg (now + wait) call db)
      (perform-capped k (now + wait) cfg call db there)
