-- ===== src/Subscribers/Links.antt =====
-- The links in the mail to subscribers, and the deletion of subscribers that keep no link
-- (src/lib/server/services/status-page-subscriber.service.ts).
use uppity.Base.{
  ℕ, ◌+◌, ◌*◌, Bool, true, false, ◌&&◌, ◌||◌, Option, none, some, ltb, ◌==◌, if◌then◌else◌, is_some,
  is_none, holds, any, first_where, count_where, update_where, delete_where, same_text,
}
use uppity.Mail.{MailDb, one_day_ms}
use uppity.Subscribers.{
  Subscriber, Page, SubscriberDb, SubscriberState, pending, confirmed, MailSettings,
  confirmation_ttl_ms, subscriber_email_enabled,
}

abbrev pub has_token : ℕ → ℕ → Subscriber → Bool
has_token page token s = (s.status_page_id == page) && (s.token == token)

-- After `confirmationCutoff`.
abbrev pub is_fresh : ℕ → Subscriber → Bool
is_fresh now s = holds (λ t. ltb now (t + confirmation_ttl_ms)) s.confirmation_sent_at

abbrev pub state_of : ℕ → Option Subscriber → Option SubscriberState
state_of now none = none
state_of now (some s) =
    if is_some s.verified_at then some confirmed else if is_fresh now s then some pending else none

-- `lookup`
unfoldable pub lookup : ℕ → ℕ → ℕ → SubscriberDb → Option SubscriberState
lookup now page token db = state_of now (first_where (has_token page token) db.subscribers)

abbrev pub is_confirmed : Option SubscriberState → Bool
is_confirmed (some confirmed) = true
is_confirmed _ = false

abbrev pub confirms : ℕ → ℕ → ℕ → Subscriber → Bool
confirms now page token s = has_token page token s && is_none s.verified_at && is_fresh now s

-- `confirm`
unfoldable pub confirm : ℕ → ℕ → ℕ → SubscriberDb → SubscriberDb × Bool
unfolding lookup
confirm now page token db =
    let row = first_where (confirms now page token) db.subscribers in
    let written : SubscriberDb = record db {
      subscribers =
          update_where (confirms now page token) (λ s. record s { verified_at = some now })
            db.subscribers;
    } in
    (written, is_some row || is_confirmed (lookup now page token written))

-- `unsubscribe`
unfoldable pub unsubscribe : ℕ → ℕ → SubscriberDb → SubscriberDb
unsubscribe page token db = record db {
  subscribers = delete_where (has_token page token) db.subscribers;
}

abbrev pub page_if : MailSettings → SubscriberDb → Subscriber → Option Page → Option ℕ
page_if cfg db s none = none
page_if cfg db s (some p) =
    if subscriber_email_enabled cfg p.organization_id db then some s.status_page_id else none

abbrev pub page_of : MailSettings → SubscriberDb → Option Subscriber → Option ℕ
page_of cfg db none = none
page_of cfg db (some s) = page_if cfg db s (first_where (λ p. p.id == s.status_page_id) db.pages)

-- `pageIdFor`
unfoldable pub page_id_for : MailSettings → ℕ → SubscriberDb → Option ℕ
unfolding subscriber_email_enabled
page_id_for cfg token db = page_of cfg db (first_where (λ s. s.token == token) db.subscribers)

abbrev pub is_link_expired : ℕ → Subscriber → Bool
is_link_expired now s =
    is_none s.verified_at
    && (is_none s.confirmation_sent_at
        || holds (λ t. ltb (t + confirmation_ttl_ms) now) s.confirmation_sent_at)

-- `deleteExpiredUnconfirmedSubscribers`
unfoldable pub delete_expired_unconfirmed_subscribers : ℕ → SubscriberDb → SubscriberDb × ℕ
delete_expired_unconfirmed_subscribers now db = (
  record db { subscribers = delete_where (is_link_expired now) db.subscribers },
  count_where (is_link_expired now) db.subscribers,
)

abbrev pub is_long_suppressed : MailSettings → ℕ → MailDb → Subscriber → Bool
is_long_suppressed cfg now mail s =
    any
      (λ x.
        same_text x.email s.email
        && ltb (x.suppressed_at + cfg.suppressed_retention_days * one_day_ms) now)
      mail.suppressions

-- `deleteSuppressedSubscribers`
unfoldable pub delete_suppressed_subscribers : MailSettings → ℕ → SubscriberDb → SubscriberDb × ℕ
delete_suppressed_subscribers cfg now db = (
  record db { subscribers = delete_where (is_long_suppressed cfg now db.mail) db.subscribers },
  count_where (is_long_suppressed cfg now db.mail) db.subscribers,
)
