-- ===== src/Subscribers.antt =====
-- Subscribers of a public status page (src/lib/server/services/status-page-subscriber.service.ts).
pub mod Links
pub mod Alike
pub mod Capped
pub mod Resent
pub mod Pending
pub mod Confirmed
use uppity.Base.{
  ℕ, ◌+◌, ◌*◌, ◌/◌, min, max, String, Bool, true, false, not, ◌&&◌, ◌||◌, Option, none, some, List,
  [], ◌∷◌, leb, ltb, ◌==◌, if◌then◌else◌, is_some, is_none, holds, any, first_where, count_where,
  update_where, delete_where, same_text, trim,
}
use uppity.Mail.{
  MailDb, MailRefusal, suppressed, refusal, record_send, release_send, UnsolicitedSend, one_day_ms,
}

pub record Subscriber : Type 0 where
  pub id : ℕ
  pub status_page_id : ℕ
  pub email : String
  pub token : ℕ
  pub confirmation_sent_at : Option ℕ
  pub verified_at : Option ℕ

pub record Page : Type 0 where
  pub id : ℕ
  pub organization_id : ℕ

-- The column of an organization that turns its subscriber email on.
pub record OrganizationSwitch : Type 0 where
  pub id : ℕ
  pub has_subscriber_email : Bool

pub record SubscriberDb : Type 0 where
  pub subscribers : List Subscriber
  pub pages : List Page
  pub organizations : List OrganizationSwitch
  pub mail : MailDb

pub data SubscriberState : Type 0 where
  pending confirmed : SubscriberState

-- `SubscribeResult`, and `failed` where `subscribe` throws the error of the mail server.
pub data SubscribeResult : Type 0 where
  sent capped paused failed : SubscribeResult

-- The operator's settings: whether subscriber email is off by default, the cap of a page, and the
-- ceiling of the instance.
pub record MailSettings : Type 0 where
  pub gated : Bool
  pub base : ℕ
  pub percent_of_confirmed : ℕ
  pub max_sends : ℕ
  pub ceiling : ℕ
  pub suppressed_retention_days : ℕ

-- What the platform returns to one call: the clock, new identifiers, a new token, `toLowerCase`,
-- and whether the mail server takes the email.
pub record SubscribeCalls : Type 0 where
  pub now : ℕ
  pub id : ℕ
  pub token : ℕ
  pub send_id : ℕ
  pub sent_stamp : ℕ
  pub lower_case : String → String
  pub is_delivered : Bool

abbrev pub confirmation_ttl_ms : ℕ
confirmation_ttl_ms = 172800000

abbrev pub resend_interval_ms : ℕ
resend_interval_ms = 86400000

-- `subscriberEmailEnabled` (src/lib/server/notifications/subscribers.ts)
unfoldable pub subscriber_email_enabled : MailSettings → ℕ → SubscriberDb → Bool
subscriber_email_enabled cfg org db =
    not cfg.gated
    || holds (λ o. o.has_subscriber_email) (first_where (λ o. o.id == org) db.organizations)

-- A confirmation of this page that went out within the resend interval.
abbrev pub is_sent : ℕ → ℕ → Subscriber → Bool
is_sent now page s =
    (s.status_page_id == page)
    && holds (λ t. ltb now (t + resend_interval_ms)) s.confirmation_sent_at

-- `sent`
abbrev pub sent_within : ℕ → ℕ → SubscriberDb → ℕ
sent_within now page db = count_where (is_sent now page) db.subscribers

-- `cap`
unfoldable pub cap_of : MailSettings → ℕ → SubscriberDb → ℕ
cap_of cfg page db =
    let confirmed =
      count_where (λ s. (s.status_page_id == page) && is_some s.verified_at) db.subscribers in
    min cfg.max_sends (max cfg.base ((confirmed * cfg.percent_of_confirmed) / 100))

-- The row of an address on a page.
abbrev pub is_row : ℕ → String → Subscriber → Bool
is_row page email s = (s.status_page_id == page) && same_text s.email email

-- `setWhere`
abbrev pub may_resend : ℕ → Subscriber → Bool
may_resend now s =
    is_none s.verified_at
    && (is_none s.confirmation_sent_at
        || holds (λ t. ltb (t + resend_interval_ms) now) s.confirmation_sent_at)

abbrev pub new_subscriber : SubscribeCalls → ℕ → String → Subscriber
new_subscriber calls page email = record {
  id = calls.id;
  status_page_id = page;
  email = email;
  token = calls.token;
  confirmation_sent_at = some calls.now;
  verified_at = none;
}

abbrev pub resent : ℕ → Subscriber → Subscriber
resent now s = record s { confirmation_sent_at = some now }

-- The update of the row in conflict, and the row that it returns, if it changes it. A page has one
-- row for an address, by the unique index.
unfoldable pub resend_row : ℕ → ℕ → String → List Subscriber → List Subscriber × Option Subscriber
resend_row now page email [] = ([], none)
resend_row now page email (s ∷ ss) =
    let rest = resend_row now page email ss in
    if is_row page email s
    then if may_resend now s then (resent now s ∷ ss, some (resent now s)) else (s ∷ ss, none)
    else (s ∷ rest.0, rest.1)

-- The insert with `ON CONFLICT DO UPDATE`
unfoldable pub upsert :
    SubscribeCalls → ℕ → String → List Subscriber → List Subscriber × Option Subscriber
unfolding resend_row
upsert calls page email rows =
    if any (is_row page email) rows
    then resend_row calls.now page email rows
    else (new_subscriber calls page email ∷ rows, some (new_subscriber calls page email))

abbrev pub visitor_send : SubscribeCalls → String → UnsolicitedSend
visitor_send calls email = record {
  id = calls.send_id;
  organization_id = none;
  email = email;
  sent_at = calls.sent_stamp;
}

-- The email itself, after the transaction; a failure gives the row and the send back.
abbrev pub send_confirmation :
    SubscribeCalls → SubscriberDb → Subscriber → SubscriberDb × SubscribeResult
send_confirmation calls db s = if calls.is_delivered then (db, sent) else (
  record db {
    subscribers =
        update_where (λ r. r.id == s.id) (λ r. record r { confirmation_sent_at = none })
          db.subscribers;
    mail = release_send calls.send_id db.mail;
  },
  failed,
)

abbrev pub after_upsert :
    SubscribeCalls
    → String
    → SubscriberDb
    → List Subscriber × Option Subscriber
    → SubscriberDb × SubscribeResult
after_upsert calls email db (rows, none) = (record db { subscribers = rows }, sent)
after_upsert calls email db (rows, some s) =
    send_confirmation calls
      (record db { subscribers = rows; mail = record_send (visitor_send calls email) db.mail }) s

abbrev pub unless_refused :
    SubscribeCalls
    → Page
    → String
    → SubscriberDb
    → Option MailRefusal
    → SubscriberDb × SubscribeResult
unless_refused calls page email db (some suppressed) = (db, sent)
unless_refused calls page email db (some refused) = (db, paused)
unless_refused calls page email db none =
    after_upsert calls email db (upsert calls page.id email db.subscribers)

-- `subscribe`
unfoldable pub subscribe :
    MailSettings → SubscribeCalls → Page → String → SubscriberDb → SubscriberDb × SubscribeResult
unfolding upsert
subscribe cfg calls page email db =
    let address = calls.lower_case (trim email) in
    if not (subscriber_email_enabled cfg page.organization_id db)
    then (db, paused)
    else if leb (cap_of cfg page.id db) (sent_within calls.now page.id db)
    then (db, capped)
    else unless_refused calls page address db
        (refusal cfg.ceiling calls.now true page.organization_id address db.mail)
