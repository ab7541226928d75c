-- ===== src/Subscribers/Alike.antt =====
-- What a visitor sees of a subscription (src/lib/server/services/status-page-subscriber.service.ts).
use uppity.Base.{
  ◌≡◌, refl, sym, ◌∙◌, String, true, not, Option, none, some, List, Bool-cases, inl, inr, leb,
  if◌then◌else◌, trim,
}
use uppity.Mail.{refusal, is_blocked, over_ceiling, is_suppressed}
use uppity.Subscribers.{
  Subscriber, Page, SubscriberDb, SubscribeResult, sent, capped, paused, MailSettings,
  SubscribeCalls, subscribe, subscriber_email_enabled, cap_of, sent_within, unless_refused,
  after_upsert,
}

-- The answer, from what does not depend on the address.
abbrev answer_for : MailSettings → SubscribeCalls → Page → SubscriberDb → SubscribeResult
answer_for cfg calls page db =
    if not (subscriber_email_enabled cfg page.organization_id db)
    then paused
    else if leb (cap_of cfg page.id db) (sent_within calls.now page.id db)
    then capped
    else if is_blocked db.mail page.organization_id
    then paused
    else if over_ceiling cfg.ceiling calls.now true db.mail
    then paused
    else sent

module _ (cfg : MailSettings) (calls : SubscribeCalls) (page : Page) where
  after_upsert-sent :
      (email : String) (db : SubscriberDb) (r : List Subscriber × Option Subscriber)
      → calls.is_delivered ≡ true
      → (after_upsert calls email db r).1 ≡ sent
  after_upsert-sent email db (rows, none) h = refl
  after_upsert-sent email db (rows, some s) h = rw h refl

  unless_refused-answer :
      (email : String) (db : SubscriberDb)
      → calls.is_delivered ≡ true
      → (unless_refused calls page email db
          (refusal cfg.ceiling calls.now true page.organization_id email db.mail)).1
        ≡ (if is_blocked db.mail page.organization_id
            then paused
            else if over_ceiling cfg.ceiling calls.now true db.mail
            then paused
            else sent)
  unfolding refusal
  unless_refused-answer email db h = elim (Bool-cases (is_blocked db.mail page.organization_id)) [
    | inl e ↦ rw e refl
    | inr e ↦ elim (Bool-cases (over_ceiling cfg.ceiling calls.now true db.mail)) [
      | inl o ↦ rw (e, o) refl
      | inr o ↦ elim (Bool-cases (is_suppressed db.mail email)) [
        | inl x ↦ rw (e, o, x) refl
        | inr x ↦ rw (e, o, x) (after_upsert-sent email db _ h)
      ]
    ]
  ]

  subscribe-answer :
      (email : String) (db : SubscriberDb)
      → calls.is_delivered ≡ true
      → (subscribe cfg calls page email db).1 ≡ answer_for cfg calls page db
  unfolding subscribe
  subscribe-answer email db h =
      elim (Bool-cases (not (subscriber_email_enabled cfg page.organization_id db))) [
        | inl e ↦ rw e refl
        | inr e ↦
            elim (Bool-cases (leb (cap_of cfg page.id db) (sent_within calls.now page.id db))) [
              | inl c ↦ rw (e, c) refl
              | inr c ↦ rw (e, c) (unless_refused-answer (calls.lower_case (trim email)) db h)
            ]
      ]

-- As long as the mail server takes the mail, the answer to a visitor does not depend on the address
-- that the visitor types: any two addresses get the same one, whether they subscribe already, wait
-- for a confirmation, are suppressed or are new, so the form reveals nothing of an address.
pub subscribe_alike :
    (cfg : MailSettings) (calls : SubscribeCalls) (page : Page) (email other : String)
    (db : SubscriberDb)
    → calls.is_delivered ≡ true
    → (subscribe cfg calls page email db).1 ≡ (subscribe cfg calls page other db).1
subscribe_alike cfg calls page email other db h =
    subscribe-answer cfg calls page email db h ∙ sym (subscribe-answer cfg calls page other db h)
