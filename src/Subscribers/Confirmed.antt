-- ===== src/Subscribers/Confirmed.antt =====
-- From a subscription to its confirmation and its end
-- (src/lib/server/services/status-page-subscriber.service.ts).
use mathlib.Core.Path.{subst}
use uppity.Base.{
  is_none, holds, ltb, ◌||◌, sym, count_where, ◌≤◌, arith, Option, ◌&&◌, ℕ, ◌+◌, ◌<◌, ◌≡◌, refl, ap,
  String, Bool, true, false, none, some, List, [], ◌∷◌, Bool-cases, inl, inr, leb, ==_refl, any,
  trim, first_where,
}
use uppity.Mail.{refusal, record_send}
use uppity.Subscribers.{
  SubscribeResult, resend_interval_ms, Subscriber, Page, SubscriberDb, confirmed, pending,
  MailSettings, SubscribeCalls, subscribe, subscriber_email_enabled, cap_of, sent_within, upsert,
  new_subscriber, is_row, visitor_send, sent, may_resend, resent, resend_row,
}
use uppity.Subscribers.Links.{lookup, confirm, unsubscribe, has_token}
use uppity.Subscribers.Resent.{resend_row-Resends}
use uppity.Subscribers.Pending.{IsPending, unsubscribe-lookup, pending-confirm, expired-confirm}

-- The row that a subscription of an address leaves: a new one, or the address's own unconfirmed row,
-- whose last email failed or is older than the resend interval. No other row of the page has its
-- token.
pub data Admits (calls : SubscribeCalls) (page : ℕ) (email : String) (rows : List Subscriber)
    : ℕ → Type 0 where
  new_address :
      any (is_row page email) rows ≡ false
      → count_where (has_token page calls.token) rows ≡ 0
      → Admits calls page email rows calls.token
  own_row :
      (s : Subscriber)
      → first_where (is_row page email) rows ≡ some s
      → first_where (has_token page s.token) rows ≡ some s
      → count_where (has_token page s.token) rows ≤ 1
      → may_resend calls.now s ≡ true
      → Admits calls page email rows s.token

-- A page that takes the address: nothing refuses it, it is new there or may be asked again, and its
-- email goes out. The token is the one in the link.
pub record IsTaken (cfg : MailSettings) (calls : SubscribeCalls) (page : Page) (email : String)
    (token : ℕ) (db : SubscriberDb) : Type 0 where
  pub enabled : subscriber_email_enabled cfg page.organization_id db ≡ true
  pub below : leb (cap_of cfg page.id db) (sent_within calls.now page.id db) ≡ false
  pub allowed :
      refusal cfg.ceiling calls.now true page.organization_id
        (calls.lower_case (trim email))
        db.mail
      ≡ none
  pub admitted : Admits calls page.id (calls.lower_case (trim email)) db.subscribers token
  pub delivered : calls.is_delivered ≡ true

listed :
    (p : Subscriber → Bool) (xs : List Subscriber) {s : Subscriber}
    → first_where p xs ≡ some s
    → any p xs ≡ true
unfolding first_where
listed p [] e = cc
listed p (x ∷ xs) e = elim (Bool-cases (p x)) [
  | inl h ↦ rw h refl
  | inr h ↦ rw h (listed p xs (rw h at e))
]

-- A row that may be asked again is not confirmed.
unconfirmed :
    (now : ℕ) (v c : Option ℕ)
    → (is_none v && (is_none c || holds (λ t. ltb (t + resend_interval_ms) now) c)) ≡ true
    → v ≡ none
unconfirmed now none c e = refl
unconfirmed now (some v) c e = cc

-- The database after a subscription that is taken, with the row that it leaves.
record IsSubscribed (cfg : MailSettings) (calls : SubscribeCalls) (page : Page) (email : String)
    (token : ℕ) (db : SubscriberDb) : Type 0 where
  answer : (subscribe cfg calls page email db).1 ≡ sent
  waiting : IsPending page.id token calls.now (subscribe cfg calls page email db).0.subscribers

module _ (cfg : MailSettings) (calls : SubscribeCalls) (page : Page) (email : String)
    (db : SubscriberDb) where
  address : String
  address = calls.lower_case (trim email)

  -- A subscription that nothing refuses, by what its upsert returns.
  subscribe-upsert :
      {token : ℕ} {rows : List Subscriber} {s : Subscriber}
      → IsTaken cfg calls page email token db
      → upsert calls page.id address db.subscribers ≡ (rows, some s)
      → IsPending page.id token calls.now rows
      → IsSubscribed cfg calls page email token db
  unfolding subscribe address
  subscribe-upsert {token} {rows} {s} t e waits = record {
    answer = ap (λ r. r.1) whole;
    waiting =
        subst (IsPending page.id token calls.now) (sym (ap (λ r. r.0.subscribers) whole)) waits;
  }
    where
      done : SubscriberDb × SubscribeResult
      done = (
        record db { subscribers = rows; mail = record_send (visitor_send calls address) db.mail },
        sent,
      )

      whole : subscribe cfg calls page email db ≡ done
      whole = rw (t.enabled, t.below, t.allowed, e, t.delivered) refl

  new-IsPending :
      count_where (has_token page.id calls.token) db.subscribers ≡ 0
      → IsPending page.id calls.token calls.now
          (new_subscriber calls page.id address ∷ db.subscribers)
  unfolding first_where count_where
  new-IsPending none_there = record {
    row = new_subscriber calls page.id address;
    found = rw (==_refl page.id, ==_refl calls.token) refl;
    only = rw (==_refl page.id, ==_refl calls.token) (omega (arith, none_there));
    unverified = refl;
    stamped = refl;
  }

  taken-IsSubscribed :
      {token : ℕ}
      → IsTaken cfg calls page email token db
      → IsSubscribed cfg calls page email token db
  unfolding upsert address
  taken-IsSubscribed t = go t t.admitted
    where
      go :
          {token : ℕ}
          → IsTaken cfg calls page email token db
          → Admits calls page.id address db.subscribers token
          → IsSubscribed cfg calls page email token db
      go t (new_address unknown unused) =
          subscribe-upsert {s = new_subscriber calls page.id address} t (rw unknown refl)
            (new-IsPending unused)
      go t (own_row s e f only m) =
          let (found, returned, counted) =
            resend_row-Resends (has_token page.id s.token) calls.now page.id address db.subscribers
              (λ x. refl) e f m in
          subscribe-upsert {s = resent calls.now s} t
            (rw (listed (is_row page.id address) db.subscribers e)
              (ap (λ o. ((resend_row calls.now page.id address db.subscribers).0, o)) returned))
            (record {
              row = resent calls.now s;
              found = found;
              only = rw counted only;
              unverified = unconfirmed calls.now s.verified_at s.confirmation_sent_at m;
              stamped = refl;
            })

-- An address that a page takes, a new one or one whose unconfirmed row may be asked again, is
-- waiting for its confirmation for 48 hours. Within them the link confirms it, and then at any later
-- time the page's link says that it is confirmed; after it unsubscribes the link is unknown. If the
-- link has not been used, it is unknown from the end of the 48 hours on, and it confirms nothing.
pub subscribe-confirm-lookup :
    (cfg : MailSettings) (calls : SubscribeCalls) (page : Page) (email : String) (token : ℕ)
    (db : SubscriberDb) (now later late : ℕ)
    → IsTaken cfg calls page email token db
    → now < calls.now + 172800000
    → calls.now + 172800000 ≤ late
    → let (subscribed_db, result) = subscribe cfg calls page email db in
      let (confirmed_db, answer) = confirm now page.id token subscribed_db in
      (result ≡ sent)
      × (lookup now page.id token subscribed_db ≡ some pending)
      × (answer ≡ true)
      × (lookup later page.id token confirmed_db ≡ some confirmed)
      × (lookup later page.id token (unsubscribe page.id token confirmed_db) ≡ none)
      × (lookup late page.id token subscribed_db ≡ none)
      × (confirm late page.id token subscribed_db ≡ (subscribed_db, false))
subscribe-confirm-lookup cfg calls page email token db now later late t h g =
    let done = taken-IsSubscribed cfg calls page email db t in
    let subscribed_db = (subscribe cfg calls page email db).0 in
    let (waits, answers, lasts) =
      pending-confirm page.id token calls.now subscribed_db now later done.waiting h in
    let (unknown, unconfirmed) =
      expired-confirm page.id token calls.now subscribed_db late done.waiting g in
    (
      done.answer,
      waits,
      answers,
      lasts,
      unsubscribe-lookup later page.id token _,
      unknown,
      unconfirmed,
    )
