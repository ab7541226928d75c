-- ===== src/Tests/Mailing.antt =====
-- Mail to addresses that never agreed to it, at one page.
use uppity.Base.{
  ℕ, ◌+◌, ◌*◌, ◌≤◌, ◌<◌, ◌≡◌, refl, String, true, false, none, some, List, [], ◌∷◌, arith,
}
use uppity.Mail.{MailDb, MailFailure, Thresholds, bounce, complaint, record_mail_failure}
use uppity.Mail.Repeated.{record_mail_failure-repeated}
use uppity.Subscribers.{
  Subscriber, Page, SubscriberDb, MailSettings, SubscribeCalls, subscribe, sent, capped, paused,
  confirmed, pending, sent_within,
}
use uppity.Subscribers.Links.{lookup, confirm, unsubscribe}
use uppity.Subscribers.Alike.{subscribe_alike}
use uppity.Subscribers.Capped.{Call, subscribes, confirms_link, perform_all, perform_all-capped}
use uppity.Subscribers.Confirmed.{IsTaken, new_address, subscribe-confirm-lookup}

abbrev settings : MailSettings
settings = record {
  gated = false;
  base = 2;
  percent_of_confirmed = 25;
  max_sends = 2;
  ceiling = 1000;
  suppressed_retention_days = 90;
}

abbrev calls : ℕ → SubscribeCalls
calls n = record {
  now = 1000;
  id = n;
  token = n + 100;
  send_id = n + 200;
  sent_stamp = 1000;
  lower_case = λ s. s;
  is_delivered = true;
}

abbrev page : Page
page = record { id = 4; organization_id = 7 }

abbrev pub no_mail : MailDb
no_mail = record { suppressions = []; events = []; sends = []; blocks = [] }

abbrev member : Subscriber
member = record {
  id = 1;
  status_page_id = 4;
  email = "a@x.example";
  token = 11;
  confirmation_sent_at = some 500;
  verified_at = some 700;
}

abbrev subscribers_of_page : SubscriberDb
subscribers_of_page = record {
  subscribers = member ∷ [];
  pages = page ∷ [];
  organizations = [];
  mail = no_mail;
}

-- An address that subscribes already, and one that does not.
subscribe_alike_example :
    (subscribe settings (calls 2) page "a@x.example" subscribers_of_page).1
    ≡ (subscribe settings (calls 2) page "b@x.example" subscribers_of_page).1
subscribe_alike_example =
    subscribe_alike settings (calls 2) page "a@x.example" "b@x.example" subscribers_of_page refl

abbrev crowd : List (ℕ × Call)
crowd =
    (10, subscribes (calls 2) page "b@x.example")
    ∷ (10, subscribes (calls 3) page "c@x.example")
    ∷ (10, confirms_link 4 102)
    ∷ []

one_so_far : sent_within 1000 4 subscribers_of_page ≤ 2
unfolding uppity.Base.count_where
one_so_far = omega arith

perform_all-capped_example :
    (let (end, db') = perform_all settings 1000 crowd subscribers_of_page in
      sent_within end 4 db' ≤ 2)
perform_all-capped_example = perform_all-capped settings 4 1000 crowd subscribers_of_page one_so_far

taken : IsTaken settings (calls 2) page "b@x.example" 102 subscribers_of_page
unfolding uppity.Subscribers.subscriber_email_enabled uppity.Subscribers.cap_of
    uppity.Base.count_where uppity.Mail.refusal uppity.Mail.is_blocked uppity.Mail.over_ceiling
    uppity.Mail.is_suppressed uppity.Base.trim
taken = record {
  enabled = refl;
  below = refl;
  allowed = refl;
  admitted = new_address refl refl;
  delivered = refl;
}

in_time : 2000 < 1000 + 172800000
in_time = omega arith

subscribe-confirm-lookup_example :
    (let (subscribed_db, result) =
        subscribe settings (calls 2) page "b@x.example" subscribers_of_page in
      let (confirmed_db, answer) = confirm 2000 4 102 subscribed_db in
      (result ≡ sent)
      × (lookup 2000 4 102 subscribed_db ≡ some pending)
      × (answer ≡ true)
      × (lookup 9000 4 102 confirmed_db ≡ some confirmed)
      × (lookup 9000 4 102 (unsubscribe 4 102 confirmed_db) ≡ none)
      × (lookup 172801000 4 102 subscribed_db ≡ none)
      × (confirm 172801000 4 102 subscribed_db ≡ (subscribed_db, false)))
subscribe-confirm-lookup_example =
    subscribe-confirm-lookup settings (calls 2) page "b@x.example" 102 subscribers_of_page 2000 9000
      172801000 taken in_time (omega arith)

abbrev thresholds : Thresholds
thresholds = record {
  window_days = 30;
  bounce_min = 1;
  bounce_percent = 7;
  complaint_min = 3;
  complaint_per_mille = 3;
}

abbrev bounced : MailFailure
bounced = record { kind = bounce; recipients = "b@x.example" ∷ []; sent_at = some 1000 }

record_mail_failure-repeated_example :
    record_mail_failure thresholds 9000 5 bounced
      (record_mail_failure thresholds 5000 5 bounced no_mail)
    ≡ record_mail_failure thresholds 5000 5 bounced no_mail
record_mail_failure-repeated_example =
    record_mail_failure-repeated thresholds thresholds 5000 9000 5 bounced bounced no_mail
