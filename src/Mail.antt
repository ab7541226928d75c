-- ===== src/Mail.antt =====
-- Mail to addresses that never agreed to it (src/lib/server/services/mail-reputation.service.ts).
pub mod Repeated
use uppity.Base.{
  ℕ, ◌+◌, ◌-◌, ◌*◌, String, Bool, true, false, not, ◌&&◌, ◌||◌, Option, none, some, List, [], ◌∷◌,
  length, leb, ltb, ◌==◌, if◌then◌else◌, is_some, is_none, holds, any, first_where, count_where,
  rows_where, update_where, delete_where, same_text,
}

pub data FailureKind : Type 0 where
  bounce complaint : FailureKind

pub record Suppression : Type 0 where
  pub email : String
  pub reason : FailureKind
  pub suppressed_at : ℕ

pub record MailEvent : Type 0 where
  pub id : ℕ
  pub kind : FailureKind
  pub organization_id : Option ℕ
  pub received_at : ℕ

pub record UnsolicitedSend : Type 0 where
  pub id : ℕ
  pub organization_id : Option ℕ
  pub email : String
  pub sent_at : ℕ

pub record MailBlock : Type 0 where
  pub organization_id : ℕ
  pub reason : FailureKind
  pub blocked_at : ℕ

-- The tables of the mail records.
pub record MailDb : Type 0 where
  pub suppressions : List Suppression
  pub events : List MailEvent
  pub sends : List UnsolicitedSend
  pub blocks : List MailBlock

-- `MailRefusal`
pub data MailRefusal : Type 0 where
  suppressed blocked at_ceiling : MailRefusal

abbrev pub one_day_ms : ℕ
one_day_ms = 86400000

abbrev pub attribution_window_ms : ℕ
attribution_window_ms = 300000

-- `isBlocked`
unfoldable pub is_blocked : MailDb → ℕ → Bool
is_blocked db org = any (λ b. b.organization_id == org) db.blocks

-- `isSuppressed`
unfoldable pub is_suppressed : MailDb → String → Bool
is_suppressed db email = any (λ s. same_text s.email email) db.suppressions

-- Sent in the 24 hours before `now`.
abbrev pub is_recent : ℕ → UnsolicitedSend → Bool
is_recent now s = ltb now (s.sent_at + one_day_ms)

abbrev pub sent_recently : ℕ → MailDb → ℕ
sent_recently now db = count_where (is_recent now) db.sends

abbrev pub from_organizations : ℕ → MailDb → ℕ
from_organizations now db = count_where (λ s. is_recent now s && is_some s.organization_id) db.sends

abbrev pub from_visitors : ℕ → MailDb → ℕ
from_visitors now db = sent_recently now db - from_organizations now db

-- `overCeiling`; a ceiling of 0 is none
unfoldable pub over_ceiling : ℕ → ℕ → Bool → MailDb → Bool
over_ceiling ceiling now visitor db =
    ltb 0 ceiling
    && not (
        ltb (sent_recently now db) ceiling
        && not (visitor && leb ceiling (from_visitors now db * 2)))

-- `refusal`
unfoldable pub refusal : ℕ → ℕ → Bool → ℕ → String → MailDb → Option MailRefusal
refusal ceiling now visitor org email db =
    if is_blocked db org
    then some blocked
    else if over_ceiling ceiling now visitor db
    then some at_ceiling
    else if is_suppressed db email
    then some suppressed
    else none

-- `stopped`
unfoldable pub stopped : ℕ → String → MailDb → Bool
stopped org email db = is_blocked db org || is_suppressed db email

-- `record`
unfoldable pub record_send : UnsolicitedSend → MailDb → MailDb
record_send s db = record db { sends = s ∷ db.sends }

-- `stamp`
unfoldable pub stamp_send : ℕ → ℕ → MailDb → MailDb
stamp_send now id db = record db {
  sends = update_where (λ s. s.id == id) (λ s. record s { sent_at = now }) db.sends;
}

-- `release`
unfoldable pub release_send : ℕ → MailDb → MailDb
release_send id db = record db { sends = delete_where (λ s. s.id == id) db.sends }

-- `MailFailure`
pub record MailFailure : Type 0 where
  pub kind : FailureKind
  pub recipients : List String
  pub sent_at : Option ℕ

-- `MAIL_REPUTATION`
pub record Thresholds : Type 0 where
  pub window_days : ℕ
  pub bounce_min : ℕ
  pub bounce_percent : ℕ
  pub complaint_min : ℕ
  pub complaint_per_mille : ℕ

abbrev pub distance : ℕ → ℕ → ℕ
distance a b = (a - b) + (b - a)

abbrev pub is_attributable : List String → ℕ → UnsolicitedSend → Bool
is_attributable recipients at s =
    any (λ r. same_text s.email r) recipients && leb (distance s.sent_at at) attribution_window_ms

abbrev pub closer : ℕ → UnsolicitedSend → Option UnsolicitedSend → Option UnsolicitedSend
closer at s none = some s
closer at s (some t) =
    if ltb (distance s.sent_at at) (distance t.sent_at at) then some s else some t

-- `ORDER BY abs(…) LIMIT 1`
unfoldable pub closest : ℕ → List UnsolicitedSend → Option UnsolicitedSend
closest at [] = none
closest at (s ∷ ss) = closer at s (closest at ss)

abbrev pub owner_of : Option UnsolicitedSend → Option ℕ
owner_of none = none
owner_of (some s) = s.organization_id

-- `senderOf`
unfoldable pub sender_of : List String → ℕ → MailDb → Option ℕ
unfolding closest
sender_of recipients at db =
    owner_of (closest at (rows_where (is_attributable recipients at) db.sends))

abbrev is_bounce : FailureKind → Bool
is_bounce bounce = true
is_bounce complaint = false

abbrev pub charged : ℕ → ℕ → ℕ → MailEvent → Bool
charged now days org e =
    holds (λ o. o == org) e.organization_id && ltb now (e.received_at + days * one_day_ms)

-- `crossedThreshold`
unfoldable pub crossed_threshold : Thresholds → ℕ → ℕ → MailDb → Option FailureKind
crossed_threshold t now org db =
    let bounces =
      count_where (λ e. charged now t.window_days org e && is_bounce e.kind) db.events in
    let complaints =
      count_where (λ e. charged now t.window_days org e && not (is_bounce e.kind)) db.events in
    let sent =
      count_where
        (λ s.
          holds (λ o. o == org) s.organization_id
          && ltb now (s.sent_at + t.window_days * one_day_ms))
        db.sends in
    if leb t.complaint_min complaints && leb (sent * t.complaint_per_mille) (complaints * 1000)
    then some complaint
    else if leb t.bounce_min bounces && leb (sent * t.bounce_percent) (bounces * 100)
    then some bounce
    else none

-- `ON CONFLICT DO NOTHING` on the address
abbrev pub suppress : ℕ → FailureKind → List Suppression → String → List Suppression
suppress now kind rows email =
    if any (λ s. same_text s.email email) rows
    then rows
    else record { email = email; reason = kind; suppressed_at = now } ∷ rows

unfoldable pub suppress_all : ℕ → FailureKind → List String → List Suppression → List Suppression
suppress_all now kind [] rows = rows
suppress_all now kind (e ∷ es) rows = suppress_all now kind es (suppress now kind rows e)

abbrev pub block : ℕ → ℕ → Option FailureKind → MailDb → MailDb
block now org none db = db
block now org (some reason) db =
    if any (λ b. b.organization_id == org) db.blocks then db else record db {
      blocks = record { organization_id = org; reason = reason; blocked_at = now } ∷ db.blocks;
    }

abbrev pub charge : Thresholds → ℕ → ℕ → Option ℕ → MailDb → MailDb
charge t now id none db = db
charge t now id (some org) db =
    let written : MailDb = record db {
      events =
          update_where (λ e. e.id == id) (λ e. record e { organization_id = some org }) db.events;
    } in
    block now org (crossed_threshold t now org written) written

abbrev pub sender : List String → Option ℕ → MailDb → Option ℕ
sender recipients none db = none
sender recipients (some at) db = sender_of recipients at db

abbrev pub insert_mail_event : ℕ → ℕ → FailureKind → MailDb → MailDb
insert_mail_event now id kind db = record db {
  events = record { id = id; kind = kind; organization_id = none; received_at = now } ∷ db.events;
}

abbrev pub suppress_recipients : ℕ → MailFailure → MailDb → MailDb
suppress_recipients now f db = record db {
  suppressions = suppress_all now f.kind f.recipients db.suppressions;
}

-- `recordMailFailure`, less the alert to the operator
unfoldable pub record_mail_failure : Thresholds → ℕ → ℕ → MailFailure → MailDb → MailDb
unfolding sender_of crossed_threshold suppress_all
record_mail_failure t now id f db =
    if any (λ e. e.id == id) db.events
    then db
    else let noted : MailDb = suppress_recipients now f (insert_mail_event now id f.kind db) in
      if length f.recipients == 0
      then insert_mail_event now id f.kind db
      else charge t now id (sender f.recipients f.sent_at noted) noted

-- `pruneMailRecords`
unfoldable pub prune_mail_records : Thresholds → ℕ → MailDb → MailDb × ℕ
prune_mail_records t now db =
    let is_old_event = λ (e : MailEvent). ltb (e.received_at + t.window_days * one_day_ms) now in
    let is_old_send = λ (s : UnsolicitedSend). ltb (s.sent_at + t.window_days * one_day_ms) now in
    (
      record db {
        events = delete_where is_old_event db.events;
        sends = delete_where is_old_send db.sends;
      },
      count_where is_old_event db.events + count_where is_old_send db.sends,
    )
