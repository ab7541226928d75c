-- ===== src/EmailChannels.antt =====
-- Consent of the addresses of email channels: the tables and the helpers
-- (src/lib/server/services/email-channel.service.ts).
pub mod Claims
pub mod Sending
pub mod Answers
pub mod OptOut
pub mod Queries
pub mod Final
pub mod Silenced
pub mod Asked
pub mod Undone
pub mod Runs
use uppity.Base.{
  ℕ, ◌+◌, String, Bool, true, false, not, ◌&&◌, ◌||◌, Option, none, some, List, [], ◌∷◌, map,
  length, leb, ltb, ◌==◌, if◌then◌else◌, is_some, is_none, holds, any, first_where, count_where,
  rows_where, update_where, delete_where, newest, same_text, is_empty,
}
use uppity.Mail.{MailDb, MailRefusal, refusal, record_send, release_send}

pub record Channel : Type 0 where
  pub id : ℕ
  pub organization_id : ℕ
  pub name : String
  pub is_email : Bool
  pub email : Option String
  pub token : Option ℕ
  pub confirmation_sent_at : Option ℕ
  pub verified_at : Option ℕ
  pub unsubscribed_at : Option ℕ
  pub reasked_at : Option ℕ

pub record EmailOptOut : Type 0 where
  pub organization_id : ℕ
  pub email : String
  pub unsubscribed_at : Option ℕ
  pub reasked_at : Option ℕ

pub record ConfirmationSend : Type 0 where
  pub id : ℕ
  pub organization_id : ℕ
  pub email : String
  pub sent_at : ℕ
  pub confirmed_at : Option ℕ

-- A member of an organization, with the columns of the member's account.
pub record Member : Type 0 where
  pub user_id : ℕ
  pub organization_id : ℕ
  pub email : String
  pub email_verified : Bool

pub record Invitation : Type 0 where
  pub id : ℕ
  pub organization_id : ℕ
  pub email : String
  pub is_pending : Bool
  pub expires_at : ℕ
  pub inviter_id : ℕ

pub record Organization : Type 0 where
  pub id : ℕ
  pub name : String

-- `Requester`
pub record Requester : Type 0 where
  pub email : String
  pub email_verified : Bool

-- What undoing a claim restores.
pub record Previous : Type 0 where
  pub confirmation_sent_at : Option ℕ
  pub unsubscribed_at : Option ℕ

-- `PendingSend`
pub record PendingSend : Type 0 where
  pub send_id : ℕ
  pub email : String
  pub token : ℕ
  pub requested_by : String
  pub previous : Previous
  pub reasked : Bool

-- The event of a queued confirmation: its organization, its channel and its payload, which has no token.
pub record QueuedConfirmation : Type 0 where
  pub organization_id : ℕ
  pub channel_id : ℕ
  pub send_id : ℕ
  pub email : String
  pub requested_by : String
  pub previous : Previous
  pub reasked : Bool

pub record ChannelDb : Type 0 where
  pub channels : List Channel
  pub opt_outs : List EmailOptOut
  pub sends : List ConfirmationSend
  pub members : List Member
  pub invitations : List Invitation
  pub organizations : List Organization
  pub queue : List QueuedConfirmation
  pub mail : MailDb

-- The operator's cap on pending confirmations and ceiling of the instance.
pub record ChannelSettings : Type 0 where
  pub cap : ℕ
  pub ceiling : ℕ

-- What the platform returns to one call: the clock, new identifiers, a new token and `toLowerCase`.
pub record ChannelCalls : Type 0 where
  pub now : ℕ
  pub send_id : ℕ
  pub token : ℕ
  pub lower_case : String → String

abbrev pub confirmation_ttl_ms : ℕ
confirmation_ttl_ms = 172800000

abbrev pub resend_interval_ms : ℕ
resend_interval_ms = 3600000

abbrev pub pending_window_ms : ℕ
pending_window_ms = 604800000

abbrev pub invitation_sends_per_address : ℕ
invitation_sends_per_address = 3

-- The rows of an organization's address.
abbrev pub is_opt_out : ℕ → String → EmailOptOut → Bool
is_opt_out org email o = (o.organization_id == org) && same_text o.email email

abbrev pub is_send : ℕ → String → ConfirmationSend → Bool
is_send org email s = (s.organization_id == org) && same_text s.email email

-- `lower(config->>'email') = email`
abbrev pub has_address : (String → String) → String → Channel → Bool
has_address lower email c = holds (λ e. same_text (lower e) email) c.email

-- `isVerifiedMember`
unfoldable pub is_verified_member : (String → String) → ℕ → String → ChannelDb → Bool
is_verified_member lower org email db =
    any
      (λ m.
        (m.organization_id == org) && m.email_verified && same_text (lower m.email) (lower email))
      db.members

-- `optOutOf`
unfoldable pub opt_out_of : ℕ → String → List EmailOptOut → Option EmailOptOut
opt_out_of org email rows =
    first_where (λ o. is_opt_out org email o && is_some o.unsubscribed_at) rows

-- `setReasked`
unfoldable pub set_reasked : ℕ → String → Option ℕ → List EmailOptOut → List EmailOptOut
set_reasked org email at rows =
    update_where (is_opt_out org email) (λ o. record o { reasked_at = at }) rows

-- In the pending window and not confirmed.
abbrev pub is_unconfirmed : ℕ → ConfirmationSend → Bool
is_unconfirmed now s = ltb now (s.sent_at + pending_window_ms) && is_none s.confirmed_at

-- The texts, each once.
unfoldable pub distinct : List String → List String
distinct [] = []
distinct (s ∷ ss) = if any (same_text s) ss then distinct ss else s ∷ distinct ss

-- `unconfirmedAddresses`
unfoldable pub unconfirmed_addresses : ℕ → ℕ → List ConfirmationSend → ℕ
unfolding distinct
unconfirmed_addresses org now sends = length (
    distinct (
      map (λ s. s.email)
        (rows_where (λ s. (s.organization_id == org) && is_unconfirmed now s) sends)))

-- `unansweredSends`
unfoldable pub unanswered_sends : ℕ → String → ℕ → List ConfirmationSend → ℕ
unanswered_sends org email now sends =
    count_where (λ s. is_send org email s && is_unconfirmed now s) sends

-- `freeSlot`
unfoldable pub free_slot : ℕ → String → ℕ → List ConfirmationSend → List ConfirmationSend
free_slot org email now sends =
    update_where (λ s. is_send org email s && is_none s.confirmed_at)
      (λ s. record s { confirmed_at = some now }) sends

-- `SlotClaim`
pub data SlotClaim : Type 0 where
  slot_taken : ℕ → SlotClaim
  slot_too_soon : ℕ → SlotClaim
  slot_capped : SlotClaim
  slot_refused : MailRefusal → SlotClaim

abbrev pub retry_at : Option ConfirmationSend → Option ℕ
retry_at none = none
retry_at (some s) = some (s.sent_at + resend_interval_ms)

abbrev pub write_send : ChannelCalls → ℕ → String → ChannelDb → ChannelDb
write_send calls org email db = record db {
  sends =
      record {
        id = calls.send_id;
        organization_id = org;
        email = email;
        sent_at = calls.now;
        confirmed_at = none;
      }
      ∷ db.sends;
  mail =
      record_send
        (record {
          id = calls.send_id;
          organization_id = some org;
          email = email;
          sent_at = calls.now;
        })
        db.mail;
}

abbrev pub slot_unless_refused :
    ChannelCalls → ℕ → String → ChannelDb → Option MailRefusal → ChannelDb × SlotClaim
slot_unless_refused calls org email db (some r) = (db, slot_refused r)
slot_unless_refused calls org email db none =
    (write_send calls org email db, slot_taken calls.send_id)

abbrev pub slot_after :
    ChannelSettings → ChannelCalls → ℕ → String → ChannelDb → Option ℕ → ChannelDb × SlotClaim
slot_after cfg calls org email db retry =
    if holds (ltb calls.now) retry
    then (db, slot_too_soon (elim retry [ none ↦ 0 | some t ↦ t ]))
    else if leb cfg.cap (unconfirmed_addresses org calls.now db.sends)
    then (db, slot_capped)
    else slot_unless_refused calls org email db
        (refusal cfg.ceiling calls.now false org email db.mail)

-- `claimSlot`
unfoldable pub claim_slot :
    ChannelSettings → ChannelCalls → ℕ → String → ChannelDb → ChannelDb × SlotClaim
claim_slot cfg calls org email db = slot_after cfg calls org email db (
    retry_at
      (newest (λ (s : ConfirmationSend). s.sent_at) (rows_where (is_send org email) db.sends)))
