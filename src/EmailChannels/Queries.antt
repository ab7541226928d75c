-- ===== src/EmailChannels/Queries.antt =====
-- What is asked about channels, and the sweep of old sends
-- (src/lib/server/services/email-channel.service.ts).
use uppity.Base.{
  ℕ, ◌+◌, String, Bool, false, not, ◌&&◌, Option, none, some, List, map, leb, ltb, ◌==◌,
  if◌then◌else◌, is_some, any, first_where, rows_where, count_where, delete_where,
}
use uppity.Mail.{MailRefusal, refusal}
use uppity.EmailChannels.{
  Channel, EmailOptOut, ConfirmationSend, ChannelDb, ChannelSettings, pending_window_ms, is_opt_out,
  has_address, is_verified_member, free_slot, unconfirmed_addresses,
}

-- `freshRecipient`
abbrev pub fresh_recipient : ℕ → Channel → Channel
fresh_recipient token c = record c {
  token = some token;
  confirmation_sent_at = none;
  verified_at = none;
  unsubscribed_at = none;
  reasked_at = none;
}

abbrev pub inherits : Option EmailOptOut → Channel → Channel
inherits none c = c
inherits (some o) c = record c { unsubscribed_at = o.unsubscribed_at; reasked_at = o.reasked_at }

-- `recipientFor`: the recipient columns that a channel gets with this address
unfoldable pub recipient_for : (String → String) → ℕ → ℕ → String → ChannelDb → Channel → Channel
recipient_for lower token org email db c =
    inherits (first_where (is_opt_out org (lower email)) db.opt_outs) (fresh_recipient token c)

-- `markInvitationAccepted`
unfoldable pub mark_invitation_accepted : (String → String) → ℕ → ℕ → String → ChannelDb → ChannelDb
mark_invitation_accepted lower now org email db = record db {
  sends = free_slot org (lower email) now db.sends;
}

-- `mailRefusal`
unfoldable pub mail_refusal :
    ChannelSettings → (String → String) → ℕ → ℕ → String → ChannelDb → Option MailRefusal
mail_refusal cfg lower now org email db =
    if is_verified_member lower org email db
    then none
    else refusal cfg.ceiling now false org (lower email) db.mail

-- `suppressedChannelIds`
unfoldable pub suppressed_channel_ids : (String → String) → ℕ → ChannelDb → List ℕ
suppressed_channel_ids lower org db =
    map (λ c. c.id)
      (rows_where
        (λ c.
          (c.organization_id == org)
          && c.is_email
          && is_some c.verified_at
          && any (λ s. has_address lower s.email c) db.mail.suppressions)
        db.channels)

-- `wouldCap`
unfoldable pub would_cap : ChannelSettings → (String → String) → ℕ → ℕ → String → ChannelDb → Bool
would_cap cfg lower now org email db =
    not (is_verified_member lower org email db)
    && leb cfg.cap (unconfirmed_addresses org now db.sends)

abbrev pub is_past : ℕ → ConfirmationSend → Bool
is_past now s = ltb (s.sent_at + pending_window_ms) now

-- `pruneChannelConfirmationSends`
unfoldable pub prune_channel_confirmation_sends : ℕ → ChannelDb → ChannelDb × ℕ
prune_channel_confirmation_sends now db =
    (record db { sends = delete_where (is_past now) db.sends }, count_where (is_past now) db.sends)
