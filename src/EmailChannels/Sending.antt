-- ===== src/EmailChannels/Sending.antt =====
-- The confirmation email of a claim, sent at once or from the queue
-- (src/lib/server/services/email-channel.service.ts).
use uppity.Base.{
  ℕ, String, Bool, true, false, ◌&&◌, Option, none, some, ◌==◌, if◌then◌else◌, is_some, is_none,
  any, first_where, update_where, delete_where,
}
use uppity.Mail.{stopped, stamp_send, release_send}
use uppity.EmailChannels.{
  Channel, Requester, PendingSend, QueuedConfirmation, ChannelDb, ChannelSettings, ChannelCalls,
  has_address, set_reasked,
}
use uppity.EmailChannels.Claims.{ClaimResult, claims, claim}

-- The first deletions of `undoClaim`, and `releaseSend`
unfoldable pub release_slot : ℕ → ChannelDb → ChannelDb
release_slot send_id db = record db {
  sends = delete_where (λ s. s.id == send_id) db.sends;
  mail = release_send send_id db.mail;
}

abbrev pub restored : PendingSend → Channel → Channel
restored p c = record c {
  confirmation_sent_at = p.previous.confirmation_sent_at;
  unsubscribed_at = p.previous.unsubscribed_at;
  reasked_at = if p.reasked then none else c.reasked_at;
}

module _ (lower : String → String) (channel org : ℕ) where
  -- `undoClaim`
  unfoldable pub undo_claim : PendingSend → ChannelDb → ChannelDb
  unfolding release_slot
  undo_claim p db =
      let released : ChannelDb = release_slot p.send_id db in
      record released {
        channels =
            update_where (λ c. (c.id == channel) && has_address lower (lower p.email) c)
              (restored p) db.channels;
        opt_outs =
            if p.reasked then set_reasked org (lower p.email) none db.opt_outs else db.opt_outs;
      }

  -- `deliver`; whether the email went out
  unfoldable pub deliver : Bool → PendingSend → ChannelDb → ChannelDb × Bool
  unfolding undo_claim
  deliver goes_out p db = if goes_out then (db, true) else (undo_claim p db, false)

-- What `requestConfirmation` returns, or that it throws the error of the mail server.
pub data RequestResult : Type 0 where
  request_answered : ClaimResult → RequestResult
  request_sent request_failed : RequestResult

module _ (cfg : ChannelSettings) (calls : ChannelCalls) (channel org : ℕ) where
  abbrev pub deliver_claim : Bool → ChannelDb × ClaimResult → ChannelDb × RequestResult
  deliver_claim goes_out (db, claims p) =
      let delivered = deliver calls.lower_case channel org goes_out p db in
      (delivered.0, if delivered.1 then request_sent else request_failed)
  deliver_claim goes_out (db, r) = (db, request_answered r)

  -- `requestConfirmation`
  unfoldable pub request_confirmation : Bool → Requester → ChannelDb → ChannelDb × RequestResult
  unfolding deliver
  request_confirmation goes_out r db =
      deliver_claim goes_out (claim cfg calls org false channel r db)

-- What `sendQueued` returns.
pub data QueuedResult : Type 0 where
  queued_sent skipped unsent : QueuedResult

-- The channel still waits for this send at this address.
abbrev pub still_waits : (String → String) → QueuedConfirmation → Channel → Bool
still_waits lower q c =
    (c.id == q.channel_id)
    && (c.organization_id == q.organization_id)
    && is_none c.verified_at
    && is_none c.unsubscribed_at
    && is_some c.confirmation_sent_at
    && has_address lower (lower q.email) c

abbrev pub as_pending : QueuedConfirmation → ℕ → PendingSend
as_pending q token = record {
  send_id = q.send_id;
  email = q.email;
  token = token;
  requested_by = q.requested_by;
  previous = q.previous;
  reasked = q.reasked;
}

abbrev pub send_pending :
    (String → String)
    → ℕ
    → Bool
    → QueuedConfirmation
    → ChannelDb
    → PendingSend
    → ChannelDb × QueuedResult
send_pending lower now goes_out q db p =
    if stopped q.organization_id (lower q.email) db.mail
    then (undo_claim lower q.channel_id q.organization_id p db, skipped)
    else let stamped : ChannelDb = record db { mail = stamp_send now q.send_id db.mail } in
      let delivered = deliver lower q.channel_id q.organization_id goes_out p stamped in
      (delivered.0, if delivered.1 then queued_sent else unsent)

abbrev pub send_waiting :
    (String → String)
    → ℕ
    → Bool
    → QueuedConfirmation
    → ChannelDb
    → Option ℕ
    → ChannelDb × QueuedResult
send_waiting lower now goes_out q db none = (release_slot q.send_id db, skipped)
send_waiting lower now goes_out q db (some token) =
    send_pending lower now goes_out q db (as_pending q token)

abbrev pub token_of : Option Channel → Option ℕ
token_of none = none
token_of (some c) = c.token

-- The join with the log of sends: with its row gone, none is found.
abbrev pub waiting_channel : (String → String) → QueuedConfirmation → ChannelDb → Option Channel
waiting_channel lower q db =
    if any (λ s. s.id == q.send_id) db.sends
    then first_where (still_waits lower q) db.channels
    else none

-- `sendQueued`
unfoldable pub send_queued :
    (String → String) → ℕ → Bool → QueuedConfirmation → ChannelDb → ChannelDb × QueuedResult
unfolding release_slot undo_claim deliver
send_queued lower now goes_out q db =
    send_waiting lower now goes_out q db (token_of (waiting_channel lower q db))
