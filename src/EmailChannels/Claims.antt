-- ===== src/EmailChannels/Claims.antt =====
-- Claims of a confirmation and of an invitation email
-- (src/lib/server/services/email-channel.service.ts).
use uppity.Base.{
  ℕ, String, Bool, true, false, not, ◌&&◌, Option, none, some, ◌∷◌, leb, ◌==◌, if◌then◌else◌,
  is_some, is_none, first_where, update_where, is_empty, or_default,
}
use uppity.Mail.{MailRefusal}
use uppity.EmailChannels.{
  Channel, EmailOptOut, Requester, PendingSend, QueuedConfirmation, ChannelDb, ChannelSettings,
  ChannelCalls, is_verified_member, opt_out_of, set_reasked, SlotClaim, slot_taken, slot_too_soon,
  slot_capped, slot_refused, claim_slot, unanswered_sends, invitation_sends_per_address,
}

-- `ResendResult`
pub data ResendResult : Type 0 where
  sent confirmed unsubscribed reasked unverified too_soon capped : ResendResult
  refused : MailRefusal → ResendResult

-- What `claim` returns: null, a result, a `ReaskWait`, or the send that it claimed.
pub data ClaimResult : Type 0 where
  no_channel : ClaimResult
  answers : ResendResult → ClaimResult
  ask_again_at : ℕ → ClaimResult
  claims : PendingSend → ClaimResult

-- `optOut?.reaskedAt`
abbrev pub is_reasked : Option EmailOptOut → Bool
is_reasked none = false
is_reasked (some o) = is_some o.reasked_at

module _ (cfg : ChannelSettings) (calls : ChannelCalls) (org : ℕ) where
  -- The token of the link: a new one for a re-ask, or where the channel has none.
  abbrev pub link_token : Channel → Option EmailOptOut → ℕ
  link_token c o = if is_some o then calls.token else or_default c.token calls.token

  abbrev pub asked : ℕ → Option EmailOptOut → Channel → Channel
  asked token none c = record c { token = some token; confirmation_sent_at = some calls.now }
  asked token (some o) c = record c {
    token = some token;
    confirmation_sent_at = some calls.now;
    unsubscribed_at = none;
    reasked_at = some calls.now;
  }

  abbrev pub pending_of : Channel → String → Option EmailOptOut → Requester → ℕ → PendingSend
  pending_of c raw o r send_id = record {
    send_id = send_id;
    email = raw;
    token = link_token c o;
    requested_by = r.email;
    previous = record {
      confirmation_sent_at = c.confirmation_sent_at;
      unsubscribed_at = c.unsubscribed_at;
    };
    reasked = is_some o;
  }

  abbrev pub queued_of : ℕ → PendingSend → QueuedConfirmation
  queued_of channel p = record {
    organization_id = org;
    channel_id = channel;
    send_id = p.send_id;
    email = p.email;
    requested_by = p.requested_by;
    previous = p.previous;
    reasked = p.reasked;
  }

  abbrev pub enqueue_if : Bool → ℕ → PendingSend → ChannelDb → ChannelDb
  enqueue_if queue channel p db =
      if queue then record db { queue = queued_of channel p ∷ db.queue } else db

  -- The writes after the slot is taken.
  abbrev pub write_claim :
      Bool → Channel → String → String → Option EmailOptOut → PendingSend → ChannelDb → ChannelDb
  write_claim queue c raw email o p db = enqueue_if queue c.id p (record db {
    channels = update_where (λ x. x.id == c.id) (asked p.token o) db.channels;
    opt_outs =
        if is_some o then set_reasked org email (some calls.now) db.opt_outs else db.opt_outs;
  })

  abbrev pub after_slot :
      Bool
      → Channel
      → String
      → String
      → Option EmailOptOut
      → Requester
      → ChannelDb × SlotClaim
      → ChannelDb × ClaimResult
  after_slot queue c raw email o r (db, slot_taken id) =
      let p : PendingSend = pending_of c raw o r id in
      (write_claim queue c raw email o p db, claims p)
  after_slot queue c raw email o r (db, slot_too_soon t) =
      (db, if is_some o then ask_again_at t else answers too_soon)
  after_slot queue c raw email o r (db, slot_capped) = (db, answers capped)
  after_slot queue c raw email o r (db, slot_refused x) = (db, answers (refused x))

  -- What follows `optOutOf` for a channel that is not confirmed.
  abbrev pub claim_for :
      Bool
      → Requester
      → Channel
      → String
      → String
      → ChannelDb
      → Option EmailOptOut
      → ChannelDb × ClaimResult
  claim_for queue r c raw email db o =
      if is_reasked o
      then (db, answers (if is_some c.unsubscribed_at then unsubscribed else reasked))
      else if is_none o && is_verified_member calls.lower_case org email db
      then (
        record db {
          channels =
              update_where (λ x. x.id == c.id) (λ x. record x { verified_at = some calls.now })
                db.channels;
        },
        answers confirmed,
      )
      else if not r.email_verified
      then (db, answers unverified)
      else after_slot queue c raw email o r (claim_slot cfg calls org email db)

  abbrev pub claim_address :
      Bool → Requester → Channel → ChannelDb → Option String → ChannelDb × ClaimResult
  claim_address queue r c db none = (db, no_channel)
  claim_address queue r c db (some raw) =
      let email = calls.lower_case raw in
      if is_empty raw
      then (db, no_channel)
      else if is_some c.verified_at
      then (db, answers confirmed)
      else claim_for queue r c raw email db (opt_out_of org email db.opt_outs)

  abbrev pub claim_channel : Bool → Requester → ChannelDb → Option Channel → ChannelDb × ClaimResult
  claim_channel queue r db none = (db, no_channel)
  claim_channel queue r db (some c) = claim_address queue r c db c.email

  -- `claim`
  unfoldable pub claim : Bool → ℕ → Requester → ChannelDb → ChannelDb × ClaimResult
  claim queue channel r db =
      claim_channel queue r db (
        first_where (λ c. (c.id == channel) && (c.organization_id == org) && c.is_email)
          db.channels)

  -- `queueConfirmation`
  unfoldable pub queue_confirmation : ℕ → Requester → ChannelDb → ChannelDb
  unfolding claim
  queue_confirmation channel r db = (claim true channel r db).0

-- What `claimInvitationSend` returns.
pub data InvitationClaim : Type 0 where
  opted_out invited_too_soon : InvitationClaim
  invitation_slot : SlotClaim → InvitationClaim

-- `claimInvitationSend`
unfoldable pub claim_invitation_send :
    ChannelSettings → ChannelCalls → ℕ → String → ChannelDb → ChannelDb × InvitationClaim
claim_invitation_send cfg calls org email db =
    let address = calls.lower_case email in
    if is_some (opt_out_of org address db.opt_outs)
    then (db, opted_out)
    else if leb invitation_sends_per_address (unanswered_sends org address calls.now db.sends)
    then (db, invited_too_soon)
    else let slot = claim_slot cfg calls org address db in (slot.0, invitation_slot slot.1)
