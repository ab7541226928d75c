-- ===== src/Invitations.antt =====
-- Team invitations: their delivery (src/lib/server/services/invitation.service.ts). They share the
-- tables of the email channels.
pub mod Unsent
pub mod Views
pub mod Shown
use uppity.Base.{
  ℕ, String, Bool, true, false, not, Option, none, some, List, ◌==◌, if◌then◌else◌, delete_where,
}
use uppity.Mail.{MailRefusal}
use uppity.EmailChannels.{
  Invitation, Requester, ChannelDb, ChannelSettings, ChannelCalls, SlotClaim, slot_taken,
  slot_too_soon, slot_capped, slot_refused,
}
use uppity.EmailChannels.Claims.{InvitationClaim, invitation_slot, claim_invitation_send}
use uppity.EmailChannels.Sending.{release_slot}

-- `DeliveryOutcome`
pub data DeliveryOutcome : Type 0 where
  sent no_mail unverified opted_out too_soon capped failed : DeliveryOutcome
  refused : MailRefusal → DeliveryOutcome

-- `TeamInvitation`
pub record TeamInvitation : Type 0 where
  pub email : String
  pub invitation_id : ℕ
  pub invited_by : String

-- The sender of mail, if there is one, and whether it takes an invitation or throws.
abbrev pub Sender : Type 0
Sender = Option (TeamInvitation → Bool)

abbrev pub invitation_mail : Invitation → Requester → TeamInvitation
invitation_mail i sender = record {
  email = i.email;
  invitation_id = i.id;
  invited_by = sender.email;
}

-- The try and the catch around `send`, with a slot.
abbrev pub sent_or_released : Bool → ℕ → ChannelDb → ChannelDb × DeliveryOutcome
sent_or_released taken slot db = if taken then (db, sent) else (release_slot slot db, failed)

-- What follows the claim of a slot.
abbrev pub after_claim :
    (TeamInvitation → Bool)
    → TeamInvitation
    → ChannelDb × InvitationClaim
    → ChannelDb × DeliveryOutcome
after_claim send mail (db, InvitationClaim.opted_out) = (db, opted_out)
after_claim send mail (db, InvitationClaim.invited_too_soon) = (db, too_soon)
after_claim send mail (db, invitation_slot (slot_taken id)) = sent_or_released (send mail) id db
after_claim send mail (db, invitation_slot (slot_too_soon t)) = (db, too_soon)
after_claim send mail (db, invitation_slot slot_capped) = (db, capped)
after_claim send mail (db, invitation_slot (slot_refused r)) = (db, refused r)

-- The deletion of an invitation that nobody received.
abbrev pub drop_unsent : ℕ → ChannelDb × DeliveryOutcome → ChannelDb × DeliveryOutcome
drop_unsent id (db, sent) = (db, sent)
drop_unsent id (db, outcome) =
    (record db { invitations = delete_where (λ i. i.id == id) db.invitations }, outcome)

module _ (cfg : ChannelSettings) (calls : ChannelCalls) where
  -- `attempt`
  unfoldable pub attempt_delivery :
      Sender → Invitation → Requester → ChannelDb → ChannelDb × DeliveryOutcome
  unfolding release_slot
  attempt_delivery none i sender db = (db, no_mail)
  attempt_delivery (some send) i sender db =
      if not sender.email_verified
      then (db, unverified)
      else after_claim send (invitation_mail i sender)
          (claim_invitation_send cfg calls i.organization_id i.email db)

  -- `deliver`
  unfoldable pub deliver_invitation :
      Sender → Invitation → Requester → ChannelDb → ChannelDb × DeliveryOutcome
  unfolding attempt_delivery
  deliver_invitation send i sender db = drop_unsent i.id (attempt_delivery send i sender db)
