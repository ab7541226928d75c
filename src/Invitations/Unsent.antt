-- ===== src/Invitations/Unsent.antt =====
-- What is left of an invitation that nobody received
-- (src/lib/server/services/invitation.service.ts).
use uppity.Base.{
  ℕ, ◌≡◌, ◌≢◌, refl, ap, String, Bool, true, false, not, Option, none, some, Bool-cases, inl, inr,
  leb, ltb, ◌==◌, if◌then◌else◌, is_some, holds, delete_where, count_where, delete_where-none,
  ==_refl,
}
use uppity.Mail.{MailRefusal, record_send, release_send}
use uppity.EmailChannels.{
  Invitation, Requester, ChannelDb, ChannelSettings, ChannelCalls, slot_taken, slot_too_soon,
  slot_capped, slot_refused, claim_slot, slot_after, slot_unless_refused, write_send, opt_out_of,
  unconfirmed_addresses, unanswered_sends, invitation_sends_per_address,
}
use uppity.EmailChannels.Claims.{InvitationClaim, invitation_slot, claim_invitation_send}
use uppity.EmailChannels.Sending.{release_slot}
use uppity.Invitations.{
  DeliveryOutcome, sent, no_mail, failed, unverified, opted_out, too_soon, capped, refused,
  TeamInvitation, Sender, sent_or_released, after_claim, invitation_mail, attempt_delivery,
  drop_unsent, deliver_invitation,
}

-- No email has the identifier that the call makes.
pub record IsNewSend (calls : ChannelCalls) (db : ChannelDb) : Type 0 where
  pub no_send : count_where (λ s. s.id == calls.send_id) db.sends ≡ 0
  pub no_mail : count_where (λ s. s.id == calls.send_id) db.mail.sends ≡ 0

-- The database without the invitation.
abbrev pub without : ℕ → ChannelDb → ChannelDb
without id db = record db { invitations = delete_where (λ i. i.id == id) db.invitations }

abbrev pub is_slot : InvitationClaim → Bool
is_slot (invitation_slot (slot_taken id)) = true
is_slot c = false

module _ (cfg : ChannelSettings) (calls : ChannelCalls) (db : ChannelDb)
    (fresh : IsNewSend calls db) where
  release-write_send :
      (org : ℕ) (email : String) → release_slot calls.send_id (write_send calls org email db) ≡ db
  unfolding release_slot release_send record_send delete_where
  release-write_send org email =
      rw
        (
          ==_refl calls.send_id,
          delete_where-none (λ s. s.id == calls.send_id) db.sends fresh.no_send,
          delete_where-none (λ s. s.id == calls.send_id) db.mail.sends fresh.no_mail,
        )
        refl

  -- What a claim of a slot leaves: all as it was, or a slot that its release takes back.
  pub data Claimed : ChannelDb × InvitationClaim → Type 0 where
    nothing_claimed : (c : InvitationClaim) → is_slot c ≡ false → Claimed (db, c)
    one_claimed :
        (db' : ChannelDb)
        → release_slot calls.send_id db' ≡ db
        → Claimed (db', invitation_slot (slot_taken calls.send_id))

  claim_slot-Claimed :
      (org : ℕ) (email : String)
      → let x = claim_slot cfg calls org email db in Claimed (x.0, invitation_slot x.1)
  unfolding claim_slot
  claim_slot-Claimed org email = after _
    where
      unless :
          (o : Option MailRefusal)
          → let x = slot_unless_refused calls org email db o in Claimed (x.0, invitation_slot x.1)
      unless none = one_claimed _ (release-write_send org email)
      unless (some r) = nothing_claimed _ refl

      after :
          (o : Option ℕ)
          → let x = slot_after cfg calls org email db o in Claimed (x.0, invitation_slot x.1)
      after o = elim (Bool-cases (holds (ltb calls.now) o)) [
        | inl e ↦ rw e (nothing_claimed _ refl)
        | inr e ↦ elim (Bool-cases (leb cfg.cap (unconfirmed_addresses org calls.now db.sends))) [
          | inl c ↦ rw (e, c) (nothing_claimed _ refl)
          | inr c ↦ rw (e, c) (unless _)
        ]
      ]

  claim-Claimed :
      (org : ℕ) (email : String) → Claimed (claim_invitation_send cfg calls org email db)
  unfolding claim_invitation_send
  claim-Claimed org email =
      let address = calls.lower_case email in
      elim (Bool-cases (is_some (opt_out_of org address db.opt_outs))) [
        | inl e ↦ rw e (nothing_claimed _ refl)
        | inr e ↦
            elim (Bool-cases (
              leb invitation_sends_per_address (unanswered_sends org address calls.now db.sends))) [
                | inl c ↦ rw (e, c) (nothing_claimed _ refl)
                | inr c ↦ rw (e, c) (claim_slot-Claimed org address)
              ]
      ]

  -- The database after an attempt that does not send.
  after_claim-unsent :
      (send : TeamInvitation → Bool) (mail : TeamInvitation) (x : ChannelDb × InvitationClaim)
      → Claimed x
      → (after_claim send mail x).1 ≢ sent
      → (after_claim send mail x).0 ≡ db
  unfolding release_slot
  after_claim-unsent send mail _ (nothing_claimed c e) h = kept c e
    where
      kept : (c : InvitationClaim) → is_slot c ≡ false → (after_claim send mail (db, c)).0 ≡ db
      kept InvitationClaim.opted_out e = refl
      kept InvitationClaim.invited_too_soon e = refl
      kept (invitation_slot (slot_taken id)) e = cc
      kept (invitation_slot (slot_too_soon t)) e = refl
      kept (invitation_slot slot_capped) e = refl
      kept (invitation_slot (slot_refused r)) e = refl
  after_claim-unsent send mail _ (one_claimed db' e) h = released (send mail) e h
    where
      released :
          (b : Bool)
          → release_slot calls.send_id db' ≡ db
          → (sent_or_released b calls.send_id db').1 ≢ sent
          → (sent_or_released b calls.send_id db').0 ≡ db
      released true e h = absurd (h refl)
      released false e h = e

  attempt-unsent :
      (send : Sender) (i : Invitation) (sender : Requester)
      → let x = attempt_delivery cfg calls send i sender db in x.1 ≢ sent → x.0 ≡ db
  unfolding attempt_delivery
  attempt-unsent none i sender h = refl
  attempt-unsent (some send) i sender h = verified sender.email_verified h
    where
      x : ChannelDb × InvitationClaim
      x = claim_invitation_send cfg calls i.organization_id i.email db

      verified :
          (b : Bool)
          → let y =
              (if not b then (db, unverified) else after_claim send (invitation_mail i sender) x) in
            y.1 ≢ sent → y.0 ≡ db
      verified false h = refl
      verified true h =
          after_claim-unsent send (invitation_mail i sender) x
            (claim-Claimed i.organization_id i.email) h

  dropped :
      (id : ℕ) (x : ChannelDb × DeliveryOutcome)
      → (x.1 ≢ sent → x.0 ≡ db)
      → (drop_unsent id x).1 ≢ sent
      → (drop_unsent id x).0 ≡ without id db
  dropped id (db', sent) k h = absurd (h refl)
  dropped id (db', no_mail) k h = ap (without id) (k h)
  dropped id (db', unverified) k h = ap (without id) (k h)
  dropped id (db', opted_out) k h = ap (without id) (k h)
  dropped id (db', too_soon) k h = ap (without id) (k h)
  dropped id (db', capped) k h = ap (without id) (k h)
  dropped id (db', failed) k h = ap (without id) (k h)
  dropped id (db', refused r) k h = ap (without id) (k h)

-- A delivery of an invitation whose outcome is not that it was sent leaves the database as it was
-- but for the invitation, which is gone: no slot stays taken and no mail is counted, also where the
-- sender threw after a slot was claimed; for an identifier of the send that is new.
pub deliver-unsent :
    (cfg : ChannelSettings) (calls : ChannelCalls) (db : ChannelDb) (send : Sender) (i : Invitation)
    (sender : Requester)
    → IsNewSend calls db
    → (deliver_invitation cfg calls send i sender db).1 ≢ sent
    → (deliver_invitation cfg calls send i sender db).0 ≡ without i.id db
unfolding deliver_invitation
deliver-unsent cfg calls db send i sender fresh h =
    dropped cfg calls db fresh i.id (attempt_delivery cfg calls send i sender db)
      (attempt-unsent cfg calls db fresh send i sender) h
