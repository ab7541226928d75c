-- ===== src/Tests/Inviting.antt =====
-- Team invitations at one organization.
use uppity.Base.{
  ◌≡◌, ◌≢◌, refl, Bool, true, false, some, [], ◌∷◌, ◌==◌, first_where, count_where, rows_where,
  newest,
}
use uppity.Mail.{refusal, is_blocked, over_ceiling, is_suppressed}
use uppity.EmailChannels.{
  Member, Invitation, Requester, ChannelDb, claim_slot, opt_out_of, unconfirmed_addresses,
  unanswered_sends,
}
use uppity.EmailChannels.Claims.{claim_invitation_send}
use uppity.Invitations.{sent, failed, TeamInvitation, deliver_invitation}
use uppity.Invitations.Unsent.{without, deliver-unsent}
use uppity.Invitations.Views.{view_for, pending_for, accept, not_found, accept_in_progress}
use uppity.Invitations.Shown.{shown, view_for-pending_for}
use uppity.Tests.Consent.{same_case, team, settings, calls, admin}

abbrev invitation : Invitation
invitation = record {
  id = 3;
  organization_id = 7;
  email = "b@x.example";
  is_pending = true;
  expires_at = 5000;
  inviter_id = 1;
}

abbrev inviter : Member
inviter = record {
  user_id = 1;
  organization_id = 7;
  email = "admin@x.example";
  email_verified = true;
}

abbrev staffed : ChannelDb
staffed = record team { members = inviter ∷ [] }

abbrev broken : TeamInvitation → Bool
broken mail = false

throws :
    (deliver_invitation settings (calls 1200) (some broken) invitation admin staffed).1 ≡ failed
unfolding deliver_invitation claim_invitation_send opt_out_of claim_slot unconfirmed_addresses
    unanswered_sends first_where count_where rows_where newest refusal is_blocked over_ceiling
    is_suppressed
throws = refl

not_sent :
    (deliver_invitation settings (calls 1200) (some broken) invitation admin staffed).1 ≢ sent
not_sent e = cc throws

deliver-unsent_example :
    (deliver_invitation settings (calls 1200) (some broken) invitation admin staffed).0
    ≡ without 3 staffed
unfolding count_where
deliver-unsent_example =
    deliver-unsent settings (calls 1200) staffed (some broken) invitation admin
      (record { no_send = refl; no_mail = refl }) not_sent

abbrev reader : Requester
reader = record { email = "b@x.example"; email_verified = true }

view_for-pending_for_example :
    shown (view_for same_case 1000 3 reader staffed)
    ≡ first_where (λ s. s.id == 3) (pending_for same_case 1000 reader staffed)
view_for-pending_for_example =
    view_for-pending_for same_case 1000 reader 3 "b@x.example" staffed (λ e. refl, tt)

sees :
    shown (view_for same_case 1000 3 reader staffed)
    ≡ some (record { id = 3; organization_name = "seven"; invited_by = some "admin@x.example" })
unfolding view_for first_where rows_where
sees = refl

too_late : (accept 6000 (λ o. true) (λ db. db) 3 staffed).1 ≡ some not_found
unfolding accept first_where rows_where
too_late = refl

one_at_a_time : (accept 1000 (λ o. false) (λ db. db) 3 staffed).1 ≡ some accept_in_progress
unfolding accept first_where rows_where
one_at_a_time = refl
