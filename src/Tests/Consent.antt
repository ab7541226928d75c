-- ===== src/Tests/Consent.antt =====
-- Consent of the addresses of email channels, at one organization.
use uppity.Base.{ℕ, ◌≡◌, refl, String, true, false, none, some, List, [], ◌∷◌}
use uppity.EmailChannels.{
  QueuedConfirmation, Channel, EmailOptOut, Requester, ChannelDb, ChannelSettings, ChannelCalls,
}
use uppity.EmailChannels.Claims.{claim, answers, unsubscribed}
use uppity.EmailChannels.Silenced.{Owner, IsRefused, IsSilent}
use uppity.EmailChannels.Runs.{
  Call, requests, queues, sends_queued, invites, unsubscribes_invited, sweeps, perform_all,
  perform_all-IsSilent,
}
use uppity.Tests.Mailing.{no_mail}

abbrev pub same_case : String → String
same_case s = s

abbrev refusing : EmailOptOut
refusing = record {
  organization_id = 7;
  email = "a@x.example";
  unsubscribed_at = some 900;
  reasked_at = some 800;
}

abbrev channel : Channel
channel = record {
  id = 1;
  organization_id = 7;
  name = "on call";
  is_email = true;
  email = some "a@x.example";
  token = some 11;
  confirmation_sent_at = some 800;
  verified_at = none;
  unsubscribed_at = some 900;
  reasked_at = some 800;
}

abbrev pub team : ChannelDb
team = record {
  channels = channel ∷ [];
  opt_outs = refusing ∷ [];
  sends = [];
  members = [];
  invitations =
      record {
        id = 3;
        organization_id = 7;
        email = "b@x.example";
        is_pending = true;
        expires_at = 5000;
        inviter_id = 1;
      }
      ∷ [];
  organizations = record { id = 7; name = "seven" } ∷ [];
  queue = [];
  mail = no_mail;
}

abbrev pub settings : ChannelSettings
settings = record { cap = 5; ceiling = 1000 }

abbrev pub calls : ℕ → ChannelCalls
calls now = record { now = now; send_id = now; token = now; lower_case = same_case }

abbrev pub admin : Requester
admin = record { email = "admin@x.example"; email_verified = true }

-- The event of a confirmation that was queued before the address opted out again.
abbrev left_over : QueuedConfirmation
left_over = record {
  organization_id = 7;
  channel_id = 1;
  send_id = 40;
  email = "a@x.example";
  requested_by = "admin@x.example";
  previous = record { confirmation_sent_at = none; unsubscribed_at = none };
  reasked = true;
}

abbrev history : List Call
history =
    requests (calls 1000) 7 1 false admin
    ∷ queues (calls 1050) 7 1 admin
    ∷ sends_queued 1060 false left_over
    ∷ invites (calls 1100) 7 "a@x.example"
    ∷ invites (calls 1200) 7 "b@x.example"
    ∷ unsubscribes_invited 1300 3
    ∷ sweeps 900000000
    ∷ []

abbrev owner : ℕ → Owner
owner id = (7, some "a@x.example")

it_refuses : IsRefused same_case owner 7 "a@x.example" team
it_refuses = record {
  final = record { there = refl; only = refl };
  channels = (record { named = refl; closed = λ e. refl }, tt);
}

not_asked_again : (claim settings (calls 1000) 7 true 1 admin team).1 ≡ answers unsubscribed
unfolding claim uppity.Base.first_where uppity.EmailChannels.opt_out_of
not_asked_again = refl

perform_all-IsSilent_example :
    IsSilent same_case owner 7 "a@x.example" team (perform_all settings same_case history team)
perform_all-IsSilent_example =
    perform_all-IsSilent same_case owner 7 "a@x.example" settings history team it_refuses
