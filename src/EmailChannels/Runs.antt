-- ===== src/EmailChannels/Runs.antt =====
-- Sequences of calls after an address opted out a second time
-- (src/lib/server/services/email-channel.service.ts).
use uppity.Base.{
  true, All-update_where, refl, ℕ, String, Bool, Option, none, some, List, [], ◌∷◌, arith,
  Bool-cases, inl, inr, is_some, count_where-delete_le,
}
use uppity.EmailChannels.{
  QueuedConfirmation, Channel, Requester, Invitation, ChannelDb, ChannelSettings, ChannelCalls,
  is_send, opt_out_of,
}
use uppity.EmailChannels.Claims.{queue_confirmation, claim_invitation_send}
use uppity.EmailChannels.Sending.{request_confirmation, send_queued}
use uppity.EmailChannels.Undone.{request-IsSilent, send_queued-IsSilent}
use uppity.EmailChannels.OptOut.{
  is_at, opt_out_address, unsubscribe_by_token, unsubscribe_channel, unsubscribe_address,
  unsubscribe_invitation, unsubscribe_invited,
}
use uppity.EmailChannels.Answers.{address_of}
use uppity.EmailChannels.Queries.{prune_channel_confirmation_sends}
use uppity.EmailChannels.Final.{write_opt_out-IsFinal}
use uppity.EmailChannels.Silenced.{Owner, IsRefused, IsSilent, unchanged, invitation-IsSilent}
use uppity.EmailChannels.Asked.{claim-IsQuiet}

-- A call that may send to an address, that stops mail to one, or the sweep of old sends. The mail
-- server takes the email of a requested or queued confirmation, or it does not.
pub data Call : Type 0 where
  requests : ChannelCalls → ℕ → ℕ → Bool → Requester → Call
  queues : ChannelCalls → ℕ → ℕ → Requester → Call
  sends_queued : ℕ → Bool → QueuedConfirmation → Call
  invites : ChannelCalls → ℕ → String → Call
  unsubscribes : ℕ → ℕ → Call
  unsubscribes_invited : ℕ → ℕ → Call
  sweeps : ℕ → Call

-- Each call runs to its end before the next one; they share `toLowerCase`.
unfoldable pub perform : ChannelSettings → (String → String) → Call → ChannelDb → ChannelDb
unfolding send_queued request_confirmation
perform cfg lower (requests calls org channel goes_out r) db =
    (request_confirmation cfg (record calls { lower_case = lower }) channel org goes_out r db).0
perform cfg lower (queues calls org channel r) db =
    queue_confirmation cfg (record calls { lower_case = lower }) org channel r db
perform cfg lower (sends_queued now goes_out q) db = (send_queued lower now goes_out q db).0
perform cfg lower (invites calls org address) db =
    (claim_invitation_send cfg (record calls { lower_case = lower }) org address db).0
perform cfg lower (unsubscribes now token) db = (unsubscribe_by_token lower now token db).0
perform cfg lower (unsubscribes_invited now id) db = (unsubscribe_invitation lower now id db).0
perform cfg lower (sweeps now) db = (prune_channel_confirmation_sends now db).0

unfoldable pub perform_all : ChannelSettings → (String → String) → List Call → ChannelDb → ChannelDb
unfolding perform
perform_all cfg lower [] db = db
perform_all cfg lower (c ∷ cs) db = perform_all cfg lower cs (perform cfg lower c db)

module _ (lower : String → String) (owner : ℕ → Owner) (org : ℕ) (email : String) where
  opt_out_address-IsSilent :
      (now org' : ℕ) (email' : String) (a : Option ℕ) (db : ChannelDb)
      → IsRefused lower owner org email db
      → IsSilent lower owner org email db (opt_out_address lower now org' email' a db)
  unfolding opt_out_address
  opt_out_address-IsSilent now org' email' a db h = record {
    refused = record {
      final = write_opt_out-IsFinal org email org' now email' db.opt_outs h.final;
      channels =
          All-update_where _ (is_at lower org' email') _ db.channels
            (λ c e k. record { named = k.named; closed = λ ours. refl }) h.channels;
    };
    quiet = omega arith;
  }

  token-IsSilent :
      (now token : ℕ) (db : ChannelDb)
      → IsRefused lower owner org email db
      → IsSilent lower owner org email db (unsubscribe_by_token lower now token db).0
  unfolding unsubscribe_by_token
  token-IsSilent now token db h = go _
    where
      addressed :
          (c : Channel) (e : Option String)
          → IsSilent lower owner org email db (unsubscribe_address lower now db c e).0
      addressed c none = unchanged lower owner org email db h
      addressed c (some e) =
          opt_out_address-IsSilent now c.organization_id (lower e) c.reasked_at db h

      go :
          (c : Option Channel)
          → IsSilent lower owner org email db (unsubscribe_channel lower now db c).0
      go none = unchanged lower owner org email db h
      go (some c) = addressed c (address_of c)

  invited-IsSilent :
      (now id : ℕ) (db : ChannelDb)
      → IsRefused lower owner org email db
      → IsSilent lower owner org email db (unsubscribe_invitation lower now id db).0
  unfolding unsubscribe_invitation
  invited-IsSilent now id db h = go _
    where
      go :
          (i : Option Invitation)
          → IsSilent lower owner org email db (unsubscribe_invited lower now db i).0
      go none = unchanged lower owner org email db h
      go (some i) =
          elim (Bool-cases (is_some (opt_out_of i.organization_id (lower i.email) db.opt_outs))) [
            | inl e ↦ rw e (unchanged lower owner org email db h)
            | inr e ↦
                rw e (opt_out_address-IsSilent now i.organization_id (lower i.email) none db h)
          ]

  perform-IsSilent :
      (cfg : ChannelSettings) (c : Call) (db : ChannelDb)
      → IsRefused lower owner org email db
      → IsSilent lower owner org email db (perform cfg lower c db)
  unfolding perform prune_channel_confirmation_sends queue_confirmation
  perform-IsSilent cfg (requests calls org' channel goes_out r) db h =
      request-IsSilent owner org email cfg (record calls { lower_case = lower }) org' channel
        goes_out r db h
  perform-IsSilent cfg (queues calls org' channel r) db h =
      (claim-IsQuiet owner org email cfg (record calls { lower_case = lower }) org' true channel r
        db h).0
  perform-IsSilent cfg (sends_queued now goes_out q) db h =
      send_queued-IsSilent owner org email lower now goes_out q db h
  perform-IsSilent cfg (invites calls org' address) db h =
      invitation-IsSilent owner org email cfg (record calls { lower_case = lower }) org' address db
        h
  perform-IsSilent cfg (unsubscribes now token) db h = token-IsSilent now token db h
  perform-IsSilent cfg (unsubscribes_invited now id) db h = invited-IsSilent now id db h
  perform-IsSilent cfg (sweeps now) db h = record {
    refused = record { final = h.final; channels = h.channels };
    quiet = omega (arith, count_where-delete_le (is_send org email) _ db.sends);
  }

-- If an address has opted out of an organization's mail after the organization asked it again, and
-- the organization's channels that have it are unsubscribed, then all this stays so and the log gets
-- no further email from the organization to the address, in any sequence of calls: confirmations
-- requested or queued, and queued ones sent, whether the mail server takes them or they are undone,
-- invitations, unsubscriptions by either link and sweeps of old sends, whoever asks and through
-- whatever channels. The id of a channel names one organization and one address, and a call ends
-- before the next one.
pub perform_all-IsSilent :
    (lower : String → String) (owner : ℕ → Owner) (org : ℕ) (email : String) (cfg : ChannelSettings)
    (cs : List Call) (db : ChannelDb)
    → IsRefused lower owner org email db
    → IsSilent lower owner org email db (perform_all cfg lower cs db)
unfolding perform_all
perform_all-IsSilent lower owner org email cfg [] db h = unchanged lower owner org email db h
perform_all-IsSilent lower owner org email cfg (c ∷ cs) db h =
    let step = perform-IsSilent lower owner org email cfg c db h in
    let rest =
      perform_all-IsSilent lower owner org email cfg cs (perform cfg lower c db) step.refused in
    record { refused = rest.refused; quiet = omega (arith, step.quiet, rest.quiet) }
