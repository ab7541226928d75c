-- ===== src/EmailChannels/OptOut.antt =====
-- What stops mail to an address: the link in its mail, or in an invitation
-- (src/lib/server/services/email-channel.service.ts).
use uppity.Base.{
  ℕ, String, Bool, ◌&&◌, Option, none, some, List, ◌∷◌, ◌==◌, if◌then◌else◌, is_some, is_none, any,
  or_else, first_where, update_where,
}
use uppity.EmailChannels.{
  Channel, EmailOptOut, Invitation, Organization, ChannelDb, is_opt_out, has_address, opt_out_of,
}
use uppity.EmailChannels.Answers.{address_of, has_token}

-- `UnsubscribedChannel`
pub record UnsubscribedChannel : Type 0 where
  pub organization_id : ℕ
  pub organization_name : String
  pub channel_name : String
  pub email : String
  pub final : Bool

abbrev pub opted_out : ℕ → EmailOptOut → EmailOptOut
opted_out now o = record o { unsubscribed_at = some now }

-- The insert with `ON CONFLICT DO UPDATE` of an opt-out.
abbrev pub write_opt_out : ℕ → String → ℕ → List EmailOptOut → List EmailOptOut
write_opt_out org email now rows =
    if any (is_opt_out org email) rows
    then update_where (is_opt_out org email) (opted_out now) rows
    else record {
      organization_id = org;
      email = email;
      unsubscribed_at = some now;
      reasked_at = none;
    }
      ∷ rows

abbrev pub reasked_of : Option EmailOptOut → Option ℕ
reasked_of none = none
reasked_of (some o) = o.reasked_at

abbrev pub is_at : (String → String) → ℕ → String → Channel → Bool
is_at lower org email c = (c.organization_id == org) && c.is_email && has_address lower email c

-- `reaskedAt`, of the channel or of the opt-out
abbrev pub reasked_then : ℕ → String → Option ℕ → ChannelDb → Option ℕ
reasked_then org email channel_reasked db =
    or_else channel_reasked (reasked_of (first_where (is_opt_out org email) db.opt_outs))

-- `optOutAddress`
unfoldable pub opt_out_address :
    (String → String) → ℕ → ℕ → String → Option ℕ → ChannelDb → ChannelDb
opt_out_address lower now org email channel_reasked db = record db {
  opt_outs = write_opt_out org email now db.opt_outs;
  channels =
      update_where (is_at lower org email)
        (λ c. record c {
          verified_at = none;
          unsubscribed_at = some now;
          reasked_at = reasked_then org email channel_reasked db;
        })
        db.channels;
}

abbrev pub name_of : Option Organization → String
name_of none = ""
name_of (some o) = o.name

abbrev pub unsubscribe_address :
    (String → String)
    → ℕ
    → ChannelDb
    → Channel
    → Option String
    → ChannelDb × Option UnsubscribedChannel
unsubscribe_address lower now db c none = (db, none)
unsubscribe_address lower now db c (some e) = (
  opt_out_address lower now c.organization_id (lower e) c.reasked_at db,
  some (record {
    organization_id = c.organization_id;
    organization_name = name_of (first_where (λ o. o.id == c.organization_id) db.organizations);
    channel_name = c.name;
    email = e;
    final = is_some (reasked_then c.organization_id (lower e) c.reasked_at db);
  }),
)

abbrev pub unsubscribe_channel :
    (String → String) → ℕ → ChannelDb → Option Channel → ChannelDb × Option UnsubscribedChannel
unsubscribe_channel lower now db none = (db, none)
unsubscribe_channel lower now db (some c) = unsubscribe_address lower now db c (address_of c)

-- `unsubscribe`
unfoldable pub unsubscribe_by_token :
    (String → String) → ℕ → ℕ → ChannelDb → ChannelDb × Option UnsubscribedChannel
unfolding opt_out_address
unsubscribe_by_token lower now token db =
    unsubscribe_channel lower now db
      (first_where (λ c. has_token token c && is_none c.unsubscribed_at) db.channels)

abbrev pub stopped_channel : ℕ → String → ChannelDb → Option Channel → Option UnsubscribedChannel
stopped_channel org email db none = none
stopped_channel org email db (some c) = some (record {
  organization_id = org;
  organization_name = name_of (first_where (λ o. o.id == org) db.organizations);
  channel_name = c.name;
  email = email;
  final = is_some (reasked_then org email none db);
})

abbrev pub unsubscribe_invited :
    (String → String) → ℕ → ChannelDb → Option Invitation → ChannelDb × Option UnsubscribedChannel
unsubscribe_invited lower now db none = (db, none)
unsubscribe_invited lower now db (some i) =
    let email = lower i.email in
    if is_some (opt_out_of i.organization_id email db.opt_outs) then (db, none) else (
      opt_out_address lower now i.organization_id email none db,
      stopped_channel i.organization_id email db
          (first_where (is_at lower i.organization_id email) db.channels),
    )

-- `unsubscribeInvitation`
unfoldable pub unsubscribe_invitation :
    (String → String) → ℕ → ℕ → ChannelDb → ChannelDb × Option UnsubscribedChannel
unfolding opt_out_address
unsubscribe_invitation lower now id db =
    unsubscribe_invited lower now db (first_where (λ i. i.id == id) db.invitations)
