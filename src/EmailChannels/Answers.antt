-- ===== src/EmailChannels/Answers.antt =====
-- What confirms an address: the link in its mail, or a member who verifies it
-- (src/lib/server/services/email-channel.service.ts).
use uppity.Base.{
  ℕ, ◌+◌, String, Bool, true, false, not, ◌&&◌, ◌||◌, Option, none, some, List, [], ◌∷◌, map, ltb,
  ◌==◌, if◌then◌else◌, is_some, is_none, holds, any, first_where, rows_where, update_where,
  same_text, is_empty, unique,
}
use uppity.EmailChannels.{
  Channel, Organization, ChannelDb, confirmation_ttl_ms, is_opt_out, has_address, free_slot,
}

pub data RecipientState : Type 0 where
  pending confirmed expired unsubscribed : RecipientState

-- `RecipientLookup`
pub record RecipientLookup : Type 0 where
  pub state : RecipientState
  pub reasked : Bool
  pub email : String
  pub organization_name : String

-- The address of a channel; an empty one is falsy.
abbrev pub address_of : Channel → Option String
address_of c = elim c.email [ none ↦ none | some e ↦ if is_empty e then none else some e ]

abbrev pub is_fresh : ℕ → Channel → Bool
is_fresh now c = holds (λ t. ltb now (t + confirmation_ttl_ms)) c.confirmation_sent_at

abbrev pub recipient_state : ℕ → Channel → RecipientState
recipient_state now c =
    if is_some c.verified_at
    then confirmed
    else if is_some c.unsubscribed_at
    then unsubscribed
    else if is_fresh now c
    then pending
    else expired

abbrev pub lookup_named : ℕ → Channel → String → Option Organization → Option RecipientLookup
lookup_named now c e none = none
lookup_named now c e (some o) = some (record {
  state = recipient_state now c;
  reasked = is_some c.reasked_at;
  email = e;
  organization_name = o.name;
})

abbrev pub lookup_address : ℕ → ChannelDb → Channel → Option String → Option RecipientLookup
lookup_address now db c none = none
lookup_address now db c (some e) =
    lookup_named now c e (first_where (λ o. o.id == c.organization_id) db.organizations)

abbrev pub lookup_channel : ℕ → ChannelDb → Option Channel → Option RecipientLookup
lookup_channel now db none = none
lookup_channel now db (some c) = lookup_address now db c (address_of c)

abbrev pub has_token : ℕ → Channel → Bool
has_token token c = holds (λ t. t == token) c.token

-- `lookup`
unfoldable pub lookup_recipient : ℕ → ℕ → ChannelDb → Option RecipientLookup
lookup_recipient now token db = lookup_channel now db (first_where (has_token token) db.channels)

-- `markConfirmed`
unfoldable pub mark_confirmed : ℕ → String → ℕ → ChannelDb → ChannelDb
mark_confirmed org email now db = record db {
  sends = free_slot org email now db.sends;
  opt_outs =
      update_where (is_opt_out org email) (λ o. record o { unsubscribed_at = none }) db.opt_outs;
}

abbrev pub mark_channel : (String → String) → ℕ → ChannelDb → Channel → Option String → ChannelDb
mark_channel lower now db c none = db
mark_channel lower now db c (some e) = mark_confirmed c.organization_id (lower e) now db

abbrev pub mark_row : (String → String) → ℕ → ChannelDb → Option Channel → ChannelDb
mark_row lower now db none = db
mark_row lower now db (some c) = mark_channel lower now db c (address_of c)

abbrev pub may_confirm : ℕ → ℕ → Channel → Bool
may_confirm now token c =
    has_token token c && is_none c.verified_at && is_none c.unsubscribed_at && is_fresh now c

abbrev pub is_confirmed : Option RecipientLookup → Bool
is_confirmed none = false
is_confirmed (some l) = elim l.state [ confirmed ↦ true | _ ↦ false ]

-- `confirm`
unfoldable pub confirm_address : (String → String) → ℕ → ℕ → ChannelDb → ChannelDb × Bool
unfolding mark_confirmed lookup_recipient
confirm_address lower now token db =
    let row = first_where (may_confirm now token) db.channels in
    let written : ChannelDb = record db {
      channels =
          update_where (may_confirm now token) (λ c. record c { verified_at = some now })
            db.channels;
    } in
    let marked : ChannelDb = mark_row lower now written row in
    (marked, is_some row || is_confirmed (lookup_recipient now token marked))

-- A pending channel of a verified member's address that has not opted out.
abbrev pub is_confirmable : (String → String) → String → ChannelDb → Channel → Bool
is_confirmable lower address db c =
    c.is_email
    && is_none c.verified_at
    && is_none c.unsubscribed_at
    && has_address lower address c
    && any
        (λ m.
          (m.organization_id == c.organization_id)
          && m.email_verified
          && same_text (lower m.email) address)
        db.members
    && not
        (any (λ o. is_opt_out c.organization_id address o && is_some o.unsubscribed_at) db.opt_outs)

unfoldable pub mark_all : List ℕ → String → ℕ → ChannelDb → ChannelDb
unfolding mark_confirmed
mark_all [] address now db = db
mark_all (org ∷ orgs) address now db = mark_all orgs address now (mark_confirmed org address now db)

-- `confirmMemberAddress`
unfoldable pub confirm_member_address : (String → String) → ℕ → String → ChannelDb → ChannelDb
unfolding mark_all
confirm_member_address lower now email db =
    let address = lower email in
    let p = is_confirmable lower address db in
    mark_all (unique (map (λ c. c.organization_id) (rows_where p db.channels))) address now
      (record db {
        channels = update_where p (λ c. record c { verified_at = some now }) db.channels;
      })
