-- ===== src/Invitations/Views.antt =====
-- Who may see and accept a team invitation (src/lib/server/services/invitation.service.ts).
use uppity.Base.{
  ℕ, String, Bool, not, ◌&&◌, Option, none, some, List, [], ◌∷◌, ◌++◌, map, ltb, ◌==◌,
  if◌then◌else◌, same_text, first_where, rows_where,
}
use uppity.EmailChannels.{Member, Invitation, Organization, Requester, ChannelDb}

-- `InvitationSummary`
pub record InvitationSummary : Type 0 where
  pub id : ℕ
  pub organization_name : String
  pub invited_by : Option String

-- `InvitationView`
pub data InvitationView : Type 0 where
  invalid other_account unverified : InvitationView
  pending : InvitationSummary → InvitationView

-- The columns that `pending` selects.
pub record PendingRow : Type 0 where
  pub id : ℕ
  pub email : String
  pub organization_id : ℕ
  pub organization_name : String
  pub inviter_email : String
  pub inviter_verified : Bool

abbrev pub pending_row : Invitation → Organization → Member → PendingRow
pending_row i o m = record {
  id = i.id;
  email = i.email;
  organization_id = i.organization_id;
  organization_name = o.name;
  inviter_email = m.email;
  inviter_verified = m.email_verified;
}

-- The joins with the inviter's membership, whose row has the inviter's account, and with the
-- organization.
abbrev pub join_members : Invitation → List Member → Organization → List PendingRow
join_members i members o = map (pending_row i o) (
    rows_where (λ m. (m.user_id == i.inviter_id) && (m.organization_id == i.organization_id))
      members)

unfoldable pub join_organizations : Invitation → List Member → List Organization → List PendingRow
join_organizations i members [] = []
join_organizations i members (o ∷ os) =
    let rest = join_organizations i members os in
    if o.id == i.organization_id then join_members i members o ++ rest else rest

-- The rows of invitations that are pending and not expired.
unfoldable pub live_rows : ℕ → List Member → List Organization → List Invitation → List PendingRow
unfolding join_organizations
live_rows now members os [] = []
live_rows now members os (i ∷ is) =
    let rest = live_rows now members os is in
    if i.is_pending && ltb now i.expires_at then join_organizations i members os ++ rest else rest

unfoldable pub live : ℕ → ChannelDb → List PendingRow
unfolding live_rows
live now db = live_rows now db.members db.organizations db.invitations

-- `summarize`
abbrev pub summarize : PendingRow → InvitationSummary
summarize r = record {
  id = r.id;
  organization_name = r.organization_name;
  invited_by = if r.inviter_verified then some r.inviter_email else none;
}

-- What `accept` throws; otherwise it runs what it is given.
pub data AcceptError : Type 0 where
  not_found accept_in_progress : AcceptError

abbrev pub accept_row :
    (ℕ → Bool)
    → (ChannelDb → ChannelDb)
    → ChannelDb
    → Option PendingRow
    → ChannelDb × Option AcceptError
accept_row free run db none = (db, some not_found)
accept_row free run db (some r) =
    if free r.organization_id then (run db, none) else (db, some accept_in_progress)

-- `accept`: whether the organization's lock was free is an argument.
unfoldable pub accept :
    ℕ → (ℕ → Bool) → (ChannelDb → ChannelDb) → ℕ → ChannelDb → ChannelDb × Option AcceptError
unfolding live
accept now free run id db = accept_row free run db (first_where (λ r. r.id == id) (live now db))

module _ (lower : String → String) (now : ℕ) where
  abbrev pub is_addressed_to : Requester → PendingRow → Bool
  is_addressed_to reader r = same_text (lower r.email) (lower reader.email)

  abbrev pub view_row : Requester → Option PendingRow → InvitationView
  view_row reader none = invalid
  view_row reader (some r) =
      if not (is_addressed_to reader r)
      then other_account
      else if not reader.email_verified
      then unverified
      else pending (summarize r)

  -- `viewFor`
  unfoldable pub view_for : ℕ → Requester → ChannelDb → InvitationView
  unfolding live
  view_for id reader db = view_row reader (first_where (λ r. r.id == id) (live now db))

  -- `pendingFor`
  unfoldable pub pending_for : Requester → ChannelDb → List InvitationSummary
  unfolding live
  pending_for reader db =
      if not reader.email_verified
      then []
      else map summarize (rows_where (is_addressed_to reader) (live now db))
