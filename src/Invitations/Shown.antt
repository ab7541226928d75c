-- ===== src/Invitations/Shown.antt =====
-- What a reader may see of an invitation (src/lib/server/services/invitation.service.ts).
use mathlib.Core.Path.{subst}
use uppity.Base.{
  ℕ, ◌≡◌, refl, sym, ap, ◌∙◌, String, Bool, true, false, not, ◌&&◌, Option, none, some, List, [],
  ◌∷◌, ◌++◌, map, arith, Bool-cases, inl, inr, ltb, ◌==◌, if◌then◌else◌, same_text, first_where,
  rows_where, All,
}
use uppity.EmailChannels.{Member, Invitation, Organization, Requester, ChannelDb}
use uppity.Invitations.Views.{
  InvitationSummary, InvitationView, invalid, other_account, unverified, pending, PendingRow,
  pending_row, join_members, join_organizations, live_rows, live, summarize, is_addressed_to,
  view_row, view_for, pending_for,
}

-- The invitation that a view shows.
abbrev pub shown : InvitationView → Option InvitationSummary
shown invalid = none
shown other_account = none
shown unverified = none
shown (pending s) = some s

-- Every row with this id has this address.
abbrev pub IsAddressed : ℕ → String → List Invitation → Type 0
IsAddressed id email is = All (λ i. (i.id == id) ≡ true → i.email ≡ email) is

module _ {ℓ ℓ'} {A : Type ℓ} {B : Type ℓ'} (p q : A → Bool) (g : A → B) (t : B → Bool)
    (agree : (x : A) → t (g x) ≡ p x) where
  abbrev first_if : Option A → Option B
  first_if none = none
  first_if (some x) = if q x then some (g x) else none

  first_if-refused :
      (xs : List A)
      → All (λ x. p x ≡ true → q x ≡ false) xs
      → first_where t (map g (rows_where q xs)) ≡ none
  unfolding first_where rows_where
  first_if-refused [] h = refl
  first_if-refused (x ∷ xs) (h, hs) = elim (Bool-cases (q x)) [
    | inr e ↦ rw e (first_if-refused xs hs)
    | inl e ↦ elim (Bool-cases (p x)) [
      | inl k ↦ ground (arith, e, h k)
      | inr k ↦ rw (e, agree x, k) (first_if-refused xs hs)
    ]
  ]

  -- The first row that both tests take is the first that one takes, where they agree on those.
  first_if-first_where :
      (b : Bool) (xs : List A)
      → All (λ x. p x ≡ true → q x ≡ b) xs
      → first_if (first_where p xs) ≡ first_where t (map g (rows_where q xs))
  unfolding first_where rows_where
  first_if-first_where b [] h = refl
  first_if-first_where b (x ∷ xs) (h, hs) = elim (Bool-cases (p x)) [
    | inr k ↦ elim (Bool-cases (q x)) [
      | inl e ↦ rw (k, e, agree x, k) (first_if-first_where b xs hs)
      | inr e ↦ rw (k, e) (first_if-first_where b xs hs)
    ]
    | inl k ↦ elim (Bool-cases (q x)) [
      | inl e ↦ rw (k, e, agree x, k) refl
      | inr e ↦
          rw (k, e)
            (sym (
              first_if-refused xs
                (subst (λ c. All (λ x. p x ≡ true → q x ≡ c) xs) (sym (h k) ∙ e) hs)))
    ]
  ]

module _ {ℓ κ} {A : Type ℓ} (P : A → Type κ) where
  All-append : (xs ys : List A) → All P xs → All P ys → All P (xs ++ ys)
  All-append [] ys h k = k
  All-append (x ∷ xs) ys (h, hs) k = (h, All-append xs ys hs k)

module _ (P : PendingRow → Type 0) (i : Invitation) where
  module _ (every : (o : Organization) (m : Member) → P (pending_row i o m)) where
    map-every : (o : Organization) (ms : List Member) → All P (map (pending_row i o) ms)
    map-every o [] = tt
    map-every o (m ∷ ms) = (every o m, map-every o ms)

    join-every :
        (members : List Member) (os : List Organization) → All P (join_organizations i members os)
    unfolding join_organizations
    join-every members [] = tt
    join-every members (o ∷ os) = elim (Bool-cases (o.id == i.organization_id)) [
      | inl e ↦
          rw e (All-append P (join_members i members o) _ (map-every o _) (join-every members os))
      | inr e ↦ rw e (join-every members os)
    ]

live_rows-addressed :
    (id now : ℕ) (email : String) (members : List Member) (os : List Organization)
    (is : List Invitation)
    → IsAddressed id email is
    → All (λ (r : PendingRow). (r.id == id) ≡ true → r.email ≡ email) (live_rows now members os is)
unfolding live_rows
live_rows-addressed id now email members os [] h = tt
live_rows-addressed id now email members os (i ∷ is) (h, hs) =
    let rest = live_rows-addressed id now email members os is hs in
    elim (Bool-cases (i.is_pending && ltb now i.expires_at)) [
      | inl e ↦ rw e (
          All-append _ (join_organizations i members os) _
            (join-every (λ r. (r.id == id) ≡ true → r.email ≡ email) i (λ o m. h) members os) rest)
      | inr e ↦ rw e rest
    ]

module _ (lower : String → String) (now : ℕ) (reader : Requester) where
  -- A reader without a verified address is shown nothing.
  shown-unverified :
      (o : Option PendingRow)
      → reader.email_verified ≡ false
      → shown (view_row lower now reader o) ≡ none
  shown-unverified none e = refl
  shown-unverified (some r) e = elim (Bool-cases (is_addressed_to lower now reader r)) [
    | inl k ↦ rw (k, e) refl
    | inr k ↦ rw k refl
  ]

  shown-verified :
      (o : Option PendingRow)
      → reader.email_verified ≡ true
      → shown (view_row lower now reader o)
        ≡ first_if
            (λ r. true)
            (is_addressed_to lower now reader)
            summarize
            (λ s. true)
            (λ r. refl)
            o
  shown-verified none e = refl
  shown-verified (some r) e = elim (Bool-cases (is_addressed_to lower now reader r)) [
    | inl k ↦ rw (k, e) refl
    | inr k ↦ rw k refl
  ]

  addressed-is_addressed_to :
      (id : ℕ) (email : String) (rs : List PendingRow)
      → All (λ r. (r.id == id) ≡ true → r.email ≡ email) rs
      → All
          (λ r.
            (r.id == id) ≡ true
            → is_addressed_to lower now reader r ≡ same_text (lower email) (lower reader.email))
          rs
  addressed-is_addressed_to id email [] h = tt
  addressed-is_addressed_to id email (r ∷ rs) (h, hs) = (
    λ k. ap (λ e. same_text (lower e) (lower reader.email)) (h k),
    addressed-is_addressed_to id email rs hs,
  )

-- What a link to an invitation shows to a reader is the invitation with that id in the list of the
-- reader's pending invitations, and it shows none if the list has none, where the invitations with
-- that id have one address.
pub view_for-pending_for :
    (lower : String → String) (now : ℕ) (reader : Requester) (id : ℕ) (email : String)
    (db : ChannelDb)
    → IsAddressed id email db.invitations
    → shown (view_for lower now id reader db)
      ≡ first_where (λ s. s.id == id) (pending_for lower now reader db)
unfolding view_for pending_for live first_where
view_for-pending_for lower now reader id email db h = elim (Bool-cases reader.email_verified) [
  | inr e ↦ shown-unverified lower now reader _ e ∙ sym (listed e)
  | inl e ↦
      shown-verified lower now reader _ e
      ∙ first_if-first_where (λ r. r.id == id) (is_addressed_to lower now reader) summarize
          (λ s. s.id == id) (λ r. refl) (same_text (lower email) (lower reader.email)) (live now db)
          (addressed-is_addressed_to lower now reader id email (live now db)
            (live_rows-addressed id now email db.members db.organizations db.invitations h))
      ∙ sym (listed e)
]
  where
    listed :
        {b : Bool}
        → reader.email_verified ≡ b
        → first_where (λ s. s.id == id) (pending_for lower now reader db)
          ≡ first_where
              (λ s. s.id == id)
              (if not b
                then []
                else map summarize (rows_where (is_addressed_to lower now reader) (live now db)))
    listed e =
        ap
          (λ b.
            first_where (λ s. s.id == id)
              (if not b
                then []
                else map summarize (rows_where (is_addressed_to lower now reader) (live now db))))
          e
