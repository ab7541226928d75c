-- ===== src/EmailChannels/Silenced.antt =====
-- No mail to an address that opted out a second time
-- (src/lib/server/services/email-channel.service.ts).
use mathlib.Core.Path.{subst}
use uppity.Base.{
  ap, ◌∙◌, List, All, All-update_where, update_where, ℕ, ◌≤◌, ◌≡◌, refl, sym, String, Bool, true,
  false, ◌&&◌, Option, none, some, arith, Bool-cases, inl, inr, ◌==◌, ==_iff, is_some, holds,
  count_where, same_text, same_text-eq, leb, ltb,
}
use uppity.Mail.{MailRefusal}
use uppity.EmailChannels.{
  Channel, EmailOptOut, ChannelDb, ChannelSettings, ChannelCalls, claim_slot, slot_after,
  slot_unless_refused, is_send, opt_out_of, unconfirmed_addresses, unanswered_sends,
  invitation_sends_per_address,
}
use uppity.EmailChannels.Claims.{is_reasked, claim_invitation_send}
use uppity.EmailChannels.Final.{IsFinal, and-split, opt_out_of-reasked}

-- The emails that the log has of this organization to this address.
abbrev pub sends_to : ℕ → String → ChannelDb → ℕ
sends_to org email db = count_where (is_send org email) db.sends

-- The organization and the address of a channel.
abbrev pub Owner : Type 0
Owner = ℕ × Option String

abbrev pub channel_owner : Channel → Owner
channel_owner c = (c.organization_id, c.email)

abbrev pub is_ours : (String → String) → ℕ → String → Owner → Bool
is_ours lower org email (o, e) = (o == org) && holds (λ a. same_text (lower a) email) e

-- A channel has the organization and the address that its id names, and if they are these, then it is
-- unsubscribed.
pub record IsStopped (lower : String → String) (owner : ℕ → Owner) (org : ℕ) (email : String)
    (c : Channel) : Type 0 where
  pub named : owner c.id ≡ channel_owner c
  pub closed : is_ours lower org email (channel_owner c) ≡ true → is_some c.unsubscribed_at ≡ true

-- The address has opted out of the organization's mail after the organization asked it again, and so
-- have the organization's channels that have it.
pub record IsRefused (lower : String → String) (owner : ℕ → Owner) (org : ℕ) (email : String)
    (db : ChannelDb) : Type 0 where
  pub final : IsFinal org email db.opt_outs
  pub channels : All (IsStopped lower owner org email) db.channels

-- A step that leaves the address refused and logs no email to it.
pub record IsSilent (lower : String → String) (owner : ℕ → Owner) (org : ℕ) (email : String)
    (db db' : ChannelDb) : Type 0 where
  pub refused : IsRefused lower owner org email db'
  pub quiet : sends_to org email db' ≤ sends_to org email db

module _ (lower : String → String) (owner : ℕ → Owner) (org : ℕ) (email : String) where
  pub unchanged :
      (db : ChannelDb) → IsRefused lower owner org email db → IsSilent lower owner org email db db
  unchanged db h = record { refused = h; quiet = omega arith }

  -- An update of the channel of another address.
  pub update-IsStopped :
      (p : Channel → Bool) (f : Channel → Channel) (k : ℕ) (cs : List Channel)
      → ((c : Channel) → p c ≡ true → c.id ≡ k)
      → ((c : Channel) → (f c).id ≡ c.id)
      → ((c : Channel) → channel_owner (f c) ≡ channel_owner c)
      → is_ours lower org email (owner k) ≡ false
      → All (IsStopped lower owner org email) cs
      → All (IsStopped lower owner org email) (update_where p f cs)
  update-IsStopped p f k cs at same kept other =
      All-update_where (IsStopped lower owner org email) p f cs (λ c e h. record {
        named = ap owner (same c) ∙ h.named ∙ sym (kept c);
        closed = λ ours.
            let key : owner k ≡ channel_owner (f c) =
              ap owner (sym (at c e)) ∙ h.named ∙ sym (kept c) in
            let mine = ap (is_ours lower org email) key ∙ ours in cc;
      })

module _ (owner : ℕ → Owner) (org : ℕ) (email : String) where
  -- A slot of another address.
  pub slot-IsSilent :
      (cfg : ChannelSettings) (calls : ChannelCalls) (org' : ℕ) (email' : String) (db : ChannelDb)
      → ((org' == org) && same_text email' email) ≡ false
      → IsRefused calls.lower_case owner org email db
      → IsSilent calls.lower_case owner org email db (claim_slot cfg calls org' email' db).0
  unfolding claim_slot count_where
  slot-IsSilent cfg calls org' email' db other h = after _
    where
      unless :
          (o : Option MailRefusal)
          → IsSilent calls.lower_case owner org email db
              (slot_unless_refused calls org' email' db o).0
      unless none = record {
        refused = record { final = h.final; channels = h.channels };
        quiet = rw other (omega arith);
      }
      unless (some r) = unchanged calls.lower_case owner org email db h

      after :
          (o : Option ℕ)
          → IsSilent calls.lower_case owner org email db (slot_after cfg calls org' email' db o).0
      after o = elim (Bool-cases (holds (ltb calls.now) o)) [
        | inl e ↦ rw e (unchanged calls.lower_case owner org email db h)
        | inr e ↦ elim (Bool-cases (leb cfg.cap (unconfirmed_addresses org' calls.now db.sends))) [
          | inl c ↦ rw (e, c) (unchanged calls.lower_case owner org email db h)
          | inr c ↦ rw (e, c) (unless _)
        ]
      ]

  module _ (cfg : ChannelSettings) (calls : ChannelCalls) (org' : ℕ) where
    pub same-IsReasked :
        (email' : String) (db : ChannelDb)
        → ((org' == org) && same_text email' email) ≡ true
        → IsRefused calls.lower_case owner org email db
        → is_reasked (opt_out_of org' email' db.opt_outs) ≡ true
    same-IsReasked email' db m h =
        let (a, b) = and-split (org' == org) (same_text email' email) m in
        subst (λ x. is_reasked (opt_out_of x email' db.opt_outs) ≡ true)
          (sym ((==_iff org' org).0 a))
          (subst (λ y. is_reasked (opt_out_of org y db.opt_outs) ≡ true)
            (sym (same_text-eq email' email b))
            (opt_out_of-reasked org email db.opt_outs h.final.there h.final.only))

    pub invitation-IsSilent :
        (raw : String) (db : ChannelDb)
        → IsRefused calls.lower_case owner org email db
        → IsSilent calls.lower_case owner org email db
            (claim_invitation_send cfg calls org' raw db).0
    unfolding claim_invitation_send
    invitation-IsSilent raw db h =
        let address = calls.lower_case raw in
        let o = opt_out_of org' address db.opt_outs in
        elim (Bool-cases (is_some o)) [
          | inl e ↦ rw e (unchanged calls.lower_case owner org email db h)
          | inr e ↦
              elim (Bool-cases (
                leb invitation_sends_per_address
                  (unanswered_sends org' address calls.now db.sends))) [
                    | inl s ↦ rw (e, s) (unchanged calls.lower_case owner org email db h)
                    | inr s ↦ elim (Bool-cases ((org' == org) && same_text address email)) [
                      | inl m ↦ let again = listed o (same-IsReasked address db m h) in cc
                      | inr m ↦ rw (e, s) (slot-IsSilent cfg calls org' address db m h)
                    ]
                  ]
        ]
      where
        listed : (o : Option EmailOptOut) → is_reasked o ≡ true → is_some o ≡ true
        listed none e = e
        listed (some o) e = refl
