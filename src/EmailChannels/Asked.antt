-- ===== src/EmailChannels/Asked.antt =====
-- A claim of a confirmation after an address opted out a second time
-- (src/lib/server/services/email-channel.service.ts).
use mathlib.Core.Path.{subst}
use uppity.Base.{
  ap, ◌∙◌, List, All, All-update_where, All-first_where, update_where, first_where,
  first_where-holds, first_where, ℕ, ◌≡◌, refl, String, Bool, false, not, ◌&&◌, Option, none, some,
  arith, Bool-cases, inl, inr, ◌==◌, ==_iff, if◌then◌else◌, is_some, is_none, same_text, is_empty,
}
use uppity.EmailChannels.{
  Channel, EmailOptOut, Requester, ChannelDb, ChannelSettings, ChannelCalls, SlotClaim, slot_taken,
  slot_too_soon, slot_capped, slot_refused, opt_out_of, set_reasked, is_verified_member,
}
use uppity.EmailChannels.Claims.{
  ClaimResult, claims, asked, claim, claim_channel, claim_address, claim_for, after_slot,
  is_reasked,
}
use uppity.EmailChannels.Final.{IsFinal, set_reasked-IsFinal}
use uppity.EmailChannels.Silenced.{
  Owner, channel_owner, is_ours, IsStopped, IsRefused, IsSilent, unchanged, update-IsStopped,
  slot-IsSilent, same-IsReasked,
}

module _ (owner : ℕ → Owner) (org : ℕ) (email : String) where
  module _ (cfg : ChannelSettings) (calls : ChannelCalls) (org' : ℕ) where
    -- A send that this claim took is not to the address, nor for a channel that has it.
    abbrev pub IsOther : ℕ → ClaimResult → Type 0
    IsOther k (claims p) =
        (((org' == org) && same_text (calls.lower_case p.email) email) ≡ false)
        × (is_ours calls.lower_case org email (owner k) ≡ false)
    IsOther k r = Unit

    -- A claim for a channel leaves the address silent, and takes no send to it.
    abbrev pub IsQuietClaim : ℕ → ChannelDb → ChannelDb × ClaimResult → Type 0
    IsQuietClaim k db x = IsSilent calls.lower_case owner org email db x.0 × IsOther k x.1

    asked-IsStopped :
        (c : Channel) (token : ℕ) (o : Option EmailOptOut) (cs : List Channel)
        → is_ours calls.lower_case org email (owner c.id) ≡ false
        → All (IsStopped calls.lower_case owner org email) cs
        → All
            (IsStopped calls.lower_case owner org email)
            (update_where (λ x. x.id == c.id) (asked cfg calls org' token o) cs)
    asked-IsStopped c token o cs other =
        update-IsStopped calls.lower_case owner org email (λ x. x.id == c.id)
          (asked cfg calls org' token o) c.id cs (λ x e. (==_iff x.id c.id).0 e) (same o) (kept o)
          other
      where
        same : (o : Option EmailOptOut) (x : Channel) → (asked cfg calls org' token o x).id ≡ x.id
        same none x = refl
        same (some o) x = refl

        kept :
            (o : Option EmailOptOut) (x : Channel)
            → channel_owner (asked cfg calls org' token o x) ≡ channel_owner x
        kept none x = refl
        kept (some o) x = refl

    after_slot-IsQuiet :
        (queue : Bool) (c : Channel) (raw : String) (o : Option EmailOptOut) (r : Requester)
        (db : ChannelDb) (x : ChannelDb × SlotClaim)
        → ((org' == org) && same_text (calls.lower_case raw) email) ≡ false
        → is_ours calls.lower_case org email (owner c.id) ≡ false
        → IsSilent calls.lower_case owner org email db x.0
        → IsQuietClaim c.id db (after_slot cfg calls org' queue c raw (calls.lower_case raw) o r x)
    after_slot-IsQuiet queue c raw o r db (db', slot_taken id) m other h =
        (written queue, (m, other))
      where
        asked_again :
            (o : Option EmailOptOut)
            → IsFinal org email (
                if is_some o
                then set_reasked org' (calls.lower_case raw) (some calls.now) db'.opt_outs
                else db'.opt_outs)
        asked_again none = h.refused.final
        asked_again (some o) =
            set_reasked-IsFinal org email org' calls.now (calls.lower_case raw) db'.opt_outs
              h.refused.final

        written :
            (queue : Bool)
            → IsSilent calls.lower_case owner org email db
                (after_slot cfg calls org' queue c raw
                  (calls.lower_case raw)
                  o
                  r
                  (db', slot_taken id)).0
        written queue = elim (Bool-cases queue) [
          | inl q ↦ rw q (record {
            refused = record {
              final = asked_again o;
              channels = asked-IsStopped c _ o db'.channels other h.refused.channels;
            };
            quiet = h.quiet;
          })
          | inr q ↦ rw q (record {
            refused = record {
              final = asked_again o;
              channels = asked-IsStopped c _ o db'.channels other h.refused.channels;
            };
            quiet = h.quiet;
          })
        ]
    after_slot-IsQuiet queue c raw none r db (db', slot_too_soon t) m other h = (h, tt)
    after_slot-IsQuiet queue c raw (some o) r db (db', slot_too_soon t) m other h = (h, tt)
    after_slot-IsQuiet queue c raw o r db (db', slot_capped) m other h = (h, tt)
    after_slot-IsQuiet queue c raw o r db (db', slot_refused x) m other h = (h, tt)

    claim_for-IsQuiet :
        (queue : Bool) (r : Requester) (c : Channel) (raw : String) (db : ChannelDb)
        → owner c.id ≡ (org', some raw)
        → IsRefused calls.lower_case owner org email db
        → IsQuietClaim c.id db (
            claim_for cfg calls org' queue r c raw
              (calls.lower_case raw)
              db
              (opt_out_of org' (calls.lower_case raw) db.opt_outs))
    claim_for-IsQuiet queue r c raw db named h =
        let email' = calls.lower_case raw in
        let o = opt_out_of org' email' db.opt_outs in
        elim (Bool-cases (is_reasked o)) [
          | inl e ↦ rw e (unchanged calls.lower_case owner org email db h, tt)
          | inr e ↦
              elim (Bool-cases (is_none o && is_verified_member calls.lower_case org' email' db)) [
                | inl v ↦
                    rw (e, v)
                      (
                        record {
                          refused = record {
                            final = h.final;
                            channels = verified db.channels h.channels;
                          };
                          quiet = omega arith;
                        },
                        tt,
                      )
                | inr v ↦ elim (Bool-cases (not r.email_verified)) [
                  | inl u ↦ rw (e, v, u) (unchanged calls.lower_case owner org email db h, tt)
                  | inr u ↦ elim (Bool-cases ((org' == org) && same_text email' email)) [
                    | inl m ↦
                        let again = same-IsReasked owner org email cfg calls org' email' db m h in
                        cc
                    | inr m ↦
                        rw (e, v, u)
                          (after_slot-IsQuiet queue c raw o r db _ m
                            (ap (is_ours calls.lower_case org email) named ∙ m)
                            (slot-IsSilent owner org email cfg calls org' email' db m h))
                  ]
                ]
              ]
        ]
      where
        verified :
            (cs : List Channel)
            → All (IsStopped calls.lower_case owner org email) cs
            → All (IsStopped calls.lower_case owner org email) (
                update_where
                  (λ x. x.id == c.id)
                  (λ x. record x { verified_at = some calls.now })
                  cs)
        verified cs =
            All-update_where _ (λ x. x.id == c.id) (λ x. record x { verified_at = some calls.now })
              cs (λ x e k. record { named = k.named; closed = k.closed })

    pub claim-IsQuiet :
        (queue : Bool) (channel : ℕ) (r : Requester) (db : ChannelDb)
        → IsRefused calls.lower_case owner org email db
        → IsQuietClaim channel db (claim cfg calls org' queue channel r db)
    unfolding claim
    claim-IsQuiet queue channel r db h = go _ refl
      where
        is_it : Channel → Bool
        is_it c = (c.id == channel) && (c.organization_id == org') && c.is_email

        addressed :
            (c : Channel) (e : Option String)
            → owner c.id ≡ (org', e)
            → IsQuietClaim c.id db (claim_address cfg calls org' queue r c db e)
        addressed c none named = (unchanged calls.lower_case owner org email db h, tt)
        addressed c (some raw) named = elim (Bool-cases (is_empty raw)) [
          | inl e ↦ rw e (unchanged calls.lower_case owner org email db h, tt)
          | inr e ↦ elim (Bool-cases (is_some c.verified_at)) [
            | inl v ↦ rw (e, v) (unchanged calls.lower_case owner org email db h, tt)
            | inr v ↦ rw (e, v) (claim_for-IsQuiet queue r c raw db named h)
          ]
        ]

        go :
            (o : Option Channel)
            → first_where is_it db.channels ≡ o
            → IsQuietClaim channel db (claim_channel cfg calls org' queue r db o)
        go none e = (unchanged calls.lower_case owner org email db h, tt)
        go (some c) e =
            let held = first_where-holds is_it db.channels e in
            let stopped = All-first_where _ is_it db.channels h.channels e in
            let same : c.id ≡ channel = ground (arith, ==_iff c.id channel) in
            let own : c.organization_id ≡ org' = ground (arith, ==_iff c.organization_id org') in
            subst (λ k. IsQuietClaim k db (claim_channel cfg calls org' queue r db (some c))) same
              (addressed c c.email (stopped.named ∙ ap (λ x. (x, c.email)) own))
