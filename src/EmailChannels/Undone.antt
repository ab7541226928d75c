-- ===== src/EmailChannels/Undone.antt =====
-- Confirmations that go out or fail, at once or from the queue, after an address opted out a second
-- time (src/lib/server/services/email-channel.service.ts).
use uppity.Base.{
  ℕ, ◌≡◌, refl, sym, ap, ◌∙◌, String, Bool, true, false, ◌&&◌, Option, none, some, arith,
  Bool-cases, inl, inr, ◌==◌, ==_iff, if◌then◌else◌, is_some, is_none, holds, any, first_where,
  first_where-holds, All-first_where, same_text, same_text-eq, count_where-delete_le,
}
use uppity.Mail.{stopped, stamp_send}
use uppity.EmailChannels.{
  Channel, Requester, PendingSend, QueuedConfirmation, ChannelDb, ChannelSettings, ChannelCalls,
  has_address, is_send, set_reasked,
}
use uppity.EmailChannels.Claims.{ClaimResult, no_channel, answers, ask_again_at, claims, claim}
use uppity.EmailChannels.Sending.{
  release_slot, undo_claim, restored, deliver, deliver_claim, request_confirmation, send_queued,
  send_waiting, send_pending, token_of, still_waits, as_pending,
}
use uppity.EmailChannels.Final.{IsFinal, set_reasked-other}
use uppity.EmailChannels.Silenced.{
  Owner, channel_owner, is_ours, IsStopped, IsRefused, IsSilent, unchanged, update-IsStopped,
}
use uppity.EmailChannels.Asked.{IsOther, claim-IsQuiet}

module _ (owner : ℕ → Owner) (org : ℕ) (email : String) (lower : String → String) where
  release-IsSilent :
      (send_id : ℕ) (db : ChannelDb)
      → IsRefused lower owner org email db
      → IsSilent lower owner org email db (release_slot send_id db)
  unfolding release_slot
  release-IsSilent send_id db h = record {
    refused = record { final = h.final; channels = h.channels };
    quiet = omega (arith, count_where-delete_le (is_send org email) _ db.sends);
  }

  module _ (channel org' : ℕ) (p : PendingSend)
      (m : ((org' == org) && same_text (lower p.email) email) ≡ false)
      (other : is_ours lower org email (owner channel) ≡ false) where
    undo_claim-IsSilent :
        (db : ChannelDb)
        → IsRefused lower owner org email db
        → IsSilent lower owner org email db (undo_claim lower channel org' p db)
    unfolding undo_claim release_slot
    undo_claim-IsSilent db h = record {
      refused = record {
        final = taken_back p.reasked;
        channels =
            update-IsStopped lower owner org email
              (λ c. (c.id == channel) && has_address lower (lower p.email) c) (restored p) channel
              db.channels (λ c e. ground (arith, ==_iff c.id channel)) (λ c. refl) (λ c. refl) other
              h.channels;
      };
      quiet = omega (arith, count_where-delete_le (is_send org email) _ db.sends);
    }
      where
        taken_back :
            (b : Bool)
            → IsFinal org email
                (if b then set_reasked org' (lower p.email) none db.opt_outs else db.opt_outs)
        taken_back true =
            set_reasked-other org email org' (lower p.email) m none db.opt_outs h.final
        taken_back false = h.final

    deliver-IsSilent :
        (goes_out : Bool) (db : ChannelDb)
        → IsRefused lower owner org email db
        → IsSilent lower owner org email db (deliver lower channel org' goes_out p db).0
    unfolding deliver
    deliver-IsSilent true db h = unchanged lower owner org email db h
    deliver-IsSilent false db h = undo_claim-IsSilent db h

  -- A channel that waits for a queued confirmation has another address.
  waiting-other :
      (q : QueuedConfirmation) (c : Channel)
      → still_waits lower q c ≡ true
      → IsStopped lower owner org email c
      → (((q.organization_id == org) && same_text (lower q.email) email) ≡ false)
        × (is_ours lower org email (owner q.channel_id) ≡ false)
  waiting-other q c w k =
      (address c.email at (not_ours _ refl), ap (is_ours lower org email) names ∙ not_ours _ refl)
    where
      same_org : c.organization_id ≡ q.organization_id
      same_org = ground (arith, w, ==_iff c.organization_id q.organization_id)

      same_id : c.id ≡ q.channel_id
      same_id = ground (arith, w, ==_iff c.id q.channel_id)

      names : owner q.channel_id ≡ channel_owner c
      names = ap owner (sym same_id) ∙ k.named

      at : has_address lower (lower q.email) c ≡ true
      at = ground (arith, w)

      not_ours :
          (u : Option ℕ) → c.unsubscribed_at ≡ u → is_ours lower org email (channel_owner c) ≡ false
      not_ours u e = elim (Bool-cases (is_ours lower org email (channel_owner c))) [
        | inl t ↦ apart c.unsubscribed_at (k.closed t) (ground (arith, w))
        | inr t ↦ t
      ]
        where
          apart :
              (u : Option ℕ)
              → is_some u ≡ true
              → is_none u ≡ true
              → is_ours lower org email (channel_owner c) ≡ false
          apart none s n = cc
          apart (some t) s n = cc

      address :
          (e : Option String)
          → holds (λ a. same_text (lower a) (lower q.email)) e ≡ true
          → ((c.organization_id == org) && holds (λ a. same_text (lower a) email) e) ≡ false
          → ((q.organization_id == org) && same_text (lower q.email) email) ≡ false
      address none e n = cc
      address (some a) e n =
          ap (λ o. (o == org) && same_text (lower q.email) email) (sym same_org)
          ∙ ap (λ t. (c.organization_id == org) && same_text t email)
              (sym (same_text-eq (lower a) (lower q.email) e))
          ∙ n

  -- A queued confirmation that goes out, fails or is skipped.
  pub send_queued-IsSilent :
      (now : ℕ) (goes_out : Bool) (q : QueuedConfirmation) (db : ChannelDb)
      → IsRefused lower owner org email db
      → IsSilent lower owner org email db (send_queued lower now goes_out q db).0
  unfolding send_queued
  send_queued-IsSilent now goes_out q db h = go (any (λ s. s.id == q.send_id) db.sends)
    where
      given_back : IsSilent lower owner org email db (release_slot q.send_id db)
      given_back = release-IsSilent q.send_id db h

      stamped : ChannelDb
      stamped = record db { mail = stamp_send now q.send_id db.mail }

      pended :
          (token : ℕ)
          → ((q.organization_id == org) && same_text (lower q.email) email) ≡ false
          → is_ours lower org email (owner q.channel_id) ≡ false
          → IsSilent lower owner org email db
              (send_pending lower now goes_out q db (as_pending q token)).0
      pended token m other = elim (Bool-cases (stopped q.organization_id (lower q.email) db.mail)) [
        | inl e ↦
            rw e
              (undo_claim-IsSilent q.channel_id q.organization_id (as_pending q token) m other db h)
        | inr e ↦
            let sent =
              deliver-IsSilent q.channel_id q.organization_id (as_pending q token) m other goes_out
                stamped (record { final = h.final; channels = h.channels }) in
            rw e (record { refused = sent.refused; quiet = sent.quiet })
      ]

      tokened :
          (c : Channel) (t : Option ℕ)
          → still_waits lower q c ≡ true
          → IsStopped lower owner org email c
          → IsSilent lower owner org email db (send_waiting lower now goes_out q db t).0
      tokened c none w k = given_back
      tokened c (some token) w k = let (m, other) = waiting-other q c w k in pended token m other

      found :
          (o : Option Channel)
          → first_where (still_waits lower q) db.channels ≡ o
          → IsSilent lower owner org email db (send_waiting lower now goes_out q db (token_of o)).0
      found none e = given_back
      found (some c) e =
          tokened c c.token (first_where-holds (still_waits lower q) db.channels e)
            (All-first_where _ (still_waits lower q) db.channels h.channels e)

      go :
          (b : Bool)
          → IsSilent lower owner org email db
              (send_waiting lower now goes_out q db
                (token_of (if b then first_where (still_waits lower q) db.channels else none))).0
      go true = found _ refl
      go false = given_back

-- A confirmation that is requested, and then goes out or fails.
pub request-IsSilent :
    (owner : ℕ → Owner) (org : ℕ) (email : String) (cfg : ChannelSettings) (calls : ChannelCalls)
    (org' channel : ℕ) (goes_out : Bool) (r : Requester) (db : ChannelDb)
    → IsRefused calls.lower_case owner org email db
    → IsSilent calls.lower_case owner org email db
        (request_confirmation cfg calls channel org' goes_out r db).0
unfolding request_confirmation
request-IsSilent owner org email cfg calls org' channel goes_out r db h =
    let (silent, other) = claim-IsQuiet owner org email cfg calls org' false channel r db h in
    delivered (claim cfg calls org' false channel r db) silent other
  where
    delivered :
        (x : ChannelDb × ClaimResult)
        → IsSilent calls.lower_case owner org email db x.0
        → IsOther owner org email cfg calls org' channel x.1
        → IsSilent calls.lower_case owner org email db
            (deliver_claim cfg calls channel org' goes_out x).0
    delivered (db', no_channel) s o = s
    delivered (db', answers a) s o = s
    delivered (db', ask_again_at t) s o = s
    delivered (db', claims p) s (m, other) =
        let sent =
          deliver-IsSilent owner org email calls.lower_case channel org' p m other goes_out db'
            s.refused in
        record { refused = sent.refused; quiet = omega (arith, s.quiet, sent.quiet) }
