-- ===== src/EmailChannels/Final.antt =====
-- An address that opted out a second time (src/lib/server/services/email-channel.service.ts).
use mathlib.Core.Path.{subst}
use uppity.Base.{
  ap, ℕ, ◌≡◌, refl, sym, ◌∙◌, String, Bool, true, false, not, ◌&&◌, Option, none, some, List, [],
  ◌∷◌, arith, Bool-cases, inl, inr, ◌==◌, ==_iff, if◌then◌else◌, is_some, any, first_where,
  update_where, same_text, same_text-eq,
}
use uppity.EmailChannels.{EmailOptOut, is_opt_out, opt_out_of, set_reasked}
use uppity.EmailChannels.Claims.{is_reasked}
use uppity.EmailChannels.OptOut.{write_opt_out, opted_out}

pub and-split : (a b : Bool) → (a && b) ≡ true → (a ≡ true) × (b ≡ true)
and-split true true h = (refl, refl)
and-split true false h = cc
and-split false b h = cc

module _ {ℓ} {A : Type ℓ} where
  any-update_kept :
      (q p : A → Bool) (f : A → A) (xs : List A)
      → ((x : A) → q x ≡ true → q (f x) ≡ true)
      → any q xs ≡ true
      → any q (update_where p f xs) ≡ true
  unfolding update_where
  any-update_kept q p f [] k h = h
  any-update_kept q p f (x ∷ xs) k h = ground (arith, k x, any-update_kept q p f xs k)

  any-update_absent :
      (q p : A → Bool) (f : A → A) (xs : List A)
      → ((x : A) → q x ≡ false → q (f x) ≡ false)
      → any q xs ≡ false
      → any q (update_where p f xs) ≡ false
  unfolding update_where
  any-update_absent q p f [] k h = h
  any-update_absent q p f (x ∷ xs) k h = ground (arith, k x, any-update_absent q p f xs k)

  module _ (a b : A → Bool) (f : A → A) (x : A) where
    both :
        ((y : A) → a (f y) ≡ a y)
        → ((y : A) → b y ≡ true → b (f y) ≡ true)
        → (a x && b x) ≡ true
        → (a (f x) && b (f x)) ≡ true
    both same keep e = ground (arith, same x, keep x)

    neither :
        ((y : A) → a (f y) ≡ a y)
        → ((y : A) → b y ≡ true → b (f y) ≡ true)
        → (a x && not (b x)) ≡ false
        → (a (f x) && not (b (f x))) ≡ false
    neither same keep e = ground (arith, same x, keep x)

module _ (org : ℕ) (email : String) where
  abbrev pub is_final_row : EmailOptOut → Bool
  is_final_row o = is_some o.unsubscribed_at && is_some o.reasked_at

  abbrev pub has_final : List EmailOptOut → Bool
  has_final rows = any (λ o. is_opt_out org email o && is_final_row o) rows

  abbrev pub has_other : List EmailOptOut → Bool
  has_other rows = any (λ o. is_opt_out org email o && not (is_final_row o)) rows

  -- The address has opted out of the organization's mail, after the organization asked it again.
  pub record IsFinal (rows : List EmailOptOut) : Type 0 where
    pub there : has_final rows ≡ true
    pub only : has_other rows ≡ false

  pub opt_out_of-reasked :
      (rows : List EmailOptOut)
      → has_final rows ≡ true
      → has_other rows ≡ false
      → is_reasked (opt_out_of org email rows) ≡ true
  unfolding opt_out_of first_where
  opt_out_of-reasked [] h n = cc
  opt_out_of-reasked (o ∷ os) h n =
      elim (Bool-cases (is_opt_out org email o && is_some o.unsubscribed_at)) [
        | inl e ↦ rw e (ground arith)
        | inr e ↦ rw e (opt_out_of-reasked os (ground arith) (ground arith))
      ]

  -- An update of opt-outs that keeps the addresses and takes no answer away.
  update-IsFinal :
      (p : EmailOptOut → Bool) (f : EmailOptOut → EmailOptOut) (rows : List EmailOptOut)
      → ((o : EmailOptOut) → is_opt_out org email (f o) ≡ is_opt_out org email o)
      → ((o : EmailOptOut) → is_final_row o ≡ true → is_final_row (f o) ≡ true)
      → IsFinal rows
      → IsFinal (update_where p f rows)
  update-IsFinal p f rows same keep h = record {
    there =
        any-update_kept _ p f rows (λ o e. both (is_opt_out org email) is_final_row f o same keep e)
          h.there;
    only =
        any-update_absent _ p f rows
          (λ o e. neither (is_opt_out org email) is_final_row f o same keep e) h.only;
  }

  pub set_reasked-IsFinal :
      (org' t : ℕ) (email' : String) (rows : List EmailOptOut)
      → IsFinal rows
      → IsFinal (set_reasked org' email' (some t) rows)
  unfolding set_reasked
  set_reasked-IsFinal org' t email' rows =
      update-IsFinal (is_opt_out org' email') (λ o. record o { reasked_at = some t }) rows
        (λ o. refl) (λ o e. set_reasked_row o.unsubscribed_at o.reasked_at e)
    where
      set_reasked_row :
          (u r : Option ℕ) → (is_some u && is_some r) ≡ true → (is_some u && true) ≡ true
      set_reasked_row none r e = e
      set_reasked_row (some u) r e = refl

  any-same_address :
      (org' : ℕ) (email' : String) (rows : List EmailOptOut)
      → (org' == org) ≡ true
      → same_text email' email ≡ true
      → any (is_opt_out org' email') rows ≡ any (is_opt_out org email) rows
  any-same_address org' email' rows e f =
      subst (λ x. any (is_opt_out x email') rows ≡ any (is_opt_out org email) rows)
        (sym ((==_iff org' org).0 e))
        (subst (λ y. any (is_opt_out org y) rows ≡ any (is_opt_out org email) rows)
          (sym (same_text-eq email' email f)) refl)

  final-listed :
      (rows : List EmailOptOut) → has_final rows ≡ true → any (is_opt_out org email) rows ≡ true
  final-listed [] h = h
  final-listed (o ∷ os) h = elim (Bool-cases (is_opt_out org email o)) [
    | inl e ↦ rw e refl
    | inr e ↦ rw e (final-listed os (rw e at h))
  ]

  pub write_opt_out-IsFinal :
      (org' now : ℕ) (email' : String) (rows : List EmailOptOut)
      → IsFinal rows
      → IsFinal (write_opt_out org' email' now rows)
  write_opt_out-IsFinal org' now email' rows h =
      elim (Bool-cases (any (is_opt_out org' email') rows)) [
        | inl e ↦ rw e (
            update-IsFinal (is_opt_out org' email') (opted_out now) rows (λ o. refl)
              (λ o k. opted_row o.unsubscribed_at o.reasked_at k) h)
        | inr e ↦ rw e (record {
          there = unlisted_there ((org' == org) && same_text email' email) h.there;
          only = elim (Bool-cases ((org' == org) && same_text email' email)) [
            | inl m ↦
                let (a, b) = and-split (org' == org) (same_text email' email) m in
                let listed = any-same_address org' email' rows a b ∙ final-listed rows h.there in cc
            | inr m ↦ rw m h.only
          ];
        })
      ]
    where
      opted_row : (u r : Option ℕ) → (is_some u && is_some r) ≡ true → (true && is_some r) ≡ true
      opted_row none r e = cc
      opted_row (some u) r e = e

      unlisted_there :
          (b : Bool) → has_final rows ≡ true → (if b && false then true else has_final rows) ≡ true
      unlisted_there true e = e
      unlisted_there false e = e

module _ (org : ℕ) (email : String) (org' : ℕ) (email' : String)
    (m : ((org' == org) && same_text email' email) ≡ false) where
  other_row : (o : EmailOptOut) → is_opt_out org' email' o ≡ true → is_opt_out org email o ≡ false
  other_row o e =
      let (same_org, same_email) = and-split (o.organization_id == org') _ e in
      ap (λ k. (k == org) && same_text o.email email) ((==_iff o.organization_id org').0 same_org)
      ∙ ap (λ t. (org' == org) && same_text t email) (same_text-eq o.email email' same_email)
      ∙ m

  any-update_other :
      (b : EmailOptOut → Bool) (at : Option ℕ) (rows : List EmailOptOut)
      → any (λ o. is_opt_out org email o && b o) (set_reasked org' email' at rows)
        ≡ any (λ o. is_opt_out org email o && b o) rows
  unfolding set_reasked update_where
  any-update_other b at [] = refl
  any-update_other b at (o ∷ os) = elim (Bool-cases (is_opt_out org' email' o)) [
    | inl e ↦ rw (e, other_row o e) (any-update_other b at os)
    | inr e ↦
        rw e
          (ap (λ r. if is_opt_out org email o && b o then true else r) (any-update_other b at os))
  ]

  -- What is asked or taken back at another address.
  pub set_reasked-other :
      (at : Option ℕ) (rows : List EmailOptOut)
      → IsFinal org email rows
      → IsFinal org email (set_reasked org' email' at rows)
  set_reasked-other at rows h = record {
    there = any-update_other (is_final_row org email) at rows ∙ h.there;
    only = any-update_other (λ o. not (is_final_row org email o)) at rows ∙ h.only;
  }
