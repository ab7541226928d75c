-- ===== src/Mail/Repeated.antt =====
-- A mail event that the provider sends again (src/lib/server/services/mail-reputation.service.ts).
use uppity.Base.{
  ◌∙◌, ℕ, ◌≡◌, refl, true, Option, none, some, arith, any, Bool-cases, inl, inr, length, ◌==◌,
  ==_refl, List, [], ◌∷◌, update_where,
}
use uppity.Mail.{
  FailureKind, Thresholds, MailDb, MailEvent, MailFailure, record_mail_failure, charge, block,
  sender, suppress_recipients, insert_mail_event,
}

kept-update_where :
    (id k org : ℕ) (es : List MailEvent)
    → any
        (λ e. e.id == k)
        (update_where (λ e. e.id == id) (λ e. record e { organization_id = some org }) es)
      ≡ any (λ e. e.id == k) es
unfolding update_where
kept-update_where id k org [] = refl
kept-update_where id k org (e ∷ es) = ground (arith, kept-update_where id k org es)

block-events :
    (now org : ℕ) (r : Option FailureKind) (db : MailDb) → (block now org r db).events ≡ db.events
block-events now org none db = refl
block-events now org (some reason) db = ground arith

charge-events :
    (t : Thresholds) (now id k : ℕ) (o : Option ℕ) (db : MailDb)
    → any (λ e. e.id == k) (charge t now id o db).events ≡ any (λ e. e.id == k) db.events
charge-events t now id k none db = refl
charge-events t now id k (some org) db =
    ground (arith, block-events now org _ _, kept-update_where id k org db.events)

module _ (t : Thresholds) (now id : ℕ) (f : MailFailure) where
  noted_event :
      (db : MailDb) → any (λ e. e.id == id) (record_mail_failure t now id f db).events ≡ true
  unfolding record_mail_failure
  noted_event db = elim (Bool-cases (any (λ e. e.id == id) db.events)) [
    | inl e ↦ rw (e, e) refl
    | inr e ↦ elim (Bool-cases (length f.recipients == 0)) [
      | inl z ↦ rw (e, z) (simp (==_refl id) refl)
      | inr z ↦
          let noted : MailDb = suppress_recipients now f (insert_mail_event now id f.kind db) in
          let kept = charge-events t now id id (sender f.recipients f.sent_at noted) noted in
          rw (e, z) (kept ∙ simp (==_refl id) refl)
    ]
  ]

record_mail_failure-known :
    (t : Thresholds) (now id : ℕ) (f : MailFailure) (db : MailDb)
    → any (λ e. e.id == id) db.events ≡ true
    → record_mail_failure t now id f db ≡ db
unfolding record_mail_failure
record_mail_failure-known t now id f db e = rw e refl

-- A mail event that comes again before the sweep of old records changes nothing: right after an event
-- with an identifier has been recorded, whatever it did, recording an event with that identifier
-- leaves the records as they are, at any later time and whatever the repeated event says.
pub record_mail_failure-repeated :
    (t t' : Thresholds) (now now' id : ℕ) (f f' : MailFailure) (db : MailDb)
    → record_mail_failure t' now' id f' (record_mail_failure t now id f db)
      ≡ record_mail_failure t now id f db
record_mail_failure-repeated t t' now now' id f f' db =
    record_mail_failure-known t' now' id f' (record_mail_failure t now id f db)
      (noted_event t now id f db)
