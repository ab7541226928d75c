-- ===== src/Tests.antt =====
-- Concrete inputs: each property at an input where its hypotheses hold, and runs of the code.
mod Sample
mod Processing
mod Scheduling
mod Maintenance
mod Billing
mod Notifying
mod Ceiling
mod Attempts
mod HumanIncidents
mod Probing
mod Mailing
mod Consent
mod Paging
mod Inviting
