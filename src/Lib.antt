-- ===== src/Lib.antt =====
-- A model of Uppity, an uptime monitor, as far as its state is kept in one Postgres database.
--
-- The program. Monitors are checked by a worker (src/worker/monitor): the scheduler claims monitors
-- that are due, a check probes the target, with retries, and writes a result row, and the result
-- processor turns result rows into the monitor's status, automatic incidents and notification
-- events. A second worker, the notifier (src/worker/notifier), claims those events and delivers
-- them, with retries. The web tier runs the services (src/lib/server/services): maintenance windows
-- hold back the processor's alerts, subscriptions bound how many monitors are active, members write
-- incidents and invite others, and the addresses of email channels and of the subscribers of a
-- status page confirm that they want mail. The API shows lists of rows in pages. The parts share the
-- database and nothing else.
--
-- The model. The database is a record of tables (`Db` in Tables.antt), a table is the list of its
-- rows with the last inserted first, and a query or an update is a function on lists (Base/Rows.antt).
-- An operation is a function from the database to the database and what it returns; a call that
-- throws returns an error or `none`. A transaction, or a call under a lock, is one such function;
-- an interleaving is a sequence of them; a call of several transactions runs to its end before the
-- next one. Identifiers and times in milliseconds are natural numbers.
-- The clock, new identifiers, rows locked by others (SKIP LOCKED) and the results of sending are
-- arguments. Where the source subtracts from a time, the model adds to the other side, so that no
-- difference is cut off at zero. Of two events with one time stamp, the last inserted is the newest.
-- The services of email channels and of subscribers read tables that the rest of the model does not;
-- each has a record of its own for them (`ChannelDb`, `SubscriberDb`), with the records of mail
-- (`MailDb`) in it. Addresses and URLs are texts; `toLowerCase`, the parser of URLs, the network and
-- the readers of an answer are arguments.
--
--   Base.antt            tests, lists as tables, sorting, calls that throw
--   Tables.antt          src/lib/server/db/schema.ts, src/lib/constants/status.ts, src/lib/types/plans.ts
--   Settings.antt        src/lib/constants/defaults.ts, src/lib/constants/worker.ts
--   Alerts.antt          src/lib/server/flap.ts, src/lib/server/incident-state.ts
--   Windows.antt         src/lib/server/services/maintenance-window.service.ts and
--                        src/lib/server/services/monitor-ownership.ts
--   Verdict.antt         the flags that `interpret` computes (src/worker/monitor/processor.ts)
--   Processor.antt       `interpret` and `processResults` (src/worker/monitor/processor.ts)
--   Schedule.antt        src/worker/monitor/schedule.ts and drizzle/0029_monitor_lease.sql
--   Notifier.antt        src/worker/notifier/processor.ts, and `settle` of
--                        src/lib/server/notifications/service.ts
--   Plans.antt           src/lib/constants/plans.ts
--   Capacity.antt        src/lib/server/services/capacity.service.ts
--   Subscriptions.antt   src/lib/server/services/subscription.service.ts
--   RateLimit.antt       src/lib/server/rate-limit.ts
--   Incidents.antt       src/lib/server/services/incident.service.ts
--   Probes.antt          src/worker/monitor/http.ts, src/lib/server/tcp.ts, src/lib/utils/web-url.ts
--   Checks.antt          src/worker/monitor/check.ts
--   Mail.antt            src/lib/server/services/mail-reputation.service.ts
--   Subscribers.antt     src/lib/server/services/status-page-subscriber.service.ts
--   EmailChannels.antt   src/lib/server/services/email-channel.service.ts
--   Invitations.antt     src/lib/server/services/invitation.service.ts
--   Pages.antt           src/lib/server/api/pagination.ts and the lists of
--                        src/lib/server/services/api-read.service.ts
--   Tests.antt           runs of the code and the properties at concrete inputs
--
-- Functions keep their names, in snake case: `claimDueMonitors` is `claim_due_monitors`. A record
-- has the columns that the modelled operations use. Loops are over lists, but three that count
-- down: an HTTP probe on the redirects left (at most 20), a check on the retries left (at most the
-- monitor's `retries`), and a reader of pages on the requests it may still make (one for each row of
-- the list is enough). Numbers are unbounded, and the program's are far below 2 ^ 53.
--
-- Not modelled: logging; opening a connection, with the refusal of private addresses, and the
-- probes over TLS and TCP beyond their tests; the text of mail and the transports; the loops of the
-- worker processes; the retention of checks and the statistics; status pages and their domains;
-- metering, audit and administration; authentication, the web interface, and the
-- public API beyond its lists. They are calls of services outside the repository, queries that
-- only gather rows to show, markup, or parts on which no modelled part depends.
pub mod Base
pub mod Tables
pub mod Settings
pub mod Alerts
pub mod Windows
pub mod Incidents
pub mod Verdict
pub mod Processor
pub mod Probes
pub mod Schedule
pub mod Checks
pub mod Mail
pub mod Subscribers
pub mod EmailChannels
pub mod Invitations
pub mod Pages
pub mod Notifier
pub mod Plans
pub mod Capacity
pub mod Subscriptions
pub mod RateLimit
pub mod Tests
