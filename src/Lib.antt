-- ===== src/Lib.antt =====
-- Verification of the event server: src/eventserver turns what providers observe, and what external
-- publishers send, into events, and each event into one delivery per subscriber; messaging adapters
-- claim the deliveries under a lease and acknowledge or fail them.
--
-- The parts, and the files that model them (paths from the repository's root):
--   src/eventserver/db/models.py, core/models.py    Models, over Json for JSON values
--   src/eventserver/deliveries/outbox.py            Outbox: claim, ack, fail; `_leased` is
--                                                   find_leased, `_clear_lease` clear_lease
--   src/eventserver/services/users.py, common.py    Users: set_permissions, change_role
--   src/eventserver/core/schema_validation.py       Schema: validate is `_validate`
--   src/eventserver/core/match_keys.py              MatchKeys
--   src/eventserver/core/publication.py             Publication: publish in the order of its parts,
--                                                   publish_checked, insert_occurrence, notify
--   src/eventserver/services/subscriptions.py       Subscriptions
--   src/eventserver/scheduler/leases.py             Leases
--   src/eventserver/core/registry.py, provider.py   Registry
--   src/eventserver/core/processing.py              Processing
--   src/eventserver/providers/warframe/*.py         Warframe: WorldState with Times is the adapter,
--                                                   Client the attempts of a request, Runner the
--                                                   polling batch, with the registry of
--                                                   providers/__init__.py
--   src/eventserver/services/pairing.py             Pairing
--   src/eventserver/services/bootstrap_admin.py     FirstAdmin
--   src/eventserver/api/*.py, db/session.py         Api: one module of handlers per router; handle is
--                                                   the commit, or the rollback on an exception
--   src/eventserver/auth/*.py                       Auth
--   src/eventserver/bootstrap.py                    Bootstrap
--   src/eventserver/catalog_admin.py, publisher_admin.py   Administration: register_entry, upsert
--   publishers/scheduled-reminder/src/scheduled_reminder/*.py
--                                                   ScheduledReminder: Config, Scheduling, and the
--                                                   cycles of main.py in Publisher
--   publishers/demo-reminder/src/demo_reminder/*.py DemoReminder: Service is service.py, Messages
--                                                   messages.py and the payload of client.py
--   src/eventserver/db/transactions.py              Transactions: run_with_deadlock_retry
-- Base holds what they share: lists, tables with a primary key, and the actions. An action on a
-- database session takes the state and returns a result, with the exception's class as an error,
-- and the state; what was written before an exception stays written, as in a session before its
-- rollback. The outbox acts on the table of deliveries alone, the rest on the whole Database.
-- Tests has runs on concrete inputs.
--
-- Publication is called by Processing for the events of a provider; it calls Schema for the payload,
-- MatchKeys for the recipients, and makes the deliveries that the outbox hands out. Pairing calls
-- Users; Subscriptions and FirstAdmin read the users' permissions through Users.
--
-- Times are natural numbers of microseconds since datetime.min, UTC; Python's integers have no bound,
-- nor have the numbers here. Loops run over a list, a text, a JSON value or a number of attempts; the
-- loop of `_interval_due` has fuel for every index up to the first candidate after the end of its
-- range, and the digits of a number as much as the number.
--
-- Parameters stand for what is no code of the repository: digests (sha256), fresh tokens and
-- identifiers, the clock, regular expressions, `str` of a JSON value, canonical JSON text, the text
-- forms of datetimes, Python's functions on texts, and the rows that other transactions lock or
-- insert. Foreign keys, column lengths, the validators of the request models, the JSON of responses
-- and the command lines are not modelled, nor are the HTTP requests of the publishers, the HTTP server
-- of the demo reminder, the settings read from the environment and the migrations.
pub mod Administration
pub mod Api
pub mod Auth
pub mod Base
pub mod Bootstrap
pub mod DemoReminder
pub mod FirstAdmin
pub mod Json
pub mod Leases
pub mod MatchKeys
pub mod Models
pub mod Outbox
pub mod Pairing
pub mod Processing
pub mod Publication
pub mod Registry
pub mod ScheduledReminder
pub mod Schema
pub mod Subscriptions
pub mod Tests
pub mod Transactions
pub mod Users
pub mod Warframe
