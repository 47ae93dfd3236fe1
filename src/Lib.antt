-- ===== src/Lib.antt =====
-- LabGate lends the machines of a laboratory to students: a server keeps machines and reservations
-- in SQLite, hands out a one-time password for the guest account of a machine over SSH, and learns
-- from the reports of the machines when a session opens and closes.
--
-- The parts, by module:
--   Prelude         texts as lists of byte codes, decimal numbers, errors and results
--   Store           internal/store and the schema of internal/migration: the tables as lists of rows,
--                   their keys, the SQL statements as functions, and transactions (`Tx` is `tx`)
--   Config          internal/config: who may reserve, who is an administrator, and `Validate`
--   Core            internal/core, the reservation service:
--     Hold, Identity, Password       `merge`, `reconcile`, the patterns, `Password`
--     Checkout, Booking              `Checkout` and `compensate`
--     Expiry, Sweep                  `Expire` and `Sweep`
--     Report, Sighting, Opening, Closing, Webhook    `Report.Valid`, `Webhook` and `unsafe`
--     Enrollment                     `Enroll` and `Visibility`
--     Provision                      what `SSH.Issue` and `SSH.Revoke` send
--     Listing, Activity              `List` and `Activity`
--   Server          internal/server:
--     Tables, Request                sessions, pairings and users; `token`, `body`, `problem`
--     Binding, Auth                  `bind` and `unbind`; `Session`, `CSRF` and `Handle`
--     Pairing                        `Pair`: start, approve and poll
--     Routes, Lapse                  `handle` and `enroll`: which operation a request runs, for whom
--   Machine         internal/machine, the endpoint:
--     State                          the record of a generation, `ParseState` and what is written
--     Runtime                        the files, and `tombstone`, `writeState`, `clear`, `recovery`
--     Account                        `Account` and `ReadPassword`
--     Session                        `PAM` and `Cleanup`
--     Outbox, Delivery               `Queue` and `Flush`
--     Heartbeat, Dispatch            `Heartbeat` and `Dispatch`
--     System                         what is read of the commands' output, `kill`, and
--                                    `resetAuthentication`
--   Tests           a fixture, and the theorems at it
--
-- How a module corresponds to the code. A handler is one function from its arguments and the tables
-- to a result and the tables. What the code calls outside the repository is an argument: the clock,
-- the random draws, the answers of a machine over SSH, and a fault of the database in a transaction.
-- Between two transactions of a handler other requests may commit; their commits are arguments too,
-- functions on the tables (`Turn`, `Meeting`). Within a transaction nothing comes between, since
-- `Tx` holds a mutex.
--
-- What it means that the tables are safe (Core/Invariant, `IsSafe`): the keys of the schema are
-- unique, so that no machine and no student has two live generations; a machine on offer has a pin,
-- no safety hold and no live generation; a generation carries the version that its columns show.
--
-- An endpoint runs in steps that may fail at any call to the system: `World` answers each call from
-- the calls so far, also to a write that it took place, that it did not, or that it took place and
-- an error followed. What a step wrote before an error stays written. `Account`, `PAM` and `Cleanup`
-- hold one lock, so that they run one after the other; so does each of `Queue` and `Flush`.
--
-- Bounds: times and versions are natural numbers, none of which the code brings near 2 ^ 63; a time
-- below 120000 ms after 1970 is no time of a server. Recursion is structural but for the digits of
-- a number, which are printed on fuel of one more than the number: each step divides it by ten.
-- Addresses of mail are ASCII, which SQL's LOWER and strings.ToLower treat alike. Foreign keys are
-- not checked: a generation is inserted for a machine read in the same transaction, and no machine
-- is ever deleted. In `Checkout`, `Expire` and `Sweep` a read outside a transaction does not fail;
-- elsewhere it may. A cursor of the log before 1970 is not read.
--
-- The server is modelled up to what it does for a request: `route` gives the operation that is run and
-- for whom, and the handlers of sessions and pairings run on the rows of their tables. What the JSON
-- library makes of a body, the OAuth client, SHA-256, HMAC and base64 are arguments. A negative expiry
-- in a cookie stands as none, since both are refused.
--
-- Not modelled: HTTP itself, the answers that are written, the health check's cache, SSH itself, the
-- files and mounts that are removed and made for the guest on an endpoint, the removal of an
-- installation, the migration of an older database, the terminal interface, and the web interface.
pub mod Prelude
pub mod Store
pub mod Config
pub mod Core
pub mod Machine
pub mod Server
pub mod Tests
