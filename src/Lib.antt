-- ===== src/Lib.antt =====
-- A model of the services behind SentinelVault, a password manager whose servers hold only
-- encrypted data.
--
-- Parts. The sharing service (backend/sharing-service/src) keeps one-time share links, shared
-- vaults with members, invitations to shared folders, emergency contacts, and a directory of
-- public keys and wrapped folder keys. The authentication service (backend/auth-service/src/auth)
-- registers users and logs them in by SRP, with a second factor, or by a passkey, issues personal
-- access tokens and keeps an audit trail. The sync service (backend/sync-api/src/sync) keeps the
-- encrypted items, the vaults and the wrapped vault keys of each user. The service for security
-- analysis (backend/security-analysis-service/src) judges domains, has findings explained by a
-- language model and watches e-mail addresses for breaches. The services do not call each other:
-- they meet in the database, where the pull of items reads the folders that the key directory
-- shares with a user.
--
-- Files. Common holds what all services share: Exec (a handler's state, result and exception),
-- Dict (the `Map` of a service that keeps its state in memory, with the search of its values in
-- Dict/Values), Repository (the interface of TypeORM that the other services take as a parameter,
-- with an instance in Repository/Memory), Equality (the keys of its rows), Redis (the interface of
-- the Redis commands), Outcome (rules for what a handler does on every branch), Number (parseInt
-- and toString on whole numbers) and Text. Auth/Srp models srp.ts, Auth/Totp the secrets and codes
-- of totp.ts, and Auth/Login the registration, the login, the second factors, the passkeys and the
-- sessions of auth.service.ts. Auth/Pat models pat.service.ts and Auth/Audit audit.service.ts,
-- whose trail Auth/Pat writes to. Sharing/ShareLink models share-link.service.ts,
-- Sharing/SharedVault shared-vault.service.ts, Sharing/ShareInvite share-invite.service.ts,
-- Sharing/Emergency emergency.service.ts and Sharing/KeyDirectory key-directory.service.ts.
-- Sync/Items models `push` and `pull` of sync.service.ts, Sync/Vaults the rest of it.
-- Analysis/Reputation models url-reputation.service.ts, Analysis/Guard insights-payload.ts and
-- insights-guard.ts, Analysis/Insights ai-insights.service.ts, Analysis/Scans
-- security-analysis.service.ts, which calls the other two services and whose history they share,
-- and Analysis/Breaches breach-store.ts and breach-monitor.service.ts. An operation has its name
-- in the source, spelt with underscores; a definition's children hold its theorems, and its Tests
-- child the runs on concrete input.
--
-- Conventions. A handler is a function from the state to a result and a state: what was written
-- before an exception stays written. An exception is its HTTP status. A random identifier, the
-- clock and the answers of outside services are arguments; a handler reads the clock once. A time
-- is a number of milliseconds. A loop is a recursion over the list that it walks, except in
-- Auth/Srp, where `mod_pow_loop` has the exponent as fuel and `digits` the number, which each
-- round at least halves, in Common/Number, where `decimal_from` has the printed number, and in
-- Auth/Totp/Codes, where the number of rounds is an argument. A history is a list of requests, and
-- `run` serves them one after another: each handler is taken to run without interleaving.
--
-- Not modelled: the texts of messages and prompts, the log, the parser of user agents, the
-- formatting of dates, fractional `expiryHours` and hours of waiting, fractional numbers in JSON,
-- the controllers and guards that pass a request on, the concurrency of handlers that wait for the
-- database, single sign-on of the authentication service, the reputation of files, and the client
-- applications.
pub mod Analysis
pub mod Auth
pub mod Common
pub mod Sharing
pub mod Sync
