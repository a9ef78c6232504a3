-- ===== src/Lib.antt =====
-- A verification library for the ApexChainx backend: SLA policies and settlements of network outages,
-- payments, authentication and webhook delivery, with Stellar as the ledger. The service is a FastAPI
-- application over SQLAlchemy tables, with Redis for what the workers share.
--
-- The parts and their files:
--   Breaker      app/services/webhook_breaker.py. `CircuitBreaker` keeps its four dictionaries; each
--                method is a function on it that also returns the effects on the gauge and on Redis.
--                Breaker/Host is the automaton of one host, Breaker/Refines the refinement, and
--                Breaker/Trips and Breaker/Probe are about the thresholds and the probe.
--   Sla          app/services/sla. Sla/Config has the policy dictionaries and the history table
--                (config.py), Sla/Published and Sla/Swapped its properties, Sla/Calculator the calculation
--                (sla_calculator.py), Sla/Amounts what it pays, Sla/Intervals the merge of outage
--                intervals (interval_merge.py), and Sla/Lowered is about `str.lower`.
--   Auth         app/services/auth_store.py over app/repositories/session_repository.py,
--                token_family_repository.py and user_repository.py. Auth has the tables and the
--                repositories, Auth/Store the methods of `AuthStore`. Auth/Lockout and Auth/Login
--                are about logins, Auth/Refresh about how a refresh ends, and Auth/Families,
--                Rotation, Kept and Reach about the token families.
--   Payments     app/models/payment.py and app/repositories/payment_repository.py. Payments/Nonces is
--                app/services/single_use_token_store.py, Payments/Callback the endpoints of
--                app/api/v1/endpoints/payments.py, and Payments/Change, Lifecycle, Settled and
--                Replays have the properties.
--   Poller       app/services/block_poller.py. Poller has the retries and one cycle of polling,
--                Poller/Fetch and Poller/Cycle are about these, and Poller/Chain about the cycles of
--                `run` against a chain of ledgers.
--   Webhooks     app/services/webhook_service.py and app/models/webhook.py. Webhooks has the rows,
--                Webhooks/Network the screening of URLs (app/utils/network_validation.py),
--                Webhooks/Signing the signatures (webhook_signing.py), Webhooks/Sending one attempt,
--                Webhooks/Dispatch the claim and the schedule, Webhooks/Queue the fan-out and the
--                sweeps, Webhooks/Replay the dead letters, and Webhooks/Endpoint the retry endpoint
--                of app/api/v1/endpoints/webhooks.py. Webhooks/Runs has the runs of these, and the
--                other files their properties. Each attempt asks the Breaker.
--   Audit        app/services/audit_log.py. Audit has the rows, the append and the verification,
--                Audit/Chain what appending keeps, Audit/Evident what a verified chain shows, and
--                Audit/Roots is audit_chain_roots.py and audit_chain_commitment.py.
--   RateLimit    app/core/rate_limiter.py. RateLimit has the in-process limiter and the script of
--                Redis, RateLimit/Redis the limiter that asks Redis, RateLimit/Ledger the ledger of
--                app/services/auth_attempt_ledger.py, RateLimit/Window the sliding window as a
--                specification, and Tracked, Memory, Script and Fallback the refinements.
--   Idempotency  app/middleware/idempotency.py. Idempotency/Replayed has repeated requests, and
--                Idempotency/Uncached the failed ones and those without Redis.
--   TxIndexer    app/services/tx_indexer.py and app/repositories/tx_indexer_repository.py.
--                TxIndexer/Parsed and Firsts have the records, TxIndexer/Inserted the insertion,
--                TxIndexer/Passes one pass, and TxIndexer/Redelivered pages that come again.
--
-- The settlement of an outage is calculated by the calculator from the policy, stored as a payment, and
-- settled by the callback of the provider, which is signed; the other endpoints ask for a session.
--
-- Conventions. Numbers are natural numbers, or integers made of two naturals (Common/Int); Python's
-- integers are unbounded, so nothing wraps. A time is a number of any resolution, and one reading of the
-- clock stands for a call, or for each reading that the code makes, as a file says. A dictionary is an
-- association list in insertion order (Common/Dicts), a table a list of rows, and a raised exception is
-- a value of the part's `Error`. Code outside the repository is a parameter: SHA-256, HMAC, bcrypt, the
-- URL and address parsers, the resolver, uuid4, random numbers, the answers of Redis, of Horizon and of
-- the hosts of webhooks. All loops are structural recursions; the only
-- counts that run out are those of attempts, of the poller, of deliveries, of Redis and of the indexer, which the code itself has.
--
-- Not modelled: the transport (routes, request parsing, roles), logging, metrics, the isolation of
-- concurrent database transactions beyond the races that Sla/Published states, registration and the
-- listings, and the other services: caches, disputes, the
-- wallets, the contract adapters and the Celery tasks.
pub mod Common
pub mod Breaker
pub mod Auth
pub mod Sla
pub mod TxIndexer
pub mod Webhooks
pub mod Audit
pub mod RateLimit
pub mod Idempotency
pub mod Payments
pub mod Poller
