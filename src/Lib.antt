-- ===== src/Lib.antt =====
-- A model of the JECP hub (jecp-server): an HTTP server that lets agents call capabilities of
-- providers and charges them for it, by wallet or by x402 payments in USDC.
--
-- The parts and how they interact. POST /v1/invoke (src/routes/invoke.rs) checks the form of a
-- request, authenticates its agent by API key (src/auth/agent.rs), verifies the signed provenance
-- of its mandate and registers the nonce in the replay cache (src/auth/replay_cache.rs), asks the
-- rate limiter (src/middleware/rate_limit.rs) and the cache of responses, resolves the capability,
-- and checks sunset, input, trust tier and mandate against its manifest. Then it has the request
-- paid: one with an X-Payment header goes to the payment branch (src/routes/invoke_x402.rs), which
-- decodes and checks the payment (src/protocol/x402_verify.rs, src/protocol/x402_types.rs), looks
-- its nonce up in the settlements table (src/services/x402_settlements.rs), lets the facilitator
-- verify and settle it (src/services/x402_facilitator.rs) over a connection whose certificate is
-- pinned (src/services/x402_cert_pin.rs), and inserts a row; any other needs a balance that covers
-- the price. The request goes to the provider at a URL that passes the guard of
-- src/protocol/url_guard.rs, and the wallet is charged where x402 did not pay. The streaming form
-- passes on the provider's events and charges at the event `completed`. Later the reconciler
-- (src/services/x402_reconciler.rs) compares the settlements with the chain. An agent can ask for a
-- refund of a charge, which the provider approves or denies (src/routes/refunds.rs). A provider is
-- authenticated by its key (src/routes/providers.rs); it publishes, promotes and ends capabilities
-- (src/routes/manifests.rs), and its x402 capabilities are registered on chain by a relayer whose
-- key lies in a key service (src/services/x402_relayer.rs, src/services/x402_relayer_aws_kms.rs).
-- src/services/database.rs sizes the connection pools, and src/services/supervisor.rs restarts the
-- background tasks.
--
-- Files. Prelude: Boolean tests, lists over native numbers, texts and results.
-- Middleware/RateLimit: the window of each agent as a list of instants in nanoseconds; check and
-- sweep. Auth/ReplayCache: the cache over an interface of the lru crate (ReplayCache/Lru).
-- Auth/Agent: tiers, keys and the comparison in constant time. Auth/Provenance: the signed
-- provenance of version 2. Protocol/UrlGuard: the deny list and the guard. Protocol/Decimal:
-- decimal texts of u128. Protocol/X402Types and Protocol/X402Verify: the wire types and the checks.
-- Services/CertPin: the DER walker and the verifier. Services/Settlements: the table as a list of
-- rows and its statements as functions. Services/Reconciler: verdicts, and a pass as a fold over
-- the selected rows. Services/PoolBudget and Services/Supervisor: sizes and delays. Routes/Sse: the
-- parser of event streams; Routes/Stream: the loop that passes events on, with the time and the
-- next bytes of each round given. Routes/ManifestRead: what is read from a manifest, and the offers
-- of a 402. Routes/InvokeChecks: the checks of both forms of the call as chains of results.
-- Routes/Invoke: the JSON handler, a chain of steps on a state of windows, nonces, settlements and
-- a log of what was done to others. Routes/Refunds: requests and decisions on a table of refunds,
-- with the table that a handler reads and the one that its statement meets as two arguments.
-- Routes/Manifests: the checks of a manifest that is published, and the document that is stored.
-- Services/Capabilities: the statements on the table of capabilities. Routes/Lifecycle:
-- publication, promotion and sunset, with the rows that a handler reads and the store that its
-- statement meets apart. Middleware/FeatureFlag: the operator's switches, with the database as a
-- function of time. Services/Facilitator: the client, with the connection as a function from
-- requests to responses. Services/Relayer: the signer; arrays are lists of bytes, and the replies
-- of the node and of the key service are given. Auth/Provider: the keys of providers, with the
-- table as a list of rows. Routes/InvokeX402: the dispatch, with the table at the lookup and the
-- table at the insertion as two arguments, so that other requests may come between. Operations have
-- the names of the source.
--
-- Bounds. Machine words are natural numbers with the wrap-around written out: i64 columns and
-- shares are words of 64 bits, amounts of the wire are checked against 2^128, DER lengths are
-- shifted into 64 bits. The loops of the source are structural recursion on lists, but for three:
-- the decimal printer has fuel for 39 digits, which hold every u128 (Decimal/RoundTrip); the loop
-- over the lines of the parser's buffer has the buffer's length, of which each round takes a byte
-- (Sse/Chunks), and so has the loop that takes a prefix off a text (Facilitator). The loop of a
-- stream runs over the rounds that it could go through.
--
-- Parameters stand for code of other crates: the lru cache (with laws, and a list as an instance),
-- SHA-256, HMAC, bcrypt, floats and their parser, the decoder of UTF-8, the schema validator,
-- axum's builder of events (which texts it takes without a panic), the chain validator of rustls,
-- base64, hex, serde_json, url, ipnet, Ed25519, Keccak, the recovery of keys in k256, the headers
-- of alloy_rlp (with laws, and the RLP rules as an instance), the key service, the resolver, the
-- connection to the facilitator, the node's replies, and which database statements succeed.
--
-- Not modelled: the hash that identifies a request, the wrapping of binary artifacts, webhooks,
-- automatic approval of refunds, the registration of providers and the rotation of their keys; a
-- client that leaves a stream early; HTTP, SQL text, JSON formatting and logging.
pub mod Prelude
pub mod Services
pub mod Auth
pub mod Middleware
pub mod Protocol
pub mod Routes
