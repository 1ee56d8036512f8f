-- ===== src/Lib.antt =====
-- A model of the platform's own logic: the registry of agents, the signature header of its API, the
-- message queue with its two protocol versions, the configuration, and the administration of the
-- policies with the restarts that complete it.
--
-- The parts and where they are modelled:
--
--   Auth      internal/auth/auth.go. Auth/Header reads the Authorization header, the steps that
--             VerifySignatureMiddleware and ExtractPubkeyFromAuth share; Auth/Middleware is the
--             middleware, whose result is a refusal with its status or the body that the next
--             handler reads. Auth/Agreement compares the two.
--   Registry  internal/registry/store.go. Registry/Codec is encodeStringSlice and
--             decodeStringSlice; Registry/Store has the table `registry` and one function for each
--             method of Store. Registry/Rows, Writes, History and Reads hold the lemmas.
--   Mq        internal/mq. Mq/Tables is the schema and the state of Store. Mq/Hub is the map of
--             live subscribers (RegisterSubscriber, UnregisterSubscriber, the sends of
--             NotifySubscribers). Mq/Managed is isManagedAtIssuer with the grants it reads,
--             Mq/Enrollment is EnrollManaged and RevokeManaged, Mq/Policy is EnableV2Policy.
--             Mq/StoreV1 is StoreEnvelope and NotifySubscribers, Mq/StoreV2 is storeV2 and
--             ExistingV2Receipt, each with its transaction in a child module, the ways the
--             transaction ends in Outcome, and what callers rely on in Guarantees and Bounds.
--             Mq/AckV1 is Ack, Mq/DeliveryV2 is RetrieveV2 and AckV2. Mq/Retention is cleanup,
--             SetComplianceRetentionDays, SetHistoryRetentionDays and the reads of the compliance
--             archive. Mq/Quota is the bound on a mailbox that both kinds of message share.
--             Mq/Frames is StoreV2Frame, RetrieveV2Frames and AckV2Frames. Mq/Gateway is AdmitV2
--             and CheckCurrent of v2_gateway.go over storeV2 and ExistingV2Receipt, and
--             Mq/Gateway/Loading is LoadV2Gateway with readV2Key. Mq/Admin is the view all_messages
--             with ListMessagesPage, GetMessageDetail and SummarizeMessages, and Mq/Admin/Deletions
--             is DeleteMessage and PurgeQueue. Mq/Tests, Auth/Tests and Registry/Tests try the
--             theorems on small inputs.
--   Config    internal/config/config.go. Config/Settings is Config with its checks
--             (ValidateAdminEditableSetting, ValidateComplianceRetentionDays), Config/Files the
--             data directory and the replacement of a file, Config/Overrides is LoadAdminPolicies,
--             SaveAdminPolicies and SaveAdminEditableSettings, and Config/Startup is Load. Ranges,
--             Adopted, Writes and RoundTrip hold the lemmas, Accepted is about what loads.
--   Api       internal/api. Api/Policies is the state that a request changes: the live policies,
--             the registry, the mailboxes and the disk. Api/Updates is updateStorage and
--             updateForwarding, Api/Retentions is handleSetRetention of admin.go and
--             handleSetComplianceRetention of admin_compliance.go, Api/Requests any of them,
--             Api/Decimal itoa of server.go, Api/Limiter the limiter of requests there (GetLimiter,
--             limitMiddleware) with its lemmas in Api/Limits. Api/Forwarding is about the callbacks
--             that New of server.go gives to the mailboxes. Api/Editable and Api/Editor are
--             admin_config_editable.go: the changes of settings, the confirmation token, the
--             preview and the save. Api/Restart is the start by main of
--             cmd/platform/main.go: recoverPendingRegistryReset, and what NewStore and New make of the
--             configuration, with Api/Host for the v2 gateway, registerPlatformIdentity and the pinned
--             policy in between. Safety,
--             Recovery and Completion are about policies, disk and restarts together; Adoption,
--             Edits and Tokens about the editor. Api/Tests and Config/Tests try them.
--   Base      what they have in common: results and transactions, tables as lists, Go's signed
--             integers, hexadecimal text, strings.Split, ORDER BY.
--
-- How state and calls correspond to the code:
--
--   A string or byte slice is a list of bytes. A clock reading and a stored time are natural
--   numbers, a number that a client sends is an integer; the product with 1e9 in permits and the
--   conversion to int32 in SetHistoryRetentionDays wrap around as in Go. A table is the list of its
--   rows, oldest first, and a statement is a selection, a deletion or an update of that list; the
--   primary key is a hypothesis where a theorem needs it. The lifetime `ttl` of the registry is in
--   whole seconds.
--
--   Every call of the database may fail, and every operation takes its own readings of the clock: a
--   World gives both by number, in the order of the code, and the theorems hold for all of them. A
--   transaction that does not commit leaves the database as it was.
--
--   The mutexes make an operation one step, with one exception: StoreEnvelope and storeV2 read the
--   fields in memory before their transaction. These fields are taken from a state of their own,
--   `before`, and the transaction runs on any other state, so that the theorems cover every
--   interleaving with other calls. StoreV2Frame and EnrollManaged are modelled in the same way.
--   Sequences of calls are lists (Registry/History, Mq/Policy/Pinning, Mq/Enrollment/Calls).
--
--   A Disk holds the files of one data directory. A save writes a temporary file and renames it,
--   each step may fail, the removal of the temporary file too, and Io tells which does. The requests of the administration hold the lock
--   of the policies, so that each is one step; a request is its JSON value as decoded. Packages
--   outside of the repository are parameters of Config and Api: yaml, time.ParseDuration, net,
--   time/rate, and the SHA-256 and HMAC of the editor, whose signatures have 64 digits. That yaml
--   decodes what it has encoded is assumed where a theorem names it. A start takes lifetimes that
--   are not negative.
--
--   AdmitV2 is one step as well: no other call comes between its question for an earlier receipt and
--   its store, and the gateway is there. The constraint that a serial of a certificate is unique is left
--   out of the table of managed identities, so that the theorems cover more enrolments than the
--   database admits.
--
--   The callbacks of SetStoragePolicy are values that may be absent. The module agent-comm is not
--   part of the repository: its checks of envelopes, registrations and recipients, EnvelopeHash and
--   ContentTypeAgentJSON are parameters, as is Ed25519 of the standard library. The one property of
--   them that is assumed is that a registration which passes the check for a write passes the check
--   for a read (Registry/Writes).
--
-- All functions are structural recursions over the bytes, the addresses, the rows, the channels or
-- the fields that the loops of the code run over, and need no fuel, but for two. The loop of Ack
-- over batches of 16 IDs has the number of the IDs as its fuel, and check_batches_fuel of
-- Mq/AckV1/Batches shows that more of it changes nothing. The loop of itoa has the number itself,
-- which atoi-itoa of Api/Decimal shows to be enough.
--
-- Not modelled: opening and migrating the databases, tickers and goroutines; RetrieveEntry of the
-- first version, ListQueueStats; the HTTP handlers of the queue and the registry, the audit log;
-- the administration pages, peers and overview, and the counts of affected messages in a preview;
-- the relay, and the command v2-policy.

pub mod Api
pub mod Auth
pub mod Base
pub mod Config
pub mod Mq
pub mod Registry
