-- ===== src/Lib.antt =====
-- Verification of the mail-suite control plane (src/backend): the worker that provisions mailboxes,
-- the ledger of its operations, the adapter for the mail server Stalwart, the request boundary, and the
-- login service with its repository.
--
-- How the parts interact. A request to open a mailbox is checked and normalised
-- (internal/provisioning) and stored as an operation. A worker (internal/operation) claims an
-- operation from the ledger (internal/data/postgres), which leases it under a new epoch; it ensures
-- and inspects the mailbox through the mail core contract (internal/mailcore) and submits one
-- receipt, which the ledger accepts only under the lease's epoch. The contract is implemented by the
-- adapter (internal/mailcore/stalwart), which also lists and reads the messages of a mailbox. Browsers
-- log in through an OIDC provider (internal/identity), whose repository (internal/data/postgres) keeps
-- login flows and sessions; each request is then authorised from the session (internal/authorization).
--
-- Files and the code they follow, below src/backend/internal:
--   Base        shared: tests, lists, Go integers and strings, and what is used of package strings
--   Errors      error values and their chains, for all packages
--   Mailcore    mailcore/mailcore.go: commands, observations, NewError, ClassifyError
--   Operation   operation/operation.go: Config is Config, newService, retryDelay, validClaim and
--               matchesDesired; World is Repository, Adapter, clock and cancellation; Service is
--               ClaimNext, Execute, resolve, resolveUncertain, resolveAdapterFailure, inspect;
--               Runner is operation/runner.go; Settled, Execute, Receipts, Loop, Rounds and Backoff
--               hold the proofs
--   Provisioning  provisioning/provisioning.go: prepareRequest, RequestMailbox, GetOperation;
--               proofs in LocalPart and Normal
--   Ledger      data/postgres/provisioning_repository.go: validMailboxResolution, the durations,
--               idempotentResult; Requests is RequestMailbox; Lookup is GetOperation; Repository is
--               ClaimMailboxOperation and ResolveMailboxOperation;
--               Rows is query/provisioning.sql, one function for the guard and one for the effect of
--               FinalizeMailboxOperationBeforeClaim, ClaimMailboxOperation, ResolveMailboxOperation;
--               proofs in Attempts, Invariant, Fencing, Receipt, Replay and Atomic
--   Authorization  authorization/authorization.go: NewContext, RequireResource and what it calls;
--               Mutation is ValidateMutationRequest; proofs in Permissions, Access and Boundary
--   Identity    identity/identity.go; Secret, Pkce and ReturnPath are the files of those names,
--               with ReturnPath/Safe for the proofs;
--               World, Service, StartLogin, Login and Sessions are identity/service.go; proofs in
--               Started, Evidence, Settlement, Authenticated, Landing and Guarded
--   Stalwart    mailcore/stalwart/adapter.go: error codes and classes, splitAddress, validation; Metadata
--               is formatMetadata, parseMetadata, mailboxPassword; World is Adapter with the HTTP client,
--               clock and JSON; Call is requestJSONAs, callAs, fetchSession, queryIDs, getObjects,
--               findDomain, findAccount; Adapter is EnsureMailbox, InspectMailbox, Check and the writes.
--               Tokens is read_tokens.go, Mail the data of mailcore/read.go and read_adapter.go; Reader is
--               openMailboxSession, getEmails, messageSummary of read_adapter.go, with ListMessages in
--               Reader/Pages and GetMessage in Reader/Message. Proofs in Written, Contract, Reads, Sends,
--               Ensured, Observed, Converged, Uncertain, Bound, Sealed, and in Reader/Bounds, Served, Paged, Opened
--   Accounts    data/postgres/identity_repository.go with query/identity.sql: rows, checks and accounts;
--               Rows is what the statements do to a row; Flows is CreateAuthFlow and ConsumeAuthFlow;
--               Sessions is CreateSession, the revocations and RecordAudit with their transactions;
--               Resolve is ResolveSession; Steps has the operations as a relation on stores; proofs in
--               Changes, Spent, Once, Ended, Lifetimes, Entitled, Live and Atomic
--
-- State and calls. What a service calls answers as a function of the history of all earlier calls, so
-- a theorem holds for every such surrounding. A method is a function from a history to its result and
-- the longer history. Where Execute or CompleteLogin return early, what follows a call is a function
-- by clauses on its result. The ledger is one operation with its mailbox and attempts; statements and
-- mailbox revisions are the steps of a relation, in any order and at any instants. RequestMailbox is
-- a transaction with a view of its own on lists of rows, with every failure of a statement and any commits
-- of others. ResolveSession is three transactions, with what others commit between them. The
-- adapter's history holds the requests it sent, with the context of each, and the instants and nonces
-- it read; an answer is any status, body and failure. The identity repository maps a store of rows to a
-- result and a store; ids, states and session digests are unique, and its statements fail as an argument
-- says, which stands for the other constraints of the tables too.
--
-- Numbers. Go's int, int64 and time.Duration are integers; sums and differences of durations that can
-- leave the range are wrapped to 64 bits, and instants are not; the database keeps them in whole
-- microseconds. Strings are lists of runes, a byte that is no UTF-8 standing as a number beyond the runes;
-- digests and UUIDs are numbers.
--
-- Fuel. The loop of retryDelay recurs on the rounds left until its counter reaches the attempt, which
-- is the most that it can do. Runner.Run has no end of its own, so it takes fuel, one unit a
-- round, and says when it is spent. A round that does not return has asked for a task, so one unit more
-- than there are requests before the context is cancelled is enough.
--
-- Parameters. Go's library where it is no plain code (HMAC, SHA-256, base64, AES-GCM, random bytes,
-- URL and media type parsing, path cleaning, lower case and folding beyond ASCII, JSON, RFC 3339,
-- the HTTP client), UUID printing and parsing, and the OIDC client. The worker and the login service
-- take the mail core and the repository as arguments, which Stalwart and Accounts then are.
--
-- Not modelled. The OIDC client, HTTP handlers, configuration with the setting up of TLS, process start
-- and stop, outbox events, row locks, and the order in which the ledger picks among the operations that
-- it could claim; the web client.
pub mod Base
pub mod Errors
pub mod Mailcore
pub mod Operation
pub mod Provisioning
pub mod Identity
pub mod Authorization
pub mod Ledger
pub mod Stalwart
pub mod Accounts
