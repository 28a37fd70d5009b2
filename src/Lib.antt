-- ===== src/Lib.antt =====
-- A verification library of secrets-dispatcher: the approval of requests for secrets and signatures, with
-- the parts of the program that feed it.
--
-- A request for a secret comes over D-Bus (internal/proxy) or over the HTTP API (internal/api) to the
-- approval manager (internal/approval). The manager answers from its cache, from a temporary auto-approve
-- rule or from a trust rule of the configuration (internal/config), or it keeps the request pending until
-- the user resolves it, it times out or its caller goes away. Every outcome of an enabled manager but a
-- cache hit goes to the history and to the observers.
-- A request to sign comes with the bytes that git wants signed, which internal/gpgsign reads for the prompt.
--
-- Files and code:
--   Prelude     lists, maps, Boolean tests and the names that are passed on
--   Text        the functions of Go's package strings that the program uses
--   Glob        Go's path.Match: a pattern is read once, then matched chunk by chunk as Go does
--   Dbus        internal/dbus/types.go: the constants, secrets and errors, and ExtractCollection
--   Approval    internal/approval: Types are the structures of types.go, manager.go and gpgsign.go; Match
--               the matchers of rules and signers; Manager the state and the history, with the children
--               Cache, Rules (auto-approve rules), Resolve (Approve, ApproveAndAutoApprove, Deny, Cancel,
--               ApproveWithSignature, ApproveGPGFailed) and Require (RequireApproval, the Record functions,
--               the gpg_sign requests)
--               Manager.Steps has every method that changes the manager, AddHistoryEntry too, as a step, and
--               Reach as the sequences of steps; Closed is the induction over them. Manager.Race has the end of
--               RequireApproval as two steps, between which another call can come
--   Config      internal/config/config.go: WithDefaults and Validate
--   Gpg         internal/gpgsign/commit.go: ParseSignedPayload and ParseCommitObject
--   Procutil    internal/procutil/procutil.go: ReadProcessChain and ResolveInvoker
--   Dhcrypto    internal/dhcrypto/dhcrypto.go: the key agreement and the encryption of secrets
--   Proxy       internal/proxy: UnitPath is unitpath.go, Tracker is tracker.go, Session is session.go, Prompter is
--               prompter.go; World has what the D-Bus handlers share, Item is item.go, Collection is
--               collection.go, Service is service.go, Properties has the property calls of all of them,
--               subtree.go, forward.go and prompt.go; Gate, Gated and Denied are about what reaches the
--               upstream service
--   Notification  internal/notification/desktop.go: Markup is the texts, Handler the state and the events
--   Api         internal/api: Token is jwt.go, Auth is auth.go with the exchange of a login token, Resolver is
--               resolver.go, Sign is gpgsign.go, Handlers is the calls of handlers.go that change the manager,
--               with their route in server.go
--   SshAgent    internal/sshagent/proxy.go: the SSH agent that asks before it signs
--   Tests       beside each part: examples on concrete inputs
--
-- How the state corresponds: the requests that Go shares by pointer, between the map of pending requests,
-- the waiting goroutine and the history, are objects of a heap under their IDs, and `is_done` says that the
-- channel of a request is closed. Times and durations are natural numbers of nanoseconds, in Api of seconds, and a negative
-- duration reads as 0. A call reads the clock once and is given the UUIDs that it draws; where a theorem
-- needs them fresh it says so. A call of the manager is one step; RequireApproval is two, up to its wait and
-- from it on. Observers are numbers, and what they are told is recorded. The
-- limit of the history is a natural number: with a negative one the code panics. Maps are association lists, and an
-- order that Go leaves open is that of the list.
-- Texts are sequences of code points, which are the bytes where they are ASCII; signed payloads and unit
-- paths are bytes, and a field that is read off a payload has one code point for each byte. The matcher of
-- patterns runs on fuel, one more than the pattern has tokens: each round takes at least one token off. The walks up the process tree run on fuel too: more than the depth of the
-- process is enough where each process lies deeper than its parent. A walk sees one state of /proc.
--
-- The proxy: a handler is one function from the state, the caller, the arguments and the upstream's replies to
-- the state, the upstream calls that it made, in their order, and the reply to the client. What the other
-- goroutines do while a call waits for its decision is a function of the whole state, an input like the
-- replies. The texts of errors of libraries are inputs or fixed words; AES-CBC on whole blocks and HKDF are the
-- fields of a record, with what the code relies on as its laws.
-- The notifications: an answer of the notification server comes as a step of its own, so that all that can
-- happen before it is stored can happen in the model. A timer is the time at which it is due.
-- The HTTP API: a handler gets the parts of the request that it reads, the random values that it draws and the
-- readings of the clock. Base64, JSON and the HMAC are the fields of a record, and gpg is a function from its
-- path, the key and the bytes; what other goroutines do while gpg runs is a function of the manager. The
-- exchange of a login token is one step.
--
-- Not modelled: parent contexts, goroutines and channels beyond the steps above, logging, the slow-call
-- notifications, the D-Bus, HTTP, YAML, ssh and cryptographic libraries, and the parts of the program that
-- mostly call them: signal forwarding, the lists and the WebSocket of the HTTP API, the installation, the
-- command line and the web interface.
pub mod Prelude
pub mod Text
pub mod Glob
pub mod Dbus
pub mod Approval
pub mod Config
pub mod Gpg
pub mod Procutil
pub mod Dhcrypto
pub mod Proxy
pub mod Notification
pub mod Api
pub mod SshAgent
