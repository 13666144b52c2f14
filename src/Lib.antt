-- ===== src/Lib.antt =====
-- askrelay: a relay through which people's AI agents ask each other, with a person's verdict on
-- both sides. This library models the relay, part by part, and proves properties of each part, of
-- whole histories of calls, and of the parts together.
--
-- Gate: the approval gate (internal/gate, with the states of internal/a2a), which alone turns a
-- verdict or a standing grant into a move of a thread or of a draft. `apply_inbound`,
-- `apply_outbound`, `apply_inbound_grant` and `apply_outbound_grant` are the Go functions of
-- these names; a function that returns an error is a function into `Result`. The states and
-- verdicts, strings in Go, have one constructor for each constant and one for any other string.
-- Envelope: internal/envelope. Envelope/Data.antt has the data, Envelope/Canon.antt and
-- Envelope/Number.antt the canonical form of RFC 8785 (canon.go), Envelope.antt the limits, the
-- signature and its check (envelope.go, sign.go). A text is its list of code points, and what
-- the Go functions append to a buffer is what the functions here return.
-- Store: internal/relay/store. Store/Schema.antt has the tables of migrations/*.sql as lists of
-- rows, and transactions as functions from a database to an error, or to a value and a database;
-- `write_tx` rolls back on an error. Store/Insert.antt has INSERT with each table's keys,
-- references and CHECKs. Store/Identity.antt, Message.antt, Drafts.antt, Approval.antt, Read.antt,
-- Retention.antt, Oauth.antt and Migrate.antt are the Go files of these names, method by method, in
-- snake case. A method with several branches behind a look-up has one definition for each part.
-- History: the methods of the store that write, as one type of calls, and any sequence of them at
-- any times. Frame.antt says which calls leave which table alone; the other files of the folder
-- carry a property of a table along a history.
-- Mcp: the tools of internal/relay/mcp. Send.antt (outbound.go), Verdicts.antt (verdicts.go),
-- Reading.antt (check_inbox.go, get_thread.go), Spotlight.antt (spotlight.go) and Wait.antt
-- (wait.go, and the slots of handler.go) have the handlers, each split where a call of the store
-- returns; Tools.antt has the tools that write as one type, and Request.antt the way from a bearer
-- token to a tool. Acts.antt, Held.antt and Unseen.antt are about all the tools, and the folders
-- Wait and Spotlight about one.
-- Oauth: the authorization server. Signed.antt has the tokens (internal/relay/oauth: token.go,
-- device.go, the PKCE check of as.go), Token.antt, Authorize.antt with Submit.antt, and
-- Register.antt the endpoints (internal/relay: oauth_token.go, oauth_authorize.go, oauth_dcr.go).
-- Spent.antt reads what a token request spends off the tables; the other files of the folder are
-- about these.
-- Hub: internal/relay/ws.go. Registry.antt has the map of connections, Socket.antt the handshake,
-- the frames, the drain of an inbox and the check for revoked devices, Wakes.antt the signal of
-- the writer as a step relation.
-- Server: the enrolment endpoint (internal/relay/enroll.go), a pass of the sweeper
-- (internal/relay/server.go), the check of the settings (internal/relay/config.go), and the way
-- from an invite to an open socket.
-- Redact: internal/redact. Rules.antt has redact.go, over the spans that the regular expressions
-- find, and Hook.antt the cap and the refusals of hook.go.
--
-- The store calls the gate for every verdict, as the Go code does, and the envelope package to
-- decode, check and edit a draft. A mutex around every writing transaction makes the transactions
-- of concurrent callers a sequence, which is what a history is.
--
-- Conventions: an id, a token, an e-mail address or a hash is a number, 0 for the empty string, as
-- the code only compares them. Times and durations are nanoseconds on the natural numbers, and
-- `unix` rounds down to seconds, as the tables hold them: time is counted from an epoch before all
-- times that occur, and subtraction, which stops at 0, is exact there. Fresh random ids are
-- arguments. What the store takes from outside the repository is the record `External`: Go's JSON
-- encoder and decoder, the reading of a floating point number, the UUID parser, SHA-256 and
-- Ed25519. All functions are structurally recursive; there is no fuel. A float is its sign and
-- shortest decimal, which is what the code asks of `strconv`.
--
-- The tools and the endpoints call the store and nothing else that lasts: a handler is a function
-- from a database to its answer and the database after it, and its theorems stand on those of the
-- histories. Two handlers run at once interleave at their calls of the store only, so what is
-- proved of any history holds of them; what is said of one handler's answer is for a run that no
-- other call comes into. The JWT library, the URL parser, SHA-256 with base64url, the regular
-- expressions and the quoting of the message block, and which writes a socket takes are arguments.
-- A client type or another fixed string that is only compared is a number. The loop of
-- wait_for_activity runs over the list of the rounds that come, and no answer at the end of the
-- list means that it still waits.
--
-- Not modelled: I/O faults of SQLite other than broken constraints; the SQL of the migrations, which
-- is what the tables are taken from; the metadata documents of the authorization server, its login
-- page and the key file; HTTP routing, logging, recovery and body limits; the regular expressions
-- of the redaction rules, the line that summarises a redaction, and the process that the hook runs;
-- flags, environment and process start (the rest of internal/relay/config.go, cmd/askrelay).
pub mod Base
pub mod Gate
pub mod Envelope
pub mod Store
pub mod History
pub mod Mcp
pub mod Oauth
pub mod Hub
pub mod Server
pub mod Redact
pub mod Tests
