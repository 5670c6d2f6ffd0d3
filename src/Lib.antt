-- ===== src/Lib.antt =====
-- MilterGuard, a milter that judges mail for an MTA: the parts that stand between untrusted bytes and
-- the state of the process.
--
-- The parts and their files. Wire is internal/milter/protocol.go: Wire/Command has the command bytes
-- and the responses, Wire/Frame `readFrameProgress`, `writeFrame` and `writeAll`, Wire/Reply
-- `replyCode` over the UTF-8 of Prelude/Utf8, Wire/Payload the payloads of single commands and
-- Wire/Macros `parseSessionMacros`. Session is the state of one connection: Session/State has the
-- fields of `session` (internal/milter/session.go), Session/Handlers what the commands call and
-- Session/Commands `handleCommand` and `run` (internal/milter/session_protocol.go,
-- session_identity.go). A session reads its payloads with Wire, writes frames with Wire/Frame, and
-- keeps an exact message of Session/Exact (internal/mailauth/exact_message.go); addresses are those of
-- Session/Address (internal/netsafety/netsafety.go). Resource is internal/resourceguard:
-- Resource/Memory the ledger of memory.go, Resource/Table the guarded map of table.go. Zip is
-- internal/attachment/zip_limits.go: Zip/Reads has the results and reads, Zip/Directory
-- `countZIPDirectory` and `zipDirectoryEnd`, Zip/Admission `admitZIPDirectory`. Reputation is
-- internal/stores/sqlite/ip_reputation.go: Reputation/Store has the tables, and Rejection, Legitimate,
-- Blocks and Cleanup the operations. Thinking is internal/thinking/plan.go: the ladder of
-- `CompilePlan`, and `ResolveLevel`. Policy is the end of a message, `finishMessage`
-- (internal/milter/session.go): Policy/State has what it reads and does, Policy/Headers
-- result_headers.go, Policy/Senders sender_domain_policy.go and sender_blocklist_policy.go,
-- Policy/Attachments attachment_policy.go, Policy/Inbound and Policy/Updates message_policy.go with
-- ip_reputation.go and activity.go, Policy/Analysis analysis.go, Policy/Commands email_commands.go,
-- and Policy/Finish the order in which `finishMessage` calls them. Its `filtering_host` fills the
-- slots that a session leaves for `rejectReputationIP` and for the end of a message, and
-- Policy/Sessions is about the two together. Policy/Story is an account of which events may come when,
-- Policy/Promises what follows from it, and Policy/Liveness is about connections that take every
-- write. Prelude has the helpers, and Examples the theorems at concrete inputs.
--
-- The state. A byte string is a list of numbers. A Go int64 is an integer whose sums wrap to 64 bits;
-- a nil `*Memory` is `none`, and an operation returns, ends the stage or panics as a value. A reader
-- is the bytes to come and the error behind them, a writer what was sent and a script of what the
-- coming writes take; a temporary file is such a script too. A ZIP result is a value, one of the
-- errors or a slice panic, and a context is the number of checks that it still lets pass. Entry counts
-- and sizes are natural numbers; where the source subtracts, the comparison is written with sums. The
-- maximum number of files is not negative, as the configuration's validation has it.
-- `strings.EqualFold` against an ASCII literal follows Unicode folding, with the long s and the Kelvin
-- sign. The SQL tables are lists of rows, each statement a function on them and a transaction one
-- step; a time counts nanoseconds and its column whole milliseconds, and an address is the number of
-- its canonical text.
--
-- Loops. `parseSessionMacros` runs on the rounds that its limit allows, and refuses what is left.
-- `envelopeHasSMTPUTF8` runs on the length of the arguments, since a round takes a byte at least.
-- `countZIPDirectory` runs on the entries that the limit still allows, and `zipDirectoryEnd` on the
-- positions of its window. Every other loop is by recursion on its list.
--
-- Parameters. The record `Host` has the configuration that a session reads and the code behind it that
-- is not modelled: cleaning of strings over Unicode tables, `netip.ParseAddr`, the sender of a From
-- header. Its fields `reject_ip` and `finish` are the rejection at MAIL and the end of a message,
-- which Policy fills: a path of `finishMessage` resets the message or ends the session, so what it
-- leaves is the connection and whether it is kept. The record `Policy` has the configuration of the
-- policies and what they call: the libraries for addresses, domains, sorting and floats (a score is
-- the bits of one), the retained headers of a message, the attachment scanner, the verifier of SPF,
-- DKIM and DMARC, the text and the parser of commands, and what the repositories answer. A run of a
-- worker is the number of progress ticks that it takes, whether it is interrupted, and its result. The
-- calls that change the repositories, and every response with whether it was sent, are the events of
-- an `Ending`.
--
-- Not modelled: the DNS lookup of a connection, deadlines and logs, failures of the database, the
-- archive of rejected mail, the costs of an analysis, the rendering of command replies, the listing
-- and the count of blocks, and the packages of the repository that the list above does not name.
pub mod Prelude
pub mod Wire
pub mod Resource
pub mod Zip
pub mod Reputation
pub mod Session
pub mod Policy
pub mod Thinking
pub mod Examples
