-- ===== src/Lib.antt =====
-- raydriver: a verification of the device-control core of the repository, in Rust.
--
-- The program talks to laser controllers over a byte transport. A session writes commands and reads
-- what the device answers; for GRBL a flow control counts the bytes that the device's RX buffer may
-- still hold, pulls acknowledgements out of the byte stream and keeps senders waiting until there is
-- room. Lines and status reports go to parsers that need no state.
--
-- Text         what is used of Rust's strings: UTF-8, trim, lines, prefixes, numbers, maps from
--              texts; the regex crate as a record of functions over the patterns of the source
-- Flow         src/grbl/flow.rs, whole: FlowControl, PendingCommand, parse_incoming, the two waits
-- Device       src/core/types.rs: DeviceStatus, DeviceError, DeviceState, TransportStatus
-- Grbl.Errors  src/grbl/errors.rs, whole, with both tables
-- Grbl.Parser  src/grbl/parser.rs, whole
-- Dialect      src/core/dialect.rs, whole: templates and their formatting
-- Session      src/core/session.rs: SessionError and the notifications of SessionEvents
-- Grbl.Session src/grbl/session.rs: SessionCore, the receive handlers from handle_rx down
--              (Grbl.Session.Receive), start_job, set_hold and sending (Grbl.Session.Job), stalls and
--              their recovery (Grbl.Session.Stall), the loop over a job's lines (Grbl.Session.Stream),
--              cancel and the safety shutdown (Grbl.Session.Cancel), the end of a
--              job (Grbl.Session.Finish), the wait for its last acknowledgements
--              (Grbl.Session.Drain), execute_interactive_command and the operations that read
--              by it (Grbl.Session.Interactive)
-- Grbl.Readings  what the operations of src/grbl make of the lines of an answer
-- Grbl.Simple  src/grbl/simple.rs: the minimal session. Receive has handle_rx and the handlers,
--              Exchange ping_pong, Run the jobs, Cancel the cancellation and feed hold, Operations
--              the commands of a device, Connection the loops of a connection
-- Marlin       Marlin.Parser is src/marlin/parser.rs, Marlin.Session src/marlin/session.rs, with the
--              same parts; its commands in flight wait in a queue
-- Smoothie     src/smoothie/session.rs, with the same parts
--
-- State is a record; an operation returns the new one. The mutex of FlowControl is held for the
-- whole of each operation, so an interleaving is a sequence of operations (Flow.Account.Window).
-- A `Notify` is the number of wake-ups delivered on it. The async waits read their environment from
-- a schedule: the clock and the states that a round reads, and when it is notified (Flow.Wait).
--
-- The tasks of a session share SessionCore. A handler has no await in it, so it is one function on
-- the state; where a write suspends a task, what the others do meanwhile is a parameter. The
-- notifications that a session sends are a list in the state, in the order of the calls. Streaming is a
-- step relation: the streaming task's steps, between which reads and all other tasks run. Of the
-- queue behind execute_command and of connecting there is no model.
--
-- In the ping-pong sessions a `PendingCmd` is shared between the reader and the task that waits: the
-- state has a list of all that were made, and an `Arc` is an index into it (Base.Store). The record
-- World has the transport and all other tasks: what they do may depend on the whole state, of which
-- the log of notifications and the list of payloads handed to the transport are parts. The lock on
-- commands lets one exchange run at a time, so an exchange is modelled from where it was granted.
-- Of the durations there is only whether a time-out came first. The loops of a connection end by the
-- clock or by the device, so they take the list of their passes.
--
-- `usize` sums wrap at 2 ^ 64; the successor of an operation's `i64` index and the `i64` of a buffer's
-- size, which is parsed below 2 ^ 63, do not wrap. Texts are lists of code points and bytes are numbers. `f64` is the
-- record Device.F64, of which no law is assumed. Of the regex crate the pattern `ok\r*\n` is assumed
-- to match at least one byte, inside the haystack, with a newline at the end
-- (Flow.Incoming.OkAck.IsOkAckFind); all other patterns are left open. The letters and cases of
-- characters beyond ASCII are the record Text.Unicode.Unicode. Logging is left out.
--
-- format_template runs on fuel, one more than the template has characters; each round takes a brace
-- out of it (Dialect.Template.Pieces).
-- The loops of parse_incoming run on fuel: the number of bytes in the buffer. Each round takes bytes
-- out, so that is enough (Flow.Incoming.Framing, for each of the loops). The same holds of drain_lines, by which the
-- ping-pong sessions split their buffer.
pub mod Base
pub mod Text
pub mod Flow
pub mod Device
pub mod Grbl
pub mod Dialect
pub mod Marlin
pub mod Session
pub mod Smoothie
