-- ===== src/Lib.antt =====
-- The client library of the jcode harness (package jcode): a program sends prompts to a session of
-- the harness over newline-delimited JSON and reads typed events until a turn ends.
--
-- Parts and files:
-- - Framing: protocol/framing.go. `write` is Encoder.Write, `read_frame` Decoder.ReadFrame with
--   `read_loop` its loop; a reader is the bytes still to come and the error behind them.
-- - Json: the values that encoding/json hands to the program, with the decoding of members into
--   Go types. Protocol: protocol/protocol.go, over these values; `decode_server_frame` is
--   DecodeServerFrame, `marshal_frame` ClientFrame.MarshalJSON.
-- - Errors and Observation: error values with errors.Is, and what an observer is told.
-- - Session: session.go, of it `decode_typed_event` (decodeTypedEvent) with the structs that it
--   decodes into, the semantic classes, the sanitized identifiers of compatibility errors, and in
--   Session.Sending the check of send options and the request of a message. Session.Calls has
--   CreateSession, AttachSession and ForkSession, Session.Send and Session.Start Send and StartTurn.
-- - Client: client.go. `Client.State.Client` has the fields of Client; the maps pending and subs are
--   tables whose entries say whether the map still lists them. Client.Operations has one function
--   for each section that a mutex guards. Client.System lets the goroutines of a client interleave
--   by these sections; Client.Reader is readLoop, Client.Handshake the hello of NewClient,
--   Client.Calls the rest of a request and Notify, Client.Reconnect Reconnect and resume.
-- - Turn: turn.go. `Turn.State.Turn` has the fields of Turn; Turn.State and Turn.Dispatch have one
--   function for each section of its mutex, each round of the dispatcher and the two calls that announce
--   the end after the mutex was given back, Turn.System lets the
--   dispatcher, the lifecycle watcher, the starter, the cancel attempt and the reader interleave,
--   and Turn.Callers says what Accepted, Next, Wait and the wait of Cancel answer. Turn.Contract is
--   the machine of a promise that a turn implements.
-- - Runtime: launch.go and process_unix.go. Runtime.Shutdown has one function for each section of
--   shutdownMu, Runtime.Shutdown.System lets any number of callers of shutdown interleave by them;
--   Runtime.Process is terminateProcessGroup by what kill(2) and Wait answer, Runtime.Teardown
--   runShutdown. Runtime.Cleanup and Runtime.Removal are the removal of an instance's files over
--   paths as bytes (Runtime.Paths). Runtime.Settings has the options, arguments, environment and
--   redaction of a launch, Runtime.Launch LaunchInstance and Launch as the list of their actions,
--   Runtime.Credentials InheritCredentials, Runtime.Registry readDaemonPID and selectBinary.
-- - Connect: connect.go. Transport: the closes of transport/transport.go.
--
-- How the parts interact: the reader of the client frames the stream by Framing, decodes by Protocol,
-- and hands a reply to its request and an event to each subscription. The dispatcher of a turn takes
-- events from its subscription (an argument of `receive`), decodes them by Session and ends the turn
-- once. A lost connection, an overflow or a close reaches a turn as the error of its subscription.
-- Send and StartTurn subscribe before they notify. Launch hands its instance to the client, which
-- shuts it down when it is closed.
--
-- Concurrency: a step is one section under a mutex, one operation on a channel, or the call of the
-- observer or of Close that ends a turn's announcement. A round of a turn's dispatcher is one step,
-- and the observations other than turn_terminal belong to the step before them. A channel is its
-- content with a Signal: open, closed, or panicked after a second close or a send on a closed one.
-- The close and the disconnect of a client are also stated as calls with no other step in between.
-- Reconnect is a function of what its attempts meet; a request whose write fails under reconnectMu
-- does not return, and neither does Reconnect then.
--
-- Bounds and fuel: numbers of requests and subscriptions wrap at 2 ^ 64, and the steps that take a
-- new number assume that this does not happen. The loop of ReadFrame has fuel 1: its first round
-- always returns. The loop of readLoop has fuel for its rounds, and one more than the bytes of the
-- stream is enough. The loops of the removal have fuel for their attempts; each sleeps at least one
-- nanosecond or ends, so two more than the nanoseconds of the timeout are enough. A limit or an
-- option of 0 stands for every value that is not positive; durations of launch.go are integers.
--
-- Parameters: json.Unmarshal enters as a test on bytes in Framing and as a partial function from
-- bytes to values in Client.Reader, time.Parse in Session.Sending. The request of Session.Calls is an
-- argument, as are what a write, a select, an attempt to reconnect, a system call of Runtime.Process
-- and a step of a launch answer. The test of launch.go for an error that it has already is an
-- argument of Runtime.Shutdown. The operating system is a record of functions in Runtime.Cleanup;
-- that its clock does not go back is a hypothesis where a loop is to end. Paths of filepath are
-- computed, and the text of most error messages is shortened.
--
-- Not modelled: the list that Capabilities sorts in client.go; in launch.go ShutdownInstance for an
-- instance that is not the SDK's own, and how stderr and the socket are read; the reads and writes of transport/, which wraps pipes and sockets;
-- process_windows.go; the examples, which are command-line programs.
mod Common
pub mod Errors
pub mod Framing
pub mod Json
pub mod Observation
pub mod Session
pub mod Turn
pub mod Client
pub mod Protocol
pub mod Runtime
pub mod Connect
pub mod Transport
