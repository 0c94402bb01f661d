-- ===== src/Lib.antt =====
-- pollmux: a virtual connection over HTTP requests, for a yamux session to run on. A client and a
-- server each hold two byte pipes; bytes travel in polls, streams or a WebSocket. A resumable session
-- puts a reliable layer between pipes and transport, which numbers the bytes and keeps those that are
-- not acknowledged, so that a new transport can go on where the last one broke.
--
-- The parts, and the files that model them:
--
--   Pipe       pipe.go: BufferedPipe. Read and ReadAvailable wait in loops; each wake-up is a list of
--              what others did to the pipe, a timer among it.
--   Frame      frame.go: writeFrame, writeSeqFrame, frameReader.next and the payload codecs.
--   Reliable   reliable.go: nextOut, recvIn, ack, resumeOut and the rest of the layer, on uint64.
--              Reliable/System is a link of two layers whose frames and acknowledgements the network
--              may lose, delay, repeat and reorder.
--   Attach     resume_server.go: which handler owns each direction, one function for each critical
--              section; Attach/Steps interleaves them.
--   Session    session.go: attaching, detaching, grace and close; Session/Life interleaves the calls.
--   Store      store.go with closeSession and CloseSessionIfNoPollInFlight of handler.go: sessions on
--              a heap, and the map of their ids. sweep lets others work on the sessions between its
--              looks at them.
--   Resume     resume_server.go: ResumeHandler, which works on Store, Session, Attach and Reliable.
--   Batch      batch.go: a numbered batch at the server and at the client.
--   Config     handler.go, resume_server.go and protocol.go: defaults, check, limits, negotiation.
--   Connect    handler.go: ConnectHandler, which makes the session and adds it to the store.
--   Polling    handler.go: PollHandler and DeleteHandler, on Store and Session.
--   Stream     handler.go and client.go: pollStream and feedSendStream, which write a body of frames in
--              one and the same loop, and doStreamPoll, which reads one. Frame/Loop is the loop around
--              frameReader.next that all readers share; Stream/Channel joins the two.
--   Upload     handler.go and client.go: pollSendStream, and the end of doSendStream.
--   Client     client.go and session_guard.go: httpConn, with Write, flushLoop, pollLoop,
--              pollLoopStream, sendLoopStream, Close and its two ways to fail.
--   Accept     accept.go: AcceptLoop, with the cases that its select took as a script.
--   Resuming   resumable_client.go: resume and doResume, with the server's answers as a script.
--   Legs       handler.go and resumable_client.go: pollStreamResumable and the resumable feedSendStream
--              and doStreamPoll, on a reliable layer with its two pipes.
--   WebSocket  websocket.go and the WebSocket loops of resumable_client.go: the codec, the pumps, the
--              handler. A connection is the messages that it delivers, and a function that sends.
--   Reconnect  reconnect.go: ReconnectLoop.Run with its two callbacks as a script of rounds.
--   Supervise  resumable_client.go: supervise and its guard, with each set of legs as a round of a
--              script.
--   Base       what they share: tests, lists, words, signed integers, bytes.
--
-- In each, an operation has the name of its Go function in snake case, and a record that of its
-- struct. A goroutine's wait is an argument: the list of what happens meanwhile. Where that list is
-- too short the result says so (`blocked`, `waits`, `waiting`, `parked`, an `exit` of none), and a
-- theorem says what is enough. Slices out of bounds are `none`. Times are counts of one clock. Loops on
-- a count: the readers of a body, with one frame for each byte and one for its end, and the replay
-- rounds of Reliable/Replay, one for each byte; theorems say that these are enough.
--
-- Not modelled: JSON, logging and the HTTP machinery itself; the making of a connection (Connector of
-- client.go, connectResumable, connectWebSocket), the upload probe and wsConn.Close; the loops that
-- start one leg after the other. Of yamux.go only the window size is used. io.ReadFull, io.Writer and
-- strconv.ParseUint are taken as documented.
pub mod Base
pub mod Pipe
pub mod Polling
pub mod Frame
pub mod Reliable
pub mod Attach
pub mod Session
pub mod Store
pub mod Config
pub mod Connect
pub mod Resume
pub mod Batch
pub mod Reconnect
pub mod Supervise
pub mod Stream
pub mod Upload
pub mod Client
pub mod Legs
pub mod WebSocket
pub mod Accept
pub mod Resuming
