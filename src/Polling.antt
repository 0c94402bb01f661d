-- ===== src/Polling.antt =====
-- handler.go: PollHandler and DeleteHandler. The handlers that PollHandler hands a request over to are
-- in Stream, Upload, Legs and Batch; `run` is what the one at hand and everybody else do to the session
-- meanwhile. A body is what http.MaxBytesReader and io.ReadAll made of it.
pub mod Directions
mod Runs
use Prim.Native.String.{String}
use pollmux.Base.{
  ℕ, Bool, true, false, not, ◌&&◌, ◌||◌, List, [], ◌∷◌, Option, none, some, if◌then◌else◌,
}
use pollmux.Pipe.{Wake, ReadResult, got, failed, blocked, eof, pipe_interrupted, read_available}
use pollmux.Session.{
  Session, PollMode, batch, stream, is_set, begin_poll, end_poll, touch, write_upstream,
}
use pollmux.Store.{SessionStore, update, get, close_session}
use pollmux.Stream.{settle}

-- The three headers that say what a poll is for, as whether they are "true".
pub record PollHeaders : Type 0 where
  pub send_stream : Bool
  pub send_only : Bool
  pub receive_only : Bool

-- pollSendStream, pollStream, pollBatchResumable with its `send`, a 400, or the handler itself.
pub data Route : Type 0 where
  uploads streams misdirected plain : Route
  batches : Bool → Route

unfoldable pub is_stream : PollMode → Bool
is_stream batch = false
is_stream stream = true

unfoldable pub resumable_route : Session → Bool → Bool → Route
unfolding is_stream
resumable_route s send receive =
    if s.websocket || ((send && receive) || (not send && not receive))
    then misdirected
    else if receive && is_stream s.poll_mode
    then streams
    else if s.batch_resume && (not send || not s.upload_stream)
    then batches send
    else misdirected

unfoldable pub route : Session → PollHeaders → Route
unfolding resumable_route
route s h =
    if h.send_stream
    then (if is_set s.rs && (s.websocket || not s.upload_stream) then misdirected else uploads)
    else if is_set s.rs
    then resumable_route s h.send_only h.receive_only
    else plain

pub data PollBody : Type 0 where
  whole_body : List ℕ → PollBody
  body_too_large body_unreadable : PollBody

-- How PollHandler answers: 404, 410, 400, 413, 400, 200 without and with bytes, 410, 204, or through
-- the handler of a route. `poll_waits` is a poll that waits on.
pub data PollReply : Type 0 where
  no_session poll_refused bad_direction too_large unreadable taken : PollReply
  downstream : List ℕ → PollReply
  session_over nothing_new poll_waits : PollReply
  handed_over : Route → PollReply

-- One request. `wakes` is what others do to the pipe while the poll waits.
pub record PollRequest : Type 0 where
  pub headers : PollHeaders
  pub body : PollBody
  pub wakes : List Wake
  pub run : Session → Session
  pub now : ℕ
  pub later : ℕ

unfoldable pub poll_reply : ReadResult → PollReply
poll_reply (got []) = nothing_new
poll_reply (got (b ∷ bytes)) = downstream (b ∷ bytes)
poll_reply (failed eof) = session_over
poll_reply (failed pipe_interrupted) = nothing_new
poll_reply blocked = poll_waits

-- The upstream half of a plain poll; an error is only logged.
unfoldable pub take_body : Session → List ℕ → Session
take_body s [] = s
take_body s (b ∷ bytes) = (write_upstream s (b ∷ bytes)).0

-- The downstream half.
unfoldable pub answer_plain : ℕ → PollRequest → Session → Session × PollReply
unfolding is_stream poll_reply settle
answer_plain dst q s =
    let (p, result, ws) = read_available s.to_client dst q.wakes in
    let polled : Session = record s { to_client = settle p ws } in
    if q.headers.send_only
    then (s, taken)
    else if is_stream s.poll_mode
    then (q.run s, handed_over streams)
    else (polled, poll_reply result)

unfoldable pub put_session : SessionStore → ℕ → Session × PollReply → SessionStore × PollReply
unfolding update
put_session st p (s, reply) = (record st { heap = update st.heap p s }, reply)

unfoldable pub plain_poll : ℕ → SessionStore → ℕ → PollRequest → PollBody → SessionStore × PollReply
unfolding take_body answer_plain put_session
plain_poll dst st p q (whole_body bytes) =
    put_session st p (answer_plain dst q (take_body (st.heap p) bytes))
plain_poll dst st p q body_too_large = ((close_session st p q.now).0, too_large)
plain_poll dst st p q body_unreadable = (st, unreadable)

unfoldable pub routed : ℕ → SessionStore → ℕ → PollRequest → Route → SessionStore × PollReply
unfolding plain_poll put_session
routed dst st p q plain = plain_poll dst st p q q.body
routed dst st p q misdirected = (st, bad_direction)
routed dst st p q uploads = put_session st p (q.run (st.heap p), handed_over uploads)
routed dst st p q streams = put_session st p (q.run (st.heap p), handed_over streams)
routed dst st p q (batches send) = put_session st p (q.run (st.heap p), handed_over (batches send))

unfoldable pub poll_left : ℕ → ℕ → SessionStore × PollReply → SessionStore × PollReply
unfolding update
poll_left p later (st, reply) =
    (record st { heap = update st.heap p (end_poll (st.heap p) later) }, reply)

unfoldable pub poll_begun :
    ℕ → SessionStore → ℕ → PollRequest → Session × Bool → SessionStore × PollReply
unfolding routed poll_left
poll_begun dst st p q (s, false) = (st, poll_refused)
poll_begun dst st p q (s, true) =
    let attached : SessionStore = record st { heap = update st.heap p (touch s q.now) } in
    poll_left p q.later (routed dst attached p q (route (attached.heap p) q.headers))

unfoldable pub poll_found : ℕ → SessionStore → PollRequest → Option ℕ → SessionStore × PollReply
unfolding poll_begun
poll_found dst st q none = (st, no_session)
poll_found dst st q (some p) = poll_begun dst st p q (begin_poll (st.heap p) q.now)

-- PollHandler; `dst` is the size of its buffer.
unfoldable pub serve_poll : ℕ → SessionStore → String → PollRequest → SessionStore × PollReply
unfolding poll_found get
serve_poll dst st id q = poll_found dst st q (get st id)

deleted : SessionStore → ℕ → Option ℕ → SessionStore × ℕ
deleted st now none = (st, 404)
deleted st now (some p) = ((close_session st p now).0, 200)

-- DeleteHandler.
unfoldable pub serve_delete : SessionStore → String → ℕ → SessionStore × ℕ
unfolding deleted get
serve_delete st id now = deleted st now (get st id)
