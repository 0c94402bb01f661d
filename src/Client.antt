-- ===== src/Client.antt =====
-- client.go and session_guard.go: httpConn, the client's end of a connection that is not resumable.
-- Its loops run on scripts: each round says how the server answered a request and what others did
-- meanwhile. The error of a request is a PollEnd; a status is a number.
pub mod Flush
pub mod Ending
mod Runs
use Prim.Native.String.{String}
use text.Mathlib.Text.{◌==◌ as str_eq}
use pollmux.Base.{
  ℕ, Bool, true, false, not, ◌&&◌, ◌||◌, List, [], ◌∷◌, ◌++◌, Option, none, some, length, ltb, ◌==◌,
  if◌then◌else◌, take, drop, min,
}
use pollmux.Pipe.{BufferedPipe, WriteResult, Warning, wrote, closed_pipe, write, close}
use pollmux.Frame.{Source, unexpected_eof, network}
use pollmux.Stream.{
  Response, no_response, response, PollEnd, stream_end, session_gone, read_pipe_closed,
  request_failed, fatal, unknown_type, broken_stream, do_stream_poll,
}
use pollmux.Upload.{SendEnd, rolled_over, send_failed, feed_failed, send_refused}

-- `write_pipe` is there in upload stream mode only. `cancelled` is whether ctx is done, and
-- `transport_failed` and `session_superseded` whether those channels are closed.
pub record HttpConn : Type 0 where
  pub session_id : String
  pub read_pipe : BufferedPipe
  pub write_pipe : Option BufferedPipe
  pub write_buf : List ℕ
  pub write_flight_on : Bool
  pub transport_failed : Bool
  pub session_superseded : Bool
  pub closed : Bool
  pub cancelled : Bool

unfoldable pub is_session_closed_err : PollEnd → Bool
is_session_closed_err session_gone = true
is_session_closed_err (fatal status) = status == 410 || status == 404
is_session_closed_err stream_end = false
is_session_closed_err read_pipe_closed = false
is_session_closed_err request_failed = false
is_session_closed_err (unknown_type t) = false
is_session_closed_err (broken_stream e) = false

unfoldable pub supersede : HttpConn → HttpConn
supersede c = record c { session_superseded = true; cancelled = true }

-- Whether the connector `owner`, given by its active session, has gone on to another session.
unfoldable pub is_replaced : Option String → HttpConn → Bool
is_replaced none c = false
is_replaced (some active) c = not (str_eq active c.session_id)

close_option : Option BufferedPipe → Option BufferedPipe
close_option none = none
close_option (some p) = some (close p)

-- supersededByNewerConnect where it says true, and what its callers do then.
unfoldable pub give_way : HttpConn → HttpConn
unfolding supersede close_option
give_way c = record (supersede c) {
  read_pipe = close c.read_pipe;
  write_pipe = close_option c.write_pipe;
}

unfoldable pub fail : HttpConn → HttpConn
fail c =
    if c.transport_failed
    then c
    else record c { transport_failed = true; read_pipe = close c.read_pipe }

unfoldable pub on_session_closed : Option String → HttpConn → HttpConn
unfolding give_way fail is_replaced
on_session_closed owner c = if is_replaced owner c then give_way c else fail c

unfoldable pub on_transport_problem : Option String → HttpConn → PollEnd → HttpConn
unfolding on_session_closed is_session_closed_err
on_transport_problem owner c e =
    if is_session_closed_err e
    then on_session_closed owner c
    else if is_replaced owner c
    then give_way c
    else fail c

piped : HttpConn → BufferedPipe × WriteResult × Option Warning → HttpConn × WriteResult × Bool
piped c (p, result, warning) = (record c { write_pipe = some p }, result, false)

-- Write in upload stream mode and without; `true` where it starts flushLoop.
queue_bytes : HttpConn → List ℕ → Option BufferedPipe → HttpConn × WriteResult × Bool
unfolding piped
queue_bytes c bytes (some p) = piped c (write p bytes)
queue_bytes c bytes none =
    let queued : HttpConn = record c { write_buf = c.write_buf ++ bytes; write_flight_on = true } in
    (queued, wrote (length bytes), not c.write_flight_on)

unfoldable pub write_conn : HttpConn → List ℕ → HttpConn × WriteResult × Bool
unfolding queue_bytes
write_conn c bytes =
    if c.closed
    then (c, closed_pipe, false)
    else if length bytes == 0
    then (c, wrote 0, false)
    else queue_bytes c bytes c.write_pipe

-- Close up to the wait for the loops; its other half closes the read pipe when they are gone.
unfoldable pub begin_close : HttpConn → HttpConn
unfolding close_option
begin_close c =
    if c.closed
    then c
    else record c { closed = true; cancelled = true; write_pipe = close_option c.write_pipe }

unfoldable pub finish_close : HttpConn → HttpConn
finish_close c = record c { read_pipe = close c.read_pipe }

-- What others do to the connection while a loop waits for a request.
pub data Act : Type 0 where
  writes : List ℕ → Act
  closes : Act

unfoldable pub apply_act : HttpConn → Act → HttpConn
unfolding write_conn begin_close
apply_act c (writes bytes) = (write_conn c bytes).0
apply_act c closes = begin_close c

unfoldable pub apply_acts : HttpConn → List Act → HttpConn
unfolding apply_act
apply_acts c [] = c
apply_acts c (a ∷ acts) = apply_acts (apply_act c a) acts

-- A poll's body, up to `read_cap` bytes, into the read pipe.
polled_into :
    HttpConn → BufferedPipe × WriteResult × Option Warning → HttpConn × Bool × Option PollEnd
polled_into c (p, wrote n, warning) = (record c { read_pipe = p }, true, none)
polled_into c (p, closed_pipe, warning) = (record c { read_pipe = p }, false, some read_pipe_closed)

poll_body : HttpConn → List ℕ → HttpConn × Bool × Option PollEnd
unfolding polled_into
poll_body c [] = (c, false, none)
poll_body c (b ∷ bytes) = polled_into c (write c.read_pipe (b ∷ bytes))

-- doPoll, from the response on: whether data came back, and the error. `reading_failed` stands for
-- the error that reading the body met.
abbrev reading_failed : PollEnd
reading_failed = broken_stream network

unfoldable pub do_poll : ℕ → HttpConn → Response → HttpConn × Bool × Option PollEnd
unfolding poll_body
do_poll read_cap c no_response = (c, false, some request_failed)
do_poll read_cap c (response status body) =
    let bytes = take read_cap body.bytes in
    if status == 200
    then if body.broken && ltb (length body.bytes) read_cap
      then (c, false, some reading_failed)
      else poll_body c bytes
    else if status == 204
    then (c, false, none)
    else (c, false, some (fatal status))

-- A round of a loop: what others do during the request, the answer, the owner's session by then, and
-- what others do in the pause behind an idle answer.
pub record Round : Type 0 where
  pub acts : List Act
  pub answer : Response
  pub owner : Option String
  pub pause : List Act

-- `true` where the loop has returned.
after_error : Option String → HttpConn → PollEnd → HttpConn × Bool
unfolding is_session_closed_err on_session_closed on_transport_problem
after_error owner c e =
    if c.cancelled || c.closed
    then (c, true)
    else if is_session_closed_err e
    then (on_session_closed owner c, true)
    else (on_transport_problem owner c e, true)

after_poll :
    (HttpConn → HttpConn × Bool) → Bool → Round → HttpConn × Bool × Option PollEnd → HttpConn × Bool
unfolding after_error
after_poll k pauses r (c, got, some e) = after_error r.owner c e
after_poll k pauses r (c, got, none) =
    let paused = apply_acts c r.pause in
    let more = k paused in
    let again = k c in
    if not got && pauses then if paused.cancelled then (paused, true) else more else again

-- pollLoop; `pauses` is whether PollInterval is positive.
unfoldable pub poll_loop : ℕ → Bool → HttpConn → List Round → HttpConn × Bool
unfolding after_poll do_poll apply_acts
poll_loop read_cap pauses c [] = (c, false)
poll_loop read_cap pauses c (r ∷ rs) =
    let more =
      after_poll (λ c'. poll_loop read_cap pauses c' rs) pauses r
        (do_poll read_cap (apply_acts c r.acts) r.answer) in
    if c.cancelled then (c, true) else more

after_stream :
    (HttpConn → HttpConn × Bool)
    → Round
    → HttpConn
    → Option (BufferedPipe × PollEnd)
    → HttpConn × Bool
unfolding after_error
after_stream k r c none = (c, false)
after_stream k r c (some (p, stream_end)) = k (record c { read_pipe = p })
after_stream k r c (some (p, e)) = after_error r.owner (record c { read_pipe = p }) e

-- pollLoopStream.
unfoldable pub poll_loop_stream : ℕ → HttpConn → List Round → HttpConn × Bool
unfolding after_stream apply_acts
poll_loop_stream stream_max_frame c [] = (c, false)
poll_loop_stream stream_max_frame c (r ∷ rs) =
    let now = apply_acts c r.acts in
    let more =
      after_stream (λ c'. poll_loop_stream stream_max_frame c' rs) r now
        (do_stream_poll stream_max_frame now.read_pipe r.answer) in
    if c.cancelled then (c, true) else more

-- A round of sendLoopStream: how doSendStream ended.
pub record SendRound : Type 0 where
  pub acts : List Act
  pub sent : SendEnd
  pub owner : Option String

stream_send_error : SendEnd → Option PollEnd
stream_send_error rolled_over = none
stream_send_error send_failed = some request_failed
stream_send_error feed_failed = some request_failed
stream_send_error (send_refused status) = some (fatal status)

after_send_stream :
    (HttpConn → HttpConn × Bool) → SendRound → HttpConn → Option PollEnd → HttpConn × Bool
after_send_stream k r c none = k c
after_send_stream k r c (some e) =
    if c.cancelled || c.closed then (c, true) else (on_transport_problem r.owner c e, true)

-- sendLoopStream.
unfoldable pub send_loop_stream : HttpConn → List SendRound → HttpConn × Bool
unfolding after_send_stream stream_send_error on_transport_problem apply_acts
send_loop_stream c [] = (c, false)
send_loop_stream c (r ∷ rs) =
    let more =
      after_send_stream (λ c'. send_loop_stream c' rs) r (apply_acts c r.acts)
        (stream_send_error r.sent) in
    if c.cancelled then (c, true) else more

unfoldable pub clear_flight : HttpConn → HttpConn
clear_flight c = record c { write_flight_on = false }

-- doSend, from the response on: its error, if any.
unfoldable pub do_send : Option ℕ → Option PollEnd
do_send none = some request_failed
do_send (some status) = if status == 200 || status == 204 then none else some (fatal status)

-- How flushLoop stands: done, failed with what it had not sent, or still at a request.
pub data FlushEnd : Type 0 where
  flushed : FlushEnd
  flush_failed flushing : List ℕ → FlushEnd

-- A request of flushLoop: what others do meanwhile, its status, and the owner's session by then.
pub record Send : Type 0 where
  pub acts : List Act
  pub status : Option ℕ
  pub owner : Option String

pub record Flushed : Type 0 where
  pub conn : HttpConn
  -- The bodies of the requests, in order, that the server took.
  pub chunks : List (List ℕ)
  pub ending : FlushEnd
  pub rest : List Send

add_chunk : List ℕ → Flushed → Flushed
add_chunk chunk f = record f { chunks = chunk ∷ f.chunks }

-- The buffer that the loop goes on with: the rest of its own, or what was written meanwhile.
refill : HttpConn → List ℕ → HttpConn × List ℕ
refill c [] = (record c { write_buf = [] }, c.write_buf)
refill c (b ∷ buf) = (c, b ∷ buf)

after_send :
    (HttpConn × List ℕ → Flushed)
    → List ℕ
    → List ℕ
    → Send
    → List Send
    → HttpConn
    → Option PollEnd
    → Flushed
unfolding refill add_chunk clear_flight on_transport_problem
after_send k chunk rest s ss c none = add_chunk chunk (k (refill c rest))
after_send k chunk rest s ss c (some e) = record {
  conn =
      clear_flight
        (if not c.cancelled && not c.closed then on_transport_problem s.owner c e else c);
  chunks = [];
  ending = flush_failed (chunk ++ rest);
  rest = ss;
}

-- flushLoop from its first look at the buffer on.
unfoldable pub send_buffer : ℕ → HttpConn × List ℕ → List Send → Flushed
unfolding after_send do_send apply_acts
send_buffer max_send_chunk (c, []) ss = record {
  conn = record c { write_flight_on = false };
  chunks = [];
  ending = flushed;
  rest = ss;
}
send_buffer max_send_chunk (c, b ∷ buf) [] = record {
  conn = c;
  chunks = [];
  ending = flushing (b ∷ buf);
  rest = [];
}
send_buffer max_send_chunk (c, b ∷ buf) (s ∷ ss) =
    let n = min (length (b ∷ buf)) max_send_chunk in
    after_send (λ next. send_buffer max_send_chunk next ss) (take n (b ∷ buf)) (drop n (b ∷ buf)) s
      ss (apply_acts c s.acts) (do_send s.status)

-- flushLoop; `window` is what others do in the coalesce window.
unfoldable pub flush_loop : ℕ → HttpConn → List Act → List Send → Flushed
unfolding send_buffer refill clear_flight apply_acts
flush_loop max_send_chunk c window ss =
    let now = apply_acts c window in
    let sent = send_buffer max_send_chunk (refill now []) ss in
    if now.cancelled
    then record { conn = clear_flight now; chunks = []; ending = flush_failed []; rest = ss }
    else sent
