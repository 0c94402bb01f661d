-- ===== src/Client/Ending.antt =====
-- client.go and session_guard.go: why the loops of a connection return, and what they leave to its
-- users.
use pollmux.Base.{
  ℕ, ◌≡◌, refl, ◌∙◌, Bool, true, false, ◌⊎◌, List, [], ◌∷◌, Option, none, some, if◌then◌else◌,
  length, take, ◌==◌, arith,
}
use Prim.Native.String.{String}
use pollmux.Pipe.{BufferedPipe, WriteResult, Warning, wrote, closed_pipe, write, close}
use pollmux.Pipe.Content.{closed-write}
use pollmux.Frame.Loop.{EndKeeps}
use pollmux.Stream.{
  Response, no_response, response, PollEnd, stream_end, session_gone, read_pipe_closed,
  request_failed, fatal, unknown_type, broken_stream, stream_error, take_stream_frame,
  do_stream_poll,
}
use pollmux.Stream.Closing.{do_stream_poll-Stays}
use pollmux.Client

-- Whoever reads from a connection that failed or was replaced is told so.
abbrev pub IsSound : Client.HttpConn → Type 0
IsSound c = (c.transport_failed ≡ true) ⊎ (c.session_superseded ≡ true) → c.read_pipe.closed ≡ true

-- The connection is being closed, was replaced, or has signalled its failure.
abbrev pub IsOver : Client.HttpConn → Type 0
IsOver c = (c.closed ≡ true) ⊎ ((c.cancelled ≡ true) ⊎ (c.transport_failed ≡ true))

abbrev pub Explained : Client.HttpConn × Bool → Type 0
Explained (c, done) = IsSound c × (done ≡ true → IsOver c)

fail-Sound : (c : Client.HttpConn) → IsSound c → IsSound (Client.fail c) × IsOver (Client.fail c)
unfolding Client.fail close
fail-Sound c v = ground arith

give_way-Sound : (c : Client.HttpConn) → IsSound (Client.give_way c) × IsOver (Client.give_way c)
unfolding Client.give_way Client.supersede close
give_way-Sound c = ground arith

on_session_closed-Sound :
    (owner : Option String) (c : Client.HttpConn)
    → IsSound c
    → IsSound (Client.on_session_closed owner c) × IsOver (Client.on_session_closed owner c)
unfolding Client.on_session_closed
on_session_closed-Sound owner c v = ground (arith, fail-Sound c v, give_way-Sound c)

on_transport_problem-Sound :
    (owner : Option String) (c : Client.HttpConn) (e : PollEnd)
    → IsSound c
    → IsSound (Client.on_transport_problem owner c e)
      × IsOver (Client.on_transport_problem owner c e)
unfolding Client.on_transport_problem
on_transport_problem-Sound owner c e v =
    ground (arith, on_session_closed-Sound owner c v, fail-Sound c v, give_way-Sound c)

write_conn-Sound :
    (c : Client.HttpConn) (bytes : List ℕ) → IsSound c → IsSound (Client.write_conn c bytes).0
unfolding Client.write_conn
write_conn-Sound c bytes v = queued c.write_pipe
  where
    queued :
        (p : Option BufferedPipe)
        → IsSound
            (if c.closed
              then (c, closed_pipe, false)
              else if length bytes == 0
              then (c, wrote 0, false)
              else Client.queue_bytes c bytes p).0
    queued none = unfold Client.queue_bytes in ground arith
    queued (some p) = unfold Client.queue_bytes Client.piped in ground arith

apply_acts-Sound :
    (c : Client.HttpConn) (acts : List Client.Act) → IsSound c → IsSound (Client.apply_acts c acts)
unfolding Client.apply_acts Client.apply_act
apply_acts-Sound c [] v = v
apply_acts-Sound c (Client.writes bytes ∷ acts) v =
    apply_acts-Sound (Client.write_conn c bytes).0 acts (write_conn-Sound c bytes v)
apply_acts-Sound c (Client.closes ∷ acts) v =
    apply_acts-Sound (Client.begin_close c) acts (closing c v)
  where
    closing : (c : Client.HttpConn) → IsSound c → IsSound (Client.begin_close c)
    closing c v = unfold Client.begin_close in ground arith

after_error-Explained :
    (owner : Option String) (c : Client.HttpConn) (e : PollEnd)
    → IsSound c
    → Explained (Client.after_error owner c e)
unfolding Client.after_error
after_error-Explained owner c e v =
    ground (arith, on_session_closed-Sound owner c v, on_transport_problem-Sound owner c e v)

polled-Sound :
    (c : Client.HttpConn) (bytes : List ℕ) → IsSound c → IsSound (Client.poll_body c bytes).0
unfolding Client.poll_body
polled-Sound c [] v = v
polled-Sound c (b ∷ bytes) v =
    into (write c.read_pipe (b ∷ bytes)) (closed-write c.read_pipe (b ∷ bytes))
  where
    into :
        (x : BufferedPipe × WriteResult × Option Warning)
        → x.0.closed ≡ c.read_pipe.closed
        → IsSound (Client.polled_into c x).0
    into (p, wrote n, w) e = unfold Client.polled_into in λ h. e ∙ v h
    into (p, closed_pipe, w) e = unfold Client.polled_into in λ h. e ∙ v h

do_poll-Sound :
    (read_cap : ℕ) (c : Client.HttpConn) (r : Response)
    → IsSound c
    → IsSound (Client.do_poll read_cap c r).0
unfolding Client.do_poll
do_poll-Sound read_cap c no_response v = v
do_poll-Sound read_cap c (response status body) v =
    ground (arith, polled-Sound c (take read_cap body.bytes) v)

after_poll-Explained :
    (k : Client.HttpConn → Client.HttpConn × Bool) (pauses : Bool) (r : Client.Round)
    (x : Client.HttpConn × Bool × Option PollEnd)
    → ((c : Client.HttpConn) → IsSound c → Explained (k c))
    → IsSound x.0
    → Explained (Client.after_poll k pauses r x)
unfolding Client.after_poll
after_poll-Explained k pauses r (c, got, some e) h v = after_error-Explained r.owner c e v
after_poll-Explained k pauses r (c, got, none) h v = ground (
  arith,
  h c v,
  h (Client.apply_acts c r.pause) (apply_acts-Sound c r.pause v),
  apply_acts-Sound c r.pause v,
)

poll_loop-Explained :
    (read_cap : ℕ) (pauses : Bool) (c : Client.HttpConn) (rs : List Client.Round)
    → IsSound c
    → Explained (Client.poll_loop read_cap pauses c rs)
unfolding Client.poll_loop
poll_loop-Explained read_cap pauses c [] v = (v, λ e. cc e)
poll_loop-Explained read_cap pauses c (r ∷ rs) v =
    let now = Client.apply_acts c r.acts in
    let x = Client.do_poll read_cap now r.answer in
    ground (
      arith,
      after_poll-Explained (λ c'. Client.poll_loop read_cap pauses c' rs) pauses r x
          (λ c'. poll_loop-Explained read_cap pauses c' rs)
          (do_poll-Sound read_cap now r.answer (apply_acts-Sound c r.acts v)),
    )

after_stream-Explained :
    (k : Client.HttpConn → Client.HttpConn × Bool) (r : Client.Round) (c : Client.HttpConn)
    (x : Option (BufferedPipe × PollEnd))
    → ((c : Client.HttpConn) → IsSound c → Explained (k c))
    → IsSound c
    → EndKeeps take_stream_frame stream_error (λ q. q.closed ≡ c.read_pipe.closed) x
    → Explained (Client.after_stream k r c x)
unfolding Client.after_stream
after_stream-Explained k r c none h v e = (v, λ z. cc z)
after_stream-Explained k r c (some (p, stream_end)) h v e = h _ (λ z. e ∙ v z)
after_stream-Explained k r c (some (p, session_gone)) h v e =
    after_error-Explained r.owner (record c { read_pipe = p }) session_gone (λ z. e ∙ v z)
after_stream-Explained k r c (some (p, read_pipe_closed)) h v e =
    after_error-Explained r.owner (record c { read_pipe = p }) read_pipe_closed (λ z. e ∙ v z)
after_stream-Explained k r c (some (p, request_failed)) h v e =
    after_error-Explained r.owner (record c { read_pipe = p }) request_failed (λ z. e ∙ v z)
after_stream-Explained k r c (some (p, fatal n)) h v e =
    after_error-Explained r.owner (record c { read_pipe = p }) (fatal n) (λ z. e ∙ v z)
after_stream-Explained k r c (some (p, unknown_type n)) h v e =
    after_error-Explained r.owner (record c { read_pipe = p }) (unknown_type n) (λ z. e ∙ v z)
after_stream-Explained k r c (some (p, broken_stream f)) h v e =
    after_error-Explained r.owner (record c { read_pipe = p }) (broken_stream f) (λ z. e ∙ v z)

poll_loop_stream-Explained :
    (max_frame : ℕ) (c : Client.HttpConn) (rs : List Client.Round)
    → IsSound c
    → Explained (Client.poll_loop_stream max_frame c rs)
unfolding Client.poll_loop_stream
poll_loop_stream-Explained max_frame c [] v = (v, λ e. cc e)
poll_loop_stream-Explained max_frame c (r ∷ rs) v =
    let now = Client.apply_acts c r.acts in
    ground (
      arith,
      after_stream-Explained (λ c'. Client.poll_loop_stream max_frame c' rs) r now
          (do_stream_poll max_frame now.read_pipe r.answer)
          (λ c'. poll_loop_stream-Explained max_frame c' rs) (apply_acts-Sound c r.acts v)
          (do_stream_poll-Stays now.read_pipe.closed max_frame now.read_pipe r.answer refl),
    )

after_send_stream-Explained :
    (k : Client.HttpConn → Client.HttpConn × Bool) (r : Client.SendRound) (c : Client.HttpConn)
    (e : Option PollEnd)
    → ((c : Client.HttpConn) → IsSound c → Explained (k c))
    → IsSound c
    → Explained (Client.after_send_stream k r c e)
unfolding Client.after_send_stream
after_send_stream-Explained k r c none h v = h c v
after_send_stream-Explained k r c (some e) h v =
    ground (arith, on_transport_problem-Sound r.owner c e v)

send_loop_stream-Explained :
    (c : Client.HttpConn) (rs : List Client.SendRound)
    → IsSound c
    → Explained (Client.send_loop_stream c rs)
unfolding Client.send_loop_stream
send_loop_stream-Explained c [] v = (v, λ e. cc e)
send_loop_stream-Explained c (r ∷ rs) v =
    let now = Client.apply_acts c r.acts in
    ground (
      arith,
      after_send_stream-Explained (λ c'. Client.send_loop_stream c' rs) r now
          (Client.stream_send_error r.sent) (λ c'. send_loop_stream-Explained c' rs)
          (apply_acts-Sound c r.acts v),
    )

-- No loop of a connection dies in silence. Whatever the server answers and others do: when pollLoop,
-- pollLoopStream or sendLoopStream has returned, the connection was closed or its context cancelled,
-- or TransportFailed has been signalled; and all along, once the connection has failed or was
-- superseded, its read pipe is closed.
pub loops-Explained :
    (max_frame : ℕ) (pauses : Bool) (c : Client.HttpConn) (rs : List Client.Round)
    (ss : List Client.SendRound)
    → IsSound c
    → Explained (Client.poll_loop max_frame pauses c rs)
      × Explained (Client.poll_loop_stream max_frame c rs)
      × Explained (Client.send_loop_stream c ss)
loops-Explained max_frame pauses c rs ss v = (
  poll_loop-Explained max_frame pauses c rs v,
  poll_loop_stream-Explained max_frame c rs v,
  send_loop_stream-Explained c ss v,
)
