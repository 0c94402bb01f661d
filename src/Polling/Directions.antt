-- ===== src/Polling/Directions.antt =====
-- handler.go: which requests PollHandler serves, and its hold on the session.
use pollmux.Base.{ℕ, ◌≡◌, true, false, incr, ℤ}
use Prim.Native.String.{String}
use pollmux.Session.{Session, stream, is_set, touch, refuses_attach}
use pollmux.Store.{SessionStore}
use pollmux.Polling.{
  Route, uploads, streams, misdirected, plain, batches, PollReply, no_session, poll_refused,
  bad_direction, too_large, unreadable, taken, downstream, session_over, nothing_new, poll_waits,
  handed_over,
}

-- What a route says of the session.
abbrev pub Routed : Session → Route → Type 0
Routed s uploads = is_set s.rs ≡ true → (s.websocket ≡ false) × (s.upload_stream ≡ true)
Routed s streams = (s.poll_mode ≡ stream) × (is_set s.rs ≡ true → s.websocket ≡ false)
Routed s (batches send) =
    (is_set s.rs ≡ true)
    × (s.batch_resume ≡ true)
    × (s.websocket ≡ false)
    × (send ≡ true → s.upload_stream ≡ false)
Routed s misdirected = is_set s.rs ≡ true
Routed s plain = is_set s.rs ≡ false

-- What an answer says of the session as the request found it.
abbrev pub Directed : Session → ℕ → PollReply → Type 0
Directed s now no_session = ⊥
Directed s now poll_refused = refuses_attach s now ≡ true
Directed s now bad_direction = Routed s misdirected
Directed s now too_large = Routed s plain
Directed s now unreadable = Routed s plain
Directed s now taken = Routed s plain
Directed s now (downstream bytes) = Routed s plain
Directed s now session_over = Routed s plain
Directed s now nothing_new = Routed s plain
Directed s now poll_waits = Routed s plain
Directed s now (handed_over misdirected) = ⊥
Directed s now (handed_over plain) = ⊥
Directed s now (handed_over uploads) = Routed s uploads
Directed s now (handed_over streams) = Routed s streams
Directed s now (handed_over (batches send)) = Routed s (batches send)

-- An answer, and the count of transports behind it.
abbrev pub Answers : Session → ℕ → ℕ → ℤ → SessionStore × PollReply → Type 0
Answers s now p n (st, reply) = Directed s now reply × ((st.heap p).poll_in_flight ≡ n)

-- What others do to the session while it is attached: whoever else attached has left.
abbrev pub LeavesCount : (Session → Session) → Type 0
LeavesCount run = (t : Session) → (run t).poll_in_flight ≡ t.poll_in_flight

-- The session as attaching leaves it.
abbrev attached : Session → ℕ → Session
attached s now = touch (record s { poll_in_flight = incr s.poll_in_flight }) now
