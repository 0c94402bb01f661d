-- ===== src/Session.antt =====
-- session.go: one client's virtual connection on the server. Times are counts of one clock and an
-- argument of each call; durations are not negative, as ConnectHandler sets them. pollInFlight is
-- counted without the bounds of int32. The reliable layer works on the session's own two pipes.
pub mod Life
pub mod Grace
mod Runs
use Prim.Native.String.{String}
use pollmux.Base.{
  ℕ, ◌+◌, ◌-◌, Bool, true, false, not, ◌&&◌, ◌||◌, List, Option, none, some, ℤ, pos, incr, decr,
  is_zero, pos_part, ltb, leb, if◌then◌else◌,
}
use pollmux.Pipe.{
  BufferedPipe, WriteResult, Warning, Wake, Reading, new_buffered_pipe, watch_high_water, write,
  read, close,
}
use pollmux.Reliable.{Reliable, new_reliable}
use pollmux.Attach.{Attachments, new_attachments}

-- PollModeBatch and PollModeStream, of handler.go.
pub data PollMode : Type 0 where
  batch stream : PollMode

pub record Session : Type 0 where
  pub id : String
  pub to_server : BufferedPipe
  pub to_client : BufferedPipe
  pub meta : List (String × String)
  pub poll_mode : PollMode
  pub upload_stream : Bool
  pub batch_resume : Bool
  -- Whether transport is TransportWebSocket.
  pub websocket : Bool
  pub ws_attached : Bool
  pub poll_in_flight : ℤ
  pub rs : Option Reliable
  pub att : Option Attachments
  pub resume_grace : ℕ
  pub poll_gap : ℕ
  pub last_active : ℕ
  pub closed : Bool
  pub detached_at : ℕ

unfoldable pub new_session : String → List (String × String) → ℕ → Session
new_session id meta now = record {
  id = id;
  to_server = new_buffered_pipe;
  to_client = new_buffered_pipe;
  meta = meta;
  poll_mode = batch;
  upload_stream = false;
  batch_resume = false;
  websocket = false;
  ws_attached = false;
  poll_in_flight = pos 0;
  rs = none;
  att = none;
  resume_grace = 0;
  poll_gap = 0;
  last_active = now;
  closed = false;
  detached_at = now;
}

unfoldable pub enable_resume : Session → ℤ → ℕ → Session
enable_resume s max_replay grace = record s {
  rs = some (new_reliable max_replay);
  att = some new_attachments;
  resume_grace = grace;
}

abbrev pub is_whole : Option Reliable → Bool
is_whole none = false
is_whole (some r) = not r.broken

abbrev pub is_set {ℓ} : {A : Type ℓ} → Option A → Bool
is_set none = false
is_set (some a) = true

-- Resumable.
unfoldable pub resumable : Session → Bool
resumable s = is_whole s.rs

unfoldable pub resume_deadline : Session → Option ℕ
unfolding resumable
resume_deadline s =
    if not (resumable s)
    then none
    else if not (is_zero s.poll_in_flight) || s.closed
    then none
    else some (s.detached_at + s.resume_grace)

-- inResumeGraceLocked.
unfoldable pub in_resume_grace : Session → ℕ → Bool
in_resume_grace s now =
    is_set s.rs
    && (is_zero s.poll_in_flight && (is_whole s.rs && leb (now - s.detached_at) s.resume_grace))

-- resumeExpiredLocked.
unfoldable pub resume_expired : Session → ℕ → Bool
resume_expired s now =
    is_set s.rs
    && (is_zero s.poll_in_flight && (is_whole s.rs && ltb s.resume_grace (now - s.detached_at)))

-- detachedBeyondPollGapLocked.
unfoldable pub detached_beyond_poll_gap : Session → ℕ → Bool
detached_beyond_poll_gap s now = is_zero s.poll_in_flight && ltb s.poll_gap (now - s.detached_at)

-- watchHighWater: the session's pipes, with the logger if there is one.
unfoldable pub watch_session : Session → ℤ → Bool → Session
watch_session s threshold logger =
    if leb (pos_part threshold) 0 || not logger then s else record s {
      to_server = watch_high_water s.to_server threshold logger;
      to_client = watch_high_water s.to_client threshold logger;
    }

unfoldable pub read_session : Session → ℕ → List Wake → Session × Reading
read_session s dst ws = let r = read s.to_server dst ws in (record s { to_server = r.0 }, r)

unfoldable pub write_session : Session → List ℕ → Session × WriteResult × Option Warning
write_session s bytes =
    let (p, result, warning) = write s.to_client bytes in
    (record s { to_client = p }, result, warning)

-- writeUpstream.
unfoldable pub write_upstream : Session → List ℕ → Session × WriteResult × Option Warning
write_upstream s bytes =
    let (p, result, warning) = write s.to_server bytes in
    (record s { to_server = p }, result, warning)

unfoldable pub close_pipes : Session → Session
close_pipes s = record s { to_server = close s.to_server; to_client = close s.to_client }

-- markClosedLocked.
unfoldable pub mark_closed : Session → Session × Bool
mark_closed s = if s.closed then (s, false) else (record s { closed = true }, true)

close_if_won : Session × Bool → Session × Bool
unfolding close_pipes
close_if_won (s, true) = (close_pipes s, true)
close_if_won (s, false) = (s, false)

-- closeOnce; Close is its first part.
unfoldable pub close_once : Session → Session × Bool
unfolding mark_closed close_if_won
close_once s = close_if_won (mark_closed s)

-- noteDetachedLocked.
unfoldable pub note_detached : Session → ℕ → Session
note_detached s now =
    if is_set s.rs && is_zero s.poll_in_flight then record s { detached_at = now } else s

unfoldable pub begin_poll : Session → ℕ → Session × Bool
unfolding resume_expired
begin_poll s now =
    if s.closed || resume_expired s now
    then (s, false)
    else (record s { poll_in_flight = incr s.poll_in_flight }, true)

unfoldable pub end_poll : Session → ℕ → Session
unfolding note_detached decr
end_poll s now = note_detached (record s { poll_in_flight = decr s.poll_in_flight }) now

unfoldable pub begin_websocket : Session → ℕ → Session × Bool
unfolding resume_expired
begin_websocket s now =
    if s.closed || (s.ws_attached || resume_expired s now)
    then (s, false)
    else (record s { ws_attached = true; poll_in_flight = incr s.poll_in_flight }, true)

unfoldable pub end_websocket : Session → ℕ → Session
unfolding note_detached decr
end_websocket s now =
    note_detached (record s { ws_attached = false; poll_in_flight = decr s.poll_in_flight }) now

unfoldable pub refuses_attach : Session → ℕ → Bool
unfolding resume_expired
refuses_attach s now = s.closed || resume_expired s now

unfoldable pub touch : Session → ℕ → Session
touch s now = record s { last_active = now }
