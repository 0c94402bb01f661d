-- ===== src/Config.antt =====
-- ServerConfig of handler.go, negotiateResume of resume_server.go and Limits of protocol.go: what the
-- server is set up with and hands down. A duration is an int64 of nanoseconds.
pub mod Bounds
mod Runs
use Prim.Native.String.{String}
use pollmux.Base.{
  ◌==◌, ℕ, zero, suc, ◌+◌, ◌*◌, ◌/◌, ◌%◌, Bool, true, false, not, ◌&&◌, ◌||◌, List, Option, none,
  some, ℤ, pos, negsuc, pos_part, is_zero, ltb, leb, if◌then◌else◌, u64_mod,
}
use pollmux.Reliable.{default_max_replay_bytes}
use pollmux.Session.{PollMode, batch, stream}

-- PollMode, a string of the operator's; the empty one stands for batch.
pub data ServerMode : Type 0 where
  unset batch_mode stream_mode other_mode : ServerMode

pub record ServerConfig : Type 0 where
  pub poll_timeout : ℤ
  pub session_timeout : ℤ
  pub sweep_interval : ℤ
  pub coalesce_window : ℤ
  pub poll_buffer_size : ℤ
  pub max_send_bytes : ℤ
  pub high_water_warn : ℤ
  pub poll_mode : ServerMode
  pub heartbeat_interval : ℤ
  pub stream_max_duration : ℤ
  pub enable_websocket : Bool
  pub enable_resume : Bool
  pub resume_grace : ℤ
  pub max_replay_bytes : ℤ
  pub max_detached_resumable : ℤ
  -- Whether there is a logger, the discarding one included.
  pub logger : Bool

abbrev pub millisecond : ℕ
millisecond = 1000000

abbrev pub seconds : ℕ → ℤ
seconds n = pos (n * 1000000000)

-- DefaultPollTimeout to MaxResumeGrace, and batchPollGapAllowance, of protocol.go.
abbrev pub max_resume_grace : ℕ
max_resume_grace = 300000000000

abbrev pub batch_poll_gap_allowance : ℕ
batch_poll_gap_allowance = 10000000000

-- The `<= 0` tests of withDefaults.
unfoldable pub or_default : ℤ → ℤ → ℤ
or_default v fallback = if leb (pos_part v) 0 then fallback else v

-- SessionIDFunc, which only reads the path, is not a field here.
unfoldable pub with_defaults : ServerConfig → ServerConfig
with_defaults cfg = record cfg {
  poll_timeout = or_default cfg.poll_timeout (seconds 30);
  session_timeout = or_default cfg.session_timeout (seconds 60);
  sweep_interval = or_default cfg.sweep_interval (seconds 5);
  coalesce_window = or_default cfg.coalesce_window (pos (2 * millisecond));
  poll_buffer_size = or_default cfg.poll_buffer_size (pos 262144);
  max_send_bytes = or_default cfg.max_send_bytes (pos 1048576);
  heartbeat_interval = or_default cfg.heartbeat_interval (seconds 10);
  stream_max_duration = or_default cfg.stream_max_duration (seconds 45);
  resume_grace = or_default cfg.resume_grace (seconds 30);
  max_replay_bytes = or_default cfg.max_replay_bytes (pos default_max_replay_bytes);
  max_detached_resumable =
      if is_zero cfg.max_detached_resumable then pos 1024 else cfg.max_detached_resumable;
  logger = true;
}

pub data Miswiring : Type 0 where
  bad_poll_mode short_session_timeout short_stream long_grace : Miswiring

-- `a > 0 && b > 0 && a < 2*b`, the product with int64's wrap-around.
unfoldable pub below_twice : ℤ → ℤ → Bool
below_twice a b =
    let twice = (2 * pos_part b) % u64_mod in
    ltb 0 (pos_part a)
    && (ltb 0 (pos_part b) && (ltb twice 9223372036854775808 && ltb (pos_part a) twice))

abbrev pub is_known : ServerMode → Bool
is_known other_mode = false
is_known unset = true
is_known batch_mode = true
is_known stream_mode = true

abbrev pub is_stream_mode : ServerMode → Bool
is_stream_mode stream_mode = true
is_stream_mode unset = false
is_stream_mode batch_mode = false
is_stream_mode other_mode = false

-- check, by what it panics with.
unfoldable pub check : ServerConfig → Option Miswiring
check cfg =
    if not (is_known cfg.poll_mode)
    then some bad_poll_mode
    else if below_twice cfg.session_timeout cfg.poll_timeout
    then some short_session_timeout
    else if is_stream_mode cfg.poll_mode
        && below_twice cfg.stream_max_duration cfg.heartbeat_interval
    then some short_stream
    else if ltb max_resume_grace (pos_part cfg.resume_grace)
    then some long_grace
    else none

pub record Limits : Type 0 where
  pub max_send_bytes : ℤ
  pub poll_timeout_ms : ℤ
  pub session_timeout_ms : ℤ
  pub poll_buffer_bytes : ℤ
  pub heartbeat_interval_ms : ℤ
  pub stream_max_duration_ms : ℤ
  pub resume_grace_ms : ℤ

abbrev negated : ℕ → ℤ
negated zero = pos 0
negated (suc n) = negsuc n

-- Milliseconds, which truncates towards zero.
unfoldable pub milliseconds : ℤ → ℤ
milliseconds (pos n) = pos (n / millisecond)
milliseconds (negsuc n) = negated ((n + 1) / millisecond)

abbrev pub is_stream : PollMode → Bool
is_stream stream = true
is_stream batch = false

unfoldable pub limits : ServerConfig → PollMode → Bool → Limits
limits cfg mode resumable = record {
  max_send_bytes = cfg.max_send_bytes;
  poll_timeout_ms = milliseconds cfg.poll_timeout;
  session_timeout_ms = milliseconds cfg.session_timeout;
  poll_buffer_bytes = cfg.poll_buffer_size;
  heartbeat_interval_ms = if is_stream mode then milliseconds cfg.heartbeat_interval else pos 0;
  stream_max_duration_ms = if is_stream mode then milliseconds cfg.stream_max_duration else pos 0;
  resume_grace_ms = if resumable then milliseconds cfg.resume_grace else pos 0;
}

pub data LimitsError : Type 0 where
  bad_max_send_bytes bad_poll_timeout bad_session_timeout : LimitsError

-- Validate, by the client.
unfoldable pub validate : Limits → Option LimitsError
validate l =
    if leb (pos_part l.max_send_bytes) 0
    then some bad_max_send_bytes
    else if leb (pos_part l.poll_timeout_ms) 0
    then some bad_poll_timeout
    else if leb (pos_part l.session_timeout_ms) 0
    then some bad_session_timeout
    else none

pub record ConnectRequest : Type 0 where
  pub protocol_version : ℤ
  pub meta : List (String × String)
  pub prefer_stream_mode : Bool
  pub prefer_stream_upload : Bool
  pub prefer_websocket : Bool
  pub prefer_resume : Bool
  pub batch_resume : Bool
  pub poll_interval_ms : ℤ

-- ProtocolVersion is 1.
abbrev pub is_protocol_version : ℤ → Bool
is_protocol_version (pos n) = n == 1
is_protocol_version (negsuc n) = false

unfoldable pub negotiate_poll_mode : ServerMode → Bool → PollMode
negotiate_poll_mode server prefers = if is_stream_mode server && prefers then stream else batch

unfoldable pub negotiate_resume : ServerConfig → ConnectRequest → Bool → PollMode → PollMode → Bool
negotiate_resume cfg req websocket mode upload =
    if not cfg.enable_resume || not req.prefer_resume
    then false
    else if websocket
    then true
    else req.batch_resume || (is_stream mode && is_stream upload)
