-- ===== src/Reliable.antt =====
-- reliable.go: the resumable transport's byte layer. The mutex makes each critical section one
-- function. The layer's two pipes are shared with others, so they are arguments and results of the
-- operations that touch them; `none` is a Go panic, from a slice expression out of range.
pub mod Sender
pub mod Receiver
pub mod System
pub mod Cuts
pub mod Faithful
pub mod Delivery
pub mod Replay
mod Runs
use pollmux.Base.{
  ℕ, ◌+◌, ◌*◌, ◌^◌, Bool, true, false, not, ◌&&◌, ◌||◌, List, [], ◌∷◌, ◌++◌, Option, none, some, ℤ,
  pos_part, ltb, leb, ◌==◌, if◌then◌else◌, length, take, drop, slice_from, add64, sub64, max,
}
use pollmux.Pipe.{
  BufferedPipe, Wake, ReadResult, ReadError, got, failed, blocked, eof, pipe_interrupted, wrote,
  closed_pipe, write, interrupt, read_available, WriteResult,
}

-- yamux.go
abbrev pub max_stream_window_size : ℕ
max_stream_window_size = 256 * 2 ^ 10

-- protocol.go
abbrev pub default_max_replay_bytes : ℕ
default_max_replay_bytes = 16 * 2 ^ 20

abbrev pub ack_eager_bytes : ℕ
ack_eager_bytes = 131072

pub record Reliable : Type 0 where
  pub send_offset : ℕ
  pub acked_offset : ℕ
  pub sent_cursor : ℕ
  pub replay : List ℕ
  pub max_replay : ℕ
  pub broken : Bool
  pub recv_offset : ℕ
  pub last_ack : ℕ
  pub ack_eager : ℕ

unfoldable pub new_reliable : ℤ → Reliable
new_reliable max_replay = record {
  send_offset = 0;
  acked_offset = 0;
  sent_cursor = 0;
  replay = [];
  max_replay =
      if ltb 0 (pos_part max_replay) then pos_part max_replay else default_max_replay_bytes;
  broken = false;
  recv_offset = 0;
  last_ack = 0;
  ack_eager = ack_eager_bytes;
}

unfoldable pub disable_eager_ack : Reliable → Reliable
disable_eager_ack r = record r { ack_eager = 0 }

-- markBroken and markBrokenLocked.
unfoldable pub mark_broken : Reliable → Reliable
mark_broken r = record r {
  broken = true;
  replay = [];
  acked_offset = r.send_offset;
  sent_cursor = r.send_offset;
}

pub data LayerError : Type 0 where
  replay_gap bad_ack pipe_closed : LayerError

-- Bytes to send, with the offset of the first.
pub record Chunk : Type 0 where
  pub off : ℕ
  pub bytes : List ℕ

replayed : Reliable → ℕ → Option (List ℕ) → Option (Reliable × Chunk)
replayed r dst none = none
replayed r dst (some pending) =
    let bytes = take dst pending in
    some (
      record r { sent_cursor = add64 r.sent_cursor (length bytes) },
      record { off = r.sent_cursor; bytes = bytes },
    )

-- nextOut up to its first Unlock: whether some replay is due, and if so the chunk.
unfoldable pub replay_due : Reliable → Bool
replay_due r = not r.broken && ltb r.sent_cursor r.send_offset

unfoldable pub next_replay : Reliable → ℕ → Option (Reliable × Chunk)
unfolding replayed
next_replay r dst = replayed r dst (slice_from (sub64 r.sent_cursor r.acked_offset) r.replay)

retain_bytes : Reliable → List ℕ → Reliable
unfolding mark_broken
retain_bytes r bytes =
    let grown : Reliable = record r { replay = r.replay ++ bytes } in
    if r.broken
    then r
    else if ltb r.max_replay (length grown.replay)
    then mark_broken grown
    else grown

-- nextOut from its second Lock on: numbering what was read from `out`.
unfoldable pub next_fresh : Reliable → List ℕ → Reliable × Chunk
unfolding retain_bytes
next_fresh r bytes =
    let sent = add64 r.send_offset (length bytes) in
    (
      retain_bytes (record r { send_offset = sent; sent_cursor = sent }) bytes,
      record { off = r.send_offset; bytes = bytes },
    )

-- What nextOut returns: a chunk, (0, 0, err), or nothing yet.
pub data NextOut : Type 0 where
  sends : Chunk → NextOut
  idle : NextOut
  fails : ReadError → NextOut
  waits : NextOut

unfoldable pub fresh_out : Reliable → ReadResult → Reliable × NextOut
unfolding next_fresh
fresh_out r (got []) = (r, idle)
fresh_out r (got (b ∷ bytes)) = let (r', c) = next_fresh r (b ∷ bytes) in (r', sends c)
fresh_out r (failed e) = (r, fails e)
fresh_out r blocked = (r, waits)

unfoldable pub replay_out :
    BufferedPipe
    → List Wake
    → Option (Reliable × Chunk)
    → Option (Reliable × BufferedPipe × NextOut × List Wake)
replay_out out ws none = none
replay_out out ws (some (r, c)) = some (r, out, sends c, ws)

-- nextOut. While it waits on `out` the layer is not locked: `meanwhile` is what others do to it.
unfoldable pub next_out :
    Reliable
    → BufferedPipe
    → ℕ
    → (Reliable → Reliable)
    → List Wake
    → Option (Reliable × BufferedPipe × NextOut × List Wake)
unfolding replay_due replay_out next_replay fresh_out
next_out r out dst meanwhile ws =
    if replay_due r
    then replay_out out ws (next_replay r dst)
    else let (out', result, ws') = read_available out dst ws in
      let (r', answer) = fresh_out (meanwhile r) result in some (r', out', answer, ws')

pub record Receipt : Type 0 where
  pub layer : Reliable
  pub inp : BufferedPipe
  pub out : BufferedPipe
  pub error : Option LayerError

-- recvIn once `p` is what extends the received bytes; `out` is interrupted where an ack is due.
deliver : Reliable → BufferedPipe → BufferedPipe → List ℕ → BufferedPipe × WriteResult → Receipt
deliver r inp out bytes (inp', closed_pipe) = record {
  layer = r;
  inp = inp';
  out = out;
  error = some pipe_closed;
}
deliver r inp out bytes (inp', wrote n) =
    let recv = add64 r.recv_offset (length bytes) in
    let wake = ltb 0 r.ack_eager && leb r.ack_eager (sub64 recv r.last_ack) in
    record {
      layer = record r { recv_offset = recv };
      inp = inp';
      out = if wake then interrupt out else out;
      error = none;
    }

extend : Reliable → BufferedPipe → BufferedPipe → Option (List ℕ) → Option Receipt
unfolding deliver
extend r inp out none = none
extend r inp out (some bytes) =
    let (inp', result, warning) = write inp bytes in some (deliver r inp out bytes (inp', result))

unfoldable pub recv_in : Reliable → BufferedPipe → BufferedPipe → ℕ → List ℕ → Option Receipt
unfolding mark_broken extend
recv_in r inp out off bytes =
    if ltb r.recv_offset off
    then some (record { layer = mark_broken r; inp = inp; out = out; error = some replay_gap })
    else if leb (add64 off (length bytes)) r.recv_offset
    then some (record { layer = r; inp = inp; out = out; error = none })
    else extend r inp out (slice_from (sub64 r.recv_offset off) bytes)

release : Reliable → ℕ → ℕ → Option (List ℕ) → Option Reliable
release r n cursor none = none
release r n cursor (some rest) =
    some (record r { replay = rest; acked_offset = n; sent_cursor = cursor })

answer : Option LayerError → Option Reliable → Option (Reliable × Option LayerError)
answer e none = none
answer e (some r) = some (r, e)

-- ack: a cumulative acknowledgement of `n` bytes.
unfoldable pub ack : Reliable → ℕ → Option (Reliable × Option LayerError)
unfolding mark_broken release answer
ack r n =
    if ltb r.send_offset n
    then some (mark_broken r, some bad_ack)
    else if r.broken || leb n r.acked_offset
    then some (r, none)
    else answer none (
        release r n (if ltb r.sent_cursor n then n else r.sent_cursor)
          (slice_from (sub64 n r.acked_offset) r.replay))

-- takeAck: the offset to acknowledge, if it has moved.
unfoldable pub take_ack : Reliable → Reliable × Option ℕ
take_ack r =
    if r.recv_offset == r.last_ack
    then (r, none)
    else (record r { last_ack = r.recv_offset }, some r.recv_offset)

unfoldable pub reset_ack : Reliable → Reliable
reset_ack r = record r { last_ack = 0 }

accepts : Option Reliable → Option (Reliable × Bool)
accepts none = none
accepts (some r) = some (r, true)

-- resumeOut, with its answer.
unfoldable pub resume_out : Reliable → ℕ → Option (Reliable × Bool)
unfolding release accepts
resume_out r peer_recv =
    if r.broken || (ltb peer_recv r.acked_offset || ltb r.send_offset peer_recv)
    then some (r, false)
    else accepts
        (release r peer_recv peer_recv (slice_from (sub64 peer_recv r.acked_offset) r.replay))

unfoldable pub rewind_to_acked : Reliable → Reliable
rewind_to_acked r = if r.broken then r else record r { sent_cursor = r.acked_offset }

pub record Progress : Type 0 where
  pub acked : ℕ
  pub recv : ℕ

unfoldable pub progress : Reliable → Progress
progress r = record { acked = r.acked_offset; recv = r.recv_offset }

unfoldable pub unacked : Reliable → ℕ
unacked r = length r.replay
