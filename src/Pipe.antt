-- ===== src/Pipe.antt =====
-- pipe.go: BufferedPipe. Bytes are numbers. The mutex makes each operation one step; what other
-- goroutines do while a reader is in cond.Wait is an explicit list of wake-ups, each with the
-- changes made before the reader holds the lock again. Log output is returned.
pub mod Content
pub mod Outcome
pub mod HighWater
pub mod Progress
mod Runs
use pollmux.Base.{
  ℕ, ◌+◌, Bool, true, false, not, ◌&&◌, ◌||◌, List, [], ◌∷◌, ◌++◌, Option, none, some, ℤ, pos,
  pos_part, ltb, leb, ◌==◌, if◌then◌else◌, length, take, drop, min,
}

pub record BufferedPipe : Type 0 where
  pub buf : List ℕ
  pub closed : Bool
  pub hi_water : ℕ
  pub warn_threshold : ℤ
  pub warned : Bool
  -- Whether a logger is set.
  pub logger : Bool
  pub intr : Bool

unfoldable pub new_buffered_pipe : BufferedPipe
new_buffered_pipe = record {
  buf = [];
  closed = false;
  hi_water = 0;
  warn_threshold = pos 0;
  warned = false;
  logger = false;
  intr = false;
}

unfoldable pub watch_high_water : BufferedPipe → ℤ → Bool → BufferedPipe
watch_high_water p threshold logger = record p { warn_threshold = threshold; logger = logger }

pub data WriteResult : Type 0 where
  wrote : ℕ → WriteResult
  closed_pipe : WriteResult

-- The log line of a write: the bytes buffered and the threshold.
abbrev pub Warning : Type 0
Warning = ℕ × ℤ

-- The new high-water mark and one-shot flag after the buffer grew to `n` bytes, and whether the
-- write warns.
unfoldable pub note_high_water : BufferedPipe → ℕ → BufferedPipe × Bool
note_high_water p n =
    if ltb p.hi_water n
    then if ltb 0 (pos_part p.warn_threshold) && (not p.warned && leb (pos_part p.warn_threshold) n)
      then (record p { hi_water = n; warned = true }, true)
      else (record p { hi_water = n }, false)
    else (p, false)

unfoldable pub log_warning : BufferedPipe × Bool → Option Warning
log_warning (p, warn) = if warn && p.logger then some (p.hi_water, p.warn_threshold) else none

unfoldable pub write : BufferedPipe → List ℕ → BufferedPipe × WriteResult × Option Warning
write p bytes =
    let grown : BufferedPipe = record p { buf = p.buf ++ bytes } in
    let noted = note_high_water grown (length grown.buf) in
    if p.closed then (p, closed_pipe, none) else (noted.0, wrote (length bytes), log_warning noted)

unfoldable pub interrupt : BufferedPipe → BufferedPipe
interrupt p = record p { intr = true }

unfoldable pub close : BufferedPipe → BufferedPipe
close p = record p { closed = true }

unfoldable pub buffered : BufferedPipe → ℕ
buffered p = length p.buf

-- What another goroutine, or the reader's timer, does while a reader waits.
pub data Change : Type 0 where
  writes : List ℕ → Change
  closes : Change
  interrupts : Change
  timer : Change

abbrev pub Wake : Type 0
Wake = List Change

-- A reader in its wait: the pipe, and the reader's `timedOut`.
pub record Waiting : Type 0 where
  pub pipe : BufferedPipe
  pub timed_out : Bool

unfoldable pub apply : Waiting → Change → Waiting
unfolding write close interrupt
apply s (writes bytes) = record s { pipe = (write s.pipe bytes).0 }
apply s closes = record s { pipe = close s.pipe }
apply s interrupts = record s { pipe = interrupt s.pipe }
apply s timer = record s { timed_out = true }

unfoldable pub apply_all : Waiting → Wake → Waiting
apply_all s [] = s
apply_all s (c ∷ cs) = apply_all (apply s c) cs

-- How a wait loop stands once the wake-ups are used up, or its test fails with some left over.
pub data Waited : Type 0 where
  parked : Waiting → Waited
  ready : Waiting → List Wake → Waited

unfoldable pub wait_loop : (Waiting → Bool) → Waiting → List Wake → Waited
wait_loop busy s [] = if busy s then parked s else ready s []
wait_loop busy s (w ∷ ws) =
    let rest = wait_loop busy (apply_all s w) ws in if busy s then rest else ready s (w ∷ ws)

pub data ReadError : Type 0 where
  eof : ReadError
  pipe_interrupted : ReadError

-- `got []` is Go's (0, nil). `blocked` is no Go value: the reader still waits after the last wake-up.
pub data ReadResult : Type 0 where
  got : List ℕ → ReadResult
  failed : ReadError → ReadResult
  blocked : ReadResult

-- The pipe afterwards, what the call returns, and the wake-ups that it did not need.
abbrev pub Reading : Type 0
Reading = BufferedPipe × ReadResult × List Wake

-- `n := copy(dst, p.buf); p.buf = p.buf[n:]`
take_out : BufferedPipe → ℕ → List Wake → Reading
take_out p dst ws =
    let n = min dst (length p.buf) in (record p { buf = drop n p.buf }, got (take n p.buf), ws)

is_empty : List ℕ → Bool
is_empty bytes = length bytes == 0

read_busy : Waiting → Bool
unfolding is_empty
read_busy s = is_empty s.pipe.buf && not s.pipe.closed

after_read_wait : ℕ → Waited → Reading
unfolding is_empty take_out
after_read_wait dst (parked s) = (s.pipe, blocked, [])
after_read_wait dst (ready s ws) =
    if is_empty s.pipe.buf then (s.pipe, failed eof, ws) else take_out s.pipe dst ws

unfoldable pub read : BufferedPipe → ℕ → List Wake → Reading
unfolding wait_loop after_read_wait read_busy
read p dst ws =
    after_read_wait dst (wait_loop read_busy (record { pipe = p; timed_out = false }) ws)

first_byte_busy : Waiting → Bool
unfolding is_empty
first_byte_busy s =
    is_empty s.pipe.buf && (not s.pipe.closed && (not s.timed_out && not s.pipe.intr))

coalesce_busy : ℕ → Waiting → Bool
coalesce_busy dst s =
    ltb (length s.pipe.buf) dst && (not s.pipe.closed && (not s.timed_out && not s.pipe.intr))

after_coalesce : ℕ → Waited → Reading
unfolding take_out
after_coalesce dst (parked s) = (s.pipe, blocked, [])
after_coalesce dst (ready s ws) = take_out s.pipe dst ws

-- Phase 2: a further short wait for more bytes.
coalesce : BufferedPipe → ℕ → List Wake → Reading
unfolding after_coalesce coalesce_busy wait_loop
coalesce p dst ws =
    if ltb (length p.buf) dst && (not p.closed && not p.intr)
    then after_coalesce dst
        (wait_loop (coalesce_busy dst) (record { pipe = p; timed_out = false }) ws)
    else take_out p dst ws

after_first_byte : ℕ → Waited → Reading
unfolding is_empty coalesce
after_first_byte dst (parked s) = (s.pipe, blocked, [])
after_first_byte dst (ready s ws) =
    if is_empty s.pipe.buf
    then if s.pipe.closed
      then (s.pipe, failed eof, ws)
      else if s.pipe.intr
      then (record s.pipe { intr = false }, failed pipe_interrupted, ws)
      else (s.pipe, got [], ws)
    else coalesce s.pipe dst ws

-- ReadAvailable with a buffer of `dst` bytes. Both timers are the change `timer`.
unfoldable pub read_available : BufferedPipe → ℕ → List Wake → Reading
unfolding is_empty first_byte_busy after_first_byte
read_available p dst ws =
    if p.intr
    then (record p { intr = false }, failed pipe_interrupted, ws)
    else if is_empty p.buf
    then if p.closed
      then (p, failed eof, ws)
      else after_first_byte dst
          (wait_loop first_byte_busy (record { pipe = p; timed_out = false }) ws)
    else coalesce p dst ws

-- The bytes that a call returned.
abbrev pub bytes_of : ReadResult → List ℕ
bytes_of (got bytes) = bytes
bytes_of (failed e) = []
bytes_of blocked = []
