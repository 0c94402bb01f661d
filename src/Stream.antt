-- ===== src/Stream.antt =====
-- client.go and handler.go: a streamed body without numbers. pollStream writes the download and
-- feedSendStream the upload, in one and the same loop over ReadAvailable; doStreamPoll reads the
-- download. The body's writer is a parameter. What others do to the pipe in a round of the loop, and
-- what the clock and the context say then, is a Round; a test of the clock is its answer.
pub mod Writer
pub mod Reader
pub mod Channel
pub mod Delivery
pub mod Closing
mod Runs
use pollmux.Base.{
  ℕ, suc, Bool, true, false, ◌&&◌, List, [], ◌∷◌, Option, none, some, length, ltb, ◌==◌,
  if◌then◌else◌,
}
use pollmux.Pipe.{
  BufferedPipe, Wake, Waiting, ReadResult, Reading, WriteResult, Warning, got, failed, blocked, eof,
  pipe_interrupted, wrote, closed_pipe, apply_all, read_available, write,
}
use pollmux.Frame.{
  Frame, Source, FrameError, unexpected_eof, network, too_long, bad_payload, write_frame,
  frame_data, frame_heartbeat, frame_end, frame_gone,
}
use pollmux.Frame
use pollmux.Frame.Loop.{Step, goes_on, stops, read_frames}

-- `wakes` is what others do to the pipe in this round: what the read does not wait for comes while
-- the loop writes.
pub record Round : Type 0 where
  pub cancelled : Bool
  pub wakes : List Wake
  pub late : Bool

-- Why a writer ended its body. `parked` is a read that still waits after the last wake-up, and `open`
-- a loop that has run all its rounds.
pub data Ending : Type 0 where
  context_done pipe_done write_failed rolled_over parked open_end : Ending

pub record Streamed (W : Type 0) : Type 0 where
  pub writer : W
  pub pipe : BufferedPipe
  pub ending : Ending
  pub rest : List Round

-- The pipe after the wake-ups that a read left over.
unfoldable pub settle : BufferedPipe → List Wake → BufferedPipe
unfolding apply_all
settle p [] = p
settle p (w ∷ ws) = settle (apply_all (record { pipe = p; timed_out = false }) w).pipe ws

module _ {W E : Type 0} (put : W → List ℕ → W × Option E) where
  attempt : W × Option E → W × Option Ending
  attempt (w, none) = (w, none)
  attempt (w, some e) = (w, some write_failed)

  -- The frame for a reading; `farewell` is the frame's type for a pipe that is closed and empty.
  unfoldable pub put_reading : ℕ → W → ReadResult → W × Option Ending
  unfolding attempt
  put_reading farewell w (got []) = attempt (write_frame put w frame_heartbeat [])
  put_reading farewell w (got (b ∷ bytes)) = attempt (write_frame put w frame_data (b ∷ bytes))
  put_reading farewell w (failed eof) = ((write_frame put w farewell []).0, some pipe_done)
  put_reading farewell w (failed pipe_interrupted) = attempt (write_frame put w frame_heartbeat [])
  put_reading farewell w blocked = (w, some parked)

  -- The test of the deadline behind it.
  roll_over : Bool → W × Option Ending → W × Option Ending
  roll_over late (w, some e) = (w, some e)
  roll_over true (w, none) = ((write_frame put w frame_end []).0, some rolled_over)
  roll_over false (w, none) = (w, none)

  go_on : (W → Streamed W) → BufferedPipe → List Round → W × Option Ending → Streamed W
  go_on k p rs (w, none) = k w
  go_on k p rs (w, some e) = record { writer = w; pipe = p; ending = e; rest = rs }

  -- The loop, with a buffer of `dst` bytes; `checks` is whether it asks its context first.
  unfoldable pub stream_loop : Bool → ℕ → ℕ → W → BufferedPipe → List Round → Streamed W
  unfolding put_reading roll_over go_on settle
  stream_loop checks farewell dst w p [] = record {
    writer = w;
    pipe = p;
    ending = open_end;
    rest = [];
  }
  stream_loop checks farewell dst w p (r ∷ rs) =
      let (p', result, ws) = read_available p dst r.wakes in
      let after = settle p' ws in
      let more =
        go_on (λ w'. stream_loop checks farewell dst w' after rs) after rs
          (roll_over r.late (put_reading farewell w result)) in
      if checks && r.cancelled
      then record { writer = w; pipe = p; ending = context_done; rest = r ∷ rs }
      else more

  -- pollStream on a session that is not resumable, from the flush of its headers on.
  unfoldable pub poll_stream : ℕ → W → BufferedPipe → List Round → Streamed W
  unfolding stream_loop
  poll_stream poll_buffer_size w to_client rs =
      stream_loop true frame_gone poll_buffer_size w to_client rs

  -- feedSendStream: the loop's error is nil unless the ending is `write_failed`.
  unfoldable pub feed_send_stream : ℕ → W → BufferedPipe → List Round → Streamed W
  unfolding stream_loop
  feed_send_stream stream_max_frame w write_pipe rs =
      stream_loop false frame_end stream_max_frame w write_pipe rs

-- What doStreamPoll returns; `broken_stream` is the reader's error or the watchdog's.
pub data PollEnd : Type 0 where
  stream_end session_gone read_pipe_closed request_failed : PollEnd
  fatal unknown_type : ℕ → PollEnd
  broken_stream : FrameError → PollEnd

-- A response to a request, if there was one: its status, and its body.
pub data Response : Type 0 where
  no_response : Response
  response : ℕ → Source → Response

appended : BufferedPipe × WriteResult × Option Warning → Step BufferedPipe PollEnd
appended (p, wrote n, warning) = goes_on p
appended (p, closed_pipe, warning) = stops p read_pipe_closed

unfoldable pub take_stream_frame : BufferedPipe → Frame → Step BufferedPipe PollEnd
unfolding appended
take_stream_frame p f =
    if f.typ == frame_data
    then if ltb 0 (length f.payload) then appended (write p f.payload) else goes_on p
    else if f.typ == frame_heartbeat
    then goes_on p
    else if f.typ == frame_end
    then stops p stream_end
    else if f.typ == frame_gone
    then stops p session_gone
    else stops p (unknown_type f.typ)

unfoldable pub stream_error : FrameError → PollEnd
stream_error Frame.eof = stream_end
stream_error e = broken_stream e

-- A bound on the frames of a body: one for each byte, and the end.
abbrev pub frames_bound : Source → ℕ
frames_bound src = suc (length src.bytes)

-- doStreamPoll, from the response on; `none` is a loop that would need more frames than the body has.
-- Nobody reads the pipe meanwhile: Read only takes bytes off its front.
unfoldable pub do_stream_poll : ℕ → BufferedPipe → Response → Option (BufferedPipe × PollEnd)
unfolding take_stream_frame stream_error read_frames
do_stream_poll stream_max_frame p no_response = some (p, request_failed)
do_stream_poll stream_max_frame p (response status src) =
    if status == 200
    then read_frames take_stream_frame stream_error stream_max_frame (frames_bound src) p src
    else some (p, fatal status)
