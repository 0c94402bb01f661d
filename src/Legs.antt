-- ===== src/Legs.antt =====
-- handler.go and resumable_client.go: the legs of a resumable session that stream numbered frames.
-- pollStreamResumable and the resumable feedSendStream are one loop, with two ways to be told to
-- leave; the resumable doStreamPoll reads. An End is a reliable layer with its two pipes. What others
-- do to the layer is a function of each round.
pub mod Taking
pub mod Sending
pub mod Numbers
mod Runs
use pollmux.Base.{
  ℕ, Bool, true, false, ◌&&◌, List, [], ◌∷◌, Option, none, some, ◌==◌, length, if◌then◌else◌,
}
use pollmux.Pipe.{BufferedPipe, Wake, eof, pipe_interrupted}
use pollmux.Frame.{
  Frame, Source, FrameError, Result, ok, err, write_frame, write_seq_frame, encode_offset,
  decode_ack, split_seq, frame_data, frame_heartbeat, frame_end, frame_gone, frame_ack,
  frame_seq_data,
}
use pollmux.Frame
use pollmux.Frame.Loop.{Step, goes_on, stops, read_frames}
use pollmux.Reliable.{
  Reliable, Receipt, LayerError, NextOut, sends, idle, fails, waits, next_out, recv_in, ack,
  take_ack, reset_ack,
}
use pollmux.Batch.{End}
use pollmux.Stream.{settle, frames_bound, Response, no_response, response}

-- A round of a writer's loop. `others` is what others do to the layer since the last round, and
-- `meanwhile` while nextOut waits; `leave` is what the loop finds after an interrupt: that it has been
-- replaced, or that its context is done.
pub record LegRound : Type 0 where
  pub cancelled : Bool
  pub others : Reliable → Reliable
  pub meanwhile : Reliable → Reliable
  pub wakes : List Wake
  pub leave : Bool
  pub late : Bool

pub data LegEnding : Type 0 where
  leg_cancelled out_closed leg_replaced write_broke leg_rolled_over leg_parked leg_open
        leg_panicked :
      LegEnding

pub record Sent (W : Type 0) : Type 0 where
  pub writer : W
  pub layer : Reliable
  pub out : BufferedPipe
  pub ending : LegEnding

-- How a loop's writes are made: frames, and numbered data frames. The farewell for a closed pipe and
-- the end of a body that has rolled over are frames where the transport has them.
pub record Sink (W E : Type 0) : Type 0 where
  pub put_frame : W → ℕ → List ℕ → W × Option E
  pub put_seq : W → ℕ → List ℕ → W × Option E
  pub farewell : W → W

module _ {W E : Type 0} (sink : Sink W E) where
  unfoldable pub leg_attempt : W × Option E → W × Option LegEnding
  leg_attempt (w, none) = (w, none)
  leg_attempt (w, some e) = (w, some write_broke)

  -- The acknowledgement that is due, before anything else.
  unfoldable pub put_ack : W → Option ℕ → W × Option LegEnding
  unfolding leg_attempt
  put_ack w none = (w, none)
  put_ack w (some n) = leg_attempt (sink.put_frame w frame_ack (encode_offset n))

  -- Then the data, or a heartbeat, or nothing where the wait was interrupted.
  unfoldable pub put_given : NextOut → W × Option LegEnding → W × Option LegEnding
  unfolding leg_attempt
  put_given given (w, some e) = (w, some e)
  put_given (sends c) (w, none) =
      if length c.bytes == 0
      then leg_attempt (sink.put_frame w frame_heartbeat [])
      else leg_attempt (sink.put_seq w c.off c.bytes)
  put_given idle (w, none) = leg_attempt (sink.put_frame w frame_heartbeat [])
  put_given (fails e) (w, none) = (w, none)
  put_given waits (w, none) = (w, some leg_parked)

  unfoldable pub put_late : Bool → W × Option LegEnding → W × Option LegEnding
  put_late late (w, some e) = (w, some e)
  put_late true (w, none) = ((sink.put_frame w frame_end []).0, some leg_rolled_over)
  put_late false (w, none) = (w, none)

  unfoldable pub leg_on : (W → Sent W) → Reliable → BufferedPipe → W × Option LegEnding → Sent W
  leg_on k r out (w, none) = k w
  leg_on k r out (w, some e) = record { writer = w; layer = r; out = out; ending = e }

  -- What follows nextOut in a round.
  unfoldable pub send_given :
      (W → Reliable → BufferedPipe → Sent W)
      → LegRound
      → W
      → Reliable
      → BufferedPipe
      → NextOut
      → Sent W
  unfolding put_ack put_given put_late leg_on
  send_given k l w r out (fails eof) = record {
    writer = sink.farewell w;
    layer = r;
    out = out;
    ending = out_closed;
  }
  send_given k l w r out (fails pipe_interrupted) =
      let (r', due) = take_ack r in
      let more = leg_on (λ w'. k w' r' out) r' out (put_late l.late (put_ack w due)) in
      if l.leave then record { writer = w; layer = r; out = out; ending = leg_replaced } else more
  send_given k l w r out (sends c) =
      let (r', due) = take_ack r in
      leg_on (λ w'. k w' r' out) r' out (put_late l.late (put_given (sends c) (put_ack w due)))
  send_given k l w r out idle =
      let (r', due) = take_ack r in
      leg_on (λ w'. k w' r' out) r' out (put_late l.late (put_given idle (put_ack w due)))
  send_given k l w r out waits = record { writer = w; layer = r; out = out; ending = leg_parked }

  unfoldable pub after_next_out :
      (W → Reliable → BufferedPipe → Sent W)
      → LegRound
      → W
      → Reliable
      → BufferedPipe
      → Option (Reliable × BufferedPipe × NextOut × List Wake)
      → Sent W
  unfolding send_given
  after_next_out k l w r out none = record {
    writer = w;
    layer = r;
    out = out;
    ending = leg_panicked;
  }
  after_next_out k l w r out (some (r', out', given, ws)) =
      send_given k l w r' (settle out' ws) given

  -- The loop, with a buffer of `dst` bytes; `checks` is whether it asks its context first.
  unfoldable pub leg_loop : Bool → ℕ → W → Reliable → BufferedPipe → List LegRound → Sent W
  unfolding after_next_out
  leg_loop checks dst w r out [] = record { writer = w; layer = r; out = out; ending = leg_open }
  leg_loop checks dst w r out (l ∷ ls) =
      let now = l.others r in
      let more =
        after_next_out (λ w' r' out'. leg_loop checks dst w' r' out' ls) l w now out
          (next_out now out dst l.meanwhile l.wakes) in
      if checks && l.cancelled
      then record { writer = w; layer = r; out = out; ending = leg_cancelled }
      else more

-- A body of frames, behind an io.Writer.
unfoldable pub body_sink : {W E : Type 0} → (W → List ℕ → W × Option E) → ℕ → Sink W E
body_sink put typ = record {
  put_frame = λ w t payload. write_frame put w t payload;
  put_seq = λ w off payload. write_seq_frame put w off payload;
  farewell = λ w. (write_frame put w typ []).0;
}

module _ {W E : Type 0} (put : W → List ℕ → W × Option E) where
  -- pollStreamResumable, with the resetAck of pollStream before it.
  unfoldable pub poll_stream_resumable : ℕ → W → Reliable → BufferedPipe → List LegRound → Sent W
  unfolding leg_loop body_sink
  poll_stream_resumable dst w r out ls =
      leg_loop (body_sink put frame_gone) true dst w (reset_ack r) out ls

  -- feedSendStream of the resumable client.
  unfoldable pub feed_leg : ℕ → W → Reliable → BufferedPipe → List LegRound → Sent W
  unfolding leg_loop body_sink
  feed_leg dst w r out ls = leg_loop (body_sink put frame_end) false dst w (reset_ack r) out ls

-- Why a reading leg ended. `leg_broken` is the reader's error or the watchdog's.
pub data LegEnd : Type 0 where
  leg_stream_end leg_session_gone unnumbered leg_panic leg_no_response connection_failed : LegEnd
  leg_fatal leg_unknown : ℕ → LegEnd
  leg_broken leg_bad_frame : FrameError → LegEnd
  leg_layer : LayerError → LegEnd

leg_receipt : End → Option Receipt → Step End LegEnd
leg_receipt s none = stops s leg_panic
leg_receipt s (some q) =
    let after : End = record { layer = q.layer; inp = q.inp; out = q.out } in
    elim q.error [ none ↦ goes_on after | some e ↦ stops after (leg_layer e) ]

leg_seq : End → Result (ℕ × List ℕ) → Step End LegEnd
unfolding leg_receipt
leg_seq s (err e) = stops s (leg_bad_frame e)
leg_seq s (ok (off, bytes)) = leg_receipt s (recv_in s.layer s.inp s.out off bytes)

leg_acked : End → Option (Reliable × Option LayerError) → Step End LegEnd
leg_acked s none = stops s leg_panic
leg_acked s (some (r, none)) = goes_on (record s { layer = r })
leg_acked s (some (r, some e)) = stops (record s { layer = r }) (leg_layer e)

leg_ack : End → Result ℕ → Step End LegEnd
unfolding leg_acked
leg_ack s (err e) = stops s (leg_bad_frame e)
leg_ack s (ok n) = leg_acked s (ack s.layer n)

-- The frames that every numbered transport has; `otherwise` is what this one does with others.
unfoldable pub take_numbered : (End → ℕ → Step End LegEnd) → End → Frame → Step End LegEnd
unfolding leg_seq leg_ack
take_numbered otherwise s f =
    if f.typ == frame_seq_data
    then leg_seq s (split_seq f.payload)
    else if f.typ == frame_ack
    then leg_ack s (decode_ack f.payload)
    else if f.typ == frame_heartbeat
    then goes_on s
    else otherwise s f.typ

pub stream_otherwise : End → ℕ → Step End LegEnd
stream_otherwise s typ =
    if typ == frame_end
    then stops s leg_stream_end
    else if typ == frame_gone
    then stops s leg_session_gone
    else if typ == frame_data
    then stops s unnumbered
    else stops s (leg_unknown typ)

unfoldable pub take_leg_frame : End → Frame → Step End LegEnd
unfolding take_numbered stream_otherwise
take_leg_frame s f = take_numbered stream_otherwise s f

unfoldable pub leg_error : FrameError → LegEnd
leg_error Frame.eof = leg_stream_end
leg_error e = leg_broken e

-- doStreamPoll of the resumable client, from the response on.
unfoldable pub do_leg_poll : ℕ → End → Response → Option (End × LegEnd)
unfolding take_leg_frame leg_error read_frames
do_leg_poll max_frame s no_response = some (s, leg_no_response)
do_leg_poll max_frame s (response status src) =
    if status == 200
    then read_frames take_leg_frame leg_error max_frame (frames_bound src) s src
    else some (s, leg_fatal status)
