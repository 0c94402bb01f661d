-- ===== src/Upload.antt =====
-- handler.go and client.go: the upload as a streamed body, which feedSendStream writes (Stream). Here
-- pollSendStream reads it at the server, and doSendStream takes its answer at the client. Nobody
-- reads the session's pipe meanwhile: Read only takes bytes off its front.
pub mod Delivery
pub mod Refusal
mod Runs
use pollmux.Base.{
  ℕ, Bool, true, false, not, ◌&&◌, ◌||◌, List, [], ◌∷◌, Option, none, some, length, ◌==◌,
  if◌then◌else◌,
}
use pollmux.Pipe.{WriteResult, Warning, wrote, closed_pipe}
use pollmux.Frame.{
  Frame, Source, FrameError, Result, ok, err, eof, frame_data, frame_seq_data, frame_ack,
  frame_heartbeat, frame_end, split_seq, decode_ack,
}
use pollmux.Frame.Loop.{Step, goes_on, stops, read_frames}
use pollmux.Reliable.{
  Reliable, Receipt, LayerError, pipe_closed, replay_gap, bad_ack, mark_broken, recv_in, ack,
}
use pollmux.Session.{Session, write_upstream, is_set}
use pollmux.Stream.{Response, no_response, response, frames_bound}

-- How the handler ends: with a status, without one, or with a Go panic.
pub data SendReply : Type 0 where
  answered : ℕ → SendReply
  dropped panicked : SendReply

upstream : Session × WriteResult × Option Warning → Step Session SendReply
upstream (s, wrote n, warning) = goes_on s
upstream (s, closed_pipe, warning) = stops s (answered 410)

plain_data : Option Reliable → Session → List ℕ → Step Session SendReply
unfolding upstream
plain_data none s payload = upstream (write_upstream s payload)
plain_data (some r) s payload = stops (record s { rs = some (mark_broken r) }) (answered 400)

-- A frame of type frameData.
take_plain : Bool → Session → List ℕ → Step Session SendReply
unfolding plain_data
take_plain probe s payload =
    if length payload == 0 || probe then goes_on s else plain_data s.rs s payload

send_status : LayerError → ℕ
send_status pipe_closed = 410
send_status replay_gap = 400
send_status bad_ack = 400

after_receipt : Session → Option LayerError → Step Session SendReply
unfolding send_status
after_receipt s none = goes_on s
after_receipt s (some e) = stops s (answered (send_status e))

receipt_taken : Session → Option Receipt → Step Session SendReply
unfolding after_receipt
receipt_taken s none = stops s panicked
receipt_taken s (some q) =
    after_receipt (record s { rs = some q.layer; to_server = q.inp; to_client = q.out }) q.error

-- The layer, where the handler treats the session as resumable: a probe does not.
layer_of : Bool → Option Reliable → Option Reliable
layer_of true rs = none
layer_of false rs = rs

seq_data : Option Reliable → Session → Result (ℕ × List ℕ) → Step Session SendReply
unfolding receipt_taken
seq_data none s parts = stops s (answered 400)
seq_data (some r) s (err e) = stops s (answered 400)
seq_data (some r) s (ok (off, bytes)) =
    receipt_taken s (recv_in r s.to_server s.to_client off bytes)

ack_taken : Session → Option (Reliable × Option LayerError) → Step Session SendReply
ack_taken s none = stops s panicked
ack_taken s (some (r, none)) = goes_on (record s { rs = some r })
ack_taken s (some (r, some e)) = stops (record s { rs = some r }) (answered 400)

ack_frame : Option Reliable → Session → Result ℕ → Step Session SendReply
unfolding ack_taken
ack_frame none s n = stops s (answered 400)
ack_frame (some r) s (err e) = stops s (answered 400)
ack_frame (some r) s (ok n) = ack_taken s (ack r n)

unfoldable pub take_send_frame : Bool → Session → Frame → Step Session SendReply
unfolding take_plain layer_of seq_data ack_frame
take_send_frame probe s f =
    if f.typ == frame_data
    then take_plain probe s f.payload
    else if f.typ == frame_seq_data
    then seq_data (layer_of probe s.rs) s (split_seq f.payload)
    else if f.typ == frame_ack
    then ack_frame (layer_of probe s.rs) s (decode_ack f.payload)
    else if f.typ == frame_heartbeat
    then goes_on s
    else if f.typ == frame_end
    then stops s (answered 200)
    else stops s (answered 400)

unfoldable pub send_error : FrameError → SendReply
send_error eof = answered 200
send_error e = dropped

-- pollSendStream on a request body; `attached` is whether `attach` gave the handler the upstream
-- direction. `none` is a loop that would need more frames than the body has.
unfoldable pub poll_send_stream : Bool → Bool → ℕ → Session → Source → Option (Session × SendReply)
unfolding read_frames
poll_send_stream probe attached max_send_bytes s body =
    if is_set s.rs && (not probe && not attached)
    then some (s, answered 503)
    else read_frames (take_send_frame probe) send_error max_send_bytes (frames_bound body) s body

-- What doSendStream returns; `feed_failed` is the error of its own feeder.
pub data SendEnd : Type 0 where
  rolled_over send_failed feed_failed : SendEnd
  send_refused : ℕ → SendEnd

-- doSendStream, from the response on.
unfoldable pub do_send_stream : Option ℕ → Bool → SendEnd
do_send_stream none fed = send_failed
do_send_stream (some status) fed =
    if status == 200 then if fed then rolled_over else feed_failed else send_refused status
