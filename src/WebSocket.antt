-- ===== src/WebSocket.antt =====
-- websocket.go, and the WebSocket legs of resumable_client.go. The connection is third-party code: a
-- reader is given the messages that it delivers until it fails, a writer is a parameter, and the read
-- limit is the connection's. A message is one frame, with no length of its own.
pub mod Transport
pub mod Attaching
mod Runs
use pollmux.Base.{
  ℕ, Bool, true, false, not, ◌&&◌, ◌||◌, List, [], ◌∷◌, ◌++◌, Option, none, some, ltb, ◌==◌, length,
  if◌then◌else◌, big_endian,
}
use pollmux.Pipe.{
  BufferedPipe, WriteResult, Warning, ReadResult, got, failed, blocked, eof, pipe_interrupted,
  wrote, closed_pipe, read_available, write,
}
use pollmux.Frame.{
  Frame, FrameError, Result, ok, err, split_seq, decode_ack, frame_data, frame_heartbeat, frame_ack,
  frame_seq_data,
}
use pollmux.Frame.Loop.{Step, goes_on, stops}
use pollmux.Reliable.{Reliable, Receipt, LayerError, mark_broken, recv_in, ack, reset_ack}
use pollmux.Session.{
  Session, write_upstream, is_set, begin_websocket, end_websocket, refuses_attach, touch,
}
use pollmux.Batch.{End}
use pollmux.Stream.{Round, Ending, Streamed, pipe_done, write_failed, parked, open_end, settle}
use pollmux.Legs.{LegRound, LegEnd, Sent, Sink, leg_loop, take_numbered, unnumbered, leg_unknown}

unfoldable pub ws_encode : ℕ → List ℕ → List ℕ
ws_encode typ payload = typ ∷ payload

unfoldable pub ws_encode_seq : ℕ → List ℕ → List ℕ
ws_encode_seq off payload = frame_seq_data ∷ (big_endian 8 off ++ payload)

-- `none` is the error for an empty message.
unfoldable pub ws_decode : List ℕ → Option Frame
ws_decode [] = none
ws_decode (typ ∷ payload) = some (record { typ = typ; payload = payload })

pub record Message : Type 0 where
  pub binary : Bool
  pub bytes : List ℕ

-- How a loop over messages ends: as its handling of a frame says, at an empty message, or with the
-- connection.
pub data WsEnd (R : Type 0) : Type 0 where
  ws_stopped : R → WsEnd R
  ws_empty ws_failed : WsEnd R

module _ {S R : Type 0} (handle : S → Frame → Step S R) where
  ws_handled : (S → S × WsEnd R) → Step S R → S × WsEnd R
  ws_handled k (goes_on s) = k s
  ws_handled k (stops s r) = (s, ws_stopped r)

  ws_decoded : (S → S × WsEnd R) → S → Option Frame → S × WsEnd R
  unfolding ws_handled
  ws_decoded k s none = (s, ws_empty)
  ws_decoded k s (some f) = ws_handled k (handle s f)

  -- The reading loops.
  unfoldable pub ws_read : S → List Message → S × WsEnd R
  unfolding ws_decoded ws_decode
  ws_read s [] = (s, ws_failed)
  ws_read s (m ∷ ms) =
      let next = ws_read s ms in
      let taken = ws_decoded (λ t. ws_read t ms) s (ws_decode m.bytes) in
      if m.binary then taken else next

-- Why wsReadPump ends of itself.
pub data PumpEnd : Type 0 where
  pump_unnumbered pump_closed pump_not_resumable pump_panic : PumpEnd
  pump_bad_frame : FrameError → PumpEnd
  pump_layer : LayerError → PumpEnd
  pump_unexpected : ℕ → PumpEnd

pump_wrote : Session × WriteResult × Option Warning → Step Session PumpEnd
pump_wrote (s, wrote n, warning) = goes_on s
pump_wrote (s, closed_pipe, warning) = stops s pump_closed

pump_data : Option Reliable → Session → List ℕ → Step Session PumpEnd
unfolding pump_wrote
pump_data (some r) s payload = stops (record s { rs = some (mark_broken r) }) pump_unnumbered
pump_data none s payload =
    if ltb 0 (length payload) then pump_wrote (write_upstream s payload) else goes_on s

pump_receipt : Session → Option Receipt → Step Session PumpEnd
pump_receipt s none = stops s pump_panic
pump_receipt s (some q) =
    let after : Session = record s { rs = some q.layer; to_server = q.inp; to_client = q.out } in
    elim q.error [ none ↦ goes_on after | some e ↦ stops after (pump_layer e) ]

pump_seq : Option Reliable → Session → Result (ℕ × List ℕ) → Step Session PumpEnd
unfolding pump_receipt
pump_seq none s parts = stops s pump_not_resumable
pump_seq (some r) s (err e) = stops s (pump_bad_frame e)
pump_seq (some r) s (ok (off, bytes)) = pump_receipt s (recv_in r s.to_server s.to_client off bytes)

pump_acked : Session → Option (Reliable × Option LayerError) → Step Session PumpEnd
pump_acked s none = stops s pump_panic
pump_acked s (some (r, none)) = goes_on (record s { rs = some r })
pump_acked s (some (r, some e)) = stops (record s { rs = some r }) (pump_layer e)

pump_ack : Option Reliable → Session → Result ℕ → Step Session PumpEnd
unfolding pump_acked
pump_ack none s n = stops s pump_not_resumable
pump_ack (some r) s (err e) = stops s (pump_bad_frame e)
pump_ack (some r) s (ok n) = pump_acked s (ack r n)

unfoldable pub take_pumped : Session → Frame → Step Session PumpEnd
unfolding pump_data pump_seq pump_ack
take_pumped s f =
    if f.typ == frame_data
    then pump_data s.rs s f.payload
    else if f.typ == frame_seq_data
    then pump_seq s.rs s (split_seq f.payload)
    else if f.typ == frame_ack
    then pump_ack s.rs s (decode_ack f.payload)
    else if f.typ == frame_heartbeat
    then goes_on s
    else stops s (pump_unexpected f.typ)

unfoldable pub ws_read_pump : Session → List Message → Session × WsEnd PumpEnd
unfolding ws_read take_pumped
ws_read_pump s ms = ws_read take_pumped s ms

-- The handling of readLoop: `false` where it returns without a word, since the pipe is closed.
client_wrote : BufferedPipe × WriteResult × Option Warning → Step BufferedPipe Bool
client_wrote (p, wrote n, warning) = goes_on p
client_wrote (p, closed_pipe, warning) = stops p false

unfoldable pub take_ws_data : BufferedPipe → Frame → Step BufferedPipe Bool
unfolding client_wrote
take_ws_data p f =
    if f.typ == frame_data
    then if ltb 0 (length f.payload) then client_wrote (write p f.payload) else goes_on p
    else if f.typ == frame_heartbeat
    then goes_on p
    else stops p true

-- wsConn.readLoop: what it leaves of the read pipe, and how it ends.
unfoldable pub ws_read_loop : BufferedPipe → List Message → BufferedPipe × WsEnd Bool
unfolding ws_read take_ws_data
ws_read_loop p ms = ws_read take_ws_data p ms

ws_otherwise : End → ℕ → Step End LegEnd
ws_otherwise s typ = if typ == frame_data then stops s unnumbered else stops s (leg_unknown typ)

unfoldable pub take_ws_numbered : End → Frame → Step End LegEnd
unfolding take_numbered ws_otherwise
take_ws_numbered s f = take_numbered ws_otherwise s f

-- wsReadLoop of the resumable client.
unfoldable pub ws_read_leg : End → List Message → End × WsEnd LegEnd
unfolding ws_read take_ws_numbered
ws_read_leg s ms = ws_read take_ws_numbered s ms

-- The connection's Write of one binary message, over states `W`, with its errors.
module _ {W E : Type 0} (send : W → List ℕ → W × Option E) where
  ws_attempt : W × Option E → W × Option Ending
  ws_attempt (w, none) = (w, none)
  ws_attempt (w, some e) = (w, some write_failed)

  unfoldable pub ws_put_reading : W → ReadResult → W × Option Ending
  unfolding ws_attempt ws_encode
  ws_put_reading w (got []) = ws_attempt (send w (ws_encode frame_heartbeat []))
  ws_put_reading w (got (b ∷ bytes)) = ws_attempt (send w (ws_encode frame_data (b ∷ bytes)))
  ws_put_reading w (failed eof) = (w, some pipe_done)
  ws_put_reading w (failed pipe_interrupted) = ws_attempt (send w (ws_encode frame_heartbeat []))
  ws_put_reading w blocked = (w, some parked)

  ws_on : (W → Streamed W) → BufferedPipe → List Round → W × Option Ending → Streamed W
  ws_on k p rs (w, none) = k w
  ws_on k p rs (w, some e) = record { writer = w; pipe = p; ending = e; rest = rs }

  -- wsWritePump on a session that is not resumable, and writeLoop: the loop over ReadAvailable.
  unfoldable pub ws_write_pump : ℕ → W → BufferedPipe → List Round → Streamed W
  unfolding ws_put_reading ws_on settle
  ws_write_pump dst w p [] = record { writer = w; pipe = p; ending = open_end; rest = [] }
  ws_write_pump dst w p (r ∷ rs) =
      let (p', result, ws) = read_available p dst r.wakes in
      let after = settle p' ws in
      ws_on (λ w'. ws_write_pump dst w' after rs) after rs (ws_put_reading w result)

  unfoldable pub ws_sink : Sink W E
  unfolding ws_encode ws_encode_seq
  ws_sink = record {
    put_frame = λ w typ payload. send w (ws_encode typ payload);
    put_seq = λ w off payload. send w (ws_encode_seq off payload);
    farewell = λ w. w;
  }

  -- A WebSocket has no deadline.
  never_late : List LegRound → List LegRound
  never_late [] = []
  never_late (l ∷ ls) = record l { late = false } ∷ never_late ls

  -- wsWritePumpResumable, with the resetAck of its handler, and wsWriteLoop of the resumable client.
  unfoldable pub ws_write_leg : ℕ → W → Reliable → BufferedPipe → List LegRound → Sent W
  unfolding leg_loop never_late ws_sink
  ws_write_leg dst w r out ls = leg_loop ws_sink false dst w (reset_ack r) out (never_late ls)

-- How WebSocketHandler ends: a refusal, an upgrade that failed, a connection that was replaced before
-- it was known, or an attachment that has run.
pub data WsReply : Type 0 where
  ws_refused : ℕ → WsReply
  not_upgraded replaced_at_once attachment_ended : WsReply

-- One request as the handler meets it. `waits` is what others do to the session while attach kicks the
-- last transport of a resumable session and waits for it to leave, its own endWebSocket among it;
-- `attached` and `current` are what the attachments said, and `run` what the two pumps and everybody
-- else do to the session while it is attached.
pub record WsRequest : Type 0 where
  pub waits : Session → Session
  pub attached : Bool
  pub accepted : Bool
  pub current : Bool
  pub run : Session → Session
  pub now : ℕ
  pub later : ℕ

reset_layer : Session → Session
reset_layer s = record s { rs = elim s.rs [ none ↦ none | some r ↦ some (reset_ack r) ] }

-- The handler between beginWebSocket and endWebSocket.
ws_upgraded : Session → WsRequest → Session × WsReply
unfolding reset_layer
ws_upgraded s q =
    if not q.accepted
    then (s, not_upgraded)
    else if is_set s.rs && not q.current
    then (s, replaced_at_once)
    else (q.run (reset_layer s), attachment_ended)

ws_left : Session × WsReply → ℕ → Session × WsReply
unfolding end_websocket
ws_left (s, reply) later = (end_websocket s later, reply)

ws_begun : Session × Bool → WsRequest → Session × WsReply
unfolding ws_left ws_upgraded
ws_begun (s, true) q = ws_left (ws_upgraded (touch s q.now) q) q.later
ws_begun (s, false) q = if refuses_attach s q.now then (s, ws_refused 410) else (s, ws_refused 409)

-- The session behind attach.
waited : Session → WsRequest → Session
waited s q = if is_set s.rs then q.waits s else s

-- WebSocketHandler, on the session that the store has for the id.
unfoldable pub serve_websocket : Session → WsRequest → Session × WsReply
unfolding ws_begun waited
serve_websocket s q =
    let t = waited s q in
    if not s.websocket
    then (s, ws_refused 400)
    else if is_set s.rs && not q.attached
    then (t, ws_refused 503)
    else ws_begun (begin_websocket t q.now) q
