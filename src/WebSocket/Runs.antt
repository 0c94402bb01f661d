-- ===== src/WebSocket/Runs.antt =====
-- Concrete runs of the WebSocket transport, and its theorems at concrete inputs.
use Prim.{tt}
use pollmux.Base.{◌≡◌, refl, true, false, List, [], ◌∷◌, some, pos, inl, inr, arith}
use pollmux.Pipe.{new_buffered_pipe}
use pollmux.Frame.{Frame, frame_seq_data, frame_ack, frame_heartbeat, payload_limit}
use pollmux.Frame.Codec.{source}
use pollmux.Frame.Loop.Wire.{encodings}
use pollmux.Reliable.{new_reliable}
use pollmux.Session.{
  Session, new_session, enable_resume, begin_websocket, end_websocket, resume_expired,
  note_detached, touch,
}
use pollmux.Batch.{End}
use pollmux.Stream.{response}
use pollmux.Legs.{LegEnd, do_leg_poll}
use pollmux.WebSocket.{
  WsRequest, ws_read_leg, serve_websocket, waited, ws_begun, ws_upgraded, ws_left, attachment_ended,
}
use pollmux.WebSocket.Transport.{messages, transports_agree}
use pollmux.WebSocket.Attaching.{Released, met, serve_websocket-Released}

-- A numbered frame with two bytes from offset 0, a heartbeat, and an acknowledgement of nothing.
abbrev three_frames : List Frame
three_frames =
    record { typ = frame_seq_data; payload = 0 ∷ 0 ∷ 0 ∷ 0 ∷ 0 ∷ 0 ∷ 0 ∷ 0 ∷ 8 ∷ 9 ∷ [] }
    ∷ record { typ = frame_heartbeat; payload = [] }
    ∷ record { typ = frame_ack; payload = 0 ∷ 0 ∷ 0 ∷ 0 ∷ 0 ∷ 0 ∷ 0 ∷ 0 ∷ [] }
    ∷ []

abbrev fresh_end : End
fresh_end = record {
  layer = new_reliable (pos 100);
  inp = new_buffered_pipe;
  out = new_buffered_pipe;
}

transports_agree_example :
    (r : LegEnd) × (do_leg_poll 50 fresh_end (response 200 (source (encodings three_frames) false))
      ≡ some ((ws_read_leg fresh_end (messages three_frames)).0, r))
transports_agree_example =
    transports_agree 50 fresh_end three_frames
      (
        omega arith,
        unfold payload_limit in omega arith,
        (
          omega arith,
          unfold payload_limit in omega arith,
          (omega arith, unfold payload_limit in omega arith, tt),
        ),
      )
      (inl refl, (inr (inr refl), (inr (inl refl), tt)))

abbrev websocket_session : Session
websocket_session = record (new_session "s" [] 0) { websocket = true }

abbrev upgrade : WsRequest
upgrade = record {
  waits = λ t. end_websocket t 4;
  attached = true;
  accepted = true;
  current = true;
  run = λ t. t;
  now = 5;
  later = 9;
}

-- A resumable session with a stale WebSocket, which leaves when it is kicked.
abbrev stale_session : Session
stale_session = record (enable_resume websocket_session (pos 100) 30) {
  ws_attached = true;
  poll_in_flight = pos 1;
}

stale_is_displaced : (serve_websocket stale_session upgrade).1 ≡ attachment_ended
unfolding serve_websocket waited ws_begun ws_upgraded ws_left begin_websocket end_websocket
    resume_expired enable_resume new_session note_detached touch new_reliable
stale_is_displaced = refl

serve_websocket-Released_example :
    Released stale_session
      (met stale_session upgrade)
      upgrade
      (serve_websocket stale_session upgrade)
serve_websocket-Released_example =
    serve_websocket-Released stale_session upgrade (λ t. (refl, refl))
