-- ===== src/WebSocket/Transport.antt =====
-- websocket.go, frame.go and resumable_client.go: the same frames over a WebSocket and in a streamed
-- body.

use pollmux.Base.{
  ℕ, suc, ◌≡◌, refl, ap, ◌∙◌, true, false, ◌⊎◌, inl, inr, List, [], ◌∷◌, some, length, arith,
}
use pollmux.Frame.{Frame, FrameError, frame_seq_data, frame_ack, frame_heartbeat}
use pollmux.Frame.Codec.{source}
use pollmux.Frame.Loop.{Step, goes_on, stops, feed, after_feed}
use pollmux.Frame.Loop.Wire.{encodings, AllFit, read_frames-encodings}
use pollmux.Batch.{End}
use pollmux.Stream.{response}
use pollmux.Legs.{LegEnd, take_numbered, take_leg_frame, leg_error, do_leg_poll, stream_otherwise}
use pollmux.WebSocket.{
  Message, WsEnd, ws_encode, ws_decode, ws_handled, ws_decoded, ws_read, ws_otherwise,
  take_ws_numbered, ws_read_leg,
}

-- Each frame as a message.
abbrev pub messages : List Frame → List Message
messages [] = []
messages (f ∷ fs) = record { binary = true; bytes = ws_encode f.typ f.payload } ∷ messages fs

abbrev pub IsNumbered : Frame → Type 0
IsNumbered f = (f.typ ≡ frame_seq_data) ⊎ ((f.typ ≡ frame_ack) ⊎ (f.typ ≡ frame_heartbeat))

abbrev pub AllNumbered : List Frame → Type 0
AllNumbered [] = Unit
AllNumbered (f ∷ fs) = IsNumbered f × AllNumbered fs

-- Two handlings of one frame that agree.
module _ {S R : Type 0} (h g : S → Frame → Step S R) (fail : FrameError → R) (k : S → S × R)
    (j : S → S × WsEnd R) where
  both_steps :
      (d : Step S R)
      → ((t : S) → (k t).0 ≡ (j t).0)
      → (after_feed h fail k d).0 ≡ (ws_handled g j d).0
  unfolding after_feed ws_handled
  both_steps (goes_on t) q = q t
  both_steps (stops t r) q = refl

  same_step :
      (d e : Step S R)
      → d ≡ e
      → ((t : S) → (k t).0 ≡ (j t).0)
      → (after_feed h fail k d).0 ≡ (ws_handled g j e).0
  same_step d e p q = rw p (both_steps e q)

take_numbered-same :
    (o o' : End → ℕ → Step End LegEnd) (s : End) (f : Frame)
    → IsNumbered f
    → take_numbered o s f ≡ take_numbered o' s f
unfolding take_numbered
take_numbered-same o o' s f (inl e) = ground arith
take_numbered-same o o' s f (inr (inl e)) = ground arith
take_numbered-same o o' s f (inr (inr e)) = ground arith

frames-same : (s : End) (f : Frame) → IsNumbered f → take_leg_frame s f ≡ take_ws_numbered s f
unfolding take_leg_frame take_ws_numbered
frames-same s f n = take_numbered-same stream_otherwise ws_otherwise s f n

feed-same :
    (s : End) (fs : List Frame)
    → AllNumbered fs
    → (feed take_leg_frame leg_error s fs).0 ≡ (ws_read take_ws_numbered s (messages fs)).0
unfolding feed ws_read ws_decoded ws_decode ws_encode
feed-same s [] v = refl
feed-same s (f ∷ fs) (n, v) =
    same_step take_leg_frame take_ws_numbered leg_error (λ t. feed take_leg_frame leg_error t fs)
      (λ t. ws_read take_ws_numbered t (messages fs)) (take_leg_frame s f) (take_ws_numbered s f)
      (frames-same s f n) (λ t. feed-same t fs v)

-- The transports agree: numbered data, acknowledgements and heartbeats leave the resumable client's
-- layer and its pipes the same whether they come in the body of a stream poll, end to end, or as the
-- messages of a WebSocket. The frames fit their length fields and the reader's bound.
pub transports_agree :
    (max_frame : ℕ) (s : End) (fs : List Frame)
    → AllFit max_frame fs
    → AllNumbered fs
    → (r : LegEnd) × (do_leg_poll max_frame s (response 200 (source (encodings fs) false))
        ≡ some ((ws_read_leg s (messages fs)).0, r))
unfolding do_leg_poll ws_read_leg
transports_agree max_frame s fs fit v = (
  (feed take_leg_frame leg_error s fs).1,
  read_frames-encodings take_leg_frame leg_error max_frame (suc (length (encodings fs))) s fs fit
        (omega arith)
      ∙ ap (λ t. some (t, (feed take_leg_frame leg_error s fs).1)) (feed-same s fs v),
)
