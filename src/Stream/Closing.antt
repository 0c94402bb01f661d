-- ===== src/Stream/Closing.antt =====
-- client.go: doStreamPoll does not close the pipe that it writes to.
use pollmux.Base.{
  ℕ, suc, ◌≡◌, ◌∙◌, Bool, true, false, Option, some, if◌then◌else◌, ltb, length, ◌==◌,
}
use pollmux.Pipe.{BufferedPipe, WriteResult, Warning, wrote, closed_pipe, write}
use pollmux.Pipe.Content.{closed-write}
use pollmux.Frame.{Frame, frame_data, frame_heartbeat, frame_end, frame_gone}
use pollmux.Frame.Loop.{Step, StepKeeps, EndKeeps, read_frames, read_frames-Keeps}
use pollmux.Stream.{
  Response, no_response, response, PollEnd, fatal, stream_error, take_stream_frame, appended,
  do_stream_poll,
}

-- A stream poll writes to the read pipe and does not close it.
module _ (closed : Bool) where
  abbrev Stays : Step BufferedPipe PollEnd → Type 0
  Stays = StepKeeps take_stream_frame stream_error (λ p. p.closed ≡ closed)

  appended-Stays :
      (x : BufferedPipe × WriteResult × Option Warning) → x.0.closed ≡ closed → Stays (appended x)
  unfolding appended
  appended-Stays (p, wrote n, w) e = e
  appended-Stays (p, closed_pipe, w) e = e

  either :
      (b : Bool) (x y : Step BufferedPipe PollEnd) → Stays x → Stays y → Stays (if b then x else y)
  either true x y u v = u
  either false x y u v = v

  take_stream_frame-Stays :
      (p : BufferedPipe) (f : Frame) → p.closed ≡ closed → Stays (take_stream_frame p f)
  unfolding take_stream_frame
  take_stream_frame-Stays p f e =
      either (f.typ == frame_data) _ _
        (either (ltb 0 (length f.payload)) _ _
          (appended-Stays (write p f.payload) (closed-write p f.payload ∙ e)) e)
        (either (f.typ == frame_heartbeat) _ _ e
          (either (f.typ == frame_end) _ _ e (either (f.typ == frame_gone) _ _ e e)))

  pub do_stream_poll-Stays :
      (max_frame : ℕ) (p : BufferedPipe) (r : Response)
      → p.closed ≡ closed
      → EndKeeps take_stream_frame stream_error
          (λ q. q.closed ≡ closed)
          (do_stream_poll max_frame p r)
  unfolding do_stream_poll
  do_stream_poll-Stays max_frame p no_response e = e
  do_stream_poll-Stays max_frame p (response status src) e = answered (status == 200)
    where
      answered :
          (b : Bool)
          → EndKeeps take_stream_frame stream_error
              (λ q. q.closed ≡ closed)
              (if b
                then read_frames take_stream_frame stream_error max_frame
                    (suc (length src.bytes))
                    p
                    src
                else some (p, fatal status))
      answered true =
          read_frames-Keeps take_stream_frame stream_error (λ q. q.closed ≡ closed)
            take_stream_frame-Stays max_frame (suc (length src.bytes)) p src e
      answered false = e
