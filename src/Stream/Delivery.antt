-- ===== src/Stream/Delivery.antt =====
-- client.go and handler.go: a streamed body from the pipe at the server to the pipe at the client.

use pollmux.Base.{
  ℕ, suc, ◌≡◌, ◌<◌, refl, sym, ◌∙◌, Bool, true, false, List, [], ◌∷◌, ◌++◌, append-nil, Option,
  none, some, inl, inr, length, ltb, u32_mod, ◌==◌, if◌then◌else◌, arith,
}
use pollmux.Pipe.{BufferedPipe, WriteResult, Warning, wrote, closed_pipe, write}
use pollmux.Pipe.Content.{pending, buf-write, closed-write, write-open}
use pollmux.Frame.{Frame, frame_data, frame_heartbeat, frame_end, frame_gone}
use pollmux.Frame.Codec.{source}
use pollmux.Frame.Loop.{Step, goes_on, stops}
use pollmux.Stream.{
  Round, PollEnd, response, take_stream_frame, stream_error, appended, do_stream_poll, poll_stream,
}
use pollmux.Stream.Channel.{left_by, channel_part, channel_whole}
use pollmux.Stream.Reader.{Appends, branch, either}
use pollmux.Stream.Writer.{IsPlain, Adds, changes}

appended-wrote :
    (x : BufferedPipe × WriteResult × Option Warning) (n : ℕ)
    → x.1 ≡ wrote n
    → appended x ≡ goes_on x.0
unfolding appended
appended-wrote (p, wrote m, w) n h = refl
appended-wrote (p, closed_pipe, w) n h = cc h

-- The client's pipe as the reader's buffer.
abbrev pipe_buf : BufferedPipe → List ℕ
pipe_buf p = p.buf

abbrev IsOpen : BufferedPipe → Type 0
IsOpen p = p.closed ≡ false

abbrev PipeAppends : BufferedPipe → List ℕ → Step BufferedPipe PollEnd → Type 0
PipeAppends = Appends pipe_buf IsOpen

appended-Appends :
    (p : BufferedPipe) (bytes : List ℕ)
    → p.closed ≡ false
    → PipeAppends p bytes (appended (write p bytes))
appended-Appends p bytes o =
    rw (appended-wrote (write p bytes) (length bytes) (write-open p bytes o))
      (buf-write p bytes ∙ rw o refl, closed-write p bytes ∙ o)

data-Appends :
    (p : BufferedPipe) (payload : List ℕ)
    → p.closed ≡ false
    → PipeAppends p payload
        (if ltb 0 (length payload) then appended (write p payload) else goes_on p)
data-Appends p [] o = (sym (append-nil p.buf), o)
data-Appends p (b ∷ bytes) o = rw (ltb_suc (length bytes)) (appended-Appends p (b ∷ bytes) o)
  where
    ltb_suc : (n : ℕ) → ltb 0 (suc n) ≡ true
    ltb_suc n = ground arith

take_stream_frame-Appends :
    (p : BufferedPipe) (f : Frame)
    → p.closed ≡ false
    → PipeAppends p (if f.typ == frame_data then f.payload else []) (take_stream_frame p f)
unfolding take_stream_frame
take_stream_frame-Appends p f o =
    branch pipe_buf IsOpen p (f.typ == frame_data) _ _ _ _ (data-Appends p f.payload o) (
      either pipe_buf IsOpen p (f.typ == frame_heartbeat) _ _ _ (sym (append-nil p.buf), o)
        (either pipe_buf IsOpen p (f.typ == frame_end) _ _ _ refl
          (either pipe_buf IsOpen p (f.typ == frame_gone) _ _ _ refl refl)))

-- A frame of data, or a heartbeat, that stops the reader.
take_stream_frame-stops :
    (p : BufferedPipe) (f : Frame) (t : BufferedPipe) (r : PollEnd)
    → p.closed ≡ false
    → take_stream_frame p f ≡ stops t r
    → ¬ IsPlain f
unfolding take_stream_frame
take_stream_frame-stops p f t r o e (inl d) =
    ground (arith, appended-wrote (write p f.payload) (length f.payload) (write-open p f.payload o))
take_stream_frame-stops p f t r o e (inr d) = ground arith

module _ {W E : Type 0} (put : W → List ℕ → W × Option E) (content : W → List ℕ) where
  -- A stream as a channel of bytes. Whatever others do to the server's pipe, wherever a write fails,
  -- the body is cut or the session or the context ends: the poll returns, and what it has added to
  -- the client's open pipe, some bytes that are lost, and what the server has not taken from its
  -- pipe are, in this order, all that the pipe held and was given.
  pub stream_refines :
      ((w : W) (bytes : List ℕ) → Adds put content ⊥ w bytes (put w bytes))
      → (dst : ℕ) (w : W) (to_client : BufferedPipe) (rs : List Round) (read_pipe : BufferedPipe)
        (arrived cut : List ℕ) (broken : Bool)
      → 0 < dst
      → dst < u32_mod
      → read_pipe.closed ≡ false
      → content w ++ (arrived ++ cut) ≡ content (poll_stream put dst w to_client rs).writer
      → (x : BufferedPipe × PollEnd) × (got : List ℕ) × (lost : List ℕ) × (do_stream_poll dst
            read_pipe
            (response 200 (source arrived broken))
          ≡ some x)
        × (x.0.buf ≡ read_pipe.buf ++ got)
        × (got ++ (lost ++ left_by (poll_stream put dst w to_client rs))
            ≡ pending to_client (changes rs))
  unfolding poll_stream do_stream_poll
  stream_refines writes_part dst w to_client rs read_pipe arrived cut broken pos m o e =
      channel_part put content pipe_buf IsOpen take_stream_frame stream_error
        take_stream_frame-Appends writes_part true frame_gone dst dst w to_client rs read_pipe
        arrived cut broken (inr refl) pos m (omega arith) o e

  -- A stream on which no write fails, and whose body arrives whole, loses nothing, however it ends:
  -- the poll returns, and what it has added to the client's open pipe, and what the server has not
  -- taken from its own, are all that the server's pipe held and was given.
  pub stream_lossless :
      ((w : W) (bytes : List ℕ) → Adds put content Unit w bytes (put w bytes))
      → ((w : W) (bytes : List ℕ) → (put w bytes).1 ≡ none)
      → (dst : ℕ) (w : W) (to_client : BufferedPipe) (rs : List Round) (read_pipe : BufferedPipe)
        (arrived : List ℕ)
      → 0 < dst
      → dst < u32_mod
      → read_pipe.closed ≡ false
      → content w ++ arrived ≡ content (poll_stream put dst w to_client rs).writer
      → (x : BufferedPipe × PollEnd) × (got : List ℕ) × (do_stream_poll dst read_pipe
            (response 200 (source arrived false))
          ≡ some x)
        × (x.0.buf ≡ read_pipe.buf ++ got)
        × (got ++ left_by (poll_stream put dst w to_client rs) ≡ pending to_client (changes rs))
  unfolding poll_stream do_stream_poll
  stream_lossless writes_part never dst w to_client rs read_pipe arrived pos m o e =
      channel_whole put content pipe_buf IsOpen take_stream_frame stream_error
        take_stream_frame-Appends take_stream_frame-stops writes_part never true frame_gone dst dst
        w to_client rs read_pipe arrived (inr refl) pos m (omega arith) o e
