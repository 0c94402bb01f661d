-- ===== src/Upload/Delivery.antt =====
-- client.go and handler.go: a streamed upload from the client's pipe to the session's.

use pollmux.Base.{
  ℕ, suc, ◌≡◌, ◌≤◌, ◌<◌, refl, sym, ◌∙◌, Bool, false, ◌||◌, List, [], ◌∷◌, ◌++◌, append-nil, Option,
  none, some, inl, inr, length, u32_mod, ◌==◌, if◌then◌else◌, arith,
}
use pollmux.Pipe.{BufferedPipe, WriteResult, Warning, wrote, closed_pipe}
use pollmux.Pipe.Content.{pending, buf-write, closed-write, write-open}
use pollmux.Reliable.{Reliable}
use pollmux.Session.{Session, write_upstream, is_set}
use pollmux.Frame.{
  Frame, Source, Result, frame_data, frame_seq_data, frame_ack, frame_heartbeat, frame_end,
  split_seq, decode_ack,
}
use pollmux.Frame.Codec.{source}
use pollmux.Frame.Loop.{Step, goes_on, stops, read_frames}
use pollmux.Stream.{Round, feed_send_stream}
use pollmux.Stream.Writer.{Adds, changes}
use pollmux.Stream.Writer
use pollmux.Stream.Channel.{left_by, channel_part, channel_whole}
use pollmux.Stream.Reader.{Appends, frame_bytes, branch, either}
use pollmux.Upload.{
  SendReply, upstream, plain_data, take_plain, layer_of, seq_data, ack_frame, take_send_frame,
  send_error, poll_send_stream,
}

-- The session's pipe as the reader's buffer, on a session that is not resumable.
abbrev upstream_buf : Session → List ℕ
upstream_buf s = s.to_server.buf

abbrev IsPlain : Session → Type 0
IsPlain s = (s.rs ≡ none) × (s.to_server.closed ≡ false)

abbrev SessionAppends : Session → List ℕ → Step Session SendReply → Type 0
SessionAppends = Appends upstream_buf IsPlain

upstream-wrote :
    (x : Session × WriteResult × Option Warning) (n : ℕ) → x.1 ≡ wrote n → upstream x ≡ goes_on x.0
unfolding upstream
upstream-wrote (s, wrote m, w) n h = refl
upstream-wrote (s, closed_pipe, w) n h = cc h

plain_data-upstream :
    (rs : Option Reliable) (s : Session) (bytes : List ℕ)
    → rs ≡ none
    → IsPlain s
    → plain_data rs s bytes ≡ goes_on (write_upstream s bytes).0
unfolding plain_data write_upstream
plain_data-upstream none s bytes e (r, o) =
    upstream-wrote (write_upstream s bytes) (length bytes) (write-open s.to_server bytes o)
plain_data-upstream (some l) s bytes e v = absurd (cc e)

plain_data-Appends :
    (rs : Option Reliable) (s : Session) (bytes : List ℕ)
    → rs ≡ none
    → IsPlain s
    → SessionAppends s bytes (plain_data rs s bytes)
unfolding write_upstream
plain_data-Appends rs s bytes e v =
    rw (plain_data-upstream rs s bytes e v)
      (buf-write s.to_server bytes ∙ rw v.1 refl, (v.0, closed-write s.to_server bytes ∙ v.1))

take_plain-Appends :
    (s : Session) (payload : List ℕ)
    → IsPlain s
    → SessionAppends s payload (take_plain false s payload)
unfolding take_plain
take_plain-Appends s [] v = (sym (append-nil s.to_server.buf), v)
take_plain-Appends s (b ∷ bytes) v =
    rw (suc_ne_zero (length bytes)) (plain_data-Appends s.rs s (b ∷ bytes) v.0 v)
  where
    suc_ne_zero : (n : ℕ) → (suc n == 0) || false ≡ false
    suc_ne_zero n = ground arith

seq_data-Appends :
    (rs : Option Reliable) (s : Session) (parts : Result (ℕ × List ℕ))
    → rs ≡ none
    → SessionAppends s [] (seq_data rs s parts)
unfolding seq_data
seq_data-Appends none s parts e = refl
seq_data-Appends (some r) s parts e = cc e

ack_frame-Appends :
    (rs : Option Reliable) (s : Session) (n : Result ℕ)
    → rs ≡ none
    → SessionAppends s [] (ack_frame rs s n)
unfolding ack_frame
ack_frame-Appends none s n e = refl
ack_frame-Appends (some r) s n e = cc e

take_send_frame-Appends :
    (s : Session) (f : Frame)
    → IsPlain s
    → SessionAppends s (frame_bytes f) (take_send_frame false s f)
unfolding take_send_frame layer_of
take_send_frame-Appends s f v =
    let either : (b : Bool) (x y : Step Session SendReply)
        → SessionAppends s [] x
        → SessionAppends s [] y
        → SessionAppends s [] (if b then x else y) =
      λ b. either upstream_buf IsPlain s b [] in
    branch upstream_buf IsPlain s (f.typ == frame_data) _ _ _ _ (take_plain-Appends s f.payload v) (
      either (f.typ == frame_seq_data) _ _ (seq_data-Appends s.rs s (split_seq f.payload) v.0) (
        either (f.typ == frame_ack) _ _ (ack_frame-Appends s.rs s (decode_ack f.payload) v.0) (
          either (f.typ == frame_heartbeat) _ _ (sym (append-nil s.to_server.buf), v)
            (either (f.typ == frame_end) _ _ refl refl))))

not_layered : (rs : Option Reliable) → rs ≡ none → is_set rs ≡ false
not_layered none e = refl
not_layered (some r) e = cc e

poll_send_stream-plain :
    (probe attached : Bool) (max_send_bytes : ℕ) (s : Session) (body : Source)
    → s.rs ≡ none
    → poll_send_stream probe attached max_send_bytes s body
      ≡ read_frames
          (take_send_frame probe)
          send_error
          max_send_bytes
          (suc (length body.bytes))
          s
          body
unfolding poll_send_stream
poll_send_stream-plain probe attached max_send_bytes s body e = rw (not_layered s.rs e) refl

take_send_frame-stops :
    (s : Session) (f : Frame) (t : Session) (r : SendReply)
    → IsPlain s
    → take_send_frame false s f ≡ stops t r
    → ¬ Writer.IsPlain f
unfolding take_send_frame take_plain
take_send_frame-stops s f t r v e (inl d) =
    ground (arith, plain_data-upstream s.rs s f.payload v.0 v)
take_send_frame-stops s f t r v e (inr d) = ground arith

module _ {W E : Type 0} (put : W → List ℕ → W × Option E) (content : W → List ℕ) where
  -- A streamed upload as a channel of bytes, on a session that is not resumable and open. Whatever
  -- others do to the client's pipe, wherever a write fails or the body is cut: the handler ends, and
  -- what it has added to the session's pipe, some bytes that are lost, and what the client has not
  -- taken from its pipe are, in this order, all that the pipe held and was given. The client's buffer
  -- is no larger than the server's max_send_bytes.
  pub upload_refines :
      ((w : W) (bytes : List ℕ) → Adds put content ⊥ w bytes (put w bytes))
      → (dst max_send_bytes : ℕ) (w : W) (write_pipe : BufferedPipe) (rs : List Round) (s : Session)
        (arrived cut : List ℕ) (broken : Bool)
      → 0 < dst
      → dst < u32_mod
      → dst ≤ max_send_bytes
      → s.rs ≡ none
      → s.to_server.closed ≡ false
      → content w ++ (arrived ++ cut) ≡ content (feed_send_stream put dst w write_pipe rs).writer
      → (x : Session × SendReply) × (got : List ℕ) × (lost : List ℕ) × (poll_send_stream false false
            max_send_bytes s
            (source arrived broken)
          ≡ some x)
        × (x.0.to_server.buf ≡ s.to_server.buf ++ got)
        × (got ++ (lost ++ left_by (feed_send_stream put dst w write_pipe rs))
            ≡ pending write_pipe (changes rs))
  unfolding feed_send_stream
  upload_refines writes_part dst max_send_bytes w write_pipe rs s arrived cut broken pos m le plain
        o e =
      rw (poll_send_stream-plain false false max_send_bytes s (source arrived broken) plain) (
        channel_part put content upstream_buf IsPlain (take_send_frame false) send_error
          take_send_frame-Appends writes_part false frame_end dst max_send_bytes w write_pipe rs s
          arrived cut broken (inl refl) pos m le (plain, o) e)

  -- A streamed upload on which no write fails, and whose body arrives whole, loses nothing, on a
  -- session that is not resumable and open: what the handler has added to the session's pipe, and
  -- what the client has not taken from its own, are all that the client's pipe held and was given.
  -- The client's buffer is no larger than the server's max_send_bytes.
  pub upload_lossless :
      ((w : W) (bytes : List ℕ) → Adds put content Unit w bytes (put w bytes))
      → ((w : W) (bytes : List ℕ) → (put w bytes).1 ≡ none)
      → (dst max_send_bytes : ℕ) (w : W) (write_pipe : BufferedPipe) (rs : List Round) (s : Session)
        (arrived : List ℕ)
      → 0 < dst
      → dst < u32_mod
      → dst ≤ max_send_bytes
      → s.rs ≡ none
      → s.to_server.closed ≡ false
      → content w ++ arrived ≡ content (feed_send_stream put dst w write_pipe rs).writer
      → (x : Session × SendReply) × (got : List ℕ) × (poll_send_stream false false max_send_bytes s
            (source arrived false)
          ≡ some x)
        × (x.0.to_server.buf ≡ s.to_server.buf ++ got)
        × (got ++ left_by (feed_send_stream put dst w write_pipe rs)
            ≡ pending write_pipe (changes rs))
  unfolding feed_send_stream
  upload_lossless writes_part never dst max_send_bytes w write_pipe rs s arrived pos m le plain o
        e =
      rw (poll_send_stream-plain false false max_send_bytes s (source arrived false) plain) (
        channel_whole put content upstream_buf IsPlain (take_send_frame false) send_error
          take_send_frame-Appends take_send_frame-stops writes_part never false frame_end dst
          max_send_bytes w write_pipe rs s arrived (inl refl) pos m le (plain, o) e)
