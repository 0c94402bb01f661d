-- ===== src/Upload/Runs.antt =====
-- Concrete runs of the streamed upload, and its theorems at concrete inputs.
use pollmux.Base.{
  ℕ, ◌≡◌, refl, true, false, List, [], ◌∷◌, ◌++◌, sym, ◌∙◌, append-nil, Option, none, some, arith,
}
use pollmux.Base
use pollmux.Pipe.{
  new_buffered_pipe, writes, closes, write, note_high_water, read_available, apply, apply_all,
  close,
}
use pollmux.Pipe.Content.{pending}
use Prim.{tt}
use pollmux.Frame.{write_frame, frame_data, payload_limit}
use pollmux.Frame.Loop.{feed}
use pollmux.Frame.Loop.Wire.{encodings}
use pollmux.Frame.Codec.{source, encoding}
use pollmux.Stream.{Round, settle, put_reading, stream_loop, feed_send_stream}
use pollmux.Stream.Writer.{Adds, changes}
use pollmux.Stream.Channel.{left_by}
use pollmux.Session.{Session, new_session}
use pollmux.Upload.{SendReply, dropped, poll_send_stream, take_send_frame}
use pollmux.Upload.Delivery.{upload_lossless}
use pollmux.Upload.Refusal.{poll_send_stream-too_long}

abbrev append_put : List ℕ → List ℕ → List ℕ × Option ℕ
append_put w bytes = (w ++ bytes, none)

abbrev content : List ℕ → List ℕ
content w = w

append-Adds : (w bytes : List ℕ) → Adds append_put content ⊥ w bytes (append_put w bytes)
append-Adds w bytes = (bytes, [], refl, append-nil bytes, λ h. refl)

append-Sure : (w bytes : List ℕ) → Adds append_put content Unit w bytes (append_put w bytes)
append-Sure w bytes = (bytes, [], refl, append-nil bytes, λ h. refl)

append-never : (w bytes : List ℕ) → (append_put w bytes).1 ≡ none
append-never w bytes = refl

-- Two bytes are written, then the connection closes.
abbrev two_rounds : List Round
two_rounds =
    record { cancelled = false; wakes = (writes (8 ∷ 9 ∷ []) ∷ []) ∷ []; late = false }
    ∷ record { cancelled = false; wakes = (closes ∷ []) ∷ []; late = false }
    ∷ []

-- A data frame and an end.
abbrev wire : List ℕ
wire = 1 ∷ 0 ∷ 0 ∷ 0 ∷ 2 ∷ 8 ∷ 9 ∷ 3 ∷ 0 ∷ 0 ∷ 0 ∷ 0 ∷ []

feed_send_stream-wire :
    (feed_send_stream append_put 2 [] new_buffered_pipe two_rounds).writer ≡ wire
unfolding feed_send_stream stream_loop put_reading settle read_available apply apply_all write
    note_high_water close new_buffered_pipe write_frame Base.big_endian
feed_send_stream-wire = refl

abbrev plain_session : Session
plain_session = new_session "s" [] 0

upload_lossless_example :
    (x : Session × SendReply) × (got : List ℕ) × (poll_send_stream false false 2 plain_session
        (source wire false)
      ≡ some x)
    × (x.0.to_server.buf ≡ plain_session.to_server.buf ++ got)
    × (got ++ left_by (feed_send_stream append_put 2 [] new_buffered_pipe two_rounds)
        ≡ pending new_buffered_pipe (changes two_rounds))
upload_lossless_example =
    upload_lossless append_put content append-Sure append-never 2 2 [] new_buffered_pipe two_rounds
      plain_session wire (omega arith) (omega arith) (omega arith) (unfold new_session in refl)
      (unfold new_session new_buffered_pipe in refl) (sym feed_send_stream-wire)

-- A frame of one byte is taken, and one of two bytes too long.
poll_send_stream-too_long_example :
    poll_send_stream false true 1 plain_session (
      source
        (encodings (record { typ = frame_data; payload = 7 ∷ [] } ∷ [])
          ++ (encoding frame_data (8 ∷ 9 ∷ []) ++ (3 ∷ [])))
        false)
    ≡ some (
        feed
          (take_send_frame false)
          (λ e. dropped)
          plain_session
          (record { typ = frame_data; payload = 7 ∷ [] } ∷ []))
poll_send_stream-too_long_example =
    poll_send_stream-too_long 1 plain_session (record { typ = frame_data; payload = 7 ∷ [] } ∷ [])
      frame_data (8 ∷ 9 ∷ []) (3 ∷ []) false (omega arith, unfold payload_limit in omega arith, tt)
      (omega arith) (unfold payload_limit in omega arith)
