-- ===== src/Stream/Runs.antt =====
-- Concrete runs of the streamed download, and its theorem at a concrete input.
use pollmux.Base.{
  ℕ, ◌≡◌, refl, true, false, List, [], ◌∷◌, ◌++◌, sym, ◌∙◌, append-nil, Option, none, some, arith,
}
use pollmux.Base
use pollmux.Pipe.{
  BufferedPipe, new_buffered_pipe, writes, closes, write, note_high_water, read_available, apply,
  apply_all, close,
}
use pollmux.Pipe.Content.{pending}
use pollmux.Frame.{write_frame}
use pollmux.Frame.Codec.{source}
use pollmux.Stream.{
  Round, PollEnd, response, settle, put_reading, stream_loop, do_stream_poll, poll_stream,
}
use pollmux.Stream.Writer.{Adds, changes}
use pollmux.Stream.Channel.{left_by}
use pollmux.Stream.Delivery.{stream_lossless}

abbrev append_put : List ℕ → List ℕ → List ℕ × Option ℕ
append_put w bytes = (w ++ bytes, none)

abbrev content : List ℕ → List ℕ
content w = w

append-Adds : (w bytes : List ℕ) → Adds append_put content ⊥ w bytes (append_put w bytes)
append-Adds w bytes = (bytes, [], refl, append-nil bytes, λ h. refl)

append-Sure : (w bytes : List ℕ) → Adds append_put content Unit w bytes (append_put w bytes)
append-Sure w bytes = (bytes, [], refl, append-nil bytes, λ h. refl)

append-never : (w bytes : List ℕ) → (append_put w bytes).1 ≡ none
append-never w bytes = refl

-- Two bytes arrive, then the session closes.
abbrev two_rounds : List Round
two_rounds =
    record { cancelled = false; wakes = (writes (8 ∷ 9 ∷ []) ∷ []) ∷ []; late = false }
    ∷ record { cancelled = false; wakes = (closes ∷ []) ∷ []; late = false }
    ∷ []

-- A data frame and a frame that says the session is gone.
abbrev wire : List ℕ
wire = 1 ∷ 0 ∷ 0 ∷ 0 ∷ 2 ∷ 8 ∷ 9 ∷ 4 ∷ 0 ∷ 0 ∷ 0 ∷ 0 ∷ []

poll_stream-wire : (poll_stream append_put 2 [] new_buffered_pipe two_rounds).writer ≡ wire
unfolding poll_stream stream_loop put_reading settle read_available apply apply_all write
    note_high_water close new_buffered_pipe write_frame Base.big_endian
poll_stream-wire = refl

stream_lossless_example :
    (x : BufferedPipe × PollEnd) × (got : List ℕ) × (do_stream_poll 2 new_buffered_pipe
        (response 200 (source wire false))
      ≡ some x)
    × (x.0.buf ≡ new_buffered_pipe.buf ++ got)
    × (got ++ left_by (poll_stream append_put 2 [] new_buffered_pipe two_rounds)
        ≡ pending new_buffered_pipe (changes two_rounds))
stream_lossless_example =
    stream_lossless append_put content append-Sure append-never 2 [] new_buffered_pipe two_rounds
      new_buffered_pipe wire (omega arith) (omega arith) (unfold new_buffered_pipe in refl)
      (sym poll_stream-wire)
