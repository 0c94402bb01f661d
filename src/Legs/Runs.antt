-- ===== src/Legs/Runs.antt =====
-- A concrete run of a leg that sends numbered frames, and its theorem at a concrete input.
use Prim.{tt}
use pollmux.Base.{ℕ, ◌≡◌, refl, true, false, List, [], ◌∷◌, ◌++◌, Option, none, pos, arith}
use pollmux.Base
use pollmux.Pipe.{
  new_buffered_pipe, writes, closes, write, note_high_water, read_available, apply, apply_all,
  close,
}
use pollmux.Pipe.Content.{pending}
use pollmux.Frame.{frame_gone, write_frame, write_seq_frame}
use pollmux.Stream.{settle}
use pollmux.Reliable.{
  Reliable, new_reliable, reset_ack, next_out, replay_due, replay_out, next_replay, fresh_out,
  next_fresh, take_ack,
}
use pollmux.Reliable.Sender.{Sends}
use pollmux.Legs.{
  LegRound, body_sink, leg_loop, poll_stream_resumable, after_next_out, send_given, put_ack,
  put_given, put_late, leg_on, leg_attempt,
}
use pollmux.Legs.Sending.{leg_changes}
use pollmux.Legs.Numbers.{logged, Numbers, leg_loop-Numbers}

abbrev append_put : List ℕ → List ℕ → List ℕ × Option ℕ
append_put w bytes = (w ++ bytes, none)

-- Two of three bytes are sent already, and none is acknowledged.
abbrev half_sent : Reliable
half_sent = record (new_reliable (pos 100)) {
  send_offset = 2;
  sent_cursor = 1;
  replay = 6 ∷ 7 ∷ [];
}

half_sent-Sends : Sends half_sent (6 ∷ 7 ∷ [])
unfolding new_reliable
half_sent-Sends = record {
  counted = refl;
  fits = omega arith;
  acked_le = omega arith;
  cursor_le = omega arith;
  kept = refl;
  bounded = omega arith;
}

-- A replay, two fresh bytes, then the session closes.
abbrev three_rounds : List LegRound
three_rounds =
    record {
      cancelled = false;
      others = λ r. r;
      meanwhile = λ r. r;
      wakes = [];
      leave = false;
      late = false;
    }
    ∷ record {
      cancelled = false;
      others = λ r. r;
      meanwhile = λ r. r;
      wakes = (writes (8 ∷ 9 ∷ []) ∷ []) ∷ [];
      leave = false;
      late = false;
    }
    ∷ record {
      cancelled = false;
      others = λ r. r;
      meanwhile = λ r. r;
      wakes = (closes ∷ []) ∷ [];
      leave = false;
      late = false;
    }
    ∷ []

poll_stream_resumable-wire :
    (poll_stream_resumable append_put 2 [] half_sent new_buffered_pipe three_rounds).writer
    ≡ 6 ∷ 0 ∷ 0 ∷ 0 ∷ 9 ∷ 0 ∷ 0 ∷ 0 ∷ 0 ∷ 0 ∷ 0 ∷ 0 ∷ 1 ∷ 7 ∷ 6 ∷ 0 ∷ 0 ∷ 0 ∷ 10 ∷ 0 ∷ 0 ∷ 0 ∷ 0 ∷ 0
      ∷ 0 ∷ 0 ∷ 2 ∷ 8 ∷ 9 ∷ 4 ∷ 0 ∷ 0 ∷ 0 ∷ 0 ∷ []
unfolding poll_stream_resumable leg_loop body_sink after_next_out send_given put_ack put_given
    put_late leg_on leg_attempt next_out replay_due replay_out next_replay fresh_out next_fresh
    take_ack reset_ack settle read_available apply apply_all write note_high_water close
    new_buffered_pipe new_reliable write_frame write_seq_frame Base.big_endian Base.sub64 Base.add64
poll_stream_resumable-wire = refl

leg_loop-Numbers_example :
    Numbers (6 ∷ 7 ∷ []) (pending new_buffered_pipe (leg_changes three_rounds)) (
      leg_loop
        (logged (body_sink append_put frame_gone))
        true
        2
        ([], [])
        (reset_ack half_sent)
        new_buffered_pipe
        three_rounds)
leg_loop-Numbers_example =
    leg_loop-Numbers (body_sink append_put frame_gone) true (6 ∷ 7 ∷ []) 2 [] half_sent
      new_buffered_pipe three_rounds half_sent-Sends
      ((λ r s v. v), (λ r s v. v), ((λ r s v. v), (λ r s v. v), ((λ r s v. v), (λ r s v. v), tt)))
      (omega arith) (omega arith)
