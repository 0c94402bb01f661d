-- ===== src/Reliable/Runs.antt =====
-- Concrete runs of reliable.go, and its theorems at concrete inputs: three bytes are sent, the first
-- two arrive, and the transport breaks.
use pollmux.Base.{
  ◌≡◌, ◌≤◌, refl, false, [], ◌∷◌, ◌++◌, none, some, arith, length, take, pos, here, there, add64,
  sub64,
}
use pollmux.Pipe.{BufferedPipe, new_buffered_pipe, write, note_high_water}
use pollmux.Reliable.{Reliable, Chunk, Receipt, new_reliable, next_fresh, recv_in, ack}
use pollmux.Reliable.Sender.{Sends}
use pollmux.Reliable.Receiver.{Receives, recv_in_lem, ReceiptIs, receiving, news, recv_error}
use pollmux.Reliable.System.{Link, Reach, new_link, takes, delivers, reports, start, next}
use pollmux.Reliable.Delivery.{Reach-prefix, Reach-honest}
use pollmux.Reliable.Replay.{resume_link, resume_link-received}

abbrev opening : Link
opening = new_link (new_reliable (pos 64)) (new_reliable (pos 64))

abbrev first_chunk : Chunk
first_chunk = record { off = 0; bytes = 5 ∷ 6 ∷ [] }

abbrev started_layer : Reliable
started_layer = record {
  send_offset = 0;
  acked_offset = 0;
  sent_cursor = 0;
  replay = [];
  max_replay = 64;
  broken = false;
  recv_offset = 0;
  last_ack = 0;
  ack_eager = 131072;
}

abbrev filled : BufferedPipe
filled = record {
  buf = 5 ∷ 6 ∷ [];
  closed = false;
  hi_water = 2;
  warn_threshold = pos 0;
  warned = false;
  logger = false;
  intr = false;
}

abbrev first_receipt : Receipt
first_receipt = record {
  layer = record started_layer { recv_offset = 2 };
  inp = filled;
  out = new_buffered_pipe;
  error = none;
}

-- After two bytes were taken, delivered and reported, and a third taken.
abbrev sent_two : Link
sent_two = record opening {
  sender = (next_fresh opening.sender (5 ∷ 6 ∷ [])).0;
  sent = opening.sent ++ 5 ∷ 6 ∷ [];
  frames = (next_fresh opening.sender (5 ∷ 6 ∷ [])).1 ∷ opening.frames;
}

abbrev got_two : Link
got_two = record sent_two {
  receiver = first_receipt.layer;
  inp = first_receipt.inp;
  out = first_receipt.out;
  received = sent_two.received ++ 5 ∷ 6 ∷ [];
}

abbrev told_two : Link
told_two = record got_two { acks = got_two.receiver.recv_offset ∷ got_two.acks }

abbrev sent_three : Link
sent_three = record told_two {
  sender = (next_fresh told_two.sender (7 ∷ [])).0;
  sent = told_two.sent ++ 7 ∷ [];
  frames = (next_fresh told_two.sender (7 ∷ [])).1 ∷ told_two.frames;
}

reach_three : Reach opening sent_three
unfolding new_link new_reliable next_fresh recv_in write note_high_water new_buffered_pipe add64
    sub64
reach_three =
    next
      (next
        (next (next start (takes opening (5 ∷ 6 ∷ []) (omega arith)))
          (delivers sent_two first_chunk first_receipt (5 ∷ 6 ∷ []) here refl refl))
        (reports got_two))
      (takes told_two (7 ∷ []) (omega arith))

Reach-prefix_example :
    (sent_three.received ≡ take (length sent_three.received) sent_three.sent)
    × (length sent_three.received ≤ length sent_three.sent)
Reach-prefix_example = Reach-prefix (pos 64) (pos 64) reach_three

resume_link-received_example :
    (s' : Link) × (resume_link 1 16 sent_three ≡ some s') × (s'.received ≡ sent_three.sent)
unfolding new_link new_reliable next_fresh add64
resume_link-received_example =
    resume_link-received (pos 64) (pos 64) 1 16 reach_three (omega arith) refl refl (omega arith)

Reach-honest_example :
    ((r : Reliable) × (ack sent_three.sender 2 ≡ some (r, none)))
    × ReceiptIs
        (recv_in sent_three.receiver sent_three.inp sent_three.out first_chunk.off
          first_chunk.bytes)
        (receiving sent_three.receiver sent_three.inp.closed first_chunk.off first_chunk.bytes)
        (sent_three.inp.buf
          ++ news sent_three.receiver.recv_offset sent_three.inp.closed first_chunk.off
              first_chunk.bytes)
        sent_three.inp.closed
        (recv_error sent_three.receiver.recv_offset sent_three.inp.closed first_chunk.off
          first_chunk.bytes)
unfolding new_link new_reliable next_fresh add64
Reach-honest_example = Reach-honest (pos 64) (pos 64) 2 first_chunk reach_three here (there here)

-- A sender that has sent three bytes, with the first acknowledged.
abbrev mid_layer : Reliable
mid_layer = record started_layer {
  send_offset = 3;
  acked_offset = 1;
  sent_cursor = 3;
  replay = 6 ∷ 7 ∷ [];
}

mid-Sends : Sends mid_layer (5 ∷ 6 ∷ 7 ∷ [])
mid-Sends = record {
  counted = refl;
  fits = omega arith;
  acked_le = omega arith;
  cursor_le = omega arith;
  kept = refl;
  bounded = omega arith;
}

recv_in_lem_example :
    ReceiptIs
      (recv_in first_receipt.layer filled filled 1 (6 ∷ 7 ∷ []))
      (receiving first_receipt.layer false 1 (6 ∷ 7 ∷ []))
      (5 ∷ 6 ∷ news 2 false 1 (6 ∷ 7 ∷ []))
      false
      (recv_error 2 false 1 (6 ∷ 7 ∷ []))
recv_in_lem_example =
    recv_in_lem first_receipt.layer (5 ∷ 6 ∷ []) two-Receives filled filled 1 (6 ∷ 7 ∷ [])
      (omega arith)
  where
    two-Receives : Receives first_receipt.layer (5 ∷ 6 ∷ [])
    two-Receives = record { counted = refl; fits = omega arith; acked_le = omega arith }
