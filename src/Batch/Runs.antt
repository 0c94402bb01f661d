-- ===== src/Batch/Runs.antt =====
-- batch.go: a batch at work. The server has sent three bytes, all of them in a response that was lost
-- after the first; its client polls again.
use pollmux.Base.{
  ℕ, ◌+◌, ◌-◌, max, ◌≡◌, refl, false, List, [], ◌∷◌, ◌++◌, some, arith, drop, take, length,
}
use pollmux.Pipe.{new_buffered_pipe}
use pollmux.Reliable.{Reliable}
use pollmux.Reliable.Sender.{Sends}
use pollmux.Reliable.Receiver.{Receives}
use pollmux.Batch.{End, data_from, answer_poll, do_batch_poll, bytes_read}
use pollmux.Batch.Rewind.{answer_poll-replays}
use pollmux.Batch.Acceptance.{Delivered, do_batch_poll-Delivered}

abbrev sent : List ℕ
sent = 5 ∷ 6 ∷ 7 ∷ []

abbrev server_layer : Reliable
server_layer = record {
  send_offset = 3;
  acked_offset = 0;
  sent_cursor = 3;
  replay = 5 ∷ 6 ∷ 7 ∷ [];
  max_replay = 8;
  broken = false;
  recv_offset = 2;
  last_ack = 0;
  ack_eager = 0;
}

abbrev server : End
server = record { layer = server_layer; inp = new_buffered_pipe; out = new_buffered_pipe }

server-Sends : Sends server_layer sent
server-Sends = record {
  counted = refl;
  fits = omega arith;
  acked_le = omega arith;
  cursor_le = omega arith;
  kept = refl;
  bounded = omega arith;
}

abbrev client_layer : Reliable
client_layer = record {
  send_offset = 2;
  acked_offset = 1;
  sent_cursor = 2;
  replay = 9 ∷ [];
  max_replay = 8;
  broken = false;
  recv_offset = 1;
  last_ack = 1;
  ack_eager = 0;
}

abbrev client : End
client = record { layer = client_layer; inp = new_buffered_pipe; out = new_buffered_pipe }

abbrev uploads : List ℕ
uploads = 8 ∷ 9 ∷ []

abbrev downloads : List ℕ
downloads = 5 ∷ []

client-Sends : Sends client_layer uploads
client-Sends = record {
  counted = refl;
  fits = omega arith;
  acked_le = omega arith;
  cursor_le = omega arith;
  kept = refl;
  bounded = omega arith;
}

client-Receives : Receives client_layer downloads
client-Receives = record { counted = refl; fits = omega arith; acked_le = omega arith }

answer_poll-replays_example :
    (r : Reliable) × (answer_poll server 1 16 (λ q. q) [] false false
      ≡ some (
        record server { layer = r },
        data_from (record { off = 1; bytes = take 16 (drop 1 sent) }) 2,
        [],
      ))
    × Sends r sent
    × (r.acked_offset ≡ 1)
    × (r.broken ≡ false)
answer_poll-replays_example =
    answer_poll-replays server sent 1 16 (λ q. q) [] server-Sends refl (omega arith) (omega arith)
      (omega arith)

-- The response starts a byte before the client's count.
do_batch_poll-Delivered_example :
    Delivered (client.inp.buf ++ drop (1 - 0) sent) (max 1 (0 + length sent)) (
      do_batch_poll client 16 (
        some (record {
          status = 200;
          content = bytes_read sent;
          recv_header = some 2 ∷ [];
          send_header = some 0 ∷ [];
        })))
do_batch_poll-Delivered_example =
    do_batch_poll-Delivered client uploads downloads 16 2 0 5 (6 ∷ 7 ∷ []) client-Sends
      client-Receives (unfold new_buffered_pipe in refl) (omega arith) (omega arith) (omega arith)
      (omega arith)
