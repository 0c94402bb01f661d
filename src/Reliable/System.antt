-- ===== src/Reliable/System.antt =====
-- reliable.go: one direction between two ends. Everything that either end may do, and a network that
-- may lose, delay, repeat and reorder whatever was handed to it, as a step relation.
use pollmux.Base.{
  ℕ, ◌+◌, ◌<◌, ◌≡◌, Bool, true, List, [], ◌∷◌, ◌++◌, Option, some, length, In, u64_mod,
}
use pollmux.Pipe.{BufferedPipe, new_buffered_pipe}
use pollmux.Reliable.{
  Reliable, Chunk, Receipt, LayerError, mark_broken, replay_due, next_replay, next_fresh, recv_in,
  ack, take_ack, reset_ack, resume_out, rewind_to_acked,
}

-- `sent` is every byte that was taken from the sender's `out`, `received` every byte that was written
-- to the receiver's `in`; `frames` and `acks` are all that was ever handed to the network.
pub record Link : Type 0 where
  pub sender : Reliable
  pub receiver : Reliable
  pub inp : BufferedPipe
  pub out : BufferedPipe
  pub sent : List ℕ
  pub received : List ℕ
  pub frames : List Chunk
  pub acks : List ℕ

pub data Step : Link → Link → Type 0 where
  -- nextOut: pending replay first.
  replays :
      (s : Link) (dst : ℕ) (r : Reliable) (c : Chunk)
      → replay_due s.sender ≡ true
      → next_replay s.sender dst ≡ some (r, c)
      → Step s (record s { sender = r; frames = c ∷ s.frames })
  -- nextOut: what it read from `out` while others could change the layer.
  takes :
      (s : Link) (bytes : List ℕ)
      → length s.sent + length bytes < u64_mod
      → Step s (record s {
        sender = (next_fresh s.sender bytes).0;
        sent = s.sent ++ bytes;
        frames = (next_fresh s.sender bytes).1 ∷ s.frames;
      })
  -- recvIn, of any frame that was ever sent; `more` is what it added to `in`.
  delivers :
      (s : Link) (c : Chunk) (q : Receipt) (more : List ℕ)
      → In c s.frames
      → recv_in s.receiver s.inp s.out c.off c.bytes ≡ some q
      → q.inp.buf ≡ s.inp.buf ++ more
      → Step s
          (record s { receiver = q.layer; inp = q.inp; out = q.out; received = s.received ++ more })
  -- takeAck and recvOffsetNow, which report the contiguous offset.
  reports : (s : Link) → Step s (record s { acks = s.receiver.recv_offset ∷ s.acks })
  takes_ack :
      (s : Link)
      → Step s
          (record s { receiver = (take_ack s.receiver).0; acks = s.receiver.recv_offset ∷ s.acks })
  resets_ack : (s : Link) → Step s (record s { receiver = reset_ack s.receiver })
  -- ack and resumeOut, of any offset that was ever reported.
  acknowledges :
      (s : Link) (n : ℕ) (r : Reliable) (e : Option LayerError)
      → In n s.acks
      → ack s.sender n ≡ some (r, e)
      → Step s (record s { sender = r })
  resumes :
      (s : Link) (n : ℕ) (r : Reliable) (done : Bool)
      → In n s.acks
      → resume_out s.sender n ≡ some (r, done)
      → Step s (record s { sender = r })
  rewinds : (s : Link) → Step s (record s { sender = rewind_to_acked s.sender })
  breaks : (s : Link) → Step s (record s { sender = mark_broken s.sender })
  breaks_receiver : (s : Link) → Step s (record s { receiver = mark_broken s.receiver })
  -- The applications read and close the receiver's pipes as they like.
  uses : (s : Link) (inp out : BufferedPipe) → Step s (record s { inp = inp; out = out })

pub data Reach (s : Link) : Link → Type 0 where
  start : Reach s s
  next : {t u : Link} → Reach s t → Step t u → Reach s u

unfoldable pub new_link : Reliable → Reliable → Link
new_link sender receiver = record {
  sender = sender;
  receiver = receiver;
  inp = new_buffered_pipe;
  out = new_buffered_pipe;
  sent = [];
  received = [];
  frames = [];
  acks = [];
}
