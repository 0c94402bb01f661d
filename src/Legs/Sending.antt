-- ===== src/Legs/Sending.antt =====
-- handler.go, resumable_client.go and websocket.go: what the legs that send numbered frames send.

use pollmux.Base.{
  ℕ, ◌+◌, ◌*◌, ◌≡◌, ◌≢◌, ◌≤◌, ◌<◌, refl, sym, ap, ◌∙◌, Bool, true, false, ◌&&◌, List, [], ◌∷◌, ◌++◌,
  append_assoc, append-nil, Option, none, some, length, length-append, u64_mod, if◌then◌else◌, ◌==◌,
  arith,
}
use pollmux.Pipe.{BufferedPipe, Wake, Change, eof, pipe_interrupted}
use pollmux.Pipe.Content.{pending, all_changes}
use pollmux.Frame.{frame_ack, frame_heartbeat, frame_end, encode_offset}
use pollmux.Stream.{settle}
use pollmux.Reliable.{Reliable, Chunk, NextOut, sends, idle, fails, waits, take_ack}
use pollmux.Reliable.Sender.{Sends}
use pollmux.Reliable.Cuts.{IsCutOf}
use pollmux.Legs.{
  LegRound, LegEnding, Sent, Sink, leg_attempt, put_ack, put_given, put_late, leg_on, send_given,
  after_next_out, leg_loop, leg_panicked, leg_cancelled, leg_parked, leg_open, out_closed,
  leg_replaced,
}
use pollmux.Legs.Taking.{Gives, Outcome, KeepsSends, next_out-Outcome}

take_ack-Sends : (r : Reliable) (sent : List ℕ) → Sends r sent → Sends (take_ack r).0 sent
unfolding take_ack
take_ack-Sends r sent v =
    ground (arith, v.counted, v.fits, v.acked_le, v.cursor_le, v.kept, v.bounded)

-- All that others do to the pipe in some rounds.
abbrev pub leg_changes : List LegRound → List Change
leg_changes [] = []
leg_changes (l ∷ ls) = all_changes l.wakes ++ leg_changes ls

-- What others do to the layer keeps its numbering.
abbrev pub AllKeep : List LegRound → Type 0
AllKeep [] = Unit
AllKeep (l ∷ ls) = KeepsSends l.others × KeepsSends l.meanwhile × AllKeep ls

-- Any property of a writer that the writes keep, where each numbered frame is a cut of what was sent.
module _ {W E : Type 0} (sink : Sink W E) (P : List ℕ → W → Type 0)
    (put_frame-P : (sent : List ℕ) (w : W) (typ : ℕ) (payload : List ℕ)
      → P sent w
      → P sent (sink.put_frame w typ payload).0)
    (put_seq-P : (sent : List ℕ) (w : W) (c : Chunk)
      → IsCutOf sent c
      → P sent w
      → P sent (sink.put_seq w c.off c.bytes).0)
    (farewell-P : (sent : List ℕ) (w : W) → P sent w → P sent (sink.farewell w))
    (grows-P : (sent more : List ℕ) (w : W) → P sent w → P (sent ++ more) w) where
  abbrev Kept : List ℕ → W × Option LegEnding → Type 0
  Kept sent (w, e) = P sent w × (e ≢ some leg_panicked)

  leg_attempt-Kept :
      (sent : List ℕ) (r : W × Option E) → P sent r.0 → Kept sent (leg_attempt sink r)
  unfolding leg_attempt
  leg_attempt-Kept sent (w, none) v = (v, λ e. cc e)
  leg_attempt-Kept sent (w, some x) v = (v, λ e. cc e)

  put_ack-Kept :
      (sent : List ℕ) (w : W) (due : Option ℕ) → P sent w → Kept sent (put_ack sink w due)
  unfolding put_ack
  put_ack-Kept sent w none v = (v, λ e. cc e)
  put_ack-Kept sent w (some n) v =
      leg_attempt-Kept sent _ (put_frame-P sent w frame_ack (encode_offset n) v)

  put_chunk-Kept :
      (b : Bool) (sent : List ℕ) (w : W) (c : Chunk)
      → IsCutOf sent c
      → P sent w
      → Kept sent (
          if b
          then leg_attempt sink (sink.put_frame w frame_heartbeat [])
          else leg_attempt sink (sink.put_seq w c.off c.bytes))
  put_chunk-Kept true sent w c g v =
      leg_attempt-Kept sent _ (put_frame-P sent w frame_heartbeat [] v)
  put_chunk-Kept false sent w c g v = leg_attempt-Kept sent _ (put_seq-P sent w c g v)

  put_given-Kept :
      (sent : List ℕ) (given : NextOut) (r : W × Option LegEnding)
      → Gives sent given
      → Kept sent r
      → Kept sent (put_given sink given r)
  unfolding put_given
  put_given-Kept sent given (w, some e) g v = v
  put_given-Kept sent (sends c) (w, none) g v = put_chunk-Kept (length c.bytes == 0) sent w c g v.0
  put_given-Kept sent idle (w, none) g v =
      leg_attempt-Kept sent _ (put_frame-P sent w frame_heartbeat [] v.0)
  put_given-Kept sent (fails e) (w, none) g v = v
  put_given-Kept sent waits (w, none) g v = (v.0, λ e. cc e)

  put_late-Kept :
      (sent : List ℕ) (late : Bool) (r : W × Option LegEnding)
      → Kept sent r
      → Kept sent (put_late sink late r)
  unfolding put_late
  put_late-Kept sent late (w, some e) v = v
  put_late-Kept sent true (w, none) v = (put_frame-P sent w frame_end [] v.0, λ e. cc e)
  put_late-Kept sent false (w, none) v = v

  -- A run behind `sent` on a pipe that holds and is given `total`.
  pub record Relayed (sent total : List ℕ) (x : Sent W) : Type 0 where
    pub more : List ℕ
    pub left : List ℕ
    pub numbered : Sends x.layer (sent ++ more)
    pub written : P (sent ++ more) x.writer
    pub taken : more ++ left ≡ total
    pub sound : x.ending ≢ leg_panicked

  stops-Relayed :
      (sent total : List ℕ) (w : W) (r : Reliable) (out : BufferedPipe) (e : LegEnding)
      → Sends r sent
      → P sent w
      → e ≢ leg_panicked
      → Relayed sent total (record { writer = w; layer = r; out = out; ending = e })
  stops-Relayed sent total w r out e v g n = record {
    more = [];
    left = total;
    numbered = rw (append-nil sent) v;
    written = rw (append-nil sent) g;
    taken = refl;
    sound = n;
  }

  leg_on-Relayed :
      (sent total : List ℕ) (k : W → Sent W) (r : Reliable) (out : BufferedPipe)
      (s : W × Option LegEnding)
      → Sends r sent
      → Kept sent s
      → ((w : W) → P sent w → Relayed sent total (k w))
      → Relayed sent total (leg_on sink k r out s)
  unfolding leg_on
  leg_on-Relayed sent total k r out (w, none) v g h = h w g.0
  leg_on-Relayed sent total k r out (w, some e) v g h =
      stops-Relayed sent total w r out e v g.0 (λ p. g.1 (ap some p))

  -- A round that writes what it was given.
  sent_on :
      (sent total : List ℕ) (k : W → Reliable → BufferedPipe → Sent W) (l : LegRound) (w : W)
      (r : Reliable) (out : BufferedPipe) (given : NextOut)
      → Sends r sent
      → Gives sent given
      → P sent w
      → ((w' : W) (r' : Reliable) → P sent w' → Sends r' sent → Relayed sent total (k w' r' out))
      → (let (r', due) = take_ack r in
          Relayed sent total (
            leg_on sink
              (λ w'. k w' r' out)
              r'
              out
              (put_late sink l.late (put_given sink given (put_ack sink w due)))))
  sent_on sent total k l w r out given v g q h =
      let (r', due) = take_ack r in
      let v' : Sends r' sent = take_ack-Sends r sent v in
      leg_on-Relayed sent total (λ w'. k w' r' out) r' out _ v'
        (put_late-Kept sent l.late _ (put_given-Kept sent given _ g (put_ack-Kept sent w due q)))
        (λ w' q'. h w' r' q' v')

  -- What a run does behind `more` is what it does from the start.
  behind :
      (sent total more rest : List ℕ) (x : Sent W)
      → more ++ rest ≡ total
      → Relayed (sent ++ more) rest x
      → Relayed sent total x
  behind sent total more rest x e y = record {
    more = more ++ y.more;
    left = y.left;
    numbered = rw (sym (append_assoc sent more y.more)) y.numbered;
    written = rw (sym (append_assoc sent more y.more)) y.written;
    taken = append_assoc more y.more y.left ∙ ap (λ b. more ++ b) y.taken ∙ e;
    sound = y.sound;
  }

  send_given-Relayed :
      (sent total : List ℕ) (k : W → Reliable → BufferedPipe → Sent W) (l : LegRound) (w : W)
      (r : Reliable) (out : BufferedPipe) (given : NextOut)
      → Sends r sent
      → Gives sent given
      → P sent w
      → ((w' : W) (r' : Reliable) → P sent w' → Sends r' sent → Relayed sent total (k w' r' out))
      → Relayed sent total (send_given sink k l w r out given)
  unfolding send_given
  send_given-Relayed sent total k l w r out (fails eof) v g q h =
      stops-Relayed sent total _ r out out_closed v (farewell-P sent w q) (λ e. cc e)
  send_given-Relayed sent total k l w r out (fails pipe_interrupted) v g q h = nudged l.leave
    where
      nudged :
          (b : Bool)
          → Relayed sent total (
              let (r', due) = take_ack r in
              let more =
                leg_on sink
                  (λ w'. k w' r' out)
                  r'
                  out
                  (put_late sink l.late (put_ack sink w due)) in
              if b
              then record { writer = w; layer = r; out = out; ending = leg_replaced }
              else more)
      nudged true = stops-Relayed sent total w r out leg_replaced v q (λ e. cc e)
      nudged false =
          let (r', due) = take_ack r in
          let v' : Sends r' sent = take_ack-Sends r sent v in
          leg_on-Relayed sent total (λ w'. k w' r' out) r' out _ v'
            (put_late-Kept sent l.late _ (put_ack-Kept sent w due q)) (λ w' q'. h w' r' q' v')
  send_given-Relayed sent total k l w r out (sends c) v g q h =
      sent_on sent total k l w r out (sends c) v g q h
  send_given-Relayed sent total k l w r out idle v g q h =
      sent_on sent total k l w r out idle v g q h
  send_given-Relayed sent total k l w r out waits v g q h =
      stops-Relayed sent total w r out leg_parked v q (λ e. cc e)

  after_next_out-Relayed :
      (sent total : List ℕ) (dst : ℕ) (cs : List Change) (k : W → Reliable → BufferedPipe → Sent W)
      (l : LegRound) (w : W) (r : Reliable) (out : BufferedPipe)
      (x : Option (Reliable × BufferedPipe × NextOut × List Wake))
      → Outcome sent dst total cs x
      → P sent w
      → ((more : List ℕ) (w' : W) (r' : Reliable) (out' : BufferedPipe)
          → length more ≤ dst
          → P (sent ++ more) w'
          → Sends r' (sent ++ more)
          → Relayed (sent ++ more) (pending out' cs) (k w' r' out'))
      → Relayed sent total (after_next_out sink k l w r out x)
  unfolding after_next_out
  after_next_out-Relayed sent total dst cs k l w r out none o q h = absurd o
  after_next_out-Relayed sent total dst cs k l w r out (some (r', out', given, ws))
        (more, v, g, fits, e) q h =
      behind sent total more _ _ e (
        send_given-Relayed (sent ++ more) _ k l w r' (settle out' ws) given v g
          (grows-P sent more w q) (λ w' r''. h more w' r'' (settle out' ws) fits))

  ended :
      (b : Bool) (sent total : List ℕ) (w : W) (r : Reliable) (out : BufferedPipe) (more : Sent W)
      → Sends r sent
      → P sent w
      → Relayed sent total more
      → Relayed sent total
          (if b then record { writer = w; layer = r; out = out; ending = leg_cancelled } else more)
  ended true sent total w r out more v q h =
      stops-Relayed sent total w r out leg_cancelled v q (λ e. cc e)
  ended false sent total w r out more v q h = h

  pub leg_loop-Relayed :
      (checks : Bool) (sent : List ℕ) (dst : ℕ) (w : W) (r : Reliable) (out : BufferedPipe)
      (ls : List LegRound)
      → Sends r sent
      → P sent w
      → AllKeep ls
      → 0 < dst
      → length sent + dst * length ls < u64_mod
      → Relayed sent (pending out (leg_changes ls)) (leg_loop sink checks dst w r out ls)
  unfolding leg_loop
  leg_loop-Relayed checks sent dst w r out [] v q a pos h =
      stops-Relayed sent _ w r out leg_open v q (λ e. cc e)
  leg_loop-Relayed checks sent dst w r out (l ∷ ls) v q (others, meanwhile, a) pos h =
      ended (checks && l.cancelled) sent _ w r out _ v q (
        after_next_out-Relayed sent _ dst (leg_changes ls)
          (λ w' r' out'. leg_loop sink checks dst w' r' out' ls) l w (l.others r) out _
          (next_out-Outcome (l.others r) sent out dst l.meanwhile l.wakes (leg_changes ls)
            (others r sent v) meanwhile pos (omega arith))
          q
          (λ more w' r' out' fits q' v'.
            leg_loop-Relayed checks (sent ++ more) dst w' r' out' ls v' q' a pos
              (omega (arith, length-append sent more))))
