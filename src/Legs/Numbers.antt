-- ===== src/Legs/Numbers.antt =====
-- handler.go, resumable_client.go and websocket.go: the numbers of the frames that a leg writes.
use Prim.{tt}
use pollmux.Base.{ℕ, ◌+◌, ◌*◌, ◌≡◌, ◌≢◌, ◌<◌, Bool, List, [], ◌∷◌, ◌++◌, length, u64_mod}
use pollmux.Pipe.{BufferedPipe}
use pollmux.Pipe.Content.{pending}
use pollmux.Reliable.{Reliable, Chunk, reset_ack}
use pollmux.Reliable.Sender.{Sends, reset_ack-Sends}
use pollmux.Reliable.Cuts.{IsCutOf, IsCutOf-append}
use pollmux.Legs.{LegRound, Sent, Sink, leg_loop, leg_panicked}
use pollmux.Legs.Sending.{AllKeep, leg_changes, leg_loop-Relayed}

-- A transport that also keeps a list of the numbered frames it was asked to write.
abbrev pub logged : {W E : Type 0} → Sink W E → Sink (W × List Chunk) E
logged sink = record {
  put_frame = λ x typ payload. let (w, e) = sink.put_frame x.0 typ payload in ((w, x.1), e);
  put_seq = λ x off bytes.
      let (w, e) = sink.put_seq x.0 off bytes in
      ((w, x.1 ++ (record { off = off; bytes = bytes } ∷ [])), e);
  farewell = λ x. (sink.farewell x.0, x.1);
}

abbrev pub AllCuts : List ℕ → List Chunk → Type 0
AllCuts sent [] = Unit
AllCuts sent (c ∷ cs) = IsCutOf sent c × AllCuts sent cs

AllCuts-grows : (sent more : List ℕ) (cs : List Chunk) → AllCuts sent cs → AllCuts (sent ++ more) cs
AllCuts-grows sent more [] v = v
AllCuts-grows sent more (c ∷ cs) (g, v) =
    (IsCutOf-append sent more c g, AllCuts-grows sent more cs v)

AllCuts-snoc :
    (sent : List ℕ) (cs : List Chunk) (c : Chunk)
    → AllCuts sent cs
    → IsCutOf sent c
    → AllCuts sent (cs ++ (c ∷ []))
AllCuts-snoc sent [] c v g = (g, tt)
AllCuts-snoc sent (d ∷ cs) c (h, v) g = (h, AllCuts-snoc sent cs c v g)

-- What a run has sent: `more` behind `sent`, off the front of `total`.
pub record Numbers {W : Type 0} (sent total : List ℕ) (x : Sent (W × List Chunk)) : Type 0 where
  pub more : List ℕ
  pub left : List ℕ
  pub taken : more ++ left ≡ total
  pub numbered : Sends x.layer (sent ++ more)
  pub cuts : AllCuts (sent ++ more) x.writer.1
  pub sound : x.ending ≢ leg_panicked

-- A leg that sends numbered frames, over whatever transport and however its writes fail: it never
-- panics, it takes bytes off the front of what its pipe holds and is given, the layer counts exactly
-- these behind those sent before, and every numbered frame that it writes is a cut of them at its
-- offset, replayed or fresh. The layer is well formed, others keep its numbering, the buffer is not
-- empty, and what was sent with a buffer for each round is less than 2 ^ 64 bytes.
pub leg_loop-Numbers :
    {W E : Type 0} (sink : Sink W E) (checks : Bool) (sent : List ℕ) (dst : ℕ) (w : W)
    (r : Reliable) (out : BufferedPipe) (ls : List LegRound)
    → Sends r sent
    → AllKeep ls
    → 0 < dst
    → length sent + dst * length ls < u64_mod
    → Numbers sent
        (pending out (leg_changes ls))
        (leg_loop (logged sink) checks dst (w, []) (reset_ack r) out ls)
leg_loop-Numbers sink checks sent dst w r out ls v a pos h =
    let x =
      leg_loop-Relayed (logged sink) (λ s y. AllCuts s y.1) (λ s y typ payload g. g)
        (λ s y c g q. AllCuts-snoc s y.1 c q g) (λ s y g. g)
        (λ s more y g. AllCuts-grows s more y.1 g) checks sent dst (w, []) (reset_ack r) out ls
        (reset_ack-Sends r sent v) tt a pos h in
    record {
      more = x.more;
      left = x.left;
      taken = x.taken;
      numbered = x.numbered;
      cuts = x.written;
      sound = x.sound;
    }
