-- ===== src/Batch/Acceptance.antt =====
-- batch.go: what a client takes from a response.
use mathlib.Core.Path.{subst}
use pollmux.Base.{
  ℕ, ◌+◌, ◌-◌, ◌≤◌, ◌<◌, max, ◌≡◌, refl, sym, ap, ◌∙◌, Bool, true, false, List, [], ◌∷◌, ◌++◌,
  Option, none, some, arith, drop, length, ltb, leb, u64_mod, length-drop,
}
use pollmux.Pipe.{BufferedPipe}
use pollmux.Reliable.{Reliable, Receipt, LayerError, recv_in}
use pollmux.Reliable.Sender.{Sends, ack_lem}
use pollmux.Reliable.Receiver.{Receives, ReceiptIs, receiving, recv_in_lem}
use pollmux.Batch.{
  End, Polled, bytes_read, batch_offset, taken_in, take_in, read_poll, do_batch_poll,
}

-- A poll that went well: the bytes are in the pipe, and counted.
abbrev pub Delivered : List ℕ → ℕ → Option Polled → Type 0
Delivered buf recv none = ⊥
Delivered buf recv (some p) =
    (p.error ≡ none) × (p.result ≡ true) × (p.end.inp.buf ≡ buf) × (p.end.layer.recv_offset ≡ recv)

taken_in-Delivered :
    (o : Option Receipt) (r : Reliable) (buf up : List ℕ) (closed : Bool) (acked : ℕ)
    → ReceiptIs o r buf closed none
    → Sends r up
    → acked ≤ r.send_offset
    → Delivered buf r.recv_offset (taken_in acked o)
taken_in-Delivered none r buf up closed acked q v h = q
taken_in-Delivered (some t) r buf up closed acked (layer, kept, c, e) v h =
    let (r', a, v', b, m, k, recv, told) =
      ack_lem t.layer up (subst (λ z. Sends z up) (sym layer) v) acked
        (subst (λ z. acked ≤ z.send_offset) (sym layer) h) in
    simp (e, a) (refl, refl, kept, recv ∙ ap (λ z. z.recv_offset) layer)

recv_lem :
    (r : Reliable) (off : ℕ) (bytes : List ℕ)
    → off ≤ r.recv_offset
    → receiving r false off bytes
      ≡ record r { recv_offset = r.recv_offset + length (drop (r.recv_offset - off) bytes) }
recv_lem r off bytes h = ground (arith, h)

ReceiptIs-along :
    (o : Option Receipt) (r r' : Reliable) (buf buf' : List ℕ) (c c' : Bool)
    (e e' : Option LayerError)
    → r ≡ r'
    → buf ≡ buf'
    → c ≡ c'
    → e ≡ e'
    → ReceiptIs o r buf c e
    → ReceiptIs o r' buf' c' e'
ReceiptIs-along none r r' buf buf' c c' e e' p q s t fact = fact
ReceiptIs-along (some x) r r' buf buf' c c' e e' p q s t fact =
    (fact.0 ∙ p, fact.1 ∙ q, fact.2 ∙ s, fact.3 ∙ t)

receipt_near :
    (r : Reliable) (got : List ℕ) (inp out : BufferedPipe) (off : ℕ) (bytes : List ℕ)
    → Receives r got
    → off + length bytes < u64_mod
    → off ≤ r.recv_offset
    → inp.closed ≡ false
    → ReceiptIs
        (recv_in r inp out off bytes)
        (record r { recv_offset = r.recv_offset + length (drop (r.recv_offset - off) bytes) })
        (inp.buf ++ drop (r.recv_offset - off) bytes)
        false
        none
receipt_near r got inp out off bytes v short lo opened =
    let near : ltb r.recv_offset off ≡ false = ground arith in
    ReceiptIs-along (recv_in r inp out off bytes) _ _ _ _ _ _ _ _
      (ap (λ z. receiving r z off bytes) opened ∙ recv_lem r off bytes lo)
      (ap (λ z. inp.buf ++ z) (ground (arith, near, opened))) opened (ground (arith, near, opened))
      (recv_in_lem r got v inp out off bytes short)

-- A client that is answered 200 with one acknowledgement of bytes it has sent and one offset at or
-- before its own count appends exactly the bytes past that count, and counts them, in a poll that
-- succeeds. Both ends are well formed, the pipe is open, and the body is neither empty nor too long.
pub do_batch_poll-Delivered :
    (c : End) (up got : List ℕ) (max_frame acked off b : ℕ) (more : List ℕ)
    → Sends c.layer up
    → Receives c.layer got
    → c.inp.closed ≡ false
    → acked ≤ c.layer.send_offset
    → off ≤ c.layer.recv_offset
    → off + length (b ∷ more) < u64_mod
    → length (b ∷ more) ≤ max_frame
    → Delivered
        (c.inp.buf ++ drop (c.layer.recv_offset - off) (b ∷ more))
        (max c.layer.recv_offset (off + length (b ∷ more)))
        (do_batch_poll c max_frame (
          some (record {
            status = 200;
            content = bytes_read (b ∷ more);
            recv_header = some acked ∷ [];
            send_header = some off ∷ [];
          })))
unfolding do_batch_poll read_poll take_in batch_offset
do_batch_poll-Delivered c up got max_frame acked off b more v w opened h lo short fit =
    let bytes = b ∷ more in
    let within : ltb max_frame (length bytes) ≡ false = ground (arith, fit) in
    let filled : leb (length bytes) 0 ≡ false = ground arith in
    let count : c.layer.recv_offset + length (drop (c.layer.recv_offset - off) bytes)
        ≡ max c.layer.recv_offset (off + length bytes) =
      omega (arith, lo, length-drop (c.layer.recv_offset - off) bytes) in
    let r : Reliable = record c.layer {
      recv_offset = c.layer.recv_offset + length (drop (c.layer.recv_offset - off) bytes);
    } in
    rw (within, filled)
      (subst
        (λ n.
          Delivered (c.inp.buf ++ drop (c.layer.recv_offset - off) bytes) n
            (taken_in acked (recv_in c.layer c.inp c.out off bytes)))
        count
        (taken_in-Delivered (recv_in c.layer c.inp c.out off bytes) r
          (c.inp.buf ++ drop (c.layer.recv_offset - off) bytes) up false acked
          (receipt_near c.layer got c.inp c.out off bytes w short lo opened) counted h))
  where
    counted : {n : ℕ} → Sends (record c.layer { recv_offset = n }) up
    counted = record {
      counted = v.counted;
      fits = v.fits;
      acked_le = v.acked_le;
      cursor_le = v.cursor_le;
      kept = v.kept;
      bounded = v.bounded;
    }
