-- ===== src/Reliable/Receiver.antt =====
-- reliable.go: the receiving half, against `received`, all bytes ever written to `in`.
use pollmux.Base.{
  ℕ, ◌+◌, ◌-◌, ◌≡◌, ◌≤◌, ◌<◌, refl, ap, Bool, true, false, List, [], ◌++◌, append-nil, Option, none,
  some, ltb, leb, if◌then◌else◌, length, length-drop, drop, drop_all, slice_from, add64_exact,
  sub64_exact, u64_mod, arith, Bool-cases, inl, inr, add64, sub64, dec_lt,
}
use pollmux.Pipe.{BufferedPipe, wrote, write}
use pollmux.Pipe.Content.{buf-write, closed-write, write-open, write-closed}
use pollmux.Reliable.{
  Reliable, Receipt, LayerError, replay_gap, pipe_closed, mark_broken, recv_in, extend, deliver,
}

pub record Receives (r : Reliable) (received : List ℕ) : Type 0 where
  pub counted : r.recv_offset ≡ length received
  pub fits : length received < u64_mod
  pub acked_le : r.last_ack ≤ r.recv_offset

-- The part of a frame that extends what was received; nothing of one that leaves a gap, or that comes
-- to a closed pipe.
abbrev pub news : ℕ → Bool → ℕ → List ℕ → List ℕ
news recv closed off bytes =
    if ltb recv off then [] else if closed then [] else drop (recv - off) bytes

abbrev pub recv_error : ℕ → Bool → ℕ → List ℕ → Option LayerError
recv_error recv closed off bytes =
    if ltb recv off
    then some replay_gap
    else if leb (off + length bytes) recv
    then none
    else if closed
    then some pipe_closed
    else none

-- The layer after a frame.
abbrev pub receiving : Reliable → Bool → ℕ → List ℕ → Reliable
receiving r closed off bytes =
    if ltb r.recv_offset off
    then mark_broken r
    else record r { recv_offset = r.recv_offset + length (news r.recv_offset closed off bytes) }

-- The answer of a receipt: everything but the pipes.
abbrev pub ReceiptIs : Option Receipt → Reliable → List ℕ → Bool → Option LayerError → Type 0
ReceiptIs none r buf closed e = ⊥
ReceiptIs (some q) r buf closed e =
    (q.layer ≡ r) × (q.inp.buf ≡ buf) × (q.inp.closed ≡ closed) × (q.error ≡ e)

deliver_open :
    (r : Reliable) (inp out : BufferedPipe) (bytes : List ℕ) (inp' : BufferedPipe) (n : ℕ)
    → r.recv_offset + length bytes < u64_mod
    → ReceiptIs
        (some (deliver r inp out bytes (inp', wrote n)))
        (record r { recv_offset = r.recv_offset + length bytes })
        inp'.buf
        inp'.closed
        none
unfolding deliver
deliver_open r inp out bytes inp' n h =
    rw (add64_exact r.recv_offset (length bytes) h) (refl, refl, refl, refl)

extend_open :
    (r : Reliable) (inp out : BufferedPipe) (bytes : List ℕ)
    → inp.closed ≡ false
    → r.recv_offset + length bytes < u64_mod
    → ReceiptIs
        (extend r inp out (some bytes))
        (record r { recv_offset = r.recv_offset + length bytes })
        (inp.buf ++ bytes)
        false
        none
unfolding extend
extend_open r inp out bytes o h =
    let (inp', result, warning) = write inp bytes in
    ground (
      arith,
      write-open inp bytes o,
      buf-write inp bytes,
      closed-write inp bytes,
      deliver_open r inp out bytes inp' (length bytes) h,
    )

extend_closed :
    (r : Reliable) (inp out : BufferedPipe) (bytes : List ℕ)
    → inp.closed ≡ true
    → ReceiptIs (extend r inp out (some bytes)) r inp.buf true (some pipe_closed)
unfolding extend deliver
extend_closed r inp out bytes c = rw (write-closed inp bytes c) (refl, refl, c, refl)

module _ (r : Reliable) (received : List ℕ) (v : Receives r received) (inp out : BufferedPipe)
    (off : ℕ) (bytes : List ℕ) (short : off + length bytes < u64_mod) where
  slice_news :
      off ≤ r.recv_offset
      → r.recv_offset < off + length bytes
      → slice_from (sub64 r.recv_offset off) bytes ≡ some (drop (r.recv_offset - off) bytes)
  slice_news lo hi =
      rw (sub64_exact r.recv_offset off lo (omega (arith, v.counted, v.fits))) (ground arith)

  new_length :
      off ≤ r.recv_offset
      → r.recv_offset < off + length bytes
      → r.recv_offset + length (drop (r.recv_offset - off) bytes) < u64_mod
  new_length lo hi = omega (arith, length-drop (r.recv_offset - off) bytes)

  recv_in_fresh :
      off ≤ r.recv_offset
      → r.recv_offset < off + length bytes
      → recv_in r inp out off bytes ≡ extend r inp out (some (drop (r.recv_offset - off) bytes))
  unfolding recv_in
  recv_in_fresh lo hi =
      let near : ltb r.recv_offset off ≡ false = ground arith in
      let more : leb (add64 off (length bytes)) r.recv_offset ≡ false =
        rw (add64_exact off (length bytes) short) (ground arith) in
      rw near (rw more (ap (extend r inp out) (slice_news lo hi)))

  recv_in_gap :
      r.recv_offset < off
      → recv_in r inp out off bytes
        ≡ some (record { layer = mark_broken r; inp = inp; out = out; error = some replay_gap })
  unfolding recv_in
  recv_in_gap gap = ground arith

  recv_in_old :
      off ≤ r.recv_offset
      → off + length bytes ≤ r.recv_offset
      → recv_in r inp out off bytes
        ≡ some (record { layer = r; inp = inp; out = out; error = none })
  unfolding recv_in
  recv_in_old lo old = rw (add64_exact off (length bytes) short) (ground arith)

  -- recvIn on every frame whose end fits 64 bits, at a receiver that counts what it received: it never
  -- panics, a frame past the contiguous offset breaks the layer, and
  -- of any other frame exactly the part beyond that offset goes to `in`, behind what is there.
  pub recv_in_lem :
      ReceiptIs
        (recv_in r inp out off bytes)
        (receiving r inp.closed off bytes)
        (inp.buf ++ news r.recv_offset inp.closed off bytes)
        inp.closed
        (recv_error r.recv_offset inp.closed off bytes)
  recv_in_lem = elim (dec_lt r.recv_offset off) [
    | yes gap ↦ rw (recv_in_gap gap) (ground (arith, append-nil inp.buf))
    | no near ↦ elim (dec_lt r.recv_offset (off + length bytes)) [
      | no old ↦
          rw (recv_in_old (omega arith) (omega arith))
            (ground (arith, append-nil inp.buf, drop_all (r.recv_offset - off) bytes))
      | yes fresh ↦ rw (recv_in_fresh (omega arith) fresh) (elim (Bool-cases inp.closed) [
        | inl c ↦ ground (
          arith,
          append-nil inp.buf,
          extend_closed r inp out (drop (r.recv_offset - off) bytes) c,
        )
        | inr o ↦ ground (
          arith,
          extend_open r inp out (drop (r.recv_offset - off) bytes) o
              (new_length (omega arith) fresh),
        )
      ])
    ]
  ]
