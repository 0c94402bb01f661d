-- ===== src/Reliable/Delivery.antt =====
-- reliable.go: in-order, exactly-once delivery over the step relation of Reliable/System.
use pollmux.Base.{
  ℕ, ◌≤◌, ◌≡◌, refl, sym, ap, ◌∙◌, List, ◌∷◌, ◌++◌, some, none, length, take, All_in, In, inl, inr,
  arith, ℤ,
}
use pollmux.Reliable.{
  Reliable, Chunk, new_reliable, mark_broken, recv_in, ack, take_ack, reset_ack, rewind_to_acked,
}
use pollmux.Reliable.Sender.{mark_broken-Sends, next_replay_lem, ack_lem, rewind_to_acked-Sends}
use pollmux.Reliable.Receiver.{Receives, news, recv_error, receiving, ReceiptIs, recv_in_lem}
use pollmux.Reliable.System.{
  Link, Step, Reach, new_link, replays, takes, delivers, reports, takes_ack, resets_ack,
  acknowledges, resumes, rewinds, breaks, breaks_receiver, uses, start, next,
}
use pollmux.Reliable.Cuts.{IsCutOf}
use pollmux.Reliable.Faithful.{
  IsFaithful, with_sender, replays-IsFaithful, takes-IsFaithful, delivers-IsFaithful,
  acknowledges-IsFaithful, resumes-IsFaithful, some_injective,
}

take_ack-Receives :
    (r : Reliable) (received : List ℕ) → Receives r received → Receives (take_ack r).0 received
unfolding take_ack
take_ack-Receives r received v = ground arith

with_receiver :
    (s : Link) (r : Reliable)
    → IsFaithful s
    → Receives r s.received
    → IsFaithful (record s { receiver = r })
with_receiver s r v w = record {
  sends = v.sends;
  receives = w;
  in_order = v.in_order;
  within = v.within;
  cuts = v.cuts;
  reported = v.reported;
  behind = v.behind;
}

reports-IsFaithful :
    (s : Link) → IsFaithful s → IsFaithful (record s { acks = s.receiver.recv_offset ∷ s.acks })
reports-IsFaithful s v = record {
  sends = v.sends;
  receives = v.receives;
  in_order = v.in_order;
  within = v.within;
  cuts = v.cuts;
  reported = (omega (arith, v.receives.counted), v.reported);
  behind = v.behind;
}

pub Step-IsFaithful : {s t : Link} → Step s t → IsFaithful s → IsFaithful t
Step-IsFaithful (replays s dst r c due e) v =
    let p = some_injective (sym e ∙ next_replay_lem s.sender s.sent v.sends dst due) in
    rw (ap (λ x. x.0) p, ap (λ x. x.1) p) (replays-IsFaithful s dst v)
Step-IsFaithful (takes s bytes h) v = takes-IsFaithful s bytes v h
Step-IsFaithful (delivers s c q more i e b) v =
    delivers-IsFaithful s c q more v (All_in (IsCutOf s.sent) c s.frames v.cuts i) e b
Step-IsFaithful (reports s) v = reports-IsFaithful s v
Step-IsFaithful (takes_ack s) v =
    with_receiver _ (take_ack s.receiver).0 (reports-IsFaithful s v)
      (take_ack-Receives s.receiver s.received v.receives)
Step-IsFaithful (resets_ack s) v = with_receiver s (reset_ack s.receiver) v (
    unfold reset_ack in
    record { counted = v.receives.counted; fits = v.receives.fits; acked_le = omega arith })
Step-IsFaithful (acknowledges s n r e i q) v =
    acknowledges-IsFaithful s n r e v (All_in (λ k. k ≤ length s.received) n s.acks v.reported i) q
Step-IsFaithful (resumes s n r done i q) v =
    resumes-IsFaithful s n r done v (All_in (λ k. k ≤ length s.received) n s.acks v.reported i) q
Step-IsFaithful (rewinds s) v =
    with_sender s (rewind_to_acked s.sender) v (rewind_to_acked-Sends s.sender s.sent v.sends)
      (unfold rewind_to_acked in ground (arith, v.behind))
Step-IsFaithful (breaks s) v =
    with_sender s (mark_broken s.sender) v (mark_broken-Sends s.sender s.sent v.sends)
      (inl (unfold mark_broken in refl))
Step-IsFaithful (breaks_receiver s) v = with_receiver s (mark_broken s.receiver) v (
    unfold mark_broken in
    record { counted = v.receives.counted; fits = v.receives.fits; acked_le = v.receives.acked_le })
Step-IsFaithful (uses s inp out) v = record {
  sends = v.sends;
  receives = v.receives;
  in_order = v.in_order;
  within = v.within;
  cuts = v.cuts;
  reported = v.reported;
  behind = v.behind;
}

pub new_link-IsFaithful : (m n : ℤ) → IsFaithful (new_link (new_reliable m) (new_reliable n))
unfolding new_link new_reliable
new_link-IsFaithful m n = record {
  sends = record {
    counted = refl;
    fits = omega arith;
    acked_le = omega arith;
    cursor_le = omega arith;
    kept = refl;
    bounded = omega arith;
  };
  receives = record { counted = refl; fits = omega arith; acked_le = omega arith };
  in_order = refl;
  within = omega arith;
  cuts = tt;
  reported = tt;
  behind = inr (omega arith);
}

pub Reach-IsFaithful : {s t : Link} → IsFaithful s → Reach s t → IsFaithful t
Reach-IsFaithful v start = v
Reach-IsFaithful v (next r st) = Step-IsFaithful st (Reach-IsFaithful v r)

-- Whatever the two ends do and the network loses, delays, repeats or reorders, and however often the
-- session is resumed or given up: what the receiver wrote to its pipe is a prefix of what the sender
-- took from its own, every byte once and in order. The sender is given fewer than 2 ^ 64 bytes.
pub Reach-prefix :
    (m n : ℤ) {t : Link}
    → Reach (new_link (new_reliable m) (new_reliable n)) t
    → (t.received ≡ take (length t.received) t.sent) × (length t.received ≤ length t.sent)
Reach-prefix m n r = let v = Reach-IsFaithful (new_link-IsFaithful m n) r in (v.in_order, v.within)

-- An honest peer is never refused. In every reachable state, an offset that the receiver ever reported
-- is accepted by `ack`, and every frame that the sender ever made is taken by `recvIn` without a panic,
-- refused only if it starts past what was received or the pipe is closed.
pub Reach-honest :
    (m n : ℤ) {t : Link} (k : ℕ) (c : Chunk)
    → Reach (new_link (new_reliable m) (new_reliable n)) t
    → In k t.acks
    → In c t.frames
    → ((r : Reliable) × (ack t.sender k ≡ some (r, none)))
      × ReceiptIs
          (recv_in t.receiver t.inp t.out c.off c.bytes)
          (receiving t.receiver t.inp.closed c.off c.bytes)
          (t.inp.buf ++ news t.receiver.recv_offset t.inp.closed c.off c.bytes)
          t.inp.closed
          (recv_error t.receiver.recv_offset t.inp.closed c.off c.bytes)
Reach-honest m n {t} k c r i j =
    let v = Reach-IsFaithful (new_link-IsFaithful m n) r in
    let le = All_in (λ a. a ≤ length t.received) k t.acks v.reported i in
    let cut = All_in (IsCutOf t.sent) c t.frames v.cuts j in
    let (r', q, _, _, _, _, _, _) =
      ack_lem t.sender t.sent v.sends k (omega (arith, le, v.within, v.sends.counted)) in
    (
      (r', q),
      recv_in_lem t.receiver t.received v.receives t.inp t.out c.off c.bytes
          (omega (arith, cut.0, v.sends.fits)),
    )
