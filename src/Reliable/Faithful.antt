-- ===== src/Reliable/Faithful.antt =====
-- reliable.go: what each step of Reliable/System keeps true of a link.
use pollmux.Base.{
  ℕ, ◌+◌, ◌-◌, ◌<◌, ◌≤◌, ◌≡◌, sym, ap, ◌∙◌, Bool, true, List, ◌∷◌, ◌++◌, append-nil, Option, some,
  length, length-append, length-drop, take, take-append_le, drop, append_cancel, All, All-map,
  u64_mod, ◌⊎◌, inl, inr, arith, min,
}
use pollmux.Reliable.{
  Reliable, Chunk, Receipt, LayerError, mark_broken, next_fresh, recv_in, ack, resume_out,
}
use pollmux.Reliable.Sender.{Sends, next_replay-Sends, next_fresh_lem, ack_lem, resume_out_lem}
use pollmux.Reliable.Receiver.{Receives, news, recv_error, receiving, recv_in_lem}
use pollmux.Reliable.System.{Link}
use pollmux.Reliable.Cuts.{IsCutOf, IsCutOf-append, IsCutOf-fresh, IsCutOf-replay, news_continue}

-- What holds of a link at all times.
pub record IsFaithful (s : Link) : Type 0 where
  pub sends : Sends s.sender s.sent
  pub receives : Receives s.receiver s.received
  pub in_order : s.received ≡ take (length s.received) s.sent
  pub within : length s.received ≤ length s.sent
  pub cuts : All (IsCutOf s.sent) s.frames
  pub reported : All (λ n. n ≤ length s.received) s.acks
  pub behind : (s.sender.broken ≡ true) ⊎ (s.sender.acked_offset ≤ length s.received)

-- A frame's effect on the receiver: what it adds keeps the received bytes a prefix of the sent ones.
module _ (s : Link) (v : IsFaithful s) (c : Chunk) (cut : IsCutOf s.sent c) where
  pub added : List ℕ
  added = news s.receiver.recv_offset s.inp.closed c.off c.bytes

  pub added_continues :
      (s.received ++ added ≡ take (length s.received + length added) s.sent)
      × (length s.received + length added ≤ length s.sent)
  unfolding added
  added_continues = ground (
    arith,
    append-nil s.received,
    v.in_order,
    v.within,
    v.receives.counted,
    cut.0,
    length-drop (s.receiver.recv_offset - c.off) c.bytes,
    news_continue s.sent c s.receiver.recv_offset cut,
  )

  receiving-Receives :
      Receives (receiving s.receiver s.inp.closed c.off c.bytes) (s.received ++ added)
  unfolding added mark_broken
  receiving-Receives = ground (
    arith,
    append-nil s.received,
    length-append s.received added,
    added_continues,
    v.receives.counted,
    v.receives.fits,
    v.receives.acked_le,
    v.sends.fits,
  )

  pub received_lem :
      (q : Receipt) (more : List ℕ)
      → recv_in s.receiver s.inp s.out c.off c.bytes ≡ some q
      → q.inp.buf ≡ s.inp.buf ++ more
      → (more ≡ added)
        × (q.layer ≡ receiving s.receiver s.inp.closed c.off c.bytes)
        × (q.inp.closed ≡ s.inp.closed)
        × (q.error ≡ recv_error s.receiver.recv_offset s.inp.closed c.off c.bytes)
  unfolding added
  received_lem q more e b =
      let answer = rw e at (
        recv_in_lem s.receiver s.received v.receives s.inp s.out c.off c.bytes
          (omega (arith, cut.0, v.sends.fits))) in
      (append_cancel s.inp.buf more _ (sym b ∙ answer.1), answer.0, answer.2, answer.3)

pub some_injective {ℓ} : {A : Type ℓ} {a b : A} → some a ≡ some b → a ≡ b
some_injective h = cc

-- The sender's half of a link that keeps all it has sent.
pub with_sender :
    (s : Link) (r : Reliable)
    → IsFaithful s
    → Sends r s.sent
    → (r.broken ≡ true) ⊎ (r.acked_offset ≤ length s.received)
    → IsFaithful (record s { sender = r })
with_sender s r v w b = record {
  sends = w;
  receives = v.receives;
  in_order = v.in_order;
  within = v.within;
  cuts = v.cuts;
  reported = v.reported;
  behind = b;
}

pub replays-IsFaithful :
    (s : Link) (dst : ℕ)
    → IsFaithful s
    → IsFaithful (record s {
      sender = record s.sender {
        sent_cursor = s.sender.sent_cursor + min dst (s.sender.send_offset - s.sender.sent_cursor);
      };
      frames =
          record { off = s.sender.sent_cursor; bytes = take dst (drop s.sender.sent_cursor s.sent) }
          ∷ s.frames;
    })
replays-IsFaithful s dst v = record {
  sends = next_replay-Sends s.sender s.sent v.sends dst;
  receives = v.receives;
  in_order = v.in_order;
  within = v.within;
  cuts = (
    IsCutOf-replay s.sent s.sender.sent_cursor dst
        (omega (arith, v.sends.counted, v.sends.cursor_le)),
    v.cuts,
  );
  reported = v.reported;
  behind = v.behind;
}

pub takes-IsFaithful :
    (s : Link) (bytes : List ℕ)
    → IsFaithful s
    → length s.sent + length bytes < u64_mod
    → IsFaithful (record s {
      sender = (next_fresh s.sender bytes).0;
      sent = s.sent ++ bytes;
      frames = (next_fresh s.sender bytes).1 ∷ s.frames;
    })
takes-IsFaithful s bytes v h =
    let (w, chunk, _, _, acked, _) = next_fresh_lem s.sender s.sent v.sends bytes h in
    record {
      sends = w;
      receives = v.receives;
      in_order = v.in_order ∙ sym (take-append_le (length s.received) s.sent bytes v.within);
      within = omega (arith, v.within, length-append s.sent bytes);
      cuts = (
        rw chunk (IsCutOf-fresh s.sent bytes),
        All-map (IsCutOf s.sent) (IsCutOf (s.sent ++ bytes)) s.frames
            (λ c cut. IsCutOf-append s.sent bytes c cut) v.cuts,
      );
      reported = v.reported;
      behind = ground (arith, acked, v.behind);
    }

pub delivers-IsFaithful :
    (s : Link) (c : Chunk) (q : Receipt) (more : List ℕ)
    → IsFaithful s
    → IsCutOf s.sent c
    → recv_in s.receiver s.inp s.out c.off c.bytes ≡ some q
    → q.inp.buf ≡ s.inp.buf ++ more
    → IsFaithful
        (record s { receiver = q.layer; inp = q.inp; out = q.out; received = s.received ++ more })
delivers-IsFaithful s c q more v cut e b =
    let (m, layer, _, _) = received_lem s v c cut q more e b in
    let (order, short) = added_continues s v c cut in
    let size = length-append s.received (added s v c cut) in
    rw (m, layer)
      (record {
        sends = v.sends;
        receives = receiving-Receives s v c cut;
        in_order = order ∙ ap (λ k. take k s.sent) (sym size);
        within = omega (arith, short, size);
        cuts = v.cuts;
        reported =
            All-map (λ n. n ≤ length s.received) (λ n. n ≤ length (s.received ++ added s v c cut))
              s.acks (λ n h. omega (arith, h, size)) v.reported;
        behind = ground (arith, v.behind, size);
      })

pub acknowledges-IsFaithful :
    (s : Link) (n : ℕ) (r : Reliable) (e : Option LayerError)
    → IsFaithful s
    → n ≤ length s.received
    → ack s.sender n ≡ some (r, e)
    → IsFaithful (record s { sender = r })
acknowledges-IsFaithful s n r e v h q =
    let (r', q', w, broken, acked, _, _, _) =
      ack_lem s.sender s.sent v.sends n (omega (arith, v.within, v.sends.counted)) in
    let same : r ≡ r' = ap (λ p. p.0) (some_injective (sym q ∙ q')) in
    rw same (with_sender s r' v w (ground (arith, broken, acked, v.behind)))

pub resumes-IsFaithful :
    (s : Link) (n : ℕ) (r : Reliable) (done : Bool)
    → IsFaithful s
    → n ≤ length s.received
    → resume_out s.sender n ≡ some (r, done)
    → IsFaithful (record s { sender = r })
resumes-IsFaithful s n r done v h q = elim (resume_out_lem s.sender s.sent v.sends n) [
  | inl (q', _) ↦ rw (ap (λ p. p.0) (some_injective (sym q ∙ q'))) v
  | inr (r', q', w, whole, acked, _, _, _, _, _, _, _) ↦
      rw (ap (λ p. p.0) (some_injective (sym q ∙ q')))
        (with_sender s r' v w (inr (omega (arith, acked))))
]
