-- ===== src/Reliable/Replay.antt =====
-- reliable.go: a resume handshake and the replay behind it bring the receiver up to date.
use pollmux.Base.{
  ℕ, zero, suc, ◌+◌, ◌-◌, ◌<◌, ◌≤◌, ◌≡◌, refl, sym, ap, ◌∙◌, Bool, true, false, List, ◌∷◌, ◌++◌,
  Option, some, none, if◌then◌else◌, length, length-append, length-take, length-drop, take,
  take_all, drop, drop-append_length, inl, inr, arith, min, ℤ, Bool-cases,
}
use pollmux.Reliable.{
  Reliable, Chunk, Receipt, LayerError, new_reliable, replay_due, next_replay, recv_in, resume_out,
}
use pollmux.Reliable.Sender.{next_replay_lem, resume_out_lem}
use pollmux.Reliable.Receiver.{news, ReceiptIs, recv_in_lem}
use pollmux.Reliable.System.{Link, Reach, new_link}
use pollmux.Reliable.Cuts.{IsCutOf, IsCutOf-replay}
use pollmux.Reliable.Faithful.{
  IsFaithful, replays-IsFaithful, delivers-IsFaithful, resumes-IsFaithful,
}
use pollmux.Reliable.Delivery.{Reach-IsFaithful, new_link-IsFaithful}

-- The receiver's half of a link after a frame.
deliver_link : Link → Option Receipt → Option Link
deliver_link s none = none
deliver_link s (some q) = some (record s {
  receiver = q.layer;
  inp = q.inp;
  out = q.out;
  received = s.received ++ drop (length s.inp.buf) q.inp.buf;
})

deliver_chunk : Link → Option (Reliable × Chunk) → Option Link
unfolding deliver_link
deliver_chunk s none = none
deliver_chunk s (some (r, c)) =
    deliver_link (record s { sender = r; frames = c ∷ s.frames })
      (recv_in s.receiver s.inp s.out c.off c.bytes)

and_then : Option Link → (Link → Option Link) → Option Link
and_then none f = none
and_then (some s) f = f s

-- The new transport after a resume: with a buffer of `dst` bytes, each nextOut is followed by its
-- recvIn on the other side, for at most `fuel` rounds.
unfoldable pub catch_up : ℕ → ℕ → Link → Option Link
unfolding deliver_chunk and_then
catch_up zero dst s = some s
catch_up (suc fuel) dst s =
    let more = and_then (deliver_chunk s (next_replay s.sender dst)) (catch_up fuel dst) in
    if replay_due s.sender then more else some s

resumed : ℕ → ℕ → Link → Option (Reliable × Bool) → Option Link
unfolding catch_up
resumed fuel dst s none = none
resumed fuel dst s (some (r, false)) = none
resumed fuel dst s (some (r, true)) = catch_up fuel dst (record s { sender = r })

-- resumeOut with the receiver's offset, and then the replay.
unfoldable pub resume_link : ℕ → ℕ → Link → Option Link
unfolding resumed
resume_link fuel dst s = resumed fuel dst s (resume_out s.sender s.receiver.recv_offset)

receipt_some :
    (o : Option Receipt) (r : Reliable) (buf : List ℕ) (closed : Bool) (e : Option LayerError)
    → ReceiptIs o r buf closed e
    → (q : Receipt) × (o ≡ some q) × ReceiptIs (some q) r buf closed e
receipt_some none r buf closed e h = absurd h
receipt_some (some q) r buf closed e h = (q, refl, h)

-- A link whose sender replays from where its receiver stands.
pub record IsResumed (s : Link) : Type 0 where
  pub faithful : IsFaithful s
  pub whole : s.sender.broken ≡ false
  pub level : s.sender.sent_cursor ≡ length s.received
  pub is_open : s.inp.closed ≡ false

module _ (dst : ℕ) (s : Link) (v : IsResumed s) (due : replay_due s.sender ≡ true) where
  moved : Reliable
  moved = record s.sender {
    sent_cursor = s.sender.sent_cursor + min dst (s.sender.send_offset - s.sender.sent_cursor);
  }

  chunk : Chunk
  chunk = record { off = s.sender.sent_cursor; bytes = take dst (drop s.sender.sent_cursor s.sent) }

  middle : Link
  middle = record s { sender = moved; frames = chunk ∷ s.frames }

  middle-IsFaithful : IsFaithful middle
  unfolding middle moved chunk
  middle-IsFaithful = replays-IsFaithful s dst v.faithful

  chunk-IsCutOf : IsCutOf s.sent chunk
  unfolding chunk
  chunk-IsCutOf =
      IsCutOf-replay s.sent s.sender.sent_cursor dst
        (omega (arith, v.faithful.sends.counted, v.faithful.sends.cursor_le))

  all_news : news s.receiver.recv_offset s.inp.closed chunk.off chunk.bytes ≡ chunk.bytes
  unfolding chunk
  all_news =
      ground
        (arith, v.level, v.is_open, v.faithful.receives.counted, none_before s.receiver.recv_offset)
    where
      none_before : (n : ℕ) → n - n ≡ 0
      none_before n = omega arith

  chunk_length : length chunk.bytes ≡ min dst (length s.sent - length s.received)
  unfolding chunk
  chunk_length = omega (
    arith,
    v.level,
    length-take dst (drop s.sender.sent_cursor s.sent),
    length-drop s.sender.sent_cursor s.sent,
  )

  -- One nextOut and its recvIn: the receiver gets as much of what it lacks as fits the buffer.
  round :
      (s' : Link) × (deliver_chunk s (next_replay s.sender dst) ≡ some s')
      × IsResumed s'
      × (s'.sent ≡ s.sent)
      × (length s'.received ≡ length s.received + min dst (length s.sent - length s.received))
  unfolding deliver_chunk chunk moved middle
  round =
      let w = v.faithful in
      let (q, qe, facts) =
        receipt_some (recv_in s.receiver s.inp s.out chunk.off chunk.bytes) _ _ _ _ (
          recv_in_lem s.receiver s.received w.receives s.inp s.out chunk.off chunk.bytes
            (omega (arith, chunk-IsCutOf.0, w.sends.fits))) in
      let grown : q.inp.buf ≡ s.inp.buf ++ chunk.bytes = facts.1 ∙ ap (◌++◌ s.inp.buf) all_news in
      let more : List ℕ = drop (length s.inp.buf) q.inp.buf in
      let new_bytes : more ≡ chunk.bytes =
        ap (drop (length s.inp.buf)) grown ∙ drop-append_length s.inp.buf chunk.bytes in
      let size : length (s.received ++ more) ≡ length s.received + length chunk.bytes =
        length-append s.received more ∙ ap (λ b. length s.received + length b) new_bytes in
      (
        record middle {
          receiver = q.layer;
          inp = q.inp;
          out = q.out;
          received = s.received ++ more;
        },
        rw (next_replay_lem s.sender s.sent w.sends dst due) (rw qe),
        record {
          faithful =
              delivers-IsFaithful middle chunk q more middle-IsFaithful chunk-IsCutOf qe
                (grown ∙ ap (◌++◌ s.inp.buf) (sym new_bytes));
          whole = v.whole;
          level = omega (arith, size, chunk_length, v.level, w.sends.counted);
          is_open = facts.2 ∙ v.is_open;
        },
        refl,
        size ∙ ap (λ n. length s.received + n) chunk_length,
      )

all_received : (s : Link) → IsFaithful s → length s.sent ≤ length s.received → s.received ≡ s.sent
all_received s w h = w.in_order ∙ take_all (length s.received) s.sent h

catch_up_lem :
    (fuel dst : ℕ) (s : Link)
    → 0 < dst
    → IsResumed s
    → length s.sent ≤ length s.received + fuel
    → (s' : Link) × (catch_up fuel dst s ≡ some s') × (s'.received ≡ s.sent)
unfolding catch_up
catch_up_lem zero dst s h v enough = (s, refl, all_received s v.faithful (omega (arith, enough)))
catch_up_lem (suc fuel) dst s h v enough = elim (Bool-cases (replay_due s.sender)) [
  | inr done ↦ (
    s,
    rw done,
    all_received s v.faithful
        (unfold replay_due in ground (arith, done, v.whole, v.level, v.faithful.sends.counted)),
  )
  | inl due ↦
      let (s1, e1, v1, same, grown) = round dst s v due in
      let (s2, e2, all) =
        catch_up_lem fuel dst s1 h v1 (omega (arith, ap length same, grown, enough)) in
      (s2, rw due (rw e1 e2), all ∙ same)
]

-- A resume in any reachable state with an unbroken sender and an open receiver: the handshake with the
-- receiver's offset is accepted, and with a buffer that is not empty the replay behind it ends after
-- at most one round for each byte that the receiver lacks, when it has received exactly what was sent.
pub resume_link-received :
    (m n : ℤ) (fuel dst : ℕ) {s : Link}
    → Reach (new_link (new_reliable m) (new_reliable n)) s
    → 0 < dst
    → s.sender.broken ≡ false
    → s.inp.closed ≡ false
    → length s.sent ≤ length s.received + fuel
    → (s' : Link) × (resume_link fuel dst s ≡ some s') × (s'.received ≡ s.sent)
unfolding resume_link resumed
resume_link-received m n fuel dst {s} reach h whole o enough =
    let v = Reach-IsFaithful (new_link-IsFaithful m n) reach in
    let at = s.receiver.recv_offset in
    elim (resume_out_lem s.sender s.sent v.sends at) [
      | inl (_, why) ↦
          absurd
            (ground (arith, why, whole, v.behind, v.within, v.receives.counted, v.sends.counted))
      | inr (r, q, w, still, _, cursor, _, _, _, _, _, _) ↦ rw q (
          catch_up_lem fuel dst (record s { sender = r }) h
            (record {
              faithful = resumes-IsFaithful s at r true v (omega (arith, v.receives.counted)) q;
              whole = still;
              level = cursor ∙ v.receives.counted;
              is_open = o;
            })
            enough)
    ]
