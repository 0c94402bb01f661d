-- ===== src/Batch/Rewind.antt =====
-- batch.go: a poll is answered from where its client stands.
use pollmux.Base.{
  ℕ, ◌+◌, ◌-◌, ◌≤◌, ◌<◌, min, ◌≡◌, refl, ◌∙◌, true, false, List, some, arith, take, drop, length,
  length-take, length-drop, ◌==◌,
}
use mathlib.Core.Path.{subst}
use pollmux.Pipe.{Wake, BufferedPipe}
use pollmux.Reliable.{Reliable, rewind_to_acked, next_out, replay_due, sends}
use pollmux.Reliable.Sender.{
  Sends, ack_lem, next_replay_lem, next_replay-Sends, rewind_to_acked-Sends,
}
use pollmux.Batch.{End, data_from, answer_poll, after_poll_ack}

rewound :
    (r : Reliable)
    → r.broken ≡ false
    → rewind_to_acked r ≡ record r { sent_cursor = r.acked_offset }
unfolding rewind_to_acked
rewound r h = simp h refl

due : (r : Reliable) → r.broken ≡ false → r.sent_cursor < r.send_offset → replay_due r ≡ true
unfolding replay_due
due r h g = ground (arith, h)

next_out_due :
    (r : Reliable) (sent : List ℕ)
    → Sends r sent
    → r.broken ≡ false
    → r.sent_cursor < r.send_offset
    → (out : BufferedPipe) (dst : ℕ) (meanwhile : Reliable → Reliable) (ws : List Wake)
    → next_out r out dst meanwhile ws
      ≡ some (
        record r { sent_cursor = r.sent_cursor + min dst (r.send_offset - r.sent_cursor) },
        out,
        sends (record { off = r.sent_cursor; bytes = take dst (drop r.sent_cursor sent) }),
        ws,
      )
unfolding next_out
next_out_due r sent v whole more out dst meanwhile ws =
    simp (due r whole more, next_replay_lem r sent v dst (due r whole more)) refl

some_data :
    (n dst : ℕ) (sent : List ℕ)
    → 0 < dst
    → n < length sent
    → (length (take dst (drop n sent)) == 0) ≡ false
some_data n dst sent pos more = ground (arith, length-take dst (drop n sent), length-drop n sent)

-- A poll that is not cancelled, on a layer that is whole and well formed, with a buffer that is not
-- empty, whose client has received `n` bytes, no fewer than it had acknowledged and fewer than were
-- sent: it is answered at once with the bytes from `n` on, as many as the buffer holds, whatever
-- earlier responses carried, and nothing is taken from the pipe.
pub answer_poll-replays :
    (s : End) (sent : List ℕ) (n dst : ℕ) (meanwhile : Reliable → Reliable) (ws : List Wake)
    → Sends s.layer sent
    → s.layer.broken ≡ false
    → s.layer.acked_offset ≤ n
    → n < s.layer.send_offset
    → 0 < dst
    → (r : Reliable) × (answer_poll s n dst meanwhile ws false false
        ≡ some (
          record s { layer = r },
          data_from (record { off = n; bytes = take dst (drop n sent) }) s.layer.recv_offset,
          ws,
        ))
      × Sends r sent
      × (r.acked_offset ≡ n)
      × (r.broken ≡ false)
unfolding answer_poll after_poll_ack
answer_poll-replays s sent n dst meanwhile ws v whole lo hi pos =
    let (r, e, v', whole', acked, cursor, recv, told) = ack_lem s.layer sent v n (omega arith) in
    let live : r.broken ≡ false = whole' ∙ whole in
    let here : r.acked_offset ≡ n = ground (arith, acked, whole) in
    let q : Reliable = record r { sent_cursor = r.acked_offset } in
    let w : Sends q sent =
      subst (λ z. Sends z sent) (rewound r live) (rewind_to_acked-Sends r sent v') in
    let more : q.sent_cursor < q.send_offset = omega (arith, here, v.counted, v'.counted) in
    (
      record q { sent_cursor = q.sent_cursor + min dst (q.send_offset - q.sent_cursor) },
      rw (e, rewound r live, next_out_due q sent w live more s.out dst meanwhile ws)
          (rw (some_data r.acked_offset dst sent pos (omega (arith, here, v.counted)))
            (cc (here, recv))),
      next_replay-Sends q sent w dst,
      here,
      live,
    )
