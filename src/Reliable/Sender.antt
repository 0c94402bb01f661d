-- ===== src/Reliable/Sender.antt =====
-- reliable.go: the sending half, against `sent`, all bytes ever taken from `out`.
use pollmux.Base.{
  ℕ, ◌⊎◌, ◌+◌, ◌-◌, ◌≡◌, ◌≤◌, ◌<◌, refl, ap, ◌∙◌, true, false, ◌||◌, List, [], ◌++◌, none, some,
  ltb, leb, if◌then◌else◌, length, length-append, length-take, length-drop, take, drop, drop-drop,
  drop-append_le, slice_from, add64_exact, sub64_exact, u64_mod, min, max, arith, Bool-cases, inl,
  inr, add64, sub64,
}
use pollmux.Reliable.{
  Reliable, mark_broken, replay_due, next_replay, next_fresh, ack, resume_out, rewind_to_acked,
  reset_ack,
}

-- The offsets count `sent`, the replay buffer is what is not acknowledged of it (nothing once the
-- layer is broken) and within its bound.
pub record Sends (r : Reliable) (sent : List ℕ) : Type 0 where
  pub counted : r.send_offset ≡ length sent
  pub fits : length sent < u64_mod
  pub acked_le : r.acked_offset ≤ r.sent_cursor
  pub cursor_le : r.sent_cursor ≤ r.send_offset
  pub kept : r.replay ≡ (if r.broken then [] else drop r.acked_offset sent)
  pub bounded : length r.replay ≤ r.max_replay

pub mark_broken-Sends : (r : Reliable) (sent : List ℕ) → Sends r sent → Sends (mark_broken r) sent
unfolding mark_broken
mark_broken-Sends r sent v = ground arith

module _ (r : Reliable) (sent : List ℕ) (v : Sends r sent) where
  -- What is kept from an offset on.
  slice_kept :
      (n : ℕ)
      → r.broken ≡ false
      → r.acked_offset ≤ n
      → n ≤ r.send_offset
      → slice_from (sub64 n r.acked_offset) r.replay ≡ some (drop n sent)
  slice_kept n whole lo hi = rw (sub64_exact n r.acked_offset lo (omega (arith, v.fits))) (
      rw (v.kept ∙ ap (λ b. if b then [] else drop r.acked_offset sent) whole) (
        ground (
          arith,
          length-drop r.acked_offset sent,
          drop-drop (n - r.acked_offset) r.acked_offset sent ∙ at_n,
        )))
    where
      at_n : drop (r.acked_offset + (n - r.acked_offset)) sent ≡ drop n sent
      at_n = ap (λ k. drop k sent) (omega arith)

  due_whole : replay_due r ≡ true → (r.broken ≡ false) × (r.sent_cursor < r.send_offset)
  unfolding replay_due
  due_whole h = (ground arith, ground arith)

  -- Replay comes from the cursor on, and moves it over what it sends; it never panics.
  pub next_replay_lem :
      (dst : ℕ)
      → replay_due r ≡ true
      → next_replay r dst
        ≡ some (
          record r { sent_cursor = r.sent_cursor + min dst (r.send_offset - r.sent_cursor) },
          record { off = r.sent_cursor; bytes = take dst (drop r.sent_cursor sent) },
        )
  unfolding next_replay
  next_replay_lem dst h =
      let (whole, more) = due_whole h in
      rw (slice_kept r.sent_cursor whole v.acked_le v.cursor_le) (rw (moved more))
    where
      moved :
          r.sent_cursor < r.send_offset
          → add64 r.sent_cursor (length (take dst (drop r.sent_cursor sent)))
            ≡ r.sent_cursor + min dst (r.send_offset - r.sent_cursor)
      moved more = omega (
        arith,
        v.fits,
        v.counted,
        length-take dst (drop r.sent_cursor sent),
        length-drop r.sent_cursor sent,
        add64_exact r.sent_cursor (length (take dst (drop r.sent_cursor sent))),
      )

  pub next_replay-Sends :
      (dst : ℕ)
      → Sends
          (record r { sent_cursor = r.sent_cursor + min dst (r.send_offset - r.sent_cursor) })
          sent
  next_replay-Sends dst = record {
    counted = v.counted;
    fits = v.fits;
    acked_le = omega (arith, v.acked_le);
    cursor_le = omega (arith, v.cursor_le);
    kept = v.kept;
    bounded = v.bounded;
  }

  -- At a well-formed sender, fresh bytes are numbered from the end of `sent`, and retained unless the
  -- layer is or gets broken; all that is sent stays below 2 ^ 64 bytes.
  pub next_fresh_lem :
      (bytes : List ℕ)
      → length sent + length bytes < u64_mod
      → Sends (next_fresh r bytes).0 (sent ++ bytes)
        × ((next_fresh r bytes).1 ≡ record { off = length sent; bytes = bytes })
        × ((next_fresh r bytes).0.recv_offset ≡ r.recv_offset)
        × ((next_fresh r bytes).0.last_ack ≡ r.last_ack)
        × (((next_fresh r bytes).0.acked_offset ≡ r.acked_offset)
              × ((next_fresh r bytes).0.broken ≡ r.broken)
            ⊎ ((next_fresh r bytes).0.broken ≡ true))
        × ((next_fresh r bytes).0.max_replay ≡ r.max_replay)
  unfolding next_fresh
  next_fresh_lem bytes h =
      rw (add64_exact r.send_offset (length bytes) (omega (arith, v.counted))) (
        ground (arith, facts),
        ground (arith, facts),
        ground (arith, facts),
        ground (arith, facts),
        ground (arith, facts),
        ground (arith, facts),
      )
    where
      facts :
          (length (sent ++ bytes) ≡ length sent + length bytes)
          × (drop r.acked_offset (sent ++ bytes) ≡ drop r.acked_offset sent ++ bytes)
      facts = (
        length-append sent bytes,
        drop-append_le r.acked_offset sent bytes
            (omega (arith, v.counted, v.acked_le, v.cursor_le)),
      )

  shorter : (n : ℕ) → r.broken ≡ false → r.acked_offset ≤ n → length (drop n sent) ≤ r.max_replay
  shorter n whole lo =
      ground (arith, v.kept, v.bounded, length-drop n sent, length-drop r.acked_offset sent)

  released :
      (n cursor : ℕ)
      → r.broken ≡ false
      → r.acked_offset ≤ n
      → n ≤ cursor
      → cursor ≤ r.send_offset
      → Sends (record r { replay = drop n sent; acked_offset = n; sent_cursor = cursor }) sent
  released n cursor whole lo hi top = record {
    counted = v.counted;
    fits = v.fits;
    acked_le = hi;
    cursor_le = top;
    kept = rw whole;
    bounded = shorter n whole lo;
  }

  -- At a well-formed sender, an acknowledgement of bytes that were sent is taken without a panic and
  -- leaves it well formed: unless it is broken, both offsets move up to the acknowledged one at least,
  -- and never back.
  pub ack_lem :
      (n : ℕ)
      → n ≤ r.send_offset
      → (r' : Reliable) × (ack r n ≡ some (r', none))
        × Sends r' sent
        × (r'.broken ≡ r.broken)
        × (r'.acked_offset ≡ (if r.broken then r.acked_offset else max r.acked_offset n))
        × (r'.sent_cursor ≡ (if r.broken then r.sent_cursor else max r.sent_cursor n))
        × (r'.recv_offset ≡ r.recv_offset)
        × (r'.last_ack ≡ r.last_ack)
  unfolding ack
  ack_lem n h = elim (Bool-cases (r.broken || leb n r.acked_offset)) [
    | inl e ↦ (r, ground arith, v, refl, ground arith, ground arith, refl, refl)
    | inr e ↦
        let whole : r.broken ≡ false = ground arith in
        let later : r.acked_offset < n = ground arith in
        (
          record r { replay = drop n sent; acked_offset = n; sent_cursor = max r.sent_cursor n },
          ground (arith, slice_kept n whole (omega arith) h),
          released n (max r.sent_cursor n) whole (omega arith) (omega (arith, v.cursor_le))
              (omega arith),
          refl,
          ground arith,
          ground arith,
          refl,
          refl,
        )
  ]

  -- resumeOut of a well-formed sender, on every branch: it refuses, and changes nothing, exactly if the layer is broken or
  -- the peer's offset is not between what it acknowledged and what was sent; else the next transport
  -- replays from exactly that offset.
  pub resume_out_lem :
      (n : ℕ)
      → ((resume_out r n ≡ some (r, false))
          × ((r.broken ≡ true) ⊎ ((n < r.acked_offset) ⊎ (r.send_offset < n))))
        ⊎ ((r' : Reliable) × (resume_out r n ≡ some (r', true))
            × Sends r' sent
            × (r'.broken ≡ false)
            × (r'.acked_offset ≡ n)
            × (r'.sent_cursor ≡ n)
            × (r'.send_offset ≡ r.send_offset)
            × (r'.recv_offset ≡ r.recv_offset)
            × (r'.last_ack ≡ r.last_ack)
            × (r.acked_offset ≤ n)
            × (n ≤ r.send_offset)
            × (r.broken ≡ false))
  unfolding resume_out
  resume_out_lem n = elim (Bool-cases (r.broken || (ltb n r.acked_offset || ltb r.send_offset n))) [
    | inl e ↦ inl (rw e, ground arith)
    | inr e ↦
        let whole : r.broken ≡ false = ground arith in
        let lo : r.acked_offset ≤ n = ground arith in
        let hi : n ≤ r.send_offset = ground arith in
        inr (
          record r { replay = drop n sent; acked_offset = n; sent_cursor = n },
          ground (arith, slice_kept n whole lo hi),
          released n n whole lo (omega arith) hi,
          whole,
          refl,
          refl,
          refl,
          refl,
          refl,
          lo,
          hi,
          whole,
        )
  ]

  pub rewind_to_acked-Sends : Sends (rewind_to_acked r) sent
  unfolding rewind_to_acked
  rewind_to_acked-Sends =
      ground (arith, v.acked_le, v.cursor_le, v.counted, v.fits, v.kept, v.bounded)

  pub reset_ack-Sends : Sends (reset_ack r) sent
  unfolding reset_ack
  reset_ack-Sends = record {
    counted = v.counted;
    fits = v.fits;
    acked_le = v.acked_le;
    cursor_le = v.cursor_le;
    kept = v.kept;
    bounded = v.bounded;
  }
