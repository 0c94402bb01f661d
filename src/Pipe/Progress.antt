-- ===== src/Pipe/Progress.antt =====
-- pipe.go: a reader that waits is let go.
use pollmux.Base.{
  ◌≡◌, refl, ap, ◌≢◌, ℕ, Bool, false, List, [], ◌∷◌, ◌++◌, arith, Bool-cases, inl, inr,
}
use pollmux.Pipe.{
  BufferedPipe, Change, Wake, Waiting, closes, timer, ready, blocked, apply, apply_all, wait_loop,
  take_out, coalesce, after_coalesce, coalesce_busy, after_first_byte, first_byte_busy,
  read_available, after_read_wait, read_busy, read,
}

-- A change that makes the loop's test fail ends the wait, at the latest at the wake-up that brings
-- it; the wake-ups behind that one are left over.
wait_loop_ends :
    (busy : Waiting → Bool) (c : Change)
    → ((s : Waiting) → busy (apply s c) ≡ false)
    → (ws rest : List Wake) (s : Waiting)
    → (s' : Waiting) × (front : List Wake) × (wait_loop busy s (ws ++ (c ∷ []) ∷ rest)
        ≡ ready s' (front ++ rest))
unfolding wait_loop apply_all
wait_loop_ends busy c stops [] rest s = elim (Bool-cases (busy s)) [
  | inl e ↦ (apply s c, [], rw e (wait_stops rest))
  | inr e ↦ (s, (c ∷ []) ∷ [], rw e)
]
  where
    wait_stops : (r : List Wake) → wait_loop busy (apply s c) r ≡ ready (apply s c) r
    wait_stops [] = rw (stops s)
    wait_stops (w ∷ ws) = rw (stops s)
wait_loop_ends busy c stops (w ∷ ws) rest s = elim (Bool-cases (busy s)) [
  | inl e ↦
      let (s', front, q) = wait_loop_ends busy c stops ws rest (apply_all s w) in
      (s', front, rw e q)
  | inr e ↦ (s, w ∷ (ws ++ (c ∷ []) ∷ []), rw e (ap (λ t. ready s (w ∷ t)) (split ws)))
]
  where
    split : (xs : List Wake) → xs ++ (c ∷ []) ∷ rest ≡ (xs ++ (c ∷ []) ∷ []) ++ rest
    split [] = refl
    split (x ∷ xs) = ap (◌∷◌ x) (split xs)

timer_stops_first_byte : (s : Waiting) → first_byte_busy (apply s timer) ≡ false
unfolding first_byte_busy apply
timer_stops_first_byte s = ground arith

timer_stops_coalesce : (dst : ℕ) (s : Waiting) → coalesce_busy dst (apply s timer) ≡ false
unfolding coalesce_busy apply
timer_stops_coalesce dst s = ground arith

close_stops_read : (s : Waiting) → read_busy (apply s closes) ≡ false
unfolding read_busy apply
close_stops_read s = ground arith

take_out-ne-blocked :
    (p : BufferedPipe) (dst : ℕ) (ws : List Wake) → (take_out p dst ws).1 ≢ blocked
unfolding take_out
take_out-ne-blocked p dst ws = λ e. cc e

coalesce-ne-blocked :
    (p : BufferedPipe) (dst : ℕ) (ws rest : List Wake)
    → (coalesce p dst (ws ++ (timer ∷ []) ∷ rest)).1 ≢ blocked
unfolding coalesce after_coalesce take_out
coalesce-ne-blocked p dst ws rest e =
    let s : Waiting = record { pipe = p; timed_out = false } in
    ground (arith, wait_loop_ends (coalesce_busy dst) timer (timer_stops_coalesce dst) ws rest s, e)

-- Both of ReadAvailable's waits are bounded: whatever else happens meanwhile, once its timer has
-- fired in each phase the call has returned.
pub read_available-ne-blocked :
    (p : BufferedPipe) (dst : ℕ) (ws rest : List Wake)
    → (read_available p dst (ws ++ (timer ∷ []) ∷ (timer ∷ []) ∷ rest)).1 ≢ blocked
unfolding read_available after_first_byte
read_available-ne-blocked p dst ws rest e =
    let s : Waiting = record { pipe = p; timed_out = false } in
    let (s', front, q) =
      wait_loop_ends first_byte_busy timer timer_stops_first_byte ws ((timer ∷ []) ∷ rest) s in
    ground (
      arith,
      q,
      e,
      coalesce-ne-blocked p dst ws ((timer ∷ []) ∷ rest),
      coalesce-ne-blocked s'.pipe dst front rest,
    )

-- Closing the pipe lets a parked Read go: once a wake-up brings the close, whatever came before, the
-- call has returned.
pub read-ne-blocked :
    (p : BufferedPipe) (dst : ℕ) (ws rest : List Wake)
    → (read p dst (ws ++ (closes ∷ []) ∷ rest)).1 ≢ blocked
unfolding read after_read_wait take_out
read-ne-blocked p dst ws rest e =
    let s : Waiting = record { pipe = p; timed_out = false } in
    ground (arith, wait_loop_ends read_busy closes close_stops_read ws rest s, e)
