-- ===== src/Pipe/Content.antt =====
-- pipe.go: what becomes of the bytes. Every byte that a write was credited with is returned by one
-- read, in order, or is still buffered.
use pollmux.Base.{
  ℕ, ◌≡◌, refl, sym, ap, ◌∙◌, Bool, true, false, List, [], ◌∷◌, ◌++◌, append_assoc, append-nil,
  if◌then◌else◌, length, take, drop, take-append-drop, min, arith, none,
}
use pollmux.Pipe.{
  BufferedPipe, closed_pipe, wrote, Change, Wake, Waiting, Waited, Reading, writes, closes,
  interrupts, timer, parked, ready, write, note_high_water, apply, apply_all, wait_loop, take_out,
  coalesce, after_coalesce, coalesce_busy, after_first_byte, first_byte_busy, read_available,
  after_read_wait, read_busy, read, bytes_of,
}

-- The bytes of the writes among the changes that an open pipe, or a closed one, takes in.
abbrev pub accepted : Bool → List Change → List ℕ
accepted closed [] = []
accepted closed (writes bytes ∷ cs) = (if closed then [] else bytes) ++ accepted closed cs
accepted closed (closes ∷ cs) = accepted true cs
accepted closed (interrupts ∷ cs) = accepted closed cs
accepted closed (timer ∷ cs) = accepted closed cs

abbrev pub all_changes : List Wake → List Change
all_changes [] = []
all_changes (w ∷ ws) = w ++ all_changes ws

-- What the pipe holds, and what the changes to come put in.
abbrev pub pending : BufferedPipe → List Change → List ℕ
pending p cs = p.buf ++ accepted p.closed cs

pub buf-write :
    (p : BufferedPipe) (bytes : List ℕ)
    → (write p bytes).0.buf ≡ p.buf ++ (if p.closed then [] else bytes)
unfolding write note_high_water
buf-write p bytes = ground (arith, append-nil p.buf)

pub closed-write : (p : BufferedPipe) (bytes : List ℕ) → (write p bytes).0.closed ≡ p.closed
unfolding write note_high_water
closed-write p bytes = ground arith

pub write-closed :
    (p : BufferedPipe) (bytes : List ℕ) → p.closed ≡ true → write p bytes ≡ (p, closed_pipe, none)
unfolding write
write-closed p bytes h = rw h

pub write-open :
    (p : BufferedPipe) (bytes : List ℕ)
    → p.closed ≡ false
    → (write p bytes).1 ≡ wrote (length bytes)
unfolding write
write-open p bytes h = rw h

pending-apply :
    (s : Waiting) (c : Change) (cs : List Change)
    → pending (apply s c).pipe cs ≡ pending s.pipe (c ∷ cs)
unfolding apply
pending-apply s (writes bytes) cs =
    unfold write note_high_water in
    rw (buf-write s.pipe bytes, closed-write s.pipe bytes) (append_assoc s.pipe.buf _ _)
pending-apply s closes cs = refl
pending-apply s interrupts cs = refl
pending-apply s timer cs = refl

pub pending-apply_all :
    (s : Waiting) (w : Wake) (cs : List Change)
    → pending (apply_all s w).pipe cs ≡ pending s.pipe (w ++ cs)
unfolding apply_all
pending-apply_all s [] cs = refl
pending-apply_all s (c ∷ w) cs = pending-apply_all (apply s c) w cs ∙ pending-apply s c (w ++ cs)

-- `cs` is what comes behind the wake-ups.
module _ (cs : List Change) where
  -- The same of a wait, whichever way it stands.
  abbrev pub waited_pending : Waited → List ℕ
  waited_pending (parked s) = pending s.pipe cs
  waited_pending (ready s ws) = pending s.pipe (all_changes ws ++ cs)

  -- What a call returned, what the pipe holds after it, and what the unused wake-ups put in.
  abbrev pub outcome_then : Reading → List ℕ
  outcome_then (p, r, ws) = bytes_of r ++ pending p (all_changes ws ++ cs)

  waited_pending-wait_loop :
      (busy : Waiting → Bool) (s : Waiting) (ws : List Wake)
      → waited_pending (wait_loop busy s ws) ≡ pending s.pipe (all_changes ws ++ cs)
  unfolding wait_loop
  waited_pending-wait_loop busy s [] = ground arith
  waited_pending-wait_loop busy s (w ∷ ws) = ground (
    arith,
    waited_pending-wait_loop busy (apply_all s w) ws,
    pending-apply_all s w (all_changes ws ++ cs),
    append_assoc w (all_changes ws) cs,
  )

  outcome-take_out :
      (p : BufferedPipe) (dst : ℕ) (ws : List Wake)
      → outcome_then (take_out p dst ws) ≡ pending p (all_changes ws ++ cs)
  unfolding take_out
  outcome-take_out p dst ws =
      let n = min dst (length p.buf) in
      sym (append_assoc (take n p.buf) (drop n p.buf) _)
      ∙ ap (λ b. b ++ accepted p.closed (all_changes ws ++ cs)) (take-append-drop n p.buf)

  outcome-after_coalesce :
      (dst : ℕ) (w : Waited) → outcome_then (after_coalesce dst w) ≡ waited_pending w
  unfolding after_coalesce
  outcome-after_coalesce dst (parked s) = refl
  outcome-after_coalesce dst (ready s ws) = outcome-take_out s.pipe dst ws

  outcome-coalesce :
      (p : BufferedPipe) (dst : ℕ) (ws : List Wake)
      → outcome_then (coalesce p dst ws) ≡ pending p (all_changes ws ++ cs)
  unfolding coalesce
  outcome-coalesce p dst ws =
      let s : Waiting = record { pipe = p; timed_out = false } in
      ground (
        arith,
        outcome-after_coalesce dst (wait_loop (coalesce_busy dst) s ws),
        waited_pending-wait_loop (coalesce_busy dst) s ws,
        outcome-take_out p dst ws,
      )

  outcome-after_first_byte :
      (dst : ℕ) (w : Waited) → outcome_then (after_first_byte dst w) ≡ waited_pending w
  unfolding after_first_byte
  outcome-after_first_byte dst (parked s) = refl
  outcome-after_first_byte dst (ready s ws) = ground (arith, outcome-coalesce s.pipe dst ws)

  pub outcome_then-read_available :
      (p : BufferedPipe) (dst : ℕ) (ws : List Wake)
      → outcome_then (read_available p dst ws) ≡ pending p (all_changes ws ++ cs)
  unfolding read_available
  outcome_then-read_available p dst ws =
      let s : Waiting = record { pipe = p; timed_out = false } in
      ground (
        arith,
        outcome-after_first_byte dst (wait_loop first_byte_busy s ws),
        waited_pending-wait_loop first_byte_busy s ws,
        outcome-coalesce p dst ws,
      )

  outcome-after_read_wait :
      (dst : ℕ) (w : Waited) → outcome_then (after_read_wait dst w) ≡ waited_pending w
  unfolding after_read_wait
  outcome-after_read_wait dst (parked s) = refl
  outcome-after_read_wait dst (ready s ws) = ground (arith, outcome-take_out s.pipe dst ws)

abbrev pub outcome : Reading → List ℕ
outcome (p, r, ws) = bytes_of r ++ pending p (all_changes ws)

outcome-nil : (r : Reading) → outcome r ≡ outcome_then [] r
outcome-nil (p, r, ws) = ap (λ cs. bytes_of r ++ pending p cs) (sym (append-nil (all_changes ws)))

-- ReadAvailable neither loses, nor makes up, nor reorders a byte, however the wait goes: what it
-- returns, then what stays buffered, then what later changes add, is what the pipe held and all that
-- the writes put in.
pub outcome-read_available :
    (p : BufferedPipe) (dst : ℕ) (ws : List Wake)
    → outcome (read_available p dst ws) ≡ pending p (all_changes ws)
outcome-read_available p dst ws =
    outcome-nil (read_available p dst ws)
    ∙ outcome_then-read_available [] p dst ws
    ∙ ap (pending p) (append-nil (all_changes ws))

-- Read neither loses, nor makes up, nor reorders a byte, however it waits: what it returns, then what
-- stays buffered, then what later changes add, is what the pipe held and all that the writes put in.
pub outcome-read :
    (p : BufferedPipe) (dst : ℕ) (ws : List Wake)
    → outcome (read p dst ws) ≡ pending p (all_changes ws)
unfolding read
outcome-read p dst ws =
    let s : Waiting = record { pipe = p; timed_out = false } in
    outcome-nil (read p dst ws)
    ∙ outcome-after_read_wait [] dst (wait_loop read_busy s ws)
    ∙ waited_pending-wait_loop [] read_busy s ws
    ∙ ap (pending p) (append-nil (all_changes ws))
