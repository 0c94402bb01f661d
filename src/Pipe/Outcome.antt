-- ===== src/Pipe/Outcome.antt =====
-- pipe.go: what each result of Read and ReadAvailable says of the pipe.
use Prim.{tt}
use pollmux.Base.{
  ℕ, zero, suc, ◌≡◌, ◌≤◌, ◌<◌, refl, Bool, true, false, List, [], ◌∷◌, ◌++◌, ◌||◌, ap,
  if◌then◌else◌, Bool-cases, inl, inr, length, length-append, length-take, take, arith,
}
use pollmux.Pipe.{
  BufferedPipe, Change, Wake, Waiting, Waited, ReadResult, writes, closes, interrupts, timer,
  parked, ready, got, failed, blocked, eof, pipe_interrupted, write, note_high_water, apply,
  apply_all, wait_loop, take_out, close, interrupt, coalesce, after_coalesce, coalesce_busy,
  after_first_byte, first_byte_busy, is_empty, read_available,
}

-- How the loop's test stands where the wait stands.
abbrev Stands : (Waiting → Bool) → Waited → Type 0
Stands busy (parked s) = busy s ≡ true
Stands busy (ready s ws) = busy s ≡ false

wait_loop-Stands :
    (busy : Waiting → Bool) (s : Waiting) (ws : List Wake) → Stands busy (wait_loop busy s ws)
unfolding wait_loop
wait_loop-Stands busy s [] = ground arith
wait_loop-Stands busy s (w ∷ ws) = ground (arith, wait_loop-Stands busy (apply_all s w) ws)

-- Waiting never shrinks the buffer.
apply_grows : (s : Waiting) (c : Change) → length s.pipe.buf ≤ length (apply s c).pipe.buf
unfolding apply
apply_grows s (writes bytes) =
    unfold write note_high_water in ground (arith, length-append s.pipe.buf bytes)
apply_grows s closes = omega arith
apply_grows s interrupts = omega arith
apply_grows s timer = omega arith

apply_all_grows : (s : Waiting) (w : Wake) → length s.pipe.buf ≤ length (apply_all s w).pipe.buf
unfolding apply_all
apply_all_grows s [] = omega arith
apply_all_grows s (c ∷ w) = omega (arith, apply_grows s c, apply_all_grows (apply s c) w)

abbrev Holds : ℕ → Waited → Type 0
Holds n (parked s) = n ≤ length s.pipe.buf
Holds n (ready s ws) = n ≤ length s.pipe.buf

wait_loop_grows :
    (busy : Waiting → Bool) (n : ℕ) (s : Waiting) (ws : List Wake)
    → n ≤ length s.pipe.buf
    → Holds n (wait_loop busy s ws)
unfolding wait_loop
wait_loop_grows busy n s [] h = ground arith
wait_loop_grows busy n s (w ∷ ws) h =
    ground (arith, wait_loop_grows busy n (apply_all s w) ws, apply_all_grows s w)

-- Whether the timer is among what others do in one wait.
abbrev pub fires : List Change → Bool
fires [] = false
fires (timer ∷ cs) = true
fires (writes bytes ∷ cs) = fires cs
fires (closes ∷ cs) = fires cs
fires (interrupts ∷ cs) = fires cs

-- Of the wake-ups `before`, all but `after` were used, and the timer fired in the last one used.
abbrev pub TimedOut : List Wake → List Wake → Type 0
TimedOut before after =
    (used : List Wake) × (last : Wake) × (before ≡ used ++ (last ∷ after)) × (fires last ≡ true)

abbrev Timed : List Wake → Waited → Type 0
Timed before (parked s) = Unit
Timed before (ready s ws) = s.timed_out ≡ true → TimedOut before ws

timed_out-apply_all : (s : Waiting) (w : Wake) → (apply_all s w).timed_out ≡ s.timed_out || fires w
unfolding apply_all apply
timed_out-apply_all s [] = ground arith
timed_out-apply_all s (writes bytes ∷ cs) =
    timed_out-apply_all (record s { pipe = (write s.pipe bytes).0 }) cs
timed_out-apply_all s (closes ∷ cs) = timed_out-apply_all (record s { pipe = close s.pipe }) cs
timed_out-apply_all s (interrupts ∷ cs) =
    timed_out-apply_all (record s { pipe = interrupt s.pipe }) cs
timed_out-apply_all s (timer ∷ cs) =
    ground (arith, timed_out-apply_all (record s { timed_out = true }) cs)

wait_loop_ready :
    (busy : Waiting → Bool) (s : Waiting) (ws : List Wake)
    → busy s ≡ false
    → wait_loop busy s ws ≡ ready s ws
unfolding wait_loop
wait_loop_ready busy s [] h = rw h refl
wait_loop_ready busy s (w ∷ ws) h = rw h refl

Timed-more : (w : Wake) (ws : List Wake) (x : Waited) → Timed ws x → Timed (w ∷ ws) x
Timed-more w ws (parked s) t = tt
Timed-more w ws (ready s left) t =
    λ e. let (used, last, p, f) = t e in (w ∷ used, last, ap (λ l. w ∷ l) p, f)

-- A wait that ends timed out ends at the wake-up in which the timer fired.
wait_loop-Timed :
    (busy : Waiting → Bool) (s : Waiting) (ws : List Wake)
    → ((u : Waiting) → u.timed_out ≡ true → busy u ≡ false)
    → s.timed_out ≡ false
    → Timed ws (wait_loop busy s ws)
unfolding wait_loop
wait_loop-Timed busy s [] heeds e = none_left (busy s)
  where
    none_left : (b : Bool) → Timed [] (if b then parked s else ready s [])
    none_left true = tt
    none_left false = λ f. absurd (cc (e, f))
wait_loop-Timed busy s (w ∷ ws) heeds e =
    one_used (busy s) (λ f. wait_loop-Timed busy (apply_all s w) ws heeds f)
  where
    fired : (apply_all s w).timed_out ≡ true → fires w ≡ true
    fired f = ground (arith, timed_out-apply_all s w, e, f)

    behind :
        ((apply_all s w).timed_out ≡ false → Timed ws (wait_loop busy (apply_all s w) ws))
        → Timed (w ∷ ws) (wait_loop busy (apply_all s w) ws)
    behind ih = elim (Bool-cases (apply_all s w).timed_out) [
      | inl f ↦
          rw (wait_loop_ready busy (apply_all s w) ws (heeds (apply_all s w) f))
            (λ g. ([], w, refl, fired f))
      | inr f ↦ Timed-more w ws (wait_loop busy (apply_all s w) ws) (ih f)
    ]

    one_used :
        (b : Bool)
        → ((apply_all s w).timed_out ≡ false → Timed ws (wait_loop busy (apply_all s w) ws))
        → Timed (w ∷ ws) (if b then wait_loop busy (apply_all s w) ws else ready s (w ∷ ws))
    one_used true ih = behind ih
    one_used false ih = λ f. absurd (cc (e, f))

-- What a result says, for a caller with a buffer of `dst` bytes that had the wake-ups `before`. An
-- empty read is a timeout, whose timer fired in a wake-up that it used, on a pipe that is empty, open
-- and not interrupted; a reader that is still parked is so with good reason.
abbrev pub Justified : ℕ → List Wake → BufferedPipe × ReadResult × List Wake → Type 0
Justified dst before (p, got [], ws) =
    (p.buf ≡ []) × (p.closed ≡ false) × (p.intr ≡ false) × TimedOut before ws
Justified dst before (p, got (b ∷ bytes), ws) = length (b ∷ bytes) ≤ dst
Justified dst before (p, failed eof, ws) = (p.buf ≡ []) × (p.closed ≡ true)
Justified dst before (p, failed pipe_interrupted, ws) = p.intr ≡ false
Justified dst before (p, blocked, ws) = (length p.buf < dst) × (p.closed ≡ false) × (p.intr ≡ false)

take-Justified :
    (p : BufferedPipe) (dst n : ℕ) (xs : List ℕ) (before ws : List Wake)
    → n ≤ dst
    → 0 < n
    → 0 < length xs
    → Justified dst before (p, got (take n xs), ws)
take-Justified p dst n [] before ws h i j = absurd (omega arith)
take-Justified p dst zero (x ∷ xs) before ws h i j = absurd (omega arith)
take-Justified p dst (suc n) (x ∷ xs) before ws h i j = omega (arith, length-take n xs)

take_out-Justified :
    (p : BufferedPipe) (dst : ℕ) (before ws : List Wake)
    → 0 < dst
    → 0 < length p.buf
    → Justified dst before (take_out p dst ws)
unfolding take_out
take_out-Justified p dst before ws h i =
    take-Justified ((take_out p dst ws).0) dst _ p.buf before ws (omega arith) (omega arith) i

after_coalesce-Justified :
    (dst : ℕ) (before : List Wake) (w : Waited)
    → 0 < dst
    → Stands (coalesce_busy dst) w
    → Holds 1 w
    → Justified dst before (after_coalesce dst w)
unfolding after_coalesce coalesce_busy
after_coalesce-Justified dst before (parked s) h st g = ground arith
after_coalesce-Justified dst before (ready s ws) h st g =
    take_out-Justified s.pipe dst before ws h g

coalesce-Justified :
    (p : BufferedPipe) (dst : ℕ) (before ws : List Wake)
    → 0 < dst
    → 0 < length p.buf
    → Justified dst before (coalesce p dst ws)
unfolding coalesce
coalesce-Justified p dst before ws h i =
    let s : Waiting = record { pipe = p; timed_out = false } in
    ground (
      arith,
      after_coalesce-Justified dst before (wait_loop (coalesce_busy dst) s ws) h
          (wait_loop-Stands (coalesce_busy dst) s ws)
          (wait_loop_grows (coalesce_busy dst) 1 s ws i),
      take_out-Justified p dst before ws h i,
    )

empty_iff : (xs : List ℕ) → is_empty xs ≡ true → xs ≡ []
unfolding is_empty
empty_iff [] h = refl
empty_iff (x ∷ xs) h = absurd (ground arith)

nonempty_length : (xs : List ℕ) → is_empty xs ≡ false → 0 < length xs
unfolding is_empty
nonempty_length xs h = ground arith

after_first_byte-Justified :
    (dst : ℕ) (before : List Wake) (w : Waited)
    → 0 < dst
    → Stands first_byte_busy w
    → Timed before w
    → Justified dst before (after_first_byte dst w)
unfolding after_first_byte first_byte_busy
after_first_byte-Justified dst before (parked s) h st t = ground (arith, empty_iff s.pipe.buf)
after_first_byte-Justified dst before (ready s ws) h st t = ground (
  arith,
  empty_iff s.pipe.buf,
  nonempty_length s.pipe.buf,
  t,
  coalesce-Justified s.pipe dst before ws h,
)

heeds_timer : (u : Waiting) → u.timed_out ≡ true → first_byte_busy u ≡ false
unfolding first_byte_busy
heeds_timer u e = ground (arith, e)

-- Whatever happens while ReadAvailable waits, for a buffer that is not empty: (0, nil) is a timeout,
-- whose timer fired in the wake-up that ended the wait, on an empty, open, uninterrupted pipe; data fits the buffer; io.EOF means closed and drained; an
-- interrupt is consumed by the call that reports it; and a call that still waits has a buffer to
-- fill on a pipe that is open and not interrupted.
pub read_available-Justified :
    (p : BufferedPipe) (dst : ℕ) (ws : List Wake)
    → 0 < dst
    → Justified dst ws (read_available p dst ws)
unfolding read_available
read_available-Justified p dst ws h =
    let s : Waiting = record { pipe = p; timed_out = false } in
    ground (
      arith,
      empty_iff p.buf,
      nonempty_length p.buf,
      after_first_byte-Justified dst ws (wait_loop first_byte_busy s ws) h
          (wait_loop-Stands first_byte_busy s ws)
          (wait_loop-Timed first_byte_busy s ws heeds_timer refl),
      coalesce-Justified p dst ws ws h,
    )
