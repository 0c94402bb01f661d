-- ===== src/Resuming/Deadline.antt =====
-- resumable_client.go: resume ends in time.
use pollmux.Base.{
  ℕ, zero, suc, ◌+◌, ◌*◌, ◌≡◌, ◌≢◌, ◌≤◌, ◌<◌, refl, Bool, true, false, List, [], ◌∷◌, Option, none,
  some, ltb, if◌then◌else◌, length, min, dec_lt, arith,
}
use Prim.{tt}
use native.Mathlib.Nat.{mul-zero, mul-suc, mul_comm}
use pollmux.Reliable.{Reliable, resume_out}
use pollmux.Reconnect.{sleep_or_done, sign_bit}
use pollmux.Resuming.{
  Attempt, Resumed, Tried, tried, retries, trying, jitter, slept, after_try, try_once, resume_loop,
  resume, do_resume, after_resume_out, Exchanged, server_recv, fatal_status, exchange_failed,
  gave_up,
}

-- jitter stays within a fifth of what it is given.
abbrev pub IsSpread : Attempt → Type 0
IsSpread a = (800 ≤ a.spread) × (a.spread ≤ 1200)

abbrev pub AllSpread : List Attempt → Type 0
AllSpread [] = Unit
AllSpread (a ∷ rest) = IsSpread a × AllSpread rest

mul_mono_left : (a b c : ℕ) → a ≤ b → a * c ≤ b * c
mul_mono_left a b zero h = omega (arith, mul-zero a)
mul_mono_left a b (suc c) h = omega (arith, mul_mono_left a b c h, mul-suc a c, mul-suc b c)

mul_mono : (a b c d : ℕ) → a ≤ b → c ≤ d → a * c ≤ b * d
mul_mono a b c d h k =
    omega (arith, mul_mono_left a b c h, mul_mono_left c d b k, mul_comm b c, mul_comm b d)

jitter_bounds :
    (backoff spread : ℕ)
    → 250 ≤ backoff
    → backoff ≤ 2000
    → 800 ≤ spread
    → spread ≤ 1200
    → (200 ≤ jitter backoff spread) × (jitter backoff spread ≤ 2400)
unfolding jitter
jitter_bounds backoff spread lo hi slo shi =
    let low : 200000 ≤ backoff * spread = mul_mono 250 backoff 800 spread lo slo in
    let high : backoff * spread ≤ 2400000 = mul_mono backoff 2000 spread 1200 hi shi in
    (omega arith, omega arith)

-- A pause that ran out took its time.
sleep_or_done_lem :
    (ctx : Option ℕ) (now d : ℕ) (tie : Bool)
    → 0 < d
    → d < sign_bit
    → (sleep_or_done ctx now d tie).0 ≡ true
    → (sleep_or_done ctx now d tie).1 ≡ now + d
unfolding sleep_or_done
sleep_or_done_lem none now d tie pos small e = ground arith
sleep_or_done_lem (some c) now d tie pos small e = ground arith

-- What a run of the loop that still tries would need.
abbrev Ends : Resumed → Type 0
Ends x = x.ending ≢ trying

slept-Ends :
    (k : ℕ → Resumed) (r : Reliable) (now : ℕ) (x : Bool × ℕ)
    → (x.0 ≡ true → now + 200 ≤ x.1)
    → ((t : ℕ) → now + 200 ≤ t → Ends (k t))
    → Ends (slept k r x)
unfolding slept
slept-Ends k r now (true, t) e h = h t (e refl)
slept-Ends k r now (false, t) e h = λ z. cc z

pause_at_least :
    (ctx : Option ℕ) (now d : ℕ) (tie : Bool)
    → 200 ≤ d
    → d ≤ 2400
    → (sleep_or_done ctx now d tie).0 ≡ true
    → now + 200 ≤ (sleep_or_done ctx now d tie).1
pause_at_least ctx now d tie lo hi e =
    omega (arith, sleep_or_done_lem ctx now d tie (omega arith) (omega arith) e)

-- An attempt that is no retry ends the loop.
abbrev Settles : Tried → Type 0
Settles (tried r e) = e ≢ trying
Settles (retries r) = Unit

after_resume_out-Settles :
    (websocket dialled : Bool) (rl : Reliable) (x : Option (Reliable × Bool))
    → Settles (after_resume_out websocket dialled rl x)
unfolding after_resume_out
after_resume_out-Settles websocket dialled rl none = λ z. cc z
after_resume_out-Settles websocket dialled rl (some (r, false)) = λ z. cc z
after_resume_out-Settles false dialled rl (some (r, true)) = λ z. cc z
after_resume_out-Settles true false rl (some (r, true)) = tt
after_resume_out-Settles true true rl (some (r, true)) = λ z. cc z

try_once-Settles :
    (websocket dialled : Bool) (rl : Reliable) (x : Exchanged)
    → Settles (try_once websocket rl dialled x)
unfolding try_once
try_once-Settles websocket dialled rl (server_recv recv) =
    after_resume_out-Settles websocket dialled rl (resume_out rl recv)
try_once-Settles websocket dialled rl (fatal_status n) = settled (ltb n 500)
  where
    settled : (b : Bool) → Settles (if b then tried rl (gave_up n) else retries rl)
    settled true = λ z. cc z
    settled false = tt
try_once-Settles websocket dialled rl exchange_failed = tt

after_try-Ends :
    (k : Reliable → ℕ → Resumed) (ctx : Option ℕ) (deadline backoff now : ℕ) (a : Attempt)
    (x : Tried)
    → 250 ≤ backoff
    → backoff ≤ 2000
    → IsSpread a
    → ((r : Reliable) (t : ℕ) → now ≤ deadline → now + 200 ≤ t → Ends (k r t))
    → Settles x
    → Ends (after_try k ctx deadline backoff now a x)
unfolding after_try
after_try-Ends k ctx deadline backoff now a (tried r e) lo hi v h z = z
after_try-Ends k ctx deadline backoff now a (retries r) lo hi (slo, shi) h z =
    elim (dec_lt deadline now) [
      | yes late ↦ rw (ltb_true deadline now late) (λ e. cc e)
      | no early ↦
          let (jlo, jhi) = jitter_bounds backoff a.spread lo hi slo shi in
          rw (ltb_false deadline now early) (
            slept-Ends (λ t. k r t) r now (sleep_or_done ctx now (jitter backoff a.spread) a.tie)
              (pause_at_least ctx now (jitter backoff a.spread) a.tie jlo jhi)
              (λ t. h r t (omega arith)))
    ]
  where
    ltb_true : (m n : ℕ) → m < n → ltb m n ≡ true
    ltb_true m n h = ground arith

    ltb_false : (m n : ℕ) → ¬ (m < n) → ltb m n ≡ false
    ltb_false m n h = ground arith

resume_loop-Ends :
    (websocket : Bool) (ctx : Option ℕ) (deadline backoff now : ℕ) (rl : Reliable)
    (attempts : List Attempt)
    → 250 ≤ backoff
    → backoff ≤ 2000
    → AllSpread attempts
    → 0 < length attempts
    → deadline + 200 < now + 200 * length attempts
    → Ends (resume_loop websocket ctx deadline backoff now rl attempts)
unfolding resume_loop
resume_loop-Ends websocket ctx deadline backoff now rl [] lo hi v pos h = absurd (omega arith)
resume_loop-Ends websocket ctx deadline backoff now rl (a ∷ rest) lo hi (s, v) pos h =
    after_try-Ends (λ r t. resume_loop websocket ctx deadline (min (backoff * 2) 2000) t r rest) ctx
      deadline backoff (now + a.took) a (try_once websocket rl a.dialled (do_resume a.answer)) lo hi
      s
      (λ r t early later.
        resume_loop-Ends websocket ctx deadline (min (backoff * 2) 2000) t r rest (omega arith)
          (omega arith) v (omega arith) (omega arith))
      (try_once-Settles websocket a.dialled rl (do_resume a.answer))

-- A resume always comes to an end, whatever the server answers and however long that takes: with one
-- attempt for each 200 milliseconds of the grace, and two more, it has resumed or given up. The
-- jitter is within a fifth.
pub resume_ends :
    (websocket : Bool) (ctx : Option ℕ) (grace now : ℕ) (rl : Reliable) (attempts : List Attempt)
    → AllSpread attempts
    → grace + 200 < 200 * length attempts
    → (resume websocket ctx grace now rl attempts).ending ≢ trying
unfolding resume
resume_ends websocket ctx grace now rl attempts v h =
    resume_loop-Ends websocket ctx (now + grace) 250 now rl attempts (omega arith) (omega arith) v
      (omega arith) (omega arith)
