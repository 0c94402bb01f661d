-- ===== src/Reconnect/Backoff.antt =====
-- reconnect.go: what the loop sleeps for.
use pollmux.Base.{
  ℕ, zero, suc, ◌+◌, ◌*◌, ◌^◌, ◌<◌, ◌≤◌, min, max, ◌≡◌, refl, ap, ◌⊎◌, inl, inr, Bool, true, List,
  [], ◌∷◌, Option, none, some, arith, All, Bool-cases, length,
}
use pollmux.Reconnect.{
  ReconnectLoop, Settings, Round, Connected, Outcome, Next, Ran, follow, connection,
  version_rejected, failed, transport_failed, peer_closed, superseded, shutdown, leave, again,
  settings, escalate, sleep_or_done, after_sleep, after_connect, retry, stable_reset, after_serve,
  round, loop, run, sign_bit,
}

-- A doubled backoff keeps within int64: every setting is below 2 ^ 62 ns, which is 146 years.
abbrev pub IsSane : Settings → Type 0
IsSane s =
    (s.initial < 2 ^ 62)
    × (s.most < 2 ^ 62)
    × (s.peer_pause < 2 ^ 62)
    × (0 < s.initial)
    × (0 < s.most)
    × (0 < s.peer_pause)

-- Between the two settings, whichever of them is the larger.
abbrev pub IsBackoff : Settings → ℕ → Type 0
IsBackoff s b = (min s.initial s.most ≤ b) × (b ≤ max s.initial s.most)

abbrev pub IsSleep : Settings → ℕ → Type 0
IsSleep s d = (d ≡ s.peer_pause) ⊎ IsBackoff s d

pub escalate_lem : (b most : ℕ) → b < 2 ^ 62 → most < 2 ^ 62 → escalate b most ≡ min (b * 2) most
unfolding escalate
escalate_lem b most h g = ground arith

escalate-IsBackoff :
    (s : Settings) (b : ℕ) → IsSane s → IsBackoff s b → IsBackoff s (escalate b s.most)
escalate-IsBackoff s b sane h = ground (arith, escalate_lem b s.most)

stable_reset-IsBackoff :
    (s : Settings) (b serving : ℕ) → IsBackoff s b → IsBackoff s (stable_reset s b serving)
unfolding stable_reset
stable_reset-IsBackoff s b serving h = ground arith

-- What another round starts from.
abbrev pub GoesOn : Settings → ℕ → Next → Type 0
GoesOn s now (leave e t) = now ≤ t
GoesOn s now (again b t d) = IsBackoff s b × IsSleep s d × (now + d ≤ t)

GoesOn-weaken :
    (s : Settings) (now later : ℕ) (n : Next) → now ≤ later → GoesOn s later n → GoesOn s now n
GoesOn-weaken s now later (leave e t) le g = omega arith
GoesOn-weaken s now later (again b t d) le (h, d', g) = (h, d', omega arith)

sleep-GoesOn :
    (s : Settings) (ctx : Option ℕ) (b now : ℕ) (tie : Bool)
    → IsSane s
    → IsBackoff s b
    → GoesOn s now (after_sleep b s.peer_pause (sleep_or_done ctx now s.peer_pause tie))
unfolding sleep_or_done
sleep-GoesOn s none b now tie sane h = ground arith
sleep-GoesOn s (some c) b now tie sane h = ground arith

retry-GoesOn :
    (s : Settings) (ctx : Option ℕ) (b now : ℕ) (tie : Bool)
    → IsSane s
    → IsBackoff s b
    → GoesOn s now (retry s ctx b now tie)
unfolding retry sleep_or_done
retry-GoesOn s none b now tie sane h = ground (arith, escalate-IsBackoff s b sane h)
retry-GoesOn s (some c) b now tie sane h = ground (arith, escalate-IsBackoff s b sane h)

after_serve-GoesOn :
    (s : Settings) (ctx : Option ℕ) (b now : ℕ) (r : Round) (o : Outcome)
    → IsSane s
    → IsBackoff s b
    → GoesOn s now (after_serve s ctx b now r o)
unfolding after_serve
after_serve-GoesOn s ctx b now r shutdown sane h = omega arith
after_serve-GoesOn s ctx b now r superseded sane h = omega arith
after_serve-GoesOn s ctx b now r peer_closed sane h = sleep-GoesOn s ctx b now r.tie sane h
after_serve-GoesOn s ctx b now r transport_failed sane h =
    retry-GoesOn s ctx (stable_reset s b r.serving) now r.tie sane
      (stable_reset-IsBackoff s b r.serving h)

after_connect-GoesOn :
    (s : Settings) (ctx : Option ℕ) (b now : ℕ) (r : Round) (k : Connected)
    → IsSane s
    → IsBackoff s b
    → GoesOn s now (after_connect s ctx b now r k)
unfolding after_connect
after_connect-GoesOn s ctx b now r connection sane h =
    GoesOn-weaken s now (now + r.serving) (after_serve s ctx b (now + r.serving) r r.outcome)
      (omega arith) (after_serve-GoesOn s ctx b (now + r.serving) r r.outcome sane h)
after_connect-GoesOn s ctx b now r version_rejected sane h = omega arith
after_connect-GoesOn s ctx b now r failed sane h =
    ground (arith, retry-GoesOn s ctx b now r.tie sane h)

pub round-GoesOn :
    (s : Settings) (ctx : Option ℕ) (b now : ℕ) (r : Round)
    → IsSane s
    → IsBackoff s b
    → GoesOn s now (round s ctx b now r)
unfolding round
round-GoesOn s ctx b now r sane h = ground (
  arith,
  GoesOn-weaken s now (now + r.connecting) (after_connect s ctx b (now + r.connecting) r r.connect)
      (omega arith) (after_connect-GoesOn s ctx b (now + r.connecting) r r.connect sane h),
)

follow-sleeps :
    (s : Settings) (b now : ℕ) (rest : ℕ → ℕ → Ran) (n : Next)
    → GoesOn s now n
    → ((b' t : ℕ) → IsBackoff s b' → All (IsSleep s) (rest b' t).sleeps)
    → All (IsSleep s) (follow rest b n).sleeps
follow-sleeps s b now rest (leave e t) g ih = tt
follow-sleeps s b now rest (again b' t d) g ih = (g.1, ih b' t g.0)

loop-sleeps :
    (s : Settings) (ctx : Option ℕ) (b now : ℕ) (rs : List Round)
    → IsSane s
    → IsBackoff s b
    → All (IsSleep s) (loop s ctx b now rs).sleeps
unfolding loop
loop-sleeps s ctx b now [] sane h = tt
loop-sleeps s ctx b now (r ∷ rs) sane h =
    follow-sleeps s b now (λ b' t. loop s ctx b' t rs) (round s ctx b now r)
      (round-GoesOn s ctx b now r sane h) (λ b' t g. loop-sleeps s ctx b' t rs sane g)

pub settings-initial : (l : ReconnectLoop) → IsBackoff (settings l) (settings l).initial
settings-initial l = ground arith

-- Whatever the callbacks do, each pause between two connects is the one that follows a closed peer
-- or lies between InitialBackoff and MaxBackoff.
pub run-sleeps :
    (l : ReconnectLoop) (ctx : Option ℕ) (now : ℕ) (rs : List Round)
    → IsSane (settings l)
    → All (IsSleep (settings l)) (run l ctx now rs).sleeps
unfolding run settings
run-sleeps l ctx now rs sane =
    let looped =
      loop-sleeps (settings l) ctx (settings l).initial now rs sane (settings-initial l) in
    elim (Bool-cases l.has_callbacks) [ inl e ↦ rw e looped | inr e ↦ rw e tt ]

-- The pause after the failure that `k` others came before: it doubles from InitialBackoff on, and
-- all but the first are cut at MaxBackoff.
abbrev pub delay : Settings → ℕ → ℕ
delay s zero = s.initial
delay s (suc k) = min (s.initial * 2 ^ suc k) s.most

abbrev pub delays : Settings → ℕ → ℕ → List ℕ
delays s k zero = []
delays s k (suc n) = delay s k ∷ delays s (suc k) n

twice_more : (i k : ℕ) → i * 2 ^ suc k ≡ i * 2 ^ k * 2
twice_more i k = grind arith

escalate-delay : (s : Settings) (k : ℕ) → IsSane s → escalate (delay s k) s.most ≡ delay s (suc k)
escalate-delay s zero sane = ground (arith, escalate_lem s.initial s.most)
escalate-delay s (suc k) sane =
    ground (arith, escalate_lem (delay s (suc k)) s.most, twice_more s.initial (suc k))

-- The schedule's values stay positive, and below the sign bit.
delay_bound : (s : Settings) (k : ℕ) → IsSane s → (0 < delay s k) × (delay s k < 2 ^ 62)
delay_bound s zero sane = ground arith
delay_bound s (suc k) sane = ground (arith, delay_bound s k sane, twice_more s.initial k)

-- The rounds in which Connect fails, for a reason that a retry may mend.
abbrev pub Failing : List Round → Type 0
Failing rs = All (λ r. r.connect ≡ failed) rs

failing-round :
    (s : Settings) (b now : ℕ) (r : Round)
    → r.connect ≡ failed
    → 0 < b
    → b < sign_bit
    → round s none b now r ≡ again (escalate b s.most) (now + r.connecting + b) b
unfolding round after_connect retry sleep_or_done
failing-round s b now r e h g = rw e (ground arith)

loop-delays :
    (s : Settings) (k now : ℕ) (rs : List Round)
    → IsSane s
    → Failing rs
    → (loop s none (delay s k) now rs).sleeps ≡ delays s k (length rs)
unfolding loop
loop-delays s k now [] sane h = refl
loop-delays s k now (r ∷ rs) sane h =
    let (low, high) = delay_bound s k sane in
    rw (failing-round s (delay s k) now r h.0 low (omega arith), escalate-delay s k sane)
      (ap (◌∷◌ (delay s k)) (loop-delays s (suc k) (now + r.connecting + delay s k) rs sane h.1))

-- While the context lives and Connect keeps failing, the pauses are InitialBackoff, then twice the
-- last one each time, cut at MaxBackoff.
pub run-delays :
    (l : ReconnectLoop) (now : ℕ) (rs : List Round)
    → l.has_callbacks ≡ true
    → IsSane (settings l)
    → Failing rs
    → (run l none now rs).sleeps ≡ delays (settings l) 0 (length rs)
unfolding run settings
run-delays l now rs e sane h = rw e (loop-delays (settings l) 0 now rs sane h)
