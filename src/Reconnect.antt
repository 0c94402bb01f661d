-- ===== src/Reconnect.antt =====
-- reconnect.go: the loop that connects, serves and connects again. A duration is a count of
-- nanoseconds; the backoff is an int64 and held as its 64-bit word. The context is the time of its
-- cancellation, and every round of the loop carries what the two callbacks do in it.
pub mod Backoff
pub mod Ending
mod Runs
use pollmux.Base.{
  ℕ, ◌+◌, ◌*◌, ◌%◌, min, max, Bool, true, false, ◌&&◌, ◌||◌, List, [], ◌∷◌, ◌++◌, Option, none,
  some, ℤ, pos, negsuc, pos_part, is_zero, ltb, leb, ◌==◌, if◌then◌else◌, u64_mod,
}

-- OutcomeTransportFailed and the others; the switch takes every other value for the first.
pub data Outcome : Type 0 where
  transport_failed peer_closed superseded shutdown : Outcome

pub record ReconnectLoop : Type 0 where
  -- Whether Connect and Serve are both set.
  pub has_callbacks : Bool
  pub initial_backoff : ℤ
  pub max_backoff : ℤ
  pub peer_closed_pause : ℤ
  pub min_stable_duration : ℤ

-- protocol.go.
abbrev pub second : ℕ
second = 1000000000

abbrev pub default_initial_backoff : ℕ
default_initial_backoff = second

abbrev pub default_max_backoff : ℕ
default_max_backoff = 180 * second

abbrev pub default_peer_closed_pause : ℕ
default_peer_closed_pause = 500000000

abbrev pub default_min_stable_duration : ℕ
default_min_stable_duration = 5 * second

-- orDuration, of client.go.
unfoldable pub or_duration : ℤ → ℕ → ℕ
or_duration v fallback = if leb (pos_part v) 0 then fallback else pos_part v

pub record Settings : Type 0 where
  pub initial : ℕ
  pub most : ℕ
  pub peer_pause : ℕ
  pub min_stable : ℕ

unfoldable pub settings : ReconnectLoop → Settings
settings l = record {
  initial = or_duration l.initial_backoff default_initial_backoff;
  most = or_duration l.max_backoff default_max_backoff;
  peer_pause = or_duration l.peer_closed_pause default_peer_closed_pause;
  min_stable =
      if is_zero l.min_stable_duration
      then default_min_stable_duration
      else pos_part l.min_stable_duration;
}

-- The sign bit of an int64.
abbrev pub sign_bit : ℕ
sign_bit = 9223372036854775808

-- `min(backoff*2, maxBackoff)`, on int64: a product with the sign bit is the smaller.
unfoldable pub escalate : ℕ → ℕ → ℕ
escalate backoff most =
    let twice = (backoff * 2) % u64_mod in if leb sign_bit twice then twice else min twice most

-- A context by the time at which it is cancelled, if it is. `ctx.Err() != nil` at `now`:
abbrev pub cancelled_by : Option ℕ → ℕ → Bool
cancelled_by none now = false
cancelled_by (some c) now = leb c now

-- sleepOrDone: whether the timer ran out, and the time it returns. Where the timer and the
-- cancellation come at one moment, `tie` is the select's choice.
abbrev wait_on : Option ℕ → ℕ → ℕ → Bool → Bool × ℕ
wait_on none now d tie = (true, now + d)
wait_on (some c) now d tie =
    if ltb c (now + d) || (c == now + d && tie) then (false, max c now) else (true, now + d)

unfoldable pub sleep_or_done : Option ℕ → ℕ → ℕ → Bool → Bool × ℕ
sleep_or_done ctx now d tie =
    if leb d 0 || leb sign_bit d
    then (if cancelled_by ctx now then false else true, now)
    else wait_on ctx now d tie

-- What Connect does: a connection, ErrProtocolVersion, or another error.
pub data Connected : Type 0 where
  connection version_rejected failed : Connected

pub record Round : Type 0 where
  pub connect : Connected
  pub connecting : ℕ
  pub outcome : Outcome
  pub serving : ℕ
  pub tie : Bool

-- What Run returns: the two errors of its own, `ctx.Err()` and nil.
pub data Exit : Type 0 where
  no_callbacks version cancelled stopped : Exit

-- A round's end: a return at a time, or the next round's backoff and start, after a sleep.
pub data Next : Type 0 where
  leave : Exit → ℕ → Next
  again : ℕ → ℕ → ℕ → Next

abbrev pub after_sleep : ℕ → ℕ → Bool × ℕ → Next
after_sleep backoff slept (true, now) = again backoff now slept
after_sleep backoff slept (false, now) = leave cancelled now

unfoldable pub retry : Settings → Option ℕ → ℕ → ℕ → Bool → Next
retry s ctx backoff now tie =
    after_sleep (escalate backoff s.most) backoff (sleep_or_done ctx now backoff tie)

-- The backoff that a failed transport sleeps for.
unfoldable pub stable_reset : Settings → ℕ → ℕ → ℕ
stable_reset s backoff serving =
    if ltb 0 s.min_stable && leb s.min_stable serving then s.initial else backoff

-- The switch on the outcome, after Serve.
unfoldable pub after_serve : Settings → Option ℕ → ℕ → ℕ → Round → Outcome → Next
after_serve s ctx backoff now r shutdown = leave cancelled now
after_serve s ctx backoff now r superseded = leave stopped now
after_serve s ctx backoff now r peer_closed =
    after_sleep backoff s.peer_pause (sleep_or_done ctx now s.peer_pause r.tie)
after_serve s ctx backoff now r transport_failed =
    retry s ctx (stable_reset s backoff r.serving) now r.tie

-- What comes after Connect.
unfoldable pub after_connect : Settings → Option ℕ → ℕ → ℕ → Round → Connected → Next
after_connect s ctx backoff now r connection =
    after_serve s ctx backoff (now + r.serving) r r.outcome
after_connect s ctx backoff now r version_rejected = leave version now
after_connect s ctx backoff now r failed =
    if cancelled_by ctx now then leave cancelled now else retry s ctx backoff now r.tie

-- One pass of the loop.
unfoldable pub round : Settings → Option ℕ → ℕ → ℕ → Round → Next
round s ctx backoff now r =
    if cancelled_by ctx now
    then leave cancelled now
    else after_connect s ctx backoff (now + r.connecting) r r.connect

-- The loop over the rounds given: what it returned, if it has, the time, the backoff and the
-- sleeps that were slept out.
pub record Ran : Type 0 where
  pub exit : Option Exit
  pub now : ℕ
  pub backoff : ℕ
  pub sleeps : List ℕ

-- `rest` is the loop's later rounds, from their backoff and start.
abbrev pub follow : (ℕ → ℕ → Ran) → ℕ → Next → Ran
follow rest backoff (leave e t) = record { exit = some e; now = t; backoff = backoff; sleeps = [] }
follow rest backoff (again b t d) = record (rest b t) { sleeps = d ∷ (rest b t).sleeps }

unfoldable pub loop : Settings → Option ℕ → ℕ → ℕ → List Round → Ran
loop s ctx backoff now [] = record { exit = none; now = now; backoff = backoff; sleeps = [] }
loop s ctx backoff now (r ∷ rs) =
    follow (λ b t. loop s ctx b t rs) backoff (round s ctx backoff now r)

unfoldable pub run : ReconnectLoop → Option ℕ → ℕ → List Round → Ran
run l ctx now rs =
    if l.has_callbacks
    then loop (settings l) ctx (settings l).initial now rs
    else record { exit = some no_callbacks; now = now; backoff = 0; sleeps = [] }
