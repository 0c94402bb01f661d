-- ===== src/Resuming.antt =====
-- resumable_client.go: resume and doResume, the client's half of the handshake. Each attempt of a
-- script says what the server answered and how long that took; times are milliseconds of one clock.
pub mod Deadline
pub mod Layer
mod Runs
use pollmux.Base.{
  ℕ, ◌+◌, ◌*◌, ◌/◌, Bool, true, false, not, List, [], ◌∷◌, Option, none, some, ltb, ◌==◌,
  if◌then◌else◌, min,
}
use pollmux.Reliable.{Reliable, resume_out}
use pollmux.Reconnect.{sleep_or_done}

-- What came of the POST to /resume: no response, a status, a body that is no ResumeResponse, or one.
pub data ResumeAnswer : Type 0 where
  no_answer no_json : ResumeAnswer
  status : ℕ → ResumeAnswer
  resume_response : Bool → ℕ → ResumeAnswer

-- What doResume returns: the server's offset, a fatalPollError, or another error.
pub data Exchanged : Type 0 where
  server_recv fatal_status : ℕ → Exchanged
  exchange_failed : Exchanged

unfoldable pub do_resume : ResumeAnswer → Exchanged
do_resume no_answer = exchange_failed
do_resume no_json = exchange_failed
do_resume (status n) = fatal_status n
do_resume (resume_response true recv) = server_recv recv
do_resume (resume_response false recv) = fatal_status 409

-- `took` is the time of the exchange and of the dial behind it, `spread` what jitter drew, in
-- thousandths, and `tie` whether the context wins where both it and the timer are due.
pub record Attempt : Type 0 where
  pub answer : ResumeAnswer
  pub dialled : Bool
  pub took : ℕ
  pub spread : ℕ
  pub tie : Bool

-- How resume ends; `trying` is a loop that has run all its attempts, `panicked` a Go panic.
pub data ResumeEnd : Type 0 where
  resumed out_of_range exhausted cancelled trying panicked : ResumeEnd
  gave_up : ℕ → ResumeEnd

pub record Resumed : Type 0 where
  pub layer : Reliable
  pub now : ℕ
  pub ending : ResumeEnd

unfoldable pub jitter : ℕ → ℕ → ℕ
jitter d spread = d * spread / 1000

-- What one attempt comes to.
pub data Tried : Type 0 where
  tried : Reliable → ResumeEnd → Tried
  retries : Reliable → Tried

after_resume_out : Bool → Bool → Reliable → Option (Reliable × Bool) → Tried
after_resume_out websocket dialled rl none = tried rl panicked
after_resume_out websocket dialled rl (some (r, false)) = tried r out_of_range
after_resume_out websocket dialled rl (some (r, true)) =
    if not websocket then tried r resumed else if dialled then tried r resumed else retries r

unfoldable pub try_once : Bool → Reliable → Bool → Exchanged → Tried
unfolding after_resume_out
try_once websocket rl dialled (server_recv recv) =
    after_resume_out websocket dialled rl (resume_out rl recv)
try_once websocket rl dialled (fatal_status n) =
    if ltb n 500 then tried rl (gave_up n) else retries rl
try_once websocket rl dialled exchange_failed = retries rl

slept : (ℕ → Resumed) → Reliable → Bool × ℕ → Resumed
slept k r (true, now) = k now
slept k r (false, now) = record { layer = r; now = now; ending = cancelled }

after_try : (Reliable → ℕ → Resumed) → Option ℕ → ℕ → ℕ → ℕ → Attempt → Tried → Resumed
unfolding slept
after_try k ctx deadline backoff now a (tried r e) = record { layer = r; now = now; ending = e }
after_try k ctx deadline backoff now a (retries r) =
    let more = slept (λ t. k r t) r (sleep_or_done ctx now (jitter backoff a.spread) a.tie) in
    if ltb deadline now then record { layer = r; now = now; ending = exhausted } else more

unfoldable pub resume_loop : Bool → Option ℕ → ℕ → ℕ → ℕ → Reliable → List Attempt → Resumed
unfolding after_try try_once do_resume
resume_loop websocket ctx deadline backoff now rl [] = record {
  layer = rl;
  now = now;
  ending = trying;
}
resume_loop websocket ctx deadline backoff now rl (a ∷ rest) =
    after_try (λ r t. resume_loop websocket ctx deadline (min (backoff * 2) 2000) t r rest) ctx
      deadline backoff (now + a.took) a (try_once websocket rl a.dialled (do_resume a.answer))

-- resume, begun at `now` with the server's grace; `ctx` is when its context is cancelled, if ever.
unfoldable pub resume : Bool → Option ℕ → ℕ → ℕ → Reliable → List Attempt → Resumed
unfolding resume_loop
resume websocket ctx grace now rl attempts =
    resume_loop websocket ctx (now + grace) 250 now rl attempts
