-- ===== src/Supervise.antt =====
-- resumable_client.go: supervise and its resumeStabilityGuard. What one set of legs and the resume
-- behind it do is a round of a script; the layer is seen by the progress that it reports.
pub mod Stability
mod Runs
use pollmux.Base.{
  ℕ, ◌+◌, Bool, true, false, not, ◌&&◌, ◌||◌, List, [], ◌∷◌, leb, ◌==◌, if◌then◌else◌,
}
use pollmux.Reliable.{Progress}

-- resumableLegsMinStable, in milliseconds.
abbrev pub resumable_legs_min_stable : ℕ
resumable_legs_min_stable = 2000

abbrev pub max_consecutive_fast_resumes : ℕ
max_consecutive_fast_resumes = 5

abbrev pub max_consecutive_batch_body_timeouts : ℕ
max_consecutive_batch_body_timeouts = 3

pub record ResumeStabilityGuard : Type 0 where
  pub consecutive_fast : ℕ
  pub consecutive_body_timeouts : ℕ

-- The counters stay far below the bounds of int.
unfoldable pub record_body_timeout :
    ResumeStabilityGuard → Bool → Bool → ResumeStabilityGuard × Bool
record_body_timeout g body_timed_out received =
    if not body_timed_out || received
    then (record g { consecutive_body_timeouts = 0 }, false)
    else (
      record g { consecutive_body_timeouts = g.consecutive_body_timeouts + 1 },
      leb max_consecutive_batch_body_timeouts (g.consecutive_body_timeouts + 1),
    )

unfoldable pub record_resume : ResumeStabilityGuard → ℕ → Bool → ResumeStabilityGuard × Bool
record_resume g legs_duration progressed =
    if leb resumable_legs_min_stable legs_duration || progressed
    then (record g { consecutive_fast = 0 }, false)
    else (
      record g { consecutive_fast = g.consecutive_fast + 1 },
      leb max_consecutive_fast_resumes (g.consecutive_fast + 1),
    )

-- Why the legs ended: isSessionClosedErr, errReplayGap or errBadAck, errBatchBodyTimeout, another.
pub data LegsError : Type 0 where
  session_closed inconsistent body_timeout transport : LegsError

-- How resume ended; `cancelled` where the context is done or the connection closed by then.
pub data Resume : Type 0 where
  resumed cancelled closed_by_server refused : Resume

pub record Legs : Type 0 where
  pub duration : ℕ
  -- Whether the context is done, or the connection closed, when the legs have ended.
  pub stopped : Bool
  pub error : LegsError
  pub broken : Bool
  pub before : Progress
  pub recv_after : ℕ
  pub resume : Resume
  pub after_resume : Progress

-- supervise returns by itself, by onSessionClosed or by fail, or goes on.
pub data Supervised : Type 0 where
  returned on_session_closed fails : Supervised
  going : ResumeStabilityGuard → Supervised

unfoldable pub same_progress : Progress → Progress → Bool
same_progress p q = p.acked == q.acked && p.recv == q.recv

abbrev pub give_up_or : ResumeStabilityGuard × Bool → Supervised
give_up_or (g, true) = fails
give_up_or (g, false) = going g

unfoldable pub after_resumed : ResumeStabilityGuard → Legs → Resume → Supervised
after_resumed g l cancelled = returned
after_resumed g l closed_by_server = on_session_closed
after_resumed g l refused = fails
after_resumed g l resumed =
    give_up_or (record_resume g l.duration (not (same_progress l.after_resume l.before)))

abbrev pub after_timeouts : Legs → ResumeStabilityGuard × Bool → Supervised
after_timeouts l (g, true) = fails
after_timeouts l (g, false) = after_resumed g l l.resume

unfoldable pub after_legs : ResumeStabilityGuard → Legs → LegsError → Supervised
after_legs g l session_closed = on_session_closed
after_legs g l inconsistent = fails
after_legs g l body_timeout =
    if l.broken
    then fails
    else after_timeouts l (record_body_timeout g true (not (l.recv_after == l.before.recv)))
after_legs g l transport =
    if l.broken
    then fails
    else after_timeouts l (record_body_timeout g false (not (l.recv_after == l.before.recv)))

-- One pass of supervise's loop.
unfoldable pub one_set : ResumeStabilityGuard → Legs → Supervised
one_set g l = if l.stopped then returned else after_legs g l l.error

abbrev pub then_more : (ResumeStabilityGuard → Supervised) → Supervised → Supervised
then_more more returned = returned
then_more more on_session_closed = on_session_closed
then_more more fails = fails
then_more more (going g) = more g

unfoldable pub supervise_from : ResumeStabilityGuard → List Legs → Supervised
supervise_from g [] = going g
supervise_from g (l ∷ ls) = then_more (λ h. supervise_from h ls) (one_set g l)

unfoldable pub supervise : List Legs → Supervised
supervise ls = supervise_from (record { consecutive_fast = 0; consecutive_body_timeouts = 0 }) ls
