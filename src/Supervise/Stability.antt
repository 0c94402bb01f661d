-- ===== src/Supervise/Stability.antt =====
-- resumable_client.go: how long supervise keeps a session.
use pollmux.Base.{
  leb, if◌then◌else◌, ℕ, ◌+◌, ◌<◌, ◌≤◌, ◌≡◌, refl, true, false, List, [], ◌∷◌, ◌++◌, ◌⊎◌, ◌==◌,
  arith, All, length, Bool-cases, inl, inr,
}
use pollmux.Supervise.{
  returned, on_session_closed, then_more, ResumeStabilityGuard, Legs, Supervised, fails, going,
  transport, body_timeout, resumed, record_body_timeout, record_resume, same_progress,
  after_resumed, after_legs, one_set, supervise_from, supervise,
}

-- Legs whose transport broke within 2 s, with a resume that worked, and no byte moved either way.
abbrev pub IsUseless : Legs → Type 0
IsUseless l =
    (l.stopped ≡ false)
    × (l.error ≡ transport)
    × (l.broken ≡ false)
    × (l.duration < 2000)
    × (l.resume ≡ resumed)
    × (same_progress l.after_resume l.before ≡ true)

useless_set :
    (g : ResumeStabilityGuard) (l : Legs)
    → IsUseless l
    → one_set g l ≡ (
        if leb 5 (g.consecutive_fast + 1)
        then fails
        else going
            (record { consecutive_fast = g.consecutive_fast + 1; consecutive_body_timeouts = 0 }))
unfolding one_set after_legs after_resumed record_body_timeout record_resume
useless_set g l (a, b, c, d, e, f) = rw (a, b, c, e, f) (ground (arith, d))

fast_from :
    (g : ResumeStabilityGuard) (ls : List Legs)
    → All IsUseless ls
    → 5 ≤ g.consecutive_fast + length ls
    → 0 < length ls
    → supervise_from g ls ≡ fails
unfolding supervise_from
fast_from g [] h enough some_more = ground (arith, some_more)
fast_from g (l ∷ ls) h enough some_more = elim (Bool-cases (leb 5 (g.consecutive_fast + 1))) [
  | inl e ↦ rw (useless_set g l h.0, e)
  | inr e ↦
      rw (useless_set g l h.0, e)
        (fast_from
          (record { consecutive_fast = g.consecutive_fast + 1; consecutive_body_timeouts = 0 }) ls
          h.1 (omega (arith, enough)) (ground (arith, e, enough)))
]

-- What comes behind some sets of legs is judged with the guard that they leave.
supervise_from-append :
    (g : ResumeStabilityGuard) (before ls : List Legs)
    → supervise_from g (before ++ ls)
      ≡ then_more (λ h. supervise_from h ls) (supervise_from g before)
unfolding supervise_from
supervise_from-append g [] ls = refl
supervise_from-append g (l ∷ before) ls =
    more (one_set g l) (λ h. supervise_from-append h before ls)
  where
    more :
        (s : Supervised)
        → ((h : ResumeStabilityGuard)
            → supervise_from h (before ++ ls)
              ≡ then_more (λ h. supervise_from h ls) (supervise_from h before))
        → then_more (λ h. supervise_from h (before ++ ls)) s
          ≡ then_more (λ h. supervise_from h ls) (then_more (λ h. supervise_from h before) s)
    more returned ih = refl
    more on_session_closed ih = refl
    more fails ih = refl
    more (going h) ih = ih h

-- Whatever sets of legs came before, as long as supervise goes on behind them: five in a row that break
-- within 2 s with a plain transport error, on a layer that is whole, each behind a resume that worked,
-- with no byte moved either way, make it give the session up. It has not been stopped.
pub supervise-fast :
    (before : List Legs) (g : ResumeStabilityGuard) (ls : List Legs)
    → supervise before ≡ going g
    → All IsUseless ls
    → 5 ≤ length ls
    → supervise (before ++ ls) ≡ fails
unfolding supervise
supervise-fast before g ls e h enough =
    rw
      (
        supervise_from-append (record { consecutive_fast = 0; consecutive_body_timeouts = 0 })
            before ls,
        e,
      )
      (fast_from g ls h (omega (arith, enough)) (omega (arith, enough)))

-- Legs, however long, that ended in a response whose body did not finish, with no byte received, and a
-- resume that worked.
abbrev pub IsStuck : Legs → Type 0
IsStuck l =
    (l.stopped ≡ false)
    × (l.error ≡ body_timeout)
    × (l.broken ≡ false)
    × ((l.recv_after == l.before.recv) ≡ true)
    × (l.resume ≡ resumed)

-- One more stuck set: the session is given up, or the counter moves on.
abbrev Counts : ℕ → Supervised → Type 0
Counts n returned = ⊥
Counts n on_session_closed = ⊥
Counts n fails = Unit
Counts n (going h) = (h.consecutive_body_timeouts ≡ n) × (n < 3)

stuck_set :
    (g : ResumeStabilityGuard) (l : Legs)
    → IsStuck l
    → Counts (g.consecutive_body_timeouts + 1) (one_set g l)
unfolding one_set after_legs after_resumed record_body_timeout record_resume
stuck_set g l (a, b, c, d, e) = rw (a, b, c, d, e) (ground arith)

stuck_from :
    (g : ResumeStabilityGuard) (ls : List Legs)
    → All IsStuck ls
    → 3 ≤ g.consecutive_body_timeouts + length ls
    → 0 < length ls
    → supervise_from g ls ≡ fails
unfolding supervise_from
stuck_from g [] h enough some_more = ground (arith, some_more)
stuck_from g (l ∷ ls) h enough some_more =
    stuck_more (one_set g l) (stuck_set g l h.0)
      (λ k e less. stuck_from k ls h.1 (omega (arith, e, enough)) (omega (arith, e, less, enough)))
  where
    stuck_more :
        (s : Supervised)
        → Counts (g.consecutive_body_timeouts + 1) s
        → ((k : ResumeStabilityGuard)
            → k.consecutive_body_timeouts ≡ g.consecutive_body_timeouts + 1
            → g.consecutive_body_timeouts + 1 < 3
            → supervise_from k ls ≡ fails)
        → then_more (λ k. supervise_from k ls) s ≡ fails
    stuck_more returned c more = elim c [ ]
    stuck_more on_session_closed c more = elim c [ ]
    stuck_more fails c more = refl
    stuck_more (going k) c more = more k c.0 c.1

-- Three sets of legs in a row whose batch responses never finish, and that receive nothing, make
-- supervise give the session up, however long each of them lasts.
pub supervise-stuck : (ls : List Legs) → All IsStuck ls → 3 ≤ length ls → supervise ls ≡ fails
unfolding supervise
supervise-stuck ls h enough =
    stuck_from (record { consecutive_fast = 0; consecutive_body_timeouts = 0 }) ls h
      (omega (arith, enough)) (omega (arith, enough))

-- Legs that broke, however soon, with some byte moved by the end of a resume that worked. Where they
-- ended in a response whose body did not finish, some byte was received.
abbrev pub IsUseful : Legs → Type 0
IsUseful l =
    (l.stopped ≡ false)
    × ((l.error ≡ transport)
        ⊎ ((l.error ≡ body_timeout) × ((l.recv_after == l.before.recv) ≡ false)))
    × (l.broken ≡ false)
    × (l.resume ≡ resumed)
    × (same_progress l.after_resume l.before ≡ false)

useful_set :
    (g : ResumeStabilityGuard) (l : Legs)
    → IsUseful l
    → one_set g l ≡ going (record { consecutive_fast = 0; consecutive_body_timeouts = 0 })
unfolding one_set after_legs after_resumed record_body_timeout record_resume
useful_set g l (a, inl b, c, d, e) = rw (a, b, c, d, e) (ground arith)
useful_set g l (a, inr (b, f), c, d, e) = rw (a, b, c, f, d, e) (ground arith)

useful_from :
    (g : ResumeStabilityGuard) (l : Legs) (ls : List Legs)
    → All IsUseful (l ∷ ls)
    → supervise_from g (l ∷ ls)
      ≡ going (record { consecutive_fast = 0; consecutive_body_timeouts = 0 })
unfolding supervise_from
useful_from g l [] h = rw (useful_set g l h.0) refl
useful_from g l (m ∷ ls) h =
    rw (useful_set g l h.0)
      (useful_from (record { consecutive_fast = 0; consecutive_body_timeouts = 0 }) m ls h.1)

-- Whatever sets of legs came before, as long as supervise goes on behind them: it also goes on behind
-- any further sets, however many and however short, that each move some byte and break with a plain
-- transport error, or with an unfinished body after some byte was received; and both its counters
-- start again. The layer is whole, each resume works, and it has not been stopped.
pub supervise-useful :
    (before : List Legs) (g : ResumeStabilityGuard) (l : Legs) (ls : List Legs)
    → supervise before ≡ going g
    → All IsUseful (l ∷ ls)
    → supervise (before ++ (l ∷ ls))
      ≡ going (record { consecutive_fast = 0; consecutive_body_timeouts = 0 })
unfolding supervise
supervise-useful before g l ls e h =
    rw
      (
        supervise_from-append (record { consecutive_fast = 0; consecutive_body_timeouts = 0 })
            before (l ∷ ls),
        e,
      )
      (useful_from g l ls h)
